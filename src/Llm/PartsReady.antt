-- ===== src/Llm/PartsReady.antt =====
-- On a supported model the first part of buildLlmNet succeeds, and leaves the slices and the pipes
-- that the operations need.
use distributed_llama.Base.{
  ℕ, ◌*◌, ◌/◌, ◌%◌, ◌^◌, ◌≡◌, refl, subst, arith, true, List, ◌==◌, ==_iff, ok,
}
use native.Mathlib.Nat.{mul_comm}
use distributed_llama.Core.Sizes.{NnSize2D, block_size, get_bytes, size_2d, size_1d}
use distributed_llama.Core.Slices.{
  NnRowMatmulSlice, NnColMatmulSlice, slice_kv_cache, slice_multi_head_att, slice_row_matmul,
  slice_col_matmul,
}
use distributed_llama.Core.Config.{NnNodeConfig}
use distributed_llama.Core.Builder.{new_net_builder, add_pipe, add_pre_sync, build_net}
use distributed_llama.Cpu.Pointers.{NnCpuDevice, source_size}
use distributed_llama.Cpu.Resolves.{Sized, size_2d_ok}
use distributed_llama.Llm.{LlmHeader}
use distributed_llama.Llm.Parts.{LlmParts, build_parts}
use distributed_llama.Llm.Layout.{IsSliced, HasPipes}
use distributed_llama.Llm.Supported.{
  IsSupported, row_ok, col_ok, weight_known, block_size-weight, dim_whole, sync_known,
  whole-HasBytes, whole_wrap, whole_mul,
}

abbrev pub device : LlmParts → NnNodeConfig → List ℕ → NnCpuDevice
device n node flags = record { net_config = n.net_config; node_config = node; buffer_flags = flags }

-- What the rest of buildLlmNet, and the devices, find.
pub record IsPrepared (h : LlmHeader) (nodes batches : ℕ) (n : LlmParts) : Type 0 where
  pub nodes_is : n.net_config.n_nodes ≡ nodes
  pub batches_is : n.net_config.n_batches ≡ batches
  pub slots_is : n.net_config.n_slots ≡ h.slots
  pub sliced : IsSliced h n nodes
  pub pipes : (node : NnNodeConfig) (flags : List ℕ) → HasPipes (device n node flags) h n nodes

module _ (h : LlmHeader) (nodes batches : ℕ) (good : IsSupported h nodes) where
  parts_of :
      (q k w1 wcls : NnRowMatmulSlice) (wo w2 : NnColMatmulSlice) (zq : NnSize2D)
      → slice_row_matmul h.weight_type nodes h.dim h.dim ≡ ok q
      → (q.n ≡ h.dim) × (q.d0 ≡ h.dim / nodes)
      → slice_row_matmul h.weight_type nodes h.dim h.kv_dim ≡ ok k
      → k.n ≡ h.dim
      → slice_col_matmul h.weight_type nodes h.dim h.dim ≡ ok wo
      → (wo.n0 ≡ h.dim / nodes) × (wo.d ≡ h.dim)
      → slice_row_matmul h.weight_type nodes h.dim h.hidden_dim ≡ ok w1
      → (w1.n ≡ h.dim) × (w1.d0 ≡ h.hidden_dim / nodes)
      → slice_col_matmul h.weight_type nodes h.hidden_dim h.dim ≡ ok w2
      → (w2.n0 ≡ h.hidden_dim / nodes) × (w2.d ≡ h.dim)
      → slice_row_matmul h.weight_type nodes h.dim h.vocab_size ≡ ok wcls
      → (wcls.n ≡ h.dim) × (wcls.d0 ≡ h.vocab_size / nodes)
      → size_2d h.sync_type batches (h.dim * nodes % 2 ^ 32) ≡ ok zq
      → Sized h.sync_type batches (h.dim * nodes) zq
      → (h.kv_dim % nodes == 0) ≡ true
      → (h.n_heads % nodes == 0) ≡ true
      → (n : LlmParts) × (build_parts h nodes batches ≡ ok n) × IsPrepared h nodes batches n
  unfolding build_parts size_2d size_1d get_bytes slice_kv_cache slice_multi_head_att
      new_net_builder add_pipe add_pre_sync build_net source_size
  parts_of q k w1 wcls wo w2 zq eq (qn, qd) ek kn ewo (won, wod) ew1 (w1n, w1d) ew2 (w2n, w2d) ewc
        (wcn, wcd) ez sz kv heads =
      rw (kv, heads, eq, ek, ewo, ew1, ew2, ewc, ez)
        (
          _,
          refl,
          record {
            nodes_is = refl;
            batches_is = refl;
            slots_is = refl;
            sliced = record {
              dim_divides = good.dim_divides;
              vocab_divides = good.vocab_divides;
              q_n = qn;
              q_d0 = qd;
              k_n = kn;
              v_n = kn;
              wo_n0 = won;
              wo_d = wod;
              w1_n = w1n;
              w1_d0 = w1d;
              w3_n = w1n;
              w2_n0 = w2n;
              w2_d = w2d;
              wcls_n = wcn;
              wcls_d0 = wcd;
              key_float = refl;
              value_float = refl;
              token_embedding = (refl, refl, refl);
              rms_norm = (refl, refl, refl);
            };
            pipes = λ node flags. record {
              position_lt = omega arith;
              position = record { size = _; there = refl; sized = (refl, refl, refl) };
              token = record { size = _; there = refl; sized = (refl, refl, refl) };
              x = record { size = _; there = refl; sized = (refl, refl, refl) };
              logits = record { size = _; there = refl; sized = (refl, refl, refl) };
              first = refl;
              zq = record { size = zq; there = refl; sized = sz };
            };
          },
        )

  pub parts_ok :
      (n : LlmParts) × (build_parts h nodes batches ≡ ok n) × IsPrepared h nodes batches n
  parts_ok =
      let (q, eq, qn, qd) = rows h.dim good.dim_divides in
      let (k, ek, kn, kd) = rows h.kv_dim good.kv_dim_divides in
      let (wo, ewo, won, wod) = columns h.dim good.dim_blocks good.dim_divides in
      let (w1, ew1, w1n, w1d) = rows h.hidden_dim good.hidden_divides in
      let (w2, ew2, w2n, w2d) = columns h.hidden_dim good.hidden_blocks good.hidden_divides in
      let (wc, ewc, wcn, wcd) = rows h.vocab_size good.vocab_divides in
      let (zq, ez, sz) =
        size_2d_ok h.sync_type batches width
          (whole-HasBytes h.sync_type _ (sync_known h nodes good) zq_whole) in
      parts_of q k w1 wc wo w2 zq eq (qn, qd) ek kn ewo (won, wod) ew1 (w1n, w1d) ew2 (w2n, w2d) ewc
        (wcn, wcd) ez (subst (λ x. Sized h.sync_type batches x zq) narrow sz)
        ((==_iff (h.kv_dim % nodes) 0).1 good.kv_dim_divides)
        ((==_iff (h.n_heads % nodes) 0).1 good.heads_divide)
    where
      width : ℕ
      width = h.dim * nodes % 2 ^ 32

      narrow : h.dim * nodes % 2 ^ 32 ≡ h.dim * nodes
      narrow = omega (arith, good.dim_fits)

      block : block_size h.weight_type ≡ block_size h.sync_type
      block = block_size-weight h nodes good

      rows :
          (d : ℕ)
          → d % nodes ≡ 0
          → (s : NnRowMatmulSlice) × (slice_row_matmul h.weight_type nodes h.dim d ≡ ok s)
            × (s.n ≡ h.dim)
            × (s.d0 ≡ d / nodes)
      rows d divides =
          row_ok h.weight_type nodes h.dim d (weight_known h nodes good)
            (rw block (dim_whole h nodes good)) divides

      columns :
          (m : ℕ)
          → m / nodes % block_size h.sync_type ≡ 0
          → m % nodes ≡ 0
          → (s : NnColMatmulSlice) × (slice_col_matmul h.weight_type nodes m h.dim ≡ ok s)
            × (s.n0 ≡ m / nodes)
            × (s.d ≡ h.dim)
      columns m whole divides =
          col_ok h.weight_type nodes m h.dim (weight_known h nodes good) (rw block whole) divides

      zq_whole : batches * width % 2 ^ 32 % block_size h.sync_type ≡ 0
      zq_whole = whole_wrap h.sync_type (batches * width) (
          rw (mul_comm batches width) (
            whole_mul h.sync_type width batches (
              whole_wrap h.sync_type (h.dim * nodes)
                (whole_mul h.sync_type h.dim nodes (dim_whole h nodes good)))))
