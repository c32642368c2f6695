-- ===== src/Llm/BuffersReady.antt =====
-- On a supported model the buffers of a node are made, with the sizes that the operations need.
use native.Mathlib.Nat.{mul_comm}
use distributed_llama.Base.{
  ℕ, ◌*◌, ◌/◌, ◌%◌, ◌≤◌, ◌≡◌, refl, sym, ◌∙◌, arith, inl, inr, Bool-cases, true, false, List, [],
  ◌++◌, length, ok,
}
use distributed_llama.Quants.{NnFloatType, f_32, f_16, f_q40, f_q80, f_unk}
use distributed_llama.Core.Sizes.{NnSize2D, block_size, get_bytes, size_2d}
use distributed_llama.Core.Pointers.{src_buffer}
use distributed_llama.Core.OpQuant.{◌is◌}
use distributed_llama.Core.Slices.{NnRopeSlice}
use distributed_llama.Core.Config.{NnBufferConfig, NnSegmentConfig, NnNodeConfig}
use distributed_llama.Core.Builder.{NnNodeConfigBuilder, new_node_builder, add_buffer}
use distributed_llama.Cpu.Pointers.{source_size}
use distributed_llama.Cpu.Resolves.{Sized, size_2d_ok}
use distributed_llama.Llm.{LlmHeader}
use distributed_llama.Llm.Parts.{LlmParts}
use distributed_llama.Llm.Buffers.{LlmBuffers, build_buffers}
use distributed_llama.Llm.Layout.{HasBuffers}
use distributed_llama.Llm.Supported.{
  IsSupported, sync_known, whole-HasBytes, whole_wrap, whole_mul, dim_whole,
}
use distributed_llama.Llm.PartsReady.{device, IsPrepared}

-- The buffers of the builder, with more behind them.
abbrev pub node_with :
    NnNodeConfigBuilder → List NnBufferConfig → List NnSegmentConfig → NnNodeConfig
node_with b more segments = record {
  node_index = b.node_index;
  buffers = b.buffers ++ more;
  segments = segments;
}

pub record IsLaid (h : LlmHeader) (n : LlmParts) (nodes : ℕ) (rope_slice : NnRopeSlice)
    (node_index : ℕ) (b : LlmBuffers) (s : NnNodeConfigBuilder) : Type 0 where
  pub index_is : s.node_index ≡ node_index
  pub few : length s.buffers ≤ 14
  pub no_segments : s.segments ≡ []
  pub buffers :
      (more : List NnBufferConfig) (segments : List NnSegmentConfig) (flags : List ℕ)
      → HasBuffers (device n (node_with s more segments) flags) h n b nodes
  pub rope_source :
      (more : List NnBufferConfig) (segments : List NnSegmentConfig) (flags : List ℕ)
      → source_size
          (device n (node_with s more segments) flags)
          src_buffer
          b.rope_cache_buffer_index
        ≡ ok rope_slice.cache_size

is_f_32 : (t : NnFloatType) → (t is f_32) ≡ true → t ≡ f_32
is_f_32 f_32 e = refl
is_f_32 f_unk e = cc
is_f_32 f_16 e = cc
is_f_32 f_q40 e = cc
is_f_32 f_q80 e = cc

module _ (h : LlmHeader) (nodes batches : ℕ) (n : LlmParts) (good : IsSupported h nodes)
    (prepared : IsPrepared h nodes batches n) (rope_slice : NnRopeSlice) (node_index : ℕ) where
  float_buffers :
      (yq_slice : NnSize2D)
      → (h.sync_type is f_32) ≡ true
      → size_2d h.sync_type batches (h.dim / nodes) ≡ ok yq_slice
      → Sized h.sync_type batches (h.dim / nodes) yq_slice
      → (r : LlmBuffers × NnNodeConfigBuilder) × (build_buffers h nodes batches n rope_slice
            (new_node_builder node_index)
          ≡ ok r)
        × IsLaid h n nodes rope_slice node_index r.0 r.1
  unfolding build_buffers new_node_builder add_buffer size_2d get_bytes source_size
  float_buffers yq_slice test ey (st, sy, sx) =
      let same : batches ≡ n.net_config.n_batches = sym prepared.batches_is in
      let float : f_32 ≡ h.sync_type = sym (is_f_32 h.sync_type test) in
      rw (test, ey)
        (
          _,
          refl,
          record {
            index_is = refl;
            few = omega arith;
            no_segments = refl;
            buffers = λ more segments flags. record {
              x = record { size = _; there = refl; sized = (refl, same, refl) };
              y = record { size = _; there = refl; sized = (refl, same, refl) };
              yq = record { size = _; there = refl; sized = (float, same, refl) };
              yq_slice = record { size = yq_slice; there = refl; sized = (st, sy ∙ same, sx) };
              q = record { size = _; there = refl; sized = (refl, same, refl) };
              k_temp = record { size = _; there = refl; sized = (refl, same, refl) };
              v_temp = record { size = _; there = refl; sized = (refl, same, refl) };
              d_ff = record { size = _; there = refl; sized = (refl, same, refl) };
              dq = record { size = _; there = refl; sized = (float, same, refl) };
              l = record { size = _; there = refl; sized = (refl, same, refl) };
              inv_rms = record { size = _; there = refl; sized = (refl, same, refl) };
              logits_slice = record { size = _; there = refl; sized = (refl, same, refl) };
              q_lt = omega arith;
              inv_rms_lt = omega arith;
              rope_cache_lt = omega arith;
            };
            rope_source = λ more segments flags. refl;
          },
        )

  block_buffers :
      (yq_slice yq dq : NnSize2D)
      → (h.sync_type is f_32) ≡ false
      → size_2d h.sync_type batches (h.dim / nodes) ≡ ok yq_slice
      → Sized h.sync_type batches (h.dim / nodes) yq_slice
      → size_2d h.sync_type batches h.dim ≡ ok yq
      → Sized h.sync_type batches h.dim yq
      → size_2d h.sync_type batches n.w1_slice.d0 ≡ ok dq
      → Sized h.sync_type batches n.w1_slice.d0 dq
      → (r : LlmBuffers × NnNodeConfigBuilder) × (build_buffers h nodes batches n rope_slice
            (new_node_builder node_index)
          ≡ ok r)
        × IsLaid h n nodes rope_slice node_index r.0 r.1
  unfolding build_buffers new_node_builder add_buffer size_2d get_bytes source_size
  block_buffers yq_slice yq dq test ey (st, sy, sx) eq (qt, qy, qx) ed (dt, dy, dx) =
      let same : batches ≡ n.net_config.n_batches = sym prepared.batches_is in
      rw (test, ey, eq, ed)
        (
          _,
          refl,
          record {
            index_is = refl;
            few = omega arith;
            no_segments = refl;
            buffers = λ more segments flags. record {
              x = record { size = _; there = refl; sized = (refl, same, refl) };
              y = record { size = _; there = refl; sized = (refl, same, refl) };
              yq = record { size = yq; there = refl; sized = (qt, qy ∙ same, qx) };
              yq_slice = record { size = yq_slice; there = refl; sized = (st, sy ∙ same, sx) };
              q = record { size = _; there = refl; sized = (refl, same, refl) };
              k_temp = record { size = _; there = refl; sized = (refl, same, refl) };
              v_temp = record { size = _; there = refl; sized = (refl, same, refl) };
              d_ff = record { size = _; there = refl; sized = (refl, same, refl) };
              dq = record { size = dq; there = refl; sized = (dt, dy ∙ same, dx) };
              l = record { size = _; there = refl; sized = (refl, same, refl) };
              inv_rms = record { size = _; there = refl; sized = (refl, same, refl) };
              logits_slice = record { size = _; there = refl; sized = (refl, same, refl) };
              q_lt = omega arith;
              inv_rms_lt = omega arith;
              rope_cache_lt = omega arith;
            };
            rope_source = λ more segments flags. refl;
          },
        )

  pub buffers_ok :
      (r : LlmBuffers × NnNodeConfigBuilder) × (build_buffers h nodes batches n rope_slice
          (new_node_builder node_index)
        ≡ ok r)
      × IsLaid h n nodes rope_slice node_index r.0 r.1
  buffers_ok =
      let (ys, ey, sy) = sync_size (h.dim / nodes) good.dim_blocks in
      let (yq, eq, sq) = sync_size h.dim (dim_whole h nodes good) in
      let (dq, ed, sd) = sync_size n.w1_slice.d0 (rw prepared.sliced.w1_d0 good.hidden_blocks) in
      elim (Bool-cases (h.sync_type is f_32)) [
        | inl test ↦ float_buffers ys test ey sy
        | inr test ↦ block_buffers ys yq dq test ey sy eq sq ed sd
      ]
    where
      sync_size :
          (x : ℕ)
          → x % block_size h.sync_type ≡ 0
          → (s : NnSize2D) × (size_2d h.sync_type batches x ≡ ok s) × Sized h.sync_type batches x s
      sync_size x whole = size_2d_ok h.sync_type batches x (
          whole-HasBytes h.sync_type _ (sync_known h nodes good) (
            whole_wrap h.sync_type (batches * x)
              (rw (mul_comm batches x) (whole_mul h.sync_type x batches whole))))
