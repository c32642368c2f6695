-- ===== src/Cpu/Batches.antt =====
-- The number of batches that the context of an operation keeps, and the checks that compare with it.
use distributed_llama.Base.{
  ok_injective, ℕ, zero, suc, ◌+◌, ◌*◌, ◌/◌, ◌^◌, ◌%◌, ◌≤◌, ◌<◌, ◌≡◌, refl, sym, ap, subst, ◌∙◌,
  arith, List, [], ◌∷◌, length, ltb, ◌==◌, get_elem?, some, Result, ok, err, Fault, guard, ◌>>=◌,
  >>=-eq-ok, assertion,
}
use distributed_llama.Quants.{NnFloatType}
use distributed_llama.Core.Sizes.{NnSize2D, size_2d, get_bytes}
use distributed_llama.Core.Pointers.{NnPointerType, pntr_raw, pntr_batch, pntr_batched_slice}
use distributed_llama.Core.Config.{
  NnOpCode, NnOpConfig, NnSegmentConfig, op_merge_add, op_embedding, op_inv_rms, op_rms_norm,
  op_matmul, op_rope_llama, op_multihead_att, op_gelu, op_silu, op_mul, op_cast, op_shift,
}
use distributed_llama.Cpu.Pointers.{
  NnCpuDevice, Memory, Resolved, found, source_memory, source_size, resolve_in, resolve_pointer,
}
use distributed_llama.Core.OpQuant.{get_op_quant_type}
use distributed_llama.Cpu.Kernels.{
  get_cpu_op_forward, config_field, NnCpuOpContext, op_init, init_embedding_forward,
  init_rms_norm_forward, init_matmul_forward, init_multi_head_att_forward,
}
use distributed_llama.Cpu.Segments.{
  NnCpuDeviceSegment, resolve_slots, last_sizes, supported, plan_op, plan_ops, init_ops,
  create_segment,
}

-- The operations whose init function compares the height of the input with the number of batches.
abbrev pub ChecksBatches : NnOpCode → Type 0
ChecksBatches op_embedding = Unit
ChecksBatches op_rms_norm = Unit
ChecksBatches op_matmul = Unit
ChecksBatches op_multihead_att = Unit
ChecksBatches _ = ⊥

abbrev pub IsBatched : NnPointerType → Type 0
IsBatched pntr_raw = ⊥
IsBatched pntr_batch = Unit
IsBatched pntr_batched_slice = Unit

compared {ℓ} :
    {A : Type ℓ} (a b : ℕ) (rest : Unit {0} → Result A) {r : A}
    → (guard (a == b) assertion >>= rest) ≡ ok r
    → a ≡ b
compared a b rest h =
    let (u, hu, h1) = >>=-eq-ok (guard (a == b) assertion) rest h in ground (arith, hu)

size_2d-y : (t : NnFloatType) (y x : ℕ) (s : NnSize2D) → size_2d t y x ≡ ok s → s.y ≡ y
unfolding size_2d
size_2d-y t y x s h = let (b, hb, h1) = >>=-eq-ok (get_bytes t (y * x % 2 ^ 32)) _ h in cc

module _ (d : NnCpuDevice) where
  resolve_in-y :
      (t : NnPointerType) (m : Memory) (s : NnSize2D) (r : Resolved)
      → IsBatched t
      → resolve_in d t m s ≡ ok r
      → r.size.y ≡ d.net_config.n_batches
  unfolding resolve_in
  resolve_in-y pntr_raw m s r b h = elim b [ ]
  resolve_in-y pntr_batch m s r b h =
      let same = compared s.y d.net_config.n_batches _ h in
      let (u, hu, h1) = >>=-eq-ok (guard (s.y == d.net_config.n_batches) assertion) _ h in
      let (bytes, hb, h2) = >>=-eq-ok (get_bytes s.float_type s.x) _ h1 in
      ap (λ (q : Resolved). q.size.y) (sym (ok_injective h2)) ∙ same
  resolve_in-y pntr_batched_slice m s r b h =
      let same = compared s.y d.net_config.n_batches _ h in
      let (u, hu, h1) = >>=-eq-ok (guard (s.y == d.net_config.n_batches) assertion) _ h in
      let (bytes, hb, h2) = >>=-eq-ok (get_bytes s.float_type s.x) _ h1 in
      let (u', hu', h3) = >>=-eq-ok (guard (s.x % d.net_config.n_nodes == 0) assertion) _ h2 in
      let (slice_bytes, hs, h4) =
        >>=-eq-ok (get_bytes s.float_type (s.x / d.net_config.n_nodes)) _ h3 in
      let (size, hz, h5) = >>=-eq-ok (size_2d s.float_type s.y (s.x / d.net_config.n_nodes)) _ h4 in
      ap (λ (q : Resolved). q.size.y) (sym (ok_injective h5))
      ∙ size_2d-y s.float_type s.y (s.x / d.net_config.n_nodes) size hz
      ∙ same

  -- What every slot and then the last one says of the input.
  resolve_slots-y :
      (op : NnOpConfig) (n slot : ℕ) (slots : List (Resolved × Resolved))
      (sizes : NnSize2D × NnSize2D)
      → IsBatched op.input.type
      → resolve_slots d op n slot ≡ ok slots
      → last_sizes slots ≡ ok sizes
      → sizes.0.y ≡ d.net_config.n_batches
  unfolding resolve_slots resolve_pointer
  resolve_slots-y op zero slot slots sizes b h last =
      let none_is : [] ≡ slots = ok_injective h in
      cc (subst (λ l. last_sizes l ≡ ok sizes) (sym none_is) last)
  resolve_slots-y op (suc n) slot slots sizes b h last =
      let (input, hi, h1) = >>=-eq-ok (resolve_pointer d slot op.input) _ h in
      let (output, ho, h2) = >>=-eq-ok (resolve_pointer d slot op.output) _ h1 in
      let (rest, hr, h3) = >>=-eq-ok (resolve_slots d op n (slot + 1)) _ h2 in
      let (size, hs, hq) = >>=-eq-ok (source_size d op.input.source op.input.pointer_index) _ hi in
      let first =
        resolve_in-y op.input.type (source_memory op.input.source slot op.input.pointer_index) size
          input b hq in
      let last' = subst (λ l. last_sizes l ≡ ok sizes) (sym (ok_injective h3)) last in
      by_rest rest input output first (λ e. resolve_slots-y op n (slot + 1) rest sizes b hr e) last'
    where
      by_rest :
          (rest : List (Resolved × Resolved)) (input output : Resolved)
          → input.size.y ≡ d.net_config.n_batches
          → (last_sizes rest ≡ ok sizes → sizes.0.y ≡ d.net_config.n_batches)
          → last_sizes ((input, output) ∷ rest) ≡ ok sizes
          → sizes.0.y ≡ d.net_config.n_batches
      by_rest [] input output first later e =
          ap (λ (s : NnSize2D × NnSize2D). s.0.y) (sym (ok_injective e)) ∙ first
      by_rest (x ∷ xs) input output first later e = later e

  -- The context that is planned has the height of the input, and a byte of the number of batches.
  plan_op-n_batches :
      (op : NnOpConfig) (c : NnCpuOpContext)
      → IsBatched op.input.type
      → plan_op d op ≡ ok c
      → (c.code ≡ op.code)
        × (c.n_batches ≡ d.net_config.n_batches % 256)
        × (c.input_size.y ≡ d.net_config.n_batches)
  unfolding plan_op
  plan_op-n_batches op c b h =
      let (slots, hs, h1) = >>=-eq-ok (resolve_slots d op d.net_config.n_slots 0) _ h in
      let (sizes, hz, h2) = >>=-eq-ok (last_sizes slots) _ h1 in
      let (quant, hq, h3) =
        >>=-eq-ok
          (get_op_quant_type sizes.0.float_type op.weight_size.float_type sizes.1.float_type) _
          h2 in
      let (forward, hf, h4) = >>=-eq-ok (supported (get_cpu_op_forward op.code quant)) _ h3 in
      let same = ok_injective h4 in
      (
        ap (λ (q : NnCpuOpContext). q.code) (sym same),
        ap (λ (q : NnCpuOpContext). q.n_batches) (sym same),
        ap (λ (q : NnCpuOpContext). q.input_size.y) (sym same)
            ∙ resolve_slots-y op d.net_config.n_slots 0 slots sizes b hs hz,
      )

  op_init-n_batches :
      (code : NnOpCode) (c : NnCpuOpContext) (flags flags' : List ℕ)
      → ChecksBatches code
      → op_init d.net_config.pipes d.node_config.buffers code c flags ≡ ok flags'
      → c.input_size.y ≡ c.n_batches
  unfolding op_init init_embedding_forward init_rms_norm_forward init_matmul_forward
      init_multi_head_att_forward
  op_init-n_batches op_embedding c flags flags' b h =
      let (u, hu, h1) =
        >>=-eq-ok (init_embedding_forward d.net_config.pipes d.node_config.buffers c) _ h in
      let (v, hv, h2) = >>=-eq-ok (guard (c.input_size.x == 1) assertion) _ hu in
      compared c.input_size.y c.n_batches _ h2
  op_init-n_batches op_rms_norm c flags flags' b h =
      let (u, hu, h1) =
        >>=-eq-ok (init_rms_norm_forward d.net_config.pipes d.node_config.buffers c) _ h in
      let (v, hv, h2) =
        >>=-eq-ok (found (get_elem? d.node_config.buffers (config_field c.op_config 0))) _ hu in
      compared c.input_size.y c.n_batches _ h2
  op_init-n_batches op_matmul c flags flags' b h =
      let (u, hu, h1) =
        >>=-eq-ok (init_matmul_forward d.net_config.pipes d.node_config.buffers c) _ h in
      compared c.input_size.y c.n_batches _ hu
  op_init-n_batches op_multihead_att c flags flags' b h =
      let (u, hu, h1) =
        >>=-eq-ok (init_multi_head_att_forward d.net_config.pipes d.node_config.buffers c) _ h in
      let (v, hv, h2) = >>=-eq-ok (guard (c.weight_size.n_bytes == 0) assertion) _ hu in
      let (w, hw, h3) =
        >>=-eq-ok (guard (c.input_size.x == config_field c.op_config 5) assertion) _ h2 in
      compared c.input_size.y c.n_batches _ h3
  op_init-n_batches op_merge_add c flags flags' b h = elim b [ ]
  op_init-n_batches op_inv_rms c flags flags' b h = elim b [ ]
  op_init-n_batches op_rope_llama c flags flags' b h = elim b [ ]
  op_init-n_batches op_gelu c flags flags' b h = elim b [ ]
  op_init-n_batches op_silu c flags flags' b h = elim b [ ]
  op_init-n_batches op_mul c flags flags' b h = elim b [ ]
  op_init-n_batches op_cast c flags flags' b h = elim b [ ]
  op_init-n_batches op_shift c flags flags' b h = elim b [ ]

  plan_ops-at :
      (ops : List NnOpConfig) (contexts : List NnCpuOpContext) (j : ℕ) (op : NnOpConfig)
      → plan_ops d ops ≡ ok contexts
      → get_elem? ops j ≡ some op
      → (c : NnCpuOpContext) × (plan_op d op ≡ ok c) × (get_elem? contexts j ≡ some c)
  unfolding plan_ops
  plan_ops-at [] contexts j op h e = cc
  plan_ops-at (o ∷ ops) contexts j op h e =
      let (c, hc, h1) = >>=-eq-ok (plan_op d o) _ h in
      let (rest, hr, h2) = >>=-eq-ok (plan_ops d ops) _ h1 in
      at_index j c rest hc (λ k ek. plan_ops-at ops rest k op hr ek) (ok_injective h2) e
    where
      at_index :
          (j : ℕ) (c : NnCpuOpContext) (rest : List NnCpuOpContext)
          → plan_op d o ≡ ok c
          → ((k : ℕ)
              → get_elem? ops k ≡ some op
              → (c : NnCpuOpContext) × (plan_op d op ≡ ok c) × (get_elem? rest k ≡ some c))
          → (c ∷ rest) ≡ contexts
          → get_elem? (o ∷ ops) j ≡ some op
          → (c : NnCpuOpContext) × (plan_op d op ≡ ok c) × (get_elem? contexts j ≡ some c)
      at_index zero c rest hc later same e =
          let o_is : o ≡ op = cc e in
          (c, subst (λ x. plan_op d x ≡ ok c) o_is hc, ap (λ xs. get_elem? xs 0) (sym same))
      at_index (suc k) c rest hc later same e =
          let (c', planned, found_at) = later k e in
          (c', planned, ap (λ xs. get_elem? xs (suc k)) (sym same) ∙ found_at)

  init_ops-at :
      (contexts : List NnCpuOpContext) (flags flags' : List ℕ) (j : ℕ) (c : NnCpuOpContext)
      → init_ops d contexts flags ≡ ok flags'
      → get_elem? contexts j ≡ some c
      → (before after : List ℕ) × (op_init d.net_config.pipes d.node_config.buffers c.code c before
          ≡ ok after)
  unfolding init_ops
  init_ops-at [] flags flags' j c h e = cc
  init_ops-at (x ∷ contexts) flags flags' zero c h e =
      let (next, hn, h1) =
        >>=-eq-ok (op_init d.net_config.pipes d.node_config.buffers x.code x flags) _ h in
      let x_is : x ≡ c = cc e in
      (
        flags,
        next,
        subst
            (λ (y : NnCpuOpContext).
              op_init d.net_config.pipes d.node_config.buffers y.code y flags ≡ ok next)
            x_is hn,
      )
  init_ops-at (x ∷ contexts) flags flags' (suc j) c h e =
      let (next, hn, h1) =
        >>=-eq-ok (op_init d.net_config.pipes d.node_config.buffers x.code x flags) _ h in
      init_ops-at contexts next flags' j c h1 e

  few_batches :
      (i j : ℕ) (s : NnSegmentConfig) (op : NnOpConfig) (made : NnCpuDeviceSegment × NnCpuDevice)
      → get_elem? d.node_config.segments i ≡ some s
      → get_elem? s.ops j ≡ some op
      → IsBatched op.input.type
      → ChecksBatches op.code
      → create_segment d i ≡ ok made
      → d.net_config.n_batches < 256
  unfolding create_segment
  few_batches i j s op made at_i at_j batched checks h =
      let (s', hs, h1) = >>=-eq-ok (found (get_elem? d.node_config.segments i)) _ h in
      let (u, hu, h2) = >>=-eq-ok (guard (ltb 0 (length s'.ops)) assertion) _ h1 in
      let (contexts, hc, h3) = >>=-eq-ok (plan_ops d s'.ops) _ h2 in
      let (flags, hf, h4) = >>=-eq-ok (init_ops d contexts d.buffer_flags) _ h3 in
      let s_is : s' ≡ s = ok_injective (sym hs ∙ ap found at_i) in
      let (c, planned, c_at) =
        plan_ops-at s.ops contexts j op
          (subst (λ (x : NnSegmentConfig). plan_ops d x.ops ≡ ok contexts) s_is hc) at_j in
      let (code, bytes, height) = plan_op-n_batches op c batched planned in
      let (before, after, init) = init_ops-at contexts d.buffer_flags flags j c hf c_at in
      let equal =
        op_init-n_batches c.code c before after (subst ChecksBatches (sym code) checks) init in
      omega (arith, bytes, height, equal)

  -- With 256 batches or more the CPU device cannot make a segment that has an embedding, a
  -- normalization, a matrix product or an attention with a batched input: createSegment ends in a
  -- fault, since the context of the operation keeps the number of batches in one byte.
  pub create_segment-too_many_batches :
      (i j : ℕ) (s : NnSegmentConfig) (op : NnOpConfig)
      → get_elem? d.node_config.segments i ≡ some s
      → get_elem? s.ops j ≡ some op
      → IsBatched op.input.type
      → ChecksBatches op.code
      → 256 ≤ d.net_config.n_batches
      → (fault : Fault) × (create_segment d i ≡ err fault)
  create_segment-too_many_batches i j s op at_i at_j batched checks many =
      by_outcome (create_segment d i) refl
    where
      by_outcome :
          (r : Result (NnCpuDeviceSegment × NnCpuDevice))
          → create_segment d i ≡ r
          → (fault : Fault) × (create_segment d i ≡ err fault)
      by_outcome (err fault) e = (fault, e)
      by_outcome (ok made) e =
          absurd (omega (arith, few_batches i j s op made at_i at_j batched checks e))
