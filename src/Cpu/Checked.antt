-- ===== src/Cpu/Checked.antt =====
-- The operations whose init functions read their own configuration.
use distributed_llama.Base.{
  ℕ, zero, suc, ◌%◌, ◌<◌, ◌≡◌, refl, ap, arith, List, [], ◌∷◌, length, length-set, set, some,
  Option-cases, Bool-cases, inl, inr, err, memory, get_elem?, ◌==◌, Bool, true, false, ok, ◌∙◌, ◌^◌,
  ok_injective,
}
use distributed_llama.Quants.{NnFloatType, f_32}
use distributed_llama.Core.Sizes.{NnSize2D, size0}
use distributed_llama.Core.Pointers.{NnPointerConfig, src_buffer, src_pipe}
use distributed_llama.Core.Slices.{NnRopeSlice}
use distributed_llama.Core.OpQuant.{f32_f32_f32, get_op_quant_type}
use distributed_llama.Core.Config.{
  NnBufferConfig, NnPipeConfig, NnOpConfig, op_embedding, op_rms_norm, op_rope_llama,
  op_multihead_att,
}
use distributed_llama.Network.Stream.{le_value, le_bytes}
use distributed_llama.Network.Wire.{u32}
use distributed_llama.Llm.{LlmHeader}
use distributed_llama.Llm.OpConfigs.{rope_llama_config, multi_head_att_config}
use distributed_llama.Cpu.Pointers.{NnCpuDevice, source_size}
use distributed_llama.Cpu.Kernels.{
  embedding_forward_f32_f32_f32, rms_norm_forward_f32_f32_f32, rope_llama_forward_f32_f32,
  multi_head_att_forward_f32_f32, NnCpuOpContext, get_cpu_op_forward, op_init, config_field,
}
use distributed_llama.Cpu.RopeCache.{HasRope, for_range-same, fullfill_ok, rope_fields}
use distributed_llama.Cpu.Resolves.{Sized, HasSource, Resolves}
use distributed_llama.Cpu.Created.{IsContext, Created, planned, operation}

-- A field that was written is read.
config_field-u32 : (a : ℕ) → a < 2 ^ 32 → config_field (u32 a) 0 ≡ a
unfolding le_bytes le_value
config_field-u32 a h = omega arith

rope_field :
    (padding : ℕ) (h : LlmHeader) (is_q : Bool) (position cache : ℕ) (slice : NnRopeSlice)
    → cache < 2 ^ 32
    → config_field (rope_llama_config padding h is_q position cache slice) 2 ≡ cache
unfolding rope_llama_config le_bytes le_value
rope_field padding h true position cache slice lt = omega arith
rope_field padding h false position cache slice lt = omega arith

att_fields :
    (n_heads n_heads0 n_kv_heads head_size seq_len q_slice_d0 kv_dim0 position query key value
      att : ℕ)
    → q_slice_d0 < 2 ^ 32
    → position < 2 ^ 32
    → query < 2 ^ 32
    → let config =
        multi_head_att_config n_heads n_heads0 n_kv_heads head_size seq_len q_slice_d0 kv_dim0
          position query key value att in
      (config_field config 5 ≡ q_slice_d0)
      × (config_field config 7 ≡ position)
      × (config_field config 8 ≡ query)
unfolding multi_head_att_config le_bytes le_value
att_fields n_heads n_heads0 n_kv_heads head_size seq_len q_slice_d0 kv_dim0 position query key value
      att lq lp lb =
    (omega arith, omega arith, omega arith)

get_elem?-lt {ℓ} :
    {A : Type ℓ} (xs : List A) (i : ℕ) {a : A} → get_elem? xs i ≡ some a → i < length xs
get_elem?-lt [] i e = cc
get_elem?-lt (x ∷ xs) zero e = omega arith
get_elem?-lt (x ∷ xs) (suc i) e = omega (arith, get_elem?-lt xs i e)

lt-get_elem? {ℓ} :
    {A : Type ℓ} (xs : List A) (i : ℕ) → i < length xs → (a : A) × (get_elem? xs i ≡ some a)
lt-get_elem? [] i h = elim h [ ]
lt-get_elem? (x ∷ xs) zero h = (x, refl)
lt-get_elem? (x ∷ xs) (suc i) h = lt-get_elem? xs i (omega arith)

small : (n : ℕ) → n < 256 → n % 256 ≡ n
small n h = omega arith

module _ (d : NnCpuDevice) where
  buffer_at :
      (i : ℕ) {size : NnSize2D}
      → source_size d src_buffer i ≡ ok size
      → (c : NnBufferConfig) × (get_elem? d.node_config.buffers i ≡ some c) × (c.size ≡ size)
  unfolding source_size
  buffer_at i h = elim (Option-cases (get_elem? d.node_config.buffers i)) [
    | inl e ↦ absurd (missing (rw e at h))
    | inr (c, e) ↦ (c, e, ok_injective (rw e at h))
  ]
    where
      missing : {s : NnSize2D} → err memory ≡ ok s → ⊥
      missing e = cc

  pub buffer_of :
      {i : ℕ} {t : NnFloatType} {y x : ℕ}
      → HasSource d src_buffer i t y x
      → (c : NnBufferConfig) × (get_elem? d.node_config.buffers i ≡ some c) × Sized t y x c.size
  buffer_of h =
      let (c, e, same) = buffer_at _ (h.there) in
      let (ht, hy, hx) = h.sized in
      (
        c,
        e,
        (
          ap (λ (s : NnSize2D). s.float_type) same ∙ ht,
          ap (λ (s : NnSize2D). s.y) same ∙ hy,
          ap (λ (s : NnSize2D). s.x) same ∙ hx,
        ),
      )

  pipe_of :
      {i : ℕ} {t : NnFloatType} {y x : ℕ}
      → HasSource d src_pipe i t y x
      → (c : NnPipeConfig) × (get_elem? d.net_config.pipes i ≡ some c) × Sized t y x c.size
  unfolding source_size
  pipe_of {i} h =
      let (ht, hy, hx) = h.sized in
      elim (Option-cases (get_elem? d.net_config.pipes i)) [
        | inl e ↦ absurd (missing (rw e at (h.there)))
        | inr (c, e) ↦
            let same = size_is (rw e at (h.there)) in
            (
              c,
              e,
              (
                ap (λ (s : NnSize2D). s.float_type) same ∙ ht,
                ap (λ (s : NnSize2D). s.y) same ∙ hy,
                ap (λ (s : NnSize2D). s.x) same ∙ hx,
              ),
            )
      ]
    where
      missing : {s : NnSize2D} → err memory ≡ ok s → ⊥
      missing e = cc

      size_is : {a s : NnSize2D} → ok a ≡ ok s → a ≡ s
      size_is e = cc

  rms_norm_init :
      {op : NnOpConfig} {x : ℕ} {c : NnCpuOpContext} {b : NnBufferConfig}
      → d.net_config.n_batches < 256
      → IsContext d op f_32 f_32 d.net_config.n_batches x d.net_config.n_batches x c
      → op.code ≡ op_rms_norm
      → Sized f_32 1 x op.weight_size
      → get_elem? d.node_config.buffers (config_field op.config 0) ≡ some b
      → Sized f_32 d.net_config.n_batches 1 b.size
      → (flags : List ℕ)
      → op_init d.net_config.pipes d.node_config.buffers c.code c flags ≡ ok flags
  unfolding op_init
  rms_norm_init few is code (wt, wy, wx) eb (bt, by, bx) flags =
      let (it, iy, ix) = is.input_size in
      let (ot, oy, ox) = is.output_size in
      let byte = is.n_batches ∙ small d.net_config.n_batches few in
      rw (is.code, code, is.weight_size, is.op_config, eb)
        (ground (arith, iy, ix, ot, oy, ox, wt, wy, wx, bt, by, bx, byte))

  rope_init :
      {op : NnOpConfig} {y x y' x' cache : ℕ} {c : NnCpuOpContext} {h : LlmHeader}
      {slice : NnRopeSlice}
      → IsContext d op f_32 f_32 y x y' x' c
      → op.code ≡ op_rope_llama
      → config_field op.config 2 ≡ cache
      → (config_field op.config 10 ≡ slice.q_dim_end)
        × (config_field op.config 14 ≡ slice.kv_dim_start)
        × (config_field op.config 15 ≡ slice.slice_dim)
        × (config_field op.config 16 ≡ slice.seq_len)
        × (config_field op.config 17 ≡ slice.head_size)
      → HasRope d h cache slice
      → (flag : ℕ) (flags : List ℕ) → get_elem? flags cache ≡ some flag
      → (flags' : List ℕ) × (op_init d.net_config.pipes d.node_config.buffers c.code c flags
          ≡ ok flags')
        × (length flags' ≡ length flags)
  unfolding op_init
  rope_init {cache = cache} {c = c} {slice = slice} is code field (f10, f14, f15, f16, f17) rope
        flag flags there =
      elim (Bool-cases (flag == 1)) [
        | inl e ↦ (flags, rw (is.code, code, is.op_config, field, there, e) refl, refl)
        | inr e ↦
            let (b, eb, same) = buffer_at cache (rope.source) in
            let filled = for_range-same _ (fullfill_ok slice rope.has_cache) c.n_slots 0 in
            (
              set flags cache 1,
              rw
                  (
                    is.code, code, is.op_config, field, there, e, eb, same, f10, f14, f15, f16, f17,
                    filled,
                  )
                  refl,
              length-set flags cache 1,
            )
      ]

  att_init :
      {op : NnOpConfig} {x : ℕ} {c : NnCpuOpContext} {b : NnBufferConfig} {p : NnPipeConfig}
      → d.net_config.n_batches < 256
      → IsContext d op f_32 f_32 d.net_config.n_batches x d.net_config.n_batches x c
      → op.code ≡ op_multihead_att
      → op.weight_size.n_bytes ≡ 0
      → config_field op.config 5 ≡ x
      → get_elem? d.node_config.buffers (config_field op.config 8) ≡ some b
      → Sized f_32 d.net_config.n_batches x b.size
      → get_elem? d.net_config.pipes (config_field op.config 7) ≡ some p
      → Sized f_32 d.net_config.n_batches 1 p.size
      → (flags : List ℕ)
      → op_init d.net_config.pipes d.node_config.buffers c.code c flags ≡ ok flags
  unfolding op_init
  att_init few is code weight f5 eb (bt, by, bx) ep (pt, py, px) flags =
      let (it, iy, ix) = is.input_size in
      let byte = is.n_batches ∙ small d.net_config.n_batches few in
      rw (is.code, code, is.weight_size, is.op_config, f5, eb, ep)
        (ground (arith, iy, ix, by, bx, py, px, byte, weight))

  module _ (slots : 0 < d.net_config.n_slots) (few : d.net_config.n_batches < 256) (name : List ℕ)
      (index : ℕ) {input output : NnPointerConfig} where
    pub embedding-Created :
        (config : List ℕ) (w : NnSize2D) {y x : ℕ}
        → Resolves d input f_32 d.net_config.n_batches 1
        → Resolves d output f_32 d.net_config.n_batches x
        → Sized f_32 y x w
        → Created d (operation d op_embedding name index input output w config)
    unfolding op_init get_op_quant_type get_cpu_op_forward
    embedding-Created config w i o (wt, wy, wx) =
        let (c, plan, is) =
          planned d slots (operation d op_embedding name index input output w config) f32_f32_f32
            embedding_forward_f32_f32_f32 i o (rw wt refl) refl in
        let (it, iy, ix) = is.input_size in
        let (ot, oy, ox) = is.output_size in
        let byte : c.n_batches ≡ d.net_config.n_batches = omega (arith, is.n_batches) in
        record {
          context = c;
          plan = plan;
          init = λ flags h. (
            flags,
            rw (is.code, is.weight_size) (ground (arith, iy, ix, oy, ox, wy, wx, byte)),
            refl,
          );
        }

    pub rms_norm-Created :
        (rms : ℕ) (w : NnSize2D) {x : ℕ}
        → rms < 2 ^ 32
        → HasSource d src_buffer rms f_32 d.net_config.n_batches 1
        → Resolves d input f_32 d.net_config.n_batches x
        → Resolves d output f_32 d.net_config.n_batches x
        → Sized f_32 1 x w
        → Created d (operation d op_rms_norm name index input output w (u32 rms))
    unfolding get_op_quant_type get_cpu_op_forward
    rms_norm-Created rms w lt r i o (wt, wy, wx) =
        let (c, plan, is) =
          planned d slots (operation d op_rms_norm name index input output w (u32 rms)) f32_f32_f32
            rms_norm_forward_f32_f32_f32 i o (rw wt refl) refl in
        let (b, eb, sb) = buffer_of r in
        record {
          context = c;
          plan = plan;
          init = λ flags h. (
            flags,
            rms_norm_init few is refl (wt, wy, wx)
                (ap (get_elem? d.node_config.buffers) (config_field-u32 rms lt) ∙ eb) sb flags,
            refl,
          );
        }

    pub rope-Created :
        (padding : ℕ) (h : LlmHeader) (is_q : Bool) (position cache : ℕ) (slice : NnRopeSlice)
        {y x y' x' : ℕ}
        → cache < 2 ^ 32
        → HasRope d h cache slice
        → Resolves d input f_32 y x
        → Resolves d output f_32 y' x'
        → Created d (
            operation d op_rope_llama name index input output size0
              (rope_llama_config padding h is_q position cache slice))
    unfolding get_op_quant_type get_cpu_op_forward
    rope-Created padding h is_q position cache slice lt rope i o =
        let config = rope_llama_config padding h is_q position cache slice in
        let (c, plan, is) =
          planned d slots (operation d op_rope_llama name index input output size0 config)
            f32_f32_f32 rope_llama_forward_f32_f32 i o refl refl in
        let has = rope.has_cache in
        let (b, eb, sb) = buffer_at cache (rope.source) in
        let fields =
          rope_fields padding h is_q position cache slice rope.floats has.end_lt
            (omega (arith, has.begins, has.end_lt)) (omega (arith, has.begins, has.end_lt))
            has.seq_lt has.head_lt in
        record {
          context = c;
          plan = plan;
          init = λ flags e.
              let (flag, there) =
                lt-get_elem? flags cache (omega (arith, e, get_elem?-lt _ cache eb)) in
              rope_init is refl (rope_field padding h is_q position cache slice lt) fields rope flag
                flags there;
        }

    pub multi_head_att-Created :
        (n_heads n_heads0 n_kv_heads head_size seq_len q_slice_d0 kv_dim0 position query key value
          att : ℕ)
        → q_slice_d0 < 2 ^ 32
        → position < 2 ^ 32
        → query < 2 ^ 32
        → HasSource d src_buffer query f_32 d.net_config.n_batches q_slice_d0
        → HasSource d src_pipe position f_32 d.net_config.n_batches 1
        → Resolves d input f_32 d.net_config.n_batches q_slice_d0
        → Resolves d output f_32 d.net_config.n_batches q_slice_d0
        → Created d (
            operation d op_multihead_att name index input output size0 (
              multi_head_att_config n_heads n_heads0 n_kv_heads head_size seq_len q_slice_d0 kv_dim0
                position query key value att))
    unfolding get_op_quant_type get_cpu_op_forward
    multi_head_att-Created n_heads n_heads0 n_kv_heads head_size seq_len q_slice_d0 kv_dim0 position
          query key value att lq lp lb b p i o =
        let config =
          multi_head_att_config n_heads n_heads0 n_kv_heads head_size seq_len q_slice_d0 kv_dim0
            position query key value att in
        let (c, plan, is) =
          planned d slots (operation d op_multihead_att name index input output size0 config)
            f32_f32_f32 multi_head_att_forward_f32_f32 i o refl refl in
        let (bc, eb, sb) = buffer_of b in
        let (pc, ep, sp) = pipe_of p in
        let (f5, f7, f8) =
          att_fields n_heads n_heads0 n_kv_heads head_size seq_len q_slice_d0 kv_dim0 position query
            key value att lq lp lb in
        record {
          context = c;
          plan = plan;
          init = λ flags h. (
            flags,
            att_init few is refl refl f5 (ap (get_elem? d.node_config.buffers) f8 ∙ eb) sb
                (ap (get_elem? d.net_config.pipes) f7 ∙ ep) sp flags,
            refl,
          );
        }
