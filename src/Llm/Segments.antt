-- ===== src/Llm/Segments.antt =====
-- The device makes each segment of buildLlmNet that has operations.
use distributed_llama.Base.{
  ok_injective, ℕ, ◌/◌, ◌<◌, ◌^◌, ◌≡◌, refl, sym, subst, ◌∙◌, arith, not, true, false, List, [],
  ◌∷◌, ◌++◌, length, ◌==◌, >>=-eq-ok, ok,
}
use distributed_llama.Base.Numbers.{div-mul-add-mod, le-mul_pos}
use distributed_llama.Base.Strings.{c_string}
use distributed_llama.Quants.{NnFloatType, f_32}
use distributed_llama.Cache.Tokens.{All}
use distributed_llama.Core.Sizes.{size0}
use distributed_llama.Core.Pointers.{
  src_pipe, src_buffer, pointer_batch_config, pointer_batched_slice_config,
}
use distributed_llama.Core.Slices.{NnRopeSlice}
use distributed_llama.Core.OpQuant.{get_op_quant_type}
use distributed_llama.Core.Config.{
  NnCacheSyncType, cache_sync_save_kv, cache_sync_load, NnSegmentConfig, NnOpConfig, op_shift,
  op_silu, op_mul, op_cast,
}
use distributed_llama.Core.Builder.{
  NnSegmentConfigBuilder, add_op, add_sync, add_cache_sync, build_segment,
}
use distributed_llama.Llm.{LlmHeader}
use distributed_llama.Llm.OpConfigs.{empty_config}
use distributed_llama.Llm.Parts.{LlmParts}
use distributed_llama.Llm.Buffers.{LlmBuffers}
use distributed_llama.Llm.Layers.{att_segment, ff_segment, end_segment, start_segment}
use distributed_llama.Llm.Layout.{IsReady}
use distributed_llama.Llm.Operations.{
  float, zq_slice, y_slice, norm-Serves, merge_zq-Serves, cast_y-Serves, block_input-Serves,
  product,
}
use distributed_llama.Cpu.Pointers.{NnCpuDevice}
use distributed_llama.Cpu.Kernels.{
  get_cpu_op_forward, op_init, shift_forward_f32_f32, silu_forward_f32_f32, mul_forward_f32_f32,
}
use distributed_llama.Cpu.Segments.{kv_pos}
use distributed_llama.Cpu.Resolves.{
  HasBytes, get_bytes-f_32, HasSource, Resolves, batch-Resolves, slice-Resolves, raw-Resolves,
}
use distributed_llama.Cpu.Created.{Created, plain-Created, cast-Created}
use distributed_llama.Cpu.RopeCache.{HasRope}
use distributed_llama.Cpu.Checked.{
  buffer_of, embedding-Created, rope-Created, multi_head_att-Created,
}
use distributed_llama.Cpu.Serves.{
  SyncsCache, Serves, new-Serves, add_op-Serves, add_sync-Serves, add_cache_sync-Serves,
  when-Serves,
}

-- What the device needs to make a segment.
pub record IsMade (d : NnCpuDevice) (s : NnSegmentConfig) : Type 0 where
  pub some_ops : 0 < length s.ops
  pub ops : All (Created d) s.ops
  pub cache_syncs : All (SyncsCache d) s.cache_syncs

HasOps : NnSegmentConfigBuilder → Type 0
HasOps b = 0 < length b.ops

ends_in_op : (xs : List NnOpConfig) (x : NnOpConfig) → 0 < length (xs ++ (x ∷ []))
ends_in_op [] x = omega arith
ends_in_op (y ∷ xs) x = omega arith

module _ (d : NnCpuDevice) (h : LlmHeader) (n : LlmParts) (b : LlmBuffers) (ready : IsReady d h n b)
    (padding : ℕ) where
  open ready use {slots, few, kernels, sliced, pipes, buffers, blocks}

  made_of : (s : NnSegmentConfigBuilder) → Serves d s → HasOps s → IsMade d (build_segment s)
  unfolding build_segment HasOps
  made_of s serves some_ops = record {
    some_ops = some_ops;
    ops = serves.ops;
    cache_syncs = serves.cache_syncs;
  }

  synced :
      (type : NnCacheSyncType) {i : ℕ} {t : NnFloatType} {y x : ℕ}
      → kv_pos type d.net_config.pipes ≡ ok tt
      → HasSource d src_buffer i t y x
      → SyncsCache d (record { buffer_index = i; cache_sync_type = type })
  synced type position source =
      let (c, there, sized) = buffer_of d source in
      record { buffer = c; there = there; position = position }

  pub end-IsMade : (s : NnSegmentConfig) → end_segment padding h n b ≡ ok s → IsMade d s
  unfolding end_segment get_op_quant_type get_cpu_op_forward
  end-IsMade s e =
      let (w, ew, e1) = >>=-eq-ok _ _ e in
      subst (IsMade d) (ok_injective e1) (
        made_of _
          (add_sync-Serves d _ _ (
            add_op-Serves d _ _ _ _ _ _ _
              (add_op-Serves d _ _ _ _ _ _ _
                (cast_y-Serves d h n b ready padding _ _ (
                  norm-Serves d h n b ready padding _ _ _
                    (merge_zq-Serves d h n b ready padding _ _ (new-Serves d))))
                (product d h n b ready padding w buffers.yq blocks.row buffers.logits_slice _
                  sliced.wcls_n _ sliced.wcls_d0 ew))
              (cast-Created d slots few _ _ _ (float d h n b ready padding buffers.logits_slice)
                logits_part refl refl)))
          (unfold HasOps add_op add_sync in ends_in_op _ _))
    where
      logits_part :
          Resolves d
            (pointer_batched_slice_config src_pipe n.logits_pipe_index)
            f_32
            d.net_config.n_batches
            (h.vocab_size / d.net_config.n_nodes)
      logits_part =
          slice-Resolves d pipes.logits (get_bytes-f_32 _) sliced.vocab_divides (get_bytes-f_32 _)
            (get_bytes-f_32 _)

  pub ff-IsMade :
      (layer : ℕ) (s : NnSegmentConfig) → ff_segment padding h n b layer ≡ ok s → IsMade d s
  unfolding ff_segment get_op_quant_type get_cpu_op_forward op_init
  ff-IsMade layer s e =
      let (w1, ew1, e1) = >>=-eq-ok _ _ e in
      let (w3, ew3, e2) = >>=-eq-ok _ _ e1 in
      let (w2, ew2, e3) = >>=-eq-ok _ _ e2 in
      let s1 =
        add_op-Serves d _ _ _ _ _ _ _
          (add_op-Serves d _ _ _ _ _ _ _
            (cast_y-Serves d h n b ready padding _ layer (
              norm-Serves d h n b ready padding _ _ layer
                (merge_zq-Serves d h n b ready padding _ layer (new-Serves d))))
            (product d h n b ready padding w1 buffers.yq blocks.row buffers.d_ff _ sliced.w1_n _
              refl ew1))
          (product d h n b ready padding w3 buffers.yq blocks.row buffers.l _ sliced.w3_n _ refl
            ew3) in
      let s2 =
        add_op-Serves d _ _ _ _ _ _ _
          (add_op-Serves d _ _ _ _ _ _ _ s1 (
            plain-Created d slots few _ _ _ op_silu silu_forward_f32_f32 d_ff d_ff refl refl
              (λ c flags. refl)))
          (plain-Created d slots few _ _ _ op_mul mul_forward_f32_f32 d_ff d_ff refl refl
            (λ c flags. refl)) in
      let s3 =
        when-Serves d (not (b.d_buffer_index == b.dq_buffer_index))
          (add_op op_cast (c_string "block_cast_d2") layer
            (pointer_batch_config src_buffer b.d_buffer_index)
            (pointer_batch_config src_buffer b.dq_buffer_index) size0 (empty_config padding))
          s2
          (λ different. add_op-Serves d _ _ _ _ _ _ _ s2 (
            cast-Created d slots few _ _ _ d_ff (batch-Resolves d buffers.dq hidden)
              kernels.cast_quant_is kernels.cast_forward_is)) in
      subst (IsMade d) (ok_injective e3) (
        made_of _
          (add_sync-Serves d _ _ (
            add_op-Serves d _ _ _ _ _ _ _
              (add_op-Serves d _ _ _ _ _ _ _ s3 (
                product d h n b ready padding w2 buffers.dq hidden buffers.y _
                  (sliced.w2_n0 ∙ sym sliced.w1_d0) _ sliced.w2_d ew2))
              (cast-Created d slots few _ _ _ (float d h n b ready padding buffers.y)
                (zq_slice d h n b ready padding) kernels.cast_quant_is kernels.cast_forward_is)))
          (unfold HasOps add_op add_sync in ends_in_op _ _))
    where
      hidden : HasBytes h.sync_type n.w1_slice.d0
      hidden = rw sliced.w1_d0 blocks.hidden_slice

      d_ff :
          Resolves d
            (pointer_batch_config src_buffer b.d_buffer_index)
            f_32
            d.net_config.n_batches
            n.w1_slice.d0
      d_ff = float d h n b ready padding buffers.d_ff

  pub start-IsMade : IsMade d (start_segment padding h n 0)
  unfolding start_segment get_op_quant_type get_cpu_op_forward
  start-IsMade =
      made_of _
        (add_sync-Serves d _ _ (
          add_op-Serves d _ _ _ _ _ _ _ (new-Serves d) (
            embedding-Created d slots few _ _ _ n.token_embedding_size
              (float d h n b ready padding pipes.token) (float d h n b ready padding pipes.x)
              sliced.token_embedding)))
        (unfold HasOps add_op add_sync in omega arith)

  module _ (rope_slice : NnRopeSlice) (rope : HasRope d h b.rope_cache_buffer_index rope_slice)
      (layer k_index v_index : ℕ) {ky kx vy vx : ℕ} (k : HasSource d src_buffer k_index f_32 ky kx)
      (v : HasSource d src_buffer v_index f_32 vy vx) where
    pub att-IsMade :
        (s : NnSegmentConfig)
        → att_segment padding h n b rope_slice layer k_index v_index ≡ ok s
        → IsMade d s
    unfolding att_segment get_op_quant_type get_cpu_op_forward op_init
    att-IsMade s e =
        let (wq, ewq, e1) = >>=-eq-ok _ _ e in
        let (wk, ewk, e2) = >>=-eq-ok _ _ e1 in
        let (wv, ewv, e3) = >>=-eq-ok _ _ e2 in
        let (wo, ewo, e4) = >>=-eq-ok _ _ e3 in
        let s1 = cast_y-Serves d h n b ready padding _ layer (
          norm-Serves d h n b ready padding _ _ layer (
            block_input-Serves d h n b ready padding (layer == 0) layer (
              add_cache_sync-Serves d _ _
                (add_cache_sync-Serves d _ _ (new-Serves d) (synced cache_sync_load refl k))
                (synced cache_sync_load refl v)))) in
        let s2 =
          add_op-Serves d _ _ _ _ _ _ _
            (add_op-Serves d _ _ _ _ _ _ _
              (add_op-Serves d _ _ _ _ _ _ _ s1 (
                product d h n b ready padding wq buffers.yq blocks.row buffers.q _ sliced.q_n _ refl
                  ewq))
              (product d h n b ready padding wk buffers.yq blocks.row buffers.k_temp _ sliced.k_n _
                refl ewk))
            (product d h n b ready padding wv buffers.yq blocks.row buffers.v_temp _ sliced.v_n _
              refl ewv) in
        let s3 =
          add_op-Serves d _ _ _ _ _ _ _
            (add_op-Serves d _ _ _ _ _ _ _ s2 (
              rope-Created d slots few _ _ padding h true _ _ rope_slice buffers.rope_cache_lt rope
                (float d h n b ready padding buffers.q) (float d h n b ready padding buffers.q)))
            (rope-Created d slots few _ _ padding h false _ _ rope_slice buffers.rope_cache_lt rope
              (float d h n b ready padding buffers.k_temp)
              (float d h n b ready padding buffers.k_temp)) in
        let s4 =
          add_op-Serves d _ _ _ _ _ _ _
            (add_op-Serves d _ _ _ _ _ _ _ s3 (
              plain-Created d slots few _ _ _ op_shift shift_forward_f32_f32
                (float d h n b ready padding buffers.k_temp) (raw-Resolves d k).1 refl refl
                (λ c flags. refl)))
            (plain-Created d slots few _ _ _ op_shift shift_forward_f32_f32
              (float d h n b ready padding buffers.v_temp) (raw-Resolves d v).1 refl refl
              (λ c flags. refl)) in
        let s5 = add_op-Serves d _ _ _ _ _ _ _ s4 (
          multi_head_att-Created d slots few _ _ _ _ _ _ _ _ _ _ _ _ _ _ slice_lt pipes.position_lt
            buffers.q_lt buffers.q pipes.position heads heads) in
        let s6 =
          add_op-Serves d _ _ _ _ _ _ _
            (add_op-Serves d _ _ _ _ _ _ _
              (add_op-Serves d _ _ _ _ _ _ _ s5 (
                cast-Created d slots few _ _ _ (y_slice d h n b ready padding)
                  (batch-Resolves d buffers.yq_slice blocks.row_slice) kernels.cast_quant_is
                  kernels.cast_forward_is))
              (product d h n b ready padding wo buffers.yq_slice blocks.row_slice buffers.y _
                sliced.wo_n0 _ sliced.wo_d ewo))
            (cast-Created d slots few _ _ _ (float d h n b ready padding buffers.y)
              (zq_slice d h n b ready padding) kernels.cast_quant_is kernels.cast_forward_is) in
        subst (IsMade d) (ok_injective e4) (
          made_of _
            (add_cache_sync-Serves d _ _
              (add_cache_sync-Serves d _ _ (add_sync-Serves d _ _ s6)
                (synced cache_sync_save_kv pipes.first k))
              (synced cache_sync_save_kv pipes.first v))
            (unfold HasOps add_op add_sync add_cache_sync in ends_in_op _ _))
      where
        slice_lt : n.q_slice.d0 < 2 ^ 32
        slice_lt = rw sliced.q_d0 (
            omega (
              arith,
              div-mul-add-mod h.dim d.net_config.n_nodes,
              le-mul_pos (h.dim / d.net_config.n_nodes) d.net_config.n_nodes blocks.positive,
              blocks.dim_lt,
            ))

        heads :
            Resolves d
              (pointer_batched_slice_config src_buffer b.y_buffer_index)
              f_32
              d.net_config.n_batches
              n.q_slice.d0
        heads = rw sliced.q_d0 (y_slice d h n b ready padding)
