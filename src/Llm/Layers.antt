-- ===== src/Llm/Layers.antt =====
-- The segments that buildLlmNet gives a node: the start, the two of a layer, and the end. A size that
-- is computed for an operation is computed before the segment.
use distributed_llama.Base.{ℕ, Bool, true, false, not, List, [], ◌==◌, Result, ok, ◌>>=◌}
use distributed_llama.Base.Strings.{c_string}
use distributed_llama.Core.Sizes.{size0, size_2d}
use distributed_llama.Core.Pointers.{
  src_pipe, src_buffer, pointer_batch_config, pointer_batched_slice_config, pointer_raw_config,
}
use distributed_llama.Core.Slices.{NnRopeSlice}
use distributed_llama.Core.Config.{
  op_merge_add, op_embedding, op_inv_rms, op_rms_norm, op_matmul, op_rope_llama, op_multihead_att,
  op_silu, op_mul, op_cast, op_shift, sync_with_root, sync_node_slices,
  sync_node_slices_except_root, cache_sync_save_kv, cache_sync_load, NnSegmentConfig,
}
use distributed_llama.Core.Builder.{
  NnSegmentConfigBuilder, add_op, add_sync, add_cache_sync, build_segment,
}
use distributed_llama.Network.Wire.{u32}
use distributed_llama.Llm.{LlmHeader}
use distributed_llama.Llm.OpConfigs.{empty_config, rope_llama_config, multi_head_att_config}
use distributed_llama.Llm.Parts.{LlmParts}
use distributed_llama.Llm.Buffers.{LlmBuffers}

-- The calls on a builder, one after the other.
infixl 5 ◌▹◌
abbrev pub ◌▹◌ :
    NnSegmentConfigBuilder
    → (NnSegmentConfigBuilder → NnSegmentConfigBuilder)
    → NnSegmentConfigBuilder
b ▹ call = call b

abbrev pub new_segment_builder : NnSegmentConfigBuilder
new_segment_builder = record { ops = []; syncs = []; cache_syncs = [] }

abbrev pub when :
    Bool
    → (NnSegmentConfigBuilder → NnSegmentConfigBuilder)
    → NnSegmentConfigBuilder
    → NnSegmentConfigBuilder
when true call b = call b
when false call b = b

module _ (padding : ℕ) (h : LlmHeader) (n : LlmParts) where
  unfoldable pub start_segment : ℕ → NnSegmentConfig
  start_segment node_index = build_segment (
      new_segment_builder
      ▹ when (node_index == 0) (
          add_op op_embedding (c_string "embedding") 0
            (pointer_batch_config src_pipe n.token_pipe_index)
            (pointer_batch_config src_pipe n.x_pipe_index) n.token_embedding_size
            (empty_config padding))
      ▹ add_sync n.x_pipe_index sync_with_root)

  module _ (b : LlmBuffers) where
    -- `yBufferIndex != yqBufferIndex`, and the cast that it guards.
    abbrev pub cast_y : List ℕ → ℕ → NnSegmentConfigBuilder → NnSegmentConfigBuilder
    cast_y name layer_index = when (not (b.y_buffer_index == b.yq_buffer_index)) (
        add_op op_cast name layer_index (pointer_batch_config src_buffer b.y_buffer_index)
          (pointer_batch_config src_buffer b.yq_buffer_index) size0 (empty_config padding))

    abbrev pub norm : List ℕ → List ℕ → ℕ → NnSegmentConfigBuilder → NnSegmentConfigBuilder
    norm inv_rms_name rms_norm_name layer_index s =
        s
        ▹ add_op op_inv_rms inv_rms_name layer_index
            (pointer_batch_config src_buffer b.x_buffer_index)
            (pointer_batch_config src_buffer b.inv_rms_buffer_index) size0 h.norm_epsilon
        ▹ add_op op_rms_norm rms_norm_name layer_index
            (pointer_batch_config src_buffer b.x_buffer_index)
            (pointer_batch_config src_buffer b.y_buffer_index) n.rms_norm_size
            (u32 b.inv_rms_buffer_index)

    abbrev pub merge_zq : List ℕ → ℕ → NnSegmentConfigBuilder → NnSegmentConfigBuilder
    merge_zq name layer_index =
        add_op op_merge_add name layer_index (pointer_batch_config src_pipe n.zq_pipe_index)
          (pointer_batch_config src_buffer b.x_buffer_index) size0 (empty_config padding)

    -- The operation that brings the input of a layer into the buffer.
    abbrev pub block_input : Bool → ℕ → NnSegmentConfigBuilder → NnSegmentConfigBuilder
    block_input true layer_index =
        add_op op_cast (c_string "block_cast_x") layer_index
          (pointer_batch_config src_pipe n.x_pipe_index)
          (pointer_batch_config src_buffer b.x_buffer_index) size0 (empty_config padding)
    block_input false layer_index = merge_zq (c_string "block_merge_add") layer_index

    unfoldable pub att_segment : NnRopeSlice → ℕ → ℕ → ℕ → Result NnSegmentConfig
    att_segment rope_slice layer_index k_buffer_index v_buffer_index = do
      q_size ← size_2d h.weight_type n.q_slice.n n.q_slice.d0
      k_size ← size_2d h.weight_type n.k_slice.n n.k_slice.d0
      v_size ← size_2d h.weight_type n.v_slice.n n.v_slice.d0
      wo_size ← size_2d h.weight_type n.wo_slice.n0 n.wo_slice.d
      ok (
          build_segment (
            new_segment_builder
            ▹ add_cache_sync k_buffer_index cache_sync_load
            ▹ add_cache_sync v_buffer_index cache_sync_load
            ▹ block_input (layer_index == 0) layer_index
            ▹ norm (c_string "block_inv_rms_0") (c_string "block_rms_norm_0") layer_index
            ▹ cast_y (c_string "block_cast_y") layer_index
            ▹ add_op op_matmul (c_string "block_matmul_q") layer_index
                (pointer_batch_config src_buffer b.yq_buffer_index)
                (pointer_batch_config src_buffer b.q_buffer_index) q_size (empty_config padding)
            ▹ add_op op_matmul (c_string "block_matmul_k") layer_index
                (pointer_batch_config src_buffer b.yq_buffer_index)
                (pointer_batch_config src_buffer b.k_temp_buffer_index) k_size
                (empty_config padding)
            ▹ add_op op_matmul (c_string "block_matmul_v") layer_index
                (pointer_batch_config src_buffer b.yq_buffer_index)
                (pointer_batch_config src_buffer b.v_temp_buffer_index) v_size
                (empty_config padding)
            ▹ add_op op_rope_llama (c_string "block_rope_q") layer_index
                (pointer_batch_config src_buffer b.q_buffer_index)
                (pointer_batch_config src_buffer b.q_buffer_index) size0
                (rope_llama_config padding h true n.position_pipe_index b.rope_cache_buffer_index
                  rope_slice)
            ▹ add_op op_rope_llama (c_string "block_rope_k") layer_index
                (pointer_batch_config src_buffer b.k_temp_buffer_index)
                (pointer_batch_config src_buffer b.k_temp_buffer_index) size0
                (rope_llama_config padding h false n.position_pipe_index b.rope_cache_buffer_index
                  rope_slice)
            ▹ add_op op_shift (c_string "block_shift_k") layer_index
                (pointer_batch_config src_buffer b.k_temp_buffer_index)
                (pointer_raw_config src_buffer k_buffer_index) size0 (u32 n.position_pipe_index)
            ▹ add_op op_shift (c_string "block_shift_v") layer_index
                (pointer_batch_config src_buffer b.v_temp_buffer_index)
                (pointer_raw_config src_buffer v_buffer_index) size0 (u32 n.position_pipe_index)
            ▹ add_op op_multihead_att (c_string "block_multihead_att") layer_index
                (pointer_batched_slice_config src_buffer b.y_buffer_index)
                (pointer_batched_slice_config src_buffer b.y_buffer_index) size0
                (multi_head_att_config n.multi_head_att_slice.n_heads
                  n.multi_head_att_slice.n_heads0 h.n_kv_heads h.head_size h.seq_len n.q_slice.d0
                  n.kv_cache_slice.kv_dim0 n.position_pipe_index b.q_buffer_index k_buffer_index
                  v_buffer_index b.att_buffer_index)
            ▹ add_op op_cast (c_string "block_cast_y2") layer_index
                (pointer_batched_slice_config src_buffer b.y_buffer_index)
                (pointer_batch_config src_buffer b.yq_slice_index) size0 (empty_config padding)
            ▹ add_op op_matmul (c_string "block_matmul_wo") layer_index
                (pointer_batch_config src_buffer b.yq_slice_index)
                (pointer_batch_config src_buffer b.y_buffer_index) wo_size (empty_config padding)
            ▹ add_op op_cast (c_string "block_cast_d") layer_index
                (pointer_batch_config src_buffer b.y_buffer_index)
                (pointer_batched_slice_config src_pipe n.zq_pipe_index) size0 (empty_config padding)
            ▹ add_sync n.zq_pipe_index sync_node_slices
            ▹ add_cache_sync k_buffer_index cache_sync_save_kv
            ▹ add_cache_sync v_buffer_index cache_sync_save_kv))

    unfoldable pub ff_segment : ℕ → Result NnSegmentConfig
    ff_segment layer_index = do
      w1_size ← size_2d h.weight_type n.w1_slice.n n.w1_slice.d0
      w3_size ← size_2d h.weight_type n.w3_slice.n n.w3_slice.d0
      w2_size ← size_2d h.weight_type n.w2_slice.n0 n.w2_slice.d
      ok (
          build_segment (
            new_segment_builder
            ▹ merge_zq (c_string "block_merge_add2") layer_index
            ▹ norm (c_string "block_inv_rms_1") (c_string "block_rms_norm_1") layer_index
            ▹ cast_y (c_string "block_cast_y3") layer_index
            ▹ add_op op_matmul (c_string "block_matmul_w1") layer_index
                (pointer_batch_config src_buffer b.yq_buffer_index)
                (pointer_batch_config src_buffer b.d_buffer_index) w1_size (empty_config padding)
            ▹ add_op op_matmul (c_string "block_matmul_w3") layer_index
                (pointer_batch_config src_buffer b.yq_buffer_index)
                (pointer_batch_config src_buffer b.l_buffer_index) w3_size (empty_config padding)
            ▹ add_op op_silu (c_string "block_act") layer_index
                (pointer_batch_config src_buffer b.d_buffer_index)
                (pointer_batch_config src_buffer b.d_buffer_index) size0 (empty_config padding)
            ▹ add_op op_mul (c_string "block_mul") layer_index
                (pointer_batch_config src_buffer b.d_buffer_index)
                (pointer_batch_config src_buffer b.d_buffer_index) size0 (u32 b.l_buffer_index)
            ▹ when (not (b.d_buffer_index == b.dq_buffer_index)) (
                add_op op_cast (c_string "block_cast_d2") layer_index
                  (pointer_batch_config src_buffer b.d_buffer_index)
                  (pointer_batch_config src_buffer b.dq_buffer_index) size0 (empty_config padding))
            ▹ add_op op_matmul (c_string "block_matmul_w2") layer_index
                (pointer_batch_config src_buffer b.dq_buffer_index)
                (pointer_batch_config src_buffer b.y_buffer_index) w2_size (empty_config padding)
            ▹ add_op op_cast (c_string "block_cast_d3") layer_index
                (pointer_batch_config src_buffer b.y_buffer_index)
                (pointer_batched_slice_config src_pipe n.zq_pipe_index) size0 (empty_config padding)
            ▹ add_sync n.zq_pipe_index sync_node_slices))

    unfoldable pub end_segment : Result NnSegmentConfig
    end_segment = do
      wcls_size ← size_2d h.weight_type n.wcls_slice.n n.wcls_slice.d0
      ok (
          build_segment (
            new_segment_builder
            ▹ merge_zq (c_string "final_merge_add") 0
            ▹ norm (c_string "final_inv_rms") (c_string "final_rms_norm") 0
            ▹ cast_y (c_string "final_cast_y") 0
            ▹ add_op op_matmul (c_string "final_matmul_logits") 0
                (pointer_batch_config src_buffer b.yq_buffer_index)
                (pointer_batch_config src_buffer b.logits_slice_buffer_index) wcls_size
                (empty_config padding)
            ▹ add_op op_cast (c_string "final_cast_logits") 0
                (pointer_batch_config src_buffer b.logits_slice_buffer_index)
                (pointer_batched_slice_config src_pipe n.logits_pipe_index) size0
                (empty_config padding)
            ▹ add_sync n.logits_pipe_index sync_node_slices_except_root))
