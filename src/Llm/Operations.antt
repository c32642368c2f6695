-- ===== src/Llm/Operations.antt =====
-- The device takes every operation of the segments of buildLlmNet.
use distributed_llama.Base.{
  ℕ, ◌*◌, ◌/◌, ◌≡◌, refl, subst, ◌∙◌, not, Bool, true, false, List, ◌==◌, ok,
}
use distributed_llama.Base.Numbers.{mul-div_self, mul-mod_self}
use distributed_llama.Quants.{f_32}
use distributed_llama.Core.Sizes.{NnSize2D, size0, size_2d}
use distributed_llama.Core.Pointers.{
  NnPointerSource, src_pipe, src_buffer, pointer_batch_config, pointer_batched_slice_config,
}
use distributed_llama.Core.OpQuant.{get_op_quant_type}
use distributed_llama.Core.Config.{op_cast, op_matmul, op_inv_rms, op_merge_add}
use distributed_llama.Core.Builder.{NnSegmentConfigBuilder, add_op}
use distributed_llama.Llm.{LlmHeader}
use distributed_llama.Llm.OpConfigs.{empty_config}
use distributed_llama.Llm.Parts.{LlmParts}
use distributed_llama.Llm.Buffers.{LlmBuffers}
use distributed_llama.Llm.Layers.{norm, cast_y, merge_zq, block_input}
use distributed_llama.Llm.Layout.{IsReady}
use distributed_llama.Cpu.Pointers.{NnCpuDevice}
use distributed_llama.Cpu.Kernels.{get_cpu_op_forward, op_init, inv_rms_forward_f32_f32}
use distributed_llama.Cpu.Resolves.{
  HasBytes, get_bytes-f_32, size_2d-Sized, HasSource, Resolves, batch-Resolves, slice-Resolves,
}
use distributed_llama.Cpu.Created.{Created, operation, plain-Created, cast-Created, matmul-Created}
use distributed_llama.Cpu.Checked.{rms_norm-Created}
use distributed_llama.Cpu.Serves.{Serves, add_op-Serves, when-Serves}

module _ (d : NnCpuDevice) (h : LlmHeader) (n : LlmParts) (b : LlmBuffers) (ready : IsReady d h n b)
    (padding : ℕ) where
  open ready use {slots, few, kernels, sliced, pipes, buffers, blocks}

  -- The pointers to floats and to the format of the synchronization.
  pub float :
      {source : NnPointerSource} {index x : ℕ}
      → HasSource d source index f_32 d.net_config.n_batches x
      → Resolves d (pointer_batch_config source index) f_32 d.net_config.n_batches x
  float s = batch-Resolves d s (get_bytes-f_32 _)

  pub zq_slice :
      Resolves d
        (pointer_batched_slice_config src_pipe n.zq_pipe_index)
        h.sync_type
        d.net_config.n_batches
        h.dim
  zq_slice =
      let back : h.dim * d.net_config.n_nodes / d.net_config.n_nodes ≡ h.dim =
        mul-div_self h.dim d.net_config.n_nodes blocks.positive in
      subst
        (Resolves d (pointer_batched_slice_config src_pipe n.zq_pipe_index) h.sync_type
          d.net_config.n_batches)
        back
        (slice-Resolves d pipes.zq blocks.all_rows
          (mul-mod_self h.dim d.net_config.n_nodes blocks.positive) (rw back blocks.row)
          (rw back blocks.batch_rows))

  pub y_slice :
      Resolves d
        (pointer_batched_slice_config src_buffer b.y_buffer_index)
        f_32
        d.net_config.n_batches
        (h.dim / d.net_config.n_nodes)
  y_slice =
      slice-Resolves d buffers.y (get_bytes-f_32 _) sliced.dim_divides (get_bytes-f_32 _)
        (get_bytes-f_32 _)

  pub norm-Serves :
      (name name' : List ℕ) (layer : ℕ) {s : NnSegmentConfigBuilder}
      → Serves d s
      → Serves d (norm padding h n b name name' layer s)
  unfolding get_op_quant_type get_cpu_op_forward op_init
  norm-Serves name name' layer s =
      add_op-Serves d _ _ _ _ _ _ _
        (add_op-Serves d _ _ _ _ _ _ _ s (
          plain-Created d slots few _ _ _ op_inv_rms inv_rms_forward_f32_f32 (float buffers.x)
            (float buffers.inv_rms) refl refl (λ c flags. refl)))
        (rms_norm-Created d slots few _ _ b.inv_rms_buffer_index n.rms_norm_size buffers.inv_rms_lt
          buffers.inv_rms (float buffers.x) (float buffers.y) sliced.rms_norm)

  pub merge_zq-Serves :
      (name : List ℕ) (layer : ℕ) {s : NnSegmentConfigBuilder}
      → Serves d s
      → Serves d (merge_zq padding h n b name layer s)
  unfolding op_init
  merge_zq-Serves name layer s = add_op-Serves d _ _ _ _ _ _ _ s (
      plain-Created d slots few _ _ _ op_merge_add kernels.merge_forward
        (batch-Resolves d pipes.zq blocks.all_rows) (float buffers.x) kernels.merge_quant_is
        kernels.merge_forward_is (λ c flags. refl))

  pub cast_y-Serves :
      (name : List ℕ) (layer : ℕ) {s : NnSegmentConfigBuilder}
      → Serves d s
      → Serves d (cast_y padding h n b name layer s)
  cast_y-Serves name layer s =
      when-Serves d (not (b.y_buffer_index == b.yq_buffer_index))
        (add_op op_cast name layer (pointer_batch_config src_buffer b.y_buffer_index)
          (pointer_batch_config src_buffer b.yq_buffer_index) size0 (empty_config padding))
        s
        (λ different. add_op-Serves d _ _ _ _ _ _ _ s (
          cast-Created d slots few _ _ _ (float buffers.y) (batch-Resolves d buffers.yq blocks.row)
            kernels.cast_quant_is kernels.cast_forward_is))

  pub block_input-Serves :
      (first : Bool) (layer : ℕ) {s : NnSegmentConfigBuilder}
      → Serves d s
      → Serves d (block_input padding h n b first layer s)
  unfolding get_op_quant_type get_cpu_op_forward
  block_input-Serves true layer s =
      add_op-Serves d _ _ _ _ _ _ _ s
        (cast-Created d slots few _ _ _ (float pipes.x) (float buffers.x) refl refl)
  block_input-Serves false layer s = merge_zq-Serves _ layer s

  -- A product of the buffer in the format of the synchronization.
  pub product :
      {from to x x' : ℕ} {name : List ℕ} {layer : ℕ} (w : NnSize2D)
      → HasSource d src_buffer from h.sync_type d.net_config.n_batches x
      → HasBytes h.sync_type x
      → HasSource d src_buffer to f_32 d.net_config.n_batches x'
      → (y : ℕ) → y ≡ x
      → (y' : ℕ) → y' ≡ x'
      → size_2d h.weight_type y y' ≡ ok w
      → Created d (
          operation d op_matmul name layer
            (pointer_batch_config src_buffer from)
            (pointer_batch_config src_buffer to)
            w
            (empty_config padding))
  product w from bytes to y ey y' ey' made =
      let (wt, wy, wx) = size_2d-Sized h.weight_type y y' w made in
      matmul-Created d slots few _ _ _ w (batch-Resolves d from bytes) (float to)
        (wt, wy ∙ ey, wx ∙ ey') kernels.matmul_quant_is kernels.matmul_forward_is
