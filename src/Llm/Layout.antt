-- ===== src/Llm/Layout.antt =====
-- What the operations of a node find: its buffers and the pipes with their sizes, slices that agree
-- with the header, and kernels for the formats.
use distributed_llama.Base.{ℕ, ◌*◌, ◌/◌, ◌%◌, ◌^◌, ◌<◌, ◌≡◌, some, ok}
use distributed_llama.Quants.{NnFloatType, f_32, f_unk}
use distributed_llama.Core.Pointers.{src_pipe, src_buffer}
use distributed_llama.Core.OpQuant.{NnOpQuantType, get_op_quant_type}
use distributed_llama.Core.Config.{cache_sync_save_kv, op_merge_add, op_matmul, op_cast}
use distributed_llama.Llm.{LlmHeader}
use distributed_llama.Llm.Parts.{LlmParts}
use distributed_llama.Llm.Buffers.{LlmBuffers}
use distributed_llama.Cpu.Pointers.{NnCpuDevice}
use distributed_llama.Cpu.Kernels.{NnCpuOpForward, get_cpu_op_forward}
use distributed_llama.Cpu.Segments.{kv_pos}
use distributed_llama.Cpu.Resolves.{Sized, HasBytes, HasSource}

-- The device has a kernel for each conversion and for the products.
pub record HasKernels (sync weight : NnFloatType) : Type 0 where
  pub cast_quant : NnOpQuantType
  pub cast_forward : NnCpuOpForward
  pub cast_quant_is : get_op_quant_type f_32 f_unk sync ≡ ok cast_quant
  pub cast_forward_is : get_cpu_op_forward op_cast cast_quant ≡ some cast_forward
  pub merge_quant : NnOpQuantType
  pub merge_forward : NnCpuOpForward
  pub merge_quant_is : get_op_quant_type sync f_unk f_32 ≡ ok merge_quant
  pub merge_forward_is : get_cpu_op_forward op_merge_add merge_quant ≡ some merge_forward
  pub matmul_quant : NnOpQuantType
  pub matmul_forward : NnCpuOpForward
  pub matmul_quant_is : get_op_quant_type sync weight f_32 ≡ ok matmul_quant
  pub matmul_forward_is : get_cpu_op_forward op_matmul matmul_quant ≡ some matmul_forward

-- The slices that the header gives, on these nodes.
pub record IsSliced (h : LlmHeader) (n : LlmParts) (nodes : ℕ) : Type 0 where
  pub dim_divides : h.dim % nodes ≡ 0
  pub vocab_divides : h.vocab_size % nodes ≡ 0
  pub q_n : n.q_slice.n ≡ h.dim
  pub q_d0 : n.q_slice.d0 ≡ h.dim / nodes
  pub k_n : n.k_slice.n ≡ h.dim
  pub v_n : n.v_slice.n ≡ h.dim
  pub wo_n0 : n.wo_slice.n0 ≡ h.dim / nodes
  pub wo_d : n.wo_slice.d ≡ h.dim
  pub w1_n : n.w1_slice.n ≡ h.dim
  pub w1_d0 : n.w1_slice.d0 ≡ h.hidden_dim / nodes
  pub w3_n : n.w3_slice.n ≡ h.dim
  pub w2_n0 : n.w2_slice.n0 ≡ h.hidden_dim / nodes
  pub w2_d : n.w2_slice.d ≡ h.dim
  pub wcls_n : n.wcls_slice.n ≡ h.dim
  pub wcls_d0 : n.wcls_slice.d0 ≡ h.vocab_size / nodes
  pub key_float : n.kv_cache_slice.key_size.float_type ≡ f_32
  pub value_float : n.kv_cache_slice.value_size.float_type ≡ f_32
  pub token_embedding : Sized f_32 h.vocab_size h.dim n.token_embedding_size
  pub rms_norm : Sized f_32 1 h.dim n.rms_norm_size

-- The pipes.
pub record HasPipes (d : NnCpuDevice) (h : LlmHeader) (n : LlmParts) (nodes : ℕ) : Type 0 where
  pub position_lt : n.position_pipe_index < 2 ^ 32
  pub position : HasSource d src_pipe n.position_pipe_index f_32 d.net_config.n_batches 1
  pub token : HasSource d src_pipe n.token_pipe_index f_32 d.net_config.n_batches 1
  pub x : HasSource d src_pipe n.x_pipe_index f_32 d.net_config.n_batches h.dim
  pub logits : HasSource d src_pipe n.logits_pipe_index f_32 d.net_config.n_batches h.vocab_size
  pub first : kv_pos cache_sync_save_kv d.net_config.pipes ≡ ok tt
  pub zq : HasSource d src_pipe n.zq_pipe_index h.sync_type d.net_config.n_batches (h.dim * nodes)

-- The buffers that do not belong to a layer.
pub record HasBuffers (d : NnCpuDevice) (h : LlmHeader) (n : LlmParts) (b : LlmBuffers) (nodes : ℕ)
    : Type 0 where
  pub x : HasSource d src_buffer b.x_buffer_index f_32 d.net_config.n_batches h.dim
  pub y : HasSource d src_buffer b.y_buffer_index f_32 d.net_config.n_batches h.dim
  pub yq : HasSource d src_buffer b.yq_buffer_index h.sync_type d.net_config.n_batches h.dim
  pub yq_slice :
      HasSource d src_buffer b.yq_slice_index h.sync_type d.net_config.n_batches (h.dim / nodes)
  pub q : HasSource d src_buffer b.q_buffer_index f_32 d.net_config.n_batches n.q_slice.d0
  pub k_temp : HasSource d src_buffer b.k_temp_buffer_index f_32 d.net_config.n_batches n.k_slice.d0
  pub v_temp : HasSource d src_buffer b.v_temp_buffer_index f_32 d.net_config.n_batches n.v_slice.d0
  pub d_ff : HasSource d src_buffer b.d_buffer_index f_32 d.net_config.n_batches n.w1_slice.d0
  pub dq : HasSource d src_buffer b.dq_buffer_index h.sync_type d.net_config.n_batches n.w1_slice.d0
  pub l : HasSource d src_buffer b.l_buffer_index f_32 d.net_config.n_batches n.w3_slice.d0
  pub inv_rms : HasSource d src_buffer b.inv_rms_buffer_index f_32 d.net_config.n_batches 1
  pub logits_slice :
      HasSource d src_buffer b.logits_slice_buffer_index f_32 d.net_config.n_batches
        (h.vocab_size / nodes)
  pub q_lt : b.q_buffer_index < 2 ^ 32
  pub inv_rms_lt : b.inv_rms_buffer_index < 2 ^ 32
  pub rope_cache_lt : b.rope_cache_buffer_index < 2 ^ 32

-- Whole blocks in every row, and in the slices of the rows.
pub record HasBlocks (h : LlmHeader) (nodes batches : ℕ) : Type 0 where
  pub row : HasBytes h.sync_type h.dim
  pub row_slice : HasBytes h.sync_type (h.dim / nodes)
  pub hidden_slice : HasBytes h.sync_type (h.hidden_dim / nodes)
  pub all_rows : HasBytes h.sync_type (h.dim * nodes)
  pub batch_rows : HasBytes h.sync_type (batches * h.dim % 2 ^ 32)
  pub positive : 0 < nodes
  pub dim_lt : h.dim < 2 ^ 32

pub record IsReady (d : NnCpuDevice) (h : LlmHeader) (n : LlmParts) (b : LlmBuffers) : Type 0 where
  pub slots : 0 < d.net_config.n_slots
  pub few : d.net_config.n_batches < 256
  pub kernels : HasKernels h.sync_type h.weight_type
  pub sliced : IsSliced h n d.net_config.n_nodes
  pub pipes : HasPipes d h n d.net_config.n_nodes
  pub buffers : HasBuffers d h n b d.net_config.n_nodes
  pub blocks : HasBlocks h d.net_config.n_nodes d.net_config.n_batches
