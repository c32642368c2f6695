-- ===== src/Cpu/Kernels.antt =====
-- getCpuOpForward, getCpuOpForwardInit and the checks of the init functions of src/nn/nn-cpu-ops.cpp. A
-- kernel, which computes on floats, is known by its name.
use distributed_llama.Base.{
  ℕ, ◌*◌, List, take, drop, get_elem?, set, Option, none, some, Bool, ◌==◌, if◌then◌else◌, Result,
  ok, guard, ◌>>=◌, ◌>>◌, assertion,
}
use distributed_llama.Base.{◌%◌, ◌*◌, ◌+◌, ◌-◌, ◌/◌, ◌^◌, not, leb, memory, division}
use distributed_llama.Base.Loops.{for_range}
use distributed_llama.Quants.{f_32}
use distributed_llama.Core.Sizes.{NnSize2D}
use distributed_llama.Core.Config.{
  NnOpCode, op_merge_add, op_embedding, op_inv_rms, op_rms_norm, op_matmul, op_rope_llama,
  op_multihead_att, op_gelu, op_silu, op_mul, op_cast, op_shift, NnPipeConfig, NnBufferConfig,
}
use distributed_llama.Core.OpQuant.{
  NnOpQuantType, f32_f32_f32, f32_f32_q80, q80_q80_q80, q80_q80_f32, q80_q40_f32, q80_f32_f32, ◌is◌,
}
use distributed_llama.Network.Stream.{le_value}
use distributed_llama.Cpu.Pointers.{Pointer, found}

pub data NnCpuOpForward : Type 0 where
  merge_add_forward_f32_f32 merge_add_forward_q80_f32 : NnCpuOpForward
  embedding_forward_f32_f32_f32 embedding_forward_f32_f32_q80 : NnCpuOpForward
  inv_rms_forward_f32_f32 : NnCpuOpForward
  rms_norm_forward_f32_f32_f32 rms_norm_forward_q80_f32_f32 : NnCpuOpForward
  matmul_forward_f32_f32_f32 matmul_forward_q80_q40_f32 : NnCpuOpForward
  rope_llama_forward_f32_f32 multi_head_att_forward_f32_f32 : NnCpuOpForward
  gelu_forward_f32_f32_f32 silu_forward_f32_f32 : NnCpuOpForward
  mul_forward_f32_f32 mul_forward_q80_f32 : NnCpuOpForward
  cast_forward_any cast_forward_f32_q80 cast_forward_q80_f32 : NnCpuOpForward
  shift_forward_f32_f32 : NnCpuOpForward

unfoldable pub get_cpu_op_forward : NnOpCode → NnOpQuantType → Option NnCpuOpForward
get_cpu_op_forward op_merge_add f32_f32_f32 = some merge_add_forward_f32_f32
get_cpu_op_forward op_merge_add q80_q80_f32 = some merge_add_forward_q80_f32
get_cpu_op_forward op_embedding f32_f32_f32 = some embedding_forward_f32_f32_f32
get_cpu_op_forward op_embedding f32_f32_q80 = some embedding_forward_f32_f32_q80
get_cpu_op_forward op_inv_rms f32_f32_f32 = some inv_rms_forward_f32_f32
get_cpu_op_forward op_rms_norm f32_f32_f32 = some rms_norm_forward_f32_f32_f32
get_cpu_op_forward op_rms_norm q80_f32_f32 = some rms_norm_forward_q80_f32_f32
get_cpu_op_forward op_matmul f32_f32_f32 = some matmul_forward_f32_f32_f32
get_cpu_op_forward op_matmul q80_q40_f32 = some matmul_forward_q80_q40_f32
get_cpu_op_forward op_rope_llama f32_f32_f32 = some rope_llama_forward_f32_f32
get_cpu_op_forward op_multihead_att f32_f32_f32 = some multi_head_att_forward_f32_f32
get_cpu_op_forward op_gelu f32_f32_f32 = some gelu_forward_f32_f32_f32
get_cpu_op_forward op_silu f32_f32_f32 = some silu_forward_f32_f32
get_cpu_op_forward op_mul f32_f32_f32 = some mul_forward_f32_f32
get_cpu_op_forward op_mul q80_q80_f32 = some mul_forward_q80_f32
get_cpu_op_forward op_cast f32_f32_f32 = some cast_forward_any
get_cpu_op_forward op_cast f32_f32_q80 = some cast_forward_f32_q80
get_cpu_op_forward op_cast q80_q80_q80 = some cast_forward_any
get_cpu_op_forward op_cast q80_q80_f32 = some cast_forward_q80_f32
get_cpu_op_forward op_shift f32_f32_f32 = some shift_forward_f32_f32
get_cpu_op_forward _ _ = none

-- NnCpuOpContext, with the code of the operation and its kernel. `nBatches` is one byte there.
pub record NnCpuOpContext : Type 0 where
  pub code : NnOpCode
  pub forward : NnCpuOpForward
  pub op_config : List ℕ
  pub n_batches : ℕ
  pub n_slots : ℕ
  pub slot_input : List (List Pointer)
  pub slot_output : List (List Pointer)
  pub input_size : NnSize2D
  pub output_size : NnSize2D
  pub weight_size : NnSize2D
  pub has_input_continuous_memory : Bool
  pub has_output_continuous_memory : Bool
  pub weight : List ℕ

-- The `i`th of the 32-bit fields of an operation's own configuration.
abbrev pub config_field : List ℕ → ℕ → ℕ
config_field config i = le_value (take 4 (drop (4 * i) config))

-- fullfillRopeLlama3Cache (src/nn/nn-core.cpp) on the places that it writes to, in a cache of `n_bytes`
-- bytes; the values are floats. The two turns of the inner loop's body are the two writes.
unfoldable pub write_float : ℕ → ℕ → Result (Unit {0})
write_float n_bytes at = guard (leb (4 * at + 4) n_bytes) memory

unfoldable pub write_pair : ℕ → ℕ → ℕ → ℕ → ℕ → Result (Unit {0})
unfolding write_float
write_pair n_bytes head_size slice_dim pos shift = do
  guard (not (head_size == 0)) division
  let at = (pos * slice_dim + shift) % 2 ^ 32
  write_float n_bytes at
  write_float n_bytes ((at + 1) % 2 ^ 32)

unfoldable pub fullfill_rope_llama3_cache : ℕ → ℕ → ℕ → ℕ → ℕ → ℕ → Result (Unit {0})
unfolding write_pair for_range
fullfill_rope_llama3_cache n_bytes q_dim_end kv_dim_start slice_dim seq_len head_size = do
  guard ((q_dim_end + 2 ^ 32 - kv_dim_start) % 2 ^ 32 % 2 == 0) assertion
  for_range seq_len 0
      (λ pos done.
        for_range ((q_dim_end - kv_dim_start + 1) / 2) 0
          (λ pair done'. write_pair n_bytes head_size slice_dim pos (2 * pair)) done)
      tt

-- What an init function needs of the device: the configurations and the flags of the buffers.
module _ (pipes : List NnPipeConfig) (buffers : List NnBufferConfig) where
  unfoldable pub init_embedding_forward : NnCpuOpContext → Result (Unit {0})
  init_embedding_forward c = do
    guard (c.input_size.x == 1) assertion
    guard (c.input_size.y == c.n_batches) assertion
    guard (c.weight_size.x == c.output_size.x) assertion

  unfoldable pub init_rms_norm_forward : NnCpuOpContext → Result (Unit {0})
  unfolding le_value
  init_rms_norm_forward c = do
    rms ← found (get_elem? buffers (config_field c.op_config 0))
    guard (c.input_size.y == c.n_batches) assertion
    guard (c.input_size.x == c.output_size.x) assertion
    guard (c.output_size.float_type is f_32) assertion
    guard (c.output_size.y == c.n_batches) assertion
    guard (c.weight_size.float_type is f_32) assertion
    guard (c.weight_size.y == 1) assertion
    guard (c.weight_size.x == c.input_size.x) assertion
    guard (rms.size.float_type is f_32) assertion
    guard (rms.size.x == 1) assertion
    guard (rms.size.y == c.n_batches) assertion

  unfoldable pub init_matmul_forward : NnCpuOpContext → Result (Unit {0})
  init_matmul_forward c = do
    guard (c.input_size.y == c.n_batches) assertion
    guard (c.output_size.y == c.n_batches) assertion
    guard (c.input_size.x == c.weight_size.y) assertion
    guard (c.output_size.x == c.weight_size.x) assertion

  unfoldable pub init_multi_head_att_forward : NnCpuOpContext → Result (Unit {0})
  unfolding le_value
  init_multi_head_att_forward c = do
    guard (c.weight_size.n_bytes == 0) assertion
    guard (c.input_size.x == config_field c.op_config 5) assertion
    guard (c.input_size.y == c.n_batches) assertion
    query ← found (get_elem? buffers (config_field c.op_config 8))
    guard (query.size.x == config_field c.op_config 5) assertion
    position ← found (get_elem? pipes (config_field c.op_config 7))
    guard (position.size.x == 1) assertion
    guard (position.size.y == c.n_batches) assertion

  unfoldable pub init_cast_forward : NnCpuOpContext → Result (Unit {0})
  init_cast_forward c = do
    guard (c.input_size.x == c.output_size.x) assertion
    guard (c.input_size.y == c.output_size.y) assertion

  -- The flag says that the cache has been filled; if it has not, that is done for every slot.
  unfoldable pub init_rope_llama3_forward : NnCpuOpContext → List ℕ → Result (List ℕ)
  unfolding le_value fullfill_rope_llama3_cache for_range
  init_rope_llama3_forward c flags = do
    flag ← found (get_elem? flags (config_field c.op_config 2))
    if flag == 1 then ok flags else (do
      cache ← found (get_elem? buffers (config_field c.op_config 2))
      for_range c.n_slots 0
          (λ slot done.
            fullfill_rope_llama3_cache cache.size.n_bytes (config_field c.op_config 10)
              (config_field c.op_config 14) (config_field c.op_config 15)
              (config_field c.op_config 16) (config_field c.op_config 17))
          tt
      ok (set flags (config_field c.op_config 2) 1))

  -- The init function of the operation's code, and its call; the flags that it leaves.
  unfoldable pub op_init : NnOpCode → NnCpuOpContext → List ℕ → Result (List ℕ)
  unfolding init_embedding_forward init_rms_norm_forward init_rope_llama3_forward
      init_multi_head_att_forward init_matmul_forward init_cast_forward
  op_init op_embedding c flags = do init_embedding_forward c; ok flags
  op_init op_rms_norm c flags = do init_rms_norm_forward c; ok flags
  op_init op_rope_llama c flags = init_rope_llama3_forward c flags
  op_init op_multihead_att c flags = do init_multi_head_att_forward c; ok flags
  op_init op_matmul c flags = do init_matmul_forward c; ok flags
  op_init op_cast c flags = do init_cast_forward c; ok flags
  op_init _ c flags = ok flags
