-- ===== src/Cpu/Segments.antt =====
-- NnCpuDevice::createSegment of src/nn/nn-cpu.cpp, and what the segment does with a weight.
use distributed_llama.Base.{
  ℕ, zero, suc, ◌+◌, ◌%◌, List, [], ◌∷◌, length, replicate, map, get_elem?, set, Option, none, some,
  ltb, ◌==◌, Result, ok, err, guard, ◌>>=◌, ◌>>◌, assertion, invalid_argument, memory,
}
use distributed_llama.Core.Sizes.{NnSize2D}
use distributed_llama.Core.Pointers.{has_pointer_continuous_memory}
use distributed_llama.Core.Config.{
  NnOpConfig, NnCacheSyncType, cache_sync_save_kv, NnCacheSyncConfig, NnPipeConfig, NnNetConfig,
  NnNodeConfig,
}
use distributed_llama.Core.OpQuant.{get_op_quant_type}
use distributed_llama.Cpu.Pointers.{
  Memory, slot_buffer, Resolved, NnCpuDevice, found, resolve_pointer,
}
use distributed_llama.Cpu.Kernels.{NnCpuOpForward, NnCpuOpContext, get_cpu_op_forward, op_init}

-- The flags of a new device.
unfoldable pub new_cpu_device : NnNetConfig → NnNodeConfig → NnCpuDevice
new_cpu_device net node = record {
  net_config = net;
  node_config = node;
  buffer_flags = replicate (length node.buffers) 0;
}

-- An operation's input and output for each slot, from a slot on.
unfoldable pub resolve_slots :
    NnCpuDevice → NnOpConfig → ℕ → ℕ → Result (List (Resolved × Resolved))
unfolding resolve_pointer
resolve_slots d op zero slot = ok []
resolve_slots d op (suc n) slot = do
  input ← resolve_pointer d slot op.input
  output ← resolve_pointer d slot op.output
  rest ← resolve_slots d op n (slot + 1)
  ok ((input, output) ∷ rest)

-- The sizes that the last slot leaves; without a slot they are not set.
abbrev pub last_sizes : List (Resolved × Resolved) → Result (NnSize2D × NnSize2D)
last_sizes [] = err memory
last_sizes ((input, output) ∷ []) = ok (input.size, output.size)
last_sizes (_ ∷ (r ∷ rs)) = last_sizes (r ∷ rs)

abbrev pub supported : Option NnCpuOpForward → Result NnCpuOpForward
supported none = err invalid_argument
supported (some forward) = ok forward

-- The first loop of createSegment for one operation, with the fields that the second one sets. The
-- weight is allocated: its bytes are not set.
unfoldable pub plan_op : NnCpuDevice → NnOpConfig → Result NnCpuOpContext
unfolding resolve_slots get_op_quant_type get_cpu_op_forward has_pointer_continuous_memory
plan_op d op = do
  slots ← resolve_slots d op d.net_config.n_slots 0
  sizes ← last_sizes slots
  quant ← get_op_quant_type sizes.0.float_type op.weight_size.float_type sizes.1.float_type
  forward ← supported (get_cpu_op_forward op.code quant)
  ok (record {
    code = op.code;
    forward = forward;
    op_config = op.config;
    n_batches = d.net_config.n_batches % 256;
    n_slots = d.net_config.n_slots;
    slot_input = map (λ s. s.0.pntr) slots;
    slot_output = map (λ s. s.1.pntr) slots;
    input_size = sizes.0;
    output_size = sizes.1;
    weight_size = op.weight_size;
    has_input_continuous_memory = has_pointer_continuous_memory op.input.type;
    has_output_continuous_memory = has_pointer_continuous_memory op.output.type;
    weight = [];
  })

unfoldable pub plan_ops : NnCpuDevice → List NnOpConfig → Result (List NnCpuOpContext)
unfolding plan_op
plan_ops d [] = ok []
plan_ops d (op ∷ ops) = do c ← plan_op d op; rest ← plan_ops d ops; ok (c ∷ rest)

-- The second loop: the init functions, in the order of the operations.
unfoldable pub init_ops : NnCpuDevice → List NnCpuOpContext → List ℕ → Result (List ℕ)
unfolding op_init
init_ops d [] flags = ok flags
init_ops d (c ∷ contexts) flags = do
  flags' ← op_init d.net_config.pipes d.node_config.buffers c.code c flags
  init_ops d contexts flags'

-- NnCpuDeviceCacheSyncOp. Its type tells which of the two ids of the execution `cacheId` points to.
pub record NnCpuDeviceCacheSyncOp : Type 0 where
  pub slot_targets : List Memory
  pub size : NnSize2D
  pub type : NnCacheSyncType
  pub buffer_index : ℕ

unfoldable pub slot_targets : ℕ → ℕ → ℕ → List Memory
slot_targets buffer_index zero slot = []
slot_targets buffer_index (suc n) slot =
    slot_buffer slot buffer_index ∷ slot_targets buffer_index n (slot + 1)

-- `kvPos` points to the first pipe, where the keys and values are saved by position.
abbrev pub kv_pos : NnCacheSyncType → List NnPipeConfig → Result (Unit {0})
kv_pos cache_sync_save_kv [] = err memory
kv_pos _ _ = ok tt

unfoldable pub create_cache_syncs :
    NnCpuDevice → List NnCacheSyncConfig → Result (List NnCpuDeviceCacheSyncOp)
unfolding slot_targets
create_cache_syncs d [] = ok []
create_cache_syncs d (s ∷ syncs) = do
  buffer ← found (get_elem? d.node_config.buffers s.buffer_index)
  kv_pos s.cache_sync_type d.net_config.pipes
  rest ← create_cache_syncs d syncs
  ok (
      record {
        slot_targets = slot_targets s.buffer_index d.net_config.n_slots 0;
        size = buffer.size;
        type = s.cache_sync_type;
        buffer_index = s.buffer_index;
      }
      ∷ rest)

pub record NnCpuDeviceSegment : Type 0 where
  pub op_contexts : List NnCpuOpContext
  pub cache_sync_ops : List NnCpuDeviceCacheSyncOp

-- The new segment, and the device with its flags.
unfoldable pub create_segment : NnCpuDevice → ℕ → Result (NnCpuDeviceSegment × NnCpuDevice)
unfolding plan_ops init_ops create_cache_syncs
create_segment d segment_index = do
  s ← found (get_elem? d.node_config.segments segment_index)
  guard (ltb 0 (length s.ops)) assertion
  contexts ← plan_ops d s.ops
  flags ← init_ops d contexts d.buffer_flags
  cache_syncs ← create_cache_syncs d s.cache_syncs
  ok (
    record { op_contexts = contexts; cache_sync_ops = cache_syncs },
    record d { buffer_flags = flags },
  )

-- NnCpuDeviceSegment::loadWeight.
unfoldable pub load_op_weight : ℕ → List ℕ → NnCpuDeviceSegment → Result NnCpuDeviceSegment
load_op_weight op_index weight s = do
  guard (ltb op_index (length s.op_contexts)) assertion
  c ← found (get_elem? s.op_contexts op_index)
  guard (c.weight_size.n_bytes == length weight) assertion
  ok (record s { op_contexts = set s.op_contexts op_index (record c { weight = weight }) })
