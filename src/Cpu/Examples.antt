-- ===== src/Cpu/Examples.antt =====
-- A device with one matrix product for 300 batches, and a buffer that two threads save.
use distributed_llama.Base.{ℕ, ◌+◌, ◌<◌, ok, ◌≡◌, refl, arith, [], ◌∷◌, Fault, err}
use distributed_llama.Quants.{f_32}
use distributed_llama.Core.Sizes.{size_2d, get_bytes}
use distributed_llama.Core.Pointers.{src_pipe, pointer_batch_config}
use distributed_llama.Core.Config.{NnPipeConfig, NnOpConfig, NnSegmentConfig, op_matmul}
use distributed_llama.Cpu.Pointers.{NnCpuDevice}
use distributed_llama.Base.Loops.{for_range}
use distributed_llama.Core.Config.{cache_sync_save_kv}
use distributed_llama.Executor.{NnNetExecution}
use distributed_llama.Cpu.Pointers.{slot_buffer}
use distributed_llama.Cpu.SyncCache.{CacheState, sync_op}
use distributed_llama.Cpu.SyncCache.Saves.{sync_op-save_all}
use distributed_llama.Cpu.Segments.{NnCpuDeviceCacheSyncOp, create_segment}
use distributed_llama.Cpu.Batches.{create_segment-too_many_batches}

abbrev pipe_config : NnPipeConfig
pipe_config = record {
  name = 88 ∷ (0 ∷ []);
  size = record { float_type = f_32; y = 300; x = 1; length = 300; n_bytes = 1200 };
}

abbrev product : NnOpConfig
product = record {
  code = op_matmul;
  name = 109 ∷ (0 ∷ []);
  index = 0;
  input = pointer_batch_config src_pipe 0;
  output = pointer_batch_config src_pipe 0;
  weight_size = record { float_type = f_32; y = 1; x = 1; length = 1; n_bytes = 4 };
  config = [];
}

abbrev segment : NnSegmentConfig
segment = record { ops = product ∷ []; syncs = []; cache_syncs = [] }

abbrev device : NnCpuDevice
device = record {
  net_config = record {
    n_batches = 300;
    n_nodes = 1;
    n_slots = 1;
    pipes = pipe_config ∷ [];
    pre_syncs = [];
  };
  node_config = record { node_index = 0; buffers = []; segments = segment ∷ [] };
  buffer_flags = [];
}

create_segment-too_many_batches_example : (fault : Fault) × (create_segment device 0 ≡ err fault)
create_segment-too_many_batches_example =
    create_segment-too_many_batches device 0 0 segment product refl refl tt tt (omega arith)

-- A buffer of a slot, of which two rows of four are saved by two threads.
abbrev execution : NnNetExecution
execution = record {
  n_threads = 2;
  n_batches = 1;
  n_pipes = 1;
  n_slots = 1;
  batch_size = 1;
  slot = 0;
  cache_save_id = 7;
  cache_load_id = 5;
  pipes = [];
}

abbrev keys : NnCpuDeviceCacheSyncOp
keys = record {
  slot_targets = slot_buffer 0 3 ∷ [];
  size = record { float_type = f_32; y = 4; x = 1; length = 4; n_bytes = 16 };
  type = cache_sync_save_kv;
  buffer_index = 3;
}

abbrev state : CacheState
state = record {
  memory = λ m. record { size = 16; byte = λ i. i + 1 };
  staged = λ id index. record { size = 0; byte = λ i. 0 };
}

sync_op-save_all_example :
    (s' : CacheState) × (for_range 2 0
        (λ t s. sync_op (λ id index n b. ok b) 2 execution 2 cache_sync_save_kv keys t s)
        state
      ≡ ok s')
    × (s'.memory ≡ state.memory)
    × ((s'.staged 7 3).size ≡ 8)
    × ((i : ℕ) → i < 8 → (s'.staged 7 3).byte i ≡ i + 1)
unfolding size_2d get_bytes
sync_op-save_all_example =
    sync_op-save_all (λ id index n b. ok b) 2 execution 2 cache_sync_save_kv keys (slot_buffer 0 3)
      8 state (omega arith) refl tt (λ e. omega (arith, e)) refl refl (omega arith) (omega arith)
