-- ===== src/Executor/Examples.antt =====
-- An executor of two segments on one device.
use distributed_llama.Base.{ℕ, ◌-◌, ◌^◌, ◌≡◌, ◌⊎◌, refl, false, List, [], ◌∷◌, Result, ok}
use distributed_llama.Core.Sizes.{size0}
use distributed_llama.Core.Pointers.{src_pipe, pointer_batch_config}
use distributed_llama.Core.Config.{NnOpConfig, NnSegmentConfig, op_cast, sync_node_slices}
use distributed_llama.Executor.{
  NnExecutor, NnExecutorDevice, build_segments, load_weight, find_device, segment_steps,
}
use distributed_llama.Executor.Steps.{ops_in, all_ops, build_segments-ops}
use distributed_llama.Executor.Weights.{Located, Missing, load_weight_lem}
use distributed_llama.Base.{true, arith, ◌<◌, length}
use distributed_llama.Executor.{NnNetExecution}
use distributed_llama.Executor.Forward.{
  DeviceCall, call_forward, forward, calls_of_thread, forwards_in, forward_ops,
}
use distributed_llama.Cache.Tokens.{All}

-- The device makes a segment that is known by its number.
abbrev create : ℕ → ℕ → Result ℕ
create device segment = ok segment

abbrev devices : List NnExecutorDevice
devices = record { max_n_threads = 4; segment_from = 2 ^ 32 - 1; segment_to = 2 ^ 32 - 1 } ∷ []

abbrev op : NnOpConfig
op = record {
  code = op_cast;
  name = 120 ∷ [];
  index = 3;
  input = pointer_batch_config src_pipe 0;
  output = pointer_batch_config src_pipe 0;
  weight_size = size0;
  config = [];
}

abbrev configs : List NnSegmentConfig
configs =
    record {
      ops = [];
      syncs = record { pipe_index = 0; sync_type = sync_node_slices } ∷ [];
      cache_syncs = [];
    }
    ∷ record { ops = op ∷ op ∷ []; syncs = []; cache_syncs = [] }
    ∷ []

abbrev built : Result (NnExecutor ℕ) → NnExecutor ℕ
built (ok e) = e
built _ = record { segments = []; steps = [] }

abbrev executor : NnExecutor ℕ
executor = built (build_segments create devices false 0 configs)

executor_ok : build_segments create devices false 0 configs ≡ ok executor
unfolding build_segments find_device segment_steps
executor_ok = refl

build_segments-ops_example : ops_in executor.steps ≡ all_ops 0 configs
build_segments-ops_example = build_segments-ops create devices false 0 configs executor executor_ok

load_weight_lem_example :
    Located create configs executor.segments
      (120 ∷ [])
      3
      (load_weight configs executor.segments (120 ∷ []) 3)
    ⊎ Missing create configs (120 ∷ []) 3 (load_weight configs executor.segments (120 ∷ []) 3)
load_weight_lem_example =
    load_weight_lem create devices false 0 configs executor (120 ∷ []) 3 executor_ok

abbrev execution : NnNetExecution
execution = record {
  n_threads = 2;
  n_batches = 4;
  n_pipes = 0;
  n_slots = 1;
  batch_size = 3;
  slot = 0;
  cache_save_id = 0;
  cache_load_id = 0;
  pipes = [];
}

forward_ops_example :
    (rounds : List (List (List DeviceCall))) × (forward executor execution true ≡ ok rounds)
    × All (λ (round : List (List DeviceCall)). length round ≡ 2) rounds
    × ((t : ℕ)
        → t < 2
        → forwards_in (calls_of_thread t rounds)
          ≡ call_forward 1 0 2 t 3 ∷ call_forward 1 1 2 t 3 ∷ [])
forward_ops_example =
    forward_ops create devices false true configs executor execution executor_ok (omega arith)
