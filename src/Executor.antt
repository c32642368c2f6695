-- ===== src/Executor.antt =====
-- src/nn/nn-executor.cpp: the settings of a forward pass, the list of steps that an executor runs, and
-- the search for the operation that a weight belongs to. A device is known by its number; what its
-- `createSegment` returns is a parameter.
pub mod Steps
pub mod Forward
pub mod Weights
mod Examples
use distributed_llama.Base.{
  ℕ, zero, suc, ◌+◌, ◌-◌, ◌^◌, ◌≤◌, ◌<◌, Bool, true, false, ◌&&◌, ◌||◌, List, [], ◌∷◌, ◌++◌, map,
  Option, none, some, length, ltb, leb, ◌==◌, if◌then◌else◌, get_elem?, max, Result, ok, err, guard,
  ◌>>=◌, ◌>>◌, assertion, invalid_argument, memory,
}
use distributed_llama.Base.Buffer.{Buffer}
use distributed_llama.Base.Strings.{same_string}
use distributed_llama.Cache.Manager.{cache_skip}
use distributed_llama.Core.Config.{
  NnPipeConfig, NnOpConfig, NnSegmentConfig, NnNetConfig, NnNodeConfig,
}

pub record NnNetExecution : Type 0 where
  pub n_threads : ℕ
  pub n_batches : ℕ
  pub n_pipes : ℕ
  pub n_slots : ℕ
  pub batch_size : ℕ
  pub slot : ℕ
  pub cache_save_id : ℕ
  pub cache_load_id : ℕ
  pub pipes : List Buffer

abbrev pub new_pipe : NnPipeConfig → Buffer
new_pipe p = record { size = p.size.n_bytes; byte = λ i. 0 }

unfoldable pub new_net_execution : ℕ → NnNetConfig → NnNetExecution
new_net_execution n_threads c = record {
  n_threads = n_threads;
  n_batches = c.n_batches;
  n_pipes = length c.pipes;
  n_slots = c.n_slots;
  batch_size = 0;
  slot = 0;
  cache_save_id = cache_skip;
  cache_load_id = cache_skip;
  pipes = map new_pipe c.pipes;
}

unfoldable pub set_batch_size : NnNetExecution → ℕ → Result NnNetExecution
set_batch_size e batch_size = do
  guard (leb batch_size e.n_batches) assertion
  ok (record e { batch_size = batch_size })

unfoldable pub set_slot : NnNetExecution → ℕ → Result NnNetExecution
set_slot e slot = do guard (leb slot e.n_slots) assertion; ok (record e { slot = slot })

unfoldable pub set_cache_id : NnNetExecution → ℕ → ℕ → NnNetExecution
set_cache_id e cache_save_id cache_load_id = record e {
  cache_save_id = cache_save_id;
  cache_load_id = cache_load_id;
}

-- The two ends are ints, which the comparisons take for unsigned numbers.
pub record NnExecutorDevice : Type 0 where
  pub max_n_threads : ℕ
  pub segment_from : ℕ
  pub segment_to : ℕ

abbrev pub serves : NnExecutorDevice → ℕ → Bool
serves d segment_index =
    ((d.segment_from == 2 ^ 32 - 1) && (d.segment_to == 2 ^ 32 - 1))
    || (leb d.segment_from segment_index && leb segment_index d.segment_to)

unfoldable pub max_threads : List NnExecutorDevice → ℕ → ℕ
max_threads [] most = most
max_threads (d ∷ devices) most =
    max_threads devices (if ltb most d.max_n_threads then d.max_n_threads else most)

-- The number of the first device for a segment.
unfoldable pub find_device : List NnExecutorDevice → ℕ → ℕ → Option ℕ
find_device [] segment_index i = none
find_device (d ∷ devices) segment_index i =
    let rest = find_device devices segment_index (i + 1) in
    if serves d segment_index then some i else rest

-- STEP_SYNC_CACHE_LOAD, STEP_EXECUTE_OP, STEP_SYNC_CACHE_SAVE and STEP_SYNC_NODES.
pub data NnExecutorStep : Type 0 where
  step_sync_cache_load step_sync_cache_save step_sync_nodes : ℕ → NnExecutorStep
  step_execute_op : ℕ → ℕ → NnExecutorStep

unfoldable pub op_steps : ℕ → ℕ → ℕ → List NnExecutorStep
op_steps segment_index zero i = []
op_steps segment_index (suc n) i =
    step_execute_op segment_index i ∷ op_steps segment_index n (i + 1)

-- Whether the constructor makes a segment of the device.
abbrev pub has_work : NnSegmentConfig → Bool
has_work s = ltb 0 (length s.ops) || ltb 0 (length s.cache_syncs)

-- The steps of a segment that the device has, from whether it has any work and any cache syncs.
abbrev pub work_steps : Bool → Bool → ℕ → ℕ → List NnExecutorStep
work_steps false has_cache_syncs i n_ops = []
work_steps true false i n_ops = op_steps i n_ops 0
work_steps true true i n_ops =
    step_sync_cache_load i ∷ (op_steps i n_ops 0 ++ (step_sync_cache_save i ∷ []))

abbrev pub sync_steps : Bool → ℕ → List NnExecutorStep
sync_steps use_synchronizer i = if use_synchronizer then step_sync_nodes i ∷ [] else []

unfoldable pub segment_steps : Bool → ℕ → NnSegmentConfig → List NnExecutorStep
unfolding op_steps
segment_steps use_synchronizer i s =
    work_steps (has_work s) (ltb 0 (length s.cache_syncs)) i (length s.ops)
    ++ sync_steps (use_synchronizer && ltb 0 (length s.syncs)) i

pub record NnExecutor (Segment : Type 0) : Type 0 where
  pub segments : List (Option Segment)
  pub steps : List NnExecutorStep

module _ {Segment : Type 0} (create_segment : ℕ → ℕ → Result Segment) where
  abbrev pub made : Result Segment → Result (Option Segment)
  made (ok s) = ok (some s)
  made (err e) = err e

  abbrev pub segment_on : ℕ → NnSegmentConfig → Option ℕ → Result (Option Segment)
  segment_on i s none = err invalid_argument
  segment_on i s (some device) = if has_work s then made (create_segment device i) else ok none

  -- The loop of the constructor over the segments, from the `i`th on.
  unfoldable pub build_segments :
      List NnExecutorDevice → Bool → ℕ → List NnSegmentConfig → Result (NnExecutor Segment)
  unfolding find_device segment_steps
  build_segments devices use_synchronizer i [] = ok (record { segments = []; steps = [] })
  build_segments devices use_synchronizer i (s ∷ rest) = do
    segment ← segment_on i s (find_device devices i 0)
    others ← build_segments devices use_synchronizer (i + 1) rest
    ok (record {
      segments = segment ∷ others.segments;
      steps = segment_steps use_synchronizer i s ++ others.steps;
    })

  unfoldable pub new_executor :
      NnNetConfig
      → NnNodeConfig
      → List NnExecutorDevice
      → NnNetExecution
      → Result (NnExecutor Segment)
  unfolding max_threads build_segments
  new_executor net node devices execution = do
    guard (leb execution.n_threads (max_threads devices 0)) invalid_argument
    build_segments devices (ltb 1 net.n_nodes) 0 node.segments

-- The number of the first operation of a segment that has the name and the index.
unfoldable pub find_op : List ℕ → ℕ → List NnOpConfig → ℕ → Option ℕ
find_op name index [] i = none
find_op name index (o ∷ ops) i =
    let rest = find_op name index ops (i + 1) in
    if (o.index == index) && same_string o.name name then some i else rest

abbrev pub take_op {ℓ} :
    {Segment : Type ℓ} → Option Segment → Option ℕ → Result (Segment × ℕ) → Result (Segment × ℕ)
take_op segment none rest = rest
take_op none (some op) rest = err assertion
take_op (some segment) (some op) rest = ok (segment, op)

-- NnExecutor::loadWeight: the segment, and the operation in it, that are given the weight.
unfoldable pub load_weight {ℓ} :
    {Segment : Type ℓ}
    → List NnSegmentConfig
    → List (Option Segment)
    → List ℕ
    → ℕ
    → Result (Segment × ℕ)
unfolding find_op
load_weight [] segments name index = err invalid_argument
load_weight (s ∷ configs) [] name index = err memory
load_weight (s ∷ configs) (segment ∷ segments) name index =
    take_op segment (find_op name index s.ops 0) (load_weight configs segments name index)
