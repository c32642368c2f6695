-- ===== src/Executor/Forward.antt =====
-- executeStep and NnExecutor::forward (src/nn/nn-executor.cpp): the calls that every thread makes, step
-- after step. Between two steps the threads wait for one another.
use distributed_llama.Base.{
  ℕ, zero, suc, ◌+◌, ◌<◌, ◌≡◌, refl, ap, ◌∙◌, arith, Bool, true, false, List, [], ◌∷◌, ◌++◌, map,
  length, get_elem?, Option, none, some, lt→ltb, ltb, if◌then◌else◌, Result, ok, guard, ◌>>◌,
  assertion,
}
use distributed_llama.Cache.Tokens.{All}
use distributed_llama.Core.Config.{
  NnCacheSyncType, cache_sync_save, cache_sync_save_kv, cache_sync_load, NnSegmentConfig,
}
use distributed_llama.Executor.{
  NnNetExecution, NnExecutor, NnExecutorDevice, NnExecutorStep, step_sync_cache_load,
  step_sync_cache_save, step_sync_nodes, step_execute_op, build_segments,
}
use distributed_llama.Executor.Steps.{ops_in, all_ops, build_segments-ops}

-- A call of `forward` or `syncCache` on a segment, or of `sync` on the synchronizer: the segment,
-- the operation, the number of threads, the thread, and what else is passed.
pub data DeviceCall : Type 0 where
  call_forward : ℕ → ℕ → ℕ → ℕ → ℕ → DeviceCall
  call_sync : ℕ → ℕ → ℕ → DeviceCall
  call_sync_cache : ℕ → ℕ → ℕ → NnCacheSyncType → DeviceCall

unfoldable pub execute_step : Bool → ℕ → ℕ → ℕ → NnExecutorStep → List DeviceCall
execute_step has_db batch_size n_threads t (step_execute_op s o) =
    call_forward s o n_threads t batch_size ∷ []
execute_step has_db batch_size n_threads t (step_sync_nodes i) = call_sync i n_threads t ∷ []
execute_step has_db batch_size n_threads t (step_sync_cache_load s) =
    if has_db then call_sync_cache s n_threads t cache_sync_load ∷ [] else []
execute_step has_db batch_size n_threads t (step_sync_cache_save s) =
    if has_db
    then call_sync_cache s n_threads t cache_sync_save
      ∷ call_sync_cache s n_threads t cache_sync_save_kv
      ∷ []
    else []

-- tbb::parallel_for over the threads, from the `t`th on: what each of them does.
unfoldable pub parallel_for : ℕ → ℕ → (ℕ → List DeviceCall) → List (List DeviceCall)
parallel_for zero t body = []
parallel_for (suc n) t body = body t ∷ parallel_for n (t + 1) body

-- For each step, the calls of each thread.
unfoldable pub forward :
    {Segment : Type 0}
    → NnExecutor Segment
    → NnNetExecution
    → Bool
    → Result (List (List (List DeviceCall)))
unfolding execute_step parallel_for
forward executor execution has_db = do
  guard (ltb 0 execution.batch_size) assertion
  ok (
      map
        (λ step.
          parallel_for execution.n_threads 0
            (λ t. execute_step has_db execution.batch_size execution.n_threads t step))
        executor.steps)

-- The calls of one thread, over all steps.
abbrev pub done_by : Option (List DeviceCall) → List DeviceCall
done_by none = []
done_by (some calls) = calls

abbrev pub calls_of_thread : ℕ → List (List (List DeviceCall)) → List DeviceCall
calls_of_thread t [] = []
calls_of_thread t (round ∷ rounds) = done_by (get_elem? round t) ++ calls_of_thread t rounds

-- The calls of `forward` among them.
abbrev pub forwards_in : List DeviceCall → List DeviceCall
forwards_in [] = []
forwards_in (call_forward s o n t batch_size ∷ calls) =
    call_forward s o n t batch_size ∷ forwards_in calls
forwards_in (call_sync i n t ∷ calls) = forwards_in calls
forwards_in (call_sync_cache s n t type ∷ calls) = forwards_in calls

parallel_for-at :
    (n i t : ℕ) (body : ℕ → List DeviceCall)
    → t < n
    → get_elem? (parallel_for n i body) t ≡ some (body (i + t))
unfolding parallel_for
parallel_for-at zero i t body lt = absurd (omega arith)
parallel_for-at (suc n) i zero body lt = ap (λ k. some (body k)) (omega arith)
parallel_for-at (suc n) i (suc t) body lt =
    parallel_for-at n (i + 1) t body (omega arith) ∙ ap (λ k. some (body k)) (omega arith)

length-parallel_for : (n i : ℕ) (body : ℕ → List DeviceCall) → length (parallel_for n i body) ≡ n
unfolding parallel_for
length-parallel_for zero i body = refl
length-parallel_for (suc n) i body = ap suc (length-parallel_for n (i + 1) body)

module _ (has_db : Bool) (batch_size n_threads : ℕ) where
  round_of : NnExecutorStep → List (List DeviceCall)
  round_of step = parallel_for n_threads 0 (λ t. execute_step has_db batch_size n_threads t step)

  rounds-length :
      (steps : List NnExecutorStep)
      → All (λ (round : List (List DeviceCall)). length round ≡ n_threads) (map round_of steps)
  unfolding round_of
  rounds-length [] = tt
  rounds-length (step ∷ steps) = (
    length-parallel_for n_threads 0 (λ t. execute_step has_db batch_size n_threads t step),
    rounds-length steps,
  )

  -- The calls of a thread at one step, and those behind it.
  forwards_in-step :
      (t : ℕ) (step : NnExecutorStep) (rest : List DeviceCall)
      → forwards_in (execute_step has_db batch_size n_threads t step ++ rest)
        ≡ map (λ (so : ℕ × ℕ). call_forward so.0 so.1 n_threads t batch_size) (ops_in (step ∷ []))
          ++ forwards_in rest
  unfolding execute_step
  forwards_in-step t (step_execute_op s o) rest = refl
  forwards_in-step t (step_sync_nodes i) rest = refl
  forwards_in-step t (step_sync_cache_load s) rest = by_db has_db
    where
      by_db :
          (db : Bool)
          → forwards_in
              ((if db then call_sync_cache s n_threads t cache_sync_load ∷ [] else []) ++ rest)
            ≡ forwards_in rest
      by_db true = refl
      by_db false = refl
  forwards_in-step t (step_sync_cache_save s) rest = by_db has_db
    where
      by_db :
          (db : Bool)
          → forwards_in (
              (if db
                then call_sync_cache s n_threads t cache_sync_save
                  ∷ call_sync_cache s n_threads t cache_sync_save_kv
                  ∷ []
                else [])
              ++ rest)
            ≡ forwards_in rest
      by_db true = refl
      by_db false = refl

  forwards_in-thread :
      (t : ℕ) (steps : List NnExecutorStep)
      → t < n_threads
      → forwards_in (calls_of_thread t (map round_of steps))
        ≡ map (λ (so : ℕ × ℕ). call_forward so.0 so.1 n_threads t batch_size) (ops_in steps)
  unfolding round_of
  forwards_in-thread t [] lt = refl
  forwards_in-thread t (step ∷ steps) lt =
      ap (λ o. forwards_in (done_by o ++ calls_of_thread t (map round_of steps)))
        (parallel_for-at n_threads 0 t (λ t. execute_step has_db batch_size n_threads t step) lt
          ∙ ap (λ k. some (execute_step has_db batch_size n_threads k step)) (omega arith))
      ∙ forwards_in-step t step (calls_of_thread t (map round_of steps))
      ∙ ap
          (λ rest.
            map (λ (so : ℕ × ℕ). call_forward so.0 so.1 n_threads t batch_size) (ops_in (step ∷ []))
            ++ rest)
          (forwards_in-thread t steps lt)
      ∙ joined step
    where
      joined :
          (step : NnExecutorStep)
          → map (λ (so : ℕ × ℕ). call_forward so.0 so.1 n_threads t batch_size) (ops_in (step ∷ []))
              ++ map (λ (so : ℕ × ℕ). call_forward so.0 so.1 n_threads t batch_size) (ops_in steps)
            ≡ map
                (λ (so : ℕ × ℕ). call_forward so.0 so.1 n_threads t batch_size)
                (ops_in (step ∷ steps))
      joined (step_execute_op s o) = refl
      joined (step_sync_nodes i) = refl
      joined (step_sync_cache_load s) = refl
      joined (step_sync_cache_save s) = refl

module _ {Segment : Type 0} (create_segment : ℕ → ℕ → Result Segment) where
  -- On an executor that was made, and with a batch size that is not zero, a forward pass succeeds,
  -- in every step each of the threads has its turn and no other thread has one, and each thread
  -- runs every operation of every segment once, in the order of the configuration, and is given the
  -- number of threads, its own number and the batch size, whether there is a database or not.
  pub forward_ops :
      (devices : List NnExecutorDevice) (u has_db : Bool) (configs : List NnSegmentConfig)
      (executor : NnExecutor Segment) (execution : NnNetExecution)
      → build_segments create_segment devices u 0 configs ≡ ok executor
      → 0 < execution.batch_size
      → (rounds : List (List (List DeviceCall))) × (forward executor execution has_db ≡ ok rounds)
        × All (λ (round : List (List DeviceCall)). length round ≡ execution.n_threads) rounds
        × ((t : ℕ)
            → t < execution.n_threads
            → forwards_in (calls_of_thread t rounds)
              ≡ map
                  (λ (so : ℕ × ℕ).
                    call_forward so.0 so.1 execution.n_threads t execution.batch_size)
                  (all_ops 0 configs))
  unfolding forward round_of
  forward_ops devices u has_db configs executor execution built lt =
      let batch = execution.batch_size in
      let n = execution.n_threads in
      (
        map (round_of has_db batch n) executor.steps,
        ap (λ b. guard b assertion >> ok (map (round_of has_db batch n) executor.steps))
            (lt→ltb 0 batch lt),
        rounds-length has_db batch n executor.steps,
        λ t within.
            forwards_in-thread has_db batch n t executor.steps within
            ∙ ap (map (λ (so : ℕ × ℕ). call_forward so.0 so.1 n t batch))
                (build_segments-ops create_segment devices u 0 configs executor built),
      )
