-- ===== src/App/Worker.antt =====
-- WorkerLlmInference and the loop of runWorkerApp of src/app.cpp, on one connection.
use distributed_llama.Base.{
  ℕ, Option, some, none, Bool, true, false, not, ◌&&◌, List, [], ◌∷◌, ◌++◌, ◌==◌, if◌then◌else◌,
  Result, ok, err, ◌>>=◌, runtime_error,
}
use distributed_llama.Cache.Manager.{cache_skip}
use distributed_llama.Executor.{NnNetExecution, set_batch_size, set_slot, set_cache_id}
use distributed_llama.App.Packet.{LlmControlPacket, read_packet}
use distributed_llama.App.Root.{set_positions}

pub record WorkerLlmInference : Type 0 where
  pub is_finished : Bool
  pub control_packet : LlmControlPacket
  pub execution : NnNetExecution

-- What `tryReadWithMaxAttempts` does: nothing comes, the bytes of a packet come, or it throws; and
-- whether the clock says that a second has gone by since the first attempt.
pub data Attempt : Type 0 where
  nothing : Bool → Attempt
  packet : List ℕ → Attempt
  closed : Attempt

module _ (float_bytes : ℕ → ℕ → ℕ) where
  -- What follows a packet that has been read.
  unfoldable pub take_packet : LlmControlPacket → WorkerLlmInference → Result WorkerLlmInference
  unfolding set_positions set_batch_size set_slot set_cache_id
  take_packet p w =
      if p.batch_size == 0 then ok (record w { is_finished = true; control_packet = p }) else (do
        e1 ← set_positions float_bytes 0 p.position p.batch_size 0 w.execution
        e2 ← set_batch_size e1 p.batch_size
        e3 ← set_slot e2 p.slot
        ok (record w {
          control_packet = p;
          execution = set_cache_id e3 p.cache_save_id p.cache_load_id;
        }))

  -- Whether a packet came, and the state after it. An attempt that throws changes nothing.
  unfoldable pub try_read_control_packet :
      Attempt → WorkerLlmInference → Result (Bool × WorkerLlmInference)
  unfolding take_packet read_packet
  try_read_control_packet (nothing late) w = ok (false, w)
  try_read_control_packet closed w = err runtime_error
  try_read_control_packet (packet bytes) w = do
    read ← read_packet bytes
    w' ← take_packet read.0 w
    ok (true, w')

-- What the loop does besides: each forward with the settings of the execution, each commit.
pub data WorkerAction : Type 0 where
  forwarded : ℕ → ℕ → ℕ → ℕ → WorkerAction
  committed : ℕ → WorkerAction
  turbo : Bool → WorkerAction

pub record WorkerLoop : Type 0 where
  pub inference : WorkerLlmInference
  pub is_first_attempt : Bool
  pub is_turbo_enabled : Bool
  pub actions : List WorkerAction

abbrev pub settings : NnNetExecution → WorkerAction
settings e = forwarded e.batch_size e.slot e.cache_save_id e.cache_load_id

-- `pass` is the executor's forward, `dirty` whether the database, if there is one, holds writes for
-- the id.
module _ (float_bytes : ℕ → ℕ → ℕ) (pass : NnNetExecution → Option NnNetExecution)
    (dirty : ℕ → Bool) (net_turbo : Bool) where
  unfoldable pub turn_off : Bool → WorkerLoop → WorkerLoop
  turn_off late l =
      if l.is_turbo_enabled && (not l.is_first_attempt && late)
      then record l { is_turbo_enabled = false; actions = l.actions ++ (turbo false ∷ []) }
      else l

  unfoldable pub turn_on : WorkerLoop → WorkerLoop
  turn_on l =
      if net_turbo && not l.is_turbo_enabled
      then record l { is_turbo_enabled = true; actions = l.actions ++ (turbo true ∷ []) }
      else l

  unfoldable pub commit : WorkerLoop → WorkerLoop
  commit l =
      if not (l.inference.control_packet.cache_save_id == cache_skip)
        && dirty l.inference.control_packet.cache_save_id
      then record l {
        actions = l.actions ++ (committed l.inference.control_packet.cache_save_id ∷ []);
      }
      else l

  -- The rest of a turn that has read a packet which is not the stop signal; an exception of the
  -- network ends the loop.
  unfoldable pub work : WorkerLoop → (WorkerLoop → Result WorkerLoop) → Result WorkerLoop
  unfolding turn_on commit
  work l next =
      let l' = turn_on l in
      elim (pass l'.inference.execution) [
        | none ↦ ok l'
        | some e ↦ next (
            commit (record l' {
              inference = record l'.inference { execution = e };
              is_first_attempt = true;
              actions = l'.actions ++ (settings l'.inference.execution ∷ []);
            }))
      ]

  -- The loop is left at the stop signal or at an exception of the network. An empty list of attempts
  -- stands for a connection on which nothing more happens.
  unfoldable pub worker_loop : List Attempt → WorkerLoop → Result WorkerLoop
  unfolding turn_off work try_read_control_packet
  worker_loop [] l = ok l
  worker_loop (nothing late ∷ rest) l =
      worker_loop rest (record (turn_off late l) { is_first_attempt = false })
  worker_loop (closed ∷ rest) l = ok l
  worker_loop (packet bytes ∷ rest) l = do
    read ← try_read_control_packet float_bytes (packet bytes) l.inference
    let l' : WorkerLoop = record l { inference = read.1 }
    elim (read.1.is_finished) [ true ↦ ok l' | false ↦ work l' (worker_loop rest) ]
