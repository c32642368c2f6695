-- ===== src/App/Session.antt =====
-- The calls of a handler on the root's inference, and the packets that they send.
pub mod Packets
pub mod Follow
pub mod Whole
use distributed_llama.Base.{
  ℕ, zero, suc, ◌+◌, ◌*◌, ◌^◌, ◌≤◌, ◌<◌, ◌≡◌, refl, sym, ap, ◌∙◌, arith, Option, some, none, Bool,
  true, false, List, [], ◌∷◌, ◌++◌, map, append_assoc, append-nil, >>=-eq-ok, Result, ok, err,
  ◌>>=◌,
}
use distributed_llama.Cache.Tokens.{All}
use distributed_llama.Executor.{NnNetExecution}
use distributed_llama.App.Packet.{LlmControlPacket, write_packet, FitsPacket}
use distributed_llama.App.Root.{
  RootLlmInference, root_set_batch_size, root_set_slot, root_set_cache_id, root_set_position,
  root_set_token, root_forward, root_finish, write_all,
}
use distributed_llama.App.Worker.{WorkerAction, forwarded, settings}

pub data RootCall : Type 0 where
  call_set_batch_size call_set_position call_set_slot : ℕ → RootCall
  call_set_cache_id call_set_token : ℕ → ℕ → RootCall
  call_forward : RootCall

module _ (float_bytes : ℕ → ℕ → ℕ) (pass : NnNetExecution → Option NnNetExecution)
    (padding : ℕ) where
  unfoldable pub run_call : RootCall → RootLlmInference → Result RootLlmInference
  unfolding root_set_batch_size root_set_position root_set_slot root_set_cache_id root_set_token
      root_forward
  run_call (call_set_batch_size n) r = root_set_batch_size n r
  run_call (call_set_position p) r = root_set_position float_bytes p r
  run_call (call_set_slot s) r = root_set_slot s r
  run_call (call_set_cache_id a b) r = ok (root_set_cache_id a b r)
  run_call (call_set_token i t) r = root_set_token float_bytes i t r
  run_call call_forward r = root_forward pass padding r

  unfoldable pub run_calls : List RootCall → RootLlmInference → Result RootLlmInference
  unfolding run_call
  run_calls [] r = ok r
  run_calls (c ∷ cs) r = run_call c r >>= run_calls cs

  -- The settings of the execution at each forward of the calls.
  abbrev pub forward_of : RootCall → RootLlmInference → List WorkerAction
  forward_of call_forward r = settings r.execution ∷ []
  forward_of _ r = []

  unfoldable pub forwards_of : List RootCall → RootLlmInference → List WorkerAction
  unfolding run_call
  forwards_of [] r = []
  forwards_of (c ∷ cs) r = elim (run_call c r) [
    | err e ↦ []
    | ok r' ↦ forward_of c r ++ forwards_of cs r'
  ]

-- The packet says what the execution is set to.
pub record InSync (r : RootLlmInference) : Type 0 where
  pub batch_size : r.control_packet.batch_size ≡ r.execution.batch_size
  pub slot : r.control_packet.slot ≡ r.execution.slot
  pub cache_save_id : r.control_packet.cache_save_id ≡ r.execution.cache_save_id
  pub cache_load_id : r.control_packet.cache_load_id ≡ r.execution.cache_load_id
  pub batch_le : r.execution.batch_size ≤ r.execution.n_batches
  pub slot_le : r.execution.slot ≤ r.execution.n_slots
  pub fits : FitsPacket r.control_packet
  pub network : r.has_network ≡ true

abbrev pub FitsCall : RootCall → Type 0
FitsCall (call_set_batch_size n) = n < 256 ^ 4
FitsCall (call_set_position p) = p < 256 ^ 4
FitsCall (call_set_slot s) = s < 256 ^ 4
FitsCall (call_set_cache_id a b) = (a < 256 ^ 8) × (b < 256 ^ 8)
FitsCall (call_set_token i t) = Unit
FitsCall call_forward = Unit

-- A pass leaves the settings alone.
abbrev pub Keeps : NnNetExecution → NnNetExecution → Type 0
Keeps e e' =
    (e'.batch_size ≡ e.batch_size)
    × (e'.slot ≡ e.slot)
    × (e'.cache_save_id ≡ e.cache_save_id)
    × (e'.cache_load_id ≡ e.cache_load_id)
    × (e'.n_batches ≡ e.n_batches)
    × (e'.n_slots ≡ e.n_slots)
