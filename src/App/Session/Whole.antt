-- ===== src/App/Session/Whole.antt =====
-- What the root and a worker do in one session.
use distributed_llama.Base.{
  ℕ, ◌^◌, ◌<◌, ◌≡◌, refl, sym, ap, subst, ◌∙◌, arith, Option, some, Bool, true, false, List, [],
  ◌∷◌, ◌++◌, map, ok,
}
use distributed_llama.Cache.Tokens.{All}
use distributed_llama.Executor.{NnNetExecution}
use distributed_llama.App.Packet.{LlmControlPacket, write_packet}
use distributed_llama.App.Root.{RootLlmInference, root_finish, write_all}
use distributed_llama.App.Worker.{
  WorkerLoop, WorkerAction, forwarded, committed, turbo, Attempt, worker_loop,
}
use distributed_llama.App.Session.{RootCall, run_calls, forwards_of, InSync, FitsCall, Keeps}
use distributed_llama.App.Session.Packets.{packet_settings, calls-Sends}
use distributed_llama.App.Session.Follow.{HasRoom, forwards, Carries, worker_loop-stops}

-- A forward of some positions at least; the stop signal is a packet that asks for none.
abbrev pub HasWork : WorkerAction → Type 0
HasWork (forwarded a b c d) = 0 < a
HasWork (committed i) = Unit
HasWork (turbo t) = Unit

packets_with_work :
    (ps : List LlmControlPacket)
    → All HasWork (map packet_settings ps)
    → All (λ (p : LlmControlPacket). 0 < p.batch_size) ps
packets_with_work [] h = tt
packets_with_work (p ∷ ps) (x, h) = (x, packets_with_work ps h)

stop_packet : LlmControlPacket → LlmControlPacket
stop_packet p = record p { batch_size = 0 }

root_finish-sent :
    (padding : ℕ) (r : RootLlmInference)
    → r.has_network ≡ true
    → (root_finish padding r).sent
      ≡ r.sent ++ (write_packet padding (stop_packet r.control_packet) ∷ [])
unfolding root_finish write_all stop_packet
root_finish-sent padding r on = rw on refl

-- Take a root with a network whose packet agrees with its execution and which has sent nothing,
-- calls on it that succeed, with numbers that fit the packet, with no forward of an empty batch
-- among them and with passes that leave the settings alone, and then finish. If the attempts of a
-- worker that is not finished, with the same bounds and room for a position of every batch, bring
-- it the packets that were sent, with any number of attempts between them that bring nothing, and
-- its passes succeed and keep the room, then the loop of the worker ends with the stop signal, and
-- it has made the forwards of the root, in order and with the same batch size, slot and cache ids.
pub worker_loop-run_calls :
    (float_bytes : ℕ → ℕ → ℕ)
    → (root_pass worker_pass : NnNetExecution → Option NnNetExecution) (dirty : ℕ → Bool)
    → (net_turbo : Bool) → (padding : ℕ)
    → (calls : List RootCall) (r r' : RootLlmInference) (attempts : List Attempt) (l : WorkerLoop)
    → ((e e' : NnNetExecution) → root_pass e ≡ some e' → Keeps e e')
    → ((e : NnNetExecution)
        → HasRoom r.execution.n_batches r.execution.n_slots e
        → (e' : NnNetExecution) × (worker_pass e ≡ some e')
          × HasRoom r.execution.n_batches r.execution.n_slots e')
    → padding < 256 ^ 4
    → InSync r
    → r.sent ≡ []
    → All FitsCall calls
    → run_calls float_bytes root_pass padding calls r ≡ ok r'
    → All HasWork (forwards_of float_bytes root_pass padding calls r)
    → l.inference.is_finished ≡ false
    → HasRoom r.execution.n_batches r.execution.n_slots l.inference.execution
    → Carries attempts (root_finish padding r').sent
    → (l' : WorkerLoop) × (worker_loop float_bytes worker_pass dirty net_turbo attempts l ≡ ok l')
      × (l'.inference.is_finished ≡ true)
      × (forwards l'.actions
          ≡ forwards l.actions ++ forwards_of float_bytes root_pass padding calls r)
unfolding stop_packet
worker_loop-run_calls float_bytes root_pass worker_pass dirty net_turbo padding calls r r' attempts
      l keeps works pad sync fresh fits ran some_work running room carried =
    let s = calls-Sends float_bytes root_pass padding keeps calls r r' sync fits ran in
    let sent : (root_finish padding r').sent
        ≡ map (write_packet padding) s.packets
          ++ (write_packet padding (stop_packet r'.control_packet) ∷ []) =
      root_finish-sent padding r' s.in_sync.network
      ∙ ap (λ xs. xs ++ (write_packet padding (stop_packet r'.control_packet) ∷ []))
          (s.sent ∙ ap (λ xs. xs ++ map (write_packet padding) s.packets) fresh) in
    let (f0, f1, f2, f3, f4) = s.in_sync.fits in
    let (l', looped, finished, out) =
      worker_loop-stops float_bytes worker_pass dirty net_turbo r.execution.n_batches
        r.execution.n_slots works padding pad attempts s.packets (stop_packet r'.control_packet) l
        running room s.taken
        (packets_with_work s.packets (subst (All HasWork) (sym s.logged) some_work))
        (f0, omega arith, f2, f3, f4) refl (subst (Carries attempts) sent carried) in
    (l', looped, finished, out ∙ ap (λ xs. forwards l.actions ++ xs) s.logged)
