-- ===== src/App/Session/Packets.antt =====
-- Every forward of the root sends one packet, which holds the settings of the execution.
use distributed_llama.Base.{
  ℕ, zero, suc, ◌+◌, ◌%◌, ◌^◌, ◌≤◌, ◌<◌, ◌≡◌, refl, sym, ap, ap₂, subst, ◌∙◌, arith, Option, some,
  none, true, List, [], ◌∷◌, ◌++◌, map, append_assoc, append-nil, >>=-eq-ok, ok, guard, assertion,
  ltb, ◌-◌, ◌>>=◌,
}
use mathlib.Core.List.{map-append}
use distributed_llama.Cache.Tokens.{All, All-append}
use distributed_llama.Executor.{NnNetExecution}
use distributed_llama.App.Packet.{LlmControlPacket, write_packet, FitsPacket}
use distributed_llama.App.Root.{
  RootLlmInference, passed, set_float, set_positions, root_set_batch_size, root_set_slot,
  root_set_cache_id, root_set_position, root_set_token, root_forward, write_all,
}
use distributed_llama.App.Worker.{WorkerAction, forwarded}
use distributed_llama.App.Session.{
  RootCall, call_set_batch_size, call_set_position, call_set_slot, call_set_cache_id,
  call_set_token, call_forward, run_call, run_calls, forward_of, forwards_of, InSync, FitsCall,
  Keeps,
}

abbrev pub packet_settings : LlmControlPacket → WorkerAction
packet_settings p = forwarded p.batch_size p.slot p.cache_save_id p.cache_load_id

-- A packet that a worker with these bounds takes.
abbrev pub IsTaken : ℕ → ℕ → LlmControlPacket → Type 0
IsTaken n_batches n_slots p = FitsPacket p × ((p.batch_size ≤ n_batches) × (p.slot ≤ n_slots))

module _ (float_bytes : ℕ → ℕ → ℕ) where
  set_float-Keeps :
      (pipe index value : ℕ) (e e' : NnNetExecution)
      → set_float float_bytes pipe index value e ≡ ok e'
      → Keeps e e'
  unfolding set_float
  set_float-Keeps pipe index value e e' h = ground (arith, h)

  set_positions-Keeps :
      (pipe position n index : ℕ) (e e' : NnNetExecution)
      → set_positions float_bytes pipe position n index e ≡ ok e'
      → Keeps e e'
  unfolding set_positions
  set_positions-Keeps pipe position zero index e e' h = ground (arith, h)
  set_positions-Keeps pipe position (suc n) index e e' h =
      let (f, hf, h1) =
        >>=-eq-ok (set_float float_bytes pipe index ((position + index) % 2 ^ 32) e)
          (set_positions float_bytes pipe position n (index + 1)) h in
      let k = set_float-Keeps pipe index ((position + index) % 2 ^ 32) e f hf in
      let k' = set_positions-Keeps pipe position n (index + 1) f e' h1 in
      (k'.0 ∙ k.0, k'.1 ∙ k.1, k'.2 ∙ k.2, k'.3 ∙ k.3, k'.4 ∙ k.4, k'.5 ∙ k.5)

  module _ (pass : NnNetExecution → Option NnNetExecution) (padding : ℕ)
      (keeps : (e e' : NnNetExecution) → pass e ≡ some e' → Keeps e e') where
    -- What a call leaves in step, and what it has sent.
    Follows : RootLlmInference → RootLlmInference → List (List ℕ) → Type 0
    Follows r r' more =
        InSync r'
        × ((r'.sent ≡ r.sent ++ more)
            × ((r'.execution.n_batches ≡ r.execution.n_batches)
                × (r'.execution.n_slots ≡ r.execution.n_slots)))

    step_batch :
        (n : ℕ) (r r' : RootLlmInference)
        → InSync r
        → n < 256 ^ 4
        → root_set_batch_size n r ≡ ok r'
        → Follows r r' []
    unfolding Follows root_set_batch_size
    step_batch n r r' s lt h = ground (arith, h, append-nil r.sent)

    step_slot :
        (n : ℕ) (r r' : RootLlmInference)
        → InSync r
        → n < 256 ^ 4
        → root_set_slot n r ≡ ok r'
        → Follows r r' []
    unfolding Follows root_set_slot
    step_slot n r r' s lt h = ground (arith, h, append-nil r.sent)

    step_cache :
        (a b : ℕ) (r : RootLlmInference)
        → InSync r
        → a < 256 ^ 8
        → b < 256 ^ 8
        → Follows r (root_set_cache_id a b r) []
    unfolding Follows root_set_cache_id
    step_cache a b r s lt lt' = ground (arith, append-nil r.sent)

    -- A call that changes the pipes, and may set the position.
    with_execution :
        (r : RootLlmInference) (e : NnNetExecution) (p : ℕ) (more : List (List ℕ))
        → InSync r
        → Keeps r.execution e
        → p < 256 ^ 4
        → Follows r
            (record r {
              execution = e;
              control_packet = record r.control_packet { position = p };
              sent = r.sent ++ more;
            })
            more
    unfolding Follows
    with_execution r e p more s (k0, k1, k2, k3, k4, k5) lt = (
      record {
        batch_size = s.batch_size ∙ sym k0;
        slot = s.slot ∙ sym k1;
        cache_save_id = s.cache_save_id ∙ sym k2;
        cache_load_id = s.cache_load_id ∙ sym k3;
        batch_le = omega (arith, k0, k4, s.batch_le);
        slot_le = omega (arith, k1, k5, s.slot_le);
        fits = let (f0, f1, f2, f3, f4) = s.fits in (lt, f1, f2, f3, f4);
        network = s.network;
      },
      (refl, (k4, k5)),
    )

    same_root : (a b : RootLlmInference) → ok a ≡ ok b → a ≡ b
    same_root a b e = cc

    step_token :
        (i t : ℕ) (r r' : RootLlmInference)
        → InSync r
        → root_set_token float_bytes i t r ≡ ok r'
        → Follows r r' []
    unfolding root_set_token
    step_token i t r r' s h =
        let store = λ (e : NnNetExecution). record r { execution = e } in
        let (u, hu, h1) =
          >>=-eq-ok (guard (ltb i r.execution.batch_size) assertion)
            (λ done. set_float float_bytes r.token_pipe_index i t r.execution >>= λ e. ok (store e))
            h in
        let (e, he, h2) =
          >>=-eq-ok (set_float float_bytes r.token_pipe_index i t r.execution) (λ e. ok (store e))
            h1 in
        subst (λ q. Follows r q [])
          (ap (λ xs. record r { execution = e; sent = xs }) (append-nil r.sent)
            ∙ same_root (store e) r' h2)
          (with_execution r e r.control_packet.position [] s
            (set_float-Keeps r.token_pipe_index i t r.execution e he) s.fits.0)

    step_position :
        (p : ℕ) (r r' : RootLlmInference)
        → InSync r
        → p < 256 ^ 4
        → root_set_position float_bytes p r ≡ ok r'
        → Follows r r' []
    unfolding root_set_position
    step_position p r r' s lt h =
        let store = λ (e : NnNetExecution). record r {
          execution = e;
          control_packet = record r.control_packet { position = p };
        } in
        let set_all =
          set_positions float_bytes r.position_pipe_index p r.execution.batch_size 0 r.execution in
        let (u, hu, h1) =
          >>=-eq-ok
            (guard (ltb ((p + r.execution.batch_size + 2 ^ 32 - 1) % 2 ^ 32) r.seq_len) assertion)
            (λ done. set_all >>= λ e. ok (store e)) h in
        let (e, he, h2) = >>=-eq-ok set_all (λ e. ok (store e)) h1 in
        subst (λ q. Follows r q [])
          (ap
              (λ xs. record r {
                execution = e;
                control_packet = record r.control_packet { position = p };
                sent = xs;
              })
              (append-nil r.sent)
            ∙ same_root (store e) r' h2)
          (with_execution r e p [] s
            (set_positions-Keeps r.position_pipe_index p r.execution.batch_size 0 r.execution e he)
            lt)

    root_on :
        (r r' : RootLlmInference)
        → r.has_network ≡ true
        → root_forward pass padding r ≡ ok r'
        → (passed (pass r.execution) >>= λ e. ok (record r {
          sent = r.sent ++ (write_packet padding r.control_packet ∷ []);
          execution = e;
        }))
          ≡ ok r'
    unfolding root_forward write_all
    root_on r r' on h = ground (arith, h)

    step_forward :
        (r r' : RootLlmInference)
        → InSync r
        → root_forward pass padding r ≡ ok r'
        → Follows r r' (write_packet padding r.control_packet ∷ [])
    unfolding root_forward write_all
    step_forward r r' s h =
        let r1 = record r { sent = r.sent ++ (write_packet padding r.control_packet ∷ []) } in
        let h0 : (passed (pass r.execution) >>= λ e. ok (record r1 { execution = e })) ≡ ok r' =
          root_on r r' s.network h in
        let (e, he, h1) =
          >>=-eq-ok (passed (pass r.execution)) (λ e. ok (record r1 { execution = e })) h0 in
        subst (λ q. Follows r q (write_packet padding r.control_packet ∷ []))
          (same_root
            (record r {
              execution = e;
              sent = r.sent ++ (write_packet padding r.control_packet ∷ []);
            })
            r' h1)
          (with_execution r e r.control_packet.position (write_packet padding r.control_packet ∷ [])
            s (keeps r.execution e (passes (pass r.execution) he)) s.fits.0)
      where
        passes : {f : NnNetExecution} (o : Option NnNetExecution) → passed o ≡ ok f → o ≡ some f
        passes none q = cc
        passes (some g) q = cc

    sent_by : RootCall → RootLlmInference → List LlmControlPacket
    sent_by call_forward r = r.control_packet ∷ []
    sent_by _ r = []

    call-Follows :
        (c : RootCall) (r r' : RootLlmInference)
        → InSync r
        → FitsCall c
        → run_call float_bytes pass padding c r ≡ ok r'
        → Follows r r' (map (write_packet padding) (sent_by c r))
    unfolding run_call sent_by
    call-Follows (call_set_batch_size n) r r' s lt h = step_batch n r r' s lt h
    call-Follows (call_set_position p) r r' s lt h = step_position p r r' s lt h
    call-Follows (call_set_slot n) r r' s lt h = step_slot n r r' s lt h
    call-Follows (call_set_cache_id a b) r r' s (lt, lt') h =
        subst (λ q. Follows r q []) (same_root _ r' h) (step_cache a b r s lt lt')
    call-Follows (call_set_token i t) r r' s lt h = step_token i t r r' s h
    call-Follows call_forward r r' s lt h = step_forward r r' s h

    call-settings :
        (c : RootCall) (r : RootLlmInference)
        → InSync r
        → map packet_settings (sent_by c r) ≡ forward_of float_bytes pass padding c r
    unfolding sent_by
    call-settings call_forward r s = ground arith
    call-settings (call_set_batch_size n) r s = refl
    call-settings (call_set_position p) r s = refl
    call-settings (call_set_slot n) r s = refl
    call-settings (call_set_cache_id a b) r s = refl
    call-settings (call_set_token i t) r s = refl

    call-IsTaken :
        (c : RootCall) (r : RootLlmInference)
        → InSync r
        → All (IsTaken r.execution.n_batches r.execution.n_slots) (sent_by c r)
    unfolding sent_by
    call-IsTaken call_forward r s =
        ((s.fits, (omega (arith, s.batch_le, s.batch_size), omega (arith, s.slot_le, s.slot))), tt)
    call-IsTaken (call_set_batch_size n) r s = tt
    call-IsTaken (call_set_position p) r s = tt
    call-IsTaken (call_set_slot n) r s = tt
    call-IsTaken (call_set_cache_id a b) r s = tt
    call-IsTaken (call_set_token i t) r s = tt

    -- The packets that some calls send.
    pub record Sends (r r' : RootLlmInference) (log : List WorkerAction) : Type 0 where
      pub packets : List LlmControlPacket
      pub sent : r'.sent ≡ r.sent ++ map (write_packet padding) packets
      pub logged : map packet_settings packets ≡ log
      pub taken : All (IsTaken r.execution.n_batches r.execution.n_slots) packets
      pub in_sync : InSync r'

    pub calls-Sends :
        (cs : List RootCall) (r r' : RootLlmInference)
        → InSync r
        → All FitsCall cs
        → run_calls float_bytes pass padding cs r ≡ ok r'
        → Sends r r' (forwards_of float_bytes pass padding cs r)
    unfolding Follows run_calls forwards_of
    calls-Sends [] r r' s fits h =
        subst (λ q. Sends r q []) (same_root r r' h)
          (record {
            packets = [];
            sent = sym (append-nil r.sent);
            logged = refl;
            taken = tt;
            in_sync = s;
          })
    calls-Sends (c ∷ cs) r r' s (fit, fits) h =
        let (q, hq, h1) =
          >>=-eq-ok (run_call float_bytes pass padding c r) (run_calls float_bytes pass padding cs)
            h in
        let (sq, (more, (nb, ns))) = call-Follows c r q s fit hq in
        let rest = calls-Sends cs q r' sq fits h1 in
        rw (hq, forwards_of)
          (record {
            packets = sent_by c r ++ rest.packets;
            sent =
                rest.sent
                ∙ ap (λ xs. xs ++ map (write_packet padding) rest.packets) more
                ∙ append_assoc r.sent (map (write_packet padding) (sent_by c r))
                    (map (write_packet padding) rest.packets)
                ∙ ap (λ xs. r.sent ++ xs)
                    (sym (map-append (write_packet padding) (sent_by c r) rest.packets));
            logged =
                map-append packet_settings (sent_by c r) rest.packets
                ∙ ap₂ ◌++◌ (call-settings c r s) rest.logged;
            taken = All-append _ (sent_by c r) rest.packets (call-IsTaken c r s) (
                subst (λ n. All (IsTaken n r.execution.n_slots) rest.packets) nb
                  (subst (λ n. All (IsTaken q.execution.n_batches n) rest.packets) ns rest.taken));
            in_sync = rest.in_sync;
          })
