-- ===== src/App/Session/Follow.antt =====
-- A worker that is sent packets makes the forwards that they ask for, and stops.
use distributed_llama.Base.{
  ℕ, zero, suc, ◌+◌, ◌*◌, ◌%◌, ◌^◌, ◌≤◌, ◌<◌, ◌≡◌, refl, sym, ap, ap₂, subst, ◌∙◌, arith, Option,
  some, inl, inr, Bool, Bool-cases, true, false, not, ◌&&◌, List, [], ◌∷◌, ◌++◌, map, set,
  get_elem?, append_assoc, append-nil, leb, ◌==◌, Result, ok,
}
use distributed_llama.Base.Buffer.{Buffer, memcpy_ok}
use distributed_llama.Cache.Tokens.{All}
use distributed_llama.Cache.Manager.{cache_skip}
use distributed_llama.Executor.{NnNetExecution, set_batch_size, set_slot, set_cache_id}
use distributed_llama.App.Packet.{
  LlmControlPacket, write_packet, read_packet, read_packet-Reads, FitsPacket,
}
use distributed_llama.App.Root.{set_float, set_positions}
use distributed_llama.App.Worker.{
  WorkerLlmInference, WorkerLoop, WorkerAction, forwarded, committed, turbo, settings, Attempt,
  nothing, packet, closed, take_packet, turn_off, turn_on, commit, work, worker_loop,
  try_read_control_packet,
}
use distributed_llama.App.Session.Packets.{packet_settings, IsTaken}

-- The first pipe holds a position for every batch.
pub record HasRoom (n_batches n_slots : ℕ) (e : NnNetExecution) : Type 0 where
  pub pipe : Buffer
  pub first : get_elem? e.pipes 0 ≡ some pipe
  pub room : 4 * n_batches ≤ pipe.size
  pub batches : e.n_batches ≡ n_batches
  pub slots : e.n_slots ≡ n_slots

-- The forwards among the actions of the loop.
abbrev pub forwards : List WorkerAction → List WorkerAction
forwards [] = []
forwards (forwarded a b c d ∷ xs) = forwarded a b c d ∷ forwards xs
forwards (committed i ∷ xs) = forwards xs
forwards (turbo t ∷ xs) = forwards xs

forwards-append : (xs ys : List WorkerAction) → forwards (xs ++ ys) ≡ forwards xs ++ forwards ys
forwards-append [] ys = refl
forwards-append (forwarded a b c d ∷ xs) ys = ap (◌∷◌ (forwarded a b c d)) (forwards-append xs ys)
forwards-append (committed i ∷ xs) ys = forwards-append xs ys
forwards-append (turbo t ∷ xs) ys = forwards-append xs ys

-- The attempts bring these packets, in this order, before anything fails.
abbrev pub Carries : List Attempt → List (List ℕ) → Type 0
Carries (nothing late ∷ attempts) ps = Carries attempts ps
Carries (packet bytes ∷ attempts) [] = Unit
Carries (packet bytes ∷ attempts) (p ∷ ps) = (bytes ≡ p) × Carries attempts ps
Carries (closed ∷ attempts) [] = Unit
Carries (closed ∷ attempts) (p ∷ ps) = ⊥
Carries [] [] = Unit
Carries [] (p ∷ ps) = ⊥

not_left :
    (finished : Bool) (x y : Result WorkerLoop)
    → finished ≡ false
    → elim finished [ true ↦ x | false ↦ y ] ≡ y
not_left finished x y e = rw e refl

set_first :
    (xs : List Buffer) {b : Buffer} (v : Buffer)
    → get_elem? xs 0 ≡ some b
    → get_elem? (set xs 0 v) 0 ≡ some v
set_first [] v e = cc
set_first (x ∷ xs) v e = refl

module _ (float_bytes : ℕ → ℕ → ℕ) (n_batches n_slots : ℕ) where
  set_float_ok :
      (index value : ℕ) (e : NnNetExecution)
      → index < n_batches
      → HasRoom n_batches n_slots e
      → (e' : NnNetExecution) × (set_float float_bytes 0 index value e ≡ ok e')
        × HasRoom n_batches n_slots e'
  unfolding set_float
  set_float_ok index value e lt h =
      let (out, run, size, _, _) =
        memcpy_ok h.pipe (4 * index) (record { size = 4; byte = float_bytes value }) 0 4
          (omega (arith, h.room)) (omega arith) in
      (
        record e { pipes = set e.pipes 0 out },
        rw (h.first, run) refl,
        record {
          pipe = out;
          first = set_first e.pipes out h.first;
          room = omega (arith, size, h.room);
          batches = h.batches;
          slots = h.slots;
        },
      )

  set_positions_ok :
      (position n index : ℕ) (e : NnNetExecution)
      → index + n ≤ n_batches
      → HasRoom n_batches n_slots e
      → (e' : NnNetExecution) × (set_positions float_bytes 0 position n index e ≡ ok e')
        × HasRoom n_batches n_slots e'
  unfolding set_positions
  set_positions_ok position zero index e le h = (e, refl, h)
  set_positions_ok position (suc n) index e le h =
      let (f, ef, hf) = set_float_ok index ((position + index) % 2 ^ 32) e (omega arith) h in
      let (g, eg, hg) = set_positions_ok position n (index + 1) f (omega arith) hf in
      (g, rw ef eg, hg)

  -- A packet with work sets the execution as it says.
  take_packet_ok :
      (p : LlmControlPacket) (w : WorkerLlmInference)
      → 0 < p.batch_size
      → IsTaken n_batches n_slots p
      → HasRoom n_batches n_slots w.execution
      → (e : NnNetExecution) × (take_packet float_bytes p w
          ≡ ok (record w { control_packet = p; execution = e }))
        × (settings e ≡ packet_settings p)
        × HasRoom n_batches n_slots e
  unfolding take_packet set_batch_size set_slot set_cache_id
  take_packet_ok p w some_work (fits, (batch_le, slot_le)) h =
      let (f, ef, hf) = set_positions_ok p.position p.batch_size 0 w.execution (omega arith) h in
      let not_stop : (p.batch_size == 0) ≡ false = ground arith in
      let batch : leb p.batch_size f.n_batches ≡ true = ground (arith, hf.batches) in
      let slot : leb p.slot f.n_slots ≡ true = ground (arith, hf.slots) in
      (
        record f {
          batch_size = p.batch_size;
          slot = p.slot;
          cache_save_id = p.cache_save_id;
          cache_load_id = p.cache_load_id;
        },
        rw (not_stop, ef, batch, slot) refl,
        refl,
        record {
          pipe = hf.pipe;
          first = hf.first;
          room = hf.room;
          batches = hf.batches;
          slots = hf.slots;
        },
      )

-- What does not touch the inference and forwards nothing.
abbrev pub Idle : WorkerLoop → WorkerLoop → Type 0
Idle l l' = (l'.inference ≡ l.inference) × (forwards l'.actions ≡ forwards l.actions)

quiet :
    (a : WorkerAction)
    → forwards (a ∷ []) ≡ []
    → (xs : List WorkerAction) → forwards (xs ++ (a ∷ [])) ≡ forwards xs
quiet a e xs =
    forwards-append xs (a ∷ []) ∙ ap (λ ys. forwards xs ++ ys) e ∙ append-nil (forwards xs)

module _ (float_bytes : ℕ → ℕ → ℕ) (pass : NnNetExecution → Option NnNetExecution)
    (dirty : ℕ → Bool) (net_turbo : Bool) where
  turn_on-Idle : (l : WorkerLoop) → Idle l (turn_on float_bytes pass dirty net_turbo l)
  unfolding turn_on
  turn_on-Idle l = elim (Bool-cases (net_turbo && not l.is_turbo_enabled)) [
    | inl e ↦ rw e (refl, quiet (turbo true) refl l.actions)
    | inr e ↦ rw e (refl, refl)
  ]

  turn_off-Idle :
      (late : Bool) (l : WorkerLoop) → Idle l (turn_off float_bytes pass dirty net_turbo late l)
  unfolding turn_off
  turn_off-Idle late l =
      elim (Bool-cases (l.is_turbo_enabled && (not l.is_first_attempt && late))) [
        | inl e ↦ rw e (refl, quiet (turbo false) refl l.actions)
        | inr e ↦ rw e (refl, refl)
      ]

  commit-Idle : (l : WorkerLoop) → Idle l (commit float_bytes pass dirty net_turbo l)
  unfolding commit
  commit-Idle l =
      elim (Bool-cases (
        not (l.inference.control_packet.cache_save_id == cache_skip)
        && dirty l.inference.control_packet.cache_save_id)) [
          | inl e ↦
              rw e (refl, quiet (committed l.inference.control_packet.cache_save_id) refl l.actions)
          | inr e ↦ rw e (refl, refl)
        ]

  module _ (n_batches n_slots : ℕ)
      (works : (e : NnNetExecution)
        → HasRoom n_batches n_slots e
        → (e' : NnNetExecution) × (pass e ≡ some e') × HasRoom n_batches n_slots e') where
    work_ok :
        (l : WorkerLoop) (next : WorkerLoop → Result WorkerLoop)
        → HasRoom n_batches n_slots l.inference.execution
        → (l' : WorkerLoop) × (work float_bytes pass dirty net_turbo l next ≡ next l')
          × (l'.inference.is_finished ≡ l.inference.is_finished)
          × (forwards l'.actions ≡ forwards l.actions ++ (settings l.inference.execution ∷ []))
          × HasRoom n_batches n_slots l'.inference.execution
    unfolding work
    work_ok l next h =
        let on = turn_on float_bytes pass dirty net_turbo l in
        let (same, kept) = turn_on-Idle l in
        let (e, ran, room) = works l.inference.execution h in
        let ran' : pass on.inference.execution ≡ some e =
          ap (λ (w : WorkerLlmInference). pass w.execution) same ∙ ran in
        let done : WorkerLoop = record on {
          inference = record on.inference { execution = e };
          is_first_attempt = true;
          actions = on.actions ++ (settings on.inference.execution ∷ []);
        } in
        let (same', kept') = commit-Idle done in
        (
          commit float_bytes pass dirty net_turbo done,
          rw (ran', work) refl,
          ap (λ (w : WorkerLlmInference). w.is_finished) same'
              ∙ ap (λ (w : WorkerLlmInference). w.is_finished) same,
          kept'
              ∙ forwards-append on.actions (settings on.inference.execution ∷ [])
              ∙ ap₂ (λ xs (w : WorkerLlmInference). xs ++ (settings w.execution ∷ [])) kept same,
          subst (λ (w : WorkerLlmInference). HasRoom n_batches n_slots w.execution) (sym same')
              room,
        )

    module _ (padding : ℕ) (pad : padding < 256 ^ 4) where
      read_back :
          (p : LlmControlPacket) → FitsPacket p → read_packet (write_packet padding p) ≡ ok (p, [])
      read_back p fits =
          ap read_packet (sym (append-nil (write_packet padding p)))
          ∙ (read_packet-Reads padding p pad fits).run []

      stop_turn :
          (attempts : List Attempt) (stop : LlmControlPacket) (l : WorkerLoop)
          → FitsPacket stop
          → stop.batch_size ≡ 0
          → worker_loop float_bytes pass dirty net_turbo
              (packet (write_packet padding stop) ∷ attempts)
              l
            ≡ ok (record l {
              inference = record l.inference { is_finished = true; control_packet = stop };
            })
      unfolding worker_loop try_read_control_packet take_packet
      stop_turn attempts stop l fits zero_is =
          let is_stop : (stop.batch_size == 0) ≡ true = ground (arith, zero_is) in
          rw (read_back stop fits, is_stop) refl

      work_turn :
          (attempts : List Attempt) (p : LlmControlPacket) (l : WorkerLoop)
          → l.inference.is_finished ≡ false
          → HasRoom n_batches n_slots l.inference.execution
          → IsTaken n_batches n_slots p
          → 0 < p.batch_size
          → (l' : WorkerLoop) × (worker_loop float_bytes pass dirty net_turbo
                (packet (write_packet padding p) ∷ attempts)
                l
              ≡ worker_loop float_bytes pass dirty net_turbo attempts l')
            × (l'.inference.is_finished ≡ false)
            × (forwards l'.actions ≡ forwards l.actions ++ (packet_settings p ∷ []))
            × HasRoom n_batches n_slots l'.inference.execution
      unfolding worker_loop try_read_control_packet
      work_turn attempts p l run h taken some_work =
          let (e, took, same, room) =
            take_packet_ok float_bytes n_batches n_slots p l.inference some_work taken h in
          let busy : WorkerLoop = record l {
            inference = record l.inference { control_packet = p; execution = e };
          } in
          let (l', worked, fin, out, room') =
            work_ok busy (worker_loop float_bytes pass dirty net_turbo attempts) room in
          (
            l',
            rw (read_back p taken.0, took) (not_left l.inference.is_finished _ _ run ∙ worked),
            fin ∙ run,
            out ∙ ap (λ a. forwards l.actions ++ (a ∷ [])) same,
            room',
          )

      -- The loop on attempts that bring packets with work, and then the stop signal.
      pub worker_loop-stops :
          (attempts : List Attempt) (ps : List LlmControlPacket) (stop : LlmControlPacket)
          (l : WorkerLoop)
          → l.inference.is_finished ≡ false
          → HasRoom n_batches n_slots l.inference.execution
          → All (IsTaken n_batches n_slots) ps
          → All (λ (p : LlmControlPacket). 0 < p.batch_size) ps
          → FitsPacket stop
          → stop.batch_size ≡ 0
          → Carries attempts (map (write_packet padding) ps ++ (write_packet padding stop ∷ []))
          → (l' : WorkerLoop) × (worker_loop float_bytes pass dirty net_turbo attempts l ≡ ok l')
            × (l'.inference.is_finished ≡ true)
            × (forwards l'.actions ≡ forwards l.actions ++ map packet_settings ps)
      unfolding worker_loop
      worker_loop-stops [] [] stop l run h taken some_work fits zero_is c = elim c [ ]
      worker_loop-stops [] (p ∷ ps) stop l run h taken some_work fits zero_is c = elim c [ ]
      worker_loop-stops (nothing late ∷ attempts) ps stop l run h taken some_work fits zero_is c =
          let (same, kept) = turn_off-Idle late l in
          let (l', ran, fin, out) =
            worker_loop-stops attempts ps stop
              (record (turn_off float_bytes pass dirty net_turbo late l) {
                is_first_attempt = false;
              })
              (ap (λ (w : WorkerLlmInference). w.is_finished) same ∙ run)
              (subst (λ (w : WorkerLlmInference). HasRoom n_batches n_slots w.execution) (sym same)
                h)
              taken some_work fits zero_is c in
          (l', ran, fin, out ∙ ap (λ xs. xs ++ map packet_settings ps) kept)
      worker_loop-stops (closed ∷ attempts) [] stop l run h taken some_work fits zero_is c =
          elim c [ ]
      worker_loop-stops (closed ∷ attempts) (p ∷ ps) stop l run h taken some_work fits zero_is c =
          elim c [ ]
      worker_loop-stops (packet bytes ∷ attempts) [] stop l run h taken some_work fits zero_is
            (same, c) =
          (
            record l {
              inference = record l.inference { is_finished = true; control_packet = stop };
            },
            ap (λ b. worker_loop float_bytes pass dirty net_turbo (packet b ∷ attempts) l) same
                ∙ stop_turn attempts stop l fits zero_is,
            refl,
            sym (append-nil (forwards l.actions)),
          )
      worker_loop-stops (packet bytes ∷ attempts) (p ∷ ps) stop l run h (taken, takens) (pos, poss)
            fits zero_is (same, c) =
          let (l1, ran1, run1, out1, h1) = work_turn attempts p l run h taken pos in
          let (l', ran, fin, out) =
            worker_loop-stops attempts ps stop l1 run1 h1 takens poss fits zero_is c in
          (
            l',
            ap (λ b. worker_loop float_bytes pass dirty net_turbo (packet b ∷ attempts) l) same
                ∙ ran1
                ∙ ran,
            fin,
            out
                ∙ ap (λ xs. xs ++ map packet_settings ps) out1
                ∙ append_assoc (forwards l.actions) (packet_settings p ∷ [])
                    (map packet_settings ps),
          )
