-- ===== src/Network/Sync/Topology.antt =====
-- Which node is at the other end of a socket (src/nn/nn-network.cpp, serve and connect).
use distributed_llama.Base.{
  ℕ, zero, suc, ◌+◌, ◌≤◌, ◌<◌, ◌≡◌, ◌≢◌, refl, ap, sym, ◌∙◌, ◌↔◌, inl, inr, arith, Bool, true,
  false, Bool-cases, not, leb, if◌then◌else◌, List, [], ◌∷◌, drop, Option, some, get_elem?,
}
use distributed_llama.Network.Sync.{
  hosts_from, serve_sockets, first_of, worker_sockets, connects, slice_index,
}

-- Past the worker itself nothing is left out.
hosts_from-past : (n j i k : ℕ) → i < j → k < n → get_elem? (hosts_from n j i) k ≡ some (j + k)
unfolding hosts_from
hosts_from-past zero j i k past lt = absurd (omega arith)
hosts_from-past (suc n) j i zero past lt = ground arith
hosts_from-past (suc n) j i (suc k) past lt =
    ground (arith, hosts_from-past n (j + 1) i k (omega arith) (omega arith))

hosts_from-at :
    (n j i k : ℕ)
    → j ≤ i
    → suc k < n
    → get_elem? (hosts_from n j i) k ≡ some (slice_index i (j + k))
unfolding hosts_from
hosts_from-at zero j i k le lt = absurd (omega arith)
hosts_from-at (suc n) j i zero le lt = ground (arith, hosts_from-past n (j + 1) i 0)
hosts_from-at (suc n) j i (suc k) le lt =
    ground (arith, hosts_from-past n (j + 1) i (suc k), hosts_from-at n (j + 1) i k)

-- The `k`th host from the `i`th on: connected to, or the one that arrives then.
drop-suc : (k : ℕ) (xs : List ℕ) → drop k (drop 1 xs) ≡ drop (suc k) xs
drop-suc zero [] = refl
drop-suc (suc k) [] = refl
drop-suc k (x ∷ xs) = refl

serve_sockets-at :
    (node_index i : ℕ) (hosts arrivals : List ℕ) (k host : ℕ)
    → get_elem? hosts k ≡ some host
    → get_elem? (serve_sockets node_index i hosts arrivals) k
      ≡ some (if leb node_index (i + k) then some (suc host) else first_of (drop k arrivals))
unfolding serve_sockets
serve_sockets-at node_index i [] arrivals k host e = cc
serve_sockets-at node_index i (h ∷ hosts) arrivals zero host e =
    elim (Bool-cases (leb node_index i)) [
      | inl late ↦
          let late' : leb node_index (i + 0) ≡ true = ground (arith, late) in
          let same : h ≡ host = cc e in rw (late, late', same) refl
      | inr early ↦
          let early' : leb node_index (i + 0) ≡ false = ground (arith, early) in
          rw (early, early') refl
    ]
serve_sockets-at node_index i (h ∷ hosts) arrivals (suc k) host e =
    elim (Bool-cases (leb node_index i)) [
      | inl late ↦
          let late1 : leb node_index (i + 1 + k) ≡ true = ground (arith, late) in
          let late2 : leb node_index (i + suc k) ≡ true = ground (arith, late) in
          let there = serve_sockets-at node_index (i + 1) hosts arrivals k host e in
          rw (late, late2) (there ∙ rw late1 refl)
      | inr early ↦
          let there = serve_sockets-at node_index (i + 1) hosts (drop 1 arrivals) k host e in
          rw early (
            there
            ∙ ap
                (λ j. some (
                  if leb node_index j
                  then some (suc host)
                  else first_of (drop k (drop 1 arrivals))))
                (omega arith)
            ∙ ap (λ xs. some (if leb node_index (i + suc k) then some (suc host) else first_of xs))
                (drop-suc k arrivals))
    ]

-- The nodes that connect to the worker are the workers before it, in the order of their numbers.
abbrev pub ArriveInOrder : ℕ → List ℕ → Type 0
ArriveInOrder i arrivals = (k : ℕ) → k < i → first_of (drop k arrivals) ≡ some (k + 1)

abbrev pub LeadAsExpected : ℕ → ℕ → List (Option ℕ) → Type 0
LeadAsExpected n_sockets i sockets =
    (s : ℕ) → s < n_sockets → get_elem? sockets s ≡ some (some (slice_index (i + 1) s))

worker_sockets-accepted :
    (n i : ℕ) (arrivals : List ℕ) (k : ℕ)
    → i < n
    → k < i
    → get_elem? (worker_sockets n i arrivals) (suc k) ≡ some (first_of (drop k arrivals))
unfolding worker_sockets
worker_sockets-accepted n i arrivals k lt before =
    serve_sockets-at i 0 (hosts_from n 0 i) arrivals k _
      (hosts_from-at n 0 i k (omega arith) (omega arith))
    ∙ accept (leb i (0 + k)) (ground (arith, before))
  where
    accept :
        (late : Bool)
        → late ≡ false
        → some (if late then some (suc (slice_index i (0 + k))) else first_of (drop k arrivals))
          ≡ some (first_of (drop k arrivals))
    accept late e = rw e refl

worker_sockets-connected :
    (n i : ℕ) (arrivals : List ℕ) (k : ℕ)
    → suc k < n
    → i ≤ k
    → get_elem? (worker_sockets n i arrivals) (suc k) ≡ some (some (slice_index (i + 1) (suc k)))
unfolding worker_sockets
worker_sockets-connected n i arrivals k lt behind =
    serve_sockets-at i 0 (hosts_from n 0 i) arrivals k _ (hosts_from-at n 0 i k (omega arith) lt)
    ∙ connected (leb i (0 + k)) (ground (arith, behind))
  where
    connected :
        (late : Bool)
        → late ≡ true
        → some (if late then some (suc (slice_index i (0 + k))) else first_of (drop k arrivals))
          ≡ some (some (slice_index (i + 1) (suc k)))
    connected late e = rw e (ap (λ v. some (some v)) (ground (arith, behind)))

root_first :
    (n i : ℕ) (arrivals : List ℕ)
    → get_elem? (worker_sockets n i arrivals) 0 ≡ some (some (slice_index (i + 1) 0))
unfolding worker_sockets
root_first n i arrivals = ground arith

-- Every socket of a worker leads to the node whose slice the synchronization expects there (the
-- root first, then the other nodes in order, the worker itself left out) exactly when the workers
-- before it connect to it in the order of their numbers.
pub worker_sockets-slice_index :
    (n_sockets i : ℕ) (arrivals : List ℕ)
    → i < n_sockets
    → LeadAsExpected n_sockets i (worker_sockets n_sockets i arrivals) ↔ ArriveInOrder i arrivals
worker_sockets-slice_index n i arrivals lt = (in_order, as_expected)
  where
    option_injective : {a b : Option ℕ} → some a ≡ some b → a ≡ b
    option_injective e = cc

    in_order : LeadAsExpected n i (worker_sockets n i arrivals) → ArriveInOrder i arrivals
    in_order leads k before =
        let slice : slice_index (i + 1) (suc k) ≡ k + 1 = ground (arith, before) in
        option_injective (
          sym (worker_sockets-accepted n i arrivals k lt before)
          ∙ leads (suc k) (omega arith)
          ∙ ap (λ v. some (some v)) slice)

    as_expected : ArriveInOrder i arrivals → LeadAsExpected n i (worker_sockets n i arrivals)
    as_expected order zero within = root_first n i arrivals
    as_expected order (suc k) within = elim (Bool-cases (leb i k)) [
      | inl late ↦ worker_sockets-connected n i arrivals k within (ground (arith, late))
      | inr early ↦
          let before : k < i = ground (arith, early) in
          let slice : k + 1 ≡ slice_index (i + 1) (suc k) = ground (arith, before) in
          worker_sockets-accepted n i arrivals k lt before
          ∙ ap some (order k before ∙ ap some slice)
    ]

-- Of two workers one connects to the other, which waits for it.
pub connects_once :
    (a b i k : ℕ)
    → a ≢ b
    → slice_index (a + 1) (suc i) ≡ b + 1
    → slice_index (b + 1) (suc k) ≡ a + 1
    → connects a i ≡ not (connects b k)
connects_once a b i k ne p q = ground arith
