-- ===== src/Network/Sync/Threads.antt =====
-- How the threads of a node share its sockets (src/nn/nn-network.cpp).
use distributed_llama.Base.{
  ℕ, zero, suc, ◌+◌, ◌*◌, ◌/◌, ◌%◌, ◌≤◌, ◌<◌, ◌≡◌, ◌↔◌, ap, ◌∙◌, arith, some, get_elem?,
}
use distributed_llama.Base.Numbers.{div-mul-add-mod}
use distributed_llama.Network.Sync.{NnSocketIo, sockets_per_thread, thread_ios}

-- For a thread whose number is below that of the threads, its `i`th socket is counted just when the
-- number of that socket is one of the sockets.
pub sockets_per_thread_lem :
    (n_sockets n t i : ℕ) → t < n → (i < sockets_per_thread n_sockets n t) ↔ (t + i * n < n_sockets)
unfolding sockets_per_thread
sockets_per_thread_lem s n t i h = (
  (λ lt.
      ground (arith, div-mul-add-mod s n, rounds i (s / n) n, rounds (suc i) (s / n) n, next i n)),
  (λ lt. ground (
    arith,
    div-mul-add-mod s n,
    rounds (suc (s / n)) i n,
    next (s / n) n,
    rounds (s / n) i n,
    mod-lt s n (omega arith),
  )),
)
  where
    rounds : (a b n : ℕ) → a ≤ b → a * n ≤ b * n
    rounds a b n le = grind arith

    next : (a n : ℕ) → suc a * n ≡ a * n + n
    next a n = omega arith

    mod-lt : (s n : ℕ) → 0 < n → s % n < n
    mod-lt s n h = omega arith

pub get_elem?-thread_ios :
    (io : ℕ → NnSocketIo) (n t k i0 i : ℕ)
    → i < k
    → get_elem? (thread_ios io n t k i0) i ≡ some (io (t + (i0 + i) * n))
unfolding thread_ios
get_elem?-thread_ios io n t zero i0 i h = absurd (omega arith)
get_elem?-thread_ios io n t (suc k) i0 zero h = ap some (ap io (omega arith))
get_elem?-thread_ios io n t (suc k) i0 (suc i) h =
    get_elem?-thread_ios io n t k (i0 + 1) i (omega arith) ∙ ap some (ap io (omega arith))
