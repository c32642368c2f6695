-- ===== src/Base/Loops.antt =====
-- Counted loops whose body may fail.
use distributed_llama.Base.{ℕ, zero, suc, ◌+◌, ◌<◌, ◌≡◌, refl, arith, Result, ok, ◌>>=◌}

-- for (k = i; k < i + n; k++) s = body k s, left at the first failure.
unfoldable pub for_range {ℓ} : {S : Type ℓ} → ℕ → ℕ → (ℕ → S → Result S) → S → Result S
for_range zero i body s = ok s
for_range (suc n) i body s = body i s >>= λ s'. for_range n (i + 1) body s'

-- A body that succeeds and keeps the invariant at each round makes the loop do so.
pub for_range_ok {ℓ κ} :
    {S : Type ℓ} (P : ℕ → S → Type κ) (body : ℕ → S → Result S) (top : ℕ)
    → ((i : ℕ) (s : S) → i < top → P i s → (s' : S) × (body i s ≡ ok s') × P (i + 1) s')
    → (n i : ℕ) (s : S) → i + n ≡ top
    → P i s
    → (s' : S) × (for_range n i body s ≡ ok s') × P top s'
unfolding for_range
for_range_ok P body top keep zero i s e h = let e' : i ≡ top = omega arith in (s, refl, rw (← e') h)
for_range_ok P body top keep (suc n) i s e h =
    let (s', run, h') = keep i s (omega arith) h in
    let (t, rest, p) = for_range_ok P body top keep n (i + 1) s' (omega arith) h' in
    (t, rw (run) rest, p)
