-- ===== src/Quants/Threads.antt =====
-- SPLIT_THREADS and the division that dequantizeQ80toF32 makes by itself.
use distributed_llama.Base.{
  ℕ, zero, suc, ◌+◌, ◌-◌, ◌*◌, ◌/◌, ◌%◌, ◌^◌, ◌≤◌, ◌<◌, ◌≡◌, inl, inr, arith, ltb, ltb→lt,
  if◌then◌else◌, min, Bool-cases, ◌==◌,
}
use native.Mathlib.Nat.{div-add-mod}
use native.Mathlib.Numerals.{add-one}

-- The half-open range of indices that one thread works on.
pub record Range : Type 0 where
  pub start : ℕ
  pub end : ℕ

-- The macro's four constants, in 32-bit arithmetic.
unfoldable pub split_threads : ℕ → ℕ → ℕ → Range
split_threads range_len n_threads thread_index =
    let range_slice = range_len / n_threads in
    let range_rest = range_len % n_threads in
    let start =
      (thread_index * range_slice % 2 ^ 32
        + (if ltb thread_index range_rest then thread_index else range_rest))
      % 2 ^ 32 in
    record {
      start = start;
      end = (start + range_slice + (if ltb thread_index range_rest then 1 else 0)) % 2 ^ 32;
    }

-- Where the work of thread `t` begins, in unbounded arithmetic.
abbrev pub cut : ℕ → ℕ → ℕ → ℕ
cut len n t = t * (len / n) + min t (len % n)

pub cut-le : (len n t : ℕ) → t ≤ n → 0 < n → cut len n t ≤ len
cut-le len n t h p = grind arith

pub cut-end : (len n : ℕ) → 0 < n → cut len n n ≡ len
cut-end len n p = grind arith

cut-suc :
    (len n t : ℕ) → cut len n (t + 1) ≡ cut len n t + len / n + (if ltb t (len % n) then 1 else 0)
cut-suc len n t = grind arith

-- With no wrap-around the macro computes the cuts.
pub split_threads-cut :
    (len n t : ℕ)
    → len < 2 ^ 32
    → t < n
    → ((split_threads len n t).start ≡ cut len n t)
      × ((split_threads len n t).end ≡ cut len n (t + 1))
unfolding split_threads
split_threads-cut len n t bound h =
    ground (arith, cut-le len n t, cut-le len n (t + 1), cut-suc len n t)

pub cut_mono : (len n s t : ℕ) → s ≤ t → cut len n s ≤ cut len n t
cut_mono len n s t h = grind arith

abbrev pub Holds : Range → ℕ → Type 0
Holds r i = (r.start ≤ i) × (i < r.end)

-- Ranges between the successive values of a rising function `c`.
module _ (c : ℕ → ℕ) (mono : (s t : ℕ) → s ≤ t → c s ≤ c t) (first : c 0 ≡ 0) where
  -- The thread whose range holds an index below the last cut.
  find_thread : (i k : ℕ) → i < c k → (t : ℕ) × (t < k) × (c t ≤ i) × (i < c (t + 1))
  find_thread i zero h = absurd (omega (arith, first))
  find_thread i (suc k) h = elim (Bool-cases (ltb i (c k))) [
    | inl before ↦ let (t, a, b, d) = find_thread i k (ltb→lt _ _ before) in (t, omega arith, b, d)
    | inr after ↦ (k, omega arith, ground arith, rw add-one h)
  ]

  same_thread : (i s t : ℕ) → c s ≤ i → i < c (s + 1) → c t ≤ i → i < c (t + 1) → s ≡ t
  same_thread i s t p q p' q' = ground (arith, mono (s + 1) t, mono (t + 1) s)

  -- If thread `t` of `n` has the range from `c t` to `c (t + 1)`, each index has one thread.
  ranges_partition :
      (n i : ℕ) (r : ℕ → Range)
      → ((t : ℕ) → t < n → ((r t).start ≡ c t) × ((r t).end ≡ c (t + 1)))
      → i < c n
      → (t : ℕ) × (t < n) × Holds (r t) i × ((s : ℕ) → s < n → Holds (r s) i → s ≡ t)
  ranges_partition n i r cuts h =
      let (t, a, b, d) = find_thread i n h in
      (
        t,
        a,
        (rw ((cuts t a).0) b, rw ((cuts t a).1) d),
        λ s q holds.
            same_thread i s t (rw ((cuts s q).0) at holds.0) (rw ((cuts s q).1) at holds.1) b d,
      )

-- Every index of a range shorter than 2 ^ 32 belongs to the part of exactly one thread.
pub split_threads_partition :
    (len n i : ℕ)
    → len < 2 ^ 32
    → 0 < n
    → i < len
    → (t : ℕ) × (t < n)
      × Holds (split_threads len n t) i
      × ((s : ℕ) → s < n → Holds (split_threads len n s) i → s ≡ t)
split_threads_partition len n i bound p h =
    ranges_partition (cut len n) (cut_mono len n) (omega arith) n i (split_threads len n)
      (λ t q. split_threads-cut len n t bound q) (omega (arith, cut-end len n p))

-- For a range shorter than 2 ^ 32, no thread works outside the range, and the part of one thread is
-- longer than that of another by one at most.
pub split_threads_balance :
    (len n s t : ℕ)
    → len < 2 ^ 32
    → s < n
    → t < n
    → let r = split_threads len n s in
      let q = split_threads len n t in
      (r.start ≤ r.end) × (r.end ≤ len) × (r.end - r.start ≤ q.end - q.start + 1)
split_threads_balance len n s t bound h k = ground (
  arith,
  split_threads-cut len n s bound h,
  split_threads-cut len n t bound k,
  cut-suc len n s,
  cut-suc len n t,
  cut-le len n (s + 1),
)

-- The blocks that dequantizeQ80toF32 gives to one thread: all of the rest goes to the last.
-- `n_blocks` is an int, so the products stay below 2 ^ 31.
unfoldable pub dequantize_range : ℕ → ℕ → ℕ → Range
dequantize_range n_blocks n_threads thread_index =
    let blocks_per_thread = n_blocks / n_threads in
    let rest = if thread_index == n_threads - 1 then n_blocks % n_threads else 0 in
    let start = blocks_per_thread * thread_index in
    record { start = start; end = start + (blocks_per_thread + rest) }

abbrev rest_cut : ℕ → ℕ → ℕ → ℕ
rest_cut len n t = if ltb t n then len / n * t else len

mul_mono : (q s t : ℕ) → s ≤ t → q * s ≤ q * t
mul_mono q s t h = grind arith

mul-add-one : (q t : ℕ) → q * (t + 1) ≡ q * t + q
mul-add-one q t = omega arith

last_round : (q t n : ℕ) → t + 1 ≡ n → q * t + q ≡ q * n
last_round q t n e = rw (← e) (omega arith)

div-mul-add-mod : (len n : ℕ) → len / n * n + len % n ≡ len
div-mul-add-mod len n = omega (arith, div-add-mod len n)

rest_cut_mono : (len n s t : ℕ) → 0 < n → s ≤ t → rest_cut len n s ≤ rest_cut len n t
rest_cut_mono len n s t p h =
    ground (arith, mul_mono (len / n) s t, mul_mono (len / n) s n, div-mul-add-mod len n)

dequantize_range-cut :
    (len n t : ℕ)
    → t < n
    → ((dequantize_range len n t).start ≡ rest_cut len n t)
      × ((dequantize_range len n t).end ≡ rest_cut len n (t + 1))
unfolding dequantize_range
dequantize_range-cut len n t h =
    ground (arith, div-mul-add-mod len n, mul-add-one (len / n) t, last_round (len / n) t n)

-- Every block is dequantized by exactly one thread.
pub dequantize_range_partition :
    (n_blocks n i : ℕ)
    → 0 < n
    → i < n_blocks
    → (t : ℕ) × (t < n)
      × Holds (dequantize_range n_blocks n t) i
      × ((s : ℕ) → s < n → Holds (dequantize_range n_blocks n s) i → s ≡ t)
dequantize_range_partition len n i p h =
    ranges_partition (rest_cut len n) (λ s t. rest_cut_mono len n s t p) (ground arith) n i
      (dequantize_range len n) (dequantize_range-cut len n) (ground arith)
