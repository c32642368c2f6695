-- ===== src/Base/Numbers.antt =====
-- Products and quotients by a variable, which `omega` takes for unknowns.
use distributed_llama.Base.{ℕ, ◌+◌, ◌*◌, ◌/◌, ◌%◌, ◌≤◌, ◌<◌, ◌≡◌, ap, arith}
use native.Mathlib.Nat.{div-add-mod, mul-le-mul_left, mul-le-mul_right, mul-div_left}

pub mul_mono : (q s t : ℕ) → s ≤ t → q * s ≤ q * t
mul_mono q s t h = mul-le-mul_left q h

pub mul_mono_left : (a b k : ℕ) → a ≤ b → a * k ≤ b * k
mul_mono_left a b k h = mul-le-mul_right k h

pub div-mul-add-mod : (len n : ℕ) → len / n * n + len % n ≡ len
div-mul-add-mod len n = omega (arith, div-add-mod len n)

pub mul-add-one : (q t : ℕ) → q * (t + 1) ≡ q * t + q
mul-add-one q t = omega arith

pub div_mono : (a b n : ℕ) → 0 < n → a ≤ b → a / n ≤ b / n
div_mono a b n p h =
    grind (arith, mul_mono (b / n + 1) (a / n), div-mul-add-mod a n, div-mul-add-mod b n)

pub mul-div_self : (m k : ℕ) → 0 < k → m * k / k ≡ m
mul-div_self m k p = mul-div_left m p

pub mul-mod_self : (m k : ℕ) → 0 < k → m * k % k ≡ 0
mul-mod_self m k p = omega (arith, div-mul-add-mod (m * k) k, ap (λ q. q * k) (mul-div_self m k p))

pub le-mul_pos : (x k : ℕ) → 0 < k → x ≤ x * k
le-mul_pos x k p = grind arith

-- The quotient of an exact division, times the divisor.
pub div-mul_exact : (d n : ℕ) → d % n ≡ 0 → d / n * n ≡ d
div-mul_exact d n e = omega (arith, div-mul-add-mod d n)

-- Run `k` of `n` runs of equal length ends within all of them.
pub runs_fit : (k n x : ℕ) → k < n → k * x + x ≤ n * x
runs_fit k n x h = grind arith
