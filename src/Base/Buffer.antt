-- ===== src/Base/Buffer.antt =====
-- A block of memory: its length and its bytes. Out of its bounds nothing may be read or written.
use distributed_llama.Base.{
  ℕ, ◌+◌, ◌-◌, ◌≤◌, ◌<◌, ◌≡◌, ap, arith, ltb, leb, ◌&&◌, if◌then◌else◌, Result, ok, err, memory,
}

pub record Buffer : Type 0 where
  pub size : ℕ
  pub byte : ℕ → ℕ

-- `memcpy(dst + to, src + from, n)`.
unfoldable pub memcpy : Buffer → ℕ → Buffer → ℕ → ℕ → Result Buffer
memcpy dst to src from n =
    if leb (to + n) dst.size && leb (from + n) src.size
    then ok (record dst {
      byte = λ i. if leb to i && ltb i (to + n) then src.byte (from + (i - to)) else dst.byte i;
    })
    else err memory

-- Two buffers of one size that agree on `n` bytes of `src` from `from` on, copied to `to`.
pub memcpy_ok :
    (dst : Buffer) (to : ℕ) (src : Buffer) (from n : ℕ)
    → to + n ≤ dst.size
    → from + n ≤ src.size
    → (out : Buffer) × (memcpy dst to src from n ≡ ok out)
      × (out.size ≡ dst.size)
      × ((i : ℕ) → i < n → out.byte (to + i) ≡ src.byte (from + i))
      × ((i : ℕ) → i < to → out.byte i ≡ dst.byte i)
unfolding memcpy
memcpy_ok dst to src from n h k = (
  record dst {
    byte = λ i. if leb to i && ltb i (to + n) then src.byte (from + (i - to)) else dst.byte i;
  },
  ground arith,
  ground arith,
  (λ i q. ground (arith, ap src.byte (cancel to i from))),
  (λ i q. ground arith),
)
  where
    cancel : (a i b : ℕ) → b + (a + i - a) ≡ b + i
    cancel a i b = omega arith
