-- ===== src/Core/Split.antt =====
-- splitRowMatmulWeight and splitColMatmulWeight: the bytes of a weight that go to one node.
pub mod Rows
pub mod Columns
use distributed_llama.Base.{
  ℕ, ◌+◌, ◌-◌, ◌*◌, ◌/◌, ◌%◌, ◌^◌, ◌≤◌, ◌<◌, ◌≡◌, arith, ◌==◌, Result, ok, err, guard, ◌>>=◌, ◌>>◌,
  assertion,
}
use distributed_llama.Base.Buffer.{Buffer, memcpy}
use distributed_llama.Base.Loops.{for_range}
use distributed_llama.Core.Sizes.{get_bytes, get_block_size}
use distributed_llama.Core.Slices.{NnRowMatmulSlice, NnColMatmulSlice}

-- The target and `copiedBytes`.
pub record Copy : Type 0 where
  pub target : Buffer
  pub copied : ℕ

abbrev pub copy_bytes : Buffer → Copy → ℕ → ℕ → ℕ → Result Copy
copy_bytes weight c to from n = do
  target ← memcpy c.target to weight from n
  ok (record { target = target; copied = (c.copied + n) % 2 ^ 64 })

-- The inner loop of the row splitter: one row of `n` blocks.
unfoldable pub split_row : Buffer → ℕ → ℕ → ℕ → ℕ → Copy → Result Copy
split_row weight offset batch_bytes n d = for_range n 0 λ j c.
    let o = (d * n + j) * batch_bytes % 2 ^ 64 in copy_bytes weight c o (offset + o) batch_bytes

-- The bytes written to `weight0`, with the number returned, an NnUint.
unfoldable pub split_row_matmul_weight :
    NnRowMatmulSlice → ℕ → Buffer → Buffer → Result (Buffer × ℕ)
unfolding split_row
split_row_matmul_weight slice node_index weight weight0 = do
  block_size ← get_block_size slice.type
  batch_bytes ← get_bytes slice.type block_size
  guard (slice.n % block_size == 0) assertion
  let n = slice.n / block_size
  let offset = slice.d0 * node_index % 2 ^ 32 * n * batch_bytes % 2 ^ 64
  c ←
      for_range slice.d0 0 (split_row weight offset batch_bytes n)
        (record { target = weight0; copied = 0 })
  ok (c.target, c.copied % 2 ^ 32)

unfoldable pub split_col_matmul_weight :
    NnColMatmulSlice → ℕ → Buffer → Buffer → Result (Buffer × ℕ)
split_col_matmul_weight slice node_index weight weight0 = do
  block_size ← get_block_size slice.type
  batch_bytes ← get_bytes slice.type block_size
  guard (slice.n0 % block_size == 0) assertion
  let n = slice.n / block_size
  let row_bytes = n * batch_bytes
  let row0_bytes = slice.n0 / block_size * batch_bytes
  let row_offset_bytes = node_index * row0_bytes % 2 ^ 64
  c ←
      for_range slice.d 0
        (λ d c.
          copy_bytes weight c (row0_bytes * d % 2 ^ 64)
            ((row_bytes * d + row_offset_bytes) % 2 ^ 64) row0_bytes)
        (record { target = weight0; copied = 0 })
  ok (c.target, c.copied % 2 ^ 32)
