-- ===== src/Core/Split/Rows.antt =====
-- The loops of splitRowMatmulWeight (src/nn/nn-core.cpp) and the bytes that they copy.
use distributed_llama.Base.{
  ℕ, ◌+◌, ◌-◌, ◌*◌, ◌/◌, ◌%◌, ◌^◌, ◌≤◌, ◌<◌, ◌≡◌, ◌≢◌, refl, sym, ap, subst, ◌∙◌, inl, inr, arith,
  ltb, ltb→lt, Bool-cases, ok,
}
use distributed_llama.Base.Buffer.{Buffer, memcpy_ok}
use distributed_llama.Base.Numbers.{mul_mono_left, div-mul_exact, runs_fit}
use distributed_llama.Base.Loops.{for_range, for_range_ok}
use distributed_llama.Quants.{NnFloatType, f_unk, f_32, f_16, f_q40, f_q80}
use distributed_llama.Core.Sizes.{block_size, block_bytes, get_block_size_lem, get_bytes-block_size}
use distributed_llama.Core.Slices.{NnRowMatmulSlice, slice_row_matmul}
use distributed_llama.Core.Slices.Tiles.{slice_row_matmul_lem}
use distributed_llama.Core.Split.{Copy, copy_bytes, split_row, split_row_matmul_weight}

-- The first `len` bytes of the target are those of the weight from `offset` on.
record Copied (weight : Buffer) (offset size len : ℕ) (c : Copy) : Type 0 where
  count : c.copied ≡ len
  whole : c.target.size ≡ size
  same : (i : ℕ) → i < len → c.target.byte i ≡ weight.byte (offset + i)

module _ (weight : Buffer) (offset size : ℕ) where
  -- One more run of `n` bytes behind the first `m`.
  copy_bytes-Copied :
      (m n : ℕ) (c : Copy)
      → Copied weight offset size m c
      → offset + (m + n) ≤ weight.size
      → m + n ≤ size
      → m + n < 2 ^ 64
      → (c' : Copy) × (copy_bytes weight c m (offset + m) n ≡ ok c')
        × Copied weight offset size (m + n) c'
  copy_bytes-Copied m n c h a b w =
      let (out, run, keep, new, old) =
        memcpy_ok c.target m weight (offset + m) n (omega (arith, h.whole)) (omega arith) in
      (
        record { target = out; copied = (c.copied + n) % 2 ^ 64 },
        rw run,
        record { count = omega (arith, h.count); whole = keep ∙ h.whole; same = agree out new old },
      )
    where
      agree :
          (out : Buffer)
          → ((i : ℕ) → i < n → out.byte (m + i) ≡ weight.byte (offset + m + i))
          → ((i : ℕ) → i < m → out.byte i ≡ c.target.byte i)
          → (i : ℕ) → i < m + n
          → out.byte i ≡ weight.byte (offset + i)
      agree out new old i q = elim (Bool-cases (ltb i m)) [
        | inl before ↦ old i (ltb→lt _ _ before) ∙ h.same i (ltb→lt _ _ before)
        | inr after ↦
            let e : m + (i - m) ≡ i = ground arith in
            ap out.byte (sym e) ∙ new (i - m) (ground arith) ∙ ap weight.byte (omega arith)
      ]

  -- The same, from addresses that are only known to be equal to those.
  copy_bytes_at :
      (m n to from : ℕ) (c : Copy)
      → to ≡ m
      → from ≡ offset + m
      → Copied weight offset size m c
      → offset + (m + n) ≤ weight.size
      → m + n ≤ size
      → m + n < 2 ^ 64
      → (c' : Copy) × (copy_bytes weight c to from n ≡ ok c') × Copied weight offset size (m + n) c'
  copy_bytes_at m n to from c e f h a b w = rw (e, f) (copy_bytes-Copied m n c h a b w)

-- Block `j` of row `d` ends within the rows of `top`.
block_fits : (d top j n x : ℕ) → d < top → j < n → (d * n + j) * x + x ≤ top * n * x
block_fits d top j n x p q =
    omega (arith, mul_mono_left (d * n + j + 1) (top * n) x (index_fits d top j n p q))
  where
    index_fits : (d top j n : ℕ) → d < top → j < n → d * n + j + 1 ≤ top * n
    index_fits d top j n p q = grind arith

module _ (weight : Buffer) (offset size top n x : ℕ) (room : offset + top * n * x ≤ weight.size)
    (space : top * n * x ≤ size) (small : top * n * x < 2 ^ 64) where
  split_row-Copied :
      (d : ℕ) (c : Copy)
      → d < top
      → Copied weight offset size (d * n * x) c
      → (c' : Copy) × (split_row weight offset x n d c ≡ ok c')
        × Copied weight offset size ((d + 1) * n * x) c'
  unfolding split_row
  split_row-Copied d c p h =
      let (c', run, h') =
        for_range_ok (λ j. Copied weight offset size ((d * n + j) * x)) _ n round n 0 c
          (omega arith) (subst (λ m. Copied weight offset size m c) (omega arith) h) in
      (c', run, subst (λ m. Copied weight offset size m c') (omega arith) h')
    where
      round :
          (j : ℕ) (c : Copy)
          → j < n
          → Copied weight offset size ((d * n + j) * x) c
          → (c' : Copy) × (copy_bytes weight c
                ((d * n + j) * x % 2 ^ 64)
                (offset + (d * n + j) * x % 2 ^ 64)
                x
              ≡ ok c')
            × Copied weight offset size ((d * n + (j + 1)) * x) c'
      round j c q h =
          let fits = block_fits d top j n x p q in
          let (c', run, h') =
            copy_bytes_at weight offset size ((d * n + j) * x) x _ _ c (omega (arith, fits))
              (omega (arith, fits)) h (omega (arith, fits)) (omega (arith, fits))
              (omega (arith, fits)) in
          (c', run, subst (λ m. Copied weight offset size m c') (omega arith) h')

  -- All rows, into a fresh target.
  split_rows-Copied :
      (weight0 : Buffer)
      → weight0.size ≡ size
      → (c : Copy) × (for_range top 0
            (split_row weight offset x n)
            (record { target = weight0; copied = 0 })
          ≡ ok c)
        × Copied weight offset size (top * n * x) c
  split_rows-Copied weight0 e =
      for_range_ok (λ d. Copied weight offset size (d * n * x)) _ top split_row-Copied top 0 _
        (omega arith)
        (record { count = omega arith; whole = e; same = λ i h. absurd (omega arith) })

module _ (t : NnFloatType) (known : t ≢ f_unk) (m d0 k : ℕ) (s : NnRowMatmulSlice)
    (type : s.type ≡ t) (row : s.n ≡ m * block_size t) (height : s.d0 ≡ d0)
    (weight weight0 : Buffer) where
  -- The splitter as one loop, from the offset of the node's slice.
  split_row_matmul_weight-loop :
      (c : Copy) (offset : ℕ)
      → d0 * k % 2 ^ 32 * m * block_bytes t % 2 ^ 64 ≡ offset
      → for_range d0 0
          (split_row weight offset (block_bytes t) m)
          (record { target = weight0; copied = 0 })
        ≡ ok c
      → split_row_matmul_weight s k weight weight0 ≡ ok (c.target, c.copied % 2 ^ 32)
  unfolding split_row_matmul_weight
  split_row_matmul_weight-loop c offset e run =
      ground (arith, get_block_size_lem t known, get_bytes-block_size t known, whole t m)
    where
      whole :
          (t : NnFloatType) (m : ℕ)
          → (m * block_size t % block_size t ≡ 0) × (m * block_size t / block_size t ≡ m)
      whole f_unk m = omega arith
      whole f_32 m = omega arith
      whole f_16 m = omega arith
      whole f_q40 m = omega arith
      whole f_q80 m = omega arith

-- The slice of node `k` of `n`, with rows of `m` blocks of `x` bytes.
module _ (m d n k x : ℕ) (exact : d % n ≡ 0) (inside : k < n) where
  slices_tile : n * (d / n * m * x) ≡ m * d * x
  slices_tile = omega (arith, ap (λ (v : ℕ). v * m * x) (div-mul_exact d n exact))

  slice_fits : k * (d / n * m * x) + d / n * m * x ≤ m * d * x
  slice_fits = omega (arith, slices_tile, runs_fit k n (d / n * m * x) inside)

  slice_offset :
      d < 2 ^ 32 → m * d * x < 2 ^ 64 → d / n * k % 2 ^ 32 * m * x % 2 ^ 64 ≡ k * (d / n * m * x)
  slice_offset b w =
      let e : d / n * k % 2 ^ 32 ≡ d / n * k =
        omega (arith, div-mul_exact d n exact, runs_fit k n (d / n) inside) in
      rw e (omega (arith, slice_fits))

few_bytes :
    (t : NnFloatType) (m d : ℕ) → m * block_size t * d < 2 ^ 32 → m * d * block_bytes t < 2 ^ 64
few_bytes f_unk m d h = omega arith
few_bytes f_32 m d h = omega arith
few_bytes f_16 m d h = omega arith
few_bytes f_q40 m d h = omega arith
few_bytes f_q80 m d h = omega arith

-- The splitter on plain numbers: the node's slice lies in the weight from `offset` on.
split_row_matmul_weight-run :
    (t : NnFloatType) (m d0 k offset len : ℕ) (s : NnRowMatmulSlice) (weight weight0 : Buffer)
    → t ≢ f_unk
    → s.type ≡ t
    → s.n ≡ m * block_size t
    → s.d0 ≡ d0
    → d0 * k % 2 ^ 32 * m * block_bytes t % 2 ^ 64 ≡ offset
    → d0 * m * block_bytes t ≡ len
    → offset + len ≤ weight.size
    → len ≤ weight0.size
    → len < 2 ^ 64
    → (out : Buffer) × (split_row_matmul_weight s k weight weight0 ≡ ok (out, len % 2 ^ 32))
      × (out.size ≡ weight0.size)
      × ((i : ℕ) → i < len → out.byte i ≡ weight.byte (offset + i))
split_row_matmul_weight-run t m d0 k offset len s weight weight0 h type row height at_offset e a b
      w =
    let (c, run, copied) =
      split_rows-Copied weight offset weight0.size d0 m (block_bytes t) (rw e a) (rw e b) (rw e w)
        weight0 refl in
    (
      c.target,
      split_row_matmul_weight-loop t h m d0 k s type row height weight weight0 c offset at_offset
            run
          ∙ ap (λ v. ok (c.target, v % 2 ^ 32)) (copied.count ∙ e),
      copied.whole,
      λ i q. copied.same i (rw e q),
    )

-- For rows of whole blocks, a size below 2 ^ 32 and buffers that are large enough, the row splitter
-- succeeds: the slice of node `node_index` is the run of bytes that starts behind the slices of the
-- nodes before it, the number returned is its size, cut to 32 bits, and the slices of all nodes
-- have the bytes of the whole weight.
pub split_row_matmul_weight_lem :
    (t : NnFloatType) (n_nodes m d node_index : ℕ) (s : NnRowMatmulSlice) (weight weight0 : Buffer)
    → t ≢ f_unk
    → d < 2 ^ 32
    → m * block_size t * d < 2 ^ 32
    → slice_row_matmul t n_nodes (m * block_size t) d ≡ ok s
    → node_index < n_nodes
    → s.size.n_bytes ≤ weight.size
    → s.slice_size.n_bytes ≤ weight0.size
    → (n_nodes * s.slice_size.n_bytes ≡ s.size.n_bytes)
      × ((out : Buffer) × (split_row_matmul_weight s node_index weight weight0
            ≡ ok (out, s.slice_size.n_bytes % 2 ^ 32))
          × (out.size ≡ weight0.size)
          × ((i : ℕ)
              → i < s.slice_size.n_bytes
              → out.byte i ≡ weight.byte (node_index * s.slice_size.n_bytes + i)))
unfolding split_row_matmul_weight
split_row_matmul_weight_lem t n_nodes m d k s weight weight0 h small b e q big room =
    let (type, row, height, whole, all, part) = slice_row_matmul_lem t n_nodes m d s h b e in
    let x = block_bytes t in
    let fits = slice_fits m d n_nodes k x whole q in
    let few = few_bytes t m d b in
    let size : s.slice_size.n_bytes ≡ d / n_nodes * m * x = omega (arith, part) in
    rw (size, all)
      (
        slices_tile m d n_nodes k x whole q,
        split_row_matmul_weight-run t m (d / n_nodes) k _ _ s weight weight0 h type row height
            (slice_offset m d n_nodes k x whole q small few) refl (omega (arith, fits, all, big))
            (omega (arith, size, room)) (omega (arith, fits, few)),
      )
