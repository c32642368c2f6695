-- ===== src/Core/Split/Columns.antt =====
-- The loop of splitColMatmulWeight (src/nn/nn-core.cpp) and the bytes that it copies.
use distributed_llama.Base.{
  ℕ, suc, ◌+◌, ◌*◌, ◌/◌, ◌%◌, ◌^◌, ◌≤◌, ◌<◌, ◌≡◌, ◌≢◌, refl, ap, subst, ◌∙◌, inl, inr, arith, ltb,
  ltb→lt, Bool-cases, ok,
}
use distributed_llama.Base.Numbers.{mul_mono, mul_mono_left, runs_fit}
use distributed_llama.Base.Buffer.{Buffer, memcpy_ok}
use distributed_llama.Base.Loops.{for_range, for_range_ok}
use distributed_llama.Quants.{NnFloatType, f_unk, f_32, f_16, f_q40, f_q80}
use distributed_llama.Core.Sizes.{block_size, block_bytes, get_block_size_lem, get_bytes-block_size}
use distributed_llama.Core.Slices.{NnColMatmulSlice, slice_col_matmul}
use distributed_llama.Core.Slices.Tiles.{slice_col_matmul_lem}
use distributed_llama.Core.Split.{Copy, copy_bytes, split_col_matmul_weight}

-- In each of the first `d` rows of the target are the `row0` bytes at `offset` of the weight's row.
record Columns (weight : Buffer) (offset row row0 size d : ℕ) (c : Copy) : Type 0 where
  count : c.copied ≡ row0 * d
  whole : c.target.size ≡ size
  same :
      (e i : ℕ)
      → e < d
      → i < row0
      → c.target.byte (row0 * e + i) ≡ weight.byte (row * e + offset + i)

module _ (weight : Buffer) (offset row row0 size top : ℕ)
    (room : (d : ℕ) → d < top → row * d + offset + row0 ≤ weight.size) (space : row0 * top ≤ size)
    (small : row0 * top < 2 ^ 64) where
  row_fits : (d : ℕ) → d < top → row0 * d + row0 ≤ row0 * top
  row_fits d h = omega (arith, mul_mono row0 (suc d) top h)

  copy_row :
      (d to from : ℕ) (c : Copy)
      → d < top
      → to ≡ row0 * d
      → from ≡ row * d + offset
      → Columns weight offset row row0 size d c
      → (c' : Copy) × (copy_bytes weight c to from row0 ≡ ok c')
        × Columns weight offset row row0 size (d + 1) c'
  copy_row d to from c p e f h =
      let fits = row_fits d p in
      let (out, run, keep, new, old) =
        memcpy_ok c.target (row0 * d) weight (row * d + offset) row0 (omega (arith, h.whole, fits))
          (room d p) in
      rw (e, f)
        (
          record { target = out; copied = (c.copied + row0) % 2 ^ 64 },
          rw run,
          record {
            count = omega (arith, h.count, fits);
            whole = keep ∙ h.whole;
            same = agree out new old;
          },
        )
    where
      agree :
          (out : Buffer)
          → ((i : ℕ) → i < row0 → out.byte (row0 * d + i) ≡ weight.byte (row * d + offset + i))
          → ((i : ℕ) → i < row0 * d → out.byte i ≡ c.target.byte i)
          → (e i : ℕ) → e < d + 1
          → i < row0
          → out.byte (row0 * e + i) ≡ weight.byte (row * e + offset + i)
      agree out new old e i q r = elim (Bool-cases (ltb e d)) [
        | inl before ↦
            let b = ltb→lt _ _ before in
            old (row0 * e + i) (omega (arith, mul_mono row0 (suc e) d b)) ∙ h.same e i b r
        | inr after ↦
            let last : d ≡ e = ground arith in
            subst (λ v. out.byte (row0 * v + i) ≡ weight.byte (row * v + offset + i)) last (new i r)
      ]

  -- All rows, into a fresh target.
  copy_rows :
      (weight0 : Buffer)
      → weight0.size ≡ size
      → ((d : ℕ) → d < top → row * d + offset < 2 ^ 64)
      → (c : Copy) × (for_range top 0
            (λ d c. copy_bytes weight c (row0 * d % 2 ^ 64) ((row * d + offset) % 2 ^ 64) row0)
            (record { target = weight0; copied = 0 })
          ≡ ok c)
        × Columns weight offset row row0 size top c
  copy_rows weight0 e near =
      for_range_ok (Columns weight offset row row0 size) _ top
        (λ d c p h. copy_row d _ _ c p (omega (arith, row_fits d p)) (omega (arith, near d p)) h)
        top 0 _ (omega arith)
        (record { count = omega arith; whole = e; same = λ e i h. absurd (omega arith) })

module _ (t : NnFloatType) (known : t ≢ f_unk) (m n_nodes k d r rows : ℕ) (s : NnColMatmulSlice)
    (type : s.type ≡ t) (row : s.n ≡ m * n_nodes * block_size t) (row0 : s.n0 ≡ m * block_size t)
    (height : s.d ≡ d) (run_bytes : m * block_bytes t ≡ r)
    (row_bytes : m * n_nodes * block_bytes t ≡ rows) (weight weight0 : Buffer) where
  -- The splitter as one loop.
  split_col_matmul_weight-loop :
      (c : Copy) (offset : ℕ)
      → k * r % 2 ^ 64 ≡ offset
      → for_range d 0
          (λ d c. copy_bytes weight c (r * d % 2 ^ 64) ((rows * d + offset) % 2 ^ 64) r)
          (record { target = weight0; copied = 0 })
        ≡ ok c
      → split_col_matmul_weight s k weight weight0 ≡ ok (c.target, c.copied % 2 ^ 32)
  unfolding split_col_matmul_weight
  split_col_matmul_weight-loop c offset e run = rw (
    type,
    get_block_size_lem t known,
    get_bytes-block_size t known,
    row,
    row0,
    height,
    (whole t m).0,
    (whole t m).1,
    (whole t (m * n_nodes)).1,
    run_bytes,
    row_bytes,
    e,
    run,
  )
    where
      whole :
          (t : NnFloatType) (m : ℕ)
          → (m * block_size t % block_size t ≡ 0) × (m * block_size t / block_size t ≡ m)
      whole f_unk m = omega arith
      whole f_32 m = omega arith
      whole f_16 m = omega arith
      whole f_q40 m = omega arith
      whole f_q80 m = omega arith

few_bytes :
    (t : NnFloatType) (m n d : ℕ)
    → m * n * block_size t * d < 2 ^ 32
    → m * n * d * block_bytes t < 2 ^ 64
few_bytes f_unk m n d h = omega arith
few_bytes f_32 m n d h = omega arith
few_bytes f_16 m n d h = omega arith
few_bytes f_q40 m n d h = omega arith
few_bytes f_q80 m n d h = omega arith

-- Row `e` of the weight has `n` runs of `r` bytes; run `k` ends within the `d` rows.
run_fits : (e d k n r : ℕ) → e < d → k < n → n * r * e + k * r + r ≤ n * r * d
run_fits e d k n r p q = omega (arith, mul_mono (n * r) (suc e) d p, runs_fit k n r q)

-- The splitter on plain numbers.
split_col_matmul_weight-run :
    (t : NnFloatType) (m n d k r len : ℕ) (s : NnColMatmulSlice) (weight weight0 : Buffer)
    → t ≢ f_unk
    → s.type ≡ t
    → s.n ≡ m * n * block_size t
    → s.n0 ≡ m * block_size t
    → s.d ≡ d
    → k < n
    → m * block_bytes t ≡ r
    → r * d ≡ len
    → n * r * d ≤ weight.size
    → len ≤ weight0.size
    → n * r * d < 2 ^ 64
    → k * r < 2 ^ 64
    → (out : Buffer) × (split_col_matmul_weight s k weight weight0 ≡ ok (out, len % 2 ^ 32))
      × (out.size ≡ weight0.size)
      × ((e i : ℕ) → e < d → i < r → out.byte (r * e + i) ≡ weight.byte (n * r * e + k * r + i))
split_col_matmul_weight-run t m n d k r len s weight weight0 h type row row0 height q er el a b w
      v =
    let (c, run, copied) =
      copy_rows weight (k * r) (n * r) r weight0.size d
        (λ e p. omega (arith, run_fits e d k n r p q, a)) (rw el b) (rw el short) weight0 refl
        (λ e p. omega (arith, run_fits e d k n r p q, w)) in
    (
      c.target,
      split_col_matmul_weight-loop t h m n k d r (n * r) s type row row0 height er
            (omega (arith, ap (λ (v : ℕ). n * v) er)) weight weight0 c (k * r) (omega arith) run
          ∙ ap (λ v. ok (c.target, v % 2 ^ 32)) (copied.count ∙ el),
      copied.whole,
      copied.same,
    )
  where
    short : len < 2 ^ 64
    short = omega (arith, mul_mono_left 1 n (r * d) (omega arith), el, w)

-- For rows of whole blocks on every node, a size below 2 ^ 32 and buffers that are large enough,
-- the column splitter succeeds: the slice of node `node_index` has, row after row, the
-- `node_index`th of the equal runs of bytes into which the nodes divide the row, and the slices of
-- all nodes have the bytes of the whole weight.
pub split_col_matmul_weight_lem :
    (t : NnFloatType) (n_nodes m d node_index : ℕ) (s : NnColMatmulSlice) (weight weight0 : Buffer)
    → t ≢ f_unk
    → m * n_nodes * block_size t < 2 ^ 32
    → m * n_nodes * block_size t * d < 2 ^ 32
    → slice_col_matmul t n_nodes (m * n_nodes * block_size t) d ≡ ok s
    → node_index < n_nodes
    → s.size.n_bytes ≤ weight.size
    → s.slice_size.n_bytes ≤ weight0.size
    → let run = m * block_bytes t in
      (n_nodes * s.slice_size.n_bytes ≡ s.size.n_bytes)
      × (s.slice_size.n_bytes ≡ run * d)
      × ((out : Buffer) × (split_col_matmul_weight s node_index weight weight0
            ≡ ok (out, s.slice_size.n_bytes % 2 ^ 32))
          × (out.size ≡ weight0.size)
          × ((e i : ℕ)
              → e < d
              → i < run
              → out.byte (run * e + i) ≡ weight.byte (n_nodes * run * e + node_index * run + i)))
split_col_matmul_weight_lem t n m d k s weight weight0 h small b e q big room =
    let (type, row, row0, height, all, part) = slice_col_matmul_lem t n m d s h (omega arith) b e in
    let r = m * block_bytes t in
    let few = few_bytes t m n d b in
    let size : s.slice_size.n_bytes ≡ r * d = omega (arith, part) in
    simp (size, all)
      (
        omega arith,
        refl,
        split_col_matmul_weight-run t m n d k r _ s weight weight0 h type row row0 height q refl
            refl (omega (arith, all, big)) (omega (arith, size, room)) (omega (arith, few))
            (omega
              (arith, few_bytes t m n 1 (omega (arith, small)), mul_mono_left k n r (omega arith))),
      )
