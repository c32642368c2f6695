-- ===== src/Llm/Supported.antt =====
-- Which models buildLlmNet takes, on how many nodes: what its slicers and its sizes ask for.
use distributed_llama.Base.{
  ℕ, ◌*◌, ◌/◌, ◌%◌, ◌^◌, ◌≤◌, ◌<◌, ◌≡◌, ◌≢◌, refl, ap, subst, arith, ◌⊎◌, inl, inr, true, ◌==◌,
  ==_iff, ok,
}
use native.Mathlib.Nat.{mul_comm}
use distributed_llama.Base.Numbers.{div-mul_exact, le-mul_pos}
use distributed_llama.Quants.{
  NnFloatType, f_unk, f_32, f_16, f_q40, f_q80, q40_block_size, q80_block_size,
}
use distributed_llama.Core.Sizes.{NnSize2D, block_size, get_bytes, size_2d}
use distributed_llama.Core.Slices.{
  NnRowMatmulSlice, NnColMatmulSlice, slice_row_matmul, slice_col_matmul,
}
use distributed_llama.Core.OpQuant.{get_op_quant_type}
use distributed_llama.Cpu.Kernels.{get_cpu_op_forward}
use distributed_llama.Cpu.Resolves.{HasBytes, size_2d_ok}
use distributed_llama.Llm.{LlmHeader}
use distributed_llama.Llm.Layout.{HasKernels, HasBlocks}

-- The formats of the weights and of the synchronization: floats, or the blocks of both.
abbrev pub Formats : NnFloatType → NnFloatType → Type 0
Formats weight sync = ((weight ≡ f_32) × (sync ≡ f_32)) ⊎ ((weight ≡ f_q40) × (sync ≡ f_q80))

-- The dimensions are divided by the nodes into whole blocks, those of the heads into pairs.
pub record IsSupported (h : LlmHeader) (nodes : ℕ) : Type 0 where
  pub formats : Formats h.weight_type h.sync_type
  pub positive : 0 < nodes
  pub dim_divides : h.dim % nodes ≡ 0
  pub kv_dim_divides : h.kv_dim % nodes ≡ 0
  pub heads_divide : h.n_heads % nodes ≡ 0
  pub hidden_divides : h.hidden_dim % nodes ≡ 0
  pub vocab_divides : h.vocab_size % nodes ≡ 0
  pub dim_blocks : (h.dim / nodes) % block_size h.sync_type ≡ 0
  pub hidden_blocks : (h.hidden_dim / nodes) % block_size h.sync_type ≡ 0
  pub kv_dim_le : h.kv_dim ≤ h.dim
  pub dim_pairs : (h.dim / nodes) % 2 ≡ 0
  pub kv_dim_pairs : (h.kv_dim / nodes) % 2 ≡ 0
  pub dim_fits : h.dim * nodes < 2 ^ 32

pub kernels_of : {weight sync : NnFloatType} → Formats weight sync → HasKernels sync weight
unfolding get_op_quant_type get_cpu_op_forward
kernels_of (inl (w, s)) =
    rw (w, s)
      (record {
        cast_quant = _;
        cast_forward = _;
        cast_quant_is = refl;
        cast_forward_is = refl;
        merge_quant = _;
        merge_forward = _;
        merge_quant_is = refl;
        merge_forward_is = refl;
        matmul_quant = _;
        matmul_forward = _;
        matmul_quant_is = refl;
        matmul_forward_is = refl;
      })
kernels_of (inr (w, s)) =
    rw (w, s)
      (record {
        cast_quant = _;
        cast_forward = _;
        cast_quant_is = refl;
        cast_forward_is = refl;
        merge_quant = _;
        merge_forward = _;
        merge_quant_is = refl;
        merge_forward_is = refl;
        matmul_quant = _;
        matmul_forward = _;
        matmul_quant_is = refl;
        matmul_forward_is = refl;
      })

times_32 : (x k : ℕ) → x % 32 ≡ 0 → x * k % 32 ≡ 0
times_32 x k e =
    let same : x ≡ x / 32 * 32 = omega arith in omega (arith, ap (λ (y : ℕ). y * k) same)

-- A whole number of blocks, and its multiples.
pub whole-HasBytes : (t : NnFloatType) (m : ℕ) → t ≢ f_unk → m % block_size t ≡ 0 → HasBytes t m
unfolding get_bytes
whole-HasBytes f_unk m h e = absurd (h refl)
whole-HasBytes f_32 m h e = (_, refl)
whole-HasBytes f_16 m h e = (_, refl)
whole-HasBytes f_q40 m h e = rw ((==_iff (m % q40_block_size) 0).1 e) (_, refl)
whole-HasBytes f_q80 m h e = rw ((==_iff (m % q80_block_size) 0).1 e) (_, refl)

pub whole_mul : (t : NnFloatType) (x k : ℕ) → x % block_size t ≡ 0 → x * k % block_size t ≡ 0
whole_mul f_unk x k e = omega arith
whole_mul f_32 x k e = omega arith
whole_mul f_16 x k e = omega arith
whole_mul f_q40 x k e = times_32 x k e
whole_mul f_q80 x k e = times_32 x k e

pub whole_wrap : (t : NnFloatType) (x : ℕ) → x % block_size t ≡ 0 → x % 2 ^ 32 % block_size t ≡ 0
whole_wrap f_unk x e = omega arith
whole_wrap f_32 x e = omega arith
whole_wrap f_16 x e = omega arith
whole_wrap f_q40 x e = omega arith
whole_wrap f_q80 x e = omega arith

pub row_ok :
    (t : NnFloatType) (nodes n d : ℕ)
    → t ≢ f_unk
    → n % block_size t ≡ 0
    → d % nodes ≡ 0
    → (s : NnRowMatmulSlice) × (slice_row_matmul t nodes n d ≡ ok s)
      × (s.n ≡ n)
      × (s.d0 ≡ d / nodes)
unfolding slice_row_matmul
row_ok t nodes n d known whole divides =
    let (s, e, _) =
      size_2d_ok t n d (whole-HasBytes t _ known (whole_wrap t (n * d) (whole_mul t n d whole))) in
    let (s0, e0, _) = size_2d_ok t n (d / nodes) (
      whole-HasBytes t _ known
        (whole_wrap t (n * (d / nodes)) (whole_mul t n (d / nodes) whole))) in
    row_of s s0 e e0 ((==_iff (d % nodes) 0).1 divides)
  where
    row_of :
        (s s0 : NnSize2D)
        → size_2d t n d ≡ ok s
        → size_2d t n (d / nodes) ≡ ok s0
        → (d % nodes == 0) ≡ true
        → (r : NnRowMatmulSlice) × (slice_row_matmul t nodes n d ≡ ok r)
          × (r.n ≡ n)
          × (r.d0 ≡ d / nodes)
    row_of s s0 e e0 test = rw (test, e, e0) (_, refl, refl, refl)

pub col_ok :
    (t : NnFloatType) (nodes n d : ℕ)
    → t ≢ f_unk
    → n / nodes % block_size t ≡ 0
    → n % nodes ≡ 0
    → (s : NnColMatmulSlice) × (slice_col_matmul t nodes n d ≡ ok s)
      × (s.n0 ≡ n / nodes)
      × (s.d ≡ d)
unfolding slice_col_matmul
col_ok t nodes n d known whole divides =
    let all : n % block_size t ≡ 0 =
      subst (λ m. m % block_size t ≡ 0) (div-mul_exact n nodes divides)
        (whole_mul t (n / nodes) nodes whole) in
    let (s, e, _) =
      size_2d_ok t n d (whole-HasBytes t _ known (whole_wrap t (n * d) (whole_mul t n d all))) in
    let (s0, e0, _) =
      size_2d_ok t (n / nodes) d (
        whole-HasBytes t _ known
          (whole_wrap t (n / nodes * d) (whole_mul t (n / nodes) d whole))) in
    col_of s s0 e e0 ((==_iff (n % nodes) 0).1 divides)
  where
    col_of :
        (s s0 : NnSize2D)
        → size_2d t n d ≡ ok s
        → size_2d t (n / nodes) d ≡ ok s0
        → (n % nodes == 0) ≡ true
        → (r : NnColMatmulSlice) × (slice_col_matmul t nodes n d ≡ ok r)
          × (r.n0 ≡ n / nodes)
          × (r.d ≡ d)
    col_of s s0 e e0 test = rw (test, e, e0) (_, refl, refl, refl)

module _ (h : LlmHeader) (nodes : ℕ) (good : IsSupported h nodes) where
  pub sync_known : h.sync_type ≢ f_unk
  sync_known e = elim (good.formats) [ inl (w, s) ↦ cc | inr (w, s) ↦ cc ]

  pub weight_known : h.weight_type ≢ f_unk
  weight_known e = elim (good.formats) [ inl (w, s) ↦ cc | inr (w, s) ↦ cc ]

  -- The two formats have blocks of one size.
  pub block_size-weight : block_size h.weight_type ≡ block_size h.sync_type
  block_size-weight = elim (good.formats) [
    | inl (w, s) ↦ rw (w, s) refl
    | inr (w, s) ↦ rw (w, s) refl
  ]

  pub dim_whole : h.dim % block_size h.sync_type ≡ 0
  dim_whole =
      subst (λ m. m % block_size h.sync_type ≡ 0) (div-mul_exact h.dim nodes good.dim_divides)
        (whole_mul h.sync_type (h.dim / nodes) nodes good.dim_blocks)

  pub dim_lt : h.dim < 2 ^ 32
  dim_lt = omega (arith, le-mul_pos h.dim nodes good.positive, good.dim_fits)

  pub blocks_of : (batches : ℕ) → HasBlocks h nodes batches
  blocks_of batches = record {
    row = whole-HasBytes h.sync_type _ sync_known dim_whole;
    row_slice = whole-HasBytes h.sync_type _ sync_known good.dim_blocks;
    hidden_slice = whole-HasBytes h.sync_type _ sync_known good.hidden_blocks;
    all_rows =
        whole-HasBytes h.sync_type _ sync_known (whole_mul h.sync_type h.dim nodes dim_whole);
    batch_rows = whole-HasBytes h.sync_type _ sync_known (
        whole_wrap h.sync_type (batches * h.dim)
          (rw (mul_comm batches h.dim) (whole_mul h.sync_type h.dim batches dim_whole)));
    positive = good.positive;
    dim_lt = dim_lt;
  }
