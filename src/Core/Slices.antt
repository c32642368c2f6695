-- ===== src/Core/Slices.antt =====
-- The slicers: which part of a tensor each node holds. `n_nodes` is at least 1; 32-bit products wrap.
pub mod Tiles
use distributed_llama.Base.{
  ℕ, ◌+◌, ◌-◌, ◌*◌, ◌/◌, ◌%◌, ◌^◌, ◌≤◌, ◌<◌, ◌≡◌, arith, leb, ◌==◌, Result, ok, err, guard, ◌>>=◌,
  ◌>>◌, assertion,
}
use distributed_llama.Quants.{NnFloatType, f_32}
use distributed_llama.Core.Sizes.{NnSize2D, size_2d}

pub record NnKvCacheSlice : Type 0 where
  pub kv_dim0 : ℕ
  pub key_size : NnSize2D
  pub value_size : NnSize2D

pub record NnRowMatmulSlice : Type 0 where
  pub type : NnFloatType
  pub n_nodes : ℕ
  pub d0 : ℕ
  pub n : ℕ
  pub size : NnSize2D
  pub slice_size : NnSize2D

pub record NnColMatmulSlice : Type 0 where
  pub type : NnFloatType
  pub n_nodes : ℕ
  pub n : ℕ
  pub n0 : ℕ
  pub d : ℕ
  pub size : NnSize2D
  pub slice_size : NnSize2D

-- Without `ropeTheta`, a float that no slicer computes with.
pub record NnRopeSlice : Type 0 where
  pub q_dim0 : ℕ
  pub q_dim_start : ℕ
  pub q_dim_end : ℕ
  pub q_shift : ℕ
  pub kv_dim : ℕ
  pub kv_dim0 : ℕ
  pub kv_dim_start : ℕ
  pub slice_dim : ℕ
  pub seq_len : ℕ
  pub head_size : ℕ
  pub n_kv_heads : ℕ
  pub cache_size : NnSize2D

pub record NnMultiHeadAttSlice : Type 0 where
  pub n_heads : ℕ
  pub n_heads0 : ℕ
  pub att_size : NnSize2D

unfoldable pub slice_kv_cache : ℕ → ℕ → ℕ → Result NnKvCacheSlice
slice_kv_cache kv_dim seq_len n_nodes = do
  guard (kv_dim % n_nodes == 0) assertion
  let kv_dim0 = kv_dim / n_nodes
  key_size ← size_2d f_32 seq_len kv_dim0
  value_size ← size_2d f_32 seq_len kv_dim0
  ok (record { kv_dim0 = kv_dim0; key_size = key_size; value_size = value_size })

unfoldable pub slice_row_matmul : NnFloatType → ℕ → ℕ → ℕ → Result NnRowMatmulSlice
slice_row_matmul type n_nodes n d = do
  guard (d % n_nodes == 0) assertion
  let d0 = d / n_nodes
  size ← size_2d type n d
  slice_size ← size_2d type n d0
  ok (record {
    type = type;
    n_nodes = n_nodes;
    d0 = d0;
    n = n;
    size = size;
    slice_size = slice_size;
  })

unfoldable pub slice_col_matmul : NnFloatType → ℕ → ℕ → ℕ → Result NnColMatmulSlice
slice_col_matmul type n_nodes n d = do
  guard (n % n_nodes == 0) assertion
  let n0 = n / n_nodes
  size ← size_2d type n d
  slice_size ← size_2d type n0 d
  ok (record {
    type = type;
    n_nodes = n_nodes;
    n = n;
    n0 = n0;
    d = d;
    size = size;
    slice_size = slice_size;
  })

unfoldable pub slice_rope : ℕ → ℕ → ℕ → ℕ → ℕ → ℕ → ℕ → Result NnRopeSlice
slice_rope dim kv_dim n_kv_heads n_nodes seq_len head_size node_index = do
  guard (leb kv_dim dim) assertion
  guard (dim % n_nodes == 0) assertion
  guard (kv_dim % n_nodes == 0) assertion
  let q_dim0 = dim / n_nodes
  let kv_dim0 = kv_dim / n_nodes
  guard (q_dim0 % 2 == 0) assertion
  guard (kv_dim0 % 2 == 0) assertion
  let kv_dim_start = kv_dim0 * node_index % 2 ^ 32
  let q_dim_start = q_dim0 * node_index % 2 ^ 32
  let q_dim_end = (q_dim_start + q_dim0) % 2 ^ 32
  let q_shift = (q_dim_start + 2 ^ 32 - kv_dim_start) % 2 ^ 32
  let slice_dim = (q_dim_end + 2 ^ 32 - kv_dim_start) % 2 ^ 32
  guard (slice_dim % 2 == 0) assertion
  cache_size ← size_2d f_32 seq_len slice_dim
  ok (record {
    q_dim0 = q_dim0;
    q_dim_start = q_dim_start;
    q_dim_end = q_dim_end;
    q_shift = q_shift;
    kv_dim = kv_dim;
    kv_dim0 = kv_dim0;
    kv_dim_start = kv_dim_start;
    slice_dim = slice_dim;
    seq_len = seq_len;
    head_size = head_size;
    n_kv_heads = n_kv_heads;
    cache_size = cache_size;
  })

unfoldable pub slice_multi_head_att : ℕ → ℕ → ℕ → ℕ → Result NnMultiHeadAttSlice
slice_multi_head_att n_heads seq_len n_nodes n_batches = do
  guard (n_heads % n_nodes == 0) assertion
  let n_heads0 = n_heads / n_nodes
  att_size ← size_2d f_32 n_batches (n_heads0 * seq_len % 2 ^ 32)
  ok (record { n_heads = n_heads; n_heads0 = n_heads0; att_size = att_size })
