-- ===== src/Core/Slices/Tiles.antt =====
-- The slices of all nodes together (the slicers of src/nn/nn-core.cpp).
use distributed_llama.Base.{ℕ, ◌+◌, ◌*◌, ◌/◌, ◌%◌, ◌^◌, ◌≤◌, ◌<◌, ◌≡◌, ◌≢◌, arith, ok}
use distributed_llama.Base.Numbers.{
  mul_mono, mul_mono_left, div_mono, div-mul_exact, mul-div_self, le-mul_pos, runs_fit,
}
use distributed_llama.Quants.{NnFloatType, f_unk}
use distributed_llama.Core.Sizes.{block_bytes, block_size, size_2d-blocks}
use distributed_llama.Core.Slices.{
  NnRowMatmulSlice, NnColMatmulSlice, NnRopeSlice, slice_row_matmul, slice_col_matmul, slice_rope,
}

-- What a successful slicing returns, for rows that are whole numbers of blocks.
pub slice_row_matmul_lem :
    (t : NnFloatType) (n_nodes m d : ℕ) (s : NnRowMatmulSlice)
    → t ≢ f_unk
    → m * block_size t * d < 2 ^ 32
    → slice_row_matmul t n_nodes (m * block_size t) d ≡ ok s
    → (s.type ≡ t)
      × (s.n ≡ m * block_size t)
      × (s.d0 ≡ d / n_nodes)
      × (d % n_nodes ≡ 0)
      × (s.size.n_bytes ≡ m * d * block_bytes t)
      × (s.slice_size.n_bytes ≡ m * (d / n_nodes) * block_bytes t)
unfolding slice_row_matmul
slice_row_matmul_lem t n_nodes m d s h b e = ground (
  arith,
  size_2d-blocks t m d h b,
  size_2d-blocks t m (d / n_nodes) h (smaller (m * block_size t) d n_nodes b),
)
  where
    smaller : (x d n : ℕ) → x * d < 2 ^ 32 → x * (d / n) < 2 ^ 32
    smaller x d n b = grind (arith, mul_mono x (d / n) d)

pub slice_col_matmul_lem :
    (t : NnFloatType) (n_nodes m d : ℕ) (s : NnColMatmulSlice)
    → t ≢ f_unk
    → 0 < n_nodes
    → m * n_nodes * block_size t * d < 2 ^ 32
    → slice_col_matmul t n_nodes (m * n_nodes * block_size t) d ≡ ok s
    → (s.type ≡ t)
      × (s.n ≡ m * n_nodes * block_size t)
      × (s.n0 ≡ m * block_size t)
      × (s.d ≡ d)
      × (s.size.n_bytes ≡ m * n_nodes * d * block_bytes t)
      × (s.slice_size.n_bytes ≡ m * d * block_bytes t)
unfolding slice_col_matmul
slice_col_matmul_lem t k m d s h p b e = ground (
  arith,
  size_2d-blocks t (m * k) d h b,
  size_2d-blocks t m d h (omega (arith, fewer t m k d p)),
  regroup m k (block_size t) d,
  mul-div_self (m * block_size t) k p,
)
  where
    regroup : (m k x d : ℕ) → m * k * x ≡ m * x * k
    regroup m k x d = omega arith

    fewer : (t : NnFloatType) (m k d : ℕ) → 0 < k → m * block_size t * d ≤ m * k * block_size t * d
    fewer t m k d p = omega (arith, le-mul_pos (m * block_size t * d) k p)

slice_rope-queries :
    (dim kv_dim n_kv_heads n_nodes seq_len head_size node_index : ℕ) (s : NnRopeSlice)
    → dim < 2 ^ 32
    → node_index < n_nodes
    → slice_rope dim kv_dim n_kv_heads n_nodes seq_len head_size node_index ≡ ok s
    → (s.q_dim_start ≡ node_index * s.q_dim0)
      × (s.q_dim_end ≡ s.q_dim_start + s.q_dim0)
      × (n_nodes * s.q_dim0 ≡ dim)
      × (s.kv_dim_start + s.q_shift ≡ s.q_dim_start)
      × (s.q_shift + s.q_dim0 ≡ s.slice_dim)
      × (s.kv_dim0 ≤ s.slice_dim)
unfolding slice_rope
slice_rope-queries dim kv_dim h n_nodes l hs k s b p e = ground (
  arith,
  div-mul_exact dim n_nodes,
  runs_fit k n_nodes (dim / n_nodes) p,
  div_mono kv_dim dim n_nodes (omega arith),
  mul_mono_left (kv_dim / n_nodes) (dim / n_nodes) k,
)

slice_rope-keys :
    (dim kv_dim n_kv_heads n_nodes seq_len head_size node_index : ℕ) (s : NnRopeSlice)
    → dim < 2 ^ 32
    → node_index < n_nodes
    → slice_rope dim kv_dim n_kv_heads n_nodes seq_len head_size node_index ≡ ok s
    → (s.kv_dim_start ≡ node_index * s.kv_dim0) × (n_nodes * s.kv_dim0 ≡ kv_dim)
unfolding slice_rope
slice_rope-keys dim kv_dim h n_nodes l hs k s b p e =
    ground (arith, div-mul_exact kv_dim n_nodes, runs_fit k n_nodes (kv_dim / n_nodes) p)

-- For a dimension below 2 ^ 32 a successful slicing gives each node the query dimensions behind
-- those of the nodes before it, the parts of all nodes make up the dimension, and likewise for the
-- key dimensions; the rows of the cache begin at the key dimensions of the node, hold its query
-- dimensions from the shift to the end, and are no shorter than its key dimensions.
pub slice_rope_covers :
    (dim kv_dim n_kv_heads n_nodes seq_len head_size node_index : ℕ) (s : NnRopeSlice)
    → dim < 2 ^ 32
    → node_index < n_nodes
    → slice_rope dim kv_dim n_kv_heads n_nodes seq_len head_size node_index ≡ ok s
    → (s.q_dim_start ≡ node_index * s.q_dim0)
      × (s.q_dim_end ≡ s.q_dim_start + s.q_dim0)
      × (n_nodes * s.q_dim0 ≡ dim)
      × (s.kv_dim_start ≡ node_index * s.kv_dim0)
      × (n_nodes * s.kv_dim0 ≡ kv_dim)
      × (s.kv_dim_start + s.q_shift ≡ s.q_dim_start)
      × (s.q_shift + s.q_dim0 ≡ s.slice_dim)
      × (s.kv_dim0 ≤ s.slice_dim)
slice_rope_covers dim kv_dim h n_nodes l hs k s b p e =
    let (start, end, all, shift, whole, room) =
      slice_rope-queries dim kv_dim h n_nodes l hs k s b p e in
    let (key_start, keys) = slice_rope-keys dim kv_dim h n_nodes l hs k s b p e in
    (start, end, all, key_start, keys, shift, whole, room)
