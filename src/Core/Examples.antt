-- ===== src/Core/Examples.antt =====
-- Slices of a small weight of Q40 numbers, and the kernel of an operation.
use distributed_llama.Base.{
  ℕ, ◌+◌, ◌*◌, ◌%◌, ◌^◌, ◌≤◌, ◌<◌, ◌≡◌, ◌≢◌, ◌↔◌, refl, arith, if◌then◌else◌, ok,
}
use distributed_llama.Base.Buffer.{Buffer}
use distributed_llama.Quants.{f_unk, f_32, f_q40, f_q80}
use distributed_llama.Core.Sizes.{NnSize2D, size_2d, get_bytes}
use distributed_llama.Core.OpQuant.{
  get_op_quant_type, get_op_quant_type_iff, formats, ◌is◌, q80_q40_f32,
}
use distributed_llama.Core.Slices.{
  NnRowMatmulSlice, NnColMatmulSlice, NnRopeSlice, slice_row_matmul, slice_col_matmul, slice_rope,
}
use distributed_llama.Core.Slices.Tiles.{slice_rope_covers}
use distributed_llama.Core.Split.{split_row_matmul_weight, split_col_matmul_weight}
use distributed_llama.Core.Split.Rows.{split_row_matmul_weight_lem}
use distributed_llama.Core.Split.Columns.{split_col_matmul_weight_lem}
use distributed_llama.Base.{[], ◌∷◌, some, get_elem?, ok}
use distributed_llama.Core.Sizes.{size0}
use distributed_llama.Core.Config.{NnNetConfig}
use distributed_llama.Core.Builder.{
  NnNetConfigBuilder, clone_string, add_pipe, with_pipe, build_net, add_pipe-build,
}

-- A weight of 4 rows of 64 numbers, cut for two nodes.
abbrev weight : Buffer
weight = record { size = 144; byte = λ i. i }

abbrev weight0 : Buffer
weight0 = record { size = 100; byte = λ i. 0 }

abbrev q40_size : ℕ → ℕ → ℕ → ℕ → NnSize2D
q40_size y x length n_bytes = record {
  float_type = f_q40;
  y = y;
  x = x;
  length = length;
  n_bytes = n_bytes;
}

no_unk : f_q40 ≢ f_unk
no_unk e = ground arith

abbrev row_slice : NnRowMatmulSlice
row_slice = record {
  type = f_q40;
  n_nodes = 2;
  d0 = 2;
  n = 64;
  size = q40_size 64 4 256 144;
  slice_size = q40_size 64 2 128 72;
}

row_slice_ok : slice_row_matmul f_q40 2 (2 * 32) 4 ≡ ok row_slice
unfolding slice_row_matmul size_2d get_bytes
row_slice_ok = refl

split_row_matmul_weight_lem_example :
    (2 * 72 ≡ 144)
    × ((out : Buffer) × (split_row_matmul_weight row_slice 1 weight weight0 ≡ ok (out, 72 % 2 ^ 32))
        × (out.size ≡ 100)
        × ((i : ℕ) → i < 72 → out.byte i ≡ 1 * 72 + i))
split_row_matmul_weight_lem_example =
    split_row_matmul_weight_lem f_q40 2 2 4 1 row_slice weight weight0 no_unk (omega arith)
      (omega arith) row_slice_ok (omega arith) (omega arith) (omega arith)

abbrev col_slice : NnColMatmulSlice
col_slice = record {
  type = f_q40;
  n_nodes = 2;
  n = 64;
  n0 = 32;
  d = 4;
  size = q40_size 64 4 256 144;
  slice_size = q40_size 32 4 128 72;
}

col_slice_ok : slice_col_matmul f_q40 2 (1 * 2 * 32) 4 ≡ ok col_slice
unfolding slice_col_matmul size_2d get_bytes
col_slice_ok = refl

split_col_matmul_weight_lem_example :
    (2 * 72 ≡ 144)
    × (72 ≡ 1 * 18 * 4)
    × ((out : Buffer) × (split_col_matmul_weight col_slice 1 weight weight0 ≡ ok (out, 72 % 2 ^ 32))
        × (out.size ≡ 100)
        × ((e i : ℕ)
            → e < 4
            → i < 1 * 18
            → out.byte (1 * 18 * e + i) ≡ 2 * (1 * 18) * e + 1 * (1 * 18) + i))
split_col_matmul_weight_lem_example =
    split_col_matmul_weight_lem f_q40 2 1 4 1 col_slice weight weight0 no_unk (omega arith)
      (omega arith) col_slice_ok (omega arith) (omega arith) (omega arith)

abbrev rope_slice : NnRopeSlice
rope_slice = record {
  q_dim0 = 64;
  q_dim_start = 64;
  q_dim_end = 128;
  q_shift = 48;
  kv_dim = 32;
  kv_dim0 = 16;
  kv_dim_start = 16;
  slice_dim = 112;
  seq_len = 10;
  head_size = 16;
  n_kv_heads = 2;
  cache_size = record { float_type = f_32; y = 10; x = 112; length = 1120; n_bytes = 4480 };
}

rope_slice_ok : slice_rope 128 32 2 2 10 16 1 ≡ ok rope_slice
unfolding slice_rope size_2d get_bytes
rope_slice_ok = refl

slice_rope_covers_example :
    (rope_slice.q_dim_start ≡ 1 * rope_slice.q_dim0)
    × (rope_slice.q_dim_end ≡ rope_slice.q_dim_start + rope_slice.q_dim0)
    × (2 * rope_slice.q_dim0 ≡ 128)
    × (rope_slice.kv_dim_start ≡ 1 * rope_slice.kv_dim0)
    × (2 * rope_slice.kv_dim0 ≡ 32)
    × (rope_slice.kv_dim_start + rope_slice.q_shift ≡ rope_slice.q_dim_start)
    × (rope_slice.q_shift + rope_slice.q_dim0 ≡ rope_slice.slice_dim)
    × (rope_slice.kv_dim0 ≤ rope_slice.slice_dim)
slice_rope_covers_example =
    slice_rope_covers 128 32 2 2 10 16 1 rope_slice (omega arith) (omega arith) rope_slice_ok

get_op_quant_type_iff_example :
    (get_op_quant_type f_q80 f_q40 f_32 ≡ ok q80_q40_f32)
    ↔ (formats q80_q40_f32 ≡ (f_q80, (if f_q40 is f_unk then f_q80 else f_q40), f_32))
get_op_quant_type_iff_example = get_op_quant_type_iff f_q80 f_q40 f_32 q80_q40_f32

-- A network with one pipe, to which two are added.
abbrev net_builder : NnNetConfigBuilder
net_builder = record {
  n_nodes = 2;
  n_batches = 4;
  pipes = record { name = 120 ∷ 0 ∷ []; size = size0 } ∷ [];
  pre_syncs = [];
}

add_pipe-build_example :
    (config : NnNetConfig) × (build_net
        (with_pipe (121 ∷ 0 ∷ []) size0 ((122 ∷ 0 ∷ [], size0) ∷ []) net_builder)
      ≡ ok config)
    × (get_elem? config.pipes (add_pipe (121 ∷ 0 ∷ []) size0 net_builder).0
        ≡ some (record { name = clone_string (121 ∷ 0 ∷ []); size = size0 }))
add_pipe-build_example =
    add_pipe-build (121 ∷ 0 ∷ []) size0 net_builder ((122 ∷ 0 ∷ [], size0) ∷ [])
      (unfold add_pipe in omega arith) (unfold add_pipe in omega arith)
