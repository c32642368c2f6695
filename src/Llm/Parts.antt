-- ===== src/Llm/Parts.antt =====
-- The first part of buildLlmNet: the slices of the weights, and the pipes of the network.
use distributed_llama.Base.{ℕ, ◌*◌, ◌%◌, ◌^◌, Result, ok, ◌>>=◌}
use distributed_llama.Base.Strings.{c_string}
use distributed_llama.Quants.{f_32}
use distributed_llama.Core.Sizes.{NnSize2D, size_1d, size_2d}
use distributed_llama.Core.Slices.{
  NnKvCacheSlice, NnMultiHeadAttSlice, NnRowMatmulSlice, NnColMatmulSlice, slice_kv_cache,
  slice_multi_head_att, slice_row_matmul, slice_col_matmul,
}
use distributed_llama.Core.Config.{NnNetConfig}
use distributed_llama.Core.Builder.{new_net_builder, add_pipe, add_pre_sync, build_net}
use distributed_llama.Llm.{LlmHeader}

-- What the loop over the nodes reads: LlmNet without the configurations of the nodes, and the
-- local variables of buildLlmNet.
pub record LlmParts : Type 0 where
  pub net_config : NnNetConfig
  pub kv_cache_slice : NnKvCacheSlice
  pub multi_head_att_slice : NnMultiHeadAttSlice
  pub q_slice : NnRowMatmulSlice
  pub k_slice : NnRowMatmulSlice
  pub v_slice : NnRowMatmulSlice
  pub wo_slice : NnColMatmulSlice
  pub w1_slice : NnRowMatmulSlice
  pub w2_slice : NnColMatmulSlice
  pub w3_slice : NnRowMatmulSlice
  pub wcls_slice : NnRowMatmulSlice
  pub position_pipe_index : ℕ
  pub token_pipe_index : ℕ
  pub x_pipe_index : ℕ
  pub logits_pipe_index : ℕ
  pub zq_pipe_index : ℕ
  pub token_embedding_size : NnSize2D
  pub rms_norm_size : NnSize2D

unfoldable pub build_parts : LlmHeader → ℕ → ℕ → Result LlmParts
build_parts h n_nodes n_batches = do
  token_embedding_size ← size_2d f_32 h.vocab_size h.dim
  rms_norm_size ← size_1d f_32 h.dim
  kv_cache_slice ← slice_kv_cache h.kv_dim h.seq_len n_nodes
  multi_head_att_slice ← slice_multi_head_att h.n_heads h.seq_len n_nodes n_batches
  q_slice ← slice_row_matmul h.weight_type n_nodes h.dim h.dim
  k_slice ← slice_row_matmul h.weight_type n_nodes h.dim h.kv_dim
  v_slice ← slice_row_matmul h.weight_type n_nodes h.dim h.kv_dim
  wo_slice ← slice_col_matmul h.weight_type n_nodes h.dim h.dim
  w1_slice ← slice_row_matmul h.weight_type n_nodes h.dim h.hidden_dim
  w2_slice ← slice_col_matmul h.weight_type n_nodes h.hidden_dim h.dim
  w3_slice ← slice_row_matmul h.weight_type n_nodes h.dim h.hidden_dim
  wcls_slice ← slice_row_matmul h.weight_type n_nodes h.dim h.vocab_size
  position_size ← size_2d f_32 n_batches 1
  token_size ← size_2d f_32 n_batches 1
  x_size ← size_2d f_32 n_batches h.dim
  logits_size ← size_2d f_32 n_batches h.vocab_size
  zq_size ← size_2d h.sync_type n_batches (h.dim * n_nodes % 2 ^ 32)
  let (position, b1) = add_pipe (c_string "POS") position_size (new_net_builder n_nodes n_batches)
  let (token, b2) = add_pipe (c_string "TOK") token_size b1
  let (x, b3) = add_pipe (c_string "X") x_size b2
  let (logits, b4) = add_pipe (c_string "LG") logits_size b3
  let (zq, b5) = add_pipe (c_string "ZQ") zq_size b4
  net_config ← build_net (add_pre_sync position b5)
  ok (record {
    net_config = record net_config { n_slots = h.slots };
    kv_cache_slice = kv_cache_slice;
    multi_head_att_slice = multi_head_att_slice;
    q_slice = q_slice;
    k_slice = k_slice;
    v_slice = v_slice;
    wo_slice = wo_slice;
    w1_slice = w1_slice;
    w2_slice = w2_slice;
    w3_slice = w3_slice;
    wcls_slice = wcls_slice;
    position_pipe_index = position;
    token_pipe_index = token;
    x_pipe_index = x;
    logits_pipe_index = logits;
    zq_pipe_index = zq;
    token_embedding_size = token_embedding_size;
    rms_norm_size = rms_norm_size;
  })
