-- ===== src/Llm/Buffers.antt =====
-- The buffers that buildLlmNet gives every node.
use distributed_llama.Base.{ℕ, List, ◌/◌, if◌then◌else◌, Result, ok, ◌>>=◌}
use distributed_llama.Base.Strings.{c_string}
use distributed_llama.Quants.{f_32}
use distributed_llama.Core.OpQuant.{◌is◌}
use distributed_llama.Core.Sizes.{NnSize2D, size_2d}
use distributed_llama.Core.Slices.{NnRopeSlice}
use distributed_llama.Core.Builder.{NnNodeConfigBuilder, add_buffer}
use distributed_llama.Llm.{LlmHeader}
use distributed_llama.Llm.Parts.{LlmParts}

pub record LlmBuffers : Type 0 where
  pub x_buffer_index : ℕ
  pub y_buffer_index : ℕ
  pub yq_buffer_index : ℕ
  pub yq_slice_index : ℕ
  pub q_buffer_index : ℕ
  pub k_temp_buffer_index : ℕ
  pub v_temp_buffer_index : ℕ
  pub d_buffer_index : ℕ
  pub dq_buffer_index : ℕ
  pub l_buffer_index : ℕ
  pub inv_rms_buffer_index : ℕ
  pub rope_cache_buffer_index : ℕ
  pub att_buffer_index : ℕ
  pub logits_slice_buffer_index : ℕ

-- `addBuffer`, whose size is computed first.
abbrev pub new_buffer :
    List ℕ → Result NnSize2D → NnNodeConfigBuilder → Result (ℕ × NnNodeConfigBuilder)
new_buffer name size b = do s ← size; ok (add_buffer name s b)

unfoldable pub build_buffers :
    LlmHeader
    → ℕ
    → ℕ
    → LlmParts
    → NnRopeSlice
    → NnNodeConfigBuilder
    → Result (LlmBuffers × NnNodeConfigBuilder)
build_buffers h n_nodes n_batches n rope_slice b0 = do
  x ← new_buffer (c_string "x") (size_2d f_32 n_batches h.dim) b0
  y ← new_buffer (c_string "y") (size_2d f_32 n_batches h.dim) x.1
  yq ←
      if h.sync_type is f_32
      then ok (y.0, y.1)
      else new_buffer (c_string "yq") (size_2d h.sync_type n_batches h.dim) y.1
  yq_slice ← new_buffer (c_string "yq_slice") (size_2d h.sync_type n_batches (h.dim / n_nodes)) yq.1
  q ← new_buffer (c_string "q") (size_2d f_32 n_batches n.q_slice.d0) yq_slice.1
  k_temp ← new_buffer (c_string "k_temp") (size_2d f_32 n_batches n.k_slice.d0) q.1
  v_temp ← new_buffer (c_string "v_temp") (size_2d f_32 n_batches n.v_slice.d0) k_temp.1
  d ← new_buffer (c_string "d") (size_2d f_32 n_batches n.w1_slice.d0) v_temp.1
  dq ←
      if h.sync_type is f_32
      then ok (d.0, d.1)
      else new_buffer (c_string "d") (size_2d h.sync_type n_batches n.w1_slice.d0) d.1
  l ← new_buffer (c_string "l") (size_2d f_32 n_batches n.w3_slice.d0) dq.1
  inv_rms ← new_buffer (c_string "inv_rms") (size_2d f_32 n_batches 1) l.1
  rope_cache ← new_buffer (c_string "rope_cache") (ok rope_slice.cache_size) inv_rms.1
  att ← new_buffer (c_string "att") (ok n.multi_head_att_slice.att_size) rope_cache.1
  lg ← new_buffer (c_string "lg") (size_2d f_32 n_batches (h.vocab_size / n_nodes)) att.1
  let indices : LlmBuffers = record {
    x_buffer_index = x.0;
    y_buffer_index = y.0;
    yq_buffer_index = yq.0;
    yq_slice_index = yq_slice.0;
    q_buffer_index = q.0;
    k_temp_buffer_index = k_temp.0;
    v_temp_buffer_index = v_temp.0;
    d_buffer_index = d.0;
    dq_buffer_index = dq.0;
    l_buffer_index = l.0;
    inv_rms_buffer_index = inv_rms.0;
    rope_cache_buffer_index = rope_cache.0;
    att_buffer_index = att.0;
    logits_slice_buffer_index = lg.0;
  }
  ok (indices, lg.1)
