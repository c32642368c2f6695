-- ===== src/Llm/Network.antt =====
-- buildLlmNet of src/llm.cpp.
use distributed_llama.Base.{ℕ, zero, suc, ◌+◌, List, [], ◌∷◌, Result, ok, ◌>>=◌}
use distributed_llama.Base.Strings.{c_string}
use distributed_llama.Core.Slices.{NnRopeSlice, slice_rope}
use distributed_llama.Core.Config.{NnNodeConfig}
use distributed_llama.Core.Builder.{NnNodeConfigBuilder, new_node_builder, add_segment, build_node}
use distributed_llama.Llm.{LlmHeader}
use distributed_llama.Llm.Parts.{LlmParts, build_parts}
use distributed_llama.Llm.Buffers.{LlmBuffers, new_buffer, build_buffers}
use distributed_llama.Llm.Layers.{start_segment, att_segment, ff_segment, end_segment}

pub record LlmNet : Type 0 where
  pub header : LlmHeader
  pub parts : LlmParts
  pub node_configs : List NnNodeConfig

module _ (padding : ℕ) (h : LlmHeader) (n : LlmParts) where
  -- The buffers and the segments of the layers, from the `layer_index`th on.
  unfoldable pub build_layers :
      LlmBuffers → NnRopeSlice → ℕ → ℕ → NnNodeConfigBuilder → Result NnNodeConfigBuilder
  build_layers b rope_slice zero layer_index s = ok s
  build_layers b rope_slice (suc n_layers) layer_index s = do
    k ← new_buffer (c_string "k") (ok n.kv_cache_slice.key_size) s
    v ← new_buffer (c_string "v") (ok n.kv_cache_slice.value_size) k.1
    att ← att_segment padding h n b rope_slice layer_index k.0 v.0
    ff ← ff_segment padding h n b layer_index
    build_layers b rope_slice n_layers (layer_index + 1) (add_segment ff (add_segment att v.1))

  unfoldable pub build_node_config : ℕ → ℕ → ℕ → Result NnNodeConfig
  unfolding build_layers
  build_node_config n_nodes n_batches node_index = do
    rope_slice ← slice_rope h.dim h.kv_dim h.n_kv_heads n_nodes h.seq_len h.head_size node_index
    b ← build_buffers h n_nodes n_batches n rope_slice (new_node_builder node_index)
    s ←
        build_layers b.0 rope_slice h.n_layers 0
          (add_segment (start_segment padding h n node_index) b.1)
    end ← end_segment padding h n b.0
    build_node (add_segment end s)

  -- The nodes from the `node_index`th on.
  unfoldable pub build_node_configs : ℕ → ℕ → ℕ → ℕ → Result (List NnNodeConfig)
  unfolding build_node_config
  build_node_configs n_nodes n_batches zero node_index = ok []
  build_node_configs n_nodes n_batches (suc k) node_index = do
    node ← build_node_config n_nodes n_batches node_index
    rest ← build_node_configs n_nodes n_batches k (node_index + 1)
    ok (node ∷ rest)

unfoldable pub build_llm_net : ℕ → LlmHeader → ℕ → ℕ → Result LlmNet
unfolding build_node_configs
build_llm_net padding h n_nodes n_batches = do
  n ← build_parts h n_nodes n_batches
  node_configs ← build_node_configs padding h n n_nodes n_batches n_nodes 0
  ok (record { header = h; parts = n; node_configs = node_configs })
