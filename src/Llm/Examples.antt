-- ===== src/Llm/Examples.antt =====
-- A model of one layer on two nodes.
use distributed_llama.Base.{
  ℕ, List, ◌++◌, ◌≡◌, refl, arith, inl, [], ◌∷◌, ◌++◌, length, replicate, get_elem?, Result, ok,
  err,
}
use distributed_llama.Quants.{f_32}
use distributed_llama.Core.Config.{NnSegmentConfig, NnNodeConfig}
use distributed_llama.Cpu.Pointers.{NnCpuDevice, found}
use distributed_llama.Cpu.Segments.{NnCpuDeviceSegment, create_segment}
use distributed_llama.Llm.{LlmHeader}
use distributed_llama.Llm.Network.{
  LlmNet, build_layers, build_node_config, build_node_configs, build_llm_net,
}
use distributed_llama.Core.Sizes.{size_2d, size_1d, get_bytes}
use distributed_llama.Core.Slices.{
  slice_kv_cache, slice_multi_head_att, slice_row_matmul, slice_col_matmul, slice_rope,
}
use distributed_llama.Core.Builder.{
  new_net_builder, add_pipe, add_pre_sync, build_net, new_node_builder, add_buffer, add_segment,
  build_node, add_op, add_sync, add_cache_sync, build_segment,
}
use distributed_llama.Llm.Parts.{build_parts}
use distributed_llama.Llm.Buffers.{build_buffers}
use distributed_llama.Llm.Layers.{start_segment, att_segment, ff_segment, end_segment}
use distributed_llama.Llm.Supported.{IsSupported}
use distributed_llama.Llm.PartsReady.{device}
use distributed_llama.Llm.Header.{initial_header, load_llm_header}
use distributed_llama.Llm.Loaded.{model_file, load_llm_header_lem}
use distributed_llama.Llm.RopeReady.{HasRoom}
use distributed_llama.Llm.Runs.{AreNumbered, build_llm_net_ok, build_llm_net-create_segment}

abbrev header : LlmHeader
header = record {
  header_size = 120;
  file_size = 5000;
  version = 0;
  arch_type = 11259136;
  dim = 8;
  n_layers = 1;
  n_heads = 4;
  head_size = 2;
  n_kv_heads = 2;
  n_experts = 0;
  n_active_experts = 0;
  orig_seq_len = 3;
  seq_len = 3;
  hidden_dim = 16;
  hidden_act = 1;
  kv_dim = 4;
  vocab_size = 6;
  rope_theta = 0 ∷ 64 ∷ 28 ∷ 70 ∷ [];
  rope_type = 0;
  rope_scaling_factor = 0 ∷ 0 ∷ 128 ∷ 63 ∷ [];
  rope_scaling_low_freq_factor = 0 ∷ 0 ∷ 0 ∷ 0 ∷ [];
  rope_scaling_high_freq_factory = 0 ∷ 0 ∷ 0 ∷ 0 ∷ [];
  rope_scaling_orig_max_seq_len = 0;
  norm_epsilon = 172 ∷ 197 ∷ 39 ∷ 55 ∷ [];
  slots = 2;
  weight_type = f_32;
  sync_type = f_32;
}

header-IsSupported : IsSupported header 2
header-IsSupported = record {
  formats = inl (refl, refl);
  positive = omega arith;
  dim_divides = omega arith;
  kv_dim_divides = omega arith;
  heads_divide = omega arith;
  hidden_divides = omega arith;
  vocab_divides = omega arith;
  dim_blocks = omega arith;
  hidden_blocks = omega arith;
  kv_dim_le = omega arith;
  dim_pairs = omega arith;
  kv_dim_pairs = omega arith;
  dim_fits = omega arith;
}

header-HasRoom : HasRoom header
header-HasRoom = record {
  floats = record { factor = refl; low = refl; high = refl };
  head = omega arith;
  head_lt = omega arith;
  seq_lt = omega arith;
  few = omega arith;
}

build_llm_net_ok_example :
    (net : LlmNet) × (build_llm_net 0 header 2 4 ≡ ok net)
    × (net.parts.net_config.n_nodes ≡ 2)
    × (net.parts.net_config.n_batches ≡ 4)
    × (net.parts.net_config.n_slots ≡ 2)
    × (length net.node_configs ≡ 2)
    × AreNumbered header 0 net.node_configs
build_llm_net_ok_example =
    build_llm_net_ok 0 header 2 4 header-IsSupported (omega arith) (omega arith) (omega arith)

-- What the call returns, where it does.
abbrev Returns {ℓ} : {A : Type ℓ} → Result A → Type 0
Returns (ok a) = Unit {0}
Returns (err e) = ⊥

abbrev result_of {ℓ} : {A : Type ℓ} → (r : Result A) → Returns r → A
result_of (ok a) h = a
result_of (err e) h = absurd h

result_of_lem {ℓ} : {A : Type ℓ} (r : Result A) (h : Returns r) → r ≡ ok (result_of r h)
result_of_lem (ok a) h = refl
result_of_lem (err e) h = absurd h

abbrev net : LlmNet
unfolding build_llm_net build_parts build_node_configs build_node_config build_layers build_buffers
    start_segment att_segment ff_segment end_segment size_2d size_1d get_bytes slice_kv_cache
    slice_multi_head_att slice_row_matmul slice_col_matmul slice_rope new_net_builder add_pipe
    add_pre_sync build_net new_node_builder add_buffer add_segment build_node add_op add_sync
    add_cache_sync build_segment
net = result_of (build_llm_net 0 header 2 4) tt

-- The second node, and the segment of the attention.
abbrev node : NnNodeConfig
unfolding build_llm_net build_parts build_node_configs build_node_config build_layers build_buffers
    start_segment att_segment ff_segment end_segment size_2d size_1d get_bytes slice_kv_cache
    slice_multi_head_att slice_row_matmul slice_col_matmul slice_rope new_net_builder add_pipe
    add_pre_sync build_net new_node_builder add_buffer add_segment build_node add_op add_sync
    add_cache_sync build_segment
node = result_of (found (get_elem? net.node_configs 1)) tt

abbrev segment : NnSegmentConfig
unfolding build_llm_net build_parts build_node_configs build_node_config build_layers build_buffers
    start_segment att_segment ff_segment end_segment size_2d size_1d get_bytes slice_kv_cache
    slice_multi_head_att slice_row_matmul slice_col_matmul slice_rope new_net_builder add_pipe
    add_pre_sync build_net new_node_builder add_buffer add_segment build_node add_op add_sync
    add_cache_sync build_segment
segment = result_of (found (get_elem? node.segments 1)) tt

build_llm_net-create_segment_example :
    (made : NnCpuDeviceSegment × NnCpuDevice) × (create_segment
        (device net.parts node (replicate (length node.buffers) 0))
        1
      ≡ ok made)
unfolding build_llm_net build_parts build_node_configs build_node_config build_layers build_buffers
    start_segment att_segment ff_segment end_segment size_2d size_1d get_bytes slice_kv_cache
    slice_multi_head_att slice_row_matmul slice_col_matmul slice_rope new_net_builder add_pipe
    add_pre_sync build_net new_node_builder add_buffer add_segment build_node add_op add_sync
    add_cache_sync build_segment
build_llm_net-create_segment_example =
    build_llm_net-create_segment 0 header 2 4 net node segment (replicate (length node.buffers) 0) 1
      1 header-IsSupported header-HasRoom (omega arith) (omega arith) (omega arith)
      (result_of_lem (build_llm_net 0 header 2 4) tt) refl refl (omega arith) refl

-- The entries of a small file. The dimension is given twice.
abbrev entries : List (ℕ × ℕ)
entries = (2, 4) ∷ ((5, 2) ∷ ((13, 0) ∷ ((10, 9) ∷ ((2, 8) ∷ []))))

abbrev weights : List ℕ
weights = replicate 8 1 ++ (2 ∷ [])

abbrev float_of : ℕ → List ℕ
float_of value = value ∷ []

load_llm_header_lem_example :
    load_llm_header float_of [] 4 f_32 3 (model_file entries weights)
    ≡ ok (record (initial_header float_of []) {
      header_size = 48;
      file_size = 57;
      dim = 8;
      n_heads = 2;
      head_size = 4;
      orig_seq_len = 9;
      seq_len = 4;
      weight_type = f_32;
      slots = 3;
    })
load_llm_header_lem_example =
    load_llm_header_lem float_of [] 4 f_32 3 entries (replicate 8 1) (2 ∷ [])
      (
        (omega arith, omega arith),
        (
          (omega arith, omega arith),
          (
            (omega arith, omega arith),
            ((omega arith, omega arith), ((omega arith, omega arith), tt)),
          ),
        ),
      )
      (omega arith) refl (λ e. cc e) (omega arith)
