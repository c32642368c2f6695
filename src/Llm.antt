-- ===== src/Llm.antt =====
-- src/llm.cpp: the header of a model, and the network that is built for it.
pub mod OpConfigs
pub mod Parts
pub mod Buffers
pub mod Layers
pub mod Network
pub mod Layout
pub mod Operations
pub mod Segments
pub mod Supported
pub mod PartsReady
pub mod BuffersReady
pub mod LayersReady
pub mod RopeReady
pub mod Runs
pub mod Header
pub mod Loaded
mod Examples
use distributed_llama.Base.{ℕ, List}
use distributed_llama.Quants.{NnFloatType}

-- A float is its four bytes, an enumeration that the file gives is its number.
pub record LlmHeader : Type 0 where
  pub header_size : ℕ
  pub file_size : ℕ
  pub version : ℕ
  pub arch_type : ℕ
  pub dim : ℕ
  pub n_layers : ℕ
  pub n_heads : ℕ
  pub head_size : ℕ
  pub n_kv_heads : ℕ
  pub n_experts : ℕ
  pub n_active_experts : ℕ
  pub orig_seq_len : ℕ
  pub seq_len : ℕ
  pub hidden_dim : ℕ
  pub hidden_act : ℕ
  pub kv_dim : ℕ
  pub vocab_size : ℕ
  pub rope_theta : List ℕ
  pub rope_type : ℕ
  pub rope_scaling_factor : List ℕ
  pub rope_scaling_low_freq_factor : List ℕ
  pub rope_scaling_high_freq_factory : List ℕ
  pub rope_scaling_orig_max_seq_len : ℕ
  pub norm_epsilon : List ℕ
  pub slots : ℕ
  pub weight_type : NnFloatType
  pub sync_type : NnFloatType
