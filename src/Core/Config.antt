-- ===== src/Core/Config.antt =====
-- The configuration of a network and of a node: the types of src/nn/nn-core.hpp from NnPipeConfig to
-- NnNodeConfig. An array and its count are a list; a name is its array of characters.
use distributed_llama.Base.{ℕ, List}
use distributed_llama.Core.Sizes.{NnSize2D}
use distributed_llama.Core.Pointers.{NnPointerConfig}

pub data NnOpCode : Type 0 where
  op_merge_add op_embedding op_inv_rms op_rms_norm op_matmul op_rope_llama : NnOpCode
  op_multihead_att op_gelu op_silu op_mul op_cast op_shift : NnOpCode

pub data NnSyncType : Type 0 where
  sync_with_root sync_node_slices sync_node_slices_except_root : NnSyncType

pub data NnCacheSyncType : Type 0 where
  cache_sync_save cache_sync_save_kv cache_sync_load : NnCacheSyncType

pub record NnPipeConfig : Type 0 where
  pub name : List ℕ
  pub size : NnSize2D

pub record NnBufferConfig : Type 0 where
  pub name : List ℕ
  pub size : NnSize2D

pub record NnOpConfig : Type 0 where
  pub code : NnOpCode
  pub name : List ℕ
  pub index : ℕ
  pub input : NnPointerConfig
  pub output : NnPointerConfig
  pub weight_size : NnSize2D
  pub config : List ℕ

pub record NnPreSyncConfig : Type 0 where
  pub pipe_index : ℕ

pub record NnSyncConfig : Type 0 where
  pub pipe_index : ℕ
  pub sync_type : NnSyncType

pub record NnCacheSyncConfig : Type 0 where
  pub buffer_index : ℕ
  pub cache_sync_type : NnCacheSyncType

pub record NnSegmentConfig : Type 0 where
  pub ops : List NnOpConfig
  pub syncs : List NnSyncConfig
  pub cache_syncs : List NnCacheSyncConfig

pub record NnNetConfig : Type 0 where
  pub n_batches : ℕ
  pub n_nodes : ℕ
  pub pipes : List NnPipeConfig
  pub pre_syncs : List NnPreSyncConfig
  pub n_slots : ℕ

pub record NnNodeConfig : Type 0 where
  pub node_index : ℕ
  pub buffers : List NnBufferConfig
  pub segments : List NnSegmentConfig
