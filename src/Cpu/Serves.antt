-- ===== src/Cpu/Serves.antt =====
-- A segment whose operations the device takes, built call by call.
use distributed_llama.Base.{
  ℕ, ◌<◌, ◌≡◌, refl, ◌∙◌, Bool, true, false, List, [], ◌∷◌, length, some, get_elem?, ltb, lt→ltb,
  ok,
}
use distributed_llama.Cache.Tokens.{All, All-append}
use distributed_llama.Core.Sizes.{NnSize2D}
use distributed_llama.Core.Pointers.{NnPointerConfig}
use distributed_llama.Core.Config.{
  NnOpCode, NnSyncType, NnCacheSyncType, NnOpConfig, NnCacheSyncConfig, NnBufferConfig,
  NnSegmentConfig,
}
use distributed_llama.Core.Builder.{
  NnSegmentConfigBuilder, clone_string, add_op, add_sync, add_cache_sync,
}
use distributed_llama.Llm.Layers.{when, new_segment_builder}
use distributed_llama.Cpu.Pointers.{NnCpuDevice}
use distributed_llama.Cpu.Kernels.{NnCpuOpContext}
use distributed_llama.Cpu.Segments.{
  NnCpuDeviceSegment, NnCpuDeviceCacheSyncOp, plan_ops, init_ops, kv_pos, slot_targets,
  create_cache_syncs, create_segment,
}
use distributed_llama.Cpu.Created.{Created, operation}

module _ (d : NnCpuDevice) where
  -- The buffer of a cache sync is there, and a first pipe.
  pub record SyncsCache (s : NnCacheSyncConfig) : Type 0 where
    pub buffer : NnBufferConfig
    pub there : get_elem? d.node_config.buffers s.buffer_index ≡ some buffer
    pub position : kv_pos s.cache_sync_type d.net_config.pipes ≡ ok tt

  pub record Serves (b : NnSegmentConfigBuilder) : Type 0 where
    pub ops : All (Created d) b.ops
    pub cache_syncs : All SyncsCache b.cache_syncs

  pub new-Serves : Serves new_segment_builder
  new-Serves = record { ops = tt; cache_syncs = tt }

  pub add_op-Serves :
      (code : NnOpCode) (name : List ℕ) (index : ℕ) (input output : NnPointerConfig)
      (weight_size : NnSize2D) (config : List ℕ) {b : NnSegmentConfigBuilder}
      → Serves b
      → Created d (operation d code (clone_string name) index input output weight_size config)
      → Serves (add_op code name index input output weight_size config b)
  add_op-Serves code name index input output weight_size config {b = b} s c =
      unfold add_op in
      record { ops = All-append (Created d) b.ops _ s.ops (c, tt); cache_syncs = s.cache_syncs }

  pub add_sync-Serves :
      (pipe_index : ℕ) (type : NnSyncType) {b : NnSegmentConfigBuilder}
      → Serves b
      → Serves (add_sync pipe_index type b)
  add_sync-Serves pipe_index type s =
      unfold add_sync in record { ops = s.ops; cache_syncs = s.cache_syncs }

  pub add_cache_sync-Serves :
      (buffer_index : ℕ) (type : NnCacheSyncType) {b : NnSegmentConfigBuilder}
      → Serves b
      → SyncsCache (record { buffer_index = buffer_index; cache_sync_type = type })
      → Serves (add_cache_sync buffer_index type b)
  add_cache_sync-Serves buffer_index type {b = b} s c =
      unfold add_cache_sync in
      record {
        ops = s.ops;
        cache_syncs = All-append SyncsCache b.cache_syncs _ s.cache_syncs (c, tt);
      }

  pub when-Serves :
      (test : Bool) (call : NnSegmentConfigBuilder → NnSegmentConfigBuilder)
      {b : NnSegmentConfigBuilder}
      → Serves b
      → (test ≡ true → Serves (call b))
      → Serves (when test call b)
  when-Serves true call s f = f refl
  when-Serves false call s f = s

  ops_ok :
      (ops : List NnOpConfig)
      → All (Created d) ops
      → (contexts : List NnCpuOpContext) × (plan_ops d ops ≡ ok contexts)
        × ((flags : List ℕ)
            → length flags ≡ length d.node_config.buffers
            → (flags' : List ℕ) × (init_ops d contexts flags ≡ ok flags')
              × (length flags' ≡ length flags))
  unfolding plan_ops init_ops
  ops_ok [] h = ([], refl, λ flags e. (flags, refl, refl))
  ops_ok (op ∷ ops) (c, h) =
      let (contexts, plan, init) = ops_ok ops h in
      (
        c.context ∷ contexts,
        rw (c.plan, plan) refl,
        λ flags e.
            let (f, r, l) = c.init flags e in
            let (g, r', l') = init f (l ∙ e) in (g, rw (r) r', l' ∙ l),
      )

  cache_syncs_ok :
      (syncs : List NnCacheSyncConfig)
      → All SyncsCache syncs
      → (made : List NnCpuDeviceCacheSyncOp) × (create_cache_syncs d syncs ≡ ok made)
  unfolding create_cache_syncs
  cache_syncs_ok [] h = ([], refl)
  cache_syncs_ok (s ∷ syncs) (c, h) =
      let (made, run) = cache_syncs_ok syncs h in
      (
        record {
          slot_targets = slot_targets s.buffer_index d.net_config.n_slots 0;
          size = c.buffer.size;
          type = s.cache_sync_type;
          buffer_index = s.buffer_index;
        }
            ∷ made,
        rw (c.there, c.position, run) refl,
      )

  -- The device makes such a segment, whichever flags it has set before.
  pub create_segment_ok :
      (i : ℕ) {s : NnSegmentConfig}
      → get_elem? d.node_config.segments i ≡ some s
      → 0 < length s.ops
      → length d.buffer_flags ≡ length d.node_config.buffers
      → All (Created d) s.ops
      → All SyncsCache s.cache_syncs
      → (made : NnCpuDeviceSegment × NnCpuDevice) × (create_segment d i ≡ ok made)
  unfolding create_segment
  create_segment_ok i {s} there some_ops flags ops syncs =
      let (contexts, plan, init) = ops_ok s.ops ops in
      let (flags', run, l) = init d.buffer_flags flags in
      let (made, synced) = cache_syncs_ok s.cache_syncs syncs in
      let test : ltb 0 (length s.ops) ≡ true = lt→ltb _ _ some_ops in
      (
        (
          record { op_contexts = contexts; cache_sync_ops = made },
          record d { buffer_flags = flags' },
        ),
        rw (there, test, plan, run, synced) refl,
      )
