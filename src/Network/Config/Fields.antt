-- ===== src/Network/Config/Fields.antt =====
-- What a worker reads of each part of a configuration (src/nn/nn-network.cpp).
use distributed_llama.Base.{ℕ, suc, ◌^◌, ◌<◌, refl, arith, List, [], ◌∷◌, length, lt→ltb}
use distributed_llama.Cache.Tokens.{All}
use distributed_llama.Core.Config.{
  NnPipeConfig, NnBufferConfig, NnOpConfig, NnPreSyncConfig, NnSyncConfig, NnCacheSyncConfig,
  NnSegmentConfig, NnNetConfig, NnNodeConfig,
}
use distributed_llama.Network.Enums.{
  read_enum-Reads, op_code_of, op_code_lem, sync_type_of, sync_type_lem, cache_sync_type_of,
  cache_sync_type_lem,
}
use distributed_llama.Network.Stream.{
  Reads, Reads-then, Reads-last, Reads-pure, read-Reads, read_number-Reads, read_times-Reads,
}
use distributed_llama.Network.Wire.{
  IsCString, FitsSize2D, read_string-Reads, read_size_2d-Reads, read_pointer-Reads,
}
use distributed_llama.Network.Config.{
  write_pipe, read_pipe, write_buffer, read_buffer, write_pre_sync, read_pre_sync, write_sync,
  read_sync, write_cache_sync, read_cache_sync, write_op_config, read_op_config, write_op, read_op,
  write_segment, read_segment, net_bytes, net_fields, node_bytes, node_fields,
}

-- Numbers that fit their fields, and names that end where they should.
abbrev pub FitsPipe : NnPipeConfig → Type 0
FitsPipe p = FitsSize2D p.size × IsCString p.name

abbrev pub FitsBuffer : NnBufferConfig → Type 0
FitsBuffer b = FitsSize2D b.size × IsCString b.name

abbrev pub FitsOp : NnOpConfig → Type 0
FitsOp o =
    (o.index < 256 ^ 4)
    × FitsSize2D o.weight_size
    × (length o.config < 256 ^ 4)
    × IsCString o.name
    × (o.input.pointer_index < 256 ^ 4)
    × (o.output.pointer_index < 256 ^ 4)

abbrev pub FitsSegment : NnSegmentConfig → Type 0
FitsSegment s =
    ((length s.syncs < 256 ^ 4) × (length s.ops < 256 ^ 4) × (length s.cache_syncs < 256 ^ 4))
    × All (λ (x : NnSyncConfig). x.pipe_index < 256 ^ 4) s.syncs
    × All FitsOp s.ops
    × All (λ (x : NnCacheSyncConfig). x.buffer_index < 256 ^ 4) s.cache_syncs

abbrev pub FitsNet : NnNetConfig → Type 0
FitsNet c =
    ((c.n_batches < 256 ^ 4)
      × (c.n_nodes < 256 ^ 4)
      × (c.n_slots < 256 ^ 4)
      × (length c.pipes < 256 ^ 4)
      × (length c.pre_syncs < 256 ^ 4))
    × All FitsPipe c.pipes
    × All (λ (x : NnPreSyncConfig). x.pipe_index < 256 ^ 4) c.pre_syncs

abbrev pub FitsNode : NnNodeConfig → Type 0
FitsNode c =
    ((c.node_index < 256 ^ 4) × (length c.buffers < 256 ^ 4) × (length c.segments < 256 ^ 4))
    × All FitsBuffer c.buffers
    × All FitsSegment c.segments

read_pre_sync-Reads :
    (s : NnPreSyncConfig) → s.pipe_index < 256 ^ 4 → Reads read_pre_sync (write_pre_sync s) s
unfolding read_pre_sync write_pre_sync
read_pre_sync-Reads s h = Reads-last _ (read_number-Reads 4 s.pipe_index h)

read_sync-Reads : (s : NnSyncConfig) → s.pipe_index < 256 ^ 4 → Reads read_sync (write_sync s) s
unfolding read_sync write_sync
read_sync-Reads s h =
    let (lt, same) = sync_type_lem s.sync_type in
    Reads-then _ (read_number-Reads 4 s.pipe_index h)
      (Reads-last _ (read_enum-Reads sync_type_of _ s.sync_type lt same))

read_cache_sync-Reads :
    (s : NnCacheSyncConfig)
    → s.buffer_index < 256 ^ 4
    → Reads read_cache_sync (write_cache_sync s) s
unfolding read_cache_sync write_cache_sync
read_cache_sync-Reads s h =
    let (lt, same) = cache_sync_type_lem s.cache_sync_type in
    Reads-then _ (read_enum-Reads cache_sync_type_of _ s.cache_sync_type lt same)
      (Reads-last _ (read_number-Reads 4 s.buffer_index h))

read_op_config-Reads :
    (config : List ℕ) → Reads (read_op_config (length config)) (write_op_config config) config
unfolding read_op_config write_op_config
read_op_config-Reads [] = Reads-pure []
read_op_config-Reads (b ∷ bs) =
    rw (lt→ltb 0 (suc (length bs)) (omega arith)) (read-Reads _ (b ∷ bs) refl)

module _ (padding : ℕ) (pad : padding < 256 ^ 4) where
  read_pipe-Reads : (p : NnPipeConfig) → FitsPipe p → Reads read_pipe (write_pipe padding p) p
  unfolding read_pipe write_pipe
  read_pipe-Reads p (h, name) =
      Reads-then _ (read_size_2d-Reads padding p.size pad h)
        (Reads-last _ (read_string-Reads p.name name))

  read_buffer-Reads :
      (b : NnBufferConfig) → FitsBuffer b → Reads read_buffer (write_buffer padding b) b
  unfolding read_buffer write_buffer
  read_buffer-Reads b (h, name) =
      Reads-then _ (read_size_2d-Reads padding b.size pad h)
        (Reads-last _ (read_string-Reads b.name name))

  read_op-Reads : (o : NnOpConfig) → FitsOp o → Reads read_op (write_op padding o) o
  unfolding read_op write_op
  read_op-Reads o (index, weight, config, name, input, output) =
      let (lt, same) = op_code_lem o.code in
      Reads-then _ (read_enum-Reads op_code_of _ o.code lt same) (
        Reads-then _ (read_number-Reads 4 o.index index) (
          Reads-then _ (read_size_2d-Reads padding o.weight_size pad weight) (
            Reads-then _ (read_number-Reads 4 (length o.config) config) (
              Reads-then _ (read_string-Reads o.name name) (
                Reads-then _ (read_pointer-Reads o.input input) (
                  Reads-then _ (read_pointer-Reads o.output output)
                    (Reads-last _ (read_op_config-Reads o.config))))))))

  read_segment-Reads :
      (s : NnSegmentConfig) → FitsSegment s → Reads read_segment (write_segment padding s) s
  unfolding read_segment write_segment
  read_segment-Reads s ((n, m, k), syncs, ops, cache_syncs) =
      Reads-then _ (read_number-Reads 4 _ n) (
        Reads-then _ (read_number-Reads 4 _ m) (
          Reads-then _ (read_number-Reads 4 _ k) (
            Reads-then _ (read_times-Reads _ read_sync write_sync read_sync-Reads s.syncs syncs) (
              Reads-then _ (read_times-Reads _ read_op (write_op padding) read_op-Reads s.ops ops) (
                Reads-last _ (
                  read_times-Reads _ read_cache_sync write_cache_sync read_cache_sync-Reads
                    s.cache_syncs cache_syncs))))))

  pub net_fields-Reads : (c : NnNetConfig) → FitsNet c → Reads net_fields (net_bytes padding c) c
  unfolding net_fields net_bytes
  net_fields-Reads c ((a, b, d, e, f), pipes, pre_syncs) = Reads-then _ (read_number-Reads 4 _ a) (
      Reads-then _ (read_number-Reads 4 _ b) (
        Reads-then _ (read_number-Reads 4 _ e) (
          Reads-then _ (read_number-Reads 4 _ d) (
            Reads-then _
              (read_times-Reads _ read_pipe (write_pipe padding) read_pipe-Reads c.pipes pipes)
              (Reads-then _ (read_number-Reads 4 _ f) (
                Reads-last _ (
                  read_times-Reads _ read_pre_sync write_pre_sync read_pre_sync-Reads c.pre_syncs
                    pre_syncs)))))))

  pub node_fields-Reads :
      (c : NnNodeConfig) → FitsNode c → Reads node_fields (node_bytes padding c) c
  unfolding node_fields node_bytes
  node_fields-Reads c ((a, b, d), buffers, segments) = Reads-then _ (read_number-Reads 4 _ a) (
      Reads-then _ (read_number-Reads 4 _ b) (
        Reads-then _ (read_number-Reads 4 _ d) (
          Reads-then _
            (read_times-Reads _ read_buffer (write_buffer padding) read_buffer-Reads c.buffers
              buffers)
            (Reads-last _ (
              read_times-Reads _ read_segment (write_segment padding) read_segment-Reads c.segments
                segments)))))
