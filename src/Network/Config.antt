-- ===== src/Network/Config.antt =====
-- NnRootConfigWriter and NnWorkerConfigReader (src/nn/nn-network.cpp).
pub mod Fields
pub mod RoundTrip
use distributed_llama.Base.{
  ℕ, zero, suc, ◌≤◌, ◌<◌, ◌≡◌, refl, Bool, true, false, List, [], ◌∷◌, ◌++◌, length, ◌==◌,
  if◌then◌else◌, ltb, Result, ok, err, runtime_error,
}
use distributed_llama.Core.Config.{
  NnPipeConfig, NnBufferConfig, NnOpConfig, NnPreSyncConfig, NnSyncConfig, NnCacheSyncConfig,
  NnSegmentConfig, NnNetConfig, NnNodeConfig,
}
use distributed_llama.Network.Enums.{
  read_enum, op_code_code, op_code_of, sync_type_code, sync_type_of, cache_sync_type_code,
  cache_sync_type_of,
}
use distributed_llama.Network.Stream.{Reader, ◌>>=◌, pure, fail, read, read_times, write_each}
use distributed_llama.Network.Wire.{
  u32, read_u32, write_string, read_string, write_size_2d, read_size_2d, write_pointer,
  read_pointer,
}

-- One end of a connection: the bytes that will come, and the bytes that were sent.
pub record Socket : Type 0 where
  pub incoming : List ℕ
  pub sent : List ℕ

abbrev pub write : List ℕ → Socket → Socket
write bytes s = record s { sent = s.sent ++ bytes }

abbrev pub received {ℓ} : {A : Type ℓ} → Socket → Result (A × List ℕ) → Result (A × Socket)
received s (ok (a, rest)) = ok (a, record s { incoming = rest })
received s (err e) = err e

abbrev pub receive {ℓ} : {A : Type ℓ} → Reader A → Socket → Result (A × Socket)
receive g s = received s (g s.incoming)

abbrev pub ack : ℕ
ack = 23571114

unfoldable pub read_ack_packet : Reader (Unit {0})
read_ack_packet = do packet ← read_u32; if packet == ack then pure tt else fail

abbrev pub socket_of {ℓ} : {A : Type ℓ} → Result (A × Socket) → Result Socket
socket_of (ok (a, s)) = ok s
socket_of (err e) = err e

abbrev pub and_ack {ℓ} : {A : Type ℓ} → Result (A × Socket) → Result (A × Socket)
and_ack (ok (a, s)) = ok (a, write (u32 ack) s)
and_ack (err e) = err e

-- The end of a message: the sender waits for the acknowledgement.
unfoldable pub await_ack : Socket → Result Socket
unfolding read_ack_packet
await_ack s = socket_of (receive read_ack_packet s)

-- The beginning and the end of a message on the other side: the acknowledgement is read, and sent
-- back when the message has been taken.
unfoldable pub acknowledged {ℓ} : {A : Type ℓ} → Reader A → Socket → Result (A × Socket)
unfolding read_ack_packet
acknowledged g s = and_ack (receive (read_ack_packet >>= λ u. g) s)

module _ (padding : ℕ) where
  unfoldable pub write_pipe : NnPipeConfig → List ℕ
  write_pipe p = write_size_2d padding p.size ++ write_string p.name

  unfoldable pub write_buffer : NnBufferConfig → List ℕ
  write_buffer b = write_size_2d padding b.size ++ write_string b.name

unfoldable pub read_pipe : Reader NnPipeConfig
read_pipe = do size ← read_size_2d; name ← read_string; pure (record { name = name; size = size })

unfoldable pub read_buffer : Reader NnBufferConfig
read_buffer = do size ← read_size_2d; name ← read_string; pure (record { name = name; size = size })

unfoldable pub write_pre_sync : NnPreSyncConfig → List ℕ
write_pre_sync s = u32 s.pipe_index

unfoldable pub read_pre_sync : Reader NnPreSyncConfig
read_pre_sync = do pipe_index ← read_u32; pure (record { pipe_index = pipe_index })

unfoldable pub write_sync : NnSyncConfig → List ℕ
write_sync s = u32 s.pipe_index ++ u32 (sync_type_code s.sync_type)

unfoldable pub read_sync : Reader NnSyncConfig
read_sync = do
  pipe_index ← read_u32
  sync_type ← read_enum sync_type_of
  pure (record { pipe_index = pipe_index; sync_type = sync_type })

unfoldable pub write_cache_sync : NnCacheSyncConfig → List ℕ
write_cache_sync s = u32 (cache_sync_type_code s.cache_sync_type) ++ u32 s.buffer_index

unfoldable pub read_cache_sync : Reader NnCacheSyncConfig
read_cache_sync = do
  cache_sync_type ← read_enum cache_sync_type_of
  buffer_index ← read_u32
  pure (record { buffer_index = buffer_index; cache_sync_type = cache_sync_type })

-- The bytes of an operation's own configuration, which are sent only if there are any.
unfoldable pub write_op_config : List ℕ → List ℕ
write_op_config config = if ltb 0 (length config) then config else []

unfoldable pub read_op_config : ℕ → Reader (List ℕ)
read_op_config config_size = if ltb 0 config_size then read config_size else pure []

module _ (padding : ℕ) where
  unfoldable pub write_op : NnOpConfig → List ℕ
  write_op o =
      u32 (op_code_code o.code)
      ++ (u32 o.index
          ++ (write_size_2d padding o.weight_size
              ++ (u32 (length o.config)
                  ++ (write_string o.name
                      ++ (write_pointer o.input
                          ++ (write_pointer o.output ++ write_op_config o.config))))))

unfoldable pub read_op : Reader NnOpConfig
read_op = do
  code ← read_enum op_code_of
  index ← read_u32
  weight_size ← read_size_2d
  config_size ← read_u32
  name ← read_string
  input ← read_pointer
  output ← read_pointer
  config ← read_op_config config_size
  pure (record {
    code = code;
    name = name;
    index = index;
    input = input;
    output = output;
    weight_size = weight_size;
    config = config;
  })

module _ (padding : ℕ) where
  unfoldable pub write_segment : NnSegmentConfig → List ℕ
  write_segment s =
      u32 (length s.syncs)
      ++ (u32 (length s.ops)
          ++ (u32 (length s.cache_syncs)
              ++ (write_each write_sync s.syncs
                  ++ (write_each (write_op padding) s.ops
                      ++ write_each write_cache_sync s.cache_syncs))))

  -- writeNet, between the two acknowledgements.
  unfoldable pub net_bytes : NnNetConfig → List ℕ
  net_bytes c =
      u32 c.n_batches
      ++ (u32 c.n_nodes
          ++ (u32 (length c.pipes)
              ++ (u32 c.n_slots
                  ++ (write_each (write_pipe padding) c.pipes
                      ++ (u32 (length c.pre_syncs) ++ write_each write_pre_sync c.pre_syncs)))))

  unfoldable pub write_net : NnNetConfig → Socket → Result Socket
  write_net c s = await_ack (write (u32 ack ++ net_bytes c) s)

unfoldable pub read_segment : Reader NnSegmentConfig
read_segment = do
  n_syncs ← read_u32
  n_ops ← read_u32
  n_cache_syncs ← read_u32
  syncs ← read_times n_syncs read_sync
  ops ← read_times n_ops read_op
  cache_syncs ← read_times n_cache_syncs read_cache_sync
  pure (record { ops = ops; syncs = syncs; cache_syncs = cache_syncs })

unfoldable pub net_fields : Reader NnNetConfig
net_fields = do
  n_batches ← read_u32
  n_nodes ← read_u32
  n_pipes ← read_u32
  n_slots ← read_u32
  pipes ← read_times n_pipes read_pipe
  n_pre_syncs ← read_u32
  pre_syncs ← read_times n_pre_syncs read_pre_sync
  pure (record {
    n_batches = n_batches;
    n_nodes = n_nodes;
    pipes = pipes;
    pre_syncs = pre_syncs;
    n_slots = n_slots;
  })

unfoldable pub read_net : Socket → Result (NnNetConfig × Socket)
read_net s = acknowledged net_fields s

module _ (padding : ℕ) where
  -- writeNode, between the two acknowledgements.
  unfoldable pub node_bytes : NnNodeConfig → List ℕ
  node_bytes c =
      u32 c.node_index
      ++ (u32 (length c.buffers)
          ++ (u32 (length c.segments)
              ++ (write_each (write_buffer padding) c.buffers
                  ++ write_each (write_segment padding) c.segments)))

  unfoldable pub write_node : NnNodeConfig → Socket → Result Socket
  write_node c s = await_ack (write (u32 ack ++ node_bytes c) s)

unfoldable pub node_fields : Reader NnNodeConfig
node_fields = do
  node_index ← read_u32
  n_buffers ← read_u32
  n_segments ← read_u32
  buffers ← read_times n_buffers read_buffer
  segments ← read_times n_segments read_segment
  pure (record { node_index = node_index; buffers = buffers; segments = segments })

unfoldable pub read_node : Socket → Result (NnNodeConfig × Socket)
read_node s = acknowledged node_fields s
