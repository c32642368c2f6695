-- ===== src/Network/Examples.antt =====
-- Messages, weights and sockets of a small network.
use distributed_llama.Base.{
  ℕ, ◌+◌, ◌-◌, ◌*◌, ◌/◌, ◌%◌, ◌≤◌, ◌<◌, ◌≡◌, ◌≢◌, ◌↔◌, refl, arith, false, not, List, [], ◌∷◌, ◌++◌,
  none, some, Result, ok,
}
use distributed_llama.Quants.{f_32}
use distributed_llama.Core.Sizes.{NnSize2D, size0}
use distributed_llama.Core.Pointers.{src_pipe, src_buffer, pointer_batch_config}
use distributed_llama.Core.Config.{
  NnOpConfig, NnSegmentConfig, NnNetConfig, NnNodeConfig, op_cast, sync_node_slices,
  cache_sync_save,
}
use distributed_llama.Base.Strings.{strlen}
use distributed_llama.Network.Wire.{u32, IsCString}
use distributed_llama.Network.Config.{Socket, ack, write_net, read_net, write_node, read_node}
use distributed_llama.Network.Config.Fields.{FitsNet, FitsNode}
use distributed_llama.Network.Config.RoundTrip.{Answers, write_net-read_net, write_node-read_node}
use distributed_llama.Network.Weights.{Weight, read_weights}
use distributed_llama.Network.Weights.Transfer.{FitsWeight, weights_bytes, read_weights-load}
use distributed_llama.Network.Weights.Progress.{read_weights-ends}
use distributed_llama.Network.Sync.{
  worker_sockets, slice_index, connects, calls_node_slices, sockets_per_thread,
}
use distributed_llama.Network.Sync.Gather.{IsRead, IsWrite, node_slices_meet}
use distributed_llama.Network.Sync.Threads.{sockets_per_thread_lem}
use distributed_llama.Network.Sync.Topology.{
  LeadAsExpected, ArriveInOrder, worker_sockets-slice_index, connects_once,
}
use distributed_llama.Base.{map}
use distributed_llama.Network.Config.{write}
use distributed_llama.Network.Weights.{weight_bytes}
use distributed_llama.Network.Loader.{Root, load_all, load_all_lem}
use distributed_llama.Network.Sockets.{
  Received, received_bytes, received_again, read_socket, sent_bytes, sent_again, write_socket,
}
use distributed_llama.Network.Sockets.Chunks.{read_socket-Delivers, write_socket-Accepts}

-- The name "x".
abbrev name : List ℕ
name = 120 ∷ 0 ∷ []

name-IsCString : IsCString name
unfolding strlen
name-IsCString = (refl, omega arith)

abbrev size : NnSize2D
size = record { float_type = f_32; y = 2; x = 8; length = 16; n_bytes = 64 }

abbrev net : NnNetConfig
net = record {
  n_batches = 2;
  n_nodes = 2;
  pipes = record { name = name; size = size } ∷ [];
  pre_syncs = record { pipe_index = 0 } ∷ [];
  n_slots = 1;
}

net_fits : FitsNet net
net_fits = (
  (omega arith, omega arith, omega arith, omega arith, omega arith),
  (((omega arith, omega arith, omega arith, omega arith), name-IsCString), tt),
  (omega arith, tt),
)

-- The root, whose worker has answered.
abbrev root : Socket
root = record { incoming = u32 ack ++ []; sent = [] }

write_net-read_net_example :
    (bytes : List ℕ) × (write_net 0 net root ≡ ok (record { incoming = []; sent = [] ++ bytes }))
    × Answers read_net bytes net
write_net-read_net_example = write_net-read_net 0 net root [] (omega arith) net_fits refl

abbrev op : NnOpConfig
op = record {
  code = op_cast;
  name = name;
  index = 3;
  input = pointer_batch_config src_pipe 0;
  output = pointer_batch_config src_buffer 0;
  weight_size = size0;
  config = 1 ∷ 2 ∷ [];
}

abbrev segment : NnSegmentConfig
segment = record {
  ops = op ∷ [];
  syncs = record { pipe_index = 0; sync_type = sync_node_slices } ∷ [];
  cache_syncs = record { buffer_index = 0; cache_sync_type = cache_sync_save } ∷ [];
}

abbrev node : NnNodeConfig
node = record {
  node_index = 1;
  buffers = record { name = name; size = size } ∷ [];
  segments = segment ∷ [];
}

node_fits : FitsNode node
node_fits = (
  (omega arith, omega arith, omega arith),
  (((omega arith, omega arith, omega arith, omega arith), name-IsCString), tt),
  (
    (
      (omega arith, omega arith, omega arith),
      (omega arith, tt),
      (
        (
          omega arith,
          (omega arith, omega arith, omega arith, omega arith),
          omega arith,
          name-IsCString,
          omega arith,
          omega arith,
        ),
        tt,
      ),
      (omega arith, tt),
    ),
    tt,
  ),
)

write_node-read_node_example :
    (bytes : List ℕ) × (write_node 7 node root ≡ ok (record { incoming = []; sent = [] ++ bytes }))
    × Answers read_node bytes node
write_node-read_node_example = write_node-read_node 7 node root [] (omega arith) node_fits refl

-- A weight of three bytes, and an executor that keeps what it is given.
abbrev weight : Weight
weight = record { name = name; index = 3; n_bytes = 3; bytes = 7 ∷ 8 ∷ 9 ∷ [] }

abbrev keep : Weight → List Weight → Result (List Weight)
keep w ws = ok (w ∷ ws)

abbrev worker : Socket
worker = record { incoming = weights_bytes (weight ∷ weight ∷ []) ++ []; sent = [] }

weight_fits : FitsWeight weight
weight_fits = (name-IsCString, omega arith, omega arith, refl)

read_weights-load_example :
    read_weights keep 3 [] 0 worker
    ≡ some (ok (weight ∷ weight ∷ [], record { incoming = []; sent = [] ++ u32 ack }))
read_weights-load_example =
    read_weights-load keep (weight ∷ weight ∷ []) [] (weight ∷ weight ∷ []) 0 3 worker []
      (weight_fits, (weight_fits, tt)) (omega arith) refl refl

-- Bytes that are no message.
abbrev noise : Socket
noise = record { incoming = 9 ∷ 0 ∷ 0 ∷ 0 ∷ 1 ∷ []; sent = [] }

read_weights-ends_example : read_weights keep 6 [] 0 noise ≢ none
read_weights-ends_example = read_weights-ends keep 6 [] 0 noise (omega arith)

node_slices_meet_example :
    (s : ℕ) × (r : ℕ) × (slice_index 3 s ≡ 1)
    × (slice_index 1 r ≡ 3)
    × IsWrite
        (calls_node_slices false (4 - 1) 3 4 80 2 (s % 2))
        (record { socket_index = s; at = 80 / 4 * 3; size = 80 / 4 })
    × IsRead
        (calls_node_slices false (4 - 1) 1 4 80 2 (r % 2))
        (record { socket_index = r; at = 80 / 4 * 3; size = 80 / 4 })
    × (80 / 4 * 3 + 80 / 4 ≤ 80)
node_slices_meet_example =
    node_slices_meet 4 3 1 80 2 (omega arith) (omega arith) (omega arith) (λ e. omega (arith, e))

sockets_per_thread_lem_example : (1 < sockets_per_thread 7 3 0) ↔ (0 + 1 * 3 < 7)
sockets_per_thread_lem_example = sockets_per_thread_lem 7 3 0 1 (omega arith)

worker_sockets-slice_index_example :
    LeadAsExpected 4 2 (worker_sockets 4 2 (1 ∷ 2 ∷ [])) ↔ ArriveInOrder 2 (1 ∷ 2 ∷ [])
worker_sockets-slice_index_example = worker_sockets-slice_index 4 2 (1 ∷ 2 ∷ []) (omega arith)

connects_once_example : connects 0 1 ≡ not (connects 2 0)
connects_once_example = connects_once 0 2 1 0 (λ e. omega (arith, e)) refl refl

-- Three bytes in two pieces, with EAGAIN before and between.
abbrev pieces : List Received
pieces =
    received_again ∷ received_bytes (1 ∷ []) ∷ received_again ∷ received_bytes (2 ∷ 3 ∷ []) ∷ []

read_socket-Delivers_example : read_socket pieces 3 ≡ some (ok (1 ∷ 2 ∷ 3 ∷ []))
read_socket-Delivers_example =
    read_socket-Delivers pieces (1 ∷ 2 ∷ 3 ∷ [])
      (omega arith, 2 ∷ 3 ∷ [], refl, (omega arith, [], refl, refl))

write_socket-Accepts_example :
    write_socket (sent_again ∷ sent_bytes 2 ∷ sent_bytes 1 ∷ []) (1 ∷ 2 ∷ 3 ∷ [])
    ≡ some (ok (1 ∷ 2 ∷ 3 ∷ []))
write_socket-Accepts_example =
    write_socket-Accepts (sent_again ∷ sent_bytes 2 ∷ sent_bytes 1 ∷ []) (1 ∷ 2 ∷ 3 ∷ [])
      (omega arith, omega arith, (omega arith, omega arith, refl))

-- A root with two workers.
abbrev loader : Root (List Weight)
loader = record {
  temp = record { size = 0; byte = λ i. 0 };
  executor = [];
  sockets = root ∷ worker ∷ [];
}

load_all_lem_example :
    load_all keep 3 weight loader
    ≡ ok (
      3,
      record {
        temp = record { size = 0; byte = λ i. 0 };
        executor = weight ∷ [];
        sockets = map (write (weight_bytes weight)) (root ∷ worker ∷ []);
      },
    )
load_all_lem_example = load_all_lem keep weight loader (weight ∷ []) 3 refl refl
