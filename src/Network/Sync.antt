-- ===== src/Network/Sync.antt =====
-- The sockets of a node, and the synchronization of the pipes over them (src/nn/nn-network.cpp): serve,
-- connect, syncWithRoot, syncNodeSlices and NnNetworkNodeSynchronizer::sync.
pub mod Threads
pub mod Topology
pub mod Gather
use distributed_llama.Base.{
  ℕ, zero, suc, ◌+◌, ◌-◌, ◌*◌, ◌/◌, ◌%◌, ◌^◌, ◌≤◌, ◌<◌, Bool, true, false, not, ◌&&◌, ◌||◌, List,
  [], ◌∷◌, ◌++◌, drop, Option, none, some, ◌==◌, ltb, leb, if◌then◌else◌, get_elem?, Result, ok,
  err, memory, ◌>>=◌,
}
use distributed_llama.Core.Sizes.{NnSize2D, get_bytes}
use distributed_llama.Core.Config.{
  NnSyncType, sync_with_root, sync_node_slices, sync_node_slices_except_root, NnSyncConfig,
  NnSegmentConfig, NnPipeConfig,
}

-- connect: the workers that are named to worker `i`, from `j` on.
unfoldable pub hosts_from : ℕ → ℕ → ℕ → List ℕ
hosts_from zero j i = []
hosts_from (suc n) j i = let rest = hosts_from n (j + 1) i in if j == i then rest else j ∷ rest

-- serve: whether a worker connects to the host at `i` of those named to it, or waits for it.
abbrev pub connects : ℕ → ℕ → Bool
connects node_index i = leb node_index i

-- acceptSocket: the node that connects next; without one the call waits for ever.
abbrev pub first_of : List ℕ → Option ℕ
first_of [] = none
first_of (node ∷ arrivals) = some node

-- serve: the loop over the hosts named to a worker, from the `i`th on. The sockets lead to the nodes
-- that are connected to, or that are accepted as they arrive.
unfoldable pub serve_sockets : ℕ → ℕ → List ℕ → List ℕ → List (Option ℕ)
serve_sockets node_index i [] arrivals = []
serve_sockets node_index i (host ∷ hosts) arrivals =
    let to_host = serve_sockets node_index (i + 1) hosts arrivals in
    let accepted = serve_sockets node_index (i + 1) hosts (drop 1 arrivals) in
    if connects node_index i then some (suc host) ∷ to_host else first_of arrivals ∷ accepted

-- serve: the nodes at the other ends of a worker's sockets. The root is node 0, worker `i` node
-- `i + 1`; `arrivals` are the nodes that connect to the worker, in the order in which they do.
unfoldable pub worker_sockets : ℕ → ℕ → List ℕ → List (Option ℕ)
unfolding hosts_from serve_sockets
worker_sockets n_sockets i arrivals = some 0 ∷ serve_sockets i 0 (hosts_from n_sockets 0 i) arrivals

-- NnSocketIo; `at` is where the data lies in the buffer of the synchronization.
pub record NnSocketIo : Type 0 where
  pub socket_index : ℕ
  pub at : ℕ
  pub size : ℕ

-- A call of writeMany or readMany.
pub data NetworkCall : Type 0 where
  write_many read_many : List NnSocketIo → NetworkCall

-- nSocketsPerThread.
unfoldable pub sockets_per_thread : ℕ → ℕ → ℕ → ℕ
sockets_per_thread n_sockets n_threads thread_index =
    n_sockets / n_threads + (if ltb thread_index (n_sockets % n_threads) then 1 else 0)

-- The loop over the sockets of a thread, from its `i`th socket on.
unfoldable pub thread_ios : (ℕ → NnSocketIo) → ℕ → ℕ → ℕ → ℕ → List NnSocketIo
thread_ios io n_threads thread_index zero i = []
thread_ios io n_threads thread_index (suc n) i =
    io (thread_index + i * n_threads) ∷ thread_ios io n_threads thread_index n (i + 1)

unfoldable pub calls_with_root : ℕ → ℕ → ℕ → ℕ → ℕ → List NetworkCall
unfolding sockets_per_thread thread_ios
calls_with_root n_sockets node_index n_bytes n_threads thread_index =
    let n = sockets_per_thread n_sockets n_threads thread_index in
    if node_index % 256 == 0
    then if n == 0
      then []
      else write_many (
          thread_ios (λ s. record { socket_index = s; at = 0; size = n_bytes }) n_threads
            thread_index n 0)
        ∷ []
    else if thread_index == 0
    then read_many (record { socket_index = 0; at = 0; size = n_bytes } ∷ []) ∷ []
    else []

-- The slice that comes through a socket.
abbrev pub slice_index : ℕ → ℕ → ℕ
slice_index node_index s = if leb node_index s then s + 1 else s

abbrev pub my_slice : ℕ → ℕ → ℕ → NnSocketIo
my_slice slice_bytes node_index s = record {
  socket_index = s;
  at = slice_bytes * node_index;
  size = slice_bytes;
}

abbrev pub other_slice : ℕ → ℕ → ℕ → NnSocketIo
other_slice slice_bytes node_index s = record {
  socket_index = s;
  at = slice_bytes * slice_index node_index s;
  size = slice_bytes;
}

unfoldable pub calls_node_slices : Bool → ℕ → ℕ → ℕ → ℕ → ℕ → ℕ → List NetworkCall
unfolding sockets_per_thread thread_ios
calls_node_slices only_from_worker_to_root n_sockets node_index n_nodes n_bytes n_threads
      thread_index =
    let is_worker = not (node_index == 0) in
    let used = if only_from_worker_to_root && is_worker then 1 else n_sockets in
    let n = sockets_per_thread used n_threads thread_index in
    let slice_bytes = n_bytes / n_nodes in
    let writes =
      write_many (thread_ios (my_slice slice_bytes node_index) n_threads thread_index n 0) in
    let reads =
      read_many (thread_ios (other_slice slice_bytes node_index) n_threads thread_index n 0) in
    if n == 0
    then []
    else (if not only_from_worker_to_root || is_worker then writes ∷ [] else [])
      ++ (if not only_from_worker_to_root || not is_worker then reads ∷ [] else [])

unfoldable pub calls_of : NnSyncType → ℕ → ℕ → ℕ → ℕ → ℕ → ℕ → List NetworkCall
unfolding calls_with_root calls_node_slices
calls_of sync_with_root n_sockets node_index n_nodes n_bytes n_threads thread_index =
    calls_with_root n_sockets node_index n_bytes n_threads thread_index
calls_of sync_node_slices n_sockets node_index n_nodes n_bytes n_threads thread_index =
    calls_node_slices false n_sockets node_index n_nodes n_bytes n_threads thread_index
calls_of sync_node_slices_except_root n_sockets node_index n_nodes n_bytes n_threads thread_index =
    calls_node_slices true n_sockets node_index n_nodes n_bytes n_threads thread_index

-- Calls on the bytes of one batch, which begin at `at` in a pipe.
pub record BatchCalls : Type 0 where
  pub pipe_index : ℕ
  pub at : ℕ
  pub calls : List NetworkCall

unfoldable pub batches : ℕ → ℕ → ℕ → ℕ → List NetworkCall → List BatchCalls
batches zero b pipe_index batch_bytes calls = []
batches (suc n) b pipe_index batch_bytes calls =
    record { pipe_index = pipe_index; at = b * batch_bytes; calls = calls }
    ∷ batches n (b + 1) pipe_index batch_bytes calls

abbrev pub pipe_at : List NnPipeConfig → ℕ → Result NnPipeConfig
pipe_at pipes i = elim (get_elem? pipes i) [ none ↦ err memory | some p ↦ ok p ]

-- The loops of NnNetworkNodeSynchronizer::sync over the syncs of a segment.
unfoldable pub sync :
    List NnPipeConfig → ℕ → ℕ → ℕ → ℕ → ℕ → ℕ → List NnSyncConfig → Result (List BatchCalls)
unfolding calls_of batches
sync pipes batch_size n_sockets node_index n_nodes n_threads thread_index [] = ok []
sync pipes batch_size n_sockets node_index n_nodes n_threads thread_index (c ∷ syncs) = do
  pipe ← pipe_at pipes c.pipe_index
  batch_bytes ← get_bytes pipe.size.float_type pipe.size.x
  let calls = calls_of c.sync_type n_sockets node_index n_nodes batch_bytes n_threads thread_index
  rest ← sync pipes batch_size n_sockets node_index n_nodes n_threads thread_index syncs
  ok (batches batch_size 0 c.pipe_index batch_bytes calls ++ rest)
