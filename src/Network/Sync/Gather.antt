-- ===== src/Network/Sync/Gather.antt =====
-- What syncNodeSlices sends and receives, over all threads (src/nn/nn-network.cpp).
use distributed_llama.Base.{
  ℕ, suc, ◌+◌, ◌-◌, ◌*◌, ◌/◌, ◌%◌, ◌≤◌, ◌<◌, ◌≡◌, ◌≢◌, ap, sym, subst, ◌∙◌, arith, false, List, [],
  ◌∷◌, some, leb, if◌then◌else◌, get_elem?,
}
use distributed_llama.Base.Numbers.{div-mul-add-mod}
use distributed_llama.Network.Sync.{
  NnSocketIo, NetworkCall, write_many, read_many, sockets_per_thread, thread_ios, my_slice,
  other_slice, slice_index, calls_node_slices,
}
use distributed_llama.Network.Sync.Threads.{sockets_per_thread_lem, get_elem?-thread_ios}

-- `io` is one of those of a call of readMany, or of writeMany.
abbrev pub IsRead : List NetworkCall → NnSocketIo → Type 0
IsRead calls io =
    (k : ℕ) × (ios : List NnSocketIo) × (get_elem? calls k ≡ some (read_many ios))
    × ((i : ℕ) × (get_elem? ios i ≡ some io))

abbrev pub IsWrite : List NetworkCall → NnSocketIo → Type 0
IsWrite calls io =
    (k : ℕ) × (ios : List NnSocketIo) × (get_elem? calls k ≡ some (write_many ios))
    × ((i : ℕ) × (get_elem? ios i ≡ some io))

has_sockets :
    (n_sockets n s : ℕ) → 0 < n → s < n_sockets → s / n < sockets_per_thread n_sockets n (s % n)
has_sockets n_sockets n s p h =
    (sockets_per_thread_lem n_sockets n (s % n) (s / n) (omega arith)).1
      (omega (arith, div-mul-add-mod s n))

-- The calls of a thread that has sockets.
calls_two :
    (n_sockets node n_nodes bytes n t : ℕ)
    → 0 < sockets_per_thread n_sockets n t
    → calls_node_slices false n_sockets node n_nodes bytes n t
      ≡ write_many
          (thread_ios (my_slice (bytes / n_nodes) node) n t (sockets_per_thread n_sockets n t) 0)
        ∷ read_many (
            thread_ios
              (other_slice (bytes / n_nodes) node)
              n
              t
              (sockets_per_thread n_sockets n t)
              0)
        ∷ []
unfolding calls_node_slices
calls_two n_sockets node n_nodes bytes n t h = ground arith

-- Every socket is served by the thread that its number has as the remainder.
ios-all :
    (io : ℕ → NnSocketIo) (n_sockets n s : ℕ)
    → 0 < n
    → s < n_sockets
    → get_elem? (thread_ios io n (s % n) (sockets_per_thread n_sockets n (s % n)) 0) (s / n)
      ≡ some (io s)
ios-all io n_sockets n s p h =
    get_elem?-thread_ios io n (s % n) _ 0 (s / n) (has_sockets n_sockets n s p h)
    ∙ ap (λ s. some (io s)) (omega (arith, div-mul-add-mod s n))

module _ (n_sockets node n_nodes bytes n s : ℕ) (p : 0 < n) (h : s < n_sockets) where
  IsRead-of :
      IsRead
        (calls_node_slices false n_sockets node n_nodes bytes n (s % n))
        (other_slice (bytes / n_nodes) node s)
  IsRead-of = (
    1,
    _,
    ap (λ c. get_elem? c 1)
        (calls_two n_sockets node n_nodes bytes n (s % n)
          (omega (arith, has_sockets n_sockets n s p h))),
    (s / n, ios-all _ n_sockets n s p h),
  )

  IsWrite-of :
      IsWrite
        (calls_node_slices false n_sockets node n_nodes bytes n (s % n))
        (my_slice (bytes / n_nodes) node s)
  IsWrite-of = (
    0,
    _,
    ap (λ c. get_elem? c 0)
        (calls_two n_sockets node n_nodes bytes n (s % n)
          (omega (arith, has_sockets n_sockets n s p h))),
    (s / n, ios-all _ n_sockets n s p h),
  )

-- The socket that leads from a node to another.
abbrev pub socket_to : ℕ → ℕ → ℕ
socket_to node other = if leb node other then other - 1 else other

socket_to_lem :
    (n_nodes node other : ℕ)
    → node < n_nodes
    → other < n_nodes
    → node ≢ other
    → (socket_to node other < n_nodes - 1) × (slice_index node (socket_to node other) ≡ other)
socket_to_lem n_nodes node other a b ne = ground arith

-- Of two different nodes, with at least one thread, the first sends its slice on the socket that
-- leads to the second, which reads it from the socket that leads back, into the place that the
-- slice has in the buffer; the place lies within the buffer.
pub node_slices_meet :
    (n_nodes from to bytes n : ℕ)
    → 0 < n
    → from < n_nodes
    → to < n_nodes
    → from ≢ to
    → (s : ℕ) × (r : ℕ) × (slice_index from s ≡ to)
      × (slice_index to r ≡ from)
      × IsWrite
          (calls_node_slices false (n_nodes - 1) from n_nodes bytes n (s % n))
          (record { socket_index = s; at = bytes / n_nodes * from; size = bytes / n_nodes })
      × IsRead
          (calls_node_slices false (n_nodes - 1) to n_nodes bytes n (r % n))
          (record { socket_index = r; at = bytes / n_nodes * from; size = bytes / n_nodes })
      × (bytes / n_nodes * from + bytes / n_nodes ≤ bytes)
node_slices_meet n_nodes from to bytes n p a b ne =
    let (lt, there) = socket_to_lem n_nodes from to a b ne in
    let (lt', back) = socket_to_lem n_nodes to from b a (λ e. ne (sym e)) in
    (
      socket_to from to,
      socket_to to from,
      there,
      back,
      IsWrite-of (n_nodes - 1) from n_nodes bytes n (socket_to from to) p lt,
      subst
          (λ at.
            IsRead
              (calls_node_slices false (n_nodes - 1) to n_nodes bytes n (socket_to to from % n))
              (record { socket_index = socket_to to from; at = at; size = bytes / n_nodes }))
          (ap (λ j. bytes / n_nodes * j) back)
          (IsRead-of (n_nodes - 1) to n_nodes bytes n (socket_to to from) p lt'),
      fit,
    )
  where
    fit : bytes / n_nodes * from + bytes / n_nodes ≤ bytes
    fit = ground (
      arith,
      rounds (bytes / n_nodes) (suc from) n_nodes a,
      div-mul-add-mod bytes n_nodes,
      more (bytes / n_nodes) from,
    )
      where
        rounds : (q a b : ℕ) → a ≤ b → q * a ≤ q * b
        rounds q a b le = grind arith

        more : (q a : ℕ) → q * suc a ≡ q * a + q
        more q a = omega arith
