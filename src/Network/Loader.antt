-- ===== src/Network/Loader.antt =====
-- NnRootWeightLoader (src/nn/nn-network.cpp): each weight to the root's own executor and to the
-- sockets of the workers. What the executor does with a weight is a parameter.
use distributed_llama.Base.{
  ℕ, zero, suc, ◌+◌, ◌-◌, ◌≡◌, refl, ap, sym, ◌∙◌, arith, List, [], ◌∷◌, ◌++◌, map, some, length,
  length-append, append_assoc, get_elem?, set, ltb, ◌==◌, if◌then◌else◌, Result, ok, ◌>>=◌,
}
use distributed_llama.Base.Buffer.{Buffer}
use distributed_llama.Base.Loops.{for_range}
use distributed_llama.Core.Slices.{NnRowMatmulSlice, NnColMatmulSlice}
use distributed_llama.Core.Split.{split_row_matmul_weight, split_col_matmul_weight}
use distributed_llama.Network.Config.{Socket, write}
use distributed_llama.Network.Weights.{Weight, weight_bytes, put_socket, write_weight}

-- The loader's buffer, with the root's executor and its sockets.
pub record Root (Executor : Type 0) : Type 0 where
  pub temp : Buffer
  pub executor : Executor
  pub sockets : List Socket

-- NnRootWeightLoader::allocate; a buffer that is kept keeps its bytes.
abbrev pub allocate_temp : ℕ → Buffer → Buffer
allocate_temp size temp = if ltb temp.size size then record { size = size; byte = λ i. 0 } else temp

-- The first `n` bytes, from the `i`th on.
unfoldable pub bytes_in : Buffer → ℕ → ℕ → List ℕ
bytes_in buffer zero i = []
bytes_in buffer (suc n) i = buffer.byte i ∷ bytes_in buffer n (i + 1)

abbrev pub weight_of : List ℕ → ℕ → ℕ → Buffer → Weight
weight_of name index n_bytes buffer = record {
  name = name;
  index = index;
  n_bytes = n_bytes;
  bytes = bytes_in buffer n_bytes 0;
}

module _ {Executor : Type 0} (load : Weight → Executor → Result Executor) where
  unfoldable pub load_root : Weight → Root Executor → Result (ℕ × Root Executor)
  load_root w root = do
    executor ← load w root.executor
    ok (w.n_bytes, record root { executor = executor })

  unfoldable pub load_all : ℕ → Weight → Root Executor → Result (ℕ × Root Executor)
  load_all n_nodes w root = do
    executor ← load w root.executor
    sockets ← for_range (n_nodes - 1) 1 (λ node_index. write_weight node_index w) root.sockets
    ok (w.n_bytes, record root { executor = executor; sockets = sockets })

  -- The slice of a node, which is in `temp`, goes where the node's weights go.
  abbrev pub send_slice : ℕ → List ℕ → ℕ → ℕ → Buffer × ℕ → Root Executor → Result (Root Executor)
  send_slice zero name index n_bytes (temp, copied) root = do
    executor ← load (weight_of name index n_bytes temp) root.executor
    ok (record root { temp = temp; executor = executor })
  send_slice (suc node) name index n_bytes (temp, copied) root = do
    sockets ← write_weight (suc node) (weight_of name index n_bytes temp) root.sockets
    ok (record root { temp = temp; sockets = sockets })

  -- loadRowMatmulSlices and loadColMatmulSlices, from the splitter and the two sizes.
  unfoldable pub load_slices :
      (ℕ → Buffer → Result (Buffer × ℕ))
      → ℕ
      → ℕ
      → ℕ
      → List ℕ
      → ℕ
      → Buffer
      → Root Executor
      → Result (ℕ × Root Executor)
  load_slices split n_nodes n_bytes slice_bytes name index weight root =
      if n_nodes == 1
      then (do
        executor ← load (weight_of name index slice_bytes weight) root.executor
        ok (n_bytes, record root { executor = executor }))
      else (do
        root' ←
            for_range n_nodes 0
              (λ node r. split node r.temp >>= λ s. send_slice node name index slice_bytes s r)
              (record root { temp = allocate_temp slice_bytes root.temp })
        ok (n_bytes, root'))

  unfoldable pub load_row_matmul_slices :
      ℕ → List ℕ → ℕ → NnRowMatmulSlice → Buffer → Root Executor → Result (ℕ × Root Executor)
  unfolding load_slices
  load_row_matmul_slices n_nodes name index slice weight root =
      load_slices (λ node temp. split_row_matmul_weight slice node weight temp) n_nodes
        slice.size.n_bytes slice.slice_size.n_bytes name index weight root

  unfoldable pub load_col_matmul_slices :
      ℕ → List ℕ → ℕ → NnColMatmulSlice → Buffer → Root Executor → Result (ℕ × Root Executor)
  unfolding load_slices
  load_col_matmul_slices n_nodes name index slice weight root =
      load_slices (λ node temp. split_col_matmul_weight slice node weight temp) n_nodes
        slice.size.n_bytes slice.slice_size.n_bytes name index weight root

-- A socket in front of those that are left.
front_set :
    (done : List Socket) (s t : Socket) (rest : List Socket)
    → (get_elem? (done ++ (s ∷ rest)) (length done) ≡ some s)
      × (set (done ++ (s ∷ rest)) (length done) t ≡ done ++ (t ∷ rest))
front_set [] s t rest = (refl, refl)
front_set (d ∷ done) s t rest = let (a, b) = front_set done s t rest in (a, ap (◌∷◌ d) b)

write_each_socket :
    (w : Weight) (done left : List Socket) (i : ℕ)
    → i ≡ suc (length done)
    → for_range (length left) i (λ node_index. write_weight node_index w) (done ++ left)
      ≡ ok (done ++ map (write (weight_bytes w)) left)
unfolding for_range write_weight
write_each_socket w done [] i e = refl
write_each_socket w done (s ∷ left) i e =
    let x : Socket = write (weight_bytes w) s in
    let all : List Socket = done ++ (s ∷ left) in
    let (there, changed) = front_set done s x left in
    let one : write_weight i w all ≡ ok (done ++ (x ∷ left)) =
      ap (λ k. put_socket all k (weight_bytes w) (get_elem? all k)) (before (length done) i e)
      ∙ ap (put_socket all (length done) (weight_bytes w)) there
      ∙ ap ok changed in
    ap
      (λ r.
        r >>= λ s'. for_range (length left) (i + 1) (λ node_index. write_weight node_index w) s')
      one
    ∙ ap (for_range (length left) (i + 1) (λ node_index. write_weight node_index w))
        (sym (append_assoc done (x ∷ []) left))
    ∙ write_each_socket w (done ++ (x ∷ [])) left (i + 1)
        (omega (arith, e, length-append done (x ∷ [])))
    ∙ ap ok (append_assoc done (x ∷ []) (map (write (weight_bytes w)) left))
  where
    before : (n i : ℕ) → i ≡ suc n → i - 1 ≡ n
    before n i e = omega arith

module _ {Executor : Type 0} (load : Weight → Executor → Result Executor) where
  -- With a socket for each worker and an executor that takes the weight, a weight that all nodes
  -- need goes to the root's executor and once to every socket.
  pub load_all_lem :
      (w : Weight) (root : Root Executor) (executor : Executor) (n_nodes : ℕ)
      → length root.sockets ≡ n_nodes - 1
      → load w root.executor ≡ ok executor
      → load_all load n_nodes w root
        ≡ ok (
          w.n_bytes,
          record {
            temp = root.temp;
            executor = executor;
            sockets = map (write (weight_bytes w)) root.sockets;
          },
        )
  unfolding load_all
  load_all_lem w root executor n_nodes n e =
      ap (λ r. r >>= after) e
      ∙ ap (λ k. for_range k 1 (λ node_index. write_weight node_index w) root.sockets >>= done)
          (sym n)
      ∙ ap (λ r. r >>= done) (write_each_socket w [] root.sockets 1 refl)
    where
      done : List Socket → Result (ℕ × Root Executor)
      done sockets = ok (w.n_bytes, record root { executor = executor; sockets = sockets })

      after : Executor → Result (ℕ × Root Executor)
      after executor =
          for_range (n_nodes - 1) 1 (λ node_index. write_weight node_index w) root.sockets
          >>= λ sockets. ok (w.n_bytes, record root { executor = executor; sockets = sockets })
