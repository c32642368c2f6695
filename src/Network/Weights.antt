-- ===== src/Network/Weights.antt =====
-- The weights on their way to the nodes (src/nn/nn-network.cpp): NnRootWeightLoader and
-- NnWorkerWeightReader. The executor that takes a weight is a parameter.
pub mod Transfer
pub mod Progress
use distributed_llama.Base.{
  ℕ, zero, suc, ◌+◌, ◌-◌, ◌%◌, ◌^◌, ◌≤◌, ◌<◌, ◌≡◌, refl, Bool, true, false, List, [], ◌∷◌, ◌++◌,
  Option, none, some, length, take, get_elem?, set, ◌==◌, if◌then◌else◌, ltb, leb, Result, ok, err,
  memory,
}
use distributed_llama.Network.Stream.{Reader, ◌>>=◌, pure, read}
use distributed_llama.Base.Strings.{strlen}
use distributed_llama.Network.Wire.{u32, u64, read_u32, read_u64}
use distributed_llama.Network.Config.{Socket, write, ack, receive, await_ack}

-- What one `writeWeight` sends, and what the worker gives to its executor.
pub record Weight : Type 0 where
  pub name : List ℕ
  pub index : ℕ
  pub n_bytes : ℕ
  pub bytes : List ℕ

unfoldable pub weight_bytes : Weight → List ℕ
unfolding strlen
weight_bytes w =
    u32 (strlen w.name + 1)
    ++ (take (strlen w.name + 1) w.name
        ++ (u32 w.index ++ (u64 w.n_bytes ++ take w.n_bytes w.bytes)))

-- `sockets[nodeIndex - 1]`; `none` is an access outside the array.
abbrev pub put_socket : List Socket → ℕ → List ℕ → Option Socket → Result (List Socket)
put_socket sockets i bytes none = err memory
put_socket sockets i bytes (some s) = ok (set sockets i (write bytes s))

unfoldable pub write_weight : ℕ → Weight → List Socket → Result (List Socket)
unfolding weight_bytes
write_weight node_index w sockets =
    put_socket sockets (node_index - 1) (weight_bytes w) (get_elem? sockets (node_index - 1))

-- NnWorkerWeightReader::allocate takes an NnUint. The result is the size of `temp`.
abbrev pub allocate : ℕ → ℕ → ℕ
allocate temp_size size = if ltb temp_size (size % 2 ^ 32) then size % 2 ^ 32 else temp_size

-- A read into `temp`.
unfoldable pub read_into : ℕ → ℕ → Reader (List ℕ)
read_into temp_size n bytes = if leb n temp_size then read n bytes else err memory

unfoldable pub read_named : ℕ → ℕ → Reader (Option (Weight × ℕ))
unfolding read_into
read_named temp_size zero = pure none
read_named temp_size (suc n) = do
  name ← read (suc n)
  index ← read_u32
  n_bytes ← read_u64
  bytes ← read_into (allocate temp_size n_bytes) n_bytes
  pure (
      some (
        record { name = name; index = index; n_bytes = n_bytes; bytes = bytes },
        allocate temp_size n_bytes,
      ))

-- One turn of the loop of `read`, up to what it does with the weight.
unfoldable pub read_weight : ℕ → Reader (Option (Weight × ℕ))
unfolding read_named
read_weight temp_size = do name_size ← read_u32; read_named temp_size name_size

module _ {Executor : Type 0} (load_weight : Weight → Executor → Result Executor) where
  abbrev pub after_load :
      (Executor → ℕ → Socket → Option (Result (Executor × Socket)))
      → ℕ
      → Socket
      → Result Executor
      → Option (Result (Executor × Socket))
  after_load next temp_size s (err e) = some (err e)
  after_load next temp_size s (ok executor) = next executor temp_size s

  abbrev pub take_weight :
      (Executor → ℕ → Socket → Option (Result (Executor × Socket)))
      → Executor
      → Result (Option (Weight × ℕ) × Socket)
      → Option (Result (Executor × Socket))
  take_weight next executor (err e) = some (err e)
  take_weight next executor (ok (none, s)) = some (ok (executor, write (u32 ack) s))
  take_weight next executor (ok (some (w, temp_size), s)) =
      after_load next temp_size s (load_weight w executor)

  -- NnWorkerWeightReader::read; `none` is that the fuel does not suffice.
  unfoldable pub read_weights : ℕ → Executor → ℕ → Socket → Option (Result (Executor × Socket))
  unfolding read_weight
  read_weights zero executor temp_size s = none
  read_weights (suc fuel) executor temp_size s =
      take_weight (read_weights fuel) executor (receive (read_weight temp_size) s)

abbrev pub finished : Result Socket → Result (List Socket) → Result (List Socket)
finished (err e) rest = err e
finished (ok s) (err e) = err e
finished (ok s) (ok rest) = ok (s ∷ rest)

-- NnRootWeightLoader::finish on the sockets of the workers, one after the other.
unfoldable pub finish : List Socket → Result (List Socket)
unfolding await_ack
finish [] = ok []
finish (s ∷ rest) = finished (await_ack (write (u32 0) s)) (finish rest)
