-- ===== src/App/Root.antt =====
-- RootLlmInference of src/app.cpp.
use distributed_llama.Base.{
  ℕ, zero, suc, ◌+◌, ◌-◌, ◌*◌, ◌%◌, ◌^◌, Bool, List, [], ◌∷◌, ◌++◌, set, get_elem?, ltb,
  if◌then◌else◌, Result, ok, err, guard, ◌>>=◌, ◌>>◌, assertion, runtime_error, Option, some, none,
}
use distributed_llama.Base.Buffer.{memcpy}
use distributed_llama.Cache.Manager.{cache_skip}
use distributed_llama.Cpu.Pointers.{found}
use distributed_llama.Executor.{NnNetExecution, set_batch_size, set_slot, set_cache_id}
use distributed_llama.App.Packet.{LlmControlPacket, write_packet}

-- The four bytes of a number that is converted to a float.
module _ (float_bytes : ℕ → ℕ → ℕ) where
  -- `pipe[index] = (float)value`, on one of the pipes of the execution.
  unfoldable pub set_float : ℕ → ℕ → ℕ → NnNetExecution → Result NnNetExecution
  unfolding memcpy
  set_float pipe_index index value e = do
    pipe ← found (get_elem? e.pipes pipe_index)
    pipe' ← memcpy pipe (4 * index) (record { size = 4; byte = float_bytes value }) 0 4
    ok (record e { pipes = set e.pipes pipe_index pipe' })

  -- `for (i = index; i < index + n; i++) pipe[i] = (float)(position + i)`
  unfoldable pub set_positions : ℕ → ℕ → ℕ → ℕ → NnNetExecution → Result NnNetExecution
  unfolding set_float
  set_positions pipe_index position zero index e = ok e
  set_positions pipe_index position (suc n) index e = do
    e' ← set_float pipe_index index ((position + index) % 2 ^ 32) e
    set_positions pipe_index position n (index + 1) e'

-- An exception that nobody catches.
abbrev pub passed : Option NnNetExecution → Result NnNetExecution
passed none = err runtime_error
passed (some e) = ok e

-- `sent` is what the network, if there is one, has been given for every worker.
pub record RootLlmInference : Type 0 where
  pub seq_len : ℕ
  pub token_pipe_index : ℕ
  pub position_pipe_index : ℕ
  pub execution : NnNetExecution
  pub has_network : Bool
  pub control_packet : LlmControlPacket
  pub sent : List (List ℕ)

-- The position and the batch size of the packet are not set.
unfoldable pub new_root : ℕ → ℕ → ℕ → NnNetExecution → Bool → ℕ → ℕ → RootLlmInference
new_root seq_len token_pipe_index position_pipe_index execution has_network position batch_size =
    record {
      seq_len = seq_len;
      token_pipe_index = token_pipe_index;
      position_pipe_index = position_pipe_index;
      execution = execution;
      has_network = has_network;
      control_packet = record {
        position = position;
        batch_size = batch_size;
        slot = 0;
        cache_save_id = cache_skip;
        cache_load_id = cache_skip;
      };
      sent = [];
    }

unfoldable pub root_set_batch_size : ℕ → RootLlmInference → Result RootLlmInference
unfolding set_batch_size
root_set_batch_size batch_size r = do
  e ← set_batch_size r.execution batch_size
  ok (record r {
    execution = e;
    control_packet = record r.control_packet { batch_size = batch_size };
  })

unfoldable pub root_set_slot : ℕ → RootLlmInference → Result RootLlmInference
unfolding set_slot
root_set_slot slot r = do
  e ← set_slot r.execution slot
  ok (record r { execution = e; control_packet = record r.control_packet { slot = slot } })

unfoldable pub root_set_cache_id : ℕ → ℕ → RootLlmInference → RootLlmInference
unfolding set_cache_id
root_set_cache_id cache_save_id cache_load_id r = record r {
  execution = set_cache_id r.execution cache_save_id cache_load_id;
  control_packet = record r.control_packet {
    cache_save_id = cache_save_id;
    cache_load_id = cache_load_id;
  };
}

-- The packet goes to all workers.
unfoldable pub write_all : ℕ → RootLlmInference → RootLlmInference
unfolding write_packet
write_all padding r =
    if r.has_network
    then record r { sent = r.sent ++ (write_packet padding r.control_packet ∷ []) }
    else r

unfoldable pub root_finish : ℕ → RootLlmInference → RootLlmInference
unfolding write_all
root_finish padding r =
    if r.has_network
    then write_all padding
        (record r { control_packet = record r.control_packet { batch_size = 0 } })
    else r

module _ (float_bytes : ℕ → ℕ → ℕ) where
  unfoldable pub root_set_position : ℕ → RootLlmInference → Result RootLlmInference
  unfolding set_positions
  root_set_position position r = do
    guard (ltb ((position + r.execution.batch_size + 2 ^ 32 - 1) % 2 ^ 32) r.seq_len) assertion
    e ←
        set_positions float_bytes r.position_pipe_index position r.execution.batch_size 0
          r.execution
    ok (record r {
      execution = e;
      control_packet = record r.control_packet { position = position };
    })

  unfoldable pub root_set_token : ℕ → ℕ → RootLlmInference → Result RootLlmInference
  unfolding set_float
  root_set_token batch_index token r = do
    guard (ltb batch_index r.execution.batch_size) assertion
    e ← set_float float_bytes r.token_pipe_index batch_index token r.execution
    ok (record r { execution = e })

-- `pass` is the executor's forward, which leaves by an exception of the network where it is `none`.
unfoldable pub root_forward :
    (NnNetExecution → Option NnNetExecution) → ℕ → RootLlmInference → Result RootLlmInference
unfolding write_all
root_forward pass padding r = do
  let r' = write_all padding r
  e ← passed (pass r'.execution)
  ok (record r' { execution = e })
