-- ===== src/App/Examples.antt =====
-- A session of one forward between a root and a worker.
use distributed_llama.Base.{
  ℕ, ◌^◌, ◌-◌, ◌≡◌, refl, arith, some, true, false, List, [], ◌∷◌, ok, leb, ltb, ◌&&◌,
  if◌then◌else◌,
}
use distributed_llama.Base.Buffer.{Buffer, memcpy}
use distributed_llama.Executor.{NnNetExecution, set_batch_size}
use distributed_llama.App.Packet.{LlmControlPacket, write_packet}
use distributed_llama.App.Root.{
  RootLlmInference, root_finish, root_forward, root_set_batch_size, root_set_position,
  root_set_token, set_float, set_positions, write_all,
}
use distributed_llama.App.Worker.{WorkerLoop, Attempt, nothing, packet, forwarded, worker_loop}
use distributed_llama.App.Session.{
  RootCall, call_set_batch_size, call_set_position, call_set_token, call_forward, run_call,
  run_calls, forwards_of,
}
use distributed_llama.App.Session.Follow.{forwards}
use distributed_llama.App.Session.Whole.{worker_loop-run_calls}

abbrev pipe : Buffer
pipe = record { size = 8; byte = λ i. 0 }

abbrev execution : NnNetExecution
execution = record {
  n_threads = 1;
  n_batches = 2;
  n_pipes = 2;
  n_slots = 1;
  batch_size = 0;
  slot = 0;
  cache_save_id = 2 ^ 64 - 1;
  cache_load_id = 2 ^ 64 - 1;
  pipes = pipe ∷ (pipe ∷ []);
}

abbrev float_bytes : ℕ → ℕ → ℕ
float_bytes value i = value

abbrev root : RootLlmInference
root = record {
  seq_len = 4;
  token_pipe_index = 1;
  position_pipe_index = 0;
  execution = execution;
  has_network = true;
  control_packet = record {
    position = 0;
    batch_size = 0;
    slot = 0;
    cache_save_id = 2 ^ 64 - 1;
    cache_load_id = 2 ^ 64 - 1;
  };
  sent = [];
}

abbrev calls : List RootCall
calls = call_set_batch_size 1 ∷ (call_set_position 2 ∷ (call_set_token 0 5 ∷ (call_forward ∷ [])))

abbrev worker : WorkerLoop
worker = record {
  inference = record {
    is_finished = false;
    control_packet = root.control_packet;
    execution = execution;
  };
  is_first_attempt = true;
  is_turbo_enabled = false;
  actions = [];
}

abbrev written : ℕ → Buffer
written value = record { size = 8; byte = λ i. if leb 0 i && ltb i 4 then value else 0 }

abbrev execution_after : NnNetExecution
execution_after = record execution { batch_size = 1; pipes = written 2 ∷ (written 5 ∷ []) }

abbrev wanted : LlmControlPacket
wanted = record root.control_packet { position = 2; batch_size = 1 }

abbrev root_after : RootLlmInference
root_after = record root {
  execution = execution_after;
  control_packet = wanted;
  sent = write_packet 7 wanted ∷ [];
}

calls_ran : run_calls float_bytes (λ e. some e) 7 calls root ≡ ok root_after
unfolding run_calls run_call root_set_batch_size root_set_position root_set_token root_forward
    set_batch_size set_float set_positions memcpy write_all write_packet
calls_ran = refl

abbrev attempts : List Attempt
attempts =
    nothing true
    ∷ (packet (write_packet 7 wanted)
        ∷ (nothing false ∷ (packet (write_packet 7 (record wanted { batch_size = 0 })) ∷ [])))

worker_loop-run_calls_example :
    (l' : WorkerLoop) × (worker_loop float_bytes (λ e. some e) (λ id. true) true attempts worker
      ≡ ok l')
    × (l'.inference.is_finished ≡ true)
    × (forwards l'.actions ≡ forwarded 1 0 (2 ^ 64 - 1) (2 ^ 64 - 1) ∷ [])
unfolding forwards_of run_call root_set_batch_size root_set_position root_set_token root_forward
    set_batch_size set_float set_positions memcpy root_finish write_all write_packet
worker_loop-run_calls_example =
    worker_loop-run_calls float_bytes (λ e. some e) (λ e. some e) (λ id. true) true 7 calls root
      root_after attempts worker (λ e e' h. ground (arith, h)) (λ e h. (e, refl, h)) (omega arith)
      (record {
        batch_size = refl;
        slot = refl;
        cache_save_id = refl;
        cache_load_id = refl;
        batch_le = omega arith;
        slot_le = omega arith;
        fits = (omega arith, omega arith, omega arith, omega arith, omega arith);
        network = refl;
      })
      refl (omega arith, (omega arith, (tt, (tt, tt)))) calls_ran (omega arith, tt) refl
      (record { pipe = pipe; first = refl; room = omega arith; batches = refl; slots = refl })
      (refl, (refl, tt))
