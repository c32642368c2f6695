-- ===== src/Cpu/SyncCache.antt =====
-- NnCpuDeviceSegment::syncCache of src/nn/nn-cpu.cpp: a slot's buffers to the cache database and back.
pub mod Saves
use distributed_llama.Base.{
  ℕ, ◌+◌, ◌-◌, ◌%◌, ◌^◌, Bool, true, false, not, ◌&&◌, List, [], ◌∷◌, get_elem?, ltb, ◌==◌,
  if◌then◌else◌, Result, ok, ◌>>=◌,
}
use distributed_llama.Base.Buffer.{Buffer, memcpy}
use distributed_llama.Quants.Threads.{split_threads}
use distributed_llama.Core.Sizes.{NnSize2D, size_2d}
use distributed_llama.Core.Config.{
  NnCacheSyncType, cache_sync_save, cache_sync_save_kv, cache_sync_load,
}
use distributed_llama.Cache.Manager.{cache_skip}
use distributed_llama.Executor.{NnNetExecution}
use distributed_llama.Cpu.Pointers.{Memory, slot_buffer, pipe, found}
use distributed_llama.Cpu.Segments.{NnCpuDeviceCacheSyncOp}

-- RocksDbCacheDatabase::getWriteBuffer: the staged bytes, cut or filled with zeros to the size.
abbrev pub resize : ℕ → Buffer → Buffer
resize n b = record { size = n; byte = λ i. if ltb i b.size then b.byte i else 0 }

-- What the save of one operation does in one thread: its part of the bytes, into the write buffer.
unfoldable pub save_part : ℕ → ℕ → ℕ → Buffer → Buffer → Result Buffer
unfolding split_threads memcpy
save_part n_bytes n_threads thread_index target staged =
    let cache = resize n_bytes staged in
    let r = split_threads n_bytes n_threads thread_index in
    let s = (r.end + 2 ^ 32 - r.start) % 2 ^ 32 in
    if s == 0 then ok cache else memcpy cache r.start target r.start s

-- The bytes of the buffers and pipes, and the writes that wait in the database.
pub record CacheState : Type 0 where
  pub memory : Memory → Buffer
  pub staged : ℕ → ℕ → Buffer

abbrev pub same_memory : Memory → Memory → Bool
same_memory (slot_buffer s i) (slot_buffer t j) = s == t && i == j
same_memory (pipe i) (pipe j) = i == j
same_memory _ _ = false

abbrev pub same_type : NnCacheSyncType → NnCacheSyncType → Bool
same_type cache_sync_save cache_sync_save = true
same_type cache_sync_save_kv cache_sync_save_kv = true
same_type cache_sync_load cache_sync_load = true
same_type _ _ = false

-- `cacheId` of the operation.
abbrev pub cache_id : NnCacheSyncType → NnNetExecution → ℕ
cache_id cache_sync_load e = e.cache_load_id
cache_id _ e = e.cache_save_id

-- `nBytes`. Of keys and values as many rows are saved as the first position says.
abbrev pub saved_bytes : NnCacheSyncType → NnSize2D → ℕ → Result ℕ
saved_bytes cache_sync_save_kv size kv_pos = do
  s ← size_2d size.float_type kv_pos size.x
  ok s.n_bytes
saved_bytes _ size kv_pos = ok size.n_bytes

-- `read` is what the database does to a buffer of that size; `kv_pos` the number at `kvPos`.
module _ (read : ℕ → ℕ → ℕ → Buffer → Result Buffer) (n_threads : ℕ) (e : NnNetExecution)
    (kv_pos : ℕ) where
  abbrev pub staged_with : ℕ → ℕ → Buffer → CacheState → CacheState
  staged_with id index b s = record s {
    staged = λ i j. if i == id && j == index then b else s.staged i j;
  }

  abbrev pub save_op :
      NnCacheSyncType → NnCpuDeviceCacheSyncOp → Memory → ℕ → CacheState → Result CacheState
  save_op type op target thread_index s = do
    n_bytes ← saved_bytes type op.size kv_pos
    b ←
        save_part n_bytes n_threads thread_index (s.memory target)
          (s.staged (cache_id type e) op.buffer_index)
    ok (staged_with (cache_id type e) op.buffer_index b s)

  abbrev pub sync_target :
      NnCacheSyncType → NnCpuDeviceCacheSyncOp → Memory → ℕ → CacheState → Result CacheState
  sync_target cache_sync_load op target thread_index s =
      if thread_index == 0
      then (do
        b ← read e.cache_load_id op.buffer_index op.size.n_bytes (s.memory target)
        ok (record s { memory = λ m. if same_memory m target then b else s.memory m }))
      else ok s
  sync_target cache_sync_save op target thread_index s =
      save_op cache_sync_save op target thread_index s
  sync_target cache_sync_save_kv op target thread_index s =
      save_op cache_sync_save_kv op target thread_index s

  -- One turn of the loop, in one thread.
  unfoldable pub sync_op :
      NnCacheSyncType → NnCpuDeviceCacheSyncOp → ℕ → CacheState → Result CacheState
  unfolding save_part size_2d
  sync_op type op thread_index s =
      if same_type op.type type && not (cache_id op.type e == cache_skip)
      then (do
        target ← found (get_elem? op.slot_targets e.slot)
        sync_target op.type op target thread_index s)
      else ok s

  unfoldable pub sync_cache :
      List NnCpuDeviceCacheSyncOp → NnCacheSyncType → ℕ → CacheState → Result CacheState
  unfolding sync_op
  sync_cache [] type thread_index s = ok s
  sync_cache (op ∷ ops) type thread_index s = do
    s' ← sync_op type op thread_index s
    sync_cache ops type thread_index s'
