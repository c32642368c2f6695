-- ===== src/Cpu/SyncCache/Saves.antt =====
-- The threads together save the buffer of the slot.
use distributed_llama.Base.{
  ℕ, zero, suc, ◌+◌, ◌-◌, ◌%◌, ◌^◌, ◌≤◌, ◌<◌, ◌≡◌, ◌≢◌, refl, subst, ok_injective, sym, ap, ◌⊎◌,
  inl, inr, Bool-cases, ◌∙◌, arith, true, false, ◌&&◌, get_elem?, some, ltb, ◌==◌, if◌then◌else◌,
  Result, ok,
}
use distributed_llama.Base.Buffer.{Buffer, memcpy, memcpy_ok}
use distributed_llama.Base.Loops.{for_range, for_range_ok}
use distributed_llama.Quants.Threads.{
  split_threads, cut, cut-end, cut_mono, cut-le, split_threads-cut,
}
use distributed_llama.Core.Config.{
  NnCacheSyncType, cache_sync_save, cache_sync_save_kv, cache_sync_load,
}
use distributed_llama.Cache.Manager.{cache_skip}
use distributed_llama.Executor.{NnNetExecution}
use distributed_llama.Cpu.Pointers.{Memory}
use distributed_llama.Cpu.Segments.{NnCpuDeviceCacheSyncOp}
use distributed_llama.Cpu.SyncCache.{
  resize, save_part, CacheState, cache_id, saved_bytes, staged_with, sync_op,
}

part_ok :
    (a b : ℕ) (cache target : Buffer)
    → a ≤ b
    → b < 2 ^ 32
    → b ≤ cache.size
    → b ≤ target.size
    → ((i : ℕ) → i < a → cache.byte i ≡ target.byte i)
    → (out : Buffer) × ((if (b + 2 ^ 32 - a) % 2 ^ 32 == 0
          then ok cache
          else memcpy cache a target a ((b + 2 ^ 32 - a) % 2 ^ 32))
        ≡ ok out)
      × (out.size ≡ cache.size)
      × ((i : ℕ) → i < b → out.byte i ≡ target.byte i)
part_ok a b cache target le small in_cache in_target same =
    let len : (b + 2 ^ 32 - a) % 2 ^ 32 ≡ b - a = omega arith in
    rw len (elim (Bool-cases (b - a == 0)) [
      | inl e ↦
          let nothing : b ≤ a = ground (arith, e) in
          (cache, rw e refl, refl, λ i lt. same i (omega (arith, nothing)))
      | inr e ↦
          let (out, run, size, copied, kept) =
            memcpy_ok cache a target a (b - a) (omega arith) (omega arith) in
          (
            out,
            rw e run,
            size,
            λ i lt. elim (below_or_from i a) [
              | inl below ↦ kept i below ∙ same i below
              | inr (k, at_k) ↦ rw at_k (copied k (omega arith))
            ],
          )
    ])
  where
    below_or_from : (i a : ℕ) → (i < a) ⊎ ((k : ℕ) × (i ≡ a + k))
    below_or_from i zero = inr (i, omega arith)
    below_or_from zero (suc a) = inl (omega arith)
    below_or_from (suc i) (suc a) = elim (below_or_from i a) [
      | inl lt ↦ inl (omega arith)
      | inr (k, e) ↦ inr (k, omega arith)
    ]

-- What the threads below `t` have saved.
Saved : ℕ → ℕ → Buffer → ℕ → Buffer → Type 0
Saved n_bytes n_threads target t s =
    (0 < t → s.size ≡ n_bytes) × ((i : ℕ) → i < cut n_bytes n_threads t → s.byte i ≡ target.byte i)

save_part-Saved :
    (n_bytes n_threads : ℕ) (target : Buffer)
    → n_bytes < 2 ^ 32
    → n_bytes ≤ target.size
    → (t : ℕ) (s : Buffer) → t < n_threads
    → Saved n_bytes n_threads target t s
    → (s' : Buffer) × (save_part n_bytes n_threads t target s ≡ ok s')
      × Saved n_bytes n_threads target (t + 1) s'
unfolding save_part Saved
save_part-Saved n_bytes n_threads target small fits t s lt (size, same) =
    let (starts, ends) = split_threads-cut n_bytes n_threads t small lt in
    let grows : cut n_bytes n_threads t ≤ cut n_bytes n_threads (t + 1) =
      cut_mono n_bytes n_threads t (t + 1) (omega arith) in
    let within : cut n_bytes n_threads (t + 1) ≤ n_bytes =
      cut-le n_bytes n_threads (t + 1) (omega arith) (omega arith) in
    let r = split_threads n_bytes n_threads t in
    let before : (i : ℕ) → i < r.start → (resize n_bytes s).byte i ≡ target.byte i = λ i below.
      let below' : i < cut n_bytes n_threads t = omega (arith, starts, below) in
      resized i (omega (arith, size (positive t i below'), below', within, grows))
        (same i below') in
    let (out, run, sized, copied) =
      part_ok r.start r.end (resize n_bytes s) target (omega (arith, starts, ends, grows))
        (omega (arith, ends, within, small)) (omega (arith, ends, within))
        (omega (arith, ends, within)) before in
    (out, run, ((λ p. sized), λ i lt. copied i (omega (arith, ends, lt))))
  where
    positive : (t i : ℕ) → i < cut n_bytes n_threads t → 0 < t
    positive zero i below = absurd (omega arith)
    positive (suc t) i below = omega arith

    resized : (i : ℕ) {v : ℕ} → i < s.size → s.byte i ≡ v → (resize n_bytes s).byte i ≡ v
    resized i lt e = let inside : ltb i s.size ≡ true = ground arith in rw inside e

abbrev pub IsSave : NnCacheSyncType → Type 0
IsSave cache_sync_load = ⊥
IsSave _ = Unit

module _ (read : ℕ → ℕ → ℕ → Buffer → Result Buffer) (n_threads : ℕ) (e : NnNetExecution)
    (kv_pos : ℕ) where
  sync_op-save :
      (type : NnCacheSyncType) (op : NnCpuDeviceCacheSyncOp) (target : Memory) (t n_bytes : ℕ)
      (s : CacheState) (b : Buffer)
      → op.type ≡ type
      → IsSave type
      → cache_id type e ≢ cache_skip
      → get_elem? op.slot_targets e.slot ≡ some target
      → saved_bytes type op.size kv_pos ≡ ok n_bytes
      → save_part n_bytes n_threads t (s.memory target) (s.staged (cache_id type e) op.buffer_index)
        ≡ ok b
      → sync_op read n_threads e kv_pos type op t s
        ≡ ok (staged_with read n_threads e kv_pos (cache_id type e) op.buffer_index b s)
  unfolding sync_op
  sync_op-save cache_sync_load op target t n_bytes s b is save used at size part = elim save [ ]
  sync_op-save cache_sync_save op target t n_bytes s b is save used at size part =
      let other : (e.cache_save_id == cache_skip) ≡ false = ground (arith, used) in
      rw (is, other, at, ok_injective size, part) refl
  sync_op-save cache_sync_save_kv op target t n_bytes s b is save used at size part =
      let other : (e.cache_save_id == cache_skip) ≡ false = ground (arith, used) in
      rw (is, other, at, size, part) refl

  -- For an operation that saves, with an id to save under, the buffer of the slot at least as long
  -- as the bytes to save and fewer than 2 ^ 32 of these, the turns that the threads make for it,
  -- one after the other, succeed, leave the memory as it is, and stage for the id and the buffer
  -- exactly as many bytes as are to be saved, which are the first bytes of the buffer of the slot.
  pub sync_op-save_all :
      (type : NnCacheSyncType) (op : NnCpuDeviceCacheSyncOp) (target : Memory) (n_bytes : ℕ)
      (s : CacheState)
      → 0 < n_threads
      → op.type ≡ type
      → IsSave type
      → cache_id type e ≢ cache_skip
      → get_elem? op.slot_targets e.slot ≡ some target
      → saved_bytes type op.size kv_pos ≡ ok n_bytes
      → n_bytes < 2 ^ 32
      → n_bytes ≤ (s.memory target).size
      → (s' : CacheState) × (for_range n_threads 0
            (λ t s. sync_op read n_threads e kv_pos type op t s)
            s
          ≡ ok s')
        × (s'.memory ≡ s.memory)
        × ((s'.staged (cache_id type e) op.buffer_index).size ≡ n_bytes)
        × ((i : ℕ)
            → i < n_bytes
            → (s'.staged (cache_id type e) op.buffer_index).byte i ≡ (s.memory target).byte i)
  unfolding Saved
  sync_op-save_all type op target n_bytes s some_threads is save used at size small fits =
      let id = cache_id type e in
      let (s', run, (same, (sized, copied))) =
        for_range_ok Keeps (λ t s. sync_op read n_threads e kv_pos type op t s) n_threads keep
          n_threads 0 s (omega arith)
          (refl, ((λ p. absurd (omega arith)), λ i lt. absurd (omega arith))) in
      (
        s',
        run,
        same,
        sized some_threads,
        λ i lt. copied i (omega (arith, lt, cut-end n_bytes n_threads some_threads)),
      )
    where
      Keeps : ℕ → CacheState → Type 0
      Keeps t s1 =
          (s1.memory ≡ s.memory)
          × Saved n_bytes n_threads (s.memory target) t
              (s1.staged (cache_id type e) op.buffer_index)

      put : (i j : ℕ) (b c : Buffer) → (if i == i && j == j then b else c) ≡ b
      put i j b c =
          let here : (i == i) ≡ true = ground arith in
          let there : (j == j) ≡ true = ground arith in rw (here, there) refl

      keep :
          (t : ℕ) (s1 : CacheState)
          → t < n_threads
          → Keeps t s1
          → (s2 : CacheState) × (sync_op read n_threads e kv_pos type op t s1 ≡ ok s2)
            × Keeps (t + 1) s2
      keep t s1 lt (same, saved) =
          let id = cache_id type e in
          let (b, run, saved') =
            save_part-Saved n_bytes n_threads (s.memory target) small fits t
              (s1.staged id op.buffer_index) lt saved in
          (
            staged_with read n_threads e kv_pos id op.buffer_index b s1,
            sync_op-save type op target t n_bytes s1 b is save used at size (
                ap
                  (λ (m : Memory → Buffer).
                    save_part n_bytes n_threads t (m target) (s1.staged id op.buffer_index))
                  same
                ∙ run),
            (
              same,
              subst (Saved n_bytes n_threads (s.memory target) (t + 1))
                  (sym (put id op.buffer_index b (s1.staged id op.buffer_index))) saved',
            ),
          )
