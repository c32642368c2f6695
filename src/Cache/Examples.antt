-- ===== src/Cache/Examples.antt =====
-- The prefix cache on small inputs, with a table for the trie.
use distributed_llama.Base.{
  ℕ, zero, suc, ◌^◌, ◌≤◌, ◌<◌, ◌≡◌, ◌⊎◌, refl, arith, true, List, [], ◌∷◌, none, some, length,
  replicate, Result, ok, err,
}
use distributed_llama.Cache.Tokens.{All, IsToken, bytes_of}
use distributed_llama.Cache.Trie.{NnCacheDst, cache_device_slot}
use distributed_llama.Cache.Table.{table, find_head}
use distributed_llama.Cache.Manager.Invariant.{
  Inv, IsPrompt, update_device_slot-Inv, update_nn_cache_database_metadata-Inv,
}
use distributed_llama.Cache.Manager.Lookup.{IsHit, lookup_lem, lookup-longest}
use distributed_llama.Cache.Manager.Slots.{IsPicked, pick_slot_lem}
use distributed_llama.Cache.Manager.Start.{
  IsLoaded, Below, HasSuccessor, new_manager-Inv, new_manager-Below, get_cache_id-new,
}
use distributed_llama.Cache.Manager.{
  NnPrefixCacheManager, NnCacheDatabaseMetadata, new_manager, lookup, pick_slot, get_cache_id,
  update_device_slot, update_nn_cache_database_metadata, miss, NnDeviceSlotStatus, update_status,
  load_metas,
}

-- A prompt, a record of the database, and a manager of two slots that has loaded it.
abbrev prompt : List ℕ
prompt = 5 ∷ 6 ∷ 7 ∷ []

prompt-IsPrompt : IsPrompt prompt
prompt-IsPrompt = (omega arith, (omega arith, (omega arith, (omega arith, tt))))

abbrev stored : List NnCacheDatabaseMetadata
stored =
    record { id = 4; prefix = 1 ∷ 2 ∷ []; prefix_len = 2; lru_score = 9 }
    ∷ record { id = 6; prefix = 5 ∷ []; prefix_len = 1; lru_score = 3 }
    ∷ []

stored-IsLoaded : IsLoaded (some stored)
stored-IsLoaded = (
  (((λ e. omega (arith, e)), tt), (tt, tt)),
  (
    ((omega arith, (omega arith, (omega arith, tt))), refl),
    (((omega arith, (omega arith, tt)), refl), tt),
  ),
)

stored-HasSuccessor : All HasSuccessor stored
stored-HasSuccessor = ((omega arith, omega arith), ((omega arith, omega arith), tt))

abbrev manager : NnPrefixCacheManager table
manager = new_manager table 2 (some stored)

manager-Inv : Inv table manager
manager-Inv = new_manager-Inv table 2 (some stored) stored-IsLoaded

new_manager-Inv_example : Inv table manager
new_manager-Inv_example = new_manager-Inv table 2 (some stored) stored-IsLoaded

manager-has_db : manager.has_db ≡ true
unfolding new_manager load_metas
manager-has_db = refl

manager-room : suc manager.next_cache_id < 2 ^ 32
unfolding new_manager load_metas
manager-room = omega arith

get_cache_id-new_example :
    (manager.db_metas (get_cache_id table manager).0 ≡ none)
    × Below table (get_cache_id table manager).1
    × ((get_cache_id table manager).0 < (get_cache_id table manager).1.next_cache_id)
get_cache_id-new_example =
    get_cache_id-new table manager (new_manager-Below table 2 stored stored-HasSuccessor)
      manager-has_db manager-room

manager-slots : 0 < length manager.device_slots
unfolding new_manager load_metas
manager-slots = omega arith

pick_slot_lem_example :
    (best : NnDeviceSlotStatus) × (pick_slot table manager ≡ ok best.slot)
    × IsPicked best manager.device_slots
pick_slot_lem_example = pick_slot_lem table manager manager-slots

abbrev updated : Result (NnPrefixCacheManager table) → NnPrefixCacheManager table
updated (ok m) = m
updated (err e) = manager

abbrev slotted : NnPrefixCacheManager table
slotted = updated (update_device_slot table manager 1 prompt 7)

slotted_ok : update_device_slot table manager 1 prompt 7 ≡ ok slotted
unfolding update_device_slot update_status new_manager load_metas
slotted_ok = refl

update_device_slot-Inv_example : Inv table slotted
update_device_slot-Inv_example =
    update_device_slot-Inv table manager slotted 1 prompt 7 prompt-IsPrompt manager-Inv slotted_ok

update_nn_cache_database_metadata-Inv_example :
    Inv table (update_nn_cache_database_metadata table manager 6 prompt)
update_nn_cache_database_metadata-Inv_example =
    update_nn_cache_database_metadata-Inv table manager 6 prompt prompt-IsPrompt manager-Inv

lookup_lem_example :
    (lookup table manager prompt ≡ miss) ⊎ IsHit table manager prompt (lookup table manager prompt)
lookup_lem_example = lookup_lem table manager prompt manager-Inv prompt-IsPrompt.1

-- A manager that knows a prompt of 130 tokens.
abbrev long : List ℕ
long = replicate 130 9

abbrev long_entry : NnCacheDst
long_entry = record { type = cache_device_slot; slot = 0; id = 4; prefix_len = 130; match_len = 0 }

abbrev full : NnPrefixCacheManager table
full = record manager { trie = (bytes_of long, long_entry) ∷ [] }

All-replicate : (n x : ℕ) → IsToken x → All IsToken (replicate n x)
All-replicate zero x h = tt
All-replicate (suc n) x h = (h, All-replicate n x h)

lookup-longest_example : 130 ≤ (lookup table full long).match_len
lookup-longest_example =
    lookup-longest table full long long long_entry 130 (All-replicate 130 9 (omega arith))
      (find_head [] (bytes_of long) long_entry) (omega arith, omega arith, refl) (omega arith)
