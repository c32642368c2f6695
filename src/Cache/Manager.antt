-- ===== src/Cache/Manager.antt =====
-- NnPrefixCacheManager. The trie is a parameter; the database shows as whether it is there, the
-- metadata that it loads and the writes that are made to it. The counters are NnUints.
mod Entries
pub mod Invariant
pub mod Lookup
pub mod Slots
pub mod Start
use distributed_llama.Base.{
  ℕ, zero, suc, ◌+◌, ◌-◌, ◌*◌, ◌/◌, ◌^◌, ◌%◌, ◌≤◌, ◌<◌, ◌≡◌, refl, arith, Bool, true, false, ◌&&◌,
  ◌||◌, List, [], ◌∷◌, ◌++◌, Option, none, some, ltb, leb, ◌==◌, if◌then◌else◌, length, take, drop,
  get_elem?, set, Result, ok, err, memory,
}
use distributed_llama.Cache.Tokens.{bytes_of}
use distributed_llama.Cache.Trie.{
  Trie, NnCacheDst, NnCacheDstType, cache_miss, cache_db, cache_device_slot,
}

abbrev pub nn_prefix_cache_min_len : ℕ
nn_prefix_cache_min_len = 128

abbrev pub nn_prefix_cache_max_len : ℕ
nn_prefix_cache_max_len = 8192

-- CACHE_SKIP, the id that stands for no entry of the database.
abbrev pub cache_skip : ℕ
cache_skip = 0

-- The indices under which the database keeps the LRU score and the prefix.
abbrev pub nn_lru_score_index : ℕ
nn_lru_score_index = 2 ^ 32 - 1

abbrev pub nn_prefix_index : ℕ
nn_prefix_index = 2 ^ 32 - 2

pub record NnDeviceSlotStatus : Type 0 where
  pub slot : ℕ
  pub prefix : List ℕ
  pub prefix_len : ℕ
  pub lru_score : ℕ

pub record NnCacheDatabaseMetadata : Type 0 where
  pub id : ℕ
  pub prefix : List ℕ
  pub prefix_len : ℕ
  pub lru_score : ℕ

-- One `getWriteBuffer` and what is copied into it.
pub record Write : Type 0 where
  pub id : ℕ
  pub buffer_index : ℕ
  pub bytes : List ℕ

-- The first `length new` elements of an array, copied over.
abbrev pub overwrite : List ℕ → List ℕ → List ℕ
overwrite new old = new ++ drop (length new) old

abbrev pub is_device_of : ℕ → NnCacheDst → Bool
is_device_of slot d = elim d.type [ cache_device_slot ↦ d.slot == slot | _ ↦ false ]

abbrev pub is_db_of : ℕ → NnCacheDst → Bool
is_db_of id d = elim d.type [ cache_db ↦ d.id == id | _ ↦ false ]

-- A map from ids with one entry changed.
abbrev pub update {ℓ} : {A : Type ℓ} → (ℕ → Option A) → ℕ → A → ℕ → Option A
update f i v j = if i == j then some v else f j

abbrev pub fresh_slots : ℕ → ℕ → List NnDeviceSlotStatus
fresh_slots zero i = []
fresh_slots (suc n) i =
    record { slot = i; prefix = []; prefix_len = 0; lru_score = 0 } ∷ fresh_slots n (i + 1)

abbrev pub miss : NnCacheDst
miss = record { type = cache_miss; slot = 0; id = 0; prefix_len = 0; match_len = 0 }

abbrev pub clip : List ℕ → List ℕ
clip token =
    if leb nn_prefix_cache_max_len (length token) then take nn_prefix_cache_max_len token else token

-- What `dbMetas[id]` refers to: a new entry where there is none, with its array not yet set.
abbrev pub meta_or_new : Option NnCacheDatabaseMetadata → NnCacheDatabaseMetadata
meta_or_new none = record { id = 0; prefix = []; prefix_len = 0; lru_score = 0 }
meta_or_new (some meta) = meta

-- lookup from what the trie finds, and how many tokens of the request it shares.
abbrev pub found_dst : Option NnCacheDst → ℕ → NnCacheDst
found_dst none matched = miss
found_dst (some d) matched =
    if ltb matched nn_prefix_cache_min_len then miss else record d { match_len = matched }

abbrev pub prefer_pick_than : NnDeviceSlotStatus → NnDeviceSlotStatus → Bool
prefer_pick_than lhs rhs =
    if ltb lhs.lru_score rhs.lru_score
    then true
    else if ltb rhs.lru_score lhs.lru_score
    then false
    else if ltb lhs.prefix_len rhs.prefix_len
    then true
    else if ltb rhs.prefix_len lhs.prefix_len
    then false
    else ltb lhs.slot rhs.slot

-- std::sort by `prefer_pick_than`.
unfoldable pub sorted_in : NnDeviceSlotStatus → List NnDeviceSlotStatus → List NnDeviceSlotStatus
sorted_in s [] = s ∷ []
sorted_in s (r ∷ rest) =
    let below = sorted_in s rest in if prefer_pick_than r s then r ∷ below else s ∷ r ∷ rest

unfoldable pub sort : List NnDeviceSlotStatus → List NnDeviceSlotStatus
unfolding sorted_in
sort [] = []
sort (s ∷ rest) = sorted_in s (sort rest)

-- The first element of a vector, and an access outside it where there is none.
abbrev pub first_slot : List NnDeviceSlotStatus → Result ℕ
first_slot [] = err memory
first_slot (s ∷ rest) = ok s.slot

module _ (t : Trie) where
  open t use {Map, empty, find, insert, erase, longest}

  pub record NnPrefixCacheManager : Type 0 where
    pub n_slots : ℕ
    pub trie : Map
    pub device_slots : List NnDeviceSlotStatus
    pub db_metas : ℕ → Option NnCacheDatabaseMetadata
    pub next_lru_score : ℕ
    pub next_cache_id : ℕ
    pub has_db : Bool
    pub writes : List Write

  -- The loop of the constructor over the metadata that the database has loaded.
  unfoldable pub load_metas :
      List NnCacheDatabaseMetadata → NnPrefixCacheManager → NnPrefixCacheManager
  load_metas [] m = m
  load_metas (it ∷ rest) m = load_metas rest (record m {
    next_lru_score =
        if leb m.next_lru_score it.lru_score then (it.lru_score + 1) % 2 ^ 32 else m.next_lru_score;
    next_cache_id = if leb m.next_cache_id it.id then (it.id + 1) % 2 ^ 32 else m.next_cache_id;
    db_metas = update m.db_metas it.id it;
    trie = insert m.trie (bytes_of (take it.prefix_len it.prefix)) (record {
      type = cache_db;
      slot = 0;
      id = it.id;
      prefix_len = it.prefix_len;
      match_len = 0;
    });
  })

  -- `none` is a null database.
  unfoldable pub new_manager : ℕ → Option (List NnCacheDatabaseMetadata) → NnPrefixCacheManager
  unfolding load_metas
  new_manager slots db =
      let start : NnPrefixCacheManager = record {
        n_slots = slots;
        trie = empty;
        device_slots = fresh_slots slots 0;
        db_metas = λ _. none;
        next_lru_score = 1;
        next_cache_id = 1;
        has_db = false;
        writes = [];
      } in
      elim db [ none ↦ start | some metas ↦ load_metas metas (record start { has_db = true }) ]

  unfoldable pub lookup : NnPrefixCacheManager → List ℕ → NnCacheDst
  lookup m token = let found = longest m.trie (bytes_of token) in found_dst found.0 (found.1 / 4)

  unfoldable pub pick_slot : NnPrefixCacheManager → Result ℕ
  unfolding sort
  pick_slot m = first_slot (sort m.device_slots)

  -- CACHE_SKIP with no database.
  unfoldable pub get_cache_id : NnPrefixCacheManager → ℕ × NnPrefixCacheManager
  get_cache_id m =
      if m.has_db
      then (m.next_cache_id, record m { next_cache_id = (m.next_cache_id + 1) % 2 ^ 32 })
      else (cache_skip, m)

  -- The entry of the slot's last prefix goes, if it is still the slot's.
  unfoldable pub drop_slot_entry : Map → ℕ → NnDeviceSlotStatus → Map
  drop_slot_entry trie slot s =
      let key = bytes_of (take s.prefix_len s.prefix) in
      if ltb 0 s.prefix_len
      then elim (find trie key) [
        | none ↦ trie
        | some d ↦ if is_device_of slot d then erase trie key else trie
      ]
      else trie

  -- The end of updateDeviceSlot, from what the trie has under the new prefix.
  unfoldable pub place_slot :
      NnPrefixCacheManager
      → Map
      → ℕ
      → NnDeviceSlotStatus
      → List ℕ
      → ℕ
      → Option NnCacheDst
      → NnPrefixCacheManager
  place_slot m trie slot s token cache_id (some _) = record m {
    trie = trie;
    device_slots = set m.device_slots slot (record s { prefix_len = 0; lru_score = 0 });
  }
  place_slot m trie slot s token cache_id none = record m {
    trie = insert trie (bytes_of token) (record {
      type = cache_device_slot;
      slot = slot;
      id = cache_id;
      prefix_len = length token;
      match_len = 0;
    });
    device_slots = set m.device_slots slot s;
  }

  -- updateDeviceSlot from the slot's status; `none` is an access outside the vector.
  unfoldable pub update_status :
      NnPrefixCacheManager
      → ℕ
      → List ℕ
      → ℕ
      → Option NnDeviceSlotStatus
      → Result NnPrefixCacheManager
  unfolding place_slot
  update_status m slot tokens cache_id none = err memory
  update_status m slot tokens cache_id (some s) =
      let token = clip tokens in
      let trie = drop_slot_entry m.trie slot s in
      let s' : NnDeviceSlotStatus = record s {
        prefix = overwrite token s.prefix;
        prefix_len = length token;
        lru_score = m.next_lru_score;
      } in
      let m' : NnPrefixCacheManager = record m {
        next_lru_score = (m.next_lru_score + 1) % 2 ^ 32;
      } in
      ok (place_slot m' trie slot s' token cache_id (find trie (bytes_of token)))

  unfoldable pub update_device_slot :
      NnPrefixCacheManager → ℕ → List ℕ → ℕ → Result NnPrefixCacheManager
  unfolding update_status
  update_device_slot m slot tokens cache_id =
      update_status m slot tokens cache_id (get_elem? m.device_slots slot)

  unfoldable pub drop_db_entry : Map → ℕ → Option NnCacheDatabaseMetadata → Map
  drop_db_entry trie id none = trie
  drop_db_entry trie id (some meta) =
      let key = bytes_of (take meta.prefix_len meta.prefix) in
      elim (find trie key) [ none ↦ trie | some d ↦ if is_db_of id d then erase trie key else trie ]

  -- An insertion that is made only if the key was not found.
  abbrev pub insert_new : Map → List ℕ → NnCacheDst → Option NnCacheDst → Map
  insert_new trie key d (some _) = trie
  insert_new trie key d none = insert trie key d

  -- What updateNnCacheDatabaseMetadata does with a database, from what `dbMetas` has under the id.
  unfoldable pub update_metadata :
      NnPrefixCacheManager → ℕ → List ℕ → Option NnCacheDatabaseMetadata → NnPrefixCacheManager
  unfolding drop_db_entry
  update_metadata m id tokens old =
      let token = clip tokens in
      let trie = drop_db_entry m.trie id old in
      let entry : NnCacheDst = record {
        type = cache_db;
        slot = 0;
        id = id;
        prefix_len = length token;
        match_len = 0;
      } in
      let meta : NnCacheDatabaseMetadata = record (meta_or_new old) {
        prefix = overwrite token (meta_or_new old).prefix;
        prefix_len = length token;
        lru_score = m.next_lru_score;
      } in
      let w1 : Write = record { id = id; buffer_index = nn_prefix_index; bytes = bytes_of token } in
      let w2 : Write = record {
        id = id;
        buffer_index = nn_lru_score_index;
        bytes = bytes_of (m.next_lru_score ∷ []);
      } in
      record m {
        trie = insert_new trie (bytes_of token) entry (find trie (bytes_of token));
        db_metas = update m.db_metas id meta;
        next_lru_score = (m.next_lru_score + 1) % 2 ^ 32;
        writes = m.writes ++ (w1 ∷ w2 ∷ []);
      }

  unfoldable pub update_nn_cache_database_metadata :
      NnPrefixCacheManager → ℕ → List ℕ → NnPrefixCacheManager
  unfolding update_metadata
  update_nn_cache_database_metadata m id tokens =
      if m.has_db then update_metadata m id tokens (m.db_metas id) else m
