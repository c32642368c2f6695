-- ===== src/Cache/Manager/Start.antt =====
-- The constructor of NnPrefixCacheManager (src/nn/nn-cache.cpp): the metadata that the database has
-- loaded, and the counters that follow it.
use distributed_llama.Base.{
  ℕ, suc, ◌+◌, ◌%◌, ◌^◌, ◌≤◌, ◌<◌, ◌≡◌, ◌≢◌, refl, arith, true, false, List, [], ◌∷◌, Option, none,
  some, Bool-cases, leb, if◌then◌else◌, inl, inr, length,
}
use distributed_llama.Cache.Tokens.{All, bytes_of}
use distributed_llama.Cache.Trie.{Trie, NnCacheDst, cache_db}
use distributed_llama.Cache.Manager.Entries.{saved, Entry, Kept, Entry-update, Entry-db}
use distributed_llama.Cache.Manager.Invariant.{Inv, IsPrompt, insert_any-Kept, update_self}
use distributed_llama.Cache.Manager.{
  NnCacheDatabaseMetadata, NnDeviceSlotStatus, NnPrefixCacheManager, is_db_of, update, load_metas,
  new_manager, get_cache_id,
}

-- A record as the database gives it: a prompt, all of it in the array, and a score that has a
-- successor.
abbrev pub IsStored : NnCacheDatabaseMetadata → Type 0
IsStored it = IsPrompt (saved it) × (it.prefix_len ≡ length (saved it))

abbrev pub AreDistinct : List NnCacheDatabaseMetadata → Type 0
AreDistinct [] = Unit
AreDistinct (it ∷ rest) = All (λ other. it.id ≢ other.id) rest × AreDistinct rest

-- No database, or distinct records.
abbrev pub IsLoaded : Option (List NnCacheDatabaseMetadata) → Type 0
IsLoaded none = Unit
IsLoaded (some metas) = AreDistinct metas × All IsStored metas

abbrev Unused : (ℕ → Option NnCacheDatabaseMetadata) → NnCacheDatabaseMetadata → Type 0
Unused metas it = metas it.id ≡ none

still-Unused :
    (metas : ℕ → Option NnCacheDatabaseMetadata) (it : NnCacheDatabaseMetadata)
    (rest : List NnCacheDatabaseMetadata)
    → All (λ other. it.id ≢ other.id) rest
    → All (Unused metas) rest
    → All (Unused (update metas it.id it)) rest
still-Unused metas it [] h k = tt
still-Unused metas it (x ∷ rest) (h, hs) (k, ks) = (other, still-Unused metas it rest hs ks)
  where
    other : update metas it.id it x.id ≡ none
    other = ground (arith, h, k)

-- The id and the score have successors.
abbrev pub HasSuccessor : NnCacheDatabaseMetadata → Type 0
HasSuccessor it = (suc it.id < 2 ^ 32) × (suc it.lru_score < 2 ^ 32)

module _ (t : Trie) where
  open t use {Map, find, insert, empty, find-empty}

  load_one-Kept :
      (trie : Map) (slots : List NnDeviceSlotStatus) (metas : ℕ → Option NnCacheDatabaseMetadata)
      (it : NnCacheDatabaseMetadata)
      → IsStored it
      → Unused metas it
      → Kept t trie slots metas
      → Kept t
          (insert trie (bytes_of (saved it)) (record {
            type = cache_db;
            slot = 0;
            id = it.id;
            prefix_len = it.prefix_len;
            match_len = 0;
          }))
          slots
          (update metas it.id it)
  load_one-Kept trie slots metas it (prompt, len) unused kept =
      insert_any-Kept t trie slots (update metas it.id it) _ _ _ others refl
        (saved it, prompt.0, prompt.1, refl, len, (it, update_self metas it.id it, refl))
    where
      named : (key : List ℕ) (d : NnCacheDst) → Entry slots metas key d → is_db_of it.id d ≡ false
      named key d entry = elim (Bool-cases (is_db_of it.id d)) [
        | inr h ↦ h
        | inl h ↦ let (m, g, _) = Entry-db slots metas it.id key d h entry in cc
      ]

      others : Kept t trie slots (update metas it.id it)
      others key d h =
          Entry-update slots metas it.id it key d (named key d (kept key d h)) (kept key d h)

  load_metas-Inv :
      (metas : List NnCacheDatabaseMetadata) (m : NnPrefixCacheManager t)
      → AreDistinct metas
      → All IsStored metas
      → All (Unused m.db_metas) metas
      → Inv t m
      → Inv t (load_metas t metas m)
  unfolding load_metas
  load_metas-Inv [] m d s u inv = inv
  load_metas-Inv (it ∷ rest) m (new, d) (s, ss) (u, us) inv =
      load_metas-Inv rest _ d ss (still-Unused m.db_metas it rest new us)
        (load_one-Kept m.trie m.device_slots m.db_metas it s u inv)

  empty-Kept : (slots : List NnDeviceSlotStatus) → Kept t empty slots (λ _. none)
  empty-Kept slots = λ key d e. cc (find-empty key)

  -- A manager begins with the invariant of the trie, whether it has no database or one that has
  -- loaded records of different ids with a prompt each.
  pub new_manager-Inv :
      (slots : ℕ) (db : Option (List NnCacheDatabaseMetadata))
      → IsLoaded db
      → Inv t (new_manager t slots db)
  unfolding new_manager
  new_manager-Inv slots none h = empty-Kept _
  new_manager-Inv slots (some metas) h =
      load_metas-Inv metas _ h.0 h.1 (unused metas) (empty-Kept _)
    where
      unused : (metas : List NnCacheDatabaseMetadata) → All (Unused (λ _. none)) metas
      unused [] = tt
      unused (x ∷ rest) = (refl, unused rest)

  -- Every record of the database is below the counters.
  abbrev pub Below : NnPrefixCacheManager t → Type 0
  Below m =
      (id : ℕ) (it : NnCacheDatabaseMetadata)
      → m.db_metas id ≡ some it
      → (id < m.next_cache_id) × (it.lru_score < m.next_lru_score)

  load_metas-Below :
      (metas : List NnCacheDatabaseMetadata) (m : NnPrefixCacheManager t)
      → All HasSuccessor metas
      → Below m
      → Below (load_metas t metas m)
  unfolding load_metas
  load_metas-Below [] m s h = h
  load_metas-Below (it ∷ rest) m (s, ss) h = load_metas-Below rest _ ss one
    where
      bound :
          (a b : ℕ)
          → suc b < 2 ^ 32
          → (a ≤ (if leb a b then (b + 1) % 2 ^ 32 else a))
            × (b < (if leb a b then (b + 1) % 2 ^ 32 else a))
      bound a b lt = ground arith

      one :
          (id : ℕ) (x : NnCacheDatabaseMetadata)
          → update m.db_metas it.id it id ≡ some x
          → (id < (if leb m.next_cache_id it.id then (it.id + 1) % 2 ^ 32 else m.next_cache_id))
            × (x.lru_score < (
                if leb m.next_lru_score it.lru_score
                then (it.lru_score + 1) % 2 ^ 32
                else m.next_lru_score))
      one id x e =
          ground (
            arith,
            h id x,
            bound m.next_cache_id it.id s.0,
            bound m.next_lru_score it.lru_score s.1,
          )

  -- The counters of a new manager are above the ids and the scores of every record that the
  -- database has loaded, if these leave room for one more.
  pub new_manager-Below :
      (slots : ℕ) (metas : List NnCacheDatabaseMetadata)
      → All HasSuccessor metas
      → Below (new_manager t slots (some metas))
  unfolding new_manager
  new_manager-Below slots metas h = load_metas-Below metas _ h (λ id it e. cc)

  -- With a database whose records are below the counters, and room for one more, the id that is
  -- handed out is that of no record, and the records and the id are below the counters of the
  -- manager that remains.
  pub get_cache_id-new :
      (m : NnPrefixCacheManager t)
      → Below m
      → m.has_db ≡ true
      → suc m.next_cache_id < 2 ^ 32
      → (m.db_metas (get_cache_id t m).0 ≡ none)
        × Below (get_cache_id t m).1
        × ((get_cache_id t m).0 < (get_cache_id t m).1.next_cache_id)
  unfolding get_cache_id
  get_cache_id-new m h db room =
      rw db (unused (m.db_metas m.next_cache_id) refl, below, omega arith)
    where
      unused :
          (o : Option NnCacheDatabaseMetadata)
          → m.db_metas m.next_cache_id ≡ o
          → m.db_metas m.next_cache_id ≡ none
      unused none e = e
      unused (some it) e = absurd (omega (arith, (h _ it e).0))

      below :
          (id : ℕ) (it : NnCacheDatabaseMetadata)
          → m.db_metas id ≡ some it
          → (id < (m.next_cache_id + 1) % 2 ^ 32) × (it.lru_score < m.next_lru_score)
      below id it e = (omega (arith, (h id it e).0), (h id it e).1)
