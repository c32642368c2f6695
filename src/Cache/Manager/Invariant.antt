-- ===== src/Cache/Manager/Invariant.antt =====
-- The manager's invariant: each entry of the trie stands under the tokens that the slot, or the
-- record of the database, that it names really has.
use distributed_llama.Base.{
  ℕ, zero, suc, ◌+◌, ◌%◌, ◌^◌, ◌<◌, ◌≡◌, refl, sym, ap, subst, ◌∙◌, inl, inr, arith, List, [], ◌∷◌,
  ◌++◌, Option, none, some, Bool-cases, leb, if◌then◌else◌, length, take, drop, length-take,
  get_elem?, set, get_elem?-set_self, ok,
}
use distributed_llama.Cache.Tokens.{All, IsToken, bytes_of}
use distributed_llama.Cache.Trie.{Trie, NnCacheDst}
use distributed_llama.Cache.Manager.Entries.{
  held, Entry, Kept, key_discrete, Kept-insert, Entry-set, Entry-update, drop_slot_entry_lem,
  drop_db_entry_lem,
}
use distributed_llama.Cache.Manager.{
  NnDeviceSlotStatus, NnCacheDatabaseMetadata, NnPrefixCacheManager, update, overwrite, clip,
  drop_slot_entry, drop_db_entry, place_slot, insert_new, update_status, update_device_slot,
  update_metadata, update_nn_cache_database_metadata, meta_or_new, nn_prefix_cache_max_len,
}

abbrev pub IsPrompt : List ℕ → Type 0
IsPrompt tokens = (0 < length tokens) × All IsToken tokens

All-take : (n : ℕ) (xs : List ℕ) → All IsToken xs → All IsToken (take n xs)
All-take zero xs h = tt
All-take (suc n) [] h = tt
All-take (suc n) (x ∷ xs) h = (h.0, All-take n xs h.1)

cut-IsPrompt :
    (n : ℕ) (tokens : List ℕ)
    → 0 < n
    → IsPrompt tokens
    → IsPrompt (if leb n (length tokens) then take n tokens else tokens)
cut-IsPrompt n tokens p (h, k) = elim (Bool-cases (leb n (length tokens))) [
  | inl long ↦ rw long (omega (arith, length-take n tokens), All-take n tokens k)
  | inr short ↦ rw short (h, k)
]

clip-IsPrompt : (tokens : List ℕ) → IsPrompt tokens → IsPrompt (clip tokens)
clip-IsPrompt tokens h = cut-IsPrompt nn_prefix_cache_max_len tokens (omega arith) h

-- What was copied over is read back.
take-overwrite : (new old : List ℕ) → take (length new) (overwrite new old) ≡ new
take-overwrite new old = front new (drop (length new) old)
  where
    front : (xs ys : List ℕ) → take (length xs) (xs ++ ys) ≡ xs
    front [] ys = refl
    front (x ∷ xs) ys = ap (◌∷◌ x) (front xs ys)

get_elem?-lt :
    (xs : List NnDeviceSlotStatus) (i : ℕ) {s : NnDeviceSlotStatus}
    → get_elem? xs i ≡ some s
    → i < length xs
get_elem?-lt [] i e = cc
get_elem?-lt (x ∷ xs) zero e = omega arith
get_elem?-lt (x ∷ xs) (suc i) e = omega (arith, get_elem?-lt xs i e)

ok-injective {ℓ} : {A : Type ℓ} {a b : A} → ok a ≡ ok b → a ≡ b
ok-injective e = cc

pub update_self :
    (f : ℕ → Option NnCacheDatabaseMetadata) (i : ℕ) (v : NnCacheDatabaseMetadata)
    → update f i v i ≡ some v
update_self f i v = ground arith

module _ (t : Trie) where
  open t use {Map, find, insert, find-insert_old, find-insert_ne}

  abbrev pub Inv : NnPrefixCacheManager t → Type 0
  Inv m = Kept t m.trie m.device_slots m.db_metas

  place_slot-Inv :
      (m : NnPrefixCacheManager t) (trie : Map) (slot : ℕ) (s : NnDeviceSlotStatus) (token : List ℕ)
      (id : ℕ) (o : Option NnCacheDst)
      → ((s' : NnDeviceSlotStatus) → Kept t trie (set m.device_slots slot s') m.db_metas)
      → IsPrompt token
      → held s ≡ token
      → s.prefix_len ≡ length token
      → slot < length m.device_slots
      → find trie (bytes_of token) ≡ o
      → Inv (place_slot t m trie slot s token id o)
  unfolding place_slot
  place_slot-Inv m trie slot s token id (some d) others prompt h n lt e = others _
  place_slot-Inv m trie slot s token id none others prompt h n lt e =
      Kept-insert t trie _ m.db_metas (bytes_of token) _ (others s) e
        (token, prompt.0, prompt.1, refl, refl, (s, get_elem?-set_self m.device_slots slot s lt, h))

  update_status-Inv :
      (m m' : NnPrefixCacheManager t) (slot : ℕ) (tokens : List ℕ) (id : ℕ)
      (o : Option NnDeviceSlotStatus)
      → IsPrompt tokens
      → Inv m
      → get_elem? m.device_slots slot ≡ o
      → update_status t m slot tokens id o ≡ ok m'
      → Inv m'
  unfolding update_status
  update_status-Inv m m' slot tokens id none prompt inv g e = cc
  update_status-Inv m m' slot tokens id (some s) prompt inv g e = subst Inv (ok-injective e) (
      place_slot-Inv (record m { next_lru_score = (m.next_lru_score + 1) % 2 ^ 32 }) _ slot
        (record s {
          prefix = overwrite (clip tokens) s.prefix;
          prefix_len = length (clip tokens);
          lru_score = m.next_lru_score;
        })
        (clip tokens) id _ others (clip-IsPrompt tokens prompt)
        (take-overwrite (clip tokens) s.prefix) refl (get_elem?-lt m.device_slots slot g) refl)
    where
      others :
          (s' : NnDeviceSlotStatus)
          → Kept t (drop_slot_entry t m.trie slot s) (set m.device_slots slot s') m.db_metas
      others s' key d h =
          let (before, other) =
            drop_slot_entry_lem t m.trie m.device_slots m.db_metas slot s key d inv g h in
          Entry-set m.device_slots m.db_metas slot s' key d other (inv key d before)

  -- Recording a prompt for a slot keeps the invariant that every entry of the trie stands under the
  -- tokens that the slot, or the record of the database, that it names really has.
  pub update_device_slot-Inv :
      (m m' : NnPrefixCacheManager t) (slot : ℕ) (tokens : List ℕ) (id : ℕ)
      → IsPrompt tokens
      → Inv m
      → update_device_slot t m slot tokens id ≡ ok m'
      → Inv m'
  unfolding update_device_slot
  update_device_slot-Inv m m' slot tokens id prompt inv e =
      update_status-Inv m m' slot tokens id _ prompt inv refl e

  insert_new-Kept :
      (trie : Map) (slots : List NnDeviceSlotStatus) (metas : ℕ → Option NnCacheDatabaseMetadata)
      (key : List ℕ) (d : NnCacheDst) (o : Option NnCacheDst)
      → Kept t trie slots metas
      → find trie key ≡ o
      → Entry slots metas key d
      → Kept t (insert_new t trie key d o) slots metas
  insert_new-Kept trie slots metas key d (some x) kept e entry = kept
  insert_new-Kept trie slots metas key d none kept e entry =
      Kept-insert t trie slots metas key d kept e entry

  update_metadata-Inv :
      (m : NnPrefixCacheManager t) (id : ℕ) (tokens : List ℕ) (old : Option NnCacheDatabaseMetadata)
      → IsPrompt tokens
      → Inv m
      → m.db_metas id ≡ old
      → Inv (update_metadata t m id tokens old)
  unfolding update_metadata
  update_metadata-Inv m id tokens old prompt inv g =
      insert_new-Kept _ m.device_slots _ (bytes_of (clip tokens)) _ _ (others _) refl (
        clip tokens,
        (clip-IsPrompt tokens prompt).0,
        (clip-IsPrompt tokens prompt).1,
        refl,
        refl,
        (
          record (meta_or_new old) {
            prefix = overwrite (clip tokens) (meta_or_new old).prefix;
            prefix_len = length (clip tokens);
            lru_score = m.next_lru_score;
          },
          update_self m.db_metas id _,
          take-overwrite (clip tokens) (meta_or_new old).prefix,
        ),
      )
    where
      others :
          (meta : NnCacheDatabaseMetadata)
          → Kept t (drop_db_entry t m.trie id old) m.device_slots (update m.db_metas id meta)
      others meta key d h =
          let (before, other) =
            drop_db_entry_lem t m.trie m.device_slots m.db_metas id key d old inv g h in
          Entry-update m.device_slots m.db_metas id meta key d other (inv key d before)

  -- An insertion under a key that may be there already.
  pub insert_any-Kept :
      (trie : Map) (slots : List NnDeviceSlotStatus) (metas : ℕ → Option NnCacheDatabaseMetadata)
      (key : List ℕ) (d : NnCacheDst) (o : Option NnCacheDst)
      → Kept t trie slots metas
      → find trie key ≡ o
      → Entry slots metas key d
      → Kept t (insert trie key d) slots metas
  insert_any-Kept trie slots metas key d none kept e entry =
      Kept-insert t trie slots metas key d kept e entry
  insert_any-Kept trie slots metas key d (some x) kept e entry = λ k d' h.
      elim (key_discrete key k) [
        | yes same ↦ kept k d' (
            ap (find trie) (sym same)
            ∙ e
            ∙ sym (find-insert_old trie key d x e)
            ∙ ap (find (insert trie key d)) same
            ∙ h)
        | no other ↦ kept k d' (sym (find-insert_ne trie key k d other) ∙ h)
      ]

  -- Recording a prompt in the database keeps the invariant of the trie, and so does the call
  -- without a database.
  pub update_nn_cache_database_metadata-Inv :
      (m : NnPrefixCacheManager t) (id : ℕ) (tokens : List ℕ)
      → IsPrompt tokens
      → Inv m
      → Inv (update_nn_cache_database_metadata t m id tokens)
  unfolding update_nn_cache_database_metadata
  update_nn_cache_database_metadata-Inv m id tokens prompt inv = elim (Bool-cases m.has_db) [
    | inr without ↦ simp without inv
    | inl with_db ↦ simp with_db (update_metadata-Inv m id tokens _ prompt inv refl)
  ]
