-- ===== src/Cache/Manager/Entries.antt =====
-- The entries of the trie, and what each of them promises.
use distributed_llama.Base.{
  ℕ, ◌<◌, ◌≡◌, ◌≢◌, refl, sym, ap, subst, ◌∙◌, ◌⊎◌, inl, inr, arith, true, false, List, Option,
  none, some, length, take, get_elem?, set, get_elem?-set_ne, length-take, Bool-cases,
}
use distributed_llama.Cache.Tokens.{All, IsToken, bytes_of}
use distributed_llama.Cache.Trie.{
  Trie, NnCacheDst, NnCacheDstType, cache_miss, cache_db, cache_device_slot,
}
use distributed_llama.Cache.Manager.{
  NnDeviceSlotStatus, NnCacheDatabaseMetadata, is_device_of, is_db_of, update, drop_slot_entry,
  drop_db_entry,
}
use native.Mathlib.Decide.{ℕ_discrete}

abbrev pub held : NnDeviceSlotStatus → List ℕ
held s = take s.prefix_len s.prefix

abbrev pub saved : NnCacheDatabaseMetadata → List ℕ
saved m = take m.prefix_len m.prefix

module _ (slots : List NnDeviceSlotStatus) (metas : ℕ → Option NnCacheDatabaseMetadata) where
  -- The slot, or the record of the database, that an entry names has the tokens `p`.
  abbrev pub Points : NnCacheDstType → ℕ → ℕ → List ℕ → Type 0
  Points cache_miss slot id p = ⊥
  Points cache_db slot id p = (m : NnCacheDatabaseMetadata) × (metas id ≡ some m) × (saved m ≡ p)
  Points cache_device_slot slot id p =
      (s : NnDeviceSlotStatus) × (get_elem? slots slot ≡ some s) × (held s ≡ p)

  abbrev pub Entry : List ℕ → NnCacheDst → Type 0
  Entry key d =
      (p : List ℕ) × (0 < length p)
      × All IsToken p
      × (key ≡ bytes_of p)
      × (d.prefix_len ≡ length p)
      × Points d.type d.slot d.id p

pub key_discrete : Discrete (List ℕ)
key_discrete = hlevel ℕ_discrete

module _ (slots : List NnDeviceSlotStatus) (metas : ℕ → Option NnCacheDatabaseMetadata) where
  Points-set :
      (slot : ℕ) (s : NnDeviceSlotStatus) (d : NnCacheDst) (p : List ℕ) (ty : NnCacheDstType)
      → d.type ≡ ty
      → is_device_of slot d ≡ false
      → Points slots metas ty d.slot d.id p
      → Points (set slots slot s) metas ty d.slot d.id p
  Points-set slot s d p cache_miss e h x = x
  Points-set slot s d p cache_db e h x = x
  Points-set slot s d p cache_device_slot e h (s', g, q) =
      (s', get_elem?-set_ne slots s (λ (same : slot ≡ d.slot). ground arith) ∙ g, q)

  Points-update :
      (id : ℕ) (m : NnCacheDatabaseMetadata) (d : NnCacheDst) (p : List ℕ) (ty : NnCacheDstType)
      → d.type ≡ ty
      → is_db_of id d ≡ false
      → Points slots metas ty d.slot d.id p
      → Points slots (update metas id m) ty d.slot d.id p
  Points-update id m d p cache_miss e h x = x
  Points-update id m d p cache_device_slot e h x = x
  Points-update id m d p cache_db e h (m', g, q) = (m', ground arith, q)

  pub Entry-set :
      (slot : ℕ) (s : NnDeviceSlotStatus) (key : List ℕ) (d : NnCacheDst)
      → is_device_of slot d ≡ false
      → Entry slots metas key d
      → Entry (set slots slot s) metas key d
  Entry-set slot s key d h (p, a, b, e, f, x) =
      (p, a, b, e, f, Points-set slot s d p d.type refl h x)

  pub Entry-update :
      (id : ℕ) (m : NnCacheDatabaseMetadata) (key : List ℕ) (d : NnCacheDst)
      → is_db_of id d ≡ false
      → Entry slots metas key d
      → Entry slots (update metas id m) key d
  Entry-update id m key d h (p, a, b, e, f, x) =
      (p, a, b, e, f, Points-update id m d p d.type refl h x)

  -- An entry of a slot stands under the tokens that the slot holds.
  Points-device :
      (slot : ℕ) (s : NnDeviceSlotStatus) (d : NnCacheDst) (p : List ℕ) (ty : NnCacheDstType)
      → d.type ≡ ty
      → get_elem? slots slot ≡ some s
      → is_device_of slot d ≡ true
      → Points slots metas ty d.slot d.id p
      → held s ≡ p
  Points-device slot s d p cache_miss e g h x = absurd x
  Points-device slot s d p cache_db e g h x = cc (cond_db d e h)
    where
      cond_db : (d : NnCacheDst) → d.type ≡ cache_db → is_device_of slot d ≡ true → true ≡ false
      cond_db d e h = ground arith
  Points-device slot s d p cache_device_slot e g h (s', g', q) =
      let same : d.slot ≡ slot = ground arith in let one : s' ≡ s = cc in rw (← one) q

  pub Entry-device :
      (slot : ℕ) (s : NnDeviceSlotStatus) (key : List ℕ) (d : NnCacheDst)
      → get_elem? slots slot ≡ some s
      → is_device_of slot d ≡ true
      → Entry slots metas key d
      → (key ≡ bytes_of (held s)) × (0 < s.prefix_len)
  Entry-device slot s key d g h (p, a, b, e, f, x) =
      let q = Points-device slot s d p d.type refl g h x in
      (e ∙ ap bytes_of (sym q), omega (arith, ap length q, length-take s.prefix_len s.prefix))

  -- An entry of the database stands under the tokens that were saved.
  Points-db :
      (id : ℕ) (d : NnCacheDst) (p : List ℕ) (ty : NnCacheDstType)
      → d.type ≡ ty
      → is_db_of id d ≡ true
      → Points slots metas ty d.slot d.id p
      → (m : NnCacheDatabaseMetadata) × (metas id ≡ some m) × (saved m ≡ p)
  Points-db id d p cache_miss e h x = absurd x
  Points-db id d p cache_device_slot e h x = cc (cond_device d e h)
    where
      cond_device :
          (d : NnCacheDst) → d.type ≡ cache_device_slot → is_db_of id d ≡ true → true ≡ false
      cond_device d e h = ground arith
  Points-db id d p cache_db e h (m, g, q) =
      let same : d.id ≡ id = ground arith in (m, rw (← same) g, q)

  pub Entry-db :
      (id : ℕ) (key : List ℕ) (d : NnCacheDst)
      → is_db_of id d ≡ true
      → Entry slots metas key d
      → (m : NnCacheDatabaseMetadata) × (metas id ≡ some m) × (key ≡ bytes_of (saved m))
  Entry-db id key d h (p, a, b, e, f, x) =
      let (m, g, q) = Points-db id d p d.type refl h x in (m, g, e ∙ ap bytes_of (sym q))

module _ (t : Trie) where
  open t use {
    Map, find, insert, erase, find-insert_new, find-insert_ne, find-erase_self, find-erase_ne,
  }

  -- Every entry of the trie keeps its promise.
  abbrev pub Kept : Map → List NnDeviceSlotStatus → (ℕ → Option NnCacheDatabaseMetadata) → Type 0
  Kept trie slots metas =
      (key : List ℕ) (d : NnCacheDst) → find trie key ≡ some d → Entry slots metas key d

  -- Keys that are still there after an erasure were there before.
  find-erase :
      (m : Map) (k key : List ℕ) (d : NnCacheDst)
      → find (erase m k) key ≡ some d
      → (k ≢ key) × (find m key ≡ some d)
  find-erase m k key d e = elim (key_discrete k key) [
    | yes same ↦ cc (e, find-erase_self m k, same)
    | no other ↦ (other, sym (find-erase_ne m k key other) ∙ e)
  ]

  pub Kept-insert :
      (trie : Map) (slots : List NnDeviceSlotStatus) (metas : ℕ → Option NnCacheDatabaseMetadata)
      (k : List ℕ) (d : NnCacheDst)
      → Kept trie slots metas
      → find trie k ≡ none
      → Entry slots metas k d
      → Kept (insert trie k d) slots metas
  Kept-insert trie slots metas k d kept new entry key d' e = elim (key_discrete k key) [
    | yes same ↦
        let one : d ≡ d' = cc (find-insert_new trie k d new) in
        subst (Entry slots metas key) one (rw (← same) entry)
    | no other ↦ kept key d' (sym (find-insert_ne trie k key d other) ∙ e)
  ]

  -- After a slot's entry is dropped, no entry names the slot.
  pub drop_slot_entry_lem :
      (trie : Map) (slots : List NnDeviceSlotStatus) (metas : ℕ → Option NnCacheDatabaseMetadata)
      (slot : ℕ) (s : NnDeviceSlotStatus) (key : List ℕ) (d : NnCacheDst)
      → Kept trie slots metas
      → get_elem? slots slot ≡ some s
      → find (drop_slot_entry t trie slot s) key ≡ some d
      → (find trie key ≡ some d) × (is_device_of slot d ≡ false)
  unfolding drop_slot_entry
  drop_slot_entry_lem trie slots metas slot s key d kept g e =
      ground (arith, named, find-erase trie (bytes_of (held s)) key d)
    where
      named :
          find trie key ≡ some d
          → is_device_of slot d ≡ true
          → (key ≡ bytes_of (held s)) × (0 < s.prefix_len)
      named e h = Entry-device slots metas slot s key d g h (kept key d e)

  -- After a record's entry is dropped, no entry names the record.
  pub drop_db_entry_lem :
      (trie : Map) (slots : List NnDeviceSlotStatus) (metas : ℕ → Option NnCacheDatabaseMetadata)
      (id : ℕ) (key : List ℕ) (d : NnCacheDst) (old : Option NnCacheDatabaseMetadata)
      → Kept trie slots metas
      → metas id ≡ old
      → find (drop_db_entry t trie id old) key ≡ some d
      → (find trie key ≡ some d) × (is_db_of id d ≡ false)
  unfolding drop_db_entry
  drop_db_entry_lem trie slots metas id key d none kept g e =
      (e, absent (Bool-cases (is_db_of id d)))
    where
      absent : (is_db_of id d ≡ true) ⊎ (is_db_of id d ≡ false) → is_db_of id d ≡ false
      absent (inr h) = h
      absent (inl h) = let (m, g', _) = Entry-db slots metas id key d h (kept key d e) in cc
  drop_db_entry_lem trie slots metas id key d (some m) kept g e =
      ground (arith, named, find-erase trie (bytes_of (saved m)) key d)
    where
      named : find trie key ≡ some d → is_db_of id d ≡ true → key ≡ bytes_of (saved m)
      named e h =
          let (m', g', q) = Entry-db slots metas id key d h (kept key d e) in
          let one : m' ≡ m = cc in q ∙ ap (λ v. bytes_of (saved v)) one
