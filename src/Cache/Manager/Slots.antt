-- ===== src/Cache/Manager/Slots.antt =====
-- NnPrefixCacheManager::pickSlot (src/nn/nn-cache.cpp) and the scores that decide it.
use distributed_llama.Base.{
  ℕ, zero, suc, ◌≤◌, ◌<◌, ◌≡◌, ◌⊎◌, refl, ap, subst, ◌∙◌, inl, inr, arith, true, false, List, [],
  ◌∷◌, some, Bool-cases, length, get_elem?, ok,
}
use distributed_llama.Cache.Trie.{Trie}
use distributed_llama.Cache.Manager.{
  NnPrefixCacheManager, NnDeviceSlotStatus, prefer_pick_than, sorted_in, sort, first_slot,
  pick_slot,
}

-- `best` is an element of the list that no element is preferred to.
abbrev IsBest : NnDeviceSlotStatus → List NnDeviceSlotStatus → Type 0
IsBest best xs =
    ((i : ℕ) × (get_elem? xs i ≡ some best))
    × ((i : ℕ) (s : NnDeviceSlotStatus) → get_elem? xs i ≡ some s → prefer_pick_than s best ≡ false)

prefer_trans :
    (a b c : NnDeviceSlotStatus)
    → prefer_pick_than b a ≡ false
    → prefer_pick_than c b ≡ false
    → prefer_pick_than c a ≡ false
prefer_trans a b c p q = ground arith

prefer_asym :
    (a b : NnDeviceSlotStatus) → prefer_pick_than a b ≡ true → prefer_pick_than b a ≡ false
prefer_asym a b p = ground arith

prefer_irrefl : (a : NnDeviceSlotStatus) → prefer_pick_than a a ≡ false
prefer_irrefl a = ground arith

IsBest-cons :
    (s b : NnDeviceSlotStatus) (rest : List NnDeviceSlotStatus)
    → IsBest b rest
    → prefer_pick_than b s ≡ true
    → IsBest b (s ∷ rest)
IsBest-cons s b rest ((i, at), least) p = ((suc i, at), all)
  where
    all :
        (j : ℕ) (r : NnDeviceSlotStatus)
        → get_elem? (s ∷ rest) j ≡ some r
        → prefer_pick_than r b ≡ false
    all zero r e =
        let same : s ≡ r = cc in subst (λ r. prefer_pick_than r b ≡ false) same (prefer_asym b s p)
    all (suc j) r e = least j r e

IsBest-head :
    (s b : NnDeviceSlotStatus) (rest : List NnDeviceSlotStatus)
    → IsBest b rest
    → prefer_pick_than b s ≡ false
    → IsBest s (s ∷ rest)
IsBest-head s b rest ((i, at), least) p = ((zero, refl), all)
  where
    all :
        (j : ℕ) (r : NnDeviceSlotStatus)
        → get_elem? (s ∷ rest) j ≡ some r
        → prefer_pick_than r s ≡ false
    all zero r e =
        let same : s ≡ r = cc in subst (λ r. prefer_pick_than r s ≡ false) same (prefer_irrefl s)
    all (suc j) r e = prefer_trans s b r p (least j r e)

IsBest-one : (s : NnDeviceSlotStatus) → IsBest s (s ∷ [])
IsBest-one s = ((zero, refl), all)
  where
    all :
        (j : ℕ) (r : NnDeviceSlotStatus)
        → get_elem? (s ∷ []) j ≡ some r
        → prefer_pick_than r s ≡ false
    all zero r e =
        let same : s ≡ r = cc in subst (λ r. prefer_pick_than r s ≡ false) same (prefer_irrefl s)
    all (suc j) r e = cc

-- The sorted vector of a vector that has elements begins with the best of them.
sort-IsBest :
    (s : NnDeviceSlotStatus) (xs : List NnDeviceSlotStatus)
    → (b : NnDeviceSlotStatus) × (rest : List NnDeviceSlotStatus) × (sort (s ∷ xs) ≡ b ∷ rest)
      × IsBest b (s ∷ xs)
unfolding sort sorted_in
sort-IsBest s [] = (s, [], refl, IsBest-one s)
sort-IsBest s (x ∷ xs) =
    let (b, rest, e, best) = sort-IsBest x xs in
    elim (Bool-cases (prefer_pick_than b s)) [
      | inl p ↦
          (b, sorted_in s rest, ap (sorted_in s) e ∙ simp p refl, IsBest-cons s b (x ∷ xs) best p)
      | inr p ↦ (s, b ∷ rest, ap (sorted_in s) e ∙ simp p refl, IsBest-head s b (x ∷ xs) best p)
    ]

-- The order of the slots, written out: the score, then the prefix, then the number.
abbrev pub IsNotAfter : NnDeviceSlotStatus → NnDeviceSlotStatus → Type 0
IsNotAfter a b =
    (a.lru_score < b.lru_score)
    ⊎ ((a.lru_score ≡ b.lru_score)
        × ((a.prefix_len < b.prefix_len) ⊎ ((a.prefix_len ≡ b.prefix_len) × (a.slot ≤ b.slot))))

-- `best` is one of the slots, and comes after none of them.
abbrev pub IsPicked : NnDeviceSlotStatus → List NnDeviceSlotStatus → Type 0
IsPicked best slots =
    ((i : ℕ) × (get_elem? slots i ≡ some best))
    × ((i : ℕ) (s : NnDeviceSlotStatus) → get_elem? slots i ≡ some s → IsNotAfter best s)

not_preferred : (a b : NnDeviceSlotStatus) → prefer_pick_than b a ≡ false → IsNotAfter a b
not_preferred a b h = ground (arith, h)

module _ (t : Trie) where
  -- Where there are slots, the slot that is picked is one of them, and none has a smaller score, or
  -- the same score and a shorter prefix, or these the same and a smaller number.
  pub pick_slot_lem :
      (m : NnPrefixCacheManager t)
      → 0 < length m.device_slots
      → (best : NnDeviceSlotStatus) × (pick_slot t m ≡ ok best.slot) × IsPicked best m.device_slots
  unfolding pick_slot
  pick_slot_lem m some_slot = from m.device_slots some_slot
    where
      from :
          (slots : List NnDeviceSlotStatus)
          → 0 < length slots
          → (best : NnDeviceSlotStatus) × (first_slot (sort slots) ≡ ok best.slot)
            × IsPicked best slots
      from [] h = absurd (omega arith)
      from (s ∷ slots) h =
          let (b, rest, e, best) = sort-IsBest s slots in
          (b, ap first_slot e, (best.0, λ i r at_i. not_preferred b r (best.1 i r at_i)))
