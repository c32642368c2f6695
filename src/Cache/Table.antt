-- ===== src/Cache/Table.antt =====
-- A table of keys in a list, which stands for the trie in the tests.
use distributed_llama.Base.{
  ℕ, zero, suc, ◌≤◌, ◌≡◌, ◌≢◌, ◌⊎◌, refl, ap, sym, subst, ◌∙◌, arith, Bool, true, false, Bool-cases,
  inl, inr, List, [], ◌∷◌, Option, none, some, length, take, ◌==◌, ltb, if◌then◌else◌,
}
use distributed_llama.Base.Strings.{same_string, same_string-eq, same_string_refl}
use distributed_llama.Cache.Trie.{Trie, NnCacheDst}

abbrev pub Map : Type 0
Map = List (List ℕ × NnCacheDst)

abbrev pub find : Map → List ℕ → Option NnCacheDst
find [] k = none
find ((j, d) ∷ m) k = let rest = find m k in if same_string j k then some d else rest

abbrev pub or_insert : Map → List ℕ → NnCacheDst → Option NnCacheDst → Map
or_insert m k d none = (k, d) ∷ m
or_insert m k d (some e) = m

abbrev pub insert : Map → List ℕ → NnCacheDst → Map
insert m k d = or_insert m k d (find m k)

abbrev pub erase : Map → List ℕ → Map
erase [] k = []
erase ((j, d) ∷ m) k = let rest = erase m k in if same_string j k then rest else (j, d) ∷ rest

-- The length of the common prefix.
abbrev pub common : List ℕ → List ℕ → ℕ
common [] ys = 0
common (x ∷ xs) [] = 0
common (x ∷ xs) (y ∷ ys) = let n = common xs ys in if x == y then suc n else 0

abbrev pub nearer : List ℕ → List ℕ → Option (List ℕ) → Option (List ℕ)
nearer key j none = some j
nearer key j (some k) = if ltb (common k key) (common j key) then some j else some k

abbrev pub nearest : Map → List ℕ → Option (List ℕ)
nearest [] key = none
nearest ((j, d) ∷ m) key = nearer key j (nearest m key)

abbrev pub entry_of : Map → List ℕ → Option (List ℕ) → Option NnCacheDst × ℕ
entry_of m key none = (none, 0)
entry_of m key (some k) = (find m k, common k key)

abbrev pub longest : Map → List ℕ → Option NnCacheDst × ℕ
longest m key = entry_of m key (nearest m key)

-- The test of two different keys fails.
differ : (xs ys : List ℕ) → xs ≢ ys → same_string xs ys ≡ false
differ xs ys h = elim (Bool-cases (same_string xs ys)) [
  | inl e ↦ absurd (h (same_string-eq xs ys e))
  | inr e ↦ e
]

pub insert_new :
    (m : Map) (k : List ℕ) (d : NnCacheDst) → find m k ≡ none → find (insert m k d) k ≡ some d
insert_new m k d e = ap (λ o. find (or_insert m k d o) k) e ∙ ground (arith, same_string_refl k)

pub insert_old :
    (m : Map) (k : List ℕ) (d e : NnCacheDst) → find m k ≡ some e → find (insert m k d) k ≡ some e
insert_old m k d e h = ap (λ o. find (or_insert m k d o) k) h ∙ h

pub insert_ne : (m : Map) (k j : List ℕ) (d : NnCacheDst) → k ≢ j → find (insert m k d) j ≡ find m j
insert_ne m k j d h = either (find m k)
  where
    either : (o : Option NnCacheDst) → find (or_insert m k d o) j ≡ find m j
    either none = ground (arith, differ k j h)
    either (some e) = refl

pub erase_self : (m : Map) (k : List ℕ) → find (erase m k) k ≡ none
erase_self [] k = refl
erase_self ((j, d) ∷ m) k = ground (arith, erase_self m k)

pub erase_ne : (m : Map) (k j : List ℕ) → k ≢ j → find (erase m k) j ≡ find m j
erase_ne [] k j h = refl
erase_ne ((i, d) ∷ m) k j h = elim (Bool-cases (same_string i k)) [
  | inl e ↦
      let other : same_string i j ≡ false =
        differ i j (λ e'. h (sym (same_string-eq i k e) ∙ e')) in
      ground (arith, erase_ne m k j h)
  | inr e ↦ ground (arith, erase_ne m k j h)
]

common_lem :
    (xs ys : List ℕ)
    → (common xs ys ≤ length xs)
      × (common xs ys ≤ length ys)
      × (take (common xs ys) xs ≡ take (common xs ys) ys)
common_lem [] ys = (omega arith, omega arith, refl)
common_lem (x ∷ xs) [] = (omega arith, omega arith, refl)
common_lem (x ∷ xs) (y ∷ ys) = ground (arith, common_lem xs ys)

common_most :
    (n : ℕ) (xs ys : List ℕ)
    → n ≤ length xs
    → n ≤ length ys
    → take n xs ≡ take n ys
    → n ≤ common xs ys
common_most zero xs ys a b e = omega arith
common_most (suc n) [] ys a b e = absurd (omega arith)
common_most (suc n) (x ∷ xs) [] a b e = absurd (omega arith)
common_most (suc n) (x ∷ xs) (y ∷ ys) a b e =
    ground (arith, e, common_most n xs ys (omega arith) (omega arith))

pub find_head : (m : Map) (j : List ℕ) (d : NnCacheDst) → find ((j, d) ∷ m) j ≡ some d
find_head m j d = ground (arith, same_string_refl j)

find_tail :
    (m : Map) (j k : List ℕ) (d e : NnCacheDst)
    → find m k ≡ some e
    → (x : NnCacheDst) × (find ((j, d) ∷ m) k ≡ some x)
find_tail m j k d e h = either (same_string j k)
  where
    either : (same : Bool) → (x : NnCacheDst) × ((if same then some d else find m k) ≡ some x)
    either true = (d, refl)
    either false = (e, h)

nearer-either :
    (key j : List ℕ) (o : Option (List ℕ)) (k : List ℕ)
    → nearer key j o ≡ some k
    → (j ≡ k) ⊎ (o ≡ some k)
nearer-either key j none k e = inl cc
nearer-either key j (some i) k e = ground (arith, e)

nearer-most :
    (key j : List ℕ) (o : Option (List ℕ))
    → (k : List ℕ) × (nearer key j o ≡ some k)
      × (common j key ≤ common k key)
      × ((i : List ℕ) → o ≡ some i → common i key ≤ common k key)
nearer-most key j none = (j, refl, omega arith, λ i h. cc)
nearer-most key j (some i) = elim (Bool-cases (ltb (common i key) (common j key))) [
  | inl lt ↦ (
    j,
    ground arith,
    omega arith,
    λ i' h. let same : i ≡ i' = cc in ground (arith, ap (λ i. common i key) same),
  )
  | inr ge ↦ (
    i,
    ground arith,
    ground arith,
    λ i' h. let same : i ≡ i' = cc in ground (arith, ap (λ i. common i key) same),
  )
]

nearest-find :
    (m : Map) (key k : List ℕ) → nearest m key ≡ some k → (d : NnCacheDst) × (find m k ≡ some d)
nearest-find [] key k e = cc
nearest-find ((j, d) ∷ m) key k e = elim (nearer-either key j (nearest m key) k e) [
  | inl same ↦ (d, subst (λ k. find ((j, d) ∷ m) k ≡ some d) same (find_head m j d))
  | inr before ↦ let (x, h) = nearest-find m key k before in find_tail m j k d x h
]

nearest-most :
    (m : Map) (key j : List ℕ) (d : NnCacheDst)
    → find m j ≡ some d
    → (k : List ℕ) × (nearest m key ≡ some k) × (common j key ≤ common k key)
nearest-most [] key j d e = cc
nearest-most ((i, x) ∷ m) key j d e =
    let (k, is, most, others) = nearer-most key i (nearest m key) in
    elim (Bool-cases (same_string i j)) [
      | inl same ↦ (k, is, subst (λ i. common i key ≤ common k key) (same_string-eq i j same) most)
      | inr other ↦
          let (k', there, le) = nearest-most m key j d (ground arith) in
          (k, is, omega (arith, others k' there))
    ]

pub longest-found :
    (m : Map) (key : List ℕ) {d : NnCacheDst} {n : ℕ}
    → longest m key ≡ (some d, n)
    → (k : List ℕ) × (find m k ≡ some d)
      × (n ≤ length k)
      × (n ≤ length key)
      × (take n k ≡ take n key)
longest-found m key {d} {n} e = from (nearest m key) e
  where
    from :
        (o : Option (List ℕ))
        → entry_of m key o ≡ (some d, n)
        → (k : List ℕ) × (find m k ≡ some d)
          × (n ≤ length k)
          × (n ≤ length key)
          × (take n k ≡ take n key)
    from none e = cc (ap (λ p. p.0) e)
    from (some k) e =
        let here : common k key ≡ n = ap (λ p. p.1) e in
        let (a, b, same) = common_lem k key in
        (
          k,
          ap (λ p. p.0) e,
          omega (arith, a),
          omega (arith, b),
          subst (λ n. take n k ≡ take n key) here same,
        )

pub longest-none :
    (m : Map) (key : List ℕ) {n : ℕ} → longest m key ≡ (none, n) → (k : List ℕ) → find m k ≡ none
longest-none m key {n} e k = from (find m k) refl
  where
    from : (o : Option NnCacheDst) → find m k ≡ o → o ≡ none
    from none h = refl
    from (some d) h =
        let (j, is, le) = nearest-most m key k d h in
        let (x, there) = nearest-find m key j is in
        cc (ap (λ p. p.0) (sym (ap (entry_of m key) is) ∙ e), there)

pub longest-le :
    (m : Map) (key : List ℕ) {r : Option NnCacheDst} {n : ℕ}
    → longest m key ≡ (r, n)
    → (k : List ℕ) (d : NnCacheDst) (j : ℕ) → find m k ≡ some d
    → j ≤ length k
    → j ≤ length key
    → take j k ≡ take j key
    → j ≤ n
longest-le m key e k d j h a b same =
    let (i, is, le) = nearest-most m key k d h in
    omega (arith, common_most j k key a b same, ap (λ p. p.1) (sym (ap (entry_of m key) is) ∙ e))

abbrev pub table : Trie
table = record {
  Map = Map;
  empty = [];
  find = find;
  insert = insert;
  erase = erase;
  longest = longest;
  find-empty = λ k. refl;
  find-insert_new = insert_new;
  find-insert_old = insert_old;
  find-insert_ne = insert_ne;
  find-erase_self = erase_self;
  find-erase_ne = erase_ne;
  longest-found = λ m key e. longest-found m key e;
  longest-none = λ m key e. longest-none m key e;
  longest-le = λ m key e. longest-le m key e;
}
