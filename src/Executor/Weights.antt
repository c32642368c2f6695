-- ===== src/Executor/Weights.antt =====
-- NnExecutor::loadWeight on an executor that the constructor made (src/nn/nn-executor.cpp).
use distributed_llama.Base.{
  ℕ, zero, suc, ◌+◌, ◌<◌, ◌≡◌, ◌⊎◌, inl, inr, refl, ap, sym, subst, ◌∙◌, arith, Bool, true, ◌||◌,
  List, [], ◌∷◌, Option, none, some, length, get_elem?, ltb, if◌then◌else◌, Result, ok, err,
  >>=-eq-ok, invalid_argument,
}
use distributed_llama.Base.{false, ◌&&◌, ◌==◌}
use distributed_llama.Base.Strings.{same_string, same_string-eq, same_string_refl}
use distributed_llama.Core.Config.{NnSegmentConfig, NnOpConfig}
use distributed_llama.Executor.{
  NnExecutor, NnExecutorDevice, made, segment_on, find_device, build_segments, find_op, take_op,
  load_weight,
}

find_op-length :
    (name : List ℕ) (index : ℕ) (ops : List NnOpConfig) (i : ℕ) {k : ℕ}
    → find_op name index ops i ≡ some k
    → 0 < length ops
unfolding find_op
find_op-length name index [] i e = cc
find_op-length name index (o ∷ ops) i e = omega arith

-- The operation has this index and this name.
abbrev pub IsNamed : List ℕ → ℕ → NnOpConfig → Type 0
IsNamed name index o = (o.index ≡ index) × (o.name ≡ name)

-- No operation of a list is named so, or none before the `k`th.
abbrev pub HasNone : List ℕ → ℕ → List NnOpConfig → Type 0
HasNone name index ops =
    (j : ℕ) (o : NnOpConfig) → get_elem? ops j ≡ some o → ¬ IsNamed name index o

abbrev pub IsFirst : List ℕ → ℕ → List NnOpConfig → ℕ → Type 0
IsFirst name index ops k =
    ((o : NnOpConfig) × (get_elem? ops k ≡ some o) × IsNamed name index o)
    × ((j : ℕ) (o : NnOpConfig) → j < k → get_elem? ops j ≡ some o → ¬ IsNamed name index o)

named :
    (name : List ℕ) (index : ℕ) (o : NnOpConfig)
    → ((o.index == index) && same_string o.name name) ≡ true
    → IsNamed name index o
named name index o e = (ground (arith, e), same_string-eq o.name name (ground (arith, e)))

not-IsNamed :
    (name : List ℕ) (index : ℕ) (o : NnOpConfig)
    → ((o.index == index) && same_string o.name name) ≡ false
    → ¬ IsNamed name index o
not-IsNamed name index o e (i, n) =
    let same : (o.index == index) ≡ true = ground (arith, i) in
    let equal : same_string o.name name ≡ true =
      ap (λ xs. same_string xs name) n ∙ same_string_refl name in
    let both : ((o.index == index) && same_string o.name name) ≡ true = rw (same, equal) refl in
    true_false (sym both ∙ e)
  where
    true_false : true ≡ false → ⊥
    true_false q = cc

-- What a test says of the number that is found behind it.
if_none :
    (t : Bool) (i : ℕ) (rest : Option ℕ)
    → (if t then some i else rest) ≡ none
    → (t ≡ false) × (rest ≡ none)
if_none true i rest e = cc
if_none false i rest e = (refl, e)

if_some :
    (t : Bool) (i k : ℕ) (rest : Option ℕ)
    → (if t then some i else rest) ≡ some k
    → ((t ≡ true) × (k ≡ i)) ⊎ ((t ≡ false) × (rest ≡ some k))
if_some true i k rest e = let same : k ≡ i = cc e in inl (refl, same)
if_some false i k rest e = inr (refl, e)

find_op-none :
    (name : List ℕ) (index : ℕ) (ops : List NnOpConfig) (i : ℕ)
    → find_op name index ops i ≡ none
    → HasNone name index ops
unfolding find_op
find_op-none name index [] i e j o at_j = cc
find_op-none name index (p ∷ ops) i e zero o at_j =
    let (test, rest) =
      if_none ((p.index == index) && same_string p.name name) i (find_op name index ops (i + 1))
        e in
    let same : p ≡ o = cc at_j in
    subst (λ o. ¬ IsNamed name index o) same (not-IsNamed name index p test)
find_op-none name index (p ∷ ops) i e (suc j) o at_j =
    let (test, rest) =
      if_none ((p.index == index) && same_string p.name name) i (find_op name index ops (i + 1))
        e in
    find_op-none name index ops (i + 1) rest j o at_j

find_op-some :
    (name : List ℕ) (index : ℕ) (ops : List NnOpConfig) (i k : ℕ)
    → find_op name index ops i ≡ some k
    → (j : ℕ) × (k ≡ i + j) × IsFirst name index ops j
unfolding find_op
find_op-some name index [] i k e = cc
find_op-some name index (p ∷ ops) i k e =
    elim (if_some ((p.index == index) && same_string p.name name) i k
      (find_op name index ops (i + 1)) e) [
        | inl (test, same) ↦ (
          0,
          omega (arith, same),
          ((p, refl, named name index p test), λ j o lt. absurd (omega arith)),
        )
        | inr (test, rest) ↦
            let (j, at, (found, before)) = find_op-some name index ops (i + 1) k rest in
            (suc j, omega (arith, at), (found, earlier j test before))
      ]
  where
    earlier :
        (j : ℕ)
        → ((p.index == index) && same_string p.name name) ≡ false
        → ((i : ℕ) (o : NnOpConfig) → i < j → get_elem? ops i ≡ some o → ¬ IsNamed name index o)
        → (i : ℕ) (o : NnOpConfig) → i < suc j
        → get_elem? (p ∷ ops) i ≡ some o
        → ¬ IsNamed name index o
    earlier j test before zero o lt at_0 =
        let same : p ≡ o = cc at_0 in
        subst (λ o. ¬ IsNamed name index o) same (not-IsNamed name index p test)
    earlier j test before (suc i) o lt at_i = before i o (omega arith) at_i

work : (n c : ℕ) → 0 < n → (ltb 0 n || ltb 0 c) ≡ true
work n c h = ground arith

ok-injective {ℓ} : {A : Type ℓ} {a b : A} → ok a ≡ ok b → a ≡ b
ok-injective e = cc

module _ {Segment : Type 0} (create_segment : ℕ → ℕ → Result Segment) where
  -- A segment that has an operation was made.
  segment_on-some :
      (i : ℕ) (s : NnSegmentConfig) (o : Option ℕ) (segment : Option Segment)
      → 0 < length s.ops
      → segment_on create_segment i s o ≡ ok segment
      → (x : Segment) × (segment ≡ some x)
  segment_on-some i s none segment h e = cc
  segment_on-some i s (some device) segment h e = from (create_segment device i) (
      sym (
        ap (λ b. if b then made create_segment (create_segment device i) else ok none)
          (work (length s.ops) (length s.cache_syncs) h))
      ∙ e)
    where
      from :
          (r : Result Segment)
          → made create_segment r ≡ ok segment
          → (x : Segment) × (segment ≡ some x)
      from (ok x) e = (x, sym (ok-injective e))
      from (err f) e = cc

  abbrev FoundIn :
      List NnSegmentConfig → List (Option Segment) → List ℕ → ℕ → Result (Segment × ℕ) → Type 0
  FoundIn configs segments name index r =
      (j : ℕ) × (k : ℕ) × (s : NnSegmentConfig) × (x : Segment) × (get_elem? configs j ≡ some s)
      × (get_elem? segments j ≡ some (some x))
      × (find_op name index s.ops 0 ≡ some k)
      × (r ≡ ok (x, k))
      × ((i : ℕ) (s' : NnSegmentConfig)
          → i < j
          → get_elem? configs i ≡ some s'
          → find_op name index s'.ops 0 ≡ none)

  abbrev NotFound : List NnSegmentConfig → List ℕ → ℕ → Result (Segment × ℕ) → Type 0
  NotFound configs name index r =
      (r ≡ err invalid_argument)
      × ((i : ℕ) (s : NnSegmentConfig)
          → get_elem? configs i ≡ some s
          → find_op name index s.ops 0 ≡ none)

  load_weight-find_op :
      (devices : List NnExecutorDevice) (u : Bool) (i : ℕ) (configs : List NnSegmentConfig)
      (e : NnExecutor Segment) (name : List ℕ) (index : ℕ)
      → build_segments create_segment devices u i configs ≡ ok e
      → FoundIn configs e.segments name index (load_weight configs e.segments name index)
        ⊎ NotFound configs name index (load_weight configs e.segments name index)
  unfolding load_weight build_segments
  load_weight-find_op devices u i [] e name index h = inr (refl, λ j s g. cc)
  load_weight-find_op devices u i (s ∷ rest) e name index h =
      let (segment, made_it, h') =
        >>=-eq-ok (segment_on create_segment i s (find_device devices i 0)) _ h in
      let (others, run, last) =
        >>=-eq-ok (build_segments create_segment devices u (i + 1) rest) _ h' in
      let same : segment ∷ others.segments ≡ e.segments =
        ap (λ (e : NnExecutor Segment). e.segments) (ok-injective last) in
      subst
        (λ segments.
          FoundIn (s ∷ rest) segments name index (load_weight (s ∷ rest) segments name index)
          ⊎ NotFound (s ∷ rest) name index (load_weight (s ∷ rest) segments name index))
        same
        (first segment others.segments (find_op name index s.ops 0) refl
          (segment_on-some i s (find_device devices i 0) segment) made_it
          (load_weight-find_op devices u (i + 1) rest others name index run))
    where
      first :
          (segment : Option Segment) (segments : List (Option Segment)) (o : Option ℕ)
          → find_op name index s.ops 0 ≡ o
          → (0 < length s.ops
              → segment_on create_segment i s (find_device devices i 0) ≡ ok segment
              → (x : Segment) × (segment ≡ some x))
          → segment_on create_segment i s (find_device devices i 0) ≡ ok segment
          → FoundIn rest segments name index (load_weight rest segments name index)
            ⊎ NotFound rest name index (load_weight rest segments name index)
          → FoundIn
              (s ∷ rest)
              (segment ∷ segments)
              name
              index
              (take_op segment o (load_weight rest segments name index))
            ⊎ NotFound
                (s ∷ rest)
                name
                index
                (take_op segment o (load_weight rest segments name index))
      first segment segments none f there m (inl (j, k, s', x, c, g, p, r, before)) =
          inl (suc j, k, s', x, c, g, p, r, earlier)
        where
          earlier :
              (i : ℕ) (s' : NnSegmentConfig)
              → i < suc j
              → get_elem? (s ∷ rest) i ≡ some s'
              → find_op name index s'.ops 0 ≡ none
          earlier zero s' lt q =
              let one : s ≡ s' = cc in
              subst (λ (s : NnSegmentConfig). find_op name index s.ops 0 ≡ none) one f
          earlier (suc i) s' lt q = before i s' (omega arith) q
      first segment segments none f there m (inr (r, all)) = inr (r, everywhere)
        where
          everywhere :
              (i : ℕ) (s' : NnSegmentConfig)
              → get_elem? (s ∷ rest) i ≡ some s'
              → find_op name index s'.ops 0 ≡ none
          everywhere zero s' q =
              let one : s ≡ s' = cc in
              subst (λ (s : NnSegmentConfig). find_op name index s.ops 0 ≡ none) one f
          everywhere (suc i) s' q = all i s' q
      first segment segments (some k) f there m rec =
          let (x, is) = there (find_op-length name index s.ops 0 f) m in
          inl (
            zero,
            k,
            s,
            x,
            refl,
            ap some is,
            f,
            ap (λ o. take_op o (some k) (load_weight rest segments name index)) is,
            λ i s' lt q. absurd (omega arith),
          )

  -- The weight goes to the first operation of its name and index in the first segment that has one.
  abbrev pub Located :
      List NnSegmentConfig → List (Option Segment) → List ℕ → ℕ → Result (Segment × ℕ) → Type 0
  Located configs segments name index r =
      (j : ℕ) × (k : ℕ) × (s : NnSegmentConfig) × (x : Segment) × (get_elem? configs j ≡ some s)
      × (get_elem? segments j ≡ some (some x))
      × IsFirst name index s.ops k
      × (r ≡ ok (x, k))
      × ((i : ℕ) (s' : NnSegmentConfig)
          → i < j
          → get_elem? configs i ≡ some s'
          → HasNone name index s'.ops)

  abbrev pub Missing : List NnSegmentConfig → List ℕ → ℕ → Result (Segment × ℕ) → Type 0
  Missing configs name index r =
      (r ≡ err invalid_argument)
      × ((i : ℕ) (s : NnSegmentConfig) → get_elem? configs i ≡ some s → HasNone name index s.ops)

  -- On an executor that was made, a weight goes to the first operation that has its name and index,
  -- whose segment is there; or no segment has such an operation, and that is the error.
  pub load_weight_lem :
      (devices : List NnExecutorDevice) (u : Bool) (i : ℕ) (configs : List NnSegmentConfig)
      (e : NnExecutor Segment) (name : List ℕ) (index : ℕ)
      → build_segments create_segment devices u i configs ≡ ok e
      → Located configs e.segments name index (load_weight configs e.segments name index)
        ⊎ Missing configs name index (load_weight configs e.segments name index)
  load_weight_lem devices u i configs e name index h =
      elim (load_weight-find_op devices u i configs e name index h) [
        | inl (j, k, s, x, at_j, made_j, f, r, before) ↦
            let (k', same, first) = find_op-some name index s.ops 0 k f in
            inl (
              j,
              k,
              s,
              x,
              at_j,
              made_j,
              subst (IsFirst name index s.ops) (sym (same ∙ zero_add k')) first,
              r,
              λ i s' lt at_i. find_op-none name index s'.ops 0 (before i s' lt at_i),
            )
        | inr (r, all) ↦ inr (r, λ i s at_i. find_op-none name index s.ops 0 (all i s at_i))
      ]
    where
      zero_add : (n : ℕ) → 0 + n ≡ n
      zero_add n = omega arith
