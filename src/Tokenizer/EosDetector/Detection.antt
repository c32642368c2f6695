-- ===== src/Tokenizer/EosDetector/Detection.antt =====
-- What EosDetector::append detects (src/tokenizer.cpp).
use distributed_llama.Base.{
  ℕ, zero, suc, ◌+◌, ◌-◌, ◌≤◌, ◌<◌, ◌≡◌, ◌⊎◌, inl, inr, refl, ap, sym, subst, ◌∙◌, arith, Bool,
  true, false, Bool-cases, List, [], ◌∷◌, Option, some, length, length-append, take, drop,
  get_elem?, ◌==◌, ltb, if◌then◌else◌,
}
use distributed_llama.Base.Strings.{starts_with, starts_with_lem}
use distributed_llama.Tokenizer.EosDetector.{
  EosDetector, EosDetectorType, eos, not_eos, is_eos_of, Match, match_at, match_begin, no_match,
  compared, match_lo, or_else, match_piece, match_pieces, filled, concluded, append,
}

-- The piece stands at `lo` in the buffer, with few characters after it.
abbrev pub Holds : List ℕ → ℕ → List ℕ → ℕ → Type 0
Holds buffer padding_right piece lo =
    (lo < length buffer)
    × (starts_with piece (drop lo buffer) ≡ true)
    × (length buffer - lo ≤ length piece + padding_right)

-- The buffer ends, from `lo` on, in a beginning of the piece.
abbrev pub Begins : List ℕ → List ℕ → ℕ → Type 0
Begins buffer piece lo =
    (lo < length buffer)
    × (length buffer - lo ≤ length piece)
    × (starts_with (take (length buffer - lo) piece) (drop lo buffer) ≡ true)

take_all : (n : ℕ) (xs : List ℕ) → n ≡ length xs → take n xs ≡ xs
take_all zero [] h = refl
take_all zero (x ∷ xs) h = absurd (omega arith)
take_all (suc n) [] h = refl
take_all (suc n) (x ∷ xs) h = ap (◌∷◌ x) (take_all n xs (omega arith))

whole :
    (m : ℕ) (piece ys : List ℕ)
    → m ≡ length piece
    → starts_with (take m piece) ys ≡ starts_with piece ys
whole m piece ys h = ap (λ p. starts_with p ys) (take_all m piece h)

starts_with-length : (xs ys : List ℕ) → starts_with xs ys ≡ true → length xs ≤ length ys
starts_with-length xs ys e =
    let (rest, same) = starts_with_lem xs ys e in
    omega (arith, ap length same, length-append xs rest)

length-drop : (n : ℕ) (xs : List ℕ) → length (drop n xs) ≡ length xs - n
length-drop zero xs = omega arith
length-drop (suc n) [] = omega arith
length-drop (suc n) (x ∷ xs) = omega (arith, length-drop n xs)

match_lo-Holds :
    (buffer : List ℕ) (pr : ℕ) (piece : List ℕ) (lo i : ℕ)
    → match_lo buffer pr piece lo ≡ match_at i
    → (i ≡ lo) × Holds buffer pr piece lo
unfolding match_lo
match_lo-Holds buffer pr piece lo i e =
    ground (arith, e, whole (compared (length piece) (length buffer - lo)) piece (drop lo buffer))

match_lo-none :
    (buffer : List ℕ) (pr : ℕ) (piece : List ℕ) (lo : ℕ)
    → match_lo buffer pr piece lo ≡ no_match
    → (Holds buffer pr piece lo → ⊥) × (Begins buffer piece lo → ⊥)
unfolding match_lo
match_lo-none buffer pr piece lo e = (
  (λ h. ground (
    arith,
    e,
    h.0,
    h.1,
    whole (compared (length piece) (length buffer - lo)) piece (drop lo buffer),
    starts_with-length piece (drop lo buffer),
    length-drop lo buffer,
  )),
  (λ h. ground (arith, e, h.0, h.1)),
)

match_lo-begin :
    (buffer : List ℕ) (pr : ℕ) (piece : List ℕ) (lo : ℕ)
    → match_lo buffer pr piece lo ≡ match_begin
    → Begins buffer piece lo
unfolding match_lo
match_lo-begin buffer pr piece lo e = ground (arith, e)

match_piece-Holds :
    (buffer : List ℕ) (pr : ℕ) (piece : List ℕ) (n lo i : ℕ)
    → match_piece buffer pr piece n lo ≡ match_at i
    → (i < lo + n) × Holds buffer pr piece i
unfolding match_piece
match_piece-Holds buffer pr piece zero lo i e = absurd (distinct e)
  where
    distinct : no_match ≡ match_at i → ⊥
    distinct h = cc
match_piece-Holds buffer pr piece (suc n) lo i e =
    split (match_lo buffer pr piece lo) refl e (match_piece-Holds buffer pr piece n (lo + 1) i)
  where
    split :
        (m : Match)
        → match_lo buffer pr piece lo ≡ m
        → or_else m (match_piece buffer pr piece n (lo + 1)) ≡ match_at i
        → (match_piece buffer pr piece n (lo + 1) ≡ match_at i
            → (i < lo + 1 + n) × Holds buffer pr piece i)
        → (i < lo + suc n) × Holds buffer pr piece i
    split no_match q h rec = (omega (arith, (rec h).0), (rec h).1)
    split match_begin q h rec = cc
    split (match_at j) q h rec =
        let same : match_lo buffer pr piece lo ≡ match_at i = q ∙ h in
        let (at, holds) = match_lo-Holds buffer pr piece lo i same in
        (omega (arith, at), subst (Holds buffer pr piece) (sym at) holds)

match_piece-none :
    (buffer : List ℕ) (pr : ℕ) (piece : List ℕ) (n lo i : ℕ)
    → match_piece buffer pr piece n lo ≡ no_match
    → lo ≤ i
    → i < lo + n
    → (Holds buffer pr piece i → ⊥) × (Begins buffer piece i → ⊥)
unfolding match_piece
match_piece-none buffer pr piece zero lo i e a b = absurd (omega arith)
match_piece-none buffer pr piece (suc n) lo i e a b =
    split (match_lo buffer pr piece lo) refl e (match_piece-none buffer pr piece n (lo + 1) i)
  where
    Nothing : Type 0
    Nothing = (Holds buffer pr piece i → ⊥) × (Begins buffer piece i → ⊥)

    split :
        (m : Match)
        → match_lo buffer pr piece lo ≡ m
        → or_else m (match_piece buffer pr piece n (lo + 1)) ≡ no_match
        → (match_piece buffer pr piece n (lo + 1) ≡ no_match
            → lo + 1 ≤ i
            → i < lo + 1 + n
            → Nothing)
        → Nothing
    split (match_at j) q h rec = cc
    split match_begin q h rec = cc
    split no_match q h rec = elim (Bool-cases (i == lo)) [
      | inl here ↦
          let same : lo ≡ i = ground arith in
          match_lo-none buffer pr piece i
            (subst (λ j. match_lo buffer pr piece j ≡ no_match) same q)
      | inr later ↦ rec h (ground arith) (omega arith)
    ]

module _ (buffer : List ℕ) (pl pr : ℕ) where
  match_pieces-Holds :
      (pieces : List (List ℕ)) (lo : ℕ)
      → match_pieces buffer pl pr pieces ≡ match_at lo
      → (k : ℕ) × (p : List ℕ) × (get_elem? pieces k ≡ some p) × (lo ≤ pl) × Holds buffer pr p lo
  unfolding match_pieces
  match_pieces-Holds [] lo e = cc
  match_pieces-Holds (piece ∷ pieces) lo e =
      split (ltb (length piece + pl + pr) (length buffer)) (match_piece buffer pr piece (pl + 1) 0)
        refl e (match_pieces-Holds pieces lo)
    where
      Found : List (List ℕ) → Type 0
      Found pieces =
          (k : ℕ) × (p : List ℕ) × (get_elem? pieces k ≡ some p) × (lo ≤ pl) × Holds buffer pr p lo

      later : Found pieces → Found (piece ∷ pieces)
      later (k, p, g, a, h) = (suc k, p, g, a, h)

      split :
          (skip : Bool) (m : Match)
          → match_piece buffer pr piece (pl + 1) 0 ≡ m
          → (if skip
              then match_pieces buffer pl pr pieces
              else or_else m (match_pieces buffer pl pr pieces))
            ≡ match_at lo
          → (match_pieces buffer pl pr pieces ≡ match_at lo → Found pieces)
          → Found (piece ∷ pieces)
      split true m q h rec = later (rec h)
      split false no_match q h rec = later (rec h)
      split false match_begin q h rec = cc
      split false (match_at j) q h rec =
          let (lt, holds) = match_piece-Holds buffer pr piece (pl + 1) 0 lo (q ∙ h) in
          (0, piece, refl, omega arith, holds)

  match_pieces-none :
      (pieces : List (List ℕ)) (k : ℕ) (p : List ℕ) (lo : ℕ)
      → match_pieces buffer pl pr pieces ≡ no_match
      → get_elem? pieces k ≡ some p
      → lo ≤ pl
      → (Holds buffer pr p lo → ⊥) × (Begins buffer p lo → ⊥)
  unfolding match_pieces
  match_pieces-none [] k p lo e g le = cc
  match_pieces-none (piece ∷ pieces) k p lo e g le =
      split (ltb (length piece + pl + pr) (length buffer)) refl
        (match_piece buffer pr piece (pl + 1) 0) refl e k g
        (λ k g h. match_pieces-none pieces k p lo h g le)
    where
      Nothing : Type 0
      Nothing = (Holds buffer pr p lo → ⊥) × (Begins buffer p lo → ⊥)

      head : (k : ℕ) → k ≡ 0 → get_elem? (piece ∷ pieces) k ≡ some p → piece ≡ p
      head zero z g = cc
      head (suc k) z g = absurd (omega arith)

      split :
          (skip : Bool)
          → ltb (length piece + pl + pr) (length buffer) ≡ skip
          → (m : Match) → match_piece buffer pr piece (pl + 1) 0 ≡ m
          → (if skip
              then match_pieces buffer pl pr pieces
              else or_else m (match_pieces buffer pl pr pieces))
            ≡ no_match
          → (k : ℕ) → get_elem? (piece ∷ pieces) k ≡ some p
          → ((k : ℕ)
              → get_elem? pieces k ≡ some p
              → match_pieces buffer pl pr pieces ≡ no_match
              → Nothing)
          → Nothing
      split true s m q h (suc k) g rec = rec k g h
      split true s m q h zero g rec =
          let same : piece ≡ p = head 0 refl g in
          let long : length piece + pl + pr < length buffer = ground arith in
          let far : length p + pl + pr < length buffer = omega (arith, ap length same) in
          ((λ (a, b, c). omega (arith, far, a, c)), (λ (a, b, c). omega (arith, far, a, b)))
      split false s no_match q h (suc k) g rec = rec k g h
      split false s no_match q h zero g rec =
          let same : piece ≡ p = head 0 refl g in
          subst (λ p. (Holds buffer pr p lo → ⊥) × (Begins buffer p lo → ⊥)) same
            (match_piece-none buffer pr piece (pl + 1) 0 lo q (omega arith) (omega arith))
      split false s match_begin q h k g rec = cc
      split false s (match_at j) q h k g rec = cc

-- When the detector says the end, the token is a stop token, or a stop piece stands in the buffer,
-- after the left padding at most and before the right padding at most, and its place is what the
-- detector remembers.
pub append-eos :
    (d : EosDetector) (token_id : ℕ) (piece : Option (List ℕ))
    → (append d token_id piece).0 ≡ eos
    → (is_eos_of d.tokens token_id ≡ true)
      ⊎ ((k : ℕ) × (p : List ℕ) × (lo : ℕ) × (get_elem? d.pieces k ≡ some p)
          × (lo ≤ d.padding_left)
          × Holds (filled d.buffer piece) d.padding_right p lo
          × ((append d token_id piece).1.eos_pos ≡ some lo))
unfolding append
append-eos d token_id piece e =
    from (is_eos_of d.tokens token_id) refl
      (match_pieces (filled d.buffer piece) d.padding_left d.padding_right d.pieces) refl e
  where
    out : Bool → Match → EosDetectorType × EosDetector
    out is m =
        if is
        then (
          eos,
          record d {
            buffer = filled d.buffer piece;
            eos_pos = some (length (filled d.buffer piece));
          },
        )
        else concluded (record d { buffer = filled d.buffer piece }) m

    from :
        (is : Bool)
        → is_eos_of d.tokens token_id ≡ is
        → (m : Match)
        → match_pieces (filled d.buffer piece) d.padding_left d.padding_right d.pieces ≡ m
        → (out is m).0 ≡ eos
        → (is_eos_of d.tokens token_id ≡ true)
          ⊎ ((k : ℕ) × (p : List ℕ) × (lo : ℕ) × (get_elem? d.pieces k ≡ some p)
              × (lo ≤ d.padding_left)
              × Holds (filled d.buffer piece) d.padding_right p lo
              × ((out is m).1.eos_pos ≡ some lo))
    from true i m q h = inl i
    from false i no_match q h = cc
    from false i match_begin q h = cc
    from false i (match_at lo) q h =
        let (k, p, g, le, holds) =
          match_pieces-Holds (filled d.buffer piece) d.padding_left d.padding_right d.pieces lo q in
        inr (k, p, lo, g, le, holds, refl)

-- When the detector says that there is no end, the token is no stop token, no stop piece stands in
-- the buffer within the paddings, and the buffer does not end in the beginning of one that starts
-- within the left padding.
pub append-not_eos :
    (d : EosDetector) (token_id : ℕ) (piece : Option (List ℕ)) (k : ℕ) (p : List ℕ) (lo : ℕ)
    → (append d token_id piece).0 ≡ not_eos
    → get_elem? d.pieces k ≡ some p
    → lo ≤ d.padding_left
    → (is_eos_of d.tokens token_id ≡ false)
      × (Holds (filled d.buffer piece) d.padding_right p lo → ⊥)
      × (Begins (filled d.buffer piece) p lo → ⊥)
unfolding append
append-not_eos d token_id piece k p lo e g le =
    from (is_eos_of d.tokens token_id) refl
      (match_pieces (filled d.buffer piece) d.padding_left d.padding_right d.pieces) refl e
  where
    from :
        (is : Bool)
        → is_eos_of d.tokens token_id ≡ is
        → (m : Match)
        → match_pieces (filled d.buffer piece) d.padding_left d.padding_right d.pieces ≡ m
        → (if is
            then (
              eos,
              record d {
                buffer = filled d.buffer piece;
                eos_pos = some (length (filled d.buffer piece));
              },
            )
            else concluded (record d { buffer = filled d.buffer piece }) m).0
          ≡ not_eos
        → (is_eos_of d.tokens token_id ≡ false)
          × (Holds (filled d.buffer piece) d.padding_right p lo → ⊥)
          × (Begins (filled d.buffer piece) p lo → ⊥)
    from true i m q h = cc
    from false i (match_at j) q h = cc
    from false i match_begin q h = cc
    from false i no_match q h =
        let (holds, begins) =
          match_pieces-none (filled d.buffer piece) d.padding_left d.padding_right d.pieces k p lo q
            g le in
        (i, holds, begins)
