-- ===== src/Tokenizer/Encode/Merge.antt =====
-- The second loop of Tokenizer::encode (src/tokenizer.cpp).
use distributed_llama.Base.{
  ℕ, zero, suc, ◌+◌, ◌-◌, ◌≤◌, ◌<◌, ◌≡◌, ◌⊎◌, inl, inr, refl, ap, subst, ◌∙◌, arith, Bool, true,
  false, List, [], ◌∷◌, ◌++◌, Option, none, some, length, length-append, append_assoc, take,
  if◌then◌else◌,
}
use distributed_llama.Tokenizer.Vocab.{Vocab, piece, str_buffer_size}
use distributed_llama.Tokenizer.Encode.Scan.{pieces_of, find_regular_token_lem}
use distributed_llama.Tokenizer.Encode.{
  Best, better, pair_token, best_pair, merge_at, merged, merge_loop,
}

-- No piece is longer than the header says.
abbrev pub IsBounded : Vocab → Type 0
IsBounded v = (id : ℕ) → length (piece v id) ≤ v.max_token_length

take_all : (n : ℕ) (xs : List ℕ) → length xs ≤ n → take n xs ≡ xs
take_all zero [] h = refl
take_all zero (x ∷ xs) h = absurd (omega arith)
take_all (suc n) [] h = refl
take_all (suc n) (x ∷ xs) h = ap (◌∷◌ x) (take_all n xs (omega arith))

abbrev none_best : Option Best
none_best = none

only_some : (t : Bool) (a b : Best) → (if t then some a else some b) ≡ none → ⊥
only_some true a b e = cc
only_some false a b e = cc

module _ {Score : Type 0} (above : Score → Score → Bool) (lowest : Score) (score : ℕ → Score)
    (v : Vocab) where
  -- `strBuffer` has room for two pieces.
  pair_token_lem :
      (a b id : ℕ)
      → IsBounded v
      → pair_token above lowest score v a b ≡ some id
      → piece v id ≡ piece v a ++ piece v b
  pair_token_lem a b id bounded e =
      find_regular_token_lem v _ id e
      ∙ take_all (str_buffer_size v - 1) (piece v a ++ piece v b)
          (ground (arith, length-append (piece v a) (piece v b), bounded a, bounded b))

  -- The pair at an index has a token of its own.
  abbrev pub IsPair : ℕ → ℕ → List ℕ → Type 0
  IsPair id index [] = ⊥
  IsPair id zero (a ∷ []) = ⊥
  IsPair id zero (a ∷ b ∷ rest) = pair_token above lowest score v a b ≡ some id
  IsPair id (suc index) (a ∷ rest) = IsPair id index rest

  -- No pair has a token whose score is above the lowest.
  abbrev pub NoPair : List ℕ → Type 0
  NoPair [] = Unit
  NoPair (a ∷ []) = Unit
  NoPair (a ∷ b ∷ rest) =
      ((id : ℕ) → pair_token above lowest score v a b ≡ some id → above (score id) lowest ≡ false)
      × NoPair (b ∷ rest)

  pieces_of-merge_at :
      (id index : ℕ) (tokens : List ℕ)
      → IsBounded v
      → IsPair id index tokens
      → (pieces_of v (merge_at above lowest score v id index tokens) ≡ pieces_of v tokens)
        × (suc (length (merge_at above lowest score v id index tokens)) ≡ length tokens)
  unfolding merge_at
  pieces_of-merge_at id index [] bounded h = absurd h
  pieces_of-merge_at id zero (a ∷ []) bounded h = absurd h
  pieces_of-merge_at id zero (a ∷ b ∷ rest) bounded h = (
    ap (λ p. p ++ pieces_of v rest) (pair_token_lem a b id bounded h)
        ∙ append_assoc (piece v a) (piece v b) (pieces_of v rest),
    refl,
  )
  pieces_of-merge_at id (suc index) (a ∷ rest) bounded h =
      let (text, len) = pieces_of-merge_at id index rest bounded h in
      (ap (λ t. piece v a ++ t) text, ap suc len)

  better-some :
      (best : Option Best) (i : ℕ) (o : Option ℕ) (b : Best)
      → better above lowest score v best i o ≡ some b
      → (best ≡ some b) ⊎ ((o ≡ some b.id) × (b.index ≡ i))
  better-some best i none b e = inl e
  better-some best i (some id) b e = ground (arith, e)

  best_pair-IsPair :
      (tokens : List ℕ) (i : ℕ) (best : Option Best) (b : Best)
      → best_pair above lowest score v tokens i best ≡ some b
      → (best ≡ some b) ⊎ ((k : ℕ) × (b.index ≡ i + k) × IsPair b.id k tokens)
  unfolding best_pair
  best_pair-IsPair [] i best b e = inl e
  best_pair-IsPair (x ∷ []) i best b e = inl e
  best_pair-IsPair (x ∷ y ∷ rest) i best b e = elim (best_pair-IsPair (y ∷ rest) (i + 1) _ b e) [
    | inr (k, at, pair) ↦ inr (suc k, omega arith, pair)
    | inl now ↦ elim (better-some best i _ b now) [
      | inl before ↦ inl before
      | inr (pair, at) ↦ inr (zero, omega arith, pair)
    ]
  ]

  better-none :
      (best : Option Best) (i : ℕ) (o : Option ℕ)
      → better above lowest score v best i o ≡ none
      → (best ≡ none) × ((id : ℕ) → o ≡ some id → above (score id) lowest ≡ false)
  better-none best i none e = (e, λ id h. cc)
  better-none none i (some id) e =
      let low : above (score id) lowest ≡ false = ground (arith, e) in
      (
        refl,
        λ id' h. let same : id ≡ id' = cc in subst (λ j. above (score j) lowest ≡ false) same low,
      )
  better-none (some b) i (some id) e = absurd (only_some (above (score id) (score b.id)) _ b e)

  best_pair-NoPair :
      (tokens : List ℕ) (i : ℕ) (best : Option Best)
      → best_pair above lowest score v tokens i best ≡ none
      → (best ≡ none) × NoPair tokens
  unfolding best_pair
  best_pair-NoPair [] i best e = (e, tt)
  best_pair-NoPair (x ∷ []) i best e = (e, tt)
  best_pair-NoPair (x ∷ y ∷ rest) i best e =
      let (before, none_after) = best_pair-NoPair (y ∷ rest) (i + 1) _ e in
      let (first, here) = better-none best i _ before in (first, (here, none_after))

  -- As many turns as there are tokens are enough. The tokens that remain spell the same text, are
  -- no more, and no two neighbours of them have a token of their own with a score above the lowest.
  pub merge_loop_ok :
      (fuel : ℕ) (tokens : List ℕ)
      → IsBounded v
      → length tokens < fuel
      → (out : List ℕ) × (merge_loop above lowest score v fuel tokens ≡ some out)
        × (pieces_of v out ≡ pieces_of v tokens)
        × (length out ≤ length tokens)
        × NoPair out
  unfolding merge_loop
  merge_loop_ok zero tokens bounded lt = absurd (omega arith)
  merge_loop_ok (suc fuel) tokens bounded lt =
      turn (best_pair above lowest score v tokens 0 none) refl (λ t. merge_loop_ok fuel t bounded)
    where
      Done : Option (List ℕ) → Type 0
      Done r =
          (out : List ℕ) × (r ≡ some out)
          × (pieces_of v out ≡ pieces_of v tokens)
          × (length out ≤ length tokens)
          × NoPair out

      turn :
          (o : Option Best)
          → best_pair above lowest score v tokens 0 none ≡ o
          → ((t : List ℕ)
              → length t < fuel
              → (out : List ℕ) × (merge_loop above lowest score v fuel t ≡ some out)
                × (pieces_of v out ≡ pieces_of v t)
                × (length out ≤ length t)
                × NoPair out)
          → Done (merged above lowest score v (merge_loop above lowest score v fuel) tokens o)
      turn none e next = (tokens, refl, refl, omega arith, (best_pair-NoPair tokens 0 none e).1)
      turn (some b) e next = found (best_pair-IsPair tokens 0 none b e)
        where
          found :
              none_best ≡ some b ⊎ ((k : ℕ) × (b.index ≡ 0 + k) × IsPair b.id k tokens)
              → Done (
                  merge_loop above lowest score v fuel
                    (merge_at above lowest score v b.id b.index tokens))
          found (inl h) = cc
          found (inr (k, at, pair)) =
              let at' : k ≡ b.index = omega arith in
              let pair' : IsPair b.id b.index tokens = subst (λ k. IsPair b.id k tokens) at' pair in
              let (text, len) = pieces_of-merge_at b.id b.index tokens bounded pair' in
              let (out, run, text', short, last) = next _ (omega arith) in
              (out, run, text' ∙ text, omega arith, last)
