-- ===== src/Tokenizer/Encode.antt =====
-- Tokenizer::encode (src/tokenizer.cpp). The scores of the pieces are floats: their type, the comparison
-- and the score that the search for the best pair starts from are parameters.
pub mod Scan
pub mod Merge
pub mod Text
use distributed_llama.Base.{
  ℕ, zero, suc, ◌+◌, ◌-◌, ◌≤◌, ◌<◌, ◌≡◌, refl, Bool, true, false, List, [], ◌∷◌, ◌++◌, Option, none,
  some, length, take, ◌==◌, ltb, if◌then◌else◌, Result, ok, err, guard, ◌>>=◌, ◌>>◌, assertion,
  memory,
}
use distributed_llama.Tokenizer.Vocab.{
  Vocab, piece, str_buffer_size, find_regular_token, find_special_token_start_with,
}

-- `tokens[(*nTokens)++] = id` before the tokens that follow.
abbrev pub push : ℕ → Result (List ℕ) → Result (List ℕ)
push id (ok tokens) = ok (id ∷ tokens)
push id (err e) = err e

-- A regular token that was found empties `strBuffer`.
abbrev pub take_regular : (ℕ → List ℕ → Result (List ℕ)) → List ℕ → Option ℕ → Result (List ℕ)
take_regular next buffer none = next 0 buffer
take_regular next buffer (some id) = push id (next 0 [])

-- A special token moves the cursor past its piece; an empty piece moves it outside the text.
abbrev pub take_special : (ℕ → List ℕ → Result (List ℕ)) → List ℕ → ℕ → ℕ → Result (List ℕ)
take_special next buffer id zero = err memory
take_special next buffer id (suc k) = push id (next k buffer)

module _ (v : Vocab) where
  unfoldable pub scan_regular : (ℕ → List ℕ → Result (List ℕ)) → ℕ → List ℕ → Result (List ℕ)
  scan_regular next c buffer = do
    guard (ltb (length buffer + 1) (str_buffer_size v)) assertion
    take_regular next (buffer ++ (c ∷ [])) (find_regular_token v (buffer ++ (c ∷ [])))

  -- The turn of the first loop at `c`, from the special token that the text begins with here.
  unfoldable pub scan_char :
      (ℕ → List ℕ → Result (List ℕ)) → ℕ → List ℕ → Option ℕ → Result (List ℕ)
  unfolding scan_regular
  scan_char next c buffer none = scan_regular next c buffer
  scan_char next c buffer (some id) = take_special next buffer id (length (piece v id))

  -- The first loop: `skip` characters are behind the cursor already, `buffer` is in `strBuffer`.
  unfoldable pub scan : Bool → List ℕ → ℕ → List ℕ → Result (List ℕ)
  unfolding scan_char
  scan add_special_tokens [] skip buffer = if length buffer == 0 then ok [] else err assertion
  scan add_special_tokens (c ∷ rest) (suc skip) buffer = scan add_special_tokens rest skip buffer
  scan add_special_tokens (c ∷ rest) zero buffer =
      scan_char (scan add_special_tokens rest) c buffer
        (if add_special_tokens then find_special_token_start_with v (c ∷ rest) else none)

-- best_id and best_idx.
pub record Best : Type 0 where
  pub id : ℕ
  pub index : ℕ

module _ {Score : Type 0} (above : Score → Score → Bool) (lowest : Score) (score : ℕ → Score)
    (v : Vocab) where
  -- best_score.
  abbrev pub best_score : Option Best → Score
  best_score none = lowest
  best_score (some b) = score b.id

  abbrev pub better : Option Best → ℕ → Option ℕ → Option Best
  better best i none = best
  better best i (some id) =
      if above (score id) (best_score best) then some (record { id = id; index = i }) else best

  -- The regular token of a pair, as snprintf joins the two pieces.
  abbrev pub pair_token : ℕ → ℕ → Option ℕ
  pair_token a b = find_regular_token v (take (str_buffer_size v - 1) (piece v a ++ piece v b))

  -- The search over the pairs, from the pair at `i` on.
  unfoldable pub best_pair : List ℕ → ℕ → Option Best → Option Best
  best_pair [] i best = best
  best_pair (a ∷ []) i best = best
  best_pair (a ∷ b ∷ rest) i best = best_pair (b ∷ rest) (i + 1) (better best i (pair_token a b))

  -- The pair at an index is replaced by one token.
  unfoldable pub merge_at : ℕ → ℕ → List ℕ → List ℕ
  merge_at id index [] = []
  merge_at id zero (a ∷ []) = id ∷ []
  merge_at id zero (a ∷ b ∷ rest) = id ∷ rest
  merge_at id (suc index) (a ∷ rest) = a ∷ merge_at id index rest

  abbrev pub merged : (List ℕ → Option (List ℕ)) → List ℕ → Option Best → Option (List ℕ)
  merged next tokens none = some tokens
  merged next tokens (some best) = next (merge_at best.id best.index tokens)

  -- The second loop; `none` is that the fuel does not suffice.
  unfoldable pub merge_loop : ℕ → List ℕ → Option (List ℕ)
  unfolding best_pair merge_at
  merge_loop zero tokens = none
  merge_loop (suc fuel) tokens = merged (merge_loop fuel) tokens (best_pair tokens 0 none)

  abbrev pub then_merge : Result (List ℕ) → Result (Option (List ℕ))
  then_merge (err e) = err e
  then_merge (ok tokens) = ok (merge_loop (suc (length tokens)) tokens)

  unfoldable pub encode : List ℕ → Bool → Bool → Result (Option (List ℕ))
  unfolding scan merge_loop
  encode text add_bos add_special_tokens = then_merge (
      if add_bos
      then push v.bos_id (scan v add_special_tokens text 0 [])
      else scan v add_special_tokens text 0 [])
