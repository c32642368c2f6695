-- ===== src/Tokenizer/Encode/Text.antt =====
-- Tokenizer::encode as a whole (src/tokenizer.cpp).
use distributed_llama.Base.{
  ℕ, suc, ◌≤◌, ◌≡◌, refl, ap, sym, ◌∙◌, arith, Bool, true, false, List, [], ◌∷◌, ◌++◌, some, length,
  if◌then◌else◌, Result, ok, err,
}
use distributed_llama.Tokenizer.Vocab.{Vocab, piece}
use distributed_llama.Tokenizer.Encode.Scan.{pieces_of, HasBytes, HasNames, scan-text, scan_ok}
use distributed_llama.Tokenizer.Encode.Merge.{IsBounded, NoPair, merge_loop_ok}
use distributed_llama.Tokenizer.Encode.{push, scan, then_merge, encode}

-- The piece of the token that is put before the text.
abbrev pub bos_piece : Vocab → Bool → List ℕ
bos_piece v add_bos = if add_bos then piece v v.bos_id else []

module _ {Score : Type 0} (above : Score → Score → Bool) (lowest : Score) (score : ℕ → Score)
    (v : Vocab) where
  abbrev pub AreTokens : List ℕ → Bool → ℕ → List ℕ → Type 0
  AreTokens text add_bos most tokens =
      (pieces_of v tokens ≡ bos_piece v add_bos ++ text)
      × (length tokens ≤ most)
      × NoPair above lowest score v tokens

  then_merge_ok :
      (text : List ℕ) (add_bos : Bool) (found : List ℕ)
      → IsBounded v
      → pieces_of v found ≡ bos_piece v add_bos ++ text
      → (tokens : List ℕ) × (then_merge above lowest score v (ok found) ≡ ok (some tokens))
        × AreTokens text add_bos (length found) tokens
  then_merge_ok text add_bos found bounded e =
      let (tokens, run, same, short, last) =
        merge_loop_ok above lowest score v (suc (length found)) found bounded (omega arith) in
      (tokens, ap ok run, (same ∙ e, short, last))

  -- With a regular token for every character of the text, no empty special piece and no piece
  -- longer than the header says, the encoder succeeds: the tokens spell the text, after the piece
  -- of the first token where it is asked for; there are at most as many as characters and one more;
  -- and no two neighbours have a regular token of their own with a score above the lowest.
  pub encode_ok :
      (text : List ℕ) (add_bos add_special_tokens : Bool)
      → HasBytes v text
      → HasNames v
      → IsBounded v
      → (tokens : List ℕ) × (encode above lowest score v text add_bos add_special_tokens
          ≡ ok (some tokens))
        × AreTokens text add_bos (suc (length text)) tokens
  unfolding encode
  encode_ok text add_bos special bytes names bounded =
      let (found, run, spells, short) = scan_ok v special text 0 bytes names (omega arith) in
      start add_bos found run spells (omega arith)
    where
      start :
          (add_bos : Bool) (found : List ℕ)
          → scan v special text 0 [] ≡ ok found
          → pieces_of v found ≡ text
          → length found ≤ length text
          → (tokens : List ℕ) × (encode above lowest score v text add_bos special
              ≡ ok (some tokens))
            × AreTokens text add_bos (suc (length text)) tokens
      start true found run spells short =
          let (tokens, merge, (same, few, last)) =
            then_merge_ok text true (v.bos_id ∷ found) bounded
              (ap (λ t. piece v v.bos_id ++ t) spells) in
          (
            tokens,
            ap (λ r. then_merge above lowest score v (push v.bos_id r)) run ∙ merge,
            (same, omega arith, last),
          )
      start false found run spells short =
          let (tokens, merge, (same, few, last)) = then_merge_ok text false found bounded spells in
          (tokens, ap (then_merge above lowest score v) run ∙ merge, (same, omega arith, last))

  -- Without special tokens, and with no piece longer than the header says, whatever the encoder
  -- returns spells the text, after the piece of the first token where it is asked for.
  pub encode-text :
      (text : List ℕ) (add_bos : Bool) (tokens : List ℕ)
      → IsBounded v
      → encode above lowest score v text add_bos false ≡ ok (some tokens)
      → pieces_of v tokens ≡ bos_piece v add_bos ++ text
  unfolding encode
  encode-text text add_bos tokens bounded e = start add_bos (scan v false text 0 []) refl e
    where
      merged_text :
          (add_bos : Bool) (found : List ℕ)
          → pieces_of v found ≡ bos_piece v add_bos ++ text
          → then_merge above lowest score v (ok found) ≡ ok (some tokens)
          → pieces_of v tokens ≡ bos_piece v add_bos ++ text
      merged_text add_bos found spells h =
          let (out, run, (same, _, _)) = then_merge_ok text add_bos found bounded spells in
          let one : out ≡ tokens = cc in ap (pieces_of v) (sym one) ∙ same

      start :
          (add_bos : Bool) (r : Result (List ℕ))
          → scan v false text 0 [] ≡ r
          → then_merge above lowest score v (if add_bos then push v.bos_id r else r)
            ≡ ok (some tokens)
          → pieces_of v tokens ≡ bos_piece v add_bos ++ text
      start true (err x) run h = cc
      start false (err x) run h = cc
      start true (ok found) run h =
          merged_text true (v.bos_id ∷ found)
            (ap (λ t. piece v v.bos_id ++ t) (scan-text v text [] found run)) h
      start false (ok found) run h = merged_text false found (scan-text v text [] found run) h
