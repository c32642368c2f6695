-- ===== src/Tokenizer/Encode/Scan.antt =====
-- The first loop of Tokenizer::encode (src/tokenizer.cpp).
use distributed_llama.Base.{
  ℕ, zero, suc, ◌+◌, ◌-◌, ◌≤◌, ◌<◌, ◌≡◌, refl, ap, sym, ◌∙◌, arith, Bool, true, false, List, [],
  ◌∷◌, ◌++◌, Option, none, some, length, append_assoc, length-append, drop, ltb, if◌then◌else◌,
  Result, ok, err, assertion, guard, ◌>>◌,
}
use distributed_llama.Cache.Tokens.{All}
use distributed_llama.Tokenizer.Vocab.{
  Vocab, piece, str_buffer_size, find_regular_token, find_special_token_start_with, find_token_lem,
}
use distributed_llama.Base.Strings.{same_string, starts_with, same_string-eq, starts_with_lem}
use distributed_llama.Tokenizer.Encode.{
  push, take_regular, take_special, scan_regular, scan_char, scan,
}

append_nil : (xs : List ℕ) → xs ++ [] ≡ xs
append_nil [] = refl
append_nil (x ∷ xs) = ap (◌∷◌ x) (append_nil xs)

ok-injective {ℓ} : {A : Type ℓ} {a b : A} → ok a ≡ ok b → a ≡ b
ok-injective e = cc

pub push-ok :
    (id : ℕ) (r : Result (List ℕ)) (tokens : List ℕ)
    → push id r ≡ ok tokens
    → (rest : List ℕ) × (r ≡ ok rest) × (id ∷ rest ≡ tokens)
push-ok id (ok rest) tokens e = (rest, refl, ok-injective e)
push-ok id (err x) tokens e = cc

module _ (v : Vocab) where
  -- The pieces of the tokens, one after the other.
  abbrev pub pieces_of : List ℕ → List ℕ
  pieces_of [] = []
  pieces_of (id ∷ tokens) = piece v id ++ pieces_of tokens

  -- Every character is a piece of the regular vocabulary.
  abbrev pub HasBytes : List ℕ → Type 0
  HasBytes text = All (λ c. (id : ℕ) × (find_regular_token v (c ∷ []) ≡ some id)) text

  -- No special piece is empty.
  abbrev pub HasNames : Type 0
  HasNames = (id : ℕ) → v.bos_id ≤ id → id < length v.vocab → 0 < length (piece v id)

  pub find_regular_token_lem :
      (text : List ℕ) (id : ℕ) → find_regular_token v text ≡ some id → piece v id ≡ text
  unfolding find_regular_token
  find_regular_token_lem text id e =
      same_string-eq (piece v id) text
        (find_token_lem v.vocab (λ p. same_string p text) v.bos_id 0 e).0

  find_special_lem :
      (text : List ℕ) (id : ℕ)
      → find_special_token_start_with v text ≡ some id
      → (v.bos_id ≤ id) × (id < length v.vocab) × ((rest : List ℕ) × (text ≡ piece v id ++ rest))
  unfolding find_special_token_start_with
  find_special_lem text id e =
      let (starts, low, high) =
        find_token_lem v.vocab (λ p. starts_with p text) (length v.vocab - v.bos_id) v.bos_id e in
      (low, omega arith, starts_with_lem (piece v id) text starts)

  -- Without special tokens the tokens that are found spell what is in the buffer and the text.
  pub scan-text :
      (text buffer tokens : List ℕ)
      → scan v false text 0 buffer ≡ ok tokens
      → pieces_of tokens ≡ buffer ++ text
  unfolding scan scan_char scan_regular
  scan-text [] [] tokens e = ap pieces_of (sym (ok-injective e))
  scan-text [] (b ∷ bs) tokens e = ground arith
  scan-text (c ∷ rest) buffer tokens e =
      found (ltb (length buffer + 1) (str_buffer_size v))
        (find_regular_token v (buffer ++ (c ∷ []))) refl (scan-text rest) e
    where
      found :
          (room : Bool) (o : Option ℕ)
          → find_regular_token v (buffer ++ (c ∷ [])) ≡ o
          → ((buffer tokens : List ℕ)
              → scan v false rest 0 buffer ≡ ok tokens
              → pieces_of tokens ≡ buffer ++ rest)
          → (guard room assertion >> take_regular (scan v false rest) (buffer ++ (c ∷ [])) o)
            ≡ ok tokens
          → pieces_of tokens ≡ buffer ++ (c ∷ rest)
      found false o f next h = cc
      found true none f next h =
          next (buffer ++ (c ∷ [])) tokens h ∙ append_assoc buffer (c ∷ []) rest
      found true (some id) f next h =
          let (tail, run, same) = push-ok id (scan v false rest 0 []) tokens h in
          ap pieces_of (sym same)
          ∙ ap (λ p. p ++ pieces_of tail) (find_regular_token_lem _ id f)
          ∙ ap (λ t. (buffer ++ (c ∷ [])) ++ t) (next [] tail run)
          ∙ append_assoc buffer (c ∷ []) rest

  -- What the loop does on the text after a character.
  abbrev Next : (ℕ → List ℕ → Result (List ℕ)) → List ℕ → Type 0
  Next next rest =
      (skip : ℕ)
      → skip ≤ length rest
      → (tokens : List ℕ) × (next skip [] ≡ ok tokens)
        × (pieces_of tokens ≡ drop skip rest)
        × (length tokens + skip ≤ length rest)

  abbrev Done : Result (List ℕ) → List ℕ → Type 0
  Done r text =
      (tokens : List ℕ) × (r ≡ ok tokens)
      × (pieces_of tokens ≡ text)
      × (length tokens + 0 ≤ length text)

  regular_ok :
      (next : ℕ → List ℕ → Result (List ℕ)) (c : ℕ) (rest : List ℕ) (id : ℕ)
      → find_regular_token v (c ∷ []) ≡ some id
      → Next next rest
      → Done (scan_regular v next c []) (c ∷ rest)
  unfolding scan_regular
  regular_ok next c rest id h run =
      let (tokens, e, text, short) = run 0 (omega arith) in
      (
        id ∷ tokens,
        ap (λ b. guard b assertion >> take_regular next (c ∷ []) (find_regular_token v (c ∷ [])))
              (room v)
            ∙ ap (take_regular next (c ∷ [])) h
            ∙ ap (push id) e,
        ap (λ p. p ++ pieces_of tokens) (find_regular_token_lem (c ∷ []) id h) ∙ ap (◌∷◌ c) text,
        omega arith,
      )
    where
      room : (v : Vocab) → ltb (0 + 1) (str_buffer_size v) ≡ true
      room v = ground arith

  drop-front : (xs ys : List ℕ) → drop (length xs) (xs ++ ys) ≡ ys
  drop-front [] ys = refl
  drop-front (x ∷ xs) ys = drop-front xs ys

  special_ok :
      (next : ℕ → List ℕ → Result (List ℕ)) (c : ℕ) (rest : List ℕ) (id : ℕ) (p tail : List ℕ)
      → 0 < length p
      → piece v id ≡ p
      → c ∷ rest ≡ p ++ tail
      → Next next rest
      → Done (take_special next [] id (length p)) (c ∷ rest)
  special_ok next c rest id [] tail pos e same run = absurd (omega arith)
  special_ok next c rest id (x ∷ xs) tail pos e same run =
      let head : x ≡ c = ground (arith, same) in
      let after : rest ≡ xs ++ tail = ground (arith, same) in
      let (tokens, e', text, short) =
        run (length xs) (omega (arith, ap length after, length-append xs tail)) in
      (
        id ∷ tokens,
        ap (push id) e',
        ap (λ p. p ++ pieces_of tokens) e
            ∙ ap (λ t. (x ∷ xs) ++ t) (text ∙ ap (drop (length xs)) after ∙ drop-front xs tail)
            ∙ sym same,
        omega arith,
      )

  -- With a token for every character, and a name for every special token, the loop succeeds, the
  -- tokens that it finds spell the text from the cursor on, and there are no more of them than
  -- characters.
  pub scan_ok :
      (special : Bool) (text : List ℕ) (skip : ℕ)
      → HasBytes text
      → HasNames
      → skip ≤ length text
      → (tokens : List ℕ) × (scan v special text skip [] ≡ ok tokens)
        × (pieces_of tokens ≡ drop skip text)
        × (length tokens + skip ≤ length text)
  unfolding scan scan_char scan_regular
  scan_ok special [] zero h names le = ([], refl, refl, le)
  scan_ok special [] (suc skip) h names le = absurd (omega arith)
  scan_ok special (c ∷ rest) (suc skip) (h, hs) names le =
      let (tokens, run, text, short) = scan_ok special rest skip hs names (omega arith) in
      (tokens, run, text, omega arith)
  scan_ok special (c ∷ rest) zero (h, hs) names le =
      char (if special then find_special_token_start_with v (c ∷ rest) else none) (from special)
        (λ skip. scan_ok special rest skip hs names)
    where
      Special : Option ℕ → Type 0
      Special none = Unit
      Special (some id) = find_special_token_start_with v (c ∷ rest) ≡ some id

      from :
          (special : Bool)
          → Special (if special then find_special_token_start_with v (c ∷ rest) else none)
      from false = tt
      from true = found (find_special_token_start_with v (c ∷ rest)) refl
        where
          found : (o : Option ℕ) → find_special_token_start_with v (c ∷ rest) ≡ o → Special o
          found none e = tt
          found (some id) e = e

      char :
          (o : Option ℕ)
          → Special o
          → Next (scan v special rest) rest
          → Done (scan_char v (scan v special rest) c [] o) (c ∷ rest)
      char none e next = regular_ok (scan v special rest) c rest h.0 h.1 next
      char (some id) e next =
          let (low, high, (tail, same)) = find_special_lem (c ∷ rest) id e in
          special_ok (scan v special rest) c rest id (piece v id) tail (names id low high) refl same
            next
