-- ===== src/Tokenizer/Examples.antt =====
-- A vocabulary of five pieces, and a detector of one stop piece.
use distributed_llama.Base.{
  ℕ, zero, suc, ◌+◌, ◌≤◌, ◌≡◌, ◌⊎◌, refl, arith, Bool, true, false, List, [], ◌∷◌, ◌++◌, some,
  get_elem?, ltb, ok,
}
use distributed_llama.Base.Strings.{same_string, starts_with}
use distributed_llama.Tokenizer.Vocab.{Vocab, find_regular_token, find_token}
use distributed_llama.Tokenizer.Encode.{
  encode, scan, scan_char, scan_regular, best_pair, merge_at, merge_loop,
}
use distributed_llama.Tokenizer.Encode.Scan.{pieces_of, HasBytes, HasNames}
use distributed_llama.Tokenizer.Encode.Merge.{IsBounded}
use distributed_llama.Tokenizer.Encode.Text.{AreTokens, encode_ok, encode-text}
use distributed_llama.Tokenizer.EosDetector.{
  EosDetector, eos, not_eos, new_eos_detector, is_eos_of, append, filled, match_pieces, match_piece,
  match_lo,
}
use distributed_llama.Tokenizer.EosDetector.Detection.{Holds, Begins, append-eos, append-not_eos}

-- "a", "b", "ab", and the special "<s>" and "<e>".
abbrev words : Vocab
words = record {
  vocab = (97 ∷ []) ∷ (98 ∷ []) ∷ (97 ∷ 98 ∷ []) ∷ (60 ∷ 115 ∷ 62 ∷ []) ∷ (60 ∷ 101 ∷ 62 ∷ []) ∷ [];
  bos_id = 3;
  max_token_length = 3;
}

abbrev above : ℕ → ℕ → Bool
above a b = ltb b a

abbrev score : ℕ → ℕ
score id = id + 1

abbrev text : List ℕ
text = 97 ∷ 98 ∷ 98 ∷ []

text-HasBytes : HasBytes words text
unfolding find_regular_token find_token same_string
text-HasBytes = ((0, refl), ((1, refl), ((1, refl), tt)))

words-HasNames : HasNames words
words-HasNames zero a b = absurd (omega arith)
words-HasNames (suc zero) a b = absurd (omega arith)
words-HasNames (suc (suc zero)) a b = absurd (omega arith)
words-HasNames (suc (suc (suc zero))) a b = omega arith
words-HasNames (suc (suc (suc (suc zero)))) a b = omega arith
words-HasNames (suc (suc (suc (suc (suc n))))) a b = absurd (omega arith)

words-IsBounded : IsBounded words
words-IsBounded zero = omega arith
words-IsBounded (suc zero) = omega arith
words-IsBounded (suc (suc zero)) = omega arith
words-IsBounded (suc (suc (suc zero))) = omega arith
words-IsBounded (suc (suc (suc (suc zero)))) = omega arith
words-IsBounded (suc (suc (suc (suc (suc n))))) = omega arith

encode_ok_example :
    (tokens : List ℕ) × (encode above 0 score words text true true ≡ ok (some tokens))
    × AreTokens above 0 score words text true 4 tokens
encode_ok_example =
    encode_ok above 0 score words text true true text-HasBytes words-HasNames words-IsBounded

encode_abb : encode above 0 score words text false false ≡ ok (some (2 ∷ 1 ∷ []))
unfolding encode scan scan_char scan_regular find_regular_token find_token same_string merge_loop
    best_pair merge_at
encode_abb = refl

encode-text_example : pieces_of words (2 ∷ 1 ∷ []) ≡ [] ++ text
encode-text_example =
    encode-text above 0 score words text false (2 ∷ 1 ∷ []) words-IsBounded encode_abb

-- A detector of token 9 and of "ab", with one character on each side.
abbrev detector : EosDetector
detector = new_eos_detector (9 ∷ []) ((97 ∷ 98 ∷ []) ∷ []) 1 1

detector_eos : (append detector 1 (some (32 ∷ 97 ∷ 98 ∷ []))).0 ≡ eos
unfolding append new_eos_detector is_eos_of match_pieces match_piece match_lo starts_with
detector_eos = refl

detector_not_eos : (append detector 1 (some (32 ∷ 98 ∷ []))).0 ≡ not_eos
unfolding append new_eos_detector is_eos_of match_pieces match_piece match_lo starts_with
detector_not_eos = refl

detector_piece : get_elem? detector.pieces 0 ≡ some (97 ∷ 98 ∷ [])
unfolding new_eos_detector
detector_piece = refl

detector_padding : 1 ≤ detector.padding_left
unfolding new_eos_detector
detector_padding = omega arith

append-eos_example :
    (is_eos_of detector.tokens 1 ≡ true)
    ⊎ ((k : ℕ) × (p : List ℕ) × (lo : ℕ) × (get_elem? detector.pieces k ≡ some p)
        × (lo ≤ detector.padding_left)
        × Holds (filled detector.buffer (some (32 ∷ 97 ∷ 98 ∷ []))) detector.padding_right p lo
        × ((append detector 1 (some (32 ∷ 97 ∷ 98 ∷ []))).1.eos_pos ≡ some lo))
append-eos_example = append-eos detector 1 (some (32 ∷ 97 ∷ 98 ∷ [])) detector_eos

append-not_eos_example :
    (is_eos_of detector.tokens 1 ≡ false)
    × (Holds (filled detector.buffer (some (32 ∷ 98 ∷ []))) detector.padding_right (97 ∷ 98 ∷ []) 1
        → ⊥)
    × (Begins (filled detector.buffer (some (32 ∷ 98 ∷ []))) (97 ∷ 98 ∷ []) 1 → ⊥)
append-not_eos_example =
    append-not_eos detector 1 (some (32 ∷ 98 ∷ [])) 0 (97 ∷ 98 ∷ []) 1 detector_not_eos
      detector_piece detector_padding
