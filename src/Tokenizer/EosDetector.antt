-- ===== src/Tokenizer/EosDetector.antt =====
-- EosDetector (src/tokenizer.cpp). `buffer` holds the `bufferPos` characters before the terminator; a
-- stop piece is the characters before its terminator. The paddings are not negative.
pub mod Detection
use distributed_llama.Base.{
  ℕ, zero, suc, ◌+◌, ◌-◌, ◌≤◌, ◌<◌, Bool, true, false, ◌&&◌, ◌||◌, List, [], ◌∷◌, ◌++◌, Option,
  none, some, length, take, drop, set, ◌==◌, ltb, leb, if◌then◌else◌,
}
use distributed_llama.Base.Strings.{starts_with}

pub data EosDetectorType : Type 0 where
  maybe_eos eos not_eos : EosDetectorType

pub record EosDetector : Type 0 where
  pub tokens : List ℕ
  pub pieces : List (List ℕ)
  pub padding_left : ℕ
  pub padding_right : ℕ
  pub buffer : List ℕ
  pub eos_pos : Option ℕ

unfoldable pub new_eos_detector : List ℕ → List (List ℕ) → ℕ → ℕ → EosDetector
new_eos_detector tokens pieces padding_left padding_right = record {
  tokens = tokens;
  pieces = pieces;
  padding_left = padding_left;
  padding_right = padding_right;
  buffer = [];
  eos_pos = none;
}

unfoldable pub is_eos_of : List ℕ → ℕ → Bool
is_eos_of [] token_id = false
is_eos_of (t ∷ tokens) token_id = let rest = is_eos_of tokens token_id in (token_id == t) || rest

-- What the search says: a stop piece at an index, the beginning of one, or neither.
pub data Match : Type 0 where
  match_at : ℕ → Match
  match_begin no_match : Match

-- `n`, cut to the size of the piece.
abbrev pub compared : ℕ → ℕ → ℕ
compared piece_size n = if ltb piece_size n then piece_size else n

-- The turn of the inner loop at `lo`.
unfoldable pub match_lo : List ℕ → ℕ → List ℕ → ℕ → Match
match_lo buffer padding_right piece lo =
    let n = length buffer - lo in
    let m = compared (length piece) n in
    if leb (length buffer) lo || ltb (length piece + padding_right) n
    then no_match
    else if starts_with (take m piece) (drop lo buffer)
    then (if m == length piece then match_at lo else match_begin)
    else no_match

abbrev pub or_else : Match → Match → Match
or_else no_match rest = rest
or_else (match_at i) rest = match_at i
or_else match_begin rest = match_begin

-- The inner loop, `n` turns from `lo` on.
unfoldable pub match_piece : List ℕ → ℕ → List ℕ → ℕ → ℕ → Match
unfolding match_lo
match_piece buffer padding_right piece zero lo = no_match
match_piece buffer padding_right piece (suc n) lo =
    or_else (match_lo buffer padding_right piece lo)
      (match_piece buffer padding_right piece n (lo + 1))

unfoldable pub match_pieces : List ℕ → ℕ → ℕ → List (List ℕ) → Match
unfolding match_piece
match_pieces buffer padding_left padding_right [] = no_match
match_pieces buffer padding_left padding_right (piece ∷ pieces) =
    let rest = match_pieces buffer padding_left padding_right pieces in
    if ltb (length piece + padding_left + padding_right) (length buffer)
    then rest
    else or_else (match_piece buffer padding_right piece (padding_left + 1) 0) rest

abbrev pub filled : List ℕ → Option (List ℕ) → List ℕ
filled buffer none = buffer
filled buffer (some piece) = buffer ++ piece

-- The piece that is found is cut off by a terminator in its place.
abbrev pub concluded : EosDetector → Match → EosDetectorType × EosDetector
concluded d (match_at lo) = (eos, record d { eos_pos = some lo; buffer = set d.buffer lo 0 })
concluded d match_begin = (maybe_eos, record d { eos_pos = none })
concluded d no_match = (not_eos, record d { eos_pos = none })

unfoldable pub append : EosDetector → ℕ → Option (List ℕ) → EosDetectorType × EosDetector
unfolding is_eos_of match_pieces
append d token_id piece =
    let buffer = filled d.buffer piece in
    if is_eos_of d.tokens token_id
    then (eos, record d { buffer = buffer; eos_pos = some (length buffer) })
    else concluded (record d { buffer = buffer })
        (match_pieces buffer d.padding_left d.padding_right d.pieces)

-- A buffer as a C string.
unfoldable pub c_string : List ℕ → List ℕ
c_string [] = []
c_string (c ∷ cs) = let rest = c_string cs in if c == 0 then [] else c ∷ rest

-- `none` is a null pointer.
unfoldable pub get_delta : EosDetector → Option (List ℕ)
unfolding c_string
get_delta d = if length d.buffer == 0 then none else elim d.eos_pos [
  | none ↦ some (c_string d.buffer)
  | some zero ↦ none
  | some (suc i) ↦ some (c_string d.buffer)
]

unfoldable pub reset : EosDetector → EosDetector
reset d = record d { buffer = [] }
