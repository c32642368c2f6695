-- ===== src/Tokenizer/Vocab.antt =====
-- Tokenizer: the vocabulary and the searches in it (src/tokenizer.cpp). A piece is the characters before
-- its terminator.
use distributed_llama.Base.{
  ℕ, zero, suc, ◌+◌, ◌-◌, ◌*◌, ◌≤◌, ◌<◌, ◌≡◌, ◌≢◌, inl, inr, arith, Bool, true, Bool-cases, List,
  [], Option, none, some, length, get_elem?, ltb, if◌then◌else◌,
}
use distributed_llama.Base.Strings.{same_string, starts_with}

pub record Vocab : Type 0 where
  pub vocab : List (List ℕ)
  pub bos_id : ℕ
  pub max_token_length : ℕ

-- strBufferSize.
abbrev pub str_buffer_size : Vocab → ℕ
str_buffer_size v =
    (if ltb (v.max_token_length * 2) (4 * 2) then 4 * 2 else v.max_token_length * 2) + (1 + 2)

-- `vocab[token]`, and nothing where there is none.
abbrev pub piece_or : Option (List ℕ) → List ℕ
piece_or none = []
piece_or (some p) = p

abbrev pub piece : Vocab → ℕ → List ℕ
piece v token = piece_or (get_elem? v.vocab token)

-- The first of `n` tokens from `i` on whose piece passes the test.
unfoldable pub find_token : List (List ℕ) → (List ℕ → Bool) → ℕ → ℕ → Option ℕ
find_token vocab test zero i = none
find_token vocab test (suc n) i =
    let rest = find_token vocab test n (i + 1) in
    if test (piece_or (get_elem? vocab i)) then some i else rest

unfoldable pub find_special_token_start_with : Vocab → List ℕ → Option ℕ
unfolding find_token starts_with
find_special_token_start_with v text =
    find_token v.vocab (λ p. starts_with p text) (length v.vocab - v.bos_id) v.bos_id

-- bsearch in the sorted pieces below `bos_id`; the pieces are taken to differ.
unfoldable pub find_regular_token : Vocab → List ℕ → Option ℕ
unfolding find_token same_string
find_regular_token v text = find_token v.vocab (λ p. same_string p text) v.bos_id 0

-- A token that is found passes the test, and lies in the range of the search.
pub find_token_lem :
    (vocab : List (List ℕ)) (test : List ℕ → Bool) (n i : ℕ) {id : ℕ}
    → find_token vocab test n i ≡ some id
    → (test (piece_or (get_elem? vocab id)) ≡ true) × (i ≤ id) × (id < i + n)
unfolding find_token
find_token_lem vocab test zero i e = cc
find_token_lem vocab test (suc n) i {id = id} e =
    elim (Bool-cases (test (piece_or (get_elem? vocab i)))) [
      | inl this ↦ ground arith
      | inr other ↦ ground (arith, find_token_lem vocab test n (i + 1) {id = id})
    ]

-- The search finds a token wherever one passes the test.
pub find_token-some :
    (vocab : List (List ℕ)) (test : List ℕ → Bool) (n i j : ℕ)
    → i ≤ j
    → j < i + n
    → test (piece_or (get_elem? vocab j)) ≡ true
    → (id : ℕ) × (find_token vocab test n i ≡ some id)
unfolding find_token
find_token-some vocab test zero i j a b h = absurd (omega arith)
find_token-some vocab test (suc n) i j a b h =
    elim (Bool-cases (test (piece_or (get_elem? vocab i)))) [
      | inl this ↦ (i, ground arith)
      | inr other ↦
          let later : i ≢ j = ground arith in
          let (id, e) = find_token-some vocab test n (i + 1) j (omega arith) (omega arith) h in
          (id, ground arith)
    ]
