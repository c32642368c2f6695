-- ===== src/Database/Keys.antt =====
-- buildKey and parseKey of src/rocksdb-cache.cpp. A key is its characters: the number of the buffer
-- in eight hexadecimal digits, a low line, and the number of the record in its digits.
use distributed_llama.Base.{
  ℕ, zero, suc, ◌+◌, ◌-◌, ◌*◌, ◌/◌, ◌%◌, ◌^◌, ◌≤◌, ◌<◌, ◌≡◌, refl, ap, arith, ◌&&◌, List, [], ◌∷◌,
  ◌++◌, length, length-append, take, drop, replicate, get_or, ltb, leb, ◌==◌, if◌then◌else◌, Result,
  ok, err, guard, >>=-eq-ok, Bool-cases, ltb→lt, lt→ltb, inl, inr, length-replicate, take-front,
  take_all, subst, ap₂, ◌∙◌, ◌>>=◌, ◌>>◌, assertion, invalid_argument,
}

-- The digits of std::hex, and the one that `std::setfill('0')` puts in front.
abbrev pub hex_char : ℕ → ℕ
hex_char d = if ltb d 10 then 48 + d else 87 + d

-- A number as `std::hex` writes it, without zeros in front; it has at most the given digits.
unfoldable pub hex_digits : ℕ → ℕ → List ℕ
hex_digits zero x = []
hex_digits (suc n) x =
    let front = hex_digits n (x / 16) in
    if ltb x 16 then hex_char x ∷ [] else front ++ (hex_char (x % 16) ∷ [])

-- `std::setw(width)` with the fill '0'.
unfoldable pub set_width : ℕ → List ℕ → List ℕ
set_width width digits = replicate (width - length digits) 48 ++ digits

unfoldable pub build_key : ℕ → ℕ → List ℕ
unfolding hex_digits set_width
build_key id buffer_index =
    set_width 8 (hex_digits 8 buffer_index) ++ (95 ∷ set_width 16 (hex_digits 16 id))

-- The value of a digit.
abbrev pub hex_value : ℕ → Result ℕ
hex_value c =
    if leb 48 c && leb c 57
    then ok (c - 48)
    else if leb 97 c && leb c 102
    then ok (c - 87)
    else if leb 65 c && leb c 70
    then ok (c - 55)
    else err invalid_argument

-- std::stoul(s, 0, 16) on hexadecimal digits, which are all that a key has here.
unfoldable pub stoul : ℕ → List ℕ → Result ℕ
stoul value [] = ok value
stoul value (c ∷ cs) = do d ← hex_value c; stoul (value * 16 + d) cs

unfoldable pub parse_key : List ℕ → Result (ℕ × ℕ)
unfolding stoul
parse_key key = do
  guard (length key == 8 + 1 + 16) assertion
  guard (get_or key 8 0 == 95) assertion
  id ← stoul 0 (take 16 (drop (8 + 1) key))
  buffer_index ← stoul 0 (take 8 key)
  ok (id % 2 ^ 64, buffer_index % 2 ^ 32)

digit-value : (d : ℕ) → d < 16 → hex_value (hex_char d) ≡ ok d
digit-value d h = ground arith

stoul-snoc :
    (value : ℕ) (xs : List ℕ) (d x : ℕ)
    → d < 16
    → stoul value xs ≡ ok x
    → stoul value (xs ++ (hex_char d ∷ [])) ≡ ok (x * 16 + d)
unfolding stoul
stoul-snoc value [] d x h e = rw (digit-value d h) (ap (λ r. r >>= λ v. ok (v * 16 + d)) e)
stoul-snoc value (c ∷ cs) d x h e =
    let (v, q, r) = >>=-eq-ok (hex_value c) _ e in rw q (stoul-snoc (value * 16 + v) cs d x h r)

stoul-one : (x : ℕ) → x < 16 → stoul 0 (hex_char x ∷ []) ≡ ok x
unfolding stoul
stoul-one x h = rw (digit-value x h) (ap ok (omega arith))

stoul-hex_digits : (n x : ℕ) → x < 16 ^ suc n → stoul 0 (hex_digits (suc n) x) ≡ ok x
unfolding hex_digits
stoul-hex_digits zero x h = rw (lt→ltb x 16 (omega arith)) (stoul-one x (omega arith))
stoul-hex_digits (suc n) x h = elim (Bool-cases (ltb x 16)) [
  | inl e ↦ rw e (stoul-one x (ltb→lt x 16 e))
  | inr e ↦ rw e (
      stoul-snoc 0 (hex_digits (suc n) (x / 16)) (x % 16) (x / 16) (omega arith)
        (stoul-hex_digits n (x / 16) (omega arith))
      ∙ ap ok (omega arith))
]

stoul-zeros : (n : ℕ) (xs : List ℕ) → stoul 0 (replicate n 48 ++ xs) ≡ stoul 0 xs
unfolding stoul
stoul-zeros zero xs = refl
stoul-zeros (suc n) xs = stoul-zeros n xs

length-hex_digits : (n x : ℕ) → length (hex_digits n x) ≤ n
unfolding hex_digits
length-hex_digits zero x = omega arith
length-hex_digits (suc n) x = elim (Bool-cases (ltb x 16)) [
  | inl e ↦ rw e (omega arith)
  | inr e ↦
      rw (e, length-append (hex_digits n (x / 16)) (hex_char (x % 16) ∷ []))
        (omega (arith, length-hex_digits n (x / 16)))
]

length-set_width : (w : ℕ) (xs : List ℕ) → length xs ≤ w → length (set_width w xs) ≡ w
unfolding set_width
length-set_width w xs h = omega (
  arith,
  length-append (replicate (w - length xs) 48) xs,
  length-replicate {A = ℕ} (w - length xs) 48,
)

-- What is written in a field is read from it.
stoul-set_width :
    (w x : ℕ) → x < 16 ^ suc w → stoul 0 (set_width (suc w) (hex_digits (suc w) x)) ≡ ok x
unfolding set_width
stoul-set_width w x h = stoul-zeros _ (hex_digits (suc w) x) ∙ stoul-hex_digits w x h

length-field : (w x : ℕ) → length (set_width w (hex_digits w x)) ≡ w
length-field w x = length-set_width w _ (length-hex_digits w x)

get_or-front : (xs ys : List ℕ) (c : ℕ) → get_or (xs ++ (c ∷ ys)) (length xs) 0 ≡ c
get_or-front [] ys c = refl
get_or-front (x ∷ xs) ys c = get_or-front xs ys c

drop-past : (xs ys : List ℕ) (c : ℕ) → drop (suc (length xs)) (xs ++ (c ∷ ys)) ≡ ys
drop-past [] ys c = refl
drop-past (x ∷ xs) ys c = drop-past xs ys c

parse_key-fields :
    (front back : List ℕ) (id buffer_index : ℕ)
    → length front ≡ 8
    → length back ≡ 16
    → stoul 0 front ≡ ok buffer_index
    → stoul 0 back ≡ ok id
    → parse_key (front ++ (95 ∷ back)) ≡ ok (id % 2 ^ 64, buffer_index % 2 ^ 32)
unfolding parse_key
parse_key-fields front back id buffer_index n m p q =
    let key = front ++ (95 ∷ back) in
    let long : length key ≡ 25 = omega (arith, length-append front (95 ∷ back)) in
    let line : get_or key 8 0 ≡ 95 =
      subst (λ k. get_or key k 0 ≡ 95) n (get_or-front front back 95) in
    let rest : drop 9 key ≡ back =
      subst (λ k. drop (suc k) key ≡ back) n (drop-past front back 95) in
    let left : take 8 key ≡ front =
      subst (λ k. take k key ≡ front) n (take-front front (95 ∷ back)) in
    rw (long, line, rest, take_all 16 back m, q, left, p) refl

-- The key that is built from a number of 64 bits for the record and one of 32 bits for the buffer
-- is parsed into the same two numbers.
pub parse_key-build_key :
    (id buffer_index : ℕ)
    → id < 2 ^ 64
    → buffer_index < 2 ^ 32
    → parse_key (build_key id buffer_index) ≡ ok (id, buffer_index)
unfolding build_key
parse_key-build_key id buffer_index h g =
    parse_key-fields (set_width 8 (hex_digits 8 buffer_index)) (set_width 16 (hex_digits 16 id)) id
      buffer_index (length-field 8 buffer_index) (length-field 16 id)
      (stoul-set_width 7 buffer_index (omega arith)) (stoul-set_width 15 id (omega arith))
    ∙ ap₂ (λ i j. ok (i, j)) (omega arith) (omega arith)
