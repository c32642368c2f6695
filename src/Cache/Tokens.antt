-- ===== src/Cache/Tokens.antt =====
-- The bytes of an array of tokens, as the trie and the database see it.
use distributed_llama.Base.{
  ℕ, zero, suc, ◌*◌, ◌/◌, ◌%◌, ◌^◌, ◌≤◌, ◌<◌, ◌≡◌, refl, ap₂, arith, List, [], ◌∷◌, ◌++◌, length,
  take,
}

abbrev pub All {ℓ κ} : {A : Type ℓ} → (A → Type κ) → List A → Type κ
All P [] = Unit
All P (x ∷ xs) = P x × All P xs

pub All-append {ℓ κ} :
    {A : Type ℓ} (P : A → Type κ) (xs ys : List A) → All P xs → All P ys → All P (xs ++ ys)
All-append P [] ys h k = k
All-append P (x ∷ xs) ys (p, h) k = (p, All-append P xs ys h k)

pub All-weaken {ℓ κ κ'} :
    {A : Type ℓ} (P : A → Type κ) (Q : A → Type κ')
    → ((x : A) → P x → Q x)
    → (xs : List A) → All P xs
    → All Q xs
All-weaken P Q f [] h = tt
All-weaken P Q f (x ∷ xs) (p, h) = (f x p, All-weaken P Q f xs h)

abbrev pub IsToken : ℕ → Type 0
IsToken x = x < 2 ^ 32

-- A uint32 in memory, lowest byte first.
pub bytes_of : List ℕ → List ℕ
bytes_of [] = []
bytes_of (x ∷ xs) =
    (x % 256) ∷ (x / 256 % 256) ∷ (x / 2 ^ 16 % 256) ∷ (x / 2 ^ 24 % 256) ∷ bytes_of xs

pub length-bytes_of : (xs : List ℕ) → length (bytes_of xs) ≡ 4 * length xs
unfolding bytes_of
length-bytes_of [] = refl
length-bytes_of (x ∷ xs) = omega (arith, length-bytes_of xs)

same_word :
    (x y : ℕ)
    → IsToken x
    → IsToken y
    → x % 256 ≡ y % 256
    → x / 256 % 256 ≡ y / 256 % 256
    → x / 2 ^ 16 % 256 ≡ y / 2 ^ 16 % 256
    → x / 2 ^ 24 % 256 ≡ y / 2 ^ 24 % 256
    → x ≡ y
same_word x y p q a b c d = omega arith

-- Arrays of tokens that agree on their first `n` bytes agree on `n / 4` tokens.
pub take-bytes_of :
    (n : ℕ) (xs ys : List ℕ)
    → All IsToken xs
    → All IsToken ys
    → 4 * n ≤ length (bytes_of xs)
    → 4 * n ≤ length (bytes_of ys)
    → take (4 * n) (bytes_of xs) ≡ take (4 * n) (bytes_of ys)
    → take n xs ≡ take n ys
unfolding bytes_of
take-bytes_of zero xs ys p q a b e = refl
take-bytes_of (suc n) [] ys p q a b e = absurd (omega arith)
take-bytes_of (suc n) (x ∷ xs) [] p q a b e = absurd (omega arith)
take-bytes_of (suc n) (x ∷ xs) (y ∷ ys) p q a b e =
    let e' : take (suc (suc (suc (suc (4 * n))))) (bytes_of (x ∷ xs))
        ≡ take (suc (suc (suc (suc (4 * n))))) (bytes_of (y ∷ ys)) =
      rw (four n) at e in
    ap₂ ◌∷◌ (same_word x y p.0 q.0 (ground arith) (ground arith) (ground arith) (ground arith))
      (take-bytes_of n xs ys p.1 q.1 (omega arith) (omega arith) (ground arith))
  where
    four : (n : ℕ) → 4 * suc n ≡ suc (suc (suc (suc (4 * n))))
    four n = omega arith

pub bytes_of-injective :
    (xs ys : List ℕ) → All IsToken xs → All IsToken ys → bytes_of xs ≡ bytes_of ys → xs ≡ ys
unfolding bytes_of
bytes_of-injective [] [] p q e = refl
bytes_of-injective [] (y ∷ ys) p q e = cc
bytes_of-injective (x ∷ xs) [] p q e = cc
bytes_of-injective (x ∷ xs) (y ∷ ys) p q e =
    ap₂ ◌∷◌ (same_word x y p.0 q.0 (ground arith) (ground arith) (ground arith) (ground arith))
      (bytes_of-injective xs ys p.1 q.1 (ground arith))

-- Tokens that are shared are shared as bytes.
pub bytes_of-take :
    (n : ℕ) (xs ys : List ℕ)
    → n ≤ length xs
    → n ≤ length ys
    → take n xs ≡ take n ys
    → take (4 * n) (bytes_of xs) ≡ take (4 * n) (bytes_of ys)
unfolding bytes_of
bytes_of-take zero xs ys a b e = refl
bytes_of-take (suc n) [] ys a b e = absurd (omega arith)
bytes_of-take (suc n) (x ∷ xs) [] a b e = absurd (omega arith)
bytes_of-take (suc n) (x ∷ xs) (y ∷ ys) a b e =
    let head : x ≡ y = ground (arith, e) in
    let rest : take n xs ≡ take n ys = ground (arith, e) in
    front (4 * suc n) (4 * n) x y _ _ (omega arith) head
      (bytes_of-take n xs ys (omega arith) (omega arith) rest)
  where
    front :
        (m n x y : ℕ) (xs ys : List ℕ)
        → m ≡ suc (suc (suc (suc n)))
        → x ≡ y
        → take n xs ≡ take n ys
        → take m ((x % 256) ∷ (x / 256 % 256) ∷ (x / 2 ^ 16 % 256) ∷ (x / 2 ^ 24 % 256) ∷ xs)
          ≡ take m ((y % 256) ∷ (y / 256 % 256) ∷ (y / 2 ^ 16 % 256) ∷ (y / 2 ^ 24 % 256) ∷ ys)
    front m n x y xs ys e same rest = rw (e, same, rest) refl
