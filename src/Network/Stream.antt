-- ===== src/Network/Stream.antt =====
-- NnNetwork::read and NnNetwork::write on one connection: bytes that come in order, and bytes that
-- are sent in order. A number goes over the wire as its bytes in memory, lowest first.
use distributed_llama.Base.{
  ℕ, zero, suc, ◌+◌, ◌*◌, ◌/◌, ◌%◌, ◌^◌, ◌<◌, ◌≡◌, refl, ap, subst, ◌∙◌, arith, true, List, [], ◌∷◌,
  ◌++◌, length, append_assoc, take, drop, take-front, drop-front, leb, if◌then◌else◌, Result, ok,
  err, runtime_error,
}
use distributed_llama.Cache.Tokens.{All}

-- A read takes bytes from those that come, and fails where the connection ends before.
abbrev pub Reader {ℓ} : Type ℓ → Type ℓ
Reader A = List ℕ → Result (A × List ℕ)

infixl 5 ◌>>=◌
abbrev pub feed {ℓ κ} :
    {A : Type ℓ} {B : Type κ} → Result (A × List ℕ) → (A → Reader B) → Result (B × List ℕ)
feed (ok (a, rest)) f = f a rest
feed (err e) f = err e

unfoldable pub ◌>>=◌ {ℓ κ} : {A : Type ℓ} {B : Type κ} → Reader A → (A → Reader B) → Reader B
(m >>= f) bytes = feed (m bytes) f

unfoldable pub pure {ℓ} : {A : Type ℓ} → A → Reader A
pure a bytes = ok (a, bytes)

abbrev pub fail {ℓ} : {A : Type ℓ} → Reader A
fail bytes = err runtime_error

unfoldable pub read : ℕ → Reader (List ℕ)
read n bytes = if leb n (length bytes) then ok (take n bytes, drop n bytes) else err runtime_error

-- The `n` bytes of a number, lowest first.
unfoldable pub le_bytes : ℕ → ℕ → List ℕ
le_bytes zero x = []
le_bytes (suc n) x = (x % 256) ∷ le_bytes n (x / 256)

unfoldable pub le_value : List ℕ → ℕ
le_value [] = 0
le_value (b ∷ bs) = b + 256 * le_value bs

unfoldable pub read_number : ℕ → Reader ℕ
unfolding read
read_number n = do bytes ← read n; pure (le_value bytes)

-- An array of `n` elements that are read in order.
unfoldable pub read_times {ℓ} : {A : Type ℓ} → ℕ → Reader A → Reader (List A)
read_times zero g = pure []
read_times (suc n) g = do x ← g; xs ← read_times n g; pure (x ∷ xs)

unfoldable pub write_each {ℓ} : {A : Type ℓ} → (A → List ℕ) → List A → List ℕ
write_each f [] = []
write_each f (x ∷ xs) = f x ++ write_each f xs

-- A reader that, given these bytes first, takes them all and returns this value.
pub record Reads {ℓ} {A : Type ℓ} (g : Reader A) (bytes : List ℕ) (a : A) : Type ℓ where
  pub run : (rest : List ℕ) → g (bytes ++ rest) ≡ ok (a, rest)

pub Reads-then {ℓ κ} :
    {A : Type ℓ} {B : Type κ} {g : Reader A} (f : A → Reader B) {xs ys : List ℕ} {a : A} {b : B}
    → Reads g xs a
    → Reads (f a) ys b
    → Reads (g >>= f) (xs ++ ys) b
unfolding ◌>>=◌
Reads-then {g = g} f {xs = xs} {ys = ys} p q = record {
  run = λ rest.
      ap (λ bytes. feed (g bytes) f) (append_assoc xs ys rest)
      ∙ ap (λ r. feed r f) (p.run (ys ++ rest))
      ∙ q.run rest;
}

pub Reads-last {ℓ κ} :
    {A : Type ℓ} {B : Type κ} {g : Reader A} (f : A → B) {xs : List ℕ} {a : A}
    → Reads g xs a
    → Reads (g >>= λ a. pure (f a)) xs (f a)
unfolding ◌>>=◌ pure
Reads-last f p = record { run = λ rest. ap (λ r. feed r (λ a. pure (f a))) (p.run rest) }

-- A last step that reads nothing.
pub Reads-end {ℓ κ} :
    {A : Type ℓ} {B : Type κ} {g : Reader A} (f : A → Reader B) {xs : List ℕ} {a : A} {b : B}
    → Reads g xs a
    → Reads (f a) [] b
    → Reads (g >>= f) xs b
unfolding ◌>>=◌
Reads-end f p q = record { run = λ rest. ap (λ r. feed r f) (p.run rest) ∙ q.run rest }

pub Reads-pure {ℓ} : {A : Type ℓ} (a : A) → Reads (pure a) [] a
unfolding pure
Reads-pure a = record { run = λ rest. refl }

pub length-le_bytes : (n x : ℕ) → length (le_bytes n x) ≡ n
unfolding le_bytes
length-le_bytes zero x = refl
length-le_bytes (suc n) x = ap suc (length-le_bytes n (x / 256))

pub le_value-le_bytes : (n x : ℕ) → x < 256 ^ n → le_value (le_bytes n x) ≡ x
unfolding le_bytes le_value
le_value-le_bytes zero x h = omega arith
le_value-le_bytes (suc n) x h = omega (arith, le_value-le_bytes n (x / 256) (ground arith))

enough : (xs rest : List ℕ) → leb (length xs) (length (xs ++ rest)) ≡ true
enough [] rest = ground arith
enough (x ∷ xs) rest = ground (arith, enough xs rest)

pub read-Reads : (n : ℕ) (xs : List ℕ) → length xs ≡ n → Reads (read n) xs xs
unfolding read
read-Reads n xs e = record {
  run = λ rest. rw (← e, enough xs rest, take-front xs rest, drop-front xs rest) refl;
}

pub read_number-Reads : (n x : ℕ) → x < 256 ^ n → Reads (read_number n) (le_bytes n x) x
unfolding read_number
read_number-Reads n x h =
    subst (Reads (read_number n) (le_bytes n x)) (le_value-le_bytes n x h)
      (Reads-last _ (read-Reads n (le_bytes n x) (length-le_bytes n x)))

-- An array comes back when each element does.
pub read_times-Reads {ℓ κ} :
    {A : Type ℓ} (P : A → Type κ) (g : Reader A) (f : A → List ℕ)
    → ((a : A) → P a → Reads g (f a) a)
    → (xs : List A) → All P xs
    → Reads (read_times (length xs) g) (write_each f xs) xs
unfolding read_times write_each
read_times-Reads P g f each [] h = Reads-pure []
read_times-Reads P g f each (x ∷ xs) (h, hs) =
    Reads-then _ (each x h) (Reads-last _ (read_times-Reads P g f each xs hs))
