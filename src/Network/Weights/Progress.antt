-- ===== src/Network/Weights/Progress.antt =====
-- The loop of NnWorkerWeightReader::read (src/nn/nn-network.cpp) on any input.
use distributed_llama.Base.{
  ℕ, zero, suc, ◌+◌, ◌≤◌, ◌<◌, ◌≡◌, ◌≢◌, refl, ap, arith, Bool, true, false, List, [], ◌∷◌, Option,
  none, some, length, take, drop, leb, leb→le, if◌then◌else◌, Result, ok, err, memory,
  runtime_error,
}
use distributed_llama.Network.Stream.{Reader, ◌>>=◌, pure, read, read_number, feed, le_value}
use distributed_llama.Network.Wire.{read_u32, read_u64}
use distributed_llama.Network.Config.{Socket, received}
use distributed_llama.Network.Weights.{
  Weight, allocate, read_into, read_named, read_weight, take_weight, after_load, read_weights,
}

-- A reader that takes at least `n` bytes when it succeeds.
abbrev Takes {ℓ} : {A : Type ℓ} → ℕ → Reader A → Type ℓ
Takes {A = A} n g =
    (bytes : List ℕ) (a : A) (rest : List ℕ)
    → g bytes ≡ ok (a, rest)
    → n + length rest ≤ length bytes

Takes-then {ℓ κ} :
    {A : Type ℓ} {B : Type κ} (n m : ℕ) (g : Reader A) (f : A → Reader B)
    → Takes n g
    → ((a : A) → Takes m (f a))
    → Takes (n + m) (g >>= f)
unfolding ◌>>=◌
Takes-then {A = A} n m g f p q = λ bytes b rest e. from bytes b rest (g bytes) refl e
  where
    from :
        (bytes : List ℕ) (b : _) (rest : List ℕ) (r : Result (A × List ℕ))
        → g bytes ≡ r
        → feed r f ≡ ok (b, rest)
        → n + m + length rest ≤ length bytes
    from bytes b rest (err x) e h = cc
    from bytes b rest (ok (a, mid)) e h = omega (arith, p bytes a mid e, q a mid b rest h)

length-drop {ℓ} :
    {A : Type ℓ} (n : ℕ) (xs : List A) → n ≤ length xs → n + length (drop n xs) ≡ length xs
length-drop zero xs h = omega arith
length-drop (suc n) [] h = absurd (omega arith)
length-drop (suc n) (x ∷ xs) h = omega (arith, length-drop n xs (omega arith))

read-Takes : (n : ℕ) → Takes n (read n)
unfolding read
read-Takes n bytes a rest e = taken (leb n (length bytes)) refl e
  where
    taken :
        (enough : Bool)
        → leb n (length bytes) ≡ enough
        → if◌then◌else◌ {A = Result (List ℕ × List ℕ)} enough
            (ok (take n bytes, drop n bytes))
            (err runtime_error)
          ≡ ok (a, rest)
        → n + length rest ≤ length bytes
    taken false l h = cc
    taken true l h =
        let same : drop n bytes ≡ rest = cc in
        omega (arith, leb→le n (length bytes) l, length-drop n bytes, ap length same)

pure-Takes {ℓ} : {A : Type ℓ} (x : A) → Takes 0 (pure x)
unfolding pure
pure-Takes x bytes a rest e = let same : bytes ≡ rest = cc in omega (arith, ap length same)

Takes-le {ℓ} : {A : Type ℓ} (m n : ℕ) (g : Reader A) → m ≤ n → Takes n g → Takes m g
Takes-le m n g le p = λ bytes a rest e. omega (arith, p bytes a rest e)

read_number-Takes : (n : ℕ) → Takes n (read_number n)
unfolding read_number
read_number-Takes n =
    Takes-le n (n + 0) _ (omega arith)
      (Takes-then n 0 (read n) _ (read-Takes n) (λ bytes. pure-Takes (le_value bytes)))

read_into-Takes : (t n : ℕ) → Takes 0 (read_into t n)
unfolding read_into
read_into-Takes t n bytes a rest e = omega (arith, taken (leb n t) e)
  where
    taken :
        (fits : Bool)
        → if◌then◌else◌ {A = Result (List ℕ × List ℕ)} fits (read n bytes) (err memory)
          ≡ ok (a, rest)
        → length rest ≤ length bytes
    taken false h = cc
    taken true h = omega (arith, read-Takes n bytes a rest h)

read_named-Takes : (t m : ℕ) → Takes 0 (read_named t m)
unfolding read_named
read_named-Takes t zero = pure-Takes none
read_named-Takes t (suc m) = Takes-le 0 _ _ (omega arith) (
    Takes-then (suc m) _ (read (suc m)) _ (read-Takes (suc m)) (λ name.
      Takes-then 4 _ read_u32 _ (read_number-Takes 4) (λ index.
        Takes-then 8 _ read_u64 _ (read_number-Takes 8) (λ n_bytes.
          Takes-then 0 0 (read_into (allocate t n_bytes) n_bytes) _
            (read_into-Takes (allocate t n_bytes) n_bytes) (λ bytes. pure-Takes _)))))

read_weight-Takes : (t : ℕ) → Takes 4 (read_weight t)
unfolding read_weight
read_weight-Takes t =
    Takes-then 4 0 read_u32 _ (read_number-Takes 4) (λ name_size. read_named-Takes t name_size)

module _ {Executor : Type 0} (load_weight : Weight → Executor → Result Executor) where
  -- The loop over the weights ends on every input, well formed or not, whatever the executor does:
  -- it turns at most once for each byte of the input and once more.
  pub read_weights-ends :
      (fuel : ℕ) (e : Executor) (t : ℕ) (s : Socket)
      → length s.incoming < fuel
      → read_weights load_weight fuel e t s ≢ none
  unfolding read_weights
  read_weights-ends zero e t s lt = absurd (omega arith)
  read_weights-ends (suc fuel) e t s lt =
      turn (read_weight t s.incoming) refl (read_weights-ends fuel)
    where
      turn :
          (r : Result (Option (Weight × ℕ) × List ℕ))
          → read_weight t s.incoming ≡ r
          → ((e : Executor) (t : ℕ) (s : Socket)
              → length s.incoming < fuel
              → read_weights load_weight fuel e t s ≢ none)
          → take_weight load_weight (read_weights load_weight fuel) e (received s r) ≢ none
      turn (err f) q next = λ h. cc
      turn (ok (none, rest)) q next = λ h. cc
      turn (ok (some (w, t'), rest)) q next = loaded (load_weight w e)
        where
          loaded :
              (r : Result Executor)
              → after_load load_weight
                  (read_weights load_weight fuel)
                  t'
                  (record s { incoming = rest })
                  r
                ≢ none
          loaded (err f) = λ h. cc
          loaded (ok x) = next x t' _ (omega (arith, read_weight-Takes t s.incoming _ rest q))
