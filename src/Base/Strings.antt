-- ===== src/Base/Strings.antt =====
-- std::strlen on an array; std::strcmp and std::strncmp on the characters before the terminator.
use Prim.Native.Char.{code}
use Prim.Native.String.{String}
use distributed_llama.Base.{
  ℕ, suc, ◌≡◌, refl, ap₂, arith, Bool, true, false, ◌&&◌, List, [], ◌∷◌, ◌++◌, ◌==◌, if◌then◌else◌,
}

-- A literal: its characters, which are ASCII, and the terminator.
abbrev pub c_string : String → List ℕ
c_string String.[] = 0 ∷ []
c_string (String.◌∷◌ c s) = code c ∷ c_string s

-- std::strlen, on an array that may have no terminator.
unfoldable pub strlen : List ℕ → ℕ
strlen [] = 0
strlen (c ∷ cs) = if c == 0 then 0 else suc (strlen cs)

-- std::strcmp(a, b) == 0
unfoldable pub same_string : List ℕ → List ℕ → Bool
same_string [] [] = true
same_string [] (y ∷ ys) = false
same_string (x ∷ xs) [] = false
same_string (x ∷ xs) (y ∷ ys) = let rest = same_string xs ys in (x == y) && rest

-- std::strncmp(a, b, strlen(a)) == 0
unfoldable pub starts_with : List ℕ → List ℕ → Bool
starts_with [] ys = true
starts_with (x ∷ xs) [] = false
starts_with (x ∷ xs) (y ∷ ys) = let rest = starts_with xs ys in (x == y) && rest

pub same_string-eq : (xs ys : List ℕ) → same_string xs ys ≡ true → xs ≡ ys
unfolding same_string
same_string-eq [] [] e = refl
same_string-eq [] (y ∷ ys) e = cc
same_string-eq (x ∷ xs) [] e = cc
same_string-eq (x ∷ xs) (y ∷ ys) e = ground (arith, same_string-eq xs ys)

pub same_string_refl : (xs : List ℕ) → same_string xs xs ≡ true
unfolding same_string
same_string_refl [] = refl
same_string_refl (x ∷ xs) = ground (arith, same_string_refl xs)

pub starts_with_lem :
    (xs ys : List ℕ) → starts_with xs ys ≡ true → (rest : List ℕ) × (ys ≡ xs ++ rest)
unfolding starts_with
starts_with_lem [] ys e = (ys, refl)
starts_with_lem (x ∷ xs) [] e = cc
starts_with_lem (x ∷ xs) (y ∷ ys) e =
    let (rest, q) = starts_with_lem xs ys (ground arith) in (rest, ap₂ ◌∷◌ (ground arith) q)
