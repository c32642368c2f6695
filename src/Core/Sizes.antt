-- ===== src/Core/Sizes.antt =====
-- getBytes, getBlockSize and the NnSize2D constructors.
use distributed_llama.Base.{
  ℕ, ◌*◌, ◌/◌, ◌%◌, ◌^◌, ◌<◌, ◌≡◌, refl, ◌≢◌, arith, ◌==◌, Result, ok, err, guard, ◌>>=◌, ◌>>◌,
  assertion, invalid_argument,
}
use distributed_llama.Quants.{
  NnFloatType, f_unk, f_32, f_16, f_q40, f_q80, q40_block_size, q80_block_size, nn_block_q40_bytes,
  nn_block_q80_bytes,
}

-- An NnSize is 64 bits wide.
unfoldable pub get_bytes : NnFloatType → ℕ → Result ℕ
get_bytes f_32 n = ok (n * 4 % 2 ^ 64)
get_bytes f_16 n = ok (n * 2 % 2 ^ 64)
get_bytes f_q40 n = do
  guard (n % q40_block_size == 0) assertion
  ok (n / q40_block_size * nn_block_q40_bytes % 2 ^ 64)
get_bytes f_q80 n = do
  guard (n % q80_block_size == 0) assertion
  ok (n / q80_block_size * nn_block_q80_bytes % 2 ^ 64)
get_bytes f_unk n = err invalid_argument

unfoldable pub get_block_size : NnFloatType → Result ℕ
get_block_size f_32 = ok 1
get_block_size f_16 = ok 1
get_block_size f_q40 = ok q40_block_size
get_block_size f_q80 = ok q80_block_size
get_block_size f_unk = err invalid_argument

pub record NnSize2D : Type 0 where
  pub float_type : NnFloatType
  pub y : ℕ
  pub x : ℕ
  pub length : ℕ
  pub n_bytes : ℕ

abbrev pub size0 : NnSize2D
size0 = record { float_type = f_unk; y = 0; x = 0; length = 0; n_bytes = 0 }

-- `y * x` is a product of two 32-bit numbers, and wraps before it is widened.
unfoldable pub size_2d : NnFloatType → ℕ → ℕ → Result NnSize2D
size_2d t y x = do
  let length = y * x % 2 ^ 32
  n_bytes ← get_bytes t length
  ok (record { float_type = t; y = y; x = x; length = length; n_bytes = n_bytes })

unfoldable pub size_1d : NnFloatType → ℕ → Result NnSize2D
unfolding size_2d
size_1d t x = size_2d t 1 x

-- The bytes of one block, and the elements in it.
abbrev pub block_bytes : NnFloatType → ℕ
block_bytes f_unk = 0
block_bytes f_32 = 4
block_bytes f_16 = 2
block_bytes f_q40 = nn_block_q40_bytes
block_bytes f_q80 = nn_block_q80_bytes

abbrev pub block_size : NnFloatType → ℕ
block_size f_unk = 1
block_size f_32 = 1
block_size f_16 = 1
block_size f_q40 = q40_block_size
block_size f_q80 = q80_block_size

-- A whole number of blocks has that many times the bytes of a block.
pub get_bytes-blocks :
    (t : NnFloatType) (n : ℕ)
    → t ≢ f_unk
    → n < 2 ^ 32
    → get_bytes t (n * block_size t) ≡ ok (n * block_bytes t)
unfolding get_bytes
get_bytes-blocks f_unk n h b = absurd (h refl)
get_bytes-blocks f_32 n h b = ground arith
get_bytes-blocks f_16 n h b = ground arith
get_bytes-blocks f_q40 n h b = ground arith
get_bytes-blocks f_q80 n h b = ground arith

pub get_block_size_lem : (t : NnFloatType) → t ≢ f_unk → get_block_size t ≡ ok (block_size t)
unfolding get_block_size
get_block_size_lem f_unk h = absurd (h refl)
get_block_size_lem f_32 h = refl
get_block_size_lem f_16 h = refl
get_block_size_lem f_q40 h = refl
get_block_size_lem f_q80 h = refl

pub get_bytes-block_size :
    (t : NnFloatType) → t ≢ f_unk → get_bytes t (block_size t) ≡ ok (block_bytes t)
unfolding get_bytes
get_bytes-block_size f_unk h = absurd (h refl)
get_bytes-block_size f_32 h = refl
get_bytes-block_size f_16 h = refl
get_bytes-block_size f_q40 h = refl
get_bytes-block_size f_q80 h = refl

-- A tensor whose rows are whole numbers of blocks.
pub size_2d-blocks :
    (t : NnFloatType) (m d : ℕ)
    → t ≢ f_unk
    → m * block_size t * d < 2 ^ 32
    → size_2d t (m * block_size t) d
      ≡ ok (record {
        float_type = t;
        y = m * block_size t;
        x = d;
        length = m * block_size t * d;
        n_bytes = m * d * block_bytes t;
      })
unfolding size_2d
size_2d-blocks t m d h b =
    let e : m * block_size t * d % 2 ^ 32 ≡ m * d * block_size t = regroup t m d b in
    rw (e, get_bytes-blocks t (m * d) h (few t m d b)) (ground (arith, regroup t m d b))
  where
    regroup :
        (t : NnFloatType) (m d : ℕ)
        → m * block_size t * d < 2 ^ 32
        → m * block_size t * d % 2 ^ 32 ≡ m * d * block_size t
    regroup f_unk m d b = omega arith
    regroup f_32 m d b = omega arith
    regroup f_16 m d b = omega arith
    regroup f_q40 m d b = omega arith
    regroup f_q80 m d b = omega arith

    few : (t : NnFloatType) (m d : ℕ) → m * block_size t * d < 2 ^ 32 → m * d < 2 ^ 32
    few f_unk m d b = omega arith
    few f_32 m d b = omega arith
    few f_16 m d b = omega arith
    few f_q40 m d b = omega arith
    few f_q80 m d b = omega arith
