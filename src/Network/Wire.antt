-- ===== src/Network/Wire.antt =====
-- The parts of a configuration in src/nn/nn-network.cpp: writeString and readString, and the structs
-- that are sent as they lie in memory.
use distributed_llama.Base.{
  ℕ, ◌+◌, ◌^◌, ◌<◌, ◌≡◌, sym, subst, arith, List, ◌++◌, length, take, take_all,
}
use distributed_llama.Base.Strings.{strlen}
use distributed_llama.Core.Sizes.{NnSize2D}
use distributed_llama.Core.Pointers.{NnPointerConfig}
use distributed_llama.Network.Enums.{
  read_enum, read_enum-Reads, float_type_code, float_type_of, float_type_lem, pointer_source_code,
  pointer_source_of, pointer_source_lem, pointer_type_code, pointer_type_of, pointer_type_lem,
}
use distributed_llama.Network.Stream.{
  Reader, ◌>>=◌, pure, read, read_number, le_bytes, Reads, Reads-then, Reads-last, read-Reads,
  read_number-Reads,
}

-- An NnUint, and an NnSize.
abbrev pub u32 : ℕ → List ℕ
u32 x = le_bytes 4 x

abbrev pub u64 : ℕ → List ℕ
u64 x = le_bytes 8 x

abbrev pub read_u32 : Reader ℕ
read_u32 = read_number 4

abbrev pub read_u64 : Reader ℕ
read_u64 = read_number 8

unfoldable pub write_string : List ℕ → List ℕ
unfolding strlen
write_string str = u32 (strlen str + 1) ++ take (strlen str + 1) str

unfoldable pub read_string : Reader (List ℕ)
read_string = do bytes ← read_u32; read bytes

-- A string with its terminator, and nothing after it.
abbrev pub IsCString : List ℕ → Type 0
IsCString str = (length str ≡ strlen str + 1) × (length str < 256 ^ 4)

pub read_string-Reads : (str : List ℕ) → IsCString str → Reads read_string (write_string str) str
unfolding read_string write_string
read_string-Reads str (e, lt) = Reads-then _ (read_number-Reads 4 _ (omega arith)) (
    subst (λ bytes. Reads (read (strlen str + 1)) bytes str) (sym (take_all _ str e))
      (read-Reads _ str e))

-- NnSize2D: 32 bytes, of which four after `x` are padding, whose value is not set.
module _ (padding : ℕ) where
  unfoldable pub write_size_2d : NnSize2D → List ℕ
  write_size_2d s =
      u32 (float_type_code s.float_type)
      ++ (u32 s.y ++ (u32 s.x ++ (u32 padding ++ (u64 s.length ++ u64 s.n_bytes))))

unfoldable pub read_size_2d : Reader NnSize2D
read_size_2d = do
  t ← read_enum float_type_of
  y ← read_u32
  x ← read_u32
  padding ← read_u32
  length ← read_u64
  n_bytes ← read_u64
  pure (record { float_type = t; y = y; x = x; length = length; n_bytes = n_bytes })

abbrev pub FitsSize2D : NnSize2D → Type 0
FitsSize2D s = (s.y < 256 ^ 4) × (s.x < 256 ^ 4) × (s.length < 256 ^ 8) × (s.n_bytes < 256 ^ 8)

pub read_size_2d-Reads :
    (padding : ℕ) (s : NnSize2D)
    → padding < 256 ^ 4
    → FitsSize2D s
    → Reads read_size_2d (write_size_2d padding s) s
unfolding read_size_2d write_size_2d
read_size_2d-Reads padding s pad (hy, hx, hl, hb) =
    let (lt, same) = float_type_lem s.float_type in
    Reads-then _ (read_enum-Reads float_type_of _ s.float_type lt same) (
      Reads-then _ (read_number-Reads 4 s.y hy) (
        Reads-then _ (read_number-Reads 4 s.x hx) (
          Reads-then _ (read_number-Reads 4 padding pad) (
            Reads-then _ (read_number-Reads 8 s.length hl)
              (Reads-last _ (read_number-Reads 8 s.n_bytes hb))))))

-- NnPointerConfig: three numbers of 32 bits.
unfoldable pub write_pointer : NnPointerConfig → List ℕ
write_pointer p =
    u32 (pointer_source_code p.source) ++ (u32 p.pointer_index ++ u32 (pointer_type_code p.type))

unfoldable pub read_pointer : Reader NnPointerConfig
read_pointer = do
  source ← read_enum pointer_source_of
  index ← read_u32
  type ← read_enum pointer_type_of
  pure (record { source = source; pointer_index = index; type = type })

pub read_pointer-Reads :
    (p : NnPointerConfig) → p.pointer_index < 256 ^ 4 → Reads read_pointer (write_pointer p) p
unfolding read_pointer write_pointer
read_pointer-Reads p h =
    let (lt, same) = pointer_source_lem p.source in
    let (lt', same') = pointer_type_lem p.type in
    Reads-then _ (read_enum-Reads pointer_source_of _ p.source lt same) (
      Reads-then _ (read_number-Reads 4 p.pointer_index h)
        (Reads-last _ (read_enum-Reads pointer_type_of _ p.type lt' same')))
