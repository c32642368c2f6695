-- ===== src/Core/OpQuant.antt =====
-- getOpQuantType: which kernel serves the number formats of an operation.
use distributed_llama.Base.{
  ◌≡◌, ◌↔◌, arith, Bool, true, false, ◌&&◌, ◌||◌, if◌then◌else◌, Result, ok, err, invalid_argument,
}
use distributed_llama.Quants.{NnFloatType, f_unk, f_32, f_16, f_q40, f_q80}

-- <input>_<weight>_<output>
pub data NnOpQuantType : Type 0 where
  f32_f32_f32 f32_q40_f32 f32_q40_q80 f32_f32_q80 : NnOpQuantType
  q80_q80_q80 q80_q80_f32 q80_q40_f32 q80_f32_f32 : NnOpQuantType

infix 50 ◌is◌
abbrev pub ◌is◌ : NnFloatType → NnFloatType → Bool
f_unk is f_unk = true
f_32 is f_32 = true
f_16 is f_16 = true
f_q40 is f_q40 = true
f_q80 is f_q80 = true
_ is _ = false

unfoldable pub get_op_quant_type : NnFloatType → NnFloatType → NnFloatType → Result NnOpQuantType
get_op_quant_type input weight output =
    if (input is f_32 && output is f_32) && (weight is f_unk || weight is f_32)
    then ok f32_f32_f32
    else if (input is f_32 && output is f_32) && weight is f_q40
    then ok f32_q40_f32
    else if (input is f_32 && output is f_q80) && (weight is f_unk || weight is f_32)
    then ok f32_f32_q80
    else if (input is f_32 && output is f_q80) && weight is f_q40
    then ok f32_q40_q80
    else if (input is f_q80 && output is f_32) && (weight is f_unk || weight is f_q80)
    then ok q80_q80_f32
    else if (input is f_q80 && output is f_32) && weight is f_32
    then ok q80_f32_f32
    else if (input is f_q80 && output is f_32) && weight is f_q40
    then ok q80_q40_f32
    else if (input is f_q80 && output is f_q80) && (weight is f_unk || weight is f_q80)
    then ok q80_q80_q80
    else err invalid_argument

-- The formats that the name of a kernel states.
abbrev pub formats : NnOpQuantType → NnFloatType × NnFloatType × NnFloatType
formats f32_f32_f32 = (f_32, f_32, f_32)
formats f32_q40_f32 = (f_32, f_q40, f_32)
formats f32_q40_q80 = (f_32, f_q40, f_q80)
formats f32_f32_q80 = (f_32, f_32, f_q80)
formats q80_q80_q80 = (f_q80, f_q80, f_q80)
formats q80_q80_f32 = (f_q80, f_q80, f_32)
formats q80_q40_f32 = (f_q80, f_q40, f_32)
formats q80_f32_f32 = (f_q80, f_32, f_32)

-- A kernel is chosen exactly when its name states the formats of the input, the weight and the
-- output, where an operation without a weight counts as one whose weight has the input's format.
pub get_op_quant_type_iff :
    (input weight output : NnFloatType) (q : NnOpQuantType)
    → (get_op_quant_type input weight output ≡ ok q)
      ↔ (formats q ≡ (input, (if weight is f_unk then input else weight), output))
unfolding get_op_quant_type
get_op_quant_type_iff input weight output q =
    (chosen input weight output q, found input weight output q)
  where
    chosen :
        (i w o : NnFloatType) (k : NnOpQuantType)
        → get_op_quant_type i w o ≡ ok k
        → formats k ≡ (i, (if w is f_unk then i else w), o)
    chosen i w o k = ground arith

    found :
        (i w o : NnFloatType) (k : NnOpQuantType)
        → formats k ≡ (i, (if w is f_unk then i else w), o)
        → get_op_quant_type i w o ≡ ok k
    found i w o k = ground arith
