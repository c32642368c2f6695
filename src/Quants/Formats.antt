-- ===== src/Quants/Formats.antt =====
-- NnFloatType with the sizes of its blocks.
use distributed_llama.Base.{ℕ}

pub data NnFloatType : Type 0 where
  f_unk f_32 f_16 f_q40 f_q80 : NnFloatType

-- Q40_BLOCK_SIZE and Q80_BLOCK_SIZE.
abbrev pub q40_block_size : ℕ
q40_block_size = 32

abbrev pub q80_block_size : ℕ
q80_block_size = 32

-- sizeof(NnBlockQ40): a 16-bit scale and 32 nibbles.
abbrev pub nn_block_q40_bytes : ℕ
nn_block_q40_bytes = 18

-- sizeof(NnBlockQ80): a 16-bit scale and 32 bytes.
abbrev pub nn_block_q80_bytes : ℕ
nn_block_q80_bytes = 34
