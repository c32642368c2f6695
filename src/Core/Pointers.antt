-- ===== src/Core/Pointers.antt =====
-- Where an operation reads and writes: NnPointerConfig and its constructors.
use distributed_llama.Base.{ℕ, Bool, true, false}

pub data NnPointerSource : Type 0 where
  src_pipe src_buffer : NnPointerSource

pub data NnPointerType : Type 0 where
  pntr_raw pntr_batch pntr_batched_slice : NnPointerType

pub record NnPointerConfig : Type 0 where
  pub source : NnPointerSource
  pub pointer_index : ℕ
  pub type : NnPointerType

abbrev pub pointer_batch_config : NnPointerSource → ℕ → NnPointerConfig
pointer_batch_config s i = record { source = s; pointer_index = i; type = pntr_batch }

abbrev pub pointer_batched_slice_config : NnPointerSource → ℕ → NnPointerConfig
pointer_batched_slice_config s i = record {
  source = s;
  pointer_index = i;
  type = pntr_batched_slice;
}

abbrev pub pointer_raw_config : NnPointerSource → ℕ → NnPointerConfig
pointer_raw_config s i = record { source = s; pointer_index = i; type = pntr_raw }

unfoldable pub has_pointer_continuous_memory : NnPointerType → Bool
has_pointer_continuous_memory pntr_raw = true
has_pointer_continuous_memory pntr_batch = true
has_pointer_continuous_memory pntr_batched_slice = false
