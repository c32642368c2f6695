-- ===== src/Network/Enums.antt =====
-- The enums of src/nn/nn-core.hpp and src/nn/nn-quants.hpp as numbers of 32 bits.
use distributed_llama.Base.{
  ℕ, ◌-◌, ◌^◌, ◌<◌, ◌≡◌, refl, sym, subst, arith, Option, none, some, ◌==◌, if◌then◌else◌, ok, err,
  memory,
}
use distributed_llama.Quants.{NnFloatType, f_unk, f_32, f_16, f_q40, f_q80}
use distributed_llama.Core.Pointers.{
  NnPointerSource, src_pipe, src_buffer, NnPointerType, pntr_raw, pntr_batch, pntr_batched_slice,
}
use distributed_llama.Core.Config.{
  NnOpCode, op_merge_add, op_embedding, op_inv_rms, op_rms_norm, op_matmul, op_rope_llama,
  op_multihead_att, op_gelu, op_silu, op_mul, op_cast, op_shift, NnSyncType, sync_with_root,
  sync_node_slices, sync_node_slices_except_root, NnCacheSyncType, cache_sync_save,
  cache_sync_save_kv, cache_sync_load,
}
use distributed_llama.Network.Stream.{
  Reader, ◌>>=◌, read_number, le_bytes, Reads, Reads-end, read_number-Reads,
}

-- An enum is sent as 32 bits. A number that is no enumerator has no value of the type here.
abbrev pub known {ℓ} : {A : Type ℓ} → Option A → Reader A
known none bytes = err memory
known (some e) bytes = ok (e, bytes)

unfoldable pub read_enum {ℓ} : {A : Type ℓ} → (ℕ → Option A) → Reader A
read_enum decode = do n ← read_number 4; known (decode n)

pub read_enum-Reads {ℓ} :
    {A : Type ℓ} (decode : ℕ → Option A) (n : ℕ) (e : A)
    → n < 256 ^ 4
    → decode n ≡ some e
    → Reads (read_enum decode) (le_bytes 4 n) e
unfolding read_enum
read_enum-Reads decode n e lt same =
    Reads-end _ (read_number-Reads 4 n lt)
      (record { run = λ rest. subst (λ o. known o rest ≡ ok (e, rest)) (sym same) refl })

abbrev pub float_type_code : NnFloatType → ℕ
float_type_code f_unk = 2 ^ 32 - 1
float_type_code f_32 = 0
float_type_code f_16 = 1
float_type_code f_q40 = 2
float_type_code f_q80 = 3

abbrev pub float_type_of : ℕ → Option NnFloatType
float_type_of n =
    if n == 2 ^ 32 - 1
    then some f_unk
    else if n == 0
    then some f_32
    else if n == 1
    then some f_16
    else if n == 2
    then some f_q40
    else if n == 3
    then some f_q80
    else none

pub float_type_lem :
    (t : NnFloatType) → (float_type_code t < 256 ^ 4) × (float_type_of (float_type_code t) ≡ some t)
float_type_lem f_unk = (omega arith, refl)
float_type_lem f_32 = (omega arith, refl)
float_type_lem f_16 = (omega arith, refl)
float_type_lem f_q40 = (omega arith, refl)
float_type_lem f_q80 = (omega arith, refl)

abbrev pub pointer_source_code : NnPointerSource → ℕ
pointer_source_code src_pipe = 0
pointer_source_code src_buffer = 1

abbrev pub pointer_source_of : ℕ → Option NnPointerSource
pointer_source_of n = if n == 0 then some src_pipe else if n == 1 then some src_buffer else none

pub pointer_source_lem :
    (e : NnPointerSource)
    → (pointer_source_code e < 256 ^ 4) × (pointer_source_of (pointer_source_code e) ≡ some e)
pointer_source_lem src_pipe = (omega arith, refl)
pointer_source_lem src_buffer = (omega arith, refl)

abbrev pub pointer_type_code : NnPointerType → ℕ
pointer_type_code pntr_raw = 0
pointer_type_code pntr_batch = 1
pointer_type_code pntr_batched_slice = 2

abbrev pub pointer_type_of : ℕ → Option NnPointerType
pointer_type_of n =
    if n == 0
    then some pntr_raw
    else if n == 1
    then some pntr_batch
    else if n == 2
    then some pntr_batched_slice
    else none

pub pointer_type_lem :
    (e : NnPointerType)
    → (pointer_type_code e < 256 ^ 4) × (pointer_type_of (pointer_type_code e) ≡ some e)
pointer_type_lem pntr_raw = (omega arith, refl)
pointer_type_lem pntr_batch = (omega arith, refl)
pointer_type_lem pntr_batched_slice = (omega arith, refl)

abbrev pub sync_type_code : NnSyncType → ℕ
sync_type_code sync_with_root = 0
sync_type_code sync_node_slices = 1
sync_type_code sync_node_slices_except_root = 2

abbrev pub sync_type_of : ℕ → Option NnSyncType
sync_type_of n =
    if n == 0
    then some sync_with_root
    else if n == 1
    then some sync_node_slices
    else if n == 2
    then some sync_node_slices_except_root
    else none

pub sync_type_lem :
    (e : NnSyncType) → (sync_type_code e < 256 ^ 4) × (sync_type_of (sync_type_code e) ≡ some e)
sync_type_lem sync_with_root = (omega arith, refl)
sync_type_lem sync_node_slices = (omega arith, refl)
sync_type_lem sync_node_slices_except_root = (omega arith, refl)

abbrev pub cache_sync_type_code : NnCacheSyncType → ℕ
cache_sync_type_code cache_sync_save = 0
cache_sync_type_code cache_sync_save_kv = 1
cache_sync_type_code cache_sync_load = 2

abbrev pub cache_sync_type_of : ℕ → Option NnCacheSyncType
cache_sync_type_of n =
    if n == 0
    then some cache_sync_save
    else if n == 1
    then some cache_sync_save_kv
    else if n == 2
    then some cache_sync_load
    else none

pub cache_sync_type_lem :
    (e : NnCacheSyncType)
    → (cache_sync_type_code e < 256 ^ 4) × (cache_sync_type_of (cache_sync_type_code e) ≡ some e)
cache_sync_type_lem cache_sync_save = (omega arith, refl)
cache_sync_type_lem cache_sync_save_kv = (omega arith, refl)
cache_sync_type_lem cache_sync_load = (omega arith, refl)

abbrev pub op_code_code : NnOpCode → ℕ
op_code_code op_merge_add = 0
op_code_code op_embedding = 1
op_code_code op_inv_rms = 2
op_code_code op_rms_norm = 3
op_code_code op_matmul = 4
op_code_code op_rope_llama = 5
op_code_code op_multihead_att = 6
op_code_code op_gelu = 7
op_code_code op_silu = 8
op_code_code op_mul = 9
op_code_code op_cast = 10
op_code_code op_shift = 11

abbrev pub op_code_of : ℕ → Option NnOpCode
op_code_of n =
    if n == 0
    then some op_merge_add
    else if n == 1
    then some op_embedding
    else if n == 2
    then some op_inv_rms
    else if n == 3
    then some op_rms_norm
    else if n == 4
    then some op_matmul
    else if n == 5
    then some op_rope_llama
    else if n == 6
    then some op_multihead_att
    else if n == 7
    then some op_gelu
    else if n == 8
    then some op_silu
    else if n == 9
    then some op_mul
    else if n == 10
    then some op_cast
    else if n == 11
    then some op_shift
    else none

pub op_code_lem :
    (e : NnOpCode) → (op_code_code e < 256 ^ 4) × (op_code_of (op_code_code e) ≡ some e)
op_code_lem op_merge_add = (omega arith, refl)
op_code_lem op_embedding = (omega arith, refl)
op_code_lem op_inv_rms = (omega arith, refl)
op_code_lem op_rms_norm = (omega arith, refl)
op_code_lem op_matmul = (omega arith, refl)
op_code_lem op_rope_llama = (omega arith, refl)
op_code_lem op_multihead_att = (omega arith, refl)
op_code_lem op_gelu = (omega arith, refl)
op_code_lem op_silu = (omega arith, refl)
op_code_lem op_mul = (omega arith, refl)
op_code_lem op_cast = (omega arith, refl)
op_code_lem op_shift = (omega arith, refl)
