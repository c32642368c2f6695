-- ===== src/Cpu/Pointers.antt =====
-- NnCpuDevice::resolvePointer of src/nn/nn-cpu.cpp: where an operation reads and writes in memory.
use distributed_llama.Base.{
  ℕ, zero, suc, ◌+◌, ◌*◌, ◌/◌, ◌%◌, List, [], ◌∷◌, get_elem?, Option, none, some, ◌==◌, Result, ok,
  err, guard, ◌>>=◌, ◌>>◌, assertion, memory,
}
use distributed_llama.Core.Sizes.{NnSize2D, get_bytes, size_2d}
use distributed_llama.Core.Pointers.{
  NnPointerSource, src_pipe, src_buffer, NnPointerType, pntr_raw, pntr_batch, pntr_batched_slice,
  NnPointerConfig,
}
use distributed_llama.Core.Config.{NnNetConfig, NnNodeConfig}

-- The memory of a buffer of a slot, or of a pipe.
pub data Memory : Type 0 where
  slot_buffer : ℕ → ℕ → Memory
  pipe : ℕ → Memory

pub record Pointer : Type 0 where
  pub base : Memory
  pub offset : ℕ

-- What `resolvePointer` fills in: the pointers that it sets, and the size.
pub record Resolved : Type 0 where
  pub pntr : List Pointer
  pub size : NnSize2D

pub record NnCpuDevice : Type 0 where
  pub net_config : NnNetConfig
  pub node_config : NnNodeConfig
  pub buffer_flags : List ℕ

abbrev pub found {ℓ} : {A : Type ℓ} → Option A → Result A
found none = err memory
found (some a) = ok a

abbrev pub source_memory : NnPointerSource → ℕ → ℕ → Memory
source_memory src_buffer slot index = slot_buffer slot index
source_memory src_pipe slot index = pipe index

unfoldable pub source_size : NnCpuDevice → NnPointerSource → ℕ → Result NnSize2D
source_size d src_buffer index = do c ← found (get_elem? d.node_config.buffers index); ok c.size
source_size d src_pipe index = do c ← found (get_elem? d.net_config.pipes index); ok c.size

-- `pntr[batchIndex] = &source[first + batchIndex * batchBytes]`, from a batch on.
unfoldable pub batch_pointers : Memory → ℕ → ℕ → ℕ → ℕ → List Pointer
batch_pointers base first batch_bytes zero batch_index = []
batch_pointers base first batch_bytes (suc n) batch_index =
    record { base = base; offset = first + batch_index * batch_bytes }
    ∷ batch_pointers base first batch_bytes n (batch_index + 1)

unfoldable pub resolve_in : NnCpuDevice → NnPointerType → Memory → NnSize2D → Result Resolved
unfolding batch_pointers
resolve_in d pntr_raw source source_size = do
  size ← size_2d source_size.float_type 1 source_size.length
  ok (record { pntr = record { base = source; offset = 0 } ∷ []; size = size })
resolve_in d pntr_batch source source_size = do
  guard (source_size.y == d.net_config.n_batches) assertion
  batch_bytes ← get_bytes source_size.float_type source_size.x
  ok (record {
    pntr = batch_pointers source 0 batch_bytes d.net_config.n_batches 0;
    size = source_size;
  })
resolve_in d pntr_batched_slice source source_size = do
  guard (source_size.y == d.net_config.n_batches) assertion
  batch_bytes ← get_bytes source_size.float_type source_size.x
  guard (source_size.x % d.net_config.n_nodes == 0) assertion
  let x_slice = source_size.x / d.net_config.n_nodes
  x_slice_bytes ← get_bytes source_size.float_type x_slice
  size ← size_2d source_size.float_type source_size.y x_slice
  ok (record {
    pntr =
        batch_pointers source (x_slice_bytes * d.node_config.node_index) batch_bytes
          d.net_config.n_batches 0;
    size = size;
  })

unfoldable pub resolve_pointer : NnCpuDevice → ℕ → NnPointerConfig → Result Resolved
unfolding source_size resolve_in
resolve_pointer d slot p = do
  size ← source_size d p.source p.pointer_index
  resolve_in d p.type (source_memory p.source slot p.pointer_index) size
