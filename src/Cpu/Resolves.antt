-- ===== src/Cpu/Resolves.antt =====
-- When a pointer resolves, and to which size.
use distributed_llama.Base.{
  ℕ, zero, suc, ◌+◌, ◌*◌, ◌/◌, ◌%◌, ◌≡◌, refl, arith, List, [], ◌∷◌, ◌==◌, true, ==_iff, ok, ◌^◌,
}
use distributed_llama.Quants.{NnFloatType, f_32}
use distributed_llama.Core.Sizes.{NnSize2D, get_bytes, size_2d}
use distributed_llama.Core.Pointers.{
  NnPointerSource, NnPointerConfig, pointer_batch_config, pointer_batched_slice_config,
  pointer_raw_config,
}
use distributed_llama.Core.Config.{NnOpConfig}
use distributed_llama.Cpu.Pointers.{
  Resolved, NnCpuDevice, resolve_pointer, source_size, source_memory, batch_pointers,
}
use distributed_llama.Cpu.Segments.{resolve_slots, last_sizes}

-- A size of this format and these dimensions.
abbrev pub Sized : NnFloatType → ℕ → ℕ → NnSize2D → Type 0
Sized t y x s = (s.float_type ≡ t) × (s.y ≡ y) × (s.x ≡ x)

pub size_2d-Sized :
    (t : NnFloatType) (y x : ℕ) (s : NnSize2D) → size_2d t y x ≡ ok s → Sized t y x s
unfolding size_2d
size_2d-Sized t y x s e = ground (arith, e)

abbrev pub HasBytes : NnFloatType → ℕ → Type 0
HasBytes t n = (k : ℕ) × (get_bytes t n ≡ ok k)

pub get_bytes-f_32 : (n : ℕ) → HasBytes f_32 n
unfolding get_bytes
get_bytes-f_32 n = (n * 4 % 2 ^ 64, refl)

pub size_2d_ok :
    (t : NnFloatType) (y x : ℕ)
    → HasBytes t (y * x % 2 ^ 32)
    → (s : NnSize2D) × (size_2d t y x ≡ ok s) × Sized t y x s
unfolding size_2d
size_2d_ok t y x (k, e) = (
  record { float_type = t; y = y; x = x; length = y * x % 2 ^ 32; n_bytes = k },
  rw e refl,
  (refl, refl, refl),
)

module _ (d : NnCpuDevice) where
  pub record HasSource (source : NnPointerSource) (index : ℕ) (t : NnFloatType) (y x : ℕ)
      : Type 0 where
    pub size : NnSize2D
    pub there : source_size d source index ≡ ok size
    pub sized : Sized t y x size

  -- At every slot the pointer resolves to this size.
  pub record Resolves (p : NnPointerConfig) (t : NnFloatType) (y x : ℕ) : Type 0 where
    pub resolved :
        (slot : ℕ) → (r : Resolved) × (resolve_pointer d slot p ≡ ok r) × Sized t y x r.size

  pub batch-Resolves :
      {source : NnPointerSource} {index : ℕ} {t : NnFloatType} {x : ℕ}
      → HasSource source index t d.net_config.n_batches x
      → HasBytes t x
      → Resolves (pointer_batch_config source index) t d.net_config.n_batches x
  unfolding resolve_pointer
  batch-Resolves {source} {index} {t} {x} h (k, e) = record {
    resolved = λ slot.
        let (ht, hy, hx) = h.sized in
        let tested : (h.size.y == d.net_config.n_batches) ≡ true = ground (arith, hy) in
        let bytes : get_bytes h.size.float_type h.size.x ≡ ok k = rw (ht, hx) e in
        (
          record {
            pntr = batch_pointers (source_memory source slot index) 0 k d.net_config.n_batches 0;
            size = h.size;
          },
          rw (h.there, tested, bytes) refl,
          h.sized,
        );
  }

  pub raw-Resolves :
      {source : NnPointerSource} {index y x : ℕ}
      → HasSource source index f_32 y x
      → (n : ℕ) × Resolves (pointer_raw_config source index) f_32 1 n
  unfolding resolve_pointer
  raw-Resolves {source} {index} h =
      let (ht, hy, hx) = h.sized in
      let (s, e, sized) =
        size_2d_ok f_32 1 h.size.length (get_bytes-f_32 (1 * h.size.length % 2 ^ 32)) in
      let made : size_2d h.size.float_type 1 h.size.length ≡ ok s = rw ht e in
      (
        h.size.length,
        record {
          resolved = λ slot. (
            record {
              pntr = record { base = source_memory source slot index; offset = 0 } ∷ [];
              size = s;
            },
            rw (h.there, made) refl,
            sized,
          );
        },
      )

  pub slice-Resolves :
      {source : NnPointerSource} {index : ℕ} {t : NnFloatType} {x : ℕ}
      → HasSource source index t d.net_config.n_batches x
      → HasBytes t x
      → x % d.net_config.n_nodes ≡ 0
      → HasBytes t (x / d.net_config.n_nodes)
      → HasBytes t (d.net_config.n_batches * (x / d.net_config.n_nodes) % 2 ^ 32)
      → Resolves
          (pointer_batched_slice_config source index)
          t
          d.net_config.n_batches
          (x / d.net_config.n_nodes)
  unfolding resolve_pointer
  slice-Resolves {source} {index} {t} {x} h (k, e) divides (k', e') whole =
      let (ht, hy, hx) = h.sized in
      let (s, made, sized) = size_2d_ok t d.net_config.n_batches (x / d.net_config.n_nodes) whole in
      let tested : (h.size.y == d.net_config.n_batches) ≡ true = ground (arith, hy) in
      let even : (h.size.x % d.net_config.n_nodes == 0) ≡ true = rw hx ((==_iff _ 0).1 divides) in
      let row : get_bytes h.size.float_type h.size.x ≡ ok k = rw (ht, hx) e in
      let part : get_bytes h.size.float_type (h.size.x / d.net_config.n_nodes) ≡ ok k' =
        rw (ht, hx) e' in
      let new : size_2d h.size.float_type h.size.y (h.size.x / d.net_config.n_nodes) ≡ ok s =
        rw (ht, hy, hx) made in
      record {
        resolved = λ slot. (
          record {
            pntr =
                batch_pointers (source_memory source slot index) (k' * d.node_config.node_index) k
                  d.net_config.n_batches 0;
            size = s;
          },
          rw (h.there, tested, row, even, part, new) refl,
          sized,
        );
      }

  last_sizes-cons :
      (r : Resolved × Resolved) (rs : List (Resolved × Resolved)) (v : NnSize2D × NnSize2D)
      → last_sizes rs ≡ ok v
      → last_sizes (r ∷ rs) ≡ ok v
  last_sizes-cons r [] v e = cc
  last_sizes-cons (a, b) (r ∷ rs) v e = e

  -- The sizes that the slots leave.
  pub resolve_slots_ok :
      (op : NnOpConfig) {t t' : NnFloatType} {y x y' x' : ℕ}
      → Resolves op.input t y x
      → Resolves op.output t' y' x'
      → (n slot : ℕ)
      → (slots : List (Resolved × Resolved)) × (input : NnSize2D) × (output : NnSize2D)
        × (resolve_slots d op (suc n) slot ≡ ok slots)
        × (last_sizes slots ≡ ok (input, output))
        × Sized t y x input
        × Sized t' y' x' output
  unfolding resolve_slots
  resolve_slots_ok op i o zero slot =
      let (a, ea, sa) = i.resolved slot in
      let (b, eb, sb) = o.resolved slot in
      ((a, b) ∷ [], a.size, b.size, rw (ea, eb) refl, refl, sa, sb)
  resolve_slots_ok op i o (suc n) slot =
      let (a, ea, sa) = i.resolved slot in
      let (b, eb, sb) = o.resolved slot in
      let (slots, p, q, e, last, sp, sq) = resolve_slots_ok op i o n (slot + 1) in
      ((a, b) ∷ slots, p, q, rw (ea, eb, e) refl, last_sizes-cons (a, b) slots _ last, sp, sq)
