-- ===== src/Cpu/RopeCache.antt =====
-- That fullfillRopeLlama3Cache stays within the cache of a slice, and what its configuration says.
use distributed_llama.Base.{
  ℕ, zero, suc, ◌+◌, ◌-◌, ◌*◌, ◌/◌, ◌%◌, ◌^◌, ◌≤◌, ◌<◌, ◌≡◌, refl, ap, ◌∙◌, arith, Bool, true,
  false, leb, ◌==◌, ==_iff, List, [], ◌∷◌, length, ok, Result, ◌>>=◌,
}
use distributed_llama.Base.Numbers.{mul_mono_left}
use distributed_llama.Base.Loops.{for_range, for_range_ok}
use distributed_llama.Core.Slices.{NnRopeSlice}
use distributed_llama.Network.Stream.{le_bytes, le_value}
use distributed_llama.Llm.{LlmHeader}
use distributed_llama.Llm.OpConfigs.{rope_llama_config}
use distributed_llama.Core.Pointers.{src_buffer}
use distributed_llama.Cpu.Pointers.{NnCpuDevice, source_size}
use distributed_llama.Cpu.Kernels.{
  config_field, write_float, write_pair, fullfill_rope_llama3_cache,
}

-- The floats of a header take four bytes each.
pub record HasFloats (h : LlmHeader) : Type 0 where
  pub factor : length h.rope_scaling_factor ≡ 4
  pub low : length h.rope_scaling_low_freq_factor ≡ 4
  pub high : length h.rope_scaling_high_freq_factory ≡ 4

-- A slice whose cache has a place for every position and every dimension.
pub record HasCache (s : NnRopeSlice) : Type 0 where
  pub head : 0 < s.head_size
  pub head_lt : s.head_size < 2 ^ 32
  pub end_lt : s.q_dim_end < 2 ^ 32
  pub seq_lt : s.seq_len < 2 ^ 32
  pub begins : s.kv_dim_start + s.slice_dim ≡ s.q_dim_end
  pub pairs : s.slice_dim % 2 ≡ 0
  pub few : s.seq_len * s.slice_dim < 2 ^ 32
  pub bytes : s.cache_size.n_bytes ≡ s.seq_len * s.slice_dim * 4

-- The device has the cache of the slice at this buffer.
pub record HasRope (d : NnCpuDevice) (h : LlmHeader) (cache : ℕ) (s : NnRopeSlice) : Type 0 where
  pub floats : HasFloats h
  pub has_cache : HasCache s
  pub source : source_size d src_buffer cache ≡ ok s.cache_size

-- A step that succeeds does so for every slot.
pub for_range-same :
    (r : Result (Unit {0})) → r ≡ ok tt → (n i : ℕ) → for_range n i (λ k done. r) tt ≡ ok tt
unfolding for_range
for_range-same r e zero i = refl
for_range-same r e (suc n) i =
    ap (λ x. x >>= λ done. for_range n (i + 1) (λ k u. r) done) e ∙ for_range-same r e n (i + 1)

le→leb : (a b : ℕ) → a ≤ b → leb a b ≡ true
le→leb a b h = ground arith

four :
    (xs : List ℕ)
    → length xs ≡ 4
    → (a : ℕ) × (b : ℕ) × (c : ℕ) × (d : ℕ) × (xs ≡ a ∷ (b ∷ (c ∷ (d ∷ []))))
four [] e = absurd (omega (arith, e))
four (a ∷ []) e = absurd (omega (arith, e))
four (a ∷ (b ∷ [])) e = absurd (omega (arith, e))
four (a ∷ (b ∷ (c ∷ []))) e = absurd (omega (arith, e))
four (a ∷ (b ∷ (c ∷ (d ∷ [])))) e = (a, b, c, d, refl)
four (a ∷ (b ∷ (c ∷ (d ∷ (x ∷ xs))))) e = absurd (omega (arith, e))

pub rope_fields :
    (padding : ℕ) (h : LlmHeader) (is_q : Bool) (position cache : ℕ) (s : NnRopeSlice)
    → HasFloats h
    → s.q_dim_end < 2 ^ 32
    → s.kv_dim_start < 2 ^ 32
    → s.slice_dim < 2 ^ 32
    → s.seq_len < 2 ^ 32
    → s.head_size < 2 ^ 32
    → let config = rope_llama_config padding h is_q position cache s in
      (config_field config 10 ≡ s.q_dim_end)
      × (config_field config 14 ≡ s.kv_dim_start)
      × (config_field config 15 ≡ s.slice_dim)
      × (config_field config 16 ≡ s.seq_len)
      × (config_field config 17 ≡ s.head_size)
unfolding rope_llama_config le_bytes le_value
rope_fields padding h is_q position cache s floats l1 l2 l3 l4 l5 =
    let (a, b, c, d, e1) = four h.rope_scaling_factor floats.factor in
    let (a', b', c', d', e2) = four h.rope_scaling_low_freq_factor floats.low in
    let (a'', b'', c'', d'', e3) = four h.rope_scaling_high_freq_factory floats.high in
    by_flag is_q a b c d a' b' c' d' a'' b'' c'' d'' e1 e2 e3
  where
    by_flag :
        (is_q : Bool) (a b c d a' b' c' d' a'' b'' c'' d'' : ℕ)
        → h.rope_scaling_factor ≡ a ∷ (b ∷ (c ∷ (d ∷ [])))
        → h.rope_scaling_low_freq_factor ≡ a' ∷ (b' ∷ (c' ∷ (d' ∷ [])))
        → h.rope_scaling_high_freq_factory ≡ a'' ∷ (b'' ∷ (c'' ∷ (d'' ∷ [])))
        → let config = rope_llama_config padding h is_q position cache s in
          (config_field config 10 ≡ s.q_dim_end)
          × (config_field config 14 ≡ s.kv_dim_start)
          × (config_field config 15 ≡ s.slice_dim)
          × (config_field config 16 ≡ s.seq_len)
          × (config_field config 17 ≡ s.head_size)
    by_flag true a b c d a' b' c' d' a'' b'' c'' d'' e1 e2 e3 =
        rw (e1, e2, e3) (omega arith, omega arith, omega arith, omega arith, omega arith)
    by_flag false a b c d a' b' c' d' a'' b'' c'' d'' e1 e2 e3 =
        rw (e1, e2, e3) (omega arith, omega arith, omega arith, omega arith, omega arith)

module _ (s : NnRopeSlice) (has : HasCache s) where
  write_pair_ok :
      (pos pair : ℕ)
      → pos < s.seq_len
      → 2 * pair + 2 ≤ s.slice_dim
      → write_pair s.cache_size.n_bytes s.head_size s.slice_dim pos (2 * pair) ≡ ok tt
  unfolding write_pair write_float
  write_pair_ok pos pair lt le =
      let row : (pos + 1) * s.slice_dim ≤ s.seq_len * s.slice_dim =
        mul_mono_left (pos + 1) s.seq_len s.slice_dim (omega arith) in
      let at : (pos * s.slice_dim + 2 * pair) % 2 ^ 32 ≡ pos * s.slice_dim + 2 * pair =
        omega (arith, row, has.few) in
      let next : (pos * s.slice_dim + 2 * pair + 1) % 2 ^ 32 ≡ pos * s.slice_dim + 2 * pair + 1 =
        omega (arith, row, has.few) in
      let some_head : (s.head_size == 0) ≡ false = ground (arith, has.head) in
      let first : 4 * (pos * s.slice_dim + 2 * pair) + 4 ≤ s.cache_size.n_bytes =
        omega (arith, row, has.bytes) in
      let second : 4 * (pos * s.slice_dim + 2 * pair + 1) + 4 ≤ s.cache_size.n_bytes =
        omega (arith, row, has.bytes) in
      rw (some_head, at, next, le→leb _ _ first, le→leb _ _ second) refl

  pub fullfill_ok :
      fullfill_rope_llama3_cache s.cache_size.n_bytes s.q_dim_end s.kv_dim_start s.slice_dim
        s.seq_len s.head_size
      ≡ ok tt
  unfolding fullfill_rope_llama3_cache
  fullfill_ok =
      let even : ((s.q_dim_end + 2 ^ 32 - s.kv_dim_start) % 2 ^ 32 % 2 == 0) ≡ true =
        (==_iff _ 0).1 (omega (arith, has.begins, has.pairs, has.end_lt)) in
      let (done, run, _) =
        for_range_ok (λ (k : ℕ) (u : Unit {0}). Unit {0})
          (λ pos done.
            for_range ((s.q_dim_end - s.kv_dim_start + 1) / 2) 0
              (λ pair done'. write_pair s.cache_size.n_bytes s.head_size s.slice_dim pos (2 * pair))
              done)
          s.seq_len row s.seq_len 0 tt (omega arith) tt in
      rw (even, run) refl
    where
      row :
          (pos : ℕ) (u : Unit {0})
          → pos < s.seq_len
          → Unit {0}
          → (u' : Unit {0}) × (for_range
                ((s.q_dim_end - s.kv_dim_start + 1) / 2)
                0
                (λ pair done.
                  write_pair s.cache_size.n_bytes s.head_size s.slice_dim pos (2 * pair))
                u
              ≡ ok u')
            × Unit {0}
      row pos u lt p =
          for_range_ok (λ (k : ℕ) (u : Unit {0}). Unit {0})
            (λ pair done. write_pair s.cache_size.n_bytes s.head_size s.slice_dim pos (2 * pair))
            ((s.q_dim_end - s.kv_dim_start + 1) / 2)
            (λ pair u' within q.
              (tt, write_pair_ok pos pair lt (omega (arith, within, has.begins, has.pairs)), tt))
            ((s.q_dim_end - s.kv_dim_start + 1) / 2) 0 u (omega arith) tt
