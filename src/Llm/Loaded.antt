-- ===== src/Llm/Loaded.antt =====
-- What loadLlmHeader makes of a file that has a value for some of the keys.
use distributed_llama.Base.{
  ℕ, zero, suc, ◌+◌, ◌-◌, ◌/◌, ◌%◌, ◌*◌, ◌^◌, ◌<◌, ◌≤◌, ◌≡◌, ◌≢◌, ◌⊎◌, inl, inr, refl, sym, ap,
  subst, ◌∙◌, arith, true, false, ◌&&◌, List, [], ◌∷◌, ◌++◌, length, length-append, append_assoc,
  min, ltb, ◌==◌, if◌then◌else◌, ok,
}
use distributed_llama.Quants.{NnFloatType, f_unk, f_32, f_16, f_q40, f_q80}
use distributed_llama.Core.OpQuant.{◌is◌}
use distributed_llama.Cache.Tokens.{All}
use distributed_llama.Network.Stream.{
  le_bytes, le_value-le_bytes, read, read-Reads, read_number-Reads,
}
use distributed_llama.Network.Wire.{u32}
use distributed_llama.Llm.{LlmHeader}
use distributed_llama.Llm.Header.{
  weight_type_of, set_header_value, set_header_values, initial_header, numbers, load_llm_header,
}

-- The last value of a key, or else the default.
abbrev pub last_value {ℓ} : {A : Type ℓ} → (ℕ → A) → ℕ → A → List (ℕ × ℕ) → A
last_value convert key default [] = default
last_value convert key default ((k, v) ∷ entries) =
    last_value convert key (if k == key then convert v else default) entries

abbrev pub IsEntry : ℕ × ℕ → Type 0
IsEntry (k, v) = (k < 19) × (v < 256 ^ 4)

abbrev pub entry_bytes : List (ℕ × ℕ) → List ℕ
entry_bytes [] = []
entry_bytes ((k, v) ∷ entries) = u32 k ++ (u32 v ++ entry_bytes entries)

-- A model file: the magic number, the size of the header, the entries, and what follows.
abbrev pub model_file : List (ℕ × ℕ) → List ℕ → List ℕ
model_file entries weights =
    u32 167816141 ++ (u32 (8 + 8 * length entries) ++ (entry_bytes entries ++ weights))

flat : List (ℕ × ℕ) → List ℕ
flat [] = []
flat ((k, v) ∷ entries) = k ∷ (v ∷ flat entries)

double : ℕ → ℕ
double zero = zero
double (suc n) = suc (suc (double n))

double_lem : (n : ℕ) → double n ≡ (8 + 8 * n - 8) / 4
unfolding double
double_lem zero = refl
double_lem (suc n) = omega (arith, double_lem n)

-- What holds of each of `n` numbers from the `i`th on.
AllFrom : (ℕ → Type 0) → ℕ → ℕ → Type 0
AllFrom P i zero = Unit
AllFrom P i (suc n) = P i × AllFrom P (i + 1) n

AllFrom-at : (P : ℕ → Type 0) (i n k : ℕ) → AllFrom P i n → i ≤ k → k < i + n → P k
unfolding AllFrom
AllFrom-at P i zero k all le lt = absurd (omega arith)
AllFrom-at P i (suc n) k (p, all) le lt = elim (eq_or_above i k le) [
  | inl e ↦ subst P e p
  | inr above ↦ AllFrom-at P (i + 1) n k all above (omega arith)
]
  where
    eq_or_above : (i k : ℕ) → i ≤ k → (i ≡ k) ⊎ (i + 1 ≤ k)
    eq_or_above zero zero le = inl refl
    eq_or_above zero (suc k) le = inr (omega arith)
    eq_or_above (suc i) zero le = absurd (omega arith)
    eq_or_above (suc i) (suc k) le = elim (eq_or_above i k (omega arith)) [
      | inl e ↦ inl (ap suc e)
      | inr above ↦ inr (omega arith)
    ]

length-entry_bytes : (entries : List (ℕ × ℕ)) → length (entry_bytes entries) ≡ 8 * length entries
unfolding le_bytes
length-entry_bytes [] = refl
length-entry_bytes ((k, v) ∷ entries) = omega (arith, length-entry_bytes entries)

numbers-entry_bytes :
    (entries : List (ℕ × ℕ)) (rest : List ℕ)
    → All IsEntry entries
    → numbers (entry_bytes entries ++ rest) ≡ flat entries ++ numbers rest
unfolding flat le_bytes
numbers-entry_bytes [] rest fits = refl
numbers-entry_bytes ((k, v) ∷ entries) rest ((hk, hv), fits) =
    rw
      (
        le_value-le_bytes 4 k (omega arith),
        le_value-le_bytes 4 v hv,
        numbers-entry_bytes entries rest fits,
      )
      refl

length-model_file :
    (entries : List (ℕ × ℕ)) (weights : List ℕ)
    → length (model_file entries weights) ≡ 8 + 8 * length entries + length weights
unfolding le_bytes
length-model_file entries weights =
    omega (arith, length-append (entry_bytes entries) weights, length-entry_bytes entries)

is_format : (t : NnFloatType) → t ≢ f_unk → (t is f_unk) ≡ false
is_format f_unk h = absurd (h refl)
is_format f_32 h = refl
is_format f_16 h = refl
is_format f_q40 h = refl
is_format f_q80 h = refl

clipped : (m n : ℕ) → (if ltb 0 m && ltb m n then m else n) ≡ (if m == 0 then n else min m n)
clipped m n = ground arith

read_header :
    (entries : List (ℕ × ℕ)) (first rest : List ℕ)
    → length first ≡ 8
    → read (8 + 8 * length entries) (entry_bytes entries ++ (first ++ rest))
      ≡ ok (entry_bytes entries ++ first, rest)
read_header entries first rest eight =
    ap (read (8 + 8 * length entries)) (sym (append_assoc (entry_bytes entries) first rest))
    ∙ (read-Reads (8 + 8 * length entries) (entry_bytes entries ++ first) (
          omega (
            arith,
            eight,
            length-append (entry_bytes entries) first,
            length-entry_bytes entries,
          ))).run
        rest

module _ (float_of : ℕ → List ℕ) where
  -- The header with the values of the entries in place of its own.
  abbrev pub described : LlmHeader → List (ℕ × ℕ) → LlmHeader
  described h entries = record h {
    version = last_value (λ v. v) 0 h.version entries;
    arch_type = last_value (λ v. v) 1 h.arch_type entries;
    dim = last_value (λ v. v) 2 h.dim entries;
    hidden_dim = last_value (λ v. v) 3 h.hidden_dim entries;
    n_layers = last_value (λ v. v) 4 h.n_layers entries;
    n_heads = last_value (λ v. v) 5 h.n_heads entries;
    n_kv_heads = last_value (λ v. v) 6 h.n_kv_heads entries;
    n_experts = last_value (λ v. v) 7 h.n_experts entries;
    n_active_experts = last_value (λ v. v) 8 h.n_active_experts entries;
    vocab_size = last_value (λ v. v) 9 h.vocab_size entries;
    seq_len = last_value (λ v. v) 10 h.seq_len entries;
    hidden_act = last_value (λ v. v) 11 h.hidden_act entries;
    rope_theta = last_value float_of 12 h.rope_theta entries;
    weight_type = last_value weight_type_of 13 h.weight_type entries;
    rope_scaling_factor = last_value float_of 14 h.rope_scaling_factor entries;
    rope_scaling_low_freq_factor = last_value float_of 15 h.rope_scaling_low_freq_factor entries;
    rope_scaling_high_freq_factory =
        last_value float_of 16 h.rope_scaling_high_freq_factory entries;
    rope_scaling_orig_max_seq_len = last_value (λ v. v) 17 h.rope_scaling_orig_max_seq_len entries;
    rope_type = last_value (λ v. v) 18 h.rope_type entries;
  }

  set_header_value_lem :
      (k v : ℕ) (h : LlmHeader)
      → k < 19
      → set_header_value float_of k v h ≡ ok (described h ((k, v) ∷ []))
  unfolding set_header_value AllFrom
  set_header_value_lem k v h lt =
      AllFrom-at (λ k. set_header_value float_of k v h ≡ ok (described h ((k, v) ∷ []))) 0 19 k
        (
          refl,
          (
            refl,
            (
              refl,
              (
                refl,
                (
                  refl,
                  (
                    refl,
                    (
                      refl,
                      (
                        refl,
                        (
                          refl,
                          (
                            refl,
                            (
                              refl,
                              (refl, (refl, (refl, (refl, (refl, (refl, (refl, (refl, tt)))))))),
                            ),
                          ),
                        ),
                      ),
                    ),
                  ),
                ),
              ),
            ),
          ),
        )
        (omega arith) lt

  set_header_values_lem :
      (entries : List (ℕ × ℕ)) (rest : List ℕ) (h : LlmHeader)
      → All IsEntry entries
      → set_header_values float_of (double (length entries)) (flat entries ++ rest) h
        ≡ ok (described h entries)
  unfolding set_header_values flat double
  set_header_values_lem [] rest h fits = refl
  set_header_values_lem ((k, v) ∷ entries) rest h ((hk, hv), fits) =
      rw (set_header_value_lem k v h hk)
        (set_header_values_lem entries rest (described h ((k, v) ∷ [])) fits)

  -- The header that the values describe, with what is computed from them.
  abbrev pub loaded_header : List ℕ → ℕ → NnFloatType → ℕ → List (ℕ × ℕ) → List ℕ → LlmHeader
  loaded_header norm_epsilon max_seq_len sync_type slots entries weights =
      let h = described (initial_header float_of norm_epsilon) entries in
      record h {
        header_size = 8 + 8 * length entries;
        file_size = 8 + 8 * length entries + length weights;
        orig_seq_len = h.seq_len;
        seq_len = if max_seq_len == 0 then h.seq_len else min max_seq_len h.seq_len;
        head_size = h.dim / h.n_heads;
        kv_dim = (h.dim * h.n_kv_heads % 2 ^ 32) / h.n_heads;
        slots = slots;
        sync_type = sync_type;
      }

  -- A model file has the magic number, the size of its header, entries with known keys and
  -- four-byte values, and eight bytes or more behind them. If the last weight type that it gives is
  -- a format and the last number of heads is positive, then loadLlmHeader succeeds: every field has
  -- the last value that the file gives for its key, or else its default, the sequence is clipped to
  -- the maximum where there is one, and the size of a head and of the keys follow from the values.
  pub load_llm_header_lem :
      (norm_epsilon : List ℕ) (max_seq_len : ℕ) (sync_type : NnFloatType) (slots : ℕ)
      (entries : List (ℕ × ℕ)) (first rest : List ℕ)
      → All IsEntry entries
      → 8 + 8 * length entries < 256 ^ 4
      → length first ≡ 8
      → last_value weight_type_of 13 f_unk entries ≢ f_unk
      → 0 < last_value (λ v. v) 5 0 entries
      → load_llm_header float_of norm_epsilon max_seq_len sync_type slots
          (model_file entries (first ++ rest))
        ≡ ok (loaded_header norm_epsilon max_seq_len sync_type slots entries (first ++ rest))
  unfolding load_llm_header
  load_llm_header_lem norm_epsilon max_seq_len sync_type slots entries first rest fits small eight
        typed heads =
      let w = first ++ rest in
      let h0 = record (initial_header float_of norm_epsilon) {
        header_size = 8 + 8 * length entries;
      } in
      let values : set_header_values float_of ((8 + 8 * length entries - 8) / 4)
            (flat entries ++ numbers first) h0
          ≡ ok (described h0 entries) =
        ap (λ n. set_header_values float_of n (flat entries ++ numbers first) h0)
          (sym (double_lem (length entries)))
        ∙ set_header_values_lem entries (numbers first) h0 fits in
      let some_size : ltb 0 (8 + 8 * length entries) ≡ true = ground arith in
      let some_heads : (last_value (λ v. v) 5 0 entries == 0) ≡ false = ground arith in
      rw
        (
          (read_number-Reads 4 167816141 (omega arith)).run
              (u32 (8 + 8 * length entries) ++ (entry_bytes entries ++ w)),
          (read_number-Reads 4 (8 + 8 * length entries) small).run (entry_bytes entries ++ w),
          some_size,
          read_header entries first rest eight,
          numbers-entry_bytes entries first fits,
          values,
          is_format _ typed,
          some_heads,
          length-model_file entries w,
          clipped max_seq_len (last_value (λ v. v) 10 0 entries),
        )
        refl
