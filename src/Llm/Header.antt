-- ===== src/Llm/Header.antt =====
-- loadLlmHeader of src/llm.cpp: the header of a model file.
use distributed_llama.Base.{
  ℕ, zero, suc, ◌-◌, ◌/◌, ◌%◌, ◌*◌, ◌^◌, not, ◌&&◌, ◌||◌, List, [], ◌∷◌, length, none, some, ltb,
  ◌==◌, if◌then◌else◌, Result, ok, err, guard, ◌>>=◌, ◌>>◌, runtime_error, memory, division,
}
use distributed_llama.Quants.{NnFloatType, f_unk, f_32}
use distributed_llama.Core.OpQuant.{◌is◌}
use distributed_llama.Network.Stream.{le_value, read}
use distributed_llama.Network.Wire.{read_u32}
use distributed_llama.Network.Enums.{float_type_of}
use distributed_llama.Llm.{LlmHeader}

-- A number that is no format is kept by the code, which throws when the first size is computed. Here
-- it counts as no format.
abbrev pub weight_type_of : ℕ → NnFloatType
weight_type_of value = elim (float_type_of value) [ none ↦ f_unk | some t ↦ t ]

-- The numbers of an array of bytes; bytes behind the last whole number are never looked at.
abbrev pub numbers : List ℕ → List ℕ
numbers (a ∷ (b ∷ (c ∷ (d ∷ bytes)))) = le_value (a ∷ (b ∷ (c ∷ (d ∷ [])))) ∷ numbers bytes
numbers _ = []

-- `(float)value`, as the bytes of the float.
module _ (float_of : ℕ → List ℕ) where
  unfoldable pub set_header_value : ℕ → ℕ → LlmHeader → Result LlmHeader
  set_header_value key value h =
      if key == 0
      then ok (record h { version = value })
      else if key == 1
      then ok (record h { arch_type = value })
      else if key == 2
      then ok (record h { dim = value })
      else if key == 3
      then ok (record h { hidden_dim = value })
      else if key == 4
      then ok (record h { n_layers = value })
      else if key == 5
      then ok (record h { n_heads = value })
      else if key == 6
      then ok (record h { n_kv_heads = value })
      else if key == 7
      then ok (record h { n_experts = value })
      else if key == 8
      then ok (record h { n_active_experts = value })
      else if key == 9
      then ok (record h { vocab_size = value })
      else if key == 10
      then ok (record h { seq_len = value })
      else if key == 11
      then ok (record h { hidden_act = value })
      else if key == 12
      then ok (record h { rope_theta = float_of value })
      else if key == 13
      then ok (record h { weight_type = weight_type_of value })
      else if key == 14
      then ok (record h { rope_scaling_factor = float_of value })
      else if key == 15
      then ok (record h { rope_scaling_low_freq_factor = float_of value })
      else if key == 16
      then ok (record h { rope_scaling_high_freq_factory = float_of value })
      else if key == 17
      then ok (record h { rope_scaling_orig_max_seq_len = value })
      else if key == 18
      then ok (record h { rope_type = value })
      else err runtime_error

  -- `for (i = 0; i < nKv; i += 2)`, on the numbers that are left of the buffer.
  unfoldable pub set_header_values : ℕ → List ℕ → LlmHeader → Result LlmHeader
  unfolding set_header_value
  set_header_values zero buffer h = ok h
  set_header_values (suc zero) (key ∷ (value ∷ buffer)) h = set_header_value key value h
  set_header_values (suc (suc n)) (key ∷ (value ∷ buffer)) h = do
    h' ← set_header_value key value h
    set_header_values n buffer h'
  set_header_values (suc n) buffer h = err memory

  -- The header before the file is read; the two floats are given by their bytes.
  abbrev pub initial_header : List ℕ → LlmHeader
  initial_header norm_epsilon = record {
    header_size = 0;
    file_size = 0;
    version = 0;
    arch_type = 0;
    dim = 0;
    n_layers = 0;
    n_heads = 0;
    head_size = 0;
    n_kv_heads = 0;
    n_experts = 0;
    n_active_experts = 0;
    orig_seq_len = 0;
    seq_len = 0;
    hidden_dim = 0;
    hidden_act = 1;
    kv_dim = 0;
    vocab_size = 0;
    rope_theta = float_of 10000;
    rope_type = 0;
    rope_scaling_factor = float_of 1;
    rope_scaling_low_freq_factor = 0 ∷ (0 ∷ (0 ∷ (0 ∷ [])));
    rope_scaling_high_freq_factory = 0 ∷ (0 ∷ (0 ∷ (0 ∷ [])));
    rope_scaling_orig_max_seq_len = 0;
    norm_epsilon = norm_epsilon;
    slots = 0;
    weight_type = f_unk;
    sync_type = f_32;
  }

  -- What is computed from the values, on a file of `file_size` bytes.
  unfoldable pub finish_header : ℕ → NnFloatType → ℕ → ℕ → LlmHeader → Result LlmHeader
  finish_header max_seq_len sync_type slots file_size h = do
    guard (not (h.weight_type is f_unk)) runtime_error
    guard (not (h.n_heads == 0)) division
    ok (record h {
      orig_seq_len = h.seq_len;
      seq_len = if ltb 0 max_seq_len && ltb max_seq_len h.seq_len then max_seq_len else h.seq_len;
      slots = slots;
      head_size = h.dim / h.n_heads;
      kv_dim = (h.dim * h.n_kv_heads % 2 ^ 32) / h.n_heads;
      sync_type = sync_type;
      file_size = file_size;
    })

  -- The header of the file with these bytes. Of a size too small for the magic number and itself the
  -- code makes a negative count of values, which like zero reads none.
  unfoldable pub load_llm_header : List ℕ → ℕ → NnFloatType → ℕ → List ℕ → Result LlmHeader
  unfolding set_header_values finish_header le_value read
  load_llm_header norm_epsilon max_seq_len sync_type slots file = do
    magic ← read_u32 file
    guard (not (magic.0 == 11259136 || magic.0 == 11259137)) runtime_error
    guard (magic.0 == 167816141) runtime_error
    header_size ← read_u32 magic.1
    guard (ltb 0 header_size.0) runtime_error
    buffer ← read header_size.0 header_size.1
    h ←
        set_header_values ((header_size.0 - 8) / 4) (numbers buffer.0)
          (record (initial_header norm_epsilon) { header_size = header_size.0 })
    finish_header max_seq_len sync_type slots (length file) h
