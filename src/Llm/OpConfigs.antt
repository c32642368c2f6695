-- ===== src/Llm/OpConfigs.antt =====
-- The own configurations of the operations, as they lie in memory (src/nn/nn-core.hpp).
use distributed_llama.Base.{ℕ, Bool, true, false, List, ◌∷◌, ◌++◌}
use distributed_llama.Core.Slices.{NnRopeSlice}
use distributed_llama.Network.Stream.{le_bytes}
use distributed_llama.Network.Wire.{u32, write_size_2d}
use distributed_llama.Llm.{LlmHeader}

-- The bytes between the fields are not set.
module _ (padding : ℕ) where
  -- A struct without fields takes one byte.
  abbrev pub empty_config : List ℕ
  empty_config = le_bytes 1 padding

  abbrev pub bool_bytes : Bool → List ℕ
  bool_bytes true = 1 ∷ le_bytes 3 padding
  bool_bytes false = 0 ∷ le_bytes 3 padding

  unfoldable pub rope_slice_bytes : LlmHeader → NnRopeSlice → List ℕ
  unfolding write_size_2d
  rope_slice_bytes h s =
      u32 s.q_dim0
      ++ (u32 s.q_dim_start
          ++ (u32 s.q_dim_end
              ++ (u32 s.q_shift
                  ++ (u32 s.kv_dim
                      ++ (u32 s.kv_dim0
                          ++ (u32 s.kv_dim_start
                              ++ (u32 s.slice_dim
                                  ++ (u32 s.seq_len
                                      ++ (u32 s.head_size
                                          ++ (u32 s.n_kv_heads
                                              ++ (h.rope_theta
                                                  ++ write_size_2d padding s.cache_size)))))))))))

  unfoldable pub rope_llama_config : LlmHeader → Bool → ℕ → ℕ → NnRopeSlice → List ℕ
  unfolding rope_slice_bytes
  rope_llama_config h is_q position_pipe_index rope_cache_buffer_index slice =
      bool_bytes is_q
      ++ (u32 position_pipe_index
          ++ (u32 rope_cache_buffer_index
              ++ (h.rope_scaling_factor
                  ++ (h.rope_scaling_low_freq_factor
                      ++ (h.rope_scaling_high_freq_factory
                          ++ (u32 h.rope_scaling_orig_max_seq_len
                              ++ (le_bytes 4 padding ++ rope_slice_bytes h slice)))))))

unfoldable pub multi_head_att_config : ℕ → ℕ → ℕ → ℕ → ℕ → ℕ → ℕ → ℕ → ℕ → ℕ → ℕ → ℕ → List ℕ
multi_head_att_config n_heads n_heads0 n_kv_heads head_size seq_len q_slice_d0 kv_dim0
      position_pipe_index query_buffer_index key_cache_buffer_index value_cache_buffer_index
      att_buffer_index =
    u32 n_heads
    ++ (u32 n_heads0
        ++ (u32 n_kv_heads
            ++ (u32 head_size
                ++ (u32 seq_len
                    ++ (u32 q_slice_d0
                        ++ (u32 kv_dim0
                            ++ (u32 position_pipe_index
                                ++ (u32 query_buffer_index
                                    ++ (u32 key_cache_buffer_index
                                        ++ (u32 value_cache_buffer_index
                                            ++ u32 att_buffer_index))))))))))
