-- ===== src/Llm/RopeReady.antt =====
-- When the cache of the rotary embedding of a node has a place for every position.
use distributed_llama.Base.{ℕ, ◌+◌, ◌*◌, ◌%◌, ◌^◌, ◌≤◌, ◌<◌, ◌≡◌, arith, ok}
use distributed_llama.Base.Numbers.{mul_mono_left, mul_mono}
use distributed_llama.Core.Sizes.{get_bytes, size_2d}
use distributed_llama.Core.Slices.{NnRopeSlice, slice_rope}
use distributed_llama.Core.Slices.Tiles.{slice_rope_covers}
use distributed_llama.Llm.{LlmHeader}
use distributed_llama.Cpu.RopeCache.{HasFloats, HasCache}

-- The header has heads of some size, and positions that with the whole dimension stay in 32 bits.
pub record HasRoom (h : LlmHeader) : Type 0 where
  pub floats : HasFloats h
  pub head : 0 < h.head_size
  pub head_lt : h.head_size < 2 ^ 32
  pub seq_lt : h.seq_len < 2 ^ 32
  pub few : h.seq_len * h.dim < 2 ^ 32

slice_rope-cache :
    (dim kv_dim n_kv_heads n_nodes seq_len head_size node_index : ℕ) (s : NnRopeSlice)
    → slice_rope dim kv_dim n_kv_heads n_nodes seq_len head_size node_index ≡ ok s
    → (s.head_size ≡ head_size)
      × (s.seq_len ≡ seq_len)
      × (s.slice_dim % 2 ≡ 0)
      × (s.cache_size.n_bytes ≡ seq_len * s.slice_dim % 2 ^ 32 * 4 % 2 ^ 64)
      × (s.q_dim_end < 2 ^ 32)
unfolding slice_rope size_2d get_bytes
slice_rope-cache dim kv_dim n_kv_heads n_nodes seq_len head_size node_index s e = ground arith

pub rope_cache_ok :
    (h : LlmHeader) (nodes i : ℕ) (s : NnRopeSlice)
    → h.dim < 2 ^ 32
    → i < nodes
    → HasRoom h
    → slice_rope h.dim h.kv_dim h.n_kv_heads nodes h.seq_len h.head_size i ≡ ok s
    → HasCache s
rope_cache_ok h nodes i s lt within room e =
    let (start, end, all, keys, _, shift, whole, _) =
      slice_rope_covers h.dim h.kv_dim h.n_kv_heads nodes h.seq_len h.head_size i s lt within e in
    let (head, seq, pairs, bytes, end_lt) =
      slice_rope-cache h.dim h.kv_dim h.n_kv_heads nodes h.seq_len h.head_size i s e in
    let part : (i + 1) * s.q_dim0 ≤ nodes * s.q_dim0 =
      mul_mono_left (i + 1) nodes s.q_dim0 (omega arith) in
    let short : s.slice_dim ≤ h.dim = omega (arith, part, start, end, all, shift, whole) in
    let few : h.seq_len * s.slice_dim < 2 ^ 32 =
      omega (arith, mul_mono h.seq_len s.slice_dim h.dim short, room.few) in
    record {
      head = rw head (room.head);
      head_lt = rw head (room.head_lt);
      end_lt = end_lt;
      seq_lt = rw seq (room.seq_lt);
      begins = omega (arith, shift, whole, end);
      pairs = pairs;
      few = rw seq few;
      bytes = rw seq (omega (arith, bytes, few));
    }
