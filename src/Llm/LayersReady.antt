-- ===== src/Llm/LayersReady.antt =====
-- On a supported model the segments of the layers, and the end, are made.
use distributed_llama.Base.{
  ℕ, zero, suc, ◌+◌, ◌*◌, ◌/◌, ◌%◌, ◌^◌, ◌<◌, ◌≡◌, refl, sym, ap, ◌∙◌, arith, List, [], ◌∷◌, ◌++◌,
  length, length-append, append_assoc, append-nil, ok,
}
use distributed_llama.Base.Strings.{c_string}
use distributed_llama.Quants.{f_32}
use distributed_llama.Cache.Tokens.{All}
use distributed_llama.Core.Sizes.{NnSize2D, block_size, size_2d}
use distributed_llama.Core.Pointers.{src_buffer}
use distributed_llama.Core.Slices.{NnRopeSlice}
use distributed_llama.Core.Config.{NnBufferConfig, NnSegmentConfig}
use distributed_llama.Core.Builder.{
  NnNodeConfigBuilder, add_buffer, add_segment, clone_string, get_elem?-append,
}
use distributed_llama.Cpu.Pointers.{NnCpuDevice, source_size}
use distributed_llama.Cpu.Resolves.{HasSource, size_2d_ok}
use distributed_llama.Cpu.RopeCache.{HasRope}
use distributed_llama.Llm.{LlmHeader}
use distributed_llama.Llm.Parts.{LlmParts}
use distributed_llama.Llm.Buffers.{LlmBuffers}
use distributed_llama.Llm.Layers.{att_segment, ff_segment, end_segment}
use distributed_llama.Llm.Network.{build_layers}
use distributed_llama.Llm.Layout.{IsReady, IsSliced}
use distributed_llama.Llm.Segments.{IsMade, att-IsMade, ff-IsMade}
use distributed_llama.Llm.Supported.{
  IsSupported, weight_known, block_size-weight, dim_whole, whole-HasBytes, whole_wrap, whole_mul,
}

-- The buffer at the end of some others is found behind them.
pub at_end :
    (d : NnCpuDevice) (xs ys : List NnBufferConfig) (name : List ℕ) (size : NnSize2D)
    → size.float_type ≡ f_32
    → length xs < 2 ^ 32
    → d.node_config.buffers ≡ xs ++ (record { name = name; size = size } ∷ ys)
    → HasSource d src_buffer (length xs % 2 ^ 32) f_32 size.y size.x
unfolding source_size
at_end d xs ys name size float lt e = record {
  size = size;
  there =
      rw (e, small (length xs) lt, get_elem?-append xs ys (record { name = name; size = size }))
        refl;
  sized = (float, refl, refl);
}
  where
    small : (i : ℕ) → i < 2 ^ 32 → i % 2 ^ 32 ≡ i
    small i lt = omega arith

two_more {ℓ} :
    {A : Type ℓ} (xs : List A) (a b : A) (ys : List A)
    → ((xs ++ (a ∷ [])) ++ (b ∷ [])) ++ ys ≡ xs ++ (a ∷ (b ∷ ys))
two_more xs a b ys = append_assoc (xs ++ (a ∷ [])) (b ∷ []) ys ∙ append_assoc xs (a ∷ []) (b ∷ ys)

module _ (padding : ℕ) (h : LlmHeader) (nodes : ℕ) (n : LlmParts) (b : LlmBuffers)
    (good : IsSupported h nodes) (sliced : IsSliced h n nodes) where
  -- The size of a weight whose rows are whole blocks.
  weight_size :
      (y m x : ℕ)
      → y ≡ m
      → m % block_size h.sync_type ≡ 0
      → (s : NnSize2D) × (size_2d h.weight_type y x ≡ ok s)
  weight_size y m x same whole =
      let row : y % block_size h.weight_type ≡ 0 =
        rw (same, block_size-weight h nodes good) whole in
      let (s, e, _) = size_2d_ok h.weight_type y x (
        whole-HasBytes h.weight_type _ (weight_known h nodes good)
          (whole_wrap h.weight_type (y * x) (whole_mul h.weight_type y x row))) in
      (s, e)

  att_ok :
      (rope_slice : NnRopeSlice) (layer k v : ℕ)
      → (s : NnSegmentConfig) × (att_segment padding h n b rope_slice layer k v ≡ ok s)
  unfolding att_segment
  att_ok rope_slice layer k v =
      let (q, eq) =
        weight_size n.q_slice.n h.dim n.q_slice.d0 sliced.q_n (dim_whole h nodes good) in
      let (w, ew) =
        weight_size n.k_slice.n h.dim n.k_slice.d0 sliced.k_n (dim_whole h nodes good) in
      let (u, eu) =
        weight_size n.v_slice.n h.dim n.v_slice.d0 sliced.v_n (dim_whole h nodes good) in
      let (o, eo) =
        weight_size n.wo_slice.n0 (h.dim / nodes) n.wo_slice.d sliced.wo_n0 good.dim_blocks in
      rw (eq, ew, eu, eo) (_, refl)

  ff_ok : (layer : ℕ) → (s : NnSegmentConfig) × (ff_segment padding h n b layer ≡ ok s)
  unfolding ff_segment
  ff_ok layer =
      let (w1, e1) =
        weight_size n.w1_slice.n h.dim n.w1_slice.d0 sliced.w1_n (dim_whole h nodes good) in
      let (w3, e3) =
        weight_size n.w3_slice.n h.dim n.w3_slice.d0 sliced.w3_n (dim_whole h nodes good) in
      let (w2, e2) =
        weight_size n.w2_slice.n0 (h.hidden_dim / nodes) n.w2_slice.d sliced.w2_n0
          good.hidden_blocks in
      rw (e1, e3, e2) (_, refl)

  pub end_ok : (s : NnSegmentConfig) × (end_segment padding h n b ≡ ok s)
  unfolding end_segment
  end_ok =
      let (w, e) =
        weight_size n.wcls_slice.n h.dim n.wcls_slice.d0 sliced.wcls_n (dim_whole h nodes good) in
      rw e (_, refl)

  -- What the layers add to a node: buffers, and segments that a device with these buffers makes.
  pub record LayersMade (rope_slice : NnRopeSlice) (k : ℕ) (s s' : NnNodeConfigBuilder)
      : Type 0 where
    pub more : List NnBufferConfig
    pub few_buffers : length more ≡ 2 * k
    pub buffers_are : s'.buffers ≡ s.buffers ++ more
    pub segs : List NnSegmentConfig
    pub count : length segs ≡ 2 * k
    pub segments_are : s'.segments ≡ s.segments ++ segs
    pub index_is : s'.node_index ≡ s.node_index
    pub made :
        (d : NnCpuDevice) (tail : List NnBufferConfig)
        → IsReady d h n b
        → HasRope d h b.rope_cache_buffer_index rope_slice
        → d.node_config.buffers ≡ s'.buffers ++ tail
        → All (IsMade d) segs

  pub layers_ok :
      (rope_slice : NnRopeSlice) (k layer : ℕ) (s : NnNodeConfigBuilder)
      → length s.buffers + 2 * k < 2 ^ 32
      → (s' : NnNodeConfigBuilder) × (build_layers padding h n b rope_slice k layer s ≡ ok s')
        × LayersMade rope_slice k s s'
  unfolding build_layers add_buffer add_segment
  layers_ok rope_slice zero layer s lt = (
    s,
    refl,
    record {
      more = [];
      few_buffers = omega arith;
      buffers_are = sym (append-nil s.buffers);
      segs = [];
      count = omega arith;
      segments_are = sym (append-nil s.segments);
      index_is = refl;
      made = λ d tail ready has e. tt;
    },
  )
  layers_ok rope_slice (suc k) layer s lt =
      let kc : NnBufferConfig = record {
        name = clone_string (c_string "k");
        size = n.kv_cache_slice.key_size;
      } in
      let vc : NnBufferConfig = record {
        name = clone_string (c_string "v");
        size = n.kv_cache_slice.value_size;
      } in
      let (att, ea) =
        att_ok rope_slice layer (length s.buffers % 2 ^ 32)
          (length (s.buffers ++ (kc ∷ [])) % 2 ^ 32) in
      let (ff, ef) = ff_ok layer in
      let next : NnNodeConfigBuilder = record {
        node_index = s.node_index;
        buffers = (s.buffers ++ (kc ∷ [])) ++ (vc ∷ []);
        segments = (s.segments ++ (att ∷ [])) ++ (ff ∷ []);
      } in
      let (s', run, l) = layers_ok rope_slice k (layer + 1) next (
        omega (
          arith,
          length-append s.buffers (kc ∷ []),
          length-append (s.buffers ++ (kc ∷ [])) (vc ∷ []),
        )) in
      (
        s',
        rw (ea, ef) run,
        record {
          more = kc ∷ (vc ∷ l.more);
          few_buffers = omega (arith, l.few_buffers);
          buffers_are = l.buffers_are ∙ two_more s.buffers kc vc l.more;
          segs = att ∷ (ff ∷ l.segs);
          count = omega (arith, l.count);
          segments_are = l.segments_are ∙ two_more s.segments att ff l.segs;
          index_is = l.index_is;
          made = λ d tail ready has e.
              let e' =
                e
                ∙ ap (λ xs. xs ++ tail) (l.buffers_are ∙ two_more s.buffers kc vc l.more)
                ∙ append_assoc s.buffers (kc ∷ (vc ∷ l.more)) tail in
              (
                att-IsMade d h n b ready padding rope_slice has layer _ _
                    (at_end d s.buffers (vc ∷ (l.more ++ tail)) kc.name kc.size sliced.key_float
                      (omega arith) e')
                    (at_end d (s.buffers ++ (kc ∷ [])) (l.more ++ tail) vc.name vc.size
                      sliced.value_float (omega (arith, length-append s.buffers (kc ∷ [])))
                      (e' ∙ sym (append_assoc s.buffers (kc ∷ []) (vc ∷ (l.more ++ tail)))))
                    att ea,
                (ff-IsMade d h n b ready padding layer ff ef, l.made d tail ready has e),
              );
        },
      )
