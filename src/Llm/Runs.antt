-- ===== src/Llm/Runs.antt =====
-- buildLlmNet of src/llm.cpp together with NnCpuDevice::createSegment of src/nn/nn-cpu.cpp.
use distributed_llama.Base.{
  ℕ, zero, suc, ◌+◌, ◌-◌, ◌*◌, ◌/◌, ◌%◌, ◌^◌, ◌≤◌, ◌<◌, ◌≡◌, refl, sym, ap, ap₂, subst, ◌∙◌, arith,
  true, false, List, [], ◌∷◌, ◌++◌, length, length-append, append-nil, some, get_elem?, leb, lt→ltb,
  ◌==◌, ==_iff, ok,
}
use distributed_llama.Cache.Tokens.{All, All-append, All-weaken}
use distributed_llama.Core.Sizes.{get_bytes, size_2d}
use distributed_llama.Core.Slices.{NnRopeSlice, slice_rope}
use distributed_llama.Core.Config.{NnBufferConfig, NnSegmentConfig, NnNodeConfig}
use distributed_llama.Core.Builder.{
  NnNodeConfigBuilder, add_segment, build_segment, add_sync, build_node,
}
use distributed_llama.Core.Pointers.{src_buffer}
use distributed_llama.Cpu.RopeCache.{HasRope}
use distributed_llama.Cpu.Pointers.{NnCpuDevice, source_size}
use distributed_llama.Cpu.Segments.{NnCpuDeviceSegment, create_segment}
use distributed_llama.Cpu.Serves.{create_segment_ok}
use distributed_llama.Llm.{LlmHeader}
use distributed_llama.Llm.Parts.{LlmParts}
use distributed_llama.Llm.Buffers.{LlmBuffers}
use distributed_llama.Llm.Layers.{start_segment}
use distributed_llama.Llm.Network.{LlmNet, build_node_config, build_node_configs, build_llm_net}
use distributed_llama.Llm.Layout.{IsReady, IsSliced, HasPipes, HasBuffers, HasBlocks}
use distributed_llama.Llm.Segments.{IsMade, start-IsMade, end-IsMade}
use distributed_llama.Llm.RopeReady.{HasRoom, rope_cache_ok}
use distributed_llama.Llm.Supported.{dim_lt, IsSupported, kernels_of, blocks_of}
use distributed_llama.Llm.PartsReady.{device, IsPrepared, parts_ok}
use distributed_llama.Llm.BuffersReady.{node_with, buffers_ok}
use distributed_llama.Llm.LayersReady.{layers_ok, end_ok}

even_mul : (x k : ℕ) → x % 2 ≡ 0 → x * k % 2 ≡ 0
even_mul x k e = let same : x ≡ x / 2 * 2 = omega arith in omega (arith, ap (λ (y : ℕ). y * k) same)

rope_ok :
    (h : LlmHeader) (nodes i : ℕ)
    → IsSupported h nodes
    → (s : NnRopeSlice) × (slice_rope h.dim h.kv_dim h.n_kv_heads nodes h.seq_len h.head_size i
        ≡ ok s)
unfolding slice_rope size_2d get_bytes
rope_ok h nodes i good =
    rw
      (
        le→leb h.kv_dim h.dim good.kv_dim_le,
        (==_iff _ 0).1 good.dim_divides,
        (==_iff _ 0).1 good.kv_dim_divides,
        (==_iff _ 0).1 good.dim_pairs,
        (==_iff _ 0).1 good.kv_dim_pairs,
        (==_iff _ 0).1
            (slice_even (h.dim / nodes) (h.kv_dim / nodes) i good.dim_pairs good.kv_dim_pairs),
      )
      (_, refl)
  where
    le→leb : (a b : ℕ) → a ≤ b → leb a b ≡ true
    le→leb a b h = ground arith

    slice_even :
        (q k i : ℕ)
        → q % 2 ≡ 0
        → k % 2 ≡ 0
        → ((q * i % 2 ^ 32 + q) % 2 ^ 32 + 2 ^ 32 - k * i % 2 ^ 32) % 2 ^ 32 % 2 ≡ 0
    slice_even q k i e e' = omega (arith, even_mul q i e, even_mul k i e')

-- A segment without operations asks nothing of the device.
abbrev pub MakesAll : NnCpuDevice → List NnSegmentConfig → Type 0
MakesAll d segments = All (λ s. 0 < length s.ops → IsMade d s) segments

All-at {ℓ κ} :
    {A : Type ℓ} (P : A → Type κ) (xs : List A) (i : ℕ) {x : A}
    → All P xs
    → get_elem? xs i ≡ some x
    → P x
All-at P [] i h e = cc
All-at P (x ∷ xs) zero (p, h) e = subst P (cc) p
All-at P (x ∷ xs) (suc i) (p, h) e = All-at P xs i h e

-- A node whose segments, two for each layer and two more, the device makes.
pub record NodeRuns (h : LlmHeader) (n : LlmParts) (node : NnNodeConfig) : Type 0 where
  pub segments : length node.segments ≡ 2 * h.n_layers + 2
  pub runs : HasRoom h → (flags : List ℕ) → MakesAll (device n node flags) node.segments

-- The nodes have these numbers, and the segments of the start, of the layers and of the end.
abbrev pub AreNumbered : LlmHeader → ℕ → List NnNodeConfig → Type 0
AreNumbered h i [] = Unit
AreNumbered h i (node ∷ rest) =
    (node.node_index ≡ i)
    × ((length node.segments ≡ 2 * h.n_layers + 2) × AreNumbered h (i + 1) rest)

module _ (padding : ℕ) (h : LlmHeader) (nodes batches : ℕ) (n : LlmParts)
    (good : IsSupported h nodes) (prepared : IsPrepared h nodes batches n) (slots : 0 < h.slots)
    (few : batches < 256) (layers : 14 + 2 * h.n_layers < 2 ^ 32) where
  device-IsReady :
      (node : NnNodeConfig) (b : LlmBuffers) (flags : List ℕ)
      → HasBuffers (device n node flags) h n b nodes
      → IsReady (device n node flags) h n b
  device-IsReady node b flags buffers = record {
    slots = rw prepared.slots_is slots;
    few = rw prepared.batches_is few;
    kernels = kernels_of good.formats;
    sliced = subst (IsSliced h n) (sym prepared.nodes_is) prepared.sliced;
    pipes =
        subst (HasPipes (device n node flags) h n) (sym prepared.nodes_is)
          (prepared.pipes node flags);
    buffers = subst (HasBuffers (device n node flags) h n b) (sym prepared.nodes_is) buffers;
    blocks =
        subst (λ k. HasBlocks h n.net_config.n_nodes k) (sym prepared.batches_is)
          (subst (λ k. HasBlocks h k batches) (sym prepared.nodes_is)
            (blocks_of h nodes good batches));
  }

  start_ops :
      (i : ℕ) (d : NnCpuDevice) (b : LlmBuffers)
      → IsReady d h n b
      → 0 < length (start_segment padding h n i).ops
      → IsMade d (start_segment padding h n i)
  unfolding start_segment add_sync build_segment
  start_ops zero d b ready some_ops = start-IsMade d h n b ready padding
  start_ops (suc i) d b ready some_ops =
      let later : (suc i == 0) ≡ false = ground arith in
      absurd (omega (arith, rw later at some_ops))

  node_ok :
      (i : ℕ)
      → i < nodes
      → (node : NnNodeConfig) × (build_node_config padding h n nodes batches i ≡ ok node)
        × (node.node_index ≡ i)
        × NodeRuns h n node
  unfolding build_node_config build_node add_segment
  node_ok i within =
      let (rope, er) = rope_ok h nodes i good in
      let (r, eb, laid) = buffers_ok h nodes batches n good prepared rope i in
      let start = start_segment padding h n i in
      let s1 : NnNodeConfigBuilder = record {
        node_index = r.1.node_index;
        buffers = r.1.buffers;
        segments = r.1.segments ++ (start ∷ []);
      } in
      let (s', el, l) =
        layers_ok padding h nodes n r.0 good prepared.sliced rope h.n_layers 0 s1
          (omega (arith, laid.few)) in
      let (end, ee) = end_ok padding h nodes n r.0 good prepared.sliced in
      let node : NnNodeConfig = record {
        node_index = s'.node_index;
        buffers = s'.buffers;
        segments = s'.segments ++ (end ∷ []);
      } in
      let two_each : length node.segments ≡ 2 * h.n_layers + 2 = omega (
        arith,
        length-append s'.segments (end ∷ []),
        ap (length {A = NnSegmentConfig}) l.segments_are,
        length-append s1.segments l.segs,
        length-append r.1.segments (start ∷ []),
        ap (length {A = NnSegmentConfig}) laid.no_segments,
        l.count,
      ) in
      let buffers_fit : length node.buffers < 2 ^ 32 = omega (
        arith,
        ap (length {A = NnBufferConfig}) l.buffers_are,
        length-append s1.buffers l.more,
        l.few_buffers,
        laid.few,
        layers,
      ) in
      let some_segments : 0 < length node.segments % 2 ^ 32 = omega (arith, two_each, layers) in
      let segments_fit : length node.segments < 2 ^ 32 = omega (arith, two_each, layers) in
      (
        node,
        rw
            (
              er,
              eb,
              el,
              ee,
              lt→ltb _ _ buffers_fit,
              lt→ltb _ _ some_segments,
              lt→ltb _ _ segments_fit,
            )
            refl,
        l.index_is ∙ laid.index_is,
        record {
          segments = two_each;
          runs = λ room flags.
              let d = device n node flags in
              let same : node_with r.1 l.more node.segments ≡ node =
                ap₂ (λ k bs. record { node_index = k; buffers = bs; segments = node.segments })
                  (sym l.index_is) (sym l.buffers_are) in
              let ready = device-IsReady node r.0 flags (
                subst (λ c. HasBuffers (device n c flags) h n r.0 nodes) same
                  (laid.buffers l.more node.segments flags)) in
              let has : HasRope d h r.0.rope_cache_buffer_index rope = record {
                floats = room.floats;
                has_cache = rope_cache_ok h nodes i rope (dim_lt h nodes good) within room er;
                source =
                    subst
                      (λ c.
                        source_size (device n c flags) src_buffer r.0.rope_cache_buffer_index
                        ≡ ok rope.cache_size)
                      same (laid.rope_source l.more node.segments flags);
              } in
              let makes =
                λ (c : NnSegmentConfig) (m : IsMade d c) (some_ops : 0 < length c.ops). m in
              let before : s'.segments ≡ start ∷ l.segs =
                l.segments_are ∙ ap (λ xs. (xs ++ (start ∷ [])) ++ l.segs) laid.no_segments in
              All-append (λ c. 0 < length c.ops → IsMade d c) s'.segments (end ∷ [])
                (subst (All (λ c. 0 < length c.ops → IsMade d c)) (sym before) (
                  start_ops i d r.0 ready,
                  All-weaken (IsMade d) _ makes l.segs (l.made d [] ready has (sym (append-nil _))),
                ))
                (makes end (end-IsMade d h n r.0 ready padding end ee), tt);
        },
      )

  nodes_ok :
      (k i : ℕ)
      → i + k ≤ nodes
      → (configs : List NnNodeConfig) × (build_node_configs padding h n nodes batches k i
          ≡ ok configs)
        × (length configs ≡ k)
        × AreNumbered h i configs
        × All (NodeRuns h n) configs
  unfolding build_node_configs
  nodes_ok zero i le = ([], refl, refl, tt, tt)
  nodes_ok (suc k) i le =
      let (node, e, index, runs) = node_ok i (omega arith) in
      let (rest, er, len, numbered, all) = nodes_ok k (i + 1) (omega arith) in
      (node ∷ rest, rw (e, er) refl, ap suc len, (index, (runs.segments, numbered)), (runs, all))

module _ (padding : ℕ) (h : LlmHeader) (nodes batches : ℕ) where
  net_ok :
      IsSupported h nodes
      → 0 < h.slots
      → batches < 256
      → 14 + 2 * h.n_layers < 2 ^ 32
      → (net : LlmNet) × (build_llm_net padding h nodes batches ≡ ok net)
        × IsPrepared h nodes batches net.parts
        × (length net.node_configs ≡ nodes)
        × AreNumbered h 0 net.node_configs
        × All (NodeRuns h net.parts) net.node_configs
  unfolding build_llm_net
  net_ok good slots few layers =
      let (n, e, prepared) = parts_ok h nodes batches good in
      let (configs, ec, len, numbered, all) =
        nodes_ok padding h nodes batches n good prepared slots few layers nodes 0 (omega arith) in
      (
        record { header = h; parts = n; node_configs = configs },
        rw (e, ec) refl,
        prepared,
        len,
        numbered,
        all,
      )

  -- For a supported model (as the checks of its network ask: formats that have kernels, dimensions
  -- that the nodes divide into whole blocks and pairs), a slot at least, fewer than 256 batches and
  -- buffers that 32 bits can number, the network is built: its configuration has the numbers of
  -- nodes, batches and slots that were asked for, and there is a configuration for each node, in
  -- the order of their numbers, with two segments for each layer and two more.
  pub build_llm_net_ok :
      IsSupported h nodes
      → 0 < h.slots
      → batches < 256
      → 14 + 2 * h.n_layers < 2 ^ 32
      → (net : LlmNet) × (build_llm_net padding h nodes batches ≡ ok net)
        × (net.parts.net_config.n_nodes ≡ nodes)
        × (net.parts.net_config.n_batches ≡ batches)
        × (net.parts.net_config.n_slots ≡ h.slots)
        × (length net.node_configs ≡ nodes)
        × AreNumbered h 0 net.node_configs
  build_llm_net_ok good slots few layers =
      let (net, built, p, len, numbered, all) = net_ok good slots few layers in
      (net, built, p.nodes_is, p.batches_is, p.slots_is, len, numbered)

  -- In the network that is built for a supported model (weights and synchronization in F32, or in
  -- Q40 and Q80; dimensions that the nodes divide into whole blocks and pairs), with a slot at
  -- least, fewer than 256 batches, buffers that 32 bits can number, heads of a size that is not
  -- zero, floats of four bytes in the header, and fewer than 2 ^ 32 positions times dimensions,
  -- createSegment succeeds on the CPU device of every node for every segment that has operations,
  -- whatever the flags of the buffers are: the init functions find what they assert, and the caches
  -- of the rotary embedding are filled within their buffers.
  pub build_llm_net-create_segment :
      (net : LlmNet) (node : NnNodeConfig) (s : NnSegmentConfig) (flags : List ℕ) (k i : ℕ)
      → IsSupported h nodes
      → HasRoom h
      → 0 < h.slots
      → batches < 256
      → 14 + 2 * h.n_layers < 2 ^ 32
      → build_llm_net padding h nodes batches ≡ ok net
      → get_elem? net.node_configs k ≡ some node
      → get_elem? node.segments i ≡ some s
      → 0 < length s.ops
      → length flags ≡ length node.buffers
      → (made : NnCpuDeviceSegment × NnCpuDevice) × (create_segment (device net.parts node flags) i
          ≡ ok made)
  build_llm_net-create_segment net node s flags k i good room slots few layers built at_k at_i
        some_ops len =
      let (net', built', _, _, _, all) = net_ok good slots few layers in
      let same : net' ≡ net = cc (built, built') in
      let runs =
        All-at (NodeRuns h net.parts) net.node_configs k
          (subst (λ (m : LlmNet). All (NodeRuns h m.parts) m.node_configs) same all) at_k in
      let made =
        All-at (λ c. 0 < length c.ops → IsMade (device net.parts node flags) c) node.segments i
          (runs.runs room flags) at_i some_ops in
      create_segment_ok (device net.parts node flags) i at_i some_ops len made.ops made.cache_syncs
