-- ===== src/Core/Builder.antt =====
-- src/nn/nn-config-builder.hpp: the builders of a network, of a node and of a segment. Their lists
-- become the arrays of the configuration.
use distributed_llama.Base.{
  ℕ, ◌+◌, ◌%◌, ◌^◌, ◌<◌, ◌≡◌, refl, ap, sym, ◌∙◌, arith, List, [], ◌∷◌, ◌++◌, some, length,
  append_assoc, take, get_elem?, ltb, Result, ok, guard, ◌>>◌, assertion, memory, lt→ltb,
  length-append,
}
use distributed_llama.Base.Strings.{strlen}
use distributed_llama.Core.Sizes.{NnSize2D}
use distributed_llama.Core.Pointers.{NnPointerConfig}
use distributed_llama.Core.Config.{
  NnOpCode, NnSyncType, NnCacheSyncType, NnPipeConfig, NnBufferConfig, NnOpConfig, NnPreSyncConfig,
  NnSyncConfig, NnCacheSyncConfig, NnSegmentConfig, NnNetConfig, NnNodeConfig,
}

unfoldable pub clone_string : List ℕ → List ℕ
clone_string str = take (strlen str + 1) str

pub record NnNetConfigBuilder : Type 0 where
  pub n_nodes : ℕ
  pub n_batches : ℕ
  pub pipes : List NnPipeConfig
  pub pre_syncs : List NnPreSyncConfig

unfoldable pub new_net_builder : ℕ → ℕ → NnNetConfigBuilder
new_net_builder n_nodes n_batches = record {
  n_nodes = n_nodes;
  n_batches = n_batches;
  pipes = [];
  pre_syncs = [];
}

-- The index of the new pipe, and the builder with it.
unfoldable pub add_pipe : List ℕ → NnSize2D → NnNetConfigBuilder → ℕ × NnNetConfigBuilder
add_pipe name size b = (
  length b.pipes % 2 ^ 32,
  record b { pipes = b.pipes ++ (record { name = clone_string name; size = size } ∷ []) },
)

unfoldable pub add_pre_sync : ℕ → NnNetConfigBuilder → NnNetConfigBuilder
add_pre_sync pipe_index b = record b {
  pre_syncs = b.pre_syncs ++ (record { pipe_index = pipe_index } ∷ []);
}

-- The arrays are made for a number of 32 bits, and all elements are copied into them.
unfoldable pub build_net : NnNetConfigBuilder → Result NnNetConfig
build_net b = do
  guard (ltb (length b.pipes) (2 ^ 32)) memory
  guard (ltb (length b.pre_syncs) (2 ^ 32)) memory
  ok (record {
    n_batches = b.n_batches;
    n_nodes = b.n_nodes;
    pipes = b.pipes;
    pre_syncs = b.pre_syncs;
    n_slots = 1;
  })

pub record NnNodeConfigBuilder : Type 0 where
  pub node_index : ℕ
  pub buffers : List NnBufferConfig
  pub segments : List NnSegmentConfig

unfoldable pub new_node_builder : ℕ → NnNodeConfigBuilder
new_node_builder node_index = record { node_index = node_index; buffers = []; segments = [] }

unfoldable pub add_buffer : List ℕ → NnSize2D → NnNodeConfigBuilder → ℕ × NnNodeConfigBuilder
add_buffer name size b = (
  length b.buffers % 2 ^ 32,
  record b { buffers = b.buffers ++ (record { name = clone_string name; size = size } ∷ []) },
)

unfoldable pub add_segment : NnSegmentConfig → NnNodeConfigBuilder → NnNodeConfigBuilder
add_segment segment b = record b { segments = b.segments ++ (segment ∷ []) }

unfoldable pub build_node : NnNodeConfigBuilder → Result NnNodeConfig
build_node b = do
  guard (ltb (length b.buffers) (2 ^ 32)) memory
  guard (ltb 0 (length b.segments % 2 ^ 32)) assertion
  guard (ltb (length b.segments) (2 ^ 32)) memory
  ok (record { node_index = b.node_index; buffers = b.buffers; segments = b.segments })

pub record NnSegmentConfigBuilder : Type 0 where
  pub ops : List NnOpConfig
  pub syncs : List NnSyncConfig
  pub cache_syncs : List NnCacheSyncConfig

-- `config` is the bytes of the operation's own configuration.
unfoldable pub add_op :
    NnOpCode
    → List ℕ
    → ℕ
    → NnPointerConfig
    → NnPointerConfig
    → NnSize2D
    → List ℕ
    → NnSegmentConfigBuilder
    → NnSegmentConfigBuilder
add_op code name index input output weight_size config b =
    let op : NnOpConfig = record {
      code = code;
      name = clone_string name;
      index = index;
      input = input;
      output = output;
      weight_size = weight_size;
      config = config;
    } in
    record b { ops = b.ops ++ (op ∷ []) }

unfoldable pub add_sync : ℕ → NnSyncType → NnSegmentConfigBuilder → NnSegmentConfigBuilder
add_sync pipe_index sync_type b = record b {
  syncs = b.syncs ++ (record { pipe_index = pipe_index; sync_type = sync_type } ∷ []);
}

unfoldable pub add_cache_sync :
    ℕ → NnCacheSyncType → NnSegmentConfigBuilder → NnSegmentConfigBuilder
add_cache_sync buffer_index cache_sync_type b = record b {
  cache_syncs =
      b.cache_syncs
      ++ (record { buffer_index = buffer_index; cache_sync_type = cache_sync_type } ∷ []);
}

unfoldable pub build_segment : NnSegmentConfigBuilder → NnSegmentConfig
build_segment b = record { ops = b.ops; syncs = b.syncs; cache_syncs = b.cache_syncs }

pub get_elem?-append {ℓ} :
    {A : Type ℓ} (xs ys : List A) (x : A) → get_elem? (xs ++ (x ∷ ys)) (length xs) ≡ some x
get_elem?-append [] ys x = refl
get_elem?-append (y ∷ xs) ys x = get_elem?-append xs ys x

-- The pipes, and the buffers, that a list of calls adds.
abbrev pub add_pipes : List (List ℕ × NnSize2D) → NnNetConfigBuilder → NnNetConfigBuilder
add_pipes [] b = b
add_pipes ((name, size) ∷ rest) b = add_pipes rest (add_pipe name size b).1

-- A builder to which a pipe and then others have been added.
abbrev pub with_pipe :
    List ℕ → NnSize2D → List (List ℕ × NnSize2D) → NnNetConfigBuilder → NnNetConfigBuilder
with_pipe name size later b = add_pipes later (add_pipe name size b).1

abbrev add_buffers : List (List ℕ × NnSize2D) → NnNodeConfigBuilder → NnNodeConfigBuilder
add_buffers [] b = b
add_buffers ((name, size) ∷ rest) b = add_buffers rest (add_buffer name size b).1

add_pipes-keep :
    (later : List (List ℕ × NnSize2D)) (b : NnNetConfigBuilder)
    → (more : List NnPipeConfig) × ((add_pipes later b).pipes ≡ b.pipes ++ more)
unfolding add_pipe
add_pipes-keep [] b = ([], sym (append_nil b.pipes))
  where
    append_nil : (xs : List NnPipeConfig) → xs ++ [] ≡ xs
    append_nil [] = refl
    append_nil (x ∷ xs) = ap (◌∷◌ x) (append_nil xs)
add_pipes-keep ((name, size) ∷ rest) b =
    let (more, same) = add_pipes-keep rest (add_pipe name size b).1 in
    (_, same ∙ append_assoc b.pipes _ more)

add_buffers-keep :
    (later : List (List ℕ × NnSize2D)) (b : NnNodeConfigBuilder)
    → (more : List NnBufferConfig) × ((add_buffers later b).buffers ≡ b.buffers ++ more)
unfolding add_buffer
add_buffers-keep [] b = ([], sym (append_nil b.buffers))
  where
    append_nil : (xs : List NnBufferConfig) → xs ++ [] ≡ xs
    append_nil [] = refl
    append_nil (x ∷ xs) = ap (◌∷◌ x) (append_nil xs)
add_buffers-keep ((name, size) ∷ rest) b =
    let (more, same) = add_buffers-keep rest (add_buffer name size b).1 in
    (_, same ∙ append_assoc b.buffers _ more)

-- If at the end there are fewer than 2 ^ 32 pipes and fewer than 2 ^ 32 pre-syncs, the network is
-- built, and the index that the builder handed out for a pipe names that pipe in it, whatever pipes
-- were added later.
pub add_pipe-build :
    (name : List ℕ) (size : NnSize2D) (b : NnNetConfigBuilder) (later : List (List ℕ × NnSize2D))
    → length (with_pipe name size later b).pipes < 2 ^ 32
    → length (with_pipe name size later b).pre_syncs < 2 ^ 32
    → (config : NnNetConfig) × (build_net (with_pipe name size later b) ≡ ok config)
      × (get_elem? config.pipes (add_pipe name size b).0
          ≡ some (record { name = clone_string name; size = size }))
unfolding add_pipe build_net
add_pipe-build name size b later lt syncs =
    let new : NnPipeConfig = record { name = clone_string name; size = size } in
    let (more, same) = add_pipes-keep later (add_pipe name size b).1 in
    let all : (with_pipe name size later b).pipes ≡ b.pipes ++ (new ∷ more) =
      same ∙ append_assoc b.pipes (new ∷ []) more in
    let before : length b.pipes < 2 ^ 32 =
      omega (arith, lt, ap (length {A = NnPipeConfig}) all, length-append b.pipes (new ∷ more)) in
    let at_index =
      ap (get_elem? (with_pipe name size later b).pipes) (wraps (length b.pipes) before)
      ∙ ap (λ pipes. get_elem? pipes (length b.pipes)) all
      ∙ get_elem?-append b.pipes more new in
    let run : build_net (with_pipe name size later b) ≡ ok (built (with_pipe name size later b)) =
      rw (lt→ltb _ _ lt, lt→ltb _ _ syncs) refl in
    (built (with_pipe name size later b), run, at_index)
  where
    wraps : (n : ℕ) → n < 2 ^ 32 → n % 2 ^ 32 ≡ n
    wraps n lt = omega arith

    built : NnNetConfigBuilder → NnNetConfig
    built b = record {
      n_batches = b.n_batches;
      n_nodes = b.n_nodes;
      pipes = b.pipes;
      pre_syncs = b.pre_syncs;
      n_slots = 1;
    }

-- With fewer than 2 ^ 32 buffers, the index that the builder hands out for a buffer names that
-- buffer in the built node, whatever buffers are added later.
add_buffer-build :
    (name : List ℕ) (size : NnSize2D) (b : NnNodeConfigBuilder) (later : List (List ℕ × NnSize2D))
    (c : NnNodeConfig)
    → length b.buffers < 2 ^ 32
    → build_node (add_buffers later (add_buffer name size b).1) ≡ ok c
    → get_elem? c.buffers (add_buffer name size b).0
      ≡ some (record { name = clone_string name; size = size })
unfolding add_buffer build_node
add_buffer-build name size b later c lt e =
    let (more, same) = add_buffers-keep later (add_buffer name size b).1 in
    ap (get_elem? c.buffers) (wraps (length b.buffers) lt)
    ∙ ap (λ buffers. get_elem? buffers (length b.buffers))
        (sym (built (add_buffers later (add_buffer name size b).1) e)
          ∙ same
          ∙ append_assoc b.buffers _ more)
    ∙ get_elem?-append b.buffers more _
  where
    wraps : (n : ℕ) → n < 2 ^ 32 → n % 2 ^ 32 ≡ n
    wraps n lt = omega arith

    built : (d : NnNodeConfigBuilder) → build_node d ≡ ok c → d.buffers ≡ c.buffers
    built d h = ground (arith, h)
