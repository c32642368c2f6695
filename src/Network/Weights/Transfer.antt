-- ===== src/Network/Weights/Transfer.antt =====
-- The weights that a worker takes from the root (src/nn/nn-network.cpp).
use distributed_llama.Base.{
  ℕ, zero, suc, ◌+◌, ◌^◌, ◌≤◌, ◌<◌, ◌≡◌, refl, ap, ◌∙◌, arith, true, List, [], ◌∷◌, ◌++◌, none,
  some, length, append_assoc, leb, Result, ok, err,
}
use distributed_llama.Cache.Tokens.{All}
use distributed_llama.Network.Stream.{
  Reads, Reads-then, Reads-last, Reads-end, Reads-pure, read-Reads, read_number-Reads,
}
use distributed_llama.Base.Strings.{strlen}
use distributed_llama.Network.Wire.{u32, u64, IsCString}
use distributed_llama.Base.{take_all}
use distributed_llama.Network.Config.{Socket, ack}
use distributed_llama.Network.Config.RoundTrip.{receive-Reads}
use distributed_llama.Network.Weights.{
  Weight, weight_bytes, allocate, read_into, read_named, read_weight, take_weight, after_load,
  read_weights,
}

-- A weight whose size an NnUint can hold.
abbrev pub FitsWeight : Weight → Type 0
FitsWeight w =
    IsCString w.name × (w.index < 256 ^ 4) × (w.n_bytes < 2 ^ 32) × (length w.bytes ≡ w.n_bytes)

allocate-enough : (t n : ℕ) → n < 2 ^ 32 → n ≤ allocate t n
allocate-enough t n h = ground arith

fits : (n t : ℕ) → n ≤ t → leb n t ≡ true
fits n t h = ground arith

read_into-Reads : (t n : ℕ) (xs : List ℕ) → length xs ≡ n → n ≤ t → Reads (read_into t n) xs xs
unfolding read_into
read_into-Reads t n xs e le = record {
  run = λ rest. rw (fits n t le) ((read-Reads n xs e).run rest);
}

read_named-Reads :
    (t m : ℕ) (w : Weight)
    → length w.name ≡ m
    → 0 < m
    → FitsWeight w
    → Reads
        (read_named t m)
        (w.name ++ (u32 w.index ++ (u64 w.n_bytes ++ w.bytes)))
        (some (w, allocate t w.n_bytes))
unfolding read_named
read_named-Reads t zero w e lt h = absurd (omega arith)
read_named-Reads t (suc m) w e lt (_, index, small, size) =
    Reads-then _ (read-Reads (suc m) w.name e) (
      Reads-then _ (read_number-Reads 4 w.index index) (
        Reads-then _ (read_number-Reads 8 w.n_bytes (omega arith)) (
          Reads-last _ (
            read_into-Reads (allocate t w.n_bytes) w.n_bytes w.bytes size
              (allocate-enough t w.n_bytes small)))))

read_weight-Reads :
    (t : ℕ) (w : Weight)
    → FitsWeight w
    → Reads (read_weight t) (weight_bytes w) (some (w, allocate t w.n_bytes))
unfolding read_weight weight_bytes
read_weight-Reads t w fits =
    let ((str, lt), _, _, size) = fits in
    Reads-then _ (read_number-Reads 4 _ (omega arith)) (
      whole (take_all _ w.name str) (take_all _ w.bytes size)
        (read_named-Reads t (strlen w.name + 1) w str (omega arith) fits))
  where
    whole :
        {name bytes : List ℕ}
        → name ≡ w.name
        → bytes ≡ w.bytes
        → Reads
            (read_named t (strlen w.name + 1))
            (w.name ++ (u32 w.index ++ (u64 w.n_bytes ++ w.bytes)))
            (some (w, allocate t w.n_bytes))
        → Reads
            (read_named t (strlen w.name + 1))
            (name ++ (u32 w.index ++ (u64 w.n_bytes ++ bytes)))
            (some (w, allocate t w.n_bytes))
    whole p q r = rw (p, q) r

read_end-Reads : (t : ℕ) → Reads (read_weight t) (u32 0) none
unfolding read_weight read_named
read_end-Reads t = Reads-end _ (read_number-Reads 4 0 (omega arith)) (Reads-pure none)

-- What is sent for weights, and for the end.
abbrev pub weights_bytes : List Weight → List ℕ
weights_bytes [] = u32 0
weights_bytes (w ∷ ws) = weight_bytes w ++ weights_bytes ws

ok-injective {ℓ} : {A : Type ℓ} {a b : A} → ok a ≡ ok b → a ≡ b
ok-injective e = cc

module _ {Executor : Type 0} (load_weight : Weight → Executor → Result Executor) where
  -- The executor after the weights, one after the other.
  abbrev pub then_load : (Executor → Result Executor) → Result Executor → Result Executor
  then_load next (ok e) = next e
  then_load next (err f) = err f

  abbrev pub load_in_order : List Weight → Executor → Result Executor
  load_in_order [] e = ok e
  load_in_order (w ∷ ws) e = then_load (load_in_order ws) (load_weight w e)

  -- The worker that is sent weights of fewer than 2 ^ 32 bytes each, and then the end, gives them
  -- to its executor in the order in which they were written, takes no byte more or less, and
  -- acknowledges, if the executor takes each of them; the loop turns once for each weight and once
  -- for the end.
  pub read_weights-load :
      (ws : List Weight) (e e' : Executor) (t fuel : ℕ) (s : Socket) (rest : List ℕ)
      → All FitsWeight ws
      → length ws < fuel
      → s.incoming ≡ weights_bytes ws ++ rest
      → load_in_order ws e ≡ ok e'
      → read_weights load_weight fuel e t s
        ≡ some (ok (e', record { incoming = rest; sent = s.sent ++ u32 ack }))
  unfolding read_weights
  read_weights-load ws e e' t zero s rest h lt same loaded = absurd (omega arith)
  read_weights-load [] e e' t (suc fuel) s rest h lt same loaded =
      ap (take_weight load_weight (read_weights load_weight fuel) e)
        (receive-Reads (read_weight t) (u32 0) rest none s (read_end-Reads t) same)
      ∙ ap (λ e. some (ok (e, record { incoming = rest; sent = s.sent ++ u32 ack })))
          (ok-injective loaded)
  read_weights-load (w ∷ ws) e e' t (suc fuel) s rest (h, hs) lt same loaded =
      ap (take_weight load_weight (read_weights load_weight fuel) e) (
        receive-Reads (read_weight t) (weight_bytes w) (weights_bytes ws ++ rest) _ s
          (read_weight-Reads t w h) (same ∙ append_assoc (weight_bytes w) (weights_bytes ws) rest))
      ∙ after (load_weight w e) loaded (λ x l.
        read_weights-load ws x e' (allocate t w.n_bytes) fuel s' rest hs (omega arith) refl l)
    where
      s' : Socket
      s' = record s { incoming = weights_bytes ws ++ rest }

      after :
          (r : Result Executor)
          → then_load (load_in_order ws) r ≡ ok e'
          → ((x : Executor)
              → load_in_order ws x ≡ ok e'
              → read_weights load_weight fuel x (allocate t w.n_bytes) s'
                ≡ some (ok (e', record { incoming = rest; sent = s.sent ++ u32 ack })))
          → after_load load_weight (read_weights load_weight fuel) (allocate t w.n_bytes) s' r
            ≡ some (ok (e', record { incoming = rest; sent = s.sent ++ u32 ack }))
      after (err f) l next = cc
      after (ok x) l next = next x l
