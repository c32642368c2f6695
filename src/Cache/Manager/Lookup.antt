-- ===== src/Cache/Manager/Lookup.antt =====
-- NnPrefixCacheManager::lookup (src/nn/nn-cache.cpp), seen through the manager's invariant.
use distributed_llama.Base.{
  ℕ, zero, suc, ◌*◌, ◌/◌, ◌≤◌, ◌≡◌, refl, subst, ◌⊎◌, inl, inr, arith, List, [], ◌∷◌, Option, none,
  some, Bool-cases, ltb, length, take,
}
use distributed_llama.Cache.Tokens.{
  All, IsToken, bytes_of, length-bytes_of, take-bytes_of, bytes_of-take,
}
use distributed_llama.Cache.Trie.{Trie, NnCacheDst}
use distributed_llama.Cache.Manager.Entries.{Points}
use distributed_llama.Cache.Manager.Invariant.{Inv}
use distributed_llama.Cache.Manager.{
  NnPrefixCacheManager, lookup, found_dst, miss, nn_prefix_cache_min_len,
}

-- Where the tokens `p` share `n` tokens with the request.
abbrev pub Shares : ℕ → List ℕ → List ℕ → Type 0
Shares n p token = (n ≤ length p) × (n ≤ length token) × (take n p ≡ take n token)

-- Two arrays whose bytes agree on `b` bytes share `b / 4` tokens.
bytes-Shares :
    (b : ℕ) (p token : List ℕ)
    → All IsToken p
    → All IsToken token
    → b ≤ length (bytes_of p)
    → b ≤ length (bytes_of token)
    → take b (bytes_of p) ≡ take b (bytes_of token)
    → Shares (b / 4) p token
bytes-Shares b p token hp ht a c e = (
  omega (arith, length-bytes_of p),
  omega (arith, length-bytes_of token),
  take-bytes_of (b / 4) p token hp ht (omega arith) (omega arith)
      (shorter (4 * (b / 4)) b _ _ (omega arith) e),
)
  where
    shorter : (n m : ℕ) (xs ys : List ℕ) → n ≤ m → take m xs ≡ take m ys → take n xs ≡ take n ys
    shorter zero m xs ys le e = refl
    shorter (suc n) zero xs ys le e = absurd (omega arith)
    shorter (suc n) (suc m) [] [] le e = refl
    shorter (suc n) (suc m) [] (y ∷ ys) le e = cc
    shorter (suc n) (suc m) (x ∷ xs) [] le e = cc
    shorter (suc n) (suc m) (x ∷ xs) (y ∷ ys) le e = ground (arith, shorter n m xs ys (omega arith))

module _ (t : Trie) where
  open t use {Map, find, longest, longest-found, longest-none, longest-le}

  -- What lookup answers: a hit is an entry whose slot, or whose record, has at least the minimum
  -- number of tokens in common with the request.
  abbrev pub IsHit : NnPrefixCacheManager t → List ℕ → NnCacheDst → Type 0
  IsHit m token d =
      (p : List ℕ) × Points m.device_slots m.db_metas d.type d.slot d.id p
      × (d.prefix_len ≡ length p)
      × (nn_prefix_cache_min_len ≤ d.match_len)
      × Shares d.match_len p token

  found_dst-IsHit :
      (m : NnPrefixCacheManager t) (token : List ℕ) (o : Option NnCacheDst) (b : ℕ)
      → Inv t m
      → All IsToken token
      → longest m.trie (bytes_of token) ≡ (o, b)
      → (found_dst o (b / 4) ≡ miss) ⊎ IsHit m token (found_dst o (b / 4))
  found_dst-IsHit m token none b inv h e = inl refl
  found_dst-IsHit m token (some d) b inv h e =
      elim (Bool-cases (ltb (b / 4) nn_prefix_cache_min_len)) [
        | inl few ↦ rw few (inl refl)
        | inr enough ↦
            let (k, there, a, c, same) = longest-found m.trie (bytes_of token) e in
            let (p, _, hp, key, len, points) = inv k d there in
            rw enough (
              inr (
                p,
                points,
                len,
                ground arith,
                bytes-Shares b p token hp h (subst (λ k. b ≤ length k) key a) c
                    (subst (λ k. take b k ≡ take b (bytes_of token)) key same),
              ))
      ]

  -- Under the invariant a lookup either misses, or names a slot or a record whose tokens begin with
  -- at least the minimum number of tokens of the request, and says how many they share.
  pub lookup_lem :
      (m : NnPrefixCacheManager t) (token : List ℕ)
      → Inv t m
      → All IsToken token
      → (lookup t m token ≡ miss) ⊎ IsHit m token (lookup t m token)
  unfolding lookup
  lookup_lem m token inv h = found_dst-IsHit m token _ _ inv h refl

  longest-Shares :
      (m : NnPrefixCacheManager t) (token : List ℕ) (o : Option NnCacheDst) (b : ℕ) (d : NnCacheDst)
      (p : List ℕ) (n : ℕ)
      → All IsToken token
      → longest m.trie (bytes_of token) ≡ (o, b)
      → find m.trie (bytes_of p) ≡ some d
      → Shares n p token
      → nn_prefix_cache_min_len ≤ n
      → n ≤ (found_dst o (b / 4)).match_len
  longest-Shares m token none b d p n h e there shares enough =
      cc (longest-none m.trie (bytes_of token) e (bytes_of p))
  longest-Shares m token (some x) b d p n h e there (a, c, same) enough =
      let far : 4 * n ≤ b =
        longest-le m.trie (bytes_of token) e (bytes_of p) d (4 * n) there
          (omega (arith, length-bytes_of p)) (omega (arith, length-bytes_of token))
          (bytes_of-take n p token a c same) in
      ground arith

  -- If an entry of the trie shares the minimum number of tokens with the request or more, then the
  -- lookup says at least as many as it shares.
  pub lookup-longest :
      (m : NnPrefixCacheManager t) (token p : List ℕ) (d : NnCacheDst) (n : ℕ)
      → All IsToken token
      → find m.trie (bytes_of p) ≡ some d
      → Shares n p token
      → nn_prefix_cache_min_len ≤ n
      → n ≤ (lookup t m token).match_len
  unfolding lookup
  lookup-longest m token p d n h there shares enough =
      longest-Shares m token _ _ d p n h refl there shares enough
