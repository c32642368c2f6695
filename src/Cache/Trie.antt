-- ===== src/Cache/Trie.antt =====
-- The map of byte strings that the manager keeps its entries in: src/nn/tsl, a library that the program
-- brings along. `find_ks`, `insert_ks`, `erase` and `equal_longest_prefix_range_ks` are taken as
-- operations with the behaviour that they document.
use distributed_llama.Base.{ℕ, ◌≤◌, ◌≡◌, ◌≢◌, List, Option, none, some, length, take}

pub data NnCacheDstType : Type 0 where
  cache_miss cache_db cache_device_slot : NnCacheDstType

pub record NnCacheDst : Type 0 where
  pub type : NnCacheDstType
  pub slot : ℕ
  pub id : ℕ
  pub prefix_len : ℕ
  pub match_len : ℕ

pub record Trie : Type 1 where
  pub Map : Type 0
  pub empty : Map
  pub find : Map → List ℕ → Option NnCacheDst
  pub insert : Map → List ℕ → NnCacheDst → Map
  pub erase : Map → List ℕ → Map
  -- The first entry under the longest prefix of the key that any entry has, and its length.
  pub longest : Map → List ℕ → Option NnCacheDst × ℕ
  pub find-empty : (k : List ℕ) → find empty k ≡ none
  -- An insertion under a key that is present changes nothing.
  pub find-insert_new :
      (m : Map) (k : List ℕ) (d : NnCacheDst) → find m k ≡ none → find (insert m k d) k ≡ some d
  pub find-insert_old :
      (m : Map) (k : List ℕ) (d e : NnCacheDst) → find m k ≡ some e → find (insert m k d) k ≡ some e
  pub find-insert_ne :
      (m : Map) (k j : List ℕ) (d : NnCacheDst) → k ≢ j → find (insert m k d) j ≡ find m j
  pub find-erase_self : (m : Map) (k : List ℕ) → find (erase m k) k ≡ none
  pub find-erase_ne : (m : Map) (k j : List ℕ) → k ≢ j → find (erase m k) j ≡ find m j
  pub longest-found :
      (m : Map) (key : List ℕ) {d : NnCacheDst} {n : ℕ}
      → longest m key ≡ (some d, n)
      → (k : List ℕ) × (find m k ≡ some d)
        × (n ≤ length k)
        × (n ≤ length key)
        × (take n k ≡ take n key)
  pub longest-none :
      (m : Map) (key : List ℕ) {n : ℕ} → longest m key ≡ (none, n) → (k : List ℕ) → find m k ≡ none
  pub longest-le :
      (m : Map) (key : List ℕ) {r : Option NnCacheDst} {n : ℕ}
      → longest m key ≡ (r, n)
      → (k : List ℕ) (d : NnCacheDst) (j : ℕ) → find m k ≡ some d
      → j ≤ length k
      → j ≤ length key
      → take j k ≡ take j key
      → j ≤ n
