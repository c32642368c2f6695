-- ===== src/Executor/Steps.antt =====
-- The steps that the constructor of NnExecutor lists (src/nn/nn-executor.cpp).
use distributed_llama.Base.{
  ℕ, zero, suc, ◌+◌, ◌≡◌, refl, ap, ap₂, sym, ◌∙◌, arith, Bool, true, false, ◌&&◌, ◌||◌, List, [],
  ◌∷◌, ◌++◌, length, ltb, Result, ok, >>=-eq-ok,
}
use distributed_llama.Core.Config.{NnSegmentConfig}
use distributed_llama.Executor.{
  NnExecutor, NnExecutorDevice, NnExecutorStep, step_sync_cache_load, step_sync_cache_save,
  step_sync_nodes, step_execute_op, op_steps, work_steps, sync_steps, has_work, segment_steps,
  segment_on, find_device, build_segments,
}

-- The operations among the steps, each as its segment and its number.
abbrev pub ops_in : List NnExecutorStep → List (ℕ × ℕ)
ops_in [] = []
ops_in (step_execute_op s o ∷ steps) = (s, o) ∷ ops_in steps
ops_in (step_sync_cache_load s ∷ steps) = ops_in steps
ops_in (step_sync_cache_save s ∷ steps) = ops_in steps
ops_in (step_sync_nodes s ∷ steps) = ops_in steps

-- `n` operations of a segment from the `i`th on.
abbrev pub ops_of : ℕ → ℕ → ℕ → List (ℕ × ℕ)
ops_of s zero i = []
ops_of s (suc n) i = (s, i) ∷ ops_of s n (i + 1)

-- All operations of all segments, in order.
abbrev pub all_ops : ℕ → List NnSegmentConfig → List (ℕ × ℕ)
all_ops i [] = []
all_ops i (s ∷ rest) = ops_of i (length s.ops) 0 ++ all_ops (i + 1) rest

ops_in-append : (xs ys : List NnExecutorStep) → ops_in (xs ++ ys) ≡ ops_in xs ++ ops_in ys
ops_in-append [] ys = refl
ops_in-append (step_execute_op s o ∷ xs) ys = ap (◌∷◌ (s, o)) (ops_in-append xs ys)
ops_in-append (step_sync_cache_load s ∷ xs) ys = ops_in-append xs ys
ops_in-append (step_sync_cache_save s ∷ xs) ys = ops_in-append xs ys
ops_in-append (step_sync_nodes s ∷ xs) ys = ops_in-append xs ys

append_nil {ℓ} : {A : Type ℓ} (xs : List A) → xs ++ [] ≡ xs
append_nil [] = refl
append_nil (x ∷ xs) = ap (◌∷◌ x) (append_nil xs)

ops_in-op_steps : (s n i : ℕ) → ops_in (op_steps s n i) ≡ ops_of s n i
unfolding op_steps
ops_in-op_steps s zero i = refl
ops_in-op_steps s (suc n) i = ap (◌∷◌ (s, i)) (ops_in-op_steps s n (i + 1))

ops_in-work_steps :
    (work cached : Bool) (i n : ℕ)
    → (work ≡ false → n ≡ 0)
    → ops_in (work_steps work cached i n) ≡ ops_of i n 0
ops_in-work_steps false cached i n h = ap (λ n. ops_of i n 0) (sym (h refl))
ops_in-work_steps true false i n h = ops_in-op_steps i n 0
ops_in-work_steps true true i n h =
    ops_in-append (op_steps i n 0) (step_sync_cache_save i ∷ [])
    ∙ append_nil (ops_in (op_steps i n 0))
    ∙ ops_in-op_steps i n 0

ops_in-sync_steps : (b : Bool) (i : ℕ) → ops_in (sync_steps b i) ≡ []
ops_in-sync_steps true i = refl
ops_in-sync_steps false i = refl

no_ops : (n c : ℕ) → (ltb 0 n || ltb 0 c) ≡ false → n ≡ 0
no_ops n c h = ground arith

ops_in-segment :
    (u : Bool) (i : ℕ) (s : NnSegmentConfig)
    → ops_in (segment_steps u i s) ≡ ops_of i (length s.ops) 0
unfolding segment_steps
ops_in-segment u i s =
    ops_in-append (work_steps (has_work s) (ltb 0 (length s.cache_syncs)) i (length s.ops))
      (sync_steps (u && ltb 0 (length s.syncs)) i)
    ∙ ap₂ ◌++◌
        (ops_in-work_steps (has_work s) (ltb 0 (length s.cache_syncs)) i (length s.ops)
          (no_ops (length s.ops) (length s.cache_syncs)))
        (ops_in-sync_steps (u && ltb 0 (length s.syncs)) i)
    ∙ append_nil (ops_of i (length s.ops) 0)

ok-injective {ℓ} : {A : Type ℓ} {a b : A} → ok a ≡ ok b → a ≡ b
ok-injective e = cc

module _ {Segment : Type 0} (create_segment : ℕ → ℕ → Result Segment) where
  -- An executor that is made runs every operation of every segment once, in the order of the
  -- configuration.
  pub build_segments-ops :
      (devices : List NnExecutorDevice) (u : Bool) (i : ℕ) (configs : List NnSegmentConfig)
      (e : NnExecutor Segment)
      → build_segments create_segment devices u i configs ≡ ok e
      → ops_in e.steps ≡ all_ops i configs
  unfolding build_segments
  build_segments-ops devices u i [] e h =
      ap (λ (e : NnExecutor Segment). ops_in e.steps) (sym (ok-injective h))
  build_segments-ops devices u i (s ∷ rest) e h =
      let (segment, _, h') =
        >>=-eq-ok (segment_on create_segment i s (find_device devices i 0)) _ h in
      let (others, run, last) =
        >>=-eq-ok (build_segments create_segment devices u (i + 1) rest) _ h' in
      let same : segment_steps u i s ++ others.steps ≡ e.steps =
        ap (λ (e : NnExecutor Segment). e.steps) (ok-injective last) in
      ap ops_in (sym same)
      ∙ ops_in-append (segment_steps u i s) others.steps
      ∙ ap₂ ◌++◌ (ops_in-segment u i s) (build_segments-ops devices u (i + 1) rest others run)
