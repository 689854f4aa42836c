-- ===== src/Executor/Slots.antt =====
-- The entries of the calls that were submitted to the executor of internal/infra/executor.go: each has
-- its result, or its goroutine runs.
use codefolio.Common.{
  ℕ, zero, suc, ◌<◌, List, [], ◌∷◌, ◌++◌, true, ◌≡◌, refl, ap, ◌∙◌, Option, none, some, length,
  get_elem?, arith, inl, inr, ◌+◌, is_some, ◌⊎◌, ◌≢◌, In, In-append, In-snoc,
}
use mathlib.Core.Path.{subst, ap₂}
use codefolio.Executor.Run.{ToolExecResult}
use codefolio.Executor.Collect.{
  PendingTool, complete, event_of, collect_results, Submission, Running, remove_at, results_from,
}

-- The entry of a call, with its result once it has one.
abbrev pub entry : Submission → Option ToolExecResult → PendingTool
entry s r = record {
  tool_id = s.id;
  tool_name = s.name;
  input = s.input;
  result = r;
  done = is_some r;
}

abbrev pub runs : ℕ → Submission → Running
runs n s = record { index = n; serial = n; call = s }

-- An element is the one at a place, or is left when that one is removed.
In-remove_at :
    {A : Type 0} (x y : A) (xs : List A) (k : ℕ)
    → get_elem? xs k ≡ some y
    → In x xs
    → (x ≡ y) ⊎ In x (remove_at xs k)
unfolding remove_at
In-remove_at x y [] k h i = absurd i
In-remove_at x y (z ∷ zs) zero h (inl e) = inl (e ∙ cc)
In-remove_at x y (z ∷ zs) zero h (inr i) = inr i
In-remove_at x y (z ∷ zs) (suc k) h (inl e) = inr (inl e)
In-remove_at x y (z ∷ zs) (suc k) h (inr i) = elim (In-remove_at x y zs k h i) [
  | inl e ↦ inl e
  | inr j ↦ inr (inr j)
]

module _ (exec : ℕ → Submission → ToolExecResult) where
  -- The entry of a call has its result, or the goroutine of the call runs.
  abbrev Slot : List Running → ℕ → Submission → PendingTool → Type 0
  Slot rs n s p = (p ≡ entry s (some (exec n s))) ⊎ (p ≡ entry s none) × In (runs n s) rs

  abbrev pub Slots : List Running → ℕ → List Submission → List PendingTool → Type 0
  Slots rs n [] [] = Unit {0}
  Slots rs n [] (p ∷ ps) = ⊥
  Slots rs n (s ∷ ss) [] = ⊥
  Slots rs n (s ∷ ss) (p ∷ ps) = Slot rs n s p × Slots rs (suc n) ss ps

  pub Slots-length :
      (rs : List Running) (n : ℕ) (ss : List Submission) (ps : List PendingTool)
      → Slots rs n ss ps
      → length ps ≡ length ss
  Slots-length rs n [] [] h = refl
  Slots-length rs n [] (p ∷ ps) h = absurd h
  Slots-length rs n (s ∷ ss) [] h = absurd h
  Slots-length rs n (s ∷ ss) (p ∷ ps) h = ap suc (Slots-length rs (suc n) ss ps h.1)

  -- One more call.
  pub Slots-submit :
      (rs : List Running) (n : ℕ) (ss : List Submission) (ps : List PendingTool) (s : Submission)
      → Slots rs n ss ps
      → Slots (rs ++ runs (n + length ss) s ∷ []) n (ss ++ s ∷ []) (ps ++ entry s none ∷ [])
  Slots-submit rs n [] [] s h =
      let zeros : n ≡ n + 0 = omega arith in
      (
        inr (refl, subst (λ k. In (runs n s) (rs ++ runs k s ∷ [])) zeros (In-snoc (runs n s) rs)),
        tt,
      )
  Slots-submit rs n [] (p ∷ ps) s h = absurd h
  Slots-submit rs n (t ∷ ss) [] s h = absurd h
  Slots-submit rs n (t ∷ ss) (p ∷ ps) s h =
      let shift : suc n + length ss ≡ n + suc (length ss) = omega arith in
      let rest = Slots-submit rs (suc n) ss ps s h.1 in
      (
        elim h.0 [ inl e ↦ inl e | inr (e, i) ↦ inr (e, In-append (runs n t) rs _ i) ],
        subst (λ k. Slots (rs ++ runs k s ∷ []) (suc n) (ss ++ s ∷ []) (ps ++ entry s none ∷ []))
            shift rest,
      )

  -- A goroutine that ends leaves the entry of another call.
  Slot-other :
      (rs : List Running) (k : ℕ) (g : Running) (n : ℕ) (s : Submission) (p : PendingTool)
      → get_elem? rs k ≡ some g
      → n ≢ g.serial
      → Slot rs n s p
      → Slot (remove_at rs k) n s p
  Slot-other rs k g n s p e other (inl q) = inl q
  Slot-other rs k g n s p e other (inr (q, i)) = elim (In-remove_at (runs n s) g rs k e i) [
    | inl same ↦ absurd (other (ap (λ (x : Running). x.serial) same))
    | inr left ↦ inr (q, left)
  ]

  Slots-later :
      (rs : List Running) (k : ℕ) (g : Running) (n : ℕ) (ss : List Submission)
      (ps : List PendingTool)
      → get_elem? rs k ≡ some g
      → g.serial < n
      → Slots rs n ss ps
      → Slots (remove_at rs k) n ss ps
  Slots-later rs k g n [] [] e lt h = tt
  Slots-later rs k g n [] (p ∷ ps) e lt h = absurd h
  Slots-later rs k g n (s ∷ ss) [] e lt h = absurd h
  Slots-later rs k g n (s ∷ ss) (p ∷ ps) e lt h = (
    Slot-other rs k g n s p e (λ q. omega arith) h.0,
    Slots-later rs k g (suc n) ss ps e (omega arith) h.1,
  )

  stored :
      (rs : List Running) (n : ℕ) (s : Submission) (p : PendingTool) (r : ToolExecResult)
      → Slot rs n s p
      → record p { result = some r; done = true } ≡ entry s (some r)
  stored rs n s p r (inl e) = ap (λ (x : PendingTool). record x { result = some r; done = true }) e
  stored rs n s p r (inr (e, i)) =
      ap (λ (x : PendingTool). record x { result = some r; done = true }) e

  -- The end of a goroutine stores its result in the entry of its call.
  pub Slots-complete :
      (rs : List Running) (k : ℕ) (g : Running) (n i : ℕ) (ss : List Submission)
      (ps : List PendingTool)
      → get_elem? rs k ≡ some g
      → g.serial ≡ n + i
      → get_elem? ss i ≡ some g.call
      → Slots rs n ss ps
      → Slots (remove_at rs k) n ss (complete ps i (exec g.serial g.call))
  unfolding complete
  Slots-complete rs k g n i [] [] e m c h = cc
  Slots-complete rs k g n i [] (p ∷ ps) e m c h = absurd h
  Slots-complete rs k g n i (s ∷ ss) [] e m c h = absurd h
  Slots-complete rs k g n zero (s ∷ ss) (p ∷ ps) e m c h =
      let serial : g.serial ≡ n = omega arith in
      let call : g.call ≡ s = cc in
      (
        inl (
            stored rs n s p (exec g.serial g.call) h.0
            ∙ ap (λ r. entry s (some r)) (ap₂ exec serial call)),
        Slots-later rs k g (suc n) ss ps e (omega arith) h.1,
      )
  Slots-complete rs k g n (suc i) (s ∷ ss) (p ∷ ps) e m c h = (
    Slot-other rs k g n s p e (λ q. omega arith) h.0,
    Slots-complete rs k g (suc n) i ss ps e (omega arith) c h.1,
  )

  pub Slots-collect :
      (n : ℕ) (ss : List Submission) (ps : List PendingTool)
      → Slots [] n ss ps
      → collect_results ps ≡ results_from exec n ss
  unfolding collect_results event_of results_from
  Slots-collect n [] [] h = refl
  Slots-collect n [] (p ∷ ps) h = absurd h
  Slots-collect n (s ∷ ss) [] h = absurd h
  Slots-collect n (s ∷ ss) (p ∷ ps) h = elim h.0 [
    | inl e ↦ ap₂ ◌∷◌ (ap event_of e) (Slots-collect (suc n) ss ps h.1)
    | inr (e, i) ↦ absurd i
  ]
