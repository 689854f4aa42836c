-- ===== src/Executor/Order.antt =====
-- In which order `CollectResults` of internal/infra/executor.go gives the results.
use codefolio.Common.{
  ℕ, zero, suc, List, [], ◌∷◌, ◌++◌, ◌≡◌, refl, ap, sym, ◌∙◌, none, some, length, get_elem?, arith,
  inl, inr, append_assoc, append-nil, Option-cases, ◌+◌, All, All-append, length-append,
}
use mathlib.Core.Path.{subst, ap₂}
use codefolio.Executor.Run.{ToolExecResult}
use codefolio.Executor.Collect.{
  submit, complete, collect_results, Submission, Running, Executor, ExecutorEvent, submits, ends,
  new_executor, remove_at, happen, happen_all, submissions, results_from,
}
use codefolio.Executor.Slots.{
  entry, runs, Slots, Slots-length, Slots-submit, Slots-complete, Slots-collect,
}

All-remove_at :
    {A : Type 0} (P : A → Type 0) (xs : List A) (k : ℕ) → All P xs → All P (remove_at xs k)
unfolding remove_at
All-remove_at P [] k a = tt
All-remove_at P (x ∷ xs) zero a = a.1
All-remove_at P (x ∷ xs) (suc k) a = (a.0, All-remove_at P xs k a.1)

All-get :
    {A : Type 0} (P : A → Type 0) (xs : List A) (k : ℕ) (x : A)
    → All P xs
    → get_elem? xs k ≡ some x
    → P x
All-get P [] k x a h = cc
All-get P (y ∷ ys) zero x a h = let same : y ≡ x = cc in subst P same a.0
All-get P (y ∷ ys) (suc k) x a h = All-get P ys k x a.1 h

module _ (exec : ℕ → Submission → ToolExecResult) where
  -- Every goroutine stores under the number of its call.
  abbrev Owned : List Submission → Running → Type 0
  Owned ss g = (g.index ≡ g.serial) × (get_elem? ss g.serial ≡ some g.call)

  record Valid (ss : List Submission) (e : Executor) : Type 0 where
    counted : e.submitted ≡ length ss
    owned : All (Owned ss) e.running
    slots : Slots exec e.running 0 ss e.pending

  get-append :
      (ss : List Submission) (s t : Submission) (i : ℕ)
      → get_elem? ss i ≡ some t
      → get_elem? (ss ++ s ∷ []) i ≡ some t
  get-append [] s t i h = cc
  get-append (x ∷ xs) s t zero h = h
  get-append (x ∷ xs) s t (suc i) h = get-append xs s t i h

  get-append-length :
      (ss : List Submission) (s : Submission) → get_elem? (ss ++ s ∷ []) (length ss) ≡ some s
  get-append-length [] s = refl
  get-append-length (x ∷ xs) s = get-append-length xs s

  Owned-append :
      (ss : List Submission) (s : Submission) (rs : List Running)
      → All (Owned ss) rs
      → All (Owned (ss ++ s ∷ [])) rs
  Owned-append ss s [] a = tt
  Owned-append ss s (g ∷ rs) a =
      ((a.0.0, get-append ss s g.call g.serial a.0.1), Owned-append ss s rs a.1)

  submits-Valid :
      (ss : List Submission) (e : Executor) (s : Submission)
      → Valid ss e
      → Valid (ss ++ s ∷ []) (happen exec e (submits s))
  unfolding happen submit
  submits-Valid ss e s v =
      let more = length-append ss (s ∷ []) in
      let size = Slots-length exec e.running 0 ss e.pending v.slots in
      let zeros : 0 + length ss ≡ length ss = omega arith in
      let g : Running = record { index = length e.pending; serial = e.submitted; call = s } in
      let here : g ≡ runs (0 + length ss) s =
        ap₂ (λ i n. record { index = i; serial = n; call = s }) (size ∙ sym zeros)
          (v.counted ∙ sym zeros) in
      record {
        counted = omega (arith, v.counted);
        owned =
            All-append (Owned (ss ++ s ∷ [])) e.running (g ∷ [])
              (Owned-append ss s e.running v.owned)
              (
                (
                  size ∙ sym v.counted,
                  ap (get_elem? (ss ++ s ∷ [])) v.counted ∙ get-append-length ss s,
                ),
                tt,
              );
        slots =
            subst
              (λ x.
                Slots exec (e.running ++ x ∷ []) 0 (ss ++ s ∷ []) (e.pending ++ entry s none ∷ []))
              (sym here) (Slots-submit exec e.running 0 ss e.pending s v.slots);
      }

  ends-Valid :
      (ss : List Submission) (e : Executor) (k : ℕ) → Valid ss e → Valid ss (happen exec e (ends k))
  unfolding happen
  ends-Valid ss e k v = elim (Option-cases (get_elem? e.running k)) [
    | inl h ↦ simp (h, happen) v
    | inr (g, h) ↦
        let (own, call) = All-get (Owned ss) e.running k g v.owned h in
        let start : g.serial ≡ 0 + g.serial = omega arith in
        simp (h, happen)
          (record {
            counted = v.counted;
            owned = All-remove_at (Owned ss) e.running k v.owned;
            slots =
                subst
                  (λ i.
                    Slots exec (remove_at e.running k) 0 ss
                      (complete e.pending i (exec g.serial g.call)))
                  (sym own)
                  (Slots-complete exec e.running k g 0 g.serial ss e.pending h start call v.slots);
          })
  ]

  happen_all-Valid :
      (ss : List Submission) (e : Executor) (vs : List ExecutorEvent)
      → Valid ss e
      → Valid (ss ++ submissions vs) (happen_all exec e vs)
  unfolding happen_all submissions
  happen_all-Valid ss e [] v = subst (λ x. Valid x e) (sym (append-nil ss)) v
  happen_all-Valid ss e (submits s ∷ vs) v =
      subst (λ x. Valid x (happen_all exec (happen exec e (submits s)) vs))
        (append_assoc ss (s ∷ []) (submissions vs))
        (happen_all-Valid (ss ++ s ∷ []) (happen exec e (submits s)) vs (submits-Valid ss e s v))
  happen_all-Valid ss e (ends k ∷ vs) v =
      happen_all-Valid ss (happen exec e (ends k)) vs (ends-Valid ss e k v)

  -- Calls are submitted and their goroutines end in any order, one after the other or in between. Once
  -- none of them runs, which `CollectResults` waits for, the results stand in the order of the
  -- submissions, one for each, that of its own call.
  pub collect_results_in_order :
      (vs : List ExecutorEvent)
      → (happen_all exec new_executor vs).running ≡ []
      → collect_results (happen_all exec new_executor vs).pending
        ≡ results_from exec 0 (submissions vs)
  collect_results_in_order vs h =
      let v =
        happen_all-Valid [] new_executor vs (record { counted = refl; owned = tt; slots = tt }) in
      Slots-collect exec 0 (submissions vs) (happen_all exec new_executor vs).pending (
        subst (λ rs. Slots exec rs 0 (submissions vs) (happen_all exec new_executor vs).pending) h
          v.slots)
