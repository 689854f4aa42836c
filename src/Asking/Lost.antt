-- ===== src/Asking/Lost.antt =====
-- A request of cmd/cli/controller/ask.go over which another one is shown.
use codefolio.Common.{
  ℕ, zero, suc, ◌<◌, ℤ, List, [], ◌∷◌, ◌++◌, Bool, false, leb, ltb, null, Option, none, some,
  length, length-append, get_elem?, set, ◌≡◌, ◌≢◌, refl, sym, ap, ◌∙◌, arith, Bool-cases,
  Option-cases, inl, inr,
}
use mathlib.Core.Path.{subst}
use codefolio.Asking.Tool.{Question, AskRequest}
use codefolio.Asking.Dialog.{
  Asker, no_ask, show_ask, shown_request, shown_question, move_ask, answers_from, respond,
  respond_ask, confirm_ask,
}

module _ {ℓ} {A : Type ℓ} where
  get-set-other :
      (xs : List A) (i j : ℕ) (v : A) → i ≢ j → get_elem? (set xs j v) i ≡ get_elem? xs i
  get-set-other [] i j v h = refl
  get-set-other (x ∷ xs) zero zero v h = absurd (h refl)
  get-set-other (x ∷ xs) zero (suc j) v h = refl
  get-set-other (x ∷ xs) (suc i) zero v h = refl
  get-set-other (x ∷ xs) (suc i) (suc j) v h = get-set-other xs i j v (λ e. h (ap suc e))

  length-set : (xs : List A) (j : ℕ) (v : A) → length (set xs j v) ≡ length xs
  length-set [] j v = refl
  length-set (x ∷ xs) zero v = refl
  length-set (x ∷ xs) (suc j) v = ap suc (length-set xs j v)

  get-append : (xs ys : List A) (i : ℕ) → i < length xs → get_elem? (xs ++ ys) i ≡ get_elem? xs i
  get-append [] ys i h = absurd (omega arith)
  get-append (x ∷ xs) ys zero h = refl
  get-append (x ∷ xs) ys (suc i) h = get-append xs ys i (omega arith)

  pub get-append-length : (xs ys : List A) (y : A) → get_elem? (xs ++ y ∷ ys) (length xs) ≡ some y
  get-append-length [] ys y = refl
  get-append-length (x ∷ xs) ys y = get-append-length xs ys y

-- What the user and the loop of requests do.
pub data AskStep : Asker → Asker → Type 0 where
  show : (a : Asker) (qs : List Question) → AskStep a (show_ask a qs)
  move : (a : Asker) (delta : ℤ) → AskStep a (move_ask a delta)
  confirm : {a b : Asker} → confirm_ask a ≡ some b → AskStep a b
  give : {a b : Asker} (defaults : Bool) → respond_ask a defaults ≡ some b → AskStep a b

pub data AskSteps : Asker → Asker → Type 0 where
  done : {a : Asker} → AskSteps a a
  next : {a b c : Asker} → AskStep a b → AskSteps b c → AskSteps a c

-- A request that was sent and is not the one that is shown.
abbrev Away : ℕ → Asker → Type 0
Away i a = (i < length a.requests) × (a.ask.request ≢ some i)

abbrev Keeps : ℕ → Asker → Asker → Type 0
Keeps i a b = Away i b × (get_elem? b.requests i ≡ get_elem? a.requests i)

show-Keeps : (i : ℕ) (a : Asker) (qs : List Question) → Away i a → Keeps i a (show_ask a qs)
unfolding show_ask
show-Keeps i a qs (h, n) =
    let r : AskRequest = record { questions = qs; response = none } in
    let more = length-append a.requests (r ∷ []) in
    (
      (omega arith, λ e. let same : length a.requests ≡ i = cc in omega arith),
      get-append a.requests (r ∷ []) i h,
    )

move-Keeps : (i : ℕ) (a : Asker) (delta : ℤ) → Away i a → Keeps i a (move_ask a delta)
unfolding move_ask
move-Keeps i a delta w = elim (Option-cases (shown_question a)) [
  | inl e ↦ rw (move_ask, e) (w, refl)
  | inr (q, e) ↦ elim (Bool-cases (null q.options)) [
    | inl f ↦ rw (move_ask, e, f) (w, refl)
    | inr f ↦ rw (move_ask, e, f) (w, refl)
  ]
]

respond-Keeps :
    (i : ℕ) (a b : Asker) (defaults : Bool)
    → Away i a
    → respond_ask a defaults ≡ some b
    → Keeps i a b
unfolding respond_ask
respond-Keeps i a b defaults w h = elim (Option-cases a.ask.request) [
  | inl e ↦
      let h' : some a ≡ some b = rw (respond_ask, e) at h in
      let same : a ≡ b = cc in subst (Keeps i a) same (w, refl)
  | inr (j, e) ↦ elim (Option-cases (get_elem? a.requests j)) [
    | inl f ↦
        let h' : some a ≡ some b = rw (respond_ask, e, f) at h in
        let same : a ≡ b = cc in subst (Keeps i a) same (w, refl)
    | inr (r, f) ↦ elim (Option-cases (answers_from defaults [] r.questions a.ask.selections)) [
      | inl g ↦ let h' : ◌≡◌ {A = Option Asker} none (some b) = rw (respond_ask, e, f, g) at h in cc
      | inr (m, g) ↦
          let closed : Asker = record {
            ask = no_ask;
            ask_open = false;
            requests = set a.requests j (respond m r);
          } in
          let h' : some closed ≡ some b = rw (respond_ask, e, f, g) at h in
          let same : closed ≡ b = cc in
          let other : i ≢ j = λ x. w.1 (e ∙ ap some (sym x)) in
          let size = length-set a.requests j (respond m r) in
          subst (Keeps i a) same
            ((omega arith, λ x. cc), get-set-other a.requests i j (respond m r) other)
    ]
  ]
]

confirm-Keeps : (i : ℕ) (a b : Asker) → Away i a → confirm_ask a ≡ some b → Keeps i a b
unfolding confirm_ask
confirm-Keeps i a b w h =
    let chosen = set a.ask.selections a.ask.question a.ask.selected in
    let filled : Asker = record a { ask = record a.ask { selections = chosen } } in
    elim (Option-cases (shown_request a)) [
      | inl e ↦
          let h' : some a ≡ some b = rw (confirm_ask, e) at h in
          let same : a ≡ b = cc in subst (Keeps i a) same (w, refl)
      | inr (r, e) ↦ elim (Bool-cases (leb (length r.questions) a.ask.question)) [
        | inl f ↦
            let h' : some a ≡ some b = rw (confirm_ask, e, f) at h in
            let same : a ≡ b = cc in subst (Keeps i a) same (w, refl)
        | inr f ↦ elim (Bool-cases (ltb (suc a.ask.question) (length r.questions))) [
          | inr g ↦ respond-Keeps i filled b false w (rw (confirm_ask, e, f, g) at h)
          | inl g ↦ elim (Option-cases (get_elem? chosen (suc a.ask.question))) [
            | inl k ↦
                let h' : ◌≡◌ {A = Option Asker} none (some b) = rw (confirm_ask, e, f, g, k) at h in
                cc
            | inr (s, k) ↦
                let onward : Asker = record a {
                  ask = record a.ask {
                    question = suc a.ask.question;
                    selected = s;
                    selections = chosen;
                  };
                } in
                let h' : some onward ≡ some b = rw (confirm_ask, e, f, g, k) at h in
                let same : onward ≡ b = cc in subst (Keeps i a) same (w, refl)
          ]
        ]
      ]
    ]

step-Keeps : (i : ℕ) (a b : Asker) → Away i a → AskStep a b → Keeps i a b
step-Keeps i a _ w (show _ qs) = show-Keeps i a qs w
step-Keeps i a _ w (move _ delta) = move-Keeps i a delta w
step-Keeps i a b w (confirm h) = confirm-Keeps i a b w h
step-Keeps i a b w (give defaults h) = respond-Keeps i a b defaults w h

steps-Keeps : (i : ℕ) (a b : Asker) → Away i a → AskSteps a b → Keeps i a b
steps-Keeps i a _ w done = (w, refl)
steps-Keeps i a c w (next {b = b} s ss) =
    let (w', e) = step-Keeps i a b w s in let (w'', e') = steps-Keeps i b c w' ss in (w'', e' ∙ e)

get_elem?-lt : {A : Type 0} (xs : List A) (i : ℕ) (x : A) → get_elem? xs i ≡ some x → i < length xs
get_elem?-lt [] i x h = cc
get_elem?-lt (y ∷ xs) zero x h = omega arith
get_elem?-lt (y ∷ xs) (suc i) x h = let ih = get_elem?-lt xs i x h in omega arith

-- Where a request is shown while another one still waits for its answer, that one is never answered:
-- whatever the user does and whatever is asked later, it stays as it is, its response empty.
pub overwritten_lost :
    (a b : Asker) (i : ℕ) (r : AskRequest) (second : List Question)
    → a.ask.request ≡ some i
    → get_elem? a.requests i ≡ some r
    → r.response ≡ none
    → AskSteps (show_ask a second) b
    → (w : AskRequest) × (get_elem? b.requests i ≡ some w)
      × (w.questions ≡ r.questions)
      × (w.response ≡ none)
overwritten_lost a b i r second shown sent waiting steps =
    let other : AskRequest = record { questions = second; response = none } in
    let here = get_elem?-lt a.requests i r sent in
    let more = length-append a.requests (other ∷ []) in
    let away : Away i (show_ask a second) =
      unfold show_ask in (omega arith, λ e. let same : length a.requests ≡ i = cc in omega arith) in
    let kept : get_elem? (show_ask a second).requests i ≡ some r =
      unfold show_ask in get-append a.requests (other ∷ []) i here ∙ sent in
    (r, (steps-Keeps i (show_ask a second) b away steps).1 ∙ kept, refl, waiting)
