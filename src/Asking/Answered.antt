-- ===== src/Asking/Answered.antt =====
-- A request of internal/infra/tools/askuser that the user answers question by question in the dialog of
-- cmd/cli/controller/ask.go.
use codefolio.Common.{
  ℕ, zero, suc, ◌+◌, ◌<◌, pos, Text, List, [], ◌∷◌, ◌++◌, true, false, leb, ltb, null, text_eq,
  Option, none, some, length, length-append, get_elem?, set, append_assoc, if◌then◌else◌, ◌≡◌, refl,
  sym, ap, ◌∙◌, arith, Bool-cases, Option-cases, inl, inr,
}
use codefolio.Asking.Tool.{AskOption, Question, Answers, AskRequest, check_questions}
use codefolio.Asking.Dialog.{
  Asker, no_ask, zeros, show_ask, shown_request, shown_question, moved, move_ask, answers_from,
  respond, respond_ask, confirm_ask,
}
use codefolio.Asking.Lost.{get-append-length}

-- The user moves down to an option and confirms, for each question in turn.
unfoldable pub walk : Asker → List ℕ → Option Asker
walk a [] = some a
walk a (c ∷ cs) = elim (confirm_ask (move_ask a (pos c))) [ none ↦ none | some b ↦ walk b cs ]

walk_step :
    (a b : Asker) (c : ℕ) (cs : List ℕ)
    → confirm_ask (move_ask a (pos c)) ≡ some b
    → walk a (c ∷ cs) ≡ walk b cs
unfolding walk
walk_step a b c cs e = rw (walk, e) refl

-- One option of each question.
abbrev pub Chosen : List Question → List ℕ → Type 0
Chosen [] [] = Unit {0}
Chosen [] (c ∷ cs) = ⊥
Chosen (q ∷ qs) [] = ⊥
Chosen (q ∷ qs) (c ∷ cs) = (c < length q.options) × Chosen qs cs

unfoldable pub lookup_answer : Text → Answers → Option Text
lookup_answer h [] = none
lookup_answer h ((k, l) ∷ m) = let rest = lookup_answer h m in if text_eq k h then some l else rest

abbrev label_at : Question → ℕ → Option Text
label_at q c = elim (get_elem? q.options c) [ none ↦ none | some o ↦ some o.label ]

-- The label that is chosen for the last question with a header.
unfoldable pub chosen : Text → List Question → List ℕ → Option Text
chosen h [] cs = none
chosen h (q ∷ qs) [] = none
chosen h (q ∷ qs) (c ∷ cs) = elim (chosen h qs cs) [
  | some l ↦ some l
  | none ↦ if text_eq q.header h then label_at q c else none
]

abbrev or_answer : Option Text → Option Text → Option Text
or_answer (some l) o = some l
or_answer none o = o

lt-get_elem? :
    {A : Type 0} (xs : List A) (i : ℕ) → i < length xs → (x : A) × (get_elem? xs i ≡ some x)
lt-get_elem? [] i h = absurd (omega arith)
lt-get_elem? (x ∷ xs) zero h = (x, refl)
lt-get_elem? (x ∷ xs) (suc i) h = lt-get_elem? xs i (omega arith)

chosen_then :
    (h : Text) (q : Question) (qs : List Question) (c : ℕ) (cs : List ℕ) (o : AskOption)
    (m : Answers)
    → get_elem? q.options c ≡ some o
    → or_answer (chosen h qs cs) (lookup_answer h ((q.header, o.label) ∷ m))
      ≡ or_answer (chosen h (q ∷ qs) (c ∷ cs)) (lookup_answer h m)
unfolding chosen lookup_answer
chosen_then h q qs c cs o m e = elim (Option-cases (chosen h qs cs)) [
  | inr (l, f) ↦ rw f refl
  | inl f ↦ elim (Bool-cases (text_eq q.header h)) [
    | inl t ↦ rw (f, t, label_at, e) refl
    | inr t ↦ rw (f, t) refl
  ]
]

-- What `RespondAsk` collects, beside what stands in the map before.
answers_from_lem :
    (m : Answers) (qs : List Question) (cs : List ℕ)
    → Chosen qs cs
    → (n : Answers) × (answers_from false m qs cs ≡ some n)
      × ((h : Text) → lookup_answer h n ≡ or_answer (chosen h qs cs) (lookup_answer h m))
unfolding answers_from chosen
answers_from_lem m [] [] g = (m, refl, λ h. refl)
answers_from_lem m [] (c ∷ cs) g = absurd g
answers_from_lem m (q ∷ qs) [] g = absurd g
answers_from_lem m (q ∷ qs) (c ∷ cs) g =
    let (o, e) = lt-get_elem? q.options c g.0 in
    let (n, f, l) = answers_from_lem ((q.header, o.label) ∷ m) qs cs g.1 in
    (n, rw (answers_from, e) f, λ h. l h ∙ chosen_then h q qs c cs o m e)

set-length : (xs ys : List ℕ) (y z : ℕ) → set (xs ++ y ∷ ys) (length xs) z ≡ xs ++ z ∷ ys
set-length [] ys y z = refl
set-length (x ∷ xs) ys y z = ap (◌∷◌ x) (set-length xs ys y z)

-- The dialog at a question, the choices before it confirmed.
abbrev at : Asker → ℕ → List ℕ → List ℕ → ℕ → Asker
at a i before after selected = record a {
  ask = record {
    request = some i;
    question = length before;
    selected = selected;
    selections = before ++ after;
  };
}

null_lt : {A : Type 0} (xs : List A) (i : ℕ) → i < length xs → null xs ≡ false
null_lt [] i h = absurd (omega arith)
null_lt (x ∷ xs) i h = refl

moved_down : (c n : ℕ) → c < n → moved 0 (pos c) n ≡ c
unfolding moved
moved_down c n h = omega arith

-- The move to an option of the question that is shown.
move_at :
    (a : Asker) (i : ℕ) (r : AskRequest) (before after : List ℕ) (q : Question) (c : ℕ)
    → get_elem? a.requests i ≡ some r
    → get_elem? r.questions (length before) ≡ some q
    → c < length q.options
    → move_ask (at a i before after 0) (pos c) ≡ at a i before after c
unfolding move_ask shown_question shown_request
move_at a i r before after q c e f h =
    rw (move_ask, shown_question, shown_request, e, f, null_lt q.options c h)
      (ap (at a i before after) (moved_down c (length q.options) h))

get-second : (xs ys : List ℕ) (y z : ℕ) → get_elem? (xs ++ y ∷ z ∷ ys) (suc (length xs)) ≡ some z
get-second [] ys y z = refl
get-second (x ∷ xs) ys y z = get-second xs ys y z

length-snoc : (xs : List ℕ) (y : ℕ) → length (xs ++ y ∷ []) ≡ suc (length xs)
length-snoc [] y = refl
length-snoc (x ∷ xs) y = ap suc (length-snoc xs y)

module _ (a : Asker) (i : ℕ) (r : AskRequest) (sent : get_elem? a.requests i ≡ some r) where
  mk : ℕ → List ℕ → Option Asker
  mk k ss =
      some (record a {
        ask = record { request = some i; question = k; selected = 0; selections = ss };
      })

  confirm_more :
      (before after : List ℕ) (c : ℕ)
      → suc (length before) < length r.questions
      → confirm_ask (at a i before (0 ∷ 0 ∷ after) c)
        ≡ some (at a i (before ++ c ∷ []) (0 ∷ after) 0)
  unfolding confirm_ask shown_request mk
  confirm_more before after c h =
      let one : leb (length r.questions) (length before) ≡ false = ground arith in
      let two : ltb (suc (length before)) (length r.questions) ≡ true = ground arith in
      rw
        (
          confirm_ask,
          shown_request,
          sent,
          one,
          two,
          set-length before (0 ∷ after) 0 c,
          get-second before after c 0,
        )
        (ap (mk (suc (length before)))
            (set-length before (0 ∷ after) 0 c ∙ sym (append_assoc before (c ∷ []) (0 ∷ after)))
          ∙ ap (λ k. mk k ((before ++ c ∷ []) ++ 0 ∷ after)) (sym (length-snoc before c)))

  abbrev closed : Answers → Asker
  closed m = record { ask = no_ask; ask_open = false; requests = set a.requests i (respond m r) }

  confirm_last :
      (before : List ℕ) (c : ℕ) (m : Answers)
      → suc (length before) ≡ length r.questions
      → answers_from false [] r.questions (before ++ c ∷ []) ≡ some m
      → confirm_ask (at a i before (0 ∷ []) c) ≡ some (closed m)
  unfolding confirm_ask shown_request respond_ask
  confirm_last before c m h e =
      let one : leb (length r.questions) (length before) ≡ false = ground arith in
      let two : ltb (suc (length before)) (length r.questions) ≡ false = ground arith in
      rw (confirm_ask, shown_request, sent, one, two, set-length before [] 0 c)
        (rw (respond_ask, sent, e) refl)

  -- The rest of the questions, from one of them on.
  walk_at :
      (before : List ℕ) (pre : List Question) (q : Question) (rest : List Question) (c : ℕ)
      (cs : List ℕ) (m : Answers)
      → r.questions ≡ pre ++ q ∷ rest
      → length pre ≡ length before
      → Chosen (q ∷ rest) (c ∷ cs)
      → answers_from false [] r.questions (before ++ c ∷ cs) ≡ some m
      → walk (at a i before (zeros (q ∷ rest)) 0) (c ∷ cs) ≡ some (closed m)
  unfolding walk zeros
  walk_at before pre q [] c [] m split size g e =
      let here : get_elem? r.questions (length before) ≡ some q =
        ap (λ x. get_elem? x (length before)) split
        ∙ (ap (get_elem? (pre ++ q ∷ [])) (sym size) ∙ get-append-length pre [] q) in
      let all : length r.questions ≡ length pre + 1 =
        ap length split ∙ length-append pre (q ∷ []) in
      walk_step (at a i before (0 ∷ []) 0) (closed m) c [] (
        ap confirm_ask (move_at a i r before (0 ∷ []) q c sent here g.0)
        ∙ confirm_last before c m (omega arith) e)
  walk_at before pre q [] c (d ∷ cs) m split size g e = absurd g.1
  walk_at before pre q (p ∷ rest) c [] m split size g e = absurd g.1
  walk_at before pre q (p ∷ rest) c (d ∷ cs) m split size g e =
      let here : get_elem? r.questions (length before) ≡ some q =
        ap (λ x. get_elem? x (length before)) split
        ∙ (ap (get_elem? (pre ++ q ∷ p ∷ rest)) (sym size) ∙ get-append-length pre (p ∷ rest) q) in
      let all : length r.questions ≡ length pre + suc (suc (length rest)) =
        ap length split ∙ length-append pre (q ∷ p ∷ rest) in
      let snoc : length (pre ++ q ∷ []) ≡ length (before ++ c ∷ []) =
        length-append pre (q ∷ []) ∙ ap (λ k. k + 1) size ∙ sym (length-append before (c ∷ [])) in
      walk_step (at a i before (0 ∷ 0 ∷ zeros rest) 0)
        (at a i (before ++ c ∷ []) (0 ∷ zeros rest) 0) c (d ∷ cs)
        (ap confirm_ask (move_at a i r before (0 ∷ 0 ∷ zeros rest) q c sent here g.0)
          ∙ confirm_more before (zeros rest) c (omega arith))
      ∙ (walk_at (before ++ c ∷ []) (pre ++ q ∷ []) p rest d cs m
          (split ∙ sym (append_assoc pre (q ∷ []) (p ∷ rest))) snoc g.1
          (ap (answers_from false [] r.questions) (append_assoc before (c ∷ []) (d ∷ cs)) ∙ e))

get-set-append :
    {A : Type 0} (xs : List A) (y z : A)
    → get_elem? (set (xs ++ y ∷ []) (length xs) z) (length xs) ≡ some z
get-set-append [] y z = refl
get-set-append (x ∷ xs) y z = get-set-append xs y z

or_answer-none : (o : Option Text) → or_answer o none ≡ o
or_answer-none none = refl
or_answer-none (some l) = refl

-- A request that `Execute` sends is shown, and the user confirms an option of each of its questions: the
-- dialog is then closed, and the request holds a response that has for each header the label of the
-- option chosen for the last question with that header, and no other entry.
pub walk_answers :
    (a : Asker) (qs : List Question) (cs : List ℕ)
    → check_questions qs ≡ none
    → Chosen qs cs
    → (b : Asker) × (m : Answers) × (walk (show_ask a qs) cs ≡ some b)
      × (get_elem? b.requests (length a.requests)
          ≡ some (record { questions = qs; response = some m }))
      × (b.ask ≡ no_ask)
      × (b.ask_open ≡ false)
      × ((h : Text) → lookup_answer h m ≡ chosen h qs cs)
unfolding check_questions show_ask lookup_answer
walk_answers a [] cs k g = cc
walk_answers a (q ∷ qs) [] k g = absurd g
walk_answers a (q ∷ qs) (c ∷ cs) k g =
    let r : AskRequest = record { questions = q ∷ qs; response = none } in
    let i = length a.requests in
    let one = show_ask a (q ∷ qs) in
    let sent : get_elem? (a.requests ++ r ∷ []) i ≡ some r = get-append-length a.requests [] r in
    let (m, e, look) = answers_from_lem [] (q ∷ qs) (c ∷ cs) g in
    (
      closed one i r sent m,
      m,
      walk_at one i r sent [] [] q qs c cs m refl refl g e,
      get-set-append a.requests r (respond m r),
      refl,
      refl,
      λ h. look h ∙ or_answer-none (chosen h (q ∷ qs) (c ∷ cs)),
    )
