-- ===== src/Asking/Dialog.antt =====
-- cmd/cli/controller/ask.go: the dialog that shows a request of the tool. The requests that were sent
-- stand in a list, and the dialog holds the place of the one it shows.
use codefolio.Common.{
  ℕ, suc, ◌+◌, ◌-◌, ℤ, pos, negsuc, min, List, [], ◌∷◌, ◌++◌, Bool, true, false, leb, ltb, Option,
  none, some, length, null, get_elem?, set, if◌then◌else◌,
}
use codefolio.Asking.Tool.{Question, Answers, AskRequest}

pub record AskState : Type 0 where
  pub request : Option ℕ
  pub question : ℕ
  pub selected : ℕ
  pub selections : List ℕ

-- `ask_open` is what `setAskOpen` was told last.
pub record Asker : Type 0 where
  pub ask : AskState
  pub ask_open : Bool
  pub requests : List AskRequest

abbrev pub no_ask : AskState
no_ask = record { request = none; question = 0; selected = 0; selections = [] }

unfoldable pub zeros : List Question → List ℕ
zeros [] = []
zeros (q ∷ qs) = 0 ∷ zeros qs

-- What `askLoop` does with a request.
unfoldable pub show_ask : Asker → List Question → Asker
unfolding zeros
show_ask a qs = record {
  ask = record {
    request = some (length a.requests);
    question = 0;
    selected = 0;
    selections = zeros qs;
  };
  ask_open = true;
  requests = a.requests ++ record { questions = qs; response = none } ∷ [];
}

-- The request that is shown.
unfoldable pub shown_request : Asker → Option AskRequest
shown_request a = elim a.ask.request [ none ↦ none | some i ↦ get_elem? a.requests i ]

-- The question that is shown; `none` where no request is shown, or none of its questions.
unfoldable pub shown_question : Asker → Option Question
unfolding shown_request
shown_question a = elim (shown_request a) [
  | none ↦ none
  | some r ↦ get_elem? r.questions a.ask.question
]

-- `max(min(selected + delta, count - 1), 0)`.
unfoldable pub moved : ℕ → ℤ → ℕ → ℕ
moved selected (pos d) count = min (selected + d) (count - 1)
moved selected (negsuc d) count = min (selected - suc d) (count - 1)

unfoldable pub move_ask : Asker → ℤ → Asker
unfolding shown_question moved
move_ask a delta = elim (shown_question a) [
  | none ↦ a
  | some q ↦ if null q.options then a else record a {
    ask = record a.ask { selected = moved a.ask.selected delta (length q.options) };
  }
]

-- The loop of `RespondAsk` over the questions; `none` is a panic, where a selection is missing.
unfoldable pub answers_from : Bool → Answers → List Question → List ℕ → Option Answers
answers_from defaults m [] ss = some m
answers_from defaults m (q ∷ qs) [] = none
answers_from defaults m (q ∷ qs) (s ∷ ss) =
    answers_from defaults
      (elim (get_elem? q.options (if defaults then 0 else s)) [
        | none ↦ m
        | some o ↦ (q.header, o.label) ∷ m
      ])
      qs ss

-- The send, which does nothing where the channel holds a response.
abbrev pub respond : Answers → AskRequest → AskRequest
respond m r = record r { response = elim r.response [ none ↦ some m | some before ↦ some before ] }

unfoldable pub respond_ask : Asker → Bool → Option Asker
unfolding answers_from
respond_ask a defaults = elim a.ask.request [
  | none ↦ some a
  | some i ↦ elim (get_elem? a.requests i) [
    | none ↦ some a
    | some r ↦ elim (answers_from defaults [] r.questions a.ask.selections) [
      | none ↦ none
      | some m ↦
          some
            (record { ask = no_ask; ask_open = false; requests = set a.requests i (respond m r) })
    ]
  ]
]

-- `ConfirmAsk`; the selection of the next question is read from the list, and `none` is a panic.
unfoldable pub confirm_ask : Asker → Option Asker
unfolding shown_request shown_question respond_ask
confirm_ask a = elim (shown_request a) [
  | none ↦ some a
  | some r ↦
      let chosen = set a.ask.selections a.ask.question a.ask.selected in
      let last = respond_ask (record a { ask = record a.ask { selections = chosen } }) false in
      let next = suc a.ask.question in
      if leb (length r.questions) a.ask.question
      then some a
      else if ltb next (length r.questions)
      then elim (get_elem? chosen next) [
        | none ↦ none
        | some s ↦
            some (record a {
              ask = record a.ask { question = next; selected = s; selections = chosen };
            })
      ]
      else last
]
