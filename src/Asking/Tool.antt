-- ===== src/Asking/Tool.antt =====
-- `Execute` of internal/infra/tools/askuser/askuser.go. What the decoder makes of the argument, and the
-- answer that the channel gives, are arguments.
use codefolio.Common.{
  Text, List, [], ◌∷◌, Bool, not, ◌||◌, ltb, Option, none, some, length, null, if◌then◌else◌,
}

pub record AskOption : Type 0 where
  pub label : Text
  pub description : Text

pub record Question : Type 0 where
  pub text : Text
  pub header : Text
  pub options : List AskOption
  pub multi_select : Bool

-- `Response`: a map from headers to labels, the newest entry first.
abbrev pub Answers : Type 0
Answers = List (Text × Text)

-- `Request`; the channel for the response has room for one.
pub record AskRequest : Type 0 where
  pub questions : List Question
  pub response : Option Answers

-- The results of the tool, all but `answered` being errors.
pub data AskResult : Type 0 where
  no_questions invalid_format bad_count : AskResult
  bad_options : Text → AskResult
  unavailable cancelled : AskResult
  answered : Answers → AskResult

-- The argument: missing, of another form, or questions.
pub data Argument : Type 0 where
  absent malformed : Argument
  decoded : List Question → Argument

-- The text of the first question that has not 2 to 4 options.
unfoldable pub bad_question : List Question → Option Text
bad_question [] = none
bad_question (q ∷ qs) =
    let rest = bad_question qs in
    if ltb (length q.options) 2 || ltb 4 (length q.options) then some q.text else rest

unfoldable pub check_questions : List Question → Option AskResult
unfolding bad_question
check_questions qs =
    if null qs || ltb 4 (length qs)
    then some AskResult.bad_count
    else elim (bad_question qs) [ some t ↦ some (AskResult.bad_options t) | none ↦ none ]

-- `answer` is what comes back, and `none` where the context ends first.
unfoldable pub ask_execute : Argument → Bool → Option Answers → AskResult
unfolding check_questions
ask_execute absent available answer = AskResult.no_questions
ask_execute malformed available answer = AskResult.invalid_format
ask_execute (decoded qs) available answer = elim (check_questions qs) [
  | some fault ↦ fault
  | none ↦
      if not available
      then AskResult.unavailable
      else elim answer [ some a ↦ AskResult.answered a | none ↦ AskResult.cancelled ]
]
