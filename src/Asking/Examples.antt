-- ===== src/Asking/Examples.antt =====
-- Inputs for the theorems on the questions to the user.
use codefolio.Common.{
  Text, codes, List, [], ◌∷◌, false, pos, none, some, get_elem?, ◌≡◌, refl, arith,
}
use codefolio.Asking.Tool.{AskOption, Question, Answers, AskRequest, check_questions}
use codefolio.Asking.Dialog.{Asker, no_ask, show_ask, move_ask}
use codefolio.Asking.Lost.{AskStep, AskSteps, overwritten_lost}
use codefolio.Asking.Answered.{walk, lookup_answer, chosen, walk_answers}

abbrev option_of : Text → AskOption
option_of label = record { label = label; description = [] }

abbrev question_of : Text → Question
question_of header = record {
  text = header;
  header = header;
  options = option_of (codes "yes") ∷ option_of (codes "no") ∷ [];
  multi_select = false;
}

-- Two questions have one header.
abbrev three : List Question
three = question_of (codes "lint") ∷ question_of (codes "test") ∷ question_of (codes "lint") ∷ []

abbrev idle : Asker
idle = record { ask = no_ask; ask_open = false; requests = [] }

walk_answers_example :
    (b : Asker) × (m : Answers) × (walk (show_ask idle three) (1 ∷ 1 ∷ 0 ∷ []) ≡ some b)
    × (get_elem? b.requests 0 ≡ some (record { questions = three; response = some m }))
    × (b.ask ≡ no_ask)
    × (b.ask_open ≡ false)
    × ((h : Text) → lookup_answer h m ≡ chosen h three (1 ∷ 1 ∷ 0 ∷ []))
unfolding check_questions
walk_answers_example =
    walk_answers idle three (1 ∷ 1 ∷ 0 ∷ []) refl (omega arith, (omega arith, (omega arith, tt)))

-- Of the two answers under one header, the first is not given back.
last_header : chosen (codes "lint") three (1 ∷ 1 ∷ 0 ∷ []) ≡ some (codes "yes")
unfolding chosen
last_header = refl

overwritten_lost_example :
    (w : AskRequest) × (get_elem?
        (move_ask
          (show_ask (show_ask idle three) (question_of (codes "next") ∷ []))
          (pos 1)).requests
        0
      ≡ some w)
    × (w.questions ≡ three)
    × (w.response ≡ none)
unfolding show_ask
overwritten_lost_example =
    overwritten_lost (show_ask idle three)
      (move_ask (show_ask (show_ask idle three) (question_of (codes "next") ∷ [])) (pos 1)) 0
      (record { questions = three; response = none }) (question_of (codes "next") ∷ []) refl refl
      refl
      (AskSteps.next
        (AskStep.move (show_ask (show_ask idle three) (question_of (codes "next") ∷ [])) (pos 1))
        AskSteps.done)
