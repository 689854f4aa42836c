-- ===== src/Controller/Examples.antt =====
-- Inputs for the theorems on cmd/cli/controller.
use codefolio.Common.{codes, [], ◌∷◌, true, false, none, some, ◌≡◌, refl, ◌==◌, get_elem?}
use codefolio.Domain.Permission.{ToolCategory}
use codefolio.Approval.Broker.{Request, Decision}
use codefolio.Session.Ledger.{Codec, LogRecord, Env, new_session}
use codefolio.Controller.View.{Message}
use codefolio.Controller.State.{Controller, StreamState, AgentMode, new_controller, waiting}
use codefolio.Controller.Approvals.{approval_loop, resolve_approval, enqueue_approval}
use codefolio.Controller.Queue.{Inv, Settled}
use codefolio.Controller.Runs.{start_submission, cancel}
use codefolio.Controller.Events.{Event, visit}
use codefolio.Controller.Visits.{last_assistant}
use codefolio.Controller.Life.{Alive}
use codefolio.Controller.Cancel.{Life, begin, submit, event, arrive}
use codefolio.Controller.Reached.{Life-Alive, cancel_ends}
use codefolio.Controller.Decisions.{decision_answers_shown}

abbrev codec : Codec
codec = record { Line = LogRecord; size = λ _. 0; marshal = λ r. some r; unmarshal = λ r. some r }

abbrev env : Env
env = record { now = 1; writable = true }

abbrev start : Controller LogRecord
start = new_controller (new_session 0) (some AgentMode.default_mode)

abbrev request : Request
request = record {
  id = codes "1";
  key = codes "build:Bash:make";
  tool_id = codes "1";
  tool_name = codes "Bash";
  category = ToolCategory.command;
  summary = codes "make";
  detail = [];
  response = none;
}

-- A submission, a word of its answer, and two requests for approval.
abbrev asked : Controller LogRecord
asked = visit (start_submission codec env start [] (codes "build it")) 1 (Event.stream (codes "ok"))

abbrev busy : Controller LogRecord
busy = approval_loop (approval_loop asked true request) true request

busy-Life : Life codec start busy
busy-Life = arrive true request refl (
    arrive true request refl
      (event 1 (Event.stream (codes "ok")) (submit env [] (codes "build it") begin)))

busy_runs : busy.streaming ≡ StreamState.running
unfolding approval_loop enqueue_approval visit start_submission new_controller
busy_runs = refl

busy_shows : busy.approval.request ≡ some 0
unfolding approval_loop enqueue_approval visit start_submission new_controller
busy_shows = refl

Life-Alive_example : Alive busy × Inv busy
Life-Alive_example = Life-Alive codec (new_session 0) (some AgentMode.default_mode) busy-Life

cancel_ends_example :
    ((cancel busy).streaming ≡ StreamState.idle)
    × ((cancel busy).cancelled ≡ busy.run_id ∷ busy.cancelled)
    × ((m : Message) × (last_assistant (cancel busy).messages ≡ some m)
        × (m.streaming ≡ false)
        × (m.error ≡ codes "interrupted"))
    × (waiting (cancel busy).approval ≡ [])
    × Settled (cancel busy).requests []
cancel_ends_example =
    cancel_ends codec (new_session 0) (some AgentMode.default_mode) busy-Life busy_runs

decision_answers_shown_example :
    (r : Request) × (get_elem? busy.requests 0 ≡ some r)
    × (r.response ≡ none)
    × (get_elem? (resolve_approval busy Decision.allow_once).requests 0
        ≡ some (record r { response = some Decision.allow_once }))
    × (waiting (resolve_approval busy Decision.allow_once).approval ≡ busy.approval.queue)
decision_answers_shown_example =
    decision_answers_shown codec (new_session 0) (some AgentMode.default_mode) 0 Decision.allow_once
      busy-Life busy_shows

busy_run : (0 == busy.run_id) ≡ false
unfolding approval_loop enqueue_approval visit start_submission new_controller
busy_run = refl

abbrev remembering : Controller LogRecord
remembering = record start { history = codes "one" ∷ codes "two" ∷ []; history_at = 3 }
