-- ===== src/Executor/Collect.antt =====
-- `Submit` and `CollectResults` of internal/infra/executor.go. A call is submitted under the next index
-- and stores its result there when it is done; the calls are done in any order.
use codefolio.Common.{
  ℕ, zero, suc, Text, List, [], ◌∷◌, ◌++◌, Bool, true, false, Option, none, some, length, get_elem?,
}
use codefolio.Domain.Permission.{ToolOutcome}
use codefolio.Executor.Run.{ToolExecResult}

pub record PendingTool : Type 0 where
  pub tool_id : Text
  pub tool_name : Text
  pub input : Text
  pub result : Option ToolExecResult
  pub done : Bool

pub record ToolResultEvent : Type 0 where
  pub id : Text
  pub name : Text
  pub output : Text
  pub is_error : Bool
  pub outcome : ToolOutcome
  pub elapsed : ℕ

-- The part of `Submit` under the lock: the list with the new entry, and the index of the entry.
unfoldable pub submit : List PendingTool → Text → Text → Text → List PendingTool × ℕ
submit pending tool_id tool_name input = (
  pending
      ++ record {
        tool_id = tool_id;
        tool_name = tool_name;
        input = input;
        result = none;
        done = false;
      }
        ∷ [],
  length pending,
)

-- The end of the goroutine that `Submit` starts.
unfoldable pub complete : List PendingTool → ℕ → ToolExecResult → List PendingTool
complete [] i r = []
complete (p ∷ ps) zero r = record p { result = some r; done = true } ∷ ps
complete (p ∷ ps) (suc i) r = p ∷ complete ps i r

abbrev pub event_of_result : ToolExecResult → ToolResultEvent
event_of_result r = record {
  id = r.tool_id;
  name = r.tool_name;
  output = r.output;
  is_error = r.is_error;
  outcome = r.outcome;
  elapsed = r.elapsed;
}

-- The zero value where there is no result.
unfoldable pub event_of : PendingTool → ToolResultEvent
event_of p = elim p.result [
  | none ↦ record {
    id = [];
    name = [];
    output = [];
    is_error = false;
    outcome = ToolOutcome.unset;
    elapsed = 0;
  }
  | some r ↦ event_of_result r
]

unfoldable pub collect_results : List PendingTool → List ToolResultEvent
unfolding event_of
collect_results [] = []
collect_results (p ∷ ps) = event_of p ∷ collect_results ps

-- A call as the agent submits it: the id, the name and the input.
pub record Submission : Type 0 where
  pub id : Text
  pub name : Text
  pub input : Text

-- A goroutine that `Submit` started: the index that it stores under, how many calls were submitted
-- before its own, and its call.
pub record Running : Type 0 where
  pub index : ℕ
  pub serial : ℕ
  pub call : Submission

pub record Executor : Type 0 where
  pub pending : List PendingTool
  pub running : List Running
  pub submitted : ℕ

-- What happens to an executor: a call is submitted, or one of the goroutines that run, given by its
-- place among them, ends.
pub data ExecutorEvent : Type 0 where
  submits : Submission → ExecutorEvent
  ends : ℕ → ExecutorEvent

abbrev pub new_executor : Executor
new_executor = record { pending = []; running = []; submitted = 0 }

unfoldable pub remove_at {ℓ} : {A : Type ℓ} → List A → ℕ → List A
remove_at [] i = []
remove_at (x ∷ xs) zero = xs
remove_at (x ∷ xs) (suc i) = x ∷ remove_at xs i

-- One event. What a run gives may depend on how many calls were submitted before it, so that two equal
-- calls may give different results.
unfoldable pub happen : (ℕ → Submission → ToolExecResult) → Executor → ExecutorEvent → Executor
unfolding submit complete remove_at
happen exec e (submits s) =
    let next = submit e.pending s.id s.name s.input in
    record {
      pending = next.0;
      running = e.running ++ record { index = next.1; serial = e.submitted; call = s } ∷ [];
      submitted = suc e.submitted;
    }
happen exec e (ends k) = elim (get_elem? e.running k) [
  | none ↦ e
  | some g ↦ record e {
    pending = complete e.pending g.index (exec g.serial g.call);
    running = remove_at e.running k;
  }
]

unfoldable pub happen_all :
    (ℕ → Submission → ToolExecResult) → Executor → List ExecutorEvent → Executor
unfolding happen
happen_all exec e [] = e
happen_all exec e (v ∷ vs) = happen_all exec (happen exec e v) vs

-- The calls that are submitted, and the results of the calls from a given number on.
unfoldable pub submissions : List ExecutorEvent → List Submission
submissions [] = []
submissions (submits s ∷ vs) = s ∷ submissions vs
submissions (ends k ∷ vs) = submissions vs

unfoldable pub results_from :
    (ℕ → Submission → ToolExecResult) → ℕ → List Submission → List ToolResultEvent
results_from exec n [] = []
results_from exec n (s ∷ ss) = event_of_result (exec n s) ∷ results_from exec (suc n) ss
