-- ===== src/Controller/State.antt =====
-- The state of the controller in cmd/cli/controller/state.go. Requests are shared with the broker, so
-- they stand in a list of all requests made, and the controller holds their places in it.
use codefolio.Common.{ℕ, suc, ◌%◌, Text, List, [], ◌∷◌, Bool, true, false, Option, none, some}
use codefolio.Domain.Metrics.{ContextMetrics}
use codefolio.Approval.Broker.{Request}
use codefolio.Session.Ledger.{Session, no_metrics}
use codefolio.Controller.View.{Message}

pub data StreamState : Type 0 where
  idle running : StreamState

pub data AgentMode : Type 0 where
  default_mode plan_mode : AgentMode

-- The request that is shown and those behind it, by their places.
pub record ApprovalState : Type 0 where
  pub request : Option ℕ
  pub queue : List ℕ

-- `history_at` is one more than `historyAt`, which is -1 in a controller with no history. `mode` is that
-- of the agent, and `none` where there is no agent. `cancel` is the run whose context it cancels, and
-- `cancelled` are the runs whose contexts are cancelled. `approval_open` is what `setApprovalOpen` was
-- told last.
pub record Controller (L : Type 0) : Type 0 where
  pub session : Session L
  pub mode : Option AgentMode
  pub messages : List Message
  pub streaming : StreamState
  pub cancelling : Bool
  pub run_id : ℕ
  pub cancel : Option ℕ
  pub cancelled : List ℕ
  pub history : List Text
  pub history_at : ℕ
  pub draft : Text
  pub input_tokens : ℕ
  pub output_tokens : ℕ
  pub context_metrics : ContextMetrics
  pub context_notice_id : ℕ
  pub approval : ApprovalState
  pub approval_open : Bool
  pub requests : List Request

abbrev pub no_approval : ApprovalState
no_approval = record { request = none; queue = [] }

unfoldable pub new_controller : {L : Type 0} → Session L → Option AgentMode → Controller L
new_controller session mode = record {
  session = session;
  mode = mode;
  messages = [];
  streaming = StreamState.idle;
  cancelling = false;
  run_id = 0;
  cancel = none;
  cancelled = [];
  history = [];
  history_at = 0;
  draft = [];
  input_tokens = 0;
  output_tokens = 0;
  context_metrics = no_metrics;
  context_notice_id = 0;
  approval = no_approval;
  approval_open = false;
  requests = [];
}

abbrev pub is_running : StreamState → Bool
is_running StreamState.running = true
is_running StreamState.idle = false

-- A `uint64` counter.
abbrev pub next_uint64 : ℕ → ℕ
next_uint64 n = suc n % 18446744073709551616

-- The requests that wait, the one that is shown first.
abbrev pub waiting : ApprovalState → List ℕ
waiting a = elim a.request [ none ↦ a.queue | some i ↦ i ∷ a.queue ]
