-- ===== src/Controller/Cancel.antt =====
-- What a cancellation in cmd/cli/controller leaves, from a new controller on, and a segment that is
-- never finished.
use codefolio.Common.{ℕ, Text, List, Option, Bool, true, false, none, ◌≡◌, refl, arith, inl, inr}
use codefolio.Domain.Metrics.{ContextMetrics}
use codefolio.Approval.Broker.{Request, Decision}
use codefolio.Session.Ledger.{Session, Codec, Env}
use codefolio.Controller.View.{Message, toggle_last_thinking, toggle_thinking, toggle_tool}
use codefolio.Controller.State.{Controller, AgentMode}
use codefolio.Controller.History.{history_up, history_down}
use codefolio.Controller.Approvals.{
  approval_loop, enqueue_approval, resolve_approval, advance_approval, dismiss_approval,
}
use codefolio.Controller.Queue.{Inv}
use codefolio.Controller.Answers.{deny_all_approvals-Inv}
use codefolio.Controller.Runs.{
  add_notice, cancel, shutdown, start_submission, run_ended, replace_session, set_mode,
  set_context_metrics_of,
}
use codefolio.Controller.Events.{Event, visit}
use codefolio.Controller.Life.{Alive, deny_all_approvals-Alive, interruption, interrupted}

-- All that the interface does with a controller, apart from the questions of the tool that asks the
-- user, which have a state of their own.
pub data Life (c : Codec) (start : Controller c.Line) : Controller c.Line → Type 0 where
  begin : Life c start start
  submit :
      {k : Controller c.Line} (env : Env) (display prompt : Text)
      → Life c start k
      → Life c start (start_submission c env k display prompt)
  event :
      {k : Controller c.Line} (run : ℕ) (e : Event) → Life c start k → Life c start (visit k run e)
  ended :
      {k : Controller c.Line} (env : Env) (run : ℕ)
      → Life c start k
      → Life c start (run_ended c env k run)
  notice :
      {k : Controller c.Line} (content : Text)
      → Life c start k
      → Life c start (add_notice k content)
  cancelling : {k : Controller c.Line} → Life c start k → Life c start (cancel k)
  closing : {k : Controller c.Line} → Life c start k → Life c start (shutdown k)
  arrive :
      {k : Controller c.Line} (dispatched : Bool) (r : Request)
      → r.response ≡ none
      → Life c start k
      → Life c start (approval_loop k dispatched r)
  decide :
      {k : Controller c.Line} (d : Decision) → Life c start k → Life c start (resolve_approval k d)
  dismiss : {k : Controller c.Line} → Life c start k → Life c start (dismiss_approval k)
  replaced :
      {k : Controller c.Line} (session : Option (Session c.Line)) (messages : List Message)
      → Life c start k
      → Life c start (replace_session k session messages)
  mode_set :
      {k : Controller c.Line} (m : AgentMode) → Life c start k → Life c start (set_mode k m).0
  measure :
      {k : Controller c.Line} (m : ContextMetrics)
      → Life c start k
      → Life c start (set_context_metrics_of k m)
  upward :
      {k : Controller c.Line} (value : Text) → Life c start k → Life c start (history_up k value).0
  downward : {k : Controller c.Line} → Life c start k → Life c start (history_down k).0
  last_toggled :
      {k : Controller c.Line}
      → Life c start k
      → Life c start (record k { messages = toggle_last_thinking k.messages })
  thinking_toggled :
      {k : Controller c.Line} (id : Text)
      → Life c start k
      → Life c start (record k { messages = toggle_thinking id k.messages })
  tool_toggled :
      {k : Controller c.Line} (message_id tool_id : Text)
      → Life c start k
      → Life c start (record k { messages = toggle_tool message_id tool_id k.messages })

module _ {L : Type 0} where
  pub cancel-Alive : (c : Controller L) → Alive c → Alive (cancel c)
  unfolding cancel
  cancel-Alive c a = elim a.cancellable [
    | inl (nothing, quiet) ↦ rw (nothing, cancel) a
    | inr (e, going) ↦ rw (interrupted c c.run_id going e) (
        deny_all_approvals-Alive (interruption c c.run_id)
          (record { cancellable = inl (refl, refl); writing = inl refl }))
  ]

  pub cancel-Inv : (c : Controller L) → Alive c → Inv c → Inv (cancel c)
  unfolding cancel
  cancel-Inv c a inv = elim a.cancellable [
    | inl (nothing, quiet) ↦ rw (nothing, cancel) inv
    | inr (e, going) ↦
        rw (interrupted c c.run_id going e) (deny_all_approvals-Inv (interruption c c.run_id) inv)
  ]

  pub shutdown-Alive : (c : Controller L) → Alive c → Alive (shutdown c)
  unfolding shutdown
  shutdown-Alive c a = deny_all_approvals-Alive (cancel c) (cancel-Alive c a)

  pub shutdown-Inv : (c : Controller L) → Alive c → Inv c → Inv (shutdown c)
  unfolding shutdown
  shutdown-Inv c a inv = deny_all_approvals-Inv (cancel c) (cancel-Inv c a inv)

  -- What the approvals do not touch.
  abbrev pub Same : Controller L → Controller L → Type 0
  Same c d =
      (c.cancel ≡ d.cancel)
      × (c.run_id ≡ d.run_id)
      × (c.streaming ≡ d.streaming)
      × (c.messages ≡ d.messages)

  pub Same-Alive : (c d : Controller L) → Same c d → Alive d → Alive c
  Same-Alive c d (a, b, e, f) h = record {
    cancellable = rw (a, b, e) h.cancellable;
    writing = rw (e, f) h.writing;
  }

  pub approval_loop-Same :
      (c : Controller L) (dispatched : Bool) (r : Request) → Same (approval_loop c dispatched r) c
  unfolding approval_loop enqueue_approval
  approval_loop-Same c true r = ground arith
  approval_loop-Same c false r = (refl, refl, refl, refl)

  pub resolve_approval-Same : (c : Controller L) (d : Decision) → Same (resolve_approval c d) c
  unfolding resolve_approval advance_approval
  resolve_approval-Same c d = ground arith

  -- What the runs do not touch.
  abbrev pub Unasked : Controller L → Controller L → Type 0
  Unasked c d =
      (c.approval ≡ d.approval) × (c.approval_open ≡ d.approval_open) × (c.requests ≡ d.requests)

  pub Unasked-Inv : (c d : Controller L) → Unasked c d → Inv d → Inv c
  Unasked-Inv c d (a, b, e) h = rw (a, b, e) h
