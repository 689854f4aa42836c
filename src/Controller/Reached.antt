-- ===== src/Controller/Reached.antt =====
-- What holds of every controller that the interface of cmd/cli reaches, and what a cancellation leaves.
use codefolio.Common.{
  ℕ, Text, codes, List, map, [], ◌∷◌, false, Option, some, ◌≡◌, refl, ap, sym, ◌∙◌, arith, inl, inr,
}
use codefolio.Approval.Broker.{Decision}
use codefolio.Session.Ledger.{Session, Codec, Env}
use codefolio.Controller.View.{Message, toggle_last_thinking, toggle_thinking, toggle_tool}
use codefolio.Controller.State.{Controller, StreamState, AgentMode, new_controller, waiting}
use codefolio.Controller.Approvals.{
  deny_all_approvals, approval_loop, resolve_approval, dismiss_approval,
}
use codefolio.Controller.Queue.{Inv, Settled}
use codefolio.Controller.Answers.{
  deny_all_approvals-Inv, approval_loop-Inv, resolve_approval-Inv, new_controller-Inv,
  dismiss_approval-Inv,
}
use codefolio.Controller.Runs.{
  finish, stopped, start_assistant_segment, add_context_notice, add_notice, apply_error, cancel,
  start_submission, run_ended, replace_session, set_mode, set_context_metrics_of,
}
use codefolio.Controller.History.{history_up, history_down}
use codefolio.Controller.Events.{Event, visit, change_current}
use codefolio.Controller.Visits.{
  last_assistant, mapped, last_assistant-change_last, last_assistant-snoc,
}
use codefolio.Controller.Life.{Alive, add_notice-Alive, visit-Alive, interruption, interrupted}
use codefolio.Controller.Cancel.{
  Life, begin, submit, event, ended, notice, cancelling, closing, arrive, decide, dismiss, replaced,
  mode_set, measure, upward, downward, last_toggled, thinking_toggled, tool_toggled, cancel-Alive,
  cancel-Inv, shutdown-Alive, shutdown-Inv, Same, Same-Alive, approval_loop-Same,
  resolve_approval-Same, Unasked, Unasked-Inv,
}
use codefolio.Controller.Kept.{
  seen, Alive-seen, seen-toggle_last_thinking, seen-toggle_thinking, seen-toggle_tool,
  replace_session-Alive, set_mode_lem, set_context_metrics_of_lem, history_up_lem, history_down_lem,
}

module _ {L : Type 0} where
  visit-Unasked : (c : Controller L) (run : ℕ) (e : Event) → Unasked (visit c run e) c
  unfolding visit change_current apply_error finish start_assistant_segment add_context_notice
  visit-Unasked c run (Event.stream s) = ground arith
  visit-Unasked c run (Event.think s) = ground arith
  visit-Unasked c run (Event.think_start s) = (refl, refl, refl)
  visit-Unasked c run (Event.tool_call id name input) = ground arith
  visit-Unasked c run (Event.tool_result r) = ground arith
  visit-Unasked c run Event.turn_complete = ground arith
  visit-Unasked c run Event.loop_complete = ground arith
  visit-Unasked c run (Event.usage input output) = ground arith
  visit-Unasked c run (Event.context e) = ground arith
  visit-Unasked c run (Event.failure err) = ground arith

  add_notice-Unasked : (c : Controller L) (content : Text) → Unasked (add_notice c content) c
  unfolding add_notice
  add_notice-Unasked c content = ground arith

  new_controller-Alive :
      (session : Session L) (mode : Option AgentMode) → Alive (new_controller session mode)
  unfolding new_controller
  new_controller-Alive session mode = record { cancellable = inl (refl, refl); writing = inl refl }

  dismiss_approval-Same : (c : Controller L) → Same (dismiss_approval c) c
  unfolding dismiss_approval
  dismiss_approval-Same c = resolve_approval-Same c Decision.cancelled

module _ (codec : Codec) where
  open codec use {Line}

  start_submission_lem :
      (env : Env) (k : Controller Line) (display prompt : Text)
      → Alive (start_submission codec env k display prompt)
        × Unasked (start_submission codec env k display prompt) k
  unfolding start_submission
  start_submission_lem env k display prompt = (
    record {
      cancellable = inr (refl, refl);
      writing = inr (_, last_assistant-snoc _ _ refl, refl);
    },
    (refl, refl, refl),
  )

  still : (d k : Controller Line) → Same d k × Unasked d k → Alive k × Inv k → Alive d × Inv d
  still d k (same, unasked) (alive, inv) = (Same-Alive d k same alive, Unasked-Inv d k unasked inv)

  shown :
      (k : Controller Line) (ms : List Message)
      → map seen ms ≡ map seen k.messages
      → Alive k × Inv k
      → Alive (record k { messages = ms }) × Inv (record k { messages = ms })
  shown k ms h (alive, inv) = (Alive-seen k ms h alive, inv)

  run_ended_lem :
      (env : Env) (k : Controller Line) (run : ℕ)
      → Same (run_ended codec env k run) k × Unasked (run_ended codec env k run) k
  unfolding run_ended
  run_ended_lem env k run = ((refl, refl, refl, refl), (refl, refl, refl))

  -- In every controller that is reached, a run goes on exactly if there is something to cancel, which
  -- is then the current run, and its message is being streamed; and a request for approval has an
  -- answer exactly if it does not wait in the queue or on the screen.
  pub Life-Alive :
      (session : Session Line) (mode : Option AgentMode) {k : Controller Line}
      → Life codec (new_controller session mode) k
      → Alive k × Inv k
  Life-Alive session mode begin =
      (new_controller-Alive session mode, new_controller-Inv session mode)
  Life-Alive session mode (submit {k} env display prompt t) =
      let (alive, same) = start_submission_lem env k display prompt in
      (
        alive,
        Unasked-Inv (start_submission codec env k display prompt) k same
            (Life-Alive session mode t).1,
      )
  Life-Alive session mode (event {k} run e t) =
      let (alive, inv) = Life-Alive session mode t in
      (visit-Alive k run e alive, Unasked-Inv (visit k run e) k (visit-Unasked k run e) inv)
  Life-Alive session mode (ended {k} env run t) =
      still (run_ended codec env k run) k (run_ended_lem env k run) (Life-Alive session mode t)
  Life-Alive session mode (notice {k} content t) =
      let (alive, inv) = Life-Alive session mode t in
      (
        add_notice-Alive k content alive,
        Unasked-Inv (add_notice k content) k (add_notice-Unasked k content) inv,
      )
  Life-Alive session mode (cancelling {k} t) =
      let (alive, inv) = Life-Alive session mode t in (cancel-Alive k alive, cancel-Inv k alive inv)
  Life-Alive session mode (closing {k} t) =
      let (alive, inv) = Life-Alive session mode t in
      (shutdown-Alive k alive, shutdown-Inv k alive inv)
  Life-Alive session mode (arrive {k} dispatched r fresh t) =
      let (alive, inv) = Life-Alive session mode t in
      (
        Same-Alive (approval_loop k dispatched r) k (approval_loop-Same k dispatched r) alive,
        approval_loop-Inv k dispatched r inv fresh,
      )
  Life-Alive session mode (decide {k} d t) =
      let (alive, inv) = Life-Alive session mode t in
      (
        Same-Alive (resolve_approval k d) k (resolve_approval-Same k d) alive,
        resolve_approval-Inv k d inv,
      )
  Life-Alive session mode (dismiss {k} t) =
      let (alive, inv) = Life-Alive session mode t in
      (
        Same-Alive (dismiss_approval k) k (dismiss_approval-Same k) alive,
        dismiss_approval-Inv k inv,
      )
  Life-Alive session mode (replaced {k} s ms t) =
      let (alive, inv) = Life-Alive session mode t in
      let (alive', same) = replace_session-Alive k s ms alive in
      (alive', Unasked-Inv (replace_session k s ms) k same inv)
  Life-Alive session mode (mode_set {k} m t) =
      still (set_mode k m).0 k (set_mode_lem k m) (Life-Alive session mode t)
  Life-Alive session mode (measure {k} m t) =
      still (set_context_metrics_of k m) k (set_context_metrics_of_lem k m)
        (Life-Alive session mode t)
  Life-Alive session mode (upward {k} value t) =
      still (history_up k value).0 k (history_up_lem k value) (Life-Alive session mode t)
  Life-Alive session mode (downward {k} t) =
      still (history_down k).0 k (history_down_lem k) (Life-Alive session mode t)
  Life-Alive session mode (last_toggled {k} t) =
      shown k (toggle_last_thinking k.messages) (seen-toggle_last_thinking k.messages)
        (Life-Alive session mode t)
  Life-Alive session mode (thinking_toggled {k} id t) =
      shown k (toggle_thinking id k.messages) (seen-toggle_thinking id k.messages)
        (Life-Alive session mode t)
  Life-Alive session mode (tool_toggled {k} message_id tool_id t) =
      shown k (toggle_tool message_id tool_id k.messages)
        (seen-toggle_tool message_id tool_id k.messages) (Life-Alive session mode t)

  idle_not_running : StreamState.idle ≡ StreamState.running → ⊥
  idle_not_running h = cc

  Settled-none : (k : Controller Line) → waiting k.approval ≡ [] → Inv k → Settled k.requests []
  Settled-none k h inv = rw h at inv.settled

  deny_all_lem :
      (k : Controller Line)
      → ((deny_all_approvals k).streaming ≡ k.streaming)
        × ((deny_all_approvals k).cancelled ≡ k.cancelled)
        × ((deny_all_approvals k).messages ≡ k.messages)
        × (waiting (deny_all_approvals k).approval ≡ [])
  unfolding deny_all_approvals
  deny_all_lem k = (refl, refl, refl, refl)

  -- A cancellation of a run that goes on, in a controller that is reached, ends it: the context of the
  -- run is cancelled, its message is no longer streamed and says that it was interrupted, no request
  -- waits for approval, and every request has an answer.
  pub cancel_ends :
      (session : Session Line) (mode : Option AgentMode) {k : Controller Line}
      → Life codec (new_controller session mode) k
      → k.streaming ≡ StreamState.running
      → ((cancel k).streaming ≡ StreamState.idle)
        × ((cancel k).cancelled ≡ k.run_id ∷ k.cancelled)
        × ((m : Message) × (last_assistant (cancel k).messages ≡ some m)
            × (m.streaming ≡ false)
            × (m.error ≡ codes "interrupted"))
        × (waiting (cancel k).approval ≡ [])
        × Settled (cancel k).requests []
  cancel_ends session mode {k} life going =
      let (alive, inv) = Life-Alive session mode life in
      let denied = interruption k k.run_id in
      let all = deny_all_approvals-Inv denied inv in
      let (a, b, ms, none_waits) = deny_all_lem denied in
      elim alive.cancellable [
        | inl (_, quiet) ↦ absurd (idle_not_running (sym quiet ∙ going))
        | inr (e, _) ↦ elim alive.writing [
          | inl quiet ↦ absurd (idle_not_running (sym quiet ∙ going))
          | inr (m, last, _) ↦ rw (interrupted k k.run_id going e) (
            a,
            b,
            (
              stopped (codes "interrupted") m,
              ap last_assistant ms
                  ∙ (last_assistant-change_last (stopped (codes "interrupted")) k.messages
                        (λ x. refl)
                      ∙ ap (mapped (stopped (codes "interrupted"))) last),
              refl,
              refl,
            ),
            none_waits,
            Settled-none (deny_all_approvals denied) none_waits all,
          )
        ]
      ]
