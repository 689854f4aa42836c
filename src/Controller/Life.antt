-- ===== src/Controller/Life.antt =====
-- The life of a run in cmd/cli/controller: what holds from its submission to its end, and after a
-- cancellation.
use codefolio.Common.{
  ℕ, Text, codes, List, [], ◌∷◌, ◌++◌, true, false, ◌==◌, none, some, ◌≡◌, refl, ap, ◌∙◌, arith,
  Bool-cases, inl, inr, ◌⊎◌, is_empty,
}
use codefolio.Domain.Metrics.{ContextEvent}
use codefolio.Executor.Collect.{ToolResultEvent}
use codefolio.Controller.View.{Message, is_assistant, change_last}
use codefolio.Controller.State.{Controller, StreamState, is_running}
use codefolio.Controller.Approvals.{deny_all_approvals}
use codefolio.Controller.Runs.{
  finish, apply_error, stopped, start_assistant_segment, add_context_notice, add_notice, cancel,
}
use codefolio.Controller.Events.{
  Event, visit, change_current, apply_tool_call, apply_tool_result, active, makes_notice,
}
use codefolio.Controller.Visits.{
  last_assistant, mapped, last_assistant-change_last, last_assistant-snoc, last_assistant_skip,
}

-- A run goes on exactly if there is something to cancel, which is then the current run, and the message
-- that the assistant is writing is being streamed.
pub record Alive {L : Type 0} (c : Controller L) : Type 0 where
  pub cancellable :
      (c.cancel ≡ none) × (c.streaming ≡ StreamState.idle)
      ⊎ (c.cancel ≡ some c.run_id) × (c.streaming ≡ StreamState.running)
  pub writing :
      (c.streaming ≡ StreamState.idle)
      ⊎ ((m : Message) × (last_assistant c.messages ≡ some m) × (m.streaming ≡ true))

apply_tool_call_keeps :
    (id name input : Text) (m : Message)
    → ((apply_tool_call id name input m).role ≡ m.role)
      × ((apply_tool_call id name input m).streaming ≡ m.streaming)
unfolding apply_tool_call
apply_tool_call_keeps id name input m = ground arith

apply_tool_result_keeps :
    (e : ToolResultEvent) (m : Message)
    → ((apply_tool_result e m).role ≡ m.role) × ((apply_tool_result e m).streaming ≡ m.streaming)
unfolding apply_tool_result
apply_tool_result_keeps e m = ground arith

abbrev Writing : List Message → Type 0
Writing ms = (m : Message) × (last_assistant ms ≡ some m) × (m.streaming ≡ true)

Writing-change :
    (f : Message → Message) (ms : List Message)
    → ((m : Message) → ((f m).role ≡ m.role) × ((f m).streaming ≡ m.streaming))
    → Writing ms
    → Writing (change_last is_assistant f ms)
Writing-change f ms h (m, e, s) =
    (f m, last_assistant-change_last f ms (λ x. (h x).0) ∙ ap (mapped f) e, (h m).1 ∙ s)

Writing-skip :
    (ms : List Message) (m : Message) → is_assistant m ≡ false → Writing ms → Writing (ms ++ m ∷ [])
Writing-skip ms m h (x, e, s) = (x, last_assistant_skip ms m h ∙ e, s)

module _ {L : Type 0} where
  change_current-Alive :
      (c : Controller L) (run : ℕ) (f : Message → Message)
      → ((m : Message) → ((f m).role ≡ m.role) × ((f m).streaming ≡ m.streaming))
      → Alive c
      → Alive (change_current c run f)
  unfolding change_current
  change_current-Alive c run f h a = elim (Bool-cases (active c run)) [
    | inr quiet ↦ simp quiet a
    | inl live ↦ simp live (record {
      cancellable = a.cancellable;
      writing = elim a.writing [ inl i ↦ inl i | inr w ↦ inr (Writing-change f c.messages h w) ];
    })
  ]

  finish-Alive : (c : Controller L) (reason : Text) → Alive c → Alive (finish c reason)
  unfolding finish
  finish-Alive c reason a = elim (Bool-cases (is_running c.streaming)) [
    | inl r ↦ simp r (record { cancellable = inl (refl, refl); writing = inl refl })
    | inr r ↦ simp r a
  ]

  add_context_notice-Alive :
      (c : Controller L) (e : ContextEvent) → Alive c → Alive (add_context_notice c e)
  unfolding add_context_notice
  add_context_notice-Alive c e a = elim (Bool-cases (is_empty e.detail)) [
    | inl y ↦ simp y a
    | inr y ↦ simp y (record {
      cancellable = a.cancellable;
      writing = elim a.writing [ inl i ↦ inl i | inr w ↦ inr (Writing-skip c.messages _ refl w) ];
    })
  ]

  pub add_notice-Alive :
      (c : Controller L) (content : Text) → Alive c → Alive (add_notice c content)
  unfolding add_notice
  add_notice-Alive c content a = elim (Bool-cases (is_empty content)) [
    | inl y ↦ simp y a
    | inr y ↦ simp y (record {
      cancellable = a.cancellable;
      writing = elim a.writing [ inl i ↦ inl i | inr w ↦ inr (Writing-skip c.messages _ refl w) ];
    })
  ]

  start_assistant_segment-Alive : (c : Controller L) → Alive c → Alive (start_assistant_segment c)
  unfolding start_assistant_segment
  start_assistant_segment-Alive c a = record {
    cancellable = a.cancellable;
    writing = inr (_, last_assistant-snoc c.messages _ refl, refl);
  }

  pub visit-Alive : (c : Controller L) (run : ℕ) (e : Event) → Alive c → Alive (visit c run e)
  unfolding visit apply_error
  visit-Alive c run (Event.stream s) a = change_current-Alive c run _ (λ m. (refl, refl)) a
  visit-Alive c run (Event.think s) a = change_current-Alive c run _ (λ m. (refl, refl)) a
  visit-Alive c run (Event.think_start s) a = a
  visit-Alive c run (Event.tool_call id name input) a =
      change_current-Alive c run _ (apply_tool_call_keeps id name input) a
  visit-Alive c run (Event.tool_result e) a =
      change_current-Alive c run _ (apply_tool_result_keeps e) a
  visit-Alive c run Event.turn_complete a = elim (Bool-cases (active c run)) [
    | inl live ↦ simp live (start_assistant_segment-Alive c a)
    | inr quiet ↦ simp quiet a
  ]
  visit-Alive c run Event.loop_complete a = elim (Bool-cases (run == c.run_id)) [
    | inl live ↦ simp live (finish-Alive c [] a)
    | inr quiet ↦ simp quiet a
  ]
  visit-Alive c run (Event.usage input output) a = elim (Bool-cases (run == c.run_id)) [
    | inl live ↦ simp live (record { cancellable = a.cancellable; writing = a.writing })
    | inr quiet ↦ simp quiet a
  ]
  visit-Alive c run (Event.context e) a = elim (Bool-cases (run == c.run_id)) [
    | inr quiet ↦ simp quiet a
    | inl live ↦
        let measured : Controller L = record c { context_metrics = e.metrics } in
        let a' : Alive measured = record { cancellable = a.cancellable; writing = a.writing } in
        elim (Bool-cases (makes_notice e.kind)) [
          | inl n ↦ simp (live, n) (add_context_notice-Alive measured e a')
          | inr n ↦ simp (live, n) a'
        ]
  ]
  visit-Alive c run (Event.failure err) a = elim (Bool-cases (active c run)) [
    | inl live ↦ simp live (finish-Alive c err a)
    | inr quiet ↦ simp quiet a
  ]

  pub deny_all_approvals-Alive : (c : Controller L) → Alive c → Alive (deny_all_approvals c)
  unfolding deny_all_approvals
  deny_all_approvals-Alive c a = record { cancellable = a.cancellable; writing = a.writing }

  -- The controller of a cancelled run, but for the approvals.
  abbrev pub interruption : Controller L → ℕ → Controller L
  interruption c run = record c {
    cancelled = run ∷ c.cancelled;
    messages = change_last is_assistant (stopped (codes "interrupted")) c.messages;
    streaming = StreamState.idle;
    cancel = none;
    cancelling = true;
  }

  pub interrupted :
      (c : Controller L) (run : ℕ)
      → c.streaming ≡ StreamState.running
      → c.cancel ≡ some run
      → cancel c ≡ deny_all_approvals (interruption c run)
  unfolding cancel finish
  interrupted c run going e = rw (e, cancel) (rw going refl)
