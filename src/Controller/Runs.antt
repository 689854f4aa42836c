-- ===== src/Controller/Runs.antt =====
-- The life of a run in cmd/cli/controller/state.go: `StartSubmission`, `Cancel`, `finish` and what ends
-- a run. The editor that a submission clears is not part of the state.
use codefolio.Common.{
  ℕ, suc, Text, codes, List, [], ◌∷◌, ◌++◌, Bool, true, false, ◌&&◌, ◌==◌, Option, none, some,
  length, is_empty, if◌then◌else◌,
}
use codefolio.Domain.Metrics.{ContextMetrics, ContextEvent}
use codefolio.Session.Ids.{itoa}
use codefolio.Session.Ledger.{
  Session, Codec, Env, add_user_message, start_assistant_message, finish_assistant_message,
  set_context_metrics,
}
use codefolio.Controller.View.{Message, ViewRole, new_message, is_assistant, change_last}
use codefolio.Controller.State.{Controller, StreamState, AgentMode, is_running, next_uint64}
use codefolio.Controller.Approvals.{deny_all_approvals}

abbrev pub numbered : Text → ℕ → Text
numbered prefix n = prefix ++ itoa n

-- A new message that is being streamed, under the next number.
abbrev pub new_segment : ℕ → Message
new_segment n =
    let m = new_message (numbered (codes "assistant-") n) ViewRole.assistant [] in
    record m { streaming = true }

abbrev pub stopped : Text → Message → Message
stopped reason m = record m { streaming = false; error = reason }

module _ {L : Type 0} where
  unfoldable pub profile : Controller L → Text
  profile c = elim c.mode [
    | none ↦ codes "plan"
    | some m ↦ elim m [
      | AgentMode.plan_mode ↦ codes "plan"
      | AgentMode.default_mode ↦ codes "build"
    ]
  ]

  unfoldable pub set_mode : Controller L → AgentMode → Controller L × Bool
  set_mode c m =
      if is_running c.streaming
      then (c, false)
      else elim c.mode [ none ↦ (c, false) | some _ ↦ (record c { mode = some m }, true) ]

  unfoldable pub status : Controller L → Text
  status c =
      if c.cancelling
      then codes "cancelling"
      else if is_running c.streaming
      then codes "working"
      else codes "idle"

  unfoldable pub add_notice : Controller L → Text → Controller L
  add_notice c content = if is_empty content then c else record c {
    messages =
        c.messages
        ++ new_message (numbered (codes "notice-") (suc (length c.messages))) ViewRole.notice
            content
          ∷ [];
  }

  unfoldable pub replace_session : Controller L → Option (Session L) → List Message → Controller L
  replace_session c session messages = elim session [
    | none ↦ c
    | some s ↦ if is_running c.streaming then c else record c {
      session = s;
      messages = messages;
      history = [];
      history_at = 0;
      draft = [];
      input_tokens = 0;
      output_tokens = 0;
      context_metrics = s.context;
    }
  ]

  unfoldable pub set_context_metrics_of : Controller L → ContextMetrics → Controller L
  set_context_metrics_of c m = record c {
    context_metrics = m;
    session = set_context_metrics c.session m;
  }

  unfoldable pub start_assistant_segment : Controller L → Controller L
  start_assistant_segment c = record c {
    messages = c.messages ++ new_segment (suc (length c.messages)) ∷ [];
  }

  unfoldable pub add_context_notice : Controller L → ContextEvent → Controller L
  add_context_notice c e = if is_empty e.detail then c else record c {
    context_notice_id = next_uint64 c.context_notice_id;
    messages =
        c.messages
        ++ new_message (numbered (codes "context-") (next_uint64 c.context_notice_id))
            ViewRole.context e.detail
          ∷ [];
  }

  unfoldable pub finish : Controller L → Text → Controller L
  unfolding change_last
  finish c reason =
      if is_running c.streaming
      then record c {
        messages = change_last is_assistant (stopped reason) c.messages;
        streaming = StreamState.idle;
        cancel = none;
      }
      else c

  unfoldable pub apply_error : Controller L → ℕ → Text → Controller L
  unfolding finish
  apply_error c run err = if (run == c.run_id) && is_running c.streaming then finish c err else c

  unfoldable pub cancel : Controller L → Controller L
  unfolding finish deny_all_approvals
  cancel c = elim c.cancel [
    | none ↦ c
    | some run ↦
        if is_running c.streaming
        then deny_all_approvals (
            let f =
              finish (record c { cancelled = run ∷ c.cancelled; cancel = none })
                (codes "interrupted") in
            record f { cancelling = true })
        else c
  ]

  unfoldable pub shutdown : Controller L → Controller L
  unfolding cancel deny_all_approvals
  shutdown c = deny_all_approvals (cancel c)

module _ (codec : Codec) where
  open codec use {Line}

  -- `StartSubmission` up to the start of the agent, with the clock and the log of the session.
  unfoldable pub start_submission : Env → Controller Line → Text → Text → Controller Line
  start_submission env c display prompt =
      let shown = if is_empty display then prompt else display in
      let n = length c.messages in
      let ask = new_message (numbered (codes "user-") (suc n)) ViewRole.user shown in
      record c {
        history = c.history ++ prompt ∷ [];
        history_at = suc (suc (length c.history));
        draft = [];
        session = start_assistant_message codec env (add_user_message codec env c.session prompt);
        messages =
            (c.messages ++ record ask { profile = profile c } ∷ [])
            ++ new_segment (suc (suc n)) ∷ [];
        streaming = StreamState.running;
        cancelling = false;
        run_id = next_uint64 c.run_id;
        cancel = some (next_uint64 c.run_id);
      }

  -- What the goroutine of a run does when the agent returns.
  unfoldable pub run_ended : Env → Controller Line → ℕ → Controller Line
  run_ended env c run = record c {
    session = finish_assistant_message codec env c.session;
    cancelling = if run == c.run_id then false else c.cancelling;
  }
