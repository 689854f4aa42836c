-- ===== src/Agent/Log.antt =====
-- The log that a run of internal/svc/agent.go leaves.
use codefolio.Common.{
  ℕ, zero, suc, Text, List, [], ◌∷◌, ◌++◌, Bool, true, false, Option, none, some, ◌≡◌, refl, sym,
  ◌∙◌, Bool-cases, Option-cases, inl, inr, ◌⊎◌, ◌≤◌, map,
}
use codefolio.Domain.Metrics.{ContextMetrics}
use codefolio.Executor.Collect.{ToolResultEvent}
use codefolio.Session.Ids.{int_limit}
use codefolio.Session.Ledger.{
  Session, Codec, finish_assistant_message, set_context_metrics, provider_messages,
}
use codefolio.Session.Load.{load, any_too_long}
use codefolio.Session.Turns.Coded.{IsFaithful, cleaned}
use codefolio.Session.Turns.State.{
  Phase, closed, streaming, Turns, finish, input, tool_result, assistant, metrics,
}
use codefolio.Session.Turns.Steps.{writing}
use codefolio.Session.Turns.Reload.{IsFresh, reload_messages}
use codefolio.Context.Tokens.{Conf}
use codefolio.Context.Manager.{ContextPreparation, prepare}
use codefolio.Controller.Events.{Event}
use codefolio.Agent.Collector.{PendingCall, Collector, new_collector, accept_all}
use codefolio.Agent.Loop.{
  Round, Ending, RunState, RunResult, clock, say, update_input, add_result, update_inputs,
  add_results, call_tools, account, stream_round, run_round, run_rounds, agent_run, iterations,
  tool_results,
}
use codefolio.Context.Limits.{Outcome-cases}
use codefolio.Agent.Closed.{finish_closes}
use codefolio.Agent.Stream.{ordered, phase_of, Reading, accept_all-Reading}

module _ (codec : Codec) where
  open codec use {Line}

  update_inputs-Turns :
      {start : Session Line} (now : ℕ) (st : RunState Line) (calls : List PendingCall)
      → Turns codec start closed st.session
      → Turns codec start closed (update_inputs codec (writing now) st calls).session
  unfolding update_inputs
  update_inputs-Turns now st [] t = t
  update_inputs-Turns now st (p ∷ ps) t =
      update_inputs-Turns now (update_input codec (writing now) st p) ps (input now p.id p.input t)

  add_results-Turns :
      {start : Session Line} (now : ℕ) (st : RunState Line) (es : List ToolResultEvent)
      → Turns codec start closed st.session
      → Turns codec start closed (add_results codec (writing now) st es).session
  unfolding add_results
  add_results-Turns now st [] t = t
  add_results-Turns now st (e ∷ es) t =
      add_results-Turns now (add_result codec (writing now) st e) es
        (tool_result now e.id e.output e.is_error t)

  call_tools-Turns :
      {start : Session Line} (r : Round) (st : RunState Line) (calls : List PendingCall)
      → Turns codec start closed st.session
      → Turns codec start streaming (call_tools codec r st calls).session
  unfolding call_tools
  call_tools-Turns r st calls t = assistant r.now (
      add_results-Turns r.now (update_inputs codec (clock r) st calls) (tool_results r calls)
        (update_inputs-Turns r.now st calls t))

  account-Turns :
      {start : Session Line} {p : Phase} (st : RunState Line) (m : ContextMetrics)
      (c : Collector Line)
      → Turns codec start p c.session
      → Turns codec start p (account codec st m c).session
  unfolding account
  account-Turns st m c t = elim (Bool-cases c.has_usage) [
    | inl e ↦ simp e (metrics _ t)
    | inr e ↦ simp e t
  ]

  -- What a round leaves: a message that is being streamed, where the run goes on.
  abbrev Left : Session Line → RunState Line × Option RunResult → Type 0
  Left start (st, none) = Turns codec start streaming st.session
  Left start (st, some r) = (p : Phase) × Turns codec start p st.session

  stream_round-Left :
      {start : Session Line} (r : Round) (st : RunState Line) (p : ContextPreparation)
      → start.messages ≡ []
      → ordered false r.deltas ≡ true
      → Turns codec start streaming st.session
      → Left start (stream_round codec r st p)
  unfolding stream_round
  stream_round-Left {start} r st p fresh o t = go r.ending refl
    where
      ready : Session Line
      ready = set_context_metrics st.session p.metrics

      before : RunState Line
      before = say (record st { session = ready }) (map Event.context p.events)

      c : Collector Line
      c = accept_all codec (clock r) (new_collector ready) r.deltas

      read : (s : Bool) × Reading codec start s c
      read =
          accept_all-Reading codec fresh r.now (new_collector ready) false r.deltas
            (record { turns = metrics p.metrics t; flag = refl; reason = inr refl }) o

      phase_is : (b : Bool) → c.has_tool_use ≡ b → Turns codec start (phase_of b) c.session
      phase_is b e =
          let (s, reading) = read in
          let same : s ≡ b = sym reading.flag ∙ e in rw same at reading.turns

      go : (e : Ending) → r.ending ≡ e → Left start (stream_round codec r st p)
      go (Ending.cancelled e) h = rw (h, stream_round) (phase_of read.0, read.1.turns)
      go (Ending.errored e) h = rw (h, stream_round) (phase_of read.0, read.1.turns)
      go Ending.closed h = elim (Bool-cases c.has_tool_use) [
        | inl u ↦
            rw (h, stream_round)
              (rw u (
                call_tools-Turns r (account codec before p.metrics c) c.tool_calls
                  (account-Turns before p.metrics c (phase_is true u))))
        | inr u ↦
            rw (h, stream_round)
              (rw u (closed, finish r.now (account-Turns before p.metrics c (phase_is false u))))
      ]

  run_round-Left :
      {start : Session Line} (digest : Text → Text) (cfg : Conf) (r : Round) (st : RunState Line)
      → start.messages ≡ []
      → ordered false r.deltas ≡ true
      → Turns codec start streaming st.session
      → Left start (run_round codec digest cfg r st)
  unfolding run_round
  run_round-Left {start} digest cfg r st fresh o t =
      let prepared =
        prepare digest st.manager (provider_messages st.session ++ r.extra) r.schemas cfg
          r.summary_items in
      let st' : RunState Line = record st { manager = prepared.0 } in
      elim (Outcome-cases prepared.1) [
        | inl (p, e) ↦ rw (e, run_round) (stream_round-Left r st' p fresh o t)
        | inr (inl (m, e)) ↦ rw (e, run_round) (streaming, t)
        | inr (inr e) ↦ rw (e, run_round) (streaming, t)
      ]

  Left-go_on :
      {start : Session Line} (x : RunState Line × Option RunResult)
      → Left start x
      → x.1 ≡ none
      → Turns codec start streaming x.0.session
  Left-go_on (st, none) l e = l
  Left-go_on (st, some r) l e = cc

  Left-stop :
      {start : Session Line} (x : RunState Line × Option RunResult)
      → Left start x
      → (p : Phase) × Turns codec start p x.0.session
  Left-stop (st, none) l = (streaming, l)
  Left-stop (st, some r) l = l

  run_rounds-Turns :
      {start : Session Line} (digest : Text → Text) (cfg : Conf) (max_iter : ℕ) (rounds : ℕ → Round)
      (left iter : ℕ) (st : RunState Line)
      → start.messages ≡ []
      → ((i : ℕ) → ordered false (rounds i).deltas ≡ true)
      → Turns codec start streaming st.session
      → (p : Phase) × Turns codec start p
          (run_rounds codec digest cfg max_iter rounds left iter st).0.session
  unfolding run_rounds
  run_rounds-Turns digest cfg max_iter rounds zero iter st fresh o t = (streaming, t)
  run_rounds-Turns {start} digest cfg max_iter rounds (suc left) iter st fresh o t =
      let next = run_round codec digest cfg (rounds iter) st in
      let left_by = run_round-Left digest cfg (rounds iter) st fresh (o iter) t in
      elim (Option-cases next.1) [
        | inl e ↦
            rw (e, run_rounds)
              (run_rounds-Turns digest cfg max_iter rounds left (suc iter) next.0 fresh o
                (Left-go_on next left_by e))
        | inr (r, e) ↦ rw (e, run_rounds) (Left-stop next left_by)
      ]

  -- Where the encoder is faithful and every write to the log succeeds: a run of the agent, whatever the
  -- provider, the tools and the memory give and however it ends, leaves a log that, after the
  -- `FinishAssistantMessage` that follows it and with no line past the scanner's limit, loads to a session
  -- with the same messages, their texts cleaned as the encoder replaces invalid UTF-8, if the session was
  -- made by the turns of the agent from a fresh one and ends in a message that is being streamed, and the
  -- provider sends its deltas in order.
  pub agent_run_reloads :
      {start : Session Line} (digest : Text → Text) (cfg : Conf) (max_iterations : ℕ)
      (rounds : ℕ → Round) (st : RunState Line) (now later : ℕ)
      → (faithful : IsFaithful codec) → IsFresh start
      → ((i : ℕ) → ordered false (rounds i).deltas ≡ true)
      → Turns codec start streaming st.session
      → any_too_long codec
          (finish_assistant_message codec
            (writing now)
            (agent_run codec digest cfg max_iterations rounds st).0.session).file
        ≡ false
      → let s =
          finish_assistant_message codec
            (writing now)
            (agent_run codec digest cfg max_iterations rounds st).0.session in
        (t : Session Line) × (load codec later s.log_path (some s.file) ≡ some t)
        × (t.messages ≡ map (cleaned faithful.clean) s.messages)
        × ((int_limit ≤ s.msg_seq) ⊎ (t.msg_seq ≡ s.msg_seq))
        × (t.log_path ≡ s.log_path)
        × (t.file ≡ s.file)
  unfolding agent_run
  agent_run_reloads digest cfg max_iterations rounds st now later faithful fresh o t short =
      let (p, turns) =
        run_rounds-Turns digest cfg (iterations max_iterations) rounds (iterations max_iterations) 1
          st fresh.no_messages o t in
      reload_messages codec faithful later fresh (finish_closes codec now fresh.no_messages turns)
        short
