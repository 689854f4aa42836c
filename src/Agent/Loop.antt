-- ===== src/Agent/Loop.antt =====
-- `Run` of internal/svc/agent.go. What a round meets outside the agent is a record: the memory and
-- the reminder for the request, the stream of the provider, the tools, and the order in which they end.
use codefolio.Common.{
  ℕ, zero, suc, ◌+◌, Text, codes, List, [], ◌∷◌, ◌++◌, true, Option, none, some, map, if◌then◌else◌,
}
use codefolio.Domain.Conversation.{ChatMessage}
use codefolio.Domain.Metrics.{ContextMetrics, ContextEventKind}
use codefolio.Executor.Run.{ToolExecResult}
use codefolio.Executor.Collect.{
  Submission, ToolResultEvent, ExecutorEvent, submits, ends, new_executor, happen_all,
  collect_results,
}
use codefolio.Session.Ids.{itoa}
use codefolio.Session.Ledger.{
  Session, Codec, Env, provider_messages, set_context_metrics, finish_assistant_message,
  update_tool_call_input, add_tool_result_message, start_assistant_message,
}
use codefolio.Context.Tokens.{Conf}
use codefolio.Context.Manager.{
  Manager, done, failed, waiting, StreamItem, ContextPreparation, prepare,
}
use codefolio.Controller.Events.{Event}
use codefolio.Agent.Collector.{PendingCall, Delta, Collector, new_collector, accept_all}

-- How the stream of a round ends: its channel is closed, the context is cancelled, or it fails.
pub data Ending : Type 0 where
  closed : Ending
  cancelled errored : Text → Ending

pub record Round : Type 0 where
  pub now : ℕ
  pub extra : List ChatMessage
  pub schemas : List (Option Text)
  pub summary_items : List StreamItem
  pub deltas : List Delta
  pub ending : Ending
  pub run_tool : ℕ → Submission → ToolExecResult
  -- The tools that end when so many calls are submitted, by their places among those that run.
  pub order : ℕ → List ℕ

pub record RunState (L : Type 0) : Type 0 where
  pub session : Session L
  pub manager : Manager
  pub input_total : ℕ
  pub output_total : ℕ
  pub events : List Event

-- What `Run` returns. `stuck` is a summary whose stream never ends.
pub data RunResult : Type 0 where
  completed stuck : RunResult
  error : Text → RunResult

abbrev pub clock : Round → Env
clock r = record { now = r.now; writable = true }

abbrev pub submission_of : PendingCall → Submission
submission_of p = record { id = p.id; name = p.name; input = p.input }

-- The bound on the rounds, where `MaxIterations` is this number.
abbrev pub iterations : ℕ → ℕ
iterations zero = 30
iterations (suc n) = suc n

unfoldable pub exceeded : ℕ → Text
exceeded n = codes "max agent iterations (" ++ (itoa n ++ codes ") exceeded")

abbrev pub say : {L : Type 0} → RunState L → List Event → RunState L
say st es = record st { events = st.events ++ es }

-- The calls are submitted one after the other, and tools end in between and behind.
unfoldable pub schedule : (ℕ → List ℕ) → ℕ → List Submission → List ExecutorEvent
schedule order n [] = []
schedule order n (s ∷ ss) = submits s ∷ (map (λ k. ends k) (order n) ++ schedule order (suc n) ss)

-- `Submit` for each call, and `CollectResults`.
unfoldable pub tool_results : Round → List PendingCall → List ToolResultEvent
unfolding collect_results happen_all schedule
tool_results r calls =
    let subs = map submission_of calls in
    collect_results (happen_all r.run_tool new_executor (schedule r.order 1 subs)).pending

module _ (codec : Codec) where
  open codec use {Line}

  abbrev pub update_input : Env → RunState Line → PendingCall → RunState Line
  update_input env st p =
      say (record st { session = update_tool_call_input codec env st.session p.id p.input })
        (Event.tool_call p.id p.name p.input ∷ [])

  unfoldable pub update_inputs : Env → RunState Line → List PendingCall → RunState Line
  update_inputs env st [] = st
  update_inputs env st (p ∷ ps) = update_inputs env (update_input env st p) ps

  abbrev pub add_result : Env → RunState Line → ToolResultEvent → RunState Line
  add_result env st e =
      say
        (record st {
          session = add_tool_result_message codec env st.session e.id e.output e.is_error;
        })
        (Event.tool_result e ∷ [])

  unfoldable pub add_results : Env → RunState Line → List ToolResultEvent → RunState Line
  add_results env st [] = st
  add_results env st (e ∷ es) = add_results env (add_result env st e) es

  -- The end of a round in which the provider calls tools: their inputs, their results, the next message.
  unfoldable pub call_tools : Round → RunState Line → List PendingCall → RunState Line
  unfolding update_inputs add_results
  call_tools r st calls =
      let updated = update_inputs (clock r) st calls in
      let answered =
        say (add_results (clock r) updated (tool_results r calls)) (Event.turn_complete ∷ []) in
      record answered { session = start_assistant_message codec (clock r) answered.session }

  -- The state after the stream, with the usage that it reported.
  unfoldable pub account : RunState Line → ContextMetrics → Collector Line → RunState Line
  account st metrics c =
      let measured = record metrics { actual_input_tokens = c.input_tokens } in
      let seen =
        if c.has_usage
        then record st {
          session = set_context_metrics c.session measured;
          events =
              (st.events ++ c.events)
              ++ Event.context
                  (record { metrics = measured; kind = ContextEventKind.measured; detail = [] })
                ∷ [];
        }
        else record st { session = c.session; events = st.events ++ c.events } in
      record seen {
        input_total = seen.input_total + c.input_tokens;
        output_total = seen.output_total + c.output_tokens;
        events =
            seen.events
            ++ Event.usage (seen.input_total + c.input_tokens) (seen.output_total + c.output_tokens)
              ∷ [];
      }

  -- The session and the events when the stream breaks off.
  abbrev pub break_off : RunState Line → Collector Line → List Event → RunState Line
  break_off st c es = record st { session = c.session; events = (st.events ++ c.events) ++ es }

  -- A round behind the preparation: what it leaves, and the result if it ends the run.
  unfoldable pub stream_round :
      Round → RunState Line → ContextPreparation → RunState Line × Option RunResult
  unfolding account call_tools
  stream_round r st p =
      let ready =
        say (record st { session = set_context_metrics st.session p.metrics })
          (map Event.context p.events) in
      let c = accept_all codec (clock r) (new_collector ready.session) r.deltas in
      elim r.ending [
        | cancelled e ↦ (break_off ready c [], some (RunResult.error e))
        | errored e ↦ (break_off ready c (Event.failure e ∷ []), some (RunResult.error e))
        | closed ↦
            let st' = account ready p.metrics c in
            if c.has_tool_use then (call_tools r st' c.tool_calls, none) else (
              say (record st' { session = finish_assistant_message codec (clock r) st'.session })
                  (Event.loop_complete ∷ []),
              some RunResult.completed,
            )
      ]

  unfoldable pub run_round :
      (Text → Text) → Conf → Round → RunState Line → RunState Line × Option RunResult
  unfolding stream_round
  run_round digest cfg r st =
      let prepared =
        prepare digest st.manager (provider_messages st.session ++ r.extra) r.schemas cfg
          r.summary_items in
      let st' = record st { manager = prepared.0 } in
      elim prepared.1 [
        | failed e ↦ (say st' (Event.failure e ∷ []), some (RunResult.error e))
        | waiting ↦ (st', some RunResult.stuck)
        | done p ↦ stream_round r st' p
      ]

  -- The loop, with the rounds that are left of `max_iter`.
  unfoldable pub run_rounds :
      (Text → Text) → Conf → ℕ → (ℕ → Round) → ℕ → ℕ → RunState Line → RunState Line × RunResult
  unfolding run_round
  run_rounds digest cfg max_iter rounds zero iter st =
      (say st (Event.failure (exceeded max_iter) ∷ []), RunResult.error (exceeded max_iter))
  run_rounds digest cfg max_iter rounds (suc left) iter st =
      let next = run_round digest cfg (rounds iter) st in
      let rest = run_rounds digest cfg max_iter rounds left (suc iter) next.0 in
      elim next.1 [ some result ↦ (next.0, result) | none ↦ rest ]

  -- `Run`.
  unfoldable pub agent_run :
      (Text → Text) → Conf → ℕ → (ℕ → Round) → RunState Line → RunState Line × RunResult
  unfolding run_rounds
  agent_run digest cfg max_iterations rounds st =
      run_rounds digest cfg (iterations max_iterations) rounds (iterations max_iterations) 1 st
