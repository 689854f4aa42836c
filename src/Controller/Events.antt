-- ===== src/Controller/Events.antt =====
-- The visitor of cmd/cli/controller/agent.go: what an event of a run does to the controller, once the
-- interface's loop takes it.
use codefolio.Common.{
  ℕ, Text, [], ◌∷◌, ◌++◌, Bool, true, false, ◌&&◌, ◌==◌, none, some, if◌then◌else◌,
}
use codefolio.Domain.Metrics.{ContextEvent, ContextEventKind}
use codefolio.Executor.Collect.{ToolResultEvent}
use codefolio.Controller.View.{Message, Tool, new_tool, is_assistant, change_last, change_tool}
use codefolio.Controller.State.{Controller, is_running}
use codefolio.Controller.Runs.{start_assistant_segment, add_context_notice, finish, apply_error}

pub data Event : Type 0 where
  stream think think_start : Text → Event
  tool_call : Text → Text → Text → Event
  tool_result : ToolResultEvent → Event
  turn_complete loop_complete : Event
  usage : ℕ → ℕ → Event
  context : ContextEvent → Event
  failure : Text → Event

-- The call of the identifier with its name and input replaced, or a new one at the end.
unfoldable pub apply_tool_call : Text → Text → Text → Message → Message
unfolding change_tool
apply_tool_call id name input m =
    elim (change_tool id (λ (t : Tool). record t { name = name; input = input }) m.tools) [
      | none ↦ record m { tools = m.tools ++ new_tool id name input ∷ [] }
      | some tools ↦ record m { tools = tools }
    ]

unfoldable pub apply_tool_result : ToolResultEvent → Message → Message
unfolding change_tool
apply_tool_result e m = elim (change_tool e.id done_with m.tools) [
  | none ↦ m
  | some tools ↦ record m { tools = tools }
]
  where
    done_with : Tool → Tool
    done_with t = record t {
      done = true;
      output = e.output;
      is_error = e.is_error;
      outcome = e.outcome;
      elapsed = e.elapsed;
    }

abbrev pub makes_notice : ContextEventKind → Bool
makes_notice ContextEventKind.compacted = true
makes_notice ContextEventKind.tool_output_trimmed = true
makes_notice ContextEventKind.measured = false

module _ {L : Type 0} where
  abbrev pub active : Controller L → ℕ → Bool
  active c run = (run == c.run_id) && is_running c.streaming

  -- A change of the current message of the assistant, by an active run.
  unfoldable pub change_current : Controller L → ℕ → (Message → Message) → Controller L
  unfolding change_last
  change_current c run f =
      if active c run then record c { messages = change_last is_assistant f c.messages } else c

  unfoldable pub visit : Controller L → ℕ → Event → Controller L
  unfolding change_current apply_tool_call apply_tool_result
  visit c run (Event.stream s) =
      change_current c run (λ (m : Message). record m { content = m.content ++ s })
  visit c run (Event.think s) =
      change_current c run (λ (m : Message). record m { thinking = m.thinking ++ s })
  visit c run (Event.think_start s) = c
  visit c run (Event.tool_call id name input) = change_current c run (apply_tool_call id name input)
  visit c run (Event.tool_result e) = change_current c run (apply_tool_result e)
  visit c run Event.turn_complete = if active c run then start_assistant_segment c else c
  visit c run Event.loop_complete = if run == c.run_id then finish c [] else c
  visit c run (Event.usage input output) =
      if run == c.run_id then record c { input_tokens = input; output_tokens = output } else c
  visit c run (Event.context e) =
      if run == c.run_id
      then (let measured = record c { context_metrics = e.metrics } in
          if makes_notice e.kind then add_context_notice measured e else measured)
      else c
  visit c run (Event.failure err) = apply_error c run err
