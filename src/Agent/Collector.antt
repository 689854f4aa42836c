-- ===== src/Agent/Collector.antt =====
-- `agentCollector` of internal/svc/agent.go: what one delta of the stream does.
use codefolio.Common.{
  ℕ, zero, suc, Text, codes, List, [], ◌∷◌, ◌++◌, Bool, true, false, text_eq, is_empty,
  if◌then◌else◌,
}
use codefolio.Session.Ledger.{
  Session, Codec, Env, append_delta, append_thinking_delta, set_thinking_signature,
  add_tool_call_to_assistant, finish_assistant_message,
}
use codefolio.Controller.Events.{Event}

pub record PendingCall : Type 0 where
  pub id : Text
  pub name : Text
  pub input : Text

-- The deltas of pkg/llm, with the fields that the collector reads. An index is not negative.
pub data Delta : Type 0 where
  message thinking thinking_start : Text → Delta
  usage : Bool → ℕ → ℕ → ℕ → Delta
  tool_call_start : Text → Text → Delta
  tool_call_input : ℕ → Text → Delta
  stream_stop : Text → Delta

-- The collector, with the session that it writes, the flag of the loop around it, and the events that
-- were visited.
pub record Collector (L : Type 0) : Type 0 where
  pub session : Session L
  pub tool_calls : List PendingCall
  pub stop_reason : Text
  pub input_tokens : ℕ
  pub output_tokens : ℕ
  pub total_tokens : ℕ
  pub has_usage : Bool
  pub has_tool_use : Bool
  pub events : List Event

abbrev pub new_collector : {L : Type 0} → Session L → Collector L
new_collector s = record {
  session = s;
  tool_calls = [];
  stop_reason = [];
  input_tokens = 0;
  output_tokens = 0;
  total_tokens = 0;
  has_usage = false;
  has_tool_use = false;
  events = [];
}

unfoldable pub add_input : List PendingCall → ℕ → Text → List PendingCall
add_input [] i s = []
add_input (p ∷ ps) zero s = record p { input = p.input ++ s } ∷ ps
add_input (p ∷ ps) (suc i) s = p ∷ add_input ps i s

-- `Accept`.
unfoldable pub accept : {L : Type 0} → Collector L → Delta → Collector L
unfolding add_input
accept c (Delta.message s) =
    if is_empty s
    then c
    else record c { session = append_delta c.session s; events = c.events ++ Event.stream s ∷ [] }
accept c (Delta.thinking s) = if is_empty s then c else record c {
  session = append_thinking_delta c.session s;
  events = c.events ++ Event.think s ∷ [];
}
accept c (Delta.thinking_start s) = record c {
  session = set_thinking_signature c.session s;
  events = c.events ++ Event.think_start s ∷ [];
}
accept c (Delta.usage final input output total) =
    if final
    then record c {
      input_tokens = input;
      output_tokens = output;
      total_tokens = total;
      has_usage = true;
    }
    else c
accept c (Delta.tool_call_start id name) = record c {
  tool_calls = c.tool_calls ++ record { id = id; name = name; input = [] } ∷ [];
  session = add_tool_call_to_assistant c.session (record { id = id; name = name; input = [] });
  events = c.events ++ Event.tool_call id name [] ∷ [];
}
accept c (Delta.tool_call_input i s) = record c { tool_calls = add_input c.tool_calls i s }
accept c (Delta.stream_stop reason) = record c { stop_reason = reason }

abbrev pub tool_use : Text
tool_use = codes "tool_use"

module _ (codec : Codec) where
  open codec use {Line}

  -- What the loop does with a collector that has taken a delta.
  unfoldable pub note_tool_use : Env → Collector Line → Collector Line
  note_tool_use env c =
      if text_eq c.stop_reason tool_use
      then record c { has_tool_use = true; session = finish_assistant_message codec env c.session }
      else c

  unfoldable pub accept_all : Env → Collector Line → List Delta → Collector Line
  unfolding note_tool_use accept
  accept_all env c [] = c
  accept_all env c (d ∷ ds) = accept_all env (note_tool_use env (accept c d)) ds
