-- ===== src/Agent/Examples.antt =====
-- A run of internal/svc/agent.go: a round that calls a tool, and one that answers.
use codefolio.Common.{map}
use codefolio.Common.{
  ℕ, zero, suc, ◌≤◌, Text, codes, List, [], ◌∷◌, true, false, some, ◌≡◌, refl, ◌⊎◌,
}
use codefolio.Domain.Permission.{ToolOutcome}
use codefolio.Executor.Run.{ToolExecResult}
use codefolio.Executor.Collect.{
  Submission, collect_results, complete, happen, happen_all, remove_at, event_of, submit,
}
use codefolio.Session.Ids.{int_limit, asst_msg_id, itoa, tool_msg_id, user_msg_id}
use codefolio.Session.Ledger.{
  Session, Codec, LogRecord, no_metrics, add_user_message, start_assistant_message,
  finish_assistant_message, provider_messages, add_message, persist_locked, persist,
  add_tool_call_to_assistant, add_tool_result_message, append_delta, append_streaming,
  replace_input, set_context_metrics, update_tool_call_input,
}
use codefolio.Session.Load.{load, any_too_long}
use codefolio.Session.Turns.Coded.{
  IsFaithful, cleaned, cleaned_record, ascii_only, ascii_only-IsAscii,
}
use codefolio.Session.Turns.State.{Turns, streaming, begin, user, assistant}
use codefolio.Session.Turns.Steps.{writing}
use codefolio.Session.Turns.Reload.{IsFresh}
use codefolio.Context.Tokens.{
  Conf, context_metrics, estimate_context_tokens, context_window_tokens, estimate_calls,
  estimate_messages, estimate_schemas, estimate_text_tokens, max_output_tokens,
}
use codefolio.Agent.Collector.{Delta, tool_use, accept, accept_all, add_input, note_tool_use}
use codefolio.Agent.Loop.{
  Round, Ending, RunState, RunResult, agent_run, account, add_results, call_tools, run_round,
  run_rounds, stream_round, tool_results, schedule, update_inputs,
}
use codefolio.Context.Manager.{prepare, measure}
use codefolio.Domain.Metrics.{used_input_tokens, usable_input_tokens}
use codefolio.Context.Preview.{preview_tool_outputs, preview, is_oversized}
use codefolio.Agent.Stream.{ordered}
use codefolio.Agent.Log.{agent_run_reloads}

abbrev codec : Codec
codec = record {
  Line = LogRecord;
  size = λ _. 0;
  marshal = λ r. some (cleaned_record ascii_only r);
  unmarshal = λ r. some r;
}

abbrev faithful_codec : IsFaithful codec
faithful_codec = record {
  clean = ascii_only;
  keeps_ascii = ascii_only-IsAscii;
  encodes = λ r. (cleaned_record ascii_only r, refl, refl);
}

abbrev fresh : Session LogRecord
fresh = record {
  messages = [];
  created_at = 1;
  msg_seq = 0;
  context = no_metrics;
  provider = [];
  log_path = codes "/w/log";
  file = [];
}

fresh-IsFresh : IsFresh fresh
fresh-IsFresh = record { logged = refl; no_messages = refl; no_number = refl; no_lines = refl }

abbrev asked : Session LogRecord
asked =
    start_assistant_message codec (writing 2)
      (add_user_message codec (writing 1) fresh (codes "hi"))

asked-Turns : Turns codec fresh streaming asked
asked-Turns = assistant 2 (user 1 (codes "hi") begin)

abbrev echo : ℕ → Submission → ToolExecResult
echo n s = record {
  tool_id = s.id;
  tool_name = s.name;
  output = s.input;
  is_error = false;
  outcome = ToolOutcome.succeeded;
  elapsed = 1;
}

abbrev calls : List Delta
calls =
    Delta.message (codes "let me see")
    ∷ Delta.tool_call_start (codes "c") (codes "Glob")
    ∷ Delta.tool_call_input 0 (codes "{}")
    ∷ Delta.stream_stop tool_use
    ∷ Delta.usage true 10 5 15
    ∷ []

abbrev answers : List Delta
answers = Delta.message (codes "done") ∷ Delta.stream_stop (codes "end_turn") ∷ []

abbrev round : List Delta → Round
round deltas = record {
  now = 3;
  extra = [];
  schemas = [];
  summary_items = [];
  deltas = deltas;
  ending = Ending.closed;
  run_tool = echo;
  order = λ _. 0 ∷ [];
}

abbrev rounds : ℕ → Round
rounds zero = round []
rounds (suc zero) = round calls
rounds (suc (suc n)) = round answers

rounds-ordered : (i : ℕ) → ordered false (rounds i).deltas ≡ true
unfolding ordered
rounds-ordered zero = refl
rounds-ordered (suc zero) = refl
rounds-ordered (suc (suc n)) = refl

abbrev cfg : Conf
cfg = record { model = codes "m"; window_tokens = 1000; output_tokens = 100 }

abbrev digest : Text → Text
digest s = s

abbrev begun : RunState LogRecord
begun = record {
  session = asked;
  manager = record { last_prefix_id = []; last_summary = [] };
  input_total = 0;
  output_total = 0;
  events = [];
}

run_completes : (agent_run codec digest cfg 5 rounds begun).1 ≡ RunResult.completed
unfolding agent_run start_assistant_message add_user_message finish_assistant_message prepare
    used_input_tokens measure context_metrics estimate_context_tokens preview_tool_outputs
    provider_messages add_message persist_locked persist preview is_oversized usable_input_tokens
    context_window_tokens accept accept_all add_input note_tool_use account add_results call_tools
    run_round run_rounds stream_round tool_results update_inputs estimate_calls estimate_messages
    estimate_schemas estimate_text_tokens max_output_tokens collect_results complete happen
    happen_all remove_at schedule event_of submit asst_msg_id itoa tool_msg_id user_msg_id
    add_tool_call_to_assistant add_tool_result_message append_delta append_streaming replace_input
    set_context_metrics update_tool_call_input
run_completes = refl

never_long : (lines : List LogRecord) → any_too_long codec lines ≡ false
unfolding any_too_long
never_long [] = refl
never_long (l ∷ ls) = rw (never_long ls) refl

abbrev ended : Session LogRecord
ended =
    finish_assistant_message codec (writing 4) (agent_run codec digest cfg 5 rounds begun).0.session

agent_run_reloads_example :
    (t : Session LogRecord) × (load codec 9 ended.log_path (some ended.file) ≡ some t)
    × (t.messages ≡ map (cleaned ascii_only) ended.messages)
    × ((int_limit ≤ ended.msg_seq) ⊎ (t.msg_seq ≡ ended.msg_seq))
    × (t.log_path ≡ ended.log_path)
    × (t.file ≡ ended.file)
agent_run_reloads_example =
    agent_run_reloads codec digest cfg 5 rounds begun 4 9 faithful_codec fresh-IsFresh
      rounds-ordered asked-Turns (never_long ended.file)
