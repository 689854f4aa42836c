-- ===== src/Session/Examples.antt =====
-- Inputs for the theorems on internal/infra/session/session.go.
use codefolio.Common.{map}
use codefolio.Common.{◌≤◌, codes, List, [], ◌∷◌, true, false, none, some, ◌≡◌, refl, ◌⊎◌, is_empty}
use codefolio.Domain.Conversation.{ChatMessage, Role, ToolCall}
use codefolio.Session.Ids.{
  message_sequence, int_limit, atoi, after_last_dash, all_digits, digits_value,
}
use codefolio.Session.Ledger.{
  Session, Codec, Env, LogRecord, Kind, blank, no_metrics, message_record, add_user_message,
  start_assistant_message, append_delta, finish_assistant_message, replace_provider_messages,
  replace_input, add_message, persist_locked, persist, append_streaming,
}
use codefolio.Session.Load.{
  load, load_lines, load_record, load_message, store_message, lookup_id, decode, any_too_long,
}
use codefolio.Session.Replay.{saved_from, nothing_saved, load-saved}
use codefolio.Session.Turns.Coded.{
  IsFaithful, cleaned, cleaned_record, ascii_only, ascii_only-IsAscii,
}
use codefolio.Session.Turns.State.{Turns, closed, begin, user, assistant, delta, finish, Inv}
use codefolio.Session.Turns.Reload.{IsFresh, compact_then_ask, Turns-Inv, reload_messages}

-- An encoder whose lines are the records, a question mark in the place of every byte that is not ASCII.
abbrev codec : Codec
codec = record {
  Line = LogRecord;
  size = λ _. 0;
  marshal = λ r. some (cleaned_record ascii_only r);
  unmarshal = λ r. some r;
}

abbrev faithful_codec : IsFaithful codec
faithful_codec = record {
  clean = ascii_only;
  keeps_ascii = ascii_only-IsAscii;
  encodes = λ r. (cleaned_record ascii_only r, refl, refl);
}

abbrev writable : Env
writable = record { now = 5; writable = true }

abbrev ask : ChatMessage
ask = blank (codes "u-1") Role.user (codes "hi") 3

abbrev half : ChatMessage
half = blank (codes "a-2") Role.assistant [] 4

abbrev whole : ChatMessage
whole = blank (codes "a-2") Role.assistant (codes "hello") 4

-- A log in which the second message is written twice.
abbrev log : List LogRecord
log =
    message_record 3 Kind.message ask
    ∷ message_record 4 Kind.message half
    ∷ message_record 5 Kind.message whole
    ∷ []

log_loads :
    load codec 9 (codes "/w/log") (some log)
    ≡ some (record {
      messages = ask ∷ whole ∷ [];
      created_at = 3;
      msg_seq = 2;
      context = no_metrics;
      provider = [];
      log_path = codes "/w/log";
      file = log;
    })
unfolding load load_lines load_record load_message store_message lookup_id decode any_too_long
    message_sequence atoi after_last_dash all_digits digits_value
log_loads = refl

load-saved_example :
    ((any_too_long codec log ≡ true) × (load codec 9 (codes "/w/log") (some log) ≡ none))
    ⊎ (any_too_long codec log ≡ false)
      × ((t : Session LogRecord) × (load codec 9 (codes "/w/log") (some log) ≡ some t)
          × (t.messages ≡ (saved_from codec nothing_saved log).messages)
          × (t.msg_seq ≡ (saved_from codec nothing_saved log).msg_seq)
          × (t.provider ≡ (saved_from codec nothing_saved log).provider)
          × (t.log_path ≡ codes "/w/log")
          × (t.file ≡ log))
load-saved_example = load-saved codec 9 (codes "/w/log") log

-- A session with a log and no message.
abbrev fresh : Session LogRecord
fresh = record {
  messages = [];
  created_at = 1;
  msg_seq = 0;
  context = no_metrics;
  provider = [];
  log_path = codes "/w/log";
  file = [];
}

fresh-IsFresh : IsFresh fresh
fresh-IsFresh = record { logged = refl; no_messages = refl; no_number = refl; no_lines = refl }

-- A question and its answer, streamed in one piece.
abbrev answered : Session LogRecord
answered = finish_assistant_message codec writable (
    append_delta
      (start_assistant_message codec writable (add_user_message codec writable fresh (codes "hi")))
      (codes "hello"))

answered-Turns : Turns codec fresh closed answered
answered-Turns = finish 5 (delta (codes "hello") (assistant 5 (user 5 (codes "hi") begin)))

Turns-Inv_example : Inv codec ascii_only closed answered
Turns-Inv_example = Turns-Inv codec faithful_codec fresh-IsFresh answered-Turns

answered_short : any_too_long codec answered.file ≡ false
unfolding any_too_long finish_assistant_message append_delta append_streaming
    start_assistant_message add_user_message add_message persist_locked persist
answered_short = refl

reload_messages_example :
    (t : Session LogRecord) × (load codec 9 answered.log_path (some answered.file) ≡ some t)
    × (t.messages ≡ map (cleaned ascii_only) answered.messages)
    × ((int_limit ≤ answered.msg_seq) ⊎ (t.msg_seq ≡ answered.msg_seq))
    × (t.log_path ≡ answered.log_path)
    × (t.file ≡ answered.file)
reload_messages_example =
    reload_messages codec faithful_codec 9 fresh-IsFresh answered-Turns answered_short

-- The answered session after a compaction and one more question.
abbrev compacted : Session LogRecord
compacted = compact_then_ask codec answered 6 7 (whole ∷ []) (codes "and now?")

compacted_short : any_too_long codec compacted.file ≡ false
unfolding any_too_long finish_assistant_message append_delta append_streaming
    start_assistant_message add_user_message add_message persist_locked persist
    replace_provider_messages
compacted_short = refl

answered_logged : is_empty answered.log_path ≡ false
unfolding finish_assistant_message append_delta append_streaming start_assistant_message
    add_user_message add_message persist_locked persist
answered_logged = refl

abbrev edit_call : ToolCall
edit_call = record { id = codes "call"; name = codes "Bash"; input = codes "{}" }

abbrev calling : ChatMessage
calling = record whole { tool_calls = edit_call ∷ [] }

-- The session shows the provider what a compaction kept, the last message with it.
abbrev showing : Session LogRecord
showing = record fresh { messages = ask ∷ calling ∷ []; msg_seq = 2; provider = calling ∷ [] }

abbrev new_calls : List ToolCall
new_calls = record edit_call { input = codes "{\"a\":1}" } ∷ []

new_input : replace_input (codes "call") (codes "{\"a\":1}") calling.tool_calls ≡ some new_calls
unfolding replace_input
new_input = refl
