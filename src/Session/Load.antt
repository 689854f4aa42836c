-- ===== src/Session/Load.antt =====
-- `Load`: the loop over the lines of a log with its index of identifiers, and the same as a fold that
-- replaces a message by its identifier or adds it at the end.
use codefolio.Common.{
  ℕ, Text, List, [], ◌∷◌, ◌++◌, Bool, true, false, Option, none, some, text_eq, is_empty, length,
  set, if◌then◌else◌, ltb, ◌==◌,
}
use codefolio.Domain.Conversation.{ChatMessage}
use codefolio.Session.Ids.{message_sequence}
use codefolio.Session.Ledger.{
  Session, Codec, LogRecord, message, provider_context, other, no_metrics,
}

-- The variables of the loop. `by_id` is the map `byID`, the newest key first.
pub record Loading : Type 0 where
  pub messages : List ChatMessage
  pub created_at : ℕ
  pub msg_seq : ℕ
  pub provider : List ChatMessage
  pub by_id : List (Text × ℕ)

unfoldable pub lookup_id : Text → List (Text × ℕ) → Option ℕ
lookup_id id [] = none
lookup_id id ((k, i) ∷ m) = let rest = lookup_id id m in if text_eq k id then some i else rest

-- The message at its old position, or at the end under a new index.
unfoldable pub store_message : Loading → ChatMessage → Loading
store_message st m = elim (lookup_id m.id st.by_id) [
  | some i ↦ record st { messages = set st.messages i m }
  | none ↦ record st {
    messages = st.messages ++ m ∷ [];
    by_id = (m.id, length st.messages) ∷ st.by_id;
  }
]

unfoldable pub load_message : Loading → LogRecord → Loading
load_message st r =
    if is_empty r.message.id
    then st
    else (let stored = store_message st r.message in
        record stored {
          created_at = if ltb r.timestamp stored.created_at then r.timestamp else stored.created_at;
          msg_seq =
              if ltb stored.msg_seq (message_sequence r.message.id)
              then message_sequence r.message.id
              else stored.msg_seq;
        })

-- One record behind the test of its version.
unfoldable pub load_record : Loading → LogRecord → Loading
load_record st r = elim r.kind [
  | provider_context ↦ record st { provider = r.provider }
  | message ↦ load_message st r
  | other _ ↦ st
]

-- The size of a line from which the scanner gives up.
abbrev pub line_limit : ℕ
line_limit = 2097152

abbrev pub start_loading : ℕ → Loading
start_loading now = record {
  messages = [];
  created_at = now;
  msg_seq = 0;
  provider = [];
  by_id = [];
}

abbrev pub loaded : {L : Type 0} → Loading → Text → List L → Session L
loaded st path lines = record {
  messages = st.messages;
  created_at = st.created_at;
  msg_seq = st.msg_seq;
  context = no_metrics;
  provider = st.provider;
  log_path = path;
  file = lines;
}

module _ (c : Codec) where
  open c use {Line, size, unmarshal}

  -- The record of a line, if it decodes and its version is 1.
  unfoldable pub decode : Line → Option LogRecord
  decode line = elim (unmarshal line) [
    | none ↦ none
    | some r ↦ if r.version == 1 then some r else none
  ]

  unfoldable pub load_lines : Loading → List Line → Loading
  load_lines st [] = st
  load_lines st (line ∷ lines) = elim (decode line) [
    | none ↦ load_lines st lines
    | some r ↦ load_lines (load_record st r) lines
  ]

  unfoldable pub any_too_long : List Line → Bool
  any_too_long [] = false
  any_too_long (line ∷ lines) =
      let rest = any_too_long lines in if ltb (size line) line_limit then rest else true

  -- `file` is what opening the path gives.
  unfoldable pub load : ℕ → Text → Option (List Line) → Option (Session Line)
  load now path none = none
  load now path (some lines) =
      if any_too_long lines
      then none
      else some (loaded (load_lines (start_loading now) lines) path lines)
