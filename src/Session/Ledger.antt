-- ===== src/Session/Ledger.antt =====
-- The state and the methods of `Session`. The encoder of the log records and its lines are arguments;
-- a failed encoding or a failed write changes nothing but the log.
use codefolio.Common.{
  ℕ, suc, Text, codes, List, [], ◌∷◌, ◌++◌, Bool, true, false, Option, none, some, text_eq,
  is_empty, null, last?, map_last, length, if◌then◌else◌,
}
use codefolio.Domain.Conversation.{ChatMessage, ToolCall, Role}
use codefolio.Domain.Metrics.{ContextMetrics}
use codefolio.Filepath.{join_path}
use codefolio.Session.Ids.{user_msg_id, asst_msg_id, sys_msg_id, tool_msg_id}

pub data Kind : Type 0 where
  message provider_context : Kind
  other : Text → Kind

-- `logRecord`.
pub record LogRecord : Type 0 where
  pub version : ℕ
  pub kind : Kind
  pub timestamp : ℕ
  pub message : ChatMessage
  pub provider : List ChatMessage

-- The JSON encoding of records as lines.
pub record Codec : Type 1 where
  pub Line : Type 0
  pub size : Line → ℕ
  pub marshal : LogRecord → Option Line
  pub unmarshal : Line → Option LogRecord

-- The clock, and whether a write to the log succeeds.
pub record Env : Type 0 where
  pub now : ℕ
  pub writable : Bool

pub record Session (L : Type 0) : Type 0 where
  pub messages : List ChatMessage
  pub created_at : ℕ
  pub msg_seq : ℕ
  pub context : ContextMetrics
  pub provider : List ChatMessage
  pub log_path : Text
  -- The lines of the file at `log_path`.
  pub file : List L

abbrev pub no_metrics : ContextMetrics
no_metrics = record {
  window_tokens = 0;
  reserved_output_tokens = 0;
  estimated_input_tokens = 0;
  actual_input_tokens = 0;
}

unfoldable pub new_session : {L : Type 0} → ℕ → Session L
new_session now = record {
  messages = [];
  created_at = now;
  msg_seq = 0;
  context = no_metrics;
  provider = [];
  log_path = [];
  file = [];
}

abbrev pub blank : Text → Role → Text → ℕ → ChatMessage
blank id role content now = record {
  id = id;
  role = role;
  content = content;
  thinking = [];
  thinking_signature = [];
  thinking_expanded = false;
  timestamp = now;
  streaming = false;
  error = [];
  is_error = false;
  tool_calls = [];
  tool_call_id = [];
}

abbrev pub message_record : ℕ → Kind → ChatMessage → LogRecord
message_record now kind m = record {
  version = 1;
  kind = kind;
  timestamp = now;
  message = m;
  provider = [];
}

abbrev pub context_record : ℕ → List ChatMessage → LogRecord
context_record now ms = record {
  version = 1;
  kind = Kind.provider_context;
  timestamp = now;
  message = blank [] (Role.other []) [] 0;
  provider = ms;
}

-- The new message at the end of the ledger, and of the provider's view where there is one.
abbrev pub push : {L : Type 0} → Session L → ChatMessage → Session L
push s m = record s {
  messages = s.messages ++ m ∷ [];
  provider = if null s.provider then s.provider else s.provider ++ m ∷ [];
}

-- `AppendDelta` and `AppendThinkingDelta` differ in the field.
unfoldable pub append_streaming : {L : Type 0} → (ChatMessage → ChatMessage) → Session L → Session L
append_streaming f s = elim (last? s.messages) [
  | none ↦ s
  | some last ↦
      if last.streaming
      then record s {
        messages = map_last f s.messages;
        provider = map_last (λ p. if p.streaming then f p else p) s.provider;
      }
      else s
]

unfoldable pub append_delta : {L : Type 0} → Session L → Text → Session L
append_delta s text = append_streaming (λ m. record m { content = m.content ++ text }) s

unfoldable pub append_thinking_delta : {L : Type 0} → Session L → Text → Session L
append_thinking_delta s text = append_streaming (λ m. record m { thinking = m.thinking ++ text }) s

-- A change of the last entry of the provider's view, if it is the message of this identifier.
abbrev pub map_same : Text → (ChatMessage → ChatMessage) → List ChatMessage → List ChatMessage
map_same id f = map_last (λ p. if text_eq p.id id then f p else p)

abbrev pub stop_streaming : ChatMessage → ChatMessage
stop_streaming m = record m { streaming = false }

abbrev pub with_call : ToolCall → ChatMessage → ChatMessage
with_call tc m = record m { tool_calls = m.tool_calls ++ tc ∷ [] }

unfoldable pub add_tool_call_to_assistant : {L : Type 0} → Session L → ToolCall → Session L
add_tool_call_to_assistant s tc = elim (last? s.messages) [
  | none ↦ s
  | some last ↦ record s {
    messages = map_last (with_call tc) s.messages;
    provider = map_same last.id (with_call tc) s.provider;
  }
]

unfoldable pub set_thinking_signature : {L : Type 0} → Session L → Text → Session L
set_thinking_signature s signature = record s {
  messages = map_last (λ m. record m { thinking_signature = signature }) s.messages;
}

-- The first call of this identifier with its input replaced; `none` if there is no such call.
unfoldable pub replace_input : Text → Text → List ToolCall → Option (List ToolCall)
replace_input id input [] = none
replace_input id input (tc ∷ tcs) =
    let rest : Option (List ToolCall) = elim (replace_input id input tcs) [
      | none ↦ none
      | some ts ↦ some (tc ∷ ts)
    ] in
    if text_eq tc.id id then some (record tc { input = input } ∷ tcs) else rest

unfoldable pub provider_messages : {L : Type 0} → Session L → List ChatMessage
provider_messages s = if null s.provider then s.messages else s.provider

unfoldable pub last_message : {L : Type 0} → Session L → Option ChatMessage
last_message s = last? s.messages

unfoldable pub message_count : {L : Type 0} → Session L → ℕ
message_count s = length s.messages

unfoldable pub set_context_metrics : {L : Type 0} → Session L → ContextMetrics → Session L
set_context_metrics s m = record s { context = m }

module _ (c : Codec) where
  open c use {Line, marshal}

  -- Both `persist…Locked` functions: one encoded record at the end of the log.
  unfoldable pub persist : Env → Session Line → LogRecord → Session Line
  persist env s r = if is_empty s.log_path then s else elim (marshal r) [
    | none ↦ s
    | some line ↦ if env.writable then record s { file = s.file ++ line ∷ [] } else s
  ]

  unfoldable pub persist_locked : Env → Session Line → ChatMessage → Session Line
  persist_locked env s m = persist env s (message_record env.now Kind.message m)

  -- A message is made under the next number, added, and logged.
  unfoldable pub add_message : Env → Session Line → (ℕ → ChatMessage) → Session Line
  add_message env s make =
      let seq = suc s.msg_seq in
      persist_locked env (push (record s { msg_seq = seq }) (make seq)) (make seq)

  unfoldable pub add_system_message : Env → Session Line → Text → Session Line
  add_system_message env s content =
      add_message env s (λ n. blank (sys_msg_id n) Role.system content env.now)

  unfoldable pub add_user_message : Env → Session Line → Text → Session Line
  add_user_message env s content =
      add_message env s (λ n. blank (user_msg_id n) Role.user content env.now)

  unfoldable pub start_assistant_message : Env → Session Line → Session Line
  start_assistant_message env s = add_message env s (λ n.
      let m = blank (asst_msg_id n) Role.assistant [] env.now in record m { streaming = true })

  unfoldable pub add_tool_result_message : Env → Session Line → Text → Text → Bool → Session Line
  add_tool_result_message env s call_id content is_error = add_message env s (λ n.
      let m = blank (tool_msg_id n) Role.tool content env.now in
      record m { is_error = is_error; tool_call_id = call_id })

  unfoldable pub finish_assistant_message : Env → Session Line → Session Line
  finish_assistant_message env s = elim (last? s.messages) [
    | none ↦ s
    | some last ↦
        if last.streaming
        then persist_locked env
            (record s {
              messages = map_last stop_streaming s.messages;
              provider = map_same last.id stop_streaming s.provider;
            })
            (stop_streaming last)
        else s
  ]

  unfoldable pub update_tool_call_input : Env → Session Line → Text → Text → Session Line
  update_tool_call_input env s id input = elim (last? s.messages) [
    | none ↦ s
    | some last ↦ elim (replace_input id input last.tool_calls) [
      | none ↦ s
      | some calls ↦
          persist_locked env
            (record s { messages = map_last (λ m. record m { tool_calls = calls }) s.messages })
            (record last { tool_calls = calls })
    ]
  ]

  unfoldable pub replace_provider_messages : Env → Session Line → List ChatMessage → Session Line
  replace_provider_messages env s ms =
      persist env (record s { provider = ms }) (context_record env.now ms)

  persist_each : Env → Session Line → List ChatMessage → Session Line
  unfolding persist_locked
  persist_each env s [] = s
  persist_each env s (m ∷ ms) = persist_each env (persist_locked env s m) ms

  -- `dir_made` is the result of `os.MkdirAll` and `stamp` the formatted time. The log is a new file.
  unfoldable pub configure_persistence : Env → Session Line → Text → Bool → Text → Session Line
  unfolding persist_each
  configure_persistence env s work_dir dir_made stamp =
      if not_configured
      then (if dir_made
          then persist_each env
              (record s { log_path = join_path (dir ∷ (stamp ++ codes ".jsonl") ∷ []); file = [] })
              s.messages
          else s)
      else s
    where
      not_configured : Bool
      not_configured =
          if is_empty s.log_path then (if is_empty work_dir then false else true) else false

      dir : Text
      dir = join_path (work_dir ∷ codes ".codefolio" ∷ codes "sessions" ∷ [])
