-- ===== src/Session/Turns/State.antt =====
-- The sessions that the agent's turns make, and the log that they leave: a message is logged when it is
-- added, a streamed one again when it is finished, and in between only the last message differs.
use codefolio.Common.{ℕ, ◌<◌, Text, List, [], ◌∷◌, ◌++◌, Bool, true, false, is_empty, map, ◌≡◌}
use codefolio.Domain.Conversation.{ChatMessage, ToolCall}
use codefolio.Domain.Metrics.{ContextMetrics}
use codefolio.Session.Ids.{int_limit}
use codefolio.Session.Ledger.{
  Session, Codec, add_system_message, add_user_message, start_assistant_message,
  add_tool_result_message, append_delta, append_thinking_delta, finish_assistant_message,
  add_tool_call_to_assistant, set_thinking_signature, update_tool_call_input,
  replace_provider_messages, set_context_metrics,
}
use codefolio.Session.Replay.{Saved, saved_from, nothing_saved}
use codefolio.Session.Numbers.{Rising}
use codefolio.Session.Turns.Coded.{cleaned}

-- Whether the last message is being streamed.
pub data Phase : Type 0 where
  closed streaming : Phase

-- What the turns of the agent do with a session whose log can be written, from a session with a log and
-- no message yet.
pub data Turns (c : Codec) (start : Session c.Line) : Phase → Session c.Line → Type 0 where
  begin : Turns c start closed start
  system :
      {s : Session c.Line} (now : ℕ) (content : Text)
      → Turns c start closed s
      → Turns c start closed
          (add_system_message c (record { now = now; writable = true }) s content)
  user :
      {s : Session c.Line} (now : ℕ) (content : Text)
      → Turns c start closed s
      → Turns c start closed (add_user_message c (record { now = now; writable = true }) s content)
  tool_result :
      {s : Session c.Line} (now : ℕ) (call_id content : Text) (is_error : Bool)
      → Turns c start closed s
      → Turns c start closed (
          add_tool_result_message c
            (record { now = now; writable = true })
            s
            call_id
            content
            is_error)
  assistant :
      {s : Session c.Line} (now : ℕ)
      → Turns c start closed s
      → Turns c start streaming
          (start_assistant_message c (record { now = now; writable = true }) s)
  delta :
      {s : Session c.Line} (content : Text)
      → Turns c start streaming s
      → Turns c start streaming (append_delta s content)
  thinking :
      {s : Session c.Line} (content : Text)
      → Turns c start streaming s
      → Turns c start streaming (append_thinking_delta s content)
  signature :
      {s : Session c.Line} (text : Text)
      → Turns c start streaming s
      → Turns c start streaming (set_thinking_signature s text)
  call :
      {s : Session c.Line} (tc : ToolCall)
      → Turns c start streaming s
      → Turns c start streaming (add_tool_call_to_assistant s tc)
  finish :
      {s : Session c.Line} (now : ℕ)
      → Turns c start streaming s
      → Turns c start closed (finish_assistant_message c (record { now = now; writable = true }) s)
  input :
      {s : Session c.Line} (now : ℕ) (id text : Text)
      → Turns c start closed s
      → Turns c start closed
          (update_tool_call_input c (record { now = now; writable = true }) s id text)
  compact :
      {p : Phase} {s : Session c.Line} (now : ℕ) (ms : List ChatMessage)
      → Turns c start p s
      → Turns c start p (replace_provider_messages c (record { now = now; writable = true }) s ms)
  metrics :
      {p : Phase} {s : Session c.Line} (m : ContextMetrics)
      → Turns c start p s
      → Turns c start p (set_context_metrics s m)

-- The log stands for the messages with their texts cleaned, or for all but the last of them, which is streaming.
abbrev pub Agrees : (Text → Text) → Phase → List ChatMessage → List ChatMessage → Type 0
Agrees clean closed saved ms = saved ≡ map (cleaned clean) ms
Agrees clean streaming saved ms =
    (init : List ChatMessage) × (old m : ChatMessage) × (saved
      ≡ map (cleaned clean) init ++ old ∷ [])
    × (ms ≡ init ++ m ∷ [])
    × (old.id ≡ m.id)
    × (m.streaming ≡ true)

module _ (c : Codec) where
  open c use {Line}

  abbrev pub saved : Session Line → Saved
  saved s = saved_from c nothing_saved s.file

  pub record Inv (clean : Text → Text) (p : Phase) (s : Session Line) : Type 0 where
    pub logged : is_empty s.log_path ≡ false
    pub rising : Rising 0 s.messages s.msg_seq
    pub agrees : Agrees clean p (saved s).messages s.messages
    pub counted : s.msg_seq < int_limit → (saved s).msg_seq ≡ s.msg_seq
