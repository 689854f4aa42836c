-- ===== src/Domain/Conversation.antt =====
-- internal/domain/conversation.go, and the roles of pkg/llm/message.go.
use codefolio.Common.{Text, codes, Bool, true, false, List, ℕ}

-- The `Role` string; `other` is any string but the six constants.
pub data Role : Type 0 where
  user assistant developer system tool function : Role
  other : Text → Role

abbrev pub role_text : Role → Text
role_text Role.user = codes "user"
role_text Role.assistant = codes "assistant"
role_text Role.developer = codes "developer"
role_text Role.system = codes "system"
role_text Role.tool = codes "tool"
role_text Role.function = codes "function"
role_text (Role.other s) = s

abbrev pub is_user : Role → Bool
is_user Role.user = true
is_user _ = false

abbrev pub is_tool : Role → Bool
is_tool Role.tool = true
is_tool _ = false

abbrev pub is_assistant : Role → Bool
is_assistant Role.assistant = true
is_assistant _ = false

-- A system or developer message.
abbrev pub is_system : Role → Bool
is_system Role.system = true
is_system Role.developer = true
is_system _ = false

pub record ToolCall : Type 0 where
  pub id : Text
  pub name : Text
  pub input : Text

-- `Timestamp` is a number of ticks of the clock.
pub record ChatMessage : Type 0 where
  pub id : Text
  pub role : Role
  pub content : Text
  pub thinking : Text
  pub thinking_signature : Text
  pub thinking_expanded : Bool
  pub timestamp : ℕ
  pub streaming : Bool
  pub error : Text
  pub is_error : Bool
  pub tool_calls : List ToolCall
  pub tool_call_id : Text
