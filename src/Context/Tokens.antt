-- ===== src/Context/Tokens.antt =====
-- The token estimates of internal/svc/context.go, and the limits of internal/conf/conf.go.
use codefolio.Common.{
  ℕ, ◌+◌, ◌*◌, ◌/◌, Text, List, [], ◌∷◌, Bool, ◌&&◌, Option, none, some, ltb, leb, length, is_empty,
  if◌then◌else◌,
}
use codefolio.Domain.Conversation.{ChatMessage, ToolCall}
use codefolio.Domain.Metrics.{ContextMetrics, usable_input_tokens, used_input_tokens}

-- `conf.Context` and the model name. `Load` refuses negative limits.
pub record Conf : Type 0 where
  pub model : Text
  pub window_tokens : ℕ
  pub output_tokens : ℕ

unfoldable pub context_window_tokens : Conf → ℕ
context_window_tokens c = if ltb 0 c.window_tokens then c.window_tokens else 32768

unfoldable pub max_output_tokens : Conf → ℕ
max_output_tokens c = if ltb 0 c.output_tokens then c.output_tokens else 4096

unfoldable pub estimate_text_tokens : Text → ℕ
estimate_text_tokens text = if is_empty text then 0 else (length text + 2) / 3

unfoldable pub estimate_calls : List ToolCall → ℕ
unfolding estimate_text_tokens
estimate_calls [] = 0
estimate_calls (tc ∷ tcs) =
    estimate_text_tokens tc.name + estimate_text_tokens tc.input + 16 + estimate_calls tcs

unfoldable pub estimate_messages : List ChatMessage → ℕ
unfolding estimate_text_tokens estimate_calls
estimate_messages [] = 0
estimate_messages (m ∷ ms) =
    let rest = estimate_messages ms in
    let own =
      estimate_text_tokens m.content
      + estimate_text_tokens m.thinking
      + 4
      + estimate_calls m.tool_calls in
    if m.streaming then rest else own + rest

-- The encoded schemas; `none` is one that does not encode.
unfoldable pub estimate_schemas : List (Option Text) → ℕ
unfolding estimate_text_tokens
estimate_schemas [] = 0
estimate_schemas (none ∷ ss) = estimate_schemas ss
estimate_schemas (some s ∷ ss) = estimate_text_tokens s + estimate_schemas ss

unfoldable pub estimate_context_tokens : List ChatMessage → List (Option Text) → ℕ
unfolding estimate_messages estimate_schemas
estimate_context_tokens ms schemas = estimate_messages ms + estimate_schemas schemas

unfoldable pub context_metrics : List ChatMessage → List (Option Text) → Conf → ContextMetrics
context_metrics ms schemas cfg = record {
  window_tokens = context_window_tokens cfg;
  reserved_output_tokens = max_output_tokens cfg;
  estimated_input_tokens = estimate_context_tokens ms schemas;
  actual_input_tokens = 0;
}

-- The code multiplies `int64` values: the products are these while the counts are below 2 ^ 63 / 100.
unfoldable pub over_context_limit : ContextMetrics → ℕ → Bool
over_context_limit m ratio =
    ltb 0 (usable_input_tokens m) && leb (usable_input_tokens m * ratio) (used_input_tokens m * 100)
