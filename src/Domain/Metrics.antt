-- ===== src/Domain/Metrics.antt =====
-- internal/domain/context.go. The token limits are positive and the estimates are sums of
-- lengths, so ℕ with its truncated subtraction is `int64` with the test `usable < 0`.
use codefolio.Common.{Text, ℕ, ◌-◌, ◌*◌, ◌/◌, ◌==◌, ltb, if◌then◌else◌}

pub record ContextMetrics : Type 0 where
  pub window_tokens : ℕ
  pub reserved_output_tokens : ℕ
  pub estimated_input_tokens : ℕ
  pub actual_input_tokens : ℕ

pub data ContextEventKind : Type 0 where
  measured tool_output_trimmed compacted : ContextEventKind

pub record ContextEvent : Type 0 where
  pub metrics : ContextMetrics
  pub kind : ContextEventKind
  pub detail : Text

unfoldable pub usable_input_tokens : ContextMetrics → ℕ
usable_input_tokens m = m.window_tokens - m.reserved_output_tokens

unfoldable pub used_input_tokens : ContextMetrics → ℕ
used_input_tokens m =
    if ltb 0 m.actual_input_tokens then m.actual_input_tokens else m.estimated_input_tokens

unfoldable pub usage_percent : ContextMetrics → ℕ
unfolding usable_input_tokens used_input_tokens
usage_percent m =
    let usable = usable_input_tokens m in
    if usable == 0 then 0 else used_input_tokens m * 100 / usable
