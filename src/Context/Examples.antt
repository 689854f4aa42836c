-- ===== src/Context/Examples.antt =====
-- Inputs for the theorems on internal/svc/context.go.
use codefolio.Common.{
  ℕ, zero, suc, reverse, arith, ◌*◌, ◌-◌, ◌<◌, ◌≤◌, Text, codes, List, [], ◌∷◌, ◌++◌, true, some,
  ◌≡◌, refl, ◌⊎◌, length, take, keep_if, trim_space, trim,
}
use codefolio.Domain.Conversation.{ChatMessage, Role}
use codefolio.Domain.Metrics.{used_input_tokens, usable_input_tokens}
use codefolio.Session.Ledger.{blank}
use codefolio.Context.Tokens.{
  Conf, context_metrics, estimate_text_tokens, context_window_tokens, max_output_tokens,
  estimate_context_tokens, estimate_messages, estimate_calls, estimate_schemas,
}
use codefolio.Context.Preview.{preview, is_oversized, oversized_of_long, preview_tool_outputs}
use codefolio.Common.{null, false}
use codefolio.Context.Turns.{
  Shaped, split_context_turns, flatten_turns, is_instruction, is_conversation, split_loop,
  split_message, grow, close_turns,
}
use codefolio.Context.Manager.{
  done, StreamItem, message_delta, deltas_closed, errors_closed, Manager, summary, summary_message,
  compaction_detail, compact_messages, prepare, measure, bounded_source, summarize_source,
  source_calls, collect, remember,
}
use codefolio.Context.Limits.{prepare_within_limit, compact_messages_lem}

-- A text of this length.
repeat : ℕ → Text
repeat zero = []
repeat (suc n) = 120 ∷ repeat n

length-repeat : (n : ℕ) → length (repeat n) ≡ n
unfolding repeat
length-repeat zero = refl
length-repeat (suc n) = omega (arith, length-repeat n)

abbrev long_output : ChatMessage
long_output = blank (codes "t-1") Role.tool (repeat 24001) 1

long_oversized : is_oversized long_output ≡ true
long_oversized = oversized_of_long long_output refl (omega (arith, length-repeat 24001))

abbrev system_message : ChatMessage
system_message = blank (codes "s-1") Role.system (codes "be brief") 1

abbrev ask : Text → ChatMessage
ask text = blank (codes "u-1") Role.user text 1

abbrev reply : Text → ChatMessage
reply text = blank (codes "a-1") Role.assistant text 1

-- A greeting before any question, four questions with their answers, and a developer message among
-- them.
abbrev conversation : List ChatMessage
conversation =
    system_message
    ∷ reply (codes "hello")
    ∷ ask (codes "one")
    ∷ reply (codes "1")
    ∷ ask (codes "two")
    ∷ reply (codes "2")
    ∷ blank (codes "s-2") Role.developer (codes "plan") 1
    ∷ ask (codes "three")
    ∷ reply (codes "3")
    ∷ ask (codes "four")
    ∷ []

five_turns : length (split_context_turns conversation).1 ≡ 5
unfolding split_context_turns split_loop split_message grow close_turns
five_turns = refl

-- A digest, a manager with no summary yet, and a stream of one.
abbrev digest : Text → Text
digest s = take 8 (reverse s)

abbrev no_summary : Manager
no_summary = record { last_prefix_id = []; last_summary = [] }

abbrev stream : List StreamItem
stream =
    message_delta (codes " they ")
    ∷ message_delta (codes "talked ")
    ∷ errors_closed
    ∷ deltas_closed
    ∷ []

summarized :
    (summary digest no_summary (ask (codes "one") ∷ []) stream).1 ≡ done (codes "they talked")
unfolding summary bounded_source summarize_source source_calls collect remember trim_space trim
summarized = refl

abbrev summarized_conversation : List ChatMessage
summarized_conversation =
    system_message
    ∷ blank (codes "s-2") Role.developer (codes "plan") 1
    ∷ summary_message (codes "they talked")
    ∷ ask (codes "two")
    ∷ reply (codes "2")
    ∷ ask (codes "three")
    ∷ reply (codes "3")
    ∷ ask (codes "four")
    ∷ []

conversation_compacts :
    (compact_messages digest no_summary conversation stream).1
    ≡ done (some (summarized_conversation, compaction_detail 3 3))
unfolding compact_messages split_context_turns split_loop split_message grow close_turns
    flatten_turns summary bounded_source summarize_source source_calls collect remember trim_space
    trim compaction_detail
conversation_compacts = refl

compact_messages_lem_example :
    (text : Text) × (earlier : List (List ChatMessage)) × (last : List (List ChatMessage)) × (Shaped
        (earlier ++ last)
      × (flatten_turns (earlier ++ last) ≡ keep_if is_conversation conversation)
      × (length last ≡ 3)
      × (null earlier ≡ false)
      × ((summary digest no_summary (flatten_turns earlier) stream).1 ≡ done text)
      × (summarized_conversation
          ≡ keep_if is_instruction conversation ++ summary_message text ∷ flatten_turns last)
      × (compaction_detail 3 3 ≡ compaction_detail 3 3))
compact_messages_lem_example =
    compact_messages_lem digest no_summary conversation summarized_conversation
      (compaction_detail 3 3) stream conversation_compacts

-- A window that the conversation does not fill.
abbrev small_window : Conf
small_window = record { model = codes "m"; window_tokens = 1000; output_tokens = 100 }

conversation_prepared :
    (prepare digest no_summary conversation [] small_window []).1
    ≡ done (measure conversation [] small_window)
unfolding prepare measure preview_tool_outputs preview is_oversized context_metrics
    context_window_tokens max_output_tokens estimate_context_tokens estimate_messages estimate_calls
    estimate_text_tokens estimate_schemas used_input_tokens usable_input_tokens
conversation_prepared = refl

prepare_within_limit_example :
    ((measure conversation [] small_window).metrics
      ≡ context_metrics (measure conversation [] small_window).messages [] small_window)
    × ((context_window_tokens small_window ≤ max_output_tokens small_window)
        ⊎ (estimate_context_tokens (measure conversation [] small_window).messages [] * 100
            < (context_window_tokens small_window - max_output_tokens small_window) * 82))
prepare_within_limit_example =
    prepare_within_limit digest no_summary conversation [] small_window []
      (measure conversation [] small_window) conversation_prepared
