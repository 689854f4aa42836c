-- ===== src/Context/Limits.antt =====
-- What `Prepare` and `Compact` of internal/svc/context.go guarantee, and two texts that are wrong.
use codefolio.Common.{
  ◌-◌, ◌*◌, ◌≤◌, ◌<◌, Text, List, [], ◌∷◌, ◌++◌, true, false, Option, none, some, ltb, leb, length,
  take, drop, is_empty, text_eq_refl, text_eq_sound, keep_if, ◌≡◌, refl, sym, ap, ◌∙◌, arith,
  Bool-cases, inl, inr, ◌⊎◌, take-append-drop, length-drop, append_assoc, null, ℕ, zero, suc,
}
use mathlib.Core.Path.{subst}
use codefolio.Domain.Conversation.{ChatMessage}
use codefolio.Domain.Metrics.{ContextMetrics, usable_input_tokens, used_input_tokens}
use codefolio.Context.Tokens.{
  Conf, context_metrics, over_context_limit, estimate_context_tokens, context_window_tokens,
  max_output_tokens,
}
use codefolio.Context.Preview.{preview_tool_outputs}
use codefolio.Context.Turns.{
  split_context_turns, flatten_turns, is_instruction, is_conversation, split_context_turns_complete,
  Shaped, split_context_turns-Shaped,
}
use codefolio.Context.Manager.{
  Outcome, done, failed, waiting, StreamItem, Manager, bounded_source, remember, summary,
  summary_message, compaction_detail, compact_messages, compaction_result, CompactionResult,
  compact, ContextPreparation, measure, finish_preparation, prepare,
}

pub Outcome-cases :
    {A : Type 0} (r : Outcome A)
    → ((a : A) × (r ≡ done a)) ⊎ ((e : Text) × (r ≡ failed e)) ⊎ (r ≡ waiting)
Outcome-cases (done a) = inl (a, refl)
Outcome-cases (failed e) = inr (inl (e, refl))
Outcome-cases waiting = inr (inr refl)

-- Below the soft limit is below the hard one.
soft_below_hard :
    (m : ContextMetrics)
    → ltb (used_input_tokens m * 100) (usable_input_tokens m * 70) ≡ true
    → over_context_limit m 82 ≡ false
unfolding over_context_limit
soft_below_hard m h = ground arith

-- The metrics of a preparation or a compaction are those of its messages.
abbrev Measured : List ChatMessage → ContextMetrics → List (Option Text) → Conf → Type 0
Measured ms metrics schemas cfg = metrics ≡ context_metrics ms schemas cfg

compaction_result-Measured :
    (working : List ChatMessage) (schemas : List (Option Text)) (cfg : Conf)
    (r : Option (List ChatMessage × Text))
    → let c = compaction_result working schemas cfg r in Measured c.messages c.metrics schemas cfg
compaction_result-Measured working schemas cfg none = refl
compaction_result-Measured working schemas cfg (some (ms, d)) = refl

compact-Measured :
    (digest : Text → Text) (m : Manager) (ms : List ChatMessage) (schemas : List (Option Text))
    (cfg : Conf) (items : List StreamItem) (r : CompactionResult)
    → (compact digest m ms schemas cfg items).1 ≡ done r
    → Measured r.messages r.metrics schemas cfg
unfolding compact
compact-Measured digest m ms schemas cfg items r h =
    elim (Outcome-cases (compact_messages digest m (preview_tool_outputs ms).0 items).1) [
      | inl (c, e) ↦
          let h' : done (compaction_result (preview_tool_outputs ms).0 schemas cfg c) ≡ done r =
            rw e at h in
          let same : compaction_result (preview_tool_outputs ms).0 schemas cfg c ≡ r = cc in
          rw same at (compaction_result-Measured (preview_tool_outputs ms).0 schemas cfg c)
      | inr (inl (s, e)) ↦ let h' : failed s ≡ done r = rw e at h in cc
      | inr (inr e) ↦ let h' : waiting ≡ done r = rw e at h in cc
    ]

finish_preparation_within :
    (p q : ContextPreparation) (r : CompactionResult) (schemas : List (Option Text)) (cfg : Conf)
    → Measured p.messages p.metrics schemas cfg
    → Measured r.messages r.metrics schemas cfg
    → finish_preparation p r ≡ done q
    → (over_context_limit q.metrics 82 ≡ false) × Measured q.messages q.metrics schemas cfg
unfolding finish_preparation
finish_preparation_within p q r schemas cfg mp mr h = ground arith

measure-Measured :
    (ms : List ChatMessage) (schemas : List (Option Text)) (cfg : Conf)
    → Measured (measure ms schemas cfg).messages (measure ms schemas cfg).metrics schemas cfg
unfolding measure
measure-Measured ms schemas cfg = refl

prepare_not_over :
    (digest : Text → Text) (m : Manager) (ms : List ChatMessage) (schemas : List (Option Text))
    (cfg : Conf) (items : List StreamItem) (p : ContextPreparation)
    → (prepare digest m ms schemas cfg items).1 ≡ done p
    → (over_context_limit p.metrics 82 ≡ false)
      × (p.metrics ≡ context_metrics p.messages schemas cfg)
unfolding prepare
prepare_not_over digest m ms schemas cfg items p h =
    let first = measure ms schemas cfg in
    elim (Bool-cases
      (ltb (used_input_tokens first.metrics * 100) (usable_input_tokens first.metrics * 70))) [
        | inl soft ↦
            let h' : done first ≡ done p = rw soft at h in
            let same : first ≡ p = cc in
            let both : (over_context_limit first.metrics 82 ≡ false)
                × Measured first.messages first.metrics schemas cfg =
              (soft_below_hard first.metrics soft, measure-Measured ms schemas cfg) in
            rw same at both
        | inr over ↦ elim (Outcome-cases (compact digest m first.messages schemas cfg items).1) [
          | inl (r, e) ↦
              let h' : finish_preparation first r ≡ done p = rw (over, e) at h in
              finish_preparation_within first p r schemas cfg (measure-Measured ms schemas cfg)
                (compact-Measured digest m first.messages schemas cfg items r e) h'
          | inr (inl (s, e)) ↦ let h' : failed s ≡ done p = rw (over, e) at h in cc
          | inr (inr e) ↦ let h' : waiting ≡ done p = rw (over, e) at h in cc
        ]
      ]

limit_of_metrics :
    (ms : List ChatMessage) (schemas : List (Option Text)) (cfg : Conf)
    → over_context_limit (context_metrics ms schemas cfg) 82 ≡ false
    → (context_window_tokens cfg ≤ max_output_tokens cfg)
      ⊎ (estimate_context_tokens ms schemas * 100
          < (context_window_tokens cfg - max_output_tokens cfg) * 82)
unfolding over_context_limit context_metrics usable_input_tokens used_input_tokens
limit_of_metrics ms schemas cfg h = ground arith

-- If `Prepare` succeeds, the metrics that it reports are those of the messages that it returns, and
-- the estimate of these messages and the schemas is below 82 per cent of what the window leaves to the
-- input, unless the output takes the whole window.
pub prepare_within_limit :
    (digest : Text → Text) (m : Manager) (ms : List ChatMessage) (schemas : List (Option Text))
    (cfg : Conf) (items : List StreamItem) (p : ContextPreparation)
    → (prepare digest m ms schemas cfg items).1 ≡ done p
    → (p.metrics ≡ context_metrics p.messages schemas cfg)
      × ((context_window_tokens cfg ≤ max_output_tokens cfg)
          ⊎ (estimate_context_tokens p.messages schemas * 100
              < (context_window_tokens cfg - max_output_tokens cfg) * 82))
prepare_within_limit digest m ms schemas cfg items p h =
    let (within, same) = prepare_not_over digest m ms schemas cfg items p h in
    (same, limit_of_metrics p.messages schemas cfg (rw same at within))

abbrev finished : Option (List ChatMessage × Text) → Outcome (Option (List ChatMessage × Text))
finished r = done r

flatten_turns-append :
    (ts us : List (List ChatMessage))
    → flatten_turns (ts ++ us) ≡ flatten_turns ts ++ flatten_turns us
unfolding flatten_turns
flatten_turns-append [] us = refl
flatten_turns-append (t ∷ ts) us =
    ap (◌++◌ t) (flatten_turns-append ts us) ∙ sym (append_assoc t _ _)

null-take : {A : Type 0} (k : ℕ) (xs : List A) → 0 < k → k ≤ length xs → null (take k xs) ≡ false
null-take zero xs h le = absurd (omega arith)
null-take (suc k) [] h le = absurd (omega arith)
null-take (suc k) (x ∷ xs) h le = refl

-- A compaction puts a summary in the place of all turns but the last three. The turns are the finished
-- conversation cut before each message of the user; the result is the finished instructions, the summary
-- that is made of the earlier turns, and the last three turns as they were. Its detail counts three
-- earlier turns, whatever their number is.
pub compact_messages_lem :
    (digest : Text → Text) (m : Manager) (ms out : List ChatMessage) (detail : Text)
    (items : List StreamItem)
    → (compact_messages digest m ms items).1 ≡ done (some (out, detail))
    → (text : Text) × (earlier : List (List ChatMessage)) × (last : List (List ChatMessage))
      × (Shaped (earlier ++ last)
          × (flatten_turns (earlier ++ last) ≡ keep_if is_conversation ms)
          × (length last ≡ 3)
          × (null earlier ≡ false)
          × ((summary digest m (flatten_turns earlier) items).1 ≡ done text)
          × (out ≡ keep_if is_instruction ms ++ summary_message text ∷ flatten_turns last)
          × (detail ≡ compaction_detail 3 3))
unfolding compact_messages
compact_messages_lem digest m ms out detail items h =
    let turns = (split_context_turns ms).1 in
    let start = length turns - 3 in
    let prefix = flatten_turns (take start turns) in
    let keep = flatten_turns (drop start turns) in
    let (systems, conversation) = split_context_turns_complete ms in
    elim (Bool-cases (leb (length turns) 3)) [
      | inl few ↦ let h' : finished none ≡ finished (some (out, detail)) = rw few at h in cc
      | inr many ↦ elim (Outcome-cases (summary digest m prefix items).1) [
        | inl (text, e) ↦
            let h' : finished (
                  some (
                    (split_context_turns ms).0 ++ summary_message text ∷ keep,
                    compaction_detail (length turns - start) (length turns - start),
                  ))
                ≡ finished (some (out, detail)) =
              rw (many, e) at h in
            let three : length turns - start ≡ 3 = ground arith in
            let whole = take-append-drop start turns in
            (
              text,
              take start turns,
              drop start turns,
              (
                subst Shaped (sym whole) (split_context_turns-Shaped ms),
                ap flatten_turns whole ∙ conversation,
                length-drop start turns ∙ three,
                null-take start turns (ground arith) (omega arith),
                e,
                cc (systems),
                cc (three),
              ),
            )
        | inr (inl (s, e)) ↦
            let h' : failed s ≡ finished (some (out, detail)) = rw (many, e) at h in cc
        | inr (inr e) ↦ let h' : waiting ≡ finished (some (out, detail)) = rw (many, e) at h in cc
      ]
    ]

-- A manager that holds the summary of a prefix gives it.
held_summary :
    (digest : Text → Text) (m : Manager) (prefix : List ChatMessage) (later : List StreamItem)
    (text : Text)
    → m.last_prefix_id ≡ digest (bounded_source prefix)
    → m.last_summary ≡ text
    → is_empty text ≡ false
    → summary digest m prefix later ≡ (m, done text)
unfolding summary
held_summary digest m prefix later text k s full =
    ground (arith, text_eq_refl (digest (bounded_source prefix)))

summary_holds :
    (digest : Text → Text) (m : Manager) (prefix : List ChatMessage) (items : List StreamItem)
    (text : Text)
    → (summary digest m prefix items).1 ≡ done text
    → ((summary digest m prefix items).0.last_prefix_id ≡ digest (bounded_source prefix))
      × ((summary digest m prefix items).0.last_summary ≡ text)
      × (is_empty text ≡ false)
unfolding summary remember
summary_holds digest m prefix items text h =
    ground (arith, text_eq_sound (digest (bounded_source prefix)) m.last_prefix_id)

-- A summary that was made is given again for the same messages, with no stream and no change of the
-- manager.
pub summary_cached :
    (digest : Text → Text) (m : Manager) (prefix : List ChatMessage) (items later : List StreamItem)
    (text : Text)
    → (summary digest m prefix items).1 ≡ done text
    → let m' = (summary digest m prefix items).0 in summary digest m' prefix later ≡ (m', done text)
summary_cached digest m prefix items later text h =
    let (key, kept, full) = summary_holds digest m prefix items text h in
    held_summary digest (summary digest m prefix items).0 prefix later text key kept full
