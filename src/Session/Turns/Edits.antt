-- ===== src/Session/Turns/Edits.antt =====
-- The steps that change the last message: while it streams the log keeps its old text, and the end of
-- the stream and a new tool input are logged again.
use codefolio.Common.{
  ℕ, ◌<◌, Text, List, [], ◌∷◌, ◌++◌, true, false, some, is_empty, ◌≡◌, refl, sym, ap, ◌∙◌, arith,
  Option-cases, inl, inr, last?, map_last, map_last-append, last?-append, map, map-append,
}
use mathlib.Core.Path.{subst}
use codefolio.Domain.Conversation.{ChatMessage, ToolCall}
use codefolio.Domain.Metrics.{ContextMetrics}
use codefolio.Session.Ids.{message_sequence, int_limit}
use codefolio.Session.Ledger.{
  Session, Codec, context_record, append_streaming, append_delta, append_thinking_delta,
  finish_assistant_message, stop_streaming, add_tool_call_to_assistant, with_call,
  set_thinking_signature, replace_input, update_tool_call_input, replace_provider_messages,
  set_context_metrics, persist_locked,
}
use codefolio.Session.Replay.{save_record}
use codefolio.Session.Numbers.{
  Numbered, Rising, Rising-last, upsert_last, last_number, message_sequence_of_Numbered,
}
use codefolio.Session.Turns.Coded.{IsFaithful, cleaned, clean-Numbered, Rising-cleaned}
use codefolio.Session.Turns.State.{Phase, closed, streaming, Inv, saved}
use codefolio.Session.Turns.Steps.{writing, persist_lem, persist_locked_lem, Numbered-ne-empty}

-- The last message of a list and what stands before it.
last?-split :
    (ms : List ChatMessage) (m : ChatMessage)
    → last? ms ≡ some m
    → (init : List ChatMessage) × (ms ≡ init ++ m ∷ [])
last?-split [] m h = cc
last?-split (x ∷ []) m h = ([], cc)
last?-split (x ∷ y ∷ ys) m h = let (init, e) = last?-split (y ∷ ys) m h in (x ∷ init, ap (◌∷◌ x) e)

module _ (c : Codec) (clean : Text → Text) where
  open c use {Line}

  -- A change of the last message that keeps its identifier and the stream, with no write.
  edit-Inv :
      (s : Session Line) (provider : List ChatMessage) (f : ChatMessage → ChatMessage)
      → Inv c clean streaming s
      → ((m : ChatMessage) → ((f m).id ≡ m.id) × ((f m).streaming ≡ m.streaming))
      → Inv c clean streaming (record s { messages = map_last f s.messages; provider = provider })
  edit-Inv s provider f inv keeps =
      let (init, old, m, saves, shape, same, stream) = inv.agrees in
      let shape' : map_last f s.messages ≡ init ++ f m ∷ [] = rw shape (map_last-append f init m) in
      let rising : Rising 0 (init ++ m ∷ []) s.msg_seq = rw shape at inv.rising in
      record {
        logged = inv.logged;
        rising = rw shape' (Rising-last 0 s.msg_seq init m (f m) rising (sym (keeps m).0));
        agrees = (init, old, f m, saves, shape', same ∙ sym (keeps m).0, (keeps m).1 ∙ stream);
        counted = inv.counted;
      }

  -- In the streaming phase there is a last message, and it streams.
  last_streams :
      (s : Session Line)
      → Inv c clean streaming s
      → (m : ChatMessage) × (last? s.messages ≡ some m) × (m.streaming ≡ true)
  last_streams s inv =
      let (init, old, m, saves, shape, same, stream) = inv.agrees in
      (m, rw shape (last?-append init m), stream)

  append_streaming-Inv :
      (s : Session Line) (f : ChatMessage → ChatMessage)
      → Inv c clean streaming s
      → ((m : ChatMessage) → ((f m).id ≡ m.id) × ((f m).streaming ≡ m.streaming))
      → Inv c clean streaming (append_streaming f s)
  unfolding append_streaming
  append_streaming-Inv s f inv keeps =
      let (m, last, stream) = last_streams s inv in
      rw (last, append_streaming) (rw stream (edit-Inv s _ f inv keeps))

  pub append_delta-Inv :
      (s : Session Line) (content : Text)
      → Inv c clean streaming s
      → Inv c clean streaming (append_delta s content)
  unfolding append_delta
  append_delta-Inv s content inv = append_streaming-Inv s _ inv (λ m. (refl, refl))

  pub append_thinking_delta-Inv :
      (s : Session Line) (content : Text)
      → Inv c clean streaming s
      → Inv c clean streaming (append_thinking_delta s content)
  unfolding append_thinking_delta
  append_thinking_delta-Inv s content inv = append_streaming-Inv s _ inv (λ m. (refl, refl))

  pub set_thinking_signature-Inv :
      (s : Session Line) (signature : Text)
      → Inv c clean streaming s
      → Inv c clean streaming (set_thinking_signature s signature)
  unfolding set_thinking_signature
  set_thinking_signature-Inv s signature inv =
      edit-Inv s s.provider (λ m. record m { thinking_signature = signature }) inv
        (λ m. (refl, refl))

  pub add_tool_call_to_assistant-Inv :
      (s : Session Line) (tc : ToolCall)
      → Inv c clean streaming s
      → Inv c clean streaming (add_tool_call_to_assistant s tc)
  unfolding add_tool_call_to_assistant
  add_tool_call_to_assistant-Inv s tc inv =
      let (m, last, stream) = last_streams s inv in
      rw (last, add_tool_call_to_assistant) (edit-Inv s _ (with_call tc) inv (λ x. (refl, refl)))

  pub set_context_metrics-Inv :
      (p : Phase) (s : Session Line) (m : ContextMetrics)
      → Inv c clean p s
      → Inv c clean p (set_context_metrics s m)
  unfolding set_context_metrics
  set_context_metrics-Inv p s m inv = record {
    logged = inv.logged;
    rising = inv.rising;
    agrees = inv.agrees;
    counted = inv.counted;
  }

module _ (c : Codec) (faithful : IsFaithful c) where
  open c use {Line}
  open faithful use {clean}

  -- The last message is changed and logged: the log stands for all messages.
  relog-Inv :
      (now : ℕ) (s : Session Line) (provider : List ChatMessage) (init : List ChatMessage)
      (old m m' : ChatMessage) (f : ChatMessage → ChatMessage)
      → is_empty s.log_path ≡ false
      → Rising 0 s.messages s.msg_seq
      → (s.msg_seq < int_limit → (saved c s).msg_seq ≡ s.msg_seq)
      → (saved c s).messages ≡ map (cleaned clean) init ++ old ∷ []
      → s.messages ≡ init ++ m ∷ []
      → old.id ≡ m.id
      → f m ≡ m'
      → m'.id ≡ m.id
      → Inv c clean closed (
          persist_locked c
            (writing now)
            (record s { messages = map_last f s.messages; provider = provider })
            m')
  relog-Inv now s provider init old m m' f logged rising counted saves shape same changed id =
      let shape' : map_last f s.messages ≡ init ++ m' ∷ [] =
        rw shape (map_last-append f init m ∙ ap (λ x. init ++ x ∷ []) changed) in
      let rising_m : Rising 0 (init ++ m ∷ []) s.msg_seq = rw shape at rising in
      let (n, number, _, le) = last_number 0 s.msg_seq init m rising_m in
      let number' : Numbered m'.id n = (number.0, id ∙ number.1, number.2) in
      let fixed = clean-Numbered c faithful m'.id n number' in
      let with_old : Rising 0 (init ++ old ∷ []) s.msg_seq =
        Rising-last 0 s.msg_seq init m old rising_m (sym same) in
      let fixed_old = clean-Numbered c faithful old.id n (number.0, same ∙ number.1, number.2) in
      let logged_before : Rising 0 (map (cleaned clean) init ++ old ∷ []) s.msg_seq =
        Rising-last 0 s.msg_seq (map (cleaned clean) init) (cleaned clean old) old
          (subst (λ x. Rising 0 x s.msg_seq) (map-append (cleaned clean) init (old ∷ []))
            (Rising-cleaned c faithful 0 s.msg_seq (init ++ old ∷ []) with_old))
          fixed_old in
      let (file, e, ms, seq) =
        persist_locked_lem c faithful now
          (record s { messages = map_last f s.messages; provider = provider }) m' logged
          (Numbered-ne-empty m'.id n number') fixed in
      rw e (record {
        logged = logged;
        rising = rw shape' (Rising-last 0 s.msg_seq init m m' rising_m (sym id));
        agrees =
            ms
            ∙ (rw saves (
                  upsert_last 0 s.msg_seq (map (cleaned clean) init) old (cleaned clean m')
                    logged_before (same ∙ (sym id ∙ sym fixed)))
                ∙ (sym (map-append (cleaned clean) init (m' ∷ []))
                    ∙ ap (map (cleaned clean)) (sym shape')));
        counted = λ lt.
            let read : message_sequence m'.id ≡ n =
              message_sequence_of_Numbered m'.id n number' (omega arith) in
            seq ∙ (rw (counted lt, read) (omega arith));
      })

  pub finish_assistant_message-Inv :
      (now : ℕ) (s : Session Line)
      → Inv c clean streaming s
      → Inv c clean closed (finish_assistant_message c (writing now) s)
  unfolding finish_assistant_message
  finish_assistant_message-Inv now s inv =
      let (init, old, m, saves, shape, same, stream) = inv.agrees in
      let last : last? s.messages ≡ some m = rw shape (last?-append init m) in
      rw (last, finish_assistant_message)
        (rw stream (
          relog-Inv now s _ init old m (stop_streaming m) stop_streaming inv.logged inv.rising
            inv.counted saves shape same refl refl))

  pub update_tool_call_input-Inv :
      (now : ℕ) (s : Session Line) (id text : Text)
      → Inv c clean closed s
      → Inv c clean closed (update_tool_call_input c (writing now) s id text)
  unfolding update_tool_call_input
  update_tool_call_input-Inv now s id text inv = elim (Option-cases (last? s.messages)) [
    | inl e ↦ rw (e, update_tool_call_input) inv
    | inr (m, e) ↦ elim (Option-cases (replace_input id text m.tool_calls)) [
      | inl miss ↦ rw (e, update_tool_call_input) (rw miss inv)
      | inr (calls, hit) ↦
          let (init, shape) = last?-split s.messages m e in
          let rising : Rising 0 (init ++ m ∷ []) s.msg_seq = rw shape at inv.rising in
          let (n, number, _, _) = last_number 0 s.msg_seq init m rising in
          let fixed = clean-Numbered c faithful m.id n number in
          let saves =
            inv.agrees
            ∙ (ap (map (cleaned clean)) shape ∙ map-append (cleaned clean) init (m ∷ [])) in
          rw (e, update_tool_call_input)
            (rw hit (
              relog-Inv now s s.provider init (cleaned clean m) m _
                (λ x. record x { tool_calls = calls }) inv.logged inv.rising inv.counted saves shape
                fixed refl refl))
    ]
  ]

  pub replace_provider_messages-Inv :
      (p : Phase) (now : ℕ) (s : Session Line) (ms : List ChatMessage)
      → Inv c clean p s
      → Inv c clean p (replace_provider_messages c (writing now) s ms)
  unfolding replace_provider_messages save_record
  replace_provider_messages-Inv p now s ms inv =
      let (file, e, v) =
        persist_lem c faithful now (record s { provider = ms }) (context_record now ms) inv.logged
          refl in
      rw e (record {
        logged = inv.logged;
        rising = inv.rising;
        agrees = rw v inv.agrees;
        counted = rw v inv.counted;
      })
