-- ===== src/Agent/Closed.antt =====
-- A session between two streamed messages: its last message is not being streamed, so
-- `FinishAssistantMessage` does nothing to it.
use codefolio.Common.{
  ℕ, suc, Text, List, [], ◌∷◌, ◌++◌, false, some, ◌≡◌, refl, sym, ◌∙◌, arith, Bool-cases,
  Option-cases, inl, inr, last?, map_last, last?-append,
}
use codefolio.Domain.Conversation.{ChatMessage}
use codefolio.Session.Ledger.{
  Session, Codec, Env, LogRecord, persist, persist_locked, add_message, add_system_message,
  add_user_message, add_tool_result_message, finish_assistant_message, stop_streaming,
  update_tool_call_input, replace_input, replace_provider_messages, set_context_metrics,
}
use codefolio.Session.Turns.State.{
  Phase, closed, streaming, Turns, begin, system, user, tool_result, assistant, delta, thinking,
  signature, call, finish, input, compact, metrics,
}
use codefolio.Session.Turns.Steps.{writing}

abbrev pub Quiet : List ChatMessage → Type 0
Quiet ms = (m : ChatMessage) → last? ms ≡ some m → m.streaming ≡ false

abbrev pub QuietIn : Phase → List ChatMessage → Type 0
QuietIn closed ms = Quiet ms
QuietIn streaming ms = Unit

Quiet-append :
    (ms : List ChatMessage) (m : ChatMessage) → m.streaming ≡ false → Quiet (ms ++ m ∷ [])
Quiet-append ms m h x e =
    let same : some m ≡ some x = sym (last?-append ms m) ∙ e in ground (arith, same)

last?-map_last :
    (f : ChatMessage → ChatMessage) (ms : List ChatMessage) (m : ChatMessage)
    → last? ms ≡ some m
    → last? (map_last f ms) ≡ some (f m)
last?-map_last f [] m h = cc
last?-map_last f (x ∷ []) m h = cc
last?-map_last f (x ∷ y ∷ []) m h = last?-map_last f (y ∷ []) m h
last?-map_last f (x ∷ y ∷ z ∷ zs) m h = last?-map_last f (y ∷ z ∷ zs) m h

Quiet-map_last :
    (f : ChatMessage → ChatMessage) (ms : List ChatMessage) (m : ChatMessage)
    → last? ms ≡ some m
    → (f m).streaming ≡ false
    → Quiet (map_last f ms)
Quiet-map_last f ms m e h x e' =
    let same : some (f m) ≡ some x = sym (last?-map_last f ms m e) ∙ e' in ground (arith, same)

module _ (c : Codec) where
  open c use {Line}

  persist_messages :
      (env : Env) (s : Session Line) (r : LogRecord) → (persist c env s r).messages ≡ s.messages
  unfolding persist
  persist_messages env s r = ground arith

  add_message_messages :
      (env : Env) (s : Session Line) (make : ℕ → ChatMessage)
      → (add_message c env s make).messages ≡ s.messages ++ make (suc s.msg_seq) ∷ []
  unfolding add_message persist_locked
  add_message_messages env s make = persist_messages env _ _

  add_message-Quiet :
      (env : Env) (s : Session Line) (make : ℕ → ChatMessage)
      → (make (suc s.msg_seq)).streaming ≡ false
      → Quiet (add_message c env s make).messages
  add_message-Quiet env s make h =
      rw (add_message_messages env s make) (Quiet-append s.messages (make (suc s.msg_seq)) h)

  finish-Quiet : (env : Env) (s : Session Line) → Quiet (finish_assistant_message c env s).messages
  unfolding finish_assistant_message persist_locked
  finish-Quiet env s = elim (Option-cases (last? s.messages)) [
    | inl e ↦ rw (e, finish_assistant_message) (λ m h. cc)
    | inr (m, e) ↦ elim (Bool-cases m.streaming) [
      | inl going ↦
          rw (e, finish_assistant_message)
            (rw going
              (rw (persist_messages env _ _) (Quiet-map_last stop_streaming s.messages m e refl)))
      | inr stopped ↦
          rw (e, finish_assistant_message) (rw stopped (λ x h. ground (arith, e, h, stopped)))
    ]
  ]

  update-Quiet :
      (env : Env) (s : Session Line) (id text : Text)
      → Quiet s.messages
      → Quiet (update_tool_call_input c env s id text).messages
  unfolding update_tool_call_input persist_locked
  update-Quiet env s id text q = elim (Option-cases (last? s.messages)) [
    | inl e ↦ rw (e, update_tool_call_input) q
    | inr (m, e) ↦ elim (Option-cases (replace_input id text m.tool_calls)) [
      | inl miss ↦ rw (e, update_tool_call_input) (rw miss q)
      | inr (calls, hit) ↦
          rw (e, update_tool_call_input)
            (rw hit (
              rw (persist_messages env _ _)
                (Quiet-map_last (λ x. record x { tool_calls = calls }) s.messages m e (q m e))))
    ]
  ]

  compact_messages_same :
      (env : Env) (s : Session Line) (ms : List ChatMessage)
      → (replace_provider_messages c env s ms).messages ≡ s.messages
  unfolding replace_provider_messages
  compact_messages_same env s ms = persist_messages env _ _

  QuietIn-same : (p : Phase) (ms ns : List ChatMessage) → ms ≡ ns → QuietIn p ns → QuietIn p ms
  QuietIn-same p ms ns e q = rw e q

  -- In a session that the turns make and that is between two streamed messages, the last message is
  -- not being streamed.
  pub Turns-Quiet :
      {start s : Session Line} {p : Phase}
      → start.messages ≡ []
      → Turns c start p s
      → QuietIn p s.messages
  unfolding add_system_message add_user_message add_tool_result_message set_context_metrics
  Turns-Quiet fresh begin = rw fresh (λ m h. cc)
  Turns-Quiet fresh (system {s} now content t) = add_message-Quiet (writing now) s _ refl
  Turns-Quiet fresh (user {s} now content t) = add_message-Quiet (writing now) s _ refl
  Turns-Quiet fresh (tool_result {s} now call_id content is_error t) =
      add_message-Quiet (writing now) s _ refl
  Turns-Quiet fresh (assistant now t) = tt
  Turns-Quiet fresh (delta content t) = tt
  Turns-Quiet fresh (thinking content t) = tt
  Turns-Quiet fresh (signature text t) = tt
  Turns-Quiet fresh (call tc t) = tt
  Turns-Quiet fresh (finish {s} now t) = finish-Quiet (writing now) s
  Turns-Quiet fresh (input {s} now id text t) =
      update-Quiet (writing now) s id text (Turns-Quiet fresh t)
  Turns-Quiet fresh (compact {p} {s} now ms t) =
      QuietIn-same p _ s.messages (compact_messages_same (writing now) s ms) (Turns-Quiet fresh t)
  Turns-Quiet fresh (metrics m t) = Turns-Quiet fresh t

  finish_unchanged :
      (env : Env) (s : Session Line) → Quiet s.messages → finish_assistant_message c env s ≡ s
  unfolding finish_assistant_message
  finish_unchanged env s q = elim (Option-cases (last? s.messages)) [
    | inl e ↦ rw (e, finish_assistant_message) refl
    | inr (m, e) ↦ rw (e, finish_assistant_message) (rw (q m e) refl)
  ]

  -- A finish closes a session in either phase.
  pub finish_closes :
      {start s : Session Line} {p : Phase} (now : ℕ)
      → start.messages ≡ []
      → Turns c start p s
      → Turns c start closed (finish_assistant_message c (writing now) s)
  finish_closes {p = streaming} now fresh t = finish now t
  finish_closes {s = s} {p = closed} now fresh t =
      rw (finish_unchanged (writing now) s (Turns-Quiet fresh t)) t
