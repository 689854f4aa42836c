-- ===== src/Session/Turns/Reload.antt =====
-- What `Load` makes of the log that the turns of internal/svc/agent.go leave, and what it loses.
use codefolio.Common.{
  ℕ, suc, ◌≤◌, ◌⊎◌, ltb, Bool-cases, Text, List, [], ◌∷◌, ◌++◌, Bool, true, false, some, is_empty,
  null, ◌≡◌, refl, ap, ◌∙◌, arith, inl, inr, last?, map_last, map,
}
use codefolio.Domain.Conversation.{ChatMessage, Role, ToolCall}
use codefolio.Session.Ids.{user_msg_id, int_limit}
use codefolio.Session.Ledger.{
  Session, Codec, Env, Kind, message_record, context_record, push, blank, persist, persist_locked,
  add_message, add_user_message, replace_input, update_tool_call_input, replace_provider_messages,
  provider_messages,
}
use codefolio.Session.Load.{load, any_too_long}
use codefolio.Session.Replay.{Saved, saved_from, save_record, nothing_saved, load-saved}
use codefolio.Session.Turns.Coded.{IsFaithful, cleaned}
use codefolio.Session.Turns.State.{
  Phase, closed, Turns, begin, system, user, tool_result, assistant, delta, thinking, signature,
  call, finish, input, compact, metrics, Inv, saved,
}
use codefolio.Session.Turns.Steps.{
  writing, persist_lem, add_system_message-Inv, add_user_message-Inv, add_tool_result_message-Inv,
  start_assistant_message-Inv,
}
use codefolio.Session.Turns.Edits.{
  append_delta-Inv, append_thinking_delta-Inv, set_thinking_signature-Inv,
  add_tool_call_to_assistant-Inv, set_context_metrics-Inv, finish_assistant_message-Inv,
  update_tool_call_input-Inv, replace_provider_messages-Inv,
}

-- A session with a log and no message yet.
pub record IsFresh {L : Type 0} (s : Session L) : Type 0 where
  pub logged : is_empty s.log_path ≡ false
  pub no_messages : s.messages ≡ []
  pub no_number : s.msg_seq ≡ 0
  pub no_lines : s.file ≡ []

-- A compaction, and then a message of the user.
abbrev pub compact_then_ask :
    (c : Codec) → Session c.Line → ℕ → ℕ → List ChatMessage → Text → Session c.Line
compact_then_ask c s now now' ms content =
    add_user_message c (writing now') (replace_provider_messages c (writing now) s ms) content

null-snoc : (xs : List ChatMessage) (x : ChatMessage) → null (xs ++ x ∷ []) ≡ false
null-snoc [] x = refl
null-snoc (y ∷ ys) x = refl

true_not_false : (b : Bool) → b ≡ true → b ≡ false → ⊥
true_not_false b p q = cc

module _ (c : Codec) (faithful : IsFaithful c) where
  open c use {Line}
  open faithful use {clean}

  fresh-Inv : (s : Session Line) → IsFresh s → Inv c clean closed s
  unfolding saved_from
  fresh-Inv s fresh = record {
    logged = fresh.logged;
    rising = rw (fresh.no_messages, fresh.no_number) (omega arith);
    agrees = rw (fresh.no_messages, fresh.no_lines);
    counted = λ _. rw (fresh.no_number, fresh.no_lines);
  }

  -- Where the encoder is faithful and every write to the log succeeds, every session that the turns make
  -- from a fresh one keeps to the invariant: its numbers rise, and its log stands for its messages with
  -- their texts cleaned, as the encoder replaces invalid UTF-8, or for all but the last message while
  -- that is streaming.
  pub Turns-Inv :
      {start : Session Line} {p : Phase} {s : Session Line}
      → IsFresh start
      → Turns c start p s
      → Inv c clean p s
  Turns-Inv {start} fresh begin = fresh-Inv start fresh
  Turns-Inv fresh (system {s} now content t) =
      add_system_message-Inv c faithful now s content (Turns-Inv fresh t)
  Turns-Inv fresh (user {s} now content t) =
      add_user_message-Inv c faithful now s content (Turns-Inv fresh t)
  Turns-Inv fresh (tool_result {s} now call_id content is_error t) =
      add_tool_result_message-Inv c faithful now s call_id content is_error (Turns-Inv fresh t)
  Turns-Inv fresh (assistant {s} now t) =
      start_assistant_message-Inv c faithful now s (Turns-Inv fresh t)
  Turns-Inv fresh (delta {s} content t) = append_delta-Inv c clean s content (Turns-Inv fresh t)
  Turns-Inv fresh (thinking {s} content t) =
      append_thinking_delta-Inv c clean s content (Turns-Inv fresh t)
  Turns-Inv fresh (signature {s} text t) =
      set_thinking_signature-Inv c clean s text (Turns-Inv fresh t)
  Turns-Inv fresh (call {s} tc t) = add_tool_call_to_assistant-Inv c clean s tc (Turns-Inv fresh t)
  Turns-Inv fresh (finish {s} now t) =
      finish_assistant_message-Inv c faithful now s (Turns-Inv fresh t)
  Turns-Inv fresh (input {s} now id text t) =
      update_tool_call_input-Inv c faithful now s id text (Turns-Inv fresh t)
  Turns-Inv fresh (compact {p} {s} now ms t) =
      replace_provider_messages-Inv c faithful p now s ms (Turns-Inv fresh t)
  Turns-Inv fresh (metrics {p} {s} m t) = set_context_metrics-Inv c clean p s m (Turns-Inv fresh t)

  number_kept :
      {p : Phase} {s : Session Line} {n : ℕ}
      → n ≡ (saved c s).msg_seq
      → Inv c clean p s
      → (int_limit ≤ s.msg_seq) ⊎ (n ≡ s.msg_seq)
  number_kept {s = s} e inv = elim (Bool-cases (ltb s.msg_seq int_limit)) [
    | inl lt ↦ inr (e ∙ inv.counted (ground arith))
    | inr ge ↦ inl (ground arith)
  ]

  -- Where the encoder is faithful and every write to the log succeeds: after any turns from a fresh
  -- session with no message streaming, and with no line of the log past the scanner's limit, the log
  -- loads to a session with the same messages, their texts cleaned as the encoder replaces invalid UTF-8,
  -- so that ASCII texts are the same; with the same log, and, while it fits an `int`, the same number for
  -- the next identifier.
  pub reload_messages :
      {start s : Session Line} (now : ℕ)
      → IsFresh start
      → Turns c start closed s
      → any_too_long c s.file ≡ false
      → (t : Session Line) × (load c now s.log_path (some s.file) ≡ some t)
        × (t.messages ≡ map (cleaned clean) s.messages)
        × ((int_limit ≤ s.msg_seq) ⊎ (t.msg_seq ≡ s.msg_seq))
        × (t.log_path ≡ s.log_path)
        × (t.file ≡ s.file)
  reload_messages {s = s} now fresh turns short =
      let inv = Turns-Inv fresh turns in
      elim (load-saved c now s.log_path s.file) [
        | inl (long, _) ↦ cc
        | inr (_, (t, e, ms, seq, provider, path, file)) ↦
            (t, e, ms ∙ inv.agrees, number_kept seq inv, path, file)
      ]

  -- A message record leaves the saved provider's view alone.
  save_message_provider :
      (v : Saved) (now : ℕ) (m : ChatMessage)
      → (save_record v (message_record now Kind.message m)).provider ≡ v.provider
  unfolding save_record
  save_message_provider v now m = ground arith

  -- The provider's view that the log keeps when it is replaced.
  replaced :
      (s : Session Line) (now : ℕ) (ms : List ChatMessage)
      → is_empty s.log_path ≡ false
      → (file : List Line) × (replace_provider_messages c (writing now) s ms
          ≡ record s { provider = ms; file = file })
        × ((saved_from c nothing_saved file).provider ≡ map (cleaned clean) ms)
  unfolding replace_provider_messages save_record
  replaced s now ms logged =
      let (file, e, v) =
        persist_lem c faithful now (record s { provider = ms }) (context_record now ms) logged
          refl in
      (file, e, ap (λ (w : Saved). w.provider) v)

  -- The same view after one more message of the user.
  then_user :
      (s : Session Line) (now : ℕ) (content : Text)
      → is_empty s.log_path ≡ false
      → null s.provider ≡ false
      → let s' = add_user_message c (writing now) s content in
        (s'.provider ≡ s.provider ++ blank (user_msg_id (suc s.msg_seq)) Role.user content now ∷ [])
        × ((saved c s').provider ≡ (saved c s).provider)
  unfolding add_user_message add_message persist_locked
  then_user s now content logged some_ms =
      let m = blank (user_msg_id (suc s.msg_seq)) Role.user content now in
      let (file, e, v) =
        persist_lem c faithful now (push (record s { msg_seq = suc s.msg_seq }) m)
          (message_record now Kind.message m) logged refl in
      rw e (
        rw some_ms refl,
        ap (λ (w : Saved). w.provider) v ∙ save_message_provider (saved c s) now (cleaned clean m),
      )

  null-cleaned : (ms : List ChatMessage) → null ms ≡ false → null (map (cleaned clean) ms) ≡ false
  null-cleaned [] h = cc
  null-cleaned (m ∷ ms) h = refl

  provider_shown :
      (s : Session Line) (xs : List ChatMessage)
      → s.provider ≡ xs
      → null xs ≡ false
      → provider_messages s ≡ xs
  unfolding provider_messages
  provider_shown s xs e h = rw (e, h)

  -- What a restart loses: after a compaction to messages `ms` and one more message of the user, the
  -- session shows the provider `ms` and the new message; the session that its log loads to shows `ms`
  -- alone.
  pub reload_loses_provider_tail :
      (s : Session Line) (now now' later : ℕ) (ms : List ChatMessage) (content : Text)
      → is_empty s.log_path ≡ false
      → null ms ≡ false
      → any_too_long c (compact_then_ask c s now now' ms content).file ≡ false
      → let s2 = compact_then_ask c s now now' ms content in
        let m = blank (user_msg_id (suc s.msg_seq)) Role.user content now' in
        (provider_messages s2 ≡ ms ++ m ∷ [])
        × ((t : Session Line) × (load c later s2.log_path (some s2.file) ≡ some t)
            × (provider_messages t ≡ map (cleaned clean) ms))
  reload_loses_provider_tail s now now' later ms content logged some_ms short =
      let (file, e, kept) = replaced s now ms logged in
      let s1 : Session Line = record s { provider = ms; file = file } in
      let (shown, same) = then_user s1 now' content logged some_ms in
      let s2 = add_user_message c (writing now') s1 content in
      let short' : any_too_long c (add_user_message c (writing now') s1 content).file ≡ false =
        rw e at short in
      rw e (
        provider_shown s2 _ shown (null-snoc ms _),
        elim (load-saved c later s2.log_path s2.file) [
          | inl (long, _) ↦ absurd (true_not_false _ long short')
          | inr (_, (t, loads, _, _, provider, _, _)) ↦ (
            t,
            loads,
            provider_shown t (map (cleaned clean) ms) (provider ∙ (same ∙ kept))
                (null-cleaned ms some_ms),
          )
        ],
      )

persist_locked_rest :
    (c : Codec) (env : Env) (s : Session c.Line) (m : ChatMessage)
    → ((persist_locked c env s m).messages ≡ s.messages)
      × ((persist_locked c env s m).provider ≡ s.provider)
unfolding persist_locked persist
persist_locked_rest c env s m = ground arith

last?-map_last :
    (f : ChatMessage → ChatMessage) (ms : List ChatMessage) (m : ChatMessage)
    → last? ms ≡ some m
    → last? (map_last f ms) ≡ some (f m)
last?-map_last f [] m h = cc
last?-map_last f (x ∷ []) m h = cc
last?-map_last f (x ∷ y ∷ []) m h = last?-map_last f (y ∷ []) m h
last?-map_last f (x ∷ y ∷ z ∷ zs) m h = last?-map_last f (y ∷ z ∷ zs) m h

null_of_last? : (ms : List ChatMessage) (m : ChatMessage) → last? ms ≡ some m → null ms ≡ false
null_of_last? [] m h = cc
null_of_last? (x ∷ xs) m h = refl

-- What a compaction makes the provider miss: where the last entry of the provider's view is the last
-- message, a new tool input reaches that message in the ledger, and the provider's view keeps the old.
pub stale_tool_input :
    (c : Codec) (env : Env) (s : Session c.Line) (m : ChatMessage) (id text : Text)
    (calls : List ToolCall)
    → last? s.messages ≡ some m
    → last? s.provider ≡ some m
    → replace_input id text m.tool_calls ≡ some calls
    → let s' = update_tool_call_input c env s id text in
      (last? s'.messages ≡ some (record m { tool_calls = calls }))
      × (last? (provider_messages s') ≡ some m)
unfolding update_tool_call_input provider_messages
stale_tool_input c env s m id text calls last shown hit =
    let changed : Session c.Line = record s {
      messages = map_last (λ x. record x { tool_calls = calls }) s.messages;
    } in
    let (ms, provider) = persist_locked_rest c env changed (record m { tool_calls = calls }) in
    rw (last, update_tool_call_input)
      (rw hit (
        ap last? ms ∙ last?-map_last (λ x. record x { tool_calls = calls }) s.messages m last,
        rw provider (rw (null_of_last? s.provider m shown) shown),
      ))
