-- ===== src/Session/Turns/Steps.antt =====
-- Every step of a turn keeps the agreement between the ledger and its log.
use codefolio.Common.{
  ℕ, suc, ◌<◌, max, Text, List, [], ◌∷◌, ◌++◌, Bool, true, false, some, is_empty, ◌≡◌, refl, sym,
  ap, map, map-append, ◌∙◌, arith, Option-cases, inl, inr,
}
use codefolio.Domain.Conversation.{ChatMessage}
use codefolio.Session.Ids.{
  user_msg_id, asst_msg_id, sys_msg_id, tool_msg_id, message_sequence, int_limit,
}
use codefolio.Session.Ledger.{
  Session, Codec, Env, LogRecord, Kind, message_record, push, persist, persist_locked, add_message,
  add_system_message, add_user_message, start_assistant_message, add_tool_result_message,
}
use codefolio.Session.Load.{decode}
use codefolio.Session.Replay.{Saved, saved_from, save_record, nothing_saved, upsert}
use codefolio.Session.Numbers.{
  Numbered, Rising, Rising-snoc, upsert_fresh, message_sequence_of_Numbered,
}
use codefolio.Session.Turns.Coded.{
  IsFaithful, cleaned, cleaned_record, clean-Numbered, Rising-cleaned,
}
use codefolio.Session.Turns.State.{closed, streaming, Inv, saved}

pub Numbered-ne-empty : (id : Text) (n : ℕ) → Numbered id n → is_empty id ≡ false
Numbered-ne-empty id n (k, e, _) = rw e

abbrev pub writing : ℕ → Env
writing now = record { now = now; writable = true }

module _ (c : Codec) (faithful : IsFaithful c) where
  open c use {Line}
  open faithful use {clean}

  saved_from-snoc :
      (v : Saved) (lines : List Line) (line : Line) (r : LogRecord)
      → decode c line ≡ some r
      → saved_from c v (lines ++ line ∷ []) ≡ save_record (saved_from c v lines) r
  unfolding saved_from
  saved_from-snoc v [] line r e = rw (e, saved_from)
  saved_from-snoc v (x ∷ xs) line r e = elim (Option-cases (decode c x)) [
    | inl d ↦ rw (d, saved_from) (saved_from-snoc v xs line r e)
    | inr (q, d) ↦ rw (d, saved_from) (saved_from-snoc (save_record v q) xs line r e)
  ]

  -- What a write adds to the log, and all that it changes.
  pub persist_lem :
      (now : ℕ) (s : Session Line) (r : LogRecord)
      → is_empty s.log_path ≡ false
      → r.version ≡ 1
      → (file : List Line) × (persist c (writing now) s r ≡ record s { file = file })
        × (saved_from c nothing_saved file ≡ save_record (saved c s) (cleaned_record clean r))
  unfolding persist decode
  persist_lem now s r logged version =
      let (line, e, d) = faithful.encodes r in
      let read = cleaned_record clean r in
      let whole : decode c line ≡ some read = rw (d, decode) (rw version) in
      (s.file ++ line ∷ [], rw logged (rw e), saved_from-snoc nothing_saved s.file line read whole)

  -- A logged message record, whose message has an identifier.
  pub persist_locked_lem :
      (now : ℕ) (s : Session Line) (m : ChatMessage)
      → is_empty s.log_path ≡ false
      → is_empty m.id ≡ false
      → clean m.id ≡ m.id
      → (file : List Line) × (persist_locked c (writing now) s m ≡ record s { file = file })
        × ((saved_from c nothing_saved file).messages
            ≡ upsert (saved c s).messages (cleaned clean m))
        × ((saved_from c nothing_saved file).msg_seq
            ≡ max (saved c s).msg_seq (message_sequence m.id))
  unfolding persist_locked save_record
  persist_locked_lem now s m logged full fixed =
      let full' : is_empty (clean m.id) ≡ false = rw fixed full in
      let (file, e, v) = persist_lem now s (message_record now Kind.message m) logged refl in
      (
        file,
        e,
        ap (λ (w : Saved). w.messages) v ∙ rw full',
        ap (λ (w : Saved). w.msg_seq) v
            ∙ rw full' (ap (λ x. max (saved c s).msg_seq (message_sequence x)) fixed),
      )

  -- A new message: what the session and its log are behind it.
  add_message_lem :
      (now : ℕ) (s : Session Line) (make : ℕ → ChatMessage)
      → Inv c clean closed s
      → Numbered (make (suc s.msg_seq)).id (suc s.msg_seq)
      → let s' = add_message c (writing now) s make in
        (s'.messages ≡ s.messages ++ make (suc s.msg_seq) ∷ [])
        × ((saved c s').messages ≡ map (cleaned clean) s'.messages)
        × (is_empty s'.log_path ≡ false)
        × Rising 0 s'.messages s'.msg_seq
        × (s'.msg_seq < int_limit → (saved c s').msg_seq ≡ s'.msg_seq)
  unfolding add_message
  add_message_lem now s make inv number =
      let m = make (suc s.msg_seq) in
      let fixed = clean-Numbered c faithful m.id (suc s.msg_seq) number in
      let (file, e, ms, seq) =
        persist_locked_lem now (push (record s { msg_seq = suc s.msg_seq }) m) m inv.logged
          (Numbered-ne-empty m.id (suc s.msg_seq) number) fixed in
      let before = map (cleaned clean) s.messages in
      let added : upsert (saved c s).messages (cleaned clean m) ≡ before ++ cleaned clean m ∷ [] =
        rw inv.agrees (
          upsert_fresh 0 s.msg_seq (suc s.msg_seq) before (cleaned clean m)
            (Rising-cleaned c faithful 0 s.msg_seq s.messages inv.rising)
            (number.0, fixed ∙ number.1, number.2) (omega arith)) in
      rw e (
        refl,
        ms ∙ (added ∙ sym (map-append (cleaned clean) s.messages (m ∷ []))),
        inv.logged,
        Rising-snoc 0 s.msg_seq s.messages m inv.rising number,
        λ lt.
            let read : message_sequence m.id ≡ suc s.msg_seq =
              message_sequence_of_Numbered m.id (suc s.msg_seq) number lt in
            seq ∙ (rw (inv.counted (omega arith), read) (omega arith)),
      )

  add_closed :
      (now : ℕ) (s : Session Line) (make : ℕ → ChatMessage)
      → Inv c clean closed s
      → Numbered (make (suc s.msg_seq)).id (suc s.msg_seq)
      → Inv c clean closed (add_message c (writing now) s make)
  add_closed now s make inv number =
      let (_, same, logged, rising, counted) = add_message_lem now s make inv number in
      record { logged = logged; rising = rising; agrees = same; counted = counted }

  add_streaming :
      (now : ℕ) (s : Session Line) (make : ℕ → ChatMessage)
      → Inv c clean closed s
      → Numbered (make (suc s.msg_seq)).id (suc s.msg_seq)
      → (make (suc s.msg_seq)).streaming ≡ true
      → Inv c clean streaming (add_message c (writing now) s make)
  add_streaming now s make inv number stream =
      let (ms, same, logged, rising, counted) = add_message_lem now s make inv number in
      let m = make (suc s.msg_seq) in
      record {
        logged = logged;
        rising = rising;
        agrees = (
          s.messages,
          cleaned clean m,
          m,
          same ∙ (ap (map (cleaned clean)) ms ∙ map-append (cleaned clean) s.messages (m ∷ [])),
          ms,
          clean-Numbered c faithful m.id (suc s.msg_seq) number,
          stream,
        );
        counted = counted;
      }

  pub add_system_message-Inv :
      (now : ℕ) (s : Session Line) (content : Text)
      → Inv c clean closed s
      → Inv c clean closed (add_system_message c (writing now) s content)
  unfolding add_system_message sys_msg_id
  add_system_message-Inv now s content inv = add_closed now s _ inv (115, refl, omega arith)

  pub add_user_message-Inv :
      (now : ℕ) (s : Session Line) (content : Text)
      → Inv c clean closed s
      → Inv c clean closed (add_user_message c (writing now) s content)
  unfolding add_user_message user_msg_id
  add_user_message-Inv now s content inv = add_closed now s _ inv (117, refl, omega arith)

  pub add_tool_result_message-Inv :
      (now : ℕ) (s : Session Line) (call_id content : Text) (is_error : Bool)
      → Inv c clean closed s
      → Inv c clean closed (add_tool_result_message c (writing now) s call_id content is_error)
  unfolding add_tool_result_message tool_msg_id
  add_tool_result_message-Inv now s call_id content is_error inv =
      add_closed now s _ inv (116, refl, omega arith)

  pub start_assistant_message-Inv :
      (now : ℕ) (s : Session Line)
      → Inv c clean closed s
      → Inv c clean streaming (start_assistant_message c (writing now) s)
  unfolding start_assistant_message asst_msg_id
  start_assistant_message-Inv now s inv = add_streaming now s _ inv (97, refl, omega arith) refl
