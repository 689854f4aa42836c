-- ===== src/Session/Replay.antt =====
-- A log and what it stands for: the loop of `Load` is a fold over the records that replaces a message
-- by its identifier or adds it at the end.
use codefolio.Common.{
  ℕ, zero, suc, max, Text, List, [], ◌∷◌, ◌++◌, true, false, Option, none, some, text_eq,
  text_eq_sound, text_eq_refl, is_empty, length, set, if◌then◌else◌, ◌≡◌, refl, sym, ap, ◌∙◌, arith,
  Bool-cases, Option-cases, inl, inr, ◌⊎◌,
}
use codefolio.Domain.Conversation.{ChatMessage}
use codefolio.Session.Ids.{message_sequence}
use codefolio.Session.Ledger.{Session, Codec, LogRecord, Kind, message, provider_context, other}
use codefolio.Session.Load.{
  Loading, lookup_id, store_message, load_message, load_record, decode, load_lines, any_too_long,
  load, start_loading, loaded,
}

-- The specification of one message record: the first message of its identifier is replaced, or the
-- message is added at the end.
unfoldable pub upsert : List ChatMessage → ChatMessage → List ChatMessage
upsert [] m = m ∷ []
upsert (x ∷ xs) m = let rest = upsert xs m in if text_eq x.id m.id then m ∷ xs else x ∷ rest

-- What a log stands for.
pub record Saved : Type 0 where
  pub messages : List ChatMessage
  pub msg_seq : ℕ
  pub provider : List ChatMessage

unfoldable pub save_record : Saved → LogRecord → Saved
save_record v r = elim r.kind [
  | provider_context ↦ record v { provider = r.provider }
  | message ↦ if is_empty r.message.id then v else record v {
    messages = upsert v.messages r.message;
    msg_seq = max v.msg_seq (message_sequence r.message.id);
  }
  | other _ ↦ v
]

module _ (c : Codec) where
  open c use {Line}

  unfoldable pub saved_from : Saved → List Line → Saved
  saved_from v [] = v
  saved_from v (line ∷ lines) = elim (decode c line) [
    | none ↦ saved_from v lines
    | some r ↦ saved_from (save_record v r) lines
  ]

abbrev pub nothing_saved : Saved
nothing_saved = record { messages = []; msg_seq = 0; provider = [] }

-- The first position of an identifier.
index_of : Text → List ChatMessage → Option ℕ
index_of id [] = none
index_of id (x ∷ xs) =
    let rest : Option ℕ = elim (index_of id xs) [ none ↦ none | some i ↦ some (suc i) ] in
    if text_eq x.id id then some 0 else rest

-- The map gives the first position of every identifier.
abbrev Indexed : Loading → Type 0
Indexed st = (id : Text) → lookup_id id st.by_id ≡ index_of id st.messages

upsert_new :
    (xs : List ChatMessage) (m : ChatMessage) → index_of m.id xs ≡ none → upsert xs m ≡ xs ++ m ∷ []
unfolding upsert index_of
upsert_new [] m h = refl
upsert_new (x ∷ xs) m h = ground (arith, upsert_new xs m)

upsert_old :
    (xs : List ChatMessage) (m : ChatMessage) (i : ℕ)
    → index_of m.id xs ≡ some i
    → upsert xs m ≡ set xs i m
unfolding upsert index_of
upsert_old [] m i h = cc
upsert_old (x ∷ xs) m zero h = ground arith
upsert_old (x ∷ xs) m (suc i) h = ground (arith, upsert_old xs m i)

index_of-append :
    (id : Text) (xs : List ChatMessage) (m : ChatMessage)
    → index_of m.id xs ≡ none
    → index_of id (xs ++ m ∷ []) ≡ (if text_eq m.id id then some (length xs) else index_of id xs)
unfolding index_of
index_of-append id [] m h = refl
index_of-append id (x ∷ xs) m h = ground (
  arith,
  index_of-append id xs m,
  text_eq_sound x.id id,
  text_eq_sound m.id id,
  text_eq_refl m.id,
)

index_of-set :
    (id : Text) (xs : List ChatMessage) (m : ChatMessage) (i : ℕ)
    → index_of m.id xs ≡ some i
    → index_of id (set xs i m) ≡ index_of id xs
unfolding index_of
index_of-set id [] m i h = cc
index_of-set id (x ∷ xs) m zero h = ground (arith, text_eq_sound x.id m.id)
index_of-set id (x ∷ xs) m (suc i) h = ground (arith, index_of-set id xs m i)

store_message-upsert :
    (st : Loading) (m : ChatMessage)
    → Indexed st
    → ((store_message st m).messages ≡ upsert st.messages m) × Indexed (store_message st m)
unfolding store_message
store_message-upsert st m h = elim (Option-cases (lookup_id m.id st.by_id)) [
  | inl e ↦
      let new : index_of m.id st.messages ≡ none = sym (h m.id) ∙ e in
      rw (e, store_message)
        (
          sym (upsert_new st.messages m new),
          λ id. unfold lookup_id in ground (arith, h id, index_of-append id st.messages m new),
        )
  | inr (i, e) ↦
      let old : index_of m.id st.messages ≡ some i = sym (h m.id) ∙ e in
      rw (e, store_message)
        (
          sym (upsert_old st.messages m i old),
          λ id. h id ∙ sym (index_of-set id st.messages m i old),
        )
]

abbrev view : Loading → Saved
view st = record { messages = st.messages; msg_seq = st.msg_seq; provider = st.provider }

store_message_rest :
    (st : Loading) (m : ChatMessage)
    → ((store_message st m).msg_seq ≡ st.msg_seq) × ((store_message st m).provider ≡ st.provider)
unfolding store_message
store_message_rest st m = ground arith

load_message-save :
    (st : Loading) (r : LogRecord)
    → Indexed st
    → is_empty r.message.id ≡ false
    → (view (load_message st r) ≡ record {
      messages = upsert st.messages r.message;
      msg_seq = max st.msg_seq (message_sequence r.message.id);
      provider = st.provider;
    })
      × Indexed (load_message st r)
unfolding load_message
load_message-save st r h e =
    let (same, indexed) = store_message-upsert st r.message h in
    let (seq, provider) = store_message_rest st r.message in
    (ground (arith, same, seq, provider), λ id. ground (arith, indexed id))

load_message_skip :
    (st : Loading) (r : LogRecord) → is_empty r.message.id ≡ true → load_message st r ≡ st
unfolding load_message
load_message_skip st r e = rw e

load_record-save :
    (st : Loading) (r : LogRecord)
    → Indexed st
    → (view (load_record st r) ≡ save_record (view st) r) × Indexed (load_record st r)
unfolding load_record save_record
load_record-save st r h = go r.kind refl
  where
    go :
        (k : Kind)
        → r.kind ≡ k
        → (view (load_record st r) ≡ save_record (view st) r) × Indexed (load_record st r)
    go provider_context e = rw (e, load_record, save_record) (refl, h)
    go (other s) e = rw (e, load_record, save_record) (refl, h)
    go message e = elim (Bool-cases (is_empty r.message.id)) [
      | inl skip ↦
          rw (e, load_record, save_record) (rw (skip, load_message_skip st r skip) (refl, h))
      | inr full ↦ rw (e, load_record, save_record) (rw full (load_message-save st r h full))
    ]

module _ (c : Codec) where
  open c use {Line}

  load_lines-saved :
      (st : Loading) (lines : List Line)
      → Indexed st
      → view (load_lines c st lines) ≡ saved_from c (view st) lines
  unfolding load_lines saved_from
  load_lines-saved st [] h = refl
  load_lines-saved st (line ∷ lines) h = elim (Option-cases (decode c line)) [
    | inl e ↦ rw (e, load_lines, saved_from) (load_lines-saved st lines h)
    | inr (r, e) ↦
        let (same, indexed) = load_record-save st r h in
        rw (e, load_lines, saved_from)
          (load_lines-saved (load_record st r) lines indexed ∙ ap (λ v. saved_from c v lines) same)
  ]

  -- A log with no line past the limit loads to what its records stand for, each message record
  -- replacing the first message of its identifier or adding one at the end; a log with such a line
  -- does not load.
  pub load-saved :
      (now : ℕ) (path : Text) (lines : List Line)
      → ((any_too_long c lines ≡ true) × (load c now path (some lines) ≡ none))
        ⊎ (any_too_long c lines ≡ false)
          × ((t : Session Line) × (load c now path (some lines) ≡ some t)
              × (t.messages ≡ (saved_from c nothing_saved lines).messages)
              × (t.msg_seq ≡ (saved_from c nothing_saved lines).msg_seq)
              × (t.provider ≡ (saved_from c nothing_saved lines).provider)
              × (t.log_path ≡ path)
              × (t.file ≡ lines))
  unfolding load
  load-saved now path lines = elim (Bool-cases (any_too_long c lines)) [
    | inl long ↦ inl (long, rw long)
    | inr short ↦
        let start = start_loading now in
        let same = load_lines-saved start lines (λ id. unfold lookup_id index_of in refl) in
        inr (
          short,
          (
            loaded (load_lines c start lines) path lines,
            rw short,
            ap (λ (v : Saved). v.messages) same,
            ap (λ (v : Saved). v.msg_seq) same,
            ap (λ (v : Saved). v.provider) same,
            refl,
            refl,
          ),
        )
  ]
