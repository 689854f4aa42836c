-- ===== src/Context/Turns.antt =====
-- `splitContextTurns` and `flattenTurns` of internal/svc/context.go.
use codefolio.Common.{
  List, [], ◌∷◌, ◌++◌, Bool, true, false, not, ◌&&◌, keep_if, null, All, All-append, if◌then◌else◌,
  ◌≡◌, refl, ap, ◌∙◌, sym, arith, append_assoc, append-nil, Bool-cases, inl, inr, ◌⊎◌,
}
use codefolio.Domain.Conversation.{ChatMessage, is_user, is_system}

-- The variables of the loop: the system messages, the closed turns and the current one.
pub record Split : Type 0 where
  pub systems : List ChatMessage
  pub turns : List (List ChatMessage)
  pub current : List ChatMessage

-- A user message closes the current turn, if there is one; any other joins it.
unfoldable pub grow : Split → ChatMessage → Split
grow st m =
    if is_user m.role && not (null st.current)
    then record st { turns = st.turns ++ st.current ∷ []; current = m ∷ [] }
    else record st { current = st.current ++ m ∷ [] }

unfoldable pub split_message : Split → ChatMessage → Split
split_message st m =
    if m.streaming
    then st
    else if is_system m.role
    then record st { systems = st.systems ++ m ∷ [] }
    else grow st m

unfoldable pub split_loop : Split → List ChatMessage → Split
split_loop st [] = st
split_loop st (m ∷ ms) = split_loop (split_message st m) ms

-- The turns when the loop ends: the current one is closed if it has messages.
unfoldable pub close_turns : Split → List (List ChatMessage)
close_turns st = if null st.current then st.turns else st.turns ++ st.current ∷ []

abbrev empty_split : Split
empty_split = record { systems = []; turns = []; current = [] }

unfoldable pub split_context_turns : List ChatMessage → List ChatMessage × List (List ChatMessage)
split_context_turns ms = let st = split_loop empty_split ms in (st.systems, close_turns st)

unfoldable pub flatten_turns : List (List ChatMessage) → List ChatMessage
flatten_turns [] = []
flatten_turns (t ∷ ts) = t ++ flatten_turns ts

-- What the split is to keep: the instructions, and the conversation.
abbrev pub is_instruction : ChatMessage → Bool
is_instruction m = not m.streaming && is_system m.role

abbrev pub is_conversation : ChatMessage → Bool
is_conversation m = not m.streaming && not (is_system m.role)

flatten_turns-snoc :
    (ts : List (List ChatMessage)) (t : List ChatMessage)
    → flatten_turns (ts ++ t ∷ []) ≡ flatten_turns ts ++ t
unfolding flatten_turns
flatten_turns-snoc [] t = append-nil t
flatten_turns-snoc (u ∷ us) t =
    ap (◌++◌ u) (flatten_turns-snoc us t) ∙ sym (append_assoc u (flatten_turns us) t)

-- All that a state of the loop holds of the conversation.
abbrev held : Split → List ChatMessage
held st = flatten_turns st.turns ++ st.current

split_message_holds :
    (st : Split) (m : ChatMessage)
    → ((split_message st m).systems ≡ st.systems ++ keep_if is_instruction (m ∷ []))
      × (held (split_message st m) ≡ held st ++ keep_if is_conversation (m ∷ []))
unfolding split_message grow
split_message_holds st m = ground (
  arith,
  append-nil st.systems,
  append-nil (held st),
  append-nil (flatten_turns st.turns ++ st.current),
  flatten_turns-snoc st.turns st.current,
  append_assoc (flatten_turns st.turns) st.current (m ∷ []),
)

keep_if-cons :
    (p : ChatMessage → Bool) (m : ChatMessage) (ms : List ChatMessage)
    → keep_if p (m ∷ ms) ≡ keep_if p (m ∷ []) ++ keep_if p ms
keep_if-cons p m ms = ground arith

split_loop_holds :
    (st : Split) (ms : List ChatMessage)
    → ((split_loop st ms).systems ≡ st.systems ++ keep_if is_instruction ms)
      × (held (split_loop st ms) ≡ held st ++ keep_if is_conversation ms)
unfolding split_loop
split_loop_holds st [] = (sym (append-nil st.systems), sym (append-nil (held st)))
split_loop_holds st (m ∷ ms) =
    let (sys, conv) = split_message_holds st m in
    let (sys', conv') = split_loop_holds (split_message st m) ms in
    (
      sys'
          ∙ (ap (λ x. x ++ keep_if is_instruction ms) sys
              ∙ (append_assoc st.systems _ _
                  ∙ ap (◌++◌ st.systems) (sym (keep_if-cons is_instruction m ms)))),
      conv'
          ∙ (ap (λ x. x ++ keep_if is_conversation ms) conv
              ∙ (append_assoc (held st) _ _
                  ∙ ap (◌++◌ (held st)) (sym (keep_if-cons is_conversation m ms)))),
    )

flatten-close : (st : Split) → flatten_turns (close_turns st) ≡ held st
unfolding close_turns
flatten-close st =
    ground (arith, flatten_turns-snoc st.turns st.current, append-nil (flatten_turns st.turns))

held_empty :
    (ms : List ChatMessage)
    → held empty_split ++ keep_if is_conversation ms ≡ keep_if is_conversation ms
unfolding flatten_turns
held_empty ms = refl

-- The split loses nothing and keeps the order: the system messages are the finished system and
-- developer messages, and the turns in a row are the other finished messages.
pub split_context_turns_complete :
    (ms : List ChatMessage)
    → ((split_context_turns ms).0 ≡ keep_if is_instruction ms)
      × (flatten_turns (split_context_turns ms).1 ≡ keep_if is_conversation ms)
unfolding split_context_turns
split_context_turns_complete ms =
    let (sys, conv) = split_loop_holds empty_split ms in
    (sys, flatten-close (split_loop empty_split ms) ∙ (conv ∙ held_empty ms))

-- A turn: one message, then none of the user.
abbrev pub IsTurn : List ChatMessage → Type 0
IsTurn [] = ⊥
IsTurn (m ∷ ms) = All (λ x. is_user x.role ≡ false) ms

-- A turn that a message of the user begins.
abbrev pub IsUserTurn : List ChatMessage → Type 0
IsUserTurn [] = ⊥
IsUserTurn (m ∷ ms) = (is_user m.role ≡ true) × All (λ x. is_user x.role ≡ false) ms

-- The turns of a conversation: the first begins with any message, the others with one of the user.
abbrev pub Shaped : List (List ChatMessage) → Type 0
Shaped [] = Unit
Shaped (t ∷ ts) = IsTurn t × All IsUserTurn ts

IsTurn-snoc :
    (t : List ChatMessage) (m : ChatMessage)
    → IsTurn t
    → is_user m.role ≡ false
    → IsTurn (t ++ m ∷ [])
IsTurn-snoc [] m h u = absurd h
IsTurn-snoc (x ∷ xs) m h u = All-append (λ y. is_user y.role ≡ false) xs (m ∷ []) h (u, tt)

IsUserTurn-snoc :
    (t : List ChatMessage) (m : ChatMessage)
    → IsUserTurn t
    → is_user m.role ≡ false
    → IsUserTurn (t ++ m ∷ [])
IsUserTurn-snoc [] m h u = absurd h
IsUserTurn-snoc (x ∷ xs) m h u =
    (h.0, All-append (λ y. is_user y.role ≡ false) xs (m ∷ []) h.1 (u, tt))

-- A message that is not the user's at the end of the last turn.
All-extend :
    (ts : List (List ChatMessage)) (c : List ChatMessage) (m : ChatMessage)
    → All IsUserTurn (ts ++ c ∷ [])
    → is_user m.role ≡ false
    → All IsUserTurn (ts ++ (c ++ m ∷ []) ∷ [])
All-extend [] c m h u = (IsUserTurn-snoc c m h.0 u, tt)
All-extend (t ∷ ts) c m h u = (h.0, All-extend ts c m h.1 u)

Shaped-extend :
    (ts : List (List ChatMessage)) (c : List ChatMessage) (m : ChatMessage)
    → Shaped (ts ++ c ∷ [])
    → is_user m.role ≡ false
    → Shaped (ts ++ (c ++ m ∷ []) ∷ [])
Shaped-extend [] c m h u = (IsTurn-snoc c m h.0 u, tt)
Shaped-extend (t ∷ ts) c m h u = (h.0, All-extend ts c m h.1 u)

-- A message of the user begins a turn behind another.
Shaped-begin :
    (ts : List (List ChatMessage)) (c : List ChatMessage) (m : ChatMessage)
    → Shaped (ts ++ c ∷ [])
    → is_user m.role ≡ true
    → Shaped ((ts ++ c ∷ []) ++ (m ∷ []) ∷ [])
Shaped-begin [] c m h u = (h.0, ((u, tt), tt))
Shaped-begin (t ∷ ts) c m h u =
    (h.0, All-append IsUserTurn (ts ++ c ∷ []) ((m ∷ []) ∷ []) h.1 ((u, tt), tt))

-- Nothing is held yet, or the turns with the current one have their shape.
abbrev Going : Split → Type 0
Going st = ((st.turns ≡ []) × (st.current ≡ [])) ⊎ Shaped (st.turns ++ st.current ∷ [])

All-ne-empty :
    (ts : List (List ChatMessage)) (c : List ChatMessage)
    → All IsUserTurn (ts ++ c ∷ [])
    → null c ≡ false
All-ne-empty [] [] h = absurd h.0
All-ne-empty [] (x ∷ xs) h = refl
All-ne-empty (t ∷ ts) c h = All-ne-empty ts c h.1

Shaped-ne-empty :
    (ts : List (List ChatMessage)) (c : List ChatMessage) → Shaped (ts ++ c ∷ []) → null c ≡ false
Shaped-ne-empty [] [] h = absurd h.0
Shaped-ne-empty [] (x ∷ xs) h = refl
Shaped-ne-empty (t ∷ ts) c h = All-ne-empty ts c h.1

-- The step of a message of the conversation.
grow-Going : (st : Split) (m : ChatMessage) → Going st → Going (grow st m)
unfolding grow
grow-Going st m (inl (t, c)) = elim (Bool-cases (is_user m.role)) [
  | inl u ↦ inr (rw (c, t) (simp u (tt, tt)))
  | inr u ↦ inr (rw (c, t) (simp u (tt, tt)))
]
grow-Going st m (inr h) =
    let full = Shaped-ne-empty st.turns st.current h in
    elim (Bool-cases (is_user m.role)) [
      | inl u ↦ inr (simp (u, full) (Shaped-begin st.turns st.current m h u))
      | inr u ↦ inr (simp u (Shaped-extend st.turns st.current m h u))
    ]

split_message-Going : (st : Split) (m : ChatMessage) → Going st → Going (split_message st m)
unfolding split_message
split_message-Going st m g = elim (Bool-cases m.streaming) [
  | inl s ↦ simp s g
  | inr s ↦ elim (Bool-cases (is_system m.role)) [
    | inl y ↦ simp (s, y) g
    | inr y ↦ simp (s, y) (grow-Going st m g)
  ]
]

split_loop-Going : (st : Split) (ms : List ChatMessage) → Going st → Going (split_loop st ms)
unfolding split_loop
split_loop-Going st [] g = g
split_loop-Going st (m ∷ ms) g =
    split_loop-Going (split_message st m) ms (split_message-Going st m g)

Going-close : (st : Split) → Going st → Shaped (close_turns st)
unfolding close_turns
Going-close st (inl (t, c)) = rw (c, t) tt
Going-close st (inr h) = elim (Bool-cases (null st.current)) [
  | inl e ↦ cc (e, Shaped-ne-empty st.turns st.current h)
  | inr e ↦ rw e h
]

-- Every turn of the split is a message and then messages that are not the user's; each turn but the
-- first begins with a message of the user. So a turn is never cut.
pub split_context_turns-Shaped : (ms : List ChatMessage) → Shaped (split_context_turns ms).1
unfolding split_context_turns
split_context_turns-Shaped ms =
    Going-close (split_loop empty_split ms) (split_loop-Going empty_split ms (inl (refl, refl)))
