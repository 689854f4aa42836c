-- ===== src/Agent/Stream.antt =====
-- The session behind the stream of a round of internal/svc/agent.go.
use codefolio.Common.{
  ℕ, List, [], ◌∷◌, Bool, true, false, ◌≡◌, refl, ◌∙◌, Bool-cases, inl, inr, ◌⊎◌, text_eq, is_empty,
  if◌then◌else◌,
}
use codefolio.Session.Ledger.{Session, Codec}
use codefolio.Session.Turns.State.{
  Phase, closed, streaming, Turns, delta, thinking, signature, call, finish,
}
use codefolio.Session.Turns.Steps.{writing}
use codefolio.Agent.Collector.{Delta, Collector, accept, note_tool_use, accept_all, tool_use}
use codefolio.Agent.Closed.{finish_closes}

-- A stream that, behind a stop for the use of tools, has only usage, pieces of input and stops: the
-- order in which providers send.
unfoldable pub ordered : Bool → List Delta → Bool
ordered stopped [] = true
ordered stopped (Delta.usage f i o t ∷ ds) = ordered stopped ds
ordered stopped (Delta.tool_call_input i s ∷ ds) = ordered stopped ds
ordered true (Delta.stream_stop r ∷ ds) = ordered true ds
ordered false (Delta.stream_stop r ∷ ds) = ordered (text_eq r tool_use) ds
ordered stopped (Delta.message s ∷ ds) = if stopped then false else ordered false ds
ordered stopped (Delta.thinking s ∷ ds) = if stopped then false else ordered false ds
ordered stopped (Delta.thinking_start s ∷ ds) = if stopped then false else ordered false ds
ordered stopped (Delta.tool_call_start id name ∷ ds) = if stopped then false else ordered false ds

abbrev pub phase_of : Bool → Phase
phase_of true = closed
phase_of false = streaming

module _ (codec : Codec) where
  open codec use {Line}

  -- The collector of a stream that has stopped for the use of tools, or has not.
  pub record Reading (start : Session Line) (stopped : Bool) (c : Collector Line) : Type 0 where
    pub turns : Turns codec start (phase_of stopped) c.session
    pub flag : c.has_tool_use ≡ stopped
    pub reason : (stopped ≡ true) ⊎ (text_eq c.stop_reason tool_use ≡ false)

  note_going :
      (now : ℕ) (c : Collector Line)
      → text_eq c.stop_reason tool_use ≡ false
      → note_tool_use codec (writing now) c ≡ c
  unfolding note_tool_use
  note_going now c e = simp e refl

  module _ {start : Session Line} (fresh : start.messages ≡ []) (now : ℕ) where
    -- Behind a stop, noting it again changes nothing that counts.
    note_stopped :
        (c : Collector Line)
        → Reading start true c
        → Reading start true (note_tool_use codec (writing now) c)
    unfolding note_tool_use
    note_stopped c h = elim (Bool-cases (text_eq c.stop_reason tool_use)) [
      | inl e ↦
          simp e (record {
            turns = finish_closes codec now fresh h.turns;
            flag = refl;
            reason = inl refl;
          })
      | inr e ↦ simp e h
    ]

    going :
        (c d : Collector Line) (ds : List Delta)
        → Reading start false c
        → d.stop_reason ≡ c.stop_reason
        → d.has_tool_use ≡ c.has_tool_use
        → Turns codec start streaming d.session
        → Reading start false (note_tool_use codec (writing now) d)
    going c d ds h r f t = elim h.reason [
      | inl e ↦ cc
      | inr e ↦
          let e' : text_eq d.stop_reason tool_use ≡ false = rw r e in
          rw (note_going now d e') (record { turns = t; flag = f ∙ h.flag; reason = inr e' })
    ]

    step_going :
        (c : Collector Line) (d : Delta) (ds : List Delta)
        → Reading start false c
        → ordered false (d ∷ ds) ≡ true
        → (s : Bool) × Reading start s (note_tool_use codec (writing now) (accept c d))
          × (ordered s ds ≡ true)
    unfolding ordered accept
    step_going c (Delta.message s) ds h o = elim (Bool-cases (is_empty s)) [
      | inl e ↦ (
        false,
        going c (accept c (Delta.message s)) ds h (simp e refl) (simp e refl) (simp e h.turns),
        o,
      )
      | inr e ↦ (
        false,
        going c (accept c (Delta.message s)) ds h (simp e refl) (simp e refl)
            (simp e (delta s h.turns)),
        o,
      )
    ]
    step_going c (Delta.thinking s) ds h o = elim (Bool-cases (is_empty s)) [
      | inl e ↦ (
        false,
        going c (accept c (Delta.thinking s)) ds h (simp e refl) (simp e refl) (simp e h.turns),
        o,
      )
      | inr e ↦ (
        false,
        going c (accept c (Delta.thinking s)) ds h (simp e refl) (simp e refl)
            (simp e (thinking s h.turns)),
        o,
      )
    ]
    step_going c (Delta.thinking_start s) ds h o =
        (false, going c (accept c (Delta.thinking_start s)) ds h refl refl (signature s h.turns), o)
    step_going c (Delta.usage f i u t) ds h o = elim (Bool-cases f) [
      | inl e ↦ (
        false,
        going c (accept c (Delta.usage f i u t)) ds h (simp e refl) (simp e refl) (simp e h.turns),
        o,
      )
      | inr e ↦ (
        false,
        going c (accept c (Delta.usage f i u t)) ds h (simp e refl) (simp e refl) (simp e h.turns),
        o,
      )
    ]
    step_going c (Delta.tool_call_start id name) ds h o = (
      false,
      going c (accept c (Delta.tool_call_start id name)) ds h refl refl
          (call (record { id = id; name = name; input = [] }) h.turns),
      o,
    )
    step_going c (Delta.tool_call_input i s) ds h o =
        (false, going c (accept c (Delta.tool_call_input i s)) ds h refl refl h.turns, o)
    step_going c (Delta.stream_stop r) ds h o = elim (Bool-cases (text_eq r tool_use)) [
      | inl e ↦ (
        true,
        unfold note_tool_use in
            simp e (record { turns = finish now h.turns; flag = refl; reason = inl refl }),
        rw e at o,
      )
      | inr e ↦
          let c' : Collector Line = record c { stop_reason = r } in
          (
            false,
            rw (note_going now c' e) (record { turns = h.turns; flag = h.flag; reason = inr e }),
            rw e at o,
          )
    ]

    step_stopped :
        (c : Collector Line) (d : Delta) (ds : List Delta)
        → Reading start true c
        → ordered true (d ∷ ds) ≡ true
        → Reading start true (note_tool_use codec (writing now) (accept c d))
          × (ordered true ds ≡ true)
    unfolding ordered accept
    step_stopped c (Delta.message s) ds h o = cc
    step_stopped c (Delta.thinking s) ds h o = cc
    step_stopped c (Delta.thinking_start s) ds h o = cc
    step_stopped c (Delta.tool_call_start id name) ds h o = cc
    step_stopped c (Delta.usage true i u t) ds h o = (
      note_stopped (accept c (Delta.usage true i u t))
          (record { turns = h.turns; flag = h.flag; reason = inl refl }),
      o,
    )
    step_stopped c (Delta.usage false i u t) ds h o = (note_stopped c h, o)
    step_stopped c (Delta.tool_call_input i s) ds h o = (
      note_stopped (accept c (Delta.tool_call_input i s))
          (record { turns = h.turns; flag = h.flag; reason = inl refl }),
      o,
    )
    step_stopped c (Delta.stream_stop r) ds h o = (
      note_stopped (accept c (Delta.stream_stop r))
          (record { turns = h.turns; flag = h.flag; reason = inl refl }),
      o,
    )

    -- A stream in order leaves a session that the turns make, closed if tools are to be used.
    pub accept_all-Reading :
        (c : Collector Line) (stopped : Bool) (ds : List Delta)
        → Reading start stopped c
        → ordered stopped ds ≡ true
        → (s : Bool) × Reading start s (accept_all codec (writing now) c ds)
    unfolding accept_all
    accept_all-Reading c stopped [] h o = (stopped, h)
    accept_all-Reading c true (d ∷ ds) h o =
        let (next, rest) = step_stopped c d ds h o in
        accept_all-Reading (note_tool_use codec (writing now) (accept c d)) true ds next rest
    accept_all-Reading c false (d ∷ ds) h o =
        let (s, next, rest) = step_going c d ds h o in
        accept_all-Reading (note_tool_use codec (writing now) (accept c d)) s ds next rest
