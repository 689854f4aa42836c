-- ===== src/Controller/Visits.antt =====
-- What the events of cmd/cli/controller/agent.go do to the message that the assistant is writing.
use codefolio.Common.{
  ℕ, suc, ==_refl, length, List, [], ◌∷◌, ◌++◌, Bool, true, false, ◌||◌, ◌==◌, Option, none, some,
  is_some, ◌≡◌, refl, ap, ◌∙◌, arith, Bool-cases, Option-cases, inl, inr, if◌then◌else◌,
}
use codefolio.Controller.View.{Message, ViewRole, is_assistant, any, change_last}
use codefolio.Controller.State.{Controller, StreamState}
use codefolio.Controller.Runs.{finish, apply_error, stopped, start_assistant_segment, new_segment}
use codefolio.Controller.Events.{Event, visit, change_current}

-- `currentAssistant`.
unfoldable pub last_assistant : List Message → Option Message
last_assistant [] = none
last_assistant (m ∷ ms) = elim (last_assistant ms) [
  | some x ↦ some x
  | none ↦ if is_assistant m then some m else none
]

any-last_assistant : (ms : List Message) → any is_assistant ms ≡ is_some (last_assistant ms)
unfolding any last_assistant
any-last_assistant [] = refl
any-last_assistant (m ∷ ms) = ground (arith, any-last_assistant ms)

abbrev pub mapped : (Message → Message) → Option Message → Option Message
mapped f none = none
mapped f (some m) = some (f m)

is_assistant_of_role : (m n : Message) → m.role ≡ n.role → is_assistant m ≡ is_assistant n
is_assistant_of_role m n h =
    ap (λ (r : ViewRole). elim r as (λ _. Bool) [ ViewRole.assistant ↦ true | _ ↦ false ]) h

-- A write through `currentAssistant` is seen through it.
pub last_assistant-change_last :
    (f : Message → Message) (ms : List Message)
    → ((m : Message) → (f m).role ≡ m.role)
    → last_assistant (change_last is_assistant f ms) ≡ mapped f (last_assistant ms)
unfolding last_assistant change_last
last_assistant-change_last f [] h = refl
last_assistant-change_last f (m ∷ ms) h =
    let rest = last_assistant-change_last f ms h in
    let seen = any-last_assistant ms in
    let same = is_assistant_of_role (f m) m (h m) in
    elim (Option-cases (last_assistant ms)) [
      | inl e ↦
          let nobody : any is_assistant ms ≡ false = seen ∙ ap is_some e in
          elim (Bool-cases (is_assistant m)) [
            | inl a ↦ let a' : is_assistant (f m) ≡ true = same ∙ a in simp (nobody, a, a', e) refl
            | inr a ↦ simp (nobody, a, e) refl
          ]
      | inr (x, e) ↦
          let somebody : any is_assistant ms ≡ true = seen ∙ ap is_some e in
          let rest' : last_assistant (change_last is_assistant f ms) ≡ some (f x) =
            rest ∙ ap (mapped f) e in
          simp (somebody, e, rest') refl
    ]

pub last_assistant-snoc :
    (ms : List Message) (m : Message)
    → is_assistant m ≡ true
    → last_assistant (ms ++ m ∷ []) ≡ some m
unfolding last_assistant
last_assistant-snoc [] m h = simp h refl
last_assistant-snoc (x ∷ ms) m h = simp (last_assistant-snoc ms m h) refl

pub last_assistant_skip :
    (ms : List Message) (m : Message)
    → is_assistant m ≡ false
    → last_assistant (ms ++ m ∷ []) ≡ last_assistant ms
unfolding last_assistant
last_assistant_skip [] m h = simp h refl
last_assistant_skip (x ∷ ms) m h = simp (last_assistant_skip ms m h) refl

any-snoc :
    (ms : List Message) (m : Message)
    → any is_assistant (ms ++ m ∷ []) ≡ (any is_assistant ms || is_assistant m)
unfolding any
any-snoc [] m = ground arith
any-snoc (x ∷ ms) m = ground (arith, any-snoc ms m)

change_last-snoc :
    (f : Message → Message) (ms : List Message) (m : Message)
    → is_assistant m ≡ true
    → change_last is_assistant f (ms ++ m ∷ []) ≡ ms ++ f m ∷ []
unfolding change_last any
change_last-snoc f [] m h = simp h refl
change_last-snoc f (x ∷ ms) m h =
    let some_one : any is_assistant (ms ++ m ∷ []) ≡ true =
      any-snoc ms m ∙ (simp h (ground arith)) in
    simp some_one (ap (◌∷◌ x) (change_last-snoc f ms m h))

module _ {L : Type 0} where
  -- A turn and then the end of the loop leave the messages before the turn's end as they are, and the
  -- new segment behind them stopped: where the last of them is being streamed, it stays so.
  pub segment_keeps_streaming :
      (c : Controller L)
      → c.streaming ≡ StreamState.running
      → let c' = visit (visit c c.run_id Event.turn_complete) c.run_id Event.loop_complete in
        (c'.streaming ≡ StreamState.idle)
        × (c'.messages ≡ c.messages ++ stopped [] (new_segment (suc (length c.messages))) ∷ [])
  unfolding visit finish start_assistant_segment
  segment_keeps_streaming c going =
      let same : (c.run_id == c.run_id) ≡ true = ==_refl c.run_id in
      simp (same, going)
        (
          refl,
          change_last-snoc (stopped []) c.messages (new_segment (suc (length c.messages))) refl,
        )

  -- An event of a run that is not the current one changes nothing.
  pub visit_stale :
      (c : Controller L) (run : ℕ) (e : Event) → (run == c.run_id) ≡ false → visit c run e ≡ c
  unfolding visit change_current apply_error
  visit_stale c run (Event.stream s) h = simp h refl
  visit_stale c run (Event.think s) h = simp h refl
  visit_stale c run (Event.think_start s) h = refl
  visit_stale c run (Event.tool_call id name input) h = simp h refl
  visit_stale c run (Event.tool_result r) h = simp h refl
  visit_stale c run Event.turn_complete h = simp h refl
  visit_stale c run Event.loop_complete h = simp h refl
  visit_stale c run (Event.usage input output) h = simp h refl
  visit_stale c run (Event.context e) h = simp h refl
  visit_stale c run (Event.failure err) h = simp h refl
