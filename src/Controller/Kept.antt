-- ===== src/Controller/Kept.antt =====
-- What the rest of the interface of cmd/cli/controller/state.go keeps of a controller: another session,
-- another mode, the history of the inputs, and what is shown expanded.
use codefolio.Common.{
  Text, List, [], ◌∷◌, Bool, true, Option, none, some, map, ◌≡◌, refl, ap, sym, ◌∙◌, arith, inl,
  inr, Option-cases, if◌then◌else◌,
}
use mathlib.Core.Path.{subst}
use codefolio.Domain.Metrics.{ContextMetrics}
use codefolio.Session.Ledger.{Session}
use codefolio.Controller.View.{
  Message, is_assistant, change_last, toggle_last_thinking, toggle_thinking, toggle_tool,
}
use codefolio.Controller.State.{Controller, StreamState, AgentMode}
use codefolio.Controller.History.{history_up, history_down}
use codefolio.Controller.Runs.{replace_session, set_mode, set_context_metrics_of}
use codefolio.Controller.Visits.{last_assistant}
use codefolio.Controller.Life.{Alive}
use codefolio.Controller.Cancel.{Same, Unasked}

-- What the run of a controller sees of a message.
abbrev pub seen : Message → Bool × Bool
seen m = (is_assistant m, m.streaming)

abbrev last_seen : List (Bool × Bool) → Option Bool
last_seen [] = none
last_seen (s ∷ ss) = elim (last_seen ss) [ some b ↦ some b | none ↦ if s.0 then some s.1 else none ]

abbrev streaming_of : Option Message → Option Bool
streaming_of none = none
streaming_of (some m) = some m.streaming

last_seen-last_assistant :
    (ms : List Message) → last_seen (map seen ms) ≡ streaming_of (last_assistant ms)
unfolding last_assistant
last_seen-last_assistant [] = refl
last_seen-last_assistant (m ∷ ms) = ground (arith, last_seen-last_assistant ms)

module _ {L : Type 0} where
  pub Alive-seen :
      (c : Controller L) (ms : List Message)
      → map seen ms ≡ map seen c.messages
      → Alive c
      → Alive (record c { messages = ms })
  Alive-seen c ms h a = record {
    cancellable = a.cancellable;
    writing = elim a.writing [
      | inl quiet ↦ inl quiet
      | inr (m, last, streams) ↦
          let same : streaming_of (last_assistant ms) ≡ some true =
            sym (last_seen-last_assistant ms)
            ∙ (ap last_seen h
                ∙ (last_seen-last_assistant c.messages
                    ∙ (ap streaming_of last ∙ ap some streams))) in
          elim (Option-cases (last_assistant ms)) [
            | inl e ↦ absurd (ground (arith, e, same))
            | inr (n, e) ↦ inr (n, e, ground (arith, e, same))
          ]
    ];
  }

pub seen-toggle_last_thinking :
    (ms : List Message) → map seen (toggle_last_thinking ms) ≡ map seen ms
unfolding toggle_last_thinking change_last
seen-toggle_last_thinking [] = refl
seen-toggle_last_thinking (m ∷ ms) = ground (arith, seen-toggle_last_thinking ms)

pub seen-toggle_thinking :
    (id : Text) (ms : List Message) → map seen (toggle_thinking id ms) ≡ map seen ms
unfolding toggle_thinking
seen-toggle_thinking id [] = refl
seen-toggle_thinking id (m ∷ ms) = ground (arith, seen-toggle_thinking id ms)

pub seen-toggle_tool :
    (message_id tool_id : Text) (ms : List Message)
    → map seen (toggle_tool message_id tool_id ms) ≡ map seen ms
unfolding toggle_tool
seen-toggle_tool message_id tool_id [] = refl
seen-toggle_tool message_id tool_id (m ∷ ms) =
    ground (arith, seen-toggle_tool message_id tool_id ms)

module _ {L : Type 0} where
  replace_session_lem :
      (c : Controller L) (session : Option (Session L)) (messages : List Message)
      → let d = replace_session c session messages in
        Unasked d c × (d.cancel ≡ c.cancel) × (d.streaming ≡ c.streaming)
  unfolding replace_session
  replace_session_lem c session messages = ground arith

  replace_session_running :
      (c : Controller L) (session : Option (Session L)) (messages : List Message)
      → c.streaming ≡ StreamState.running
      → replace_session c session messages ≡ c
  unfolding replace_session
  replace_session_running c none messages going = refl
  replace_session_running c (some s) messages going = simp going refl

  -- A session is replaced while no run goes on.
  pub replace_session-Alive :
      (c : Controller L) (session : Option (Session L)) (messages : List Message)
      → Alive c
      → Alive (replace_session c session messages) × Unasked (replace_session c session messages) c
  replace_session-Alive c session messages a =
      let (unasked, same, streams) = replace_session_lem c session messages in
      elim a.cancellable [
        | inl (nothing, quiet) ↦ (
          record {
            cancellable = inl (same ∙ nothing, streams ∙ quiet);
            writing = inl (streams ∙ quiet);
          },
          unasked,
        )
        | inr (e, going) ↦
            (subst Alive (sym (replace_session_running c session messages going)) a, unasked)
      ]

  pub set_mode_lem :
      (c : Controller L) (m : AgentMode) → Same (set_mode c m).0 c × Unasked (set_mode c m).0 c
  unfolding set_mode
  set_mode_lem c m = ground arith

  pub set_context_metrics_of_lem :
      (c : Controller L) (m : ContextMetrics)
      → Same (set_context_metrics_of c m) c × Unasked (set_context_metrics_of c m) c
  unfolding set_context_metrics_of
  set_context_metrics_of_lem c m = ((refl, refl, refl, refl), (refl, refl, refl))

  pub history_up_lem :
      (c : Controller L) (value : Text)
      → Same (history_up c value).0 c × Unasked (history_up c value).0 c
  unfolding history_up
  history_up_lem c value = ground arith

  pub history_down_lem :
      (c : Controller L) → Same (history_down c).0 c × Unasked (history_down c).0 c
  unfolding history_down
  history_down_lem c = ground arith
