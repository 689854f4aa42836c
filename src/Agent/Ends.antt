-- ===== src/Agent/Ends.antt =====
-- How a run of internal/svc/agent.go tells that it ends.
use codefolio.Common.{
  ℕ, zero, suc, Text, ◌++◌, Option, none, some, ◌≡◌, refl, ap, ◌∙◌, Bool-cases, Option-cases, inl,
  inr, last?, last?-append, map,
}
use codefolio.Session.Ledger.{Codec, provider_messages, set_context_metrics}
use codefolio.Agent.Collector.{Collector, new_collector, accept_all}
use codefolio.Context.Tokens.{Conf}
use codefolio.Context.Manager.{ContextPreparation, prepare}
use codefolio.Controller.Events.{Event}
use codefolio.Agent.Loop.{
  Round, Ending, RunState, RunResult, say, stream_round, run_round, run_rounds, agent_run,
  iterations, clock, account,
}
use codefolio.Context.Limits.{Outcome-cases}

-- A run that completes has said last that its loop is complete.
abbrev Told : {L : Type 0} → RunState L × Option RunResult → Type 0
Told (st, none) = Unit
Told (st, some RunResult.completed) = last? st.events ≡ some Event.loop_complete
Told (st, some (RunResult.error e)) = Unit
Told (st, some RunResult.stuck) = Unit

module _ (codec : Codec) where
  open codec use {Line}

  stream_round-Told :
      (r : Round) (st : RunState Line) (p : ContextPreparation) → Told (stream_round codec r st p)
  unfolding stream_round
  stream_round-Told r st p = go r.ending refl
    where
      before : RunState Line
      before =
          say (record st { session = set_context_metrics st.session p.metrics })
            (map Event.context p.events)

      c : Collector Line
      c = accept_all codec (clock r) (new_collector before.session) r.deltas

      go : (e : Ending) → r.ending ≡ e → Told (stream_round codec r st p)
      go (Ending.cancelled e) h = rw (h, stream_round) tt
      go (Ending.errored e) h = rw (h, stream_round) tt
      go Ending.closed h = elim (Bool-cases c.has_tool_use) [
        | inl u ↦ rw (h, stream_round) (rw u tt)
        | inr u ↦
            rw (h, stream_round)
              (rw u (last?-append (account codec before p.metrics c).events Event.loop_complete))
      ]

  run_round-Told :
      (digest : Text → Text) (cfg : Conf) (r : Round) (st : RunState Line)
      → Told (run_round codec digest cfg r st)
  unfolding run_round
  run_round-Told digest cfg r st =
      let prepared =
        prepare digest st.manager (provider_messages st.session ++ r.extra) r.schemas cfg
          r.summary_items in
      let st' : RunState Line = record st { manager = prepared.0 } in
      elim (Outcome-cases prepared.1) [
        | inl (p, e) ↦ rw (e, run_round) (stream_round-Told r st' p)
        | inr (inl (m, e)) ↦ rw (e, run_round) tt
        | inr (inr e) ↦ rw (e, run_round) tt
      ]

  Told-completed :
      (x : RunState Line × Option RunResult)
      → Told x
      → x.1 ≡ some RunResult.completed
      → last? x.0.events ≡ some Event.loop_complete
  Told-completed (st, none) h e = cc
  Told-completed (st, some RunResult.completed) h e = h
  Told-completed (st, some (RunResult.error m)) h e = cc
  Told-completed (st, some RunResult.stuck) h e = cc

  run_rounds_completed :
      (digest : Text → Text) (cfg : Conf) (max_iter : ℕ) (rounds : ℕ → Round) (left iter : ℕ)
      (st : RunState Line)
      → (run_rounds codec digest cfg max_iter rounds left iter st).1 ≡ RunResult.completed
      → last? (run_rounds codec digest cfg max_iter rounds left iter st).0.events
        ≡ some Event.loop_complete
  unfolding run_rounds
  run_rounds_completed digest cfg max_iter rounds zero iter st h = cc
  run_rounds_completed digest cfg max_iter rounds (suc left) iter st h =
      let next = run_round codec digest cfg (rounds iter) st in
      elim (Option-cases next.1) [
        | inl e ↦
            rw (e, run_rounds)
              (run_rounds_completed digest cfg max_iter rounds left (suc iter) next.0
                (rw (e, run_rounds) at h))
        | inr (r, e) ↦
            let done_ : r ≡ RunResult.completed = rw (e, run_rounds) at h in
            rw (e, run_rounds)
              (Told-completed next (run_round-Told digest cfg (rounds iter) st)
                (e ∙ ap (λ x. some x) done_))
      ]

  -- The last event of a run that completes says that its loop is complete.
  pub agent_run_completed :
      (digest : Text → Text) (cfg : Conf) (max_iterations : ℕ) (rounds : ℕ → Round)
      (st : RunState Line)
      → (agent_run codec digest cfg max_iterations rounds st).1 ≡ RunResult.completed
      → last? (agent_run codec digest cfg max_iterations rounds st).0.events
        ≡ some Event.loop_complete
  unfolding agent_run
  agent_run_completed digest cfg max_iterations rounds st h =
      run_rounds_completed digest cfg (iterations max_iterations) rounds (iterations max_iterations)
        1 st h
