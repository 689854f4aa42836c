-- ===== src/Mcp/Totals.antt =====
-- What `Summary` of internal/infra/mcp/manager.go says after a call of `Discover`.
use codefolio.Common.{
  suc, ◌+◌, Text, List, [], ◌∷◌, true, false, text_eq, text_eq_refl, map, ◌≡◌, refl, sym, ap, ◌∙◌,
  ◌⊎◌, inl, inr, arith, Bool-cases, length, length-append, is_empty,
}
use mathlib.Core.Path.{subst}
use codefolio.Config.Servers.{McpServer, is_known}
use codefolio.Config.Checked.{Distinct, text_eq_swap}
use codefolio.Mcp.Tool.{RemoteTool, McpTool}
use codefolio.Mcp.Manager.{
  Manager, Summary, Progress, Discovered, fail_server, catalogue, start_server, discover_loop,
  discover, discover_result, start_progress, tools_of, summary_of, manager_summary,
}
use codefolio.Mcp.Discovery.{discover_loop-Inv, start-Inv, found, found-result, discover_is}

abbrev pub names : List McpServer → List Text
names ss = map (λ (s : McpServer). s.name) ss

module _ {C : Type 0} where
  -- Two states say the same of a server.
  pub record Agree (m n : Manager C) (k : Text) : Type 0 where
    pub loaded : m.loaded k ≡ n.loaded k
    pub failed : m.failed k ≡ n.failed k
    pub tool_size : m.tool_size k ≡ n.tool_size k

  Agree-trans : (m n o : Manager C) (k : Text) → Agree m n k → Agree n o k → Agree m o k
  Agree-trans m n o k a b = record {
    loaded = a.loaded ∙ b.loaded;
    failed = a.failed ∙ b.failed;
    tool_size = a.tool_size ∙ b.tool_size;
  }

  catalogue-Agree :
      (p : Progress C) (name : Text) (c : C) (r : Text ⊎ List RemoteTool) (k : Text)
      → text_eq name k ≡ false
      → Agree (catalogue p name c r).manager p.manager k
  unfolding catalogue fail_server
  catalogue-Agree p name c (inl e) k h = record {
    loaded = refl;
    failed = rw h refl;
    tool_size = refl;
  }
  catalogue-Agree p name c (inr rs) k h = record {
    loaded = rw h refl;
    failed = rw h refl;
    tool_size = rw h refl;
  }

  -- What a call for a server leaves of this server: an error, or its tools.
  abbrev Outcome : Progress C → Progress C → Text → Type 0
  Outcome p q k =
      ((q.manager.loaded k ≡ false)
        × (is_empty (q.manager.failed k) ≡ false)
        × (length q.tools ≡ length p.tools))
      ⊎ ((q.manager.loaded k ≡ true) × (length q.tools ≡ length p.tools + q.manager.tool_size k))

  length-tools_of :
      (name : Text) (c : C) (rs : List RemoteTool) → length (tools_of name c rs) ≡ length rs
  length-tools_of name c [] = refl
  length-tools_of name c (r ∷ rs) = ap suc (length-tools_of name c rs)

  catalogue-Outcome :
      (p : Progress C) (name : Text) (c : C) (r : Text ⊎ List RemoteTool)
      → p.manager.loaded name ≡ false
      → Outcome p (catalogue p name c r) name
  unfolding catalogue fail_server
  catalogue-Outcome p name c (inl e) new = inl (new, rw (text_eq_refl name) refl, refl)
  catalogue-Outcome p name c (inr rs) new = inr (
    rw (text_eq_refl name) refl,
    rw (text_eq_refl name)
        (omega (arith, length-append {0} p.tools (tools_of name c rs), length-tools_of name c rs)),
  )

  module _ (start : McpServer → Text ⊎ C) (list : C → Text ⊎ List RemoteTool) where
    start_server-Agree :
        (p : Progress C) (s : McpServer) (r : Text ⊎ C) (k : Text)
        → text_eq s.name k ≡ false
        → Agree (start_server start list p s r).manager p.manager k
    unfolding start_server fail_server
    start_server-Agree p s (inl e) k h = record {
      loaded = refl;
      failed = rw h refl;
      tool_size = refl;
    }
    start_server-Agree p s (inr c) k h = catalogue-Agree p s.name c (list c) k h

    start_server-Outcome :
        (p : Progress C) (s : McpServer) (r : Text ⊎ C)
        → p.manager.loaded s.name ≡ false
        → Outcome p (start_server start list p s r) s.name
    unfolding start_server fail_server
    start_server-Outcome p s (inl e) new = inl (new, rw (text_eq_refl s.name) refl, refl)
    start_server-Outcome p s (inr c) new = catalogue-Outcome p s.name c (list c) new

    -- The loop leaves alone what it says of a server that is none of its own.
    loop-Agree :
        (p : Progress C) (ss : List McpServer) (k : Text)
        → is_known k (names ss) ≡ false
        → Agree (discover_loop start list p ss).manager p.manager k
    unfolding discover_loop is_known
    loop-Agree p [] k h = record { loaded = refl; failed = refl; tool_size = refl }
    loop-Agree p (s ∷ ss) k h =
        let other : text_eq s.name k ≡ false = ground (arith, h) in
        let rest : is_known k (names ss) ≡ false = ground (arith, h) in
        elim (Bool-cases (p.manager.loaded s.name)) [
          | inl old ↦ rw (old, discover_loop) (loop-Agree p ss k rest)
          | inr new ↦
              let p' = start_server start list p s (start s) in
              rw (new, discover_loop)
                (Agree-trans (discover_loop start list p' ss).manager p'.manager p.manager k
                  (loop-Agree p' ss k rest) (start_server-Agree p s (start s) k other))
        ]

    summary-skip :
        (p : Progress C) (s : McpServer) (ss : List McpServer)
        → is_known s.name (names ss) ≡ false
        → summary_of (start_server start list p s (start s)).manager ss ≡ summary_of p.manager ss
    unfolding summary_of is_known
    summary-skip p s [] h = refl
    summary-skip p s (t ∷ ss) h =
        let other = text_eq_swap t.name s.name (ground (arith, h)) in
        let rest : is_known s.name (names ss) ≡ false = ground (arith, h) in
        let a = start_server-Agree p s (start s) t.name other in
        let loaded = a.loaded in
        let failed = a.failed in
        let size = a.tool_size in rw (loaded, failed, size, summary-skip p s ss rest) refl

    -- After the loop each of its servers is ready or unavailable, and the tools that the ready ones
    -- have more than before are those that the loop adds.
    loop_totals :
        (p : Progress C) (ss : List McpServer)
        → Distinct (names ss)
        → let q = discover_loop start list p ss in
          ((summary_of q.manager ss).ready + (summary_of q.manager ss).unavailable
            ≡ (summary_of q.manager ss).configured)
          × ((summary_of q.manager ss).tools + length p.tools
              ≡ (summary_of p.manager ss).tools + length q.tools)
    unfolding discover_loop summary_of
    loop_totals p [] h = (omega arith, omega arith)
    loop_totals p (s ∷ ss) h = elim (Bool-cases (p.manager.loaded s.name)) [
      | inl old ↦
          let q = discover_loop start list p ss in
          let a = loop-Agree p ss s.name h.0 in
          let load = a.loaded in
          let size = a.tool_size in
          let (states, tools) = loop_totals p ss h.1 in
          rw old (ground (arith, load, size, states, tools))
      | inr new ↦
          let p' = start_server start list p s (start s) in
          let q = discover_loop start list p' ss in
          let a = loop-Agree p' ss s.name h.0 in
          let load = a.loaded in
          let failed = a.failed in
          let size = a.tool_size in
          let same = summary-skip p s ss h.0 in
          let same_tools = ap (λ (x : Summary). x.tools) same in
          let (states, tools) = loop_totals p' ss h.1 in
          elim (start_server-Outcome p s (start s) new) [
            | inl (l, f, t) ↦
                rw new (ground (arith, load, failed, size, same_tools, states, tools, l, f, t))
            | inr (l, t) ↦
                rw new (ground (arith, load, failed, size, same_tools, states, tools, l, t))
          ]
    ]

    started_configs :
        (p : Progress C) (s : McpServer) (r : Text ⊎ C)
        → (start_server start list p s r).manager.configs ≡ p.manager.configs
    unfolding start_server fail_server catalogue
    started_configs p s (inl e) = refl
    started_configs p s (inr c) =
        elim (list c) as (λ x. (catalogue p s.name c x).manager.configs ≡ p.manager.configs) [
          | inl e ↦ refl
          | inr rs ↦ refl
        ]

    -- The configurations are the same behind the loop.
    configs_kept :
        (p : Progress C) (ss : List McpServer)
        → (discover_loop start list p ss).manager.configs ≡ p.manager.configs
    unfolding discover_loop
    configs_kept p [] = refl
    configs_kept p (s ∷ ss) = elim (Bool-cases (p.manager.loaded s.name)) [
      | inl old ↦ rw (old, discover_loop) (configs_kept p ss)
      | inr new ↦
          let p' = start_server start list p s (start s) in
          rw (new, discover_loop) (configs_kept p' ss ∙ started_configs p s (start s))
    ]

    abbrev Totals : Manager C → Manager C × Discovered C → Type 0
    Totals m r =
        ((manager_summary r.0).ready + (manager_summary r.0).unavailable
          ≡ (manager_summary r.0).configured)
        × ((manager_summary r.0).tools ≡ (manager_summary m).tools + length (found r.1))

    -- After a call of `Discover` on a manager that is not closed, whose servers have different names:
    -- each configured server is ready or unavailable, never both or neither, and the number of tools
    -- has grown by those that the call returns, whatever the servers answer.
    pub discover_totals :
        (m : Manager C)
        → m.closed ≡ false
        → Distinct (names m.configs)
        → ((manager_summary (discover start list m).0).ready
              + (manager_summary (discover start list m).0).unavailable
            ≡ (manager_summary (discover start list m).0).configured)
          × ((manager_summary (discover start list m).0).tools
              ≡ (manager_summary m).tools + length (found (discover start list m).1))
    unfolding manager_summary
    discover_totals m open_yet distinct =
        let p = start_progress start list m in
        let q = discover_loop start list p m.configs in
        let totals = loop_totals p m.configs distinct in
        let i = discover_loop-Inv start list m p m.configs (start-Inv start list m) in
        let kept = configs_kept p m.configs in
        let tools = ap (λ (x : List (McpTool C)). length x) (found-result start list m q i) in
        let at : Totals m (q.manager, discover_result start list q) =
          rw kept (totals.0, omega (arith, totals.1, tools)) in
        subst (Totals m) (sym (discover_is start list m false open_yet)) at
