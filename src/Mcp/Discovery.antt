-- ===== src/Mcp/Discovery.antt =====
-- `Discover` of internal/infra/mcp/manager.go finds the tools of a server at most once.
use codefolio.Common.{
  Text, List, [], ◌∷◌, Bool, true, false, text_eq, text_eq_sound, text_eq_refl, if◌then◌else◌, ◌≡◌,
  refl, sym, ap, ◌⊎◌, inl, inr, arith, Bool-cases, All, All-append,
}
use mathlib.Core.Path.{subst}
use codefolio.Config.Servers.{McpServer}
use codefolio.Mcp.Tool.{RemoteTool, McpTool}
use codefolio.Mcp.Manager.{
  Manager, Progress, Discovered, manager_closed, discovered, fail_server, catalogue, start_server,
  discover_loop, discover_result, start_progress, discover, tools_of, put_at, start_error,
}

module _ {C : Type 0} where
  -- What is loaded stays so.
  abbrev pub Grows : Manager C → Manager C → Type 0
  Grows m n = (k : Text) → m.loaded k ≡ true → n.loaded k ≡ true

  -- The tools of servers that become loaded between two states.
  abbrev pub NewlyLoaded : Manager C → Manager C → List (McpTool C) → Type 0
  NewlyLoaded m n ts =
      All (λ t. (m.loaded t.server_name ≡ false) × (n.loaded t.server_name ≡ true)) ts

  NewlyLoaded-Grows :
      (m n o : Manager C) (ts : List (McpTool C))
      → Grows n o
      → NewlyLoaded m n ts
      → NewlyLoaded m o ts
  NewlyLoaded-Grows m n o [] g h = tt
  NewlyLoaded-Grows m n o (t ∷ ts) g h =
      ((h.0.0, g t.server_name h.0.1), NewlyLoaded-Grows m n o ts g h.1)

  not_before : (m n : Manager C) (k : Text) → Grows m n → n.loaded k ≡ false → m.loaded k ≡ false
  not_before m n k g h = elim (Bool-cases (m.loaded k)) [
    | inr no_load ↦ no_load
    | inl load ↦ cc (g k load, h)
  ]

  -- The state of the loop beside the state that it started with.
  pub record Inv (m : Manager C) (p : Progress C) : Type 0 where
    pub grows : Grows m p.manager
    pub newly : NewlyLoaded m p.manager p.tools
    pub no_tools : p.catalogued ≡ false → p.tools ≡ []

  fail_server-Inv :
      (m : Manager C) (p : Progress C) (name e : Text) → Inv m p → Inv m (fail_server p name e)
  unfolding fail_server
  fail_server-Inv m p name e i = record { grows = i.grows; newly = i.newly; no_tools = i.no_tools }

  put-Grows :
      (m : Manager C) (name : Text) (n : Manager C)
      → n.loaded ≡ put_at name true m.loaded
      → Grows m n
  put-Grows m name n h k load = elim (Bool-cases (text_eq name k)) [
    | inl same ↦ rw (h, same) refl
    | inr other ↦ rw (h, other) load
  ]

  tools_of-newly :
      (m n : Manager C) (name : Text) (c : C) (rs : List RemoteTool)
      → m.loaded name ≡ false
      → n.loaded name ≡ true
      → NewlyLoaded m n (tools_of name c rs)
  tools_of-newly m n name c [] a b = tt
  tools_of-newly m n name c (r ∷ rs) a b = ((a, b), tools_of-newly m n name c rs a b)

  catalogue-Inv :
      (m : Manager C) (p : Progress C) (name : Text) (c : C) (r : Text ⊎ List RemoteTool)
      → p.manager.loaded name ≡ false
      → Inv m p
      → Inv m (catalogue p name c r)
  unfolding catalogue
  catalogue-Inv m p name c (inl e) new i =
      unfold fail_server in record { grows = i.grows; newly = i.newly; no_tools = i.no_tools }
  catalogue-Inv m p name c (inr rs) new i =
      let n = (catalogue p name c (inr rs)).manager in
      let grows : Grows p.manager n = put-Grows p.manager name n refl in
      let here : n.loaded name ≡ true = rw (text_eq_refl name) refl in
      record {
        grows = λ k h. grows k (i.grows k h);
        newly =
            All-append (λ t. (m.loaded t.server_name ≡ false) × (n.loaded t.server_name ≡ true))
              p.tools (tools_of name c rs) (NewlyLoaded-Grows m p.manager n p.tools grows i.newly)
              (tools_of-newly m n name c rs (not_before m p.manager name i.grows new) here);
        no_tools = λ h. cc;
      }

  module _ (start : McpServer → Text ⊎ C) (list : C → Text ⊎ List RemoteTool) where
    start_server-Inv :
        (m : Manager C) (p : Progress C) (s : McpServer) (r : Text ⊎ C)
        → p.manager.loaded s.name ≡ false
        → Inv m p
        → Inv m (start_server start list p s r)
    unfolding start_server
    start_server-Inv m p s (inl e) new i = fail_server-Inv m p s.name (start_error s.name e) i
    start_server-Inv m p s (inr c) new i = catalogue-Inv m p s.name c (list c) new i

    pub discover_loop-Inv :
        (m : Manager C) (p : Progress C) (ss : List McpServer)
        → Inv m p
        → Inv m (discover_loop start list p ss)
    unfolding discover_loop
    discover_loop-Inv m p [] i = i
    discover_loop-Inv m p (s ∷ ss) i = elim (Bool-cases (p.manager.loaded s.name)) [
      | inl old ↦ rw old (discover_loop-Inv m p ss i)
      | inr new ↦ rw new (
          discover_loop-Inv m (start_server start list p s (start s)) ss
            (start_server-Inv m p s (start s) new i))
    ]

    pub start-Inv : (m : Manager C) → Inv m (start_progress start list m)
    start-Inv m = record { grows = λ k h. h; newly = tt; no_tools = λ h. refl }

  -- The tools that a call of `Discover` returns.
  abbrev pub found : Discovered C → List (McpTool C)
  found manager_closed = []
  found (Discovered.errors es) = []
  found (discovered ts) = ts

  pub found-result :
      (start : McpServer → Text ⊎ C) (list : C → Text ⊎ List RemoteTool) (m : Manager C)
      (p : Progress C)
      → Inv m p
      → found (discover_result start list p) ≡ p.tools
  found-result start list m p i = elim (Bool-cases (p.catalogued)) [
    | inl yes_some ↦ ground (arith, yes_some)
    | inr none_yet ↦ ground (arith, none_yet, i.no_tools none_yet)
  ]

  -- A call of `Discover` by whether the manager is closed.
  pub discover_is :
      (start : McpServer → Text ⊎ C) (list : C → Text ⊎ List RemoteTool) (m : Manager C) (b : Bool)
      → m.closed ≡ b
      → discover start list m ≡ (
          let p = discover_loop start list (start_progress start list m) m.configs in
          if b then (m, manager_closed) else (p.manager, discover_result start list p))
  unfolding discover
  discover_is start list m b h =
      let p = discover_loop start list (start_progress start list m) m.configs in
      ap
        (λ (x : Bool). if x then (m, manager_closed) else (p.manager, discover_result start list p))
        h

  discover_newly :
      (start : McpServer → Text ⊎ C) (list : C → Text ⊎ List RemoteTool) (m : Manager C)
      → NewlyLoaded m (discover start list m).0 (found (discover start list m).1)
  discover_newly start list m =
      let newly = λ (r : Manager C × Discovered C). NewlyLoaded m r.0 (found r.1) in
      elim (Bool-cases (m.closed)) [
        | inl shut ↦ subst newly (sym (discover_is start list m true shut)) tt
        | inr open_yet ↦
            let p = discover_loop start list (start_progress start list m) m.configs in
            let i =
              discover_loop-Inv start list m (start_progress start list m) m.configs
                (start-Inv start list m) in
            subst newly (sym (discover_is start list m false open_yet))
              (subst (NewlyLoaded m p.manager) (sym (found-result start list m p i)) i.newly)
      ]

  -- No tool of one list is from the server of a tool of the other.
  abbrev pub OtherServers : List (McpTool C) → List (McpTool C) → Type 0
  OtherServers ts us = All (λ t. All (λ u. text_eq t.server_name u.server_name ≡ false) us) ts

  one_apart :
      (m : Manager C) (n : Manager C) (t : McpTool C) (us : List (McpTool C))
      → m.loaded t.server_name ≡ true
      → NewlyLoaded m n us
      → All (λ (u : McpTool C). text_eq t.server_name u.server_name ≡ false) us
  one_apart m n t [] load h = tt
  one_apart m n t (u ∷ us) load h = elim (Bool-cases (text_eq t.server_name u.server_name)) [
    | inr other ↦ (other, one_apart m n t us load h.1)
    | inl same ↦
        let also : m.loaded u.server_name ≡ true =
          subst (λ k. m.loaded k ≡ true) (text_eq_sound t.server_name u.server_name same) load in
        cc (also, h.0.0)
  ]

  all_apart :
      (l m n : Manager C) (ts us : List (McpTool C))
      → NewlyLoaded l m ts
      → NewlyLoaded m n us
      → OtherServers ts us
  all_apart l m n [] us a b = tt
  all_apart l m n (t ∷ ts) us a b = (one_apart m n t us a.0.1 b, all_apart l m n ts us a.1 b)

  -- Of two calls of `Discover`, one after the other, whatever the servers answer to each: no server
  -- has tools in the results of both.
  pub discover_once :
      (start start' : McpServer → Text ⊎ C) (list list' : C → Text ⊎ List RemoteTool)
      (m : Manager C)
      → OtherServers
          (found (discover start list m).1)
          (found (discover start' list' (discover start list m).0).1)
  discover_once start start' list list' m =
      let n = (discover start list m).0 in
      all_apart m n (discover start' list' n).0 (found (discover start list m).1)
        (found (discover start' list' n).1) (discover_newly start list m)
        (discover_newly start' list' n)
