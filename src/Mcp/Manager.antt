-- ===== src/Mcp/Manager.antt =====
-- internal/infra/mcp/manager.go. `start` is what the client factory gives for a server, and `list` what
-- `ListTools` of a client gives; the errors are those of the code, with its text.
use codefolio.Common.{
  ℕ, ◌+◌, Text, codes, List, [], ◌∷◌, ◌++◌, Bool, true, false, ◌&&◌, not, Option, none, some,
  text_eq, is_empty, map, ◌⊎◌, inl, inr, length, null, keep_if, if◌then◌else◌,
}
use codefolio.Config.Servers.{McpServer, is_enabled}
use codefolio.Registry.Store.{text_le}
use codefolio.Mcp.Tool.{RemoteTool, McpTool}

-- `Loaded`, `failed` and `toolSize` by their lookups, `clients` by its entries.
pub record Manager (C : Type 0) : Type 0 where
  pub configs : List McpServer
  pub clients : List (Text × C)
  pub loaded : Text → Bool
  pub failed : Text → Text
  pub tool_size : Text → ℕ
  pub closed : Bool

pub record Summary : Type 0 where
  pub configured : ℕ
  pub ready : ℕ
  pub unavailable : ℕ
  pub tools : ℕ

-- `sort.Slice` by the names, as an insertion sort.
unfoldable pub insert_server : McpServer → List McpServer → List McpServer
insert_server s [] = s ∷ []
insert_server s (t ∷ ts) =
    let rest = t ∷ insert_server s ts in if text_le s.name t.name then s ∷ t ∷ ts else rest

unfoldable pub sort_servers : List McpServer → List McpServer
unfolding insert_server
sort_servers [] = []
sort_servers (s ∷ ss) = insert_server s (sort_servers ss)

abbrev pub put_at {ℓ} : {A : Type ℓ} → Text → A → (Text → A) → Text → A
put_at k v f = λ j. if text_eq k j then v else f j

abbrev pub remove_client : {C : Type 0} → Text → List (Text × C) → List (Text × C)
remove_client k cs = keep_if (λ e. not (text_eq k e.0)) cs

unfoldable pub new_manager : {C : Type 0} → List McpServer → Manager C
unfolding sort_servers
new_manager configs = record {
  configs = sort_servers (keep_if is_enabled configs);
  clients = [];
  loaded = λ _. false;
  failed = λ _. [];
  tool_size = λ _. 0;
  closed = false;
}

-- The variables of the loop of `Discover`.
pub record Progress (C : Type 0) : Type 0 where
  pub manager : Manager C
  pub tools : List (McpTool C)
  pub errors : List Text
  pub catalogued : Bool

pub data Discovered (C : Type 0) : Type 0 where
  manager_closed : Discovered C
  errors : List Text → Discovered C
  discovered : List (McpTool C) → Discovered C

unfoldable pub fail_server : {C : Type 0} → Progress C → Text → Text → Progress C
fail_server p name e = record p {
  manager = record p.manager { failed = put_at name e p.manager.failed };
  errors = p.errors ++ e ∷ [];
}

abbrev pub start_error : Text → Text → Text
start_error name e = codes "MCP server \"" ++ (name ++ (codes "\": " ++ e))

abbrev pub list_error : Text → Text → Text
list_error name e = codes "MCP server \"" ++ (name ++ (codes "\" list tools: " ++ e))

abbrev pub tools_of : {C : Type 0} → Text → C → List RemoteTool → List (McpTool C)
tools_of name c remotes = map (λ r. record { server_name = name; remote = r; client = c }) remotes

-- What the catalogue of a started server leaves.
unfoldable pub catalogue :
    {C : Type 0} → Progress C → Text → C → Text ⊎ List RemoteTool → Progress C
unfolding fail_server
catalogue p name c (inl e) =
    fail_server
      (record p { manager = record p.manager { clients = remove_client name p.manager.clients } })
      name (list_error name e)
catalogue p name c (inr remotes) = record p {
  manager = record p.manager {
    clients = (name, c) ∷ remove_client name p.manager.clients;
    loaded = put_at name true p.manager.loaded;
    failed = put_at name [] p.manager.failed;
    tool_size = put_at name (length remotes) p.manager.tool_size;
  };
  tools = p.tools ++ tools_of name c remotes;
  catalogued = true;
}

module _ {C : Type 0} (start : McpServer → Text ⊎ C) (list : C → Text ⊎ List RemoteTool) where
  unfoldable pub start_server : Progress C → McpServer → Text ⊎ C → Progress C
  unfolding catalogue fail_server
  start_server p s (inl e) = fail_server p s.name (start_error s.name e)
  start_server p s (inr c) = catalogue p s.name c (list c)

  unfoldable pub discover_loop : Progress C → List McpServer → Progress C
  unfolding start_server
  discover_loop p [] = p
  discover_loop p (s ∷ ss) =
      discover_loop (if p.manager.loaded s.name then p else start_server p s (start s)) ss

  abbrev pub discover_result : Progress C → Discovered C
  discover_result p =
      if not (null p.errors) && not p.catalogued
      then Discovered.errors p.errors
      else discovered p.tools

  abbrev pub start_progress : Manager C → Progress C
  start_progress m = record { manager = m; tools = []; errors = []; catalogued = false }

  -- `Discover`.
  unfoldable pub discover : Manager C → Manager C × Discovered C
  unfolding discover_loop
  discover m =
      let p = discover_loop (start_progress m) m.configs in
      if m.closed then (m, manager_closed) else (p.manager, discover_result p)

unfoldable pub summary_of : {C : Type 0} → Manager C → List McpServer → Summary
summary_of m [] = record { configured = 0; ready = 0; unavailable = 0; tools = 0 }
summary_of m (s ∷ ss) =
    let rest = summary_of m ss in
    if m.loaded s.name
    then record {
      configured = rest.configured + 1;
      ready = rest.ready + 1;
      unavailable = rest.unavailable;
      tools = rest.tools + m.tool_size s.name;
    }
    else if not (is_empty (m.failed s.name))
    then record {
      configured = rest.configured + 1;
      ready = rest.ready;
      unavailable = rest.unavailable + 1;
      tools = rest.tools;
    }
    else record {
      configured = rest.configured + 1;
      ready = rest.ready;
      unavailable = rest.unavailable;
      tools = rest.tools;
    }

-- `Manager.Summary`.
unfoldable pub manager_summary : {C : Type 0} → Manager C → Summary
unfolding summary_of
manager_summary m = summary_of m m.configs

-- `Close`, with the names of the clients that it closes and the errors: `close` is what a client's
-- `Close` gives, and the clients come in any order.
unfoldable pub close_all : {C : Type 0} → (C → Option Text) → List (Text × C) → List Text
close_all close [] = []
close_all close ((name, c) ∷ cs) =
    let rest = close_all close cs in
    elim (close c) [
      | none ↦ rest
      | some e ↦ (codes "close MCP server \"" ++ (name ++ (codes "\": " ++ e))) ∷ rest
    ]

unfoldable pub close_manager : {C : Type 0} → (C → Option Text) → Manager C → Manager C × List Text
unfolding close_all
close_manager close m =
    if m.closed
    then (m, [])
    else (record m { closed = true; clients = [] }, close_all close m.clients)
