-- ===== src/Mcp/Examples.antt =====
-- Inputs for the theorems on internal/infra/mcp.
use codefolio.Common.{ℕ, Text, codes, List, [], ◌∷◌, false, text_eq, if◌then◌else◌, ◌⊎◌, inl, inr}
use codefolio.Config.Servers.{Transport, McpServer}
use codefolio.Config.Examples.{server}
use codefolio.Mcp.Tool.{RemoteTool}
use codefolio.Mcp.Manager.{Manager, discover}
use codefolio.Mcp.Discovery.{OtherServers, found, discover_once}

abbrev manager : Manager ℕ
manager = record {
  configs =
      server (codes "a") Transport.stdio (codes "x") []
      ∷ server (codes "b") Transport.stdio (codes "y") []
      ∷ [];
  clients = [];
  loaded = λ _. false;
  failed = λ _. [];
  tool_size = λ _. 0;
  closed = false;
}

-- The server `a` starts at once, the server `b` at the second call only.
abbrev first : McpServer → Text ⊎ ℕ
first s = if text_eq s.name (codes "a") then inr 1 else inl (codes "no such file")

abbrev second : McpServer → Text ⊎ ℕ
second s = inr 2

abbrev catalog : ℕ → Text ⊎ List RemoteTool
catalog c = inr (record { name = codes "run"; description = [] } ∷ [])

discover_once_example :
    OtherServers
      (found (discover first catalog manager).1)
      (found (discover second catalog (discover first catalog manager).0).1)
discover_once_example = discover_once first second catalog catalog manager
