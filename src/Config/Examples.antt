-- ===== src/Config/Examples.antt =====
-- Inputs for the theorems on internal/conf/conf.go.
use codefolio.Common.{
  Text, codes, List, [], ◌∷◌, Option, none, some, text_eq, if◌then◌else◌, pos, ◌≡◌, refl, ◌↔◌, All,
  map, trim_space, trim,
}
use codefolio.Config.Servers.{
  Transport, McpServer, ServerError, is_http, check_transport, check_timeout, check_server,
  is_known, validate_from, validate_mcp_servers,
}
use codefolio.Config.Load.{Settings, loaded, check_limits}
use codefolio.Config.Checked.{IsServer, Distinct, trimmed, validate_mcp_servers_iff}

-- Two URLs that are parsed.
abbrev parse_uri : Text → Option (Text × Text)
parse_uri u =
    if text_eq u (codes "https://docs.example/mcp")
    then some (codes "https", codes "docs.example")
    else if text_eq u (codes "file:///tmp")
    then some (codes "file", [])
    else none

abbrev pub server : Text → Transport → Text → Text → McpServer
server name transport command url = record {
  name = name;
  transport = transport;
  command = command;
  args = [];
  url = url;
  env = λ _. none;
  headers = λ _. none;
  timeout_ms = pos 500;
  enabled = none;
}

abbrev servers : List McpServer
servers =
    server (codes "local") Transport.stdio (codes "run-mcp") []
    ∷ server (codes "docs") Transport.sse [] (codes "https://docs.example/mcp")
    ∷ []

-- The name is taken, but for the white space.
twice :
    validate_mcp_servers parse_uri
      (server (codes " local ") Transport.stdio (codes "x") [] ∷ servers)
    ≡ some (ServerError.duplicate_name (codes "local"))
unfolding validate_mcp_servers validate_from check_server check_transport check_timeout is_known
    trim_space trim
twice = refl

no_host :
    validate_mcp_servers parse_uri (server (codes "f") Transport.sse [] (codes "file:///tmp") ∷ [])
    ≡ some (ServerError.invalid_url (codes "f"))
unfolding validate_mcp_servers validate_from check_server check_transport is_http is_known
    trim_space trim
no_host = refl

validate_mcp_servers_iff_example :
    (validate_mcp_servers parse_uri servers ≡ none)
    ↔ (All (IsServer parse_uri) servers × Distinct (map trimmed servers))
validate_mcp_servers_iff_example = validate_mcp_servers_iff parse_uri servers

abbrev settings : Settings
settings = record {
  protocol = codes "openai";
  base_url = codes "https://api.example";
  model = codes "m";
  api_key = codes "k";
  window_tokens = pos 0;
  max_output = pos 40000;
  mcp_servers = servers;
}

accepted : check_limits settings ≡ loaded settings
unfolding check_limits
accepted = refl
