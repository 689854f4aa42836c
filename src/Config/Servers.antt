-- ===== src/Config/Servers.antt =====
-- `MCPServer` and `validateMCPServers` of internal/conf/conf.go.
use codefolio.Common.{
  Text, codes, List, [], ◌∷◌, Bool, true, false, not, ◌&&◌, ◌||◌, Option, none, some, text_eq,
  is_empty, trim_space, if◌then◌else◌, ℤ, pos, negsuc,
}

-- The `Transport` string; `other` is any string but the three.
pub data Transport : Type 0 where
  stdio streamable sse : Transport
  other : Text → Transport

-- `args`, `env` and `headers` are handed to the client as they are.
pub record McpServer : Type 0 where
  pub name : Text
  pub transport : Transport
  pub command : Text
  pub args : List Text
  pub url : Text
  pub env : Text → Option Text
  pub headers : Text → Option Text
  pub timeout_ms : ℤ
  pub enabled : Option Bool

unfoldable pub is_enabled : McpServer → Bool
is_enabled c = elim c.enabled [ none ↦ true | some b ↦ b ]

-- The errors, each with the trimmed name of the server.
pub data ServerError : Type 0 where
  name_required : ServerError
  duplicate_name not_stdio not_remote invalid_url unsupported negative_timeout : Text → ServerError

unfoldable pub check_timeout : ℤ → Text → Option ServerError
check_timeout (pos n) name = none
check_timeout (negsuc n) name = some (ServerError.negative_timeout name)

unfoldable pub is_known : Text → List Text → Bool
is_known n [] = false
is_known n (k ∷ ks) = text_eq k n || is_known n ks

-- The scheme and the host of a URL: what `url.ParseRequestURI` gives, where it has no error.
module _ (parse_uri : Text → Option (Text × Text)) where
  unfoldable pub is_http : Text → Bool
  is_http url = elim (parse_uri url) [
    | none ↦ false
    | some (scheme, host) ↦
        (text_eq scheme (codes "http") || text_eq scheme (codes "https")) && not (is_empty host)
  ]

  -- The `switch` on the transport: `none` where it has no error.
  unfoldable pub check_transport : Transport → McpServer → Option ServerError
  unfolding is_http
  check_transport Transport.stdio s =
      if is_empty (trim_space s.command) || not (is_empty s.url)
      then some (ServerError.not_stdio (trim_space s.name))
      else none
  check_transport (Transport.other t) s = some (ServerError.unsupported (trim_space s.name))
  check_transport _ s =
      if not (is_empty s.command) || is_empty s.url
      then some (ServerError.not_remote (trim_space s.name))
      else if is_http s.url
      then none
      else some (ServerError.invalid_url (trim_space s.name))

  -- The part of the loop's body behind the name.
  unfoldable pub check_server : McpServer → Option ServerError
  unfolding check_transport check_timeout
  check_server s = elim (check_transport s.transport s) [
    | some e ↦ some e
    | none ↦ check_timeout s.timeout_ms (trim_space s.name)
  ]

  -- The loop, with the names before.
  unfoldable pub validate_from : List Text → List McpServer → Option ServerError
  validate_from names [] = none
  validate_from names (s ∷ ss) =
      let rest = validate_from (trim_space s.name ∷ names) ss in
      if is_empty (trim_space s.name)
      then some ServerError.name_required
      else if is_known (trim_space s.name) names
      then some (ServerError.duplicate_name (trim_space s.name))
      else elim (check_server s) [ some e ↦ some e | none ↦ rest ]

  unfoldable pub validate_mcp_servers : List McpServer → Option ServerError
  unfolding validate_from
  validate_mcp_servers servers = validate_from [] servers
