-- ===== src/Config/Load.antt =====
-- `Load` of internal/conf/conf.go. JSON, the package validator and the expansion of environment
-- variables are arguments; a file is `none` where it cannot be read.
use codefolio.Common.{
  ℕ, Text, List, [], ◌∷◌, Bool, true, false, ◌&&◌, ◌||◌, ltb, leb, Option, none, some,
  if◌then◌else◌, ℤ, pos, negsuc,
}
use codefolio.Config.Servers.{McpServer, ServerError, validate_mcp_servers}
use codefolio.Context.Tokens.{Conf}

pub record Settings : Type 0 where
  pub protocol : Text
  pub base_url : Text
  pub model : Text
  pub api_key : Text
  pub window_tokens : ℤ
  pub max_output : ℤ
  pub mcp_servers : List McpServer

pub data LoadError : Type 0 where
  decode : Text → LoadError
  invalid : Text → LoadError
  server : ServerError → LoadError
  negative_limits output_not_smaller : LoadError

pub data Loaded : Type 0 where
  loaded : Settings → Loaded
  refused : LoadError → Loaded

abbrev pub is_negative : ℤ → Bool
is_negative (pos n) = false
is_negative (negsuc n) = true

-- The order of the integers.
abbrev pub leb_int : ℤ → ℤ → Bool
leb_int (pos a) (pos b) = leb a b
leb_int (pos a) (negsuc b) = false
leb_int (negsuc a) (pos b) = true
leb_int (negsuc a) (negsuc b) = leb b a

abbrev pub is_positive : ℤ → Bool
is_positive (pos n) = ltb 0 n
is_positive (negsuc n) = false

-- The tests of the token limits.
unfoldable pub check_limits : Settings → Loaded
check_limits c =
    if is_negative c.window_tokens || is_negative c.max_output
    then refused LoadError.negative_limits
    else if is_positive c.window_tokens && leb_int c.window_tokens c.max_output
    then refused LoadError.output_not_smaller
    else loaded c

module _ (unmarshal : Text → Settings → Option Settings) (expand_fields : Settings → Settings)
    (validate_struct : Settings → Option Text) (parse_uri : Text → Option (Text × Text)) where
  -- Each file that can be read is decoded over what the files before it say.
  unfoldable pub decode_files : Settings → List (Option Text) → Option Settings
  decode_files c [] = some c
  decode_files c (none ∷ files) = decode_files c files
  decode_files c (some content ∷ files) = elim (unmarshal content c) [
    | none ↦ none
    | some c' ↦ decode_files c' files
  ]

  unfoldable pub check_settings : Settings → Loaded
  unfolding check_limits
  check_settings c = elim (validate_struct c) [
    | some e ↦ refused (LoadError.invalid e)
    | none ↦ elim (validate_mcp_servers parse_uri c.mcp_servers) [
      | some e ↦ refused (LoadError.server e)
      | none ↦ check_limits c
    ]
  ]

  unfoldable pub load_settings : Settings → List (Option Text) → Loaded
  unfolding decode_files check_settings
  load_settings zero_settings files = elim (decode_files zero_settings files) [
    | none ↦ refused (LoadError.decode [])
    | some c ↦ check_settings (expand_fields c)
  ]

abbrev pub part : ℤ → ℕ
part (pos n) = n
part (negsuc n) = 0

-- The limits of settings that were loaded, as the context manager reads them.
unfoldable pub limits_of : Settings → Conf
limits_of c = record {
  model = c.model;
  window_tokens = part c.window_tokens;
  output_tokens = part c.max_output;
}
