-- ===== src/Mcp/Tool.antt =====
-- internal/infra/mcp/tool.go. What the client of a server answers is an argument.
use codefolio.Common.{
  ℕ, Text, codes, [], ◌∷◌, ◌++◌, Bool, true, false, not, ◌&&◌, ◌||◌, ◌==◌, leb, none, some,
  is_empty, has_prefix, map, length, take, if◌then◌else◌, ◌≡◌, refl, arith, All, All-append,
  keep_if,
}
use codefolio.Domain.Permission.{Context, Args, ToolResult, ToolOutcome, ToolCategory, Tool}

pub record RemoteTool : Type 0 where
  pub name : Text
  pub description : Text

pub record McpTool (C : Type 0) : Type 0 where
  pub server_name : Text
  pub remote : RemoteTool
  pub client : C

abbrev pub is_tool_byte : ℕ → Bool
is_tool_byte c =
    leb b'A' c && leb c b'Z' || leb b'a' c && leb c b'z' || leb b'0' c && leb c b'9' || c == b'_'

-- A byte of valid UTF-8 that does not start a rune.
abbrev pub continues : ℕ → Bool
continues c = leb 128 c && leb c 191

-- One underscore for each other rune.
unfoldable pub sanitize_name : Text → Text
sanitize_name s = map (λ c. if is_tool_byte c then c else b'_') (keep_if (λ c. not (continues c)) s)

abbrev pub prefix : Text
prefix = codes "mcp__"

unfoldable pub tool_name : Text → Text → Text
unfolding sanitize_name
tool_name server remote = prefix ++ (sanitize_name server ++ (codes "__" ++ sanitize_name remote))

unfoldable pub description : Text → RemoteTool → Text
description server remote =
    if is_empty remote.description then codes "MCP tool from " ++ server else remote.description

abbrev pub max_output_chars : ℕ
max_output_chars = 10000

-- The ellipsis takes three bytes in UTF-8.
abbrev pub truncated_note : Text
truncated_note = 10 ∷ 226 ∷ 128 ∷ 166 ∷ codes " output truncated"

unfoldable pub truncate : Text → Text
truncate output =
    if leb (length output) max_output_chars
    then output
    else take max_output_chars output ++ truncated_note

-- What `CallTool` gives: an error, or an output that may be marked as an error.
pub data CallResult : Type 0 where
  call_failed : Text → CallResult
  called : Text → Bool → CallResult

unfoldable pub call_result : Text → CallResult → ToolResult
unfolding truncate
call_result name (call_failed e) = record {
  output = codes "Error: MCP tool " ++ (name ++ (codes " failed: " ++ e));
  is_error = true;
  outcome = ToolOutcome.failed;
}
call_result name (called out is_error) =
    let output = truncate out in
    if is_error
    then record {
      output = if has_prefix output (codes "Error:") then output else codes "Error: " ++ output;
      is_error = true;
      outcome = ToolOutcome.failed;
    }
    else record { output = output; is_error = false; outcome = ToolOutcome.succeeded }

module _ {C : Type 0} (call_tool : C → Context → Text → Args → CallResult) where
  -- `Tool.Execute`.
  unfoldable pub execute_mcp : McpTool C → Context → Args → ToolResult
  unfolding call_result tool_name
  execute_mcp t ctx args = elim ctx.err [
    | some e ↦ record {
      output = codes "Error: MCP tool cancelled: " ++ e;
      is_error = true;
      outcome = ToolOutcome.cancelled;
    }
    | none ↦
        call_result (tool_name t.server_name t.remote.name)
          (call_tool t.client ctx t.remote.name args)
  ]

  -- The tool as the registry and the executor see it: deferred, and of the category of commands.
  unfoldable pub as_tool : McpTool C → Tool
  unfolding execute_mcp tool_name description
  as_tool t = record {
    name = tool_name t.server_name t.remote.name;
    description = description t.server_name t.remote;
    category = ToolCategory.command;
    should_defer = some true;
    system = none;
    execute = execute_mcp t;
  }

replaced-is_tool_byte :
    (s : Text) → All (λ c. is_tool_byte c ≡ true) (map (λ c. if is_tool_byte c then c else b'_') s)
replaced-is_tool_byte [] = tt
replaced-is_tool_byte (c ∷ s) = (ground arith, replaced-is_tool_byte s)

-- A name of a tool is made of letters, digits and underscores.
tool_name-is_tool_byte :
    (server remote : Text) → All (λ c. is_tool_byte c ≡ true) (tool_name server remote)
unfolding tool_name sanitize_name
tool_name-is_tool_byte server remote =
    let ok = λ (c : ℕ). is_tool_byte c ≡ true in
    All-append ok prefix (sanitize_name server ++ (codes "__" ++ sanitize_name remote))
      (refl, (refl, (refl, (refl, (refl, tt)))))
      (All-append ok (sanitize_name server) (codes "__" ++ sanitize_name remote)
        (replaced-is_tool_byte (keep_if (λ c. not (continues c)) server))
        (refl, (refl, replaced-is_tool_byte (keep_if (λ c. not (continues c)) remote))))

-- Two servers whose names differ in a byte that is replaced have tools of the same name.
tool_name_collides : tool_name (codes "a.b") (codes "run") ≡ tool_name (codes "a-b") (codes "run")
unfolding tool_name sanitize_name
tool_name_collides = refl
