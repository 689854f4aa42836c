-- ===== src/Commands/Table.antt =====
-- `CommandRegistry` of internal/svc/command.go.
use codefolio.Common.{
  Text, codes, List, [], ◌∷◌, ◌++◌, Bool, true, false, not, ◌&&◌, ◌||◌, ltb, Option, none, some,
  text_eq, to_lower, map, length, drop, trim_space, is_empty, if◌then◌else◌,
}
use codefolio.Commands.Parse.{valid_command_name}

pub data CommandKind : Type 0 where
  local_command prompt_command : CommandKind

pub data CommandSource : Type 0 where
  builtin user_source project_source : CommandSource

pub record Command : Type 0 where
  pub name : Text
  pub description : Text
  pub aliases : List Text
  pub argument_hint : Text
  pub kind : CommandKind
  pub source : CommandSource
  pub path : Text
  pub render_prompt : Option (Text → Text)

pub record CommandRegistry : Type 0 where
  pub builtins : List Command
  pub dynamic : List Command

unfoldable pub key_in : Text → List Text → Bool
key_in k [] = false
key_in k (x ∷ xs) = text_eq x k || key_in k xs

-- The loop over the keys of a command behind its name: whether one of them is in conflict.
unfoldable pub alias_conflict : Text → List Text → List Text → List Text → Bool
unfolding key_in
alias_conflict name used seen [] = false
alias_conflict name used seen (a ∷ rest_aliases) =
    let key = to_lower a in
    let rest = alias_conflict name used (key ∷ seen) rest_aliases in
    if not (valid_command_name key) || (text_eq key name || (key_in key used || key_in key seen))
    then true
    else rest

-- The keys of a command whose name is in lower case.
abbrev pub keys : Command → List Text
keys c = c.name ∷ map to_lower c.aliases

abbrev pub lowered : Command → Command
lowered c = record c { name = to_lower c.name }

-- Whether a command, its name in lower case, is taken beside the used keys.
unfoldable pub accepts : List Text → Command → Bool
unfolding alias_conflict key_in
accepts used c =
    valid_command_name c.name
    && not (key_in c.name used || alias_conflict c.name used (c.name ∷ []) c.aliases)

unfoldable pub resolve_commands : List Text → List Command → List Command
unfolding accepts
resolve_commands used [] = []
resolve_commands used (c ∷ cs) =
    let next = resolve_commands (keys (lowered c) ++ used) cs in
    let skip = resolve_commands used cs in
    if accepts used (lowered c) then lowered c ∷ next else skip

unfoldable pub replace_dynamic : CommandRegistry → List Command → CommandRegistry
unfolding resolve_commands
replace_dynamic r commands =
    let accepted = resolve_commands [] (r.builtins ++ commands) in
    if ltb (length accepted) (length r.builtins)
    then r
    else record r { dynamic = drop (length r.builtins) accepted }

-- A command answers to its name and to its aliases in lower case.
abbrev pub answers_to : Text → Command → Bool
answers_to name c = text_eq c.name name || key_in name (map to_lower c.aliases)

unfoldable pub find_in : Text → List Command → Option Command
unfolding key_in
find_in name [] = none
find_in name (c ∷ cs) = let rest = find_in name cs in if answers_to name c then some c else rest

unfoldable pub find_command : CommandRegistry → Text → Option Command
unfolding find_in
find_command r name = find_in (to_lower name) (r.builtins ++ r.dynamic)

abbrev pub local_of : Text → Text → List Text → Command
local_of name description aliases = record {
  name = name;
  description = description;
  aliases = aliases;
  argument_hint = [];
  kind = CommandKind.local_command;
  source = CommandSource.builtin;
  path = [];
  render_prompt = none;
}

abbrev review_prompt : Text → Text
review_prompt args =
    let prompt =
      codes
        "Review the current git diff for logic errors, security issues, performance problems, and missing tests. Report actionable findings first." in
    if is_empty (trim_space args)
    then prompt
    else prompt ++ (codes "\n\nAdditional focus: " ++ args)

abbrev pub builtin_commands : List Command
builtin_commands =
    local_of (codes "help") (codes "Show available commands") (codes "h" ∷ [])
    ∷ local_of (codes "status") (codes "Show current status") (codes "s" ∷ [])
    ∷ local_of (codes "mcp") (codes "Show MCP server status") []
    ∷ local_of (codes "new") (codes "Start a new session") []
    ∷ local_of (codes "compact") (codes "Compact provider conversation context") (codes "c" ∷ [])
    ∷ local_of (codes "memory") (codes "List or clear persistent memory") []
    ∷ local_of (codes "session") (codes "Show or list sessions") []
    ∷ local_of (codes "resume") (codes "Resume a previous session") (codes "r" ∷ [])
    ∷ local_of (codes "commands") (codes "Reload Markdown prompt commands") []
    ∷ local_of (codes "exit") (codes "Exit Codefolio") []
    ∷ local_of (codes "quit") (codes "Exit Codefolio") []
    ∷ record {
      name = codes "review";
      description = codes "Review current code changes";
      aliases = [];
      argument_hint = codes "[focus]";
      kind = CommandKind.prompt_command;
      source = CommandSource.builtin;
      path = [];
      render_prompt = some review_prompt;
    }
    ∷ []

unfoldable pub new_command_registry : CommandRegistry
new_command_registry = record { builtins = builtin_commands; dynamic = [] }
