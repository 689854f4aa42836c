-- ===== src/Commands/Examples.antt =====
-- Inputs for the theorems on internal/domain/command.go and internal/svc/command.go.
use codefolio.Common.{Text, codes, List, [], ◌∷◌, none, some, ◌≡◌, refl, inl, inr}
use codefolio.Commands.Parse.{valid_command_name, all_name_bytes}
use codefolio.Commands.Table.{
  CommandKind, CommandSource, Command, key_in, alias_conflict, accepts, resolve_commands,
  replace_dynamic, find_command, new_command_registry,
}
use codefolio.Commands.Laws.{find_command-replace_dynamic}

abbrev prompt_of : Text → List Text → Command
prompt_of name aliases = record {
  name = name;
  description = [];
  aliases = aliases;
  argument_hint = [];
  kind = CommandKind.prompt_command;
  source = CommandSource.project_source;
  path = codes "deploy.md";
  render_prompt = none;
}

-- The second command is refused: it has the alias of a built-in command.
abbrev loaded : List Command
loaded =
    prompt_of (codes "Deploy") (codes "d" ∷ []) ∷ prompt_of (codes "heal") (codes "H" ∷ []) ∷ []

loaded_dynamic :
    (replace_dynamic new_command_registry loaded).dynamic
    ≡ prompt_of (codes "deploy") (codes "d" ∷ []) ∷ []
unfolding replace_dynamic resolve_commands accepts alias_conflict key_in valid_command_name
    all_name_bytes new_command_registry
loaded_dynamic = refl

find_command-replace_dynamic_example :
    find_command (replace_dynamic new_command_registry loaded) (codes "DEPLOY")
    ≡ some (prompt_of (codes "deploy") (codes "d" ∷ []))
unfolding replace_dynamic resolve_commands accepts alias_conflict key_in valid_command_name
    all_name_bytes new_command_registry
find_command-replace_dynamic_example =
    find_command-replace_dynamic loaded (prompt_of (codes "deploy") (codes "d" ∷ []))
      (codes "DEPLOY")
      (inr (inr (inr (inr (inr (inr (inr (inr (inr (inr (inr (inr (inl refl))))))))))))) refl
