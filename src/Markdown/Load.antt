-- ===== src/Markdown/Load.antt =====
-- `Load`, `LoadDir` and `parse` of internal/infra/command/loader.go. What the file system answers is an
-- argument: the entries that the walk of a directory visits, and the contents of the files.
use codefolio.Common.{
  ℕ, suc, ◌∷◌, Text, codes, List, [], ◌++◌, Bool, not, ◌&&◌, ltb, Option, none, some, text_eq,
  is_empty, has_prefix, to_lower, trim_space, length, set, if◌then◌else◌, ◌⊎◌, inl, inr,
}
use codefolio.Filepath.{rel, join_path}
use codefolio.Commands.Parse.{valid_command_name}
use codefolio.Commands.Table.{Command, CommandKind, CommandSource}
use codefolio.Registry.Store.{text_le}
use codefolio.Memory.Files.{has_suffix, trim_suffix}
use codefolio.Markdown.Text.{Meta, Fault, replace_from, frontmatter, description, render}

pub record CommandDiagnostic : Type 0 where
  pub path : Text
  pub message : Fault

pub record LoadResult : Type 0 where
  pub commands : List Command
  pub diagnostics : List CommandDiagnostic

-- What `filepath.WalkDir` calls the function with: a path and an error, or a path and an entry.
pub data Visit : Type 0 where
  failed : Text → Text → Visit
  visited : (path name : Text) (is_dir : Bool) → Visit

-- What is not under `src`, and the answers of the file system.
pub record World : Type 0 where
  pub unmarshal : Text → Text ⊎ Meta
  pub read_file : Text → Text ⊎ Text
  pub walk : Text → List Visit

abbrev pub max_command_bytes : ℕ
max_command_bytes = 262144

-- The name of the command in a file with a path below the root.
unfoldable pub name_of : Text → Text
unfolding replace_from
name_of relative = to_lower (
    replace_from 0 (replace_from 0 (trim_suffix relative (codes ".md")) (codes "/") (codes ":"))
      (codes " ") (codes "-"))

-- The first alias that is no name.
unfoldable pub bad_alias : List Text → Option Text
unfolding valid_command_name
bad_alias [] = none
bad_alias (a ∷ rest_aliases) =
    let rest = bad_alias rest_aliases in if valid_command_name a then rest else some a

abbrev pub command_of : Text → Meta → Text → CommandSource → Text → Command
command_of name m body source path = record {
  name = name;
  description = if is_empty m.description then description body else m.description;
  aliases = m.aliases;
  argument_hint = m.argument_hint;
  kind = CommandKind.prompt_command;
  source = source;
  path = path;
  render_prompt = some (render body);
}

-- `parse` behind the header.
unfoldable pub parse_body : Text → Meta → Text → CommandSource → Text → Fault ⊎ Command
unfolding description render bad_alias
parse_body name m body source path =
    if is_empty body then inl Fault.empty_body else elim (bad_alias m.aliases) [
      | some a ↦ inl (Fault.invalid_alias a)
      | none ↦ inr (command_of name m body source path)
    ]

-- `parse` behind the test of the size: the path below the root, and the name.
unfoldable pub parse_content : World → Text → Text → CommandSource → Text → Fault ⊎ Command
unfolding name_of valid_command_name frontmatter parse_body rel
parse_content w root path source content = elim (rel root path) [
  | none ↦ inl Fault.outside_root
  | some relative ↦
      if has_prefix relative (codes "..")
      then inl Fault.outside_root
      else if not (valid_command_name (name_of relative))
      then inl (Fault.invalid_name (name_of relative))
      else elim (frontmatter w.unmarshal content) [
        | inl e ↦ inl e
        | inr (decoded, body) ↦ parse_body (name_of relative) decoded (trim_space body) source path
      ]
]

unfoldable pub parse : World → Text → Text → CommandSource → Fault ⊎ Command
unfolding parse_content
parse w root path source = elim (w.read_file path) [
  | inl e ↦ inl (Fault.unread e)
  | inr content ↦
      if ltb max_command_bytes (length content)
      then inl Fault.exceeds_limit
      else parse_content w root path source content
]

-- The paths that the walk collects, and its errors.
unfoldable pub entries_of : List Visit → List Text
entries_of [] = []
entries_of (failed path e ∷ vs) = entries_of vs
entries_of (visited path name is_dir ∷ vs) =
    let rest = entries_of vs in
    if not is_dir && has_suffix name (codes ".md") then path ∷ rest else rest

unfoldable pub walk_errors : List Visit → List CommandDiagnostic
walk_errors [] = []
walk_errors (failed path e ∷ vs) = record { path = path; message = Fault.unread e } ∷ walk_errors vs
walk_errors (visited path name is_dir ∷ vs) = walk_errors vs

-- `sort.Strings`.
unfoldable pub insert_text : Text → List Text → List Text
unfolding text_le
insert_text s [] = s ∷ []
insert_text s (t ∷ ts) = let rest = insert_text s ts in if text_le s t then s ∷ t ∷ ts else t ∷ rest

unfoldable pub sort_strings : List Text → List Text
unfolding insert_text
sort_strings [] = []
sort_strings (s ∷ ss) = insert_text s (sort_strings ss)

-- The loop over the sorted paths, and what it does with the outcome of one of them.
unfoldable pub note_parsed : LoadResult → Text → Fault ⊎ Command → LoadResult
note_parsed result path (inl e) = record result {
  diagnostics = result.diagnostics ++ record { path = path; message = e } ∷ [];
}
note_parsed result path (inr c) = record result { commands = result.commands ++ c ∷ [] }

unfoldable pub parse_all : World → Text → CommandSource → LoadResult → List Text → LoadResult
unfolding note_parsed
parse_all w root source result [] = result
parse_all w root source result (path ∷ paths) =
    parse_all w root source (note_parsed result path (parse w root path source)) paths

unfoldable pub load_dir : World → Text → CommandSource → LoadResult
unfolding parse_all sort_strings entries_of walk_errors
load_dir w root source =
    if is_empty root
    then record { commands = []; diagnostics = [] }
    else parse_all w root source (record { commands = []; diagnostics = walk_errors (w.walk root) })
        (sort_strings (entries_of (w.walk root)))

-- `homeDir`; `none` where the directory of the user is not known.
abbrev pub home_dir : Option Text → Text
home_dir none = []
home_dir (some home) = join_path (home ∷ codes ".codefolio" ∷ codes "commands" ∷ [])

-- The map `byName`.
abbrev pub ByName : Type 0
ByName = List (Text × ℕ)

unfoldable pub index_at : ByName → Text → Option ℕ
index_at [] n = none
index_at ((k, i) ∷ m) n = let rest = index_at m n in if text_eq k n then some i else rest

unfoldable pub by_name_from : ℕ → ByName → List Command → ByName
by_name_from i m [] = m
by_name_from i m (c ∷ cs) = by_name_from (suc i) ((c.name, i) ∷ m) cs

-- The loop of `Load` over the commands of the project.
unfoldable pub merge_commands : ByName → List Command → List Command → List Command
unfolding index_at
merge_commands m cs [] = cs
merge_commands m cs (v ∷ vs) = elim (index_at m v.name) [
  | some i ↦ merge_commands m (set cs i v) vs
  | none ↦ merge_commands ((v.name, length cs) ∷ m) (cs ++ v ∷ []) vs
]

unfoldable pub load : World → Option Text → Text → LoadResult
unfolding load_dir by_name_from merge_commands join_path
load w home work_dir =
    let user = load_dir w (home_dir home) CommandSource.user_source in
    let project =
      load_dir w (join_path (work_dir ∷ codes ".codefolio" ∷ codes "commands" ∷ []))
        CommandSource.project_source in
    record {
      commands = merge_commands (by_name_from 0 [] user.commands) user.commands project.commands;
      diagnostics = user.diagnostics ++ project.diagnostics;
    }
