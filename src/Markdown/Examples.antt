-- ===== src/Markdown/Examples.antt =====
-- Inputs for the theorems on internal/infra/command/loader.go.
use codefolio.Common.{
  Text, codes, List, [], ◌∷◌, ◌++◌, true, false, ◌+◌, text_eq, is_empty, length, some, trim_space,
  join_with, elem-IsLine, if◌then◌else◌, ◌≡◌, refl, ◌⊎◌, inl, inr,
}
use codefolio.Filepath.{path_steps}
use codefolio.Commands.Table.{Command, CommandSource}
use codefolio.Markdown.Text.{Meta, Fault, split_at, frontmatter}
use codefolio.Markdown.Load.{
  World, Visit, command_of, parse, entries_of, walk_errors, parse_all, load_dir, load,
}
use codefolio.Markdown.Merge.{
  position, named, last_named, user_commands, project_commands, or_else, load_named,
}
use codefolio.Markdown.Read.{AllRead, Reported, load_dir_lem}
use codefolio.Common.{All}
use codefolio.Markdown.Header.{frontmatter_lem}

abbrev as_description : Text → Text ⊎ Meta
as_description s =
    if is_empty s
    then inl (codes "EOF")
    else inr (record { description = s; argument_hint = []; aliases = codes "rv" ∷ [] })

abbrev user_dir : Text
user_dir = codes "/home/.codefolio/commands"

abbrev project_dir : Text
project_dir = codes "/work/.codefolio/commands"

-- Both directories have a command `review`; a file of the user cannot be read, and a directory of the
-- project cannot be entered.
abbrev files : Text → List Visit
files root =
    if text_eq root user_dir
    then (Visit.visited user_dir (codes "commands") true
        ∷ Visit.visited (user_dir ++ codes "/Review.md") (codes "Review.md") false
        ∷ Visit.visited (user_dir ++ codes "/bad.md") (codes "bad.md") false
        ∷ Visit.visited (user_dir ++ codes "/note.txt") (codes "note.txt") false
        ∷ [])
    else (Visit.failed (project_dir ++ codes "/private") (codes "denied")
        ∷ Visit.visited (project_dir ++ codes "/git/sync.md") (codes "sync.md") false
        ∷ Visit.visited (project_dir ++ codes "/review.md") (codes "review.md") false
        ∷ [])

abbrev read : Text → Text ⊎ Text
read path =
    if text_eq path (user_dir ++ codes "/bad.md")
    then inl (codes "denied")
    else if text_eq path (project_dir ++ codes "/review.md")
    then inr (codes "---\nReview it\n---\n\nReview $ARGUMENTS.\n")
    else inr (codes "# Title\n\nDo it.\n")

abbrev world : World
world = record { unmarshal = as_description; read_file = read; walk = files }

abbrev review : Command
review =
    command_of (codes "review")
      (record { description = codes "Review it"; argument_hint = []; aliases = codes "rv" ∷ [] })
      (codes "Review $ARGUMENTS.") CommandSource.project_source (project_dir ++ codes "/review.md")

load_named_example :
    named (codes "review") (load world (some (codes "/home")) (codes "/work")).commands
    ≡ or_else
        (last_named (codes "review") (project_commands world (codes "/work")))
        (named (codes "review") (user_commands world (some (codes "/home"))))
unfolding position load_dir parse_all parse path_steps trim_space
load_named_example =
    load_named world (some (codes "/home")) (codes "/work") (codes "review") (refl, tt)

review_wins : last_named (codes "review") (project_commands world (codes "/work")) ≡ some review
unfolding last_named load_dir parse_all parse path_steps trim_space
review_wins = refl

load_dir_lem_example :
    AllRead CommandSource.project_source
      (load_dir world project_dir CommandSource.project_source).commands
    × All
        (Reported world project_dir CommandSource.project_source
          (load_dir world project_dir CommandSource.project_source))
        ((project_dir ++ codes "/git/sync.md") ∷ (project_dir ++ codes "/review.md") ∷ [])
    × (length (load_dir world project_dir CommandSource.project_source).commands
          + length (load_dir world project_dir CommandSource.project_source).diagnostics
        ≡ 3)
unfolding walk_errors entries_of
load_dir_lem_example = load_dir_lem world project_dir CommandSource.project_source refl

frontmatter_lem_example :
    (frontmatter as_description (codes "---\nReview it\n---\nText")
      ≡ inr (
        record { description = codes "Review it"; argument_hint = []; aliases = codes "rv" ∷ [] },
        codes "Text",
      ))
    × (frontmatter as_description (codes "---\n---\nText") ≡ inl Fault.not_closed)
unfolding join_with split_at
frontmatter_lem_example =
    frontmatter_lem as_description (codes "Review it") [] (codes "Text") (codes "Text")
      (elem-IsLine (codes "Review it") refl, tt) tt refl
