-- ===== src/Memory/Agents.antt =====
-- `projectRoot`, `memoryRoots` and `loadAgents` of internal/svc/memory.go. The loops take fuel: `none`
-- where it runs out. What the file system answers is an argument.
use codefolio.Common.{
  ℕ, zero, suc, Text, codes, List, [], ◌∷◌, ◌++◌, Bool, true, false, ◌||◌, ◌==◌, Option, none, some,
  text_eq, is_empty, has_prefix, split_on, join_with, if◌then◌else◌,
}
use codefolio.Filepath.{clean, join_path, rel}
use codefolio.Memory.Files.{read_limited, topic_max_bytes}

-- A path up to its last slash.
unfoldable pub to_last_slash : Text → Text
to_last_slash [] = []
to_last_slash (c ∷ s) =
    let rest = to_last_slash s in
    if is_empty rest then (if c == 47 then c ∷ [] else []) else c ∷ rest

-- `filepath.Dir`.
unfoldable pub dir_of : Text → Text
unfolding to_last_slash clean
dir_of p = clean (to_last_slash p)

-- The loop of `projectRoot`: `has_git` is whether `Stat` of the entry `.git` has no error.
unfoldable pub find_root : (Text → Bool) → Text → ℕ → Text → Option Text
unfolding dir_of join_path
find_root has_git work_dir zero current = none
find_root has_git work_dir (suc f) current =
    let up = find_root has_git work_dir f (dir_of current) in
    if has_git (join_path (current ∷ codes ".git" ∷ []))
    then some current
    else if text_eq (dir_of current) current
    then some work_dir
    else up

unfoldable pub project_root : (Text → Bool) → ℕ → Text → Option Text
unfolding find_root
project_root has_git fuel work_dir =
    if is_empty work_dir then some [] else find_root has_git work_dir fuel work_dir

-- `memoryRoots`; `home` is `none` where `UserHomeDir` has an error.
unfoldable pub memory_roots : Option Text → Text → Text × Text
unfolding join_path
memory_roots home root = (
  elim home [ none ↦ [] | some h ↦ join_path (h ∷ codes ".codefolio" ∷ codes "memory" ∷ []) ],
  join_path (root ∷ codes ".codefolio" ∷ codes "memory" ∷ []),
)

abbrev pub agents_file : Text → Text
agents_file dir = join_path (dir ∷ codes "AGENTS.md" ∷ [])

-- The section of a directory, if its file has content.
unfoldable pub section_of : (Text → Option Text) → Text → List Text
unfolding read_limited join_path
section_of read dir =
    let content = read_limited read (agents_file dir) topic_max_bytes in
    if is_empty content then [] else (codes "Source: " ++ (agents_file dir ++ 10 ∷ content)) ∷ []

-- The first piece of a relative path.
abbrev pub first_piece : List Text → Text
first_piece [] = []
first_piece (p ∷ ps) = p

-- `rel == "" || strings.HasPrefix(rel, "..")`.
abbrev pub ends_walk : Text → Bool
ends_walk r = is_empty r || has_prefix r (46 ∷ 46 ∷ [])

-- The loop of `loadAgents`, from a directory on.
unfoldable pub walk_agents : (Text → Option Text) → Text → ℕ → Text → Option (List Text)
walk_agents read work_dir zero current = none
walk_agents read work_dir (suc f) current =
    let next = λ (r : Text). join_path (current ∷ first_piece (split_on (λ c. c == 47) r) ∷ []) in
    if text_eq current work_dir
    then some (section_of read current)
    else elim (rel current work_dir) [
      | none ↦ some (section_of read current)
      | some r ↦ elim (ends_walk r) [
        | true ↦ some (section_of read current)
        | false ↦ elim (walk_agents read work_dir f (next r)) [
          | none ↦ none
          | some rest ↦ some (section_of read current ++ rest)
        ]
      ]
    ]

abbrev pub separator : Text
separator = codes "\n\n---\n\n"

unfoldable pub load_agents : (Text → Option Text) → ℕ → Text → Text → Option Text
load_agents read fuel root work_dir =
    if is_empty root || is_empty work_dir
    then some []
    else elim (walk_agents read work_dir fuel root) [
      | none ↦ none
      | some sections ↦ some (join_with separator sections)
    ]
