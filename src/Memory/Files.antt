-- ===== src/Memory/Files.antt =====
-- The files of internal/svc/memory.go: what is scanned, saved, indexed and cleared. What the file
-- system answers is an argument; a write that succeeds puts a file in a directory.
use codefolio.Common.{
  ℕ, ◌+◌, Text, codes, List, [], ◌∷◌, ◌++◌, Bool, not, ◌||◌, leb, ltb, Option, none, some, text_eq,
  is_empty, has_prefix, trim_space, length, take, drop, reverse, join_with, if◌then◌else◌,
}
use codefolio.Filepath.{join_path}
use codefolio.Memory.Text.{Proposal, memory_slug, parse_memory}

abbrev pub index_max_bytes : ℕ
index_max_bytes = 25000

abbrev pub topic_max_bytes : ℕ
topic_max_bytes = 12000

abbrev pub limited : ℕ → Text → Text
limited limit content =
    trim_space (if ltb limit (length content) then take limit content else content)

-- `readLimited`; `none` is a file that cannot be read.
unfoldable pub read_limited : (Text → Option Text) → Text → ℕ → Text
read_limited read path limit = elim (read path) [ none ↦ [] | some content ↦ limited limit content ]

-- An entry of a directory. `info` is the time of the last change, where `Info` has no error.
pub record DirEntry : Type 0 where
  pub name : Text
  pub is_dir : Bool
  pub info : Option ℕ

pub record Candidate : Type 0 where
  pub id : Text
  pub name : Text
  pub description : Text
  pub scope : Text
  pub path : Text
  pub updated : ℕ

-- `strings.HasSuffix` and `strings.TrimSuffix`.
abbrev pub has_suffix : Text → Text → Bool
has_suffix s t = has_prefix (reverse s) (reverse t)

abbrev pub trim_suffix : Text → Text → Text
trim_suffix s t = if has_suffix s t then reverse (drop (length t) (reverse s)) else s

abbrev pub is_topic : DirEntry → Bool
is_topic e =
    not (e.is_dir || not (has_suffix e.name (codes ".md")) || text_eq e.name (codes "MEMORY.md"))

abbrev pub candidate_of : Text → Text → Proposal → Text → ℕ → Candidate
candidate_of scope path p stem time = record {
  id = scope ++ (b':' ∷ stem);
  name = if is_empty p.name then stem else p.name;
  description = p.description;
  scope = scope;
  path = path;
  updated = time;
}

unfoldable pub scan_entries : (Text → Option Text) → Text → Text → List DirEntry → List Candidate
unfolding read_limited parse_memory join_path
scan_entries read root scope [] = []
scan_entries read root scope (e ∷ es) =
    let rest = scan_entries read root scope es in
    if not (is_topic e) then rest else elim e.info [
      | none ↦ rest
      | some time ↦
          let path = join_path (root ∷ e.name ∷ []) in
          candidate_of scope path (parse_memory (read_limited read path 4096))
            (trim_suffix e.name (codes ".md")) time
          ∷ rest
    ]

-- `sort.Slice`, the last change first, as an insertion sort.
unfoldable pub insert_candidate : Candidate → List Candidate → List Candidate
insert_candidate c [] = c ∷ []
insert_candidate c (d ∷ ds) =
    let rest = d ∷ insert_candidate c ds in if leb d.updated c.updated then c ∷ d ∷ ds else rest

unfoldable pub sort_candidates : List Candidate → List Candidate
unfolding insert_candidate
sort_candidates [] = []
sort_candidates (c ∷ cs) = insert_candidate c (sort_candidates cs)

-- `scanMemory`; `read_dir` is `none` where the directory cannot be read.
unfoldable pub scan_memory :
    (Text → Option Text) → (Text → Option (List DirEntry)) → Text → Text → List Candidate
unfolding scan_entries sort_candidates
scan_memory read read_dir root scope = elim (read_dir root) [
  | none ↦ []
  | some entries ↦ take 200 (sort_candidates (scan_entries read root scope entries))
]

-- `strings.TrimPrefix`.
abbrev pub trim_prefix : Text → Text → Text
trim_prefix s t = if has_prefix s t then drop (length t) s else s

abbrev pub index_line : Candidate → Text
index_line c =
    codes "- ["
    ++ (c.name
        ++ (codes "]("
            ++ (trim_prefix c.id (codes "memory:")
                ++ (codes ".md) - " ++ (c.description ++ 10 ∷ [])))))

-- The loop of `rebuildIndex`, with the length of what is written.
unfoldable pub index_lines : ℕ → List Candidate → Text
index_lines n [] = []
index_lines n (c ∷ cs) =
    let more = index_lines (n + length (index_line c)) cs in
    index_line c ++ (if leb index_max_bytes (n + length (index_line c)) then [] else more)

-- The lines of the header, and the file that `saveMemory` writes.
abbrev pub header_lines : Proposal → Text → List Text
header_lines p time =
    (codes "name: " ++ p.name)
    ∷ (codes "description: " ++ p.description)
    ∷ (codes "type: " ++ p.type)
    ∷ (codes "updated_at: " ++ time)
    ∷ []

-- What follows the header: the name and at most so many bytes of the content.
unfoldable pub memory_body : Proposal → Text
memory_body p =
    let body = trim_space p.content in
    p.name
    ++ (codes "\n\n"
        ++ ((if ltb topic_max_bytes (length body) then take topic_max_bytes body else body)
            ++ 10 ∷ []))

unfoldable pub memory_file : Proposal → Text → Text
memory_file p time =
    codes "---\n"
    ++ (join_with (10 ∷ []) (header_lines p time) ++ (codes "\n---\n\n# " ++ memory_body p))

pub data SaveResult : Type 0 where
  saved : Text → Text → SaveResult
  not_saved : Text → SaveResult

-- `saveMemory` up to the index: the path and the content that are written. `mkdir` is the error of
-- `MkdirAll`, and `write` that of `writeAtomic`.
unfoldable pub save_memory :
    Option Text → (Text → Option Text) → Text → Proposal → Text → SaveResult
save_memory mkdir write root p time =
    let slug = memory_slug p.name in
    let path = join_path (root ∷ (slug ++ codes ".md") ∷ []) in
    elim mkdir [
      | some e ↦ not_saved e
      | none ↦
          if is_empty slug
          then not_saved (codes "invalid memory name")
          else elim (write path) [ some e ↦ not_saved e | none ↦ saved path (memory_file p time) ]
    ]

-- `rebuildIndex`: the path and the content of the index.
unfoldable pub rebuild_index :
    (Text → Option Text) → (Text → Option (List DirEntry)) → Text → Text × Text
unfolding scan_memory index_lines join_path
rebuild_index read read_dir root = (
  join_path (root ∷ codes "MEMORY.md" ∷ []),
  index_lines 0 (scan_memory read read_dir root (codes "memory")),
)

-- `Clear` in one directory: the paths that are removed, and the error that ended it. `remove` is the
-- error of `os.Remove`.
unfoldable pub clear_entries : (Text → Option Text) → Text → List DirEntry → List Text × Option Text
unfolding join_path
clear_entries remove dir [] = ([], none)
clear_entries remove dir (e ∷ es) =
    let path = join_path (dir ∷ e.name ∷ []) in
    let rest = clear_entries remove dir es in
    if e.is_dir || not (has_suffix e.name (codes ".md"))
    then rest
    else elim (remove path) [ some m ↦ ([], some m) | none ↦ (path ∷ rest.0, rest.1) ]

-- What `ReadDir` gives: nothing where the directory does not exist.
pub data Listing : Type 0 where
  no_directory : Listing
  unreadable : Text → Listing
  entries : List DirEntry → Listing

unfoldable pub clear_dirs :
    (Text → Option Text) → (Text → Listing) → List Text → List Text × Option Text
unfolding clear_entries
clear_dirs remove list_dir [] = ([], none)
clear_dirs remove list_dir (dir ∷ dirs) =
    let rest = clear_dirs remove list_dir dirs in
    elim (list_dir dir) [
      | no_directory ↦ rest
      | unreadable m ↦ ([], some m)
      | entries es ↦
          let (removed, failed) = clear_entries remove dir es in
          elim failed [ some m ↦ (removed, some m) | none ↦ (removed ++ rest.0, rest.1) ]
    ]

-- `Clear`: the number of files that are removed, with the error.
unfoldable pub clear_memory :
    (Text → Option Text) → (Text → Listing) → Text → Text → ℕ × Option Text
unfolding clear_dirs
clear_memory remove list_dir user_root project_root =
    let (removed, failed) = clear_dirs remove list_dir (user_root ∷ project_root ∷ []) in
    (length removed, failed)
