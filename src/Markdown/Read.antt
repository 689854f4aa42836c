-- ===== src/Markdown/Read.antt =====
-- What `LoadDir` and `parse` of internal/infra/command/loader.go make of the files of a directory.
use codefolio.Common.{
  suc, ◌+◌, Text, codes, List, [], ◌∷◌, true, false, ltb, none, has_prefix, is_empty, trim_space,
  length, length-append, All, All-append, In, In-append, In-snoc, ◌≡◌, refl, ap, ◌∙◌, arith,
  Bool-cases, Option-cases, ◌⊎◌, inl, inr,
}
use mathlib.Core.Path.{subst}
use codefolio.Registry.Store.{text_le}
use codefolio.Filepath.{rel}
use codefolio.Commands.Parse.{valid_command_name}
use codefolio.Commands.Table.{Command, CommandKind, CommandSource}
use codefolio.Markdown.Text.{Meta, Fault, frontmatter}
use codefolio.Markdown.Load.{
  World, CommandDiagnostic, LoadResult, name_of, bad_alias, command_of, parse_body, parse_content,
  parse, max_command_bytes, entries_of, walk_errors, insert_text, sort_strings, note_parsed,
  parse_all, load_dir,
}

Sum-cases {ℓ} : {A B : Type ℓ} (s : A ⊎ B) → ((a : A) × (s ≡ inl a)) ⊎ ((b : B) × (s ≡ inr b))
Sum-cases (inl a) = inl (a, refl)
Sum-cases (inr b) = inr (b, refl)

-- A command that a file may give: its keys are names, and it is a prompt of the file's source.
abbrev pub IsRead : CommandSource → Text → Command → Type 0
IsRead source path c =
    (valid_command_name c.name ≡ true)
    × (bad_alias c.aliases ≡ none)
    × (c.source ≡ source)
    × (c.path ≡ path)
    × (c.kind ≡ CommandKind.prompt_command)

parse_body-IsRead :
    (name : Text) (m : Meta) (body : Text) (source : CommandSource) (path : Text) (c : Command)
    → valid_command_name name ≡ true
    → parse_body name m body source path ≡ inr c
    → IsRead source path c
unfolding parse_body
parse_body-IsRead name m body source path c v h = elim (Bool-cases (is_empty body)) [
  | inl e ↦ let h' : inl Fault.empty_body ≡ inr c = rw e at h in cc
  | inr e ↦ elim (Option-cases (bad_alias m.aliases)) [
    | inr (a, b) ↦ let h' : inl (Fault.invalid_alias a) ≡ inr c = rw (e, b) at h in cc
    | inl b ↦
        let h' : inr (command_of name m body source path) ≡ inr c = rw (e, b) at h in
        let same : command_of name m body source path ≡ c = cc in
        let read : IsRead source path (command_of name m body source path) =
          (v, b, refl, refl, refl) in
        subst (IsRead source path) same read
  ]
]

parse_content-IsRead :
    (w : World) (root path : Text) (source : CommandSource) (content : Text) (c : Command)
    → parse_content w root path source content ≡ inr c
    → IsRead source path c
unfolding parse_content
parse_content-IsRead w root path source content c h = elim (Option-cases (rel root path)) [
  | inl e ↦ let h' : inl Fault.outside_root ≡ inr c = rw (parse_content, e) at h in cc
  | inr (r, e) ↦ elim (Bool-cases (has_prefix r (codes ".."))) [
    | inl p ↦ let h' : inl Fault.outside_root ≡ inr c = rw (parse_content, e, p) at h in cc
    | inr p ↦ elim (Bool-cases (valid_command_name (name_of r))) [
      | inr v ↦
          let h' : inl (Fault.invalid_name (name_of r)) ≡ inr c =
            rw (parse_content, e, p, v) at h in
          cc
      | inl v ↦ elim (Sum-cases (frontmatter w.unmarshal content)) [
        | inl (x, f) ↦ let h' : inl x ≡ inr c = rw (parse_content, e, p, v, f) at h in cc
        | inr (m, f) ↦
            parse_body-IsRead (name_of r) m.0 (trim_space m.1) source path c v
              (rw (parse_content, e, p, v, f) at h)
      ]
    ]
  ]
]

parse-IsRead :
    (w : World) (root path : Text) (source : CommandSource) (c : Command)
    → parse w root path source ≡ inr c
    → IsRead source path c
unfolding parse
parse-IsRead w root path source c h = elim (Sum-cases (w.read_file path)) [
  | inl (x, e) ↦ let h' : inl (Fault.unread x) ≡ inr c = rw (parse, e) at h in cc
  | inr (content, e) ↦ elim (Bool-cases (ltb max_command_bytes (length content))) [
    | inl l ↦ let h' : inl Fault.exceeds_limit ≡ inr c = rw (parse, e, l) at h in cc
    | inr l ↦ parse_content-IsRead w root path source content c (rw (parse, e, l) at h)
  ]
]

-- A command that is in a list of commands that were read, with its path.
abbrev pub AllRead : CommandSource → List Command → Type 0
AllRead source = All (λ (c : Command). IsRead source c.path c)

note_parsed_lem :
    (source : CommandSource) (result : LoadResult) (path : Text) (o : Fault ⊎ Command)
    → AllRead source result.commands
    → ((c : Command) → o ≡ inr c → IsRead source path c)
    → AllRead source (note_parsed result path o).commands
      × (length (note_parsed result path o).commands
            + length (note_parsed result path o).diagnostics
          ≡ suc (length result.commands + length result.diagnostics))
unfolding note_parsed
note_parsed_lem source result path (inl x) a f =
    let fault : CommandDiagnostic = record { path = path; message = x } in
    let more = length-append result.diagnostics (fault ∷ []) in (a, omega arith)
note_parsed_lem source result path (inr c) a f =
    let (n, b, s, p, k) = f c refl in
    let more = length-append result.commands (c ∷ []) in
    (
      All-append (λ (d : Command). IsRead source d.path d) result.commands (c ∷ []) a
          ((n, b, s, refl, k), tt),
      omega arith,
    )

-- A path whose outcome is in a result: its command, or its fault.
abbrev pub Reported : World → Text → CommandSource → LoadResult → Text → Type 0
Reported w root source result path =
    ((c : Command) × (parse w root path source ≡ inr c) × In c result.commands)
    ⊎ ((e : Fault) × (parse w root path source ≡ inl e)
        × In (record { path = path; message = e }) result.diagnostics)

note_parsed-Reported :
    (w : World) (root : Text) (source : CommandSource) (result : LoadResult) (path : Text)
    → Reported w root source (note_parsed result path (parse w root path source)) path
unfolding note_parsed
note_parsed-Reported w root source result path = elim (Sum-cases (parse w root path source)) [
  | inl (e, h) ↦ inr (e, h, rw h (In-snoc _ result.diagnostics))
  | inr (c, h) ↦ inl (c, h, rw h (In-snoc c result.commands))
]

-- What is in a result stays in it.
Grows : LoadResult → LoadResult → Type 0
Grows a b =
    ((c : Command) → In c a.commands → In c b.commands)
    × ((d : CommandDiagnostic) → In d a.diagnostics → In d b.diagnostics)

note_parsed-Grows :
    (result : LoadResult) (path : Text) (o : Fault ⊎ Command)
    → Grows result (note_parsed result path o)
unfolding note_parsed Grows
note_parsed-Grows result path (inl e) = (λ c h. h, λ d h. In-append d result.diagnostics _ h)
note_parsed-Grows result path (inr c) = (λ d h. In-append d result.commands _ h, λ d h. h)

parse_all-Grows :
    (w : World) (root : Text) (source : CommandSource) (result : LoadResult) (paths : List Text)
    → Grows result (parse_all w root source result paths)
unfolding parse_all Grows
parse_all-Grows w root source result [] = (λ c h. h, λ d h. h)
parse_all-Grows w root source result (path ∷ paths) =
    let o = parse w root path source in
    let one = note_parsed-Grows result path o in
    let rest = parse_all-Grows w root source (note_parsed result path o) paths in
    (λ c h. rest.0 c (one.0 c h), λ d h. rest.1 d (one.1 d h))

Grows-Reported :
    (w : World) (root : Text) (source : CommandSource) (a b : LoadResult) (path : Text)
    → Grows a b
    → Reported w root source a path
    → Reported w root source b path
unfolding Grows
Grows-Reported w root source a b path g (inl (c, h, i)) = inl (c, h, g.0 c i)
Grows-Reported w root source a b path g (inr (e, h, i)) = inr (e, h, g.1 _ i)

parse_all-Reported :
    (w : World) (root : Text) (source : CommandSource) (result : LoadResult) (paths : List Text)
    → All (Reported w root source (parse_all w root source result paths)) paths
unfolding parse_all
parse_all-Reported w root source result [] = tt
parse_all-Reported w root source result (path ∷ paths) =
    let after = note_parsed result path (parse w root path source) in
    (
      Grows-Reported w root source after (parse_all w root source after paths) path
          (parse_all-Grows w root source after paths)
          (note_parsed-Reported w root source result path),
      parse_all-Reported w root source after paths,
    )

-- What holds of all texts of a sorted list holds of all texts of the list.
All-insert_text :
    (P : Text → Type 0) (s : Text) (ts : List Text) → All P (insert_text s ts) → P s × All P ts
unfolding insert_text
All-insert_text P s [] a = (a.0, tt)
All-insert_text P s (t ∷ ts) a = elim (Bool-cases (text_le s t)) [
  | inl e ↦ let a' : All P (s ∷ t ∷ ts) = rw e at a in (a'.0, a'.1)
  | inr e ↦
      let a' : All P (t ∷ insert_text s ts) = rw e at a in
      let (here, rest) = All-insert_text P s ts a'.1 in (here, (a'.0, rest))
]

All-sort_strings : (P : Text → Type 0) (ss : List Text) → All P (sort_strings ss) → All P ss
unfolding sort_strings
All-sort_strings P [] a = tt
All-sort_strings P (s ∷ ss) a =
    let (here, rest) = All-insert_text P s (sort_strings ss) a in (here, All-sort_strings P ss rest)

-- What the loop over the paths returns: as many commands and diagnostics as there are paths.
parse_all_lem :
    (w : World) (root : Text) (source : CommandSource) (result : LoadResult) (paths : List Text)
    → AllRead source result.commands
    → AllRead source (parse_all w root source result paths).commands
      × (length (parse_all w root source result paths).commands
            + length (parse_all w root source result paths).diagnostics
          ≡ length result.commands + length result.diagnostics + length paths)
unfolding parse_all
parse_all_lem w root source result [] a = (a, omega arith)
parse_all_lem w root source result (path ∷ paths) a =
    let o = parse w root path source in
    let (read, one) =
      note_parsed_lem source result path o a (λ c e. parse-IsRead w root path source c e) in
    let (all, count) = parse_all_lem w root source (note_parsed result path o) paths read in
    (all, omega arith)

length-insert_text : (s : Text) (ts : List Text) → length (insert_text s ts) ≡ suc (length ts)
unfolding insert_text
length-insert_text s [] = refl
length-insert_text s (t ∷ ts) = elim (Bool-cases (text_le s t)) [
  | inl e ↦ rw e refl
  | inr e ↦ rw (e, length-insert_text s ts) refl
]

length-sort_strings : (ss : List Text) → length (sort_strings ss) ≡ length ss
unfolding sort_strings
length-sort_strings [] = refl
length-sort_strings (s ∷ ss) =
    length-insert_text s (sort_strings ss) ∙ ap suc (length-sort_strings ss)

-- For a directory with a path that is not empty: every command that is loaded from it has a valid name
-- and valid aliases, and is a prompt of the source asked for; of every Markdown file that the walk of the
-- directory meets, the command that it gives is loaded, or the fault that it has is among the
-- diagnostics; and commands and diagnostics are together as many as these files and the errors of the
-- walk.
pub load_dir_lem :
    (w : World) (root : Text) (source : CommandSource)
    → is_empty root ≡ false
    → AllRead source (load_dir w root source).commands
      × All (Reported w root source (load_dir w root source)) (entries_of (w.walk root))
      × (length (load_dir w root source).commands + length (load_dir w root source).diagnostics
          ≡ length (walk_errors (w.walk root)) + length (entries_of (w.walk root)))
unfolding load_dir
load_dir_lem w root source h =
    let start : LoadResult = record { commands = []; diagnostics = walk_errors (w.walk root) } in
    let paths = entries_of (w.walk root) in
    let result = parse_all w root source start (sort_strings paths) in
    let (read, count) = parse_all_lem w root source start (sort_strings paths) tt in
    let reported : All (Reported w root source result) paths =
      All-sort_strings (Reported w root source result) paths
        (parse_all-Reported w root source start (sort_strings paths)) in
    let sorted = length-sort_strings paths in rw h (read, reported, omega arith)
