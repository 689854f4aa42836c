-- ===== src/Editing/Disk.antt =====
-- What internal/infra/tools/file uses of the package os: a disk whose entries stand under their
-- cleaned absolute paths, without symbolic links. What the system may refuse is part of the disk.
use codefolio.Common.{
  ℕ, Text, codes, List, [], ◌∷◌, Bool, true, false, Option, none, some, text_eq, if◌then◌else◌,
  last?, ◌==◌, ◌&&◌,
}
use codefolio.Filepath.{abs_path, parts_of, starts}

-- `mtime` is `ModTime().UnixMilli()`.
pub record Entry : Type 0 where
  pub content : Text
  pub mtime : ℕ
  pub is_dir : Bool

-- The error of a write that fails, and what it leaves in the file where it was opened.
pub record WriteFault : Type 0 where
  pub message : Text
  pub left : Option Text

-- The error of a `MkdirAll` that fails, and which directories it made before.
pub record MkdirFault : Type 0 where
  pub message : Text
  pub made : Text → Bool

-- `cwd` is the result of `os.Getwd`, and `now` the time that a write leaves as `mtime`. The faults
-- are there for the paths, as a call spells them, at which the system refuses an operation.
pub record Disk : Type 0 where
  pub cwd : Option Text
  pub now : ℕ
  pub entry : Text → Option Entry
  pub stat_fault : Text → Option Text
  pub read_fault : Text → Option Text
  pub write_fault : Text → Option WriteFault
  pub mkdir_fault : Text → Option MkdirFault

-- The absolute path, or the path as it is where there is none.
unfoldable pub normalize_path : Disk → Text → Text
normalize_path d p = elim (abs_path d.cwd p) [ none ↦ p | some a ↦ a ]

unfoldable pub entry_at : Disk → Text → Option Entry
entry_at d p = d.entry (normalize_path d p)

pub data Stat : Type 0 where
  missing : Stat
  failed : Text → Stat
  found : Entry → Stat

-- `os.Stat`.
unfoldable pub stat : Disk → Text → Stat
stat d p = elim (entry_at d p) [
  | none ↦ Stat.missing
  | some e ↦ elim (d.stat_fault p) [ some m ↦ Stat.failed m | none ↦ Stat.found e ]
]

pub data ReadFile : Type 0 where
  missing : ReadFile
  failed : Text → ReadFile
  bytes : Text → ReadFile

-- `os.ReadFile`.
unfoldable pub read_file : Disk → Text → ReadFile
read_file d p = elim (entry_at d p) [
  | none ↦ ReadFile.missing
  | some e ↦ elim (d.read_fault p) [
    | some m ↦ ReadFile.failed m
    | none ↦ if e.is_dir then ReadFile.failed (codes "is a directory") else ReadFile.bytes e.content
  ]
]

-- The disk with a file under an absolute path.
unfoldable pub put : Disk → Text → Text → Disk
put d a content = record d {
  entry = λ q.
      if text_eq a q
      then some (record { content = content; mtime = d.now; is_dir = false })
      else d.entry q;
}

abbrev pub is_directory : Option Entry → Bool
is_directory none = false
is_directory (some e) = e.is_dir

-- `os.WriteFile`, with its error.
unfoldable pub write_file : Disk → Text → Text → Disk × Option Text
write_file d p content = elim (d.write_fault p) [
  | some f ↦ elim f.left [
    | none ↦ (d, some f.message)
    | some kept ↦ (put d (normalize_path d p) kept, some f.message)
  ]
  | none ↦
      if is_directory (entry_at d p)
      then (d, some (codes "is a directory"))
      else (put d (normalize_path d p) content, none)
]

abbrev pub init : List Text → List Text
init [] = []
init (x ∷ []) = []
init (x ∷ y ∷ ys) = x ∷ init (y ∷ ys)

-- The elements of `filepath.Dir` of a path, made absolute.
unfoldable pub dir_parts : Disk → Text → List Text
dir_parts d p = elim (last? p) [
  | none ↦ init (parts_of (normalize_path d p))
  | some c ↦
      if c == b'/' then parts_of (normalize_path d p) else init (parts_of (normalize_path d p))
]

-- The missing directories at the elements of a path, as far as a test lets them be made.
unfoldable pub make_dirs : Disk → List Text → (Text → Bool) → Disk
make_dirs d ps made = record d {
  entry = λ q. elim (d.entry q) [
    | some e ↦ some e
    | none ↦
        if starts (parts_of q) ps && made q
        then some (record { content = []; mtime = d.now; is_dir = true })
        else none
  ];
}

-- `os.MkdirAll(filepath.Dir(p))`, with its error. A file in the place of a directory is a fault.
unfoldable pub mkdir_parent : Disk → Text → Disk × Option Text
mkdir_parent d p = elim (d.mkdir_fault p) [
  | some f ↦ (make_dirs d (dir_parts d p) f.made, some f.message)
  | none ↦ (make_dirs d (dir_parts d p) (λ _. true), none)
]
