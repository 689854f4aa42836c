-- ===== src/Editing/Reader.antt =====
-- `Execute` of internal/infra/tools/file/read.go, with `IntArg` of internal/infra/tools/shared/shared.go.
use codefolio.Common.{
  ℕ, ◌+◌, ◌-◌, ◌^◌, ◌%◌, ◌&&◌, Option, ltb, Bool, true, false, Text, codes, List, [], ◌∷◌, ◌++◌,
  none, some, is_empty, leb, length, take, drop, split_on, ◌==◌, if◌then◌else◌, ℤ, pos, negsuc,
}
use codefolio.Domain.Permission.{Args, ToolResult}
use codefolio.Approval.Paths.{string_arg}
use codefolio.Session.Ids.{itoa}
use codefolio.Editing.Disk.{Stat, stat, ReadFile, read_file}
use codefolio.Editing.Cache.{record_read}
use codefolio.Editing.Tools.{Files, failure, success}

-- The arguments that are numbers, converted to `int`. `absent` is a key that is not there, `other` a
-- value of another type.
pub data Number : Type 0 where
  absent other : Number
  number : ℤ → Number

unfoldable pub int_arg : (Text → Number) → Text → ℤ → ℤ
int_arg numbers key d = elim (numbers key) [
  | Number.absent ↦ d
  | Number.other ↦ d
  | Number.number n ↦ n
]

-- The lines from an offset on, at most as many as a limit; `panics` where the bounds of the slice
-- expression `lines[offset:end]` are out of range, `past_end` where the code returns before it.
pub data Selection : Type 0 where
  past_end panics : Selection
  selected : ℕ → List Text → Selection

-- The word of 64 bits of an `int`, and back.
abbrev pub word : ℤ → ℕ
word (pos n) = n % 2 ^ 64
word (negsuc n) = 2 ^ 64 - 1 - n % 2 ^ 64

abbrev pub int_of_word : ℕ → ℤ
int_of_word w = if ltb w (2 ^ 63) then pos w else negsuc (2 ^ 64 - 1 - w)

-- `+` on `int`, which wraps around.
unfoldable pub int_add : ℤ → ℤ → ℤ
int_add a b = int_of_word ((word a + word b) % 2 ^ 64)

-- `<=` on `int`, and `min`.
unfoldable pub int_leb : ℤ → ℤ → Bool
int_leb (pos a) (pos b) = leb a b
int_leb (pos a) (negsuc b) = false
int_leb (negsuc a) (pos b) = true
int_leb (negsuc a) (negsuc b) = leb b a

unfoldable pub int_min : ℤ → ℤ → ℤ
unfolding int_leb
int_min a b = if int_leb a b then a else b

-- The slice expression `lines[low:high]`: `none` where it panics.
unfoldable pub slice : List Text → ℤ → ℤ → Option (List Text)
slice lines (negsuc low) high = none
slice lines (pos low) (negsuc high) = none
slice lines (pos low) (pos high) =
    if leb low high && leb high (length lines)
    then some (take (high - low) (drop low lines))
    else none

-- The number that a line is shown under is counted from the offset, which is no negative number where
-- the slice is taken.
abbrev natural : ℤ → ℕ
natural (pos n) = n
natural (negsuc n) = 0

unfoldable pub select_lines : ℤ → ℤ → List Text → Selection
unfolding int_add int_leb int_min slice
select_lines offset limit lines =
    let end_ = int_min (int_add offset limit) (pos (length lines)) in
    if int_leb (pos (length lines)) offset
    then Selection.past_end
    else elim (slice lines offset end_) [
      | none ↦ Selection.panics
      | some chosen ↦ Selection.selected (natural offset) chosen
    ]

-- A line under its number.
unfoldable pub numbered_line : ℕ → Text → Text
numbered_line n line = itoa n ++ 9 ∷ line

-- The lines under their numbers, the first of them under a given one.
unfoldable pub render_lines : ℕ → List Text → Text
unfolding numbered_line
render_lines n [] = []
render_lines n (line ∷ []) = numbered_line n line
render_lines n (line ∷ next ∷ lines) =
    numbered_line n line ++ 10 ∷ render_lines (n + 1) (next ∷ lines)

pub data ReadOutcome : Type 0 where
  panicked : ReadOutcome
  read_result : Files → ToolResult → ReadOutcome

abbrev pub record_cache : Files → Text → Text → ℕ → Files
record_cache s p content mtime = record s {
  cache = elim s.cache [ none ↦ none | some c ↦ some (record_read s.disk c p content mtime) ];
}

unfoldable pub finish_read : Files → Text → Text → ℕ → Selection → ReadOutcome
unfolding render_lines
finish_read s p content mtime Selection.panics = panicked
finish_read s p content mtime Selection.past_end = read_result s (success [])
finish_read s p content mtime (Selection.selected o lines) =
    read_result (record_cache s p content mtime) (success (render_lines (o + 1) lines))

unfoldable pub read_content : Files → Text → ℤ → ℤ → ℕ → ReadFile → ReadOutcome
unfolding finish_read select_lines split_on
read_content s p offset limit mtime ReadFile.missing =
    read_result s (failure (codes "Error reading file: " ++ codes "file does not exist"))
read_content s p offset limit mtime (ReadFile.failed m) =
    read_result s (failure (codes "Error reading file: " ++ m))
read_content s p offset limit mtime (ReadFile.bytes content) =
    finish_read s p content mtime (select_lines offset limit (split_on (λ c. c == 10) content))

unfoldable pub read_stat : Files → Text → ℤ → ℤ → Stat → ReadOutcome
unfolding read_content
read_stat s p offset limit Stat.missing =
    read_result s (failure (codes "Error: file not found: " ++ p))
read_stat s p offset limit (Stat.failed m) = read_result s (failure (codes "Error: " ++ m))
read_stat s p offset limit (Stat.found e) =
    if e.is_dir
    then read_result s (failure (codes "Error: not a file: " ++ p))
    else read_content s p offset limit e.mtime (read_file s.disk p)

-- `Reader.Execute`.
unfoldable pub read_execute : Files → Args → (Text → Number) → ReadOutcome
unfolding read_stat int_arg
read_execute s args numbers =
    let p = string_arg args (codes "file_path") in
    if is_empty p
    then read_result s (failure (codes "Error: file_path is required"))
    else read_stat s p (int_arg numbers (codes "offset") (pos 0))
        (int_arg numbers (codes "limit") (pos 2000)) (stat s.disk p)
