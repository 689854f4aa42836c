-- ===== src/Editing/Examples.antt =====
-- Inputs for the theorems on internal/infra/tools/file.
use codefolio.Common.{
  ◌≤◌, ◌-◌, ◌^◌, Text, codes, true, false, none, some, text_eq, ◌≡◌, refl, ◌↔◌, arith, pos,
  if◌then◌else◌, length, map, join_with, [], ◌∷◌, split_on, inl, inr, Bool-cases,
}
use codefolio.Common.{lines_of}
use codefolio.Domain.Permission.{Args, Arg, ToolResult}
use codefolio.Approval.Paths.{string_arg}
use codefolio.Filepath.{path_steps}
use codefolio.Session.Ids.{itoa, itoa_fuel}
use codefolio.Editing.Replace.{count, count_from, replace_first}
use codefolio.Editing.Disk.{
  Disk, Entry, stat, read_file, write_file, entry_at, normalize_path, mkdir_parent, make_dirs,
}
use codefolio.Editing.Cache.{check, check_entry, record_read, new_state_cache}
use codefolio.Editing.Tools.{
  Files, success, committed, commit, edit_content, edit_read, edit_execute, write_execute,
  write_checked, write_made,
}
use codefolio.Editing.Reader.{
  Number, panicked, read_result, int_arg, read_execute, read_stat, read_content, finish_read,
}
use codefolio.Editing.Edits.{Edited, edit_execute_success, edit_execute_failure}
use codefolio.Editing.Runs.{IsStart, Step, Reach, SawFile, edited_was_seen}
use codefolio.Editing.Lines.{
  Readable, OutOfRange, read_execute_panics, read_execute_whole, behind_tab,
}

abbrev path : Text
path = codes "/w/a"

abbrev file : Entry
file = record { content = codes "one\ntwo"; mtime = 5; is_dir = false }

abbrev disk : Disk
disk = record {
  cwd = some (codes "/w");
  now = 9;
  entry = λ q. if text_eq path q then some file else none;
  stat_fault = λ _. none;
  read_fault = λ _. none;
  write_fault = λ _. none;
  mkdir_fault = λ _. none;
}

abbrev files : Files
files = record { disk = disk; cache = some new_state_cache }

abbrev arguments : Text → Text → Args
arguments old new = λ k.
    if text_eq k (codes "file_path")
    then some (Arg.str (codes "a"))
    else if text_eq k (codes "old_string")
    then some (Arg.str old)
    else if text_eq k (codes "new_string")
    then some (Arg.str new)
    else if text_eq k (codes "content")
    then some (Arg.str new)
    else none

abbrev args : Args
args = arguments (codes "two") (codes "2")

-- No numbers: the defaults.
abbrev no_numbers : Text → Number
no_numbers k = Number.absent

-- The second line on, with a limit that the sum of the two wraps around with.
abbrev overlong : Text → Number
overlong k = Number.number (if text_eq k (codes "offset") then pos 1 else pos (2 ^ 63 - 1))

-- The file was read.
abbrev read_files : Files
read_files = record {
  disk = disk;
  cache = some (record_read disk new_state_cache (codes "a") (codes "one\ntwo") 5);
}

abbrev read_output : ToolResult
read_output = success (codes "1\tone\n2\ttwo")

read_step : read_execute files args no_numbers ≡ read_result read_files read_output
unfolding read_execute read_stat read_content finish_read int_arg stat read_file entry_at
    normalize_path path_steps itoa itoa_fuel string_arg split_on
read_step = refl

past_disk : (q : Text) (e : Entry) → disk.entry q ≡ some e → e.mtime ≤ 9
past_disk q e h = elim (Bool-cases (text_eq path q)) [
  | inl same ↦ ground (arith, same, h)
  | inr other ↦ let bad : none ≡ some e = rw other at h in cc
]

start : IsStart files
start = record {
  fresh_cache = refl;
  rooted = refl;
  quiet = λ p. (refl, refl);
  past_disk = past_disk;
}

run : Reach files read_files
run = Reach.next Reach.here (Step.reads args no_numbers read_output read_step)

edit_ok : (edit_execute read_files args).1.is_error ≡ false
unfolding edit_execute edit_read edit_content commit committed check check_entry stat read_file
    write_file entry_at normalize_path path_steps count count_from replace_first string_arg
    record_read
edit_ok = refl

edit_execute_success_example :
    Edited read_files (edit_execute read_files args).0 (codes "a") (codes "two") (codes "2")
unfolding string_arg
edit_execute_success_example = edit_execute_success read_files args edit_ok

-- The same edit of a file that was not read.
edit_unread : (edit_execute files args).1.is_error ≡ true
unfolding edit_execute check string_arg new_state_cache
edit_unread = refl

edit_execute_failure_example : (edit_execute files args).0 ≡ files
edit_execute_failure_example = edit_execute_failure files args refl edit_unread

edited_was_seen_example : SawFile read_files (codes "a")
unfolding string_arg
edited_was_seen_example = edited_was_seen files read_files args start run edit_ok

there : entry_at disk (codes "a") ≡ some file
unfolding entry_at normalize_path path_steps
there = refl

write_ok : (write_execute read_files args).1.is_error ≡ false
unfolding write_execute write_checked write_made commit committed check check_entry stat write_file
    entry_at normalize_path path_steps string_arg record_read mkdir_parent make_dirs
write_ok = refl

readable : Readable files args (codes "one\ntwo")
unfolding stat read_file entry_at normalize_path path_steps string_arg
readable = record { entry = file; named = refl; found = refl; a_file = refl; bytes = refl }

read_execute_panics_example :
    (read_execute files args overlong ≡ panicked)
    ↔ OutOfRange (pos 1) (pos (2 ^ 63 - 1)) (length (lines_of (codes "one\ntwo")))
unfolding int_arg
read_execute_panics_example =
    read_execute_panics files args overlong (codes "one\ntwo") readable (omega arith) (omega arith)

-- The read of the second line panics.
read_panics : read_execute files args overlong ≡ panicked
unfolding int_arg split_on
read_panics = read_execute_panics_example.1 (omega arith, omega arith)

two_lines : length (lines_of (codes "one\ntwo")) ≤ 2000
unfolding split_on
two_lines = omega arith

read_execute_whole_example :
    (s' : Files) × (out : Text) × (read_execute files args no_numbers
      ≡ read_result s' (success out))
    × (join_with (10 ∷ []) (map behind_tab (lines_of out)) ≡ codes "one\ntwo")
unfolding int_arg
read_execute_whole_example =
    read_execute_whole files args no_numbers (codes "one\ntwo") 2000 readable refl refl two_lines
      (omega arith)
