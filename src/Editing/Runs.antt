-- ===== src/Editing/Runs.antt =====
-- The tools of internal/infra/tools/file and other programs, in any order: what a tool overwrites is
-- what the tools saw last.
use codefolio.Common.{
  ℕ, Text, codes, ◌≤◌, ◌<◌, true, false, Option, none, some, is_empty, text_eq, ◌≡◌, refl, arith,
  Bool-cases, Option-cases, inl, inr, if◌then◌else◌,
}
use mathlib.Core.Path.{subst}
use codefolio.Domain.Permission.{Args, ToolResult}
use codefolio.Approval.Paths.{string_arg}
use codefolio.Filepath.{Rooted}
use codefolio.Editing.Disk.{Disk, Entry, Stat, stat, entry_at, normalize_path}
use codefolio.Editing.Cache.{StateCache, StateEntry, new_state_cache}
use codefolio.Editing.Tools.{Files, check_cache, edit_execute, write_check, write_execute}
use codefolio.Editing.Reader.{Number, read_result, read_execute}
use codefolio.Editing.Edits.{edit_execute_success}
use codefolio.Editing.Fresh.{IsPastDisk, IsQuiet, Inv, check_fresh}
use codefolio.Editing.Kept.{edit_execute-Inv, write_execute-Inv}
use codefolio.Editing.Seen.{Leaves, read_execute-Inv}

-- Another program leaves something else under a path, at a later time.
abbrev pub changed : Files → Text → Option Entry → ℕ → Files
changed s a o t = record s {
  disk = record s.disk { now = t; entry = λ q. if text_eq a q then o else s.disk.entry q };
}

-- A tool runs, or another program writes or removes a file. A write of another program comes at a
-- later millisecond than the last thing that happened.
pub data Step : Files → Files → Type 0 where
  reads :
      {s s' : Files} (args : Args) (numbers : Text → Number) (r : ToolResult)
      → read_execute s args numbers ≡ read_result s' r
      → Step s s'
  edits : (s : Files) (args : Args) → Step s (edit_execute s args).0
  writes : (s : Files) (args : Args) → Step s (write_execute s args).0
  overwritten :
      (s : Files) (a : Text) (e : Entry) (t : ℕ)
      → s.disk.now < t
      → e.mtime ≡ t
      → Step s (changed s a (some e) t)
  removed : (s : Files) (a : Text) (t : ℕ) → s.disk.now ≤ t → Step s (changed s a none t)

pub data Reach (s : Files) : Files → Type 0 where
  here : Reach s s
  next : {t u : Files} → Reach s t → Step t u → Reach s u

-- The tools as they are made, on a disk that refuses nothing.
pub record IsStart (s : Files) : Type 0 where
  pub fresh_cache : s.cache ≡ some new_state_cache
  pub rooted : Rooted s.disk.cwd
  pub quiet : IsQuiet s.disk
  pub past_disk : IsPastDisk s.disk

start-Inv : (s : Files) → IsStart s → Inv s
unfolding new_state_cache
start-Inv s h = record {
  known = new_state_cache;
  has_cache = h.fresh_cache;
  rooted = h.rooted;
  quiet = h.quiet;
  fresh = λ a seen e at there file old. cc (at);
  past = λ a seen at. cc (at);
  past_disk = h.past_disk;
}

overwritten-Inv :
    (s : Files) (a : Text) (e : Entry) (t : ℕ)
    → s.disk.now < t
    → e.mtime ≡ t
    → Inv s
    → Inv (changed s a (some e) t)
overwritten-Inv s a e t later at_t i = record {
  known = i.known;
  has_cache = i.has_cache;
  rooted = i.rooted;
  quiet = i.quiet;
  fresh = λ q seen f h there file old. elim (Bool-cases (text_eq a q)) [
    | inl same ↦
        let one : some e ≡ some f = rw same at there in
        let time : e.mtime ≡ f.mtime = ground (arith, one) in
        absurd (omega (arith, i.past q seen h, time, old))
    | inr other ↦ i.fresh q seen f h (rw other at there) file old
  ];
  past = λ q seen h. omega (arith, i.past q seen h);
  past_disk = λ q f there. elim (Bool-cases (text_eq a q)) [
    | inl same ↦
        let one : some e ≡ some f = rw same at there in
        let time : e.mtime ≡ f.mtime = ground (arith, one) in omega (arith, time)
    | inr other ↦ omega (arith, i.past_disk q f (rw other at there))
  ];
}

removed-Inv : (s : Files) (a : Text) (t : ℕ) → s.disk.now ≤ t → Inv s → Inv (changed s a none t)
removed-Inv s a t later i = record {
  known = i.known;
  has_cache = i.has_cache;
  rooted = i.rooted;
  quiet = i.quiet;
  fresh = λ q seen f h there file old. elim (Bool-cases (text_eq a q)) [
    | inl same ↦ let one : none ≡ some f = rw same at there in cc
    | inr other ↦ i.fresh q seen f h (rw other at there) file old
  ];
  past = λ q seen h. omega (arith, i.past q seen h);
  past_disk = λ q f there. elim (Bool-cases (text_eq a q)) [
    | inl same ↦ let one : none ≡ some f = rw same at there in cc
    | inr other ↦ omega (arith, i.past_disk q f (rw other at there))
  ];
}

Step-Inv : {s t : Files} → Step s t → Inv s → Inv t
Step-Inv (reads {s} {s'} args numbers r h) i =
    subst (Leaves Inv) h (read_execute-Inv s args numbers i)
Step-Inv (edits s args) i = edit_execute-Inv s args i
Step-Inv (writes s args) i = write_execute-Inv s args i
Step-Inv (overwritten s a e t later at_t) i = overwritten-Inv s a e t later at_t i
Step-Inv (removed s a t later) i = removed-Inv s a t later i

Reach-Inv : {s t : Files} → Inv s → Reach s t → Inv t
Reach-Inv i here = i
Reach-Inv i (next r st) = Step-Inv st (Reach-Inv i r)

-- The file at a path, and what the cache has under it.
pub record SawFile (s : Files) (p : Text) : Type 0 where
  pub before : Entry
  pub known : StateCache
  pub seen : StateEntry
  pub there : entry_at s.disk p ≡ some before
  pub cached : s.cache ≡ some known
  pub under_path : known.entries (normalize_path s.disk p) ≡ some seen
  pub same : before.content ≡ seen.content

-- After any sequence of reads, edits and writes by the tools, and of writes and removals by other
-- programs that come at later milliseconds, on a disk that refuses no stat and no write: where an edit
-- has no error, the file that it changed had the content that the cache has under its path, which a
-- tool read or wrote there last.
pub edited_was_seen :
    (s t : Files) (args : Args)
    → IsStart s
    → Reach s t
    → (edit_execute t args).1.is_error ≡ false
    → SawFile t (string_arg args (codes "file_path"))
edited_was_seen s t args start run ok =
    let i = Reach-Inv (start-Inv s start) run in
    let edit = edit_execute_success t args ok in
    let p = string_arg args (codes "file_path") in
    let (seen, at, same) = check_fresh t i p edit.before edit.checked edit.there edit.a_file in
    record {
      before = edit.before;
      known = i.known;
      seen = seen;
      there = edit.there;
      cached = i.has_cache;
      under_path = at;
      same = same;
    }

stat_quiet :
    (d : Disk) (p : Text) (e : Entry) → IsQuiet d → entry_at d p ≡ some e → stat d p ≡ Stat.found e
unfolding stat
stat_quiet d p e q h = rw (h, (q p).0, stat) refl

write_was_checked :
    (s : Files) (args : Args)
    → (write_execute s args).1.is_error ≡ false
    → write_check s
        (string_arg args (codes "file_path"))
        (stat s.disk (string_arg args (codes "file_path")))
      ≡ none
unfolding write_execute
write_was_checked s args ok =
    let p = string_arg args (codes "file_path") in
    elim (Option-cases (write_check s p (stat s.disk p))) [
      | inl h ↦ h
      | inr (m, h) ↦ elim (Bool-cases (is_empty p)) [
        | inl e ↦ let bad : true ≡ false = rw e at ok in cc
        | inr e ↦ let bad : true ≡ false = rw (e, h) at ok in cc
      ]
    ]

-- After such a sequence, where a write to a file that is there has no error, the file had the content
-- that the cache has under its path.
pub overwritten_was_seen :
    (s t : Files) (args : Args) (e : Entry)
    → IsStart s
    → Reach s t
    → entry_at t.disk (string_arg args (codes "file_path")) ≡ some e
    → e.is_dir ≡ false
    → (write_execute t args).1.is_error ≡ false
    → SawFile t (string_arg args (codes "file_path"))
overwritten_was_seen s t args e start run there file ok =
    let i = Reach-Inv (start-Inv s start) run in
    let p = string_arg args (codes "file_path") in
    let asked : check_cache t p ≡ none =
      subst (λ x. write_check t p x ≡ none) (stat_quiet t.disk p e i.quiet there)
        (write_was_checked t args ok) in
    let (seen, at, same) = check_fresh t i p e asked there file in
    record {
      before = e;
      known = i.known;
      seen = seen;
      there = there;
      cached = i.has_cache;
      under_path = at;
      same = same;
    }
