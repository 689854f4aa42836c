-- ===== src/Editing/Seen.antt =====
-- Runs of the tools of internal/infra/tools/file beside other programs: what a tool overwrites is what
-- the tools saw last.
use codefolio.Common.{
  Text, codes, some, is_empty, text_eq, ◌≡◌, refl, ap, ◌∙◌, arith, ◌==◌, split_on, text_eq_sound,
  Bool-cases, Option-cases, inl, inr, ℤ, pos,
}
use mathlib.Core.Path.{subst}
use codefolio.Domain.Permission.{Args}
use codefolio.Approval.Paths.{string_arg}
use codefolio.Editing.Disk.{Disk, Entry, Stat, stat, ReadFile, read_file, entry_at, normalize_path}
use codefolio.Editing.Cache.{record_read}
use codefolio.Editing.Tools.{Files}
use codefolio.Editing.Reader.{
  Number, ReadOutcome, panicked, read_result, Selection, finish_read, read_content, read_stat,
  read_execute, record_cache, select_lines, int_arg,
}
use codefolio.Editing.Edits.{read_file_bytes}
use codefolio.Editing.Fresh.{IsFresh, IsPast, Inv}

-- What holds of the state that a read leaves, if it does not panic.
abbrev pub Leaves : (Files → Type 0) → ReadOutcome → Type 0
Leaves P panicked = Unit
Leaves P (read_result s r) = P s

read_fresh :
    (s : Files) (i : Inv s) (p : Text) (e : Entry)
    → entry_at s.disk p ≡ some e
    → IsFresh s.disk (record_read s.disk i.known p e.content e.mtime)
unfolding record_read entry_at
read_fresh s i p e at a seen f h there file old =
    elim (Bool-cases (text_eq (normalize_path s.disk p) a)) [
      | inl same ↦
          let key = text_eq_sound (normalize_path s.disk p) a same in
          let one : s.disk.entry a ≡ some e = subst (λ k. s.disk.entry k ≡ some e) key at in
          ground (arith, same, h, one, there)
      | inr other ↦ i.fresh a seen f (rw other at h) there file old
    ]

read-IsPast :
    (s : Files) (i : Inv s) (p : Text) (e : Entry)
    → entry_at s.disk p ≡ some e
    → IsPast s.disk (record_read s.disk i.known p e.content e.mtime)
unfolding record_read entry_at
read-IsPast s i p e at a seen h = elim (Bool-cases (text_eq (normalize_path s.disk p) a)) [
  | inl same ↦ ground (arith, same, h, i.past_disk (normalize_path s.disk p) e at)
  | inr other ↦ i.past a seen (rw other at h)
]

record_cache-Inv :
    (s : Files) (p : Text) (e : Entry)
    → entry_at s.disk p ≡ some e
    → Inv s
    → Inv (record_cache s p e.content e.mtime)
record_cache-Inv s p e at i = record {
  known = record_read s.disk i.known p e.content e.mtime;
  has_cache = simp (i.has_cache);
  rooted = i.rooted;
  quiet = i.quiet;
  fresh = read_fresh s i p e at;
  past = read-IsPast s i p e at;
  past_disk = i.past_disk;
}

finish_read-Inv :
    (s : Files) (p : Text) (e : Entry) (sel : Selection)
    → entry_at s.disk p ≡ some e
    → Inv s
    → Leaves Inv (finish_read s p e.content e.mtime sel)
unfolding finish_read
finish_read-Inv s p e Selection.panics at i = tt
finish_read-Inv s p e Selection.past_end at i = i
finish_read-Inv s p e (Selection.selected o lines) at i = record_cache-Inv s p e at i

read_content-Inv :
    (s : Files) (p : Text) (offset limit : ℤ) (e : Entry) (r : ReadFile)
    → entry_at s.disk p ≡ some e
    → read_file s.disk p ≡ r
    → Inv s
    → Leaves Inv (read_content s p offset limit e.mtime r)
unfolding read_content
read_content-Inv s p offset limit e ReadFile.missing at read i = i
read_content-Inv s p offset limit e (ReadFile.failed m) at read i = i
read_content-Inv s p offset limit e (ReadFile.bytes content) at read i =
    let (f, there, file, same) = read_file_bytes s.disk p content read in
    let one : e ≡ f = ground (arith, at, there) in
    let contents : e.content ≡ content = ap (λ (x : Entry). x.content) one ∙ same in
    subst
      (λ t.
        Leaves Inv
          (finish_read s p t e.mtime (select_lines offset limit (split_on (λ c. c == 10) t))))
      contents
      (finish_read-Inv s p e (select_lines offset limit (split_on (λ c. c == 10) e.content)) at i)

stat_found : (d : Disk) (p : Text) (e : Entry) → stat d p ≡ Stat.found e → entry_at d p ≡ some e
unfolding stat
stat_found d p e h = elim (Option-cases (entry_at d p)) [
  | inl n ↦ cc (n, h)
  | inr (f, q) ↦ ground (arith, q, h)
]

read_stat-Inv :
    (s : Files) (p : Text) (offset limit : ℤ) (t : Stat)
    → stat s.disk p ≡ t
    → Inv s
    → Leaves Inv (read_stat s p offset limit t)
unfolding read_stat
read_stat-Inv s p offset limit Stat.missing h i = i
read_stat-Inv s p offset limit (Stat.failed m) h i = i
read_stat-Inv s p offset limit (Stat.found e) h i = elim (Bool-cases (e.is_dir)) [
  | inl dir ↦ rw dir i
  | inr file ↦
      rw file
        (read_content-Inv s p offset limit e (read_file s.disk p) (stat_found s.disk p e h) refl i)
]

pub read_execute-Inv :
    (s : Files) (args : Args) (numbers : Text → Number)
    → Inv s
    → Leaves Inv (read_execute s args numbers)
unfolding read_execute
read_execute-Inv s args numbers i =
    let p = string_arg args (codes "file_path") in
    elim (Bool-cases (is_empty p)) [
      | inl e ↦ rw e i
      | inr e ↦ rw e (
          read_stat-Inv s p (int_arg numbers (codes "offset") (pos 0))
            (int_arg numbers (codes "limit") (pos 2000)) (stat s.disk p) refl i)
    ]
