-- ===== src/Editing/Kept.antt =====
-- Every tool of internal/infra/tools/file, and every change by another program, keeps the cache right.
use codefolio.Common.{
  Text, codes, Bool, true, false, none, some, is_empty, text_eq, ltb, ◌==◌, ◌≡◌, refl, ap, sym,
  List, arith, Bool-cases, Option-cases, inl, inr,
}
use mathlib.Core.Path.{subst}
use codefolio.Domain.Permission.{Args}
use codefolio.Approval.Paths.{string_arg}
use codefolio.Editing.Replace.{count, replace_first}
use codefolio.Editing.Disk.{
  Disk, stat, ReadFile, read_file, write_file, put, entry_at, normalize_path, make_dirs,
  mkdir_parent, dir_parts, is_directory,
}
use codefolio.Editing.Tools.{
  Files, committed, commit, write_made, check_cache, update_cache, edit_content, edit_read,
  edit_execute, write_check, write_checked, write_execute,
}
use codefolio.Editing.Fresh.{IsFresh, IsPast, IsPastDisk, Inv, remembered, update-put}

-- A file and its entry written at the same time.
write_fresh :
    (s : Files) (i : Inv s) (p content : Text)
    → IsFresh (put s.disk (normalize_path s.disk p) content) (remembered s p content i.known)
unfolding put remembered
write_fresh s i p content a seen e h there file old =
    elim (Bool-cases (text_eq (normalize_path s.disk p) a)) [
      | inl same ↦ ground (arith, same, h, there)
      | inr other ↦ i.fresh a seen e (rw other at h) (rw other at there) file old
    ]

write-IsPast :
    (s : Files) (i : Inv s) (p content : Text)
    → IsPast (put s.disk (normalize_path s.disk p) content) (remembered s p content i.known)
unfolding put remembered
write-IsPast s i p content a seen h = elim (Bool-cases (text_eq (normalize_path s.disk p) a)) [
  | inl same ↦ ground (arith, same, h)
  | inr other ↦ i.past a seen (rw other at h)
]

write-IsPastDisk :
    (s : Files) (i : Inv s) (p content : Text)
    → IsPastDisk (put s.disk (normalize_path s.disk p) content)
unfolding put
write-IsPastDisk s i p content a e there = elim (Bool-cases (text_eq (normalize_path s.disk p) a)) [
  | inl same ↦ ground (arith, same, there)
  | inr other ↦ i.past_disk a e (rw other at there)
]

has_updated :
    (s : Files) (i : Inv s) (p content : Text)
    → (update_cache s (put s.disk (normalize_path s.disk p) content) p content).cache
      ≡ some (remembered s p content i.known)
unfolding remembered
has_updated s i p content =
    rw (i.has_cache) (ap some (update-put s i.known p content i.rooted i.quiet))

update_cache-Inv :
    (s : Files) (p content : Text)
    → Inv s
    → Inv (update_cache s (put s.disk (normalize_path s.disk p) content) p content)
update_cache-Inv s p content i = record {
  known = remembered s p content i.known;
  has_cache = has_updated s i p content;
  rooted = unfold put in i.rooted;
  quiet = unfold put in i.quiet;
  fresh = write_fresh s i p content;
  past = write-IsPast s i p content;
  past_disk = write-IsPastDisk s i p content;
}

write_file_dir :
    (d : Disk) (p content : Text)
    → d.write_fault p ≡ none
    → is_directory (entry_at d p) ≡ true
    → write_file d p content ≡ (d, some (codes "is a directory"))
unfolding write_file
write_file_dir d p content q dir = rw (q, dir, write_file) refl

pub write_file-put :
    (d : Disk) (p content : Text)
    → d.write_fault p ≡ none
    → is_directory (entry_at d p) ≡ false
    → write_file d p content ≡ (put d (normalize_path d p) content, none)
unfolding write_file
write_file-put d p content q file = rw (q, file, write_file) refl

commit-Inv : (s : Files) (p content done : Text) → Inv s → Inv (commit s p content done).0
unfolding commit
commit-Inv s p content done i = elim (Bool-cases (is_directory (entry_at s.disk p))) [
  | inl dir ↦
      subst (λ w. Inv (committed s p content done w).0)
        (sym (write_file_dir s.disk p content (i.quiet p).1 dir)) i
  | inr file ↦
      subst (λ w. Inv (committed s p content done w).0)
        (sym (write_file-put s.disk p content (i.quiet p).1 file)) (update_cache-Inv s p content i)
]

edit_content-Inv :
    (s : Files) (p old new content : Text) → Inv s → Inv (edit_content s p old new content).0
unfolding edit_content
edit_content-Inv s p old new content i = elim (Bool-cases (count content old == 0)) [
  | inl zero ↦ rw zero i
  | inr more ↦ elim (Bool-cases (ltb 1 (count content old))) [
    | inl many ↦ rw (more, many) i
    | inr single ↦
        rw (more, single)
          (commit-Inv s p (replace_first content old new) (codes "Successfully edited ") i)
  ]
]

edit_read-Inv :
    (s : Files) (p old new : Text) (r : ReadFile) → Inv s → Inv (edit_read s p old new r).0
unfolding edit_read
edit_read-Inv s p old new ReadFile.missing i = i
edit_read-Inv s p old new (ReadFile.failed m) i = i
edit_read-Inv s p old new (ReadFile.bytes content) i = edit_content-Inv s p old new content i

pub edit_execute-Inv : (s : Files) (args : Args) → Inv s → Inv (edit_execute s args).0
unfolding edit_execute
edit_execute-Inv s args i =
    let p = string_arg args (codes "file_path") in
    elim (Bool-cases (is_empty p)) [
      | inl e ↦ rw e i
      | inr e ↦ elim (Option-cases (check_cache s p)) [
        | inr (m, q) ↦ rw (e, q) i
        | inl q ↦
            rw (e, q)
              (edit_read-Inv s p (string_arg args (codes "old_string"))
                (string_arg args (codes "new_string")) (read_file s.disk p) i)
      ]
    ]

make_dirs-Inv :
    (s : Files) (ps : List Text) (made : Text → Bool)
    → Inv s
    → Inv (record s { disk = make_dirs s.disk ps made })
unfolding make_dirs
make_dirs-Inv s ps made i = record {
  known = i.known;
  has_cache = i.has_cache;
  rooted = i.rooted;
  quiet = i.quiet;
  fresh = λ a seen e h there file old. elim (Option-cases (s.disk.entry a)) [
    | inl none_at ↦ ground (arith, none_at, there, file)
    | inr (f, at) ↦ i.fresh a seen e h (rw at (rw at at there)) file old
  ];
  past = i.past;
  past_disk = λ a e there. elim (Option-cases (s.disk.entry a)) [
    | inl none_at ↦ ground (arith, none_at, there)
    | inr (f, at) ↦ i.past_disk a e (rw at (rw at at there))
  ];
}

write_made-Inv : (s : Files) (p content : Text) → Inv s → Inv (write_checked s p content).0
unfolding write_checked write_made mkdir_parent
write_made-Inv s p content i = elim (Option-cases (s.disk.mkdir_fault p)) [
  | inl fine ↦
      rw (fine, mkdir_parent)
        (commit-Inv (record s { disk = make_dirs s.disk (dir_parts s.disk p) (λ _. true) }) p
          content (codes "Successfully wrote to ")
          (make_dirs-Inv s (dir_parts s.disk p) (λ _. true) i))
  | inr (f, at) ↦ rw (at, mkdir_parent) (make_dirs-Inv s (dir_parts s.disk p) f.made i)
]

pub write_execute-Inv : (s : Files) (args : Args) → Inv s → Inv (write_execute s args).0
unfolding write_execute
write_execute-Inv s args i =
    let p = string_arg args (codes "file_path") in
    elim (Bool-cases (is_empty p)) [
      | inl e ↦ rw e i
      | inr e ↦ elim (Option-cases (write_check s p (stat s.disk p))) [
        | inr (m, q) ↦ rw (e, q) i
        | inl q ↦ rw (e, q) (write_made-Inv s p (string_arg args (codes "content")) i)
      ]
    ]
