-- ===== src/Editing/Edits.antt =====
-- What an edit of internal/infra/tools/file/edit.go does where it succeeds, and what a tool leaves
-- where it fails.
use codefolio.Common.{
  Text, codes, ◌++◌, true, false, none, some, is_empty, ltb, ◌==◌, ◌≡◌, refl, ◌∙◌, ap, arith,
  Bool-cases, Option-cases, inl, inr,
}
use mathlib.Core.Path.{subst}
use codefolio.Domain.Permission.{Args}
use codefolio.Approval.Paths.{string_arg}
use codefolio.Editing.Replace.{count, replace_first, replace_counted}
use codefolio.Editing.Disk.{
  Disk, Entry, ReadFile, read_file, write_file, put, entry_at, normalize_path,
}
use codefolio.Editing.Tools.{
  Files, check_cache, update_cache, commit, edit_content, edit_read, edit_execute,
}

-- What an edit reads and writes: the file's content before it and after it.
pub record Edited (s s' : Files) (p old new : Text) : Type 0 where
  pub before : Entry
  pub front : Text
  pub back : Text
  pub there : entry_at s.disk p ≡ some before
  pub a_file : before.is_dir ≡ false
  pub contents : before.content ≡ front ++ (old ++ back)
  pub once : count before.content old ≡ 1
  pub checked : check_cache s p ≡ none
  pub outcome :
      s'
      ≡ update_cache s
          (put s.disk (normalize_path s.disk p) (front ++ (new ++ back)))
          p
          (front ++ (new ++ back))

pub commit_success :
    (s : Files) (p content done : Text)
    → (commit s p content done).1.is_error ≡ false
    → (commit s p content done).0
      ≡ update_cache s (put s.disk (normalize_path s.disk p) content) p content
unfolding commit write_file
commit_success s p content done h = ground arith

commit_failure :
    (s : Files) (p content done : Text) (e : Entry)
    → s.disk.write_fault p ≡ none
    → entry_at s.disk p ≡ some e
    → e.is_dir ≡ false
    → (commit s p content done).1.is_error ≡ false
unfolding commit write_file
commit_failure s p content done e w t f = ground arith

pub read_file_bytes :
    (d : Disk) (p content : Text)
    → read_file d p ≡ ReadFile.bytes content
    → (e : Entry) × (entry_at d p ≡ some e) × (e.is_dir ≡ false) × (e.content ≡ content)
unfolding read_file
read_file_bytes d p content h = elim (Option-cases (entry_at d p)) [
  | inl n ↦ cc (n, h)
  | inr (e, q) ↦ (e, q, ground arith, ground arith)
]

edit_content_success :
    (s : Files) (p old new : Text) (e : Entry)
    → entry_at s.disk p ≡ some e
    → e.is_dir ≡ false
    → check_cache s p ≡ none
    → (edit_content s p old new e.content).1.is_error ≡ false
    → Edited s (edit_content s p old new e.content).0 p old new
unfolding edit_content
edit_content_success s p old new e there file checked h =
    elim (Bool-cases (count e.content old == 0)) [
      | inl zero ↦ let bad : true ≡ false = rw zero at h in cc
      | inr some_match ↦ elim (Bool-cases (ltb 1 (count e.content old))) [
        | inl more ↦ let bad : true ≡ false = rw (some_match, more) at h in cc
        | inr single ↦
            let (front, back, q, r) =
              replace_counted e.content old new (ground (arith, some_match)) in
            let done : (commit s p (replace_first e.content old new)
                  (codes "Successfully edited ")).1.is_error
                ≡ false =
              rw (some_match, single) at h in
            rw (some_match, single)
              (record {
                before = e;
                front = front;
                back = back;
                there = there;
                a_file = file;
                contents = q;
                once = ground (arith, some_match, single);
                checked = checked;
                outcome =
                    commit_success s p (replace_first e.content old new)
                      (codes "Successfully edited ") done
                    ∙ ap (λ t. update_cache s (put s.disk (normalize_path s.disk p) t) p t) r;
              })
      ]
    ]

edit_read_success :
    (s : Files) (p old new : Text) (r : ReadFile)
    → read_file s.disk p ≡ r
    → check_cache s p ≡ none
    → (edit_read s p old new r).1.is_error ≡ false
    → Edited s (edit_read s p old new r).0 p old new
unfolding edit_read
edit_read_success s p old new ReadFile.missing read checked h = cc
edit_read_success s p old new (ReadFile.failed m) read checked h = cc
edit_read_success s p old new (ReadFile.bytes content) read checked h =
    let (e, there, file, same) = read_file_bytes s.disk p content read in
    subst (λ t. Edited s (edit_content s p old new t).0 p old new) same
      (edit_content_success s p old new e there file checked (rw (← same) at h))

-- An edit without an error replaced the one place where the old text is counted in the file: the file
-- was there, the cache had let the edit through, and the disk changed at this file alone, from
-- `front`, the old text and `back` to `front`, the new text and `back`.
pub edit_execute_success :
    (s : Files) (args : Args)
    → (edit_execute s args).1.is_error ≡ false
    → Edited s
        (edit_execute s args).0
        (string_arg args (codes "file_path"))
        (string_arg args (codes "old_string"))
        (string_arg args (codes "new_string"))
unfolding edit_execute
edit_execute_success s args h =
    let p = string_arg args (codes "file_path") in
    let old = string_arg args (codes "old_string") in
    let new = string_arg args (codes "new_string") in
    elim (Bool-cases (is_empty p)) [
      | inl e ↦ let bad : true ≡ false = rw e at h in cc
      | inr e ↦ elim (Option-cases (check_cache s p)) [
        | inr (m, q) ↦ let bad : true ≡ false = rw (e, q) at h in cc
        | inl q ↦
            rw (e, q) (edit_read_success s p old new (read_file s.disk p) refl q (rw (e, q) at h))
      ]
    ]

edit_content_failure :
    (s : Files) (p old new : Text) (e : Entry)
    → s.disk.write_fault p ≡ none
    → entry_at s.disk p ≡ some e
    → e.is_dir ≡ false
    → (edit_content s p old new e.content).1.is_error ≡ true
    → (edit_content s p old new e.content).0 ≡ s
unfolding edit_content
edit_content_failure s p old new e w there file h =
    ground
      (arith, commit_failure s p (replace_first e.content old new) (codes "Successfully edited ") e)

edit_read_failure :
    (s : Files) (p old new : Text) (r : ReadFile)
    → s.disk.write_fault p ≡ none
    → read_file s.disk p ≡ r
    → (edit_read s p old new r).1.is_error ≡ true
    → (edit_read s p old new r).0 ≡ s
unfolding edit_read
edit_read_failure s p old new ReadFile.missing w read h = refl
edit_read_failure s p old new (ReadFile.failed m) w read h = refl
edit_read_failure s p old new (ReadFile.bytes content) w read h =
    let (e, there, file, same) = read_file_bytes s.disk p content read in
    subst (λ t. (edit_content s p old new t).0 ≡ s) same
      (edit_content_failure s p old new e w there file (rw (← same) at h))

-- An edit that reports an error leaves the disk and the cache as they were, unless the system refused
-- the write itself.
pub edit_execute_failure :
    (s : Files) (args : Args)
    → s.disk.write_fault (string_arg args (codes "file_path")) ≡ none
    → (edit_execute s args).1.is_error ≡ true
    → (edit_execute s args).0 ≡ s
unfolding edit_execute
edit_execute_failure s args w h =
    let p = string_arg args (codes "file_path") in
    let old = string_arg args (codes "old_string") in
    let new = string_arg args (codes "new_string") in
    elim (Bool-cases (is_empty p)) [
      | inl e ↦ rw e
      | inr e ↦ elim (Option-cases (check_cache s p)) [
        | inr (m, q) ↦ rw (e, q)
        | inl q ↦
            rw (e, q) (edit_read_failure s p old new (read_file s.disk p) w refl (rw (e, q) at h))
      ]
    ]
