-- ===== src/Editing/Fresh.antt =====
-- The cache of internal/infra/tools/file/statecache.go over a run of the tools, while other programs
-- change files: a file that a tool changes is one whose content was seen.
use codefolio.Common.{
  Text, ◌≤◌, false, none, some, text_eq_refl, ◌≡◌, refl, ◌∙◌, ap, sym, arith, Option-cases, inl,
  inr,
}
use codefolio.Filepath.{Rooted, abs_path, abs_path_twice}
use codefolio.Editing.Disk.{Disk, Entry, Stat, stat, put, entry_at, normalize_path}
use codefolio.Editing.Cache.{
  StateCache, StateEntry, check, check_entry, update, update_entry, not_read, remember_entry,
}
use codefolio.Editing.Tools.{Files, check_cache}

-- A cached entry that is as new as its file has the file's content.
abbrev pub IsFresh : Disk → StateCache → Type 0
IsFresh d c =
    (a : Text) (seen : StateEntry) (e : Entry)
    → c.entries a ≡ some seen
    → d.entry a ≡ some e
    → e.is_dir ≡ false
    → e.mtime ≤ seen.mtime
    → e.content ≡ seen.content

-- The times in the cache have passed.
abbrev pub IsPast : Disk → StateCache → Type 0
IsPast d c = (a : Text) (seen : StateEntry) → c.entries a ≡ some seen → seen.mtime ≤ d.now

abbrev pub IsPastDisk : Disk → Type 0
IsPastDisk d = (a : Text) (e : Entry) → d.entry a ≡ some e → e.mtime ≤ d.now

-- The system refuses no `Stat` and no write.
abbrev pub IsQuiet : Disk → Type 0
IsQuiet d = (p : Text) → (d.stat_fault p ≡ none) × (d.write_fault p ≡ none)

pub record Inv (s : Files) : Type 0 where
  pub known : StateCache
  pub has_cache : s.cache ≡ some known
  pub rooted : Rooted s.disk.cwd
  pub quiet : IsQuiet s.disk
  pub fresh : IsFresh s.disk known
  pub past : IsPast s.disk known
  pub past_disk : IsPastDisk s.disk

normalize_some : (d : Disk) (p a : Text) → abs_path d.cwd p ≡ some a → normalize_path d p ≡ a
unfolding normalize_path
normalize_some d p a h = rw (h, normalize_path)

normalize_none : (d : Disk) (p : Text) → abs_path d.cwd p ≡ none → normalize_path d p ≡ p
unfolding normalize_path
normalize_none d p h = rw (h, normalize_path)

-- The key of the cache for a path is its own key.
pub normalize_twice :
    (d : Disk) (p : Text)
    → Rooted d.cwd
    → normalize_path d (normalize_path d p) ≡ normalize_path d p
normalize_twice d p r = elim (abs_path_twice d.cwd p r) [
  | inl h ↦ ap (normalize_path d) (normalize_none d p h)
  | inr (a, at, again) ↦
      ap (normalize_path d) (normalize_some d p a at)
      ∙ (normalize_some d a a again ∙ sym (normalize_some d p a at))
]

stat_key :
    (d : Disk) (p : Text) (e : Entry)
    → Rooted d.cwd
    → IsQuiet d
    → entry_at d p ≡ some e
    → stat d (normalize_path d p) ≡ Stat.found e
unfolding stat entry_at
stat_key d p e r q h =
    rw (normalize_twice d p r, h, (q (normalize_path d p)).0, stat, entry_at) refl

-- A file that the cache lets a tool change is there with the content that the cache has.
pub check_fresh :
    (s : Files) (i : Inv s) (p : Text) (e : Entry)
    → check_cache s p ≡ none
    → entry_at s.disk p ≡ some e
    → e.is_dir ≡ false
    → (seen : StateEntry) × (i.known.entries (normalize_path s.disk p) ≡ some seen)
      × (e.content ≡ seen.content)
unfolding check check_entry
check_fresh s i p e checked there file =
    let asked : check s.disk i.known p ≡ none = rw (i.has_cache) at checked in
    elim (Option-cases (i.known.entries (normalize_path s.disk p))) [
      | inl h ↦ let bad : some not_read ≡ none = rw (h, check) at asked in cc
      | inr (seen, h) ↦
          let old : check_entry seen (stat s.disk (normalize_path s.disk p)) ≡ none =
            rw (h, check) at asked in
          let old' : check_entry seen (Stat.found e) ≡ none =
            rw (stat_key s.disk p e i.rooted i.quiet there) at old in
          (
            seen,
            h,
            i.fresh (normalize_path s.disk p) seen e h (unfold entry_at in there) file
                (ground (arith, old')),
          )
    ]

unfoldable pub remembered : Files → Text → Text → StateCache → StateCache
remembered s p content c =
    remember_entry c (normalize_path s.disk p) (record { content = content; mtime = s.disk.now })

put_entry :
    (d : Disk) (p content : Text)
    → Rooted d.cwd
    → entry_at (put d (normalize_path d p) content) p
      ≡ some (record { content = content; mtime = d.now; is_dir = false })
unfolding entry_at put normalize_path
put_entry d p content r = rw (text_eq_refl (normalize_path d p))

pub update-put :
    (s : Files) (c : StateCache) (p content : Text)
    → Rooted s.disk.cwd
    → IsQuiet s.disk
    → update (put s.disk (normalize_path s.disk p) content) c p content ≡ remembered s p content c
unfolding update update_entry remembered put normalize_path
update-put s c p content r q =
    let d = put s.disk (normalize_path s.disk p) content in
    let e : Entry = record { content = content; mtime = s.disk.now; is_dir = false } in
    let stated : stat d (normalize_path d p) ≡ Stat.found e =
      stat_key d p e r q (put_entry s.disk p content r) in
    ap (update_entry c (normalize_path d p) content) stated
