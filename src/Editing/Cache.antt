-- ===== src/Editing/Cache.antt =====
-- internal/infra/tools/file/statecache.go: what was read of a file, and when it was changed last.
use codefolio.Common.{ℕ, Text, codes, Option, none, some, text_eq, ltb, if◌then◌else◌}
use codefolio.Editing.Disk.{Disk, Stat, stat, normalize_path}

pub record StateEntry : Type 0 where
  pub content : Text
  pub mtime : ℕ

-- The map by its lookup.
pub record StateCache : Type 0 where
  pub entries : Text → Option StateEntry

unfoldable pub new_state_cache : StateCache
new_state_cache = record { entries = λ _. none }

abbrev pub remember_entry : StateCache → Text → StateEntry → StateCache
remember_entry c a e = record { entries = λ q. if text_eq a q then some e else c.entries q }

-- `StateCache.Record`.
unfoldable pub record_read : Disk → StateCache → Text → Text → ℕ → StateCache
record_read d c p content mtime =
    remember_entry c (normalize_path d p) (record { content = content; mtime = mtime })

abbrev pub not_read : Text
not_read = codes "Error: file has not been read yet. Read it first before editing."

abbrev pub modified_since : Text
modified_since =
    codes "Error: file has been modified since last read. Read it again before editing."

-- Whether the file is as old as the entry says; a file that cannot be looked at counts as such.
unfoldable pub check_entry : StateEntry → Stat → Option Text
check_entry e Stat.missing = none
check_entry e (Stat.failed m) = none
check_entry e (Stat.found f) = if ltb e.mtime f.mtime then some modified_since else none

-- `StateCache.Check`: `none` where it lets the change through, or its message.
unfoldable pub check : Disk → StateCache → Text → Option Text
unfolding check_entry
check d c p = elim (c.entries (normalize_path d p)) [
  | none ↦ some not_read
  | some e ↦ check_entry e (stat d (normalize_path d p))
]

unfoldable pub update_entry : StateCache → Text → Text → Stat → StateCache
update_entry c a content Stat.missing = c
update_entry c a content (Stat.failed m) = c
update_entry c a content (Stat.found f) =
    remember_entry c a (record { content = content; mtime = f.mtime })

-- `StateCache.Update`.
unfoldable pub update : Disk → StateCache → Text → Text → StateCache
unfolding update_entry
update d c p content = update_entry c (normalize_path d p) content (stat d (normalize_path d p))
