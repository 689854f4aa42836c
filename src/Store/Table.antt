-- ===== src/Store/Table.antt =====
-- `List`, `Load`, `Latest` and `metadata` of internal/infra/session/store.go. What the disk answers and
-- whether the context has ended are arguments.
use codefolio.Common.{
  ℕ, Text, codes, List, [], ◌∷◌, ◌++◌, Bool, not, ◌&&◌, ◌||◌, ltb, Option, none, some, text_eq,
  is_empty, has_prefix, trim_space, lines_of, length, take, elem, if◌then◌else◌,
}
use codefolio.Filepath.{join_path}
use codefolio.Domain.Conversation.{ChatMessage, is_user}
use codefolio.Session.Ledger.{Session, Codec}
use codefolio.Session.Load.{load}
use codefolio.Memory.Files.{DirEntry, has_suffix, trim_suffix}

-- `CreatedAt` is never set.
pub record SessionInfo : Type 0 where
  pub id : Text
  pub title : Text
  pub updated_at : ℕ
  pub message_count : ℕ

-- The first line of the first message of the user that is not blank; empty where there is none.
unfoldable pub first_title : List ChatMessage → Text
first_title [] = []
first_title (m ∷ ms) =
    let rest = first_title ms in
    if is_user m.role && not (is_empty (trim_space m.content))
    then (elim (lines_of m.content) [ [] ↦ [] | line ∷ lines ↦ trim_space line ])
    else rest

unfoldable pub title_of : List ChatMessage → Text
unfolding first_title
title_of messages =
    let first = first_title messages in
    let title = if is_empty first then codes "New session" else first in
    if ltb 56 (length title) then take 56 title ++ codes "..." else title

unfoldable pub metadata : {L : Type 0} → Text → Session L → ℕ → SessionInfo
unfolding title_of
metadata id value updated = record {
  id = id;
  title = title_of value.messages;
  updated_at = updated;
  message_count = length value.messages;
}

-- What `os.ReadDir` answers.
pub data DirListing : Type 0 where
  missing unreadable : DirListing
  entries : List DirEntry → DirListing

-- `sort.Slice` by the time of the last change, the newest first; of two sessions with one time the one
-- that stands first stays first.
unfoldable pub insert_newest : SessionInfo → List SessionInfo → List SessionInfo
insert_newest s [] = s ∷ []
insert_newest s (t ∷ ts) =
    let rest = insert_newest s ts in if ltb s.updated_at t.updated_at then t ∷ rest else s ∷ t ∷ ts

unfoldable pub newest_first : List SessionInfo → List SessionInfo
unfolding insert_newest
newest_first [] = []
newest_first (s ∷ ss) = insert_newest s (newest_first ss)

abbrev pub session_dir : Text → Text
session_dir work_dir = join_path (work_dir ∷ codes ".codefolio" ∷ codes "sessions" ∷ [])

abbrev pub session_path : Text → Text → Text
session_path work_dir name =
    join_path (work_dir ∷ codes ".codefolio" ∷ codes "sessions" ∷ name ∷ [])

-- What `Load` returns.
pub data Opened (L : Type 0) : Type 0 where
  invalid_id unlisted ambiguous not_found no_sessions : Opened L
  opened : Option (Session L) → SessionInfo → Opened L

-- `ContainsAny` with a backslash and a slash.
abbrev pub valid_id : Text → Bool
valid_id id = not (is_empty id || (elem b'\\' id || elem b'/' id))

abbrev pub is_match : Text → SessionInfo → Bool
is_match id s = text_eq s.id id || has_prefix s.id id

pub record SessionDisk (L : Type 0) : Type 0 where
  pub now : ℕ
  pub read_dir : Text → DirListing
  pub read_log : Text → Option (List L)
  -- Whether the context has ended when the loop comes to an entry.
  pub ended : Text → Bool

-- How the loop of `Load` over the items ends.
pub data Picked : Type 0 where
  no_match several : Picked
  match : SessionInfo → Picked

-- The loop of `Load` over the items; a match that was found before stands first.
unfoldable pub pick : Text → Option SessionInfo → List SessionInfo → Picked
pick id none [] = Picked.no_match
pick id (some m) [] = Picked.match m
pick id found (s ∷ ss) =
    let taken = pick id (some s) ss in
    let rest = pick id found ss in
    if is_match id s then elim found [ some m ↦ Picked.several | none ↦ taken ] else rest

module _ (c : Codec) where
  open c use {Line}

  unfoldable pub open_log : SessionDisk Line → Text → Option (Session Line)
  unfolding load
  open_log d path = load c d.now path (d.read_log path)

  -- The loop of `List` over the entries of the directory; `none` where the context has ended.
  unfoldable pub scan_sessions : SessionDisk Line → Text → List DirEntry → Option (List SessionInfo)
  unfolding open_log metadata join_path
  scan_sessions d dir [] = some []
  scan_sessions d dir (e ∷ es) =
      let rest = scan_sessions d dir es in
      let listed : Option (List SessionInfo) = elim (open_log d (join_path (dir ∷ e.name ∷ []))) [
        | none ↦ rest
        | some value ↦ elim e.info [
          | none ↦ rest
          | some time ↦ elim rest [
            | none ↦ none
            | some items ↦ some (metadata (trim_suffix e.name (codes ".jsonl")) value time ∷ items)
          ]
        ]
      ] in
      if d.ended e.name
      then none
      else if e.is_dir || not (has_suffix e.name (codes ".jsonl"))
      then rest
      else listed

  -- `List`; `none` is an error.
  unfoldable pub list_entries : SessionDisk Line → Text → DirListing → Option (List SessionInfo)
  unfolding scan_sessions newest_first
  list_entries d dir missing = some []
  list_entries d dir unreadable = none
  list_entries d dir (entries es) = elim (scan_sessions d dir es) [
    | none ↦ none
    | some items ↦ some (newest_first items)
  ]

  unfoldable pub list_sessions : SessionDisk Line → Text → Option (List SessionInfo)
  unfolding list_entries join_path
  list_sessions d work_dir =
      list_entries d (session_dir work_dir) (d.read_dir (session_dir work_dir))

  -- `Load` behind its loop.
  unfoldable pub open_picked : SessionDisk Line → Text → Picked → Opened Line
  unfolding open_log join_path
  open_picked d work_dir no_match = Opened.not_found
  open_picked d work_dir several = Opened.ambiguous
  open_picked d work_dir (match m) =
      Opened.opened (open_log d (session_path work_dir (m.id ++ codes ".jsonl"))) m

  unfoldable pub load_session : SessionDisk Line → Text → Text → Opened Line
  unfolding list_sessions pick open_picked
  load_session d work_dir id =
      if not (valid_id id) then Opened.invalid_id else elim (list_sessions d work_dir) [
        | none ↦ Opened.unlisted
        | some items ↦ open_picked d work_dir (pick id none items)
      ]

  -- `Latest` lists the directory, and then loads what it found there first.
  unfoldable pub latest : SessionDisk Line → SessionDisk Line → Text → Opened Line
  unfolding list_sessions load_session
  latest d later work_dir = elim (list_sessions d work_dir) [
    | none ↦ Opened.unlisted
    | some [] ↦ Opened.no_sessions
    | some (m ∷ items) ↦ load_session later work_dir m.id
  ]
