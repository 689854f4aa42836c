-- ===== src/Store/Loads.antt =====
-- What `Load` and `Latest` of internal/infra/session/store.go open.
use codefolio.Common.{
  ◌≤◌, Text, codes, List, [], ◌∷◌, ◌++◌, true, Option, none, some, All, if◌then◌else◌, ◌≡◌, refl,
  sym, ap, ◌∙◌, ◌↔◌, Bool-cases, Option-cases, inl, inr,
}
use mathlib.Core.Path.{subst}
use codefolio.Session.Ledger.{Session, Codec}
use codefolio.Store.Table.{
  SessionInfo, DirListing, Opened, SessionDisk, valid_id, pick, open_log, scan_sessions,
  list_entries, list_sessions, Picked, no_match, several, match, missing, unreadable, entries,
  open_picked, load_session, latest, session_path, session_dir, newest_first,
}
use codefolio.Store.Match.{
  Only, pick-Only, Only-pick, any_matches, pick_first, IsNewestFirst, newest_first-IsNewestFirst,
}

module _ (c : Codec) where
  open c use {Line}

  load_listed :
      (d : SessionDisk Line) (work_dir id : Text) (items : List SessionInfo)
      → valid_id id ≡ true
      → list_sessions c d work_dir ≡ some items
      → load_session c d work_dir id ≡ open_picked c d work_dir (pick id none items)
  unfolding load_session
  load_listed d work_dir id items v e = rw (load_session, v, e) refl

  entries-IsNewestFirst :
      (d : SessionDisk Line) (dir : Text) (listing : DirListing) (items : List SessionInfo)
      → list_entries c d dir listing ≡ some items
      → IsNewestFirst items
  unfolding list_entries
  entries-IsNewestFirst d dir missing [] h = tt
  entries-IsNewestFirst d dir missing (s ∷ ss) h = cc
  entries-IsNewestFirst d dir unreadable items h = cc
  entries-IsNewestFirst d dir (entries es) items h =
      elim (Option-cases (scan_sessions c d dir es)) [
        | inl e ↦
            let h' : ◌≡◌ {A = Option (List SessionInfo)} none (some items) =
              rw (list_entries, e) at h in
            cc
        | inr (found, e) ↦
            let h' : some (newest_first found) ≡ some items = rw (list_entries, e) at h in
            let same : newest_first found ≡ items = cc in
            subst IsNewestFirst same (newest_first-IsNewestFirst found)
      ]

  list-IsNewestFirst :
      (d : SessionDisk Line) (work_dir : Text) (items : List SessionInfo)
      → list_sessions c d work_dir ≡ some items
      → IsNewestFirst items
  unfolding list_sessions
  list-IsNewestFirst d work_dir items h =
      entries-IsNewestFirst d (session_dir work_dir) (d.read_dir (session_dir work_dir)) items h

  open_picked_lem :
      (d : SessionDisk Line) (work_dir : Text) (p : Picked) (r : Option (Session Line))
      (m : SessionInfo)
      → open_picked c d work_dir p ≡ Opened.opened r m
      → (p ≡ match m) × (r ≡ open_log c d (session_path work_dir (m.id ++ codes ".jsonl")))
  unfolding open_picked
  open_picked_lem d work_dir no_match r m h = cc
  open_picked_lem d work_dir several r m h = cc
  open_picked_lem d work_dir (match k) r m h =
      let same : k ≡ m = cc in
      let log : open_log c d (session_path work_dir (k.id ++ codes ".jsonl")) ≡ r = cc in
      (
        ap match same,
        sym log
            ∙ ap
                (λ (x : SessionInfo). open_log c d (session_path work_dir (x.id ++ codes ".jsonl")))
                same,
      )

  load_opened :
      (d : SessionDisk Line) (work_dir id : Text) (r : Option (Session Line)) (m : SessionInfo)
      → load_session c d work_dir id ≡ Opened.opened r m
      → (valid_id id ≡ true)
        × ((items : List SessionInfo) × (list_sessions c d work_dir ≡ some items) × Only id m items)
        × (r ≡ open_log c d (session_path work_dir (m.id ++ codes ".jsonl")))
  unfolding load_session
  load_opened d work_dir id r m h = elim (Bool-cases (valid_id id)) [
    | inr v ↦ let h' : Opened.invalid_id ≡ Opened.opened r m = rw (load_session, v) at h in cc
    | inl v ↦ elim (Option-cases (list_sessions c d work_dir)) [
      | inl e ↦ let h' : Opened.unlisted ≡ Opened.opened r m = rw (load_session, v, e) at h in cc
      | inr (items, e) ↦
          let h' = sym (load_listed d work_dir id items v e) ∙ h in
          let (hit, log) = open_picked_lem d work_dir (pick id none items) r m h' in
          (v, (items, e, pick-Only id m items hit), log)
    ]
  ]

  -- A session is opened exactly for an ID that is not empty and has no slash and no backslash, where
  -- the directory can be listed, and the session is the only one in it with the ID or one that starts
  -- with it; what is opened is what its log loads to, an error where it does not load.
  pub load_session_iff :
      (d : SessionDisk Line) (work_dir id : Text) (r : Option (Session Line)) (m : SessionInfo)
      → (load_session c d work_dir id ≡ Opened.opened r m) ↔ (
          (valid_id id ≡ true)
          × ((items : List SessionInfo) × (list_sessions c d work_dir ≡ some items)
              × Only id m items)
          × (r ≡ open_log c d (session_path work_dir (m.id ++ codes ".jsonl"))))
  load_session_iff d work_dir id r m = (
    load_opened d work_dir id r m,
    λ (v, (items, e, (pre, post, split, before, hit, behind)), log).
        let found : pick id none items ≡ match m =
          ap (pick id none) split ∙ Only-pick id m pre post before hit behind in
        load_listed d work_dir id items v e
        ∙ ap (open_picked c d work_dir) found
        ∙ unfold open_picked in ap (λ x. Opened.opened x m) (sym log),
  )

  latest_first :
      (d later : SessionDisk Line) (work_dir : Text) (m : SessionInfo) (rest : List SessionInfo)
      → list_sessions c d work_dir ≡ some (m ∷ rest)
      → latest c d later work_dir ≡ load_session c later work_dir m.id
  unfolding latest
  latest_first d later work_dir m rest e = rw (latest, e) refl

  -- Where the directory has sessions, does not change between the two times that it is listed, and the
  -- first session listed has a valid ID: no other session is newer, and `Latest` opens that session if
  -- no other ID starts with its ID. If one does, `Latest` is ambiguous, the ID being a whole one all the
  -- same.
  pub latest_lem :
      (d : SessionDisk Line) (work_dir : Text) (m : SessionInfo) (rest : List SessionInfo)
      → list_sessions c d work_dir ≡ some (m ∷ rest)
      → valid_id m.id ≡ true
      → All (λ (s : SessionInfo). s.updated_at ≤ m.updated_at) rest
        × (latest c d d work_dir ≡ (
            if any_matches m.id rest
            then Opened.ambiguous
            else Opened.opened (open_log c d (session_path work_dir (m.id ++ codes ".jsonl"))) m))
  latest_lem d work_dir m rest e v = (
    (list-IsNewestFirst d work_dir (m ∷ rest) e).0,
    latest_first d d work_dir m rest e
        ∙ load_listed d work_dir m.id (m ∷ rest) v e
        ∙ ap (open_picked c d work_dir) (pick_first m rest)
        ∙ (elim (Bool-cases (any_matches m.id rest)) [
          | inl f ↦ unfold open_picked in rw f refl
          | inr f ↦ unfold open_picked in rw f refl
        ]),
  )
