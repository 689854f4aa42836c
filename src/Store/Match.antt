-- ===== src/Store/Match.antt =====
-- Which session internal/infra/session/store.go opens for an ID, and for the last session.
use codefolio.Common.{
  ℕ, ◌≤◌, Text, List, [], ◌∷◌, ◌++◌, Bool, true, false, ◌||◌, text_eq_refl, ltb, none, some, All,
  if◌then◌else◌, ◌≡◌, refl, ap, arith, Bool-cases, inl, inr,
}
use mathlib.Core.Path.{subst}
use codefolio.Store.Table.{SessionInfo, Picked, is_match, pick, insert_newest, newest_first}

abbrev Unmatched : Text → List SessionInfo → Type 0
Unmatched id = All (λ (s : SessionInfo). is_match id s ≡ false)

-- One item is that with the ID or a longer one, and no other item is.
abbrev pub Only : Text → SessionInfo → List SessionInfo → Type 0
Only id m items =
    (pre : List SessionInfo) × (post : List SessionInfo) × (items ≡ pre ++ m ∷ post)
    × Unmatched id pre
    × (is_match id m ≡ true)
    × Unmatched id post

module _ (id : Text) where
  pick_after :
      (m k : SessionInfo) (items : List SessionInfo)
      → pick id (some m) items ≡ Picked.match k
      → (m ≡ k) × Unmatched id items
  unfolding pick
  pick_after m k [] h = (cc, tt)
  pick_after m k (s ∷ ss) h = elim (Bool-cases (is_match id s)) [
    | inl e ↦ let h' : Picked.several ≡ Picked.match k = rw (pick, e) at h in cc
    | inr e ↦
        let (same, none_left) = pick_after m k ss (rw (pick, e) at h) in (same, (e, none_left))
  ]

  after_pick :
      (m : SessionInfo) (items : List SessionInfo)
      → Unmatched id items
      → pick id (some m) items ≡ Picked.match m
  unfolding pick
  after_pick m [] u = refl
  after_pick m (s ∷ ss) u = rw (pick, u.0) (after_pick m ss u.1)

  pub pick-Only :
      (k : SessionInfo) (items : List SessionInfo)
      → pick id none items ≡ Picked.match k
      → Only id k items
  unfolding pick
  pick-Only k [] h = cc
  pick-Only k (s ∷ ss) h = elim (Bool-cases (is_match id s)) [
    | inl e ↦
        let (same, none_left) = pick_after s k ss (rw (pick, e) at h) in
        ([], ss, ap (λ x. x ∷ ss) same, tt, subst (λ x. is_match id x ≡ true) same e, none_left)
    | inr e ↦
        let (pre, post, split, before, hit, behind) = pick-Only k ss (rw (pick, e) at h) in
        (s ∷ pre, post, ap (◌∷◌ s) split, (e, before), hit, behind)
  ]

  pub Only-pick :
      (k : SessionInfo) (pre post : List SessionInfo)
      → Unmatched id pre
      → is_match id k ≡ true
      → Unmatched id post
      → pick id none (pre ++ k ∷ post) ≡ Picked.match k
  unfolding pick
  Only-pick k [] post u h v = rw (pick, h) (after_pick k post v)
  Only-pick k (s ∷ pre) post u h v = rw (pick, u.0) (Only-pick k pre post u.1 h v)

-- Whether an ID is that of an item or the start of it.
abbrev pub any_matches : Text → List SessionInfo → Bool
any_matches id [] = false
any_matches id (s ∷ ss) = is_match id s || any_matches id ss

pick_any :
    (id : Text) (m : SessionInfo) (items : List SessionInfo)
    → pick id (some m) items ≡ (if any_matches id items then Picked.several else Picked.match m)
unfolding pick
pick_any id m [] = refl
pick_any id m (s ∷ ss) = elim (Bool-cases (is_match id s)) [
  | inl e ↦ rw (pick, e) refl
  | inr e ↦ rw (pick, e) (pick_any id m ss)
]

pub pick_first :
    (m : SessionInfo) (items : List SessionInfo)
    → pick m.id none (m ∷ items)
      ≡ (if any_matches m.id items then Picked.several else Picked.match m)
unfolding pick
pick_first m items =
    let own : is_match m.id m ≡ true = rw (text_eq_refl m.id) refl in
    rw (pick, own) (pick_any m.id m items)

-- No item is newer than one before it.
abbrev pub IsNewestFirst : List SessionInfo → Type 0
IsNewestFirst [] = Unit {0}
IsNewestFirst (s ∷ ss) =
    All (λ (t : SessionInfo). t.updated_at ≤ s.updated_at) ss × IsNewestFirst ss

All-insert_newest {κ} :
    (P : SessionInfo → Type κ) (s : SessionInfo) (ss : List SessionInfo)
    → P s
    → All P ss
    → All P (insert_newest s ss)
unfolding insert_newest
All-insert_newest P s [] p a = (p, tt)
All-insert_newest P s (t ∷ ts) p a = elim (Bool-cases (ltb s.updated_at t.updated_at)) [
  | inl e ↦ rw e (a.0, All-insert_newest P s ts p a.1)
  | inr e ↦ rw e (p, a)
]

All-older :
    (n m : ℕ) (ss : List SessionInfo)
    → n ≤ m
    → All (λ (t : SessionInfo). t.updated_at ≤ n) ss
    → All (λ (t : SessionInfo). t.updated_at ≤ m) ss
All-older n m [] h a = tt
All-older n m (s ∷ ss) h a = (omega arith, All-older n m ss h a.1)

insert_newest-IsNewestFirst :
    (s : SessionInfo) (ss : List SessionInfo)
    → IsNewestFirst ss
    → IsNewestFirst (insert_newest s ss)
unfolding insert_newest
insert_newest-IsNewestFirst s [] a = (tt, tt)
insert_newest-IsNewestFirst s (t ∷ ts) a = elim (Bool-cases (ltb s.updated_at t.updated_at)) [
  | inl e ↦
      let older : s.updated_at ≤ t.updated_at = ground arith in
      rw e (
        All-insert_newest (λ (u : SessionInfo). u.updated_at ≤ t.updated_at) s ts older a.0,
        insert_newest-IsNewestFirst s ts a.1,
      )
  | inr e ↦
      let older : t.updated_at ≤ s.updated_at = ground arith in
      rw e ((older, All-older t.updated_at s.updated_at ts older a.0), a)
]

pub newest_first-IsNewestFirst : (ss : List SessionInfo) → IsNewestFirst (newest_first ss)
unfolding newest_first
newest_first-IsNewestFirst [] = tt
newest_first-IsNewestFirst (s ∷ ss) =
    insert_newest-IsNewestFirst s (newest_first ss) (newest_first-IsNewestFirst ss)
