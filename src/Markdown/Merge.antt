-- ===== src/Markdown/Merge.antt =====
-- The commands of the project in the place of those of the user with the same name: `Load` of
-- internal/infra/command/loader.go.
use codefolio.Common.{
  ℕ, zero, suc, ◌+◌, Text, List, [], ◌∷◌, ◌++◌, true, false, Option, none, some, text_eq,
  text_eq_refl, text_eq_sound, length, set, if◌then◌else◌, ◌≡◌, refl, sym, ap, ◌∙◌, arith,
  Bool-cases, Option-cases, inl, inr,
}
use codefolio.Commands.Table.{Command, CommandSource}
use codefolio.Filepath.{join_path}
use codefolio.Common.{codes}
use codefolio.Markdown.Load.{
  World, ByName, index_at, by_name_from, merge_commands, load, load_dir, home_dir,
}

-- The first command with a name, and its place.
unfoldable pub position : Text → List Command → Option ℕ
position n [] = none
position n (c ∷ cs) =
    let rest : Option ℕ = elim (position n cs) [ none ↦ none | some i ↦ some (suc i) ] in
    if text_eq c.name n then some 0 else rest

unfoldable pub named : Text → List Command → Option Command
named n [] = none
named n (c ∷ cs) = let rest = named n cs in if text_eq c.name n then some c else rest

-- The last command with a name.
unfoldable pub last_named : Text → List Command → Option Command
last_named n [] = none
last_named n (c ∷ cs) = elim (last_named n cs) [
  | some d ↦ some d
  | none ↦ if text_eq c.name n then some c else none
]

abbrev pub or_else : Option Command → Option Command → Option Command
or_else (some c) o = some c
or_else none o = o

-- No two commands have the same name.
abbrev pub Distinct : List Command → Type 0
Distinct [] = Unit {0}
Distinct (c ∷ cs) = (position c.name cs ≡ none) × Distinct cs

-- The map leads to the first command with a name.
abbrev Indexes : ByName → List Command → Type 0
Indexes m cs = (n : Text) → index_at m n ≡ position n cs

-- Where the place of a name in a list with a head is the front, the head has the name; where it is
-- further on, the head has another one.
position_front :
    (n : Text) (c : Command) (cs : List Command) → position n (c ∷ cs) ≡ some 0 → c.name ≡ n
unfolding position
position_front n c cs h = elim (Bool-cases (text_eq c.name n)) [
  | inl e ↦ text_eq_sound c.name n e
  | inr e ↦ elim (Option-cases (position n cs)) [
    | inl p ↦ let h' : ◌≡◌ {A = Option ℕ} none (some 0) = rw (e, p) at h in cc
    | inr (j, p) ↦ let h' : some (suc j) ≡ some 0 = rw (e, p) at h in cc
  ]
]

position_behind :
    (n : Text) (c : Command) (cs : List Command) (i : ℕ)
    → position n (c ∷ cs) ≡ some (suc i)
    → (text_eq c.name n ≡ false) × (position n cs ≡ some i)
unfolding position
position_behind n c cs i h = elim (Bool-cases (text_eq c.name n)) [
  | inl e ↦ let h' : some 0 ≡ some (suc i) = rw e at h in cc
  | inr e ↦ elim (Option-cases (position n cs)) [
    | inl p ↦ let h' : none ≡ some (suc i) = rw (e, p) at h in cc
    | inr (j, p) ↦
        let h' : some (suc j) ≡ some (suc i) = rw (e, p) at h in
        let k : j ≡ i = cc in (e, p ∙ ap some k)
  ]
]

position_absent :
    (n : Text) (c : Command) (cs : List Command)
    → position n (c ∷ cs) ≡ none
    → (text_eq c.name n ≡ false) × (position n cs ≡ none)
unfolding position
position_absent n c cs h = elim (Bool-cases (text_eq c.name n)) [
  | inl e ↦ let h' : ◌≡◌ {A = Option ℕ} (some 0) none = rw e at h in cc
  | inr e ↦ elim (Option-cases (position n cs)) [
    | inl p ↦ (e, p)
    | inr (j, p) ↦ let h' : some (suc j) ≡ none = rw (e, p) at h in cc
  ]
]

position-set :
    (n : Text) (i : ℕ) (v : Command) (cs : List Command)
    → position v.name cs ≡ some i
    → position n (set cs i v) ≡ position n cs
unfolding position
position-set n i v [] h = cc
position-set n zero v (c ∷ cs) h = rw (position_front v.name c cs h) refl
position-set n (suc i) v (c ∷ cs) h =
    rw (position-set n i v cs (position_behind v.name c cs i h).1) refl

-- Two tests of one name: where a command has the name `n` and another command has another name, the
-- other one does not have the name `n`.
other_name : (a b n : Text) → text_eq a b ≡ false → text_eq b n ≡ true → text_eq a n ≡ false
other_name a b n h e = elim (Bool-cases (text_eq a n)) [
  | inr f ↦ f
  | inl f ↦
      let same : a ≡ b = text_eq_sound a n f ∙ sym (text_eq_sound b n e) in
      let h' : text_eq b b ≡ false = rw same at h in
      let absurd : true ≡ false = sym (text_eq_refl b) ∙ h' in cc
]

named-set :
    (n : Text) (i : ℕ) (v : Command) (cs : List Command)
    → position v.name cs ≡ some i
    → named n (set cs i v) ≡ (if text_eq v.name n then some v else named n cs)
unfolding position named
named-set n i v [] h = cc
named-set n zero v (c ∷ cs) h = elim (Bool-cases (text_eq v.name n)) [
  | inl e ↦ rw e refl
  | inr e ↦ let f : text_eq c.name n ≡ false = rw (position_front v.name c cs h) e in rw (e, f) refl
]
named-set n (suc i) v (c ∷ cs) h =
    let (other, behind) = position_behind v.name c cs i h in
    let ih = named-set n i v cs behind in
    elim (Bool-cases (text_eq v.name n)) [
      | inl e ↦ rw (ih, e, other_name c.name v.name n other e) refl
      | inr e ↦ rw (ih, e) refl
    ]

position-append :
    (n : Text) (v : Command) (cs : List Command)
    → position v.name cs ≡ none
    → position n (cs ++ v ∷ []) ≡ (if text_eq v.name n then some (length cs) else position n cs)
unfolding position
position-append n v [] h = refl
position-append n v (c ∷ cs) h =
    let (other, behind) = position_absent v.name c cs h in
    let ih = position-append n v cs behind in
    elim (Bool-cases (text_eq v.name n)) [
      | inl e ↦ rw (ih, e, other_name c.name v.name n other e) refl
      | inr e ↦ rw (ih, e) refl
    ]

named-append :
    (n : Text) (v : Command) (cs : List Command)
    → position v.name cs ≡ none
    → named n (cs ++ v ∷ []) ≡ (if text_eq v.name n then some v else named n cs)
unfolding position named
named-append n v [] h = refl
named-append n v (c ∷ cs) h =
    let (other, behind) = position_absent v.name c cs h in
    let ih = named-append n v cs behind in
    elim (Bool-cases (text_eq v.name n)) [
      | inl e ↦ rw (ih, e, other_name c.name v.name n other e) refl
      | inr e ↦ rw (ih, e) refl
    ]

last_then :
    (n : Text) (v : Command) (vs : List Command) (o : Option Command)
    → or_else (last_named n vs) (if text_eq v.name n then some v else o)
      ≡ or_else (last_named n (v ∷ vs)) o
unfolding last_named
last_then n v vs o = elim (Option-cases (last_named n vs)) [
  | inr (d, e) ↦ rw e refl
  | inl e ↦ elim (Bool-cases (text_eq v.name n)) [ inl f ↦ rw (e, f) refl | inr f ↦ rw (e, f) refl ]
]

merge_appends :
    (m : ByName) (cs : List Command) (v : Command) (vs : List Command)
    → index_at m v.name ≡ none
    → merge_commands m cs (v ∷ vs) ≡ merge_commands ((v.name, length cs) ∷ m) (cs ++ v ∷ []) vs
unfolding merge_commands
merge_appends m cs v vs e = rw (merge_commands, e) refl

merge_sets :
    (m : ByName) (cs : List Command) (v : Command) (vs : List Command) (i : ℕ)
    → index_at m v.name ≡ some i
    → merge_commands m cs (v ∷ vs) ≡ merge_commands m (set cs i v) vs
unfolding merge_commands
merge_sets m cs v vs i e = rw (merge_commands, e) refl

named_merge :
    (m : ByName) (cs vs : List Command) (n : Text)
    → Indexes m cs
    → named n (merge_commands m cs vs) ≡ or_else (last_named n vs) (named n cs)
unfolding index_at
named_merge m cs [] n h = unfold last_named merge_commands in refl
named_merge m cs (v ∷ vs) n h = elim (Option-cases (index_at m v.name)) [
  | inl e ↦
      let free : position v.name cs ≡ none = sym (h v.name) ∙ e in
      let next : Indexes ((v.name, length cs) ∷ m) (cs ++ v ∷ []) =
        λ k. rw (h k) (sym (position-append k v cs free)) in
      let ih = named_merge ((v.name, length cs) ∷ m) (cs ++ v ∷ []) vs n next in
      ap (named n) (merge_appends m cs v vs e)
      ∙ (ih ∙ rw (named-append n v cs free) (last_then n v vs (named n cs)))
  | inr (i, e) ↦
      let taken : position v.name cs ≡ some i = sym (h v.name) ∙ e in
      let next : Indexes m (set cs i v) = λ k. h k ∙ sym (position-set k i v cs taken) in
      let ih = named_merge m (set cs i v) vs n next in
      ap (named n) (merge_sets m cs v vs i e)
      ∙ (ih ∙ rw (named-set n i v cs taken) (last_then n v vs (named n cs)))
]

-- The map that is built from commands with different names.
index_at-by_name_from :
    (i : ℕ) (m : ByName) (cs : List Command) (n : Text)
    → Distinct cs
    → index_at (by_name_from i m cs) n
      ≡ elim (position n cs) [ none ↦ index_at m n | some j ↦ some (i + j) ]
unfolding by_name_from position index_at
index_at-by_name_from i m [] n d = refl
index_at-by_name_from i m (c ∷ cs) n d =
    let ih = index_at-by_name_from (suc i) ((c.name, i) ∷ m) cs n d.1 in
    elim (Bool-cases (text_eq c.name n)) [
      | inl e ↦
          let same : position n cs ≡ none = rw (text_eq_sound c.name n e) at d.0 in
          let zeros : i ≡ i + 0 = omega arith in ih ∙ rw (same, e) (ap some zeros)
      | inr e ↦ elim (Option-cases (position n cs)) [
        | inl p ↦ ih ∙ rw (p, e) refl
        | inr (j, p) ↦
            let shift : suc i + j ≡ i + suc j = omega arith in ih ∙ rw (p, e) (ap some shift)
      ]
    ]

indexed_by_name : (cs : List Command) → Distinct cs → Indexes (by_name_from 0 [] cs) cs
unfolding index_at
indexed_by_name cs d n = elim (Option-cases (position n cs)) [
  | inl p ↦ index_at-by_name_from 0 [] cs n d ∙ rw p refl
  | inr (j, p) ↦
      let same : 0 + j ≡ j = omega arith in index_at-by_name_from 0 [] cs n d ∙ rw p (ap some same)
]

-- The commands that `Load` reads from the directory of the user, and from that of the project.
abbrev pub user_commands : World → Option Text → List Command
user_commands w home = (load_dir w (home_dir home) CommandSource.user_source).commands

abbrev pub project_commands : World → Text → List Command
project_commands w work_dir =
    (load_dir w (join_path (work_dir ∷ codes ".codefolio" ∷ codes "commands" ∷ []))
      CommandSource.project_source).commands

-- Where no two files of the user give the same name, the command that `Load` returns first for a name
-- is the last one of the project with that name, and that of the user where the project has none.
pub load_named :
    (w : World) (home : Option Text) (work_dir n : Text)
    → Distinct (user_commands w home)
    → named n (load w home work_dir).commands
      ≡ or_else (last_named n (project_commands w work_dir)) (named n (user_commands w home))
unfolding load
load_named w home work_dir n d =
    named_merge (by_name_from 0 [] (user_commands w home)) (user_commands w home)
      (project_commands w work_dir) n (indexed_by_name (user_commands w home) d)
