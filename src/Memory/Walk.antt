-- ===== src/Memory/Walk.antt =====
-- The walk of `loadAgents` in internal/svc/memory.go ends for a clean working directory under the root
-- of the project, and does not for one that is not clean.
use codefolio.Common.{
  ℕ, zero, suc, ◌<◌, Text, List, [], ◌∷◌, ◌++◌, true, false, ◌==◌, Option, none, some, text_eq,
  text_eq_refl, text_eq_sound, has_prefix, split_on, join_with, length, length-append, All,
  append_assoc, append-nil, ◌≡◌, refl, sym, ap, ◌∙◌, arith, Bool-cases, inl, inr,
}
use mathlib.Core.Path.{subst}
use codefolio.Filepath.{
  IsPart, slash, dot, is_abs, parts_of, clean, rooted_form, clean_parts-IsPart, clean_parts-join,
  join_path, rel, rel_parts, split_on-join, IsPart-NoSlash, join_path-IsPart, join_path-dot,
}
use codefolio.Memory.Agents.{
  section_of, walk_agents, load_agents, separator, ends_walk, first_piece,
}

-- The rooted path of elements.
abbrev pub dir_text : List Text → Text
dir_text ps = slash ∷ join_with (slash ∷ []) ps

parts_of-dir_text : (ps : List Text) → All IsPart ps → parts_of (dir_text ps) ≡ ps
unfolding parts_of
parts_of-dir_text ps a = clean_parts-join ps a

-- The sections of the directories from one on, down the given elements.
unfoldable pub sections_along : (Text → Option Text) → List Text → List Text → List Text
sections_along read ps [] = section_of read (dir_text ps)
sections_along read ps (q ∷ qs) =
    section_of read (dir_text ps) ++ sections_along read (ps ++ q ∷ []) qs

-- An element that does not look like a way up.
abbrev pub GoesDown : Text → Type 0
GoesDown q = has_prefix q (46 ∷ 46 ∷ []) ≡ false

rel_parts-append : (ps qs : List Text) → rel_parts ps (ps ++ qs) ≡ qs
unfolding rel_parts
rel_parts-append [] qs = refl
rel_parts-append (p ∷ ps) qs = rw (text_eq_refl p) (rel_parts-append ps qs)

rel_under :
    (ps : List Text) (q : Text) (qs : List Text)
    → All IsPart ps
    → All IsPart (ps ++ q ∷ qs)
    → rel (dir_text ps) (dir_text (ps ++ q ∷ qs)) ≡ some (join_with (slash ∷ []) (q ∷ qs))
unfolding rel
rel_under ps q qs a b =
    rw (parts_of-dir_text ps a, parts_of-dir_text (ps ++ q ∷ qs) b, rel_parts-append ps (q ∷ qs))
      refl

goes_on :
    (q : Text) (qs : List Text)
    → IsPart q
    → GoesDown q
    → ends_walk (join_with (slash ∷ []) (q ∷ qs)) ≡ false
unfolding join_with
goes_on [] qs h d = cc (h.1)
goes_on (c ∷ []) [] h d = ground arith
goes_on (c ∷ []) (p ∷ ps) h d = ground arith
goes_on (c ∷ e ∷ s) [] h d = ground (arith, d)
goes_on (c ∷ e ∷ s) (p ∷ ps) h d = ground (arith, d)

longer :
    (ps : List Text) (q : Text) (qs : List Text)
    → All IsPart ps
    → All IsPart (ps ++ q ∷ qs)
    → text_eq (dir_text ps) (dir_text (ps ++ q ∷ qs)) ≡ false
longer ps q qs a b = elim (Bool-cases (text_eq (dir_text ps) (dir_text (ps ++ q ∷ qs)))) [
  | inr other ↦ other
  | inl same ↦
      let one : ps ≡ ps ++ q ∷ qs =
        sym (parts_of-dir_text ps a)
        ∙ (ap parts_of (text_eq_sound (dir_text ps) (dir_text (ps ++ q ∷ qs)) same)
            ∙ parts_of-dir_text (ps ++ q ∷ qs) b) in
      absurd (omega (arith, ap (λ (x : List Text). length x) one, length-append {0} ps (q ∷ qs)))
]

All-front : (ps qs : List Text) → All IsPart (ps ++ qs) → All IsPart ps
All-front [] qs a = tt
All-front (p ∷ ps) qs a = (a.0, All-front ps qs a.1)

All-head : (ps : List Text) (q : Text) (qs : List Text) → All IsPart (ps ++ q ∷ qs) → IsPart q
All-head [] q qs a = a.0
All-head (p ∷ ps) q qs a = All-head ps q qs a.1

All-rest : (ps qs : List Text) → All IsPart (ps ++ qs) → All IsPart qs
All-rest [] qs a = a
All-rest (p ∷ ps) qs a = All-rest ps qs a.1

next_dir :
    (ps : List Text) (q : Text) (qs : List Text)
    → All IsPart ps
    → All IsPart (q ∷ qs)
    → join_path
        (dir_text ps ∷ first_piece (split_on (λ c. c == 47) (join_with (slash ∷ []) (q ∷ qs))) ∷ [])
      ≡ dir_text (ps ++ q ∷ [])
next_dir ps q qs a b =
    ap (λ ts. join_path (dir_text ps ∷ first_piece ts ∷ []))
      (split_on-join q qs (IsPart-NoSlash (q ∷ qs) b))
    ∙ (join_path-IsPart (dir_text ps) q refl b.0
        ∙ ap (λ ts. dir_text (ts ++ q ∷ [])) (parts_of-dir_text ps a))

walk_here :
    (read : Text → Option Text) (work_dir current : Text) (f : ℕ)
    → text_eq current work_dir ≡ true
    → walk_agents read work_dir (suc f) current ≡ some (section_of read current)
unfolding walk_agents
walk_here read work_dir current f h = rw (h, walk_agents) refl

-- The directory that the loop goes to next.
abbrev next_of : Text → Text → Text
next_of current r = join_path (current ∷ first_piece (split_on (λ c. c == 47) r) ∷ [])

-- A round of the loop that goes on.
walk_step :
    (read : Text → Option Text) (work_dir current r : Text) (f : ℕ)
    → text_eq current work_dir ≡ false
    → rel current work_dir ≡ some r
    → ends_walk r ≡ false
    → walk_agents read work_dir (suc f) current
      ≡ elim (walk_agents read work_dir f (next_of current r)) as (λ _. Option (List Text)) [
        | none ↦ none
        | some rest ↦ some (section_of read current ++ rest)
      ]
unfolding walk_agents
walk_step read work_dir current r f h e w = rw (h, e, w, walk_agents) refl

walk_agents_along :
    (read : Text → Option Text) (ps qs : List Text) (f : ℕ)
    → All IsPart (ps ++ qs)
    → All GoesDown qs
    → length qs < f
    → walk_agents read (dir_text (ps ++ qs)) f (dir_text ps) ≡ some (sections_along read ps qs)
unfolding sections_along
walk_agents_along read ps [] zero a d lt = absurd (omega arith)
walk_agents_along read ps (q ∷ qs) zero a d lt = absurd (omega arith)
walk_agents_along read ps [] (suc f) a d lt =
    walk_here read (dir_text (ps ++ [])) (dir_text ps) f
      (rw (append-nil ps) (text_eq_refl (dir_text ps)))
walk_agents_along read ps (q ∷ qs) (suc f) a d lt =
    let front = All-front ps (q ∷ qs) a in
    let rest = All-rest ps (q ∷ qs) a in
    let work = dir_text (ps ++ q ∷ qs) in
    let joined = join_with (slash ∷ []) (q ∷ qs) in
    let same : (ps ++ q ∷ []) ++ qs ≡ ps ++ q ∷ qs = append_assoc ps (q ∷ []) qs in
    let ih : walk_agents read work f (dir_text (ps ++ q ∷ []))
        ≡ some (sections_along read (ps ++ q ∷ []) qs) =
      subst
        (λ ts.
          walk_agents read (dir_text ts) f (dir_text (ps ++ q ∷ []))
          ≡ some (sections_along read (ps ++ q ∷ []) qs))
        same
        (walk_agents_along read (ps ++ q ∷ []) qs f (subst (All IsPart) (sym same) a) d.1
          (omega arith)) in
    walk_step read work (dir_text ps) joined f (longer ps q qs front a) (rel_under ps q qs front a)
      (goes_on q qs rest.0 d.0)
    ∙ rw (next_dir ps q qs front rest, ih) refl

-- From a root given by its elements, to a working directory some elements below it, none of which
-- starts with two dots: one round more than there are such elements is enough for the loop of
-- `loadAgents`, and it joins the sections of all directories on the way, from the root down.
pub load_agents_along :
    (read : Text → Option Text) (ps qs : List Text) (f : ℕ)
    → All IsPart (ps ++ qs)
    → All GoesDown qs
    → length qs < f
    → load_agents read f (dir_text ps) (dir_text (ps ++ qs))
      ≡ some (join_with separator (sections_along read ps qs))
unfolding load_agents
load_agents_along read ps qs f a d lt = rw (walk_agents_along read ps qs f a d lt) refl

rel_down :
    (ps : List Text) (q : Text) (qs : List Text) (d : Text)
    → is_abs d ≡ true
    → All IsPart ps
    → parts_of d ≡ ps ++ q ∷ qs
    → rel (dir_text ps) d ≡ some (join_with (slash ∷ []) (q ∷ qs))
unfolding rel
rel_down ps q qs d h a e = rw (h, parts_of-dir_text ps a, e, rel_parts-append ps (q ∷ qs)) refl

rel_self :
    (ps : List Text) (d : Text)
    → is_abs d ≡ true
    → All IsPart ps
    → parts_of d ≡ ps
    → rel (dir_text ps) d ≡ some dot
unfolding rel
rel_self ps d h a e =
    let none_left : rel_parts ps ps ≡ [] =
      subst (λ ts. rel_parts ps ts ≡ []) (append-nil ps) (rel_parts-append ps []) in
    rw (h, parts_of-dir_text ps a, e, none_left) refl

clean-dir_text : (ps : List Text) → All IsPart ps → clean (dir_text ps) ≡ dir_text ps
clean-dir_text ps a =
    rooted_form (dir_text ps) refl
    ∙ ap (λ ts. slash ∷ join_with (slash ∷ []) ts) (parts_of-dir_text ps a)

-- A path that is not clean is not the path of any elements.
never_there :
    (ps : List Text) (d : Text)
    → All IsPart ps
    → text_eq (clean d) d ≡ false
    → text_eq (dir_text ps) d ≡ false
never_there ps d a u = elim (Bool-cases (text_eq (dir_text ps) d)) [
  | inr other ↦ other
  | inl same ↦
      let one : clean d ≡ d =
        subst (λ x. clean x ≡ x) (text_eq_sound (dir_text ps) d same) (clean-dir_text ps a) in
      let bad : text_eq d d ≡ false = subst (λ x. text_eq x d ≡ false) one u in cc (text_eq_refl d)
]

walk_agents_endless :
    (read : Text → Option Text) (d : Text) (ps qs : List Text) (f : ℕ)
    → is_abs d ≡ true
    → text_eq (clean d) d ≡ false
    → parts_of d ≡ ps ++ qs
    → All IsPart (ps ++ qs)
    → All GoesDown qs
    → walk_agents read d f (dir_text ps) ≡ none
unfolding walk_agents
walk_agents_endless read d ps [] zero h u e a g = refl
walk_agents_endless read d ps (q ∷ qs) zero h u e a g = refl
walk_agents_endless read d ps [] (suc f) h u e a g =
    let front = All-front ps [] a in
    let here : clean (dir_text ps) ≡ dir_text ps = clean-dir_text ps front in
    let again : next_of (dir_text ps) dot ≡ dir_text ps =
      unfold split_on in
      subst (λ x. join_path (x ∷ dot ∷ []) ≡ x) here (join_path-dot (dir_text ps) refl) in
    let ih = walk_agents_endless read d ps [] f h u e a g in
    walk_step read d (dir_text ps) dot f (never_there ps d front u)
      (rel_self ps d h front (e ∙ append-nil ps)) refl
    ∙ rw (again, ih) refl
walk_agents_endless read d ps (q ∷ qs) (suc f) h u e a g =
    let front = All-front ps (q ∷ qs) a in
    let rest = All-rest ps (q ∷ qs) a in
    let same : (ps ++ q ∷ []) ++ qs ≡ ps ++ q ∷ qs = append_assoc ps (q ∷ []) qs in
    let ih =
      walk_agents_endless read d (ps ++ q ∷ []) qs f h u (e ∙ sym same)
        (subst (All IsPart) (sym same) a) g.1 in
    walk_step read d (dir_text ps) (join_with (slash ∷ []) (q ∷ qs)) f (never_there ps d front u)
      (rel_down ps q qs d h front e) (goes_on q qs rest.0 g.0)
    ∙ rw (next_dir ps q qs front rest, ih) refl

-- For a rooted working directory that is not clean, `/a/b/` say, below a root none of whose elements
-- on the way down starts with two dots, `loadAgents` does not end: no number of rounds is enough.
pub load_agents_endless :
    (read : Text → Option Text) (d : Text) (ps qs : List Text) (f : ℕ)
    → is_abs d ≡ true
    → text_eq (clean d) d ≡ false
    → parts_of d ≡ ps ++ qs
    → All GoesDown qs
    → load_agents read f (dir_text ps) d ≡ none
unfolding load_agents
load_agents_endless read [] ps qs f h u e g = cc
load_agents_endless read (c ∷ s) ps qs f h u e g =
    let a : All IsPart (ps ++ qs) =
      subst (All IsPart) e (unfold parts_of in clean_parts-IsPart (c ∷ s)) in
    rw (walk_agents_endless read (c ∷ s) ps qs f h u e a g) refl
