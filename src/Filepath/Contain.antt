-- ===== src/Filepath/Contain.antt =====
-- `Clean`, `Join`, `Abs` and `Rel`, and the test by which the code says that a relative path leaves
-- its base.
use codefolio.Common.{
  ℕ, Text, codes, List, [], ◌∷◌, ◌++◌, Bool, true, false, not, ◌&&◌, ◌||◌, ◌==◌, ◌≡◌, refl, ap, sym,
  ◌∙◌, map, text_eq, text_eq_sound, has_prefix, is_empty, elem, join_with, if◌then◌else◌, arith,
  All, null, Option, none, some, Bool-cases, inl, inr, ◌⊎◌, ◌≢◌, append-nil,
}
use codefolio.Filepath.Parts.{
  slash, dot, dot_dot, IsPart, clean_parts, clean_parts-IsPart, clean_parts-join,
}

abbrev pub is_abs : Text → Bool
is_abs [] = false
is_abs (c ∷ s) = c == 47

-- The elements of a rooted path.
unfoldable pub parts_of : Text → List Text
parts_of s = clean_parts true s

unfoldable pub clean : Text → Text
clean [] = dot
clean (c ∷ s) =
    if c == 47
    then slash ∷ join_with (slash ∷ []) (parts_of (c ∷ s))
    else (let ps = clean_parts false (c ∷ s) in if null ps then dot else join_with (slash ∷ []) ps)

-- Empty elements at the front are left out; if all are empty the result is empty.
unfoldable pub join_path : List Text → Text
join_path [] = []
join_path ([] ∷ ps) = join_path ps
join_path ((c ∷ s) ∷ ps) = clean (join_with (slash ∷ []) ((c ∷ s) ∷ ps))

-- `cwd` is the result of `os.Getwd`.
unfoldable pub abs_path : Option Text → Text → Option Text
abs_path cwd p =
    if is_abs p
    then some (clean p)
    else elim cwd [ none ↦ none | some d ↦ some (join_path (d ∷ p ∷ [])) ]

unfoldable pub rel_parts : List Text → List Text → List Text
rel_parts [] ts = ts
rel_parts (b ∷ bs) [] = dot_dot ∷ map (λ _. dot_dot) bs
rel_parts (b ∷ bs) (t ∷ ts) =
    let rest = rel_parts bs ts in
    if text_eq b t then rest else dot_dot ∷ map (λ _. dot_dot) bs ++ t ∷ ts

-- The same where the base may go up: from an element `..` of the base no way is known.
unfoldable pub rel_elements : List Text → List Text → Option (List Text)
rel_elements [] ts = some ts
rel_elements (b ∷ bs) [] =
    if text_eq b dot_dot then none else some (dot_dot ∷ map (λ _. dot_dot) bs)
rel_elements (b ∷ bs) (t ∷ ts) =
    let rest = rel_elements bs ts in
    if text_eq b t
    then rest
    else if text_eq b dot_dot
    then none
    else some (dot_dot ∷ map (λ _. dot_dot) bs ++ t ∷ ts)

-- The text of a relative path given by its elements.
abbrev pub rel_text : List Text → Text
rel_text ps = if null ps then dot else join_with (slash ∷ []) ps

-- `Rel`. Two rooted paths, as the results of `Abs` are, have one always; a rooted path and one that is
-- not have none.
unfoldable pub rel : Text → Text → Option Text
unfolding rel_elements
rel base targ =
    if is_abs base && is_abs targ
    then some (rel_text (rel_parts (parts_of base) (parts_of targ)))
    else if is_abs base || is_abs targ
    then none
    else elim (rel_elements (clean_parts false base) (clean_parts false targ)) [
      | none ↦ none
      | some ps ↦ some (rel_text ps)
    ]

-- `rel == ".." || strings.HasPrefix(rel, ".."+string(filepath.Separator))`.
abbrev pub leaves : Text → Bool
leaves r = text_eq r dot_dot || has_prefix r (46 ∷ 46 ∷ 47 ∷ [])

-- Whether the first list is a prefix of the second.
unfoldable pub starts : List Text → List Text → Bool
starts [] ts = true
starts (b ∷ bs) [] = false
starts (b ∷ bs) (t ∷ ts) = let rest = starts bs ts in if text_eq b t then rest else false

leaves-dot_dot : (ps : List Text) → leaves (join_with (slash ∷ []) (dot_dot ∷ ps)) ≡ true
unfolding join_with
leaves-dot_dot [] = refl
leaves-dot_dot (p ∷ ps) = refl

leaves-IsPart :
    (c : Text) (ps : List Text) → IsPart c → leaves (join_with (slash ∷ []) (c ∷ ps)) ≡ false
unfolding join_with
leaves-IsPart [] ps h = cc (h.1)
leaves-IsPart (x ∷ []) [] h = ground arith
leaves-IsPart (x ∷ []) (p ∷ ps) h = ground arith
leaves-IsPart (x ∷ y ∷ []) [] h = ground arith
leaves-IsPart (x ∷ y ∷ []) (p ∷ ps) h = ground arith
leaves-IsPart (x ∷ y ∷ z ∷ r) [] h = ground arith
leaves-IsPart (x ∷ y ∷ z ∷ r) (p ∷ ps) h = ground arith

leaves-rel_parts :
    (bs ts : List Text) → All IsPart ts → leaves (rel_text (rel_parts bs ts)) ≡ not (starts bs ts)
unfolding rel_parts starts
leaves-rel_parts [] [] a = refl
leaves-rel_parts [] (t ∷ ts) a = leaves-IsPart t ts a.0
leaves-rel_parts (b ∷ bs) [] a = leaves-dot_dot (map (λ _. dot_dot) bs)
leaves-rel_parts (b ∷ bs) (t ∷ ts) a = elim (Bool-cases (text_eq b t)) [
  | inl e ↦ rw e (leaves-rel_parts bs ts a.1)
  | inr e ↦ rw e (leaves-dot_dot (map (λ _. dot_dot) bs ++ t ∷ ts))
]

-- Between rooted paths the relative path exists, and it leaves the base exactly where the elements of
-- the base are no prefix of those of the target.
pub leaves_lem :
    (base targ : Text)
    → is_abs base ≡ true
    → is_abs targ ≡ true
    → (r : Text) × (rel base targ ≡ some r)
      × (leaves r ≡ not (starts (parts_of base) (parts_of targ)))
unfolding rel parts_of
leaves_lem base targ hb ht = (
  rel_text (rel_parts (parts_of base) (parts_of targ)),
  rw (hb, ht),
  leaves-rel_parts (parts_of base) (parts_of targ) (clean_parts-IsPart targ),
)

-- A rooted path keeps its elements when it is cleaned, and stays rooted.
pub clean_rooted :
    (p : Text) → is_abs p ≡ true → (is_abs (clean p) ≡ true) × (parts_of (clean p) ≡ parts_of p)
unfolding clean
clean_rooted [] h = cc
clean_rooted (c ∷ s) h =
    rw h (refl, unfold parts_of in clean_parts-join (parts_of (c ∷ s)) (clean_parts-IsPart (c ∷ s)))

-- So a rooted path has a rooted absolute path with the same elements.
pub abs_path_rooted :
    (cwd : Option Text) (p : Text)
    → is_abs p ≡ true
    → (q : Text) × (abs_path cwd p ≡ some q) × (is_abs q ≡ true) × (parts_of q ≡ parts_of p)
unfolding abs_path
abs_path_rooted cwd p h = (clean p, rw h, (clean_rooted p h).0, (clean_rooted p h).1)

starts_refl : (ps : List Text) → starts ps ps ≡ true
unfolding starts
starts_refl [] = refl
starts_refl (p ∷ ps) = ground (arith, starts_refl ps, codefolio.Common.text_eq_refl p)

pub starts-append : (bs ts : List Text) → starts bs (bs ++ ts) ≡ true
unfolding starts
starts-append [] ts = refl
starts-append (b ∷ bs) ts = rw (codefolio.Common.text_eq_refl b) (starts-append bs ts)

-- A prefix leaves a rest.
pub starts_sound : (bs ts : List Text) → starts bs ts ≡ true → (r : List Text) × (ts ≡ bs ++ r)
unfolding starts
starts_sound [] ts h = (ts, refl)
starts_sound (b ∷ bs) [] h = cc
starts_sound (b ∷ bs) (t ∷ ts) h = elim (Bool-cases (text_eq b t)) [
  | inl e ↦
      let h' : starts bs ts ≡ true = rw e at h in
      let (r, q) = starts_sound bs ts h' in (r, cc (text_eq_sound b t e, q))
  | inr e ↦ let h' : false ≡ true = rw e at h in cc
]

-- Joined under a rooted directory a path is rooted.
pub join_path_rooted : (dir p : Text) → is_abs dir ≡ true → is_abs (join_path (dir ∷ p ∷ [])) ≡ true
unfolding join_path join_with clean
join_path_rooted [] p h = cc
join_path_rooted (c ∷ s) p h = rw h

pub rooted_form :
    (p : Text) → is_abs p ≡ true → clean p ≡ slash ∷ join_with (slash ∷ []) (parts_of p)
unfolding clean
rooted_form [] h = cc
rooted_form (c ∷ s) h = rw h

-- Cleaning a rooted path again changes nothing.
pub clean_twice : (p : Text) → is_abs p ≡ true → clean (clean p) ≡ clean p
clean_twice p h =
    let (abs, same) = clean_rooted p h in
    rooted_form (clean p) abs
    ∙ (ap (λ ps. slash ∷ join_with (slash ∷ []) ps) same ∙ sym (rooted_form p h))

joined_clean :
    (dir p : Text)
    → is_abs dir ≡ true
    → (q : Text) × (is_abs q ≡ true) × (join_path (dir ∷ p ∷ []) ≡ clean q)
unfolding join_path join_with
joined_clean [] p h = cc
joined_clean (c ∷ s) p h = ((c ∷ s) ++ (slash ∷ p), h, refl)

abs_path_rooted_lem :
    (cwd : Option Text) (q : Text) → is_abs q ≡ true → abs_path cwd q ≡ some (clean q)
unfolding abs_path
abs_path_rooted_lem cwd q h = rw h

abs_path_dir :
    (dir p : Text) → is_abs p ≡ false → abs_path (some dir) p ≡ some (join_path (dir ∷ p ∷ []))
unfolding abs_path
abs_path_dir dir p h = rw h

abs_path_unknown : (p : Text) → is_abs p ≡ false → abs_path none p ≡ none
unfolding abs_path
abs_path_unknown p h = rw h

-- A path that is absolute for one directory is so for each.
abs_path-clean :
    (cwd : Option Text) (q : Text) → is_abs q ≡ true → abs_path cwd (clean q) ≡ some (clean q)
abs_path-clean cwd q h =
    abs_path_rooted_lem cwd (clean q) (clean_rooted q h).0 ∙ ap some (clean_twice q h)

abbrev pub Rooted : Option Text → Type 0
Rooted none = Unit
Rooted (some dir) = is_abs dir ≡ true

relative :
    (cwd : Option Text) (p : Text)
    → Rooted cwd
    → is_abs p ≡ false
    → (abs_path cwd p ≡ none) ⊎ ((a : Text) × (abs_path cwd p ≡ some a) × (abs_path cwd a ≡ some a))
relative none p r e = inl (abs_path_unknown p e)
relative (some dir) p r e =
    let (q, abs, same) = joined_clean dir p r in
    inr (clean q, abs_path_dir dir p e ∙ ap some same, abs_path-clean (some dir) q abs)

-- `Abs` has no error and gives a path that it leaves alone, or it has one.
pub abs_path_twice :
    (cwd : Option Text) (p : Text)
    → Rooted cwd
    → (abs_path cwd p ≡ none) ⊎ ((a : Text) × (abs_path cwd p ≡ some a) × (abs_path cwd a ≡ some a))
abs_path_twice cwd p r = elim (Bool-cases (is_abs p)) [
  | inl e ↦ inr (clean p, abs_path_rooted_lem cwd p e, abs_path-clean cwd p e)
  | inr e ↦ relative cwd p r e
]

-- Names all that a run of these functions computes with, for `unfolding` lines.
unfoldable pub path_steps : Unit {0}
unfolding clean clean_parts parts_of join_path join_with abs_path rel rel_parts starts
path_steps = tt

rel_examples :
    (rel (codes "a/b") (codes "a/c/d") ≡ some (codes "../c/d"))
    × (rel (codes ".") (codes "./x") ≡ some (codes "x"))
    × (rel (codes "..") (codes "x") ≡ none)
    × (rel (codes "/a") (codes "a") ≡ none)
unfolding path_steps rel_elements
rel_examples = (refl, refl, refl, refl)
