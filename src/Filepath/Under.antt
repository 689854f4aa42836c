-- ===== src/Filepath/Under.antt =====
-- Paths joined under a rooted directory.
use codefolio.Common.{
  ℕ, Text, List, [], ◌∷◌, ◌++◌, true, ◌≡◌, refl, ap, sym, ◌∙◌, reverse, split_on, push_piece,
  join_with, Bool-cases, inl, inr,
}
use mathlib.Core.List.{reverse-cons}
use codefolio.Filepath.Parts.{
  slash, is_slash, dot, IsPart, push_part, resolve, clean_parts, split_on_self, push_part_of_IsPart,
}
use codefolio.Filepath.Contain.{is_abs, parts_of, clean, join_path, clean_rooted, rooted_form}

push_cons : (x : ℕ) (ps : List Text) → (q : Text) × (qs : List Text) × (push_piece x ps ≡ q ∷ qs)
push_cons x [] = (x ∷ [], [], refl)
push_cons x (p ∷ ps) = (x ∷ p, ps, refl)

split_cons : (s : Text) → (p : Text) × (ps : List Text) × (split_on is_slash s ≡ p ∷ ps)
unfolding split_on
split_cons [] = ([], [], refl)
split_cons (x ∷ s) = elim (Bool-cases (is_slash x)) [
  | inl e ↦ rw e ([], split_on is_slash s, refl)
  | inr e ↦ rw e (push_cons x (split_on is_slash s))
]

-- A slash ends a piece.
split-slash :
    (d q : Text) → split_on is_slash (d ++ slash ∷ q) ≡ split_on is_slash d ++ split_on is_slash q
unfolding split_on
split-slash [] q = refl
split-slash (x ∷ d) q =
    let (p, ps, h) = split_cons d in
    let ih = split-slash d q in
    elim (Bool-cases (is_slash x)) [
      | inl e ↦ rw e (ap (◌∷◌ []) ih)
      | inr e ↦ rw e (ap (push_piece x) ih ∙ rw h refl)
    ]

resolve-append :
    (stack xs ys : List Text)
    → resolve true stack (xs ++ ys) ≡ resolve true (resolve true stack xs) ys
unfolding resolve
resolve-append stack [] ys = refl
resolve-append stack (x ∷ xs) ys = resolve-append (push_part true x stack) xs ys

stack_under :
    (d p : Text)
    → resolve true [] (split_on is_slash (d ++ slash ∷ p))
      ≡ resolve true (resolve true [] (split_on is_slash d)) (split_on is_slash p)
stack_under d p =
    ap (resolve true []) (split-slash d p)
    ∙ resolve-append [] (split_on is_slash d) (split_on is_slash p)

resolve_one :
    (p : Text) (stack : List Text) → IsPart p → resolve true stack (split_on is_slash p) ≡ p ∷ stack
unfolding resolve
resolve_one p stack h =
    ap (resolve true stack) (split_on_self p h.0) ∙ push_part_of_IsPart p stack h

resolve-dot : (stack : List Text) → resolve true stack (split_on is_slash dot) ≡ stack
unfolding resolve push_part split_on
resolve-dot [] = refl
resolve-dot (top ∷ rest) = refl

parts_under :
    (d p : Text) → IsPart p → clean_parts true (d ++ slash ∷ p) ≡ clean_parts true d ++ p ∷ []
unfolding clean_parts
parts_under d p h =
    let stack = resolve true [] (split_on is_slash d) in
    ap reverse (stack_under d p ∙ resolve_one p stack h) ∙ reverse-cons p stack

parts_dot : (d : Text) → clean_parts true (d ++ slash ∷ dot) ≡ clean_parts true d
unfolding clean_parts
parts_dot d = ap reverse (stack_under d dot ∙ resolve-dot (resolve true [] (split_on is_slash d)))

joined :
    (d p : Text)
    → is_abs d ≡ true
    → (is_abs (d ++ slash ∷ p) ≡ true) × (join_path (d ∷ p ∷ []) ≡ clean (d ++ slash ∷ p))
unfolding join_path join_with
joined [] p h = cc
joined (c ∷ s) p h = (h, refl)

-- A name joined under a rooted directory is one more element behind those of the directory.
pub parts_of-join_path :
    (d p : Text)
    → is_abs d ≡ true
    → IsPart p
    → parts_of (join_path (d ∷ p ∷ [])) ≡ parts_of d ++ p ∷ []
parts_of-join_path d p h part =
    let (rooted, j) = joined d p h in
    ap parts_of j
    ∙ ((clean_rooted (d ++ slash ∷ p) rooted).1 ∙ (unfold parts_of in parts_under d p part))

pub join_path-IsPart :
    (d p : Text)
    → is_abs d ≡ true
    → IsPart p
    → join_path (d ∷ p ∷ []) ≡ slash ∷ join_with (slash ∷ []) (parts_of d ++ p ∷ [])
join_path-IsPart d p h part =
    let (rooted, j) = joined d p h in
    j
    ∙ (rooted_form (d ++ slash ∷ p) rooted
        ∙ ap (λ ps. slash ∷ join_with (slash ∷ []) ps) (unfold parts_of in parts_under d p part))

-- A clean rooted path joined with `.` is the path.
pub join_path-dot : (d : Text) → is_abs d ≡ true → join_path (clean d ∷ dot ∷ []) ≡ clean d
join_path-dot d h =
    let (abs, same) = clean_rooted d h in
    let (rooted, j) = joined (clean d) dot abs in
    let dotted : parts_of (clean d ++ slash ∷ dot) ≡ parts_of (clean d) =
      unfold parts_of in parts_dot (clean d) in
    j
    ∙ (rooted_form (clean d ++ slash ∷ dot) rooted
        ∙ (ap (λ ps. slash ∷ join_with (slash ∷ []) ps) (dotted ∙ same) ∙ sym (rooted_form d h)))
