-- ===== src/Filepath/Parts.antt =====
-- The elements of a path, and the stack that `Clean` keeps of them.
use codefolio.Common.{
  ℕ, Text, List, [], ◌∷◌, ◌++◌, Bool, true, false, ◌==◌, ◌≡◌, refl, ap, sym, ◌∙◌, reverse, text_eq,
  is_empty, elem, split_on, push_piece, join_with, if◌then◌else◌, arith, All, append-nil,
  append_assoc, Bool-cases, inl, inr,
}
use mathlib.Core.List.{reverse-cons, reverse-reverse}

abbrev pub slash : ℕ
slash = 47

abbrev pub is_slash : ℕ → Bool
is_slash c = c == 47

abbrev pub dot : Text
dot = 46 ∷ []

abbrev pub dot_dot : Text
dot_dot = 46 ∷ 46 ∷ []

-- One element on the stack, the top first.
unfoldable pub push_part : Bool → Text → List Text → List Text
push_part rooted [] stack = stack
push_part rooted (c ∷ cs) [] =
    if text_eq (c ∷ cs) dot
    then []
    else if text_eq (c ∷ cs) dot_dot
    then (if rooted then [] else dot_dot ∷ [])
    else (c ∷ cs) ∷ []
push_part rooted (c ∷ cs) (top ∷ rest) =
    if text_eq (c ∷ cs) dot
    then top ∷ rest
    else if text_eq (c ∷ cs) dot_dot
    then (if text_eq top dot_dot then dot_dot ∷ top ∷ rest else rest)
    else (c ∷ cs) ∷ top ∷ rest

unfoldable pub resolve : Bool → List Text → List Text → List Text
unfolding push_part
resolve rooted stack [] = stack
resolve rooted stack (p ∷ ps) = resolve rooted (push_part rooted p stack) ps

unfoldable pub clean_parts : Bool → Text → List Text
unfolding resolve split_on
clean_parts rooted s = reverse (resolve rooted [] (split_on is_slash s))

-- An element that `Clean` leaves in a rooted path.
abbrev pub IsPart : Text → Type 0
IsPart c =
    (elem slash c ≡ false)
    × (is_empty c ≡ false)
    × (text_eq c dot ≡ false)
    × (text_eq c dot_dot ≡ false)

abbrev pub NoSlash : Text → Type 0
NoSlash c = elem slash c ≡ false

push_piece-NoSlash :
    (x : ℕ) (ps : List Text) → is_slash x ≡ false → All NoSlash ps → All NoSlash (push_piece x ps)
push_piece-NoSlash x [] h a = (ground arith, tt)
push_piece-NoSlash x (p ∷ ps) h a = (ground arith, a.1)

split_on-NoSlash : (s : Text) → All NoSlash (split_on is_slash s)
unfolding split_on
split_on-NoSlash [] = (refl, tt)
split_on-NoSlash (x ∷ s) = elim (Bool-cases (is_slash x)) [
  | inl e ↦ rw e (refl, split_on-NoSlash s)
  | inr e ↦ rw e (push_piece-NoSlash x (split_on is_slash s) e (split_on-NoSlash s))
]

push_part-IsPart :
    (p : Text) (stack : List Text)
    → NoSlash p
    → All IsPart stack
    → All IsPart (push_part true p stack)
unfolding push_part
push_part-IsPart [] stack h a = a
push_part-IsPart (c ∷ cs) [] h a = ground arith
push_part-IsPart (c ∷ cs) (top ∷ rest) h a = ground arith

resolve-IsPart :
    (stack ps : List Text) → All NoSlash ps → All IsPart stack → All IsPart (resolve true stack ps)
unfolding resolve
resolve-IsPart stack [] h a = a
resolve-IsPart stack (p ∷ ps) h a =
    resolve-IsPart (push_part true p stack) ps h.1 (push_part-IsPart p stack h.0 a)

All-snoc {ℓ κ} :
    {A : Type ℓ} (P : A → Type κ) (xs : List A) (x : A) → All P xs → P x → All P (xs ++ x ∷ [])
All-snoc P [] x a h = (h, tt)
All-snoc P (y ∷ ys) x a h = (a.0, All-snoc P ys x a.1 h)

pub All-reverse {ℓ κ} : {A : Type ℓ} (P : A → Type κ) (xs : List A) → All P xs → All P (reverse xs)
All-reverse P [] a = a
All-reverse P (x ∷ xs) a =
    rw (reverse-cons x xs) (All-snoc P (reverse xs) x (All-reverse P xs a.1) a.0)

-- Every element of a clean rooted path is a name: not empty, not `.`, not `..`, with no slash.
pub clean_parts-IsPart : (s : Text) → All IsPart (clean_parts true s)
unfolding clean_parts
clean_parts-IsPart s =
    All-reverse IsPart (resolve true [] (split_on is_slash s))
      (resolve-IsPart [] (split_on is_slash s) (split_on-NoSlash s) tt)

split_on-append :
    (p q : Text) → NoSlash p → split_on is_slash (p ++ slash ∷ q) ≡ p ∷ split_on is_slash q
unfolding split_on
split_on-append [] q h = refl
split_on-append (x ∷ p) q h =
    let ih = split_on-append p q (ground arith) in
    let e : is_slash x ≡ false = ground arith in rw (e, ih)

pub split_on_self : (p : Text) → NoSlash p → split_on is_slash p ≡ p ∷ []
unfolding split_on
split_on_self [] h = refl
split_on_self (x ∷ p) h =
    let ih = split_on_self p (ground arith) in
    let e : is_slash x ≡ false = ground arith in rw (e, ih)

pub split_on-join :
    (p : Text) (ps : List Text)
    → All NoSlash (p ∷ ps)
    → split_on is_slash (join_with (slash ∷ []) (p ∷ ps)) ≡ p ∷ ps
unfolding join_with
split_on-join p [] a = split_on_self p a.0
split_on-join p (q ∷ ps) a =
    split_on-append p (join_with (slash ∷ []) (q ∷ ps)) a.0 ∙ ap (◌∷◌ p) (split_on-join q ps a.1)

pub push_part_of_IsPart :
    (p : Text) (stack : List Text) → IsPart p → push_part true p stack ≡ p ∷ stack
unfolding push_part
push_part_of_IsPart [] stack h = cc (h.1)
push_part_of_IsPart (c ∷ cs) [] h = rw (h.2, h.3)
push_part_of_IsPart (c ∷ cs) (top ∷ rest) h = rw (h.2, h.3)

resolve_of_IsPart :
    (ps stack : List Text) → All IsPart ps → resolve true stack ps ≡ reverse ps ++ stack
unfolding resolve
resolve_of_IsPart [] stack a = refl
resolve_of_IsPart (p ∷ ps) stack a =
    rw (push_part_of_IsPart p stack a.0, resolve_of_IsPart ps (p ∷ stack) a.1, reverse-cons p ps)
      (sym (append_assoc (reverse ps) (p ∷ []) stack))

pub IsPart-NoSlash : (ps : List Text) → All IsPart ps → All NoSlash ps
IsPart-NoSlash [] a = tt
IsPart-NoSlash (p ∷ ps) a = (a.0.0, IsPart-NoSlash ps a.1)

-- The elements of a rooted path that is written from names are these names.
pub clean_parts-join :
    (ps : List Text) → All IsPart ps → clean_parts true (slash ∷ join_with (slash ∷ []) ps) ≡ ps
unfolding clean_parts split_on
clean_parts-join [] a = unfold resolve push_part join_with in refl
clean_parts-join (p ∷ ps) a = rw (split_on-join p ps (IsPart-NoSlash (p ∷ ps) a)) (
    ap reverse (resolve_of_IsPart (p ∷ ps) [] a)
    ∙ (ap reverse (append-nil (reverse (p ∷ ps))) ∙ reverse-reverse (p ∷ ps)))
