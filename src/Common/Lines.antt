-- ===== src/Common/Lines.antt =====
-- The lines of a text: `strings.Split` and `strings.Join` at the newline.
use Prim.Native.Nat.{ℕ}
use mathlib.Core.Path.{◌≡◌, refl, sym, ap, ◌∙◌}
use mathlib.Core.Logic.{inl, inr}
use mathlib.Core.Bool.{Bool, true, false}
use mathlib.Core.List.{List, [], ◌∷◌, ◌++◌}
use native.Mathlib.Omega.{arith}
use codefolio.Common.Tests.{◌==◌, Bool-cases}
use codefolio.Common.Lists.{All}
use codefolio.Common.Bytes.{Text, elem, split_on, push_piece, join_with}

abbrev pub is_newline : ℕ → Bool
is_newline c = c == 10

abbrev pub lines_of : Text → List Text
lines_of s = split_on is_newline s

-- A line has no newline.
abbrev pub IsLine : Text → Type 0
IsLine [] = Unit
IsLine (c ∷ s) = (is_newline c ≡ false) × IsLine s

pub IsLine-append : (s t : Text) → IsLine s → IsLine t → IsLine (s ++ t)
IsLine-append [] t a b = b
IsLine-append (c ∷ s) t a b = (a.0, IsLine-append s t a.1 b)

pub elem-IsLine : (s : Text) → elem 10 s ≡ false → IsLine s
elem-IsLine [] h = tt
elem-IsLine (c ∷ s) h = (ground (arith, h), elem-IsLine s (ground (arith, h)))

pub push_piece-IsLine :
    (x : ℕ) (ps : List Text) → is_newline x ≡ false → All IsLine ps → All IsLine (push_piece x ps)
push_piece-IsLine x [] h a = ((h, tt), tt)
push_piece-IsLine x (p ∷ ps) h a = ((h, a.0), a.1)

pub lines_of-IsLine : (s : Text) → All IsLine (lines_of s)
unfolding split_on
lines_of-IsLine [] = (tt, tt)
lines_of-IsLine (x ∷ s) = elim (Bool-cases (is_newline x)) [
  | inl e ↦ rw e (tt, lines_of-IsLine s)
  | inr e ↦ rw e (push_piece-IsLine x (lines_of s) e (lines_of-IsLine s))
]

pub lines_of-append : (p q : Text) → IsLine p → lines_of (p ++ 10 ∷ q) ≡ p ∷ lines_of q
unfolding split_on
lines_of-append [] q h = refl
lines_of-append (x ∷ p) q h = rw (h.0) (ap (push_piece x) (lines_of-append p q h.1))

pub lines_of_line : (p : Text) → IsLine p → lines_of p ≡ p ∷ []
unfolding split_on
lines_of_line [] h = refl
lines_of_line (x ∷ p) h = rw (h.0) (ap (push_piece x) (lines_of_line p h.1))

pub push_piece_cons :
    (x : ℕ) (ps : List Text) → (p : Text) × (qs : List Text) × (push_piece x ps ≡ p ∷ qs)
push_piece_cons x [] = (x ∷ [], [], refl)
push_piece_cons x (p ∷ ps) = (x ∷ p, ps, refl)

pub lines_cons : (s : Text) → (p : Text) × (ps : List Text) × (lines_of s ≡ p ∷ ps)
unfolding split_on
lines_cons [] = ([], [], refl)
lines_cons (x ∷ s) = elim (Bool-cases (is_newline x)) [
  | inl e ↦ rw e ([], lines_of s, refl)
  | inr e ↦ rw e (push_piece_cons x (lines_of s))
]

pub join-push_piece :
    (x : ℕ) (p : Text) (ps : List Text)
    → join_with (10 ∷ []) (push_piece x (p ∷ ps)) ≡ x ∷ join_with (10 ∷ []) (p ∷ ps)
unfolding join_with
join-push_piece x p [] = refl
join-push_piece x p (q ∷ ps) = refl

pub joined_newline :
    (x : ℕ) (p : Text) (ps : List Text)
    → is_newline x ≡ true
    → join_with (10 ∷ []) ([] ∷ p ∷ ps) ≡ x ∷ join_with (10 ∷ []) (p ∷ ps)
unfolding join_with
joined_newline x p ps h = ground arith

-- A text is its lines, joined again.
pub join-lines_of : (s : Text) → join_with (10 ∷ []) (lines_of s) ≡ s
unfolding split_on
join-lines_of [] = unfold join_with in refl
join-lines_of (x ∷ s) =
    let (p, ps, h) = lines_cons s in
    let ih : join_with (10 ∷ []) (p ∷ ps) ≡ s =
      ap (join_with (10 ∷ [])) (sym h) ∙ join-lines_of s in
    elim (Bool-cases (is_newline x)) [
      | inl e ↦ rw (e, h) (joined_newline x p ps e ∙ ap (◌∷◌ x) ih)
      | inr e ↦ rw (e, h) (join-push_piece x p ps ∙ ap (◌∷◌ x) ih)
    ]

-- Lines that are joined are split again.
pub lines-join :
    (line : Text) (lines : List Text)
    → All IsLine (line ∷ lines)
    → lines_of (join_with (10 ∷ []) (line ∷ lines)) ≡ line ∷ lines
unfolding join_with
lines-join line [] a = lines_of_line line a.0
lines-join line (next ∷ lines) a =
    lines_of-append line (join_with (10 ∷ []) (next ∷ lines)) a.0
    ∙ ap (◌∷◌ line) (lines-join next lines a.1)
