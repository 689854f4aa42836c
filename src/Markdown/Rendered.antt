-- ===== src/Markdown/Rendered.antt =====
-- The prompt that `render` of internal/infra/command/loader.go makes of a body and its arguments.
use codefolio.Common.{
  ℕ, Text, codes, List, [], ◌∷◌, ◌++◌, true, false, elem, has_prefix, contains, is_empty, null,
  trim_space, join_with, All, if◌then◌else◌, append-nil, ◌≡◌, refl, ap, ◌∙◌, arith,
}
use codefolio.Markdown.Text.{placeholder, replace_from, render}

abbrev pub NoDollar : Text → Type 0
NoDollar s = elem b'$' s ≡ false

no_match : (c : ℕ) (s t : Text) → NoDollar (c ∷ s) → has_prefix (c ∷ t) placeholder ≡ false
no_match c s t h = ground (arith, h)

replace_none :
    (p t args : Text)
    → NoDollar p
    → replace_from 0 (p ++ t) placeholder args ≡ p ++ replace_from 0 t placeholder args
unfolding replace_from
replace_none [] t args h = refl
replace_none (c ∷ p) t args h =
    let h' : NoDollar p = ground (arith, h) in
    rw (no_match c p (p ++ t) h) (ap (◌∷◌ c) (replace_none p t args h'))

replace_hit :
    (t args : Text)
    → replace_from 0 (placeholder ++ t) placeholder args ≡ args ++ replace_from 0 t placeholder args
unfolding replace_from
replace_hit t args = refl

-- Pieces of text with the placeholder between them.
replace-join :
    (p : Text) (ps : List Text) (args : Text)
    → All NoDollar (p ∷ ps)
    → replace_from 0 (join_with placeholder (p ∷ ps)) placeholder args ≡ join_with args (p ∷ ps)
unfolding join_with
replace-join p [] args a =
    let none_left : replace_from 0 (p ++ []) placeholder args ≡ p ++ [] =
      unfold replace_from in replace_none p [] args a.0 in
    rw (append-nil p) at none_left
replace-join p (q ∷ ps) args a =
    let rest = join_with placeholder (q ∷ ps) in
    replace_none p (placeholder ++ rest) args a.0
    ∙ ap (◌++◌ p) (replace_hit rest args ∙ ap (◌++◌ args) (replace-join q ps args a.1))

contains_here : (p t : Text) → contains (p ++ (placeholder ++ t)) placeholder ≡ true
unfolding contains
contains_here [] t = refl
contains_here (c ∷ p) t = rw (contains_here p t) (ground arith)

contains_none : (p : Text) → NoDollar p → contains p placeholder ≡ false
unfolding contains
contains_none [] h = refl
contains_none (c ∷ p) h =
    let h' : NoDollar p = ground (arith, h) in rw (no_match c p p h, contains_none p h') refl

-- A body is cut at its placeholders into pieces with no dollar sign: with more than one piece the
-- arguments stand in the place of each placeholder, and with one they stand behind the body, where they
-- are not blank.
pub render_lem :
    (p : Text) (ps : List Text) (args : Text)
    → All NoDollar (p ∷ ps)
    → render (join_with placeholder (p ∷ ps)) args ≡ (
        if null ps
        then (if is_empty (trim_space args)
            then p
            else p ++ (codes "\n\n## User Request\n\n" ++ args))
        else join_with args (p ∷ ps))
unfolding render
render_lem p [] args a = unfold join_with in rw (contains_none p a.0) refl
render_lem p (q ∷ ps) args a =
    let found : contains (join_with placeholder (p ∷ q ∷ ps)) placeholder ≡ true =
      unfold join_with in contains_here p (join_with placeholder (q ∷ ps)) in
    rw found (replace-join p (q ∷ ps) args a)
