-- ===== src/Markdown/Header.antt =====
-- The header of a Markdown command, as `frontmatter` of internal/infra/command/loader.go finds it.
use codefolio.Common.{
  Text, codes, List, [], ◌∷◌, ◌++◌, false, text_eq, has_prefix, some, none, join_with, IsLine, All,
  append_assoc, ◌≡◌, refl, ap, ◌∙◌, arith, ◌⊎◌, inl, inr,
}
use codefolio.Markdown.Text.{Meta, Fault, split_at, frontmatter}

abbrev dashes : Text
dashes = codes "---"

abbrev IsOther : Text → Type 0
IsOther l = text_eq l dashes ≡ false

line_prefix :
    (q p t : Text) → IsLine q → IsLine p → has_prefix (q ++ 10 ∷ t) (p ++ 10 ∷ []) ≡ text_eq q p
line_prefix [] [] t a b = refl
line_prefix [] (y ∷ p) t a b = ground (arith, b)
line_prefix (x ∷ q) [] t a b = ground (arith, a)
line_prefix (x ∷ q) (y ∷ p) t a b = rw (line_prefix q p t a.1 b.1) refl

split_here :
    (l body : Text)
    → IsLine l
    → split_at (10 ∷ dashes ++ 10 ∷ []) (l ++ 10 ∷ (dashes ++ 10 ∷ body)) ≡ some (l, body)
unfolding split_at
split_here [] body a = refl
split_here (c ∷ l) body a = rw (a.0, split_here l body a.1) refl

split_past :
    (l rest p q : Text)
    → IsLine l
    → has_prefix rest (dashes ++ 10 ∷ []) ≡ false
    → split_at (10 ∷ dashes ++ 10 ∷ []) rest ≡ some (p, q)
    → split_at (10 ∷ dashes ++ 10 ∷ []) (l ++ 10 ∷ rest) ≡ some (l ++ 10 ∷ p, q)
unfolding split_at
split_past [] rest p q a h e = rw (h, e) refl
split_past (c ∷ l) rest p q a h e = rw (a.0, split_past l rest p q a.1 h e) refl

joined_prefix :
    (k : Text) (ls : List Text) (t : Text)
    → IsLine k
    → has_prefix (join_with (10 ∷ []) (k ∷ ls) ++ 10 ∷ t) (dashes ++ 10 ∷ []) ≡ text_eq k dashes
unfolding join_with
joined_prefix k [] t a = line_prefix k dashes t a (refl, (refl, (refl, tt)))
joined_prefix k (l ∷ ls) t a =
    let joined = join_with (10 ∷ []) (l ∷ ls) in
    ap (λ s. has_prefix s (dashes ++ 10 ∷ [])) (append_assoc k (10 ∷ joined) (10 ∷ t))
    ∙ line_prefix k dashes (joined ++ 10 ∷ t) a (refl, (refl, (refl, tt)))

split-join :
    (l : Text) (ls : List Text) (body : Text)
    → All IsLine (l ∷ ls)
    → All IsOther ls
    → split_at (10 ∷ dashes ++ 10 ∷ []) (join_with (10 ∷ []) (l ∷ ls) ++ 10 ∷ (dashes ++ 10 ∷ body))
      ≡ some (join_with (10 ∷ []) (l ∷ ls), body)
unfolding join_with
split-join l [] body a o = split_here l body a.0
split-join l (k ∷ ls) body a o =
    let joined = join_with (10 ∷ []) (k ∷ ls) in
    let rest = joined ++ 10 ∷ (dashes ++ 10 ∷ body) in
    ap (split_at (10 ∷ dashes ++ 10 ∷ []))
      (append_assoc l (10 ∷ joined) (10 ∷ (dashes ++ 10 ∷ body)))
    ∙ split_past l rest joined body a.0 (joined_prefix k ls (dashes ++ 10 ∷ body) a.1.0 ∙ o.0)
        (split-join k ls body a.1 o.1)

-- A file that starts with a line of three dashes, lines of which none but the first may be three dashes
-- again, and a line of three dashes: what stands between them is decoded, and what stands behind them is
-- the body. A file whose header has no line, so that the closing dashes stand right below the opening
-- ones, is refused as not closed where no other line of three dashes follows.
pub frontmatter_lem :
    (unmarshal : Text → Text ⊎ Meta) (l : Text) (ls : List Text) (body rest : Text)
    → All IsLine (l ∷ ls)
    → All IsOther ls
    → split_at (codes "\n---\n") (10 ∷ rest) ≡ none
    → (frontmatter unmarshal
          (codes "---\n" ++ (join_with (10 ∷ []) (l ∷ ls) ++ (codes "\n---\n" ++ body)))
        ≡ elim (unmarshal (join_with (10 ∷ []) (l ∷ ls))) [
          | inl e ↦ inl (Fault.undecoded e)
          | inr m ↦ inr (m, body)
        ])
      × (frontmatter unmarshal (codes "---\n---\n" ++ rest) ≡ inl Fault.not_closed)
unfolding frontmatter
frontmatter_lem unmarshal l ls body rest a o h =
    (rw (split-join l ls body a o) refl, unfold split_at in rw h refl)
