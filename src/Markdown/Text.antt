-- ===== src/Markdown/Text.antt =====
-- The texts of internal/infra/command/loader.go: the name of a file, its header, its first line of
-- text, and the prompt that it renders. The decoder of YAML is an argument.
use codefolio.Common.{
  ℕ, zero, suc, ◌-◌, Text, codes, List, [], ◌∷◌, ◌++◌, not, ◌&&◌, Option, none, some, is_empty,
  has_prefix, contains, trim_space, lines_of, length, drop, if◌then◌else◌, ◌⊎◌, inl, inr,
}

pub record Meta : Type 0 where
  pub description : Text
  pub argument_hint : Text
  pub aliases : List Text

abbrev pub no_meta : Meta
no_meta = record { description = []; argument_hint = []; aliases = [] }

-- Why a file gives no command.
pub data Fault : Type 0 where
  unread : Text → Fault
  exceeds_limit outside_root : Fault
  invalid_name : Text → Fault
  not_closed : Fault
  undecoded : Text → Fault
  empty_body : Fault
  invalid_alias : Text → Fault

-- `strings.ReplaceAll` of a text that is not empty; the number is that of the bytes that belong to the
-- last match.
unfoldable pub replace_from : ℕ → Text → Text → Text → Text
replace_from k [] old new = []
replace_from (suc k) (c ∷ s) old new = replace_from k s old new
replace_from zero (c ∷ s) old new =
    let hit = replace_from (length old - 1) s old new in
    let miss = replace_from zero s old new in
    if has_prefix (c ∷ s) old then new ++ hit else c ∷ miss

-- The parts of a text around the first place where another one stands: `strings.Index` and the slices.
unfoldable pub split_at : Text → Text → Option (Text × Text)
split_at sub [] = if is_empty sub then some ([], []) else none
split_at sub (c ∷ s) =
    let rest = split_at sub s in
    if has_prefix (c ∷ s) sub
    then some ([], drop (length sub) (c ∷ s))
    else elim rest [ none ↦ none | some (p, q) ↦ some (c ∷ p, q) ]

unfoldable pub frontmatter : (Text → Text ⊎ Meta) → Text → Fault ⊎ (Meta × Text)
unfolding split_at
frontmatter unmarshal content =
    if not (has_prefix content (codes "---\n"))
    then inr (no_meta, content)
    else elim (split_at (codes "\n---\n") (drop 4 content)) [
      | none ↦ inl Fault.not_closed
      | some (header, body) ↦ elim (unmarshal header) [
        | inl e ↦ inl (Fault.undecoded e)
        | inr decoded ↦ inr (decoded, body)
      ]
    ]

unfoldable pub first_text : List Text → Text
first_text [] = []
first_text (l ∷ ls) =
    let rest = first_text ls in
    let line = trim_space l in
    if not (is_empty line) && not (has_prefix line (codes "#")) then line else rest

unfoldable pub description : Text → Text
unfolding first_text
description body = first_text (lines_of body)

abbrev pub placeholder : Text
placeholder = codes "$ARGUMENTS"

unfoldable pub render : Text → Text → Text
unfolding replace_from
render body args =
    if contains body placeholder
    then replace_from 0 body placeholder args
    else if is_empty (trim_space args)
    then body
    else body ++ (codes "\n\n## User Request\n\n" ++ args)
