-- ===== src/Regex.antt =====
-- What the code uses of Go's package regexp: sequences, alternatives, repeated byte classes, word
-- boundaries and the end of the text, under `(?i)` over ASCII. A position is the byte before it and
-- the rest of the text.

use codefolio.Common.{
  ℕ, Text, Option, none, some, List, [], ◌∷◌, ◌++◌, Bool, false, not, ◌&&◌, ◌||◌, ◌==◌, leb, lower,
  null, if◌then◌else◌,
}

pub data Regex : Type 0 where
  empty : Regex
  cls : (ℕ → Bool) → Regex
  many : (ℕ → Bool) → Regex
  seq : Regex → Regex → Regex
  alt : Regex → Regex → Regex
  bound : Regex
  at_end : Regex

-- `\w`.
abbrev pub is_word : ℕ → Bool
is_word c = leb b'a' (lower c) && leb (lower c) b'z' || leb b'0' c && leb c b'9' || c == b'_'

abbrev word_at : Option ℕ → Bool
word_at none = false
word_at (some c) = is_word c

abbrev first? : Text → Option ℕ
first? [] = none
first? (c ∷ s) = some c

-- `\b`: a word byte on one side only.
abbrev pub at_bound : Option ℕ → Text → Bool
at_bound prev s = if word_at prev then not (word_at (first? s)) else word_at (first? s)

abbrev pub Pos : Type 0
Pos = Option ℕ × Text

-- Where the repetition of a class can stop.
unfoldable pub run_many : (ℕ → Bool) → Option ℕ → Text → List Pos
run_many p prev [] = (prev, []) ∷ []
run_many p prev (c ∷ s) =
    let rest = run_many p (some c) s in (prev, c ∷ s) ∷ (if p c then rest else [])

unfoldable pub flat {ℓ κ} : {A : Type ℓ} {B : Type κ} → (A → List B) → List A → List B
flat f [] = []
flat f (x ∷ xs) = f x ++ flat f xs

-- Every position at which a match that begins here can end.
unfoldable pub run : Regex → Pos → List Pos
unfolding run_many flat
run empty q = q ∷ []
run (cls p) (prev, []) = []
run (cls p) (prev, c ∷ s) = if p c then (some c, s) ∷ [] else []
run (many p) (prev, s) = run_many p prev s
run (seq a b) q = flat (run b) (run a q)
run (alt a b) q = run a q ++ run b q
run bound (prev, s) = if at_bound prev s then (prev, s) ∷ [] else []
run at_end (prev, s) = if null s then (prev, s) ∷ [] else []

-- `MatchString`: a match that begins anywhere.
unfoldable pub search_from : Regex → Option ℕ → Text → Bool
unfolding run
search_from r prev [] = not (null (run r (prev, [])))
search_from r prev (c ∷ s) = not (null (run r (prev, c ∷ s))) || search_from r (some c) s

unfoldable pub match_string : Regex → Text → Bool
unfolding search_from
match_string r s = search_from r none s

-- Shorthands: a word without regard to case, and `+`.
abbrev pub lit : Text → Regex
lit [] = empty
lit (c ∷ s) = seq (cls (λ x. lower x == c)) (lit s)

abbrev pub some_of : (ℕ → Bool) → Regex
some_of p = seq (cls p) (many p)

-- `\s`.
abbrev pub re_space : ℕ → Bool
re_space c = c == 9 || c == 10 || c == 12 || c == 13 || c == 32

abbrev pub not_newline : ℕ → Bool
not_newline c = not (c == 10)
