-- ===== src/Editing/Replace.antt =====
-- What edit.go uses of the package strings: `Count`, and `Replace` with one replacement.
use codefolio.Common.{
  ℕ, zero, suc, ◌+◌, ◌-◌, ◌==◌, Bool, false, Text, [], ◌∷◌, ◌++◌, true, ◌&&◌, leb, has_prefix,
  is_empty, length, drop, if◌then◌else◌, ◌≡◌, ◌≢◌, refl, ap, sym, append-nil, arith, Bool-cases,
  inl, inr,
}

abbrev within : ℕ → ℕ → ℕ → Bool
within low high c = leb low c && leb c high

-- Whether a byte may stand second in a sequence, by its first byte, and further on.
abbrev is_second : ℕ → ℕ → Bool
is_second c a =
    within (if c == 224 then 160 else if c == 240 then 144 else 128)
      (if c == 237 then 159 else if c == 244 then 143 else 191) a

abbrev continues : ℕ → Text → Bool
continues zero s = true
continues (suc n) [] = false
continues (suc n) (c ∷ s) = let rest = continues n s in within 128 191 c && rest

-- How many bytes the first rune has behind its first one. A byte that starts no valid sequence is a
-- rune of its own.
unfoldable pub rune_tail : ℕ → Text → ℕ
rune_tail c [] = 0
rune_tail c (a ∷ s) =
    if within 194 223 c && is_second c a
    then 1
    else if within 224 239 c && is_second c a && continues 1 s
    then 2
    else if within 240 244 c && is_second c a && continues 2 s
    then 3
    else 0

-- The runes behind so many bytes that belong to the last one, and `utf8.RuneCountInString`.
unfoldable pub runes_behind : ℕ → Text → ℕ
unfolding rune_tail
runes_behind k [] = 0
runes_behind zero (c ∷ s) = suc (runes_behind (rune_tail c s) s)
runes_behind (suc k) (c ∷ s) = runes_behind k s

unfoldable pub rune_count : Text → ℕ
unfolding runes_behind
rune_count s = runes_behind 0 s

-- The matches of a text that is not empty, none of them overlapping; the number is that of the bytes
-- that belong to the last match.
unfoldable pub count_from : ℕ → Text → Text → ℕ
count_from k [] sub = 0
count_from (suc k) (c ∷ s) sub = count_from k s sub
count_from zero (c ∷ s) sub =
    let hit = suc (count_from (length sub - 1) s sub) in
    let miss = count_from zero s sub in if has_prefix (c ∷ s) sub then hit else miss

-- `strings.Count`.
unfoldable pub count : Text → Text → ℕ
unfolding count_from rune_count
count s sub = if is_empty sub then rune_count s + 1 else count_from 0 s sub

-- `strings.Replace(s, old, new, 1)`.
unfoldable pub replace_first : Text → Text → Text → Text
replace_first [] old new = if is_empty old then new else []
replace_first (c ∷ s) old new =
    let rest = c ∷ replace_first s old new in
    if has_prefix (c ∷ s) old then new ++ drop (length old) (c ∷ s) else rest

has_prefix_split : (s p : Text) → has_prefix s p ≡ true → s ≡ p ++ drop (length p) s
has_prefix_split s [] h = refl
has_prefix_split [] (y ∷ p) h = cc
has_prefix_split (x ∷ s) (y ∷ p) h = ground (arith, has_prefix_split s p)

-- A text that occurs is replaced where it occurs first.
pub replace_first_lem :
    (s old new : Text)
    → count_from 0 s old ≢ 0
    → (pre : Text) × (post : Text) × (s ≡ pre ++ (old ++ post))
      × (replace_first s old new ≡ pre ++ (new ++ post))
unfolding count_from replace_first
replace_first_lem [] old new h = absurd (h refl)
replace_first_lem (c ∷ s) old new h = elim (Bool-cases (has_prefix (c ∷ s) old)) [
  | inl e ↦ ([], drop (length old) (c ∷ s), has_prefix_split (c ∷ s) old e, rw e)
  | inr e ↦
      let h' : count_from 0 s old ≢ 0 = rw e at h in
      let (pre, post, p, q) = replace_first_lem s old new h' in
      (c ∷ pre, post, ap (◌∷◌ c) p, rw e (ap (◌∷◌ c) q))
]

-- The same for the empty text, which occurs everywhere and is replaced at the front.
replace_empty : (s new : Text) → replace_first s [] new ≡ new ++ s
unfolding replace_first
replace_empty [] new = sym (append-nil new)
replace_empty (c ∷ s) new = refl

pub replace_counted :
    (s old new : Text)
    → count s old ≢ 0
    → (pre : Text) × (post : Text) × (s ≡ pre ++ (old ++ post))
      × (replace_first s old new ≡ pre ++ (new ++ post))
unfolding count
replace_counted s [] new h = ([], s, refl, replace_empty s new)
replace_counted s (x ∷ old) new h = replace_first_lem s (x ∷ old) new h

-- The count passes over a match that overlaps the one before it: of the two places where `aa` stands
-- in `aaa`, it counts one.
count_overlapping : (x : ℕ) → count (x ∷ x ∷ x ∷ []) (x ∷ x ∷ []) ≡ 1
unfolding count count_from
count_overlapping x = ground arith

-- `é`, a byte that starts nothing, and `a`.
runes_counted : rune_count (195 ∷ 169 ∷ 195 ∷ 97 ∷ []) ≡ 3
unfolding rune_count runes_behind rune_tail
runes_counted = refl
