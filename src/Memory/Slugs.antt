-- ===== src/Memory/Slugs.antt =====
-- `memorySlug` of internal/svc/memory.go names a file in the directory of the memory.
use codefolio.Common.{
  ℕ, Text, codes, [], ◌∷◌, ◌++◌, Bool, true, false, not, ◌&&◌, ◌||◌, text_eq, is_empty, elem,
  to_lower, trim, trim_left, trim_space, reverse, ◌≡◌, refl, sym, ap, ◌∙◌, arith, Option, none,
  some, Option-cases, Bool-cases, inl, inr, All,
}
use codefolio.Filepath.{IsPart, is_abs, parts_of, join_path, parts_of-join_path, All-reverse}
use codefolio.Memory.Files.{saved, not_saved, save_memory, memory_file}
use codefolio.Memory.Text.{Proposal, is_slug_byte, is_dash, slug_from, memory_slug}

abbrev pub InSlug : ℕ → Type 0
InSlug c = (is_slug_byte c || is_dash c) ≡ true

slug_from-InSlug : (written dash : Bool) (s : Text) → All InSlug (slug_from written dash s)
unfolding slug_from
slug_from-InSlug written dash [] = tt
slug_from-InSlug written dash (c ∷ s) = elim (Bool-cases (is_slug_byte c)) [
  | inl e ↦ rw e (ground (arith, e), slug_from-InSlug true false s)
  | inr e ↦ elim (Bool-cases (not dash && written)) [
    | inl d ↦ rw (e, d) (refl, slug_from-InSlug true true s)
    | inr d ↦ rw (e, d) (slug_from-InSlug written dash s)
  ]
]

All-trim_left {κ} : (P : ℕ → Type κ) (p : ℕ → Bool) (s : Text) → All P s → All P (trim_left p s)
All-trim_left P p [] h = tt
All-trim_left P p (x ∷ s) h = elim (Bool-cases (p x)) [
  | inl e ↦ rw e (All-trim_left P p s h.1)
  | inr e ↦ rw e h
]

All-trim {κ} : (P : ℕ → Type κ) (p : ℕ → Bool) (s : Text) → All P s → All P (trim p s)
unfolding trim
All-trim P p s h = All-reverse P (trim_left p (reverse (trim_left p s))) (
    All-trim_left P p (reverse (trim_left p s))
      (All-reverse P (trim_left p s) (All-trim_left P p s h)))

pub memory_slug-InSlug : (value : Text) → All InSlug (memory_slug value)
unfolding memory_slug
memory_slug-InSlug value =
    All-trim InSlug is_dash (slug_from false false (to_lower (trim_space value)))
      (slug_from-InSlug false false (to_lower (trim_space value)))

abbrev pub file_name : Text → Text
file_name slug = slug ++ codes ".md"

no_slash : (s : Text) → All InSlug s → elem 47 (file_name s) ≡ false
no_slash [] h = refl
no_slash (c ∷ s) h = ground (arith, h.0, no_slash s h.1)

file_name-IsPart : (s : Text) → All InSlug s → IsPart (file_name s)
file_name-IsPart [] h = (refl, refl, refl, refl)
file_name-IsPart (c ∷ s) h = (no_slash (c ∷ s) h, refl, ground (arith, h.0), ground (arith, h.0))

not_index : (s : Text) → All InSlug s → text_eq (file_name s) (codes "MEMORY.md") ≡ false
not_index [] h = refl
not_index (c ∷ s) h = ground (arith, h.0)

-- Where a proposal is saved in a rooted directory, whatever its name is, slashes and dots included: the
-- file stands directly in this directory, under a name that is not that of the index, and holds the
-- memory of the proposal.
pub save_memory_stays :
    (mkdir : Option Text) (write : Text → Option Text) (root time path content : Text)
    (p : Proposal)
    → is_abs root ≡ true
    → save_memory mkdir write root p time ≡ saved path content
    → (parts_of path ≡ parts_of root ++ file_name (memory_slug p.name) ∷ [])
      × (text_eq (file_name (memory_slug p.name)) (codes "MEMORY.md") ≡ false)
      × (content ≡ memory_file p time)
unfolding save_memory
save_memory_stays none write root time path content p h s =
    let slug = memory_slug-InSlug p.name in
    let at = join_path (root ∷ file_name (memory_slug p.name) ∷ []) in
    elim (Bool-cases (is_empty (memory_slug p.name))) [
      | inl e ↦
          let bad : not_saved (codes "invalid memory name") ≡ saved path content = rw e at s in cc
      | inr e ↦ elim (Option-cases (write at)) [
        | inr (m, f) ↦ let bad : not_saved m ≡ saved path content = rw (e, f) at s in cc
        | inl f ↦
            let one : saved at (memory_file p time) ≡ saved path content = rw (e, f) at s in
            let same : at ≡ path = cc in
            (
              sym (ap parts_of same)
                  ∙ parts_of-join_path root (file_name (memory_slug p.name)) h
                      (file_name-IsPart (memory_slug p.name) slug),
              not_index (memory_slug p.name) slug,
              cc,
            )
      ]
    ]
save_memory_stays (some e) write root time path content p h s = cc
