-- ===== src/Registry/Visible.antt =====
-- What the registry of internal/infra/tools/registry.go shows to the provider.
use codefolio.Common.{
  List, [], ◌∷◌, Bool, true, false, not, ◌&&◌, keep_if, ◌≡◌, refl, ◌↔◌, ◌⊎◌, inl, inr, arith,
  Bool-cases,
}
use codefolio.Domain.Permission.{Tool}
use codefolio.Registry.Store.{
  Registry, is_discovered, is_deferred, text_le, insert_sorted, sort_tools, list_tools, is_visible,
  get_all_schemas,
}

abbrev pub In : Tool → List Tool → Type 0
In t [] = ⊥
In t (u ∷ us) = (t ≡ u) ⊎ In t us

pub In-keep_if :
    (p : Tool → Bool) (t : Tool) (ts : List Tool) → In t (keep_if p ts) → In t ts × (p t ≡ true)
In-keep_if p t [] h = absurd h
In-keep_if p t (u ∷ us) h = elim (Bool-cases (p u)) [
  | inl e ↦
      let h' : (t ≡ u) ⊎ In t (keep_if p us) = rw e at h in
      elim h' [
        | inl same ↦ (inl same, rw same e)
        | inr rest ↦ let (i, q) = In-keep_if p t us rest in (inr i, q)
      ]
  | inr e ↦
      let h' : In t (keep_if p us) = rw e at h in let (i, q) = In-keep_if p t us h' in (inr i, q)
]

pub In-kept :
    (p : Tool → Bool) (t : Tool) (ts : List Tool) → In t ts → p t ≡ true → In t (keep_if p ts)
In-kept p t [] h q = absurd h
In-kept p t (u ∷ us) (inl same) q = let e : p u ≡ true = rw same at q in rw e (inl same)
In-kept p t (u ∷ us) (inr h) q = elim (Bool-cases (p u)) [
  | inl e ↦ rw e (inr (In-kept p t us h q))
  | inr e ↦ rw e (In-kept p t us h q)
]

In-insert_sorted : (t u : Tool) (us : List Tool) → In t (insert_sorted u us) → (t ≡ u) ⊎ In t us
unfolding insert_sorted
In-insert_sorted t u [] h = h
In-insert_sorted t u (v ∷ vs) h = elim (Bool-cases (text_le u.name v.name)) [
  | inl e ↦ rw e at h
  | inr e ↦
      let h' : (t ≡ v) ⊎ In t (insert_sorted u vs) = rw e at h in
      elim h' [
        | inl same ↦ inr (inl same)
        | inr rest ↦ elim (In-insert_sorted t u vs rest) [
          | inl same ↦ inl same
          | inr i ↦ inr (inr i)
        ]
      ]
]

In-inserted : (t u : Tool) (us : List Tool) → (t ≡ u) ⊎ In t us → In t (insert_sorted u us)
unfolding insert_sorted
In-inserted t u [] h = h
In-inserted t u (v ∷ vs) h = elim (Bool-cases (text_le u.name v.name)) [
  | inl e ↦ rw e h
  | inr e ↦ rw e (elim h [
    | inl same ↦ inr (In-inserted t u vs (inl same))
    | inr (inl same) ↦ inl same
    | inr (inr i) ↦ inr (In-inserted t u vs (inr i))
  ])
]

In-sort_tools : (t : Tool) (ts : List Tool) → In t (sort_tools ts) ↔ In t ts
unfolding sort_tools
In-sort_tools t [] = (λ h. h, λ h. h)
In-sort_tools t (u ∷ us) =
    let (to_, from_) = In-sort_tools t us in
    (
      λ h. elim (In-insert_sorted t u (sort_tools us) h) [ inl e ↦ inl e | inr i ↦ inr (to_ i) ],
      λ h. In-inserted t u (sort_tools us) (elim h [ inl e ↦ inl e | inr i ↦ inr (from_ i) ]),
    )

pub In-list_tools : (t : Tool) (r : Registry) → In t (list_tools r) ↔ In t r.tools
unfolding list_tools
In-list_tools t r = In-sort_tools t r.tools

-- The provider sees the schema of a tool exactly if the tool is registered, and is not deferred or has
-- been discovered.
pub get_all_schemas_iff :
    (r : Registry) (t : Tool)
    → In t (get_all_schemas r)
      ↔ (In t r.tools × ((is_deferred t && not (is_discovered r t.name)) ≡ false))
unfolding get_all_schemas
get_all_schemas_iff r t =
    let (to_, from_) = In-list_tools t r in
    (
      λ h. let (i, v) = In-keep_if (is_visible r) t (list_tools r) h in (to_ i, ground (arith, v)),
      λ (i, v). In-kept (is_visible r) t (list_tools r) (from_ i) (rw v refl),
    )
