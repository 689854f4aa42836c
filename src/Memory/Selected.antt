-- ===== src/Memory/Selected.antt =====
-- The memories that `selectRelevant` of internal/svc/memory.go selects.
use codefolio.Common.{
  ℕ, suc, ◌+◌, ◌≤◌, ◌<◌, Text, codes, List, [], ◌∷◌, ◌++◌, Option, none, some, text_eq,
  text_eq_sound, null, trim_space, length, ◌==◌, ◌≡◌, sym, ◌∙◌, ap, ◌⊎◌, inl, inr, arith,
  Bool-cases, Option-cases, All,
}
use codefolio.Memory.Files.{Candidate}
use codefolio.Memory.Recall.{by_id, manifest_of, select_ids, select_relevant, recall_max}

abbrev pub In : Candidate → List Candidate → Type 0
In c [] = ⊥
In c (d ∷ ds) = (c ≡ d) ⊎ In c ds

by_id_sound :
    (cs : List Candidate) (id : Text) (c : Candidate) → by_id cs id ≡ some c → In c cs × (c.id ≡ id)
unfolding by_id
by_id_sound [] id c h = cc
by_id_sound (d ∷ ds) id c h = elim (Option-cases (by_id ds id)) [
  | inr (l, e) ↦
      let one : some l ≡ some c = rw e at h in
      let rest = by_id_sound ds id c (e ∙ one) in (inr rest.0, rest.1)
  | inl e ↦ elim (Bool-cases (text_eq d.id id)) [
    | inr t ↦ let bad : none ≡ some c = rw (e, t) at h in cc
    | inl t ↦
        let one : some d ≡ some c = rw (e, t) at h in
        let same : d ≡ c = cc in
        (inl (sym same), sym (ap (λ (x : Candidate). x.id) same) ∙ text_eq_sound d.id id t)
  ]
]

select_ids_lem :
    (cs : List Candidate) (n : ℕ) (ids : List Text)
    → n < recall_max
    → (length (select_ids cs n ids) + n ≤ recall_max) × All (λ c. In c cs) (select_ids cs n ids)
unfolding select_ids
select_ids_lem cs n [] lt = (omega arith, tt)
select_ids_lem cs n (id ∷ ids) lt = elim (Option-cases (by_id cs id)) [
  | inl e ↦ elim (Bool-cases (n == recall_max)) [
    | inl full ↦ rw (e, full, select_ids) (omega arith, tt)
    | inr more ↦ rw (e, more, select_ids) (select_ids_lem cs n ids lt)
  ]
  | inr (c, e) ↦
      let found = by_id_sound cs id c e in
      elim (Bool-cases (suc n == recall_max)) [
        | inl full ↦ rw (e, full, select_ids) (ground (arith, full), (found.0, tt))
        | inr more ↦
            let ih = select_ids_lem cs (suc n) ids (ground (arith, more, lt)) in
            rw (e, more, select_ids) (omega (arith, ih.0), (found.0, ih.1))
      ]
]

-- Whatever the provider answers, at most five memories are recalled, and each is a candidate.
pub select_relevant_bounded :
    (ask : Text → Option Text) (decode : Text → Option (List Text)) (query : Text)
    (cs : List Candidate)
    → (length (select_relevant ask decode query cs) ≤ 5)
      × All (λ c. In c cs) (select_relevant ask decode query cs)
unfolding select_relevant
select_relevant_bounded ask decode query cs = elim (Bool-cases (null cs)) [
  | inl e ↦ rw e (omega arith, tt)
  | inr e ↦
      elim (Option-cases
        (ask (codes "Request:\n" ++ (query ++ (codes "\n\nCandidates:\n" ++ manifest_of cs))))) [
          | inl a ↦ rw (e, a, select_relevant) (omega arith, tt)
          | inr (response, a) ↦ elim (Option-cases (decode (trim_space response))) [
            | inl d ↦ rw (e, a, d, select_relevant) (omega arith, tt)
            | inr (ids, d) ↦
                let lem = select_ids_lem cs 0 ids (omega arith) in
                rw (e, a, d, select_relevant) (omega (arith, lem.0), lem.1)
          ]
        ]
]
