-- ===== src/Registry/Found.antt =====
-- What the registry of internal/infra/tools/registry.go finds, by name and by the search of
-- internal/infra/tools/toolsearch/toolsearch.go.
use codefolio.Common.{
  ℕ, ◌-◌, ◌≤◌, Text, codes, List, [], ◌∷◌, ◌++◌, true, false, leb, none, some, is_some, text_eq,
  text_eq_refl, map, to_lower, null, is_empty, has_prefix, length, if◌then◌else◌, ◌≡◌, refl, ◌↔◌,
  ◌⊎◌, inl, inr, arith, Bool-cases, Option-cases,
}
use codefolio.Domain.Permission.{Tool}
use codefolio.Registry.Store.{
  Registry, find_tool, get, register, mark_discovered, has_name, is_discovered, is_deferred,
  list_tools, get_all_schemas, matches, search_loop, search_deferred, find_deferred_by_names,
}
use codefolio.Registry.Search.{tool_search, found_tools, mark_all, clamp_results}
use codefolio.Registry.Visible.{In, In-keep_if, In-kept, In-list_tools, get_all_schemas_iff}

search_loop_sound :
    (query : Text) (t : Tool) (k : ℕ) (ts : List Tool)
    → In t (search_loop query k ts)
    → In t ts × (is_deferred t ≡ true) × (matches query t ≡ true)
unfolding search_loop
search_loop_sound query t k [] h = absurd h
search_loop_sound query t k (u ∷ us) h = elim (Bool-cases (is_deferred u)) [
  | inr plain ↦ let (i, d, q) = search_loop_sound query t k us (rw plain at h) in (inr i, d, q)
  | inl hidden ↦ elim (Bool-cases (matches query u)) [
    | inr miss ↦
        let (i, d, q) = search_loop_sound query t k us (rw (hidden, miss) at h) in (inr i, d, q)
    | inl hit ↦
        let h' : (t ≡ u) ⊎ In t (if leb k 1 then [] else search_loop query (k - 1) us) =
          rw (hidden, hit) at h in
        elim h' [
          | inl same ↦ (inl same, rw same hidden, rw same hit)
          | inr rest ↦ elim (Bool-cases (leb k 1)) [
            | inl last ↦ absurd (rw last at rest)
            | inr more ↦
                let (i, d, q) = search_loop_sound query t (k - 1) us (rw more at rest) in
                (inr i, d, q)
          ]
        ]
  ]
]

search_loop_bound :
    (query : Text) (k : ℕ) (ts : List Tool) → 1 ≤ k → length (search_loop query k ts) ≤ k
unfolding search_loop
search_loop_bound query k [] le = omega (arith, le)
search_loop_bound query k (u ∷ us) le = elim (Bool-cases (is_deferred u)) [
  | inr plain ↦ rw plain (search_loop_bound query k us le)
  | inl hidden ↦ elim (Bool-cases (matches query u)) [
    | inr miss ↦ rw (hidden, miss) (search_loop_bound query k us le)
    | inl hit ↦ elim (Bool-cases (leb k 1)) [
      | inl last ↦ rw (hidden, hit, last) (omega (arith, le))
      | inr more ↦
          let two : 2 ≤ k = ground (arith, more) in
          let ih = search_loop_bound query (k - 1) us (omega (arith, two)) in
          rw (hidden, hit, more) (omega (arith, ih, two))
    ]
  ]
]

-- A search for keywords finds registered tools that are deferred and have the query in their lower-case
-- name or description, and not more of them than it is to find, if that is not zero.
pub search_deferred_lem :
    (r : Registry) (query : Text) (k : ℕ) (t : Tool)
    → 1 ≤ k
    → In t (search_deferred r query k)
    → In t r.tools
      × (is_deferred t ≡ true)
      × (matches (to_lower query) t ≡ true)
      × (length (search_deferred r query k) ≤ k)
unfolding search_deferred
search_deferred_lem r query k t le h =
    let (i, hidden, hit) = search_loop_sound (to_lower query) t k (list_tools r) h in
    ((In-list_tools t r).0 i, hidden, hit, search_loop_bound (to_lower query) k (list_tools r) le)

-- A search for names finds every registered tool of one of the names, letter case aside, whether or
-- not it is deferred.
pub find_deferred_by_names_iff :
    (r : Registry) (names : List Text) (t : Tool)
    → In t (find_deferred_by_names r names)
      ↔ (In t r.tools × (has_name (to_lower t.name) (map to_lower names) ≡ true))
unfolding find_deferred_by_names
find_deferred_by_names_iff r names t =
    let (to_, from_) = In-list_tools t r in
    (
      λ h.
          let (i, q) =
            In-keep_if (λ u. has_name (to_lower u.name) (map to_lower names)) t (list_tools r) h in
          (to_ i, q),
      λ (i, q).
          In-kept (λ u. has_name (to_lower u.name) (map to_lower names)) t (list_tools r) (from_ i)
            q,
    )

found_tools_registered :
    (r : Registry) (query : Text) (max_results : ℕ) (t : Tool)
    → In t (found_tools r query max_results)
    → In t r.tools
unfolding found_tools search_deferred
found_tools_registered r query max_results t h =
    elim (Bool-cases (has_prefix query (codes "select:"))) [
      | inl e ↦ ((find_deferred_by_names_iff r _ t).0 (rw e at h)).0
      | inr e ↦
          (In-list_tools t r).0
            (search_loop_sound (to_lower query) t (clamp_results max_results) (list_tools r)
              (rw e at h)).0
    ]

mark_all_tools : (r : Registry) (ts : List Tool) → (mark_all r ts).tools ≡ r.tools
unfolding mark_all mark_discovered
mark_all_tools r [] = refl
mark_all_tools r (t ∷ ts) = mark_all_tools (mark_discovered r t.name) ts

mark_all_keeps :
    (r : Registry) (ts : List Tool) (n : Text)
    → is_discovered r n ≡ true
    → is_discovered (mark_all r ts) n ≡ true
unfolding mark_all mark_discovered is_discovered has_name
mark_all_keeps r [] n h = h
mark_all_keeps r (t ∷ ts) n h = mark_all_keeps (mark_discovered r t.name) ts n (ground (arith, h))

mark_all_marks :
    (r : Registry) (ts : List Tool) (t : Tool)
    → In t ts
    → is_discovered (mark_all r ts) t.name ≡ true
unfolding mark_all
mark_all_marks r [] t h = absurd h
mark_all_marks r (u ∷ us) t (inr h) = mark_all_marks (mark_discovered r u.name) us t h
mark_all_marks r (u ∷ us) t (inl same) =
    rw same (mark_all_keeps (mark_discovered r u.name) us u.name (marked r u.name))
  where
    marked : (r : Registry) (n : Text) → is_discovered (mark_discovered r n) n ≡ true
    marked r n = unfold is_discovered mark_discovered has_name in ground (arith, text_eq_refl n)

not_null : (t : Tool) (ts : List Tool) → In t ts → null ts ≡ false
not_null t [] h = absurd h
not_null t (u ∷ us) h = refl

tool_search_marks :
    (encode : List Tool → Text) (r : Registry) (query : Text) (max_results : ℕ)
    → is_empty query ≡ false
    → null (found_tools r query max_results) ≡ false
    → (tool_search encode r query max_results).0 ≡ mark_all r (found_tools r query max_results)
unfolding tool_search
tool_search_marks encode r query max_results e n = rw (e, n) refl

-- Every tool that a search finds is seen by the provider from then on.
pub tool_search_shows :
    (encode : List Tool → Text) (r : Registry) (query : Text) (max_results : ℕ) (t : Tool)
    → is_empty query ≡ false
    → In t (found_tools r query max_results)
    → In t (get_all_schemas (tool_search encode r query max_results).0)
tool_search_shows encode r query max_results t e h =
    let found = found_tools r query max_results in
    let marked = mark_all_marks r found t h in
    let registered : In t (mark_all r found).tools =
      rw (mark_all_tools r found) (found_tools_registered r query max_results t h) in
    rw (tool_search_marks encode r query max_results e (not_null t found h))
      ((get_all_schemas_iff (mark_all r found) t).1 (registered, rw marked (ground arith)))

find_tool-snoc :
    (name : Text) (ts : List Tool) (t : Tool)
    → find_tool name ts ≡ none
    → text_eq t.name name ≡ true
    → find_tool name (ts ++ t ∷ []) ≡ some t
unfolding find_tool
find_tool-snoc name [] t h e = rw e refl
find_tool-snoc name (u ∷ us) t h e = elim (Bool-cases (text_eq u.name name)) [
  | inl hit ↦ ground (arith, hit, h)
  | inr miss ↦ rw miss (find_tool-snoc name us t (rw miss at h) e)
]

find_tool_other :
    (name : Text) (ts : List Tool) (t : Tool)
    → text_eq t.name name ≡ false
    → find_tool name (ts ++ t ∷ []) ≡ find_tool name ts
unfolding find_tool
find_tool_other name [] t e = rw e refl
find_tool_other name (u ∷ us) t e = ground (arith, find_tool_other name us t e)

-- A registered tool is found under its name, a name that is taken is refused with no change, and
-- the other names are found as before.
pub get-register :
    (r : Registry) (t : Tool) (name : Text)
    → ((is_some (get r t.name) ≡ true) × ((register r t).1 ≡ r) × (is_some (register r t).0 ≡ true))
      ⊎ ((get r t.name ≡ none)
          × ((register r t).0 ≡ none)
          × (get (register r t).1 t.name ≡ some t)
          × ((text_eq t.name name ≡ true) ⊎ (get (register r t).1 name ≡ get r name)))
unfolding get register
get-register r t name = elim (Option-cases (find_tool t.name r.tools)) [
  | inr (u, e) ↦ inl (rw (e, register) (refl, refl, refl))
  | inl e ↦ inr (
    e,
    rw (e, register) refl,
    rw (e, register) (find_tool-snoc t.name r.tools t e (text_eq_refl t.name)),
    elim (Bool-cases (text_eq t.name name)) [
      | inl same ↦ inl same
      | inr other ↦ inr (rw (e, register) (find_tool_other name r.tools t other))
    ],
  )
]
