-- ===== src/Registry/Store.antt =====
-- `Registry` of internal/infra/tools/registry.go. A schema stands for itself as its tool, since the
-- `name` in it is the tool's name. The map of the tools, which is always read sorted or by name, is the
-- list of the tools in the order of their registration.
use codefolio.Common.{
  ℕ, ◌-◌, Text, codes, List, [], ◌∷◌, ◌++◌, Bool, true, false, not, ◌&&◌, ◌||◌, ◌==◌, ltb, leb,
  Option, none, some, text_eq, map, keep_if, to_lower, contains, if◌then◌else◌,
}
use codefolio.Domain.Permission.{Tool}
use codefolio.Executor.Run.{quote}

pub record Registry : Type 0 where
  pub tools : List Tool
  pub discovered : List Text

unfoldable pub new_registry : Registry
new_registry = record { tools = []; discovered = [] }

unfoldable pub find_tool : Text → List Tool → Option Tool
find_tool name [] = none
find_tool name (t ∷ ts) =
    let rest = find_tool name ts in if text_eq t.name name then some t else rest

unfoldable pub get : Registry → Text → Option Tool
unfolding find_tool
get r name = find_tool name r.tools

-- The error of a name that is taken, and the registry.
unfoldable pub register : Registry → Tool → Option Text × Registry
unfolding find_tool
register r t = elim (find_tool t.name r.tools) [
  | some _ ↦ (some (codes "tool " ++ (quote t.name ++ codes " is already registered")), r)
  | none ↦ (none, record r { tools = r.tools ++ t ∷ [] })
]

unfoldable pub mark_discovered : Registry → Text → Registry
mark_discovered r name = record r { discovered = name ∷ r.discovered }

unfoldable pub has_name : Text → List Text → Bool
has_name n [] = false
has_name n (m ∷ ms) = text_eq n m || has_name n ms

unfoldable pub is_discovered : Registry → Text → Bool
unfolding has_name
is_discovered r name = has_name name r.discovered

unfoldable pub is_deferred : Tool → Bool
is_deferred t = elim t.should_defer [ none ↦ false | some b ↦ b ]

-- `<=` on strings, by their bytes.
unfoldable pub text_le : Text → Text → Bool
text_le [] t = true
text_le (x ∷ s) [] = false
text_le (x ∷ s) (y ∷ t) = let rest = text_le s t in if x == y then rest else ltb x y

unfoldable pub insert_sorted : Tool → List Tool → List Tool
insert_sorted t [] = t ∷ []
insert_sorted t (u ∷ us) =
    let rest = insert_sorted t us in if text_le t.name u.name then t ∷ u ∷ us else u ∷ rest

unfoldable pub sort_tools : List Tool → List Tool
unfolding insert_sorted
sort_tools [] = []
sort_tools (t ∷ ts) = insert_sorted t (sort_tools ts)

unfoldable pub list_tools : Registry → List Tool
list_tools r = sort_tools r.tools

abbrev pub is_visible : Registry → Tool → Bool
is_visible r t = not (is_deferred t && not (is_discovered r t.name))

unfoldable pub get_all_schemas : Registry → List Tool
get_all_schemas r = keep_if (is_visible r) (list_tools r)

unfoldable pub get_deferred_tools : Registry → List Tool
get_deferred_tools r = keep_if is_deferred (list_tools r)

unfoldable pub get_deferred_tool_names : Registry → List Text
get_deferred_tool_names r =
    map (λ (t : Tool). t.name)
      (keep_if (λ t. is_deferred t && not (is_discovered r t.name)) (list_tools r))

-- The text of a tool that a query is looked for in: its name or its description.
unfoldable pub matches : Text → Tool → Bool
matches query t = contains (to_lower t.name) query || contains (to_lower t.description) query

-- The loop that breaks when it has found so many.
unfoldable pub search_loop : Text → ℕ → List Tool → List Tool
unfolding matches is_deferred
search_loop query k [] = []
search_loop query k (t ∷ ts) =
    let next = search_loop query (k - 1) ts in
    let same = search_loop query k ts in
    if not (is_deferred t)
    then same
    else if matches query t
    then t ∷ (if leb k 1 then [] else next)
    else same

unfoldable pub search_deferred : Registry → Text → ℕ → List Tool
unfolding search_loop
search_deferred r query max_results = search_loop (to_lower query) max_results (list_tools r)

unfoldable pub find_deferred_by_names : Registry → List Text → List Tool
unfolding has_name
find_deferred_by_names r names =
    keep_if (λ t. has_name (to_lower t.name) (map to_lower names)) (list_tools r)
