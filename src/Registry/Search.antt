-- ===== src/Registry/Search.antt =====
-- `Execute` of internal/infra/tools/toolsearch/toolsearch.go. The indented JSON of the schemas is an
-- argument, and so is what `IntArg` makes of `max_results`; a negative number is 0.
use codefolio.Common.{
  ℕ, Text, codes, List, [], ◌∷◌, ◌++◌, Bool, true, false, ◌==◌, ltb, map, null, is_empty,
  has_prefix, drop, split_on, trim_space, join_with, length, if◌then◌else◌,
}
use codefolio.Domain.Permission.{Tool, ToolResult, ToolOutcome}
use codefolio.Executor.Run.{quote}
use codefolio.Session.Ids.{itoa}
use codefolio.Registry.Store.{
  Registry, mark_discovered, search_deferred, find_deferred_by_names, get_deferred_tool_names,
}

abbrev pub answer : Text → Bool → ToolResult
answer output is_error = record {
  output = output;
  is_error = is_error;
  outcome = ToolOutcome.unset;
}

unfoldable pub clamp_results : ℕ → ℕ
clamp_results n = if ltb n 1 then 5 else if ltb 20 n then 20 else n

unfoldable pub mark_all : Registry → List Tool → Registry
unfolding mark_discovered
mark_all r [] = r
mark_all r (t ∷ ts) = mark_all (mark_discovered r t.name) ts

unfoldable pub found_tools : Registry → Text → ℕ → List Tool
found_tools r query max_results =
    if has_prefix query (codes "select:")
    then find_deferred_by_names r (map trim_space (split_on (λ c. c == b',') (drop 7 query)))
    else search_deferred r query (clamp_results max_results)

unfoldable pub tool_search : (List Tool → Text) → Registry → Text → ℕ → Registry × ToolResult
unfolding found_tools mark_all
tool_search encode r query max_results =
    if is_empty query
    then (r, answer (codes "Error: query is required") true)
    else (let found = found_tools r query max_results in
        let hidden = get_deferred_tool_names r in
        if null found
        then (
          r,
          answer
              (if null hidden
                then codes "No deferred tools available for query " ++ (quote query ++ codes ".")
                else codes "No matching deferred tools found for query "
                  ++ (quote query
                      ++ (codes ". Available deferred tools: " ++ join_with (codes ", ") hidden)))
              false,
        )
        else (
          mark_all r found,
          answer
              (codes "Found "
                ++ (itoa (length found)
                    ++ (codes
                          " tool(s). Their full schemas are now loaded and will be available in subsequent requests:\n\n"
                        ++ encode found)))
              false,
        ))
