-- ===== src/Registry/Examples.antt =====
-- Inputs for the theorems on internal/infra/tools/registry.go and toolsearch.go.
use codefolio.Common.{
  Text, codes, List, [], ◌∷◌, Bool, true, false, Option, none, some, refl, inl, contains,
}
use codefolio.Domain.Permission.{Tool, ToolCategory, ToolOutcome}
use codefolio.Registry.Store.{
  Registry, is_deferred, matches, search_deferred, search_loop, list_tools, sort_tools,
  insert_sorted, text_le,
}
use codefolio.Registry.Search.{found_tools, clamp_results}
use codefolio.Registry.Visible.{In}

abbrev tool : Text → Option Bool → Tool
tool name deferred = record {
  name = name;
  description = codes "A tool";
  category = ToolCategory.read;
  should_defer = deferred;
  system = none;
  execute = λ ctx args. record { output = []; is_error = false; outcome = ToolOutcome.unset };
}

abbrev glob : Tool
glob = tool (codes "Glob") none

abbrev weather : Tool
weather = tool (codes "mcp__Weather") (some true)

abbrev registry : Registry
registry = record { tools = weather ∷ glob ∷ []; discovered = [] }

weather_matches : In weather (search_deferred registry (codes "WEATHER") 5)
unfolding search_deferred search_loop matches is_deferred list_tools sort_tools insert_sorted
    text_le contains
weather_matches = inl refl

weather_found : In weather (found_tools registry (codes "weather") 0)
unfolding found_tools clamp_results search_deferred search_loop matches is_deferred list_tools
    sort_tools insert_sorted text_le contains
weather_found = inl refl

abbrev no_json : List Tool → Text
no_json _ = []
