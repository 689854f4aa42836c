-- ===== src/Approval/Commands.antt =====
-- Which shell commands internal/infra/approval/approval.go blocks, and which it takes for a change
-- of files.
use codefolio.Common.{
  Text, codes, List, [], ◌∷◌, Bool, true, false, ◌||◌, ◌==◌, contains, to_lower, if◌then◌else◌,
}
use codefolio.Regex.{
  Regex, empty, cls, many, seq, alt, bound, at_end, is_word, lit, some_of, re_space, not_newline,
  match_string,
}

-- `contains` any of the tokens, in order.
unfoldable pub any_contains : Text → List Text → Bool
any_contains s [] = false
any_contains s (t ∷ ts) = let rest = any_contains s ts in if contains s t then true else rest

abbrev file_modifying_tokens : List Text
file_modifying_tokens =
    codes "gofmt -w"
    ∷ codes "go fmt"
    ∷ codes "prettier --write"
    ∷ codes "prettier -w"
    ∷ codes "eslint --fix"
    ∷ codes "sed -i"
    ∷ codes "touch "
    ∷ codes "mkdir "
    ∷ codes "cp "
    ∷ codes "mv "
    ∷ codes "rm "
    ∷ codes ">"
    ∷ []

unfoldable pub is_file_modifying_command : Text → Bool
unfolding any_contains contains
is_file_modifying_command command = any_contains (to_lower command) file_modifying_tokens

abbrev space : Regex
space = some_of re_space

abbrev infixed : List Regex → Regex
infixed [] = empty
infixed (r ∷ rs) = seq r (infixed rs)

abbrev not_line_end : Regex
not_line_end = many not_newline

-- `(?:\s|$)`.
abbrev space_or_end : Regex
space_or_end = alt (cls re_space) at_end

pub dangerous_command_patterns : List Regex
dangerous_command_patterns =
    infixed (
      bound
      ∷ lit (codes "rm")
      ∷ space
      ∷ lit (codes "-")
      ∷ not_line_end
      ∷ lit (codes "r")
      ∷ not_line_end
      ∷ lit (codes "f")
      ∷ space
      ∷ lit (codes "/")
      ∷ space_or_end
      ∷ [])
    ∷ infixed (
        bound
        ∷ lit (codes "mkfs")
        ∷ alt (seq (lit (codes ".")) (some_of (λ c. is_word c || c == b'-'))) empty
        ∷ bound
        ∷ [])
    ∷ infixed
        (bound ∷ lit (codes "dd") ∷ space ∷ not_line_end ∷ bound ∷ lit (codes "of=/dev/") ∷ [])
    ∷ infixed (
        bound
        ∷ lit (codes "chmod")
        ∷ space
        ∷ lit (codes "-r")
        ∷ space
        ∷ lit (codes "777")
        ∷ space
        ∷ lit (codes "/")
        ∷ [])
    ∷ infixed (
        bound
        ∷ alt (lit (codes "curl")) (lit (codes "wget"))
        ∷ bound
        ∷ not_line_end
        ∷ lit (codes "|")
        ∷ many re_space
        ∷ alt (lit (codes "sh")) (lit (codes "bash"))
        ∷ bound
        ∷ [])
    ∷ infixed (
        bound
        ∷ lit (codes "git")
        ∷ space
        ∷ lit (codes "push")
        ∷ bound
        ∷ not_line_end
        ∷ lit (codes "--force")
        ∷ [])
    ∷ infixed (
        bound
        ∷ lit (codes "git")
        ∷ space
        ∷ lit (codes "reset")
        ∷ space
        ∷ lit (codes "--hard")
        ∷ bound
        ∷ [])
    ∷ infixed (
        bound
        ∷ lit (codes "git")
        ∷ space
        ∷ lit (codes "clean")
        ∷ space
        ∷ lit (codes "-")
        ∷ not_line_end
        ∷ lit (codes "f")
        ∷ [])
    ∷ infixed (
        bound
        ∷ lit (codes "git")
        ∷ space
        ∷ lit (codes "checkout")
        ∷ space
        ∷ lit (codes ".")
        ∷ space_or_end
        ∷ [])
    ∷ infixed (
        bound
        ∷ lit (codes "git")
        ∷ space
        ∷ lit (codes "branch")
        ∷ space
        ∷ lit (codes "-d")
        ∷ bound
        ∷ [])
    ∷ []

unfoldable pub any_match : List Regex → Text → Bool
unfolding match_string
any_match [] s = false
any_match (r ∷ rs) s = let rest = any_match rs s in if match_string r s then true else rest

unfoldable pub is_dangerous_command : Text → Bool
unfolding any_match dangerous_command_patterns
is_dangerous_command command = any_match dangerous_command_patterns command
