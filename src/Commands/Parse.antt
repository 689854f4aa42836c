-- ===== src/Commands/Parse.antt =====
-- `ParseCommand` and `ValidCommandName` of internal/domain/command.go.
use codefolio.Common.{
  ℕ, Text, codes, [], ◌∷◌, ◌++◌, Bool, true, false, not, ◌&&◌, ◌||◌, ◌==◌, leb, to_lower,
  trim_space, has_prefix, is_empty, drop, if◌then◌else◌, ◌≡◌, refl, arith,
}

abbrev pub is_name_byte : ℕ → Bool
is_name_byte c =
    leb b'a' c && leb c b'z'
    || leb b'A' c && leb c b'Z'
    || leb b'0' c && leb c b'9'
    || c == b'-'
    || c == b':'

unfoldable pub all_name_bytes : Text → Bool
all_name_bytes [] = true
all_name_bytes (c ∷ s) = is_name_byte c && all_name_bytes s

unfoldable pub valid_command_name : Text → Bool
unfolding all_name_bytes
valid_command_name s = not (is_empty s) && all_name_bytes s

pub record ParsedCommand : Type 0 where
  pub name : Text
  pub args : Text

-- What `ParseCommand` returns: no command, `ErrInvalidCommand`, or a command.
pub data Parsed : Type 0 where
  no_command invalid : Parsed
  command : ParsedCommand → Parsed

abbrev pub ends_name : ℕ → Bool
ends_name c = c == 32 || c == 9 || c == 10 || c == 13

-- The name before the first white space, and what stands from there on.
unfoldable pub split_name : Text → Text × Text
split_name [] = ([], [])
split_name (c ∷ s) =
    let rest = split_name s in if ends_name c then ([], c ∷ s) else (c ∷ rest.0, rest.1)

-- `ParseCommand` behind the slash.
unfoldable pub parse_body : Text → Parsed
unfolding split_name valid_command_name
parse_body s =
    let parts = split_name s in
    if not (is_empty parts.0) && valid_command_name parts.0
    then Parsed.command (record { name = to_lower parts.0; args = trim_space parts.1 })
    else Parsed.invalid

unfoldable pub parse_command : Text → Parsed
unfolding parse_body
parse_command input =
    let trimmed = trim_space input in
    if not (has_prefix trimmed (codes "/"))
    then Parsed.no_command
    else if has_prefix trimmed (codes "//")
    then Parsed.invalid
    else parse_body (drop 1 trimmed)

-- The command line of a name and its arguments.
unfoldable pub command_line : Text → Text → Text
command_line name args = 47 ∷ (name ++ 32 ∷ args)

pub name_ends_not : (c : ℕ) → is_name_byte c ≡ true → ends_name c ≡ false
name_ends_not c h = ground (arith, h)

split_name-append :
    (name rest : Text)
    → all_name_bytes name ≡ true
    → split_name (name ++ 32 ∷ rest) ≡ (name, 32 ∷ rest)
unfolding split_name all_name_bytes
split_name-append [] rest h = refl
split_name-append (c ∷ s) rest h =
    let first : is_name_byte c ≡ true = ground (arith, h) in
    let others : all_name_bytes s ≡ true = ground (arith, h) in
    rw (name_ends_not c first, split_name-append s rest others) refl

parse_body_lem :
    (name args : Text)
    → valid_command_name name ≡ true
    → parse_body (name ++ 32 ∷ args)
      ≡ Parsed.command (record { name = to_lower name; args = trim_space (32 ∷ args) })
unfolding parse_body valid_command_name
parse_body_lem name args v =
    let bytes : all_name_bytes name ≡ true = ground (arith, v) in
    let full : not (is_empty name) ≡ true = ground (arith, v) in
    rw (split_name-append name args bytes) (rw (full, bytes) refl)

no_second_slash : (c : ℕ) → is_name_byte c ≡ true → (c == 47) ≡ false
no_second_slash c h = ground (arith, h)

-- A slash, a valid name, a space and arguments, with no white space at the end of the line, are parsed
-- to the lower-case name and the trimmed arguments.
pub parse_command-command_line :
    (name args : Text)
    → valid_command_name name ≡ true
    → trim_space (command_line name args) ≡ command_line name args
    → parse_command (command_line name args)
      ≡ Parsed.command (record { name = to_lower name; args = trim_space (32 ∷ args) })
unfolding parse_command command_line
parse_command-command_line [] args v t = unfold valid_command_name in cc
parse_command-command_line (c ∷ s) args v t =
    let first : is_name_byte c ≡ true =
      unfold valid_command_name all_name_bytes in ground (arith, v) in
    rw (t, parse_command) (rw (no_second_slash c first) (parse_body_lem (c ∷ s) args v))
