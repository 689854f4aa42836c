-- ===== src/Commands/Laws.antt =====
-- What the registry of commands in internal/svc/command.go guarantees: no command hides another.
use codefolio.Common.{
  Text, codes, List, [], ◌∷◌, ◌++◌, false, ◌||◌, ltb, some, text_eq_refl, to_lower, map, length,
  drop, ◌≡◌, refl, sym, ◌∙◌, ◌⊎◌, inl, inr, arith, Bool-cases, length-append,
}
use mathlib.Core.Path.{subst}
use codefolio.Commands.Parse.{valid_command_name, all_name_bytes}
use codefolio.Commands.Table.{
  Command, CommandRegistry, key_in, alias_conflict, keys, lowered, accepts, resolve_commands,
  replace_dynamic, answers_to, find_in, find_command, builtin_commands, new_command_registry,
}

abbrev pub Among : Command → List Command → Type 0
Among d [] = ⊥
Among d (c ∷ cs) = (d ≡ c) ⊎ Among d cs

key_in-append : (k : Text) (xs ys : List Text) → key_in k (xs ++ ys) ≡ (key_in k xs || key_in k ys)
unfolding key_in
key_in-append k [] ys = refl
key_in-append k (x ∷ xs) ys = ground (arith, key_in-append k xs ys)

answers_to-keys : (name : Text) (c : Command) → answers_to name c ≡ key_in name (keys c)
unfolding key_in
answers_to-keys name c = refl

-- No accepted command has its name among the used keys.
resolve_commands-unused :
    (used : List Text) (cs : List Command) (d : Command)
    → Among d (resolve_commands used cs)
    → key_in d.name used ≡ false
unfolding resolve_commands
resolve_commands-unused used [] d h = absurd h
resolve_commands-unused used (c ∷ cs) d h = elim (Bool-cases (accepts used (lowered c))) [
  | inr skip ↦ resolve_commands-unused used cs d (rw skip at h)
  | inl taken ↦
      let h' : (d ≡ lowered c) ⊎ Among d (resolve_commands (keys (lowered c) ++ used) cs) =
        rw taken at h in
      elim h' [
        | inl same ↦
            let free : key_in (to_lower c.name) used ≡ false =
              unfold accepts in ground (arith, taken) in
            rw same free
        | inr rest ↦
            let both = resolve_commands-unused (keys (lowered c) ++ used) cs d rest in
            let split = key_in-append d.name (keys (lowered c)) used in ground (arith, both, split)
      ]
]

find_in-resolve_commands :
    (used : List Text) (cs : List Command) (d : Command)
    → Among d (resolve_commands used cs)
    → find_in d.name (resolve_commands used cs) ≡ some d
unfolding resolve_commands find_in
find_in-resolve_commands used [] d h = absurd h
find_in-resolve_commands used (c ∷ cs) d h = elim (Bool-cases (accepts used (lowered c))) [
  | inr skip ↦ rw skip (find_in-resolve_commands used cs d (rw skip at h))
  | inl taken ↦
      let h' : (d ≡ lowered c) ⊎ Among d (resolve_commands (keys (lowered c) ++ used) cs) =
        rw taken at h in
      rw taken (elim h' [
        | inl same ↦ rw (same, text_eq_refl (to_lower c.name)) refl
        | inr rest ↦
            let ih = find_in-resolve_commands (keys (lowered c) ++ used) cs d rest in
            let both = resolve_commands-unused (keys (lowered c) ++ used) cs d rest in
            let split = key_in-append d.name (keys (lowered c)) used in
            let other : key_in d.name (keys (lowered c)) ≡ false = ground (arith, both, split) in
            let silent : answers_to d.name (lowered c) ≡ false =
              answers_to-keys d.name (lowered c) ∙ other in
            rw silent ih
      ])
]

drop-append : (xs ys : List Command) → drop (length xs) (xs ++ ys) ≡ ys
drop-append [] ys = refl
drop-append (x ∷ xs) ys = drop-append xs ys

replace_dynamic_lem :
    (r : CommandRegistry) (commands ys : List Command)
    → resolve_commands [] (r.builtins ++ commands) ≡ r.builtins ++ ys
    → replace_dynamic r commands ≡ record r { dynamic = ys }
unfolding replace_dynamic
replace_dynamic_lem r commands ys h =
    let long : ltb (length (r.builtins ++ ys)) (length r.builtins) ≡ false =
      ground (arith, length-append r.builtins ys) in
    rw (h, long, drop-append r.builtins ys) refl

-- The keys of the built-in commands, the last command's first.
abbrev built_in_keys : List Text
built_in_keys = map codes (
    "review" ∷ "quit" ∷ "exit" ∷ "commands" ∷ "resume" ∷ "r" ∷ "session" ∷ "memory" ∷ "compact"
    ∷ "c" ∷ "new" ∷ "mcp" ∷ "status" ∷ "s" ∷ "help" ∷ "h" ∷ [])

built_in-accepted :
    (commands : List Command)
    → resolve_commands [] (builtin_commands ++ commands)
      ≡ builtin_commands ++ resolve_commands built_in_keys commands
unfolding resolve_commands accepts alias_conflict key_in valid_command_name all_name_bytes
built_in-accepted commands = refl

-- After `ReplaceDynamic` on the built-in registry, `Find` with any upper- or lower-case spelling of a
-- command's name, built in or dynamic, returns this command: no other one hides it.
pub find_command-replace_dynamic :
    (commands : List Command) (d : Command) (name : Text)
    → Among d (
        (replace_dynamic new_command_registry commands).builtins
        ++ (replace_dynamic new_command_registry commands).dynamic)
    → to_lower name ≡ d.name
    → find_command (replace_dynamic new_command_registry commands) name ≡ some d
unfolding find_command new_command_registry
find_command-replace_dynamic commands d name among same =
    let all = built_in-accepted commands in
    let registry =
      replace_dynamic_lem new_command_registry commands (resolve_commands built_in_keys commands)
        all in
    let here : Among d (resolve_commands [] (builtin_commands ++ commands)) =
      subst (Among d) (sym all) (rw registry at among) in
    rw registry (
      subst (λ cs. find_in (to_lower name) cs ≡ some d) all
        (rw same (find_in-resolve_commands [] (builtin_commands ++ commands) d here)))
