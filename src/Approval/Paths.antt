-- ===== src/Approval/Paths.antt =====
-- The path checks of internal/infra/approval/approval.go. `cwd` is the result of `os.Getwd`.
use codefolio.Common.{
  Text, codes, List, [], ◌∷◌, Bool, true, false, not, ◌&&◌, ◌||◌, ◌==◌, contains, text_eq, is_empty,
  elem, Option, none, some, trim, split_on, is_space, map, if◌then◌else◌, keep_if,
}
use codefolio.Domain.Permission.{
  ToolInvocation, ToolCategory, Args, Arg, str, non_str, set_arg, ExecutionProfile,
}
use codefolio.Filepath.{is_abs, clean, join_path, abs_path, rel, leaves}

abbrev pub as_text : Option Arg → Text
as_text none = []
as_text (some (str s)) = s
as_text (some non_str) = []

-- `value, _ := args[key].(string)`.
unfoldable pub string_arg : Args → Text → Text
string_arg args key = as_text (args key)

abbrev or_empty : Option Text → Text
or_empty (some s) = s
or_empty none = []

unfoldable pub invocation_path : Option Text → ToolInvocation → Text
unfolding string_arg
invocation_path cwd inv =
    let file_path = string_arg inv.args (codes "file_path") in
    let path = if is_empty file_path then string_arg inv.args (codes "path") else file_path in
    if is_empty path
    then []
    else (let joined = if is_abs path then path else join_path (inv.work_dir ∷ path ∷ []) in
        or_empty (abs_path cwd (clean joined)))

-- The part of `isOutsideWorkspace` behind its early returns.
unfoldable pub outside_path : Option Text → Text → Text → Bool
outside_path cwd work_dir path = elim (abs_path cwd (clean work_dir)) [
  | none ↦ true
  | some dir ↦ elim (rel dir path) [ none ↦ true | some r ↦ leaves r ]
]

-- The invocation that `bashReferencesExternalPath` makes for one field.
unfoldable pub path_invocation : Text → Text → ToolInvocation
path_invocation path work_dir = record {
  id = [];
  name = [];
  category = ToolCategory.other [];
  input = [];
  args = set_arg (λ _. none) (codes "path") (str path);
  work_dir = work_dir;
  profile = ExecutionProfile.other [];
  plan_file = [];
}

abbrev quote_bytes : Text
quote_bytes = codes "'\";|&()"

-- strings.FieldsSeq.
unfoldable pub fields : Text → List Text
fields s = keep_if (λ f. not (is_empty f)) (split_on is_space s)

-- The name of the made invocation is not "Bash", so `isOutsideWorkspace` does not call back.
unfoldable pub any_field_outside : Option Text → Text → List Text → Bool
unfolding path_invocation invocation_path outside_path
any_field_outside cwd work_dir [] = false
any_field_outside cwd work_dir (f ∷ fs) =
    let rest = any_field_outside cwd work_dir fs in
    let path = trim (λ c. elem c quote_bytes) f in
    if not (is_abs path)
    then rest
    else (let p = invocation_path cwd (path_invocation path work_dir) in
        if not (is_empty p) && outside_path cwd work_dir p then true else rest)

unfoldable pub bash_references_external_path : Option Text → Text → Text → Bool
unfolding any_field_outside fields
bash_references_external_path cwd command work_dir = any_field_outside cwd work_dir (fields command)

abbrev pub is_bash : ToolInvocation → Bool
is_bash inv = text_eq inv.name (codes "Bash")

unfoldable pub is_outside_workspace : Option Text → ToolInvocation → Bool
unfolding invocation_path outside_path
is_outside_workspace cwd inv =
    let path = invocation_path cwd inv in
    if is_empty path && is_bash inv
    then bash_references_external_path cwd (string_arg inv.args (codes "command")) inv.work_dir
    else if is_empty path
    then false
    else outside_path cwd inv.work_dir path

abbrev pub is_write : ToolCategory → Bool
is_write ToolCategory.write = true
is_write _ = false

abbrev pub is_read : ToolCategory → Bool
is_read ToolCategory.read = true
is_read _ = false

unfoldable pub is_plan_file : Option Text → ToolInvocation → Bool
unfolding invocation_path
is_plan_file cwd inv =
    if not (is_write inv.category) || is_empty inv.plan_file
    then false
    else (let path = invocation_path cwd inv in
        elim (abs_path cwd (clean inv.plan_file)) [
          | none ↦ false
          | some plan_file ↦ not (is_empty path) && text_eq path plan_file
        ])

unfoldable pub is_protected_path : Option Text → ToolInvocation → Bool
unfolding invocation_path
is_protected_path cwd inv =
    if not (is_write inv.category)
    then false
    else (let path = invocation_path cwd inv in
        if is_empty path then false else elim (abs_path cwd (clean inv.work_dir)) [
          | none ↦ true
          | some dir ↦
              text_eq path (join_path (dir ∷ codes ".codefolio" ∷ codes "config.json" ∷ []))
        ])

abbrev forward_slashes : Text → Text
forward_slashes = map (λ c. if c == 92 then 47 else c)

unfoldable pub is_sensitive_invocation : Option Text → ToolInvocation → Bool
unfolding is_protected_path
is_sensitive_invocation cwd inv =
    if is_protected_path cwd inv
    then true
    else if not (is_bash inv)
    then false
    else contains (forward_slashes (string_arg inv.args (codes "command")))
        (codes ".codefolio/config.json")
