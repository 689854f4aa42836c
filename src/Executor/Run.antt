-- ===== src/Executor/Run.antt =====
-- `execute` and `normalizePathArgs` of internal/infra/executor.go. The JSON decoder, the registry and
-- the authorizer are arguments; the context may be cancelled between its two tests.
use codefolio.Common.{
  ℕ, ◌+◌, ◌/◌, ◌%◌, Text, codes, List, [], ◌∷◌, ◌++◌, Bool, true, ◌||◌, ◌==◌, ltb, Option, none,
  some, text_eq, is_empty, if◌then◌else◌, ◌⊎◌, inl, inr,
}
use codefolio.Domain.Permission.{
  Tool, ToolInvocation, ToolResult, ToolOutcome, PermissionDecision, PermissionEffect, Context,
  Args, str, non_str, set_arg, execution_profile_from_context, with_execution_work_dir,
}
use codefolio.Filepath.{is_abs, join_path}

pub record ToolExecResult : Type 0 where
  pub tool_id : Text
  pub tool_name : Text
  pub output : Text
  pub is_error : Bool
  pub outcome : ToolOutcome
  pub elapsed : ℕ

-- What `execute` meets outside itself.
pub record Env : Type 0 where
  pub get : Text → Option Tool
  pub unmarshal : Text → Args ⊎ Text
  pub authorizer : Option (Context → ToolInvocation → PermissionDecision)
  pub work_dir : Text
  -- The errors of the context before the authorizer is asked, and before the tool runs.
  pub err_before : Option Text
  pub err_after : Option Text
  pub took : ℕ

hex : ℕ → ℕ
hex d = if ltb d 10 then 48 + d else 87 + d

-- One byte under `%q`, for ASCII.
quote_byte : ℕ → Text
unfolding hex
quote_byte c =
    if c == 34
    then 92 ∷ 34 ∷ []
    else if c == 92
    then 92 ∷ 92 ∷ []
    else if c == 7
    then 92 ∷ 97 ∷ []
    else if c == 8
    then 92 ∷ 98 ∷ []
    else if c == 12
    then 92 ∷ 102 ∷ []
    else if c == 10
    then 92 ∷ 110 ∷ []
    else if c == 13
    then 92 ∷ 114 ∷ []
    else if c == 9
    then 92 ∷ 116 ∷ []
    else if c == 11
    then 92 ∷ 118 ∷ []
    else if ltb c 32 || c == 127
    then 92 ∷ 120 ∷ hex (c / 16) ∷ hex (c % 16) ∷ []
    else c ∷ []

quote_bytes : Text → Text
unfolding quote_byte
quote_bytes [] = []
quote_bytes (c ∷ s) = quote_byte c ++ quote_bytes s

-- `%q` of the package fmt.
unfoldable pub quote : Text → Text
unfolding quote_bytes
quote s = 34 ∷ (quote_bytes s ++ 34 ∷ [])

-- One round of the loop of `normalizePathArgs`.
unfoldable pub normalize_key : Text → Args → Text → Args
normalize_key work_dir args key = elim (args key) [
  | none ↦ args
  | some a ↦ elim a [
    | non_str ↦ args
    | str v ↦
        if is_empty v || is_abs v
        then args
        else set_arg args key (str (join_path (work_dir ∷ v ∷ [])))
  ]
]

unfoldable pub normalize_path_args : Args → Text → Args
unfolding normalize_key
normalize_path_args args work_dir =
    if is_empty work_dir
    then args
    else normalize_key work_dir (normalize_key work_dir args (codes "file_path")) (codes "path")

-- The arguments that the input decodes to: none for the empty input.
unfoldable pub decode_args : Env → Text → Args ⊎ Text
decode_args env input = if is_empty input then inl (λ _. none) else env.unmarshal input

unfoldable pub invocation_of : Env → Context → Text → Text → Text → Tool → Args → ToolInvocation
invocation_of env ctx tool_id tool_name input t args =
    let (profile, plan_file) = execution_profile_from_context ctx in
    record {
      id = tool_id;
      name = tool_name;
      category = t.category;
      input = input;
      args = args;
      work_dir = env.work_dir;
      profile = profile;
      plan_file = plan_file;
    }

-- The refusal of the authorizer, if there is one.
unfoldable pub refusal : Env → Context → ToolInvocation → Option PermissionDecision
refusal env ctx inv = elim env.authorizer [
  | none ↦ none
  | some ask ↦ elim (ask ctx inv).effect [ PermissionEffect.allow ↦ none | _ ↦ some (ask ctx inv) ]
]

unfoldable pub refusal_outcome : Text → ToolOutcome
refusal_outcome reason =
    if text_eq reason (codes "approval cancelled")
    then ToolOutcome.permission_aborted
    else ToolOutcome.permission_denied

-- The outcome of a run that states none.
unfoldable pub run_outcome : ToolResult → ToolOutcome
run_outcome r = elim r.outcome [
  | ToolOutcome.unset ↦ if r.is_error then ToolOutcome.failed else ToolOutcome.succeeded
  | o ↦ o
]

abbrev pub Runs : Type 0
Runs = List (Context × Args)

-- The part of `execute` from the first test of the context on.
unfoldable pub run_checked :
    Env → Context → Text → Text → Text → Tool → Args → Runs × ToolExecResult
run_checked env ctx tool_id tool_name input t args = elim env.err_before [
  | some e ↦ ([], failure (codes "Error: tool execution cancelled") ToolOutcome.cancelled)
  | none ↦ elim (refusal env ctx (invocation_of env ctx tool_id tool_name input t args)) [
    | some d ↦ ([], failure (codes "Permission denied: " ++ d.reason) (refusal_outcome d.reason))
    | none ↦ elim env.err_after [
      | some e ↦ ([], failure (codes "Error: tool execution cancelled") ToolOutcome.cancelled)
      | none ↦
          let run_ctx = with_execution_work_dir ctx env.work_dir in
          let result = t.execute run_ctx args in
          (
            (run_ctx, args) ∷ [],
            record {
              tool_id = tool_id;
              tool_name = tool_name;
              output = result.output;
              is_error = result.is_error;
              outcome = run_outcome result;
              elapsed = env.took;
            },
          )
    ]
  ]
]
  where
    failure : Text → ToolOutcome → ToolExecResult
    failure output outcome = record {
      tool_id = tool_id;
      tool_name = tool_name;
      output = output;
      is_error = true;
      outcome = outcome;
      elapsed = env.took;
    }

-- `execute`, with the list of the runs of the tool: none, or the one with its context and arguments.
unfoldable pub execute : Env → Context → Text → Text → Text → Runs × ToolExecResult
execute env ctx tool_id tool_name input = elim (env.get tool_name) [
  | none ↦ ([], failure (codes "Error: unknown tool " ++ quote tool_name))
  | some t ↦ elim (decode_args env input) [
    | inr e ↦ ([], failure (codes "Error: invalid tool arguments: " ++ e))
    | inl args ↦
        run_checked env ctx tool_id tool_name input t (normalize_path_args args env.work_dir)
  ]
]
  where
    failure : Text → ToolExecResult
    failure output = record {
      tool_id = tool_id;
      tool_name = tool_name;
      output = output;
      is_error = true;
      outcome = ToolOutcome.unset;
      elapsed = env.took;
    }
