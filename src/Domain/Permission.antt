-- ===== src/Domain/Permission.antt =====
-- internal/domain/permission.go and internal/domain/tool.go. A string type with named constants is
-- a data type with a constructor for each constant; `other` is any other string, "" included.
use codefolio.Common.{Text, codes, Option, none, some, Bool, false, text_eq, if◌then◌else◌, []}

pub data PermissionEffect : Type 0 where
  allow deny ask : PermissionEffect
  other : Text → PermissionEffect

pub data ExecutionProfile : Type 0 where
  build plan : ExecutionProfile
  other : Text → ExecutionProfile

abbrev pub profile_text : ExecutionProfile → Text
profile_text ExecutionProfile.build = codes "build"
profile_text ExecutionProfile.plan = codes "plan"
profile_text (ExecutionProfile.other s) = s

pub data ToolCategory : Type 0 where
  read write command : ToolCategory
  other : Text → ToolCategory

-- `unset` is the empty string.
pub data ToolOutcome : Type 0 where
  unset succeeded failed permission_denied permission_aborted cancelled : ToolOutcome
  other : Text → ToolOutcome

pub record ToolResult : Type 0 where
  pub output : Text
  pub is_error : Bool
  pub outcome : ToolOutcome

-- A value of `map[string]any`: a string, or a value of any other type.
pub data Arg : Type 0 where
  str : Text → Arg
  non_str : Arg

-- `map[string]any` by its lookup; `none` is a key that is not there.
abbrev pub Args : Type 0
Args = Text → Option Arg

abbrev pub set_arg : Args → Text → Arg → Args
set_arg m k v = λ j. if text_eq k j then some v else m j

pub record ToolInvocation : Type 0 where
  pub id : Text
  pub name : Text
  pub category : ToolCategory
  pub input : Text
  pub args : Args
  pub work_dir : Text
  pub profile : ExecutionProfile
  pub plan_file : Text

pub record PermissionDecision : Type 0 where
  pub effect : PermissionEffect
  pub reason : Text

-- `context.Context` as the executor uses it: the error of a cancelled context, the working
-- directory, and the profile with its plan file.
pub record Context : Type 0 where
  pub err : Option Text
  pub ctx_work_dir : Option Text
  pub ctx_profile : Option (ExecutionProfile × Text)

unfoldable pub with_execution_work_dir : Context → Text → Context
with_execution_work_dir ctx dir = record ctx { ctx_work_dir = some dir }

unfoldable pub execution_work_dir : Context → Text
execution_work_dir ctx = elim ctx.ctx_work_dir [ some dir ↦ dir | none ↦ [] ]

unfoldable pub with_execution_profile : Context → ExecutionProfile → Text → Context
with_execution_profile ctx p file = record ctx { ctx_profile = some (p, file) }

unfoldable pub execution_profile_from_context : Context → ExecutionProfile × Text
execution_profile_from_context ctx = elim ctx.ctx_profile [
  | some v ↦ v
  | none ↦ (ExecutionProfile.other [], [])
]

-- A tool by its methods. `should_defer` and `system` are there for a `DeferrableTool` and a
-- `SystemTool`. `execute` gives the result of a run; what a run does to the world is not part of it.
pub record Tool : Type 0 where
  pub name : Text
  pub description : Text
  pub category : ToolCategory
  pub should_defer : Option Bool
  pub system : Option Bool
  pub execute : Context → Args → ToolResult

unfoldable pub is_system_tool : Tool → Bool
is_system_tool t = elim t.system [ some b ↦ b | none ↦ false ]
