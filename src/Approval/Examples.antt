-- ===== src/Approval/Examples.antt =====
-- Inputs for the theorems on internal/infra/approval/approval.go, and runs of its checks.
use codefolio.Common.{Text, codes, [], ◌∷◌, true, false, none, ◌≡◌, refl, ◌⊎◌, not, trim, split_on}
use codefolio.Domain.Permission.{
  ToolInvocation, ToolCategory, Context, PermissionEffect, ExecutionProfile, Args, str, set_arg,
}
use codefolio.Filepath.{parts_of, starts, path_steps}
use codefolio.Approval.Commands.{is_dangerous_command, is_file_modifying_command}
use codefolio.Approval.Paths.{
  string_arg, is_outside_workspace, is_plan_file, is_sensitive_invocation,
  bash_references_external_path,
}
use codefolio.Approval.Broker.{
  Decision, answered, Call, Request, asks, new_broker, has_key, is_granted, approval_key,
  is_dangerous, authorize_start, authorize, settle, run, summarize, detail,
}
use codefolio.Approval.Workspace.{is_outside_workspace_iff}
use codefolio.Approval.Safety.{
  Approves, ApprovedIn, dangerous_refused, outside_needs_user, sensitive_needs_user,
  outside_after_run,
}

abbrev live : Context
live = record { err = none; ctx_work_dir = none; ctx_profile = none }

abbrev no_args : Args
no_args _ = none

abbrev invocation : Text → ToolCategory → ExecutionProfile → Text → Text → ToolInvocation
invocation name category profile key value = record {
  id = codes "1";
  name = name;
  category = category;
  input = [];
  args = set_arg no_args key (str value);
  work_dir = codes "/w";
  profile = profile;
  plan_file = codes "/w/.codefolio/plan.md";
}

abbrev bash : Text → ToolInvocation
bash command =
    invocation (codes "Bash") ToolCategory.command ExecutionProfile.build (codes "command") command

abbrev write_file : ExecutionProfile → Text → ToolInvocation
write_file profile path =
    invocation (codes "WriteFile") ToolCategory.write profile (codes "file_path") path

remove_all : is_dangerous (bash (codes "sudo RM -rf / ")) ≡ true
unfolding is_dangerous string_arg is_dangerous_command
remove_all = refl

force_push : is_dangerous_command (codes "git push origin main --force") ≡ true
unfolding is_dangerous_command
force_push = refl

plain_push : is_dangerous_command (codes "git push origin main") ≡ false
unfolding is_dangerous_command
plain_push = refl

removes_one : is_dangerous_command (codes "rm -rf /tmp/x") ≡ false
unfolding is_dangerous_command
removes_one = refl

makes_dir : is_file_modifying_command (codes "MKDIR build") ≡ true
unfolding is_file_modifying_command
makes_dir = refl

dangerous_refused_example :
    ((authorize none new_broker live
        (bash (codes "sudo RM -rf / "))
        (answered Decision.allow_once)).1.effect
      ≡ PermissionEffect.deny)
    × ((authorize none new_broker live
          (bash (codes "sudo RM -rf / "))
          (answered Decision.allow_once)).0
        ≡ new_broker)
dangerous_refused_example =
    dangerous_refused none new_broker live (bash (codes "sudo RM -rf / "))
      (answered Decision.allow_once) remove_all

abbrev other_file : ToolInvocation
other_file = write_file ExecutionProfile.plan (codes "notes.md")

not_plan_file : is_plan_file none other_file ≡ false
unfolding is_plan_file string_arg path_steps
not_plan_file = refl

-- `..` leads out of the workspace, and is cleaned away inside it.
abbrev escaping : ToolInvocation
escaping = write_file ExecutionProfile.build (codes "/w/a/../../etc/passwd")

abbrev inside : ToolInvocation
inside = write_file ExecutionProfile.build (codes "/w/a/../b.go")

abbrev sibling : ToolInvocation
sibling = write_file ExecutionProfile.build (codes "/wide/b.go")

is_outside_workspace_iff_example :
    is_outside_workspace none escaping
    ≡ not (starts (parts_of (codes "/w")) (parts_of (codes "/w/a/../../etc/passwd")))
unfolding string_arg
is_outside_workspace_iff_example = is_outside_workspace_iff none escaping refl refl

escaping_outside : is_outside_workspace none escaping ≡ true
unfolding is_outside_workspace string_arg path_steps
escaping_outside = refl

inside_allowed : is_outside_workspace none inside ≡ false
unfolding is_outside_workspace string_arg path_steps
inside_allowed = refl

sibling_outside : is_outside_workspace none sibling ≡ true
unfolding is_outside_workspace string_arg path_steps
sibling_outside = refl

bash_outside :
    bash_references_external_path none (codes "cat '/etc/passwd'; ls") (codes "/w") ≡ true
unfolding bash_references_external_path string_arg path_steps trim split_on
bash_outside = refl

escaping_approved :
    (authorize none new_broker live escaping (answered Decision.allow_once)).1.effect
    ≡ PermissionEffect.allow
unfolding authorize authorize_start settle new_broker is_granted has_key is_dangerous
    is_outside_workspace string_arg path_steps approval_key summarize detail
escaping_approved = refl

outside_needs_user_example :
    (is_granted new_broker (approval_key none escaping) ≡ true)
    ⊎ (Approves (answered Decision.allow_once)
        ⊎ (false ≡ true) × (is_plan_file none escaping ≡ true))
outside_needs_user_example =
    outside_needs_user none new_broker live escaping (answered Decision.allow_once) escaping_outside
      escaping_approved

abbrev config_write : ToolInvocation
config_write = write_file ExecutionProfile.build (codes ".codefolio/config.json")

config_sensitive : is_sensitive_invocation none config_write ≡ true
unfolding is_sensitive_invocation string_arg path_steps
config_sensitive = refl

config_approved :
    (authorize none new_broker live config_write (answered Decision.allow_session)).1.effect
    ≡ PermissionEffect.allow
unfolding authorize authorize_start settle new_broker is_granted has_key is_dangerous
    is_outside_workspace is_sensitive_invocation string_arg path_steps approval_key summarize detail
config_approved = refl

sensitive_needs_user_example :
    (is_granted new_broker (approval_key none config_write) ≡ true)
    ⊎ Approves (answered Decision.allow_session)
sensitive_needs_user_example =
    sensitive_needs_user none new_broker live config_write (answered Decision.allow_session) refl
      config_sensitive config_approved

-- The key by the name and the path of the invocation.
abbrev config_key : Text
config_key = codes "build:WriteFile:/w/.codefolio/config.json"

abbrev config_request : Request
config_request = record {
  id = codes "1";
  key = config_key;
  tool_id = codes "1";
  tool_name = codes "WriteFile";
  category = ToolCategory.write;
  summary = codes "/w/.codefolio/config.json";
  detail = codes "sensitive Codefolio configuration requires approval";
  response = none;
}

config_asks : authorize_start none new_broker live config_write ≡ asks config_request
unfolding authorize_start new_broker is_granted has_key is_dangerous is_outside_workspace
    is_sensitive_invocation string_arg path_steps approval_key summarize detail
config_asks = refl

abbrev config_call : Call
config_call = record {
  ctx = live;
  invocation = config_write;
  answer = answered Decision.allow_session;
}

outside_not_plan : is_plan_file none escaping ≡ false
unfolding is_plan_file string_arg path_steps
outside_not_plan = refl

approved_after_run :
    (authorize none
      (run none new_broker (config_call ∷ []))
      live
      escaping
      (answered Decision.allow_once)).1.effect
    ≡ PermissionEffect.allow
unfolding run authorize authorize_start settle new_broker is_granted has_key is_dangerous
    is_outside_workspace is_sensitive_invocation string_arg path_steps approval_key summarize detail
approved_after_run = refl

outside_after_run_example :
    Approves (answered Decision.allow_once)
    ⊎ ApprovedIn none (approval_key none escaping) (config_call ∷ [])
outside_after_run_example =
    outside_after_run none (config_call ∷ []) live escaping (answered Decision.allow_once)
      escaping_outside outside_not_plan approved_after_run
