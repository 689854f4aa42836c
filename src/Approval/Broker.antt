-- ===== src/Approval/Broker.antt =====
-- The broker of internal/infra/approval/approval.go. `Authorize` is split where it waits: up to the
-- request that it publishes, and from the answer on, which meets the grants of that moment.
use codefolio.Common.{
  Text, codes, List, [], ◌∷◌, ◌++◌, Bool, true, false, not, ◌&&◌, ◌||◌, text_eq, has_prefix,
  is_empty, Option, none, some, if◌then◌else◌,
}
use codefolio.Domain.Permission.{
  ToolInvocation, ToolCategory, PermissionDecision, PermissionEffect, ExecutionProfile,
  profile_text, Context,
}
use codefolio.Approval.Commands.{is_dangerous_command, is_file_modifying_command}
use codefolio.Approval.Paths.{
  string_arg, invocation_path, is_outside_workspace, is_plan_file, is_sensitive_invocation, is_bash,
  is_read, is_write,
}

-- `other` is any other byte, the zero value included.
pub data Decision : Type 0 where
  allow_once allow_session denied cancelled other : Decision

-- `response` is what the channel of one place was sent; `once` lets the first send through.
pub record Request : Type 0 where
  pub id : Text
  pub key : Text
  pub tool_id : Text
  pub tool_name : Text
  pub category : ToolCategory
  pub summary : Text
  pub detail : Text
  pub response : Option Decision

unfoldable pub resolve : Request → Decision → Request
resolve r d = elim r.response [ some _ ↦ r | none ↦ record r { response = some d } ]

pub record Broker : Type 0 where
  pub grants : List Text

unfoldable pub new_broker : Broker
new_broker = record { grants = [] }

unfoldable pub has_key : List Text → Text → Bool
has_key [] k = false
has_key (g ∷ gs) k = text_eq g k || has_key gs k

unfoldable pub is_granted : Broker → Text → Bool
unfolding has_key
is_granted b key = has_key b.grants key

unfoldable pub approval_key : Option Text → ToolInvocation → Text
unfolding invocation_path string_arg
approval_key cwd inv =
    let prefix = profile_text inv.profile ++ codes ":" in
    let path = invocation_path cwd inv in
    let command = string_arg inv.args (codes "command") in
    if not (is_empty path)
    then prefix ++ (inv.name ++ (codes ":" ++ path))
    else if not (is_empty command)
    then prefix ++ (inv.name ++ (codes ":" ++ command))
    else prefix ++ inv.name

unfoldable pub summarize : Option Text → ToolInvocation → Text
summarize cwd inv =
    let command = string_arg inv.args (codes "command") in
    let path = invocation_path cwd inv in
    if not (is_empty command) then command else if not (is_empty path) then path else inv.name

unfoldable pub detail : ToolInvocation → Text → Text
detail inv reason = if not (is_empty reason) then reason else elim inv.category [
  | ToolCategory.write ↦ codes "This tool can change files."
  | ToolCategory.command ↦ codes "This command can change files or affect your environment."
  | _ ↦ codes "This action needs your approval."
]

-- Where `Authorize` stands when it returns, or when it waits for an answer to a request.
pub data Verdict : Type 0 where
  settled : PermissionDecision → Verdict
  asks : Request → Verdict

abbrev pub allowed : Text → PermissionDecision
allowed reason = record { effect = PermissionEffect.allow; reason = reason }

abbrev pub refused : Text → PermissionDecision
refused reason = record { effect = PermissionEffect.deny; reason = reason }

unfoldable pub request_approval : Option Text → Broker → ToolInvocation → Text → Verdict
request_approval cwd b inv reason =
    if is_granted b (approval_key cwd inv)
    then settled (allowed (codes "allowed for this session"))
    else asks (record {
      id = inv.id;
      key = approval_key cwd inv;
      tool_id = inv.id;
      tool_name = inv.name;
      category = inv.category;
      summary = summarize cwd inv;
      detail = detail inv reason;
      response = none;
    })

unfoldable pub plan_decision : Option Text → Broker → ToolInvocation → Verdict
unfolding request_approval
plan_decision cwd b inv =
    if is_read inv.category
    then (if is_outside_workspace cwd inv
        then request_approval cwd b inv (codes "external workspace access requires approval")
        else settled (allowed (codes "allowed by plan profile")))
    else if is_plan_file cwd inv
    then settled (allowed (codes "plan artifact write allowed"))
    else settled (refused (codes "plan profile blocks this action"))

abbrev pub is_mcp_tool : ToolInvocation → Bool
is_mcp_tool inv = has_prefix inv.name (codes "mcp__")

-- A `Bash` invocation with a command that the patterns block.
unfoldable pub is_dangerous : ToolInvocation → Bool
is_dangerous inv = is_bash inv && is_dangerous_command (string_arg inv.args (codes "command"))

-- A `Bash` invocation with a command that is taken to change files.
unfoldable pub modifies_files : ToolInvocation → Bool
modifies_files inv =
    is_bash inv && is_file_modifying_command (string_arg inv.args (codes "command"))

-- `Authorize` behind its first three tests.
unfoldable pub build_decision : Option Text → Broker → ToolInvocation → Verdict
unfolding request_approval
build_decision cwd b inv =
    if is_outside_workspace cwd inv
    then request_approval cwd b inv (codes "external workspace access requires approval")
    else if is_sensitive_invocation cwd inv
    then request_approval cwd b inv (codes "sensitive Codefolio configuration requires approval")
    else if is_read inv.category || (is_write inv.category || is_mcp_tool inv)
    then settled (allowed (codes "allowed by build profile"))
    else if modifies_files inv
    then settled (allowed (codes "file-modifying command allowed by build profile"))
    else if is_granted b (approval_key cwd inv)
    then settled (allowed (codes "allowed for this session"))
    else request_approval cwd b inv []

abbrev pub is_plan : ExecutionProfile → Bool
is_plan ExecutionProfile.plan = true
is_plan _ = false

-- `Authorize` up to the request.
unfoldable pub authorize_start : Option Text → Broker → Context → ToolInvocation → Verdict
unfolding plan_decision build_decision
authorize_start cwd b ctx inv = elim ctx.err [
  | some e ↦ settled (refused e)
  | none ↦
      if is_dangerous inv
      then settled (refused (codes "dangerous command blocked"))
      else if is_plan inv.profile
      then plan_decision cwd b inv
      else build_decision cwd b inv
]

-- What ends the wait: the context before or after the request is taken, or a decision.
pub data Answer : Type 0 where
  unsent unanswered : Answer
  answered : Decision → Answer

-- The two `select` statements of `requestApproval`.
unfoldable pub settle : Broker → Text → Answer → Broker × PermissionDecision
settle b key unsent = (b, refused (codes "approval cancelled"))
settle b key unanswered = (b, refused (codes "approval cancelled"))
settle b key (answered Decision.allow_once) = (b, allowed (codes "approved once"))
settle b key (answered Decision.allow_session) =
    (record b { grants = key ∷ b.grants }, allowed (codes "approved for this session"))
settle b key (answered Decision.denied) = (b, refused (codes "user denied approval"))
settle b key (answered Decision.cancelled) = (b, refused (codes "approval cancelled"))
settle b key (answered Decision.other) = (b, refused (codes "approval cancelled"))

-- `Authorize` with no other call in between. The answer is read only if a request is published.
unfoldable pub authorize :
    Option Text → Broker → Context → ToolInvocation → Answer → Broker × PermissionDecision
authorize cwd b ctx inv answer = elim (authorize_start cwd b ctx inv) [
  | settled d ↦ (b, d)
  | asks r ↦ settle b r.key answer
]

-- Calls in turn, each with the answer that its request would get.
pub record Call : Type 0 where
  pub ctx : Context
  pub invocation : ToolInvocation
  pub answer : Answer

unfoldable pub run : Option Text → Broker → List Call → Broker
unfolding authorize
run cwd b [] = b
run cwd b (c ∷ cs) = run cwd (authorize cwd b c.ctx c.invocation c.answer).0 cs
