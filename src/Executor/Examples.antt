-- ===== src/Executor/Examples.antt =====
-- Inputs for the theorems on internal/infra/executor.go.
use codefolio.Common.{
  ℕ, Text, codes, List, [], ◌∷◌, true, false, none, some, ◌≡◌, refl, ◌⊎◌, inl, text_eq, null, ◌≢◌,
  if◌then◌else◌,
}
use codefolio.Domain.Permission.{
  Tool, ToolOutcome, ToolCategory, Context, Args, str, set_arg, ExecutionProfile,
  with_execution_work_dir, with_execution_profile, execution_profile_from_context,
}
use codefolio.Filepath.{path_steps}
use codefolio.Approval.Paths.{is_read, is_plan_file, string_arg, is_outside_workspace}
use codefolio.Approval.Broker.{
  answered, Decision, new_broker, authorize, authorize_start, settle, is_dangerous, is_granted,
}
use codefolio.Executor.Run.{
  Env, ToolExecResult, execute, normalize_path_args, normalize_key, invocation_of, refusal,
  run_checked, decode_args,
}
use codefolio.Executor.Collect.{
  Submission, ExecutorEvent, submits, ends, new_executor, happen_all, collect_results, results_from,
  submissions,
}
use codefolio.Executor.Order.{collect_results_in_order}
use codefolio.Executor.Gate.{Passed, Ran, Blocked, NotRun, execute_gate, plan_runs_only_readers}

abbrev live : Context
live = record { err = none; ctx_work_dir = none; ctx_profile = none }

abbrev no_args : Args
no_args _ = none

abbrev reader : Tool
reader = record {
  name = codes "ReadFile";
  description = codes "Read a file";
  category = ToolCategory.read;
  should_defer = none;
  system = none;
  execute = λ ctx args. record {
    output = string_arg args (codes "file_path");
    is_error = false;
    outcome = ToolOutcome.unset;
  };
}

abbrev read_args : Args
read_args = set_arg no_args (codes "file_path") (str (codes "../a.go"))

-- One known tool under `/w`, an input that decodes to one path, and the broker in front of the tool.
abbrev env : Env
env = record {
  get = λ name. if text_eq name (codes "ReadFile") then some reader else none;
  unmarshal = λ _. inl read_args;
  authorizer = some (λ c i. (authorize none new_broker c i (answered Decision.allow_once)).1);
  work_dir = codes "/w/b";
  err_before = none;
  err_after = none;
  took = 1;
}

execute_gate_example :
    (((t : Tool) × (args : Args) × (Passed env live
            (codes "1")
            (codes "ReadFile")
            (codes "{}")
            t
            args
          × Ran env live (codes "1") (codes "ReadFile") (codes "{}") t args))
      ⊎ Blocked env live (codes "1") (codes "ReadFile") (codes "{}")
        × NotRun (execute env live (codes "1") (codes "ReadFile") (codes "{}")))
    × ((execute env live (codes "1") (codes "ReadFile") (codes "{}")).1.tool_id ≡ codes "1")
    × ((execute env live (codes "1") (codes "ReadFile") (codes "{}")).1.tool_name
        ≡ codes "ReadFile")
execute_gate_example = execute_gate env live (codes "1") (codes "ReadFile") (codes "{}")

some_ran {ℓ} : {A : Type ℓ} (xs : List A) → null xs ≡ false → xs ≢ []
some_ran [] h = cc
some_ran (x ∷ xs) h = λ e. cc

-- The tool runs under the plan profile, as it is a reader.
reader_runs :
    null
      (execute env
        (with_execution_profile live ExecutionProfile.plan (codes "/w/plan.md"))
        (codes "1")
        (codes "ReadFile")
        (codes "{}")).0
    ≡ false
unfolding execute run_checked decode_args refusal authorize authorize_start is_dangerous
    invocation_of with_execution_profile execution_profile_from_context is_outside_workspace
    normalize_path_args path_steps string_arg new_broker is_granted settle
reader_runs = refl

plan_runs_only_readers_example :
    (t : Tool) × (args : Args) × (env.get (codes "ReadFile") ≡ some t)
    × (decode_args env (codes "{}") ≡ inl args)
    × ((execute env
          (with_execution_profile live ExecutionProfile.plan (codes "/w/plan.md"))
          (codes "1")
          (codes "ReadFile")
          (codes "{}")).0
        ≡ (
          with_execution_work_dir
              (with_execution_profile live ExecutionProfile.plan (codes "/w/plan.md"))
              (codes "/w/b"),
          normalize_path_args args (codes "/w/b"),
        )
          ∷ [])
    × ((is_read t.category ≡ true)
        ⊎ (is_plan_file none (
              invocation_of env
                (with_execution_profile live ExecutionProfile.plan (codes "/w/plan.md"))
                (codes "1")
                (codes "ReadFile")
                (codes "{}")
                t
                (normalize_path_args args (codes "/w/b")))
            ≡ true))
plan_runs_only_readers_example =
    plan_runs_only_readers env none new_broker (λ _. answered Decision.allow_once) live
      (codes "/w/plan.md") (codes "1") (codes "ReadFile") (codes "{}") refl (some_ran _ reader_runs)

-- `..` is cleaned when the path is joined.
cleaned :
    string_arg (normalize_path_args read_args (codes "/w/b")) (codes "file_path") ≡ codes "/w/a.go"
unfolding normalize_path_args normalize_key string_arg path_steps
cleaned = refl

abbrev call : Text → Submission
call id = record { id = id; name = codes "ReadFile"; input = [] }

-- Two equal calls may give different results.
abbrev numbered : ℕ → Submission → ToolExecResult
numbered n s = record {
  tool_id = s.id;
  tool_name = s.name;
  output = n ∷ [];
  is_error = false;
  outcome = ToolOutcome.succeeded;
  elapsed = 1;
}

-- The first call ends before the third is submitted, and the third before the second.
abbrev mixed : List ExecutorEvent
mixed =
    submits (call (codes "a"))
    ∷ submits (call (codes "b"))
    ∷ ends 0
    ∷ submits (call (codes "b"))
    ∷ ends 1
    ∷ ends 0
    ∷ []

all_ended : (happen_all numbered new_executor mixed).running ≡ []
unfolding happen_all
all_ended = refl

collect_results_in_order_example :
    collect_results (happen_all numbered new_executor mixed).pending
    ≡ results_from numbered 0 (call (codes "a") ∷ call (codes "b") ∷ call (codes "b") ∷ [])
unfolding submissions
collect_results_in_order_example = collect_results_in_order numbered mixed all_ended
