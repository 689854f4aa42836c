-- ===== src/Executor/Gate.antt =====
-- The gate of internal/infra/executor.go before a tool.
use codefolio.Common.{
  Text, codes, [], ◌∷◌, true, false, ◌≡◌, refl, Option, none, some, ◌⊎◌, inl, inr, arith, text_eq,
  text_eq_refl, ap, is_empty, ◌≢◌, ◌∙◌, Option-cases, Bool-cases,
}
use codefolio.Domain.Permission.{
  Tool, ToolInvocation, PermissionDecision, PermissionEffect, Context, Args, Arg, ExecutionProfile,
  execution_profile_from_context, with_execution_profile, with_execution_work_dir,
}
use codefolio.Approval.Paths.{as_text, is_read, is_plan_file, string_arg}
use codefolio.Approval.Broker.{Broker, Answer, authorize}
use codefolio.Approval.Safety.{plan_refused}
use codefolio.Filepath.{is_abs, join_path_rooted}
use codefolio.Executor.Run.{
  Env, Runs, ToolExecResult, normalize_path_args, normalize_key, decode_args, invocation_of,
  refusal, run_checked, execute,
}

-- What must hold of a call whose tool runs.
pub record Passed (env : Env) (ctx : Context) (id name input : Text) (t : Tool) (args : Args)
    : Type 0 where
  pub known : env.get name ≡ some t
  pub decoded : decode_args env input ≡ inl args
  pub live_before : env.err_before ≡ none
  pub live_after : env.err_after ≡ none
  pub let_through :
      refusal env ctx
        (invocation_of env ctx id name input t (normalize_path_args args env.work_dir))
      ≡ none

Sum-cases {ℓ κ} :
    {A : Type ℓ} {B : Type κ} (s : A ⊎ B) → ((a : A) × (s ≡ inl a)) ⊎ ((b : B) × (s ≡ inr b))
Sum-cases (inl a) = inl (a, refl)
Sum-cases (inr b) = inr (b, refl)

-- Why a tool does not run.
pub data Blocked (env : Env) (ctx : Context) (id name input : Text) : Type 0 where
  unknown : env.get name ≡ none → Blocked env ctx id name input
  undecoded :
      (t : Tool) (m : Text)
      → env.get name ≡ some t
      → decode_args env input ≡ inr m
      → Blocked env ctx id name input
  ended_before : (e : Text) → env.err_before ≡ some e → Blocked env ctx id name input
  refused :
      (t : Tool) (args : Args) (d : PermissionDecision)
      → env.get name ≡ some t
      → decode_args env input ≡ inl args
      → refusal env ctx
          (invocation_of env ctx id name input t (normalize_path_args args env.work_dir))
        ≡ some d
      → Blocked env ctx id name input
  ended_after : (e : Text) → env.err_after ≡ some e → Blocked env ctx id name input

-- What `execute` gives where the tool runs, and where it does not.
abbrev pub Ran : Env → Context → Text → Text → Text → Tool → Args → Type 0
Ran env ctx id name input t args =
    let run_ctx = with_execution_work_dir ctx env.work_dir in
    let args' = normalize_path_args args env.work_dir in
    ((execute env ctx id name input).0 ≡ (run_ctx, args') ∷ [])
    × ((execute env ctx id name input).1.output ≡ (t.execute run_ctx args').output)
    × ((execute env ctx id name input).1.is_error ≡ (t.execute run_ctx args').is_error)

abbrev pub NotRun : Runs × ToolExecResult → Type 0
NotRun r = (r.0 ≡ []) × (r.1.is_error ≡ true)

abbrev Named : Text → Text → Runs × ToolExecResult → Type 0
Named id name r = (r.1.tool_id ≡ id) × (r.1.tool_name ≡ name)

execute_decoded :
    (env : Env) (ctx : Context) (id name input : Text) (t : Tool) (args : Args)
    → env.get name ≡ some t
    → decode_args env input ≡ inl args
    → execute env ctx id name input
      ≡ run_checked env ctx id name input t (normalize_path_args args env.work_dir)
unfolding execute
execute_decoded env ctx id name input t args e d = rw (e, execute) (rw d)

execute_refused :
    (env : Env) (ctx : Context) (id name input : Text)
    → (env.get name ≡ none)
      ⊎ ((t : Tool) × (m : Text) × (env.get name ≡ some t) × (decode_args env input ≡ inr m))
    → NotRun (execute env ctx id name input) × Named id name (execute env ctx id name input)
unfolding execute
execute_refused env ctx id name input (inl e) = rw (e, execute) ((refl, refl), (refl, refl))
execute_refused env ctx id name input (inr (t, m, e, d)) =
    rw (e, execute) (rw d ((refl, refl), (refl, refl)))

-- The tests behind the decoder, for a known tool and decoded arguments.
execute_checked :
    (env : Env) (ctx : Context) (id name input : Text) (t : Tool) (args : Args)
    → env.get name ≡ some t
    → decode_args env input ≡ inl args
    → (Passed env ctx id name input t args × Ran env ctx id name input t args
        ⊎ Blocked env ctx id name input × NotRun (execute env ctx id name input))
      × Named id name (execute env ctx id name input)
unfolding run_checked
execute_checked env ctx id name input t args e d =
    let inv = invocation_of env ctx id name input t (normalize_path_args args env.work_dir) in
    rw (execute_decoded env ctx id name input t args e d) (elim (Option-cases env.err_before) [
      | inr (x, before) ↦
          simp (before, run_checked)
            (inr (Blocked.ended_before x before, (refl, refl)), (refl, refl))
      | inl before ↦ elim (Option-cases (refusal env ctx inv)) [
        | inr (x, out) ↦
            simp (before, out, run_checked)
              (inr (Blocked.refused t args x e d out, (refl, refl)), (refl, refl))
        | inl through ↦ elim (Option-cases env.err_after) [
          | inr (x, after) ↦
              simp (before, through, after, run_checked)
                (inr (Blocked.ended_after x after, (refl, refl)), (refl, refl))
          | inl after ↦
              simp (before, through, after, run_checked)
                (
                  inl (
                    record {
                      known = e;
                      decoded = d;
                      live_before = before;
                      live_after = after;
                      let_through = through;
                    },
                    (refl, refl, refl),
                  ),
                  (refl, refl),
                )
        ]
      ]
    ])

-- `execute` runs the tool, once and with the normalised arguments under the working directory, and gives
-- its output, if the tool is known, its input decodes, the context is live before and after the question
-- to the authorizer, and the authorizer lets the invocation with these same arguments through. Otherwise
-- one of these fails, the tool does not run, and the result is an error. Either way the result carries
-- the id and the name.
pub execute_gate :
    (env : Env) (ctx : Context) (id name input : Text)
    → (((t : Tool) × (args : Args) × (Passed env ctx id name input t args
            × Ran env ctx id name input t args))
        ⊎ Blocked env ctx id name input × NotRun (execute env ctx id name input))
      × ((execute env ctx id name input).1.tool_id ≡ id)
      × ((execute env ctx id name input).1.tool_name ≡ name)
execute_gate env ctx id name input = elim (Option-cases (env.get name)) [
  | inl e ↦
      let (quiet, named) = execute_refused env ctx id name input (inl e) in
      (inr (Blocked.unknown e, quiet), named.0, named.1)
  | inr (t, e) ↦ elim (Sum-cases (decode_args env input)) [
    | inr (m, d) ↦
        let (quiet, named) = execute_refused env ctx id name input (inr (t, m, e, d)) in
        (inr (Blocked.undecoded t m e d, quiet), named.0, named.1)
    | inl (args, d) ↦
        let (outcome, named) = execute_checked env ctx id name input t args e d in
        (
          elim outcome [ inl (passed, ran) ↦ inl (t, args, (passed, ran)) | inr quiet ↦ inr quiet ],
          named.0,
          named.1,
        )
  ]
]

refusal-none :
    (env : Env) (ctx : Context) (inv : ToolInvocation)
    (ask : Context → ToolInvocation → PermissionDecision)
    → env.authorizer ≡ some ask
    → refusal env ctx inv ≡ none
    → (ask ctx inv).effect ≡ PermissionEffect.allow
unfolding refusal
refusal-none env ctx inv ask e h = ground arith

plan_allows :
    (cwd : Option Text) (b : Broker) (ctx : Context) (inv : ToolInvocation) (a : Answer)
    → inv.profile ≡ ExecutionProfile.plan
    → (authorize cwd b ctx inv a).1.effect ≡ PermissionEffect.allow
    → (is_read inv.category ≡ true) ⊎ (is_plan_file cwd inv ≡ true)
plan_allows cwd b ctx inv a p h = elim (Bool-cases (is_read inv.category)) [
  | inl r ↦ inl r
  | inr r ↦ elim (Bool-cases (is_plan_file cwd inv)) [
    | inl f ↦ inr f
    | inr f ↦ cc ((plan_refused cwd b ctx inv a p r f).0)
  ]
]

-- Under the broker and the plan profile, a tool that runs is the registered one, it runs once, with the
-- arguments that its input decodes to, normalised, and it is a reader, or these arguments name the plan
-- file of the context; so no command runs, whatever was granted and whatever the user answers.
pub plan_runs_only_readers :
    (env : Env) (cwd : Option Text) (b : Broker) (answer : ToolInvocation → Answer) (ctx : Context)
    (plan_file id name input : Text)
    → env.authorizer ≡ some (λ c i. (authorize cwd b c i (answer i)).1)
    → (execute env (with_execution_profile ctx ExecutionProfile.plan plan_file) id name input).0
      ≢ []
    → let plan_ctx = with_execution_profile ctx ExecutionProfile.plan plan_file in
      let run = execute env plan_ctx id name input in
      (t : Tool) × (args : Args) × (env.get name ≡ some t)
      × (decode_args env input ≡ inl args)
      × (run.0
          ≡ (with_execution_work_dir plan_ctx env.work_dir, normalize_path_args args env.work_dir)
            ∷ [])
      × ((is_read t.category ≡ true)
          ⊎ (is_plan_file cwd
                (invocation_of env plan_ctx id name input t (normalize_path_args args env.work_dir))
              ≡ true))
plan_runs_only_readers env cwd b answer ctx plan_file id name input asks ran =
    let plan_ctx = with_execution_profile ctx ExecutionProfile.plan plan_file in
    elim (execute_gate env plan_ctx id name input).0 [
      | inr (_, (none_ran, _)) ↦ absurd (ran none_ran)
      | inl (t, args, (passed, happened)) ↦
          let inv =
            invocation_of env plan_ctx id name input t (normalize_path_args args env.work_dir) in
          let ok = refusal-none env plan_ctx inv _ asks passed.let_through in
          (
            t,
            args,
            passed.known,
            passed.decoded,
            happened.0,
            unfold invocation_of in
                plan_allows cwd b plan_ctx inv (answer inv)
                  (unfold with_execution_profile execution_profile_from_context in refl) ok,
          )
    ]

normalize_key_other :
    (work_dir : Text) (args : Args) (key j : Text)
    → text_eq key j ≡ false
    → normalize_key work_dir args key j ≡ args j
unfolding normalize_key
normalize_key_other work_dir args key j h = ground arith

string_arg-normalize_key :
    (work_dir : Text) (args : Args) (key j : Text)
    → text_eq key j ≡ false
    → string_arg (normalize_key work_dir args key) j ≡ string_arg args j
unfolding string_arg
string_arg-normalize_key work_dir args key j h =
    ap as_text (normalize_key_other work_dir args key j h)

normalize_key_self :
    (work_dir : Text) (args : Args) (key : Text)
    → is_abs work_dir ≡ true
    → (is_empty (string_arg args key) ≡ true)
      ⊎ (is_abs (string_arg (normalize_key work_dir args key) key) ≡ true)
unfolding normalize_key string_arg
normalize_key_self work_dir args key h = elim (Option-cases (args key)) [
  | inl e ↦ ground arith
  | inr (Arg.non_str, e) ↦ ground arith
  | inr (Arg.str v, e) ↦ ground (arith, text_eq_refl key, join_path_rooted work_dir v h)
]

-- Under an absolute working directory `normalizePathArgs` makes both path arguments absolute where they
-- are texts that are not empty, and leaves the other arguments as they are.
pub normalize_path_args_abs :
    (args : Args) (work_dir key : Text)
    → is_abs work_dir ≡ true
    → let args' = normalize_path_args args work_dir in
      ((is_empty (string_arg args (codes "file_path")) ≡ true)
        ⊎ (is_abs (string_arg args' (codes "file_path")) ≡ true))
      × ((is_empty (string_arg args (codes "path")) ≡ true)
          ⊎ (is_abs (string_arg args' (codes "path")) ≡ true))
      × ((text_eq (codes "file_path") key ≡ true)
          ⊎ ((text_eq (codes "path") key ≡ true) ⊎ (args' key ≡ args key)))
unfolding normalize_path_args
normalize_path_args_abs args [] key h = cc
normalize_path_args_abs args (c ∷ s) key h =
    let one = normalize_key (c ∷ s) args (codes "file_path") in
    (
      elim (normalize_key_self (c ∷ s) args (codes "file_path") h) [
        | inl e ↦ inl e
        | inr e ↦
            inr
              (rw (string_arg-normalize_key (c ∷ s) one (codes "path") (codes "file_path") refl) e)
      ],
      elim (normalize_key_self (c ∷ s) one (codes "path") h) [
        | inl e ↦ inl (
            rw (string_arg-normalize_key (c ∷ s) args (codes "file_path") (codes "path") refl) at e)
        | inr e ↦ inr e
      ],
      elim (Bool-cases (text_eq (codes "file_path") key)) [
        | inl e ↦ inl e
        | inr e ↦ elim (Bool-cases (text_eq (codes "path") key)) [
          | inl f ↦ inr (inl f)
          | inr f ↦ inr (
              inr (
                normalize_key_other (c ∷ s) one (codes "path") key f
                ∙ normalize_key_other (c ∷ s) args (codes "file_path") key e))
        ]
      ],
    )
