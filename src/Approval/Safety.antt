-- ===== src/Approval/Safety.antt =====
-- What the broker of internal/infra/approval/approval.go guarantees: which invocations are refused
-- whatever the user says, which need the user, and how grants come about.
use codefolio.Common.{
  Text, codes, List, [], ◌∷◌, true, false, ◌≡◌, refl, sym, ◌∙◌, ◌↔◌, Option, none, ◌⊎◌, inl, inr,
  arith, text_eq_sound, text_eq_refl,
}
use codefolio.Domain.Permission.{
  ToolInvocation, Context, PermissionDecision, PermissionEffect, ExecutionProfile,
}
use codefolio.Approval.Paths.{is_outside_workspace, is_plan_file, is_sensitive_invocation, is_read}
use codefolio.Approval.Broker.{
  Broker, Decision, Request, Verdict, settled, asks, Answer, unsent, unanswered, answered, Call,
  allowed, new_broker, has_key, is_granted, approval_key, is_dangerous, is_plan, authorize_start,
  settle, authorize, run,
}

-- An answer by which the user lets the invocation run.
abbrev pub Approves : Answer → Type 0
Approves a = (a ≡ answered Decision.allow_once) ⊎ (a ≡ answered Decision.allow_session)

-- A dangerous command is refused in both profiles, whatever is granted and whatever the user answers,
-- and the grants stay as they are.
pub dangerous_refused :
    (cwd : Option Text) (b : Broker) (ctx : Context) (inv : ToolInvocation) (a : Answer)
    → is_dangerous inv ≡ true
    → ((authorize cwd b ctx inv a).1.effect ≡ PermissionEffect.deny)
      × ((authorize cwd b ctx inv a).0 ≡ b)
unfolding authorize authorize_start settle
dangerous_refused cwd b ctx inv a h = ground arith

-- The plan profile refuses what neither reads nor writes the plan file, whatever is granted and
-- whatever the user answers, and the grants stay as they are.
pub plan_refused :
    (cwd : Option Text) (b : Broker) (ctx : Context) (inv : ToolInvocation) (a : Answer)
    → inv.profile ≡ ExecutionProfile.plan
    → is_read inv.category ≡ false
    → is_plan_file cwd inv ≡ false
    → ((authorize cwd b ctx inv a).1.effect ≡ PermissionEffect.deny)
      × ((authorize cwd b ctx inv a).0 ≡ b)
unfolding authorize authorize_start settle
plan_refused cwd b ctx inv a p r f = ground arith

settle_allow :
    (b : Broker) (key : Text) (a : Answer)
    → (settle b key a).1.effect ≡ PermissionEffect.allow
    → Approves a
unfolding settle
settle_allow b key unsent h = cc
settle_allow b key unanswered h = cc
settle_allow b key (answered Decision.allow_once) h = inl refl
settle_allow b key (answered Decision.allow_session) h = inr refl
settle_allow b key (answered Decision.denied) h = cc
settle_allow b key (answered Decision.cancelled) h = cc
settle_allow b key (answered Decision.other) h = cc

-- What lies outside the workspace runs only under a grant of its key or with the user's approval, but
-- for the plan file in the plan profile.
pub outside_needs_user :
    (cwd : Option Text) (b : Broker) (ctx : Context) (inv : ToolInvocation) (a : Answer)
    → is_outside_workspace cwd inv ≡ true
    → (authorize cwd b ctx inv a).1.effect ≡ PermissionEffect.allow
    → (is_granted b (approval_key cwd inv) ≡ true)
      ⊎ (Approves a ⊎ (is_plan inv.profile ≡ true) × (is_plan_file cwd inv ≡ true))
unfolding authorize authorize_start settle
outside_needs_user cwd b ctx inv a o h = ground arith

-- In the build profile the write of the configuration file and a command that names it run only under
-- a grant of their key or with the user's approval.
pub sensitive_needs_user :
    (cwd : Option Text) (b : Broker) (ctx : Context) (inv : ToolInvocation) (a : Answer)
    → is_plan inv.profile ≡ false
    → is_sensitive_invocation cwd inv ≡ true
    → (authorize cwd b ctx inv a).1.effect ≡ PermissionEffect.allow
    → (is_granted b (approval_key cwd inv) ≡ true) ⊎ Approves a
unfolding authorize authorize_start settle
sensitive_needs_user cwd b ctx inv a p s h = ground arith

-- The request that `authorize_start` publishes carries the key of the invocation, and no answer yet.
asks_key :
    (cwd : Option Text) (b : Broker) (ctx : Context) (inv : ToolInvocation) (r : Request)
    → authorize_start cwd b ctx inv ≡ asks r
    → (r.key ≡ approval_key cwd inv) × (r.response ≡ none)
unfolding authorize_start
asks_key cwd b ctx inv r h = ground arith

settle_grants :
    (b : Broker) (key k : Text) (a : Answer)
    → is_granted (settle b key a).0 k ≡ true
    → (is_granted b k ≡ true) ⊎ (k ≡ key) × (a ≡ answered Decision.allow_session)
unfolding settle is_granted
settle_grants b key k unsent h = inl h
settle_grants b key k unanswered h = inl h
settle_grants b key k (answered Decision.allow_once) h = inl h
settle_grants b key k (answered Decision.allow_session) h = ground (arith, text_eq_sound key k)
settle_grants b key k (answered Decision.denied) h = inl h
settle_grants b key k (answered Decision.cancelled) h = inl h
settle_grants b key k (answered Decision.other) h = inl h

settle_keeps :
    (b : Broker) (key k : Text) (a : Answer)
    → is_granted b k ≡ true
    → is_granted (settle b key a).0 k ≡ true
unfolding settle is_granted
settle_keeps b key k unsent h = h
settle_keeps b key k unanswered h = h
settle_keeps b key k (answered Decision.allow_once) h = h
settle_keeps b key k (answered Decision.allow_session) h = ground arith
settle_keeps b key k (answered Decision.denied) h = h
settle_keeps b key k (answered Decision.cancelled) h = h
settle_keeps b key k (answered Decision.other) h = h

settle_session :
    (b : Broker) (key : Text)
    → is_granted (settle b key (answered Decision.allow_session)).0 key ≡ true
unfolding settle is_granted
settle_session b key = ground (arith, text_eq_refl key)

Verdict-cases :
    (v : Verdict) → ((d : PermissionDecision) × (v ≡ settled d)) ⊎ ((r : Request) × (v ≡ asks r))
Verdict-cases (settled d) = inl (d, refl)
Verdict-cases (asks r) = inr (r, refl)

-- A key is granted after a call exactly if it was granted before it, or if it is the key of the
-- invocation, the call asked the user, and the user approved it for the session.
pub authorize_grants :
    (cwd : Option Text) (b : Broker) (ctx : Context) (inv : ToolInvocation) (a : Answer) (k : Text)
    → (is_granted (authorize cwd b ctx inv a).0 k ≡ true) ↔ (
        (is_granted b k ≡ true)
        ⊎ ((r : Request) × (authorize_start cwd b ctx inv ≡ asks r)
            × (k ≡ approval_key cwd inv)
            × (a ≡ answered Decision.allow_session)))
unfolding authorize
authorize_grants cwd b ctx inv a k = elim (Verdict-cases (authorize_start cwd b ctx inv)) [
  | inl (d, e) ↦
      rw (e, authorize)
        (λ h. inl h, λ h. elim h [ inl before ↦ before | inr (r, asked, _, _) ↦ cc ])
  | inr (r, e) ↦
      let key : r.key ≡ approval_key cwd inv = (asks_key cwd b ctx inv r e).0 in
      rw (e, authorize)
        (
          λ h. elim (settle_grants b r.key k a h) [
            | inl before ↦ inl before
            | inr (same, approved) ↦ inr (r, refl, same ∙ key, approved)
          ],
          λ h. elim h [
            | inl before ↦ settle_keeps b r.key k a before
            | inr (_, _, same, approved) ↦ rw (approved, same, sym key) (settle_session b r.key)
          ],
        )
]

-- Once the user has approved an invocation for the session, the same invocation is allowed with no
-- request, as long as its context is not cancelled.
pub session_grant_lasts :
    (cwd : Option Text) (b : Broker) (ctx ctx' : Context) (inv : ToolInvocation) (r : Request)
    → authorize_start cwd b ctx inv ≡ asks r
    → ctx'.err ≡ none
    → authorize_start cwd (settle b r.key (answered Decision.allow_session)).0 ctx' inv
      ≡ settled (allowed (codes "allowed for this session"))
unfolding authorize_start settle is_granted
session_grant_lasts cwd b ctx ctx' inv r h live =
    ground (arith, asks_key cwd b ctx inv r h, text_eq_refl r.key)

-- The calls of a list that the user approved for the session, by the key of their invocation.
abbrev pub ApprovedIn : Option Text → Text → List Call → Type 0
ApprovedIn cwd k [] = ⊥
ApprovedIn cwd k (c ∷ cs) =
    ((k ≡ approval_key cwd c.invocation) × (c.answer ≡ answered Decision.allow_session))
    ⊎ ApprovedIn cwd k cs

-- After any calls in turn, a key is granted only if it was granted at the start, or if one of the
-- calls was for an invocation of this key and the user approved it for the session.
pub run_grants :
    (cwd : Option Text) (b : Broker) (cs : List Call) (k : Text)
    → is_granted (run cwd b cs) k ≡ true
    → (is_granted b k ≡ true) ⊎ ApprovedIn cwd k cs
unfolding run
run_grants cwd b [] k h = inl h
run_grants cwd b (c ∷ cs) k h =
    elim (run_grants cwd (authorize cwd b c.ctx c.invocation c.answer).0 cs k h) [
      | inr later ↦ inr (inr later)
      | inl now ↦ elim ((authorize_grants cwd b c.ctx c.invocation c.answer k).0 now) [
        | inl before ↦ inl before
        | inr (_, _, here, answer) ↦ inr (inl (here, answer))
      ]
    ]

-- With a new broker, an invocation outside the workspace that is not the plan file in the plan profile
-- is allowed, after any calls in turn, only if the user approves it now or approved an invocation of
-- its key for the session.
pub outside_after_run :
    (cwd : Option Text) (cs : List Call) (ctx : Context) (inv : ToolInvocation) (a : Answer)
    → is_outside_workspace cwd inv ≡ true
    → is_plan_file cwd inv ≡ false
    → (authorize cwd (run cwd new_broker cs) ctx inv a).1.effect ≡ PermissionEffect.allow
    → Approves a ⊎ ApprovedIn cwd (approval_key cwd inv) cs
outside_after_run cwd cs ctx inv a o f h =
    elim (outside_needs_user cwd (run cwd new_broker cs) ctx inv a o h) [
      | inl granted ↦ elim (run_grants cwd new_broker cs (approval_key cwd inv) granted) [
        | inl before ↦ absurd (unfold new_broker is_granted has_key in (cc))
        | inr approved ↦ inr approved
      ]
      | inr (inl approves) ↦ inl approves
      | inr (inr plan) ↦ cc (plan.1)
    ]
