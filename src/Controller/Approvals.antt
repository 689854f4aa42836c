-- ===== src/Controller/Approvals.antt =====
-- cmd/cli/controller/approval.go: the request that is shown, and the queue behind it.
use codefolio.Common.{ℕ, zero, suc, List, [], ◌∷◌, ◌++◌, Bool, true, false, none, some, length}
use codefolio.Approval.Broker.{Request, Decision, resolve}
use codefolio.Controller.State.{Controller, no_approval, waiting}

-- `Resolve` through the pointer at a place.
unfoldable pub resolve_at : ℕ → Decision → List Request → List Request
unfolding resolve
resolve_at i d [] = []
resolve_at zero d (r ∷ rs) = resolve r d ∷ rs
resolve_at (suc i) d (r ∷ rs) = r ∷ resolve_at i d rs

unfoldable pub resolve_all : List ℕ → Decision → List Request → List Request
unfolding resolve_at
resolve_all [] d rs = rs
resolve_all (i ∷ is) d rs = resolve_all is d (resolve_at i d rs)

module _ {L : Type 0} where
  -- The request is the one at the place.
  unfoldable pub enqueue_approval : Controller L → ℕ → Controller L
  enqueue_approval c i = elim c.approval.request [
    | none ↦ record c {
      approval = record { request = some i; queue = c.approval.queue };
      approval_open = true;
    }
    | some shown ↦ record c {
      approval = record { request = some shown; queue = c.approval.queue ++ i ∷ [] };
    }
  ]

  -- One round of `approvalLoop`, with a request that the broker has made. `dispatched` is whether there
  -- is a runtime and it takes the function.
  unfoldable pub approval_loop : Controller L → Bool → Request → Controller L
  unfolding enqueue_approval resolve_at
  approval_loop c true r =
      enqueue_approval (record c { requests = c.requests ++ r ∷ [] }) (length c.requests)
  approval_loop c false r = record c {
    requests = resolve_at (length c.requests) Decision.cancelled (c.requests ++ r ∷ []);
  }

  unfoldable pub advance_approval : Controller L → Controller L
  advance_approval c = elim c.approval.queue [
    | [] ↦ record c { approval = record { request = none; queue = [] }; approval_open = false }
    | i ∷ is ↦ record c { approval = record { request = some i; queue = is } }
  ]

  unfoldable pub resolve_approval : Controller L → Decision → Controller L
  unfolding advance_approval resolve_at
  resolve_approval c d = elim c.approval.request [
    | none ↦ c
    | some i ↦ advance_approval (record c { requests = resolve_at i d c.requests })
  ]

  unfoldable pub dismiss_approval : Controller L → Controller L
  unfolding resolve_approval
  dismiss_approval c = resolve_approval c Decision.cancelled

  abbrev pub approve_once : Controller L → Controller L
  approve_once c = resolve_approval c Decision.allow_once

  abbrev pub approve_session : Controller L → Controller L
  approve_session c = resolve_approval c Decision.allow_session

  abbrev pub deny_approval : Controller L → Controller L
  deny_approval c = resolve_approval c Decision.denied

  unfoldable pub deny_all_approvals : Controller L → Controller L
  unfolding resolve_all
  deny_all_approvals c = record c {
    requests = resolve_all (waiting c.approval) Decision.cancelled c.requests;
    approval = no_approval;
    approval_open = false;
  }
