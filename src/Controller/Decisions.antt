-- ===== src/Controller/Decisions.antt =====
-- A decision of the user, in cmd/cli/controller/approval.go.
use codefolio.Common.{
  ℕ, zero, suc, ◌<◌, List, [], ◌∷◌, false, Option, none, some, is_some, ◌≡◌, refl, ap, ◌∙◌, arith,
  length, get_elem?, ==_refl,
}
use codefolio.Approval.Broker.{Request, Decision, resolve}
use codefolio.Session.Ledger.{Session, Codec}
use codefolio.Controller.State.{Controller, AgentMode, new_controller, waiting}
use codefolio.Controller.Approvals.{resolve_at, resolve_approval, advance_approval}
use codefolio.Controller.Queue.{InvOf, Ascending-le}
use codefolio.Controller.Cancel.{Life}
use codefolio.Controller.Reached.{Life-Alive}

get_within : (rs : List Request) (i : ℕ) → i < length rs → (r : Request) × (get_elem? rs i ≡ some r)
get_within [] i h = elim h [ ]
get_within (r ∷ rs) zero h = (r, refl)
get_within (r ∷ rs) (suc i) h = get_within rs i (omega arith)

resolve_at_hit :
    (i : ℕ) (d : Decision) (rs : List Request) (r : Request)
    → get_elem? rs i ≡ some r
    → r.response ≡ none
    → get_elem? (resolve_at i d rs) i ≡ some (record r { response = some d })
unfolding resolve_at resolve
resolve_at_hit i d [] r e h = cc
resolve_at_hit zero d (x ∷ rs) r e h = ground arith
resolve_at_hit (suc i) d (x ∷ rs) r e h = resolve_at_hit i d rs r e h

no_response : (r : Request) → is_some r.response ≡ false → r.response ≡ none
no_response r h = ground arith

module _ {L : Type 0} where
  resolve_approval_lem :
      (k : Controller L) (i : ℕ) (d : Decision)
      → k.approval.request ≡ some i
      → ((resolve_approval k d).requests ≡ resolve_at i d k.requests)
        × (waiting (resolve_approval k d).approval ≡ k.approval.queue)
  unfolding resolve_approval advance_approval
  resolve_approval_lem k i d e = ground arith

-- In a controller that is reached, a decision reaches the request that is shown, which had no answer,
-- and leaves the queue behind it waiting in its order.
pub decision_answers_shown :
    (codec : Codec) (session : Session codec.Line) (mode : Option AgentMode)
    {k : Controller codec.Line} (i : ℕ) (d : Decision)
    → Life codec (new_controller session mode) k
    → k.approval.request ≡ some i
    → (r : Request) × (get_elem? k.requests i ≡ some r)
      × (r.response ≡ none)
      × (get_elem? (resolve_approval k d).requests i ≡ some (record r { response = some d }))
      × (waiting (resolve_approval k d).approval ≡ k.approval.queue)
decision_answers_shown codec session mode {k} i d life e =
    let inv = (Life-Alive codec session mode life).1 in
    let shown : InvOf (some i) k.approval.queue k.approval_open k.requests = rw e at inv in
    let within = Ascending-le (suc i) k.approval.queue (length k.requests) shown.ascending.1 in
    let (r, at_) = get_within k.requests i (omega (arith, within)) in
    let asked : is_some r.response ≡ false = shown.settled i r at_ ∙ (rw (==_refl i) refl) in
    let fresh = no_response r asked in
    let (rs, rest) = resolve_approval_lem k i d e in
    (r, at_, fresh, ap (λ xs. get_elem? xs i) rs ∙ resolve_at_hit i d k.requests r at_ fresh, rest)
