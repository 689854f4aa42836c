-- ===== src/Controller/Answers.antt =====
-- Every step of the queue in cmd/cli/controller/approval.go keeps the agreement between the requests
-- that wait and those that have an answer.
use codefolio.Common.{
  ℕ, suc, List, [], ◌∷◌, ◌++◌, Bool, true, false, ◌==◌, Option, none, some, length, get_elem?, elem,
  ◌≡◌, refl, sym, ◌∙◌, ap, arith, Bool-cases, Option-cases, inl, inr, ◌⊎◌, length-append,
}
use codefolio.Session.Ledger.{Session}
use codefolio.Approval.Broker.{Request, Decision}
use codefolio.Controller.State.{Controller, AgentMode, waiting, new_controller}
use codefolio.Controller.Approvals.{
  resolve_at, resolve_all, enqueue_approval, approval_loop, advance_approval, resolve_approval,
  dismiss_approval, deny_all_approvals,
}
use codefolio.Controller.Queue.{
  Ascending, Settled, Inv, InvOf, Ascending-higher, Ascending-snoc, Ascending-wider, below_not_elem,
  above_not_elem, elem-snoc, get-resolve_at, get-resolve_at_same, length-resolve_at, get-snoc,
}

Settled-resolve :
    (rs : List Request) (i : ℕ) (is : List ℕ) (hi : ℕ) (d : Decision)
    → Settled rs (i ∷ is)
    → Ascending (suc i) is hi
    → Settled (resolve_at i d rs) is
Settled-resolve rs i is hi d h asc j r e = elim (Bool-cases (i == j)) [
  | inl same ↦
      let here : i ≡ j = ground (arith, same) in
      let e' : get_elem? (resolve_at i d rs) i ≡ some r =
        ap (get_elem? (resolve_at i d rs)) here ∙ e in
      let gone : elem j is ≡ false = below_not_elem (suc i) is hi j asc (omega (arith, here)) in
      rw gone (get-resolve_at_same i d rs r e')
  | inr other ↦
      let kept = h j r (sym (get-resolve_at i d rs j other) ∙ e) in
      let apart : (j == i) ≡ false = ground (arith, other) in kept ∙ (rw apart refl)
]

Settled-arrive :
    (rs : List Request) (x : Request) (w : List ℕ)
    → Settled rs w
    → Ascending 0 w (length rs)
    → x.response ≡ none
    → Settled (rs ++ x ∷ []) (w ++ length rs ∷ [])
Settled-arrive rs x w h asc fresh j r e =
    rw (elem-snoc j w (length rs)) (elim (get-snoc rs x j r e) [
      | inl (at, same) ↦
          let last : (j == length rs) ≡ true = ground (arith, at) in
          rw (last, same, fresh) (ground arith)
      | inr (lt, old) ↦
          let inner : (j == length rs) ≡ false = ground (arith, lt) in
          rw inner (h j r old ∙ ground arith)
    ])

Settled-refuse :
    (rs : List Request) (x : Request) (w : List ℕ) (d : Decision)
    → Settled rs w
    → Ascending 0 w (length rs)
    → Settled (resolve_at (length rs) d (rs ++ x ∷ [])) w
Settled-refuse rs x w d h asc j r e = elim (Bool-cases (length rs == j)) [
  | inl same ↦
      let here : length rs ≡ j = ground (arith, same) in
      let all = rs ++ x ∷ [] in
      let e' : get_elem? (resolve_at (length rs) d all) (length rs) ≡ some r =
        ap (get_elem? (resolve_at (length rs) d all)) here ∙ e in
      let gone : elem j w ≡ false = above_not_elem 0 w (length rs) j asc (omega (arith, here)) in
      rw gone (get-resolve_at_same (length rs) d all r e')
  | inr other ↦
      elim (get-snoc rs x j r (sym (get-resolve_at (length rs) d (rs ++ x ∷ []) j other) ∙ e)) [
        | inl (at, _) ↦ ground (arith, at, other)
        | inr (lt, old) ↦ h j r old
      ]
]

Settled-resolve_all :
    (rs : List Request) (lo hi : ℕ) (w : List ℕ) (d : Decision)
    → Settled rs w
    → Ascending lo w hi
    → Settled (resolve_all w d rs) []
unfolding resolve_all
Settled-resolve_all rs lo hi [] d h asc = h
Settled-resolve_all rs lo hi (i ∷ is) d h asc =
    Settled-resolve_all (resolve_at i d rs) (suc i) hi is d (Settled-resolve rs i is hi d h asc.1)
      asc.1

length-snoc : (rs : List Request) (x : Request) → length (rs ++ x ∷ []) ≡ suc (length rs)
length-snoc rs x = omega (arith, length-append rs (x ∷ []))

InvOf-arrive_first :
    (rs : List Request) (queue : List ℕ) (open_ : Bool) (r : Request)
    → InvOf none queue open_ rs
    → r.response ≡ none
    → InvOf (some (length rs)) queue true (rs ++ r ∷ [])
InvOf-arrive_first rs [] open_ r inv fresh = record {
  first = inl refl;
  opened = refl;
  ascending = rw (length-snoc rs r) (omega arith, omega arith);
  settled = Settled-arrive rs r [] inv.settled inv.ascending fresh;
}
InvOf-arrive_first rs (i ∷ is) open_ r inv fresh = elim inv.first [ inl h ↦ cc | inr h ↦ cc ]

InvOf-arrive_next :
    (rs : List Request) (i : ℕ) (queue : List ℕ) (open_ : Bool) (r : Request)
    → InvOf (some i) queue open_ rs
    → r.response ≡ none
    → InvOf (some i) (queue ++ length rs ∷ []) open_ (rs ++ r ∷ [])
InvOf-arrive_next rs i queue open_ r inv fresh = record {
  first = inl refl;
  opened = inv.opened;
  ascending = rw (length-snoc rs r) (Ascending-snoc 0 (i ∷ queue) (length rs) inv.ascending);
  settled = Settled-arrive rs r (i ∷ queue) inv.settled inv.ascending fresh;
}

InvOf-refuse :
    (rs : List Request) (shown : Option ℕ) (queue : List ℕ) (open_ : Bool) (r : Request)
    → InvOf shown queue open_ rs
    → InvOf shown queue open_ (resolve_at (length rs) Decision.cancelled (rs ++ r ∷ []))
InvOf-refuse rs shown queue open_ r inv = record {
  first = inv.first;
  opened = inv.opened;
  ascending =
      rw (length-resolve_at (length rs) Decision.cancelled (rs ++ r ∷ []))
        (rw (length-snoc rs r) (Ascending-higher 0 _ (length rs) inv.ascending));
  settled =
      Settled-refuse rs r (waiting (record { request = shown; queue = queue })) Decision.cancelled
        inv.settled inv.ascending;
}

InvOf-last :
    (rs : List Request) (i : ℕ) (open_ : Bool) (d : Decision)
    → InvOf (some i) [] open_ rs
    → InvOf none [] false (resolve_at i d rs)
InvOf-last rs i open_ d inv = record {
  first = inr refl;
  opened = refl;
  ascending = omega arith;
  settled = Settled-resolve rs i [] (length rs) d inv.settled inv.ascending.1;
}

InvOf-next :
    (rs : List Request) (i j : ℕ) (js : List ℕ) (open_ : Bool) (d : Decision)
    → InvOf (some i) (j ∷ js) open_ rs
    → InvOf (some j) js open_ (resolve_at i d rs)
InvOf-next rs i j js open_ d inv = record {
  first = inl refl;
  opened = inv.opened;
  ascending =
      rw (length-resolve_at i d rs)
        (Ascending-wider (suc i) 0 (j ∷ js) (length rs) (omega arith) inv.ascending.1);
  settled = Settled-resolve rs i (j ∷ js) (length rs) d inv.settled inv.ascending.1;
}

List-cases {ℓ} : {A : Type ℓ} (xs : List A) → (xs ≡ []) ⊎ ((y : A) × (ys : List A) × (xs ≡ y ∷ ys))
List-cases [] = inl refl
List-cases (y ∷ ys) = inr (y, ys, refl)

module _ {L : Type 0} where
  pub approval_loop-Inv :
      (c : Controller L) (dispatched : Bool) (r : Request)
      → Inv c
      → r.response ≡ none
      → Inv (approval_loop c dispatched r)
  unfolding approval_loop enqueue_approval
  approval_loop-Inv c true r inv fresh = elim (Option-cases c.approval.request) [
    | inl e ↦
        simp e
          (InvOf-arrive_first c.requests c.approval.queue c.approval_open r (simp e at inv) fresh)
    | inr (i, e) ↦
        simp e
          (InvOf-arrive_next c.requests i c.approval.queue c.approval_open r (simp e at inv) fresh)
  ]
  approval_loop-Inv c false r inv fresh =
      InvOf-refuse c.requests c.approval.request c.approval.queue c.approval_open r inv

  pub resolve_approval-Inv : (c : Controller L) (d : Decision) → Inv c → Inv (resolve_approval c d)
  unfolding resolve_approval advance_approval
  resolve_approval-Inv c d inv = elim (Option-cases c.approval.request) [
    | inl e ↦ rw (e, resolve_approval) inv
    | inr (i, e) ↦ elim (List-cases c.approval.queue) [
      | inl q ↦
          rw (e, resolve_approval)
            (rw (q, advance_approval)
              (InvOf-last c.requests i c.approval_open d (rw (e, q) at inv)))
      | inr (j, js, q) ↦
          rw (e, resolve_approval)
            (rw (q, advance_approval)
              (InvOf-next c.requests i j js c.approval_open d (rw (e, q) at inv)))
    ]
  ]

  pub deny_all_approvals-Inv : (c : Controller L) → Inv c → Inv (deny_all_approvals c)
  unfolding deny_all_approvals
  deny_all_approvals-Inv c inv = record {
    first = inr refl;
    opened = refl;
    ascending = omega arith;
    settled =
        Settled-resolve_all c.requests 0 (length c.requests) (waiting c.approval) Decision.cancelled
          inv.settled inv.ascending;
  }

pub dismiss_approval-Inv : {L : Type 0} (c : Controller L) → Inv c → Inv (dismiss_approval c)
unfolding dismiss_approval
dismiss_approval-Inv c inv = resolve_approval-Inv c Decision.cancelled inv

pub new_controller-Inv :
    {L : Type 0} (session : Session L) (mode : Option AgentMode) → Inv (new_controller session mode)
unfolding new_controller
new_controller-Inv session mode = record {
  first = inr refl;
  opened = refl;
  ascending = omega arith;
  settled = λ i r h. cc;
}
