-- ===== src/Controller/Queue.antt =====
-- What the queue of cmd/cli/controller/approval.go guarantees: every request is answered once, or
-- waits.
use codefolio.Common.{
  ℕ, zero, suc, ◌≤◌, ◌<◌, List, [], ◌∷◌, ◌++◌, Bool, true, false, not, ◌||◌, ◌==◌, Option, some,
  is_some, length, get_elem?, elem, ◌≡◌, refl, ap, arith, inl, inr, ◌⊎◌,
}
use codefolio.Approval.Broker.{Request, Decision, resolve}
use codefolio.Controller.State.{Controller, waiting}
use codefolio.Controller.Approvals.{resolve_at}

-- Places in rising order, between two bounds.
abbrev pub Ascending : ℕ → List ℕ → ℕ → Type 0
Ascending lo [] hi = lo ≤ hi
Ascending lo (i ∷ is) hi = (lo ≤ i) × Ascending (suc i) is hi

-- A request has an answer exactly if its place is not among those that wait.
abbrev pub Settled : List Request → List ℕ → Type 0
Settled rs w = (i : ℕ) (r : Request) → get_elem? rs i ≡ some r → is_some r.response ≡ not (elem i w)

-- Of the request that is shown, the queue, whether the window is open, and all requests.
pub record InvOf (shown : Option ℕ) (queue : List ℕ) (open_ : Bool) (rs : List Request)
    : Type 0 where
  pub first : (is_some shown ≡ true) ⊎ (queue ≡ [])
  pub opened : open_ ≡ is_some shown
  pub ascending : Ascending 0 (waiting (record { request = shown; queue = queue })) (length rs)
  pub settled : Settled rs (waiting (record { request = shown; queue = queue }))

abbrev pub Inv : {L : Type 0} → Controller L → Type 0
Inv c = InvOf c.approval.request c.approval.queue c.approval_open c.requests

pub Ascending-le : (lo : ℕ) (is : List ℕ) (hi : ℕ) → Ascending lo is hi → lo ≤ hi
Ascending-le lo [] hi h = h
Ascending-le lo (i ∷ is) hi h = omega (arith, h.0, Ascending-le (suc i) is hi h.1)

pub Ascending-snoc :
    (lo : ℕ) (is : List ℕ) (hi : ℕ) → Ascending lo is hi → Ascending lo (is ++ hi ∷ []) (suc hi)
Ascending-snoc lo [] hi h = (h, omega arith)
Ascending-snoc lo (i ∷ is) hi h = (h.0, Ascending-snoc (suc i) is hi h.1)

pub Ascending-wider :
    (lo lo' : ℕ) (is : List ℕ) (hi : ℕ) → lo' ≤ lo → Ascending lo is hi → Ascending lo' is hi
Ascending-wider lo lo' [] hi w h = omega (arith, w, h)
Ascending-wider lo lo' (i ∷ is) hi w h = (omega (arith, w, h.0), h.1)

pub Ascending-higher :
    (lo : ℕ) (is : List ℕ) (hi : ℕ) → Ascending lo is hi → Ascending lo is (suc hi)
Ascending-higher lo [] hi h = omega (arith, h)
Ascending-higher lo (i ∷ is) hi h = (h.0, Ascending-higher (suc i) is hi h.1)

pub below_not_elem :
    (lo : ℕ) (is : List ℕ) (hi j : ℕ) → Ascending lo is hi → j < lo → elem j is ≡ false
below_not_elem lo [] hi j h lt = refl
below_not_elem lo (i ∷ is) hi j h lt =
    let rest = below_not_elem (suc i) is hi j h.1 (omega (arith, h.0)) in
    let first : (j == i) ≡ false = ground (arith, h.0) in rw (first, rest)

pub above_not_elem :
    (lo : ℕ) (is : List ℕ) (hi j : ℕ) → Ascending lo is hi → hi ≤ j → elem j is ≡ false
above_not_elem lo [] hi j h le = refl
above_not_elem lo (i ∷ is) hi j h le =
    let rest = above_not_elem (suc i) is hi j h.1 le in
    let within = Ascending-le (suc i) is hi h.1 in
    let first : (j == i) ≡ false = ground (arith, within) in rw (first, rest)

pub elem-snoc : (j : ℕ) (is : List ℕ) (k : ℕ) → elem j (is ++ k ∷ []) ≡ (elem j is || j == k)
elem-snoc j [] k = ground arith
elem-snoc j (i ∷ is) k = ground (arith, elem-snoc j is k)

pub get-resolve_at :
    (i : ℕ) (d : Decision) (rs : List Request) (j : ℕ)
    → (i == j) ≡ false
    → get_elem? (resolve_at i d rs) j ≡ get_elem? rs j
unfolding resolve_at
get-resolve_at i d [] j h = refl
get-resolve_at zero d (r ∷ rs) zero h = cc
get-resolve_at zero d (r ∷ rs) (suc j) h = refl
get-resolve_at (suc i) d (r ∷ rs) zero h = refl
get-resolve_at (suc i) d (r ∷ rs) (suc j) h = get-resolve_at i d rs j (ground arith)

pub get-resolve_at_same :
    (i : ℕ) (d : Decision) (rs : List Request) (r : Request)
    → get_elem? (resolve_at i d rs) i ≡ some r
    → is_some r.response ≡ true
unfolding resolve_at resolve
get-resolve_at_same i d [] r h = cc
get-resolve_at_same zero d (x ∷ rs) r h = ground arith
get-resolve_at_same (suc i) d (x ∷ rs) r h = get-resolve_at_same i d rs r h

pub length-resolve_at :
    (i : ℕ) (d : Decision) (rs : List Request) → length (resolve_at i d rs) ≡ length rs
unfolding resolve_at
length-resolve_at i d [] = refl
length-resolve_at zero d (r ∷ rs) = refl
length-resolve_at (suc i) d (r ∷ rs) = ap suc (length-resolve_at i d rs)

pub get-snoc :
    (rs : List Request) (x : Request) (i : ℕ) (r : Request)
    → get_elem? (rs ++ x ∷ []) i ≡ some r
    → ((i ≡ length rs) × (r ≡ x)) ⊎ ((i < length rs) × (get_elem? rs i ≡ some r))
get-snoc [] x zero r h = inl (refl, cc)
get-snoc [] x (suc i) r h = cc
get-snoc (y ∷ rs) x zero r h = inr (omega arith, h)
get-snoc (y ∷ rs) x (suc i) r h = elim (get-snoc rs x i r h) [
  | inl (e, same) ↦ inl (ap suc e, same)
  | inr (lt, same) ↦ inr (omega arith, same)
]
