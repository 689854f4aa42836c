-- ===== src/Memory/Queue.antt =====
-- The calls of `Extract` in internal/svc/memory.go, in any order.
use codefolio.Common.{
  suc, ◌+◌, List, [], ◌∷◌, ◌++◌, Bool, true, false, null, if◌then◌else◌, length, length-append, ◌≡◌,
  refl, ap, ◌∙◌, inl, inr, arith, Bool-cases,
}
use codefolio.Domain.Conversation.{ChatMessage}
use codefolio.Memory.Extract.{Service, new_memory_service, enter, leave, Step, Reach}

-- As many extractions as the flag says.
abbrev pub Single : Service → Type 0
Single s = length s.working ≡ (if s.running then 1 else 0)

enter-Single : (s : Service) (m : List ChatMessage) → Single s → Single (enter s m)
unfolding enter
enter-Single s m h = elim (Bool-cases (s.running)) [
  | inl on ↦ simp on (simp on at h)
  | inr off ↦ ground (arith, off, h)
]

Step-Single : {s t : Service} → Step s t → Single s → Single t
Step-Single (Step.call s m) h = h
Step-Single (Step.enters s before after m e) h =
    enter-Single (record s { called = before ++ after }) m h
Step-Single (Step.leaves s before after m e) h =
    unfold leave in
    let all : length s.working ≡ length before + suc (length after) =
      ap (λ (x : List (List ChatMessage)). length x) e ∙ length-append {0} before (m ∷ after) in
    elim (Bool-cases (s.running)) [
      | inl on ↦
          let one : length s.working ≡ 1 = rw on at h in
          omega (arith, one, all, length-append {0} before after)
      | inr off ↦
          let no_job : length s.working ≡ 0 = rw off at h in absurd (omega (arith, no_job, all))
    ]

-- In every order of calls and ends, at most one extraction runs, and one does exactly while the flag is
-- set.
pub Reach-Single : {s : Service} → Reach new_memory_service s → Single s
Reach-Single Reach.here = refl
Reach-Single (Reach.next r st) = Step-Single st (Reach-Single r)

abbrev pub Messages : Type 0
Messages = List ChatMessage

abbrev service : Bool → Messages → List Messages → List Messages → List Messages → Service
service on waiting called working extracted = record {
  running = on;
  pending = waiting;
  called = called;
  working = working;
  extracted = extracted;
}

-- The service with one more call by the agent.
abbrev pub with_call : Service → Messages → Service
with_call s m = record s { called = s.called ++ m ∷ [] }

-- Nothing is left to do.
abbrev pub Idle : Service → Type 0
Idle s = (s.pending ≡ []) × (s.called ≡ []) × (s.working ≡ [])

-- An extraction of `a` ends with `b` pending and hands it to a new call; `c` is called and enters first.
before_last :
    (a b c : Messages)
    → null b ≡ false
    → Reach new_memory_service (service true [] (b ∷ []) (c ∷ []) (a ∷ []))
unfolding enter leave
before_last a b c h =
    let s1 = Reach.next Reach.here (Step.call new_memory_service a) in
    let s2 = Reach.next s1 (Step.enters (service false [] (a ∷ []) [] []) [] [] a refl) in
    let s3 = Reach.next s2 (Step.call (service true [] [] (a ∷ []) []) b) in
    let s4 = Reach.next s3 (Step.enters (service true [] (b ∷ []) (a ∷ []) []) [] [] b refl) in
    let s5 : Reach new_memory_service (service false [] (b ∷ []) [] (a ∷ [])) =
      rw h at (Reach.next s4 (Step.leaves (service true b [] (a ∷ []) []) [] [] a refl)) in
    let s6 = Reach.next s5 (Step.call (service false [] (b ∷ []) [] (a ∷ [])) c) in
    Reach.next s6 (Step.enters (service false [] (b ∷ c ∷ []) [] (a ∷ [])) (b ∷ []) [] c refl)

-- Then `d` becomes pending, and the older `b` takes its place.
after_last :
    (a b c d : Messages)
    → null b ≡ false
    → Reach
        (with_call (service true [] (b ∷ []) (c ∷ []) (a ∷ [])) d)
        (service false [] [] [] (b ∷ c ∷ a ∷ []))
unfolding enter leave
after_last a b c d h =
    let s1 =
      Reach.next Reach.here
        (Step.enters (service true [] (b ∷ d ∷ []) (c ∷ []) (a ∷ [])) (b ∷ []) [] d refl) in
    let s2 = Reach.next s1 (Step.enters (service true d (b ∷ []) (c ∷ []) (a ∷ [])) [] [] b refl) in
    let s3 : Reach (with_call (service true [] (b ∷ []) (c ∷ []) (a ∷ [])) d)
        (service false [] (b ∷ []) [] (c ∷ a ∷ [])) =
      rw h at (Reach.next s2 (Step.leaves (service true b [] (c ∷ []) (a ∷ [])) [] [] c refl)) in
    let s4 = Reach.next s3 (Step.enters (service false [] (b ∷ []) [] (c ∷ a ∷ [])) [] [] b refl) in
    Reach.next s4 (Step.leaves (service true [] [] (b ∷ []) (c ∷ a ∷ [])) [] [] b refl)

-- The messages of the last call can be lost: for any messages `a`, `b`, `c` and `d`, `b` not empty,
-- there is a state that the service can reach, and a run from it that starts with the call for `d` and
-- ends with nothing left to do, at which exactly `a`, `c` and `b` were extracted.
pub last_call_lost :
    (a b c d : Messages)
    → null b ≡ false
    → (s : Service) × (t : Service) × Reach new_memory_service s
      × Reach (with_call s d) t
      × Idle t
      × (t.extracted ≡ b ∷ c ∷ a ∷ [])
last_call_lost a b c d h = (
  service true [] (b ∷ []) (c ∷ []) (a ∷ []),
  service false [] [] [] (b ∷ c ∷ a ∷ []),
  before_last a b c h,
  after_last a b c d h,
  (refl, refl, refl),
  refl,
)
