-- ===== src/Memory/Extract.antt =====
-- `Extract` of internal/svc/memory.go: what one extraction saves, and how calls that come while one
-- runs are handled. A step is one stretch of code under the lock `mu`.
use codefolio.Common.{
  Text, codes, List, [], ◌∷◌, ◌++◌, Bool, true, false, ◌||◌, Option, none, some, text_eq, is_empty,
  trim_space, null, if◌then◌else◌, ◌≡◌,
}
use codefolio.Domain.Conversation.{ChatMessage}
use codefolio.Memory.Text.{Proposal, valid_proposal, extraction_prompt}

abbrev pub is_user_scope : Proposal → Bool
is_user_scope p = text_eq p.type (codes "user") || text_eq p.type (codes "feedback")

-- The calls of `saveMemory`, each with its directory.
unfoldable pub saves_of : Text × Text → List Proposal → List (Text × Proposal)
unfolding valid_proposal
saves_of roots [] = []
saves_of roots (p ∷ ps) =
    let rest = saves_of roots ps in
    if valid_proposal p then (if is_user_scope p then roots.0 else roots.1, p) ∷ rest else rest

-- An extraction: `ask` is what the provider answers to the prompt, `none` where it has an error, and
-- `decode` the proposals of a text, `none` where it is not JSON of this form.
unfoldable pub extract_once :
    (Text → Option Text)
    → (Text → Option (List Proposal))
    → Text × Text
    → List ChatMessage
    → List (Text × Proposal)
unfolding saves_of extraction_prompt
extract_once ask decode roots messages =
    let prompt = extraction_prompt messages in
    if is_empty prompt then [] else elim (ask prompt) [
      | none ↦ []
      | some response ↦ elim (decode (trim_space response)) [
        | none ↦ []
        | some proposals ↦ saves_of roots proposals
      ]
    ]

-- The service with its jobs: `working` are the messages of the extractions that run, `called` those of
-- the calls that have not taken the lock, and `extracted` those of the extractions that ended, the last
-- first.
pub record Service : Type 0 where
  pub running : Bool
  pub pending : List ChatMessage
  pub called : List (List ChatMessage)
  pub working : List (List ChatMessage)
  pub extracted : List (List ChatMessage)

abbrev pub new_memory_service : Service
new_memory_service = record {
  running = false;
  pending = [];
  called = [];
  working = [];
  extracted = [];
}

-- The part of a call before the extraction.
unfoldable pub enter : Service → List ChatMessage → Service
enter s messages =
    if s.running
    then record s { pending = messages }
    else record s { running = true; working = messages ∷ s.working }

-- The deferred function, behind an extraction: what is pending is handed to a new call.
unfoldable pub leave : Service → List ChatMessage → Service
leave s messages = record s {
  running = false;
  pending = [];
  called = if null s.pending then s.called else s.called ++ s.pending ∷ [];
  extracted = messages ∷ s.extracted;
}

-- The jobs in any order: a call by the agent, a call that takes the lock, an extraction that ends.
pub data Step : Service → Service → Type 0 where
  call : (s : Service) (m : List ChatMessage) → Step s (record s { called = s.called ++ m ∷ [] })
  enters :
      (s : Service) (before after : List (List ChatMessage)) (m : List ChatMessage)
      → s.called ≡ before ++ m ∷ after
      → Step s (enter (record s { called = before ++ after }) m)
  leaves :
      (s : Service) (before after : List (List ChatMessage)) (m : List ChatMessage)
      → s.working ≡ before ++ m ∷ after
      → Step s (leave (record s { working = before ++ after }) m)

pub data Reach (s : Service) : Service → Type 0 where
  here : Reach s s
  next : {t u : Service} → Reach s t → Step t u → Reach s u
