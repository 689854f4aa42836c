-- ===== src/Memory/Examples.antt =====
-- Inputs for the theorems on internal/svc/memory.go.
use codefolio.Common.{
  ◌≤◌, Text, codes, [], ◌∷◌, ◌++◌, true, false, Option, none, some, text_eq, if◌then◌else◌, ◌≡◌,
  refl, arith, length, join_with, trim, trim_space, IsLine, All,
}
use codefolio.Domain.Conversation.{ChatMessage, Role}
use codefolio.Filepath.{clean, parts_of, path_steps}
use codefolio.Memory.Text.{Proposal, memory_slug, slug_from, parse_memory, header_value}
use codefolio.Memory.Files.{Candidate, saved, save_memory, memory_file}
use codefolio.Memory.Slugs.{file_name, save_memory_stays}
use codefolio.Common.{elem-IsLine}
use codefolio.Memory.Header.{IsPlain, parse_memory-memory_file}
use codefolio.Memory.Agents.{load_agents, separator}
use codefolio.Memory.Walk.{sections_along, load_agents_along, load_agents_endless}
use codefolio.Memory.Recall.{context_message, select_relevant}
use codefolio.Memory.Selected.{In, select_relevant_bounded}
use codefolio.Memory.Extract.{Service, new_memory_service, Step, Reach, enter}
use codefolio.Memory.Queue.{Single, Reach-Single, last_call_lost, with_call, Idle}

abbrev proposal : Proposal
proposal = record {
  type = codes "project";
  name = codes "../Build Rules";
  description = codes "How to build";
  content = codes "Use make.";
}

slug : memory_slug (codes "../Build Rules") ≡ codes "build-rules"
unfolding memory_slug slug_from trim_space trim
slug = refl

abbrev path : Text
path = codes "/home/u/.codefolio/memory/build-rules.md"

saves :
    save_memory none (λ _. none) (codes "/home/u/.codefolio/memory") proposal (codes "2026-01-01")
    ≡ saved path (memory_file proposal (codes "2026-01-01"))
unfolding save_memory memory_slug slug_from trim_space trim path_steps
saves = refl

save_memory_stays_example :
    (parts_of path
      ≡ parts_of (codes "/home/u/.codefolio/memory")
        ++ file_name (memory_slug (codes "../Build Rules")) ∷ [])
    × (text_eq (file_name (memory_slug (codes "../Build Rules"))) (codes "MEMORY.md") ≡ false)
    × (memory_file proposal (codes "2026-01-01") ≡ memory_file proposal (codes "2026-01-01"))
save_memory_stays_example =
    save_memory_stays none (λ _. none) (codes "/home/u/.codefolio/memory") (codes "2026-01-01") path
      (memory_file proposal (codes "2026-01-01")) proposal refl saves

IsPlain-name : IsPlain (codes "../Build Rules")
unfolding header_value trim_space trim
IsPlain-name = (elem-IsLine (codes "../Build Rules") refl, refl)

IsPlain-description : IsPlain (codes "How to build")
unfolding header_value trim_space trim
IsPlain-description = (elem-IsLine (codes "How to build") refl, refl)

IsPlain-type : IsPlain (codes "project")
unfolding header_value trim_space trim
IsPlain-type = (elem-IsLine (codes "project") refl, refl)

time-IsLine : IsLine (codes "2026-01-01")
time-IsLine = elem-IsLine (codes "2026-01-01") refl

parse_memory-memory_file_example :
    parse_memory (memory_file proposal (codes "2026-01-01")) ≡ record proposal { content = [] }
parse_memory-memory_file_example =
    parse_memory-memory_file proposal (codes "2026-01-01") IsPlain-name IsPlain-description
      IsPlain-type time-IsLine

-- Two directories have instructions.
abbrev read : Text → Option Text
read p =
    if text_eq p (codes "/w/AGENTS.md")
    then some (codes "Be brief.\n")
    else if text_eq p (codes "/w/a/b/AGENTS.md")
    then some (codes "Test first.")
    else none

load_agents_along_example :
    load_agents read 3 (codes "/w") (codes "/w/a/b")
    ≡ some (join_with separator (sections_along read (codes "w" ∷ []) (codes "a" ∷ codes "b" ∷ [])))
unfolding join_with
load_agents_along_example =
    load_agents_along read (codes "w" ∷ []) (codes "a" ∷ codes "b" ∷ []) 3
      ((refl, refl, refl, refl), ((refl, refl, refl, refl), ((refl, refl, refl, refl), tt)))
      (refl, (refl, tt)) (omega arith)

unclean : text_eq (clean (codes "/w/a/")) (codes "/w/a/") ≡ false
unfolding path_steps
unclean = refl

unclean_parts : parts_of (codes "/w/a/") ≡ codes "w" ∷ codes "a" ∷ []
unfolding path_steps
unclean_parts = refl

load_agents_endless_example : load_agents read 1000 (codes "/w") (codes "/w/a/") ≡ none
unfolding join_with
load_agents_endless_example =
    load_agents_endless read (codes "/w/a/") (codes "w" ∷ []) (codes "a" ∷ []) 1000 refl unclean
      unclean_parts (refl, tt)

abbrev message : Text → ChatMessage
message s = context_message (codes "u-1") Role.user s

abbrev called : Service
called = record new_memory_service { called = (message (codes "a") ∷ []) ∷ [] }

abbrev started : Service
started = record new_memory_service { running = true; working = (message (codes "a") ∷ []) ∷ [] }

one_job : Reach new_memory_service started
unfolding enter
one_job =
    Reach.next (Reach.next Reach.here (Step.call new_memory_service (message (codes "a") ∷ [])))
      (Step.enters called [] [] (message (codes "a") ∷ []) refl)

Reach-Single_example : Single started
Reach-Single_example = Reach-Single one_job

last_call_lost_example :
    (s : Service) × (t : Service) × Reach new_memory_service s
    × Reach (with_call s (message (codes "d") ∷ [])) t
    × Idle t
    × (t.extracted
        ≡ (message (codes "b") ∷ []) ∷ (message (codes "c") ∷ []) ∷ (message (codes "a") ∷ []) ∷ [])
last_call_lost_example =
    last_call_lost (message (codes "a") ∷ []) (message (codes "b") ∷ []) (message (codes "c") ∷ [])
      (message (codes "d") ∷ []) refl

abbrev candidate : Candidate
candidate = record {
  id = codes "user:style";
  name = codes "style";
  description = [];
  scope = codes "user";
  path = codes "/m/style.md";
  updated = 3;
}

-- The provider names one ID twice, and one that is not there.
select_relevant_bounded_example :
    (length (
        select_relevant
          (λ _. some (codes "{}"))
          (λ _. some (codes "user:style" ∷ codes "user:x" ∷ codes "user:style" ∷ []))
          (codes "q")
          (candidate ∷ []))
      ≤ 5)
    × All
        (λ c. In c (candidate ∷ []))
        (select_relevant
          (λ _. some (codes "{}"))
          (λ _. some (codes "user:style" ∷ codes "user:x" ∷ codes "user:style" ∷ []))
          (codes "q")
          (candidate ∷ []))
select_relevant_bounded_example =
    select_relevant_bounded (λ _. some (codes "{}"))
      (λ _. some (codes "user:style" ∷ codes "user:x" ∷ codes "user:style" ∷ [])) (codes "q")
      (candidate ∷ [])
