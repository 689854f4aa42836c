-- ===== src/Store/Examples.antt =====
-- Inputs for the theorems on internal/infra/session/store.go.
use codefolio.Common.{
  ℕ, ◌≤◌, Text, codes, List, [], ◌∷◌, true, false, some, All, trim_space, ◌≡◌, refl, ◌↔◌,
}
use codefolio.Filepath.{path_steps}
use codefolio.Domain.Conversation.{Role}
use codefolio.Session.Ledger.{Codec, LogRecord, Kind, blank, message_record}
use codefolio.Session.Load.{
  load, load_lines, load_record, load_message, store_message, lookup_id, decode, any_too_long,
}
use codefolio.Memory.Files.{DirEntry}
use codefolio.Store.Table.{
  SessionInfo, DirListing, Opened, SessionDisk, open_log, list_sessions, load_session, latest,
  valid_id, session_path,
}
use codefolio.Store.Match.{Only}
use codefolio.Store.Loads.{load_session_iff, latest_lem}

-- An encoder whose lines are the records.
abbrev record_codec : Codec
record_codec = record {
  Line = LogRecord;
  size = λ _. 0;
  marshal = λ r. some r;
  unmarshal = λ r. some r;
}

abbrev one_line : Text → List LogRecord
one_line content = message_record 3 Kind.message (blank (codes "u") Role.user content 3) ∷ []

abbrev log_file : Text → ℕ → DirEntry
log_file name time = record { name = name; is_dir = false; info = some time }

-- The newest session has an ID that another one starts with.
abbrev disk : SessionDisk LogRecord
disk = record {
  now = 9;
  read_dir = λ _. DirListing.entries (
      log_file (codes "b.jsonl") 4
      ∷ log_file (codes "ab.jsonl") 5
      ∷ log_file (codes "notes.txt") 8
      ∷ log_file (codes "a.jsonl") 7
      ∷ []);
  read_log = λ _. some (one_line (codes " Fix it\nnow"));
  ended = λ _. false;
}

abbrev info : Text → ℕ → SessionInfo
info id time = record { id = id; title = codes "Fix it"; updated_at = time; message_count = 1 }

three_listed :
    list_sessions record_codec disk (codes "/w")
    ≡ some (info (codes "a") 7 ∷ info (codes "ab") 5 ∷ info (codes "b") 4 ∷ [])
unfolding list_sessions path_steps load load_lines load_record load_message store_message lookup_id
    decode any_too_long trim_space
three_listed = refl

latest_lem_example :
    All (λ (s : SessionInfo). s.updated_at ≤ 7) (info (codes "ab") 5 ∷ info (codes "b") 4 ∷ [])
    × (latest record_codec disk disk (codes "/w") ≡ Opened.ambiguous)
latest_lem_example =
    latest_lem record_codec disk (codes "/w") (info (codes "a") 7)
      (info (codes "ab") 5 ∷ info (codes "b") 4 ∷ []) three_listed refl

load_session_iff_example :
    (load_session record_codec disk (codes "/w") (codes "ab")
      ≡ Opened.opened
          (open_log record_codec disk (session_path (codes "/w") (codes "ab.jsonl")))
          (info (codes "ab") 5))
    ↔ ((valid_id (codes "ab") ≡ true)
        × ((items : List SessionInfo) × (list_sessions record_codec disk (codes "/w") ≡ some items)
            × Only (codes "ab") (info (codes "ab") 5) items)
        × (open_log record_codec disk (session_path (codes "/w") (codes "ab.jsonl"))
            ≡ open_log record_codec disk (session_path (codes "/w") (codes "ab.jsonl"))))
load_session_iff_example =
    load_session_iff record_codec disk (codes "/w") (codes "ab")
      (open_log record_codec disk (session_path (codes "/w") (codes "ab.jsonl")))
      (info (codes "ab") 5)
