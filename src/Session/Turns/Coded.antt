-- ===== src/Session/Turns/Coded.antt =====
-- What encoding/json gives back of the records of internal/infra/session/session.go: the decoder has the
-- texts with each invalid part of UTF-8 replaced, and all else as it was.
use codefolio.Common.{
  ℕ, ◌<◌, ltb, if◌then◌else◌, Text, List, [], ◌∷◌, true, some, map, All, ◌≡◌, refl, ◌∙◌, arith,
}
use mathlib.Core.Path.{ap₂}
use codefolio.Domain.Conversation.{ChatMessage, ToolCall, Role}
use codefolio.Session.Ids.{itoa, all_digits, itoa_lem}
use codefolio.Session.Ledger.{Codec, LogRecord, Kind}
use codefolio.Session.Numbers.{Numbered, Rising}

abbrev pub IsAscii : Text → Type 0
IsAscii = All (λ (b : ℕ). b < 128)

module _ (clean : Text → Text) where
  abbrev cleaned_role : Role → Role
  cleaned_role (Role.other s) = Role.other (clean s)
  cleaned_role r = r

  abbrev cleaned_kind : Kind → Kind
  cleaned_kind (Kind.other s) = Kind.other (clean s)
  cleaned_kind k = k

  abbrev cleaned_call : ToolCall → ToolCall
  cleaned_call tc = record { id = clean tc.id; name = clean tc.name; input = clean tc.input }

  -- A message with its texts cleaned.
  abbrev pub cleaned : ChatMessage → ChatMessage
  cleaned m = record m {
    id = clean m.id;
    role = cleaned_role m.role;
    content = clean m.content;
    thinking = clean m.thinking;
    thinking_signature = clean m.thinking_signature;
    error = clean m.error;
    tool_calls = map cleaned_call m.tool_calls;
    tool_call_id = clean m.tool_call_id;
  }

  abbrev pub cleaned_record : LogRecord → LogRecord
  cleaned_record r = record r {
    kind = cleaned_kind r.kind;
    message = cleaned r.message;
    provider = map cleaned r.provider;
  }

-- The encoder takes every record to a line that decodes to the record, its texts cleaned; ASCII texts
-- stay as they are. A time stands for one that the clock gives, of a year of four digits, which the
-- encoder never refuses.
pub record IsFaithful (c : Codec) : Type 0 where
  pub clean : Text → Text
  pub keeps_ascii : (s : Text) → IsAscii s → clean s ≡ s
  pub encodes :
      (r : LogRecord)
      → (line : c.Line) × (c.marshal r ≡ some line)
        × (c.unmarshal line ≡ some (cleaned_record clean r))

digits-IsAscii : (s : Text) → all_digits s ≡ true → IsAscii s
unfolding all_digits
digits-IsAscii [] h = tt
digits-IsAscii (c ∷ s) h = (ground arith, digits-IsAscii s (ground arith))

Numbered-IsAscii : (id : Text) (n : ℕ) → Numbered id n → IsAscii id
Numbered-IsAscii id n (k, e, lt) = rw e (lt, (omega arith, digits-IsAscii (itoa n) (itoa_lem n).0))

-- One way to clean a text: a question mark in the place of every byte that is not ASCII.
abbrev pub ascii_only : Text → Text
ascii_only = map (λ b. if ltb b 128 then b else 63)

pub ascii_only-IsAscii : (s : Text) → IsAscii s → ascii_only s ≡ s
ascii_only-IsAscii [] a = refl
ascii_only-IsAscii (c ∷ s) a =
    let first : (if ltb c 128 then c else 63) ≡ c = ground (arith, a.0) in
    ap₂ ◌∷◌ first (ascii_only-IsAscii s a.1)

module _ (c : Codec) (faithful : IsFaithful c) where
  open faithful use {clean}

  -- A numbered identifier stays as it is.
  pub clean-Numbered : (id : Text) (n : ℕ) → Numbered id n → clean id ≡ id
  clean-Numbered id n h = faithful.keeps_ascii id (Numbered-IsAscii id n h)

  pub Rising-cleaned :
      (lo hi : ℕ) (ms : List ChatMessage) → Rising lo ms hi → Rising lo (map (cleaned clean) ms) hi
  Rising-cleaned lo hi [] r = r
  Rising-cleaned lo hi (m ∷ ms) (n, h, lt, r) =
      let same = clean-Numbered m.id n h in
      (n, (h.0, same ∙ h.1, h.2), lt, Rising-cleaned n hi ms r)
