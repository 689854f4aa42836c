-- ===== src/Session/Numbers.antt =====
-- The numbers of the messages rise along the ledger, so the identifiers tell the messages apart.
use codefolio.Common.{
  ℕ, suc, ◌≤◌, ◌<◌, Text, List, [], ◌∷◌, ◌++◌, false, text_eq, text_eq_sound, ◌≡◌, refl, sym, ◌∙◌,
  arith, Bool-cases, inl, inr, text_eq_refl,
}
use codefolio.Domain.Conversation.{ChatMessage}
use codefolio.Session.Ids.{itoa, itoa-injective, message_sequence, message_sequence-itoa, int_limit}
use codefolio.Session.Replay.{upsert}

-- An ASCII letter, a dash and the number.
abbrev pub Numbered : Text → ℕ → Type 0
Numbered id n = (k : ℕ) × (id ≡ k ∷ 45 ∷ itoa n) × (k < 128)

-- The numbers rise strictly from above `lo`, and the last is at most `hi`.
abbrev pub Rising : ℕ → List ChatMessage → ℕ → Type 0
Rising lo [] hi = lo ≤ hi
Rising lo (m ∷ ms) hi = (n : ℕ) × Numbered m.id n × (lo < n) × Rising n ms hi

tail_eq : {A : Type 0} {x y : A} {xs ys : List A} → x ∷ xs ≡ y ∷ ys → xs ≡ ys
tail_eq h = cc

Numbered-unique : (s t : Text) (m n : ℕ) → Numbered s m → Numbered t n → s ≡ t → m ≡ n
Numbered-unique s t m n (k, p, _) (j, q, _) e =
    itoa-injective m n (tail_eq (tail_eq (sym p ∙ (e ∙ q))))

ids_differ : (s t : Text) (m n : ℕ) → Numbered s m → Numbered t n → m < n → text_eq s t ≡ false
ids_differ s t m n p q lt = elim (Bool-cases (text_eq s t)) [
  | inl e ↦ absurd (omega (arith, Numbered-unique s t m n p q (text_eq_sound s t e)))
  | inr e ↦ e
]

pub Rising-bounds : (lo hi : ℕ) (ms : List ChatMessage) → Rising lo ms hi → lo ≤ hi
Rising-bounds lo hi [] r = r
Rising-bounds lo hi (m ∷ ms) (n, p, lt, r) = omega (arith, Rising-bounds n hi ms r)

pub Rising-snoc :
    (lo hi : ℕ) (ms : List ChatMessage) (m : ChatMessage)
    → Rising lo ms hi
    → Numbered m.id (suc hi)
    → Rising lo (ms ++ m ∷ []) (suc hi)
Rising-snoc lo hi [] m r p = (suc hi, p, omega arith, omega arith)
Rising-snoc lo hi (x ∷ xs) m (n, q, lt, r) p = (n, q, lt, Rising-snoc n hi xs m r p)

-- A message under a new number is added at the end.
pub upsert_fresh :
    (lo hi n : ℕ) (ms : List ChatMessage) (m : ChatMessage)
    → Rising lo ms hi
    → Numbered m.id n
    → hi < n
    → upsert ms m ≡ ms ++ m ∷ []
unfolding upsert
upsert_fresh lo hi n [] m r p lt = refl
upsert_fresh lo hi n (x ∷ xs) m (j, q, _, r) p lt = rw (
  ids_differ x.id m.id j n q p (omega (arith, Rising-bounds j hi xs r)),
  upsert_fresh j hi n xs m r p lt,
)

-- The number of the last message.
pub last_number :
    (lo hi : ℕ) (ms : List ChatMessage) (m : ChatMessage)
    → Rising lo (ms ++ m ∷ []) hi
    → (n : ℕ) × Numbered m.id n × (lo < n) × (n ≤ hi)
last_number lo hi [] m (n, p, lt, le) = (n, p, lt, le)
last_number lo hi (x ∷ xs) m (j, q, lt, r) =
    let (n, p, above, below) = last_number j hi xs m r in (n, p, omega arith, below)

-- A message under the identifier of the last one replaces it.
pub upsert_last :
    (lo hi : ℕ) (ms : List ChatMessage) (old m : ChatMessage)
    → Rising lo (ms ++ old ∷ []) hi
    → old.id ≡ m.id
    → upsert (ms ++ old ∷ []) m ≡ ms ++ m ∷ []
unfolding upsert
upsert_last lo hi [] old m r e = rw (e, text_eq_refl m.id)
upsert_last lo hi (x ∷ xs) old m (j, q, _, r) e =
    let (n, p, lt, le) = last_number j hi xs old r in
    rw (rw e at (ids_differ x.id old.id j n q p lt), upsert_last j hi xs old m r e)

pub Rising-last :
    (lo hi : ℕ) (ms : List ChatMessage) (old m : ChatMessage)
    → Rising lo (ms ++ old ∷ []) hi
    → old.id ≡ m.id
    → Rising lo (ms ++ m ∷ []) hi
Rising-last lo hi [] old m (n, (k, p, a), lt, le) e = (n, (k, sym e ∙ p, a), lt, le)
Rising-last lo hi (x ∷ xs) old m (n, q, lt, r) e = (n, q, lt, Rising-last n hi xs old m r e)

-- The sequence number of a numbered identifier.
pub message_sequence_of_Numbered :
    (id : Text) (n : ℕ) → Numbered id n → n < int_limit → message_sequence id ≡ n
message_sequence_of_Numbered id n (k, e, _) lt = rw e (message_sequence-itoa k n lt)
