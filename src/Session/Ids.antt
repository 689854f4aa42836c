-- ===== src/Session/Ids.antt =====
-- The identifiers of messages: `itoa`, the four `…MsgID` functions and `messageSequence`.
use codefolio.Common.{
  ℕ, zero, suc, ◌+◌, ◌*◌, ◌/◌, ◌%◌, ◌<◌, ◌-◌, Text, [], ◌∷◌, ◌++◌, Bool, true, false, ◌&&◌, ◌==◌,
  ltb, leb, ◌≡◌, refl, sym, ap, ◌∙◌, arith, if◌then◌else◌, is_empty, Bool-cases, inl, inr, Option,
  none, some, not,
}

-- `itoa` on fuel; a number has no more digits than its value and one.
unfoldable pub itoa_fuel : ℕ → ℕ → Text
itoa_fuel zero n = []
itoa_fuel (suc f) n =
    let more = itoa_fuel f (n / 10) ++ (48 + n % 10) ∷ [] in
    if ltb n 10 then (48 + n) ∷ [] else more

unfoldable pub itoa : ℕ → Text
unfolding itoa_fuel
itoa n = itoa_fuel (suc n) n

unfoldable pub user_msg_id : ℕ → Text
user_msg_id n = 117 ∷ 45 ∷ itoa n

unfoldable pub asst_msg_id : ℕ → Text
asst_msg_id n = 97 ∷ 45 ∷ itoa n

unfoldable pub sys_msg_id : ℕ → Text
sys_msg_id n = 115 ∷ 45 ∷ itoa n

unfoldable pub tool_msg_id : ℕ → Text
tool_msg_id n = 116 ∷ 45 ∷ itoa n

abbrev pub is_digit : ℕ → Bool
is_digit c = leb 48 c && leb c 57

unfoldable pub all_digits : Text → Bool
all_digits [] = true
all_digits (c ∷ s) = is_digit c && all_digits s

-- The value of a text of digits, behind what was read.
unfoldable pub digits_value : ℕ → Text → ℕ
digits_value acc [] = acc
digits_value acc (c ∷ s) = digits_value (acc * 10 + (c - 48)) s

abbrev pub int_limit : ℕ
int_limit = 9223372036854775808

-- `strconv.Atoi` of a text with no minus sign.
unfoldable pub atoi : Text → Option ℕ
unfolding all_digits digits_value
atoi [] = none
atoi (c ∷ s) =
    let digits = if c == 43 then s else c ∷ s in
    if not (is_empty digits) && (all_digits digits && ltb (digits_value 0 digits) int_limit)
    then some (digits_value 0 digits)
    else none

-- What stands behind the last `-`, if there is one.
unfoldable pub after_last_dash : Text → Option Text
after_last_dash [] = none
after_last_dash (c ∷ s) = elim (after_last_dash s) [
  | some r ↦ some r
  | none ↦ if c == 45 then some s else none
]

unfoldable pub message_sequence : Text → ℕ
unfolding after_last_dash atoi
message_sequence id = elim (after_last_dash id) [
  | none ↦ 0
  | some r ↦ elim (atoi r) [ none ↦ 0 | some n ↦ n ]
]

digits_value-snoc :
    (acc : ℕ) (s : Text) (c : ℕ)
    → digits_value acc (s ++ c ∷ []) ≡ digits_value acc s * 10 + (c - 48)
unfolding digits_value
digits_value-snoc acc [] c = refl
digits_value-snoc acc (x ∷ s) c = digits_value-snoc (acc * 10 + (x - 48)) s c

all_digits-snoc :
    (s : Text) (c : ℕ) → all_digits s ≡ true → is_digit c ≡ true → all_digits (s ++ c ∷ []) ≡ true
unfolding all_digits
all_digits-snoc [] c hs hc = ground arith
all_digits-snoc (x ∷ s) c hs hc = ground (arith, all_digits-snoc s c)

-- The text of a number is made of digits, and its value is the number.
itoa_fuel_lem :
    (f n : ℕ) → n < f → (all_digits (itoa_fuel f n) ≡ true) × (digits_value 0 (itoa_fuel f n) ≡ n)
unfolding itoa_fuel
itoa_fuel_lem zero n h = elim h [ ]
itoa_fuel_lem (suc f) n h = elim (Bool-cases (ltb n 10)) [
  | inl e ↦ rw e (unfold all_digits digits_value in (ground arith, omega arith))
  | inr e ↦
      let ih = itoa_fuel_lem f (n / 10) (ground arith) in
      rw e (
        all_digits-snoc (itoa_fuel f (n / 10)) (48 + n % 10) ih.0 (ground arith),
        digits_value-snoc 0 (itoa_fuel f (n / 10)) (48 + n % 10) ∙ (rw (ih.1) (omega arith)),
      )
]

pub itoa_lem : (n : ℕ) → (all_digits (itoa n) ≡ true) × (digits_value 0 (itoa n) ≡ n)
unfolding itoa
itoa_lem n = itoa_fuel_lem (suc n) n (omega arith)

pub itoa-injective : (m n : ℕ) → itoa m ≡ itoa n → m ≡ n
itoa-injective m n h = sym (itoa_lem m).1 ∙ (ap (digits_value 0) h ∙ (itoa_lem n).1)

is_empty-snoc : (s : Text) (c : ℕ) → is_empty (s ++ c ∷ []) ≡ false
is_empty-snoc [] c = refl
is_empty-snoc (x ∷ s) c = refl

itoa-ne-empty : (n : ℕ) → is_empty (itoa n) ≡ false
unfolding itoa
itoa-ne-empty n = elim (Bool-cases (ltb n 10)) [
  | inl e ↦ rw e
  | inr e ↦ rw e (is_empty-snoc (itoa_fuel n (n / 10)) (48 + n % 10))
]

no_dash_in_digits : (s : Text) → all_digits s ≡ true → after_last_dash s ≡ none
unfolding all_digits after_last_dash
no_dash_in_digits [] h = refl
no_dash_in_digits (c ∷ s) h = ground (arith, no_dash_in_digits s)

atoi_of_digits :
    (s : Text)
    → is_empty s ≡ false
    → all_digits s ≡ true
    → digits_value 0 s < int_limit
    → atoi s ≡ some (digits_value 0 s)
unfolding atoi
atoi_of_digits [] e d lt = cc
atoi_of_digits (c ∷ s) e d lt = ground arith

-- The sequence number behind any letter and a dash is read back, if it fits an `int`.
pub message_sequence-itoa : (k n : ℕ) → n < int_limit → message_sequence (k ∷ 45 ∷ itoa n) ≡ n
unfolding message_sequence
message_sequence-itoa k n lt =
    let (digits, value) = itoa_lem n in
    let dash = no_dash_in_digits (itoa n) digits in
    let number = atoi_of_digits (itoa n) (itoa-ne-empty n) digits (omega (arith, value)) in
    ground (arith, dash, number, value)

-- The sequence number of every identifier that the session makes is read back, as long as it fits an
-- `int`.
pub message_sequence_of_ids :
    (n : ℕ)
    → n < int_limit
    → (message_sequence (user_msg_id n) ≡ n)
      × (message_sequence (asst_msg_id n) ≡ n)
      × (message_sequence (sys_msg_id n) ≡ n)
      × (message_sequence (tool_msg_id n) ≡ n)
unfolding user_msg_id asst_msg_id sys_msg_id tool_msg_id
message_sequence_of_ids n lt = (
  message_sequence-itoa 117 n lt,
  message_sequence-itoa 97 n lt,
  message_sequence-itoa 115 n lt,
  message_sequence-itoa 116 n lt,
)
