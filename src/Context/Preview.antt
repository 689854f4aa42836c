-- ===== src/Context/Preview.antt =====
-- `previewToolOutputs` of internal/svc/context.go.
use codefolio.Common.{
  ℕ, zero, suc, ◌+◌, ◌<◌, Text, codes, List, [], ◌∷◌, ◌++◌, Bool, true, false, ◌&&◌, ltb, length,
  take, if◌then◌else◌, ◌≡◌, refl, ap, ◌∙◌, arith, length-append, length-take, ◌⊎◌, inl, inr,
  Bool-cases,
}
use mathlib.Core.Path.{ap₂}
use codefolio.Domain.Conversation.{ChatMessage, is_tool}
use codefolio.Session.Ids.{itoa}

abbrev pub preview_limit : ℕ
preview_limit = 24000

-- The note behind a cut output; `%d` writes the digits of `itoa`.
unfoldable pub truncation_note : ℕ → Text
truncation_note size =
    codes "\n\n[Tool output truncated from "
    ++ (itoa size
        ++ codes " bytes. Re-run the tool with narrower arguments if more detail is needed.]")

unfoldable pub is_oversized : ChatMessage → Bool
is_oversized m = is_tool m.role && ltb preview_limit (length m.content)

unfoldable pub preview : ChatMessage → ChatMessage
preview m =
    if is_oversized m
    then record m { content = take preview_limit m.content ++ truncation_note (length m.content) }
    else m

unfoldable pub preview_tool_outputs : List ChatMessage → List ChatMessage × ℕ
preview_tool_outputs [] = ([], 0)
preview_tool_outputs (m ∷ ms) =
    let rest = preview_tool_outputs ms in
    (preview m ∷ rest.0, if is_oversized m then suc rest.1 else rest.1)

length_of_cut : (n : ℕ) (s t : Text) → n < length s → length (take n s ++ t) ≡ n + length t
length_of_cut n s t h = omega (arith, length-append (take n s) t, length-take n s)

take_of_cut : (n : ℕ) (s t : Text) → n < length s → take n (take n s ++ t) ≡ take n s
take_of_cut zero s t h = refl
take_of_cut (suc n) [] t h = elim h [ ]
take_of_cut (suc n) (x ∷ s) t h = ap (◌∷◌ x) (take_of_cut n s t (omega arith))

oversized_long :
    (m : ChatMessage)
    → is_oversized m ≡ true
    → (is_tool m.role ≡ true) × (preview_limit < length m.content)
unfolding is_oversized
oversized_long m h = ground arith

pub oversized_of_long :
    (m : ChatMessage)
    → is_tool m.role ≡ true
    → preview_limit < length m.content
    → is_oversized m ≡ true
unfolding is_oversized
oversized_of_long m tool long = ground arith

preview_content :
    (m : ChatMessage)
    → is_oversized m ≡ true
    → (preview m).content ≡ take preview_limit m.content ++ truncation_note (length m.content)
unfolding preview
preview_content m h = rw h refl

note_nonempty : (n : ℕ) → 0 < length (truncation_note n)
unfolding truncation_note
note_nonempty n = omega arith

preview_size :
    (m : ChatMessage)
    → is_oversized m ≡ true
    → length (preview m).content ≡ preview_limit + length (truncation_note (length m.content))
unfolding preview
preview_size m e = rw e (length_of_cut preview_limit m.content _ (oversized_long m e).1)

-- The preview of an oversized output of a tool has the length of the limit and of the note; any other
-- message is its own preview. A preview keeps the identifier, the role and the calls.
pub preview_bounded :
    (m : ChatMessage)
    → ((is_oversized m ≡ true)
          × (length (preview m).content
              ≡ preview_limit + length (truncation_note (length m.content)))
        ⊎ (is_oversized m ≡ false) × (preview m ≡ m))
      × ((preview m).id ≡ m.id)
      × ((preview m).role ≡ m.role)
      × ((preview m).tool_calls ≡ m.tool_calls)
unfolding preview
preview_bounded m = elim (Bool-cases (is_oversized m)) [
  | inl e ↦ (inl (e, preview_size m e), rw e refl, rw e refl, rw e refl)
  | inr e ↦ (inr (e, rw e refl), rw e refl, rw e refl, rw e refl)
]

-- `Compact` previews again what `Prepare` has previewed: of an oversized output it then notes the size
-- of the preview, not the size of the output.
pub preview_twice :
    (m : ChatMessage)
    → is_oversized m ≡ true
    → (preview (preview m)).content
      ≡ take preview_limit m.content
        ++ truncation_note (preview_limit + length (truncation_note (length m.content)))
preview_twice m h =
    let (tool, long) = oversized_long m h in
    let note = truncation_note (length m.content) in
    let size : length (preview m).content ≡ preview_limit + length note = preview_size m h in
    let again : is_oversized (preview m) ≡ true =
      oversized_of_long (preview m) (ap is_tool (preview_bounded m).2 ∙ tool)
        (omega (arith, size, note_nonempty (length m.content))) in
    preview_content (preview m) again
    ∙ ap₂ ◌++◌
        (ap (take preview_limit) (preview_content m h)
          ∙ take_of_cut preview_limit m.content note long)
        (ap truncation_note size)
