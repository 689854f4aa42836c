-- ===== src/Controller/View.antt =====
-- The messages that cmd/cli/controller shows: `Message` and `Tool` of state.go, and the searches
-- through them.
use codefolio.Common.{
  ℕ, Text, List, [], ◌∷◌, Bool, true, false, not, ◌||◌, Option, none, some, text_eq, is_empty,
  if◌then◌else◌,
}
use codefolio.Domain.Permission.{ToolOutcome}

-- The `Role` string of a message; the code sets it to one of these four.
pub data ViewRole : Type 0 where
  user assistant notice context : ViewRole

pub record Tool : Type 0 where
  pub id : Text
  pub name : Text
  pub input : Text
  pub output : Text
  pub done : Bool
  pub is_error : Bool
  pub elapsed : ℕ
  pub outcome : ToolOutcome
  pub expanded : Bool

pub record Message : Type 0 where
  pub id : Text
  pub role : ViewRole
  pub profile : Text
  pub content : Text
  pub thinking : Text
  pub thinking_expanded : Bool
  pub streaming : Bool
  pub error : Text
  pub tools : List Tool

abbrev pub new_message : Text → ViewRole → Text → Message
new_message id role content = record {
  id = id;
  role = role;
  profile = [];
  content = content;
  thinking = [];
  thinking_expanded = false;
  streaming = false;
  error = [];
  tools = [];
}

abbrev pub new_tool : Text → Text → Text → Tool
new_tool id name input = record {
  id = id;
  name = name;
  input = input;
  output = [];
  done = false;
  is_error = false;
  elapsed = 0;
  outcome = ToolOutcome.unset;
  expanded = false;
}

abbrev pub is_assistant : Message → Bool
is_assistant m = elim m.role [ ViewRole.assistant ↦ true | _ ↦ false ]

abbrev pub has_thinking : Message → Bool
has_thinking m = not (is_empty m.thinking)

unfoldable pub any : (Message → Bool) → List Message → Bool
any p [] = false
any p (m ∷ ms) = p m || any p ms

-- A write through the pointer to the last message that passes a test: the loops that count down.
unfoldable pub change_last : (Message → Bool) → (Message → Message) → List Message → List Message
unfolding any
change_last p f [] = []
change_last p f (m ∷ ms) =
    let rest = change_last p f ms in if any p ms then m ∷ rest else if p m then f m ∷ ms else m ∷ ms

-- A write through the pointer to the first tool of an identifier, where there is one.
unfoldable pub change_tool : Text → (Tool → Tool) → List Tool → Option (List Tool)
change_tool id f [] = none
change_tool id f (t ∷ ts) =
    let rest : Option (List Tool) = elim (change_tool id f ts) [
      | none ↦ none
      | some us ↦ some (t ∷ us)
    ] in
    if text_eq t.id id then some (f t ∷ ts) else rest

abbrev pub flip_thinking : Message → Message
flip_thinking m = record m { thinking_expanded = not m.thinking_expanded }

unfoldable pub toggle_last_thinking : List Message → List Message
unfolding change_last
toggle_last_thinking ms = change_last has_thinking flip_thinking ms

unfoldable pub toggle_thinking : Text → List Message → List Message
toggle_thinking id [] = []
toggle_thinking id (m ∷ ms) =
    let rest = toggle_thinking id ms in if text_eq m.id id then flip_thinking m ∷ ms else m ∷ rest

-- A message of the identifier without the tool does not end the search.
unfoldable pub toggle_tool : Text → Text → List Message → List Message
unfolding change_tool
toggle_tool message_id tool_id [] = []
toggle_tool message_id tool_id (m ∷ ms) =
    let rest = toggle_tool message_id tool_id ms in
    if text_eq m.id message_id
    then elim (change_tool tool_id (λ (t : Tool). record t { expanded = not t.expanded }) m.tools) [
      | none ↦ m ∷ rest
      | some tools ↦ record m { tools = tools } ∷ ms
    ]
    else m ∷ rest
