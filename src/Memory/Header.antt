-- ===== src/Memory/Header.antt =====
-- The header that `saveMemory` of internal/svc/memory.go writes is the one that `parseMemory` reads.
use codefolio.Common.{
  Text, codes, List, [], ◌∷◌, ◌++◌, true, false, ◌==◌, has_prefix, some, elem, join_with,
  trim_space, IsLine, IsLine-append, elem-IsLine, lines-join, All, append_assoc, ◌≡◌, refl, ap, ◌∙◌,
  arith,
}
use codefolio.Memory.Text.{
  Proposal, no_proposal, before_first, split_colon, header_value, set_field, read_line, read_header,
  parse_memory,
}
use codefolio.Memory.Files.{header_lines, memory_body, memory_file}

abbrev dashes : Text
dashes = codes "---"

-- A text that does not start with a dash.
abbrev OtherStart : Text → Type 0
OtherStart [] = ⊥
OtherStart (c ∷ s) = (c == 45) ≡ false

other_prefix : (s t : Text) → OtherStart s → has_prefix (s ++ t) dashes ≡ false
other_prefix [] t h = absurd h
other_prefix (c ∷ s) t h = ground (arith, h)

-- The first line before dashes.
before_dashes :
    (l rest : Text)
    → IsLine l
    → has_prefix rest dashes ≡ true
    → before_first (10 ∷ dashes) (l ++ 10 ∷ rest) ≡ some l
unfolding before_first
before_dashes [] rest a h = rw h refl
before_dashes (c ∷ l) rest a h = rw (a.0, before_dashes l rest a.1 h) refl

before_more :
    (l rest t : Text)
    → IsLine l
    → has_prefix rest dashes ≡ false
    → before_first (10 ∷ dashes) rest ≡ some t
    → before_first (10 ∷ dashes) (l ++ 10 ∷ rest) ≡ some (l ++ 10 ∷ t)
unfolding before_first
before_more [] rest t a h b = rw (h, b) refl
before_more (c ∷ l) rest t a h b = rw (a.0, before_more l rest t a.1 h b) refl

join_start : (q : Text) (ps : List Text) → OtherStart q → OtherStart (join_with (10 ∷ []) (q ∷ ps))
unfolding join_with
join_start [] ps h = absurd h
join_start (c ∷ s) [] h = h
join_start (c ∷ s) (p ∷ ps) h = h

-- The lines before dashes, of which none but the first may start with a dash.
before_lines :
    (p : Text) (ps : List Text) (rest : Text)
    → All IsLine (p ∷ ps)
    → All OtherStart ps
    → has_prefix rest dashes ≡ true
    → before_first (10 ∷ dashes) (join_with (10 ∷ []) (p ∷ ps) ++ 10 ∷ rest)
      ≡ some (join_with (10 ∷ []) (p ∷ ps))
unfolding join_with
before_lines p [] rest a o h = before_dashes p rest a.0 h
before_lines p (q ∷ ps) rest a o h =
    let joined = join_with (10 ∷ []) (q ∷ ps) in
    ap (before_first (10 ∷ dashes)) (append_assoc p (10 ∷ joined) (10 ∷ rest))
    ∙ before_more p (joined ++ 10 ∷ rest) joined a.0
        (other_prefix joined (10 ∷ rest) (join_start q ps o.0)) (before_lines q ps rest a.1 o.1 h)

-- A field that stays as it is when it is written and read: one line, with no white space and no quotes
-- around it.
abbrev pub IsPlain : Text → Type 0
IsPlain s = IsLine s × (header_value (32 ∷ s) ≡ s)

key-IsLine : (key value : Text) → elem 10 key ≡ false → IsLine value → IsLine (key ++ value)
key-IsLine key value h v = IsLine-append key value (elem-IsLine key h) v

header-IsLine :
    (p : Proposal) (time : Text)
    → IsLine p.name
    → IsLine p.description
    → IsLine p.type
    → IsLine time
    → All IsLine (header_lines p time)
header-IsLine p time n d t u = (
  key-IsLine (codes "name: ") p.name refl n,
  (
    key-IsLine (codes "description: ") p.description refl d,
    (
      key-IsLine (codes "type: ") p.type refl t,
      (key-IsLine (codes "updated_at: ") time refl u, tt),
    ),
  ),
)

read_lines :
    (p : Proposal) (time : Text)
    → read_header no_proposal (header_lines p time) ≡ record {
      type = header_value (32 ∷ p.type);
      name = header_value (32 ∷ p.name);
      description = header_value (32 ∷ p.description);
      content = [];
    }
unfolding read_header read_line split_colon set_field trim_space
read_lines p time = refl

-- A memory file is read as it was written: where the name, the description and the type are each one
-- line with no white space or quotes around it, and the time is one line, `parseMemory` finds the three
-- of them in the file that `saveMemory` writes, whatever the content is.
pub parse_memory-memory_file :
    (p : Proposal) (time : Text)
    → IsPlain p.name
    → IsPlain p.description
    → IsPlain p.type
    → IsLine time
    → parse_memory (memory_file p time) ≡ record p { content = [] }
unfolding parse_memory memory_file
parse_memory-memory_file p time n d t u =
    let lines = header-IsLine p time n.0 d.0 t.0 u in
    let found =
      before_lines (codes "name: " ++ p.name)
        ((codes "description: " ++ p.description)
          ∷ (codes "type: " ++ p.type)
          ∷ (codes "updated_at: " ++ time)
          ∷ [])
        (codes "---\n\n# " ++ memory_body p) lines (refl, (refl, (refl, tt))) refl in
    rw (found, lines-join _ _ lines, read_lines p time, n.1, d.1, t.1) refl
