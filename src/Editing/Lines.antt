-- ===== src/Editing/Lines.antt =====
-- What `Reader.Execute` of internal/infra/tools/file/read.go shows of a file, and where it panics.
use codefolio.Common.{
  ℕ, zero, suc, ◌+◌, ◌-◌, ◌^◌, ◌≤◌, ◌<◌, Text, codes, List, [], ◌∷◌, ◌++◌, true, false, is_empty,
  min, length, take, map, join_with, ◌==◌, if◌then◌else◌, ℤ, pos, negsuc, ◌≡◌, refl, ap, sym, ◌∙◌,
  ◌↔◌, arith, All,
}
use mathlib.Core.Path.{ap₂, subst}
use codefolio.Common.{
  lines_of, IsLine, IsLine-append, lines_of-IsLine, lines_of-append, lines_of_line, lines_cons,
  join-lines_of,
}
use codefolio.Domain.Permission.{Args}
use codefolio.Approval.Paths.{string_arg}
use codefolio.Session.Ids.{itoa, all_digits, itoa_lem}
use codefolio.Editing.Disk.{Entry, Stat, stat, ReadFile, read_file}
use codefolio.Editing.Tools.{Files, success}
use codefolio.Editing.Reader.{
  Number, int_arg, Selection, select_lines, int_add, int_min, int_leb, slice, numbered_line,
  render_lines, panicked, read_result, finish_read, read_content, read_stat, read_execute,
  record_cache,
}

-- The arguments of a read of a file that can be read.
pub record Readable (s : Files) (args : Args) (content : Text) : Type 0 where
  pub entry : Entry
  pub named : is_empty (string_arg args (codes "file_path")) ≡ false
  pub found : stat s.disk (string_arg args (codes "file_path")) ≡ Stat.found entry
  pub a_file : entry.is_dir ≡ false
  pub bytes : read_file s.disk (string_arg args (codes "file_path")) ≡ ReadFile.bytes content

pub read_execute-Readable :
    (s : Files) (args : Args) (numbers : Text → Number) (content : Text)
    (r : Readable s args content)
    → read_execute s args numbers
      ≡ finish_read s (string_arg args (codes "file_path")) content r.entry.mtime (
          select_lines
            (int_arg numbers (codes "offset") (pos 0))
            (int_arg numbers (codes "limit") (pos 2000))
            (lines_of content))
unfolding read_execute read_stat read_content
read_execute-Readable s args numbers content r =
    rw (r.named, r.found) (rw (r.a_file) (rw (r.bytes) refl))

-- The values of an `int`.
abbrev pub IsInt : ℤ → Type 0
IsInt (pos n) = n < 2 ^ 63
IsInt (negsuc n) = n < 2 ^ 63

-- A read of so many lines, from an offset and up to a limit, that has no lines to give.
abbrev pub OutOfRange : ℤ → ℤ → ℕ → Type 0
OutOfRange (negsuc o) limit n = Unit {0}
OutOfRange (pos o) (pos l) n = (o < n) × (2 ^ 63 ≤ o + l)
OutOfRange (pos o) (negsuc l) n = o < n

select_lines_panics :
    (offset limit : ℤ) (lines : List Text)
    → IsInt offset
    → IsInt limit
    → (select_lines offset limit lines ≡ Selection.panics) ↔ OutOfRange offset limit (length lines)
unfolding select_lines int_add int_min int_leb slice
select_lines_panics (negsuc o) limit lines io il = (λ h. tt, λ h. refl)
select_lines_panics (pos o) (pos l) lines io il = (λ h. ground arith, λ h. ground arith)
select_lines_panics (pos o) (negsuc l) lines io il = (λ h. ground arith, λ h. ground arith)

finish_read_panics :
    (s : Files) (p content : Text) (mtime : ℕ) (sel : Selection)
    → (finish_read s p content mtime sel ≡ panicked) ↔ (sel ≡ Selection.panics)
unfolding finish_read
finish_read_panics s p content mtime Selection.panics = (λ h. refl, λ h. refl)
finish_read_panics s p content mtime Selection.past_end = (λ h. cc, λ h. cc)
finish_read_panics s p content mtime (Selection.selected o lines) = (λ h. cc, λ h. cc)

-- A read of a file that can be read, with an offset and a limit of 64 bits, panics exactly where its offset is negative, or where the offset
-- lies within the lines of the file and the limit is negative or so large that their sum wraps around.
pub read_execute_panics :
    (s : Files) (args : Args) (numbers : Text → Number) (content : Text)
    → Readable s args content
    → IsInt (int_arg numbers (codes "offset") (pos 0))
    → IsInt (int_arg numbers (codes "limit") (pos 2000))
    → (read_execute s args numbers ≡ panicked)
      ↔ OutOfRange
          (int_arg numbers (codes "offset") (pos 0))
          (int_arg numbers (codes "limit") (pos 2000))
          (length (lines_of content))
read_execute_panics s args numbers content r io il =
    let offset = int_arg numbers (codes "offset") (pos 0) in
    let limit = int_arg numbers (codes "limit") (pos 2000) in
    let sel = select_lines offset limit (lines_of content) in
    let finish =
      finish_read_panics s (string_arg args (codes "file_path")) content r.entry.mtime sel in
    let select = select_lines_panics offset limit (lines_of content) io il in
    let step = read_execute-Readable s args numbers content r in
    (λ h. select.0 (finish.0 (sym step ∙ h)), λ h. step ∙ finish.1 (select.1 h))

-- The text behind the first tab, as in a numbered line.
abbrev pub behind_tab : Text → Text
behind_tab [] = []
behind_tab (c ∷ s) = let rest = behind_tab s in if c == 9 then s else rest

digits-IsLine : (s : Text) → all_digits s ≡ true → IsLine s
unfolding all_digits
digits-IsLine [] h = tt
digits-IsLine (c ∷ s) h = (ground arith, digits-IsLine s (ground arith))

numbered_line-IsLine : (n : ℕ) (line : Text) → IsLine line → IsLine (numbered_line n line)
unfolding numbered_line
numbered_line-IsLine n line h =
    IsLine-append (itoa n) (9 ∷ line) (digits-IsLine (itoa n) (itoa_lem n).0) (refl, h)

behind_digits : (s line : Text) → all_digits s ≡ true → behind_tab (s ++ 9 ∷ line) ≡ line
unfolding all_digits
behind_digits [] line h = refl
behind_digits (c ∷ s) line h = ground (arith, behind_digits s line)

behind_tab-numbered_line : (n : ℕ) (line : Text) → behind_tab (numbered_line n line) ≡ line
unfolding numbered_line
behind_tab-numbered_line n line = behind_digits (itoa n) line (itoa_lem n).0

-- The lines of a rendering are the lines that it numbers.
lines-render :
    (n : ℕ) (line : Text) (lines : List Text)
    → All IsLine (line ∷ lines)
    → map behind_tab (lines_of (render_lines n (line ∷ lines))) ≡ line ∷ lines
unfolding render_lines
lines-render n line [] a =
    ap (map behind_tab) (lines_of_line (numbered_line n line) (numbered_line-IsLine n line a.0))
    ∙ ap (λ l. l ∷ []) (behind_tab-numbered_line n line)
lines-render n line (next ∷ lines) a =
    ap (map behind_tab) (
      lines_of-append (numbered_line n line) (render_lines (n + 1) (next ∷ lines))
        (numbered_line-IsLine n line a.0))
    ∙ ap₂ ◌∷◌ (behind_tab-numbered_line n line) (lines-render (n + 1) next lines a.1)

take_all : (n : ℕ) (xs : List Text) → length xs ≤ n → take n xs ≡ xs
take_all zero [] h = refl
take_all zero (x ∷ xs) h = absurd (omega arith)
take_all (suc n) [] h = refl
take_all (suc n) (x ∷ xs) h = ap (◌∷◌ x) (take_all n xs (omega arith))

-- A limit that reaches the end of the file selects all lines.
select_all :
    (l : ℕ) (p : Text) (ps : List Text)
    → length (p ∷ ps) ≤ l
    → l < 2 ^ 63
    → select_lines (pos 0) (pos l) (p ∷ ps) ≡ Selection.selected 0 (p ∷ ps)
unfolding select_lines int_add int_min int_leb slice
select_all l p ps h lt =
    let enough : length (p ∷ ps) ≤ min (0 + l) (length (p ∷ ps)) - 0 = omega arith in
    ground (arith, take_all (min (0 + l) (length (p ∷ ps)) - 0) (p ∷ ps) enough)

-- A read from the first line on, of a file with at most as many lines as the limit, shows the whole
-- file: the lines of its output, each without its number and tab, joined by newlines, are the content.
pub read_execute_whole :
    (s : Files) (args : Args) (numbers : Text → Number) (content : Text) (l : ℕ)
    → Readable s args content
    → int_arg numbers (codes "offset") (pos 0) ≡ pos 0
    → int_arg numbers (codes "limit") (pos 2000) ≡ pos l
    → length (lines_of content) ≤ l
    → l < 2 ^ 63
    → (s' : Files) × (out : Text) × (read_execute s args numbers ≡ read_result s' (success out))
      × (join_with (10 ∷ []) (map behind_tab (lines_of out)) ≡ content)
unfolding finish_read
read_execute_whole s args numbers content l r at_start up_to enough lt =
    let (p, ps, h) = lines_cons content in
    let lines : All IsLine (p ∷ ps) = subst (All IsLine) h (lines_of-IsLine content) in
    let enough' : length (p ∷ ps) ≤ l = subst (λ (xs : List Text). length xs ≤ l) h enough in
    let path = string_arg args (codes "file_path") in
    let all : select_lines (int_arg numbers (codes "offset") (pos 0))
          (int_arg numbers (codes "limit") (pos 2000)) (lines_of content)
        ≡ Selection.selected 0 (p ∷ ps) =
      rw (at_start, up_to, h) (select_all l p ps enough' lt) in
    (
      record_cache s path content r.entry.mtime,
      render_lines 1 (p ∷ ps),
      read_execute-Readable s args numbers content r
          ∙ ap (finish_read s path content r.entry.mtime) all,
      ap (join_with (10 ∷ [])) (lines-render 1 p ps lines ∙ sym h) ∙ join-lines_of content,
    )
