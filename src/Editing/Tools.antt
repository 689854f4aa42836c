-- ===== src/Editing/Tools.antt =====
-- `Execute` of internal/infra/tools/file/edit.go and internal/infra/tools/file/write.go.
use codefolio.Common.{
  Text, codes, ◌++◌, true, false, Option, none, some, is_empty, ltb, ◌==◌, if◌then◌else◌,
}
use codefolio.Domain.Permission.{Args, ToolResult, ToolOutcome}
use codefolio.Approval.Paths.{string_arg}
use codefolio.Session.Ids.{itoa}
use codefolio.Editing.Replace.{count, replace_first}
use codefolio.Editing.Disk.{Disk, Stat, stat, ReadFile, read_file, write_file, mkdir_parent}
use codefolio.Editing.Cache.{StateCache, check, update}

-- The disk, and the cache of the tools; `none` is a nil pointer.
pub record Files : Type 0 where
  pub disk : Disk
  pub cache : Option StateCache

abbrev pub failure : Text → ToolResult
failure m = record { output = m; is_error = true; outcome = ToolOutcome.unset }

abbrev pub success : Text → ToolResult
success m = record { output = m; is_error = false; outcome = ToolOutcome.unset }

abbrev pub check_cache : Files → Text → Option Text
check_cache s p = elim s.cache [ none ↦ none | some c ↦ check s.disk c p ]

-- The state behind a write that succeeded.
abbrev pub update_cache : Files → Disk → Text → Text → Files
update_cache s d p content = record {
  disk = d;
  cache = elim s.cache [ none ↦ none | some c ↦ some (update d c p content) ];
}

-- What follows a write of new content: on success it goes to the cache.
unfoldable pub committed : Files → Text → Text → Text → Disk × Option Text → Files × ToolResult
committed s p content done (d, some e) =
    (record s { disk = d }, failure (codes "Error writing file: " ++ e))
committed s p content done (d, none) = (update_cache s d p content, success (done ++ p))

unfoldable pub commit : Files → Text → Text → Text → Files × ToolResult
unfolding committed
commit s p content done = committed s p content done (write_file s.disk p content)

-- The edit behind the read of the file.
unfoldable pub edit_content : Files → Text → Text → Text → Text → Files × ToolResult
unfolding commit count replace_first
edit_content s p old new content =
    let n = count content old in
    if n == 0
    then (s, failure (codes "Error: old_string not found in file"))
    else if ltb 1 n
    then (
      s,
      failure (codes "Error: old_string found " ++ (itoa n ++ codes " times, must be unique")),
    )
    else commit s p (replace_first content old new) (codes "Successfully edited ")

unfoldable pub edit_read : Files → Text → Text → Text → ReadFile → Files × ToolResult
unfolding edit_content
edit_read s p old new ReadFile.missing = (s, failure (codes "Error: file not found: " ++ p))
edit_read s p old new (ReadFile.failed m) = (s, failure (codes "Error reading file: " ++ m))
edit_read s p old new (ReadFile.bytes content) = edit_content s p old new content

-- `Editor.Execute`.
unfoldable pub edit_execute : Files → Args → Files × ToolResult
unfolding edit_read
edit_execute s args =
    let p = string_arg args (codes "file_path") in
    if is_empty p
    then (s, failure (codes "Error: file_path is required"))
    else elim (check_cache s p) [
      | some m ↦ (s, failure m)
      | none ↦
          edit_read s p (string_arg args (codes "old_string"))
            (string_arg args (codes "new_string")) (read_file s.disk p)
    ]

-- Whether a write asks the cache: only where `Stat` has no error.
abbrev pub write_check : Files → Text → Stat → Option Text
write_check s p Stat.missing = none
write_check s p (Stat.failed m) = none
write_check s p (Stat.found e) = check_cache s p

unfoldable pub write_made : Files → Text → Text → Disk × Option Text → Files × ToolResult
unfolding commit
write_made s p content (d, some e) =
    (record s { disk = d }, failure (codes "Error creating directories: " ++ e))
write_made s p content (d, none) =
    commit (record s { disk = d }) p content (codes "Successfully wrote to ")

unfoldable pub write_checked : Files → Text → Text → Files × ToolResult
unfolding write_made
write_checked s p content = write_made s p content (mkdir_parent s.disk p)

-- `Writer.Execute`.
unfoldable pub write_execute : Files → Args → Files × ToolResult
unfolding write_checked
write_execute s args =
    let p = string_arg args (codes "file_path") in
    if is_empty p
    then (s, failure (codes "Error: file_path is required"))
    else elim (write_check s p (stat s.disk p)) [
      | some m ↦ (s, failure m)
      | none ↦ write_checked s p (string_arg args (codes "content"))
    ]
