-- ===== src/Approval/Workspace.antt =====
-- The containment test of internal/infra/approval/approval.go decides on the elements of the paths.
use codefolio.Common.{
  Text, codes, true, false, not, ◌≡◌, refl, Option, some, is_empty, ◌∷◌, [], ap, ◌∙◌,
}
use codefolio.Domain.Permission.{ToolInvocation}
use codefolio.Filepath.{
  is_abs, clean, abs_path, starts, parts_of, leaves_lem, abs_path_rooted, clean_rooted,
}
use codefolio.Approval.Paths.{string_arg, invocation_path, outside_path, is_outside_workspace}

-- An absolute path that is cleaned and made absolute is rooted, with the same elements.
settled_path :
    (cwd : Option Text) (p : Text)
    → is_abs p ≡ true
    → (q : Text) × (abs_path cwd (clean p) ≡ some q) × (is_abs q ≡ true) × (parts_of q ≡ parts_of p)
settled_path cwd p h =
    let (rooted, same) = clean_rooted p h in
    let (q, e, abs, parts) = abs_path_rooted cwd (clean p) rooted in (q, e, abs, parts ∙ same)

is_empty_of_is_abs : (p : Text) → is_abs p ≡ true → is_empty p ≡ false
is_empty_of_is_abs [] h = cc
is_empty_of_is_abs (c ∷ s) h = refl

invocation_path_of_abs :
    (cwd : Option Text) (inv : ToolInvocation)
    → is_abs (string_arg inv.args (codes "file_path")) ≡ true
    → (q : Text) × (invocation_path cwd inv ≡ q)
      × (is_abs q ≡ true)
      × (parts_of q ≡ parts_of (string_arg inv.args (codes "file_path")))
unfolding invocation_path
invocation_path_of_abs cwd inv h =
    let p = string_arg inv.args (codes "file_path") in
    let (q, e, abs, parts) = settled_path cwd p h in
    (q, rw (is_empty_of_is_abs p h) (rw (is_empty_of_is_abs p h) (rw (h) (rw e))), abs, parts)

outside_path_of_abs :
    (cwd : Option Text) (dir path : Text)
    → is_abs dir ≡ true
    → is_abs path ≡ true
    → outside_path cwd dir path ≡ not (starts (parts_of dir) (parts_of path))
unfolding outside_path
outside_path_of_abs cwd dir path hd hp =
    let (q, e, abs, parts) = settled_path cwd dir hd in
    let (r, er, l) = leaves_lem q path abs hp in
    rw (e, outside_path) (rw (er) (l ∙ ap (λ ps. not (starts ps (parts_of path))) parts))

-- With an absolute `file_path` argument and an absolute working directory an invocation is outside the
-- workspace exactly where the elements of the cleaned working directory are no prefix of those of the
-- cleaned path.
pub is_outside_workspace_iff :
    (cwd : Option Text) (inv : ToolInvocation)
    → is_abs (string_arg inv.args (codes "file_path")) ≡ true
    → is_abs inv.work_dir ≡ true
    → is_outside_workspace cwd inv
      ≡ not (starts (parts_of inv.work_dir) (parts_of (string_arg inv.args (codes "file_path"))))
unfolding is_outside_workspace
is_outside_workspace_iff cwd inv hp hd =
    let (q, e, abs, parts) = invocation_path_of_abs cwd inv hp in
    rw e (
      rw (is_empty_of_is_abs q abs) (
        outside_path_of_abs cwd inv.work_dir q hd abs
        ∙ ap (λ ps. not (starts (parts_of inv.work_dir) ps)) parts))
