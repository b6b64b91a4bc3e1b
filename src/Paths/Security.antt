-- ===== src/Paths/Security.antt =====
-- util/security/path_traversal.go. `none` is the error.
use argocd_monorepo_controll.Base.{
  Text, codes, text_eq, starts_with, ends_with, Bool, true, ◌++◌, Option, none, some, not, [],
  if◌then◌else◌,
}
use argocd_monorepo_controll.Paths.FilePath.{clean, dir, base}

abbrev pub with_slash : Text → Text
with_slash path = if ends_with path (codes "/") then path else path ++ codes "/"

unfoldable pub is_requested_dir_under_current_root : Text → Text → Bool
unfolding text_eq starts_with ends_with
is_requested_dir_under_current_root current_root requested_path =
    if text_eq current_root (codes "/")
    then true
    else if text_eq current_root requested_path
    then true
    else starts_with (with_slash requested_path) (with_slash current_root)

unfoldable pub parse_path : Text → Text × Text
unfolding text_eq dir base
parse_path path =
    let directory = dir path in
    if text_eq directory path then (directory, []) else (directory, base path)

unfoldable pub enforce_to_current_root : Text → Text → Option Text
unfolding clean parse_path is_requested_dir_under_current_root
enforce_to_current_root current_root requested_path =
    let (requested_dir, requested_file) = parse_path requested_path in
    if not (is_requested_dir_under_current_root (clean current_root) requested_dir)
    then none
    else some (requested_dir ++ (codes "/" ++ requested_file))
