-- ===== src/Paths/FilePath.antt =====
-- The functions of path/filepath that the program calls, on Unix. A path is cut at its slashes,
-- and `Clean` works on the parts.
use mathlib.Core.List.{reverse}
use argocd_monorepo_controll.Base.{
  ℕ, Text, codes, text_eq, starts_with, split, Bool, true, false, ◌||◌, List, [], ◌∷◌, ◌++◌, ◌==◌,
  if◌then◌else◌,
}

abbrev pub slash : ℕ
slash = b'/'

abbrev pub dot : Text
dot = codes "."

abbrev pub dot_dot : Text
dot_dot = codes ".."

unfoldable pub is_abs : Text → Bool
unfolding starts_with
is_abs path = starts_with path (codes "/")

-- `strings.Join(parts, "/")`.
unfoldable pub join_slash : List Text → Text
join_slash [] = []
join_slash (part ∷ []) = part
join_slash (part ∷ (next ∷ parts)) = part ++ (slash ∷ join_slash (next ∷ parts))

-- A ".." takes back the part before it, if there is one; at the root it is dropped, and at the
-- start of a relative path it stays. The stack has its top at the head.
go_up : Bool → List Text → List Text
go_up true [] = []
go_up false [] = dot_dot ∷ []
go_up rooted (top ∷ stack) = if text_eq top dot_dot then dot_dot ∷ top ∷ stack else stack

unfoldable pub resolve : Bool → List Text → Text → List Text
unfolding text_eq go_up
resolve rooted stack part =
    if text_eq part [] || text_eq part dot
    then stack
    else if text_eq part dot_dot
    then go_up rooted stack
    else part ∷ stack

unfoldable pub clean_parts : Bool → List Text → List Text → List Text
unfolding resolve
clean_parts rooted stack [] = reverse stack
clean_parts rooted stack (part ∷ parts) = clean_parts rooted (resolve rooted stack part) parts

or_dot : Text → Text
or_dot [] = dot
or_dot (c ∷ s) = c ∷ s

unfoldable pub render : Bool → List Text → Text
unfolding join_slash or_dot
render rooted parts = if rooted then slash ∷ join_slash parts else or_dot (join_slash parts)

unfoldable pub clean : Text → Text
unfolding is_abs render clean_parts split
clean path = render (is_abs path) (clean_parts (is_abs path) [] (split slash path))

-- `Join` of two elements.
unfoldable pub join : Text → Text → Text
unfolding clean
join [] [] = []
join [] (c ∷ s) = clean (c ∷ s)
join (c ∷ s) elem = clean ((c ∷ s) ++ (slash ∷ elem))

unfoldable pub has_slash : Text → Bool
has_slash [] = false
has_slash (c ∷ s) = c == slash || has_slash s

-- The path up to its last slash, that included, and what stands behind it.
unfoldable pub dir_prefix : Text → Text
unfolding has_slash
dir_prefix [] = []
dir_prefix (c ∷ s) = if has_slash (c ∷ s) then c ∷ dir_prefix s else []

after_slash : Text → Text
unfolding has_slash
after_slash [] = []
after_slash (c ∷ s) = if has_slash (c ∷ s) then after_slash s else c ∷ s

unfoldable pub dir : Text → Text
unfolding dir_prefix clean
dir path = clean (dir_prefix path)

strip_slashes : Text → Text
strip_slashes [] = []
strip_slashes (c ∷ s) = elim (strip_slashes s) [
  | [] ↦ if c == slash then [] else c ∷ []
  | d ∷ r ↦ c ∷ d ∷ r
]

or_root : Text → Text
or_root [] = codes "/"
or_root (c ∷ s) = c ∷ s

unfoldable pub base : Text → Text
unfolding after_slash strip_slashes or_root
base [] = dot
base (c ∷ s) = or_root (after_slash (strip_slashes (c ∷ s)))
