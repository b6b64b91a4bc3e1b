-- ===== src/Git/Urls.antt =====
-- util/git/git.go: the kinds of repository URLs, and their normal form for comparison.
--
-- `url.Parse` followed by `String` is a parameter, `none` where it fails. Upper case is ASCII.
mod Tests
pub mod Scp
use argocd_monorepo_controll.Base.{
  ℕ, ◌+◌, Text, codes, text_eq, starts_with, trim_prefix, trim_space, Bool, true, false, not, ◌&&◌,
  ◌||◌, List, [], ◌∷◌, ◌++◌, map, any, Option, none, some, ◌==◌, leb, if◌then◌else◌,
}

abbrev pub is_empty : Text → Bool
is_empty s = text_eq s []

-- `strings.TrimSuffix(s, p)`.
unfoldable pub trim_suffix : Text → Text → Text
unfolding text_eq
trim_suffix [] p = []
trim_suffix (c ∷ s) p = if text_eq (c ∷ s) p then [] else c ∷ trim_suffix s p

-- `strings.ToLower`.
abbrev pub lower : ℕ → ℕ
lower c = if leb b'A' c && leb c b'Z' then c + 32 else c

abbrev pub to_lower : Text → Text
to_lower s = map lower s

-- `strings.Replace(s, old, new, 1)` for single bytes.
unfoldable pub replace_first : ℕ → ℕ → Text → Text
replace_first old new [] = []
replace_first old new (c ∷ s) = if c == old then new ∷ s else c ∷ replace_first old new s

unfoldable pub ensure_prefix : Text → Text → Text
unfolding starts_with
ensure_prefix s prefix = if starts_with s prefix then s else prefix ++ s

abbrev pub has : ℕ → Text → Bool
has c s = any (λ d. d == c) s

-- The text before and behind the last occurrence of a byte.
abbrev cons_before : ℕ → Option (Text × Text) → Option (Text × Text) → Option (Text × Text)
cons_before c (some (u, h)) here = some (c ∷ u, h)
cons_before c none here = here

unfoldable pub cut_last : ℕ → Text → Option (Text × Text)
cut_last at [] = none
cut_last at (c ∷ s) = cons_before c (cut_last at s) (if c == at then some ([], s) else none)

-- `([^/:]*?)@[^@]+`: the text before the "@".
abbrev user_of : Option (Text × Text) → Option Text
user_of none = none
user_of (some (u, h)) = if is_empty h || (has b'/' u || has b':' u) then none else some u

abbrev pub ssh_scheme : Text
ssh_scheme = codes "ssh://"

-- With the scheme, the text before the "@" cannot start at the scheme, which has a colon.
unfoldable pub is_ssh_url : Text → Option Text
unfolding cut_last trim_prefix text_eq
is_ssh_url url = user_of (cut_last b'@' (trim_prefix url ssh_scheme))

unfoldable pub is_https_url : Text → Bool
unfolding starts_with
is_https_url url = starts_with url (codes "https://")

unfoldable pub is_http_url : Text → Bool
unfolding starts_with
is_http_url url = starts_with url (codes "http://")

-- The form with a scheme, if it is the URL of an SSH server.
abbrev with_scheme : Option Text → Text → Text
with_scheme none repo = repo
with_scheme (some user) repo =
    if starts_with repo ssh_scheme
    then repo
    else ensure_prefix (replace_first b':' b'/' repo) ssh_scheme

unfoldable pub full_url : Text → Text
unfolding is_ssh_url starts_with ensure_prefix replace_first
full_url repo = with_scheme (is_ssh_url repo) repo

module _ (parse : Text → Option Text) where
  unfoldable pub parsed : Text → Text
  unfolding trim_prefix
  parsed repo = elim (parse repo) [
    | none ↦ []
    | some normalized ↦ trim_prefix normalized ssh_scheme
  ]

  unfoldable pub normalize_git_url : Text → Text
  unfolding full_url trim_suffix trim_space parsed
  normalize_git_url repo =
      parsed (trim_suffix (full_url (to_lower (trim_space repo))) (codes ".git"))

  unfoldable pub normalize_git_url_allow_invalid : Text → Text
  unfolding normalize_git_url text_eq
  normalize_git_url_allow_invalid repo =
      let normalized = normalize_git_url repo in if is_empty normalized then repo else normalized

  unfoldable pub same_url : Text → Text → Bool
  unfolding normalize_git_url_allow_invalid text_eq
  same_url left_repo right_repo =
      let left = normalize_git_url_allow_invalid left_repo in
      let right = normalize_git_url_allow_invalid right_repo in
      not (is_empty left) && (not (is_empty right) && text_eq left right)
