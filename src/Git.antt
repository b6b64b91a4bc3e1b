-- ===== src/Git.antt =====
-- util/git/git.go and util/git/mrp_client.go: the checks on revisions, and the listings of
-- revisions and files with their caches (reposerver/cache/cache.go).
--
-- The git command is outside the source: a function of the repository and its arguments, whose
-- output has no final newline; `none` is a command that fails. The cache is the store behind
-- reposerver/cache, a map that a failed or expired entry is missing from. Metrics hooks are left out.
pub mod Urls
pub mod WorkingCopy
pub mod Keys
pub mod Cached
pub mod LsRemote
pub mod Versions
pub mod RefCache
mod Tests
use argocd_monorepo_controll.Base.{
  ℕ, zero, suc, Text, codes, text_eq, split, Map, lookup, insert, Bool, true, false, not, ◌&&◌,
  ◌||◌, List, [], ◌∷◌, ◌++◌, Option, none, some, length, all, ◌==◌, leb, if◌then◌else◌,
}

-- `[0-9A-Fa-f]`.
unfoldable pub is_hex : ℕ → Bool
is_hex c = leb b'0' c && leb c b'9' || leb b'A' c && leb c b'F' || leb b'a' c && leb c b'f'

-- `^[0-9A-Fa-f]{40}$`.
unfoldable pub is_commit_sha : Text → Bool
unfolding is_hex
is_commit_sha sha = length sha == 40 && all is_hex sha

-- `^[0-9A-Fa-f]{7,}$`.
unfoldable pub is_truncated_commit_sha : Text → Bool
unfolding is_hex
is_truncated_commit_sha sha = leb 7 (length sha) && all is_hex sha

abbrev pub Cache : Type 0
Cache = Map (List Text)

abbrev bar : Text
bar = codes "|"

unfoldable pub list_revisions_key : Text → Text → Text → Text
list_revisions_key repo_url previous_revision target_revision =
    codes "listrevisions|" ++ (repo_url ++ (bar ++ (previous_revision ++ (bar ++ target_revision))))

unfoldable pub diff_tree_key : Text → Text → Text
diff_tree_key repo_url revision = codes "difftree|" ++ (repo_url ++ (bar ++ revision))

unfoldable pub get_list_revisions : Cache → Text → Text → Text → Option (List Text)
unfolding lookup list_revisions_key
get_list_revisions cache repo_url previous_revision target_revision =
    lookup (list_revisions_key repo_url previous_revision target_revision) cache

unfoldable pub set_list_revisions : Cache → Text → Text → Text → List Text → Cache
unfolding insert list_revisions_key
set_list_revisions cache repo_url previous_revision target_revision revisions =
    insert (list_revisions_key repo_url previous_revision target_revision) revisions cache

unfoldable pub get_diff_tree : Cache → Text → Text → Option (List Text)
unfolding lookup diff_tree_key
get_diff_tree cache repo_url revision = lookup (diff_tree_key repo_url revision) cache

unfoldable pub set_diff_tree : Cache → Text → Text → List Text → Cache
unfolding insert diff_tree_key
set_diff_tree cache repo_url revision files = insert (diff_tree_key repo_url revision) files cache

-- nativeGitClient: the fields that these methods read. The Boolean fields say whether the client
-- uses a cache; `WithListRevisionsCache` and `WithDiffTreeCache` set them with the cache itself.
pub record NativeGitClient : Type 0 where
  pub repo_url : Text
  pub use_list_revisions_cache : Bool
  pub use_diff_tree_cache : Bool

unfoldable pub with_list_revisions_cache : NativeGitClient → NativeGitClient
with_list_revisions_cache c = record c { use_list_revisions_cache = true }

unfoldable pub with_diff_tree_cache : NativeGitClient → NativeGitClient
with_diff_tree_cache c = record c { use_diff_tree_cache = true }

pub data Listing : Type 0 where
  listed : List Text → Listing
  invalid_revision : Listing
  command_failed : Listing

-- The command's lines.
unfoldable pub lines : Text → List Text
unfolding split
lines [] = []
lines (c ∷ out) = split 10 (c ∷ out)

module _ (run_cmd : Text → List Text → Option Text) where
  -- The command, and the result with the cache as it is left.
  unfoldable pub rev_list : NativeGitClient → Text → Text → Option Text
  rev_list m revision target_revision = run_cmd m.repo_url (
      codes "rev-list"
      ∷ codes "--ancestry-path"
      ∷ (revision ++ (codes ".." ++ target_revision))
      ∷ [])

  pub keep_revisions : NativeGitClient → Text → Text → Option Text → Cache → Listing × Cache
  unfolding lines
  keep_revisions m revision target_revision none cache = (command_failed, cache)
  keep_revisions m revision target_revision (some out) cache = elim (lines out) [
    | [] ↦ (listed [], cache)
    | r ∷ rs ↦ (
      listed (r ∷ rs),
      if m.use_list_revisions_cache
          then set_list_revisions cache m.repo_url revision target_revision (r ∷ rs)
          else cache,
    )
  ]

  pub find_revisions : NativeGitClient → Text → Text → Option (List Text) → Cache → Listing × Cache
  unfolding keep_revisions rev_list
  find_revisions m revision target_revision (some revisions) cache = (listed revisions, cache)
  find_revisions m revision target_revision none cache =
      keep_revisions m revision target_revision (rev_list m revision target_revision) cache

  unfoldable pub list_revisions : NativeGitClient → Text → Text → Cache → Listing × Cache
  unfolding find_revisions text_eq is_commit_sha get_list_revisions
  list_revisions m revision target_revision cache =
      if text_eq revision []
      then (listed (target_revision ∷ []), cache)
      else if not (is_commit_sha revision) || not (is_commit_sha target_revision)
      then (invalid_revision, cache)
      else if text_eq revision target_revision
      then (listed (revision ∷ []), cache)
      else find_revisions m revision target_revision
          (if m.use_list_revisions_cache
            then get_list_revisions cache m.repo_url revision target_revision
            else none)
          cache

  unfoldable pub diff_tree_cmd : NativeGitClient → Text → Option Text
  diff_tree_cmd m target_revision = run_cmd m.repo_url (
      codes "diff-tree"
      ∷ codes "--no-commit-id"
      ∷ codes "--name-only"
      ∷ codes "-r"
      ∷ target_revision
      ∷ [])

  pub keep_files : NativeGitClient → Text → Option Text → Cache → Listing × Cache
  unfolding lines
  keep_files m target_revision none cache = (command_failed, cache)
  keep_files m target_revision (some out) cache = elim (lines out) [
    | [] ↦ (listed [], cache)
    | f ∷ fs ↦ (
      listed (f ∷ fs),
      if m.use_diff_tree_cache
          then set_diff_tree cache m.repo_url target_revision (f ∷ fs)
          else cache,
    )
  ]

  pub find_files : NativeGitClient → Text → Option (List Text) → Cache → Listing × Cache
  unfolding keep_files diff_tree_cmd
  find_files m target_revision (some files) cache = (listed files, cache)
  find_files m target_revision none cache =
      keep_files m target_revision (diff_tree_cmd m target_revision) cache

  unfoldable pub diff_tree : NativeGitClient → Text → Cache → Listing × Cache
  unfolding find_files is_commit_sha get_diff_tree
  diff_tree m target_revision cache =
      if not (is_commit_sha target_revision)
      then (invalid_revision, cache)
      else find_files m target_revision
          (if m.use_diff_tree_cache then get_diff_tree cache m.repo_url target_revision else none)
          cache
