-- ===== src/Git/Cached.antt =====
-- ListRevisions and DiffTree of util/git/mrp_client.go over a cache that holds what git gives.
pub mod Sound
use argocd_monorepo_controll.Base.{
  ◌≡◌, refl, sym, ap, ◌∙◌, ◌⊎◌, inl, inr, Text, text_eq, text_eq_iff, lookup, lookup-insert, Bool,
  true, false, not, ◌||◌, List, [], ◌∷◌, Option, none, some, Bool-cases, if◌then◌else◌,
}
use argocd_monorepo_controll.Git.{
  is_commit_sha, Cache, list_revisions_key, diff_tree_key, get_list_revisions, set_list_revisions,
  get_diff_tree, set_diff_tree, NativeGitClient, Listing, listed, invalid_revision, command_failed,
  lines, rev_list, keep_revisions, find_revisions, list_revisions, diff_tree_cmd, keep_files,
  find_files, diff_tree,
}
use argocd_monorepo_controll.Git.Keys.{
  diff_tree_key_inj, list_revisions_key_inj, list_revisions_key-ne-diff_tree_key,
}
pub use argocd_monorepo_controll.Git.Cached.Sound.{
  listing, IsSound, revisions_between, files_of, empty-IsSound,
}
use argocd_monorepo_controll.Git.Cached.Sound.{set_list_revisions-IsSound, set_diff_tree-IsSound}

module _ (run_cmd : Text → List Text → Option Text) where
  -- A listing with the cache that it leaves.
  abbrev pub Agrees : Listing → Listing × Cache → Type 0
  Agrees l (r, cache) = (r ≡ l) × IsSound run_cmd cache

  keep_revisions-Agrees :
      (m : NativeGitClient) (a b : Text) (o : Option Text) (cache : Cache)
      → is_commit_sha a ≡ true
      → is_commit_sha b ≡ true
      → rev_list run_cmd m a b ≡ o
      → IsSound run_cmd cache
      → Agrees (listing o) (keep_revisions run_cmd m a b o cache)
  unfolding keep_revisions
  keep_revisions-Agrees m a b none cache ha hb e s = (refl, s)
  keep_revisions-Agrees m a b (some out) cache ha hb e s = kept (lines out) refl
    where
      kept :
          (rs : List Text)
          → lines out ≡ rs
          → Agrees (listing (some out)) (keep_revisions run_cmd m a b (some out) cache)
      kept [] f = rw (f, keep_revisions) (refl, s)
      kept (r ∷ rs) f =
          rw (f, keep_revisions)
            (
              refl,
              elim (Bool-cases m.use_list_revisions_cache) [
                | inl on ↦ rw on (
                    set_list_revisions-IsSound run_cmd m a b (r ∷ rs) cache ha hb
                      (ap listing e ∙ ap listed f) s)
                | inr off ↦ rw off s
              ],
            )

  find_revisions-Agrees :
      (m : NativeGitClient) (a b : Text) (o : Option (List Text)) (cache : Cache)
      → is_commit_sha a ≡ true
      → is_commit_sha b ≡ true
      → (o ≡ none) ⊎ (o ≡ lookup (list_revisions_key m.repo_url a b) cache)
      → IsSound run_cmd cache
      → Agrees (listing (rev_list run_cmd m a b)) (find_revisions run_cmd m a b o cache)
  unfolding find_revisions
  find_revisions-Agrees m a b none cache ha hb hit s =
      keep_revisions-Agrees m a b (rev_list run_cmd m a b) cache ha hb refl s
  find_revisions-Agrees m a b (some rs) cache ha hb (inl miss) s = cc
  find_revisions-Agrees m a b (some rs) cache ha hb (inr hit) s =
      (sym (s.revisions m a b rs ha hb (sym hit)), s)

  pub list_revisions-Agrees :
      (m : NativeGitClient) (a b : Text) (cache : Cache)
      → IsSound run_cmd cache
      → Agrees (revisions_between run_cmd m a b) (list_revisions run_cmd m a b cache)
  unfolding list_revisions get_list_revisions
  list_revisions-Agrees m a b cache s = elim (Bool-cases (text_eq a [])) [
    | inl none_before ↦ rw none_before (refl, s)
    | inr before ↦ elim (Bool-cases (is_commit_sha a)) [
      | inr bad_a ↦ rw (before, bad_a) (refl, s)
      | inl ha ↦ elim (Bool-cases (is_commit_sha b)) [
        | inr bad_b ↦ rw (before, ha, bad_b) (refl, s)
        | inl hb ↦ elim (Bool-cases (text_eq a b)) [
          | inl same ↦ rw (before, ha, hb, same) (refl, s)
          | inr ne ↦
              rw (before, ha, hb, ne)
                (find_revisions-Agrees m a b _ cache ha hb
                  (on_or_off m.use_list_revisions_cache
                    (lookup (list_revisions_key m.repo_url a b) cache))
                  s)
        ]
      ]
    ]
  ]
    where
      on_or_off :
          (on : Bool) (o : Option (List Text))
          → ((if on then o else none) ≡ none) ⊎ ((if on then o else none) ≡ o)
      on_or_off true o = inr refl
      on_or_off false o = inl refl

  keep_files-Agrees :
      (m : NativeGitClient) (a : Text) (o : Option Text) (cache : Cache)
      → is_commit_sha a ≡ true
      → diff_tree_cmd run_cmd m a ≡ o
      → IsSound run_cmd cache
      → Agrees (listing o) (keep_files run_cmd m a o cache)
  unfolding keep_files
  keep_files-Agrees m a none cache ha e s = (refl, s)
  keep_files-Agrees m a (some out) cache ha e s = kept (lines out) refl
    where
      kept :
          (fs : List Text)
          → lines out ≡ fs
          → Agrees (listing (some out)) (keep_files run_cmd m a (some out) cache)
      kept [] f = rw (f, keep_files) (refl, s)
      kept (g ∷ fs) f =
          rw (f, keep_files)
            (
              refl,
              elim (Bool-cases m.use_diff_tree_cache) [
                | inl on ↦ rw on (
                    set_diff_tree-IsSound run_cmd m a (g ∷ fs) cache ha (ap listing e ∙ ap listed f)
                      s)
                | inr off ↦ rw off s
              ],
            )

  find_files-Agrees :
      (m : NativeGitClient) (a : Text) (on : Bool) (o : Option (List Text)) (cache : Cache)
      → is_commit_sha a ≡ true
      → o ≡ lookup (diff_tree_key m.repo_url a) cache
      → IsSound run_cmd cache
      → Agrees
          (listing (diff_tree_cmd run_cmd m a))
          (find_files run_cmd m a (if on then o else none) cache)
  unfolding find_files
  find_files-Agrees m a false o cache ha hit s =
      keep_files-Agrees m a (diff_tree_cmd run_cmd m a) cache ha refl s
  find_files-Agrees m a true none cache ha hit s =
      keep_files-Agrees m a (diff_tree_cmd run_cmd m a) cache ha refl s
  find_files-Agrees m a true (some fs) cache ha hit s = (sym (s.files m a fs ha (sym hit)), s)

  pub diff_tree-Agrees :
      (m : NativeGitClient) (a : Text) (cache : Cache)
      → IsSound run_cmd cache
      → Agrees (files_of run_cmd m a) (diff_tree run_cmd m a cache)
  unfolding diff_tree get_diff_tree
  diff_tree-Agrees m a cache s = elim (Bool-cases (is_commit_sha a)) [
    | inl ha ↦ rw ha (
        find_files-Agrees m a m.use_diff_tree_cache (lookup (diff_tree_key m.repo_url a) cache)
          cache ha refl s)
    | inr bad ↦ rw bad (refl, s)
  ]

-- With a sound cache ListRevisions returns what it would return without one, on every branch, and
-- leaves a sound cache.
pub list_revisions_cached :
    (run_cmd : Text → List Text → Option Text) (m : NativeGitClient) (a b : Text) (cache : Cache)
    → IsSound run_cmd cache
    → ((list_revisions run_cmd m a b cache).0 ≡ revisions_between run_cmd m a b)
      × IsSound run_cmd (list_revisions run_cmd m a b cache).1
list_revisions_cached run_cmd m a b cache s = list_revisions-Agrees run_cmd m a b cache s

-- With a sound cache DiffTree returns the files that it would return without one, on every branch,
-- and leaves a sound cache.
pub diff_tree_cached :
    (run_cmd : Text → List Text → Option Text) (m : NativeGitClient) (a : Text) (cache : Cache)
    → IsSound run_cmd cache
    → ((diff_tree run_cmd m a cache).0 ≡ files_of run_cmd m a)
      × IsSound run_cmd (diff_tree run_cmd m a cache).1
diff_tree_cached run_cmd m a cache s = diff_tree-Agrees run_cmd m a cache s
