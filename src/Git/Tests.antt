-- ===== src/Git/Tests.antt =====
-- The caches on a small repository, whose URL holds the separator.
use argocd_monorepo_controll.Base.{
  ℕ, zero, suc, ◌<◌, text_eq, lookup, insert, ◌≡◌, ◌≢◌, ◌↔◌, refl, Text, codes, true, false, List,
  [], ◌∷◌, ◌++◌, Option, none, some, replicate, ltb, arith,
}
use argocd_monorepo_controll.Git.{
  is_commit_sha, list_revisions, diff_tree, NativeGitClient, list_revisions_key, diff_tree_key,
}
use argocd_monorepo_controll.Git.Keys.{list_revisions_key-separates}
use argocd_monorepo_controll.Git.Versions.{Semver, Parsed, version, invalid_sem_ver, max_version}
use argocd_monorepo_controll.Git.Versions.Greatest.{IsGreatest, IsOrdered, max_version-IsGreatest}
use argocd_monorepo_controll.Git.LsRemote.{
  Reference, ReferenceNames, hash_reference, symbolic_reference, resolve_in, ls_remote_once,
  ls_remote,
}
use argocd_monorepo_controll.Git.LsRemote.Resolves.{
  resolution, wanted, first_hash, last_target, resolve_in-resolution,
}
use argocd_monorepo_controll.Git.LsRemote.Attempts.{ls_remote_first}
use argocd_monorepo_controll.Git.RefCache.{
  Store, CacheItem, set_lock, set_git_references, unlock_git_references, try_lock_git_ref_cache,
}
use argocd_monorepo_controll.Git.RefCache.Owned.{Cached}
use argocd_monorepo_controll.Git.RefCache
use argocd_monorepo_controll.Git.Cached.{
  IsSound, revisions_between, files_of, empty-IsSound, list_revisions_cached, diff_tree_cached,
}

abbrev sha_a : Text
sha_a = replicate 40 b'a'

abbrev sha_b : Text
sha_b = replicate 40 b'b'

abbrev run_cmd : Text → List Text → Option Text
run_cmd repo_url [] = none
run_cmd repo_url (c ∷ args) = some (sha_b ++ (10 ∷ sha_a))

abbrev client : NativeGitClient
client = record {
  repo_url = codes "https://git/a|b";
  use_list_revisions_cache = true;
  use_diff_tree_cache = true;
}

list_revisions_cached_example :
    ((list_revisions run_cmd client sha_a sha_b []).0
      ≡ revisions_between run_cmd client sha_a sha_b)
    × IsSound run_cmd (list_revisions run_cmd client sha_a sha_b []).1
list_revisions_cached_example =
    list_revisions_cached run_cmd client sha_a sha_b [] (empty-IsSound run_cmd)

diff_tree_cached_example :
    ((diff_tree run_cmd client sha_b []).0 ≡ files_of run_cmd client sha_b)
    × IsSound run_cmd (diff_tree run_cmd client sha_b []).1
diff_tree_cached_example = diff_tree_cached run_cmd client sha_b [] (empty-IsSound run_cmd)

list_revisions_key-separates_example :
    ((list_revisions_key client.repo_url sha_a sha_b
        ≡ list_revisions_key client.repo_url sha_b sha_b)
      ↔ ((client.repo_url ≡ client.repo_url) × (sha_a ≡ sha_b) × (sha_b ≡ sha_b)))
    × (list_revisions_key client.repo_url sha_a sha_b ≢ diff_tree_key client.repo_url sha_b)
unfolding is_commit_sha
list_revisions_key-separates_example =
    list_revisions_key-separates client.repo_url client.repo_url sha_a sha_b sha_b sha_b refl refl
      refl refl

-- Versions are single digits behind a `v`.
abbrev digit_version : Text → Parsed ℕ
digit_version (v ∷ d ∷ []) = version d
digit_version _ = invalid_sem_ver

abbrev digits : Semver
digits = record {
  Version = ℕ;
  Constraints = Unit {0};
  new_version = digit_version;
  new_constraint = λ revision. some tt;
  original = λ d. b'v' ∷ d ∷ [];
  check = λ c d. true;
  greater_than = λ d e. ltb e d;
}

digits-IsOrdered : IsOrdered digits
digits-IsOrdered = record {
  not_self = λ v. ground arith;
  not_both = λ v w h. ground arith;
  trans = λ u v w g h. ground arith;
}

abbrev tags : List Text
tags = codes "v1" ∷ codes "v3" ∷ codes "main" ∷ codes "v2" ∷ []

max_version-IsGreatest_example : IsGreatest digits digits-IsOrdered tt tags (codes "v3")
unfolding max_version
max_version-IsGreatest_example =
    max_version-IsGreatest digits digits-IsOrdered tt (codes "*") tags (codes "v3") refl refl refl

-- A remote with a branch and HEAD, whose first listing fails.
abbrev names : ReferenceNames
names = record { short = λ name. name; is_tag = λ name. false }

abbrev refs : List Reference
refs =
    (record { name = codes "HEAD"; type = symbolic_reference (codes "main") })
    ∷ (record { name = codes "main"; type = hash_reference sha_a })
    ∷ []

abbrev no_version : Text → List Text → Option Text
no_version revision _ = none

resolve_in-resolution_example :
    resolve_in names no_version [] refs
    ≡ resolution
        (wanted names no_version [] refs)
        (first_hash names (wanted names no_version [] refs) refs)
        (last_target names (wanted names no_version [] refs) refs [])
        refs
resolve_in-resolution_example = resolve_in-resolution names no_version [] refs

abbrev listings : ℕ → Option (List Reference)
listings zero = none
listings (suc i) = some refs

first_fails : (j : ℕ) → j < 1 → ls_remote_once names no_version [] (listings j) ≡ none
unfolding ls_remote_once
first_fails zero h = refl
first_fails (suc j) h = absurd (omega (arith, h))

ls_remote_first_example : ls_remote names no_version 3 listings [] ≡ some sha_a
unfolding ls_remote_once resolve_in text_eq lookup insert
ls_remote_first_example =
    ls_remote_first names no_version [] listings 3 1 sha_a (omega arith) first_fails refl

-- Another client puts the references into the cache while this one sleeps.
abbrev empty_store : Store
empty_store = record { items = []; fails = false }

abbrev cached_refs : CacheItem
cached_refs = (codes "main", sha_a) ∷ []

abbrev cache : RefCache.RevisionCache
cache = record { revision_cache_expiration = 180; revision_cache_lock_timeout = 10 }

abbrev locked_by_other : Store
locked_by_other = set_lock cache (codes "r") (codes "other") empty_store

abbrev other_finishes : ℕ → Store → Store
other_finishes n store = (set_git_references cache (codes "r") cached_refs store).1
