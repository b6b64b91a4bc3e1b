-- ===== src/Git/WorkingCopy.antt =====
-- util/git/client.go: the working copy of a nativeGitClient, over the commands of git.
--
-- The git command, go-git's PlainOpen, PlainInit and CreateRemote, and the file system are an
-- interface over the state of the working copy. Of an error only its being one is kept, and the
-- hooks of metrics are left out.
pub mod Head
use argocd_monorepo_controll.Base.{
  ℕ, Text, codes, text_eq, split, trim_space, Bool, true, false, not, ◌&&◌, ◌||◌, List, [], ◌∷◌,
  ◌++◌, Option, none, some, if◌then◌else◌,
}
use argocd_monorepo_controll.Git.{is_commit_sha}
use argocd_monorepo_controll.RepoServer.GitClient.{◌>>◌}

pub data Opened : Type 0 where
  opened not_exists failed_open : Opened

-- `run_cmd` gives the output, and whether there was no error.
pub record Commands (R : Type 0) : Type 0 where
  pub run_cmd : List Text → R → (Text × Bool) × R
  pub run_credentialed_cmd : List Text → R → Bool × R
  pub plain_open : R → Opened
  pub remove_all : R → Bool × R
  pub mkdir_all : R → Bool × R
  pub plain_init : R → Bool × R
  pub create_remote : Text → R → Bool × R
  pub has_gitmodules : R → Bool

pub record ClientSettings : Type 0 where
  pub repo_url : Text
  pub enable_lfs : Bool

abbrev pub is_empty : Text → Bool
is_empty s = text_eq s []

abbrev pub fetch_args : Text → List Text
fetch_args revision =
    if is_empty revision
    then codes "fetch" ∷ codes "origin" ∷ codes "--tags" ∷ codes "--force" ∷ codes "--prune" ∷ []
    else codes "fetch"
      ∷ codes "origin"
      ∷ revision
      ∷ codes "--tags"
      ∷ codes "--force"
      ∷ codes "--prune"
      ∷ []

abbrev pub large_files_args : List Text
large_files_args = codes "lfs" ∷ codes "ls-files" ∷ codes "-n" ∷ []

-- `strings.Split`, which never gives an empty slice.
abbrev pub large_files {ℓ} : {R : Type ℓ} → (Text × Bool) × R → Option (List Text) × R
large_files ((out, true), t) = (some (split b'\n' out), t)
large_files ((out, false), t) = (none, t)

-- `len(largeFiles) > 0`.
abbrev pub has_any : List Text → Bool
has_any [] = false
has_any (f ∷ files) = true

abbrev pub checkout_args : Text → List Text
checkout_args revision = codes "checkout" ∷ codes "--force" ∷ revision ∷ []

abbrev pub checkout_target : Text → Text
checkout_target revision =
    if is_empty revision || text_eq revision (codes "HEAD") then codes "origin/HEAD" else revision

module _ {R : Type 0} (git : Commands R) (m : ClientSettings) where
  -- A command of which only the error counts.
  unfoldable pub run_git : List Text → R → Bool × R
  run_git args s = let ((out, fine), t) = git.run_cmd args s in (fine, t)

  abbrev after_open : Opened → R → Bool × R
  after_open opened s = (true, s)
  after_open failed_open s = (false, s)
  after_open not_exists s =
      (git.remove_all >> git.mkdir_all >> git.plain_init >> git.create_remote m.repo_url) s

  unfoldable pub init_copy : R → Bool × R
  init_copy s = after_open (git.plain_open s) s

  unfoldable pub fetch_refs : Text → R → Bool × R
  unfolding text_eq
  fetch_refs revision s = git.run_credentialed_cmd (fetch_args revision) s

  unfoldable pub ls_large_files : R → Option (List Text) × R
  unfolding split
  ls_large_files s = large_files (git.run_cmd large_files_args s)

  -- A failed listing of large files is no error of the fetch.
  abbrev pub fetch_large : Option (List Text) × R → Bool × R
  fetch_large (none, t) = (true, t)
  fetch_large (some files, t) =
      if has_any files
      then git.run_credentialed_cmd (codes "lfs" ∷ codes "fetch" ∷ codes "--all" ∷ []) t
      else (true, t)

  unfoldable pub fetch_lfs : R → Bool × R
  unfolding ls_large_files
  fetch_lfs s = if m.enable_lfs then fetch_large (ls_large_files s) else (true, s)

  unfoldable pub fetch : Text → R → Bool × R
  unfolding fetch_refs fetch_lfs
  fetch revision = fetch_refs revision >> fetch_lfs

  unfoldable pub is_revision_present : Text → R → Bool
  unfolding text_eq
  is_revision_present revision s =
      if is_empty revision
      then false
      else (let ((out, fine), t) = git.run_cmd (codes "cat-file" ∷ codes "-t" ∷ revision ∷ []) s in
          text_eq out (codes "commit") && fine)

  unfoldable pub submodule : R → Bool × R
  submodule =
      git.run_credentialed_cmd (codes "submodule" ∷ codes "sync" ∷ codes "--recursive" ∷ [])
      >> git.run_credentialed_cmd
          (codes "submodule" ∷ codes "update" ∷ codes "--init" ∷ codes "--recursive" ∷ [])

  abbrev pub checkout_large : Option (List Text) × R → Bool × R
  checkout_large (none, t) = (false, t)
  checkout_large (some files, t) =
      if has_any files then run_git (codes "lfs" ∷ codes "checkout" ∷ []) t else (true, t)

  unfoldable pub checkout_lfs : R → Bool × R
  unfolding ls_large_files run_git
  checkout_lfs s = if m.enable_lfs then checkout_large (ls_large_files s) else (true, s)

  unfoldable pub checkout_submodules : Bool → R → Bool × R
  unfolding submodule
  checkout_submodules submodule_enabled s =
      if git.has_gitmodules s && submodule_enabled then submodule s else (true, s)

  unfoldable pub checkout : Bool → Text → R → Bool × R
  unfolding run_git text_eq checkout_lfs checkout_submodules
  checkout submodule_enabled revision =
      run_git (checkout_args (checkout_target revision))
      >> checkout_lfs
      >> checkout_submodules submodule_enabled
      >> run_git (codes "clean" ∷ codes "-ffdx" ∷ [])

  unfoldable pub commit_sha : R → Option Text × R
  unfolding trim_space
  commit_sha s =
      let ((out, fine), t) = git.run_cmd (codes "rev-parse" ∷ codes "HEAD" ∷ []) s in
      (if fine then some (trim_space out) else none, t)

  unfoldable pub is_annotated_tag : Text → R → Bool
  unfolding text_eq
  is_annotated_tag revision s =
      let ((out, fine), t) =
        git.run_cmd (codes "describe" ∷ codes "--exact-match" ∷ revision ∷ []) s in
      not (is_empty out) && fine

  abbrev changed : (Text × Bool) × R → Option (List Text) × R
  changed ((out, false), t) = (none, t)
  changed ((out, true), t) = (some (if is_empty out then [] else split b'\n' out), t)

  unfoldable pub changed_files : Text → Text → R → Option (List Text) × R
  unfolding text_eq is_commit_sha split
  changed_files revision target_revision s =
      if text_eq revision target_revision
      then (some [], s)
      else if not (is_commit_sha revision) || not (is_commit_sha target_revision)
      then (none, s)
      else changed (
          git.run_cmd
            (codes "diff"
              ∷ codes "--name-only"
              ∷ (revision ++ (codes ".." ++ target_revision))
              ∷ [])
            s)
