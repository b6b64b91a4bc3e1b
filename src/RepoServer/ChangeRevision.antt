-- ===== src/RepoServer/ChangeRevision.antt =====
-- reposerver/repository/mrp_repository.go: GetChangeRevision.
--
-- The client that `newClient` makes is a parameter, `none` where it fails. Metrics and logs are
-- left out, but for the deferred one that reads `repo.Repo`. The checkout stands for the call of
-- the repository lock, which runs it when no request for the same revision is under way.
pub mod Newest
pub mod Native
use argocd_monorepo_controll.Base.{
  Text, text_eq, Bool, true, false, List, [], ◌∷◌, Option, none, some, if◌then◌else◌,
}
use argocd_monorepo_controll.Git.{Listing, listed, invalid_revision, command_failed}
use argocd_monorepo_controll.Paths.Refresh.{app_files_have_changed}
use argocd_monorepo_controll.RepoServer.GitClient.{GitClient, checkout_revision}

pub record ChangeRevisionRequest : Type 0 where
  pub repo : Option Text
  pub current_revision : Text
  pub previous_revision : Text
  pub paths : List Text

pub data Code : Type 0 where
  invalid_argument internal : Code

-- A response with its revision, a status error, or a panic.
pub data Response : Type 0 where
  revision : Text → Response
  status_error : Code → Response
  panicked : Response

module _ {S : Type 0} (c : GitClient S) (paths : List Text) where
  -- One round of the loop over the revisions; `rest` is the rounds after it.
  unfoldable pub check_revision : Text → Listing → (S → Response × S) → S → Response × S
  unfolding app_files_have_changed
  check_revision rev invalid_revision rest s = (status_error internal, s)
  check_revision rev command_failed rest s = (status_error internal, s)
  check_revision rev (listed []) rest s = rest s
  check_revision rev (listed (f ∷ files)) rest s =
      if app_files_have_changed paths (f ∷ files) then (revision rev, s) else rest s

  unfoldable pub scan : List Text → S → Response × S
  unfolding check_revision
  scan [] s = (revision [], s)
  scan (rev ∷ revs) s = let (files, t) = c.diff_tree rev s in check_revision rev files (scan revs) t

  -- What follows `ListRevisions`.
  unfoldable pub scan_listing : Text → Listing → S → Response × S
  unfolding scan
  scan_listing target invalid_revision s = (status_error internal, s)
  scan_listing target command_failed s = (status_error internal, s)
  scan_listing target (listed []) s = (revision target, s)
  scan_listing target (listed (r ∷ revs)) s = scan (r ∷ revs) s

module _ {S : Type 0} where
  -- What follows `newClientResolveRevision`.
  pub after_resolve : GitClient S → ChangeRevisionRequest → Option Text → S → Response × S
  unfolding scan_listing checkout_revision
  after_resolve c req none s = (status_error internal, s)
  after_resolve c req (some target) s =
      if text_eq req.previous_revision []
      then (revision req.current_revision, s)
      else let (fine, t) = checkout_revision c target s in
        if fine
        then (let (revisions, u) = c.list_revisions req.previous_revision target t in
            scan_listing c req.paths target revisions u)
        else (status_error internal, t)

  pub with_client : Option (GitClient S) → ChangeRevisionRequest → S → Response × S
  unfolding after_resolve
  with_client none req s = (status_error internal, s)
  with_client (some c) req s =
      let (target, t) = c.ls_remote req.current_revision s in after_resolve c req target t

  pub with_paths : List Text → Option (GitClient S) → ChangeRevisionRequest → S → Response × S
  unfolding with_client
  with_paths [] client req s = (status_error invalid_argument, s)
  with_paths (p ∷ paths) client req s = with_client client req s

  -- Without a repository the handler returns a status error, and the deferred function, which
  -- reads a field of the nil pointer, panics.
  pub with_repo : Option Text → Option (GitClient S) → ChangeRevisionRequest → S → Response × S
  unfolding with_paths
  with_repo none client req s = (panicked, s)
  with_repo (some repo) client req s = with_paths req.paths client req s

  unfoldable pub get_change_revision :
      Option (GitClient S) → ChangeRevisionRequest → S → Response × S
  unfolding with_repo
  get_change_revision client req s = with_repo req.repo client req s
