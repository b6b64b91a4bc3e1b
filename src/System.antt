-- ===== src/System.antt =====
-- A source's reconciliation by the controller, in one step with the answer of the repository server
-- over its git client and caches (makeChangeRevisionPatch of mrp_controller/service/mrp_service.go,
-- GetChangeRevision of reposerver/repository/mrp_repository.go).
mod Tests
use argocd_monorepo_controll.Base.{
  ◌≡◌, ◌≢◌, refl, inl, inr, Text, text_eq, text_eq_iff, Bool, true, false, not, ◌&&◌, List, [], ◌∷◌,
  Option, none, some, Bool-cases, arith,
}
use argocd_monorepo_controll.App.{Application}
use argocd_monorepo_controll.Git.{NativeGitClient}
use argocd_monorepo_controll.Git.Cached.{IsSound}
use argocd_monorepo_controll.RepoServer.ChangeRevision.{
  ChangeRevisionRequest, Response, revision, status_error, panicked, get_change_revision,
}
use argocd_monorepo_controll.RepoServer.ChangeRevision.Native.{
  Remote, World, native_git_client, Answers, change_revision_answer,
}
use argocd_monorepo_controll.Repositories.{Repository}
use argocd_monorepo_controll.Db.Secrets
use argocd_monorepo_controll.Db.Secrets.{Kube, DbError}
use argocd_monorepo_controll.Db.Database.{db_get_repository}
use argocd_monorepo_controll.Service.Revisions.{SourceRevisions, is_empty}
use argocd_monorepo_controll.Service.Reconcile
use argocd_monorepo_controll.Service.Reconcile.{
  Services, Result, ok, err, failure, get_source_refresh_paths, calculate_change_revision, revise,
  Revised,
}

-- What the controller gets for a response: the server's interceptors turn a panic into an error,
-- and no error of the handler is a deadline of the controller.
unfoldable pub received : Response → Result (Option Text)
received (revision rev) = ok (some rev)
received (status_error code) = err failure
received panicked = err failure

module _ {R : Type 0} (run_cmd : Text → List Text → Option Text) (m : NativeGitClient)
    (remote : Remote R) (s : World R) where
  -- The repository server as the controller calls it, in state `s`.
  unfoldable pub served : ChangeRevisionRequest → Result (Option Text)
  unfolding get_change_revision received
  served req = received (get_change_revision (some (native_git_client run_cmd m remote)) req s).0

  abbrev pub over_server : Services → Services
  over_server services = record services { get_change_revision = served }

-- The source has a current revision that is not of a helm repository, and no change revision that
-- was calculated for it.
pub record IsDue (r : SourceRevisions) : Type 0 where
  pub has_current : is_empty r.current_revision ≡ false
  pub is_git : r.is_helm_repo ≡ false
  pub outdated :
      (not (is_empty r.git_revision)
        && (text_eq r.git_revision r.current_revision && not (is_empty r.change_revision)))
      ≡ false

-- What is recorded as change revision when the server has given an answer.
abbrev pub recorded : SourceRevisions → Response → Text
recorded r (revision rev) = elim (is_empty rev) [
  | false ↦ rev
  | true ↦ elim (is_empty r.change_revision) [
    | false ↦ r.change_revision
    | true ↦ r.current_revision
  ]
]
recorded r (status_error code) = r.change_revision
recorded r panicked = r.change_revision

abbrev pub request_for : Application → SourceRevisions → Text → ChangeRevisionRequest
request_for app r repo = record {
  repo = some repo;
  current_revision = r.current_revision;
  previous_revision = r.previous_revision;
  paths = get_source_refresh_paths app r.path;
}

calculated :
    (services : Services) (app : Application) (r : SourceRevisions) (repo : Text) (x : Response)
    → IsDue r
    → services.get_repository r.repo_url app.spec.project ≡ ok repo
    → services.new_repo_server_client ≡ ok tt
    → services.get_change_revision (request_for app r repo) ≡ received x
    → revise services app r ≡ ok (recorded r x, r.current_revision)
unfolding revise calculate_change_revision get_source_refresh_paths received
    Reconcile.after_calculation Reconcile.is_timeout
calculated services app r repo (revision rev) o e f g =
    rw (o.has_current, o.is_git, o.outdated, e, f, g) (ground arith)
calculated services app r repo (status_error code) o e f g =
    rw (o.has_current, o.is_git, o.outdated, e, f, g)
calculated services app r repo panicked o e f g = rw (o.has_current, o.is_git, o.outdated, e, f, g)

not_calculated :
    (services : Services) (app : Application) (r : SourceRevisions)
    → IsDue r
    → services.get_repository r.repo_url app.spec.project ≡ err failure
    → revise services app r ≡ ok (r.change_revision, r.current_revision)
unfolding revise calculate_change_revision Reconcile.after_calculation Reconcile.is_timeout
not_calculated services app r o e = rw (o.has_current, o.is_git, o.outdated, e)

-- What the controller gets for a repository of the database.
unfoldable pub url_or_failure : Secrets.Result Repository → Result Text
url_or_failure (Secrets.ok repository) = ok repository.repo
url_or_failure (Secrets.err e) = err failure

module _ {S : Type 0} (kube : Kube S) (parse : Text → Option Text) (state : S) where
  unfoldable pub found : Text → Text → Result Text
  unfolding db_get_repository url_or_failure
  found repo_url project = url_or_failure (db_get_repository kube parse repo_url project state)

  abbrev pub over_database : Services → Services
  over_database services = record services { get_repository = found }

-- What a round does for a source that is due: the database fails, and the change revision stays,
-- or it has the repository, and what the server answers for it is recorded.
pub data Round {R : Type 0} (run_cmd : Text → List Text → Option Text) (m : NativeGitClient)
    (remote : Remote R) (s : World R) (app : Application) (r : SourceRevisions)
    : Secrets.Result Repository → Result Revised → Type 0 where
  no_repository :
      (e : DbError)
      → Round run_cmd m remote s app r (Secrets.err e) (ok (r.change_revision, r.current_revision))
  answered :
      (repository : Repository) (x : Response)
      → Answers run_cmd m remote (request_for app r repository.repo) s x
      → Round run_cmd m remote s app r
          (Secrets.ok repository)
          (ok (recorded r x, r.current_revision))

module _ {R S : Type 0} (run_cmd : Text → List Text → Option Text) (m : NativeGitClient)
    (remote : Remote R) (s : World R) (kube : Kube S) (parse : Text → Option Text) (state : S)
    (services : Services) (app : Application) (r : SourceRevisions) where
  abbrev pub whole : Services
  whole = over_server run_cmd m remote s (over_database kube parse state services)

  whole-Round :
      (d : Secrets.Result Repository)
      → db_get_repository kube parse r.repo_url app.spec.project state ≡ d
      → IsDue r
      → services.new_repo_server_client ≡ ok tt
      → IsSound run_cmd s.cache
      → Round run_cmd m remote s app r d (revise whole app r)
  unfolding found url_or_failure served
  whole-Round (Secrets.err e) h o f i = rw (not_calculated whole app r o (rw h)) (no_repository e)
  whole-Round (Secrets.ok repository) h o f i =
      let client = some (native_git_client run_cmd m remote) in
      let x = (get_change_revision client (request_for app r repository.repo) s).0 in
      rw (calculated whole app r repository.repo x o (rw h) f refl) (
        answered repository x
          (change_revision_answer run_cmd m remote (request_for app r repository.repo) s i).0)

-- For a source that is due, over the database of repositories and a repository server with a sound
-- cache, in any states, the round of the controller records the current revision as git revision.
-- As change revision it records, if the database has the repository, what the server answers from
-- its history for the application's refresh paths: the revision found or, where it is empty or an
-- error, the change revision that was there (with an empty answer the current revision, where there
-- was none). If the database fails, the change revision stays.
pub revise-Round :
    {R S : Type 0} (run_cmd : Text → List Text → Option Text) (m : NativeGitClient)
    (remote : Remote R) (s : World R) (kube : Kube S) (parse : Text → Option Text) (state : S)
    (services : Services) (app : Application) (r : SourceRevisions)
    → IsDue r
    → services.new_repo_server_client ≡ ok tt
    → IsSound run_cmd s.cache
    → Round run_cmd m remote s app r
        (db_get_repository kube parse r.repo_url app.spec.project state)
        (revise (over_server run_cmd m remote s (over_database kube parse state services)) app r)
revise-Round run_cmd m remote s kube parse state services app r o f i =
    whole-Round run_cmd m remote s kube parse state services app r
      (db_get_repository kube parse r.repo_url app.spec.project state) refl o f i
