-- ===== src/Service/Reconcile.antt =====
-- makeChangeRevisionPatch, calculateChangeRevision, annotateApplication and ChangeRevision of
-- mrp_controller/service/mrp_service.go.
--
-- The API server, the database of repositories and the repository server are an interface, whose
-- calls are functions of their arguments within one reconciliation. An error is a deadline that
-- was exceeded or anything else, which is all that the code tells apart. Logs and metrics are left
-- out, but for the status.
use argocd_monorepo_controll.Base.{
  Text, text_eq, lookup, Map, Bool, true, false, not, ◌&&◌, List, [], ◌∷◌, Option, none, some,
  get_or, if◌then◌else◌,
}
use argocd_monorepo_controll.App.{Application, annotation_key_manifest_generate_paths}
use argocd_monorepo_controll.Paths.FilePath.{is_abs, clean, join}
use argocd_monorepo_controll.Paths.Refresh.{drop_first, annotation_items}
use argocd_monorepo_controll.RepoServer.ChangeRevision.{ChangeRevisionRequest}
use argocd_monorepo_controll.Service.Revisions.{SourceRevisions, get_sources_revisions, is_empty}
use argocd_monorepo_controll.Service.Patch.{make_annotation_patch}

pub data Failure : Type 0 where
  deadline_exceeded failure : Failure

unfoldable pub is_timeout : Failure → Bool
is_timeout deadline_exceeded = true
is_timeout failure = false

-- A result, an error, or a panic.
pub data Result {ℓ} (A : Type ℓ) : Type ℓ where
  ok : A → Result A
  err : Failure → Result A
  panicked : Result A

infixl 5 ◌>>=◌
abbrev pub ◌>>=◌ {ℓ κ} : {A : Type ℓ} {B : Type κ} → Result A → (A → Result B) → Result B
ok a >>= f = f a
err e >>= f = err e
panicked >>= f = panicked

-- The `none` of `get_change_revision` is a nil response without an error.
pub record Services : Type 0 where
  pub get_application : Text → Text → Result Application
  pub get_repository : Text → Text → Result Text
  pub new_repo_server_client : Result (Unit {0})
  pub get_change_revision : ChangeRevisionRequest → Result (Option Text)
  pub patch_application : Text → Text → Map Text → Result (Unit {0})

-- GetSourceRefreshPaths: one item of the annotation, then the loop.
unfoldable pub source_refresh_path : Text → Text → Text
unfolding is_abs clean join
source_refresh_path source_path item =
    if is_abs item then drop_first item else clean (join source_path item)

unfoldable pub source_refresh_paths : Text → List Text → List Text
unfolding source_refresh_path
source_refresh_paths source_path [] = []
source_refresh_paths source_path ([] ∷ items) = source_refresh_paths source_path items
source_refresh_paths source_path ((c ∷ item) ∷ items) =
    source_refresh_path source_path (c ∷ item) ∷ source_refresh_paths source_path items

unfoldable pub get_source_refresh_paths : Application → Text → List Text
unfolding source_refresh_paths annotation_items
get_source_refresh_paths app source_path = source_refresh_paths source_path (annotation_items app)

abbrev from_response : Option Text → Result Text
from_response none = err failure
from_response (some revision) = ok revision

-- What becomes of one source: its new change and git revisions.
abbrev pub Revised : Type 0
Revised = Text × Text

abbrev unless_empty : Text → Text → Text
unless_empty s t = if is_empty s then t else s

module _ (services : Services) where
  unfoldable pub calculate_change_revision : Application → Text → Text → Text → Text → Result Text
  unfolding get_source_refresh_paths
  calculate_change_revision a current_revision previous_revision repo_url source_path = do
    repo ← services.get_repository repo_url a.spec.project
    _ ← services.new_repo_server_client
    response ← services.get_change_revision (record {
      repo = some repo;
      current_revision = current_revision;
      previous_revision = previous_revision;
      paths = get_source_refresh_paths a source_path;
    })
    from_response response

  -- After the calculation: a timeout ends the loop, any other error keeps the change revision, and
  -- an empty result keeps it too or, where there is none, takes the current revision.
  unfoldable pub after_calculation : SourceRevisions → Result Text → Result Revised
  unfolding is_timeout text_eq
  after_calculation r panicked = panicked
  after_calculation r (err e) =
      if is_timeout e then err e else ok (r.change_revision, r.current_revision)
  after_calculation r (ok new_change_revision) = ok (
    unless_empty new_change_revision (unless_empty r.change_revision r.current_revision),
    r.current_revision,
  )

  -- One round of the loop over the sources.
  unfoldable pub revise : Application → SourceRevisions → Result Revised
  unfolding after_calculation text_eq
  revise app r =
      if is_empty r.current_revision
      then ok (r.change_revision, r.git_revision)
      else if r.is_helm_repo
      then ok (r.git_revision, r.current_revision)
      else if not (is_empty r.git_revision)
          && (text_eq r.git_revision r.current_revision && not (is_empty r.change_revision))
      then ok (r.change_revision, r.current_revision)
      else after_calculation r
          (calculate_change_revision app r.current_revision r.previous_revision r.repo_url r.path)

  unfoldable pub revise_all : Application → List SourceRevisions → Result (List Text × List Text)
  unfolding revise
  revise_all app [] = ok ([], [])
  revise_all app (r ∷ rs) = do
    (change_revision, git_revision) ← revise app r
    (change_revisions, git_revisions) ← revise_all app rs
    ok (change_revision ∷ change_revisions, git_revision ∷ git_revisions)

abbrev pub has_refresh_paths : Application → Bool
has_refresh_paths a = elim (lookup annotation_key_manifest_generate_paths a.annotations) [
  | none ↦ false
  | some val ↦ not (is_empty val)
]

abbrev pub or_panic {ℓ} : {A : Type ℓ} → Option A → Result A
or_panic none = panicked
or_panic (some a) = ok a

abbrev pub require : Bool → Result (Unit {0})
require true = ok tt
require false = err failure

-- The status that ChangeRevision reports.
pub data Status : Type 0 where
  up_to_date updated patch_error timeout error : Status

pub data Reconciled : Type 0 where
  returned : Status → Option Failure → Reconciled
  crashed : Reconciled

abbrev patch_status : Result (Unit {0}) → Reconciled
patch_status (ok _) = returned updated none
patch_status (err e) = returned patch_error (some e)
patch_status panicked = crashed

module _ (services : Services) where
  -- Element 0 of the slices: there is at least one source.
  unfoldable pub make_change_revision_patch : Application → Result (Option (Map Text))
  unfolding revise_all get_sources_revisions make_annotation_patch lookup text_eq
  make_change_revision_patch a = do
    app ← services.get_application a.namespace a.name
    _ ← require (has_refresh_paths a)
    sources_revisions ← or_panic (get_sources_revisions a)
    (change_revisions, git_revisions) ← revise_all services app sources_revisions
    ok (
        make_annotation_patch a (get_or change_revisions 0 []) change_revisions
          (get_or git_revisions 0 []) git_revisions)

  unfoldable pub annotate_application : Application → Map Text → Result (Unit {0})
  annotate_application a patch = services.patch_application a.namespace a.name patch

  unfoldable pub after_patch : Application → Result (Option (Map Text)) → Reconciled
  unfolding annotate_application is_timeout
  after_patch a (ok none) = returned up_to_date none
  after_patch a (ok (some patch)) = patch_status (annotate_application a patch)
  after_patch a (err e) = returned (if is_timeout e then timeout else error) (some e)
  after_patch a panicked = crashed

  unfoldable pub change_revision : Application → Reconciled
  unfolding make_change_revision_patch after_patch
  change_revision a = after_patch a (make_change_revision_patch a)
