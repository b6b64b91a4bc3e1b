-- ===== src/Service/Revisions.antt =====
-- The revisions of an application's sources, from its annotations, status and operation
-- (getSourcesRevisions and what it calls in mrp_controller/service/mrp_service.go).
use argocd_monorepo_controll.Base.{
  ℕ, suc, ◌-◌, Text, codes, text_eq, trim_space, lookup, Bool, true, false, not, ◌&&◌, ◌||◌, List,
  [], ◌∷◌, Option, none, some, length, get_elem?, get_or, ◌==◌, if◌then◌else◌,
}
use argocd_monorepo_controll.App.{
  Application, ApplicationSource, SyncOperation, SyncOperationResult, RevisionHistory,
  has_multiple_sources,
}
use argocd_monorepo_controll.Json.Arrays.{unmarshal}

abbrev pub change_revision_ann : Text
change_revision_ann = codes "mrp-controller.argoproj.io/change-revision"

abbrev pub change_revisions_ann : Text
change_revisions_ann = codes "mrp-controller.argoproj.io/change-revisions"

abbrev pub git_revision_ann : Text
git_revision_ann = codes "mrp-controller.argoproj.io/git-revision"

abbrev pub git_revisions_ann : Text
git_revisions_ann = codes "mrp-controller.argoproj.io/git-revisions"

abbrev pub synced : Text
synced = codes "Synced"

abbrev pub head : Text
head = codes "HEAD"

abbrev pub is_empty : Text → Bool
is_empty s = text_eq s []

abbrev array_of : Option Text → List Text
array_of none = []
array_of (some s) = if is_empty (trim_space s) then [] else unmarshal s

unfoldable pub get_array_from_annotation : Application → Text → List Text
unfolding lookup trim_space unmarshal text_eq
get_array_from_annotation app annotation_name = array_of (lookup annotation_name app.annotations)

-- `m[key]` of a missing key is the empty string.
abbrev pub annotation : Application → Text → Text
annotation app key = elim (lookup key app.annotations) [ none ↦ [] | some s ↦ s ]

-- The index is never negative.
unfoldable pub slice_get_string : List Text → ℕ → Text
slice_get_string sl idx = get_or sl idx []

-- `a.Operation.Sync`, where both pointers are set.
abbrev pub sync_of : Application → Option SyncOperation
sync_of a = elim a.operation [ none ↦ none | some o ↦ o.sync ]

-- `a.Status.OperationState.SyncResult`, where both pointers are set.
abbrev pub sync_result_of : Application → Option SyncOperationResult
sync_result_of a = elim a.status.operation_state [ none ↦ none | some o ↦ o.sync_result ]

abbrev pub is_synced : Application → Bool
is_synced a = text_eq a.status.sync.status synced

unfoldable pub get_current_revision_for_first_sync_multi_source : Application → ℕ → Text
unfolding slice_get_string text_eq
get_current_revision_for_first_sync_multi_source a idx = elim (sync_of a) [
  | some sync ↦ slice_get_string sync.revisions idx
  | none ↦ if is_synced a then slice_get_string a.status.sync.revisions idx else []
]

unfoldable pub get_current_revision_for_first_sync : Application → Text
unfolding text_eq
get_current_revision_for_first_sync a = elim (sync_of a) [
  | some sync ↦ sync.revision
  | none ↦
      if is_synced a && not (is_empty a.status.sync.revision) then a.status.sync.revision else []
]

-- The names, where both are given, are compared without the space around them.
abbrev has_matching_name : ApplicationSource → ApplicationSource → Bool
has_matching_name a b =
    not (is_empty a.name)
    && (not (is_empty b.name)
        && (not (is_empty (trim_space a.name)) && text_eq (trim_space a.name) (trim_space b.name)))

abbrev pub is_matching_target : Text → Text → Bool
is_matching_target a b =
    text_eq a b || (is_empty a && text_eq b head || text_eq a head && is_empty b)

unfoldable pub is_matching_history_entry : ApplicationSource → ApplicationSource → Bool
unfolding text_eq trim_space
is_matching_history_entry a b =
    if has_matching_name a b
    then true
    else text_eq a.repo_url b.repo_url
      && (text_eq a.path b.path
          && (text_eq a.chart b.chart
              && (text_eq a.ref b.ref && is_matching_target a.target_revision b.target_revision)))

-- The first index, from `idx` on, whose source matches.
unfoldable pub find_source : ApplicationSource → ℕ → List ApplicationSource → Option ℕ
unfolding is_matching_history_entry
find_source src idx [] = none
find_source src idx (s ∷ sources) =
    if is_matching_history_entry s src then some idx else find_source src (suc idx) sources

abbrev pub matches_at : RevisionHistory → ApplicationSource → ℕ → Bool
matches_at history src idx = elim (get_elem? history.sources idx) [
  | none ↦ false
  | some s ↦ is_matching_history_entry s src
]

-- The revision of a source in a history entry: at its own index if the source there matches, else
-- at the first index that does.
unfoldable pub revision_in_entry : RevisionHistory → ApplicationSource → ℕ → Text
unfolding find_source slice_get_string
revision_in_entry history src source_idx =
    if matches_at history src source_idx
    then slice_get_string history.revisions source_idx
    else elim (find_source src 0 history.sources) [
      | none ↦ []
      | some idx ↦ slice_get_string history.revisions idx
    ]

-- `&a.Status.History[historyIdx]` and `&a.Spec.Sources[sourceIdx]`: every call has both indices in
-- range.
unfoldable pub get_revisions_from_history_ms : Application → ℕ → ℕ → Text
unfolding revision_in_entry
get_revisions_from_history_ms a history_idx source_idx =
    elim (get_elem? a.status.history history_idx) [
      | none ↦ []
      | some history ↦ elim (get_elem? a.spec.sources source_idx) [
        | none ↦ []
        | some src ↦ revision_in_entry history src source_idx
      ]
    ]

abbrev history_revision : Application → ℕ → Text
history_revision a idx = elim (get_elem? a.status.history idx) [
  | none ↦ []
  | some history ↦ history.revision
]

-- The sync result, when the sync is done.
abbrev pub finished_sync : Application → Option SyncOperationResult
finished_sync a = if is_synced a then sync_result_of a else none

-- The current and the previous revision.
unfoldable pub get_revisions_multi_source : Application → ℕ → Text × Text
unfolding get_current_revision_for_first_sync_multi_source get_revisions_from_history_ms text_eq
get_revisions_multi_source a idx =
    let entries = length a.status.history in
    if entries == 0
    then (get_current_revision_for_first_sync_multi_source a idx, [])
    else elim (finished_sync a) [
      | some result ↦ (
        slice_get_string result.revisions idx,
        if entries == 1 then [] else get_revisions_from_history_ms a (entries - 2) idx,
      )
      | none ↦ (
        get_current_revision_for_first_sync_multi_source a idx,
        get_revisions_from_history_ms a (entries - 1) idx,
      )
    ]

unfoldable pub get_revisions_single_source : Application → Text × Text
unfolding get_current_revision_for_first_sync text_eq
get_revisions_single_source a =
    let entries = length a.status.history in
    if entries == 0 then (get_current_revision_for_first_sync a, []) else elim (finished_sync a) [
      | some result ↦
          (result.revision, if entries == 1 then [] else history_revision a (entries - 2))
      | none ↦ (get_current_revision_for_first_sync a, history_revision a (entries - 1))
    ]

-- isHelmRepoMultiSource and isHelmRepoSingleSource, at their source.
unfoldable pub is_helm_repo : ApplicationSource → Bool
unfolding trim_space text_eq
is_helm_repo source = not (is_empty (trim_space source.chart))

pub record SourceRevisions : Type 0 where
  pub change_revision : Text
  pub git_revision : Text
  pub current_revision : Text
  pub previous_revision : Text
  pub repo_url : Text
  pub is_helm_repo : Bool
  pub path : Text

abbrev pub multi_source :
    Application → List Text → List Text → ℕ → ApplicationSource → SourceRevisions
multi_source app change_revisions git_revisions idx source = record {
  change_revision = slice_get_string change_revisions idx;
  git_revision = slice_get_string git_revisions idx;
  current_revision = (get_revisions_multi_source app idx).0;
  previous_revision = (get_revisions_multi_source app idx).1;
  repo_url = source.repo_url;
  is_helm_repo = is_helm_repo source;
  path = source.path;
}

-- The loop over the sources, from index `idx` on.
unfoldable pub multi_sources :
    Application → List Text → List Text → ℕ → List ApplicationSource → List SourceRevisions
unfolding slice_get_string get_revisions_multi_source is_helm_repo
multi_sources app change_revisions git_revisions idx [] = []
multi_sources app change_revisions git_revisions idx (source ∷ sources) =
    multi_source app change_revisions git_revisions idx source
    ∷ multi_sources app change_revisions git_revisions (suc idx) sources

abbrev pub single_source : Application → ApplicationSource → SourceRevisions
single_source app source = record {
  change_revision = annotation app change_revision_ann;
  git_revision = annotation app git_revision_ann;
  current_revision = (get_revisions_single_source app).0;
  previous_revision = (get_revisions_single_source app).1;
  repo_url = source.repo_url;
  is_helm_repo = is_helm_repo source;
  path = source.path;
}

-- `none` is the panic on `app.Spec.Source.RepoURL` where Source is nil.
unfoldable pub get_sources_revisions : Application → Option (List SourceRevisions)
unfolding multi_sources get_revisions_single_source is_helm_repo has_multiple_sources lookup
    get_array_from_annotation
get_sources_revisions app =
    if has_multiple_sources app.spec
    then some (
        multi_sources app (get_array_from_annotation app change_revisions_ann)
          (get_array_from_annotation app git_revisions_ann) 0 app.spec.sources)
    else elim app.spec.source [ none ↦ none | some source ↦ some (single_source app source ∷ []) ]
