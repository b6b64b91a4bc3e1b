-- ===== src/App.antt =====
-- The Application resource (pkg/apis/application/v1alpha1/types.go): the fields that the monorepo
-- controller reads, and the methods of ApplicationSpec that it calls.
-- A nil slice and an empty one are the same list; every reader here treats them alike.
use argocd_monorepo_controll.Base.{
  Text, codes, Map, Bool, not, ◌&&◌, List, [], ◌∷◌, Option, none, some, length, ltb, is_some,
  if◌then◌else◌,
}

pub record ApplicationSource : Type 0 where
  pub repo_url : Text
  pub path : Text
  pub target_revision : Text
  pub chart : Text
  pub ref : Text
  pub name : Text

abbrev pub empty_source : ApplicationSource
empty_source = record {
  repo_url = [];
  path = [];
  target_revision = [];
  chart = [];
  ref = [];
  name = [];
}

pub record SourceHydrator : Type 0 where
  pub dry_repo_url : Text
  pub sync_path : Text
  pub sync_target_branch : Text

unfoldable pub get_sync_source : SourceHydrator → ApplicationSource
get_sync_source s = record empty_source {
  repo_url = s.dry_repo_url;
  path = s.sync_path;
  target_revision = s.sync_target_branch;
}

pub record ApplicationDestination : Type 0 where
  pub server : Text
  pub namespace : Text
  pub name : Text

abbrev pub empty_destination : ApplicationDestination
empty_destination = record { server = []; namespace = []; name = [] }

pub record ApplicationSpec : Type 0 where
  pub source : Option ApplicationSource
  pub destination : ApplicationDestination
  pub project : Text
  pub sources : List ApplicationSource
  pub source_hydrator : Option SourceHydrator

unfoldable pub has_multiple_sources : ApplicationSpec → Bool
has_multiple_sources spec = not (is_some spec.source_hydrator) && ltb 0 (length spec.sources)

unhydrated_sources : ApplicationSpec → List ApplicationSource
unfolding has_multiple_sources
unhydrated_sources spec =
    if has_multiple_sources spec
    then spec.sources
    else elim spec.source [ none ↦ [] | some source ↦ source ∷ [] ]

unfoldable pub get_sources : ApplicationSpec → List ApplicationSource
unfolding unhydrated_sources
get_sources spec = elim spec.source_hydrator [
  | some hydrator ↦ get_sync_source hydrator ∷ []
  | none ↦ unhydrated_sources spec
]

pub record SyncOperation : Type 0 where
  pub revision : Text
  pub revisions : List Text

-- An operation whose `Sync` is nil is `none` inside.
pub record Operation : Type 0 where
  pub sync : Option SyncOperation

pub record SyncOperationResult : Type 0 where
  pub revision : Text
  pub revisions : List Text

pub record OperationState : Type 0 where
  pub sync_result : Option SyncOperationResult

pub record RevisionHistory : Type 0 where
  pub revision : Text
  pub sources : List ApplicationSource
  pub revisions : List Text

pub record SyncStatus : Type 0 where
  pub status : Text
  pub revision : Text
  pub revisions : List Text

pub record ApplicationStatus : Type 0 where
  pub sync : SyncStatus
  pub history : List RevisionHistory
  pub operation_state : Option OperationState

pub record Application : Type 0 where
  pub namespace : Text
  pub name : Text
  pub annotations : Map Text
  pub spec : ApplicationSpec
  pub status : ApplicationStatus
  pub operation : Option Operation

abbrev pub annotation_key_manifest_generate_paths : Text
annotation_key_manifest_generate_paths = codes "argocd.argoproj.io/manifest-generate-paths"

-- watch.EventType.
pub data EventType : Type 0 where
  added modified deleted bookmark error : EventType

pub record ApplicationWatchEvent : Type 0 where
  pub type : EventType
  pub application : Application
