-- ===== src/Service/Tests.antt =====
-- Reconciliations of an application with one git source.
use argocd_monorepo_controll.Base.{
  IsUtf8, no_runes, rune, take_rune, ascii-IsUtf8, ◌≡◌, refl, inr, Text, codes, lookup, text_eq,
  List, [], ◌∷◌, none, some, false,
}
use argocd_monorepo_controll.App.{
  empty_destination, Application, ApplicationSource, empty_source,
  annotation_key_manifest_generate_paths, get_sources,
}
use argocd_monorepo_controll.Json.Arrays.{marshal}
use argocd_monorepo_controll.Paths.Refresh.{get_app_refresh_paths}
use argocd_monorepo_controll.Service.RefreshPaths.{get_app_refresh_paths-one}
use argocd_monorepo_controll.Service.Revisions.{
  SourceRevisions, change_revisions_ann, get_array_from_annotation, get_sources_revisions,
}
use argocd_monorepo_controll.Service.Patch.{merge, patched, needed_annotations}
use argocd_monorepo_controll.Service.Reconcile.{
  get_source_refresh_paths, Services, failure, ok, err, returned, up_to_date, revise, revise_all,
  make_change_revision_patch, change_revision, calculate_change_revision,
}
use argocd_monorepo_controll.Service.Annotations.{Holds, merge-Holds}
use argocd_monorepo_controll.Service.Converge.{rebase}
use argocd_monorepo_controll.Service.Retry.{IsOutdated, failure_not_retried}
use argocd_monorepo_controll.Service.Minimal.{IsMinimal, IsComplete, needed_annotations-exact}
use argocd_monorepo_controll.Service.Stable.{get_array_from_annotation-marshal}
use argocd_monorepo_controll.Service.Stable.Patched.{IsRevised, patch_of, reconciled_again}

abbrev source : ApplicationSource
source = record empty_source { repo_url = codes "https://git/a"; path = codes "app" }

abbrev app : Application
app = record {
  namespace = codes "ns";
  name = codes "a";
  annotations = (annotation_key_manifest_generate_paths, codes ".") ∷ [];
  spec = record {
    source = some source;
    project = codes "p";
    sources = [];
    source_hydrator = none;
    destination = empty_destination;
  };
  status = record {
    sync = record { status = codes "Synced"; revision = codes "c2"; revisions = [] };
    history = [];
    operation_state = none;
  };
  operation = none;
}

-- The repository server answers with a fixed revision.
abbrev answering : Services
answering = record {
  get_application = λ namespace name. ok app;
  get_repository = λ repo_url project. ok repo_url;
  new_repo_server_client = ok tt;
  get_change_revision = λ req. ok (some (codes "c1"));
  patch_application = λ namespace name patch. ok tt;
}

-- The repository server fails.
abbrev failing : Services
failing = record answering { get_change_revision = λ req. err failure }

abbrev cs : List Text
cs = codes "c1" ∷ []

abbrev gs : List Text
gs = codes "c2" ∷ []

app-IsRevised : IsRevised answering app cs gs
unfolding get_sources_revisions revise_all lookup text_eq calculate_change_revision
app-IsRevised = record {
  app = app;
  got = refl;
  sources =
      record {
        change_revision = [];
        git_revision = [];
        current_revision = codes "c2";
        previous_revision = [];
        repo_url = codes "https://git/a";
        is_helm_repo = false;
        path = codes "app";
      }
      ∷ [];
  with_paths = refl;
  sources_eq = refl;
  texts = λ multi. ((ascii-IsUtf8 (codes "c1") refl, tt), (ascii-IsUtf8 (codes "c2") refl, tt));
  revised = refl;
  settled = ((refl, inr refl), tt);
}

reconciled_again_example :
    change_revision failing (patched (patch_of app cs gs) app) ≡ returned up_to_date none
unfolding make_change_revision_patch calculate_change_revision
reconciled_again_example =
    reconciled_again answering failing app app cs gs (patch_of app cs gs) app-IsRevised refl refl

abbrev outdated : SourceRevisions
outdated = record {
  change_revision = codes "c1";
  git_revision = codes "c2";
  current_revision = codes "c4";
  previous_revision = codes "c2";
  repo_url = codes "https://git/a";
  is_helm_repo = false;
  path = codes "app";
}

outdated-IsOutdated : IsOutdated outdated
unfolding text_eq
outdated-IsOutdated = record { plain = refl; busy = refl; full = refl; moved = refl }

failure_not_retried_example :
    (revise failing app outdated ≡ ok (codes "c1", codes "c4"))
    × (revise answering app (rebase (codes "c1", codes "c4") outdated)
        ≡ ok (codes "c1", codes "c4"))
unfolding calculate_change_revision
failure_not_retried_example =
    failure_not_retried failing answering app app outdated outdated-IsOutdated refl

merge-Holds_example :
    Holds
      (merge (needed_annotations app.annotations (codes "c1") cs (codes "c2") gs) app.annotations)
      (codes "c1")
      cs
      (codes "c2")
      gs
merge-Holds_example = merge-Holds app.annotations (codes "c1") cs (codes "c2") gs

needed_annotations-exact_example :
    let patch = needed_annotations app.annotations (codes "c1") cs (codes "c2") gs in
    IsMinimal app.annotations patch
    × IsComplete app.annotations patch (codes "c1") cs (codes "c2") gs
needed_annotations-exact_example =
    needed_annotations-exact app.annotations (codes "c1") cs (codes "c2") gs

get_app_refresh_paths-one_example :
    get_app_refresh_paths app ≡ get_source_refresh_paths app source.path
unfolding get_sources
get_app_refresh_paths-one_example = get_app_refresh_paths-one app source refl

-- A quotation mark, and a letter of two bytes.
abbrev quoted : Text
quoted = b'"' ∷ 0xc3 ∷ 0xa9 ∷ []

abbrev annotated : Application
annotated = record app { annotations = (change_revisions_ann, marshal (quoted ∷ [] ∷ [])) ∷ [] }

quoted-IsUtf8 : IsUtf8 quoted
unfolding take_rune
quoted-IsUtf8 =
    rune quoted (b'"' ∷ []) _ refl (rune (0xc3 ∷ 0xa9 ∷ []) (0xc3 ∷ 0xa9 ∷ []) [] refl no_runes)

get_array_from_annotation-marshal_example :
    get_array_from_annotation annotated change_revisions_ann ≡ quoted ∷ [] ∷ []
unfolding lookup text_eq
get_array_from_annotation-marshal_example =
    get_array_from_annotation-marshal annotated change_revisions_ann (quoted ∷ [] ∷ [])
      (quoted-IsUtf8, (no_runes, tt)) refl
