-- ===== src/System/Tests.antt =====
-- A source that is due, with the commit above its previous revision.
use argocd_monorepo_controll.Base.{
  ◌≡◌, refl, Text, text_eq, codes, lookup, true, false, List, [], ◌∷◌, Option, none, some,
  replicate,
}
use argocd_monorepo_controll.App.{
  empty_destination, Application, empty_source, annotation_key_manifest_generate_paths,
}
use argocd_monorepo_controll.Git.{NativeGitClient}
use argocd_monorepo_controll.Git.Cached.{empty-IsSound}
use argocd_monorepo_controll.RepoServer.ChangeRevision.Native.{Remote, World}
use argocd_monorepo_controll.Service.Revisions.{SourceRevisions}
use argocd_monorepo_controll.Service.Reconcile.{Services, ok, err, failure, revise}
use argocd_monorepo_controll.System.{IsDue, over_server, over_database, Round, revise-Round}
use argocd_monorepo_controll.Db.Secrets
use argocd_monorepo_controll.Db.Secrets.{Kube, exists_already}
use argocd_monorepo_controll.Db.Database.{db_get_repository}
use argocd_monorepo_controll.Repositories.{new_repository}
use argocd_monorepo_controll.Git.Urls.{normalize_git_url}

abbrev sha_a : Text
sha_a = replicate 40 b'a'

abbrev sha_b : Text
sha_b = replicate 40 b'b'

abbrev url : Text
url = codes "https://git/a"

-- `rev-list` has three arguments and lists the commit; `diff-tree` lists a file.
abbrev run_cmd : Text → List Text → Option Text
run_cmd repo_url (c ∷ o ∷ r ∷ []) = some sha_b
run_cmd repo_url _ = some (codes "app/values.yaml")

abbrev m : NativeGitClient
m = record { repo_url = url; use_list_revisions_cache = true; use_diff_tree_cache = true }

abbrev remote : Remote (Unit {0})
remote = record {
  ls_remote = λ rev r. (some rev, r);
  init = λ r. (true, r);
  is_revision_present = λ rev r. true;
  fetch = λ rev r. (true, r);
  checkout = λ rev r. (true, r);
}

abbrev world : World (Unit {0})
world = record { cache = []; copy = tt }

abbrev app : Application
app = record {
  namespace = codes "ns";
  name = codes "a";
  annotations = (annotation_key_manifest_generate_paths, codes ".") ∷ [];
  spec = record {
    source = some (record empty_source { repo_url = url; path = codes "app" });
    project = codes "p";
    sources = [];
    source_hydrator = none;
    destination = empty_destination;
  };
  status = record {
    sync = record { status = codes "Synced"; revision = sha_b; revisions = [] };
    history = [];
    operation_state = none;
  };
  operation = none;
}

abbrev services : Services
services = record {
  get_application = λ namespace name. ok app;
  get_repository = λ repo_url project. ok repo_url;
  new_repo_server_client = ok tt;
  get_change_revision = λ req. err failure;
  patch_application = λ namespace name patch. ok tt;
}

abbrev due : SourceRevisions
due = record {
  change_revision = sha_a;
  git_revision = sha_a;
  current_revision = sha_b;
  previous_revision = sha_a;
  repo_url = url;
  is_helm_repo = false;
  path = codes "app";
}

due-IsDue : IsDue due
unfolding text_eq
due-IsDue = record { has_current = refl; is_git = refl; outdated = refl }

-- A database without secrets: it has every repository under its URL alone.
abbrev kube : Kube (Unit {0})
kube = record {
  list_secrets_by_type = λ t s. some [];
  get_secret = λ name s. some none;
  create = λ secret s. (exists_already, s);
  update_secret = λ secret s. (none, s);
  delete_secret = λ name s. (false, s);
  resync_informers = λ s. (true, s);
}

abbrev parse : Text → Option Text
parse text = some text

revise-Round_example :
    Round run_cmd m remote world app due
      (db_get_repository kube parse url app.spec.project tt)
      (revise (over_server run_cmd m remote world (over_database kube parse tt services)) app due)
revise-Round_example =
    revise-Round run_cmd m remote world kube parse tt services app due due-IsDue refl
      (empty-IsSound run_cmd)

-- The database has the repository of the example.
has_repository :
    db_get_repository kube parse url app.spec.project tt ≡ Secrets.ok (new_repository url)
unfolding db_get_repository text_eq lookup normalize_git_url
has_repository = refl
