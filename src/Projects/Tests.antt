-- ===== src/Projects/Tests.antt =====
-- A project with a window that denies and one that allows.
use argocd_monorepo_controll.Base.{
  ℕ, ◌≡◌, refl, Text, codes, text_eq, Bool, true, false, not, ◌&&◌, List, [], ◌∷◌, Option, none,
  some, any,
}
use argocd_monorepo_controll.Strconv.{pos}
use argocd_monorepo_controll.App.{
  Application, ApplicationDestination, ApplicationSource, empty_source,
}
use argocd_monorepo_controll.Git.Urls.{normalize_git_url}
use argocd_monorepo_controll.Projects.{SyncWindow, AppProjectSpec, AppProject, Compile}
use argocd_monorepo_controll.Projects.Permissions.{is_source_permitted, is_destination_matched}
use argocd_monorepo_controll.Projects.Permissions.Rules.{
  permits_source, denies_source, permits_destination, denies_destination, is_permitted-rules,
}
use argocd_monorepo_controll.Projects.Windows.{Calendar, ◌+ℤ◌, can_sync}
use argocd_monorepo_controll.Projects.Windows.Matching.{matches}
use argocd_monorepo_controll.Projects.Windows.Edits.{add_window}
use argocd_monorepo_controll.Projects.Windows.Policy.{keep, applies}
use argocd_monorepo_controll.Projects.Windows.Policy.Decided.{policy, can_sync-matches}
use argocd_monorepo_controll.Projects.Windows.Policy.Edited.{Edited, unedited, added, edited-answer}

-- Each schedule is for the multiples of its length.
abbrev calendar : Calendar ℕ
calendar = record {
  parse_schedule = λ s. some 10;
  next = λ n t. t +ℤ pos n;
  parse_duration = λ s. some (pos 20);
  load_location = λ s. none;
}

equal_to : Text → Text → Bool
unfolding text_eq
equal_to pattern text = text_eq pattern text

abbrev compile : Compile
compile pattern separators = some (equal_to pattern)

abbrev destination : ApplicationDestination
destination = record { server = codes "https://k"; namespace = codes "n"; name = [] }

abbrev app : Application
app = record {
  namespace = codes "ns";
  name = codes "a";
  annotations = [];
  spec = record {
    source = none;
    destination = destination;
    project = codes "p";
    sources = [];
    source_hydrator = none;
  };
  status = record {
    sync = record { status = []; revision = []; revisions = [] };
    history = [];
    operation_state = none;
  };
  operation = none;
}

abbrev window : Text → SyncWindow
window kind = record {
  kind = kind;
  schedule = codes "* * * * *";
  duration = codes "1h";
  applications = codes "a" ∷ [];
  namespaces = [];
  clusters = [];
  manual_sync = true;
  time_zone = codes "UTC";
  use_and_operator = true;
  description = [];
}

abbrev windows : List SyncWindow
windows = window (codes "deny") ∷ window (codes "allow") ∷ []

can_sync-matches_example :
    can_sync calendar (matches compile app windows) true (pos 7) (pos 8)
    ≡ policy calendar (keep (applies compile app) windows) true (pos 7) (pos 8)
can_sync-matches_example = can_sync-matches calendar compile app windows true (pos 7) (pos 8)

-- A manual synchronisation passes the window that denies, another does not.
manual_passes : can_sync calendar windows true (pos 7) (pos 8) ≡ some true
unfolding can_sync text_eq
manual_passes = refl

automatic_denied : can_sync calendar windows false (pos 7) (pos 8) ≡ some false
unfolding can_sync text_eq
automatic_denied = refl

abbrev spec : AppProjectSpec
spec = record {
  source_repos = codes "!https://git/a" ∷ codes "*" ∷ [];
  destinations = destination ∷ [];
  cluster_resource_whitelist = [];
  cluster_resource_blacklist = [];
  namespace_resource_whitelist = none;
  namespace_resource_blacklist = [];
  sync_windows = [];
  permit_only_project_scoped_clusters = false;
}

abbrev proj : AppProject
proj = record { name = codes "p"; spec = spec }

abbrev parse : Text → Option Text
parse text = some text

abbrev source : ApplicationSource
source = record empty_source { repo_url = codes "https://git/b" }

is_permitted-rules_example :
    (is_source_permitted compile parse proj source
      ≡ not (
          any
            (denies_source compile parse (normalize_git_url parse source.repo_url))
            proj.spec.source_repos)
        && any
            (permits_source compile parse (normalize_git_url parse source.repo_url))
            proj.spec.source_repos)
    × (is_destination_matched compile proj destination
        ≡ not (any (denies_destination compile destination) proj.spec.destinations)
          && any (permits_destination compile destination) proj.spec.destinations)
is_permitted-rules_example = is_permitted-rules compile parse proj source destination

abbrev one_window : AppProjectSpec
one_window = record spec { sync_windows = window (codes "deny") ∷ [] }

one_window-Edited : Edited calendar one_window
unfolding add_window text_eq
one_window-Edited =
    added spec one_window (codes "deny") (codes "* * * * *") (codes "1h") (codes "a" ∷ []) [] []
      true [] true [] (unedited spec refl) refl

edited-answer_example :
    (b : Bool) × (can_sync calendar
        (matches compile app one_window.sync_windows)
        false
        (pos 7)
        (pos 8)
      ≡ some b)
edited-answer_example =
    edited-answer calendar one_window compile app false (pos 7) (pos 8) one_window-Edited
