-- ===== src/Projects/Windows/Matching.antt =====
-- Which windows are for an application: Matches of SyncWindows in
-- pkg/apis/application/v1alpha1/types.go.
use argocd_monorepo_controll.Base.{
  Text, Bool, true, false, not, ◌&&◌, ◌||◌, List, [], ◌∷◌, any, if◌then◌else◌,
}
use argocd_monorepo_controll.App.{Application}
use argocd_monorepo_controll.Projects.{SyncWindow, Compile, glob_match, is_given}
use argocd_monorepo_controll.Projects.Windows.{has_entries}

module _ (compile : Compile) (app : Application) where
  abbrev pub matches_app : SyncWindow → Bool
  matches_app w = any (λ a. glob_match compile [] false a app.name) w.applications

  abbrev pub matches_cluster : SyncWindow → Bool
  matches_cluster w =
      let dst = app.spec.destination in
      any
        (λ c.
          is_given dst.name && glob_match compile [] false c dst.name
          || is_given dst.server && glob_match compile [] false c dst.server)
        w.clusters

  abbrev pub matches_namespace : SyncWindow → Bool
  matches_namespace w =
      any (λ n. glob_match compile [] false n app.spec.destination.namespace) w.namespaces

  abbrev or_matched : List Text → Bool → Bool → Bool
  or_matched entries matches matched = if has_entries entries then matches else matched

  -- The rounds of the loop, with `matched` and `isSet` after each check.
  abbrev after_clusters : SyncWindow → Bool → Bool → Bool
  after_clusters w matched set =
      if set && (w.use_and_operator && not matched)
      then false
      else if not w.use_and_operator && matched
      then true
      else or_matched w.namespaces (matches_namespace w) matched

  abbrev after_applications : SyncWindow → Bool → Bool → Bool
  after_applications w matched set =
      if w.use_and_operator && (not matched && set)
      then false
      else if not w.use_and_operator && matched
      then true
      else after_clusters w (or_matched w.clusters (matches_cluster w) matched)
          (has_entries w.clusters || set)

  unfoldable pub window_matches : SyncWindow → Bool
  unfolding glob_match
  window_matches w =
      after_applications w (or_matched w.applications (matches_app w) false)
        (has_entries w.applications)

  unfoldable pub matches : List SyncWindow → List SyncWindow
  unfolding window_matches
  matches [] = []
  matches (w ∷ windows) = if window_matches w then w ∷ matches windows else matches windows
