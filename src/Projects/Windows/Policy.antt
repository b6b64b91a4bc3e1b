-- ===== src/Projects/Windows/Policy.antt =====
-- Which windows of a project apply to an application, said without the loop of Matches.
pub mod Decided
pub mod Edited
use argocd_monorepo_controll.Base.{
  ◌≡◌, refl, ap, ◌∙◌, sym, Text, text_eq, Bool, true, false, not, ◌&&◌, ◌||◌, List, [], ◌∷◌, Option,
  none, some, any, all, is_some, if◌then◌else◌, Bool-cases, inl, inr, arith,
}
use argocd_monorepo_controll.Strconv.{ℤ}
use argocd_monorepo_controll.App.{Application}
use argocd_monorepo_controll.Projects.{SyncWindow, Compile}
use argocd_monorepo_controll.Projects.Windows.{
  Calendar, allow_kind, deny_kind, has_entries, window_active,
}
use argocd_monorepo_controll.Projects.Windows.Matching.{
  matches_app, matches_cluster, matches_namespace, window_matches, matches,
}

-- The windows with a property.
abbrev pub keep : (SyncWindow → Bool) → List SyncWindow → List SyncWindow
keep p [] = []
keep p (w ∷ windows) = if p w then w ∷ keep p windows else keep p windows

module _ (compile : Compile) (app : Application) where
  -- One entry of the window matches or, with the AND operator, one of each list that has entries.
  abbrev pub applies : SyncWindow → Bool
  applies w =
      let apps = matches_app compile app w in
      let clusters = matches_cluster compile app w in
      let namespaces = matches_namespace compile app w in
      if w.use_and_operator
      then (has_entries w.applications || (has_entries w.clusters || has_entries w.namespaces))
        && ((not (has_entries w.applications) || apps)
            && ((not (has_entries w.clusters) || clusters)
                && (not (has_entries w.namespaces) || namespaces)))
      else apps || (clusters || namespaces)

  has_entries_lem : (p : Text → Bool) (l : List Text) → any p l && not (has_entries l) ≡ false
  has_entries_lem p [] = refl
  has_entries_lem p (a ∷ l) = ground arith

  window_matches-applies : (w : SyncWindow) → window_matches compile app w ≡ applies w
  unfolding window_matches
  window_matches-applies w = let a = has_entries_lem in ground arith

  pub matches-keep :
      (windows : List SyncWindow) → matches compile app windows ≡ keep applies windows
  unfolding matches
  matches-keep [] = refl
  matches-keep (w ∷ windows) = rw (window_matches-applies w, matches-keep windows)
