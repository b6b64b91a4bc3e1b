-- ===== src/Projects/Windows/Edits.antt =====
-- The operations that write windows: AddWindow, DeleteWindow, Update and Validate of
-- pkg/apis/application/v1alpha1/types.go. `none` is an error, and the project stays.
use argocd_monorepo_controll.Base.{
  ℕ, zero, suc, Text, codes, text_eq, Bool, not, ◌&&◌, ◌||◌, List, [], ◌∷◌, ◌++◌, Option, none,
  some, is_some, ltb, length, if◌then◌else◌,
}
use argocd_monorepo_controll.Strconv.{ℤ, pos, negsuc}
use argocd_monorepo_controll.Projects.{SyncWindow, AppProjectSpec, is_given}
use argocd_monorepo_controll.Projects.Windows.{Calendar, ◌>>=◌, has_entries, allow_kind, deny_kind}

abbrev pub new_window :
    Text → Text → Text → List Text → List Text → List Text → Bool → Text → Bool → Text → SyncWindow
new_window knd sch dur app ns cl ms time_zone and_operator description = record {
  kind = knd;
  schedule = sch;
  duration = dur;
  applications = app;
  namespaces = ns;
  clusters = cl;
  manual_sync = ms;
  time_zone = time_zone;
  use_and_operator = and_operator;
  description = description;
}

module _ {Schedule : Type 0} (calendar : Calendar Schedule) where
  abbrev with_zone : Text → SyncWindow → SyncWindow
  with_zone zone w = record w { time_zone = zone }

  abbrev or_utc : Option (ℤ → ℤ) → SyncWindow → SyncWindow
  or_utc none w = with_zone (codes "UTC") w
  or_utc (some zone) w = w

  abbrev pub known_zone : SyncWindow → SyncWindow
  known_zone w =
      let named = if is_given w.time_zone then w else with_zone (codes "UTC") w in
      or_utc (calendar.load_location named.time_zone) named

  abbrev pub is_valid : SyncWindow → Bool
  unfolding text_eq
  is_valid w =
      (text_eq w.kind allow_kind || text_eq w.kind deny_kind)
      && (is_some (calendar.parse_schedule w.schedule)
          && (is_some (calendar.parse_duration w.duration) && not (ltb 255 (length w.description))))

  -- Whether the window is valid, and the window, whose time zone is set in any case.
  unfoldable pub validate : SyncWindow → Bool × SyncWindow
  unfolding is_valid
  validate w = (is_valid (known_zone w), known_zone w)

  unfoldable pub add_window :
      AppProjectSpec
      → Text
      → Text
      → Text
      → List Text
      → List Text
      → List Text
      → Bool
      → Text
      → Bool
      → Text
      → Option AppProjectSpec
  unfolding validate
  add_window spec knd sch dur app ns cl ms time_zone and_operator description =
      let checked =
        validate (new_window knd sch dur app ns cl ms time_zone and_operator description) in
      if not (is_given knd) || (not (is_given sch) || not (is_given dur))
      then none
      else if not checked.0
      then none
      else some (record spec { sync_windows = spec.sync_windows ++ (checked.1 ∷ []) })

abbrev pub remove_window : List SyncWindow → ℕ → Option (List SyncWindow)
remove_window [] i = none
remove_window (w ∷ windows) zero = some windows
remove_window (w ∷ windows) (suc i) = do rest ← remove_window windows i; some (w ∷ rest)

-- No window has a negative index.
unfoldable pub delete_window : AppProjectSpec → ℤ → Option AppProjectSpec
delete_window spec (pos id) = do
  windows ← remove_window spec.sync_windows id
  some (record spec { sync_windows = windows })
delete_window spec (negsuc n) = none

abbrev entries_or : List Text → List Text → List Text
entries_or [] old = old
entries_or (e ∷ entries) old = e ∷ entries

abbrev text_or : Text → Text → Text
text_or [] old = old
text_or (c ∷ s) old = c ∷ s

unfoldable pub update_window :
    SyncWindow → Text → Text → List Text → List Text → List Text → Text → Text → Option SyncWindow
update_window w s d a n c tz description =
    if not (
      is_given s
      || is_given d
      || (has_entries a || has_entries n || has_entries c)
      || is_given description)
    then none
    else some (record w {
      schedule = text_or s w.schedule;
      duration = text_or d w.duration;
      applications = entries_or a w.applications;
      namespaces = entries_or n w.namespaces;
      clusters = entries_or c w.clusters;
      description = text_or description w.description;
      time_zone = text_or tz (codes "UTC");
    })
