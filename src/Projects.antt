-- ===== src/Projects.antt =====
-- The AppProject resource (pkg/apis/application/v1alpha1/types.go and app_project_types.go): the
-- structures, and the patterns of their entries (globMatch, and Match of util/glob/glob.go).
pub mod Windows
pub mod Permissions
mod Tests
use argocd_monorepo_controll.Base.{
  Text, codes, text_eq, starts_with, Bool, true, false, not, ◌&&◌, List, [], ◌∷◌, Option, none,
  some, if◌then◌else◌,
}
use argocd_monorepo_controll.App.{ApplicationDestination}

pub record GroupKind : Type 0 where
  pub group : Text
  pub kind : Text

pub record SyncWindow : Type 0 where
  pub kind : Text
  pub schedule : Text
  pub duration : Text
  pub applications : List Text
  pub namespaces : List Text
  pub clusters : List Text
  pub manual_sync : Bool
  pub time_zone : Text
  pub use_and_operator : Bool
  pub description : Text

-- The fields that the operations here read. A nil list counts as an empty one but in the whitelist
-- for namespaces, where nil is `none`.
pub record AppProjectSpec : Type 0 where
  pub source_repos : List Text
  pub destinations : List ApplicationDestination
  pub cluster_resource_whitelist : List GroupKind
  pub cluster_resource_blacklist : List GroupKind
  pub namespace_resource_whitelist : Option (List GroupKind)
  pub namespace_resource_blacklist : List GroupKind
  pub sync_windows : List SyncWindow
  pub permit_only_project_scoped_clusters : Bool

pub record AppProject : Type 0 where
  pub name : Text
  pub spec : AppProjectSpec

-- `glob.Compile` of gobwas/glob, on a pattern and the separators; `none` is an error.
abbrev pub Compile : Type 0
Compile = Text → Text → Option (Text → Bool)

abbrev pub negation : Text
negation = codes "!"

abbrev pub is_deny_pattern : Text → Bool
is_deny_pattern pattern = starts_with pattern negation

-- `text != ""`.
abbrev pub is_given : Text → Bool
is_given [] = false
is_given (c ∷ s) = true

abbrev without_negation : Text → Text
without_negation [] = []
without_negation (c ∷ s) = s

module _ (compile : Compile) where
  abbrev matches_with : Option (Text → Bool) → Text → Bool
  matches_with none text = false
  matches_with (some matcher) text = matcher text

  unfoldable pub glob_match_text : Text → Text → Text → Bool
  glob_match_text separators pattern text = matches_with (compile pattern separators) text

  unfoldable pub glob_match : Text → Bool → Text → Text → Bool
  unfolding glob_match_text starts_with text_eq
  glob_match separators allow_negation pattern val =
      if allow_negation && is_deny_pattern pattern
      then not (glob_match_text separators (without_negation pattern) val)
      else if text_eq pattern (codes "*")
      then true
      else glob_match_text separators pattern val
