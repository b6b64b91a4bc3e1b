-- ===== src/Git/Versions.antt =====
-- util/versions/tags.go: the highest tag that meets a semantic version constraint.
--
-- The semver library is a parameter. `NewVersion` gives a version, `ErrInvalidSemVer`, or another
-- error.
pub mod Greatest
use argocd_monorepo_controll.Base.{
  ◌≡◌, refl, sym, ap, subst, ◌∙◌, ◌⊎◌, inl, inr, Text, text_eq, Bool, true, false, List, [], ◌∷◌,
  Option, none, some, any, Bool-cases, All, if◌then◌else◌,
}

pub data Parsed (V : Type 0) : Type 0 where
  version : V → Parsed V
  invalid_sem_ver other_error : Parsed V

pub record Semver : Type 1 where
  pub Version : Type 0
  pub Constraints : Type 0
  pub new_version : Text → Parsed Version
  pub new_constraint : Text → Option Constraints
  pub original : Version → Text
  pub check : Constraints → Version → Bool
  pub greater_than : Version → Version → Bool

module _ (semver : Semver) where
  -- The maximum so far, or the version if it is greater.
  abbrev pub maximum : Option semver.Version → semver.Version → semver.Version
  maximum none v = v
  maximum (some max) v = if semver.greater_than v max then v else max

  -- A round of the loop over the tags; `rest` is the rounds after it, and the outer `none` is an
  -- error.
  unfoldable pub check_tag :
      semver.Constraints
      → Parsed semver.Version
      → (Option semver.Version → Option (Option semver.Version))
      → Option semver.Version
      → Option (Option semver.Version)
  check_tag constraints (version v) rest max =
      rest (if semver.check constraints v then some (maximum max v) else max)
  check_tag constraints invalid_sem_ver rest max = rest max
  check_tag constraints other_error rest max = none

  unfoldable pub max_tag :
      semver.Constraints → List Text → Option semver.Version → Option (Option semver.Version)
  unfolding check_tag
  max_tag constraints [] max = some max
  max_tag constraints (tag ∷ tags) max =
      check_tag constraints (semver.new_version tag) (max_tag constraints tags) max

  abbrev original_of : Option (Option semver.Version) → Option Text
  original_of (some (some max)) = some (semver.original max)
  original_of _ = none

  abbrev equal_tag : Text → List Text → Option Text
  equal_tag revision tags = if any (λ tag. text_eq tag revision) tags then some revision else none

  unfoldable pub resolve_constraint : Text → Option semver.Constraints → List Text → Option Text
  unfolding max_tag text_eq
  resolve_constraint revision none tags = equal_tag revision tags
  resolve_constraint revision (some constraints) tags = original_of (max_tag constraints tags none)

  unfoldable pub max_version : Text → List Text → Option Text
  unfolding resolve_constraint
  max_version revision tags = elim (semver.new_version revision) [
    | version v ↦ some (semver.original v)
    | _ ↦ resolve_constraint revision (semver.new_constraint revision) tags
  ]
