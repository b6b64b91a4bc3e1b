-- ===== src/Git/Versions/Greatest.antt =====
-- The versions that MaxVersion goes through.
use argocd_monorepo_controll.Base.{
  ◌≡◌, refl, sym, ap, subst, ◌∙◌, ◌⊎◌, inl, inr, Text, true, false, List, [], ◌∷◌, Option, none,
  some, Bool-cases, All,
}
use argocd_monorepo_controll.Git.Versions.{
  Parsed, version, invalid_sem_ver, other_error, Semver, maximum, check_tag, max_tag, original_of,
  resolve_constraint, max_version,
}

-- GreaterThan orders versions: what is not greater is transitive, and a version is not greater
-- than one that it is less than.
pub record IsOrdered (semver : Semver) : Type 0 where
  pub not_self : (v : semver.Version) → semver.greater_than v v ≡ false
  pub not_both :
      (v w : semver.Version) → semver.greater_than v w ≡ true → semver.greater_than w v ≡ false
  pub trans :
      (u v w : semver.Version)
      → semver.greater_than u v ≡ false
      → semver.greater_than v w ≡ false
      → semver.greater_than u w ≡ false

module _ (semver : Semver) (o : IsOrdered semver) (constraints : semver.Constraints) where
  -- No tag's version that meets the constraint is greater.
  abbrev pub Bounds : semver.Version → Text → Type 0
  Bounds max tag =
      (v : semver.Version)
      → semver.new_version tag ≡ version v
      → semver.check constraints v ≡ true
      → semver.greater_than v max ≡ false

  -- The maximum so far is not above the result.
  abbrev Above : Option semver.Version → semver.Version → Type 0
  Above none max = Unit {0}
  Above (some prev) max = semver.greater_than prev max ≡ false

  abbrev Bounded : List Text → Option semver.Version → semver.Version → Type 0
  Bounded tags prev max = All (Bounds max) tags × Above prev max

  -- The maximum with one version more.
  Above-maximum :
      (prev : Option semver.Version) (v max : semver.Version)
      → semver.greater_than (maximum semver prev v) max ≡ false
      → (semver.greater_than v max ≡ false) × Above prev max
  Above-maximum none v max h = (h, tt)
  Above-maximum (some prev) v max h = elim (Bool-cases (semver.greater_than v prev)) [
    | inl g ↦ let top = rw g at h in (top, o.trans prev v max (o.not_both v prev g) top)
    | inr g ↦ let top = rw g at h in (o.trans v prev max g top, top)
  ]

  one_more :
      (tag : Text) (tags : List Text) (prev : Option semver.Version) (max : semver.Version)
      (p : Parsed semver.Version)
      → semver.new_version tag ≡ p
      → ((next : Option semver.Version)
          → max_tag semver constraints tags next ≡ some (some max)
          → Bounded tags next max)
      → check_tag semver constraints p (max_tag semver constraints tags) prev ≡ some (some max)
      → Bounded (tag ∷ tags) prev max
  unfolding check_tag
  one_more tag tags prev max invalid_sem_ver p ih e =
      let (rest, above) = ih prev e in
      ((λ v f c. (let g : invalid_sem_ver ≡ version v = sym p ∙ f in cc), rest), above)
  one_more tag tags prev max other_error p ih e = cc
  one_more tag tags prev max (version w) p ih e = elim (Bool-cases (semver.check constraints w)) [
    | inl c ↦
        let (rest, above) = ih (some (maximum semver prev w)) (rw c at e) in
        let (top, before) = Above-maximum prev w max above in
        (
          (
            λ v f c2.
                (let g : version w ≡ version v = sym p ∙ f in
                  let same : w ≡ v = cc in subst (λ x. semver.greater_than x max ≡ false) same top),
            rest,
          ),
          before,
        )
    | inr c ↦
        let (rest, above) = ih prev (rw c at e) in
        (
          (
            λ v f c2. (let g : version w ≡ version v = sym p ∙ f in let same : w ≡ v = cc in cc),
            rest,
          ),
          above,
        )
  ]

  max_tag-Bounded :
      (tags : List Text) (prev : Option semver.Version) (max : semver.Version)
      → max_tag semver constraints tags prev ≡ some (some max)
      → Bounded tags prev max
  unfolding max_tag
  max_tag-Bounded [] none max e = cc
  max_tag-Bounded [] (some prev) max e =
      let same : prev ≡ max = cc in
      (tt, subst (λ m. semver.greater_than prev m ≡ false) same (o.not_self prev))
  max_tag-Bounded (tag ∷ tags) prev max e =
      one_more tag tags prev max (semver.new_version tag) refl
        (λ next f. max_tag-Bounded tags next max f) e

  -- A tag of the list has this version, which meets the constraint.
  pub data MetBy (max : semver.Version) : List Text → Type 0 where
    here :
        {tag : Text} {tags : List Text}
        → semver.new_version tag ≡ version max
        → semver.check constraints max ≡ true
        → MetBy max (tag ∷ tags)
    there : {tag : Text} {tags : List Text} → MetBy max tags → MetBy max (tag ∷ tags)

  met_later :
      {max : semver.Version} {tag : Text} {tags : List Text} {prev : Option semver.Version}
      → (prev ≡ some max) ⊎ MetBy max tags
      → (prev ≡ some max) ⊎ MetBy max (tag ∷ tags)
  met_later (inl e) = inl e
  met_later (inr m) = inr (there m)

  met_now :
      (max w : semver.Version) (tag : Text) (tags : List Text) (prev : Option semver.Version)
      → semver.new_version tag ≡ version w
      → semver.check constraints w ≡ true
      → (some (maximum semver prev w) ≡ some max) ⊎ MetBy max tags
      → (prev ≡ some max) ⊎ MetBy max (tag ∷ tags)
  met_now max w tag tags prev p c (inr m) = inr (there m)
  met_now max w tag tags none p c (inl e) =
      let same : w ≡ max = cc in
      inr (here (p ∙ ap version same) (subst (λ x. semver.check constraints x ≡ true) same c))
  met_now max w tag tags (some prev) p c (inl e) = elim (Bool-cases (semver.greater_than w prev)) [
    | inl g ↦
        let f = rw g at e in
        let same : w ≡ max = cc in
        inr (here (p ∙ ap version same) (subst (λ x. semver.check constraints x ≡ true) same c))
    | inr g ↦ inl (rw g at e)
  ]

  check_tag-MetBy :
      (tag : Text) (tags : List Text) (prev : Option semver.Version) (max : semver.Version)
      (p : Parsed semver.Version)
      → semver.new_version tag ≡ p
      → ((next : Option semver.Version)
          → max_tag semver constraints tags next ≡ some (some max)
          → (next ≡ some max) ⊎ MetBy max tags)
      → check_tag semver constraints p (max_tag semver constraints tags) prev ≡ some (some max)
      → (prev ≡ some max) ⊎ MetBy max (tag ∷ tags)
  unfolding check_tag
  check_tag-MetBy tag tags prev max invalid_sem_ver p ih e = met_later (ih prev e)
  check_tag-MetBy tag tags prev max other_error p ih e = cc
  check_tag-MetBy tag tags prev max (version w) p ih e =
      elim (Bool-cases (semver.check constraints w)) [
        | inl c ↦ met_now max w tag tags prev p c (ih (some (maximum semver prev w)) (rw c at e))
        | inr c ↦ met_later (ih prev (rw c at e))
      ]

  max_tag-MetBy :
      (tags : List Text) (prev : Option semver.Version) (max : semver.Version)
      → max_tag semver constraints tags prev ≡ some (some max)
      → (prev ≡ some max) ⊎ MetBy max tags
  unfolding max_tag
  max_tag-MetBy [] prev max e = inl (cc)
  max_tag-MetBy (tag ∷ tags) prev max e =
      check_tag-MetBy tag tags prev max (semver.new_version tag) refl
        (λ next f. max_tag-MetBy tags next max f) e

  pub record IsGreatest (tags : List Text) (result : Text) : Type 0 where
    pub max : semver.Version
    pub named : result ≡ semver.original max
    pub met : MetBy max tags
    pub bounds : All (Bounds max) tags

  IsGreatest-of :
      (tags : List Text) (result : Text) (found : Option (Option semver.Version))
      → max_tag semver constraints tags none ≡ found
      → original_of semver found ≡ some result
      → IsGreatest tags result
  IsGreatest-of tags result none e r = cc
  IsGreatest-of tags result (some none) e r = cc
  IsGreatest-of tags result (some (some max)) e r = record {
    max = max;
    named = cc;
    met = elim (max_tag-MetBy tags none max e) [ inl f ↦ cc | inr m ↦ m ];
    bounds = (max_tag-Bounded tags none max e).0;
  }

not_version :
    (semver : Semver) (revision : Text) (tags : List Text)
    → semver.new_version revision ≡ invalid_sem_ver
    → max_version semver revision tags
      ≡ resolve_constraint semver revision (semver.new_constraint revision) tags
unfolding max_version
not_version semver revision tags e = rw (max_version, e)

-- When the library orders versions, and the revision is a constraint and no version, MaxVersion
-- returns the name of a tag's version that meets the constraint and that no tag's version that
-- meets it is greater than.
pub max_version-IsGreatest :
    (semver : Semver) (o : IsOrdered semver) (constraints : semver.Constraints) (revision : Text)
    (tags : List Text) (result : Text)
    → semver.new_version revision ≡ invalid_sem_ver
    → semver.new_constraint revision ≡ some constraints
    → max_version semver revision tags ≡ some result
    → IsGreatest semver o constraints tags result
unfolding resolve_constraint
max_version-IsGreatest semver o constraints revision tags result v c e =
    IsGreatest-of semver o constraints tags result (max_tag semver constraints tags none) refl
      (rw c at (sym (not_version semver revision tags v) ∙ e))
