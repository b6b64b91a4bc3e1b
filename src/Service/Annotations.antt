-- ===== src/Service/Annotations.antt =====
-- The application's annotations after the patch.
use argocd_monorepo_controll.Base.{
  ◌≡◌, refl, subst, ◌∙◌, inl, inr, Text, text_eq, text_eq_iff, text_eq_refl, Map, lookup, insert,
  lookup-insert, Absent, HasNodupKeys, lookup-Absent, insert-HasNodupKeys, false, List, [], ◌∷◌,
  Option, none, some, arith, Bool-cases,
}
use argocd_monorepo_controll.Json.Arrays.{marshal}
use argocd_monorepo_controll.Service.Revisions.{
  change_revision_ann, change_revisions_ann, git_revision_ann, git_revisions_ann,
}
use argocd_monorepo_controll.Service.Patch.{differs, add_patch_if_needed, needed_annotations, merge}

-- The value under the patch, or without one.
abbrev pub over : Option Text → Option Text → Option Text
over none current = current
over (some val) current = some val

pub lookup-merge :
    (j : Text) (patch current : Map Text)
    → HasNodupKeys patch
    → lookup j (merge patch current) ≡ over (lookup j patch) (lookup j current)
unfolding merge lookup
lookup-merge j [] current h = refl
lookup-merge j ((k, v) ∷ patch) current h =
    lookup-merge j patch (insert k v current) h.1 ∙ elim (Bool-cases (text_eq k j)) [
      | inl same ↦
          let gone =
            lookup-Absent j patch (subst (λ i. Absent i patch) ((text_eq_iff _ _).0 same) h.0) in
          rw (gone, same, lookup-insert k j v current) (rw same)
      | inr ne ↦ rw (ne, lookup-insert k j v current) (rw ne)
    ]

-- The values after a patch that is under construction.
abbrev after_patching : Map Text → Map Text → Text → Option Text
after_patching annotations current j = over (lookup j annotations) (lookup j current)

differs-false : (o : Option Text) (val : Text) → differs o val ≡ false → o ≡ some val
differs-false none val e = cc
differs-false (some v) val e = ground (arith, text_eq_iff v val)

module _ (current : Map Text) (key val : Text) where
  add_patch_self :
      (annotations : Map Text)
      → lookup key annotations ≡ none
      → after_patching (add_patch_if_needed annotations current key val) current key ≡ some val
  unfolding add_patch_if_needed
  add_patch_self annotations e = elim (Bool-cases (differs (lookup key current) val)) [
    | inl d ↦ rw (d, lookup-insert key key val annotations, text_eq_refl key)
    | inr d ↦ rw (d, e) (differs-false _ _ d)
  ]

  pub add_patch_other :
      (annotations : Map Text) (j : Text)
      → text_eq key j ≡ false
      → lookup j (add_patch_if_needed annotations current key val) ≡ lookup j annotations
  unfolding add_patch_if_needed
  add_patch_other annotations j ne = elim (Bool-cases (differs (lookup key current) val)) [
    | inl d ↦ rw (d, lookup-insert key j val annotations, ne)
    | inr d ↦ rw d
  ]

  add_patch-HasNodupKeys :
      (annotations : Map Text)
      → HasNodupKeys annotations
      → HasNodupKeys (add_patch_if_needed annotations current key val)
  unfolding add_patch_if_needed
  add_patch-HasNodupKeys annotations h = elim (Bool-cases (differs (lookup key current) val)) [
    | inl d ↦ rw d (insert-HasNodupKeys key val annotations h)
    | inr d ↦ rw d h
  ]

-- The four annotations.
pub record Holds (m : Map Text) (c : Text) (cs : List Text) (g : Text) (gs : List Text)
    : Type 0 where
  pub change_revision : lookup change_revision_ann m ≡ some c
  pub change_revisions : lookup change_revisions_ann m ≡ some (marshal cs)
  pub git_revision : lookup git_revision_ann m ≡ some g
  pub git_revisions : lookup git_revisions_ann m ≡ some (marshal gs)

module _ (current : Map Text) (c : Text) (cs : List Text) (g : Text) (gs : List Text) where
  abbrev one : Map Text
  one = add_patch_if_needed [] current change_revision_ann c

  abbrev two : Map Text
  two = add_patch_if_needed one current change_revisions_ann (marshal cs)

  abbrev three : Map Text
  three = add_patch_if_needed two current git_revision_ann g

  abbrev four : Map Text
  four = needed_annotations current c cs g gs

  pub four-HasNodupKeys : HasNodupKeys four
  unfolding needed_annotations
  four-HasNodupKeys = add_patch-HasNodupKeys current git_revisions_ann (marshal gs) three (
      add_patch-HasNodupKeys current git_revision_ann g two (
        add_patch-HasNodupKeys current change_revisions_ann (marshal cs) one
          (add_patch-HasNodupKeys current change_revision_ann c [] tt)))

  merged : (j : Text) → lookup j (merge four current) ≡ after_patching four current j
  merged j = lookup-merge j four current four-HasNodupKeys

  -- Whatever annotations an application has, once the patch for some revisions is merged into them
  -- they hold these revisions, those of all sources as a JSON array.
  pub merge-Holds : Holds (merge four current) c cs g gs
  unfolding needed_annotations text_eq lookup
  merge-Holds =
      let other4 = add_patch_other current git_revisions_ann (marshal gs) three in
      let other3 = add_patch_other current git_revision_ann g two in
      let other2 = add_patch_other current change_revisions_ann (marshal cs) one in
      let other1 = add_patch_other current change_revision_ann c [] in
      record {
        change_revision =
            merged change_revision_ann
            ∙ rw
                (
                  other4 change_revision_ann refl,
                  other3 change_revision_ann refl,
                  other2 change_revision_ann refl,
                )
                (add_patch_self current change_revision_ann c [] refl);
        change_revisions =
            merged change_revisions_ann
            ∙ rw (other4 change_revisions_ann refl, other3 change_revisions_ann refl)
                (add_patch_self current change_revisions_ann (marshal cs) one
                  (other1 change_revisions_ann refl));
        git_revision =
            merged git_revision_ann
            ∙ rw (other4 git_revision_ann refl) (
                add_patch_self current git_revision_ann g two
                  (other2 git_revision_ann refl ∙ other1 git_revision_ann refl));
        git_revisions =
            merged git_revisions_ann
            ∙ add_patch_self current git_revisions_ann (marshal gs) three (
                other3 git_revisions_ann refl
                ∙ other2 git_revisions_ann refl
                ∙ other1 git_revisions_ann refl);
      }
