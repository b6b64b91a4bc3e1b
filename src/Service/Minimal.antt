-- ===== src/Service/Minimal.antt =====
-- The entries of the patch.
use argocd_monorepo_controll.Base.{
  ◌≡◌, ◌≢◌, refl, ap, ◌∙◌, false, lookup-insert_self, inl, inr, Text, text_eq, text_eq_iff, Map,
  lookup, lookup-insert, true, List, [], Option, none, some, Bool-cases,
}
use argocd_monorepo_controll.Json.Arrays.{marshal}
use argocd_monorepo_controll.Service.Revisions.{
  change_revision_ann, change_revisions_ann, git_revision_ann, git_revisions_ann,
}
use argocd_monorepo_controll.Service.Annotations.{add_patch_other}
use argocd_monorepo_controll.Service.Patch.{differs, add_patch_if_needed, needed_annotations}

-- No entry is one that the annotations have already.
abbrev pub IsMinimal : Map Text → Map Text → Type 0
IsMinimal current annotations =
    (j val : Text) → lookup j annotations ≡ some val → lookup j current ≢ some val

differs_ne : (o : Option Text) (val : Text) → differs o val ≡ true → o ≢ some val
differs_ne none val d e = cc
differs_ne (some a) val d e =
    let same : a ≡ val = cc in (let f = rw ((text_eq_iff a val).1 same) at d in cc)

nothing-IsMinimal : (current : Map Text) → IsMinimal current []
unfolding lookup
nothing-IsMinimal current j val e = cc

add_patch-IsMinimal :
    (current annotations : Map Text) (key val : Text)
    → IsMinimal current annotations
    → IsMinimal current (add_patch_if_needed annotations current key val)
unfolding add_patch_if_needed
add_patch-IsMinimal current annotations key val h j v e =
    elim (Bool-cases (differs (lookup key current) val)) [
      | inl d ↦
          let f = rw (d, lookup-insert key j val annotations) at e in
          elim (Bool-cases (text_eq key j)) [
            | inl same ↦
                let g = rw same at f in
                let key_eq : key ≡ j = (text_eq_iff key j).0 same in
                let val_eq : val ≡ v = cc in
                rw (← key_eq, ← val_eq) (differs_ne (lookup key current) val d)
            | inr ne ↦ h j v (rw ne at f)
          ]
      | inr d ↦ h j v (rw d at e)
    ]

-- A value that the annotations do not have already is in the patch.
abbrev Asked : Map Text → Map Text → Text → Text → Type 0
Asked current annotations key val =
    lookup key current ≢ some val → lookup key annotations ≡ some val

pub record IsComplete (current annotations : Map Text) (c : Text) (cs : List Text) (g : Text)
    (gs : List Text) : Type 0 where
  pub change_revision : Asked current annotations change_revision_ann c
  pub change_revisions : Asked current annotations change_revisions_ann (marshal cs)
  pub git_revision : Asked current annotations git_revision_ann g
  pub git_revisions : Asked current annotations git_revisions_ann (marshal gs)

same_differs : (o : Option Text) (val : Text) → o ≢ some val → differs o val ≡ true
same_differs none val ne = refl
same_differs (some a) val ne = elim (Bool-cases (text_eq a val)) [
  | inl b ↦ absurd (ne (ap some ((text_eq_iff a val).0 b)))
  | inr b ↦ rw b
]

add_patch-asked :
    (current annotations : Map Text) (key val : Text)
    → Asked current (add_patch_if_needed annotations current key val) key val
unfolding add_patch_if_needed
add_patch-asked current annotations key val ne =
    rw (same_differs (lookup key current) val ne) (lookup-insert_self key val annotations)

needed_annotations-IsComplete :
    (current : Map Text) (c : Text) (cs : List Text) (g : Text) (gs : List Text)
    → IsComplete current (needed_annotations current c cs g gs) c cs g gs
unfolding needed_annotations text_eq
needed_annotations-IsComplete current c cs g gs =
    let one = add_patch_if_needed [] current change_revision_ann c in
    let two = add_patch_if_needed one current change_revisions_ann (marshal cs) in
    let three = add_patch_if_needed two current git_revision_ann g in
    let past_last : (j : Text)
        → text_eq git_revisions_ann j ≡ false
        → lookup j (add_patch_if_needed three current git_revisions_ann (marshal gs))
          ≡ lookup j three =
      (λ j ne. add_patch_other current git_revisions_ann (marshal gs) three j ne) in
    let past_third : (j : Text)
        → text_eq git_revision_ann j ≡ false
        → lookup j three ≡ lookup j two =
      (λ j ne. add_patch_other current git_revision_ann g two j ne) in
    record {
      change_revision = λ ne.
          past_last change_revision_ann refl
          ∙ past_third change_revision_ann refl
          ∙ add_patch_other current change_revisions_ann (marshal cs) one change_revision_ann refl
          ∙ add_patch-asked current [] change_revision_ann c ne;
      change_revisions = λ ne.
          past_last change_revisions_ann refl
          ∙ past_third change_revisions_ann refl
          ∙ add_patch-asked current one change_revisions_ann (marshal cs) ne;
      git_revision =
          λ ne. past_last git_revision_ann refl ∙ add_patch-asked current two git_revision_ann g ne;
      git_revisions = λ ne. add_patch-asked current three git_revisions_ann (marshal gs) ne;
    }

needed_annotations-IsMinimal :
    (current : Map Text) (c : Text) (cs : List Text) (g : Text) (gs : List Text)
    → IsMinimal current (needed_annotations current c cs g gs)
unfolding needed_annotations
needed_annotations-IsMinimal current c cs g gs =
    add_patch-IsMinimal current _ git_revisions_ann (marshal gs) (
      add_patch-IsMinimal current _ git_revision_ann g (
        add_patch-IsMinimal current _ change_revisions_ann (marshal cs)
          (add_patch-IsMinimal current [] change_revision_ann c (nothing-IsMinimal current))))

-- The patch has what is missing and nothing that is there, for whatever annotations and revisions:
-- none of its entries is one that the application has already with this value, and each of the four annotations that
-- the application does not have with the new value is in the patch with this value.
pub needed_annotations-exact :
    (current : Map Text) (c : Text) (cs : List Text) (g : Text) (gs : List Text)
    → IsMinimal current (needed_annotations current c cs g gs)
      × IsComplete current (needed_annotations current c cs g gs) c cs g gs
needed_annotations-exact current c cs g gs = (
  needed_annotations-IsMinimal current c cs g gs,
  needed_annotations-IsComplete current c cs g gs,
)
