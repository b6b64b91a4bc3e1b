-- ===== src/Service/Stable/Patched.antt =====
-- The reconciliation after a patch.
use argocd_monorepo_controll.Base.{
  ◌≡◌, refl, sym, ap, subst, ◌∙◌, inl, inr, Text, text_eq, text_eq_refl, Map, lookup, Bool, true,
  false, not, List, [], ◌∷◌, Option, none, some, Bool-cases, get_or, All, IsUtf8,
}
use argocd_monorepo_controll.App.{
  Application, has_multiple_sources, annotation_key_manifest_generate_paths,
}
use argocd_monorepo_controll.Json.Arrays.{marshal}
use argocd_monorepo_controll.Service.Revisions.{
  change_revision_ann, change_revisions_ann, git_revision_ann, git_revisions_ann, is_empty,
  SourceRevisions, get_sources_revisions,
}
use argocd_monorepo_controll.Service.Patch.{
  add_patch_if_needed, needed_annotations, patch_if_any, make_annotation_patch, merge, patched,
}
use argocd_monorepo_controll.Service.Annotations.{
  Holds, merge-Holds, add_patch_other, lookup-merge, four-HasNodupKeys,
}
use argocd_monorepo_controll.Service.Reconcile.{
  ok, Services, revise_all, has_refresh_paths, returned, up_to_date, make_change_revision_patch,
  after_patch, change_revision,
}
use argocd_monorepo_controll.Service.Converge.{AllSettled}
use argocd_monorepo_controll.Service.Stable.{Again, Again-multi, Again-single}

-- What make_change_revision_patch did with an application.
pub record IsRevised (services : Services) (a : Application) (cs gs : List Text) : Type 0 where
  pub app : Application
  pub got : services.get_application a.namespace a.name ≡ ok app
  pub sources : List SourceRevisions
  pub with_paths : has_refresh_paths a ≡ true
  pub sources_eq : get_sources_revisions a ≡ some sources
  pub revised : revise_all services app sources ≡ ok (cs, gs)
  pub settled : AllSettled sources cs
  -- The API server and gRPC pass on no other texts; only the arrays of many sources are JSON here.
  pub texts : has_multiple_sources a.spec ≡ true → All IsUtf8 cs × All IsUtf8 gs

abbrev pub patch_of : Application → List Text → List Text → Map Text
patch_of a cs gs = needed_annotations a.annotations (get_or cs 0 []) cs (get_or gs 0 []) gs

module _ (a : Application) (cs gs : List Text) where
  patched-Holds :
      Holds (merge (patch_of a cs gs) a.annotations) (get_or cs 0 []) cs (get_or gs 0 []) gs
  patched-Holds = merge-Holds a.annotations (get_or cs 0 []) cs (get_or gs 0 []) gs

  patched-paths :
      lookup annotation_key_manifest_generate_paths (merge (patch_of a cs gs) a.annotations)
      ≡ lookup annotation_key_manifest_generate_paths a.annotations
  unfolding needed_annotations text_eq lookup
  patched-paths =
      let other : (key val : Text) (annotations : Map Text)
          → text_eq key annotation_key_manifest_generate_paths ≡ false
          → lookup annotation_key_manifest_generate_paths
              (add_patch_if_needed annotations a.annotations key val)
            ≡ lookup annotation_key_manifest_generate_paths annotations =
        (λ key val annotations ne.
          add_patch_other a.annotations key val annotations annotation_key_manifest_generate_paths
            ne) in
      lookup-merge annotation_key_manifest_generate_paths (patch_of a cs gs) a.annotations
        (four-HasNodupKeys a.annotations (get_or cs 0 []) cs (get_or gs 0 []) gs)
      ∙ rw (
        other git_revisions_ann (marshal gs) _ refl,
        other git_revision_ann (get_or gs 0 []) _ refl,
        other change_revisions_ann (marshal cs) _ refl,
        other change_revision_ann (get_or cs 0 []) _ refl,
      )

-- Annotations that hold the values need no patch.
nothing_needed :
    (m : Map Text) (c : Text) (cs : List Text) (g : Text) (gs : List Text)
    → Holds m c cs g gs
    → needed_annotations m c cs g gs ≡ []
unfolding needed_annotations add_patch_if_needed
nothing_needed m c cs g gs h = rw (
  h.change_revision,
  h.change_revisions,
  h.git_revision,
  h.git_revisions,
  text_eq_refl c,
  text_eq_refl (marshal cs),
  text_eq_refl g,
  text_eq_refl (marshal gs),
)

abbrev paths_given : Option Text → Bool
paths_given none = false
paths_given (some val) = not (is_empty val)

module _ (services later : Services) (a app2 : Application) (cs gs : List Text) where
  again :
      (v : IsRevised services a cs gs)
      → Again services later v.app app2 a (merge (patch_of a cs gs) a.annotations) cs gs
  again v =
      let m = merge (patch_of a cs gs) a.annotations in
      let h = patched-Holds a cs gs in
      elim (Bool-cases (has_multiple_sources a.spec)) [
        | inl multi ↦
            Again-multi services later v.app app2 a m v.sources cs gs multi v.sources_eq v.revised
              v.settled (v.texts multi) h
        | inr single ↦
            Again-single services later v.app app2 a m v.sources cs gs single v.sources_eq v.revised
              v.settled h
      ]

  needed :
      IsRevised services a cs gs
      → make_change_revision_patch services a ≡ ok (patch_if_any (patch_of a cs gs))
  unfolding make_change_revision_patch make_annotation_patch
  needed v = rw (v.got, v.with_paths, v.sources_eq, v.revised)

  patched-has_refresh_paths :
      IsRevised services a cs gs → has_refresh_paths (patched (patch_of a cs gs) a) ≡ true
  unfolding patched
  patched-has_refresh_paths v = ap paths_given (patched-paths a cs gs) ∙ v.with_paths

  make_again :
      IsRevised services a cs gs
      → later.get_application a.namespace a.name ≡ ok app2
      → make_change_revision_patch later (patched (patch_of a cs gs) a) ≡ ok none
  unfolding make_change_revision_patch make_annotation_patch patched
  make_again v got =
      let x = again v in
      let none_needed =
        nothing_needed (merge (patch_of a cs gs) a.annotations) (get_or cs 0 []) cs (get_or gs 0 [])
          gs (patched-Holds a cs gs) in
      let with_paths : has_refresh_paths (patched (patch_of a cs gs) a) ≡ true =
        patched-has_refresh_paths v in
      rw (got, with_paths, x.found, x.revised, none_needed)

some_of :
    (annotations patch : Map Text) → patch_if_any annotations ≡ some patch → annotations ≡ patch
some_of [] patch e = cc
some_of (p ∷ annotations) patch e = cc

up_to_date_of :
    (later : Services) (a : Application)
    → make_change_revision_patch later a ≡ ok none
    → change_revision later a ≡ returned up_to_date none
unfolding change_revision
up_to_date_of later a e = rw (after_patch, e)

-- Let a reconciliation of an application with refresh paths produce a patch, where no source is of
-- a helm repository, every source that has a current revision has a change revision after it, and
-- the revisions of many sources are valid UTF-8.
-- Then a reconciliation of the patched application is up to date, whatever the repository server
-- answers, as long as the application can be read.
pub reconciled_again :
    (services later : Services) (a app2 : Application) (cs gs : List Text) (patch : Map Text)
    → IsRevised services a cs gs
    → make_change_revision_patch services a ≡ ok (some patch)
    → later.get_application a.namespace a.name ≡ ok app2
    → change_revision later (patched patch a) ≡ returned up_to_date none
reconciled_again services later a app2 cs gs patch v e got =
    let h : ok (patch_if_any (patch_of a cs gs)) ≡ ok (some patch) =
      sym (needed services later a app2 cs gs v) ∙ e in
    let same : patch_of a cs gs ≡ patch = some_of (patch_of a cs gs) patch (cc) in
    up_to_date_of later (patched patch a) (
      subst (λ p. make_change_revision_patch later (patched p a) ≡ ok none) same
        (make_again services later a app2 cs gs v got))
