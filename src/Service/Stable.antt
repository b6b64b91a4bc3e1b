-- ===== src/Service/Stable.antt =====
-- A reconciliation of an application whose annotations were patched.
pub mod Patched
use argocd_monorepo_controll.Base.{
  ◌≡◌, refl, sym, ap, subst, ◌∙◌, inl, inr, Text, text_eq, text_eq_refl, trim_space, Map, lookup,
  Bool, true, false, not, List, [], ◌∷◌, ◌++◌, Option, none, some, Bool-cases, Option-cases, get_or,
  trim_space-bracket, All, IsUtf8,
}
use argocd_monorepo_controll.App.{
  Application, ApplicationSource, has_multiple_sources, annotation_key_manifest_generate_paths,
}
use argocd_monorepo_controll.Json.Arrays.{marshal, marshal_rest}
use argocd_monorepo_controll.Json.Strings.{marshal_string}
use argocd_monorepo_controll.Json.RoundTrip.{unmarshal-marshal}
use argocd_monorepo_controll.Service.Revisions.{
  change_revision_ann, change_revisions_ann, git_revision_ann, git_revisions_ann, is_empty,
  annotation, get_array_from_annotation, SourceRevisions, multi_sources, single_source,
  get_sources_revisions, get_revisions_single_source, is_helm_repo,
}
use argocd_monorepo_controll.Service.Patch.{
  add_patch_if_needed, needed_annotations, patch_if_any, make_annotation_patch, merge, patched,
}
use argocd_monorepo_controll.Service.Annotations.{
  Holds, merge-Holds, add_patch_other, lookup-merge, four-HasNodupKeys,
}
use argocd_monorepo_controll.Service.Reconcile.{
  ok, Services, revise_all, has_refresh_paths, returned, up_to_date, make_change_revision_patch,
  after_patch, change_revision,
}
use argocd_monorepo_controll.Service.Converge.{
  AllSettled, rebase, revise_again, Rounds, revise_all-Rounds, revise_all-cons, multi_again,
  none_again,
}

bracket : (s : Text) (ss : List Text) → is_empty (trim_space (marshal (s ∷ ss))) ≡ false
unfolding marshal
bracket s ss = trim_space-bracket (marshal_string s ++ marshal_rest ss)

-- An annotation that holds a slice of strings of valid UTF-8 as the patch writes it is read back as
-- the slice, whatever runes the strings hold.
pub get_array_from_annotation-marshal :
    (a : Application) (key : Text) (ss : List Text)
    → All IsUtf8 ss
    → lookup key a.annotations ≡ some (marshal ss)
    → get_array_from_annotation a key ≡ ss
unfolding get_array_from_annotation
get_array_from_annotation-marshal a key [] u e =
    rw e (elim (Bool-cases (is_empty (trim_space (marshal [])))) [
      | inl b ↦ rw b
      | inr b ↦ rw b (unmarshal-marshal [] tt)
    ])
get_array_from_annotation-marshal a key (s ∷ ss) u e =
    rw (e, bracket s ss) (unmarshal-marshal (s ∷ ss) u)

annotation_at :
    (a : Application) (key s : Text) → lookup key a.annotations ≡ some s → annotation a key ≡ s
annotation_at a key s e = rw (annotation, e)

module _ (services later : Services) (app app2 a : Application) (m : Map Text) where
  abbrev changed : Application
  changed = record a { annotations = m }

  record Again (cs gs : List Text) : Type 0 where
    sources : List SourceRevisions
    found : get_sources_revisions changed ≡ some sources
    revised : revise_all later app2 sources ≡ ok (cs, gs)

  Again-multi :
      (rs : List SourceRevisions) (cs gs : List Text)
      → has_multiple_sources a.spec ≡ true
      → get_sources_revisions a ≡ some rs
      → revise_all services app rs ≡ ok (cs, gs)
      → AllSettled rs cs
      → All IsUtf8 cs × All IsUtf8 gs
      → Holds m (get_or cs 0 []) cs (get_or gs 0 []) gs
      → Again cs gs
  unfolding get_sources_revisions
  Again-multi rs cs gs multi e r s (us, vs) h =
      let before_cs = get_array_from_annotation a change_revisions_ann in
      let before_gs = get_array_from_annotation a git_revisions_ann in
      let same : multi_sources a before_cs before_gs 0 a.spec.sources ≡ rs =
        (let f = rw multi at e in cc) in
      record {
        sources = multi_sources changed cs gs 0 a.spec.sources;
        found = rw (
          multi,
          get_array_from_annotation-marshal changed change_revisions_ann cs us h.change_revisions,
          get_array_from_annotation-marshal changed git_revisions_ann gs vs h.git_revisions,
        );
        revised =
            multi_again services later app app2 a m before_cs before_gs a.spec.sources [] [] cs gs
              refl (rw same r) (rw same s);
      }

  single_source-rebase :
      (source : ApplicationSource) (c g : Text)
      → lookup change_revision_ann m ≡ some c
      → lookup git_revision_ann m ≡ some g
      → single_source changed source ≡ rebase (c, g) (single_source a source)
  unfolding get_revisions_single_source
  single_source-rebase source c g ec eg i = record {
    change_revision = annotation_at changed change_revision_ann c ec i;
    git_revision = annotation_at changed git_revision_ann g eg i;
    current_revision = (get_revisions_single_source a).0;
    previous_revision = (get_revisions_single_source a).1;
    repo_url = source.repo_url;
    is_helm_repo = is_helm_repo source;
    path = source.path;
  }

  abbrev OneAgain : ApplicationSource → List Text → List Text → Type 0
  OneAgain source cs gs =
      revise_all later app2 (rebase (get_or cs 0 [], get_or gs 0 []) (single_source a source) ∷ [])
      ≡ ok (cs, gs)

  single_round :
      (source : ApplicationSource) (cs gs : List Text)
      → Rounds services app (single_source a source) [] cs gs
      → AllSettled (single_source a source ∷ []) cs
      → Holds m (get_or cs 0 []) cs (get_or gs 0 []) gs
      → (single_source changed source
          ≡ rebase (get_or cs 0 [], get_or gs 0 []) (single_source a source))
        × (revise_all later app2
              (rebase (get_or cs 0 [], get_or gs 0 []) (single_source a source) ∷ [])
            ≡ ok (cs, gs))
  single_round source cs gs rounds s h =
      let v = rounds.first in
      let settled = subst (AllSettled (single_source a source ∷ [])) rounds.cs_eq s in
      let rest =
        none_again services later app app2 a m [] [] rounds.cs_rest rounds.gs_rest rounds.rest_eq in
      let one =
        revise_all-cons later app2 (rebase v (single_source a source)) [] v rounds.cs_rest
          rounds.gs_rest
          (revise_again services later app app2 (single_source a source) v rounds.first_eq
            settled.0)
          rest in
      (
        single_source-rebase source (get_or cs 0 []) (get_or gs 0 []) h.change_revision
            h.git_revision,
        subst (OneAgain source cs) (sym rounds.gs_eq)
            (subst (λ x. OneAgain source x (v.1 ∷ rounds.gs_rest)) (sym rounds.cs_eq) one),
      )

  Again-single :
      (rs : List SourceRevisions) (cs gs : List Text)
      → has_multiple_sources a.spec ≡ false
      → get_sources_revisions a ≡ some rs
      → revise_all services app rs ≡ ok (cs, gs)
      → AllSettled rs cs
      → Holds m (get_or cs 0 []) cs (get_or gs 0 []) gs
      → Again cs gs
  unfolding get_sources_revisions
  Again-single rs cs gs single e r s h = elim (Option-cases a.spec.source) [
    | inl none_given ↦ (let f = rw (single, none_given) at e in cc)
    | inr (source, given) ↦
        let same : single_source a source ∷ [] ≡ rs = (let f = rw (single, given) at e in cc) in
        let rounds = revise_all-Rounds services app (single_source a source) [] cs gs (rw same r) in
        let (sources_eq, revised) = single_round source cs gs rounds (rw same s) h in
        record {
          sources = single_source changed source ∷ [];
          found = rw (single, given);
          revised = rw sources_eq revised;
        }
  ]
