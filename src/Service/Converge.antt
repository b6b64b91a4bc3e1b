-- ===== src/Service/Converge.antt =====
-- A second reconciliation after the annotations are patched.
use argocd_monorepo_controll.Base.{
  ℕ, suc, ◌≡◌, refl, sym, subst, ◌⊎◌, inl, inr, Text, text_eq, text_eq_refl, Map, Bool, false, not,
  ◌&&◌, List, [], ◌∷◌, ◌++◌, arith, Bool-cases, get_or, length, get_or-append, length-append,
  append_assoc,
}
use argocd_monorepo_controll.App.{Application, ApplicationSource}
use argocd_monorepo_controll.Service.Revisions.{
  is_empty, slice_get_string, get_revisions_multi_source, is_helm_repo, SourceRevisions,
  multi_source, multi_sources,
}
use argocd_monorepo_controll.Service.Reconcile.{
  Result, ok, err, panicked, ◌>>=◌, revise_all, Services, Revised, revise, after_calculation,
}

-- The source with the change and git revisions that the loop gave it.
abbrev pub rebase : Revised → SourceRevisions → SourceRevisions
rebase (c, g) r = record r { change_revision = c; git_revision = g }

-- A source that is not of a helm repository, and that has a change revision after the loop if it
-- has a current revision.
abbrev pub Settled : SourceRevisions → Text → Type 0
Settled r c = (r.is_helm_repo ≡ false) × ((r.current_revision ≡ []) ⊎ (is_empty c ≡ false))

-- What the loop records as git revision.
after_calculation_git :
    (services : Services) (r : SourceRevisions) (x : Result Text) (v : Revised)
    → after_calculation services r x ≡ ok v
    → v.1 ≡ r.current_revision
unfolding after_calculation
after_calculation_git services r panicked v e = cc
after_calculation_git services r (err x) v e = ground arith
after_calculation_git services r (ok x) v e = cc

revise_git :
    (services : Services) (app : Application) (r : SourceRevisions) (v : Revised)
    → revise services app r ≡ ok v
    → r.is_helm_repo ≡ false
    → is_empty r.current_revision ≡ false
    → v.1 ≡ r.current_revision
unfolding revise
revise_git services app r v e plain busy =
    let b : Bool =
      not (is_empty r.git_revision)
      && (text_eq r.git_revision r.current_revision && not (is_empty r.change_revision)) in
    elim (Bool-cases b) [
      | inl same ↦ (let h = rw (busy, plain, same) at e in cc)
      | inr other ↦ (let h = rw (busy, plain, other) at e in after_calculation_git services r _ v h)
    ]

pub revise_again :
    (services later : Services) (app app2 : Application) (r : SourceRevisions) (v : Revised)
    → revise services app r ≡ ok v
    → Settled r v.0
    → revise later app2 (rebase v r) ≡ ok v
unfolding revise
revise_again services later app app2 r v e (plain, settled) =
    elim (Bool-cases (is_empty r.current_revision)) [
      | inl idle ↦ rw idle
      | inr busy ↦ elim settled [
        | inl no_revision ↦ (let h = rw (no_revision, text_eq_refl []) at busy in cc)
        | inr full ↦
            let git = revise_git services app r v e plain busy in
            rw (busy, plain, git, text_eq_refl r.current_revision, busy, full)
      ]
    ]

pub bind_ok :
    {A B : Type 0} (x : Result A) (f : A → Result B) (b : B)
    → (x >>= f) ≡ ok b
    → (a : A) × (x ≡ ok a) × (f a ≡ ok b)
bind_ok (ok a) f b e = (a, refl, e)
bind_ok (err x) f b e = cc
bind_ok panicked f b e = cc

-- A round of the loop and the rounds after it.
pub record Rounds (services : Services) (app : Application) (r : SourceRevisions)
    (rs : List SourceRevisions) (cs gs : List Text) : Type 0 where
  pub first : Revised
  pub cs_rest : List Text
  pub gs_rest : List Text
  pub first_eq : revise services app r ≡ ok first
  pub rest_eq : revise_all services app rs ≡ ok (cs_rest, gs_rest)
  pub cs_eq : cs ≡ first.0 ∷ cs_rest
  pub gs_eq : gs ≡ first.1 ∷ gs_rest

pub revise_all-Rounds :
    (services : Services) (app : Application) (r : SourceRevisions) (rs : List SourceRevisions)
    (cs gs : List Text)
    → revise_all services app (r ∷ rs) ≡ ok (cs, gs)
    → Rounds services app r rs cs gs
unfolding revise_all
revise_all-Rounds services app r rs cs gs e =
    let (v, here, after) = bind_ok (revise services app r) _ (cs, gs) e in
    let (vs, rest, same) = bind_ok (revise_all services app rs) _ (cs, gs) after in
    record {
      first = v;
      cs_rest = vs.0;
      gs_rest = vs.1;
      first_eq = here;
      rest_eq = rest;
      cs_eq = cc;
      gs_eq = cc;
    }

abbrev pub AllSettled : List SourceRevisions → List Text → Type 0
AllSettled [] cs = Unit {0}
AllSettled (r ∷ rs) [] = Unit {0}
AllSettled (r ∷ rs) (c ∷ cs) = Settled r c × AllSettled rs cs

pub revise_all-cons :
    (later : Services) (app : Application) (r : SourceRevisions) (rs : List SourceRevisions)
    (v : Revised) (cs gs : List Text)
    → revise later app r ≡ ok v
    → revise_all later app rs ≡ ok (cs, gs)
    → revise_all later app (r ∷ rs) ≡ ok (v.0 ∷ cs, v.1 ∷ gs)
unfolding revise_all
revise_all-cons later app r rs v cs gs e h = rw (e, h)

module _ (services later : Services) (app app2 a : Application) (m : Map Text)
    (before_cs before_gs : List Text) where
  abbrev changed : Application
  changed = record a { annotations = m }

  git_at :
      (pg gs : List Text) (idx : ℕ) (g : Text) → length pg ≡ idx → get_or (pg ++ g ∷ gs) idx [] ≡ g
  git_at pg gs idx g e = subst (λ i. get_or (pg ++ g ∷ gs) i [] ≡ g) e (get_or-append pg g gs [])

  -- The source at its index, with the new annotations.
  multi_source-rebase :
      (source : ApplicationSource) (pc pg cs gs : List Text) (c g : Text)
      → length pc ≡ length pg
      → multi_source changed (pc ++ c ∷ cs) (pg ++ g ∷ gs) (length pc) source
        ≡ rebase (c, g) (multi_source a before_cs before_gs (length pc) source)
  unfolding slice_get_string get_revisions_multi_source
  multi_source-rebase source pc pg cs gs c g same i = record {
    change_revision = get_or-append pc c cs [] i;
    git_revision = git_at pg gs (length pc) g (sym same) i;
    current_revision = (get_revisions_multi_source a (length pc)).0;
    previous_revision = (get_revisions_multi_source a (length pc)).1;
    repo_url = source.repo_url;
    is_helm_repo = is_helm_repo source;
    path = source.path;
  }

  abbrev AgainIs :
      ApplicationSource
      → List ApplicationSource
      → List Text
      → List Text
      → List Text
      → List Text
      → Type 0
  AgainIs source sources pc pg cs gs =
      revise_all later app2
        (multi_sources changed (pc ++ cs) (pg ++ gs) (length pc) (source ∷ sources))
      ≡ ok (cs, gs)

  round_again :
      (source : ApplicationSource) (sources : List ApplicationSource) (pc pg cs gs : List Text)
      (v : Revised)
      → length pc ≡ length pg
      → revise services app (multi_source a before_cs before_gs (length pc) source) ≡ ok v
      → Settled (multi_source a before_cs before_gs (length pc) source) v.0
      → revise_all later app2 (
          multi_sources changed
            ((pc ++ v.0 ∷ []) ++ cs)
            ((pg ++ v.1 ∷ []) ++ gs)
            (length (pc ++ v.0 ∷ []))
            sources)
        ≡ ok (cs, gs)
      → AgainIs source sources pc pg (v.0 ∷ cs) (v.1 ∷ gs)
  unfolding multi_sources
  round_again source sources pc pg cs gs v same e s h =
      let next : length (pc ++ v.0 ∷ []) ≡ suc (length pc) =
        omega (arith, length-append pc (v.0 ∷ [])) in
      let rest : revise_all later app2
            (multi_sources changed (pc ++ v.0 ∷ cs) (pg ++ v.1 ∷ gs) (suc (length pc)) sources)
          ≡ ok (cs, gs) =
        rw (append_assoc pc (v.0 ∷ []) cs, append_assoc pg (v.1 ∷ []) gs, next) at h in
      rw (multi_source-rebase source pc pg cs gs v.0 v.1 same) (
        revise_all-cons later app2
          (rebase v (multi_source a before_cs before_gs (length pc) source)) _ v cs gs
          (revise_again services later app app2 _ v e s) rest)

  pub none_again :
      (cs gs : List Text)
      → revise_all services app [] ≡ ok (cs, gs)
      → revise_all later app2 [] ≡ ok (cs, gs)
  unfolding revise_all
  none_again cs gs e = e

  pub multi_again :
      (sources : List ApplicationSource) (pc pg cs gs : List Text)
      → length pc ≡ length pg
      → revise_all services app (multi_sources a before_cs before_gs (length pc) sources)
        ≡ ok (cs, gs)
      → AllSettled (multi_sources a before_cs before_gs (length pc) sources) cs
      → revise_all later app2 (multi_sources changed (pc ++ cs) (pg ++ gs) (length pc) sources)
        ≡ ok (cs, gs)
  unfolding multi_sources
  multi_again [] pc pg cs gs same e s = none_again cs gs e
  multi_again (source ∷ sources) pc pg cs gs same e s =
      let r = multi_source a before_cs before_gs (length pc) source in
      let rounds = revise_all-Rounds services app r _ cs gs e in
      let v = rounds.first in
      let settled =
        subst (AllSettled (multi_sources a before_cs before_gs (length pc) (source ∷ sources)))
          rounds.cs_eq s in
      let next : length (pc ++ v.0 ∷ []) ≡ suc (length pc) =
        omega (arith, length-append pc (v.0 ∷ [])) in
      let rest =
        multi_again sources (pc ++ v.0 ∷ []) (pg ++ v.1 ∷ []) rounds.cs_rest rounds.gs_rest
          (omega (arith, same, length-append pc (v.0 ∷ []), length-append pg (v.1 ∷ [])))
          (rw next rounds.rest_eq) (rw next settled.1) in
      subst (AgainIs source sources pc pg cs) (sym rounds.gs_eq) (
        subst (λ x. AgainIs source sources pc pg x (v.1 ∷ rounds.gs_rest)) (sym rounds.cs_eq)
          (round_again source sources pc pg rounds.cs_rest rounds.gs_rest v same rounds.first_eq
            settled.0 rest))
