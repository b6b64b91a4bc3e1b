-- ===== src/Service/Retry.antt =====
-- What a failed calculation leaves behind.
use argocd_monorepo_controll.Base.{◌≡◌, text_eq, text_eq_refl, false, Bool-cases, inl, inr}
use argocd_monorepo_controll.App.{Application}
use argocd_monorepo_controll.Service.Revisions.{SourceRevisions, is_empty}
use argocd_monorepo_controll.Service.Reconcile.{
  Services, ok, err, failure, is_timeout, after_calculation, calculate_change_revision, revise,
}
use argocd_monorepo_controll.Service.Converge.{rebase}

-- A git source at a new revision that already has a change revision.
pub record IsOutdated (r : SourceRevisions) : Type 0 where
  pub plain : r.is_helm_repo ≡ false
  pub busy : is_empty r.current_revision ≡ false
  pub full : is_empty r.change_revision ≡ false
  pub moved : text_eq r.git_revision r.current_revision ≡ false

module _ (services : Services) (app : Application) (r : SourceRevisions) (o : IsOutdated r) where
  failed_round :
      calculate_change_revision services app r.current_revision r.previous_revision r.repo_url
          r.path
        ≡ err failure
      → revise services app r ≡ ok (r.change_revision, r.current_revision)
  unfolding revise after_calculation is_timeout
  failed_round e = elim (Bool-cases (is_empty r.git_revision)) [
    | inl g ↦ rw (o.busy, o.plain, o.moved, e, g)
    | inr g ↦ rw (o.busy, o.plain, o.moved, e, g)
  ]

  next_round :
      (later : Services) (app2 : Application)
      → revise later app2 (rebase (r.change_revision, r.current_revision) r)
        ≡ ok (r.change_revision, r.current_revision)
  unfolding revise
  next_round later app2 = rw (o.busy, o.plain, text_eq_refl r.current_revision, o.full)

-- When the calculation for an outdated source fails, other than by a timeout, its old change
-- revision stays and the current revision is recorded as its git revision; with these two, the
-- next round keeps the old change revision whatever the services would then answer.
pub failure_not_retried :
    (services later : Services) (app app2 : Application) (r : SourceRevisions)
    → IsOutdated r
    → calculate_change_revision services app r.current_revision r.previous_revision r.repo_url
        r.path
      ≡ err failure
    → (revise services app r ≡ ok (r.change_revision, r.current_revision))
      × (revise later app2 (rebase (r.change_revision, r.current_revision) r)
          ≡ ok (r.change_revision, r.current_revision))
failure_not_retried services later app app2 r o e =
    (failed_round services app r o e, next_round services app r o later app2)
