-- ===== src/Controller/Workers/Progress/Quiet.antt =====
-- What the other goroutines do to the queue while the dispatcher sleeps.
use argocd_monorepo_controll.Base.{
  ℕ, ◌-◌, ◌≡◌, refl, ap, ◌∙◌, ◌⊎◌, inl, inr, Text, Option, none, some, has, lookup, delete,
  Bool-cases, Option-cases,
}
use argocd_monorepo_controll.App.{Application}
use argocd_monorepo_controll.Controller.Queue.{
  KeyedAppQueue, AppQueueItem, app_key, report_queue_length, signal, place, enqueue_locked, requeue,
  done,
}

-- What the other goroutines do to the queue: nothing to its elements, or a signal.
abbrev pub Calm : KeyedAppQueue → KeyedAppQueue → Type 0
Calm q r =
    ((r.not_empty ≡ q.not_empty) × (r.items.cells ≡ q.items.cells))
    ⊎ (r.not_empty ≡ q.not_empty - 1)

pub report-Calm :
    (q : KeyedAppQueue)
    → ((report_queue_length q).not_empty ≡ q.not_empty)
      × ((report_queue_length q).items.cells ≡ q.items.cells)
unfolding report_queue_length
report-Calm q = elim (Option-cases q.length_gauge) [
  | inl e ↦ rw (report_queue_length, e) (refl, refl)
  | inr (g, e) ↦ rw (report_queue_length, e) (refl, refl)
]

not_empty-place :
    (item : AppQueueItem) (o : Option ℕ) (q : KeyedAppQueue)
    → (place item o q).not_empty ≡ q.not_empty
unfolding place
not_empty-place item none q = refl
not_empty-place item (some elem) q = refl

pub enqueue_locked-Calm : (app : Application) (q : KeyedAppQueue) → Calm q (enqueue_locked app q)
unfolding enqueue_locked signal
enqueue_locked-Calm app q = elim (Bool-cases (has (app_key app) q.processing)) [
  | inl e ↦ rw e (inl (report-Calm _))
  | inr e ↦ rw e (
      inr (
        (report-Calm _).0
        ∙ ap (λ n. n - 1)
            (not_empty-place (record { key = app_key app; value = app })
              (lookup (app_key app) q.key_map) q)))
]

requeue-Calm : (key : Text) (o : Option Application) (q : KeyedAppQueue) → Calm q (requeue key o q)
unfolding requeue
requeue-Calm key none q = inl (refl, refl)
requeue-Calm key (some app) q =
    enqueue_locked-Calm app (record q { pending = delete key q.pending })

pub done-Calm : (key : Text) (q : KeyedAppQueue) → Calm q (done key q)
unfolding done
done-Calm key q = elim (Bool-cases (has key q.processing)) [
  | inl e ↦
      rw e (
        requeue-Calm key (lookup key q.pending) (record q { processing = delete key q.processing }))
  | inr e ↦ rw e (inl (refl, refl))
]
