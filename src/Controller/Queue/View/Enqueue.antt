-- ===== src/Controller/Queue/View/Enqueue.antt =====
-- Enqueue on the abstract queue.
use argocd_monorepo_controll.Base.{
  ◌≡◌, refl, ap, subst, ◌∙◌, inl, inr, Text, lookup, insert, has, lookup-insert, lookup-insert_self,
  text_eq, text_eq_iff, true, false, Bool-cases, Option-cases,
}
use argocd_monorepo_controll.App.{Application}
use argocd_monorepo_controll.Controller.Queue.{
  AppQueueItem, KeyedAppQueue, app_key, report_queue_length, signal, place, enqueue_locked, enqueue,
}
use argocd_monorepo_controll.Controller.Queue.Invariant.{IsValid, queued}
use argocd_monorepo_controll.Controller.Queue.Invariant.Enqueue.{Places, place-Places}
use argocd_monorepo_controll.Controller.Queue.View.{
  key_state, keys, view, on_update, enqueued, keys-insert-none, keys-insert-some,
  view-report_queue_length, view_path,
}

-- The version of a key that is not being processed is written to the queue.
module _ (app : Application) (q r : KeyedAppQueue)
    (idle_key : has (app_key app) q.processing ≡ false)
    (p : Places (record { key = app_key app; value = app }) q r) where
  placed_self : key_state r (app_key app) ≡ on_update app (key_state q (app_key app))
  placed_self =
      rw
        (
          p.processing_eq,
          p.pending_eq,
          p.queued_eq,
          lookup-insert_self (app_key app) app (queued q),
          idle_key,
        )
        (elim (Option-cases (lookup (app_key app) (queued q))) [ inl e ↦ rw e | inr (w, e) ↦ rw e ])

  placed_state : (k : Text) → key_state r k ≡ (enqueued app (view q)).state k
  placed_state k = elim (Bool-cases (text_eq (app_key app) k)) [
    | inl same ↦ rw same (
        subst (λ j. key_state r j ≡ on_update app (key_state q (app_key app)))
          ((text_eq_iff _ _).0 same) placed_self)
    | inr ne ↦
        rw
          (
            ne,
            p.processing_eq,
            p.pending_eq,
            p.queued_eq,
            lookup-insert (app_key app) k app (queued q),
          )
          (rw ne)
  ]

  placed_order : keys (queued r) ≡ (enqueued app (view q)).order
  placed_order = elim (Option-cases (lookup (app_key app) (queued q))) [
    | inl e ↦ rw (p.queued_eq, idle_key, e) (keys-insert-none (app_key app) app (queued q) e)
    | inr (w, e) ↦ rw (p.queued_eq, idle_key, e) (keys-insert-some (app_key app) app w (queued q) e)
  ]

-- A version of a key that is being processed is put aside.
module _ (app : Application) (q : KeyedAppQueue)
    (busy : has (app_key app) q.processing ≡ true) where
  set_aside : KeyedAppQueue
  set_aside = record q { pending = insert (app_key app) app q.pending }

  set_aside_self : key_state set_aside (app_key app) ≡ on_update app (key_state q (app_key app))
  unfolding set_aside
  set_aside_self =
      rw (lookup-insert_self (app_key app) app q.pending, busy)
        (elim (Option-cases (lookup (app_key app) q.pending)) [ inl e ↦ rw e | inr (w, e) ↦ rw e ])

  set_aside-view : view set_aside ≡ enqueued app (view q)
  unfolding set_aside
  set_aside-view =
      view_path
        (rw busy (elim (Option-cases (lookup (app_key app) q.pending)) [
          | inl e ↦ rw e
          | inr (w, e) ↦ rw e
        ]))
        λ k. elim (Bool-cases (text_eq (app_key app) k)) [
          | inl same ↦ rw same (
              subst (λ j. key_state set_aside j ≡ on_update app (key_state q (app_key app)))
                ((text_eq_iff _ _).0 same) set_aside_self)
          | inr ne ↦ rw (ne, lookup-insert (app_key app) k app q.pending) (rw ne)
        ]

enqueue_locked_busy :
    (app : Application) (q : KeyedAppQueue) (busy : has (app_key app) q.processing ≡ true)
    → enqueue_locked app q ≡ report_queue_length (set_aside app q busy)
unfolding enqueue_locked set_aside
enqueue_locked_busy app q busy = rw busy

enqueue_locked_idle :
    (app : Application) (q : KeyedAppQueue)
    → has (app_key app) q.processing ≡ false
    → let item : AppQueueItem = record { key = app_key app; value = app } in
      enqueue_locked app q
      ≡ report_queue_length (signal (place item (lookup (app_key app) q.key_map) q))
unfolding enqueue_locked
enqueue_locked_idle app q idle_key = rw idle_key

view-signal : (q : KeyedAppQueue) → view (signal q) ≡ view q
unfolding signal
view-signal q = refl

pub enqueue_locked-view :
    (app : Application) (q : KeyedAppQueue)
    → IsValid q
    → view (enqueue_locked app q) ≡ enqueued app (view q)
enqueue_locked-view app q v = elim (Bool-cases (has (app_key app) q.processing)) [
  | inl busy ↦
      ap view (enqueue_locked_busy app q busy)
      ∙ view-report_queue_length _
      ∙ set_aside-view app q busy
  | inr idle_key ↦
      let p = place-Places (record { key = app_key app; value = app }) q _ v refl refl in
      ap view (enqueue_locked_idle app q idle_key)
      ∙ view-report_queue_length _
      ∙ view-signal _
      ∙ view_path (placed_order app q _ idle_key p) (placed_state app q _ idle_key p)
]

-- Enqueue updates the application's own key: a new application waits behind the others, a waiting
-- one keeps its place with the new version, and one that is being processed gets the new version
-- set aside. No other key changes.
pub enqueue-view :
    (app : Application) (q : KeyedAppQueue)
    → IsValid q
    → view (enqueue app q) ≡ enqueued app (view q)
unfolding enqueue
enqueue-view app q v = enqueue_locked-view app q v
