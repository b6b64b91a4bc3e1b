-- ===== src/Controller/Queue/View/Done.antt =====
-- Done on the abstract queue.
use argocd_monorepo_controll.Base.{
  ◌≡◌, refl, sym, ap, subst, ◌∙◌, inl, inr, Text, lookup, delete, has, lookup-delete, text_eq,
  text_eq_iff, text_eq_refl, true, false, List, [], ◌∷◌, ◌++◌, Option, none, some, Bool-cases,
  Option-cases, fun_ext,
}
use argocd_monorepo_controll.App.{Application}
use argocd_monorepo_controll.Controller.Queue.{KeyedAppQueue, app_key, requeue, done}
use argocd_monorepo_controll.Controller.Queue.Invariant.{IsValid, lookup-IsKeyedEntry, queued}
use argocd_monorepo_controll.Controller.Queue.Invariant.Done.{
  delete_of_lookup-none, release-IsValid,
}
use argocd_monorepo_controll.Controller.Queue.View.{
  KeyState, idle, waiting, state_of, key_state, keys, view, update, enqueued, after_done, finished,
  view_path,
}
use argocd_monorepo_controll.Controller.Queue.View.Enqueue.{enqueue_locked-view}

-- `Done` of a key.
module _ (key : Text) (q : KeyedAppQueue) (v : IsValid q) where
  released : KeyedAppQueue
  released = record q { processing = delete key q.processing; pending = delete key q.pending }

  released_state :
      (k : Text)
      → has key q.processing ≡ true
      → key_state released k ≡ update key idle (key_state q) k
  unfolding released
  released_state k busy = elim (Bool-cases (text_eq key k)) [
    | inl same ↦
        rw (lookup-delete key k q.processing, lookup-delete key k q.pending, same)
          (rw (v.apart k (subst (λ j. has j q.processing ≡ true) ((text_eq_iff _ _).0 same) busy)))
    | inr ne ↦ rw (lookup-delete key k q.processing, lookup-delete key k q.pending, ne)
  ]

  released-view :
      has key q.processing ≡ true
      → view released ≡ record { order = keys (queued q); state = update key idle (key_state q) }
  unfolding released
  released-view busy = view_path refl (λ k. released_state k busy)

-- Twice updated, the later update counts.
update_twice :
    (k : Text) (s t : KeyState) (f : Text → KeyState) → update k t (update k s f) ≡ update k t f
update_twice k s t f =
    fun_ext (λ j. elim (Bool-cases (text_eq k j)) [ inl same ↦ rw same | inr ne ↦ rw ne ])

enqueued_released :
    (key : Text) (app : Application) (order : List Text) (f : Text → KeyState)
    → key ≡ app_key app
    → enqueued app (record { order = order; state = update key idle f })
      ≡ record { order = order ++ key ∷ []; state = update key (waiting app) f }
enqueued_released key app order f e =
    rw (← e, text_eq_refl key)
      (λ i. record { order = order ++ key ∷ []; state = update_twice key idle (waiting app) f i })

done_idle : (key : Text) (q : KeyedAppQueue) → has key q.processing ≡ false → done key q ≡ q
unfolding done
done_idle key q e = rw e

done_busy :
    (key : Text) (q : KeyedAppQueue)
    → has key q.processing ≡ true
    → done key q
      ≡ requeue key (lookup key q.pending) (record q { processing = delete key q.processing })
unfolding done
done_busy key q e = rw e

finished_idle :
    (key : Text) (q : KeyedAppQueue) → has key q.processing ≡ false → finished key (view q) ≡ view q
finished_idle key q e =
    rw e (elim (Option-cases (lookup key (queued q))) [ inl f ↦ rw f | inr (w, f) ↦ rw f ])

requeue-view :
    (key : Text) (o : Option Application) (q : KeyedAppQueue)
    → IsValid q
    → has key q.processing ≡ true
    → lookup key q.pending ≡ o
    → view (requeue key o (record q { processing = delete key q.processing }))
      ≡ after_done key (state_of true o none) (view q)
unfolding requeue released
requeue-view key none q v busy e =
    ap (λ m. view (record q { processing = delete key q.processing; pending = m }))
      (sym (delete_of_lookup-none key q.pending e))
    ∙ released-view key q v busy
requeue-view key (some app) q v busy e =
    enqueue_locked-view app (released key q v) (release-IsValid key q v)
    ∙ ap (enqueued app) (released-view key q v busy)
    ∙ enqueued_released key app (keys (queued q)) (key_state q)
        (lookup-IsKeyedEntry key app q.pending v.keyed_pending e)

finished_busy :
    (key : Text) (q : KeyedAppQueue)
    → has key q.processing ≡ true
    → finished key (view q) ≡ after_done key (state_of true (lookup key q.pending) none) (view q)
finished_busy key q e = elim (Option-cases (lookup key q.pending)) [
  | inl f ↦ rw (e, f)
  | inr (w, f) ↦ rw (e, f)
]

-- Done of a key that is being processed makes it idle, or, if a newer version was set aside, puts
-- that version behind the waiting keys. Done of any other key changes nothing.
pub done-view :
    (key : Text) (q : KeyedAppQueue) → IsValid q → view (done key q) ≡ finished key (view q)
done-view key q v = elim (Bool-cases (has key q.processing)) [
  | inl busy ↦
      ap view (done_busy key q busy)
      ∙ requeue-view key (lookup key q.pending) q v busy refl
      ∙ sym (finished_busy key q busy)
  | inr not_busy ↦ ap view (done_idle key q not_busy) ∙ sym (finished_idle key q not_busy)
]
