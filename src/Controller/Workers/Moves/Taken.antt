-- ===== src/Controller/Workers/Moves/Taken.antt =====
-- The keys that the dispatcher takes from the queue.
use argocd_monorepo_controll.Base.{
  ◌≡◌, refl, ap, subst, ◌∙◌, inl, inr, text_eq, text_eq_iff, false, List, [], ◌∷◌, arith,
  Bool-cases,
}
use argocd_monorepo_controll.Controller.Queue.{
  KeyedAppQueue, AppQueueItem, dequeue_wait, Waited, cancelled, blocked, dequeued,
}
use argocd_monorepo_controll.Controller.Queue.View.{
  KeyState, key_state, idle, waiting, running, stale, update,
}
use argocd_monorepo_controll.Controller.Queue.View.Dequeue.{dequeue_wait-Dequeues, Dequeues}
use argocd_monorepo_controll.Controller.Workers.{
  WorkerPool, sending, after_wait, call_dequeue, Label, internal,
}
use argocd_monorepo_controll.Controller.Workers.Flights.{bit, held, flights, is_active}
use argocd_monorepo_controll.Controller.Workers.Exclusive.{IsExclusive}
use argocd_monorepo_controll.Controller.Workers.Account.{
  latest, last_handled, Accounted, IsKept, vacuous, vacuous_work, moved-IsKept,
}

dequeued-IsKept :
    (p : WorkerPool) (q : KeyedAppQueue) (item : AppQueueItem) (ls : List Label)
    → held p.dispatcher ≡ []
    → IsExclusive p
    → key_state p.queue item.key ≡ waiting item.value
    → key_state q ≡ update item.key running (key_state p.queue)
    → IsKept ls p
    → IsKept (internal ∷ ls) (record p { queue = q; dispatcher = sending item })
unfolding latest last_handled
dequeued-IsKept p q item ls e x was now h k v l =
    rw (ap (λ f. f k) now) (elim (Bool-cases (text_eq item.key k)) [
      | inl same ↦
          let at_key : key_state p.queue k ≡ waiting item.value =
            subst (λ j. key_state p.queue j ≡ waiting item.value) ((text_eq_iff _ _).0 same) was in
          let value : item.value ≡ v = subst (Accounted ls p k v) at_key (h k v l) in
          let zero_flights : flights k p ≡ 0 = x.counted k ∙ ap (λ s. bit (is_active s)) at_key in
          rw same (record {
            in_hand = ((λ _. value), tt);
            in_chan = vacuous k v p.job_chan (omega (arith, zero_flights));
            in_work = vacuous_work k v p.workers (omega (arith, zero_flights));
          })
      | inr ne ↦ rw ne (other (key_state p.queue k) ne (h k v l))
    ])
  where
    other :
        (s : KeyState)
        → text_eq item.key k ≡ false
        → Accounted ls p k v s
        → Accounted (internal ∷ ls) (record p { queue = q; dispatcher = sending item }) k v s
    other idle ne a = a
    other (waiting y) ne a = a
    other running ne a = record {
      in_hand = ((λ same. cc ((text_eq_iff item.key k).1 same, ne)), tt);
      in_chan = a.in_chan;
      in_work = a.in_work;
    }
    other (stale y) ne a = a

after_wait-IsKept :
    (p : WorkerPool) (w : Waited) (ls : List Label)
    → held p.dispatcher ≡ []
    → IsExclusive p
    → Dequeues p.queue w
    → IsKept ls p
    → IsKept (internal ∷ ls) (after_wait p w)
unfolding after_wait latest last_handled
after_wait-IsKept p cancelled ls e x d h =
    moved-IsKept p _ ls (internal ∷ ls) (λ k. refl) (λ k. refl) (λ k. refl)
      (λ k v c. record { in_hand = tt; in_chan = c.in_chan; in_work = c.in_work }) h
after_wait-IsKept p (blocked q) ls e x (_, same, _) h =
    moved-IsKept p _ ls (internal ∷ ls) (λ k. ap (λ w. w.state k) same) (λ k. refl) (λ k. refl)
      (λ k v c. record { in_hand = tt; in_chan = c.in_chan; in_work = c.in_work }) h
after_wait-IsKept p (dequeued item q) ls e x (_, was, now) h =
    dequeued-IsKept p q item ls e x was now h

pub call_dequeue-IsKept :
    (p : WorkerPool) (ls : List Label)
    → held p.dispatcher ≡ []
    → IsExclusive p
    → IsKept ls p
    → IsKept (internal ∷ ls) (call_dequeue p)
unfolding call_dequeue
call_dequeue-IsKept p ls e x h =
    after_wait-IsKept p (dequeue_wait p.ctx_done p.queue) ls e x
      (dequeue_wait-Dequeues p.ctx_done p.queue x.valid) h
