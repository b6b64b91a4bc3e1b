-- ===== src/Controller/Workers/Exclusive.antt =====
-- The keys that the workers of WorkerPool have, in a step (mrp_controller/controller/appqueue.go).
pub mod Runs
use argocd_monorepo_controll.Base.{
  ℕ, zero, suc, ◌+◌, ◌≤◌, ◌≡◌, ◌≢◌, refl, sym, ap, subst, ◌∙◌, inl, inr, Text, text_eq,
  text_eq_refl, text_eq_iff, Bool, true, false, List, [], ◌∷◌, Option, none, some, arith,
  if◌then◌else◌, get_elem?, Bool-cases, lookup,
}
use argocd_monorepo_controll.App.{Application}
use argocd_monorepo_controll.Controller.Queue.{
  KeyedAppQueue, AppQueueItem, app_key, enqueue, dequeue_wait, Waited, cancelled, blocked, dequeued,
  done, new_keyed_app_queue,
}
use argocd_monorepo_controll.Controller.Queue.Invariant.{IsValid, new_keyed_app_queue-IsValid}
use argocd_monorepo_controll.Controller.Queue.Invariant.Dequeue.{
  LeavesValid, dequeue_wait-LeavesValid,
}
use argocd_monorepo_controll.Controller.Queue.Invariant.Enqueue.{enqueue_locked-IsValid}
use argocd_monorepo_controll.Controller.Queue.Invariant.Done.{done-IsValid}
use argocd_monorepo_controll.Controller.Queue.View.{
  View, KeyState, key_state, idle, waiting, running, stale, view, after_done,
}
use argocd_monorepo_controll.Controller.Queue.View.Enqueue.{enqueue-view}
use argocd_monorepo_controll.Controller.Queue.View.Done.{done-view}
use argocd_monorepo_controll.Controller.Queue.View.Dequeue.{dequeue_wait-Dequeues, Dequeues}
use argocd_monorepo_controll.Controller.Workers.{
  Worker, Dispatcher, WorkerPool, new_worker_pool, busy, exited, at_top, in_wait, sending, returned,
  after_wait, call_dequeue, dispatch_from, dispatch, give_up_from, give_up, receive_from,
  receive_as, receive, finish, stop, Label, Step, enqueues, stops, dispatches, gives_up, receives,
  finishes, Reach, start, after,
}
use argocd_monorepo_controll.Controller.Workers.Flights.{
  bit, held, count_workers, flights, count_key-append, count_workers-set, is_active,
  count_workers-replicate,
}

-- The queue is valid, and each key has one item in flight exactly while it is being processed.
pub record IsExclusive (p : WorkerPool) : Type 0 where
  pub valid : IsValid p.queue
  pub counted : (k : Text) → flights k p ≡ bit (is_active (key_state p.queue k))

enqueue_active :
    (app : Application) (q : KeyedAppQueue) (k : Text)
    → IsValid q
    → is_active (key_state (enqueue app q) k) ≡ is_active (key_state q k)
enqueue_active app q k v =
    ap (λ w. is_active (w.state k)) (enqueue-view app q v)
    ∙ elim (Bool-cases (text_eq (app_key app) k)) [
      | inl same ↦ rw same (ground (arith, text_eq_iff (app_key app) k))
      | inr ne ↦ rw ne
    ]

pub enqueue-IsExclusive :
    (app : Application) (p : WorkerPool)
    → IsExclusive p
    → IsExclusive (record p { queue = enqueue app p.queue })
unfolding enqueue
enqueue-IsExclusive app p x = record {
  valid = enqueue_locked-IsValid app p.queue x.valid;
  counted =
      λ k. x.counted k ∙ sym (ap bit (unfold enqueue in enqueue_active app p.queue k x.valid));
}

pub after_wait-IsExclusive :
    (p : WorkerPool) (w : Waited)
    → held p.dispatcher ≡ []
    → IsExclusive p
    → LeavesValid w
    → Dequeues p.queue w
    → IsExclusive (after_wait p w)
unfolding after_wait
after_wait-IsExclusive p cancelled e x v d = record {
  valid = x.valid;
  counted = λ k. rw e at (x.counted k);
}
after_wait-IsExclusive p (blocked q) e x v (none_queued, same, _) = record {
  valid = v;
  counted = λ k. (rw e at (x.counted k)) ∙ ap (λ w. bit (is_active (w.state k))) (sym same);
}
after_wait-IsExclusive p (dequeued item q) e x v (order, was, now) = record {
  valid = v;
  counted = λ k. rw (ap (λ f. f k) now) (elim (Bool-cases (text_eq item.key k)) [
    | inl same ↦
        let free : key_state p.queue k ≡ waiting item.value =
          subst (λ j. key_state p.queue j ≡ waiting item.value) ((text_eq_iff _ _).0 same) was in
        rw same (omega (arith, (rw e at (x.counted k)) ∙ ap (λ s. bit (is_active s)) free))
    | inr ne ↦ rw ne (omega (arith, rw e at (x.counted k)))
  ]);
}

pub call_dequeue-IsExclusive :
    (p : WorkerPool) → held p.dispatcher ≡ [] → IsExclusive p → IsExclusive (call_dequeue p)
unfolding call_dequeue
call_dequeue-IsExclusive p e x =
    after_wait-IsExclusive p (dequeue_wait p.ctx_done p.queue) e x
      (dequeue_wait-LeavesValid p.ctx_done p.queue x.valid)
      (dequeue_wait-Dequeues p.ctx_done p.queue x.valid)

-- A step that leaves the queue alone and moves items in flight.
pub moved-IsExclusive :
    (p r : WorkerPool)
    → r.queue ≡ p.queue
    → ((k : Text) → flights k r ≡ flights k p)
    → IsExclusive p
    → IsExclusive r
moved-IsExclusive p r same f x = record {
  valid = subst IsValid (sym same) x.valid;
  counted = λ k. f k ∙ x.counted k ∙ ap (λ q. bit (is_active (key_state q k))) (sym same);
}

dispatch-IsExclusive :
    (d : Dispatcher) (p r : WorkerPool)
    → p.dispatcher ≡ d
    → dispatch_from d p ≡ some r
    → IsExclusive p
    → IsExclusive r
unfolding dispatch_from
dispatch-IsExclusive at_top p r e s x = elim (Bool-cases p.ctx_done) [
  | inl stopped ↦ moved-IsExclusive p r (ground arith) (λ k. ground arith) x
  | inr running_on ↦
      let step : call_dequeue p ≡ r = ground arith in
      subst IsExclusive step (call_dequeue-IsExclusive p (ap held e) x)
]
dispatch-IsExclusive in_wait p r e s x =
    let step : call_dequeue p ≡ r = ground arith in
    subst IsExclusive step (call_dequeue-IsExclusive p (ap held e) x)
dispatch-IsExclusive (sending item) p r e s x =
    moved-IsExclusive p r (ground arith)
      (λ k. ground (arith, count_key-append k p.job_chan (item ∷ []))) x
dispatch-IsExclusive (returned o) p r e s x = cc

give_up-IsExclusive :
    (d : Dispatcher) (p r : WorkerPool)
    → p.dispatcher ≡ d
    → give_up_from d p ≡ some r
    → IsExclusive p
    → IsExclusive r
unfolding give_up_from
give_up-IsExclusive (sending item) p r e s x =
    moved-IsExclusive p r (ground arith) (λ k. ground arith) x
give_up-IsExclusive at_top p r e s x = cc
give_up-IsExclusive in_wait p r e s x = cc
give_up-IsExclusive (returned o) p r e s x = cc

receive_from-IsExclusive :
    (items : List AppQueueItem) (i : ℕ) (p r : WorkerPool)
    → p.job_chan ≡ items
    → get_elem? p.workers i ≡ some Worker.idle
    → receive_from items i p ≡ some r
    → IsExclusive p
    → IsExclusive r
unfolding receive_from
receive_from-IsExclusive (item ∷ rest) i p r e w s x =
    moved-IsExclusive p r (ground arith)
      (λ k. ground (arith, count_workers-set k p.workers i Worker.idle (busy item) w)) x
receive_from-IsExclusive [] i p r e w s x =
    moved-IsExclusive p r (ground arith)
      (λ k. ground (arith, count_workers-set k p.workers i Worker.idle exited w)) x

receive-IsExclusive :
    (o : Option Worker) (i : ℕ) (p r : WorkerPool)
    → get_elem? p.workers i ≡ o
    → receive_as o i p ≡ some r
    → IsExclusive p
    → IsExclusive r
unfolding receive_as
receive-IsExclusive (some Worker.idle) i p r w s x =
    receive_from-IsExclusive p.job_chan i p r refl w s x
receive-IsExclusive none i p r w s x = cc
receive-IsExclusive (some (busy item)) i p r w s x = cc
receive-IsExclusive (some exited) i p r w s x = cc
