-- ===== src/Controller/Workers/Moves.antt =====
-- What each step of WorkerPool does to the account of versions.
mod Taken
use argocd_monorepo_controll.Base.{
  ℕ, ◌≡◌, refl, sym, ap, subst, ◌∙◌, inl, inr, Text, text_eq, text_eq_iff, true, false, List, [],
  ◌∷◌, ◌++◌, Option, none, some, arith, set, Bool-cases, All, All-append,
}
use argocd_monorepo_controll.App.{Application}
use argocd_monorepo_controll.Controller.Queue.{
  KeyedAppQueue, AppQueueItem, app_key, enqueue, dequeue_wait, Waited, cancelled, blocked, dequeued,
}
use argocd_monorepo_controll.Controller.Queue.Invariant.{IsValid}
use argocd_monorepo_controll.Controller.Queue.View.{
  KeyState, key_state, idle, waiting, running, stale, update, on_update,
}
use argocd_monorepo_controll.Controller.Queue.View.Enqueue.{enqueue-view}
use argocd_monorepo_controll.Controller.Queue.View.Dequeue.{dequeue_wait-Dequeues, Dequeues}
use argocd_monorepo_controll.Controller.Workers.{
  Worker, Dispatcher, WorkerPool, busy, exited, at_top, in_wait, sending, returned, after_wait,
  call_dequeue, dispatch_from, give_up_from, receive_from, receive_as, Label, arrived, internal,
}
use argocd_monorepo_controll.Controller.Workers.Flights.{bit, held, flights, is_active}
use argocd_monorepo_controll.Controller.Workers.Exclusive.{IsExclusive}
use argocd_monorepo_controll.Controller.Workers.Account.{
  latest, last_handled, Fits, Carries, Accounted, IsKept, vacuous, vacuous_work, work-set,
  moved-IsKept,
}
use argocd_monorepo_controll.Controller.Workers.Moves.Taken.{call_dequeue-IsKept}

pub enqueue-IsKept :
    (app : Application) (p : WorkerPool) (ls : List Label)
    → IsValid p.queue
    → IsKept ls p
    → IsKept (arrived app ∷ ls) (record p { queue = enqueue app p.queue })
unfolding latest last_handled
enqueue-IsKept app p ls valid h k v e =
    subst (Accounted ms r k v) (sym (ap (λ w. w.state k) (enqueue-view app p.queue valid)))
      (elim (Bool-cases (text_eq (app_key app) k)) [
        | inl same ↦ rw same (updated (key_state p.queue (app_key app)) (some_inj (rw same at e)))
        | inr ne ↦ rw ne (other (key_state p.queue k) (h k v (rw ne at e)))
      ])
  where
    ms : List Label
    ms = arrived app ∷ ls

    r : WorkerPool
    r = record p { queue = enqueue app p.queue }

    some_inj : some app ≡ some v → app ≡ v
    some_inj q = cc

    updated : (s : KeyState) → app ≡ v → Accounted ms r k v (on_update app s)
    updated idle q = q
    updated (waiting x) q = q
    updated running q = q
    updated (stale x) q = q

    other : (s : KeyState) → Accounted ls p k v s → Accounted ms r k v s
    other idle a = a
    other (waiting x) a = a
    other running a = record { in_hand = a.in_hand; in_chan = a.in_chan; in_work = a.in_work }
    other (stale x) a = a

-- A step of the pool alone that leaves the queue as it is.
pub quiet-IsKept :
    (p r : WorkerPool) (ls : List Label)
    → r.queue ≡ p.queue
    → ((k : Text) (v : Application) → Carries k v p → Carries k v r)
    → IsKept ls p
    → IsKept (internal ∷ ls) r
unfolding latest last_handled
quiet-IsKept p r ls same moves h =
    moved-IsKept p r ls (internal ∷ ls) (λ k. ap (λ q. key_state q k) same) (λ k. refl) (λ k. refl)
      moves h

pub dispatch-IsKept :
    (d : Dispatcher) (p r : WorkerPool) (ls : List Label)
    → p.dispatcher ≡ d
    → dispatch_from d p ≡ some r
    → IsExclusive p
    → IsKept ls p
    → IsKept (internal ∷ ls) r
unfolding dispatch_from
dispatch-IsKept at_top p r ls e s x h = elim (Bool-cases p.ctx_done) [
  | inl stopped ↦
      let step : (record p { closed = true; dispatcher = returned none }) ≡ r = ground arith in
      subst (IsKept (internal ∷ ls)) step (
        quiet-IsKept p _ ls refl
          (λ k v c. record { in_hand = tt; in_chan = c.in_chan; in_work = c.in_work }) h)
  | inr going ↦
      let step : call_dequeue p ≡ r = ground arith in
      subst (IsKept (internal ∷ ls)) step (call_dequeue-IsKept p ls (ap held e) x h)
]
dispatch-IsKept in_wait p r ls e s x h =
    let step : call_dequeue p ≡ r = ground arith in
    subst (IsKept (internal ∷ ls)) step (call_dequeue-IsKept p ls (ap held e) x h)
dispatch-IsKept (sending item) p r ls e s x h =
    let step : (record p { job_chan = p.job_chan ++ item ∷ []; dispatcher = at_top }) ≡ r =
      ground arith in
    subst (IsKept (internal ∷ ls)) step (
      quiet-IsKept p _ ls refl
        (λ k v c. record {
          in_hand = tt;
          in_chan =
              All-append (Fits k v) p.job_chan (item ∷ []) c.in_chan
                (subst (λ d. All (Fits k v) (held d)) e c.in_hand);
          in_work = c.in_work;
        })
        h)
dispatch-IsKept (returned o) p r ls e s x h = cc

pub give_up-IsKept :
    (d : Dispatcher) (p r : WorkerPool) (ls : List Label)
    → p.dispatcher ≡ d
    → give_up_from d p ≡ some r
    → IsKept ls p
    → IsKept (internal ∷ ls) r
unfolding give_up_from
give_up-IsKept (sending item) p r ls e s h =
    let step : (record p { dispatcher = returned (some item) }) ≡ r = ground arith in
    subst (IsKept (internal ∷ ls)) step (
      quiet-IsKept p _ ls refl
        (λ k v c. record {
          in_hand = subst (λ d. All (Fits k v) (held d)) e c.in_hand;
          in_chan = c.in_chan;
          in_work = c.in_work;
        })
        h)
give_up-IsKept at_top p r ls e s h = cc
give_up-IsKept in_wait p r ls e s h = cc
give_up-IsKept (returned o) p r ls e s h = cc

receive_from-IsKept :
    (items : List AppQueueItem) (i : ℕ) (p r : WorkerPool) (ls : List Label)
    → p.job_chan ≡ items
    → receive_from items i p ≡ some r
    → IsKept ls p
    → IsKept (internal ∷ ls) r
unfolding receive_from
receive_from-IsKept (item ∷ rest) i p r ls e s h =
    let step : (record p { job_chan = rest; workers = set p.workers i (busy item) }) ≡ r =
      ground arith in
    subst (IsKept (internal ∷ ls)) step (
      quiet-IsKept p _ ls refl
        (λ k v c.
          let fits = subst (All (Fits k v)) e c.in_chan in
          record {
            in_hand = c.in_hand;
            in_chan = fits.1;
            in_work = work-set k v p.workers i (busy item) (fits.0, tt) c.in_work;
          })
        h)
receive_from-IsKept [] i p r ls e s h =
    let step : (record p { workers = set p.workers i exited }) ≡ r = ground arith in
    subst (IsKept (internal ∷ ls)) step (
      quiet-IsKept p _ ls refl
        (λ k v c. record {
          in_hand = c.in_hand;
          in_chan = c.in_chan;
          in_work = work-set k v p.workers i exited tt c.in_work;
        })
        h)

pub receive-IsKept :
    (o : Option Worker) (i : ℕ) (p r : WorkerPool) (ls : List Label)
    → receive_as o i p ≡ some r
    → IsKept ls p
    → IsKept (internal ∷ ls) r
unfolding receive_as
receive-IsKept (some Worker.idle) i p r ls s h = receive_from-IsKept p.job_chan i p r ls refl s h
receive-IsKept none i p r ls s h = cc
receive-IsKept (some (busy item)) i p r ls s h = cc
receive-IsKept (some exited) i p r ls s h = cc
