-- ===== src/Controller/Workers/Progress.antt =====
-- The dispatcher of WorkerPool and the keys that wait.
mod Quiet
use argocd_monorepo_controll.Base.{
  ℕ, ◌-◌, ◌≡◌, refl, ap, subst, ◌∙◌, ◌⊎◌, inl, inr, Text, Bool, true, false, List, [], ◌∷◌, ◌++◌,
  Option, none, some, has, lookup, delete, arith, Bool-cases, Option-cases, ◌==◌, ==_iff, get_elem?,
  set,
}
use argocd_monorepo_controll.App.{Application}
use argocd_monorepo_controll.Controller.Queue.{
  KeyedAppQueue, Element, AppQueueItem, app_key, report_queue_length, signal, place, enqueue_locked,
  enqueue, take_front, dequeue_wait, requeue, done, new_keyed_app_queue,
}
use argocd_monorepo_controll.Controller.Workers.{
  Worker, Dispatcher, WorkerPool, new_worker_pool, at_top, in_wait, sending, returned, after_wait,
  call_dequeue, dispatch_from, dispatch, give_up_from, give_up, receive_from, receive_as, receive,
  finish, stop, Label, Step, enqueues, stops, dispatches, gives_up, receives, finishes, Reach,
  start, after, busy, exited, has_room,
}
use argocd_monorepo_controll.Controller.Workers.Progress.Quiet.{
  Calm, report-Calm, enqueue_locked-Calm, done-Calm,
}

-- A dispatcher that is blocked in `Wait` waits for a queue with no elements, and is alone there.
abbrev Blocked : Dispatcher → KeyedAppQueue → Type 0
Blocked in_wait q = (q.not_empty ≡ 0) ⊎ ((q.not_empty ≡ 1) × (q.items.cells ≡ []))
Blocked at_top q = q.not_empty ≡ 0
Blocked (sending item) q = q.not_empty ≡ 0
Blocked (returned held) q = q.not_empty ≡ 0

Calm-Blocked : (d : Dispatcher) (q r : KeyedAppQueue) → Calm q r → Blocked d q → Blocked d r
Calm-Blocked in_wait q r (inl (n, c)) (inl z) = inl (n ∙ z)
Calm-Blocked in_wait q r (inl (n, c)) (inr (o, e)) = inr (n ∙ o, c ∙ e)
Calm-Blocked in_wait q r (inr n) (inl z) = inl (omega (arith, n, z))
Calm-Blocked in_wait q r (inr n) (inr (o, e)) = inl (omega (arith, n, o))
Calm-Blocked at_top q r (inl (n, c)) z = n ∙ z
Calm-Blocked at_top q r (inr n) z = omega (arith, n, z)
Calm-Blocked (sending item) q r (inl (n, c)) z = n ∙ z
Calm-Blocked (sending item) q r (inr n) z = omega (arith, n, z)
Calm-Blocked (returned held) q r (inl (n, c)) z = n ∙ z
Calm-Blocked (returned held) q r (inr n) z = omega (arith, n, z)

abbrev IsAwake : WorkerPool → Type 0
IsAwake p = Blocked p.dispatcher p.queue

take_front-IsAwake :
    (cells : List Element) (ctx_done : Bool) (p : WorkerPool)
    → p.queue.items.cells ≡ cells
    → p.queue.not_empty ≡ 0
    → IsAwake (after_wait p (take_front cells p.queue ctx_done))
unfolding take_front after_wait
take_front-IsAwake [] true p e z = z
take_front-IsAwake [] false p e z = inr (omega (arith, z), e)
take_front-IsAwake (elem ∷ rest) ctx_done p e z = (report-Calm _).0 ∙ z

call_dequeue-IsAwake : (p : WorkerPool) → p.queue.not_empty ≡ 0 → IsAwake (call_dequeue p)
unfolding call_dequeue dequeue_wait
call_dequeue-IsAwake p z = take_front-IsAwake p.queue.items.cells p.ctx_done p refl z

dispatch-IsAwake :
    (d : Dispatcher) (p r : WorkerPool) → Blocked d p.queue → dispatch_from d p ≡ some r → IsAwake r
unfolding dispatch_from
dispatch-IsAwake at_top p r b e = elim (Bool-cases p.ctx_done) [
  | inl c ↦
      let f = rw c at e in
      let same : record p { closed = true; dispatcher = returned none } ≡ r = cc in
      subst IsAwake same b
  | inr c ↦
      let f = rw c at e in
      let same : call_dequeue p ≡ r = cc in subst IsAwake same (call_dequeue-IsAwake p b)
]
dispatch-IsAwake in_wait p r b e = elim (Bool-cases (p.queue.not_empty == 0)) [
  | inl c ↦
      let f = rw c at e in
      let same : call_dequeue p ≡ r = cc in
      subst IsAwake same (call_dequeue-IsAwake p ((==_iff p.queue.not_empty 0).0 c))
  | inr c ↦ (let f = rw c at e in cc)
]
dispatch-IsAwake (sending item) p r b e = elim (Bool-cases (has_room p)) [
  | inl c ↦
      let f = rw c at e in
      let same : record p { job_chan = p.job_chan ++ item ∷ []; dispatcher = at_top } ≡ r = cc in
      subst IsAwake same b
  | inr c ↦ (let f = rw c at e in cc)
]
dispatch-IsAwake (returned held) p r b e = cc

give_up-IsAwake :
    (d : Dispatcher) (p r : WorkerPool) → Blocked d p.queue → give_up_from d p ≡ some r → IsAwake r
unfolding give_up_from
give_up-IsAwake (sending item) p r b e = elim (Bool-cases p.ctx_done) [
  | inl c ↦
      let f = rw c at e in
      let same : record p { dispatcher = returned (some item) } ≡ r = cc in subst IsAwake same b
  | inr c ↦ (let f = rw c at e in cc)
]
give_up-IsAwake at_top p r b e = cc
give_up-IsAwake in_wait p r b e = cc
give_up-IsAwake (returned held) p r b e = cc

receive_from-IsAwake :
    (chan : List AppQueueItem) (i : ℕ) (p r : WorkerPool)
    → IsAwake p
    → receive_from chan i p ≡ some r
    → IsAwake r
unfolding receive_from
receive_from-IsAwake (item ∷ rest) i p r b e =
    let same : record p { job_chan = rest; workers = set p.workers i (busy item) } ≡ r = cc in
    subst IsAwake same b
receive_from-IsAwake [] i p r b e = elim (Bool-cases p.closed) [
  | inl c ↦
      let f = rw c at e in
      let same : record p { workers = set p.workers i exited } ≡ r = cc in subst IsAwake same b
  | inr c ↦ (let f = rw c at e in cc)
]

receive-IsAwake :
    (w : Option Worker) (i : ℕ) (p r : WorkerPool)
    → IsAwake p
    → receive_as w i p ≡ some r
    → IsAwake r
unfolding receive_as
receive-IsAwake (some Worker.idle) i p r b e = receive_from-IsAwake p.job_chan i p r b e
receive-IsAwake (some (busy item)) i p r b e = cc
receive-IsAwake (some exited) i p r b e = cc
receive-IsAwake none i p r b e = cc

Step-IsAwake : {p r : WorkerPool} {l : Label} → Step p l r → IsAwake p → IsAwake r
unfolding enqueue stop dispatch give_up receive finish
Step-IsAwake {p} (enqueues app) b =
    Calm-Blocked p.dispatcher p.queue (enqueue_locked app p.queue) (enqueue_locked-Calm app p.queue)
      b
Step-IsAwake stops b = b
Step-IsAwake {p} {r} (dispatches e) b = dispatch-IsAwake p.dispatcher p r b e
Step-IsAwake {p} {r} (gives_up e) b = give_up-IsAwake p.dispatcher p r b e
Step-IsAwake {p} {r} (receives i e) b = receive-IsAwake (get_elem? p.workers i) i p r b e
Step-IsAwake {p} (finishes i item e) b =
    Calm-Blocked p.dispatcher p.queue (done item.key p.queue) (done-Calm item.key p.queue) b

Reach-IsAwake :
    (n : ℕ) {ls : List Label} {p : WorkerPool}
    → Reach (new_worker_pool new_keyed_app_queue n) ls p
    → IsAwake p
unfolding new_worker_pool new_keyed_app_queue
Reach-IsAwake n start = refl
Reach-IsAwake n (after r s) = Step-IsAwake s (Reach-IsAwake n r)

-- Why the dispatcher cannot go on.
pub data IsStuck (p : WorkerPool) : Type 0 where
  nothing_waits : p.dispatcher ≡ in_wait → p.queue.items.cells ≡ [] → IsStuck p
  channel_full :
      (item : AppQueueItem) → p.dispatcher ≡ sending item → has_room p ≡ false → IsStuck p
  has_returned : (held : Option AppQueueItem) → p.dispatcher ≡ returned held → IsStuck p

IsStuck-as :
    (d : Dispatcher) (p : WorkerPool)
    → p.dispatcher ≡ d
    → Blocked d p.queue
    → dispatch_from d p ≡ none
    → IsStuck p
unfolding dispatch_from
IsStuck-as at_top p same b e = cc
IsStuck-as in_wait p same (inl z) e =
    (let c = (==_iff p.queue.not_empty 0).1 z in let f = rw c at e in cc)
IsStuck-as in_wait p same (inr (o, cells)) e = nothing_waits same cells
IsStuck-as (sending item) p same b e = elim (Bool-cases (has_room p)) [
  | inl c ↦ (let f = rw c at e in cc)
  | inr c ↦ channel_full item same c
]
IsStuck-as (returned held) p same b e = has_returned held same

-- In every run of a pool on a new queue, the dispatcher can take a step unless it sleeps while no
-- key waits in the queue, or sends while the workers' channel is full, or has returned: no wakeup
-- is lost.
pub dispatch-IsStuck :
    (n : ℕ) (ls : List Label) (p : WorkerPool)
    → Reach (new_worker_pool new_keyed_app_queue n) ls p
    → dispatch p ≡ none
    → IsStuck p
unfolding dispatch
dispatch-IsStuck n ls p r e = IsStuck-as p.dispatcher p refl (Reach-IsAwake n r) e
