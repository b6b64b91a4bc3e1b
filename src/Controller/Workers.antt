-- ===== src/Controller/Workers.antt =====
-- mrp_controller/controller/appqueue.go: WorkerPool, as a transition system.
--
-- The dispatcher (`dequeueLoop`) and the workers are goroutines that interleave at the channel and
-- at the queue's lock. A `select` with two ready cases may take either.
pub mod Flights
pub mod Exclusive
pub mod Account
pub mod Moves
pub mod Kept
pub mod Progress
use argocd_monorepo_controll.Base.{
  ℕ, ◌*◌, ◌≡◌, Bool, true, false, List, [], ◌∷◌, ◌++◌, Option, none, some, length, ltb, ◌==◌,
  if◌then◌else◌, get_elem?, set, replicate,
}
use argocd_monorepo_controll.App.{Application}
use argocd_monorepo_controll.Controller.Queue.{
  KeyedAppQueue, AppQueueItem, enqueue, dequeue_wait, Waited, cancelled, blocked, dequeued, done,
}

-- A goroutine started by `NewWorkerPool`: it waits for a job, handles one, or has left its loop.
pub data Worker : Type 0 where
  idle : Worker
  busy : AppQueueItem → Worker
  exited : Worker

-- `dequeueLoop`: at the top of the loop, in `notEmpty.Wait`, in the `select` that sends the item,
-- or returned; in the last case with the item that it held when the context was done.
pub data Dispatcher : Type 0 where
  at_top : Dispatcher
  in_wait : Dispatcher
  sending : AppQueueItem → Dispatcher
  returned : Option AppQueueItem → Dispatcher

pub record WorkerPool : Type 0 where
  pub queue : KeyedAppQueue
  pub workers : List Worker
  pub job_chan : List AppQueueItem
  pub closed : Bool
  pub ctx_done : Bool
  pub dispatcher : Dispatcher

unfoldable pub new_worker_pool : KeyedAppQueue → ℕ → WorkerPool
new_worker_pool q num_workers = record {
  queue = q;
  workers = replicate num_workers idle;
  job_chan = [];
  closed = false;
  ctx_done = false;
  dispatcher = at_top;
}

unfoldable pub stop : WorkerPool → WorkerPool
stop p = record p { ctx_done = true }

-- `make(chan *AppQueueItem, numWorkers*2)`.
abbrev pub has_room : WorkerPool → Bool
has_room p = ltb (length p.job_chan) (length p.workers * 2)

pub after_wait : WorkerPool → Waited → WorkerPool
after_wait p cancelled = record p { dispatcher = at_top }
after_wait p (blocked q) = record p { queue = q; dispatcher = in_wait }
after_wait p (dequeued item q) = record p { queue = q; dispatcher = sending item }

-- A round of the loop of `DequeueWait`.
pub call_dequeue : WorkerPool → WorkerPool
unfolding after_wait
call_dequeue p = after_wait p (dequeue_wait p.ctx_done p.queue)

-- One step of `dequeueLoop`; `none` where it is blocked. A goroutine in `Wait` goes on when a
-- `Signal` has taken it off `notEmpty`.
pub dispatch_from : Dispatcher → WorkerPool → Option WorkerPool
unfolding call_dequeue
dispatch_from at_top p =
    some (
      if p.ctx_done then record p { closed = true; dispatcher = returned none } else call_dequeue p)
dispatch_from in_wait p = if p.queue.not_empty == 0 then some (call_dequeue p) else none
dispatch_from (sending item) p =
    if has_room p
    then some (record p { job_chan = p.job_chan ++ item ∷ []; dispatcher = at_top })
    else none
dispatch_from (returned _) p = none

unfoldable pub dispatch : WorkerPool → Option WorkerPool
unfolding dispatch_from
dispatch p = dispatch_from p.dispatcher p

-- The other case of the `select` that sends: the context is done.
pub give_up_from : Dispatcher → WorkerPool → Option WorkerPool
give_up_from (sending item) p =
    if p.ctx_done then some (record p { dispatcher = returned (some item) }) else none
give_up_from _ p = none

unfoldable pub give_up : WorkerPool → Option WorkerPool
unfolding give_up_from
give_up p = give_up_from p.dispatcher p

-- `for job := range wp.jobChan`: worker `i` receives a job, or leaves when the channel is closed
-- and empty.
pub receive_from : List AppQueueItem → ℕ → WorkerPool → Option WorkerPool
receive_from (item ∷ rest) i p =
    some (record p { job_chan = rest; workers = set p.workers i (busy item) })
receive_from [] i p =
    if p.closed then some (record p { workers = set p.workers i exited }) else none

pub receive_as : Option Worker → ℕ → WorkerPool → Option WorkerPool
unfolding receive_from
receive_as (some idle) i p = receive_from p.job_chan i p
receive_as _ i p = none

unfoldable pub receive : ℕ → WorkerPool → Option WorkerPool
unfolding receive_as
receive i p = receive_as (get_elem? p.workers i) i p

-- The end of `f(ctx, job.Value)`, and `wp.queue.Done(job.Key)`.
unfoldable pub finish : ℕ → AppQueueItem → WorkerPool → WorkerPool
finish i item p = record p { queue = done item.key p.queue; workers = set p.workers i idle }

-- What an observer sees of a step: an application arrives, or a version of one has been handled.
pub data Label : Type 0 where
  arrived : Application → Label
  handled : AppQueueItem → Label
  internal : Label

pub data Step (p : WorkerPool) : Label → WorkerPool → Type 0 where
  enqueues : (app : Application) → Step p (arrived app) (record p { queue = enqueue app p.queue })
  stops : Step p internal (stop p)
  dispatches : {r : WorkerPool} → dispatch p ≡ some r → Step p internal r
  gives_up : {r : WorkerPool} → give_up p ≡ some r → Step p internal r
  receives : {r : WorkerPool} (i : ℕ) → receive i p ≡ some r → Step p internal r
  finishes :
      (i : ℕ) (item : AppQueueItem)
      → get_elem? p.workers i ≡ some (busy item)
      → Step p (handled item) (finish i item p)

-- The steps so far, the last one first.
pub data Reach (s : WorkerPool) : List Label → WorkerPool → Type 0 where
  start : Reach s [] s
  after :
      {ls : List Label} {p r : WorkerPool} {l : Label}
      → Reach s ls p
      → Step p l r
      → Reach s (l ∷ ls) r
