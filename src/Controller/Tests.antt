-- ===== src/Controller/Tests.antt =====
-- The queue and the workers on a concrete run: an application changes while it is being handled.
use argocd_monorepo_controll.Base.{
  ℕ, lookup, insert, delete, text_eq, ◌≡◌, ◌≢◌, refl, Text, codes, false, List, [], ◌∷◌, Option,
  none, some, arith,
}
use argocd_monorepo_controll.App.{
  empty_destination, Application, annotation_key_manifest_generate_paths,
}
use argocd_monorepo_controll.Controller.Queue.{
  KeyedAppQueue, AppQueueItem, new_keyed_app_queue, app_key, enqueue, dequeue_wait, done, place,
}
use argocd_monorepo_controll.Controller.Queue.Invariant.Calls.{
  enqueues, dequeues, finishes, calls, calls-IsValid,
}
use argocd_monorepo_controll.Controller.Queue.Invariant.{IsValid, new_keyed_app_queue-IsValid}
use argocd_monorepo_controll.Controller.Queue.Invariant.Enqueue.{enqueue_locked-IsValid}
use argocd_monorepo_controll.Controller.Queue.View.{key_state, view, enqueued, finished}
use argocd_monorepo_controll.Controller.Queue.View.Dequeue.{Dequeues, dequeue_wait-Dequeues}
use argocd_monorepo_controll.Controller.Queue.View.Enqueue.{enqueue-view}
use argocd_monorepo_controll.Controller.Queue.View.Done.{done-view}
use argocd_monorepo_controll.Controller.Events.{
  AppEventHandler, new_monorepo_controller, run, Notice, adds, updates, deletes, deliver_all,
}
use argocd_monorepo_controll.Controller.Events.Wiring.{enqueue_all, run_delivers}
use argocd_monorepo_controll.Controller.Workers.{
  WorkerPool, new_worker_pool, dispatch, receive, finish, Label, arrived, handled, internal,
  enqueues, dispatches, receives, finishes, Reach, start, after,
}
use argocd_monorepo_controll.Controller.Workers.Exclusive.Runs.{workers_exclusive}
use argocd_monorepo_controll.Controller.Workers.Account.{latest, last_handled}
use argocd_monorepo_controll.Controller.Workers.Progress.{IsStuck, dispatch-IsStuck}
use argocd_monorepo_controll.Controller.Workers.Kept.{Located, latest-Located, all_handled}

abbrev app : Text → Text → Application
app name project = record {
  namespace = codes "ns";
  name = name;
  annotations = [];
  spec = record {
    source = none;
    project = project;
    sources = [];
    source_hydrator = none;
    destination = empty_destination;
  };
  status = record {
    sync = record { status = []; revision = []; revisions = [] };
    history = [];
    operation_state = none;
  };
  operation = none;
}

abbrev old : Application
old = app (codes "a") (codes "old")

abbrev new : Application
new = app (codes "a") (codes "new")

abbrev other : Application
other = app (codes "b") (codes "old")

abbrev item : Application → AppQueueItem
item a = record { key = app_key a; value = a }

abbrev one_waits : KeyedAppQueue
one_waits = enqueue old new_keyed_app_queue

one_waits-IsValid : IsValid one_waits
unfolding enqueue
one_waits-IsValid = enqueue_locked-IsValid old new_keyed_app_queue new_keyed_app_queue-IsValid

calls-IsValid_example : IsValid (
    calls
      (enqueues old ∷ dequeues false ∷ enqueues new ∷ finishes (app_key old) ∷ [])
      new_keyed_app_queue)
calls-IsValid_example =
    calls-IsValid (enqueues old ∷ dequeues false ∷ enqueues new ∷ finishes (app_key old) ∷ [])

enqueue-view_example : view (enqueue new one_waits) ≡ enqueued new (view one_waits)
enqueue-view_example = enqueue-view new one_waits one_waits-IsValid

dequeue_wait-Dequeues_example : Dequeues one_waits (dequeue_wait false one_waits)
dequeue_wait-Dequeues_example = dequeue_wait-Dequeues false one_waits one_waits-IsValid

done-view_example : view (done (app_key old) one_waits) ≡ finished (app_key old) (view one_waits)
done-view_example = done-view (app_key old) one_waits one_waits-IsValid

-- A pool with two workers, and the states of a run of it.
abbrev pool : WorkerPool
pool = new_worker_pool new_keyed_app_queue 2

abbrev or_pool : Option WorkerPool → WorkerPool
or_pool none = pool
or_pool (some p) = p

abbrev arrive : Application → WorkerPool → WorkerPool
arrive a p = record p { queue = enqueue a p.queue }

abbrev send : WorkerPool → WorkerPool
send p = or_pool (dispatch p)

abbrev take : ℕ → WorkerPool → WorkerPool
take i p = or_pool (receive i p)

abbrev working : WorkerPool
working = take 0 (send (send (arrive old pool)))

abbrev both_working : WorkerPool
both_working = take 1 (send (send (arrive other working)))

abbrev both_labels : List Label
both_labels =
    internal
    ∷ internal
    ∷ internal
    ∷ arrived other
    ∷ internal
    ∷ internal
    ∷ internal
    ∷ arrived old
    ∷ []

both_reached : Reach pool both_labels both_working
unfolding dispatch receive enqueue new_worker_pool new_keyed_app_queue dequeue_wait place done
    lookup insert text_eq delete
both_reached =
    after
      (after
        (after
          (after
            (after (after (after (after start (enqueues old)) (dispatches refl)) (dispatches refl))
              (receives 0 refl))
            (enqueues other))
          (dispatches refl))
        (dispatches refl))
      (receives 1 refl)

workers_exclusive_example : app_key old ≢ app_key other
unfolding dispatch receive enqueue new_worker_pool new_keyed_app_queue dequeue_wait place done
    lookup insert text_eq delete
workers_exclusive_example =
    workers_exclusive 2 both_labels both_working 0 1 (item old) (item other) both_reached
      (omega arith) refl refl

-- A version that arrives while the application is handled is handled next.
abbrev changed : WorkerPool
changed = arrive new working

abbrev handled_twice : WorkerPool
handled_twice = finish 1 (item new) (take 1 (send (send (finish 0 (item old) changed))))

abbrev twice_labels : List Label
twice_labels =
    handled (item new)
    ∷ internal
    ∷ internal
    ∷ internal
    ∷ handled (item old)
    ∷ arrived new
    ∷ internal
    ∷ internal
    ∷ internal
    ∷ arrived old
    ∷ []

twice_reached : Reach pool twice_labels handled_twice
unfolding dispatch receive enqueue new_worker_pool new_keyed_app_queue dequeue_wait place done
    finish lookup insert text_eq delete
twice_reached =
    after
      (after
        (after
          (after
            (after
              (after
                (after
                  (after (after (after start (enqueues old)) (dispatches refl)) (dispatches refl))
                  (receives 0 refl))
                (enqueues new))
              (finishes 0 (item old) refl))
            (dispatches refl))
          (dispatches refl))
        (receives 1 refl))
      (finishes 1 (item new) refl)

latest-Located_example :
    Located twice_labels handled_twice
      (app_key old)
      new
      (key_state handled_twice.queue (app_key old))
unfolding dispatch receive enqueue new_worker_pool new_keyed_app_queue dequeue_wait place done
    finish latest lookup insert text_eq delete
latest-Located_example =
    latest-Located 2 twice_labels handled_twice (app_key old) new twice_reached refl

all_handled_example : last_handled (app_key old) twice_labels ≡ some new
unfolding dispatch receive enqueue new_worker_pool new_keyed_app_queue dequeue_wait place done
    finish latest lookup insert text_eq delete
all_handled_example =
    all_handled 2 twice_labels handled_twice (app_key old) new twice_reached refl refl refl

abbrev refreshed : Application
refreshed = record new { annotations = (annotation_key_manifest_generate_paths, codes ".") ∷ [] }

abbrev notices : List Notice
notices = adds (some refreshed) ∷ adds (some other) ∷ updates none ∷ deletes (some refreshed) ∷ []

run_delivers_example :
    deliver_all (run (new_monorepo_controller 0)).1.app_broadcaster notices new_keyed_app_queue
    ≡ enqueue_all (refreshed ∷ []) new_keyed_app_queue
unfolding lookup text_eq
run_delivers_example = run_delivers 0 notices new_keyed_app_queue

abbrev with_one : AppEventHandler KeyedAppQueue
with_one = (run (new_monorepo_controller 0)).1.app_broadcaster

-- The dispatcher sleeps on the empty queue.
abbrev asleep : WorkerPool
asleep = send pool

asleep-Reach : Reach pool (internal ∷ []) asleep
unfolding dispatch receive enqueue new_worker_pool new_keyed_app_queue dequeue_wait place done
    lookup insert text_eq delete
asleep-Reach = after start (dispatches refl)

dispatch-IsStuck_example : IsStuck asleep
unfolding dispatch receive enqueue new_worker_pool new_keyed_app_queue dequeue_wait place done
    lookup insert text_eq delete
dispatch-IsStuck_example = dispatch-IsStuck 2 (internal ∷ []) asleep asleep-Reach refl
