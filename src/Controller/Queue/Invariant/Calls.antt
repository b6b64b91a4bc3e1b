-- ===== src/Controller/Queue/Invariant/Calls.antt =====
-- Any sequence of calls of the queue.
use argocd_monorepo_controll.Base.{Text, Bool, List, [], ◌∷◌}
use argocd_monorepo_controll.App.{Application}
use argocd_monorepo_controll.Controller.Queue.{
  KeyedAppQueue, new_keyed_app_queue, enqueue, dequeue_wait, Waited, cancelled, blocked, dequeued,
  done,
}
use argocd_monorepo_controll.Controller.Queue.Invariant.{IsValid, new_keyed_app_queue-IsValid}
use argocd_monorepo_controll.Controller.Queue.Invariant.Enqueue.{enqueue_locked-IsValid}
use argocd_monorepo_controll.Controller.Queue.Invariant.Done.{done-IsValid}
use argocd_monorepo_controll.Controller.Queue.Invariant.Dequeue.{
  LeavesValid, dequeue_wait-LeavesValid,
}

-- A round of DequeueWait is given by whether the context is done.
pub data Call : Type 0 where
  enqueues : Application → Call
  dequeues : Bool → Call
  finishes : Text → Call

abbrev pub queue_after : Waited → KeyedAppQueue → KeyedAppQueue
queue_after cancelled q = q
queue_after (blocked r) q = r
queue_after (dequeued item r) q = r

unfoldable pub call : Call → KeyedAppQueue → KeyedAppQueue
unfolding enqueue dequeue_wait done
call (enqueues app) q = enqueue app q
call (dequeues ctx_done) q = queue_after (dequeue_wait ctx_done q) q
call (finishes key) q = done key q

unfoldable pub calls : List Call → KeyedAppQueue → KeyedAppQueue
unfolding call
calls [] q = q
calls (c ∷ cs) q = calls cs (call c q)

queue_after-IsValid :
    (w : Waited) (q : KeyedAppQueue) → IsValid q → LeavesValid w → IsValid (queue_after w q)
queue_after-IsValid cancelled q v h = v
queue_after-IsValid (blocked r) q v h = h
queue_after-IsValid (dequeued item r) q v h = h

pub call-IsValid : (c : Call) (q : KeyedAppQueue) → IsValid q → IsValid (call c q)
unfolding call enqueue
call-IsValid (enqueues app) q v = enqueue_locked-IsValid app q v
call-IsValid (dequeues ctx_done) q v =
    queue_after-IsValid (dequeue_wait ctx_done q) q v (dequeue_wait-LeavesValid ctx_done q v)
call-IsValid (finishes key) q v = done-IsValid key q v

calls_keep : (cs : List Call) (q : KeyedAppQueue) → IsValid q → IsValid (calls cs q)
unfolding calls
calls_keep [] q v = v
calls_keep (c ∷ cs) q v = calls_keep cs (call c q) (call-IsValid c q v)

-- Whatever calls of Enqueue, DequeueWait and Done are made on a new queue, in any order and with
-- any keys, the queue is valid: the pointers of its key map, the order, the keys being processed
-- and the pending updates fit together.
pub calls-IsValid : (cs : List Call) → IsValid (calls cs new_keyed_app_queue)
calls-IsValid cs = calls_keep cs new_keyed_app_queue new_keyed_app_queue-IsValid
