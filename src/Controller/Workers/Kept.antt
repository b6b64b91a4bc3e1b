-- ===== src/Controller/Workers/Kept.antt =====
-- The latest version of an application through the runs of WorkerPool.
use argocd_monorepo_controll.Base.{
  ℕ, ◌≡◌, refl, sym, ap, subst, ◌∙◌, inl, inr, Text, text_eq, text_eq_refl, text_eq_iff, Bool, true,
  false, List, [], ◌∷◌, Option, none, some, arith, get_elem?, has, lookup, Bool-cases,
}
use argocd_monorepo_controll.App.{Application}
use argocd_monorepo_controll.Controller.Queue.{AppQueueItem, new_keyed_app_queue}
use argocd_monorepo_controll.Controller.Queue.Invariant.{queued}
use argocd_monorepo_controll.Controller.Queue.View.{
  View, KeyState, key_state, state_of, idle, waiting, running, stale, view, after_done,
}
use argocd_monorepo_controll.Controller.Queue.View.Done.{done-view}
use argocd_monorepo_controll.Controller.Workers.{
  Worker, WorkerPool, new_worker_pool, busy, dispatch, give_up, receive, finish, stop, Label, Step,
  enqueues, stops, dispatches, gives_up, receives, finishes, Reach, start, after, handled,
}
use argocd_monorepo_controll.Controller.Workers.Flights.{bit, flights, is_active}
use argocd_monorepo_controll.Controller.Workers.Exclusive.{IsExclusive}
use argocd_monorepo_controll.Controller.Workers.Exclusive.Runs.{
  Reach-IsExclusive, new_worker_pool-IsExclusive, count-le,
}
use argocd_monorepo_controll.Controller.Workers.Account.{
  latest, last_handled, Carries, Accounted, IsKept, work-set, work-get,
}
use argocd_monorepo_controll.Controller.Workers.Moves.{
  enqueue-IsKept, dispatch-IsKept, give_up-IsKept, receive-IsKept, quiet-IsKept,
}

after_done_other :
    (key : Text) (s : KeyState) (v : View) (k : Text)
    → text_eq key k ≡ false
    → (after_done key s v).state k ≡ v.state k
after_done_other key idle v k ne = refl
after_done_other key (waiting a) v k ne = refl
after_done_other key running v k ne = rw ne
after_done_other key (stale a) v k ne = rw ne

-- Worker `i` ends the handling of `item`.
module _ (i : ℕ) (item : AppQueueItem) (p : WorkerPool) (ls : List Label)
    (w : get_elem? p.workers i ≡ some (busy item)) (x : IsExclusive p) (h : IsKept ls p) where
  abbrev log : List Label
  log = handled item ∷ ls

  -- The key is being processed, so that it is neither idle nor waiting.
  not_inactive : (s : KeyState) → key_state p.queue item.key ≡ s → is_active s ≡ true
  not_inactive s e =
      let busy_here = count-le item.key item p.workers i w in
      let count = x.counted item.key ∙ ap (λ t. bit (is_active t)) e in
      elim (Bool-cases (is_active s)) [
        | inl a ↦ a
        | inr a ↦ absurd (omega (arith, rw (text_eq_refl item.key) at busy_here, rw a at count))
      ]

  finish_self :
      (v : Application) (s : KeyState)
      → key_state p.queue item.key ≡ s
      → Accounted ls p item.key v s
      → Accounted log
          (finish i item p)
          item.key
          v
          ((after_done item.key s (view p.queue)).state item.key)
  unfolding last_handled
  finish_self v idle e a = cc (not_inactive idle e)
  finish_self v (waiting y) e a = cc (not_inactive (waiting y) e)
  finish_self v running e a =
      rw (text_eq_refl item.key) (
        rw (text_eq_refl item.key)
          (ap some (work-get item.key v p.workers i item w a.in_work refl)))
  finish_self v (stale y) e a = rw (text_eq_refl item.key) a

  finish_other :
      (k : Text) (v : Application) (s : KeyState)
      → text_eq item.key k ≡ false
      → Accounted ls p k v s
      → Accounted log (finish i item p) k v s
  unfolding finish last_handled
  finish_other k v idle ne a = rw ne a
  finish_other k v (waiting y) ne a = a
  finish_other k v running ne a = record {
    in_hand = a.in_hand;
    in_chan = a.in_chan;
    in_work = work-set k v p.workers i Worker.idle tt a.in_work;
  }
  finish_other k v (stale y) ne a = a

  done_state :
      (k : Text)
      → key_state (finish i item p).queue k
        ≡ (after_done item.key (key_state p.queue item.key) (view p.queue)).state k
  unfolding finish
  done_state k = ap (λ u. u.state k) (done-view item.key p.queue x.valid)

  finish-IsKept : IsKept log (finish i item p)
  unfolding latest
  finish-IsKept k v l = elim (Bool-cases (text_eq item.key k)) [
    | inl same ↦
        subst (λ j. Accounted log (finish i item p) j v (key_state (finish i item p).queue j))
          ((text_eq_iff _ _).0 same)
          (subst (Accounted log (finish i item p) item.key v) (sym (done_state item.key)) (
            finish_self v (key_state p.queue item.key) refl (
              h item.key v (subst (λ j. latest j ls ≡ some v) (sym ((text_eq_iff _ _).0 same)) l))))
    | inr ne ↦
        subst (Accounted log (finish i item p) k v)
          (sym (done_state k ∙ after_done_other item.key _ (view p.queue) k ne))
          (finish_other k v (key_state p.queue k) ne (h k v l))
  ]

Step-IsKept :
    {p r : WorkerPool} {l : Label} (ls : List Label)
    → Step p l r
    → IsExclusive p
    → IsKept ls p
    → IsKept (l ∷ ls) r
unfolding dispatch give_up receive stop
Step-IsKept {p} ls (enqueues app) x h = enqueue-IsKept app p ls x.valid h
Step-IsKept {p} ls stops x h =
    quiet-IsKept p (stop p) ls refl
      (λ k v c. record { in_hand = c.in_hand; in_chan = c.in_chan; in_work = c.in_work }) h
Step-IsKept {p} {r} ls (dispatches s) x h = dispatch-IsKept p.dispatcher p r ls refl s x h
Step-IsKept {p} {r} ls (gives_up s) x h = give_up-IsKept p.dispatcher p r ls refl s h
Step-IsKept {p} {r} ls (receives i s) x h = receive-IsKept (get_elem? p.workers i) i p r ls s h
Step-IsKept {p} ls (finishes i item w) x h = finish-IsKept i item p ls w x h

Reach-IsKept :
    {s p : WorkerPool} {ls : List Label} → Reach s ls p → IsExclusive s → IsKept [] s → IsKept ls p
Reach-IsKept start x h = h
Reach-IsKept (after {ls} r st) x h = Step-IsKept ls st (Reach-IsExclusive r x) (Reach-IsKept r x h)

latest-IsKept :
    (n : ℕ) (ls : List Label) (p : WorkerPool)
    → Reach (new_worker_pool new_keyed_app_queue n) ls p
    → IsKept ls p
unfolding latest
latest-IsKept n ls p r = Reach-IsKept r (new_worker_pool-IsExclusive n) (λ k v e. cc)

-- Exactly one item of the key is in flight: in the dispatcher's hand, in the channel or at a worker.
abbrev OneFlight : Text → WorkerPool → Type 0
OneFlight k p = flights k p ≡ 1

-- Where version `v` of an application is, by the state of its key.
abbrev pub Located : List Label → WorkerPool → Text → Application → KeyState → Type 0
Located ls p k v idle = last_handled k ls ≡ some v
Located ls p k v (waiting a) = (a ≡ v) × (flights k p ≡ 0)
Located ls p k v running = OneFlight k p × Carries k v p
Located ls p k v (stale a) = (a ≡ v) × OneFlight k p

located :
    (ls : List Label) (p : WorkerPool) (k : Text) (v : Application) (s : KeyState)
    → flights k p ≡ bit (is_active s)
    → Accounted ls p k v s
    → Located ls p k v s
located ls p k v idle e a = a
located ls p k v (waiting x) e a = (a, e)
located ls p k v running e a = (e, a)
located ls p k v (stale x) e a = (a, e)

-- At every point of every run of a pool on a new queue, the latest version of each application that
-- arrived is in one of four places, by the state of its key: it waits in the queue, with no item of
-- the key in flight; or it is set aside for the key's next turn, with exactly one item of the key in
-- flight; or exactly one item of the key is in flight, and holds this version; or it is the version
-- that was handled last.
pub latest-Located :
    (n : ℕ) (ls : List Label) (p : WorkerPool) (k : Text) (v : Application)
    → Reach (new_worker_pool new_keyed_app_queue n) ls p
    → latest k ls ≡ some v
    → Located ls p k v (key_state p.queue k)
latest-Located n ls p k v r l =
    located ls p k v (key_state p.queue k)
      ((Reach-IsExclusive r (new_worker_pool-IsExclusive n)).counted k)
      (latest-IsKept n ls p r k v l)

idle_of_quiet :
    (k : Text) (s : KeyState) (b : ℕ) → b ≡ 0 → b ≡ bit (is_active s) → is_active s ≡ false
idle_of_quiet k s b z e = elim (Bool-cases (is_active s)) [
  | inl a ↦ absurd (omega (arith, rw a at e))
  | inr a ↦ a
]

kept_when_quiet :
    (ls : List Label) (p : WorkerPool) (k : Text) (v : Application)
    → queued p.queue ≡ []
    → has k p.queue.processing ≡ false
    → Accounted ls p k v (key_state p.queue k)
    → last_handled k ls ≡ some v
unfolding lookup
kept_when_quiet ls p k v empty free a = rw (free, empty) at a

state_of_active : (b : Bool) (x y : Option Application) → is_active (state_of b x y) ≡ b
state_of_active true none y = refl
state_of_active true (some a) y = refl
state_of_active false x none = refl
state_of_active false x (some a) = refl

-- In a run of a pool on a new queue, once no key waits in the queue and no item of one key is in
-- flight, the application of that key, if it ever arrived, has been handled to the end last with
-- the latest version that arrived.
pub all_handled :
    (n : ℕ) (ls : List Label) (p : WorkerPool) (k : Text) (v : Application)
    → Reach (new_worker_pool new_keyed_app_queue n) ls p
    → queued p.queue ≡ []
    → flights k p ≡ 0
    → latest k ls ≡ some v
    → last_handled k ls ≡ some v
all_handled n ls p k v r empty quiet l =
    let x = Reach-IsExclusive r (new_worker_pool-IsExclusive n) in
    let free =
      sym (state_of_active _ _ _)
      ∙ idle_of_quiet k (key_state p.queue k) (flights k p) quiet (x.counted k) in
    kept_when_quiet ls p k v empty free (latest-IsKept n ls p r k v l)
