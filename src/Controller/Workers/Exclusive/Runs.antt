-- ===== src/Controller/Workers/Exclusive/Runs.antt =====
-- Exclusion through whole runs.
use argocd_monorepo_controll.Base.{
  ℕ, zero, suc, ◌+◌, ◌≤◌, ◌≡◌, ◌≢◌, refl, ap, subst, ◌∙◌, inl, inr, Text, text_eq, text_eq_refl,
  text_eq_iff, Bool, true, false, List, [], ◌∷◌, some, arith, if◌then◌else◌, get_elem?, Bool-cases,
  lookup,
}
use argocd_monorepo_controll.Controller.Queue.{
  KeyedAppQueue, AppQueueItem, done, new_keyed_app_queue,
}
use argocd_monorepo_controll.Controller.Queue.Invariant.{IsValid, new_keyed_app_queue-IsValid}
use argocd_monorepo_controll.Controller.Queue.Invariant.Done.{done-IsValid}
use argocd_monorepo_controll.Controller.Queue.View.{
  View, KeyState, key_state, idle, waiting, running, stale, view, after_done,
}
use argocd_monorepo_controll.Controller.Queue.View.Done.{done-view}
use argocd_monorepo_controll.Controller.Workers.{
  Worker, WorkerPool, new_worker_pool, busy, dispatch, give_up, receive, finish, stop, Label, Step,
  enqueues, stops, dispatches, gives_up, receives, finishes, Reach, start, after,
}
use argocd_monorepo_controll.Controller.Workers.Flights.{
  bit, count_workers, count_workers-set, is_active, count_workers-replicate,
}
use argocd_monorepo_controll.Controller.Workers.Exclusive.{
  IsExclusive, enqueue-IsExclusive, dispatch-IsExclusive, give_up-IsExclusive, receive-IsExclusive,
}

pub count-le :
    (k : Text) (item : AppQueueItem) (ws : List Worker) (i : ℕ)
    → get_elem? ws i ≡ some (busy item)
    → bit (text_eq item.key k) ≤ count_workers k ws
count-le k item [] i e = cc
count-le k item (w ∷ ws) zero e = ground arith
count-le k item (w ∷ ws) (suc i) e = omega (arith, count-le k item ws i e)

-- A state that is not active stays so.
unchanged_active :
    (key : Text) (s : KeyState) (v : View) (k : Text)
    → is_active s ≡ false
    → v.state key ≡ s
    → is_active (v.state k) ≡ (if text_eq key k then false else is_active (v.state k))
unchanged_active key s v k a e = elim (Bool-cases (text_eq key k)) [
  | inl same ↦ rw same (ap is_active (subst (λ j. v.state j ≡ s) ((text_eq_iff _ _).0 same) e) ∙ a)
  | inr ne ↦ rw ne
]

after_done_active :
    (key : Text) (s : KeyState) (v : View) (k : Text)
    → v.state key ≡ s
    → is_active ((after_done key s v).state k)
      ≡ (if text_eq key k then false else is_active (v.state k))
after_done_active key idle v k e = unchanged_active key idle v k refl e
after_done_active key (waiting app) v k e = unchanged_active key (waiting app) v k refl e
after_done_active key running v k e = ground arith
after_done_active key (stale app) v k e = ground arith

pub finished_active :
    (key : Text) (q : KeyedAppQueue) (k : Text)
    → IsValid q
    → is_active (key_state (done key q) k)
      ≡ (if text_eq key k then false else is_active (key_state q k))
finished_active key q k v =
    ap (λ w. is_active (w.state k)) (done-view key q v)
    ∙ after_done_active key (key_state q key) (view q) k refl

pub bit-le : (b : Bool) → bit b ≤ 1
bit-le true = omega arith
bit-le false = omega arith

finish-IsExclusive :
    (i : ℕ) (item : AppQueueItem) (p : WorkerPool)
    → get_elem? p.workers i ≡ some (busy item)
    → IsExclusive p
    → IsExclusive (finish i item p)
unfolding finish
finish-IsExclusive i item p w x = record {
  valid = done-IsValid item.key p.queue x.valid;
  counted = λ k.
      let now = finished_active item.key p.queue k x.valid in
      let moved = count_workers-set k p.workers i (busy item) Worker.idle w in
      rw now (elim (Bool-cases (text_eq item.key k)) [
        | inl same ↦
            rw same (
              omega
                (arith, rw same at moved, x.counted k, bit-le (is_active (key_state p.queue k))))
        | inr ne ↦ rw ne (omega (arith, rw ne at moved, x.counted k))
      ]);
}

pub Step-IsExclusive : {p r : WorkerPool} {l : Label} → Step p l r → IsExclusive p → IsExclusive r
unfolding dispatch give_up receive stop
Step-IsExclusive {p} (enqueues app) x = enqueue-IsExclusive app p x
Step-IsExclusive {p} stops x = record { valid = x.valid; counted = x.counted }
Step-IsExclusive {p} {r} (dispatches s) x = dispatch-IsExclusive p.dispatcher p r refl s x
Step-IsExclusive {p} {r} (gives_up s) x = give_up-IsExclusive p.dispatcher p r refl s x
Step-IsExclusive {p} {r} (receives i s) x =
    receive-IsExclusive (get_elem? p.workers i) i p r refl s x
Step-IsExclusive {p} (finishes i item w) x = finish-IsExclusive i item p w x

pub Reach-IsExclusive :
    {s p : WorkerPool} {ls : List Label} → Reach s ls p → IsExclusive s → IsExclusive p
Reach-IsExclusive start x = x
Reach-IsExclusive (after h st) x = Step-IsExclusive st (Reach-IsExclusive h x)

pub new_worker_pool-IsExclusive : (n : ℕ) → IsExclusive (new_worker_pool new_keyed_app_queue n)
unfolding new_worker_pool new_keyed_app_queue lookup
new_worker_pool-IsExclusive n = record {
  valid = new_keyed_app_queue-IsValid;
  counted = λ k. omega (arith, count_workers-replicate k n);
}

count-two :
    (k : Text) (a b : AppQueueItem) (ws : List Worker) (i j : ℕ)
    → i ≢ j
    → get_elem? ws i ≡ some (busy a)
    → get_elem? ws j ≡ some (busy b)
    → bit (text_eq a.key k) + bit (text_eq b.key k) ≤ count_workers k ws
count-two k a b [] i j d e f = cc
count-two k a b (w ∷ ws) zero zero d e f = absurd (d refl)
count-two k a b (w ∷ ws) zero (suc j) d e f = ground (arith, count-le k b ws j f)
count-two k a b (w ∷ ws) (suc i) zero d e f = ground (arith, count-le k a ws i e)
count-two k a b (w ∷ ws) (suc i) (suc j) d e f =
    omega (arith, count-two k a b ws i j (λ h. d (ap suc h)) e f)

-- In a run of a pool on a new queue, two different workers that are busy at the same point have
-- items of different applications.
pub workers_exclusive :
    (n : ℕ) (ls : List Label) (p : WorkerPool) (i j : ℕ) (a b : AppQueueItem)
    → Reach (new_worker_pool new_keyed_app_queue n) ls p
    → i ≢ j
    → get_elem? p.workers i ≡ some (busy a)
    → get_elem? p.workers j ≡ some (busy b)
    → a.key ≢ b.key
workers_exclusive n ls p i j a b h d e f same =
    let x = Reach-IsExclusive h (new_worker_pool-IsExclusive n) in
    let two = count-two b.key a b p.workers i j d e f in
    let ba = (text_eq_iff a.key b.key).1 same in
    omega (
      arith,
      rw (ba, text_eq_refl b.key) at two,
      x.counted b.key,
      bit-le (is_active (key_state p.queue b.key)),
    )
