-- ===== src/Controller/Workers/Flights.antt =====
-- The items that have left the queue and are not finished, counted by key.
use argocd_monorepo_controll.Base.{
  ℕ, zero, suc, ◌+◌, ◌≡◌, refl, Text, text_eq, Bool, true, false, List, [], ◌∷◌, ◌++◌, none, some,
  arith, get_elem?, set, replicate,
}
use argocd_monorepo_controll.Controller.Queue.{AppQueueItem}
use argocd_monorepo_controll.Controller.Queue.View.{KeyState, idle, waiting, running, stale}
use argocd_monorepo_controll.Controller.Workers.{
  Worker, Dispatcher, WorkerPool, busy, exited, at_top, in_wait, sending, returned,
}

abbrev pub bit : Bool → ℕ
bit true = 1
bit false = 0

abbrev pub count_key : Text → List AppQueueItem → ℕ
count_key k [] = 0
count_key k (item ∷ items) = bit (text_eq item.key k) + count_key k items

abbrev pub held : Dispatcher → List AppQueueItem
held at_top = []
held in_wait = []
held (sending item) = item ∷ []
held (returned none) = []
held (returned (some item)) = item ∷ []

abbrev pub job : Worker → List AppQueueItem
job Worker.idle = []
job (busy item) = item ∷ []
job exited = []

abbrev pub count_workers : Text → List Worker → ℕ
count_workers k [] = 0
count_workers k (w ∷ ws) = count_key k (job w) + count_workers k ws

abbrev pub flights : Text → WorkerPool → ℕ
flights k p = count_key k (held p.dispatcher) + count_key k p.job_chan + count_workers k p.workers

pub count_key-append :
    (k : Text) (xs ys : List AppQueueItem)
    → count_key k (xs ++ ys) ≡ count_key k xs + count_key k ys
count_key-append k [] ys = omega arith
count_key-append k (x ∷ xs) ys = omega (arith, count_key-append k xs ys)

pub count_workers-set :
    (k : Text) (ws : List Worker) (i : ℕ) (w v : Worker)
    → get_elem? ws i ≡ some w
    → count_workers k (set ws i v) + count_key k (job w) ≡ count_workers k ws + count_key k (job v)
count_workers-set k [] i w v e = cc
count_workers-set k (x ∷ ws) zero w v e = ground arith
count_workers-set k (x ∷ ws) (suc i) w v e = omega (arith, count_workers-set k ws i w v e)

pub count_workers-replicate : (k : Text) (n : ℕ) → count_workers k (replicate n Worker.idle) ≡ 0
count_workers-replicate k zero = refl
count_workers-replicate k (suc n) = omega (arith, count_workers-replicate k n)

-- Whether a key is being processed.
abbrev pub is_active : KeyState → Bool
is_active idle = false
is_active (waiting _) = false
is_active running = true
is_active (stale _) = true
