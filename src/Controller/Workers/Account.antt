-- ===== src/Controller/Workers/Account.antt =====
-- Where the latest version of each application is: in the queue, in flight, or handled.
use argocd_monorepo_controll.Base.{
  ℕ, zero, suc, ◌≡◌, sym, subst, ◌∙◌, Text, text_eq, text_eq_iff, List, [], ◌∷◌, Option, none, some,
  arith, if◌then◌else◌, get_elem?, set, All,
}
use argocd_monorepo_controll.App.{Application}
use argocd_monorepo_controll.Controller.Queue.{AppQueueItem, app_key}
use argocd_monorepo_controll.Controller.Queue.View.{
  KeyState, key_state, idle, waiting, running, stale,
}
use argocd_monorepo_controll.Controller.Workers.{
  Worker, WorkerPool, busy, Label, arrived, handled, internal,
}
use argocd_monorepo_controll.Controller.Workers.Flights.{count_key, held, job, count_workers}

-- The latest version of an application that arrived.
unfoldable pub latest : Text → List Label → Option Application
latest k [] = none
latest k (arrived app ∷ ls) = if text_eq (app_key app) k then some app else latest k ls
latest k (handled item ∷ ls) = latest k ls
latest k (internal ∷ ls) = latest k ls

-- The version with which the application was last handled to the end.
unfoldable pub last_handled : Text → List Label → Option Application
last_handled k [] = none
last_handled k (arrived app ∷ ls) = last_handled k ls
last_handled k (handled item ∷ ls) =
    if text_eq item.key k then some item.value else last_handled k ls
last_handled k (internal ∷ ls) = last_handled k ls

-- An item of this key holds this version.
abbrev pub Fits : Text → Application → AppQueueItem → Type 0
Fits k v item = item.key ≡ k → item.value ≡ v

-- Every item of the key in flight holds this version.
pub record Carries (k : Text) (v : Application) (p : WorkerPool) : Type 0 where
  pub in_hand : All (Fits k v) (held p.dispatcher)
  pub in_chan : All (Fits k v) p.job_chan
  pub in_work : All (λ w. All (Fits k v) (job w)) p.workers

abbrev pub Accounted : List Label → WorkerPool → Text → Application → KeyState → Type 0
Accounted ls p k v idle = last_handled k ls ≡ some v
Accounted ls p k v (waiting a) = a ≡ v
Accounted ls p k v running = Carries k v p
Accounted ls p k v (stale a) = a ≡ v

abbrev pub IsKept : List Label → WorkerPool → Type 0
IsKept ls p =
    (k : Text) (v : Application) → latest k ls ≡ some v → Accounted ls p k v (key_state p.queue k)

pub vacuous :
    (k : Text) (v : Application) (xs : List AppQueueItem) → count_key k xs ≡ 0 → All (Fits k v) xs
vacuous k v [] e = tt
vacuous k v (x ∷ xs) e = (
  (λ same. absurd (omega (arith, rw ((text_eq_iff x.key k).1 same) at e))),
  vacuous k v xs (omega (arith, e)),
)

pub vacuous_work :
    (k : Text) (v : Application) (ws : List Worker)
    → count_workers k ws ≡ 0
    → All (λ w. All (Fits k v) (job w)) ws
vacuous_work k v [] e = tt
vacuous_work k v (w ∷ ws) e =
    (vacuous k v (job w) (omega (arith, e)), vacuous_work k v ws (omega (arith, e)))

pub work-set :
    (k : Text) (v : Application) (ws : List Worker) (i : ℕ) (w : Worker)
    → All (Fits k v) (job w)
    → All (λ w. All (Fits k v) (job w)) ws
    → All (λ w. All (Fits k v) (job w)) (set ws i w)
work-set k v [] i w f h = tt
work-set k v (x ∷ ws) zero w f h = (f, h.1)
work-set k v (x ∷ ws) (suc i) w f h = (h.0, work-set k v ws i w f h.1)

pub work-get :
    (k : Text) (v : Application) (ws : List Worker) (i : ℕ) (item : AppQueueItem)
    → get_elem? ws i ≡ some (busy item)
    → All (λ w. All (Fits k v) (job w)) ws
    → Fits k v item
work-get k v [] i item e h = cc
work-get k v (w ∷ ws) zero item e h =
    let here : w ≡ busy item = cc in (subst (λ x. All (Fits k v) (job x)) here h.0).0
work-get k v (w ∷ ws) (suc i) item e h = work-get k v ws i item e h.1

-- A step that changes no key's state and no log keeps the account, if it only moves items.
module _ (p r : WorkerPool) (ls ms : List Label)
    (same : (k : Text) → key_state r.queue k ≡ key_state p.queue k)
    (same_latest : (k : Text) → latest k ms ≡ latest k ls)
    (same_handled : (k : Text) → last_handled k ms ≡ last_handled k ls)
    (moves : (k : Text) (v : Application) → Carries k v p → Carries k v r) where
  moved_state :
      (k : Text) (v : Application) (s : KeyState) → Accounted ls p k v s → Accounted ms r k v s
  moved_state k v idle a = same_handled k ∙ a
  moved_state k v (waiting x) a = a
  moved_state k v running a = moves k v a
  moved_state k v (stale x) a = a

  pub moved-IsKept : IsKept ls p → IsKept ms r
  moved-IsKept h k v e =
      subst (Accounted ms r k v) (sym (same k))
        (moved_state k v (key_state p.queue k) (h k v (sym (same_latest k) ∙ e)))
