-- ===== src/Controller/Queue/View.antt =====
-- What KeyedAppQueue promises: a state machine for each key, and one order of the waiting keys.
pub mod Enqueue
pub mod Done
pub mod Dequeue
use argocd_monorepo_controll.Base.{
  ◌+◌, ◌≡◌, refl, sym, ap, subst, ◌∙◌, inl, inr, Text, Map, lookup, insert, delete, has,
  lookup-insert, lookup-delete, lookup-insert_self, text_eq, text_eq_iff, text_eq_refl, Bool, true,
  false, List, [], ◌∷◌, ◌++◌, Option, none, some, arith, Bool-cases, Option-cases, if◌then◌else◌,
  fun_ext, ==_iff,
}
use argocd_monorepo_controll.App.{Application}
use argocd_monorepo_controll.Controller.Queue.{
  AppQueueItem, Element, KeyedAppQueue, app_key, report_queue_length, signal, place, enqueue_locked,
  enqueue, dequeue_wait, dequeued, blocked, cancelled, Waited, take_front, requeue, done, remove,
  remove_cell,
}
use argocd_monorepo_controll.Controller.Queue.Cells.{contents}
use argocd_monorepo_controll.Controller.Queue.Invariant.{IsValid, lookup-IsKeyedEntry, queued}
use argocd_monorepo_controll.Controller.Queue.Invariant.Enqueue.{Places, place-Places}
use argocd_monorepo_controll.Controller.Queue.Invariant.Done.{
  delete_of_lookup-none, release-IsValid,
}

-- An application is not in the queue, waits with its latest version, is being processed, or is
-- being processed while a newer version waits for it.
pub data KeyState : Type 0 where
  idle : KeyState
  waiting : Application → KeyState
  running : KeyState
  stale : Application → KeyState

abbrev pub state_of : Bool → Option Application → Option Application → KeyState
state_of true none w = running
state_of true (some app) w = stale app
state_of false p none = idle
state_of false p (some app) = waiting app

abbrev pub key_state : KeyedAppQueue → Text → KeyState
key_state q k = state_of (has k q.processing) (lookup k q.pending) (lookup k (queued q))

abbrev pub keys : Map Application → List Text
keys [] = []
keys ((k, v) ∷ m) = k ∷ keys m

pub record View : Type 0 where
  pub order : List Text
  pub state : Text → KeyState

abbrev pub view : KeyedAppQueue → View
view q = record { order = keys (queued q); state = key_state q }

abbrev pub update : Text → KeyState → (Text → KeyState) → Text → KeyState
update k s f j = if text_eq k j then s else f j

-- A new version of an application replaces the one that waits.
abbrev pub on_update : Application → KeyState → KeyState
on_update app idle = waiting app
on_update app (waiting _) = waiting app
on_update app running = stale app
on_update app (stale _) = stale app

abbrev pub join : Text → KeyState → List Text → List Text
join k idle ks = ks ++ k ∷ []
join k _ ks = ks

abbrev pub enqueued : Application → View → View
enqueued app v = record {
  order = join (app_key app) (v.state (app_key app)) v.order;
  state = update (app_key app) (on_update app (v.state (app_key app))) v.state;
}

abbrev pub after_done : Text → KeyState → View → View
after_done k idle v = v
after_done k (waiting _) v = v
after_done k running v = record v { state = update k idle v.state }
after_done k (stale app) v = record {
  order = v.order ++ k ∷ [];
  state = update k (waiting app) v.state;
}

abbrev pub finished : Text → View → View
finished k v = after_done k (v.state k) v

keys-insert-none :
    (k : Text) (app : Application) (m : Map Application)
    → lookup k m ≡ none
    → keys (insert k app m) ≡ keys m ++ k ∷ []
unfolding lookup insert
keys-insert-none k app [] e = refl
keys-insert-none k app ((j, w) ∷ m) e = ground (arith, keys-insert-none k app m)

keys-insert-some :
    (k : Text) (app w : Application) (m : Map Application)
    → lookup k m ≡ some w
    → keys (insert k app m) ≡ keys m
unfolding lookup insert
keys-insert-some k app w [] e = cc
keys-insert-some k app w ((j, u) ∷ m) e =
    ground (arith, text_eq_iff j k, keys-insert-some k app w m)

view-report_queue_length : (q : KeyedAppQueue) → view (report_queue_length q) ≡ view q
unfolding report_queue_length
view-report_queue_length q = elim (Option-cases q.length_gauge) [
  | inl e ↦ rw (e, report_queue_length)
  | inr (g, e) ↦ rw (e, report_queue_length)
]

view_path : {v w : View} → v.order ≡ w.order → ((k : Text) → v.state k ≡ w.state k) → v ≡ w
view_path p h = λ i. record { order = p i; state = λ k. h k i }
