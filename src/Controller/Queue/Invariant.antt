-- ===== src/Controller/Queue/Invariant.antt =====
-- The well-formedness of KeyedAppQueue.
pub mod Enqueue
pub mod Dequeue
pub mod Done
pub mod Calls
use argocd_monorepo_controll.Base.{
  ℕ, ◌<◌, ◌≡◌, refl, sym, ap, subst, ◌∙◌, inl, inr, Text, Map, lookup, insert, delete, has,
  HasNodupKeys, insert-HasNodupKeys, delete-HasNodupKeys, lookup-Absent, lookup-insert,
  lookup-delete, text_eq, text_eq_iff, Bool, true, false, List, [], ◌∷◌, Option, none, some, All,
  All-append, arith, Bool-cases, Option-cases, ==_iff, if◌then◌else◌, is_some,
}
use argocd_monorepo_controll.App.{Application}
use argocd_monorepo_controll.Controller.Queue.{
  AppQueueItem, Element, KeyedAppQueue, new_keyed_app_queue, app_key, report_queue_length, signal,
  place, enqueue_locked, dequeue_wait, dequeued, blocked, cancelled, Waited, take_front, requeue,
  done, remove, remove_cell,
}
use argocd_monorepo_controll.Controller.Queue.Cells.{
  contents, pointers, HasFreshIds, contents-replace, contents-append, HasFreshIds-replace,
  HasFreshIds-append, All-replace, pointer_listed, contents-pointers,
}

-- The queued applications by key, in queue order.
abbrev pub queued : KeyedAppQueue → Map Application
queued q = contents q.items.cells

abbrev pub IsKeyed : AppQueueItem → Type 0
IsKeyed item = item.key ≡ app_key item.value

abbrev pub IsKeyedEntry : Text × Application → Type 0
IsKeyedEntry e = e.0 ≡ app_key e.1

-- `keyMap` points to the element of each queued key; addresses and keys are not used twice; each
-- item and update lies under its application's own key; a key that is being processed is not
-- queued; updates are pending only for keys that are being processed.
pub record IsValid (q : KeyedAppQueue) : Type 0 where
  pub linked : (k : Text) → lookup k q.key_map ≡ lookup k (pointers q.items.cells)
  pub positive : 0 < q.items.next
  pub fresh : HasFreshIds q.items.next q.items.cells
  pub distinct : HasNodupKeys (queued q)
  pub keyed : All (λ c. IsKeyed c.item) q.items.cells
  pub keyed_pending : All IsKeyedEntry q.pending
  pub apart : (k : Text) → has k q.processing ≡ true → lookup k (queued q) ≡ none
  pub covered : (k : Text) → has k q.processing ≡ false → lookup k q.pending ≡ none
  pub distinct_pending : HasNodupKeys q.pending

pub new_keyed_app_queue-IsValid : IsValid new_keyed_app_queue
unfolding new_keyed_app_queue lookup
new_keyed_app_queue-IsValid = record {
  linked = λ k. refl;
  positive = omega arith;
  fresh = tt;
  distinct = tt;
  keyed = tt;
  keyed_pending = tt;
  apart = λ k h. refl;
  covered = λ k h. refl;
  distinct_pending = tt;
}

report_queue_length-IsValid : (q : KeyedAppQueue) → IsValid q → IsValid (report_queue_length q)
unfolding report_queue_length
report_queue_length-IsValid q v = elim (Option-cases q.length_gauge) [
  | inl e ↦ rw (e, report_queue_length) v
  | inr (g, e) ↦
      rw (e, report_queue_length)
        (record {
          linked = v.linked;
          positive = v.positive;
          fresh = v.fresh;
          distinct = v.distinct;
          keyed = v.keyed;
          keyed_pending = v.keyed_pending;
          apart = v.apart;
          covered = v.covered;
          distinct_pending = v.distinct_pending;
        })
]

signal-IsValid : (q : KeyedAppQueue) → IsValid q → IsValid (signal q)
unfolding signal
signal-IsValid q v = record {
  linked = v.linked;
  positive = v.positive;
  fresh = v.fresh;
  distinct = v.distinct;
  keyed = v.keyed;
  keyed_pending = v.keyed_pending;
  apart = v.apart;
  covered = v.covered;
  distinct_pending = v.distinct_pending;
}

All-insert :
    (k : Text) (app : Application) (m : Map Application)
    → k ≡ app_key app
    → All IsKeyedEntry m
    → All IsKeyedEntry (insert k app m)
unfolding insert
All-insert k app [] e h = (e, tt)
All-insert k app ((j, w) ∷ m) e h = elim (Bool-cases (text_eq j k)) [
  | inl hit ↦ rw hit (e, h.1)
  | inr miss ↦ rw miss (h.0, All-insert k app m e h.1)
]

All-delete : (k : Text) (m : Map Application) → All IsKeyedEntry m → All IsKeyedEntry (delete k m)
unfolding delete
All-delete k [] h = tt
All-delete k ((j, w) ∷ m) h = elim (Bool-cases (text_eq j k)) [
  | inl hit ↦ rw hit (All-delete k m h.1)
  | inr miss ↦ rw miss (h.0, All-delete k m h.1)
]

pub lookup-IsKeyedEntry :
    (k : Text) (app : Application) (m : Map Application)
    → All IsKeyedEntry m
    → lookup k m ≡ some app
    → k ≡ app_key app
unfolding lookup
lookup-IsKeyedEntry k app [] h e = cc
lookup-IsKeyedEntry k app ((j, w) ∷ m) h e =
    ground (arith, text_eq_iff j k, lookup-IsKeyedEntry k app m h.1)
