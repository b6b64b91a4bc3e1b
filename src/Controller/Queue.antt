-- ===== src/Controller/Queue.antt =====
-- mrp_controller/controller/appqueue.go: KeyedAppQueue, over a model of container/list.
--
-- The `*list.Element` pointers that `keyMap` holds are numbers that are given out once each; 0 is
-- the nil pointer. `notEmpty` is the number of goroutines that are blocked in `Wait`. The mutex is
-- held through each operation, so an operation is one function on the state.
pub mod Cells
pub mod Invariant
pub mod View
use argocd_monorepo_controll.Base.{
  ℕ, suc, ◌+◌, ◌-◌, Text, codes, Map, lookup, insert, delete, has, Bool, List, [], ◌∷◌, ◌++◌,
  Option, none, some, length, any, ◌==◌, if◌then◌else◌,
}
use argocd_monorepo_controll.App.{Application}

pub record AppQueueItem : Type 0 where
  pub key : Text
  pub value : Application

-- list.Element: its address and its value.
pub record Element : Type 0 where
  pub id : ℕ
  pub item : AppQueueItem

-- list.List: the elements in order, and the next address that the allocator gives out.
pub record Elements : Type 0 where
  pub cells : List Element
  pub next : ℕ

abbrev pub nil_element : ℕ
nil_element = 0

pub insert_cell : Element → ℕ → List Element → List Element
insert_cell new mark [] = []
insert_cell new mark (c ∷ cs) = if c.id == mark then c ∷ new ∷ cs else c ∷ insert_cell new mark cs

pub remove_cell : ℕ → List Element → List Element
remove_cell elem [] = []
remove_cell elem (c ∷ cs) = if c.id == elem then cs else c ∷ remove_cell elem cs

-- `InsertAfter`: a mark that is no element of the list leaves it alone, and the result is nil.
insert_after : AppQueueItem → ℕ → Elements → Elements × ℕ
unfolding insert_cell
insert_after item mark es =
    if any (λ c. c.id == mark) es.cells
    then (
      record {
        cells = insert_cell (record { id = es.next; item = item }) mark es.cells;
        next = suc es.next;
      },
      es.next,
    )
    else (es, nil_element)

remove : ℕ → Elements → Elements
unfolding remove_cell
remove elem es = record es { cells = remove_cell elem es.cells }

push_back : AppQueueItem → Elements → Elements × ℕ
push_back item es = (
  record { cells = es.cells ++ (record { id = es.next; item = item }) ∷ []; next = suc es.next },
  es.next,
)

pub record KeyedAppQueue : Type 0 where
  pub items : Elements
  pub key_map : Map ℕ
  pub processing : Map (Unit {0})
  pub pending : Map Application
  pub not_empty : ℕ
  pub length_gauge : Option ℕ

unfoldable pub new_keyed_app_queue : KeyedAppQueue
new_keyed_app_queue = record {
  items = record { cells = []; next = 1 };
  key_map = [];
  processing = [];
  pending = [];
  not_empty = 0;
  length_gauge = none;
}

unfoldable pub app_key : Application → Text
app_key app = app.namespace ++ (codes "/" ++ app.name)

unfoldable pub report_queue_length : KeyedAppQueue → KeyedAppQueue
report_queue_length q = elim q.length_gauge [
  | none ↦ q
  | some _ ↦ record q { length_gauge = some (length q.items.cells + length q.pending) }
]

unfoldable pub set_length_gauge : ℕ → KeyedAppQueue → KeyedAppQueue
unfolding report_queue_length
set_length_gauge g q = report_queue_length (record q { length_gauge = some g })

-- `notEmpty.Signal()` wakes one blocked goroutine, if there is one.
unfoldable pub signal : KeyedAppQueue → KeyedAppQueue
signal q = record q { not_empty = q.not_empty - 1 }

-- The two branches on `keyMap[key]`.
unfoldable pub place : AppQueueItem → Option ℕ → KeyedAppQueue → KeyedAppQueue
unfolding insert_after remove push_back
place item none q =
    let (items, new_elem) = push_back item q.items in
    record q { items = items; key_map = insert item.key new_elem q.key_map }
place item (some elem) q =
    let (items, new_elem) = insert_after item elem q.items in
    record q { items = remove elem items; key_map = insert item.key new_elem q.key_map }

unfoldable pub enqueue_locked : Application → KeyedAppQueue → KeyedAppQueue
unfolding report_queue_length signal app_key
enqueue_locked app q =
    let key = app_key app in
    if has key q.processing
    then report_queue_length (record q { pending = insert key app q.pending })
    else report_queue_length
        (signal (place (record { key = key; value = app }) (lookup key q.key_map) q))

-- `Enqueue` holds the lock around `enqueueLocked`.
unfoldable pub enqueue : Application → KeyedAppQueue → KeyedAppQueue
unfolding enqueue_locked
enqueue app q = enqueue_locked app q

-- One round of `DequeueWait`: the context is done, the goroutine blocks, or an item comes out.
pub data Waited : Type 0 where
  cancelled : Waited
  blocked : KeyedAppQueue → Waited
  dequeued : AppQueueItem → KeyedAppQueue → Waited

unfoldable pub take_front : List Element → KeyedAppQueue → Bool → Waited
unfolding report_queue_length remove
take_front [] q ctx_done =
    if ctx_done then cancelled else blocked (record q { not_empty = q.not_empty + 1 })
take_front (elem ∷ _) q ctx_done = dequeued elem.item (
    report_queue_length (record q {
      items = remove elem.id q.items;
      key_map = delete elem.item.key q.key_map;
      processing = insert elem.item.key tt q.processing;
    }))

unfoldable pub dequeue_wait : Bool → KeyedAppQueue → Waited
unfolding take_front
dequeue_wait ctx_done q = take_front q.items.cells q ctx_done

unfoldable pub requeue : Text → Option Application → KeyedAppQueue → KeyedAppQueue
unfolding enqueue_locked
requeue key none q = q
requeue key (some app) q = enqueue_locked app (record q { pending = delete key q.pending })

unfoldable pub done : Text → KeyedAppQueue → KeyedAppQueue
unfolding requeue
done key q =
    if has key q.processing
    then requeue key (lookup key q.pending) (record q { processing = delete key q.processing })
    else q
