-- ===== src/Controller/Events.antt =====
-- mrp_controller/controller/eventhandler.go, and what controller.go subscribes to it.
--
-- A handler is a function on a state, with whether it returned no error, which is only logged. A
-- `*subscriber` pointer is a number that is given out once. The informer hands over an object,
-- which is `none` where it is no Application.
pub mod Wiring
use argocd_monorepo_controll.Base.{
  ℕ, suc, Text, lookup, Bool, true, false, List, [], ◌∷◌, ◌++◌, Option, none, some, ◌==◌,
  if◌then◌else◌, text_eq,
}
use argocd_monorepo_controll.App.{
  Application, ApplicationWatchEvent, EventType, added, modified, deleted, bookmark,
  annotation_key_manifest_generate_paths,
}
use argocd_monorepo_controll.Controller.Queue.{
  KeyedAppQueue, enqueue, new_keyed_app_queue, set_length_gauge,
}

pub record Subscriber (S : Type 0) : Type 0 where
  pub pointer : ℕ
  pub event_handler : ApplicationWatchEvent → S → Bool × S
  pub filters : List (ApplicationWatchEvent → Bool)

pub record AppEventHandler (S : Type 0) : Type 0 where
  pub subscribers : List (Subscriber S)
  pub next : ℕ

unfoldable pub new_app_event_handler : {S : Type 0} → AppEventHandler S
new_app_event_handler = record { subscribers = []; next = 1 }

unfoldable pub all_filters : List (ApplicationWatchEvent → Bool) → ApplicationWatchEvent → Bool
all_filters [] event = true
all_filters (filter ∷ filters) event = if filter event then all_filters filters event else false

module _ {S : Type 0} where
  unfoldable pub matches : Subscriber S → ApplicationWatchEvent → Bool
  unfolding all_filters
  matches s event = all_filters s.filters event

  -- The loop over the copy of the subscribers.
  unfoldable pub notify_all : List (Subscriber S) → ApplicationWatchEvent → S → S
  unfolding matches
  notify_all [] event state = state
  notify_all (s ∷ subscribers) event state =
      notify_all subscribers event
        (if matches s event then (s.event_handler event state).1 else state)

  unfoldable pub notify : AppEventHandler S → ApplicationWatchEvent → S → S
  unfolding notify_all
  notify b event state = notify_all b.subscribers event state

  -- The pointer stands for the function that `Subscribe` returns.
  unfoldable pub subscribe :
      (ApplicationWatchEvent → S → Bool × S)
      → List (ApplicationWatchEvent → Bool)
      → AppEventHandler S
      → ℕ × AppEventHandler S
  subscribe handler_func filters b = (
    b.next,
    record {
      subscribers =
          b.subscribers
          ++ (record { pointer = b.next; event_handler = handler_func; filters = filters }) ∷ [];
      next = suc b.next;
    },
  )

  unfoldable pub remove_subscriber : ℕ → List (Subscriber S) → List (Subscriber S)
  remove_subscriber pointer [] = []
  remove_subscriber pointer (s ∷ subscribers) =
      if s.pointer == pointer then subscribers else s ∷ remove_subscriber pointer subscribers

  unfoldable pub unsubscribe : ℕ → AppEventHandler S → AppEventHandler S
  unfolding remove_subscriber
  unsubscribe pointer b = record b { subscribers = remove_subscriber pointer b.subscribers }

  abbrev notify_of : EventType → AppEventHandler S → Option Application → S → S
  notify_of type b none state = state
  notify_of type b (some app) state = notify b (record { type = type; application = app }) state

  unfoldable pub on_add : AppEventHandler S → Option Application → S → S
  unfolding notify
  on_add b obj state = notify_of added b obj state

  unfoldable pub on_update : AppEventHandler S → Option Application → S → S
  unfolding notify
  on_update b new_obj state = notify_of modified b new_obj state

  unfoldable pub on_delete : AppEventHandler S → Option Application → S → S
  unfolding notify
  on_delete b obj state = notify_of deleted b obj state

-- The closures of `Run`.
unfoldable pub enqueue_func : ApplicationWatchEvent → KeyedAppQueue → Bool × KeyedAppQueue
unfolding enqueue
enqueue_func event app_queue = (true, enqueue event.application app_queue)

abbrev is_skipped : EventType → Bool
is_skipped bookmark = true
is_skipped deleted = true
is_skipped _ = false

unfoldable pub filter_func : ApplicationWatchEvent → Bool
unfolding lookup text_eq
filter_func event =
    if is_skipped event.type
    then false
    else elim (lookup annotation_key_manifest_generate_paths event.application.annotations) [
      | none ↦ false
      | some val ↦ if text_eq val [] then false else true
    ]

-- NewMonorepoController: the broadcaster and the queue, whose gauge is the metrics server's.
pub record MonorepoController : Type 0 where
  pub app_broadcaster : AppEventHandler KeyedAppQueue
  pub app_queue : KeyedAppQueue

unfoldable pub new_monorepo_controller : ℕ → MonorepoController
unfolding new_app_event_handler new_keyed_app_queue set_length_gauge
new_monorepo_controller gauge = record {
  app_broadcaster = new_app_event_handler;
  app_queue = set_length_gauge gauge new_keyed_app_queue;
}

-- `Run` up to its wait: the subscription.
unfoldable pub run : MonorepoController → ℕ × MonorepoController
unfolding subscribe enqueue_func filter_func
run c =
    let (pointer, b) = subscribe enqueue_func (filter_func ∷ []) c.app_broadcaster in
    (pointer, record c { app_broadcaster = b })

-- What the informer delivers.
pub data Notice : Type 0 where
  adds updates deletes : Option Application → Notice

unfoldable pub deliver : AppEventHandler KeyedAppQueue → Notice → KeyedAppQueue → KeyedAppQueue
unfolding on_add on_update on_delete
deliver b (adds obj) q = on_add b obj q
deliver b (updates obj) q = on_update b obj q
deliver b (deletes obj) q = on_delete b obj q

unfoldable pub deliver_all :
    AppEventHandler KeyedAppQueue → List Notice → KeyedAppQueue → KeyedAppQueue
unfolding deliver
deliver_all b [] q = q
deliver_all b (n ∷ ns) q = deliver_all b ns (deliver b n q)
