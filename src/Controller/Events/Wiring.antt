-- ===== src/Controller/Events/Wiring.antt =====
-- Which applications the informer's events put on the queue.
use argocd_monorepo_controll.Base.{
  ℕ, ◌<◌, ◌≡◌, refl, ap, inl, inr, lookup, Bool, true, false, List, [], ◌∷◌, ◌++◌, none, some, ◌==◌,
  ==_iff, arith, All, Bool-cases, if◌then◌else◌, text_eq,
}
use argocd_monorepo_controll.App.{
  Application, ApplicationWatchEvent, annotation_key_manifest_generate_paths,
}
use argocd_monorepo_controll.Controller.Queue.{KeyedAppQueue, enqueue}
use argocd_monorepo_controll.Controller.Events.{
  Subscriber, AppEventHandler, subscribe, unsubscribe, remove_subscriber, new_monorepo_controller,
  run, Notice, adds, updates, deletes, deliver_all,
}

-- An application that is given refresh paths.
abbrev pub wants_refresh : Application → Bool
wants_refresh app = elim (lookup annotation_key_manifest_generate_paths app.annotations) [
  | none ↦ false
  | some val ↦ if text_eq val [] then false else true
]

-- The applications that the notices are about, in order, if they were added or updated and want a
-- refresh.
abbrev pub arrivals : List Notice → List Application
arrivals [] = []
arrivals (adds (some app) ∷ ns) = if wants_refresh app then app ∷ arrivals ns else arrivals ns
arrivals (updates (some app) ∷ ns) = if wants_refresh app then app ∷ arrivals ns else arrivals ns
arrivals (_ ∷ ns) = arrivals ns

abbrev pub enqueue_all : List Application → KeyedAppQueue → KeyedAppQueue
enqueue_all [] q = q
enqueue_all (app ∷ apps) q = enqueue_all apps (enqueue app q)

abbrev broadcaster : ℕ → AppEventHandler KeyedAppQueue
broadcaster gauge = (run (new_monorepo_controller gauge)).1.app_broadcaster

module _ (gauge : ℕ) where
  delivered_all :
      (ns : List Notice) (q : KeyedAppQueue)
      → deliver_all (broadcaster gauge) ns q ≡ enqueue_all (arrivals ns) q
  unfolding deliver_all run new_monorepo_controller
  delivered_all [] q = refl
  delivered_all (adds none ∷ ns) q = delivered_all ns q
  delivered_all (updates none ∷ ns) q = delivered_all ns q
  delivered_all (deletes none ∷ ns) q = delivered_all ns q
  delivered_all (deletes (some app) ∷ ns) q = delivered_all ns q
  delivered_all (adds (some app) ∷ ns) q = elim (Bool-cases (wants_refresh app)) [
    | inl e ↦ rw e (delivered_all ns (enqueue app q))
    | inr e ↦ rw e (delivered_all ns q)
  ]
  delivered_all (updates (some app) ∷ ns) q = elim (Bool-cases (wants_refresh app)) [
    | inl e ↦ rw e (delivered_all ns (enqueue app q))
    | inr e ↦ rw e (delivered_all ns q)
  ]

-- Once the controller runs, any events of the informer put exactly the added and updated
-- applications that are given refresh paths on the queue, in the order of the events.
pub run_delivers :
    (gauge : ℕ) (ns : List Notice) (q : KeyedAppQueue)
    → deliver_all (run (new_monorepo_controller gauge)).1.app_broadcaster ns q
      ≡ enqueue_all (arrivals ns) q
run_delivers gauge ns q = delivered_all gauge ns q

module _ {S : Type 0} where
  abbrev pub IsBelow : ℕ → List (Subscriber S) → Type 0
  IsBelow next subscribers = All (λ s. s.pointer < next) subscribers

  remove_last :
      (subscribers : List (Subscriber S)) (last : Subscriber S)
      → IsBelow last.pointer subscribers
      → remove_subscriber last.pointer (subscribers ++ last ∷ []) ≡ subscribers
  unfolding remove_subscriber
  remove_last [] last h = rw ((==_iff last.pointer last.pointer).1 refl)
  remove_last (s ∷ subscribers) last h = elim (Bool-cases (s.pointer == last.pointer)) [
    | inl e ↦ absurd (omega (arith, (==_iff s.pointer last.pointer).0 e, h.0))
    | inr e ↦ rw e (ap (λ l. s ∷ l) (remove_last subscribers last h.1))
  ]

  -- The function that Subscribe returns takes back the subscription and no other, when the
  -- pointers given out before are below the next one.
  pub unsubscribe-subscribe :
      (handler_func : ApplicationWatchEvent → S → Bool × S)
      (filters : List (ApplicationWatchEvent → Bool)) (b : AppEventHandler S)
      → IsBelow b.next b.subscribers
      → let (pointer, c) = subscribe handler_func filters b in
        (unsubscribe pointer c).subscribers ≡ b.subscribers
  unfolding subscribe unsubscribe
  unsubscribe-subscribe handler_func filters b h =
      remove_last b.subscribers
        (record { pointer = b.next; event_handler = handler_func; filters = filters }) h
