-- ===== src/Controller/Queue/View/Dequeue.antt =====
-- DequeueWait on the abstract queue.
use argocd_monorepo_controll.Base.{
  ◌+◌, ◌≡◌, refl, ap, subst, ◌∙◌, inl, inr, Text, lookup, insert, delete, has, lookup-insert,
  text_eq, text_eq_iff, text_eq_refl, Bool, true, false, List, [], ◌∷◌, none, some, Bool-cases,
  fun_ext, ==_iff,
}
use argocd_monorepo_controll.Controller.Queue.{
  Element, KeyedAppQueue, dequeue_wait, dequeued, blocked, cancelled, Waited, take_front, remove,
  remove_cell,
}
use argocd_monorepo_controll.Controller.Queue.Cells.{contents}
use argocd_monorepo_controll.Controller.Queue.Invariant.{IsValid, queued}
use argocd_monorepo_controll.Controller.Queue.View.{
  waiting, running, key_state, keys, view, update, view-report_queue_length,
}

-- What `DequeueWait` does, by its result.
abbrev pub Dequeues : KeyedAppQueue → Waited → Type 0
Dequeues q cancelled = queued q ≡ []
Dequeues q (blocked r) = (queued q ≡ []) × (view r ≡ view q) × (r.not_empty ≡ q.not_empty + 1)
Dequeues q (dequeued item r) =
    (keys (queued q) ≡ item.key ∷ keys (queued r))
    × (key_state q item.key ≡ waiting item.value)
    × (key_state r ≡ update item.key running (key_state q))

-- The front element is taken for processing.
module _ (elem : Element) (rest : List Element) (q : KeyedAppQueue)
    (e : q.items.cells ≡ elem ∷ rest) (v : IsValid q) where
  taken : KeyedAppQueue
  unfolding remove
  taken = record q {
    items = remove elem.id q.items;
    key_map = delete elem.item.key q.key_map;
    processing = insert elem.item.key tt q.processing;
  }

  front_queued : lookup elem.item.key (queued q) ≡ some elem.item.value
  unfolding lookup
  front_queued = rw (e, text_eq_refl elem.item.key)

  front_not_processing : has elem.item.key q.processing ≡ false
  front_not_processing = elim (Bool-cases (has elem.item.key q.processing)) [
    | inl busy ↦ cc (v.apart elem.item.key busy, front_queued)
    | inr free ↦ free
  ]

  front_state : key_state q elem.item.key ≡ waiting elem.item.value
  front_state = rw (front_not_processing, front_queued)

  taken_cells : taken.items.cells ≡ rest
  unfolding taken remove_cell
  taken_cells = rw (e, remove_cell, (==_iff elem.id elem.id).1 refl)

  taken_state : (k : Text) → key_state taken k ≡ update elem.item.key running (key_state q) k
  unfolding taken lookup
  taken_state k = elim (Bool-cases (text_eq elem.item.key k)) [
    | inl same ↦
        let no_update =
          subst (λ j. lookup j q.pending ≡ none) ((text_eq_iff _ _).0 same)
            (v.covered elem.item.key front_not_processing) in
        rw (lookup-insert elem.item.key k tt q.processing, same, no_update)
    | inr ne ↦ rw (taken_cells, lookup-insert elem.item.key k tt q.processing, ne, e, lookup, ne)
  ]

take_front-Dequeues :
    (cells : List Element) (q : KeyedAppQueue) (ctx_done : Bool)
    → q.items.cells ≡ cells
    → IsValid q
    → Dequeues q (take_front cells q ctx_done)
unfolding take_front taken
take_front-Dequeues [] q true e v = ap contents e
take_front-Dequeues [] q false e v = (ap contents e, refl, refl)
take_front-Dequeues (elem ∷ rest) q ctx_done e v =
    let same = view-report_queue_length (taken elem rest q e v) in
    (
      rw (ap (λ w. w.order) same, taken_cells elem rest q e v, e),
      front_state elem rest q e v,
      ap (λ w. w.state) same ∙ fun_ext (taken_state elem rest q e v),
    )

-- DequeueWait gives out the first waiting key with its latest version, and the key is then being
-- processed; it blocks, or stops when the context is done, only if no key waits.
pub dequeue_wait-Dequeues :
    (ctx_done : Bool) (q : KeyedAppQueue) → IsValid q → Dequeues q (dequeue_wait ctx_done q)
unfolding dequeue_wait
dequeue_wait-Dequeues ctx_done q v = take_front-Dequeues q.items.cells q ctx_done refl v
