-- ===== src/Controller/Queue/Invariant/Dequeue.antt =====
-- DequeueWait and the well-formedness of the queue.
use argocd_monorepo_controll.Base.{
  ◌≡◌, refl, sym, subst, ◌∙◌, inl, inr, Text, lookup, insert, delete, has, HasNodupKeys,
  lookup-Absent, lookup-insert, lookup-delete, text_eq, text_eq_iff, Bool, true, false, List, [],
  ◌∷◌, none, some, All, arith, Bool-cases, ==_iff, if◌then◌else◌, is_some,
}
use argocd_monorepo_controll.Controller.Queue.{
  Element, KeyedAppQueue, dequeue_wait, dequeued, blocked, cancelled, Waited, take_front, remove,
  remove_cell,
}
use argocd_monorepo_controll.Controller.Queue.Cells.{
  contents, pointers, HasFreshIds, contents-pointers,
}
use argocd_monorepo_controll.Controller.Queue.Invariant.{
  IsKeyed, IsValid, report_queue_length-IsValid,
}

-- The front element leaves the list, its pointer is dropped, and its key is being processed.
module _ (elem : Element) (rest : List Element) (q : KeyedAppQueue)
    (e : q.items.cells ≡ elem ∷ rest) (v : IsValid q) where
  front_distinct : HasNodupKeys (contents (elem ∷ rest))
  front_distinct = subst (λ cs. HasNodupKeys (contents cs)) e v.distinct

  front_unqueued : (k : Text) → text_eq elem.item.key k ≡ true → lookup k (contents rest) ≡ none
  front_unqueued k same =
      subst (λ j. lookup j (contents rest) ≡ none) ((text_eq_iff _ _).0 same)
        (lookup-Absent elem.item.key (contents rest) front_distinct.0)

  linked_rest :
      (k : Text)
      → (if text_eq elem.item.key k then none else lookup k (pointers (elem ∷ rest)))
        ≡ lookup k (pointers rest)
  unfolding lookup
  linked_rest k = elim (Bool-cases (text_eq elem.item.key k)) [
    | inl same ↦ rw same (sym (contents-pointers k rest (front_unqueued k same)))
    | inr ne ↦ rw ne
  ]

  apart_rest :
      (k : Text)
      → is_some (if text_eq elem.item.key k then some tt else lookup k q.processing) ≡ true
      → lookup k (contents rest) ≡ none
  unfolding lookup
  apart_rest k h = elim (Bool-cases (text_eq elem.item.key k)) [
    | inl same ↦ front_unqueued k same
    | inr ne ↦
        let gone : lookup k (contents (elem ∷ rest)) ≡ none =
          subst (λ cs. lookup k (contents cs) ≡ none) e (v.apart k (rw ne at h)) in
        rw ne at gone
  ]

  covered_rest :
      (k : Text)
      → is_some (if text_eq elem.item.key k then some tt else lookup k q.processing) ≡ false
      → has k q.processing ≡ false
  covered_rest k h = ground arith

  drop_front-IsValid : IsValid (record q {
    items = remove elem.id q.items;
    key_map = delete elem.item.key q.key_map;
    processing = insert elem.item.key tt q.processing;
  })
  unfolding remove
  drop_front-IsValid =
      let fresh = subst (HasFreshIds q.items.next) e v.fresh in
      rw (e, remove_cell, (==_iff elem.id elem.id).1 refl)
        (record {
          linked =
              λ k. lookup-delete elem.item.key k q.key_map ∙ rw (v.linked k, e) (linked_rest k);
          positive = v.positive;
          fresh = fresh.3;
          distinct = front_distinct.1;
          keyed = (subst (All (λ c. IsKeyed c.item)) e v.keyed).1;
          keyed_pending = v.keyed_pending;
          apart = λ k h. apart_rest k (rw (lookup-insert elem.item.key k tt q.processing) at h);
          covered = λ k h.
              v.covered k
                (covered_rest k (rw (lookup-insert elem.item.key k tt q.processing) at h));
          distinct_pending = v.distinct_pending;
        })

-- What `DequeueWait` leaves behind, in each of its results.
abbrev pub LeavesValid : Waited → Type 0
LeavesValid cancelled = Unit {0}
LeavesValid (blocked q) = IsValid q
LeavesValid (dequeued item q) = IsValid q

take_front-LeavesValid :
    (cells : List Element) (q : KeyedAppQueue) (ctx_done : Bool)
    → q.items.cells ≡ cells
    → IsValid q
    → LeavesValid (take_front cells q ctx_done)
unfolding take_front
take_front-LeavesValid [] q true e v = tt
take_front-LeavesValid [] q false e v = record {
  linked = v.linked;
  positive = v.positive;
  fresh = v.fresh;
  distinct = v.distinct;
  keyed = v.keyed;
  keyed_pending = v.keyed_pending;
  apart = v.apart;
  covered = v.covered;
  distinct_pending = v.distinct_pending;
}
take_front-LeavesValid (elem ∷ rest) q ctx_done e v =
    report_queue_length-IsValid _ (drop_front-IsValid elem rest q e v)

-- DequeueWait leaves a valid queue valid, whether it gives out an item or blocks.
pub dequeue_wait-LeavesValid :
    (ctx_done : Bool) (q : KeyedAppQueue) → IsValid q → LeavesValid (dequeue_wait ctx_done q)
unfolding dequeue_wait
dequeue_wait-LeavesValid ctx_done q v = take_front-LeavesValid q.items.cells q ctx_done refl v
