-- ===== src/Controller/Queue/Invariant/Enqueue.antt =====
-- Enqueue and the well-formedness of the queue.
use argocd_monorepo_controll.Base.{
  ℕ, ◌<◌, ◌≡◌, refl, sym, ap, subst, ◌∙◌, inl, inr, Text, lookup, insert, has, insert-HasNodupKeys,
  lookup-insert, text_eq, text_eq_iff, true, false, Option, none, some, All, All-append, arith,
  Bool-cases, if◌then◌else◌,
}
use argocd_monorepo_controll.App.{Application}
use argocd_monorepo_controll.Controller.Queue.{
  AppQueueItem, KeyedAppQueue, app_key, place, enqueue_locked,
}
use argocd_monorepo_controll.Controller.Queue.Cells.{
  pointers, HasFreshIds, contents-replace, contents-append, HasFreshIds-replace, HasFreshIds-append,
  All-replace, pointer_listed,
}
use argocd_monorepo_controll.Controller.Queue.Invariant.{
  queued, IsKeyed, IsValid, report_queue_length-IsValid, signal-IsValid, All-insert,
}

-- What `place` does to the queue as a map, and to the pointers.
pub record Places (item : AppQueueItem) (q r : KeyedAppQueue) : Type 0 where
  pub queued_eq : queued r ≡ insert item.key item.value (queued q)
  pub pointers_eq : (k : Text) → lookup k r.key_map ≡ lookup k (pointers r.items.cells)
  pub positive : 0 < r.items.next
  pub fresh : HasFreshIds r.items.next r.items.cells
  pub keyed : All (λ c. IsKeyed c.item) r.items.cells
  pub processing_eq : r.processing ≡ q.processing
  pub pending_eq : r.pending ≡ q.pending

pub place-Places :
    (item : AppQueueItem) (q : KeyedAppQueue) (o : Option ℕ)
    → IsValid q
    → IsKeyed item
    → lookup item.key q.key_map ≡ o
    → Places item q (place item o q)
unfolding place
place-Places item q none v ki e =
    let at_none : lookup item.key (pointers q.items.cells) ≡ none = sym (v.linked item.key) ∙ e in
    let (p, r) = contents-append q.items.next item q.items.cells at_none in
    record {
      queued_eq = p;
      pointers_eq = λ k.
          lookup-insert item.key k q.items.next q.key_map
          ∙ rw (v.linked k) (sym (ap (lookup k) r ∙ lookup-insert item.key k q.items.next _));
      positive = omega (arith, v.positive);
      fresh = HasFreshIds-append q.items.next item q.items.cells v.positive v.fresh;
      keyed = All-append (λ c. IsKeyed c.item) q.items.cells _ v.keyed (ki, tt);
      processing_eq = refl;
      pending_eq = refl;
    }
place-Places item q (some i) v ki e =
    let at_some : lookup item.key (pointers q.items.cells) ≡ some i = sym (v.linked item.key) ∙ e in
    let (p, r) = contents-replace q.items.next item i q.items.cells v.fresh at_some in
    rw (pointer_listed i item.key q.items.cells at_some) (record {
      queued_eq = p;
      pointers_eq = λ k.
          lookup-insert item.key k q.items.next q.key_map
          ∙ rw (v.linked k) (sym (ap (lookup k) r ∙ lookup-insert item.key k q.items.next _));
      positive = omega (arith, v.positive);
      fresh = HasFreshIds-replace q.items.next item i q.items.cells v.positive v.fresh;
      keyed = All-replace q.items.next item i IsKeyed q.items.cells ki v.keyed;
      processing_eq = refl;
      pending_eq = refl;
    })

place-IsValid :
    (item : AppQueueItem) (q : KeyedAppQueue)
    → IsValid q
    → IsKeyed item
    → has item.key q.processing ≡ false
    → IsValid (place item (lookup item.key q.key_map) q)
place-IsValid item q v ki idle =
    let p = place-Places item q (lookup item.key q.key_map) v ki refl in
    record {
      linked = p.pointers_eq;
      positive = p.positive;
      fresh = p.fresh;
      distinct = rw p.queued_eq (insert-HasNodupKeys item.key item.value (queued q) v.distinct);
      keyed = p.keyed;
      keyed_pending = rw p.pending_eq v.keyed_pending;
      apart = λ k h.
          rw (p.queued_eq, lookup-insert item.key k item.value (queued q))
            (other k (rw p.processing_eq at h));
      covered = λ k h. rw p.pending_eq (v.covered k (rw p.processing_eq at h));
      distinct_pending = rw p.pending_eq v.distinct_pending;
    }
  where
    other :
        (k : Text)
        → has k q.processing ≡ true
        → (if text_eq item.key k then some item.value else lookup k (queued q)) ≡ none
    other k h = elim (Bool-cases (text_eq item.key k)) [
      | inl same ↦ cc (subst (λ j. has j q.processing ≡ true) (sym ((text_eq_iff _ _).0 same)) h)
      | inr ne ↦ rw ne (v.apart k h)
    ]

update-IsValid :
    (app : Application) (q : KeyedAppQueue)
    → IsValid q
    → has (app_key app) q.processing ≡ true
    → IsValid (record q { pending = insert (app_key app) app q.pending })
update-IsValid app q v busy = record {
  linked = v.linked;
  positive = v.positive;
  fresh = v.fresh;
  distinct = v.distinct;
  keyed = v.keyed;
  keyed_pending = All-insert (app_key app) app q.pending refl v.keyed_pending;
  apart = v.apart;
  covered = λ k h. rw (lookup-insert (app_key app) k app q.pending) (other k h);
  distinct_pending = insert-HasNodupKeys (app_key app) app q.pending v.distinct_pending;
}
  where
    other :
        (k : Text)
        → has k q.processing ≡ false
        → (if text_eq (app_key app) k then some app else lookup k q.pending) ≡ none
    other k h = elim (Bool-cases (text_eq (app_key app) k)) [
      | inl same ↦ cc (subst (λ j. has j q.processing ≡ false) (sym ((text_eq_iff _ _).0 same)) h)
      | inr ne ↦ rw ne (v.covered k h)
    ]

-- Enqueuing any application into a valid queue leaves a valid queue.
pub enqueue_locked-IsValid :
    (app : Application) (q : KeyedAppQueue) → IsValid q → IsValid (enqueue_locked app q)
unfolding enqueue_locked
enqueue_locked-IsValid app q v = elim (Bool-cases (has (app_key app) q.processing)) [
  | inl busy ↦ rw busy (report_queue_length-IsValid _ (update-IsValid app q v busy))
  | inr idle ↦ rw idle (
      report_queue_length-IsValid _ (
        signal-IsValid _ (place-IsValid (record { key = app_key app; value = app }) q v refl idle)))
]
