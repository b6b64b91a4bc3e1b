-- ===== src/Controller/Queue/Invariant/Done.antt =====
-- Done and the well-formedness of the queue.
use argocd_monorepo_controll.Base.{
  ◌≡◌, refl, subst, inl, inr, Text, Map, lookup, delete, has, delete-HasNodupKeys, lookup-delete,
  text_eq, true, false, [], ◌∷◌, Option, none, some, arith, Bool-cases,
}
use argocd_monorepo_controll.App.{Application}
use argocd_monorepo_controll.Controller.Queue.{KeyedAppQueue, requeue, done}
use argocd_monorepo_controll.Controller.Queue.Invariant.{IsValid, All-delete}
use argocd_monorepo_controll.Controller.Queue.Invariant.Enqueue.{enqueue_locked-IsValid}

-- `Done`: the key leaves the processing set with its pending update.
module _ (key : Text) (q : KeyedAppQueue) (v : IsValid q) where
  release_apart : (k : Text) → has k (delete key q.processing) ≡ true → has k q.processing ≡ true
  release_apart k h = ground (arith, lookup-delete key k q.processing)

  release_covered :
      (k : Text) → has k (delete key q.processing) ≡ false → lookup k (delete key q.pending) ≡ none
  release_covered k h = elim (Bool-cases (text_eq key k)) [
    | inl same ↦ rw (lookup-delete key k q.pending, same)
    | inr ne ↦
        rw (lookup-delete key k q.pending, ne)
          (v.covered k (rw (lookup-delete key k q.processing, ne) at h))
  ]

  pub release-IsValid :
      IsValid (record q { processing = delete key q.processing; pending = delete key q.pending })
  release-IsValid = record {
    linked = v.linked;
    positive = v.positive;
    fresh = v.fresh;
    distinct = v.distinct;
    keyed = v.keyed;
    keyed_pending = All-delete key q.pending v.keyed_pending;
    apart = λ k h. v.apart k (release_apart k h);
    covered = release_covered;
    distinct_pending = delete-HasNodupKeys key q.pending v.distinct_pending;
  }

pub delete_of_lookup-none : (k : Text) (m : Map Application) → lookup k m ≡ none → delete k m ≡ m
unfolding lookup delete
delete_of_lookup-none k [] e = refl
delete_of_lookup-none k ((j, w) ∷ m) e = ground (arith, delete_of_lookup-none k m)

requeue-IsValid :
    (key : Text) (o : Option Application) (q : KeyedAppQueue)
    → IsValid q
    → lookup key q.pending ≡ o
    → IsValid (requeue key o (record q { processing = delete key q.processing }))
unfolding requeue
requeue-IsValid key none q v e =
    subst (λ m. IsValid (record q { processing = delete key q.processing; pending = m }))
      (delete_of_lookup-none key q.pending e) (release-IsValid key q v)
requeue-IsValid key (some app) q v e = enqueue_locked-IsValid app _ (release-IsValid key q v)

-- Done of any key leaves a valid queue valid.
pub done-IsValid : (key : Text) (q : KeyedAppQueue) → IsValid q → IsValid (done key q)
unfolding done
done-IsValid key q v = elim (Bool-cases (has key q.processing)) [
  | inl busy ↦ rw busy (requeue-IsValid key (lookup key q.pending) q v refl)
  | inr idle ↦ rw idle v
]
