-- ===== src/RepoServer/Lock/Checkout/Runs.antt =====
-- The runs of the lock.
use argocd_monorepo_controll.Base.{
  ℕ, ◌≡◌, ◌≢◌, refl, text_eq_refl, Bool, [], some, arith, get_elem?,
}
use argocd_monorepo_controll.RepoServer.Lock.{
  Request, waits, lock, Copy, new_copy, Step, initializes, fails, joins, closes, Reach, start,
  after,
}
use argocd_monorepo_controll.RepoServer.Lock.Checkout.{IsConsistent}
use argocd_monorepo_controll.RepoServer.Lock.Checkout.Steps.{
  initializes-IsConsistent, fails-IsConsistent, joins-IsConsistent, closes-IsConsistent,
}

Step-IsConsistent : {c d : Copy} → Step c d → IsConsistent c → IsConsistent d
Step-IsConsistent {c} (initializes req s ne e) v = initializes-IsConsistent c v req s ne e
Step-IsConsistent {c} (fails req left e) v = fails-IsConsistent c v req left e
Step-IsConsistent {c} (joins req init_ok s ne e) v = joins-IsConsistent c v req init_ok s ne e
Step-IsConsistent {c} (closes i req e) v = closes-IsConsistent c v i req e

Reach-IsConsistent : {c : Copy} → Reach c → IsConsistent c
unfolding new_copy
Reach-IsConsistent start = record {
  counted = refl;
  seen = tt;
  alike = tt;
  concurrent = λ h. absurd (omega (arith, h));
  free = λ h. refl;
  idle = λ h. text_eq_refl [];
}
Reach-IsConsistent (after r s) = Step-IsConsistent s (Reach-IsConsistent r)

-- What it means for the next request of each kind.
pub record IsExclusive (c : Copy) : Type 0 where
  pub first_come :
      (req : Request) (init_ok : Bool) → c.holders ≡ [] → lock req init_ok c.state ≢ waits
  pub others_wait :
      (req h : Request) (init_ok : Bool) (i : ℕ)
      → get_elem? c.holders i ≡ some h
      → req.revision ≢ h.revision
      → lock req init_ok c.state ≡ waits

-- In every run of the lock on a path with requests for some revision, all that hold the working
-- copy asked for the revision that it is checked out at, their number is the process count, more
-- than one hold it only if all of them allow that, and the state has no revision exactly when
-- nobody holds the copy.
pub lock_holders : (c : Copy) → Reach c → IsConsistent c
lock_holders c r = Reach-IsConsistent r
