-- ===== src/RepoServer/Lock.antt =====
-- reposerver/repository/lock.go: the lock on the working copy of a repository.
--
-- The states of different paths share nothing but the map, so the steps are those of one path.
-- `init` is the checkout that the first holder runs; it may fail. A goroutine in `Wait` is woken by
-- the Broadcast of the last Close, and tries again from the top of its loop.
pub mod Checkout
use argocd_monorepo_controll.Base.{
  ℕ, zero, suc, ◌-◌, ◌≡◌, ◌≢◌, Text, text_eq, Map, lookup, insert, Bool, true, false, ◌&&◌, List,
  [], ◌∷◌, Option, none, some, ◌==◌, get_elem?, if◌then◌else◌,
}

-- The init closer is set while the state has a revision.
pub record RepositoryState : Type 0 where
  pub revision : Text
  pub has_init_closer : Bool
  pub process_count : ℕ
  pub allow_concurrent : Bool

unfoldable pub new_repository_state : RepositoryState
new_repository_state = record {
  revision = [];
  has_init_closer = false;
  process_count = 0;
  allow_concurrent = false;
}

unfoldable pub new_repository_lock : Map RepositoryState
new_repository_lock = []

-- The state of a path, made on its first use.
unfoldable pub state_by_key : Text → Map RepositoryState → Map RepositoryState × RepositoryState
unfolding lookup insert
state_by_key path states = elim (lookup path states) [
  | some state ↦ (states, state)
  | none ↦ (insert path new_repository_state states, new_repository_state)
]

pub record Request : Type 0 where
  pub revision : Text
  pub allow_concurrent : Bool

-- A round of the loop of `Lock`: the request initializes the copy and holds it, joins those that
-- hold it, fails to initialize it, or waits.
pub data Locked : Type 0 where
  initialized joined : RepositoryState → Locked
  init_failed waits : Locked

unfoldable pub initialize : Request → Bool → RepositoryState → Locked
initialize req init_ok state =
    if init_ok
    then initialized (record state {
      revision = req.revision;
      has_init_closer = true;
      process_count = 1;
      allow_concurrent = req.allow_concurrent;
    })
    else init_failed

unfoldable pub may_join : Request → RepositoryState → Bool
unfolding text_eq
may_join req state =
    text_eq state.revision req.revision && (state.allow_concurrent && req.allow_concurrent)

unfoldable pub lock : Request → Bool → RepositoryState → Locked
unfolding initialize may_join text_eq
lock req init_ok state =
    if text_eq state.revision []
    then initialize req init_ok state
    else if may_join req state
    then joined (record state { process_count = suc state.process_count })
    else waits

-- The closer, and whether it broadcasts. The count of a state that is held is not 0; the closer of
-- `Lock` is called once for each holder.
unfoldable pub close : RepositoryState → RepositoryState × Bool
close state =
    if state.process_count - 1 == 0
    then (record state { process_count = 0; revision = []; has_init_closer = false }, true)
    else (record state { process_count = state.process_count - 1 }, false)

-- The lock of a path with those that hold it, and the revision that the copy was last checked
-- out at.
pub record Copy : Type 0 where
  pub state : RepositoryState
  pub holders : List Request
  pub checked_out : Text

unfoldable pub new_copy : Copy
unfolding new_repository_state
new_copy = record { state = new_repository_state; holders = []; checked_out = [] }

pub remove_at : ℕ → List Request → List Request
remove_at i [] = []
remove_at zero (h ∷ holders) = holders
remove_at (suc i) (h ∷ holders) = h ∷ remove_at i holders

-- A request for no revision is not made: `newClientResolveRevision` has resolved it.
pub data Step (c : Copy) : Copy → Type 0 where
  initializes :
      (req : Request) (s : RepositoryState)
      → req.revision ≢ []
      → lock req true c.state ≡ initialized s
      → Step c (record { state = s; holders = req ∷ c.holders; checked_out = req.revision })
  fails :
      (req : Request) (left : Text)
      → lock req false c.state ≡ init_failed
      → Step c (record c { checked_out = left })
  joins :
      (req : Request) (init_ok : Bool) (s : RepositoryState)
      → req.revision ≢ []
      → lock req init_ok c.state ≡ joined s
      → Step c (record c { state = s; holders = req ∷ c.holders })
  closes :
      (i : ℕ) (req : Request)
      → get_elem? c.holders i ≡ some req
      → Step c (record c { state = (close c.state).0; holders = remove_at i c.holders })

pub data Reach : Copy → Type 0 where
  start : Reach new_copy
  after : {c d : Copy} → Reach c → Step c d → Reach d
