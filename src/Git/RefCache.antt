-- ===== src/Git/RefCache.antt =====
-- The cached references of a remote: util/git/client.go (getRefs) and the lock on the cache's entry
-- in reposerver/cache/cache.go.
--
-- The store is outside these files: a map, with whether its calls fail otherwise than by a missing
-- key. References are the pairs of strings that go-git converts them from and to. While a client
-- sleeps the others change the store in any way, and entries lapse.
pub mod Owned
use argocd_monorepo_controll.Base.{
  ℕ, zero, suc, Text, codes, text_eq, Map, lookup, insert, delete, is_some, Bool, true, false, not,
  ◌&&◌, ◌||◌, List, [], ◌∷◌, ◌++◌, Option, none, some, if◌then◌else◌,
}

abbrev pub CacheItem : Type 0
CacheItem = List (Text × Text)

-- The durations that the cache is made with, and an entry with the duration after which it lapses.
pub record RevisionCache : Type 0 where
  pub revision_cache_expiration : ℕ
  pub revision_cache_lock_timeout : ℕ

pub record Entry : Type 0 where
  pub item : CacheItem
  pub expiration : ℕ

abbrev pub item_of : Option Entry → Option CacheItem
item_of none = none
item_of (some entry) = some entry.item

pub record Store : Type 0 where
  pub items : Map Entry
  pub fails : Bool

abbrev pub cache_locked_value : Text
cache_locked_value = codes "locked"

unfoldable pub git_refs_key : Text → Text
git_refs_key repo = codes "git-refs|" ++ repo

unfoldable pub set_git_references : RevisionCache → Text → CacheItem → Store → Bool × Store
unfolding insert git_refs_key
set_git_references c repo references store =
    let entry : Entry = record { item = references; expiration = c.revision_cache_expiration } in
    if store.fails
    then (false, store)
    else (true, record store { items = insert (git_refs_key repo) entry store.items })

-- Empty data are skipped.
unfoldable pub to_references : CacheItem → CacheItem
unfolding text_eq
to_references [] = []
to_references ((name, target) ∷ item) =
    let rest = to_references item in
    if not (text_eq name []) || not (text_eq target []) then (name, target) ∷ rest else rest

-- What a call leaves: the lock's owner, whether there was an error, and `*references`.
pub record Found : Type 0 where
  pub lock_id : Text
  pub failed : Bool
  pub references : CacheItem

unfoldable pub found_in : Option CacheItem → CacheItem → Found
unfolding text_eq to_references
found_in none references = record { lock_id = []; failed = false; references = references }
found_in (some []) references = record { lock_id = []; failed = false; references = references }
found_in (some ((name, target) ∷ item)) references =
    if text_eq name cache_locked_value
    then record { lock_id = target; failed = false; references = references }
    else record { lock_id = []; failed = false; references = to_references ((name, target) ∷ item) }

unfoldable pub get_git_references : Text → CacheItem → Store → Found
unfolding found_in lookup git_refs_key
get_git_references repo references store =
    if store.fails
    then record { lock_id = []; failed = true; references = references }
    else found_in (item_of (lookup (git_refs_key repo) store.items)) references

-- The item is set only if there is none; an error is left to the next attempt.
unfoldable pub set_lock : RevisionCache → Text → Text → Store → Store
unfolding lookup insert git_refs_key
set_lock c repo lock_id store =
    let entry : Entry = record {
      item = (cache_locked_value, lock_id) ∷ [];
      expiration = c.revision_cache_lock_timeout;
    } in
    if store.fails || is_some (lookup (git_refs_key repo) store.items)
    then store
    else record store { items = insert (git_refs_key repo) entry store.items }

unfoldable pub try_lock_git_ref_cache :
    RevisionCache → Text → Text → CacheItem → Store → Found × Store
unfolding set_lock get_git_references
try_lock_git_ref_cache c repo lock_id references store =
    let locked = set_lock c repo lock_id store in
    (get_git_references repo references locked, locked)

abbrev pub has_references : CacheItem → Bool
has_references [] = false
has_references (r ∷ references) = true

-- The test after each of the two calls of a round.
unfoldable pub is_settled : Text → Found → Bool
unfolding text_eq
is_settled lock_id found =
    text_eq found.lock_id lock_id || found.failed || has_references found.references

-- The rounds left before the lock's timeout; `others` is what happens to the store during a sleep.
unfoldable pub get_or_lock :
    RevisionCache → Text → Text → (ℕ → Store → Store) → ℕ → CacheItem → Store → Found × Store
unfolding get_git_references try_lock_git_ref_cache is_settled
get_or_lock c repo lock_id others zero references store =
    (record { lock_id = lock_id; failed = false; references = references }, store)
get_or_lock c repo lock_id others (suc n) references store =
    let found = get_git_references repo references store in
    let (tried, locked) = try_lock_git_ref_cache c repo lock_id found.references store in
    let rest = get_or_lock c repo lock_id others n tried.references (others n locked) in
    if is_settled lock_id found
    then (found, store)
    else if is_settled lock_id tried
    then (tried, locked)
    else rest

abbrev pub owned_by : Text → Option CacheItem → Bool
owned_by lock_id (some ((name, target) ∷ item)) =
    text_eq name cache_locked_value && text_eq target lock_id
owned_by lock_id _ = false

unfoldable pub unlock_git_references : Text → Text → Store → Store
unfolding lookup delete git_refs_key
unlock_git_references repo lock_id store =
    if not store.fails && owned_by lock_id (item_of (lookup (git_refs_key repo) store.items))
    then record store { items = delete (git_refs_key repo) store.items }
    else store

-- What follows the listing of the remote: the cache is set, or the lock is given back.
unfoldable pub keep_refs :
    RevisionCache → Text → Text → Option CacheItem → Store → Option CacheItem × Store
unfolding set_git_references unlock_git_references
keep_refs c repo lock_id none store = (none, unlock_git_references repo lock_id store)
keep_refs c repo lock_id (some refs) store =
    let (fine, kept) = set_git_references c repo refs store in
    (some refs, if fine then kept else unlock_git_references repo lock_id kept)

-- `getRefs` of a client with a cache; `list_remote` is what the remote lists.
unfoldable pub get_refs :
    RevisionCache
    → Text
    → Text
    → (ℕ → Store → Store)
    → ℕ
    → Option CacheItem
    → Store
    → Option CacheItem × Store
unfolding get_or_lock keep_refs text_eq
get_refs c repo lock_id others rounds list_remote store =
    let (found, locked) = get_or_lock c repo lock_id others rounds [] store in
    if text_eq lock_id found.lock_id
    then keep_refs c repo lock_id list_remote locked
    else if found.failed
    then (none, locked)
    else (some found.references, locked)
