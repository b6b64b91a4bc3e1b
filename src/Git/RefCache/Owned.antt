-- ===== src/Git/RefCache/Owned.antt =====
-- What getRefs returns.
use argocd_monorepo_controll.Base.{◌≡◌, ◌≢◌, Text, text_eq, lookup, false, [], some}
use argocd_monorepo_controll.Git.RefCache.{
  CacheItem, Entry, Store, to_references, git_refs_key, Found, found_in,
}

-- References that the cache's entry of a repository holds: at least one, and no lock.
pub record Cached (repo : Text) (store : Store) (refs : CacheItem) : Type 0 where
  pub entry : Entry
  pub held : lookup (git_refs_key repo) store.items ≡ some entry
  pub not_locked :
      found_in (some entry.item) [] ≡ record { lock_id = []; failed = false; references = refs }
  pub eq : refs ≡ to_references entry.item
  pub given : refs ≢ []

-- A client that does not own the lock and got no error has references from the cache.
abbrev IsUsable : Text → Text → Store → Found → Type 0
IsUsable repo lock_id store found =
    text_eq found.lock_id lock_id ≡ false
    → found.failed ≡ false
    → Cached repo store found.references
