-- ===== src/RepoServer/GitClient.antt =====
-- The interface git.Client as the repository server uses it, over a state of the repository and
-- its caches, and `checkoutRevision` of reposerver/repository/repository.go.
--
-- A Boolean result says that there was no error; `none` is an error.
pub mod Keeps
use argocd_monorepo_controll.Base.{Text, codes, Bool, true, false, Option, [], if◌then◌else◌}
use argocd_monorepo_controll.Git.{Listing}

pub record GitClient (S : Type 0) : Type 0 where
  pub ls_remote : Text → S → Option Text × S
  pub init : S → Bool × S
  pub is_revision_present : Text → S → Bool
  pub fetch : Text → S → Bool × S
  pub checkout : Text → S → Bool × S
  pub list_revisions : Text → Text → S → Listing × S
  pub diff_tree : Text → S → Listing × S

module _ {S : Type 0} where
  infixl 5 ◌>>◌
  -- The next call, if there was no error.
  abbrev pub ◌>>◌ : (S → Bool × S) → (S → Bool × S) → S → Bool × S
  ◌>>◌ m k s = let (fine, t) = m s in if fine then k t else (false, t)

  -- The next call, if there was an error.
  abbrev pub or_else : (S → Bool × S) → (S → Bool × S) → S → Bool × S
  or_else m k s = let (fine, t) = m s in if fine then (true, t) else k t

  abbrev pub unless : (S → Bool) → (S → Bool × S) → S → Bool × S
  unless test m s = if test s then (true, s) else m s

  unfoldable pub checkout_revision : GitClient S → Text → S → Bool × S
  checkout_revision c revision =
      c.init
      >> unless (c.is_revision_present revision) (c.fetch [])
      >> or_else (c.checkout revision) (c.fetch revision >> c.checkout (codes "FETCH_HEAD"))
