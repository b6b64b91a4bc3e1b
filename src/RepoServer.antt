-- ===== src/RepoServer.antt =====
-- The repository server (reposerver/repository): the git client it uses, the request for a change
-- revision, and the lock on a checkout.
pub mod GitClient
pub mod ChangeRevision
pub mod CheckedOut
pub mod TempPaths
pub mod Lock
mod Tests
