-- ===== src/Lib.antt =====
-- A model of the Argo CD monorepo controller, and theorems on it.
--
-- The controller watches Applications whose manifests are generated from some paths of a
-- repository with many applications. For each it finds the change revision, the newest commit up
-- to the synced one that touches these paths, and keeps it in annotations. Paths below are those
-- of the repository.
--
-- Parts and files:
--
-- Base: Boolean tests, lists and options over native numbers, texts as lists of bytes (the Go
-- strings, `strings.Split`, `strings.TrimSpace` on ASCII space), UTF-8, and maps keyed by texts.
--
-- App: the Application resource, pkg/apis/application/v1alpha1/types.go, with the fields that the
-- controller reads, and HasMultipleSources, GetSources and GetSyncSource.
--
-- Controller: mrp_controller/controller. Queue is KeyedAppQueue of appqueue.go (Enqueue,
-- enqueueLocked, DequeueWait, Done) over container/list; Queue/Cells and Queue/Invariant have the
-- pointers and the invariant, Queue/View the abstract queue. Workers is WorkerPool as a transition
-- system (dequeueLoop, the goroutines of NewWorkerPool, Stop), with Workers/Exclusive,
-- Workers/Account, Workers/Moves, Workers/Kept and Workers/Progress on its runs. Events is
-- eventhandler.go and the closures of Run in controller.go.
--
-- Service: mrp_controller/service/mrp_service.go. Revisions is getSourcesRevisions and what it
-- calls, Patch is addPatchIfNeeded and makeAnnotationPatch with the merge that the API server
-- does, Reconcile is makeChangeRevisionPatch, calculateChangeRevision and ChangeRevision. The API
-- server, the repositories' database and the repository server are the record Services.
-- Annotations, Minimal, Converge, Stable, Retry and RefreshPaths are theorems.
--
-- System: a round of the controller together with the database of repositories and the answer of
-- the repository server over its caches.
--
-- Repositories: pkg/apis/application/v1alpha1/repository_types.go, with Repositories/Credentials
-- for GetGitCreds. Db: util/db, where Secrets is secrets.go with the interface of the API server
-- and the informers, Convert the conversions and Backend and Creds the operations of
-- repository_secrets.go, and Database is repository.go. Db/Convert/Writes and RoundTrip,
-- Db/Backend/Chosen and Longest, and Db/Database/Created are theorems.
--
-- Projects: AppProject of pkg/apis/application/v1alpha1/types.go and app_project_types.go.
-- Permissions is IsSourcePermitted and what is like it, with Rules on it; Windows is the sync
-- windows, with Windows/Matching for Matches, Windows/Edits for AddWindow and DeleteWindow, and
-- theorems in Windows/Policy. The parser of schedules, the time zones and the glob library are
-- parameters.
--
-- Env: util/env/env.go. Strconv: package strconv for base 10, with the round trip of an int64.
--
-- Json: encoding/json for slices of strings, which the annotations hold.
--
-- RepoServer: reposerver/repository. ChangeRevision is GetChangeRevision of mrp_repository.go over
-- the interface GitClient, with checkoutRevision of repository.go; ChangeRevision/Newest says what
-- it looks for, and ChangeRevision/Native puts the cached client in. CheckedOut puts the working
-- copy in. TempPaths is util/io/paths.go with Init and newClient, and TempPaths/Runs its runs.
-- Lock is lock.go.
--
-- Git: util/git/mrp_client.go, with the checks of util/git/git.go and the caches of
-- reposerver/cache/cache.go; Git/LsRemote is LsRemote of util/git/client.go, Git/Versions
-- MaxVersion of util/versions/tags.go, Git/WorkingCopy the methods of client.go on the working
-- copy with Git/WorkingCopy/Head on the commit that is checked out, Git/Urls NormalizeGitURL and
-- SameURL, and Git/RefCache getRefs with the lock on the cached references, for a client that uses
-- a cache. The git command, go-git and the semver library are parameters.
--
-- Paths: util/app/path/path.go and util/security/path_traversal.go, with Clean, Join, Dir, Base
-- and Match of path/filepath on Unix. Plain and Covered are on paths whose parts are names.
--
-- How they interact: the informer's events reach the queue through Events; the pool's workers call
-- ChangeRevision of Service; that gets the repository from Db and calls GetChangeRevision of
-- RepoServer, which resolves the revision, takes the lock, lists commits and files through Git,
-- and tests the files by Paths.
--
-- Choices: a Go panic is a result of its own. A pointer is a number that is given out once. A
-- goroutine's step is what it does between two points where another can act; runs are lists of
-- steps in any order. Fuel occurs in the JSON parser and in Match, where it is one more than the
-- length of the text and each round takes a character, and in the printing of a number, which has
-- at most 20 digits. LsRemote runs for the number of attempts that the source bounds it by, and a
-- client waits for the lock on cached references for a number of rounds that stands for its
-- timeout; the theorems hold for every such number. Counts and lengths are unbounded numbers.
--
-- Not modelled: logs and metrics but for the gauge of the queue and the metrics that read a
-- repository; timeouts and the context of a reconciliation, but for the deadline error; the wait
-- between attempts; servers, commands and generated clients; floating point settings; clusters and
-- other secrets of the database; the copies of upstream packages that the change revision does not
-- use.
pub mod Base
pub mod Strconv
pub mod App
pub mod Paths
pub mod Json
pub mod Git
pub mod RepoServer
pub mod Service
pub mod Controller
pub mod System
pub mod Projects
pub mod Repositories
pub mod Db
pub mod Env
