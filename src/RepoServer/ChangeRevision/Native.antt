-- ===== src/RepoServer/ChangeRevision/Native.antt =====
-- GetChangeRevision over nativeGitClient (util/git/mrp_client.go) and its caches.
use argocd_monorepo_controll.Base.{
  ◌≡◌, ◌≢◌, refl, subst, sym, inl, inr, Text, codes, text_eq, text_eq_iff, Bool, true, false, List,
  [], ◌∷◌, Option, none, some, Bool-cases,
}
use argocd_monorepo_controll.Git.{
  Cache, NativeGitClient, Listing, listed, invalid_revision, command_failed, list_revisions,
  diff_tree,
}
use argocd_monorepo_controll.Git.Cached.{
  IsSound, revisions_between, files_of, list_revisions_cached, diff_tree_cached,
}
use argocd_monorepo_controll.RepoServer.GitClient.{
  GitClient, checkout_revision, ◌>>◌, or_else, unless,
}
use argocd_monorepo_controll.RepoServer.GitClient.Keeps.{>>-Keeps, or_else-Keeps, unless-Keeps}
use argocd_monorepo_controll.RepoServer.ChangeRevision.{
  ChangeRevisionRequest, Response, revision, status_error, panicked, invalid_argument, internal,
  scan_listing, after_resolve, with_client, with_paths, with_repo, get_change_revision,
}
use argocd_monorepo_controll.RepoServer.ChangeRevision.Newest.{
  Newest, Unreadable, invalid, failed, HasFiles, scan-Finds,
}

-- The parts of the git client that talk to the remote and to the working copy.
pub record Remote (R : Type 0) : Type 0 where
  pub ls_remote : Text → R → Option Text × R
  pub init : R → Bool × R
  pub is_revision_present : Text → R → Bool
  pub fetch : Text → R → Bool × R
  pub checkout : Text → R → Bool × R

pub record World (R : Type 0) : Type 0 where
  pub cache : Cache
  pub copy : R

module _ {R : Type 0} where
  -- A call that leaves the cache alone.
  abbrev pub on_copy {ℓ} : {A : Type ℓ} → (R → A × R) → World R → A × World R
  on_copy call s = let (a, r) = call s.copy in (a, record s { copy = r })

  abbrev pub on_cache {ℓ} : {A : Type ℓ} → (Cache → A × Cache) → World R → A × World R
  on_cache call s = let (a, c) = call s.cache in (a, record s { cache = c })

  abbrev pub native_git_client :
      (Text → List Text → Option Text) → NativeGitClient → Remote R → GitClient (World R)
  native_git_client run_cmd m remote = record {
    ls_remote = λ rev. on_copy (remote.ls_remote rev);
    init = on_copy remote.init;
    is_revision_present = λ rev s. remote.is_revision_present rev s.copy;
    fetch = λ rev. on_copy (remote.fetch rev);
    checkout = λ rev. on_copy (remote.checkout rev);
    list_revisions = λ a b. on_cache (list_revisions run_cmd m a b);
    diff_tree = λ rev. on_cache (diff_tree run_cmd m rev);
  }

module _ {R : Type 0} (run_cmd : Text → List Text → Option Text) (m : NativeGitClient)
    (remote : Remote R) where
  abbrev client : GitClient (World R)
  client = native_git_client run_cmd m remote

  checkout_revision-cache :
      (rev : Text) (s : World R) → (checkout_revision client rev s).1.cache ≡ s.cache
  unfolding checkout_revision
  checkout_revision-cache rev =
      >>-Keeps (λ w. w.cache)
        (client.init >> unless (client.is_revision_present rev) (client.fetch []))
        (or_else (client.checkout rev) (client.fetch rev >> client.checkout (codes "FETCH_HEAD")))
        (>>-Keeps (λ w. w.cache) client.init
          (unless (client.is_revision_present rev) (client.fetch [])) (λ s. refl)
          (unless-Keeps (λ w. w.cache) (client.is_revision_present rev) (client.fetch [])
            (λ s. refl)))
        (or_else-Keeps (λ w. w.cache) (client.checkout rev)
          (client.fetch rev >> client.checkout (codes "FETCH_HEAD")) (λ s. refl)
          (>>-Keeps (λ w. w.cache) (client.fetch rev) (client.checkout (codes "FETCH_HEAD"))
            (λ s. refl) (λ s. refl)))

  client-HasFiles : HasFiles client (λ s. IsSound run_cmd s.cache) (files_of run_cmd m)
  client-HasFiles = record {
    reads = λ rev s i. (diff_tree_cached run_cmd m rev s.cache i).0;
    keeps = λ rev s i. (diff_tree_cached run_cmd m rev s.cache i).1;
  }

  -- The request names a repository and paths.
  pub record IsComplete (req : ChangeRevisionRequest) : Type 0 where
    pub repo : Text
    pub has_repo : req.repo ≡ some repo
    pub has_paths : req.paths ≢ []

  -- The current revision is the commit `target`, there is a previous revision, and `target` can be
  -- checked out or not.
  pub record Resolves (req : ChangeRevisionRequest) (s : World R) (target : Text)
      (checked_out : Bool) : Type 0 where
    pub complete : IsComplete req
    pub resolved : (remote.ls_remote req.current_revision s.copy).0 ≡ some target
    pub has_previous : req.previous_revision ≢ []
    pub checkout :
        (checkout_revision client target (client.ls_remote req.current_revision s).1).0
        ≡ checked_out

  -- The answer to a request, by what the repository says; nothing of the caches is in it.
  pub data Answers (req : ChangeRevisionRequest) (s : World R) : Response → Type 0 where
    no_repo : req.repo ≡ none → Answers req s panicked
    no_paths :
        (repo : Text)
        → req.repo ≡ some repo
        → req.paths ≡ []
        → Answers req s (status_error invalid_argument)
    unresolved :
        IsComplete req
        → (remote.ls_remote req.current_revision s.copy).0 ≡ none
        → Answers req s (status_error internal)
    first_sync :
        (target : Text)
        → IsComplete req
        → (remote.ls_remote req.current_revision s.copy).0 ≡ some target
        → req.previous_revision ≡ []
        → Answers req s (revision req.current_revision)
    no_checkout :
        (target : Text) → Resolves req s target false → Answers req s (status_error internal)
    no_listing :
        (target : Text)
        → Resolves req s target true
        → Unreadable (revisions_between run_cmd m req.previous_revision target)
        → Answers req s (status_error internal)
    no_way :
        (target : Text)
        → Resolves req s target true
        → revisions_between run_cmd m req.previous_revision target ≡ listed []
        → Answers req s (revision target)
    newest :
        (target : Text) (rev : Text) (revs : List Text) {r : Response}
        → Resolves req s target true
        → revisions_between run_cmd m req.previous_revision target ≡ listed (rev ∷ revs)
        → Newest req.paths (files_of run_cmd m) (rev ∷ revs) r
        → Answers req s r

  abbrev pub IsAnswered : ChangeRevisionRequest → World R → Response × World R → Type 0
  IsAnswered req s (r, t) = Answers req s r × IsSound run_cmd t.cache

  scan_listing-IsAnswered :
      (req : ChangeRevisionRequest) (s : World R) (target : Text) (l : Listing) (t : World R)
      → Resolves req s target true
      → revisions_between run_cmd m req.previous_revision target ≡ l
      → IsSound run_cmd t.cache
      → IsAnswered req s (scan_listing client req.paths target l t)
  unfolding scan_listing
  scan_listing-IsAnswered req s target invalid_revision t q e i =
      (no_listing target q (invalid e), i)
  scan_listing-IsAnswered req s target command_failed t q e i = (no_listing target q (failed e), i)
  scan_listing-IsAnswered req s target (listed []) t q e i = (no_way target q e, i)
  scan_listing-IsAnswered req s target (listed (rev ∷ revs)) t q e i =
      let (h, j) =
        scan-Finds req.paths (files_of run_cmd m) client (λ w. IsSound run_cmd w.cache)
          client-HasFiles (rev ∷ revs) t i in
      (newest target rev revs q e h, j)

  after_resolve-IsAnswered :
      (req : ChangeRevisionRequest) (s : World R) (o : Option Text)
      → IsComplete req
      → (remote.ls_remote req.current_revision s.copy).0 ≡ o
      → IsSound run_cmd s.cache
      → IsAnswered req s (after_resolve client req o (client.ls_remote req.current_revision s).1)
  unfolding after_resolve
  after_resolve-IsAnswered req s none q e i = (unresolved q e, i)
  after_resolve-IsAnswered req s (some target) q e i =
      let t = (client.ls_remote req.current_revision s).1 in
      let same = checkout_revision-cache target t in
      elim (Bool-cases (text_eq req.previous_revision [])) [
        | inl first ↦ rw first (first_sync target q e ((text_eq_iff _ _).0 first), i)
        | inr later ↦
            let previous : req.previous_revision ≢ [] = λ p. cc ((text_eq_iff _ _).1 p, later) in
            elim (Bool-cases (checkout_revision client target t).0) [
              | inl out ↦
                  let at_target : Resolves req s target true = record {
                    complete = q;
                    resolved = e;
                    has_previous = previous;
                    checkout = out;
                  } in
                  let cached =
                    list_revisions_cached run_cmd m req.previous_revision target
                      (checkout_revision client target t).1.cache
                      (subst (IsSound run_cmd) (sym same) i) in
                  rw (later, out)
                    (scan_listing-IsAnswered req s target _ _ at_target (sym cached.0) cached.1)
              | inr stuck ↦
                  rw (later, stuck)
                    (
                      no_checkout target (record {
                        complete = q;
                        resolved = e;
                        has_previous = previous;
                        checkout = stuck;
                      }),
                      subst (IsSound run_cmd) (sym same) i,
                    )
            ]
      ]

  with_paths-IsAnswered :
      (req : ChangeRevisionRequest) (s : World R) (repo : Text) (paths : List Text)
      → req.repo ≡ some repo
      → req.paths ≡ paths
      → IsSound run_cmd s.cache
      → IsAnswered req s (with_paths paths (some client) req s)
  unfolding with_paths with_client
  with_paths-IsAnswered req s repo [] e f i = (no_paths repo e f, i)
  with_paths-IsAnswered req s repo (p ∷ paths) e f i =
      let complete : IsComplete req = record { repo = repo; has_repo = e; has_paths = λ q. cc } in
      after_resolve-IsAnswered req s (client.ls_remote req.current_revision s).0 complete refl i

  with_repo-IsAnswered :
      (req : ChangeRevisionRequest) (s : World R) (o : Option Text)
      → req.repo ≡ o
      → IsSound run_cmd s.cache
      → IsAnswered req s (with_repo o (some client) req s)
  unfolding with_repo
  with_repo-IsAnswered req s none e i = (no_repo e, i)
  with_repo-IsAnswered req s (some repo) e i = with_paths-IsAnswered req s repo req.paths e refl i

-- For any state of a sound cache, the answer to a request is the one that the repository's history
-- gives: the newest commit between the revisions that touches the refresh paths, the empty
-- revision if none does, the current or target revision where there is nothing to search, or an
-- error. The cache stays sound.
pub change_revision_answer :
    {R : Type 0} (run_cmd : Text → List Text → Option Text) (m : NativeGitClient)
    (remote : Remote R) (req : ChangeRevisionRequest) (s : World R)
    → IsSound run_cmd s.cache
    → let (r, t) = get_change_revision (some (native_git_client run_cmd m remote)) req s in
      Answers run_cmd m remote req s r × IsSound run_cmd t.cache
unfolding get_change_revision
change_revision_answer run_cmd m remote req s i =
    with_repo-IsAnswered run_cmd m remote req s req.repo refl i
