-- ===== src/RepoServer/ChangeRevision/Newest.antt =====
-- What GetChangeRevision looks for: the newest commit that touches the application's paths.
use argocd_monorepo_controll.Base.{
  ◌≡◌, refl, ap, inl, inr, Text, true, false, List, [], ◌∷◌, ◌++◌, All, Bool-cases,
}
use argocd_monorepo_controll.Git.{Listing, listed, invalid_revision, command_failed}
use argocd_monorepo_controll.Paths.Refresh.{app_files_have_changed}
use argocd_monorepo_controll.RepoServer.GitClient.{GitClient}
use argocd_monorepo_controll.RepoServer.ChangeRevision.{
  Response, revision, status_error, internal, check_revision, scan,
}

-- A client whose listing of a commit's files does not depend on the state, as long as the state
-- keeps an invariant.
pub record HasFiles {S : Type 0} (c : GitClient S) (I : S → Type 0) (files : Text → Listing)
    : Type 0 where
  pub reads : (rev : Text) (s : S) → I s → (c.diff_tree rev s).0 ≡ files rev
  pub keeps : (rev : Text) (s : S) → I s → I (c.diff_tree rev s).1

-- A commit that changes files, some of them under the paths.
pub record Touches (paths : List Text) (l : Listing) : Type 0 where
  pub first : Text
  pub others : List Text
  pub read : l ≡ listed (first ∷ others)
  pub covered : app_files_have_changed paths (first ∷ others) ≡ true

-- A commit that changes no file, or none under the paths.
pub data Passes (paths : List Text) (l : Listing) : Type 0 where
  no_files : l ≡ listed [] → Passes paths l
  outside :
      (f : Text) (fs : List Text)
      → l ≡ listed (f ∷ fs)
      → app_files_have_changed paths (f ∷ fs) ≡ false
      → Passes paths l

pub data Unreadable (l : Listing) : Type 0 where
  invalid : l ≡ invalid_revision → Unreadable l
  failed : l ≡ command_failed → Unreadable l

-- The first commit of the list, from the newest, that touches the paths, if those before it can be
-- read and pass; the empty revision if all pass; an error if one before cannot be read.
pub data Newest (paths : List Text) (files : Text → Listing) (revs : List Text)
    : Response → Type 0 where
  found :
      (before : List Text) (rev : Text) (after : List Text)
      → revs ≡ before ++ (rev ∷ after)
      → All (λ r. Passes paths (files r)) before
      → Touches paths (files rev)
      → Newest paths files revs (revision rev)
  none_found : All (λ r. Passes paths (files r)) revs → Newest paths files revs (revision [])
  unreadable :
      (before : List Text) (rev : Text) (after : List Text)
      → revs ≡ before ++ (rev ∷ after)
      → All (λ r. Passes paths (files r)) before
      → Unreadable (files rev)
      → Newest paths files revs (status_error internal)

module _ (paths : List Text) (files : Text → Listing) where
  Newest-cons :
      {rev : Text} {revs : List Text} {r : Response}
      → Passes paths (files rev)
      → Newest paths files revs r
      → Newest paths files (rev ∷ revs) r
  Newest-cons {rev} p (found before r after e h t) =
      found (rev ∷ before) r after (ap (λ l. rev ∷ l) e) (p, h) t
  Newest-cons p (none_found h) = none_found (p, h)
  Newest-cons {rev} p (unreadable before r after e h u) =
      unreadable (rev ∷ before) r after (ap (λ l. rev ∷ l) e) (p, h) u

  module _ {S : Type 0} (c : GitClient S) (I : S → Type 0) (reads : HasFiles c I files) where
    -- The loop's result, and that the state's invariant still holds.
    abbrev pub Finds : List Text → Response × S → Type 0
    Finds revs (r, s) = Newest paths files revs r × I s

    check_revision-Finds :
        (rev : Text) (revs : List Text) (l : Listing) (rest : S → Response × S) (s : S)
        → files rev ≡ l
        → I s
        → Finds revs (rest s)
        → Finds (rev ∷ revs) (check_revision c paths rev l rest s)
    unfolding check_revision
    check_revision-Finds rev revs invalid_revision rest s e i h =
        (unreadable [] rev revs refl tt (invalid e), i)
    check_revision-Finds rev revs command_failed rest s e i h =
        (unreadable [] rev revs refl tt (failed e), i)
    check_revision-Finds rev revs (listed []) rest s e i h = (Newest-cons (no_files e) h.0, h.1)
    check_revision-Finds rev revs (listed (f ∷ fs)) rest s e i h =
        elim (Bool-cases (app_files_have_changed paths (f ∷ fs))) [
          | inl yes' ↦ rw yes' (
            found [] rev revs refl tt (record { first = f; others = fs; read = e; covered = yes' }),
            i,
          )
          | inr no' ↦ rw no' (Newest-cons (outside f fs e no') h.0, h.1)
        ]

    pub scan-Finds : (revs : List Text) (s : S) → I s → Finds revs (scan c paths revs s)
    unfolding scan
    scan-Finds [] s i = (none_found tt, i)
    scan-Finds (rev ∷ revs) s i =
        let kept = reads.keeps rev s i in
        rw (reads.reads rev s i) (
          check_revision-Finds rev revs (files rev) (scan c paths revs) (c.diff_tree rev s).1 refl
            kept (scan-Finds revs (c.diff_tree rev s).1 kept))
