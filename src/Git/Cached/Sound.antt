-- ===== src/Git/Cached/Sound.antt =====
-- Caches whose entries are what git gives, and writes that keep them so.
use argocd_monorepo_controll.Base.{
  ◌≡◌, sym, ◌∙◌, inl, inr, Text, text_eq, text_eq_iff, lookup, lookup-insert, true, not, ◌||◌, List,
  [], ◌∷◌, Option, none, some, Bool-cases, if◌then◌else◌,
}
use argocd_monorepo_controll.Git.{
  is_commit_sha, Cache, list_revisions_key, diff_tree_key, set_list_revisions, set_diff_tree,
  NativeGitClient, Listing, listed, invalid_revision, command_failed, lines, rev_list,
  diff_tree_cmd,
}
use argocd_monorepo_controll.Git.Keys.{
  diff_tree_key_inj, list_revisions_key_inj, list_revisions_key-ne-diff_tree_key,
}

-- What the command gives.
abbrev pub listing : Option Text → Listing
listing none = command_failed
listing (some out) = listed (lines out)

module _ (run_cmd : Text → List Text → Option Text) where
  -- Each cached listing of commits is the one that git gives.
  pub record IsSound (cache : Cache) : Type 0 where
    pub revisions :
        (m : NativeGitClient) (a b : Text) (rs : List Text)
        → is_commit_sha a ≡ true
        → is_commit_sha b ≡ true
        → lookup (list_revisions_key m.repo_url a b) cache ≡ some rs
        → listing (rev_list run_cmd m a b) ≡ listed rs
    pub files :
        (m : NativeGitClient) (a : Text) (fs : List Text)
        → is_commit_sha a ≡ true
        → lookup (diff_tree_key m.repo_url a) cache ≡ some fs
        → listing (diff_tree_cmd run_cmd m a) ≡ listed fs

  -- ListRevisions and DiffTree without a cache.
  abbrev pub revisions_between : NativeGitClient → Text → Text → Listing
  revisions_between m a b =
      if text_eq a []
      then listed (b ∷ [])
      else if not (is_commit_sha a) || not (is_commit_sha b)
      then invalid_revision
      else if text_eq a b
      then listed (a ∷ [])
      else listing (rev_list run_cmd m a b)

  abbrev pub files_of : NativeGitClient → Text → Listing
  files_of m a =
      if not (is_commit_sha a) then invalid_revision else listing (diff_tree_cmd run_cmd m a)

  pub empty-IsSound : IsSound []
  unfolding lookup
  empty-IsSound = record { revisions = λ m a b rs ha hb e. cc; files = λ m a fs ha e. cc }

  pub set_list_revisions-IsSound :
      (m : NativeGitClient) (a b : Text) (rs : List Text) (cache : Cache)
      → is_commit_sha a ≡ true
      → is_commit_sha b ≡ true
      → listing (rev_list run_cmd m a b) ≡ listed rs
      → IsSound cache
      → IsSound (set_list_revisions cache m.repo_url a b rs)
  unfolding set_list_revisions rev_list
  set_list_revisions-IsSound m a b rs cache ha hb now s = record {
    revisions = λ n c d us hc hd e.
        let key = list_revisions_key m.repo_url a b in
        let other = list_revisions_key n.repo_url c d in
        elim (Bool-cases (text_eq key other)) [
          | inl same ↦
              let (u, p, q) =
                list_revisions_key_inj m.repo_url n.repo_url a c b d ha hc hb hd
                  ((text_eq_iff key other).0 same) in
              rw (← u, ← p, ← q) (now ∙ cc (rw (lookup-insert key other rs cache, same) at e))
          | inr ne ↦ s.revisions n c d us hc hd (rw (lookup-insert key other rs cache, ne) at e)
        ];
    files = λ n c fs hc e.
        let key = list_revisions_key m.repo_url a b in
        let other = diff_tree_key n.repo_url c in
        elim (Bool-cases (text_eq key other)) [
          | inl same ↦
              absurd
                (list_revisions_key-ne-diff_tree_key _ _ _ _ _ ((text_eq_iff key other).0 same))
          | inr ne ↦ s.files n c fs hc (rw (lookup-insert key other rs cache, ne) at e)
        ];
  }

  pub set_diff_tree-IsSound :
      (m : NativeGitClient) (a : Text) (fs : List Text) (cache : Cache)
      → is_commit_sha a ≡ true
      → listing (diff_tree_cmd run_cmd m a) ≡ listed fs
      → IsSound cache
      → IsSound (set_diff_tree cache m.repo_url a fs)
  unfolding set_diff_tree diff_tree_cmd
  set_diff_tree-IsSound m a fs cache ha now s = record {
    revisions = λ n c d us hc hd e.
        let key = diff_tree_key m.repo_url a in
        let other = list_revisions_key n.repo_url c d in
        elim (Bool-cases (text_eq key other)) [
          | inl same ↦
              absurd (
                list_revisions_key-ne-diff_tree_key _ _ _ _ _
                  (sym ((text_eq_iff key other).0 same)))
          | inr ne ↦ s.revisions n c d us hc hd (rw (lookup-insert key other fs cache, ne) at e)
        ];
    files = λ n c gs hc e.
        let key = diff_tree_key m.repo_url a in
        let other = diff_tree_key n.repo_url c in
        elim (Bool-cases (text_eq key other)) [
          | inl same ↦
              let (u, p) =
                diff_tree_key_inj m.repo_url n.repo_url a c ha hc
                  ((text_eq_iff key other).0 same) in
              rw (← u, ← p) (now ∙ cc (rw (lookup-insert key other fs cache, same) at e))
          | inr ne ↦ s.files n c gs hc (rw (lookup-insert key other fs cache, ne) at e)
        ];
  }
