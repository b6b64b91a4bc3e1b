-- ===== src/Git/WorkingCopy/Head.antt =====
-- Which commit is checked out after a checkout.
use argocd_monorepo_controll.Base.{
  ◌≡◌, refl, sym, ap, subst, ◌∙◌, inl, inr, Text, codes, text_eq, text_eq_iff, Bool, true, false,
  ◌&&◌, List, [], ◌∷◌, Option, none, some, Bool-cases,
}
use argocd_monorepo_controll.Git.{is_commit_sha}
use argocd_monorepo_controll.RepoServer.GitClient.{◌>>◌}
use argocd_monorepo_controll.RepoServer.GitClient.Keeps.{Keeps, >>-Keeps, >>-both}
use argocd_monorepo_controll.Git.WorkingCopy.{
  Commands, ClientSettings, is_empty, run_git, fetch_args, fetch_refs, large_files_args,
  large_files, ls_large_files, fetch_large, fetch_lfs, fetch, submodule, checkout_args,
  checkout_target, checkout_large, checkout_lfs, checkout_submodules, checkout,
}

abbrev pub fetch_head_name : Text
fetch_head_name = codes "FETCH_HEAD"

-- What git documents of the commands, by the commit that is checked out (`head`), the one that a
-- name stands for (`resolve`, as of `git rev-parse name^{commit}`), and the commit of an object: a
-- commit itself, or the one that an annotated tag points to (`peeled`).
pub record Behaves {R : Type 0} (git : Commands R) (head : R → Option Text)
    (resolve : Text → R → Option Text) (peeled : Text → Text) : Type 0 where
  -- A checkout that succeeds had a commit to check out.
  pub checks_out :
      (rev : Text) (s : R)
      → (git.run_cmd (checkout_args rev) s).0.1 ≡ true
      → (commit : Text) × (resolve rev s ≡ some commit)
        × (head (git.run_cmd (checkout_args rev) s).1 ≡ some commit)
  -- A full hash stands for its own object, where the working copy has it.
  pub hash_names :
      (sha commit : Text) (s : R)
      → is_commit_sha sha ≡ true
      → resolve sha s ≡ some commit
      → commit ≡ peeled sha
  -- FETCH_HEAD stands for what was fetched last.
  pub fetches :
      (sha : Text) (s : R)
      → is_commit_sha sha ≡ true
      → (git.run_credentialed_cmd (fetch_args sha) s).0 ≡ true
      → resolve fetch_head_name (git.run_credentialed_cmd (fetch_args sha) s).1 ≡ some (peeled sha)
  -- The other commands change neither.
  pub lists_large : (s : R) → head (git.run_cmd large_files_args s).1 ≡ head s
  pub lists_large_fetched :
      (s : R)
      → resolve fetch_head_name (git.run_cmd large_files_args s).1 ≡ resolve fetch_head_name s
  pub fetches_large :
      (s : R)
      → resolve fetch_head_name
          (git.run_credentialed_cmd (codes "lfs" ∷ codes "fetch" ∷ codes "--all" ∷ []) s).1
        ≡ resolve fetch_head_name s
  pub checks_out_large :
      (s : R) → head (git.run_cmd (codes "lfs" ∷ codes "checkout" ∷ []) s).1 ≡ head s
  pub syncs_submodules :
      (s : R)
      → head
          (git.run_credentialed_cmd
            (codes "submodule" ∷ codes "sync" ∷ codes "--recursive" ∷ [])
            s).1
        ≡ head s
  pub updates_submodules :
      (s : R)
      → head
          (git.run_credentialed_cmd
            (codes "submodule" ∷ codes "update" ∷ codes "--init" ∷ codes "--recursive" ∷ [])
            s).1
        ≡ head s
  pub cleans : (s : R) → head (git.run_cmd (codes "clean" ∷ codes "-ffdx" ∷ []) s).1 ≡ head s

-- A full hash is neither empty nor HEAD.
pub hash_not_short :
    (sha : Text)
    → is_commit_sha sha ≡ true
    → (is_empty sha ≡ false) × (text_eq sha (codes "HEAD") ≡ false)
unfolding is_commit_sha text_eq
hash_not_short sha e = (
  (elim (Bool-cases (is_empty sha)) [
    | inr b ↦ b
    | inl b ↦ (let h = subst (λ t. is_commit_sha t ≡ true) ((text_eq_iff sha []).0 b) e in cc)
  ]),
  (elim (Bool-cases (text_eq sha (codes "HEAD"))) [
    | inr b ↦ b
    | inl b ↦
        (let h = subst (λ t. is_commit_sha t ≡ true) ((text_eq_iff sha (codes "HEAD")).0 b) e in cc)
  ]),
)

hash_target : (sha : Text) → is_commit_sha sha ≡ true → checkout_target sha ≡ sha
hash_target sha e = (let (a, b) = hash_not_short sha e in rw (a, b))

large_files-state : {R : Type 0} (x : (Text × Bool) × R) → (large_files x).1 ≡ x.1
large_files-state ((out, true), t) = refl
large_files-state ((out, false), t) = refl

module _ {R : Type 0} (git : Commands R) (m : ClientSettings) (head : R → Option Text)
    (resolve : Text → R → Option Text) (peeled : Text → Text)
    (behaves : Behaves git head resolve peeled) where
  abbrev fetch_head : R → Option Text
  fetch_head = resolve fetch_head_name

  ls_large_files-head : (s : R) → head (ls_large_files git m s).1 ≡ head s
  unfolding ls_large_files
  ls_large_files-head s =
      ap head (large_files-state (git.run_cmd large_files_args s)) ∙ behaves.lists_large s

  ls_large_files-fetch_head : (s : R) → fetch_head (ls_large_files git m s).1 ≡ fetch_head s
  unfolding ls_large_files
  ls_large_files-fetch_head s =
      ap fetch_head (large_files-state (git.run_cmd large_files_args s))
      ∙ behaves.lists_large_fetched s

  checkout_large-head : (x : Option (List Text) × R) → head (checkout_large git m x).1 ≡ head x.1
  unfolding run_git
  checkout_large-head (none, t) = refl
  checkout_large-head (some [], t) = refl
  checkout_large-head (some (f ∷ files), t) = behaves.checks_out_large t

  checkout_lfs-head : Keeps head (checkout_lfs git m)
  unfolding checkout_lfs
  checkout_lfs-head s = elim (Bool-cases m.enable_lfs) [
    | inl e ↦ rw e (checkout_large-head (ls_large_files git m s) ∙ ls_large_files-head s)
    | inr e ↦ rw e
  ]

  fetch_large-fetch_head :
      (x : Option (List Text) × R) → fetch_head (fetch_large git m x).1 ≡ fetch_head x.1
  fetch_large-fetch_head (none, t) = refl
  fetch_large-fetch_head (some [], t) = refl
  fetch_large-fetch_head (some (f ∷ files), t) = behaves.fetches_large t

  fetch_lfs-fetch_head : Keeps fetch_head (fetch_lfs git m)
  unfolding fetch_lfs
  fetch_lfs-fetch_head s = elim (Bool-cases m.enable_lfs) [
    | inl e ↦ rw e (fetch_large-fetch_head (ls_large_files git m s) ∙ ls_large_files-fetch_head s)
    | inr e ↦ rw e
  ]

  submodule-head : Keeps head (submodule git m)
  unfolding submodule
  submodule-head =
      >>-Keeps head
        (git.run_credentialed_cmd (codes "submodule" ∷ codes "sync" ∷ codes "--recursive" ∷ []))
        (git.run_credentialed_cmd
          (codes "submodule" ∷ codes "update" ∷ codes "--init" ∷ codes "--recursive" ∷ []))
        behaves.syncs_submodules behaves.updates_submodules

  checkout_submodules-head :
      (submodule_enabled : Bool) → Keeps head (checkout_submodules git m submodule_enabled)
  unfolding checkout_submodules
  checkout_submodules-head submodule_enabled s =
      elim (Bool-cases (git.has_gitmodules s && submodule_enabled)) [
        | inl e ↦ rw e (submodule-head s)
        | inr e ↦ rw e
      ]

  abbrev clean_copy : R → Bool × R
  clean_copy = run_git git m (codes "clean" ∷ codes "-ffdx" ∷ [])

  clean_copy-head : Keeps head clean_copy
  unfolding run_git
  clean_copy-head s = behaves.cleans s

  -- After the command that checks out, nothing moves the head.
  checkout-head :
      (submodule_enabled : Bool) (revision : Text) (s : R)
      → (checkout git m submodule_enabled revision s).0 ≡ true
      → ((git.run_cmd (checkout_args (checkout_target revision)) s).0.1 ≡ true)
        × (head (checkout git m submodule_enabled revision s).1
            ≡ head (git.run_cmd (checkout_args (checkout_target revision)) s).1)
  unfolding checkout run_git
  checkout-head submodule_enabled revision s e =
      let first = run_git git m (checkout_args (checkout_target revision)) in
      let subs = checkout_submodules git m submodule_enabled in
      let (a, b, c) = >>-both (first >> checkout_lfs git m >> subs) clean_copy s e in
      let (d, f, g) = >>-both (first >> checkout_lfs git m) subs s a in
      let (h, i, j) = >>-both first (checkout_lfs git m) s d in
      (
        h,
        ap (λ x. head x.1) c
            ∙ clean_copy-head ((first >> checkout_lfs git m >> subs) s).1
            ∙ ap (λ x. head x.1) g
            ∙ checkout_submodules-head submodule_enabled ((first >> checkout_lfs git m) s).1
            ∙ ap (λ x. head x.1) j
            ∙ checkout_lfs-head (first s).1,
      )

  -- What is checked out is what the revision stood for.
  pub checked_out :
      (submodule_enabled : Bool) (revision : Text) (s : R)
      → checkout_target revision ≡ revision
      → (checkout git m submodule_enabled revision s).0 ≡ true
      → (commit : Text) × (resolve revision s ≡ some commit)
        × (head (checkout git m submodule_enabled revision s).1 ≡ some commit)
  checked_out submodule_enabled revision s t e =
      let (a, b) = checkout-head submodule_enabled revision s e in
      let (commit, named, out) = behaves.checks_out revision s (rw t at a) in
      (commit, named, rw t at b ∙ out)

  pub checkout-head_of_hash :
      (submodule_enabled : Bool) (sha : Text) (s : R)
      → is_commit_sha sha ≡ true
      → (checkout git m submodule_enabled sha s).0 ≡ true
      → head (checkout git m submodule_enabled sha s).1 ≡ some (peeled sha)
  checkout-head_of_hash submodule_enabled sha s h e =
      let (commit, named, out) = checked_out submodule_enabled sha s (hash_target sha h) e in
      out ∙ ap some (behaves.hash_names sha commit s h named)

  pub checkout-head_of_fetched :
      (submodule_enabled : Bool) (s : R)
      → (checkout git m submodule_enabled fetch_head_name s).0 ≡ true
      → head (checkout git m submodule_enabled fetch_head_name s).1 ≡ resolve fetch_head_name s
  unfolding text_eq
  checkout-head_of_fetched submodule_enabled s e =
      let (commit, named, out) = checked_out submodule_enabled fetch_head_name s refl e in
      out ∙ sym named

  pub fetch-fetch_head :
      (sha : Text) (s : R)
      → is_commit_sha sha ≡ true
      → (fetch git m sha s).0 ≡ true
      → resolve fetch_head_name (fetch git m sha s).1 ≡ some (peeled sha)
  unfolding fetch fetch_refs
  fetch-fetch_head sha s h e =
      let (a, b, c) = >>-both (fetch_refs git m sha) (fetch_lfs git m) s e in
      ap (λ x. fetch_head x.1) c
      ∙ fetch_lfs-fetch_head (fetch_refs git m sha s).1
      ∙ behaves.fetches sha s h a
