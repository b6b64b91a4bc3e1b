-- ===== src/RepoServer/CheckedOut.antt =====
-- checkoutRevision of reposerver/repository/repository.go over the working copy of the native
-- client.
mod Tests
use argocd_monorepo_controll.Base.{
  ◌≡◌, refl, ap, ◌∙◌, ◌⊎◌, inl, inr, Text, codes, Bool, true, false, List, [], Option, none, some,
  Bool-cases,
}
use argocd_monorepo_controll.Git.{NativeGitClient, is_commit_sha}
use argocd_monorepo_controll.Git.WorkingCopy.{
  Commands, ClientSettings, init_copy, is_revision_present, fetch, checkout,
}
use argocd_monorepo_controll.Git.WorkingCopy.Head.{
  Behaves, fetch_head_name, checkout-head_of_hash, checkout-head_of_fetched, fetch-fetch_head,
}
use argocd_monorepo_controll.RepoServer.GitClient.{
  GitClient, checkout_revision, ◌>>◌, or_else, unless,
}
use argocd_monorepo_controll.RepoServer.GitClient.Keeps.{>>-both}
use argocd_monorepo_controll.RepoServer.ChangeRevision.Native.{Remote, World, native_git_client}

-- The parts of the client on the working copy; `ls_remote` asks the remote.
abbrev pub remote_of :
    {R : Type 0} → Commands R → ClientSettings → Bool → (Text → R → Option Text × R) → Remote R
remote_of git m submodule_enabled ls_remote = record {
  ls_remote = ls_remote;
  init = init_copy git m;
  is_revision_present = is_revision_present git m;
  fetch = fetch git m;
  checkout = checkout git m submodule_enabled;
}

or_else-either :
    {S : Type 0} (m k : S → Bool × S) (s : S)
    → (or_else m k s).0 ≡ true
    → (((m s).0 ≡ true) × ((or_else m k s).1 ≡ (m s).1))
      ⊎ (((k (m s).1).0 ≡ true) × ((or_else m k s).1 ≡ (k (m s).1).1))
or_else-either m k s e = elim (Bool-cases (m s).0) [
  | inl h ↦ rw h (inl (refl, refl))
  | inr h ↦ rw h (inr ((rw h at e), refl))
]

module _ {R : Type 0} (run_cmd : Text → List Text → Option Text) (nm : NativeGitClient)
    (git : Commands R) (m : ClientSettings) (submodule_enabled : Bool)
    (ls_remote : Text → R → Option Text × R) (head : R → Option Text)
    (resolve : Text → R → Option Text) (peeled : Text → Text)
    (behaves : Behaves git head resolve peeled) (sha : Text) (h : is_commit_sha sha ≡ true) where
  abbrev client : GitClient (World R)
  client = native_git_client run_cmd nm (remote_of git m submodule_enabled ls_remote)

  abbrev refetch : World R → Bool × World R
  refetch = client.fetch sha >> client.checkout fetch_head_name

  refetch-head : (w : World R) → (refetch w).0 ≡ true → head (refetch w).1.copy ≡ some (peeled sha)
  refetch-head w e =
      let (a, b, c) = >>-both (client.fetch sha) (client.checkout fetch_head_name) w e in
      ap (λ x. head x.1.copy) c
      ∙ checkout-head_of_fetched git m head resolve peeled behaves submodule_enabled
          (client.fetch sha w).1.copy b
      ∙ fetch-fetch_head git m head resolve peeled behaves sha w.copy h a

  either-head :
      (w : World R)
      → (or_else (client.checkout sha) refetch w).0 ≡ true
      → head (or_else (client.checkout sha) refetch w).1.copy ≡ some (peeled sha)
  either-head w e = elim (or_else-either (client.checkout sha) refetch w e) [
    | inl (a, b) ↦
        ap (λ x. head x.copy) b
        ∙ checkout-head_of_hash git m head resolve peeled behaves submodule_enabled sha w.copy h a
    | inr (a, b) ↦ ap (λ x. head x.copy) b ∙ refetch-head (client.checkout sha w).1 a
  ]

  checked_out-head :
      (w : World R)
      → (checkout_revision client sha w).0 ≡ true
      → head (checkout_revision client sha w).1.copy ≡ some (peeled sha)
  unfolding checkout_revision
  checked_out-head w e =
      let ready = client.init >> unless (client.is_revision_present sha) (client.fetch []) in
      let (a, b, c) = >>-both ready (or_else (client.checkout sha) refetch) w e in
      ap (λ x. head x.1.copy) c ∙ either-head (ready w).1 b

-- If checkoutRevision succeeds for a full hash, the commit of this object is checked out in the
-- working copy, which is the commit that an annotated tag points to if the hash is a tag's, with
-- git's commands as documented: whether the object was there, was fetched with the default refs or
-- by its name, and with or without large files and submodules.
pub checkout_revision-head :
    {R : Type 0} (run_cmd : Text → List Text → Option Text) (nm : NativeGitClient)
    (git : Commands R) (m : ClientSettings) (submodule_enabled : Bool)
    (ls_remote : Text → R → Option Text × R) (head : R → Option Text)
    (resolve : Text → R → Option Text) (peeled : Text → Text) (sha : Text) (w : World R)
    → Behaves git head resolve peeled
    → is_commit_sha sha ≡ true
    → let c = native_git_client run_cmd nm (remote_of git m submodule_enabled ls_remote) in
      (checkout_revision c sha w).0 ≡ true
      → head (checkout_revision c sha w).1.copy ≡ some (peeled sha)
checkout_revision-head run_cmd nm git m submodule_enabled ls_remote head resolve peeled sha w b h
      e =
    checked_out-head run_cmd nm git m submodule_enabled ls_remote head resolve peeled b sha h w e
