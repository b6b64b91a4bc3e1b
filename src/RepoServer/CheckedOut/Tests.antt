-- ===== src/RepoServer/CheckedOut/Tests.antt =====
-- A tag that the working copy has, and a commit that only a fetch by its name brings.
use argocd_monorepo_controll.Base.{
  ◌≡◌, refl, subst, inl, inr, Text, codes, text_eq, text_eq_iff, Bool, true, false, List, [], ◌∷◌,
  Option, none, some, replicate, if◌then◌else◌, Bool-cases, Option-cases, any,
}
use argocd_monorepo_controll.Git.{NativeGitClient, is_commit_sha}
use argocd_monorepo_controll.Git.WorkingCopy.{
  Commands, ClientSettings, opened, checkout_args, fetch_args, init_copy, fetch,
  is_revision_present, checkout,
}
use argocd_monorepo_controll.Git.WorkingCopy.Head.{Behaves, fetch_head_name, hash_not_short}
use argocd_monorepo_controll.RepoServer.GitClient.{GitClient, checkout_revision}
use argocd_monorepo_controll.RepoServer.ChangeRevision.Native.{World, native_git_client}
use argocd_monorepo_controll.RepoServer.CheckedOut.{remote_of, checkout_revision-head}

abbrev tag : Text
tag = replicate 40 b'a'

abbrev commit : Text
commit = replicate 40 b'c'

-- The objects that the working copy has, what was fetched last, and what is checked out.
pub record SmallCopy : Type 0 where
  pub objects : List Text
  pub fetched : Option Text
  pub head : Option Text

-- One object is an annotated tag.
peeled : Text → Text
unfolding text_eq
peeled object = if text_eq object tag then commit else object

abbrev peeled_of : Option Text → Option Text
unfolding peeled
peeled_of none = none
peeled_of (some object) = some (peeled object)

resolve : Text → SmallCopy → Option Text
unfolding text_eq peeled
resolve name s =
    if text_eq name fetch_head_name
    then peeled_of s.fetched
    else if any (λ object. text_eq object name) s.objects
    then some (peeled name)
    else none

abbrev check_out : Option Text → SmallCopy → (Text × Bool) × SmallCopy
check_out (some c) s = (([], true), record s { head = some c })
check_out none s = (([], false), s)

run_cmd : List Text → SmallCopy → (Text × Bool) × SmallCopy
unfolding text_eq resolve
run_cmd (c ∷ f ∷ r ∷ []) s =
    if text_eq c (codes "checkout") then check_out (resolve r s) s else (([], true), s)
run_cmd _ s = (([], true), s)

run_credentialed_cmd : List Text → SmallCopy → Bool × SmallCopy
run_credentialed_cmd (c ∷ o ∷ r ∷ t ∷ f ∷ p ∷ []) s =
    (true, record s { objects = r ∷ s.objects; fetched = some r })
run_credentialed_cmd _ s = (true, s)

abbrev git : Commands SmallCopy
git = record {
  run_cmd = run_cmd;
  run_credentialed_cmd = run_credentialed_cmd;
  plain_open = λ s. opened;
  remove_all = λ s. (true, s);
  mkdir_all = λ s. (true, s);
  plain_init = λ s. (true, s);
  create_remote = λ url s. (true, s);
  has_gitmodules = λ s. true;
}

not_fetch_head : (sha : Text) → is_commit_sha sha ≡ true → text_eq sha fetch_head_name ≡ false
unfolding is_commit_sha
not_fetch_head sha e = elim (Bool-cases (text_eq sha fetch_head_name)) [
  | inr b ↦ b
  | inl b ↦
      (let h = subst (λ t. is_commit_sha t ≡ true) ((text_eq_iff sha fetch_head_name).0 b) e in cc)
]

checks_out :
    (rev : Text) (s : SmallCopy)
    → (run_cmd (checkout_args rev) s).0.1 ≡ true
    → (c : Text) × (resolve rev s ≡ some c) × ((run_cmd (checkout_args rev) s).1.head ≡ some c)
unfolding run_cmd text_eq
checks_out rev s e = elim (Option-cases (resolve rev s)) [
  | inl n ↦ (let f = rw n at e in cc)
  | inr (c, n) ↦ (c, n, rw n)
]

hash_names :
    (sha c : Text) (s : SmallCopy)
    → is_commit_sha sha ≡ true
    → resolve sha s ≡ some c
    → c ≡ peeled sha
unfolding resolve
hash_names sha c s h e =
    let f = rw (not_fetch_head sha h) at e in
    elim (Bool-cases (any (λ object. text_eq object sha) s.objects)) [
      | inl b ↦ (let g = rw b at f in cc)
      | inr b ↦ (let g = rw b at f in cc)
    ]

fetches :
    (sha : Text) (s : SmallCopy)
    → is_commit_sha sha ≡ true
    → resolve fetch_head_name (run_credentialed_cmd (fetch_args sha) s).1 ≡ some (peeled sha)
unfolding run_credentialed_cmd resolve text_eq
fetches sha s h = rw ((hash_not_short sha h).0)

git-Behaves : Behaves git (λ s. s.head) resolve peeled
unfolding run_cmd run_credentialed_cmd text_eq
git-Behaves = record {
  checks_out = checks_out;
  hash_names = hash_names;
  fetches = λ sha s h e. fetches sha s h;
  lists_large = λ s. refl;
  lists_large_fetched = λ s. refl;
  fetches_large = λ s. refl;
  checks_out_large = λ s. refl;
  syncs_submodules = λ s. refl;
  updates_submodules = λ s. refl;
  cleans = λ s. refl;
}

abbrev m : ClientSettings
m = record { repo_url = codes "https://git/a"; enable_lfs = true }

abbrev nm : NativeGitClient
nm = record {
  repo_url = codes "https://git/a";
  use_list_revisions_cache = false;
  use_diff_tree_cache = false;
}

abbrev no_cmd : Text → List Text → Option Text
no_cmd url args = none

abbrev answers : Text → SmallCopy → Option Text × SmallCopy
answers rev s = (some rev, s)

abbrev copy_with : List Text → World SmallCopy
copy_with objects = record {
  cache = [];
  copy = record { objects = objects; fetched = none; head = none };
}

abbrev client : GitClient (World SmallCopy)
client = native_git_client no_cmd nm (remote_of git m true answers)

-- The working copy has the tag, which is checked out by its hash.
checkout_revision-head_example :
    (checkout_revision client tag (copy_with (tag ∷ []))).1.copy.head ≡ some (peeled tag)
unfolding checkout_revision init_copy fetch is_revision_present checkout run_cmd
    run_credentialed_cmd is_commit_sha
checkout_revision-head_example =
    checkout_revision-head no_cmd nm git m true answers (λ s. s.head) resolve peeled tag
      (copy_with (tag ∷ [])) git-Behaves refl refl

-- The commit of the tag, and a commit that only a fetch by its name brings.
tag_test : (checkout_revision client tag (copy_with (tag ∷ []))).1.copy.head ≡ some commit
unfolding checkout_revision init_copy fetch is_revision_present checkout run_cmd
    run_credentialed_cmd peeled
tag_test = refl

fetched_test : (checkout_revision client commit (copy_with [])).1.copy.head ≡ some commit
unfolding checkout_revision init_copy fetch is_revision_present checkout run_cmd
    run_credentialed_cmd peeled
fetched_test = refl
