-- ===== src/Db/Tests.antt =====
-- A server that keeps its secrets in a list, and repositories on it.
use argocd_monorepo_controll.Base.{
  ◌≡◌, refl, ap, ◌∙◌, text_eq_refl, Text, codes, text_eq, lookup, Bool, true, false, List, [], ◌∷◌,
  Option, none, some, any, if◌then◌else◌, Bool-cases, inl, inr, arith,
}
use argocd_monorepo_controll.Strconv.{pos}
use argocd_monorepo_controll.Repositories.{Repository, new_repository, has_credentials}
use argocd_monorepo_controll.Db.Secrets.{
  ok, ◌>>=◌, Secret, Kube, Written, written, exists_already, label_key_secret_type,
}
use argocd_monorepo_controll.Db.Convert.{
  new_repo_creds, secret_to_repository, repository_to_secret, repo_creds_to_secret,
}
use argocd_monorepo_controll.Db.Convert.RoundTrip.{
  IsInt64, stored, secret_to_repository-repository_to_secret,
}
use argocd_monorepo_controll.Db.Backend.{
  new_secret, get_repository_secret, get_secret_type, or_other, or_not_found,
  get_repository_credential_index,
}
use argocd_monorepo_controll.Db.Backend.Chosen.{chosen, get_repository_secret-chosen}
use argocd_monorepo_controll.Db.Backend.Longest.{Finds, get_repository_credential_index-Finds}
use argocd_monorepo_controll.Db.Database.{db_create_repository, db_get_repository}
use argocd_monorepo_controll.Db.Database.Created.{Lists, db_get_repository-db_create_repository}
use argocd_monorepo_controll.Git.Urls.{normalize_git_url}

abbrev has_type : Text → Option Text → Bool
has_type t none = false
has_type t (some u) = text_eq t u

of_type : Text → List Secret → List Secret
unfolding lookup text_eq
of_type t [] = []
of_type t (secret ∷ secrets) =
    if has_type t (lookup label_key_secret_type secret.labels)
    then secret ∷ of_type t secrets
    else of_type t secrets

create : Secret → List Secret → Written × List Secret
unfolding text_eq
create secret secrets =
    if any (λ other. text_eq other.name secret.name) secrets
    then (exists_already, secrets)
    else (written, secret ∷ secrets)

abbrev kube : Kube (List Secret)
kube = record {
  list_secrets_by_type = λ t secrets. some (of_type t secrets);
  get_secret = λ name secrets. some none;
  create = create;
  update_secret = λ secret secrets. (none, secrets);
  delete_secret = λ name secrets. (false, secrets);
  resync_informers = λ secrets. (true, secrets);
}

create_written :
    (secret : Secret) (s : List Secret)
    → (create secret s).0 ≡ written
    → (create secret s).1 ≡ secret ∷ s
unfolding create
create_written secret s e = elim (Bool-cases (any (λ other. text_eq other.name secret.name) s)) [
  | inl b ↦ (let h = rw b at e in cc)
  | inr b ↦ rw b
]

of_type-cons :
    (secret : Secret) (t : Text) (s : List Secret)
    → lookup label_key_secret_type secret.labels ≡ some t
    → of_type t (secret ∷ s) ≡ secret ∷ of_type t s
unfolding of_type
of_type-cons secret t s l = rw (l, text_eq_refl t)

some_inj : (a b : List Secret) → some a ≡ some b → a ≡ b
some_inj a b e = cc

kube-Lists : Lists kube
kube-Lists = record {
  created = λ secret t s secrets l e w r. (
    [],
    secrets,
    refl,
    ap (λ x. some (of_type t x)) (create_written secret s w)
        ∙ ap some
            (of_type-cons secret t s l ∙ ap (λ x. secret ∷ x) (some_inj (of_type t s) secrets e)),
  );
}

abbrev parse : Text → Option Text
parse url = some url

abbrev repository : Repository
repository = record (new_repository (codes "https://git/a")) {
  username = codes "u";
  password = codes "p";
  project = codes "team";
  insecure = true;
  github_app_id = pos 42;
}

repository-IsInt64 : IsInt64 repository
repository-IsInt64 = record {
  id_min = omega arith;
  id_max = omega arith;
  installation_min = omega arith;
  installation_max = omega arith;
}

-- A template with a longer and one with a shorter URL, and one that does not match.
abbrev template : Text → Secret
template url = repo_creds_to_secret (record new_repo_creds { url = url }) (new_secret url)

abbrev templates : List Secret
templates =
    template (codes "https://git/")
    ∷ template (codes "https://git/a")
    ∷ template (codes "https://git/b")
    ∷ []

longest_test : get_repository_credential_index parse templates (codes "https://git/a/b") ≡ some 1
unfolding get_repository_credential_index repo_creds_to_secret
longest_test = refl

get_repository_credential_index-Finds_example :
    Finds parse
      (normalize_git_url parse (codes "https://git/a/b"))
      0
      0
      none
      templates
      (get_repository_credential_index parse templates (codes "https://git/a/b"))
get_repository_credential_index-Finds_example =
    get_repository_credential_index-Finds parse templates (codes "https://git/a/b")

abbrev state : List Secret
state =
    repository_to_secret (codes "repository")
      (record (new_repository (codes "https://git/a")) { username = codes "v" })
      (new_secret (codes "shared"))
    ∷ []

get_repository_secret-chosen_example :
    get_repository_secret kube parse false (codes "https://git/a") (codes "team") true state ≡ (
      or_other (kube.list_secrets_by_type (get_secret_type false) state) >>= λ secrets.
      or_not_found (chosen parse (codes "https://git/a") (codes "team") true secrets))
get_repository_secret-chosen_example =
    get_repository_secret-chosen kube parse false (codes "https://git/a") (codes "team") true state

secret_to_repository-repository_to_secret_example :
    secret_to_repository
      (repository_to_secret
        (codes "repository")
        repository
        (template (codes "https://git/"))).data_of
    ≡ (stored repository, true)
secret_to_repository-repository_to_secret_example =
    secret_to_repository-repository_to_secret (codes "repository") repository
      (template (codes "https://git/")) repository-IsInt64

abbrev after : List Secret
after = (db_create_repository kube parse false repository state).1

created_there : db_create_repository kube parse false repository state ≡ (ok repository, after)
unfolding db_create_repository create of_type repository_to_secret
created_there = refl

db_get_repository-db_create_repository_example :
    db_get_repository kube parse (codes "https://git/a") (codes "team") after
    ≡ ok (stored repository)
unfolding has_credentials text_eq
db_get_repository-db_create_repository_example =
    db_get_repository-db_create_repository kube parse repository repository state after kube-Lists
      repository-IsInt64 refl refl created_there
