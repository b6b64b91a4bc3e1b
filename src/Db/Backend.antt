-- ===== src/Db/Backend.antt =====
-- util/db/repository_secrets.go: repositories and credential templates in secrets.
--
-- An error of the API server, of the informer or of a conversion is `other`.
pub mod Chosen
pub mod Longest
use Prim.Native.Nat.{bit_xor}
use argocd_monorepo_controll.Base.{
  ℕ, suc, ◌*◌, ◌%◌, Text, codes, text_eq, starts_with, has, Bool, true, false, ◌&&◌, List, [], ◌∷◌,
  ◌++◌, Option, none, some, length, get_elem?, ltb, if◌then◌else◌,
}
use argocd_monorepo_controll.Strconv.{format_uint}
use argocd_monorepo_controll.Git.Urls.{normalize_git_url, same_url, to_lower}
use argocd_monorepo_controll.Repositories.{
  Repository, RepoCreds, ConnectionState, is_empty, new_repository,
}
use argocd_monorepo_controll.Db.Secrets.{
  DbError, not_found, already_exists, invalid_argument, internal, other, Result, ok, err, ◌>>=◌,
  Secret, string_of, label_key_secret_type, Kube, Written, written, exists_already, failed,
  delete_secret, delete_found, resynced, as_result,
}
use argocd_monorepo_controll.Db.Convert.{
  secret_to_repository, repository_to_secret, secret_to_repo_cred, repo_creds_to_secret,
  repo_creds_type,
}

-- FNV-1a from a state on, of 32 bits: the product is modulo 2 ^ 32.
unfoldable pub fnv_32a : ℕ → Text → ℕ
fnv_32a h [] = h
fnv_32a h (c ∷ s) = fnv_32a (bit_xor h c * 16777619 % 4294967296) s

unfoldable pub repo_url_to_secret_name : Text → Text → Text → Text
unfolding fnv_32a format_uint
repo_url_to_secret_name prefix repo project =
    prefix ++ (codes "-" ++ format_uint (fnv_32a (fnv_32a 2166136261 repo) project))

unfoldable pub get_secret_type : Bool → Text
get_secret_type write_creds = if write_creds then codes "repository-write" else codes "repository"

abbrev pub url_of : Secret → Text
url_of secret = string_of secret.data_of (codes "url")

abbrev pub project_of : Secret → Text
project_of secret = string_of secret.data_of (codes "project")

-- The loop of getRepositorySecret, with the secret of no project that was found last.
unfoldable pub choose_secret :
    (Text → Option Text) → Text → Text → Bool → Option Secret → List Secret → Option Secret
unfolding same_url string_of text_eq
choose_secret parse repo_url project allow_fallback found [] = found
choose_secret parse repo_url project allow_fallback found (secret ∷ secrets) =
    let rest = choose_secret parse repo_url project allow_fallback found secrets in
    let fallen = choose_secret parse repo_url project allow_fallback (some secret) secrets in
    if same_url parse (url_of secret) repo_url
    then if text_eq project (project_of secret)
      then some secret
      else if is_empty (project_of secret) && allow_fallback
      then fallen
      else rest
    else rest

-- The loop of getRepositoryCredentialIndex from index `i` on; `none` is -1.
unfoldable pub longest_index :
    (Text → Option Text) → Text → ℕ → Option ℕ → ℕ → List Secret → Option ℕ
unfolding normalize_git_url starts_with string_of
longest_index parse repo_url max_len idx i [] = idx
longest_index parse repo_url max_len idx i (cred ∷ creds) =
    let cred_url = normalize_git_url parse (url_of cred) in
    let kept = longest_index parse repo_url max_len idx (suc i) creds in
    let longer = longest_index parse repo_url (length cred_url) (some i) (suc i) creds in
    if starts_with repo_url cred_url && ltb max_len (length cred_url) then longer else kept

unfoldable pub get_repository_credential_index :
    (Text → Option Text) → List Secret → Text → Option ℕ
unfolding longest_index normalize_git_url
get_repository_credential_index parse creds repo_url =
    longest_index parse (normalize_git_url parse repo_url) 0 none 0 creds

abbrev pub or_not_found {ℓ} : {A : Type ℓ} → Option A → Result A
or_not_found none = err not_found
or_not_found (some a) = ok a

abbrev pub or_other {ℓ} : {A : Type ℓ} → Option A → Result A
or_other none = err other
or_other (some a) = ok a

-- A conversion, which gives back what it read with an error.
abbrev pub converted {ℓ} : {A : Type ℓ} → A × Bool → Result A
converted (a, fine) = as_result a fine

abbrev pub exists_if : Result Secret → Result Bool
exists_if (ok secret) = ok true
exists_if (err not_found) = ok false
exists_if (err e) = err e

abbrev pub new_secret : Text → Secret
new_secret secret_name = record { name = secret_name; labels = []; annotations = []; data_of = [] }

module _ {S : Type 0} (kube : Kube S) (parse : Text → Option Text) where
  unfoldable pub get_repository_secret : Bool → Text → Text → Bool → S → Result Secret
  unfolding choose_secret get_secret_type
  get_repository_secret write_creds repo_url project allow_fallback s = do
    secrets ← or_other (kube.list_secrets_by_type (get_secret_type write_creds) s)
    or_not_found (choose_secret parse repo_url project allow_fallback none secrets)

  abbrev at_index : List Secret → Option ℕ → Option Secret
  at_index secrets none = none
  at_index secrets (some i) = get_elem? secrets i

  unfoldable pub get_repo_creds_secret : Text → S → Result Secret
  unfolding get_repository_credential_index
  get_repo_creds_secret repo_url s = do
    secrets ← or_other (kube.list_secrets_by_type repo_creds_type s)
    or_not_found (at_index secrets (get_repository_credential_index parse secrets repo_url))

  module _ (write_creds : Bool) where
    abbrev label_of : Option (Option Secret) → Result Bool
    label_of none = err other
    label_of (some none) = ok false
    label_of (some (some secret)) = ok (has label_key_secret_type secret.labels)

    unfoldable pub has_repo_type_label : Text → S → Result Bool
    has_repo_type_label secret_name s = label_of (kube.get_secret secret_name s)

    -- The error for a secret that is there already.
    abbrev clash : Result Bool → DbError
    clash (err e) = internal
    clash (ok false) = invalid_argument
    clash (ok true) = already_exists

    abbrev pub after_create : Repository → Text → Written × S → Result Repository × S
    after_create repository secret_name (written, t) = resynced kube repository t
    after_create repository secret_name (exists_already, t) =
        (err (clash (has_repo_type_label secret_name t)), t)
    after_create repository secret_name (failed, t) = (err other, t)

    unfoldable pub create_repository : Repository → S → Result Repository × S
    unfolding repository_to_secret repo_url_to_secret_name get_secret_type resynced
        has_repo_type_label
    create_repository repository s =
        let secret_name =
          repo_url_to_secret_name (codes "repo") repository.repo repository.project in
        let secret =
          repository_to_secret (get_secret_type write_creds) repository (new_secret secret_name) in
        after_create repository secret_name (kube.create secret s)

    abbrev or_new : Text → Result Secret → Result Repository
    or_new repo_url (ok secret) = converted (secret_to_repository secret.data_of)
    or_new repo_url (err not_found) = ok (new_repository repo_url)
    or_new repo_url (err e) = err e

    unfoldable pub backend_get_repository : Text → Text → S → Result Repository
    unfolding get_repository_secret secret_to_repository
    backend_get_repository repo_url project s =
        or_new repo_url (get_repository_secret write_creds repo_url project true s)

    -- A secret that is not converted is listed with its connection state set.
    abbrev or_failed : Repository × Bool → Repository
    or_failed (r, true) = r
    or_failed (r, false) = record r {
      connection_state = record {
        status = codes "Failed";
        message = codes "Configuration error - please check the server logs";
      };
    }

    abbrev is_wanted : Option Text → Repository → Bool
    is_wanted none r = true
    is_wanted (some repo_type) r = text_eq repo_type r.type

    unfoldable pub repositories_of : Option Text → List Secret → List Repository
    unfolding secret_to_repository text_eq
    repositories_of repo_type [] = []
    repositories_of repo_type (secret ∷ secrets) =
        let r = or_failed (secret_to_repository secret.data_of) in
        let rest = repositories_of repo_type secrets in
        if is_wanted repo_type r then r ∷ rest else rest

    unfoldable pub backend_list_repositories : Option Text → S → Result (List Repository)
    unfolding repositories_of get_secret_type
    backend_list_repositories repo_type s = do
      secrets ← or_other (kube.list_secrets_by_type (get_secret_type write_creds) s)
      ok (repositories_of repo_type secrets)

    abbrev after_update : Repository → Option Secret × S → Result Repository × S
    after_update repository (none, t) = (err other, t)
    after_update repository (some secret, t) = resynced kube repository t

    abbrev update_found : Repository → Result Secret → S → Result Repository × S
    update_found repository (ok secret) s = after_update repository (
        kube.update_secret (repository_to_secret (get_secret_type write_creds) repository secret) s)
    update_found repository (err not_found) s = create_repository repository s
    update_found repository (err e) s = (err e, s)

    unfoldable pub backend_update_repository : Repository → S → Result Repository × S
    unfolding get_repository_secret repository_to_secret create_repository
    backend_update_repository repository s =
        update_found repository
          (get_repository_secret write_creds repository.repo repository.project false s) s

    unfoldable pub backend_delete_repository : Text → Text → S → Result (Unit {0}) × S
    unfolding get_repository_secret delete_secret resynced
    backend_delete_repository repo_url project s =
        delete_found kube (get_repository_secret write_creds repo_url project false s) s

    unfoldable pub backend_repository_exists : Text → Text → Bool → S → Result Bool
    unfolding get_repository_secret
    backend_repository_exists repo_url project allow_fallback s =
        exists_if (get_repository_secret write_creds repo_url project allow_fallback s)
