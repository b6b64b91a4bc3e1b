-- ===== src/Db/Database.antt =====
-- util/db/repository.go: the database of repositories over the backend that holds them in secrets.
--
-- Where Go returns a repository with an error, the error is the result.
pub mod Created
use argocd_monorepo_controll.Base.{
  Text, codes, text_eq, Bool, true, false, List, [], ◌∷◌, Option, none, some, if◌then◌else◌,
}
use argocd_monorepo_controll.Repositories.{
  Repository, RepoCreds, new_repository, has_credentials, copy_credentials_from, filter,
}
use argocd_monorepo_controll.Db.Secrets.{not_found, already_exists, Result, ok, err, ◌>>=◌, Kube}
use argocd_monorepo_controll.Db.Backend.{
  create_repository, backend_get_repository, backend_list_repositories, backend_update_repository,
  backend_delete_repository, backend_repository_exists,
}
use argocd_monorepo_controll.Db.Creds.{
  create_repo_creds, get_repo_creds, update_repo_creds, delete_repo_creds, repo_creds_exists,
  list_repo_creds, get_all_repo_creds,
}

module _ {S : Type 0} (kube : Kube S) (parse : Text → Option Text) where
  -- A call made only if something is there, or only if it is not.
  abbrev if_there {ℓ} : {A : Type ℓ} → Result Bool → (S → Result A × S) → S → Result A × S
  if_there (ok true) call s = call s
  if_there (ok false) call s = (err not_found, s)
  if_there (err e) call s = (err e, s)

  abbrev pub if_free {ℓ} : {A : Type ℓ} → Result Bool → (S → Result A × S) → S → Result A × S
  if_free (ok true) call s = (err already_exists, s)
  if_free (ok false) call s = call s
  if_free (err e) call s = (err e, s)

  -- CreateRepository and CreateWriteRepository, by `write_creds`; so also below.
  unfoldable pub db_create_repository : Bool → Repository → S → Result Repository × S
  unfolding backend_repository_exists create_repository
  db_create_repository write_creds r s =
      if_free (backend_repository_exists kube parse write_creds r.repo r.project false s)
        (create_repository kube parse write_creds r) s

  unfoldable pub db_repository_exists : Bool → Text → Text → S → Result Bool
  unfolding backend_repository_exists
  db_repository_exists write_creds repo_url project s =
      backend_repository_exists kube parse write_creds repo_url project true s

  -- getRepository.
  unfoldable pub get_repository_or_new : Text → Text → S → Result Repository
  unfolding backend_repository_exists backend_get_repository
  get_repository_or_new repo_url project s = do
    exists ← backend_repository_exists kube parse false repo_url project true s
    if exists
        then backend_get_repository kube parse false repo_url project s
        else ok (new_repository repo_url)

  -- GetRepositoryCredentials and GetWriteRepositoryCredentials.
  unfoldable pub get_repository_credentials : Text → S → Result (Option RepoCreds)
  unfolding repo_creds_exists get_repo_creds
  get_repository_credentials repo_url s = do
    exists ← repo_creds_exists kube parse repo_url s
    if exists then get_repo_creds kube parse repo_url s else ok none

  abbrev pub inherit : Option RepoCreds → Repository → Repository
  inherit none repository = repository
  inherit (some creds) repository = record (copy_credentials_from creds repository) {
    inherited_creds = true;
  }

  unfoldable pub enrich_creds_to_repo : Repository → S → Result Repository
  unfolding has_credentials get_repository_credentials copy_credentials_from
  enrich_creds_to_repo repository s =
      if has_credentials repository
      then ok repository
      else (do creds ← get_repository_credentials repository.repo s; ok (inherit creds repository))

  unfoldable pub db_get_repository : Text → Text → S → Result Repository
  unfolding get_repository_or_new enrich_creds_to_repo
  db_get_repository repo_url project s = do
    repository ← get_repository_or_new repo_url project s
    enrich_creds_to_repo repository s

  unfoldable pub get_write_repository : Text → Text → S → Result Repository
  unfolding backend_get_repository
  get_write_repository repo_url project s =
      backend_get_repository kube parse true repo_url project s

  unfoldable pub enrich_creds_to_repos : List Repository → S → Result (List Repository)
  unfolding enrich_creds_to_repo
  enrich_creds_to_repos [] s = ok []
  enrich_creds_to_repos (r ∷ rs) s = do
    enriched ← enrich_creds_to_repo r s
    others ← enrich_creds_to_repos rs s
    ok (enriched ∷ others)

  unfoldable pub list_repositories : Option Text → Bool → S → Result (List Repository)
  unfolding backend_list_repositories enrich_creds_to_repos
  list_repositories repo_type write_creds s = do
    repositories ← backend_list_repositories kube parse write_creds repo_type s
    enrich_creds_to_repos repositories s

  unfoldable pub list_oci_repositories : S → Result (List Repository)
  unfolding list_repositories filter text_eq
  list_oci_repositories s = do
    repos ← list_repositories (some (codes "oci")) false s
    ok (filter (λ r. text_eq r.type (codes "oci")) repos)

  unfoldable pub db_update_repository : Bool → Repository → S → Result Repository × S
  unfolding backend_repository_exists backend_update_repository
  db_update_repository write_creds r s =
      if_there (backend_repository_exists kube parse write_creds r.repo r.project false s)
        (backend_update_repository kube parse write_creds r) s

  unfoldable pub db_delete_repository : Bool → Text → Text → S → Result (Unit {0}) × S
  unfolding backend_repository_exists backend_delete_repository
  db_delete_repository write_creds repo_url project s =
      if_there (backend_repository_exists kube parse write_creds repo_url project false s)
        (backend_delete_repository kube parse write_creds repo_url project) s

  -- The test is on repositories of no project, not on credentials.
  unfoldable pub create_repository_credentials : RepoCreds → S → Result RepoCreds × S
  unfolding backend_repository_exists create_repo_creds
  create_repository_credentials r s =
      if_free (backend_repository_exists kube parse false r.url [] false s)
        (create_repo_creds kube parse r) s

  unfoldable pub create_write_repository_credentials : RepoCreds → S → Result RepoCreds × S
  unfolding repo_creds_exists create_repo_creds
  create_write_repository_credentials r s =
      if_free (repo_creds_exists kube parse r.url s) (create_repo_creds kube parse r) s

  -- UpdateRepositoryCredentials and UpdateWriteRepositoryCredentials.
  unfoldable pub update_repository_credentials : RepoCreds → S → Result RepoCreds × S
  unfolding repo_creds_exists update_repo_creds
  update_repository_credentials r s =
      if_there (repo_creds_exists kube parse r.url s) (update_repo_creds kube parse r) s

  -- DeleteRepositoryCredentials and DeleteWriteRepositoryCredentials.
  unfoldable pub delete_repository_credentials : Text → S → Result (Unit {0}) × S
  unfolding repo_creds_exists delete_repo_creds
  delete_repository_credentials name s =
      if_there (repo_creds_exists kube parse name s) (delete_repo_creds kube parse name) s
