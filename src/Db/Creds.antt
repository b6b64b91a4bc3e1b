-- ===== src/Db/Creds.antt =====
-- util/db/repository_secrets.go: the operations on credential templates.
use argocd_monorepo_controll.Base.{
  Text, codes, text_eq, Bool, List, [], ◌∷◌, Option, none, some, map, if◌then◌else◌,
}
use argocd_monorepo_controll.Git.Urls.{to_lower}
use argocd_monorepo_controll.Repositories.{RepoCreds}
use argocd_monorepo_controll.Db.Secrets.{
  not_found, already_exists, other, Result, ok, err, ◌>>=◌, Secret, string_of, Kube, Written,
  written, exists_already, failed, delete_secret, delete_found, resynced,
}
use argocd_monorepo_controll.Db.Convert.{secret_to_repo_cred, repo_creds_to_secret, repo_creds_type}
use argocd_monorepo_controll.Db.Backend.{
  url_of, repo_url_to_secret_name, new_secret, converted, or_other, exists_if,
  get_repo_creds_secret,
}

module _ {S : Type 0} (kube : Kube S) (parse : Text → Option Text) where
  abbrev after_create : RepoCreds → Written × S → Result RepoCreds × S
  after_create repo_creds (written, t) = resynced kube repo_creds t
  after_create repo_creds (exists_already, t) = (err already_exists, t)
  after_create repo_creds (failed, t) = (err other, t)

  unfoldable pub create_repo_creds : RepoCreds → S → Result RepoCreds × S
  unfolding repo_creds_to_secret repo_url_to_secret_name resynced
  create_repo_creds repo_creds s = after_create repo_creds (
      kube.create
        (repo_creds_to_secret repo_creds
          (new_secret (repo_url_to_secret_name (codes "creds") repo_creds.url [])))
        s)

  abbrev to_repo_creds : Secret → Result RepoCreds
  to_repo_creds secret = converted (secret_to_repo_cred secret.data_of)

  -- GetRepoCreds: `none` is the nil pointer.
  abbrev creds_if : Result Secret → Result (Option RepoCreds)
  creds_if (ok secret) = do creds ← to_repo_creds secret; ok (some creds)
  creds_if (err not_found) = ok none
  creds_if (err e) = err e

  unfoldable pub get_repo_creds : Text → S → Result (Option RepoCreds)
  unfolding get_repo_creds_secret secret_to_repo_cred
  get_repo_creds repo_url s = creds_if (get_repo_creds_secret kube parse repo_url s)

  abbrev named : Option (Option Secret) → Result RepoCreds
  named (some (some secret)) = to_repo_creds secret
  named _ = err other

  unfoldable pub get_repo_creds_by_secret_name : Text → S → Result RepoCreds
  unfolding secret_to_repo_cred
  get_repo_creds_by_secret_name name s = named (kube.get_secret name s)

  unfoldable pub list_repo_creds : S → Result (List Text)
  unfolding string_of
  list_repo_creds s = do
    secrets ← or_other (kube.list_secrets_by_type repo_creds_type s)
    ok (map url_of secrets)

  -- What the server returns is converted before the informers are resynced.
  abbrev after_conversion : Result RepoCreds → S → Result RepoCreds × S
  after_conversion (ok creds) t = resynced kube creds t
  after_conversion (err e) t = (err e, t)

  abbrev after_update : Option Secret × S → Result RepoCreds × S
  after_update (none, t) = (err other, t)
  after_update (some secret, t) = after_conversion (to_repo_creds secret) t

  abbrev update_found : RepoCreds → Result Secret → S → Result RepoCreds × S
  update_found repo_creds (ok secret) s =
      after_update (kube.update_secret (repo_creds_to_secret repo_creds secret) s)
  update_found repo_creds (err not_found) s = create_repo_creds repo_creds s
  update_found repo_creds (err e) s = (err e, s)

  unfoldable pub update_repo_creds : RepoCreds → S → Result RepoCreds × S
  unfolding get_repo_creds_secret repo_creds_to_secret create_repo_creds secret_to_repo_cred
      resynced
  update_repo_creds repo_creds s =
      update_found repo_creds (get_repo_creds_secret kube parse repo_creds.url s) s

  unfoldable pub delete_repo_creds : Text → S → Result (Unit {0}) × S
  unfolding get_repo_creds_secret delete_secret resynced
  delete_repo_creds name s = delete_found kube (get_repo_creds_secret kube parse name s) s

  unfoldable pub repo_creds_exists : Text → S → Result Bool
  unfolding get_repo_creds_secret
  repo_creds_exists repo_url s = exists_if (get_repo_creds_secret kube parse repo_url s)

  -- `strings.EqualFold` with a lower case word.
  abbrev has_type : Text → Secret → Bool
  has_type word secret = text_eq (to_lower (string_of secret.data_of (codes "type"))) word

  unfoldable pub creds_of_type : Text → List Secret → Result (List RepoCreds)
  unfolding string_of text_eq secret_to_repo_cred
  creds_of_type word [] = ok []
  creds_of_type word (secret ∷ secrets) =
      let rest = creds_of_type word secrets in
      if has_type word secret
      then (do creds ← to_repo_creds secret; more ← rest; ok (creds ∷ more))
      else rest

  -- GetAllHelmRepoCreds and GetAllOCIRepoCreds, for their types.
  unfoldable pub get_all_repo_creds : Text → S → Result (List RepoCreds)
  unfolding creds_of_type
  get_all_repo_creds word s = do
    secrets ← or_other (kube.list_secrets_by_type repo_creds_type s)
    creds_of_type word secrets
