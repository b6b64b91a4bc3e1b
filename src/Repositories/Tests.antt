-- ===== src/Repositories/Tests.antt =====
-- A repository with a service account key, and a template with a password.
use argocd_monorepo_controll.Base.{◌≡◌, refl, Text, text_eq, codes, true, false, some}
use argocd_monorepo_controll.Db.Convert.{new_repo_creds}
use argocd_monorepo_controll.Repositories.{
  Repository, RepoCreds, new_repository, has_credentials, copy_credentials_from, sanitized,
}
use argocd_monorepo_controll.Repositories.Credentials.{
  get_git_creds, google_cloud_creds, LogsIn, Lacks, get_git_creds-inherited,
}

abbrev repo : Repository
repo = record (new_repository (codes "https://source.developers.google.com/a")) {
  gcp_service_account_key = codes "key";
}

abbrev template : RepoCreds
template = record new_repo_creds {
  url = codes "https://source.developers.google.com";
  username = codes "u";
  password = codes "p";
}

abbrev ca_path : Text → Text
ca_path url = codes "/certs"

sanitized_test :
    (sanitized (record repo { password = codes "p"; insecure_oci_force_http = true })).insecure
    ≡ true
unfolding sanitized
sanitized_test = refl

repo-Lacks : Lacks repo
unfolding text_eq
repo-Lacks = record {
  no_username = refl;
  no_password = refl;
  no_bearer_token = refl;
  no_ssh_private_key = refl;
  no_tls_client_cert_data = refl;
  no_github_app_private_key = refl;
  no_azure = refl;
}

get_git_creds-inherited_example :
    (get_git_creds ca_path (some repo) ≡ google_cloud_creds (codes "key"))
    × (has_credentials repo ≡ false)
    × LogsIn
        (codes "u")
        (codes "p")
        (get_git_creds ca_path (some (copy_credentials_from template repo)))
unfolding text_eq
get_git_creds-inherited_example = get_git_creds-inherited ca_path template repo repo-Lacks refl refl
