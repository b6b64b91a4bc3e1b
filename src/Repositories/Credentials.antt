-- ===== src/Repositories/Credentials.antt =====
-- GetGitCreds of pkg/apis/application/v1alpha1/repository_types.go, and what a repository without
-- credentials of its own takes from a template.
--
-- The store of credentials and the provider of tokens are left out of what the constructors get.
use argocd_monorepo_controll.Base.{
  ◌≡◌, Text, text_eq, Bool, true, false, not, ◌&&◌, ◌||◌, Option, none, some, if◌then◌else◌,
}
use argocd_monorepo_controll.Strconv.{ℤ, is_zero}
use argocd_monorepo_controll.Repositories.{
  Repository, RepoCreds, or_text, is_empty, is_insecure, has_credentials, copy_credentials_from,
}

pub data GitCreds : Type 0 where
  nop_creds : GitCreds
  https_creds :
      (username password bearer_token client_cert_data client_cert_key : Text)
      (insecure force_basic_auth : Bool)
      → GitCreds
  ssh_creds : (ssh_private_key ca_path : Text) (insecure : Bool) (proxy : Text) → GitCreds
  github_app_creds :
      (app_id app_install_id : ℤ) (private_key base_url client_cert_data client_cert_key : Text)
      (insecure : Bool) (proxy no_proxy : Text)
      → GitCreds
  google_cloud_creds : (json_data : Text) → GitCreds
  azure_workload_identity_creds : GitCreds

-- The path of the certificates of a repository's server is a parameter.
module _ (get_ca_path : Text → Text) where
  unfoldable pub git_creds_of : Repository → GitCreds
  unfolding text_eq is_insecure
  git_creds_of repo =
      if not (is_empty repo.password) || not (is_empty repo.bearer_token)
      then https_creds repo.username repo.password repo.bearer_token repo.tls_client_cert_data
          repo.tls_client_cert_key (is_insecure repo) repo.force_http_basic_auth
      else if not (is_empty repo.ssh_private_key)
      then ssh_creds repo.ssh_private_key (get_ca_path repo.repo) (is_insecure repo) repo.proxy
      else if not (is_empty repo.github_app_private_key)
          && (not (is_zero repo.github_app_id) && not (is_zero repo.github_app_installation_id))
      then github_app_creds repo.github_app_id repo.github_app_installation_id
          repo.github_app_private_key repo.github_app_enterprise_base_url repo.tls_client_cert_data
          repo.tls_client_cert_key (is_insecure repo) repo.proxy repo.no_proxy
      else if not (is_empty repo.gcp_service_account_key)
      then google_cloud_creds repo.gcp_service_account_key
      else if repo.use_azure_workload_identity
      then azure_workload_identity_creds
      else nop_creds

  -- The method of a nil pointer returns no credentials.
  unfoldable pub get_git_creds : Option Repository → GitCreds
  unfolding git_creds_of
  get_git_creds none = nop_creds
  get_git_creds (some repo) = git_creds_of repo

-- A repository without credentials, but for a service account key of Google Cloud.
pub record Lacks (repo : Repository) : Type 0 where
  pub no_username : is_empty repo.username ≡ true
  pub no_password : is_empty repo.password ≡ true
  pub no_bearer_token : is_empty repo.bearer_token ≡ true
  pub no_ssh_private_key : is_empty repo.ssh_private_key ≡ true
  pub no_tls_client_cert_data : is_empty repo.tls_client_cert_data ≡ true
  pub no_github_app_private_key : is_empty repo.github_app_private_key ≡ true
  pub no_azure : repo.use_azure_workload_identity ≡ false

has_credentials_of_Lacks : (repo : Repository) → Lacks repo → has_credentials repo ≡ false
unfolding has_credentials text_eq
has_credentials_of_Lacks repo l = rw (
  l.no_username, l.no_password, l.no_bearer_token, l.no_ssh_private_key, l.no_tls_client_cert_data,
  l.no_github_app_private_key, l.no_azure,
)

-- HTTPS credentials with this user and password.
pub record LogsIn (username password : Text) (creds : GitCreds) : Type 0 where
  pub bearer_token : Text
  pub client_cert_data : Text
  pub client_cert_key : Text
  pub insecure : Bool
  pub force_basic_auth : Bool
  pub eq :
      creds
      ≡ https_creds username password bearer_token client_cert_data client_cert_key insecure
          force_basic_auth

-- A repository whose fields for credentials are empty but for a service account key of Google Cloud
-- authenticates by itself with this key. HasCredentials is false of it all the same, and with a
-- template that has a password copied into it, it authenticates by the template's user and password.
pub get_git_creds-inherited :
    (get_ca_path : Text → Text) (source : RepoCreds) (repo : Repository)
    → Lacks repo
    → is_empty repo.gcp_service_account_key ≡ false
    → is_empty source.password ≡ false
    → (get_git_creds get_ca_path (some repo) ≡ google_cloud_creds repo.gcp_service_account_key)
      × (has_credentials repo ≡ false)
      × LogsIn source.username source.password
          (get_git_creds get_ca_path (some (copy_credentials_from source repo)))
unfolding get_git_creds copy_credentials_from
get_git_creds-inherited get_ca_path source repo l f g = (
  rw (l.no_password, l.no_bearer_token, l.no_ssh_private_key, l.no_github_app_private_key, f),
  has_credentials_of_Lacks repo l,
  record {
    bearer_token = or_text repo.bearer_token source.bearer_token;
    client_cert_data = or_text repo.tls_client_cert_data source.tls_client_cert_data;
    client_cert_key = or_text repo.tls_client_cert_key source.tls_client_cert_key;
    insecure = is_insecure (copy_credentials_from source repo);
    force_basic_auth = source.force_http_basic_auth;
    eq = rw (l.no_username, l.no_password, g);
  },
)
