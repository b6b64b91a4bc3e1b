-- ===== src/Repositories.antt =====
-- pkg/apis/application/v1alpha1/repository_types.go: repositories and credential templates.
-- The time of a connection state is left out.
mod Tests
pub mod Credentials
use argocd_monorepo_controll.Base.{
  Text, codes, text_eq, Bool, true, false, not, ◌||◌, List, [], ◌∷◌, if◌then◌else◌,
}
use argocd_monorepo_controll.Strconv.{ℤ, pos, is_zero}

abbrev pub is_empty : Text → Bool
is_empty s = text_eq s []

pub record ConnectionState : Type 0 where
  pub status : Text
  pub message : Text

pub record RepoCreds : Type 0 where
  pub url : Text
  pub username : Text
  pub password : Text
  pub ssh_private_key : Text
  pub tls_client_cert_data : Text
  pub tls_client_cert_key : Text
  pub github_app_private_key : Text
  pub github_app_id : ℤ
  pub github_app_installation_id : ℤ
  pub github_app_enterprise_base_url : Text
  pub enable_oci : Bool
  pub type : Text
  pub gcp_service_account_key : Text
  pub proxy : Text
  pub force_http_basic_auth : Bool
  pub no_proxy : Text
  pub use_azure_workload_identity : Bool
  pub bearer_token : Text
  pub insecure_oci_force_http : Bool

pub record Repository : Type 0 where
  pub repo : Text
  pub username : Text
  pub password : Text
  pub ssh_private_key : Text
  pub connection_state : ConnectionState
  pub insecure_ignore_host_key : Bool
  pub insecure : Bool
  pub enable_lfs : Bool
  pub tls_client_cert_data : Text
  pub tls_client_cert_key : Text
  pub type : Text
  pub name : Text
  pub inherited_creds : Bool
  pub enable_oci : Bool
  pub github_app_private_key : Text
  pub github_app_id : ℤ
  pub github_app_installation_id : ℤ
  pub github_app_enterprise_base_url : Text
  pub proxy : Text
  pub project : Text
  pub gcp_service_account_key : Text
  pub force_http_basic_auth : Bool
  pub no_proxy : Text
  pub use_azure_workload_identity : Bool
  pub bearer_token : Text
  pub insecure_oci_force_http : Bool

-- `&Repository{Repo: repo}`.
abbrev pub new_repository : Text → Repository
new_repository url = record {
  repo = url;
  username = [];
  password = [];
  ssh_private_key = [];
  connection_state = record { status = []; message = [] };
  insecure_ignore_host_key = false;
  insecure = false;
  enable_lfs = false;
  tls_client_cert_data = [];
  tls_client_cert_key = [];
  type = [];
  name = [];
  inherited_creds = false;
  enable_oci = false;
  github_app_private_key = [];
  github_app_id = pos 0;
  github_app_installation_id = pos 0;
  github_app_enterprise_base_url = [];
  proxy = [];
  project = [];
  gcp_service_account_key = [];
  force_http_basic_auth = false;
  no_proxy = [];
  use_azure_workload_identity = false;
  bearer_token = [];
  insecure_oci_force_http = false;
}

-- The methods of a repository are those of a pointer that is not nil.
unfoldable pub is_insecure : Repository → Bool
is_insecure repo = repo.insecure_ignore_host_key || (repo.insecure || repo.insecure_oci_force_http)

unfoldable pub is_lfs_enabled : Repository → Bool
is_lfs_enabled repo = repo.enable_lfs

unfoldable pub has_credentials : Repository → Bool
unfolding text_eq
has_credentials repo =
    not (is_empty repo.username)
    || (not (is_empty repo.password)
        || (not (is_empty repo.bearer_token)
            || (not (is_empty repo.ssh_private_key)
                || (not (is_empty repo.tls_client_cert_data)
                    || (not (is_empty repo.github_app_private_key)
                        || repo.use_azure_workload_identity)))))

-- `if repo.F == "" { repo.F = source.F }`.
abbrev pub or_text : Text → Text → Text
or_text own other = if is_empty own then other else own

abbrev pub or_int : ℤ → ℤ → ℤ
or_int own other = if is_zero own then other else own

unfoldable pub copy_credentials_from_repo : Repository → Repository → Repository
unfolding text_eq
copy_credentials_from_repo source repo = record repo {
  username = or_text repo.username source.username;
  password = or_text repo.password source.password;
  bearer_token = or_text repo.bearer_token source.bearer_token;
  ssh_private_key = or_text repo.ssh_private_key source.ssh_private_key;
  tls_client_cert_data = or_text repo.tls_client_cert_data source.tls_client_cert_data;
  tls_client_cert_key = or_text repo.tls_client_cert_key source.tls_client_cert_key;
  github_app_private_key = or_text repo.github_app_private_key source.github_app_private_key;
  github_app_id = or_int repo.github_app_id source.github_app_id;
  github_app_installation_id =
      or_int repo.github_app_installation_id source.github_app_installation_id;
  github_app_enterprise_base_url =
      or_text repo.github_app_enterprise_base_url source.github_app_enterprise_base_url;
  gcp_service_account_key = or_text repo.gcp_service_account_key source.gcp_service_account_key;
  insecure_oci_force_http = source.insecure_oci_force_http;
  force_http_basic_auth = source.force_http_basic_auth;
  use_azure_workload_identity = source.use_azure_workload_identity;
}

unfoldable pub copy_credentials_from : RepoCreds → Repository → Repository
unfolding text_eq
copy_credentials_from source repo = record repo {
  username = or_text repo.username source.username;
  password = or_text repo.password source.password;
  bearer_token = or_text repo.bearer_token source.bearer_token;
  ssh_private_key = or_text repo.ssh_private_key source.ssh_private_key;
  tls_client_cert_data = or_text repo.tls_client_cert_data source.tls_client_cert_data;
  tls_client_cert_key = or_text repo.tls_client_cert_key source.tls_client_cert_key;
  github_app_private_key = or_text repo.github_app_private_key source.github_app_private_key;
  github_app_id = or_int repo.github_app_id source.github_app_id;
  github_app_installation_id =
      or_int repo.github_app_installation_id source.github_app_installation_id;
  github_app_enterprise_base_url =
      or_text repo.github_app_enterprise_base_url source.github_app_enterprise_base_url;
  gcp_service_account_key = or_text repo.gcp_service_account_key source.gcp_service_account_key;
  proxy = or_text repo.proxy source.proxy;
  no_proxy = or_text repo.no_proxy source.no_proxy;
  type = or_text repo.type source.type;
  enable_oci = source.enable_oci;
  insecure_oci_force_http = source.insecure_oci_force_http;
  force_http_basic_auth = source.force_http_basic_auth;
  use_azure_workload_identity = source.use_azure_workload_identity;
}

unfoldable pub copy_settings_from : Repository → Repository → Repository
copy_settings_from source repo = record repo {
  enable_lfs = source.enable_lfs;
  insecure_ignore_host_key = source.insecure_ignore_host_key;
  insecure = source.insecure;
  inherited_creds = source.inherited_creds;
}

unfoldable pub sanitized : Repository → Repository
unfolding is_insecure
sanitized repo = record (new_repository repo.repo) {
  type = repo.type;
  name = repo.name;
  username = repo.username;
  insecure = is_insecure repo;
  enable_lfs = repo.enable_lfs;
  enable_oci = repo.enable_oci;
  proxy = repo.proxy;
  no_proxy = repo.no_proxy;
  project = repo.project;
  force_http_basic_auth = repo.force_http_basic_auth;
  inherited_creds = repo.inherited_creds;
  github_app_id = repo.github_app_id;
  github_app_installation_id = repo.github_app_installation_id;
  github_app_enterprise_base_url = repo.github_app_enterprise_base_url;
  use_azure_workload_identity = repo.use_azure_workload_identity;
}

unfoldable pub normalize : Repository → Repository
unfolding text_eq
normalize repo = record repo { type = or_text repo.type (codes "git") }

unfoldable pub filter : (Repository → Bool) → List Repository → List Repository
filter predicate [] = []
filter predicate (repo ∷ r) =
    let rest = filter predicate r in if predicate repo then repo ∷ rest else rest
