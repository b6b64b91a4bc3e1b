-- ===== src/Db/Convert.antt =====
-- The conversions of util/db/repository_secrets.go between secrets and repositories.
pub mod Writes
pub mod RoundTrip
pub mod CredsRoundTrip
use argocd_monorepo_controll.Base.{
  Text, codes, text_eq, Map, Bool, true, false, List, [], ◌∷◌, Option, none, some,
}
use argocd_monorepo_controll.Strconv.{pos}
use argocd_monorepo_controll.Repositories.{Repository, RepoCreds, new_repository}
use argocd_monorepo_controll.Db.Secrets.{
  Secret, string_of, bool_or_false, int_or_zero, Write, update_secret_bool, update_secret_int,
  update_secret_string, update_all, add_secret_metadata,
}

-- `&RepoCreds{}`.
abbrev pub new_repo_creds : RepoCreds
new_repo_creds = record {
  url = [];
  username = [];
  password = [];
  ssh_private_key = [];
  tls_client_cert_data = [];
  tls_client_cert_key = [];
  github_app_private_key = [];
  github_app_id = pos 0;
  github_app_installation_id = pos 0;
  github_app_enterprise_base_url = [];
  enable_oci = false;
  type = [];
  gcp_service_account_key = [];
  proxy = [];
  force_http_basic_auth = false;
  no_proxy = [];
  use_azure_workload_identity = false;
  bearer_token = [];
  insecure_oci_force_http = false;
}

-- A field that is set and then the fields behind it; `false` is an error, with what was read.
abbrev pub read {ℓ} :
    {A : Type ℓ} {R : Type 0} → Option A → (A → R → R) → (R → R × Bool) → R → R × Bool
read none set behind r = (r, false)
read (some v) set behind r = behind (set v r)

-- The fields of text.
unfoldable pub secret_to_repository_texts : Map Text → Repository
unfolding string_of
secret_to_repository_texts m = record (new_repository []) {
  name = string_of m (codes "name");
  repo = string_of m (codes "url");
  username = string_of m (codes "username");
  password = string_of m (codes "password");
  bearer_token = string_of m (codes "bearerToken");
  ssh_private_key = string_of m (codes "sshPrivateKey");
  tls_client_cert_data = string_of m (codes "tlsClientCertData");
  tls_client_cert_key = string_of m (codes "tlsClientCertKey");
  type = string_of m (codes "type");
  github_app_private_key = string_of m (codes "githubAppPrivateKey");
  github_app_enterprise_base_url = string_of m (codes "githubAppEnterpriseBaseUrl");
  proxy = string_of m (codes "proxy");
  no_proxy = string_of m (codes "noProxy");
  project = string_of m (codes "project");
  gcp_service_account_key = string_of m (codes "gcpServiceAccountKey");
}

-- The fields in the order in which they are read; an error leaves those behind it unread.
unfoldable pub secret_to_repository : Map Text → Repository × Bool
unfolding secret_to_repository_texts bool_or_false int_or_zero
secret_to_repository m =
    read (bool_or_false m (codes "insecureIgnoreHostKey"))
      (λ v r. record r { insecure_ignore_host_key = v })
      (read (bool_or_false m (codes "insecure")) (λ v r. record r { insecure = v })
        (read (bool_or_false m (codes "enableLfs")) (λ v r. record r { enable_lfs = v })
          (read (bool_or_false m (codes "enableOCI")) (λ v r. record r { enable_oci = v })
            (read (bool_or_false m (codes "insecureOCIForceHttp"))
              (λ v r. record r { insecure_oci_force_http = v })
              (read (int_or_zero m (codes "githubAppID")) (λ v r. record r { github_app_id = v })
                (read (int_or_zero m (codes "githubAppInstallationID"))
                  (λ v r. record r { github_app_installation_id = v })
                  (read (bool_or_false m (codes "forceHttpBasicAuth"))
                    (λ v r. record r { force_http_basic_auth = v })
                    (read (bool_or_false m (codes "useAzureWorkloadIdentity"))
                      (λ v r. record r { use_azure_workload_identity = v }) (λ r. (r, true))))))))))
      (secret_to_repository_texts m)

abbrev pub repository_writes : Repository → List Write
repository_writes r =
    update_secret_string (codes "name") r.name
    ∷ update_secret_string (codes "project") r.project
    ∷ update_secret_string (codes "url") r.repo
    ∷ update_secret_string (codes "username") r.username
    ∷ update_secret_string (codes "password") r.password
    ∷ update_secret_string (codes "bearerToken") r.bearer_token
    ∷ update_secret_string (codes "sshPrivateKey") r.ssh_private_key
    ∷ update_secret_bool (codes "enableOCI") r.enable_oci
    ∷ update_secret_bool (codes "insecureOCIForceHttp") r.insecure_oci_force_http
    ∷ update_secret_string (codes "tlsClientCertData") r.tls_client_cert_data
    ∷ update_secret_string (codes "tlsClientCertKey") r.tls_client_cert_key
    ∷ update_secret_string (codes "type") r.type
    ∷ update_secret_string (codes "githubAppPrivateKey") r.github_app_private_key
    ∷ update_secret_int (codes "githubAppID") r.github_app_id
    ∷ update_secret_int (codes "githubAppInstallationID") r.github_app_installation_id
    ∷ update_secret_string (codes "githubAppEnterpriseBaseUrl") r.github_app_enterprise_base_url
    ∷ update_secret_bool (codes "insecureIgnoreHostKey") r.insecure_ignore_host_key
    ∷ update_secret_bool (codes "insecure") r.insecure
    ∷ update_secret_bool (codes "enableLfs") r.enable_lfs
    ∷ update_secret_string (codes "proxy") r.proxy
    ∷ update_secret_string (codes "noProxy") r.no_proxy
    ∷ update_secret_string (codes "gcpServiceAccountKey") r.gcp_service_account_key
    ∷ update_secret_bool (codes "forceHttpBasicAuth") r.force_http_basic_auth
    ∷ update_secret_bool (codes "useAzureWorkloadIdentity") r.use_azure_workload_identity
    ∷ []

unfoldable pub repository_to_secret : Text → Repository → Secret → Secret
unfolding update_all add_secret_metadata
repository_to_secret secret_type repository secret =
    add_secret_metadata secret_type
      (record secret { data_of = update_all (repository_writes repository) secret.data_of })

abbrev pub repo_creds_type : Text
repo_creds_type = codes "repo-creds"

-- The fields of text.
unfoldable pub secret_to_repo_cred_texts : Map Text → RepoCreds
unfolding string_of
secret_to_repo_cred_texts m = record new_repo_creds {
  url = string_of m (codes "url");
  username = string_of m (codes "username");
  password = string_of m (codes "password");
  bearer_token = string_of m (codes "bearerToken");
  ssh_private_key = string_of m (codes "sshPrivateKey");
  tls_client_cert_data = string_of m (codes "tlsClientCertData");
  tls_client_cert_key = string_of m (codes "tlsClientCertKey");
  type = string_of m (codes "type");
  github_app_private_key = string_of m (codes "githubAppPrivateKey");
  github_app_enterprise_base_url = string_of m (codes "githubAppEnterpriseBaseUrl");
  gcp_service_account_key = string_of m (codes "gcpServiceAccountKey");
  proxy = string_of m (codes "proxy");
  no_proxy = string_of m (codes "noProxy");
}

-- The fields in the order in which they are read; an error leaves those behind it unread.
unfoldable pub secret_to_repo_cred : Map Text → RepoCreds × Bool
unfolding secret_to_repo_cred_texts bool_or_false int_or_zero
secret_to_repo_cred m =
    read (bool_or_false m (codes "enableOCI")) (λ v r. record r { enable_oci = v })
      (read (bool_or_false m (codes "insecureOCIForceHttp"))
        (λ v r. record r { insecure_oci_force_http = v })
        (read (int_or_zero m (codes "githubAppID")) (λ v r. record r { github_app_id = v })
          (read (int_or_zero m (codes "githubAppInstallationID"))
            (λ v r. record r { github_app_installation_id = v })
            (read (bool_or_false m (codes "forceHttpBasicAuth"))
              (λ v r. record r { force_http_basic_auth = v })
              (read (bool_or_false m (codes "useAzureWorkloadIdentity"))
                (λ v r. record r { use_azure_workload_identity = v }) (λ r. (r, true)))))))
      (secret_to_repo_cred_texts m)

abbrev pub repo_creds_writes : RepoCreds → List Write
repo_creds_writes r =
    update_secret_string (codes "url") r.url
    ∷ update_secret_string (codes "username") r.username
    ∷ update_secret_string (codes "password") r.password
    ∷ update_secret_string (codes "bearerToken") r.bearer_token
    ∷ update_secret_string (codes "sshPrivateKey") r.ssh_private_key
    ∷ update_secret_bool (codes "enableOCI") r.enable_oci
    ∷ update_secret_bool (codes "insecureOCIForceHttp") r.insecure_oci_force_http
    ∷ update_secret_string (codes "tlsClientCertData") r.tls_client_cert_data
    ∷ update_secret_string (codes "tlsClientCertKey") r.tls_client_cert_key
    ∷ update_secret_string (codes "type") r.type
    ∷ update_secret_string (codes "githubAppPrivateKey") r.github_app_private_key
    ∷ update_secret_int (codes "githubAppID") r.github_app_id
    ∷ update_secret_int (codes "githubAppInstallationID") r.github_app_installation_id
    ∷ update_secret_string (codes "githubAppEnterpriseBaseUrl") r.github_app_enterprise_base_url
    ∷ update_secret_string (codes "gcpServiceAccountKey") r.gcp_service_account_key
    ∷ update_secret_string (codes "proxy") r.proxy
    ∷ update_secret_string (codes "noProxy") r.no_proxy
    ∷ update_secret_bool (codes "forceHttpBasicAuth") r.force_http_basic_auth
    ∷ update_secret_bool (codes "useAzureWorkloadIdentity") r.use_azure_workload_identity
    ∷ []

unfoldable pub repo_creds_to_secret : RepoCreds → Secret → Secret
unfolding update_all add_secret_metadata
repo_creds_to_secret repo_creds secret =
    add_secret_metadata repo_creds_type
      (record secret { data_of = update_all (repo_creds_writes repo_creds) secret.data_of })
