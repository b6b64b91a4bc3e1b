-- ===== src/Db/Convert/CredsRoundTrip.antt =====
-- A credential template written to a secret and read again.
use argocd_monorepo_controll.Base.{◌≡◌, refl, text_eq, codes, Map, Text, true, List}
use argocd_monorepo_controll.Strconv.{◌≤ℤ◌, min_int64, max_int64}
use argocd_monorepo_controll.Repositories.{RepoCreds}
use argocd_monorepo_controll.Db.Secrets.{Secret, Write, update_all, add_secret_metadata}
use argocd_monorepo_controll.Db.Convert.{
  repo_creds_writes, secret_to_repo_cred, repo_creds_to_secret,
}
use argocd_monorepo_controll.Db.Convert.Writes.{
  string_of-update_all, bool_or_false-update_all, int_or_zero-update_all, distinct,
}

-- The numbers of the GitHub App are int64.
pub record HasInt64 (r : RepoCreds) : Type 0 where
  pub id_min : min_int64 ≤ℤ r.github_app_id
  pub id_max : r.github_app_id ≤ℤ max_int64
  pub installation_min : min_int64 ≤ℤ r.github_app_installation_id
  pub installation_max : r.github_app_installation_id ≤ℤ max_int64

module _ (r : RepoCreds) (i : HasInt64 r) (m : Map Text) where
  abbrev ws : List Write
  ws = repo_creds_writes r

  abbrev out : Map Text
  out = update_all ws m

  ws-distinct : distinct ws ≡ true
  unfolding text_eq
  ws-distinct = refl

  read_back : secret_to_repo_cred out ≡ (r, true)
  unfolding secret_to_repo_cred text_eq
  read_back = rw (
    string_of-update_all ws ws-distinct m (codes "url") r.url refl,
    string_of-update_all ws ws-distinct m (codes "username") r.username refl,
    string_of-update_all ws ws-distinct m (codes "password") r.password refl,
    string_of-update_all ws ws-distinct m (codes "bearerToken") r.bearer_token refl,
    string_of-update_all ws ws-distinct m (codes "sshPrivateKey") r.ssh_private_key refl,
    string_of-update_all ws ws-distinct m (codes "tlsClientCertData") r.tls_client_cert_data refl,
    string_of-update_all ws ws-distinct m (codes "tlsClientCertKey") r.tls_client_cert_key refl,
    string_of-update_all ws ws-distinct m (codes "type") r.type refl,
    string_of-update_all ws ws-distinct m (codes "githubAppPrivateKey") r.github_app_private_key
        refl,
    string_of-update_all ws ws-distinct m (codes "githubAppEnterpriseBaseUrl")
        r.github_app_enterprise_base_url refl,
    string_of-update_all ws ws-distinct m (codes "gcpServiceAccountKey") r.gcp_service_account_key
        refl,
    string_of-update_all ws ws-distinct m (codes "proxy") r.proxy refl,
    string_of-update_all ws ws-distinct m (codes "noProxy") r.no_proxy refl,
    bool_or_false-update_all ws ws-distinct m (codes "enableOCI") r.enable_oci refl,
    bool_or_false-update_all ws ws-distinct m (codes "insecureOCIForceHttp")
        r.insecure_oci_force_http refl,
    int_or_zero-update_all ws ws-distinct m (codes "githubAppID") r.github_app_id i.id_min i.id_max
        refl,
    int_or_zero-update_all ws ws-distinct m (codes "githubAppInstallationID")
        r.github_app_installation_id i.installation_min i.installation_max refl,
    bool_or_false-update_all ws ws-distinct m (codes "forceHttpBasicAuth") r.force_http_basic_auth
        refl,
    bool_or_false-update_all ws ws-distinct m (codes "useAzureWorkloadIdentity")
        r.use_azure_workload_identity refl,
  )

-- A credential template is read back from any secret that it was written to, if its numbers are
-- int64.
pub secret_to_repo_cred-repo_creds_to_secret :
    (r : RepoCreds) (secret : Secret)
    → HasInt64 r
    → secret_to_repo_cred (repo_creds_to_secret r secret).data_of ≡ (r, true)
unfolding repo_creds_to_secret add_secret_metadata
secret_to_repo_cred-repo_creds_to_secret r secret i = read_back r i secret.data_of
