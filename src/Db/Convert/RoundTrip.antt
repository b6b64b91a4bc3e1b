-- ===== src/Db/Convert/RoundTrip.antt =====
-- A repository written to a secret and read again.
use argocd_monorepo_controll.Base.{◌≡◌, refl, text_eq, codes, Map, Text, true, List}
use argocd_monorepo_controll.Strconv.{◌≤ℤ◌, min_int64, max_int64}
use argocd_monorepo_controll.Repositories.{Repository, new_repository}
use argocd_monorepo_controll.Db.Secrets.{Secret, Write, update_all, add_secret_metadata}
use argocd_monorepo_controll.Db.Convert.{
  repository_writes, secret_to_repository, repository_to_secret,
}
use argocd_monorepo_controll.Db.Convert.Writes.{
  string_of-update_all, bool_or_false-update_all, int_or_zero-update_all, distinct,
}

-- The numbers of the GitHub App are int64.
pub record IsInt64 (r : Repository) : Type 0 where
  pub id_min : min_int64 ≤ℤ r.github_app_id
  pub id_max : r.github_app_id ≤ℤ max_int64
  pub installation_min : min_int64 ≤ℤ r.github_app_installation_id
  pub installation_max : r.github_app_installation_id ≤ℤ max_int64

-- What a secret does not hold is left out of the repository.
abbrev pub stored : Repository → Repository
stored r = record r {
  connection_state = (new_repository r.repo).connection_state;
  inherited_creds = (new_repository r.repo).inherited_creds;
}

module _ (r : Repository) (i : IsInt64 r) (m : Map Text) where
  abbrev ws : List Write
  ws = repository_writes r

  abbrev out : Map Text
  out = update_all ws m

  ws-distinct : distinct ws ≡ true
  unfolding text_eq
  ws-distinct = refl

  read_back : secret_to_repository out ≡ (stored r, true)
  unfolding secret_to_repository text_eq
  read_back = rw (
    string_of-update_all ws ws-distinct m (codes "name") r.name refl,
    string_of-update_all ws ws-distinct m (codes "url") r.repo refl,
    string_of-update_all ws ws-distinct m (codes "username") r.username refl,
    string_of-update_all ws ws-distinct m (codes "password") r.password refl,
    string_of-update_all ws ws-distinct m (codes "bearerToken") r.bearer_token refl,
    string_of-update_all ws ws-distinct m (codes "sshPrivateKey") r.ssh_private_key refl,
    string_of-update_all ws ws-distinct m (codes "tlsClientCertData") r.tls_client_cert_data refl,
    string_of-update_all ws ws-distinct m (codes "tlsClientCertKey") r.tls_client_cert_key refl,
    string_of-update_all ws ws-distinct m (codes "type") r.type refl,
    string_of-update_all ws ws-distinct m (codes "githubAppPrivateKey") r.github_app_private_key
        refl,
    string_of-update_all ws ws-distinct m (codes "githubAppEnterpriseBaseUrl")
        r.github_app_enterprise_base_url refl,
    string_of-update_all ws ws-distinct m (codes "proxy") r.proxy refl,
    string_of-update_all ws ws-distinct m (codes "noProxy") r.no_proxy refl,
    string_of-update_all ws ws-distinct m (codes "project") r.project refl,
    string_of-update_all ws ws-distinct m (codes "gcpServiceAccountKey") r.gcp_service_account_key
        refl,
    bool_or_false-update_all ws ws-distinct m (codes "insecureIgnoreHostKey")
        r.insecure_ignore_host_key refl,
    bool_or_false-update_all ws ws-distinct m (codes "insecure") r.insecure refl,
    bool_or_false-update_all ws ws-distinct m (codes "enableLfs") r.enable_lfs refl,
    bool_or_false-update_all ws ws-distinct m (codes "enableOCI") r.enable_oci refl,
    bool_or_false-update_all ws ws-distinct m (codes "insecureOCIForceHttp")
        r.insecure_oci_force_http refl,
    int_or_zero-update_all ws ws-distinct m (codes "githubAppID") r.github_app_id i.id_min i.id_max
        refl,
    int_or_zero-update_all ws ws-distinct m (codes "githubAppInstallationID")
        r.github_app_installation_id i.installation_min i.installation_max refl,
    bool_or_false-update_all ws ws-distinct m (codes "forceHttpBasicAuth") r.force_http_basic_auth
        refl,
    bool_or_false-update_all ws ws-distinct m (codes "useAzureWorkloadIdentity")
        r.use_azure_workload_identity refl,
  )

-- A repository is read back from any secret that it was written to, with the connection state and
-- the mark of inherited credentials left out, if its numbers are int64.
pub secret_to_repository-repository_to_secret :
    (secret_type : Text) (r : Repository) (secret : Secret)
    → IsInt64 r
    → secret_to_repository (repository_to_secret secret_type r secret).data_of ≡ (stored r, true)
unfolding repository_to_secret add_secret_metadata
secret_to_repository-repository_to_secret secret_type r secret i = read_back r i secret.data_of
