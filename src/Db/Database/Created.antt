-- ===== src/Db/Database/Created.antt =====
-- GetRepository and CreateRepository together.
use argocd_monorepo_controll.Base.{
  ◌≡◌, refl, ap, ◌∙◌, inl, inr, Text, text_eq, text_eq_refl, codes, Bool, true, false, List, [],
  ◌∷◌, ◌++◌, Option, none, some, insert, lookup, Bool-cases, Option-cases,
}
use argocd_monorepo_controll.Git.Urls.{same_url, normalize_git_url, normalize_git_url_allow_invalid}
use argocd_monorepo_controll.Repositories.{Repository, is_empty, has_credentials}
use argocd_monorepo_controll.Db.Secrets.{
  ok, Secret, Kube, Written, written, exists_already, failed, resynced, label_key_secret_type,
  add_secret_metadata, as_result,
}
use argocd_monorepo_controll.Db.Convert.{repository_writes, repository_to_secret}
use argocd_monorepo_controll.Db.Convert.Writes.{distinct, string_of-update_all}
use argocd_monorepo_controll.Db.Convert.RoundTrip.{
  IsInt64, stored, secret_to_repository-repository_to_secret,
}
use argocd_monorepo_controll.Db.Backend.{
  url_of, project_of, get_secret_type, repo_url_to_secret_name, new_secret, create_repository,
  after_create, get_repository_secret, backend_get_repository, backend_repository_exists,
}
use argocd_monorepo_controll.Db.Backend.Chosen.{
  first, first-append, first-append_none, is_exact, get_repository_secret-chosen,
}
use argocd_monorepo_controll.Db.Database.{
  db_create_repository, get_repository_or_new, db_get_repository, enrich_creds_to_repo,
}

-- The documented behaviour of the API server and the informers: after a secret was created and the
-- informers were synced, the lister of its type has it among the secrets that it had before.
pub record Lists {S : Type 0} (kube : Kube S) : Type 0 where
  pub created :
      (secret : Secret) (secret_type : Text) (s : S) (secrets : List Secret)
      → lookup label_key_secret_type secret.labels ≡ some secret_type
      → kube.list_secrets_by_type secret_type s ≡ some secrets
      → (kube.create secret s).0 ≡ written
      → (kube.resync_informers (kube.create secret s).1).0 ≡ true
      → (before : List Secret) × (after : List Secret) × (secrets ≡ before ++ after)
        × (kube.list_secrets_by_type secret_type (kube.resync_informers (kube.create secret s).1).1
            ≡ some (before ++ secret ∷ after))

same_url_refl :
    (parse : Text → Option Text) (a : Text) → is_empty a ≡ false → same_url parse a a ≡ true
unfolding same_url normalize_git_url_allow_invalid
same_url_refl parse a e = elim (Bool-cases (is_empty (normalize_git_url parse a))) [
  | inl b ↦ rw (b, e) (text_eq_refl a)
  | inr b ↦ rw b (rw b (text_eq_refl (normalize_git_url parse a)))
]

module _ {S : Type 0} (kube : Kube S) (r : Repository) where
  as_result_ok : {A : Type 0} (a b : A) (fine : Bool) → as_result a fine ≡ ok b → fine ≡ true
  as_result_ok a b true e = refl
  as_result_ok a b false e = cc

  resynced_ok :
      (r2 : Repository) (t u : S)
      → resynced kube r t ≡ (ok r2, u)
      → ((kube.resync_informers t).0 ≡ true) × ((kube.resync_informers t).1 ≡ u)
  unfolding resynced
  resynced_ok r2 t u e =
      (as_result_ok r r2 (kube.resync_informers t).0 (ap (λ x. x.0) e), ap (λ x. x.1) e)

  after_create_ok :
      (parse : Text → Option Text) (secret_name : Text) (r2 : Repository) (u : S) (x : Written × S)
      → after_create kube parse false r secret_name x ≡ (ok r2, u)
      → (x.0 ≡ written)
        × ((kube.resync_informers x.1).0 ≡ true)
        × ((kube.resync_informers x.1).1 ≡ u)
  after_create_ok parse secret_name r2 u (written, t) e =
      let (a, b) = resynced_ok r2 t u e in (refl, a, b)
  after_create_ok parse secret_name r2 u (exists_already, t) e = cc
  after_create_ok parse secret_name r2 u (failed, t) e = cc

  -- The secret of the repository.
  abbrev pub secret_of : Secret
  secret_of =
      repository_to_secret (codes "repository") r
        (new_secret (repo_url_to_secret_name (codes "repo") r.repo r.project))

  writes-distinct : distinct (repository_writes r) ≡ true
  unfolding text_eq
  writes-distinct = refl

  secret_of-url : url_of secret_of ≡ r.repo
  unfolding repository_to_secret add_secret_metadata text_eq
  secret_of-url =
      string_of-update_all (repository_writes r) writes-distinct [] (codes "url") r.repo refl

  secret_of-project : project_of secret_of ≡ r.project
  unfolding repository_to_secret add_secret_metadata text_eq
  secret_of-project =
      string_of-update_all (repository_writes r) writes-distinct [] (codes "project") r.project refl

  secret_of-label : lookup label_key_secret_type secret_of.labels ≡ some (codes "repository")
  unfolding repository_to_secret add_secret_metadata lookup insert text_eq
  secret_of-label = refl

module _ {S : Type 0} (kube : Kube S) (parse : Text → Option Text) (r : Repository) where
  secret_of-exact :
      is_empty r.repo ≡ false → is_exact parse r.repo r.project (secret_of kube r) ≡ true
  secret_of-exact e = rw (
    secret_of-url kube r,
    secret_of-project kube r,
    same_url_refl parse r.repo e,
    text_eq_refl r.project,
  )

  -- What a successful creation was.
  pub record Creation (s u : S) : Type 0 where
    pub secrets : List Secret
    pub listed : kube.list_secrets_by_type (codes "repository") s ≡ some secrets
    pub none_exact : first (is_exact parse r.repo r.project) secrets ≡ none
    pub wrote : (kube.create (secret_of kube r) s).0 ≡ written
    pub synced : (kube.resync_informers (kube.create (secret_of kube r) s).1).0 ≡ true
    pub after : (kube.resync_informers (kube.create (secret_of kube r) s).1).1 ≡ u

  create_repository-Creation :
      (s u : S) (r2 : Repository)
      → db_create_repository kube parse false r s ≡ (ok r2, u)
      → Creation s u
  unfolding db_create_repository backend_repository_exists create_repository get_secret_type
  create_repository-Creation s u r2 e =
      let found = get_repository_secret-chosen kube parse false r.repo r.project false s in
      elim (Option-cases (kube.list_secrets_by_type (codes "repository") s)) [
        | inl l ↦ (let h = rw (found, l) at e in cc)
        | inr (secrets, l) ↦ elim (Option-cases (first (is_exact parse r.repo r.project) secrets)) [
          | inr (secret, f) ↦ (let h = rw (found, l, f) at e in cc)
          | inl f ↦
              let h = rw (found, l, f) at e in
              let (w, y, z) = after_create_ok kube r parse _ r2 u _ h in
              record {
                secrets = secrets;
                listed = l;
                none_exact = f;
                wrote = w;
                synced = y;
                after = z;
              }
        ]
      ]

  found_after :
      (l : Lists kube) (s u : S)
      → is_empty r.repo ≡ false
      → Creation s u
      → (b : Bool)
      → get_repository_secret kube parse false r.repo r.project b u ≡ ok (secret_of kube r)
  unfolding get_secret_type
  found_after l s u e c b =
      let (before, after, split, listed) =
        l.created (secret_of kube r) (codes "repository") s c.secrets (secret_of-label kube r)
          c.listed c.wrote c.synced in
      let exact = is_exact parse r.repo r.project in
      let no_other : (first exact before ≡ none) × (first exact after ≡ none) =
        first-append_none exact before after (rw (← split) c.none_exact) in
      let hit : first exact (before ++ secret_of kube r ∷ after) ≡ some (secret_of kube r) =
        first-append exact before (secret_of kube r) after no_other.0 (secret_of-exact e) in
      let listed_after : kube.list_secrets_by_type (codes "repository") u
          ≡ some (before ++ secret_of kube r ∷ after) =
        rw (← c.after) listed in
      get_repository_secret-chosen kube parse false r.repo r.project b u ∙ rw (listed_after, hit)

  enriched_own :
      (repository : Repository) (u : S)
      → has_credentials repository ≡ true
      → enrich_creds_to_repo kube parse repository u ≡ ok repository
  unfolding enrich_creds_to_repo
  enriched_own repository u e = rw e

  stored-has_credentials : has_credentials (stored r) ≡ has_credentials r
  unfolding has_credentials
  stored-has_credentials = refl

  read_after :
      (u : S)
      → IsInt64 r
      → ((b : Bool)
          → get_repository_secret kube parse false r.repo r.project b u ≡ ok (secret_of kube r))
      → get_repository_or_new kube parse r.repo r.project u ≡ ok (stored r)
  unfolding get_repository_or_new backend_repository_exists backend_get_repository
  read_after u i f = rw (
    f true,
    secret_to_repository-repository_to_secret (codes "repository") r
        (new_secret (repo_url_to_secret_name (codes "repo") r.repo r.project)) i,
  )

-- A repository that was created is what GetRepository then finds under its URL and project, with
-- the connection state and the mark of inherited credentials left out, if it has a URL and
-- credentials, its numbers are int64, and the informers list what was created.
pub db_get_repository-db_create_repository :
    {S : Type 0} (kube : Kube S) (parse : Text → Option Text) (r r2 : Repository) (s u : S)
    → Lists kube
    → IsInt64 r
    → is_empty r.repo ≡ false
    → has_credentials r ≡ true
    → db_create_repository kube parse false r s ≡ (ok r2, u)
    → db_get_repository kube parse r.repo r.project u ≡ ok (stored r)
unfolding db_get_repository
db_get_repository-db_create_repository kube parse r r2 s u l i e h c =
    let creation = create_repository-Creation kube parse r s u r2 c in
    rw (read_after kube parse r u i (found_after kube parse r l s u e creation))
      (enriched_own kube parse r (stored r) u (stored-has_credentials kube parse r ∙ h))
