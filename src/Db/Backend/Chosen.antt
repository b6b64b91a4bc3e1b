-- ===== src/Db/Backend/Chosen.antt =====
-- Which secret getRepositorySecret chooses.
use argocd_monorepo_controll.Base.{
  ◌≡◌, refl, ap, ◌∙◌, inl, inr, Text, text_eq, Bool, true, false, ◌&&◌, List, [], ◌∷◌, ◌++◌, Option,
  none, some, if◌then◌else◌, Bool-cases, Option-cases, arith,
}
use argocd_monorepo_controll.Git.Urls.{same_url}
use argocd_monorepo_controll.Repositories.{is_empty}
use argocd_monorepo_controll.Db.Secrets.{◌>>=◌, Secret, Kube}
use argocd_monorepo_controll.Db.Backend.{
  url_of, project_of, choose_secret, get_repository_secret, get_secret_type, or_not_found, or_other,
}

abbrev pub or_else {ℓ} : {A : Type ℓ} → Option A → Option A → Option A
or_else none o = o
or_else (some a) o = some a

module _ {ℓ} {A : Type ℓ} (p : A → Bool) where
  unfoldable pub first : List A → Option A
  first [] = none
  first (x ∷ xs) = if p x then some x else first xs

  unfoldable pub last : List A → Option A
  last [] = none
  last (x ∷ xs) = or_else (last xs) (if p x then some x else none)

  pub first-append_none :
      (xs : List A) (ys : List A) → first (xs ++ ys) ≡ none → (first xs ≡ none) × (first ys ≡ none)
  unfolding first
  first-append_none [] ys e = (refl, e)
  first-append_none (x ∷ xs) ys e = ground (arith, first-append_none xs ys)

  pub first-append :
      (xs : List A) (y : A) (ys : List A)
      → first xs ≡ none
      → p y ≡ true
      → first (xs ++ y ∷ ys) ≡ some y
  unfolding first
  first-append [] y ys e h = rw h
  first-append (x ∷ xs) y ys e h = ground (arith, first-append xs y ys)

module _ (parse : Text → Option Text) (repo_url project : Text) where
  -- A secret of the repository and the project, and one of the repository and no project.
  abbrev pub is_exact : Secret → Bool
  is_exact secret = same_url parse (url_of secret) repo_url && text_eq project (project_of secret)

  abbrev pub is_shared : Secret → Bool
  is_shared secret = same_url parse (url_of secret) repo_url && is_empty (project_of secret)

  abbrev pub fallback : Bool → List Secret → Option Secret
  fallback true secrets = last is_shared secrets
  fallback false secrets = none

  fallback-cons :
      (allow_fallback : Bool) (found : Option Secret) (secret : Secret) (secrets : List Secret)
      → or_else (fallback allow_fallback (secret ∷ secrets)) found
        ≡ or_else
            (fallback allow_fallback secrets)
            (if is_shared secret && allow_fallback then some secret else found)
  unfolding last
  fallback-cons false found secret secrets = elim (Bool-cases (is_shared secret)) [
    | inl e ↦ rw e
    | inr e ↦ rw e
  ]
  fallback-cons true found secret secrets = elim (Bool-cases (is_shared secret)) [
    | inl e ↦ elim (Option-cases (last is_shared secrets)) [ inl h ↦ rw (h, e) | inr (a, h) ↦ rw h ]
    | inr e ↦ elim (Option-cases (last is_shared secrets)) [ inl h ↦ rw (h, e) | inr (a, h) ↦ rw h ]
  ]

  choose_none :
      (allow_fallback : Bool) (found : Option Secret)
      → choose_secret parse repo_url project allow_fallback found []
        ≡ or_else (first is_exact []) (or_else (fallback allow_fallback []) found)
  unfolding choose_secret first last
  choose_none true found = refl
  choose_none false found = refl

  pub choose_secret-first_or_last :
      (allow_fallback : Bool) (found : Option Secret) (secrets : List Secret)
      → choose_secret parse repo_url project allow_fallback found secrets
        ≡ or_else (first is_exact secrets) (or_else (fallback allow_fallback secrets) found)
  unfolding choose_secret first
  choose_secret-first_or_last allow_fallback found [] = choose_none allow_fallback found
  choose_secret-first_or_last allow_fallback found (secret ∷ secrets) =
      let ih = λ (f : Option Secret). choose_secret-first_or_last allow_fallback f secrets in
      let step = fallback-cons allow_fallback found secret secrets in
      elim (Bool-cases (same_url parse (url_of secret) repo_url)) [
        | inr miss ↦ (let h = rw miss at step in rw (miss, h) (ih found))
        | inl same ↦ elim (Bool-cases (text_eq project (project_of secret))) [
          | inl exact ↦ rw (same, exact)
          | inr inexact ↦ elim (Bool-cases (is_empty (project_of secret) && allow_fallback)) [
            | inl shared ↦
                (let h = rw (same, shared) at step in
                  rw (same, inexact, shared, h) (ih (some secret)))
            | inr closed ↦
                (let h = rw (same, closed) at step in rw (same, inexact, closed, h) (ih found))
          ]
        ]
      ]

  -- The first secret of the project, else, if this is allowed, the last secret of no project.
  abbrev pub chosen : Bool → List Secret → Option Secret
  chosen allow_fallback secrets = or_else (first is_exact secrets) (fallback allow_fallback secrets)

  or_else-none : {A : Type 0} (o : Option A) → or_else o none ≡ o
  or_else-none none = refl
  or_else-none (some a) = refl

  pub choose_secret-chosen :
      (allow_fallback : Bool) (secrets : List Secret)
      → choose_secret parse repo_url project allow_fallback none secrets
        ≡ chosen allow_fallback secrets
  choose_secret-chosen allow_fallback secrets =
      choose_secret-first_or_last allow_fallback none secrets
      ∙ ap (or_else (first is_exact secrets)) (or_else-none (fallback allow_fallback secrets))

-- The secret of a repository is the first with the same URL and exactly the project, else, if a
-- fallback is allowed, the last with the same URL and no project; without either it is not found,
-- and an error if the secrets cannot be listed.
pub get_repository_secret-chosen :
    {S : Type 0} (kube : Kube S) (parse : Text → Option Text) (write_creds : Bool)
    (repo_url project : Text) (allow_fallback : Bool) (s : S)
    → get_repository_secret kube parse write_creds repo_url project allow_fallback s ≡ (
        or_other (kube.list_secrets_by_type (get_secret_type write_creds) s) >>= λ secrets.
        or_not_found (chosen parse repo_url project allow_fallback secrets))
unfolding get_repository_secret
get_repository_secret-chosen kube parse write_creds repo_url project allow_fallback s =
    elim (Option-cases (kube.list_secrets_by_type (get_secret_type write_creds) s)) [
      | inl e ↦ rw e
      | inr (secrets, e) ↦
          rw (e, choose_secret-chosen parse repo_url project allow_fallback secrets)
    ]
