-- ===== src/Db/Backend/Longest.antt =====
-- Which credential template getRepositoryCredentialIndex finds.
use argocd_monorepo_controll.Base.{
  ℕ, zero, suc, ◌+◌, ◌≤◌, ◌<◌, ◌≡◌, refl, ap, subst, ◌∙◌, inl, inr, Text, starts_with, Bool, true,
  ◌&&◌, List, [], ◌∷◌, All, Option, none, some, length, get_elem?, ltb, Bool-cases, arith,
}
use argocd_monorepo_controll.Git.Urls.{normalize_git_url}
use argocd_monorepo_controll.Db.Secrets.{Secret}
use argocd_monorepo_controll.Db.Backend.{url_of, longest_index, get_repository_credential_index}

module _ (parse : Text → Option Text) (repo_url : Text) where
  abbrev pub size : Secret → ℕ
  size cred = length (normalize_git_url parse (url_of cred))

  -- The normal form of the template's URL is a prefix of the repository's.
  abbrev pub covers : Secret → Bool
  covers cred = starts_with repo_url (normalize_git_url parse (url_of cred))

  -- Every template that covers the repository is at most this long.
  abbrev pub AtMost : ℕ → List Secret → Type 0
  AtMost n creds = All (λ c. covers c ≡ true → size c ≤ n) creds

  -- The templates before a place that cover the repository are shorter than this.
  abbrev pub Below : ℕ → ℕ → List Secret → Type 0
  Below n k creds =
      (j : ℕ) (c : Secret) → j < k → get_elem? creds j ≡ some c → covers c ≡ true → size c < n

  -- The template at this place covers the repository, the ones before are shorter and the ones
  -- behind no longer.
  pub record IsLongest (max_len k : ℕ) (creds : List Secret) : Type 0 where
    pub cred : Secret
    pub place : get_elem? creds k ≡ some cred
    pub covered : covers cred ≡ true
    pub longer : max_len < size cred
    pub no_longer : AtMost (size cred) creds
    pub first : Below (size cred) k creds

  pub data Finds (max_len i : ℕ) (idx : Option ℕ) (creds : List Secret) (r : Option ℕ)
      : Type 0 where
    keeps : r ≡ idx → AtMost max_len creds → Finds max_len i idx creds r
    finds : (k : ℕ) → r ≡ some (i + k) → IsLongest max_len k creds → Finds max_len i idx creds r

  AtMost-weaken : (m n : ℕ) (creds : List Secret) → m ≤ n → AtMost m creds → AtMost n creds
  AtMost-weaken m n [] h a = tt
  AtMost-weaken m n (c ∷ creds) h (p, a) =
      ((λ q. (let l = p q in omega arith)), AtMost-weaken m n creds h a)

  Below-cons :
      (n k : ℕ) (c : Secret) (creds : List Secret)
      → (covers c ≡ true → size c < n)
      → Below n k creds
      → Below n (suc k) (c ∷ creds)
  Below-cons n k c creds h b zero d lt e q =
      let same : c ≡ d = cc in subst (λ x. size x < n) same (h (rw same q))
  Below-cons n k c creds h b (suc j) d lt e q = b j d (omega arith) e q

  behind :
      (max_len i : ℕ) (idx : Option ℕ) (c : Secret) (creds : List Secret) (r : Option ℕ)
      → (covers c ≡ true → size c ≤ max_len)
      → Finds max_len (suc i) idx creds r
      → Finds max_len i idx (c ∷ creds) r
  behind max_len i idx c creds r small (keeps e a) = keeps e (small, a)
  behind max_len i idx c creds r small (finds k e l) =
      finds (suc k) (e ∙ ap some (omega arith)) (record {
        cred = l.cred;
        place = l.place;
        covered = l.covered;
        longer = l.longer;
        no_longer = ((λ q. (let a = small q in let b = l.longer in omega arith)), l.no_longer);
        first =
            Below-cons (size l.cred) k c creds
              (λ q. (let a = small q in let b = l.longer in omega arith)) l.first;
      })

  here :
      (max_len i : ℕ) (idx : Option ℕ) (c : Secret) (creds : List Secret) (r : Option ℕ)
      → covers c ≡ true
      → max_len < size c
      → Finds (size c) (suc i) (some i) creds r
      → Finds max_len i idx (c ∷ creds) r
  here max_len i idx c creds r q lt (keeps e a) = finds 0 (e ∙ ap some (omega arith)) (record {
    cred = c;
    place = refl;
    covered = q;
    longer = lt;
    no_longer = ((λ p. omega arith), a);
    first = λ j d below. absurd (omega arith);
  })
  here max_len i idx c creds r q lt (finds k e l) =
      finds (suc k) (e ∙ ap some (omega arith)) (record {
        cred = l.cred;
        place = l.place;
        covered = l.covered;
        longer = (let b = l.longer in omega arith);
        no_longer = ((λ p. (let b = l.longer in omega arith)), l.no_longer);
        first = Below-cons (size l.cred) k c creds (λ p. l.longer) l.first;
      })

  longest_index-Finds :
      (max_len i : ℕ) (idx : Option ℕ) (creds : List Secret)
      → Finds max_len i idx creds (longest_index parse repo_url max_len idx i creds)
  unfolding longest_index
  longest_index-Finds max_len i idx [] = keeps refl tt
  longest_index-Finds max_len i idx (c ∷ creds) =
      elim (Bool-cases (covers c && ltb max_len (size c))) [
        | inl b ↦
            let q : covers c ≡ true = ground arith in
            let lt : max_len < size c = ground arith in
            rw b (
              here max_len i idx c creds _ q lt
                (longest_index-Finds (size c) (suc i) (some i) creds))
        | inr b ↦ rw b (
            behind max_len i idx c creds _ (λ q. ground arith)
              (longest_index-Finds max_len (suc i) idx creds))
      ]

-- The credential template for a repository is, in normal form, a non-empty prefix of its URL that
-- is longer than every such template before it and at least as long as every one behind it; none
-- is found only if no template with a non-empty URL is a prefix.
pub get_repository_credential_index-Finds :
    (parse : Text → Option Text) (creds : List Secret) (repo_url : Text)
    → Finds parse
        (normalize_git_url parse repo_url)
        0
        0
        none
        creds
        (get_repository_credential_index parse creds repo_url)
unfolding get_repository_credential_index
get_repository_credential_index-Finds parse creds repo_url =
    longest_index-Finds parse (normalize_git_url parse repo_url) 0 0 none creds
