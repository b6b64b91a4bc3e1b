-- ===== src/RepoServer/TempPaths/Runs.antt =====
-- Which clients share a working copy, in any run of the repository server.
use argocd_monorepo_controll.Base.{
  ℕ, zero, suc, get_elem?, lookup-insert_self, subst, ◌≡◌, ◌≢◌, ◌↔◌, sym, ap, ◌∙◌, ◌⊎◌, inl, inr,
  Text, text_eq, text_eq_iff, lookup, insert, lookup-insert, false, List, [], ◌∷◌, Option, none,
  some, All, Bool-cases, Option-cases,
}
use argocd_monorepo_controll.Git.Urls.{normalize_git_url}
use argocd_monorepo_controll.Paths.FilePath.{join}
use argocd_monorepo_controll.RepoServer.TempPaths.{
  RandomizedTempPaths, new_randomized_temp_paths, add, get_path, DirEntry, restore_entry,
  new_client,
}

-- No key has this path.
abbrev pub IsFree : Text → RandomizedTempPaths → Type 0
IsFree v p = (k : Text) → lookup k p.paths ≢ some v

-- No two keys have the same path.
abbrev pub IsSeparate : RandomizedTempPaths → Type 0
IsSeparate p = (k j v : Text) → lookup k p.paths ≡ some v → lookup j p.paths ≡ some v → k ≡ j

start-IsSeparate : (root : Text) → IsSeparate (new_randomized_temp_paths root)
unfolding lookup
start-IsSeparate root k j v e f = cc

module _ (p : RandomizedTempPaths) (key value : Text) where
  abbrev added : RandomizedTempPaths
  added = record p { paths = insert key value p.paths }

  added-cases :
      (k v : Text)
      → lookup k added.paths ≡ some v
      → ((k ≡ key) × (v ≡ value)) ⊎ ((k ≢ key) × (lookup k p.paths ≡ some v))
  added-cases k v e = elim (Bool-cases (text_eq key k)) [
    | inl b ↦
        let f = rw (lookup-insert key k value p.paths, b) at e in
        inl ((sym ((text_eq_iff key k).0 b)), cc)
    | inr b ↦ inr (
      (λ q. (let g = (text_eq_iff key k).1 (sym q) in cc)),
      (rw (lookup-insert key k value p.paths, b) at e),
    )
  ]

  added-IsSeparate : IsSeparate p → IsFree value p → IsSeparate added
  added-IsSeparate h free k j v e f = elim (added-cases k v e) [
    | inl (a, b) ↦ elim (added-cases j v f) [
      | inl (c, d) ↦ a ∙ sym c
      | inr (c, d) ↦ absurd (free j (d ∙ ap some b))
    ]
    | inr (a, b) ↦ elim (added-cases j v f) [
      | inl (c, d) ↦ absurd (free k (b ∙ ap some d))
      | inr (c, d) ↦ h k j v b d
    ]
  ]

-- The paths and the clients that were made, each with its URL and root.
pub record State : Type 0 where
  pub temp : RandomizedTempPaths
  pub clients : List (Text × Text)

abbrev with_new : Text → Option Text → List (Text × Text) → List (Text × Text)
with_new repo none clients = clients
with_new repo (some root) clients = (repo, root) ∷ clients

module _ (parse : Text → Option Text) where
  abbrev pub made : Option Text → Text → State → State
  made new_random repo s =
      let (root, temp) = new_client parse new_random repo s.temp in
      record { temp = temp; clients = with_new repo root s.clients }

  -- Init restores the directories, which have different paths, before any client is made; the
  -- path of a new random name is not in use.
  pub data Reach (root : Text) : State → Type 0 where
    start : Reach root (record { temp = new_randomized_temp_paths root; clients = [] })
    restored :
        {s : State} (file : DirEntry)
        → Reach root s
        → s.clients ≡ []
        → IsFree (join s.temp.root file.name) s.temp
        → Reach root (record s { temp = restore_entry parse file s.temp })
    asked :
        {s : State} (new_random : Option Text) (repo : Text)
        → Reach root s
        → ((unique_id : Text)
            → new_random ≡ some unique_id
            → IsFree (join s.temp.root unique_id) s.temp)
        → Reach root (made new_random repo s)

  -- The path of a client is still that of its URL.
  abbrev IsCurrent : RandomizedTempPaths → Text × Text → Type 0
  IsCurrent p (repo, root) = lookup (normalize_git_url parse repo) p.paths ≡ some root

  pub record IsSound (s : State) : Type 0 where
    pub separate : IsSeparate s.temp
    pub current : All (IsCurrent s.temp) s.clients

  none_made : (p : RandomizedTempPaths) → All (IsCurrent p) []
  none_made p = tt

  restored-IsSound :
      (file : DirEntry) (s : State)
      → s.clients ≡ []
      → IsFree (join s.temp.root file.name) s.temp
      → IsSound s
      → IsSound (record s { temp = restore_entry parse file s.temp })
  unfolding add
  restored-IsSound file s e free h = record {
    separate = (elim (Bool-cases file.is_dir) [
      | inr a ↦ rw a h.separate
      | inl a ↦ elim (Option-cases file.url) [
        | inl b ↦ rw (a, b) h.separate
        | inr (url, b) ↦
            rw (a, b)
              (added-IsSeparate s.temp (normalize_git_url parse url) (join s.temp.root file.name)
                h.separate free)
      ]
    ]);
    current = rw e (none_made (restore_entry parse file s.temp));
  }

  still-IsCurrent :
      (p : RandomizedTempPaths) (key value : Text) (clients : List (Text × Text))
      → lookup key p.paths ≡ none
      → All (IsCurrent p) clients
      → All (IsCurrent (added p key value)) clients
  still-IsCurrent p key value [] e h = tt
  still-IsCurrent p key value ((repo, root) ∷ clients) e h =
      let k = normalize_git_url parse repo in
      let other : text_eq key k ≡ false = elim (Bool-cases (text_eq key k)) [
        | inr b ↦ b
        | inl b ↦ (let same = (text_eq_iff key k).0 b in let g = h.0 in cc)
      ] in
      (
        (rw (lookup-insert key k value p.paths, other) h.0),
        still-IsCurrent p key value clients e h.1,
      )

  asked-IsSound :
      (new_random : Option Text) (repo : Text) (s : State)
      → ((unique_id : Text)
          → new_random ≡ some unique_id
          → IsFree (join s.temp.root unique_id) s.temp)
      → IsSound s
      → IsSound (made new_random repo s)
  unfolding new_client get_path
  asked-IsSound new_random repo s free h =
      let key = normalize_git_url parse repo in
      elim (Option-cases (lookup key s.temp.paths)) [
        | inr (val, e) ↦ rw e (record { separate = h.separate; current = (e, h.current) })
        | inl e ↦ elim (Option-cases new_random) [
          | inl f ↦ rw (e, f) h
          | inr (unique_id, f) ↦
              let path = join s.temp.root unique_id in
              rw (e, f)
                (record {
                  separate = added-IsSeparate s.temp key path h.separate (free unique_id f);
                  current = (
                    lookup-insert_self key path s.temp.paths,
                    still-IsCurrent s.temp key path s.clients e h.current,
                  );
                })
        ]
      ]

  Reach-IsSound : (root : Text) (s : State) → Reach root s → IsSound s
  Reach-IsSound root _ start = record { separate = start-IsSeparate root; current = tt }
  Reach-IsSound root _ (restored {s} file r e free) =
      restored-IsSound file s e free (Reach-IsSound root s r)
  Reach-IsSound root _ (asked {s} new_random repo r free) =
      asked-IsSound new_random repo s free (Reach-IsSound root s r)

  All-get :
      (p : RandomizedTempPaths) (clients : List (Text × Text)) (i : ℕ) (c : Text × Text)
      → All (IsCurrent p) clients
      → get_elem? clients i ≡ some c
      → IsCurrent p c
  All-get p [] i c h e = cc
  All-get p (d ∷ clients) zero c h e = (let same : d ≡ c = cc in subst (IsCurrent p) same h.0)
  All-get p (d ∷ clients) (suc i) c h e = All-get p clients i c h.1 e

-- In every run of the repository server two clients have the same working copy if and only if the
-- normal forms of their repositories' URLs are the same, where random names are not in use before
-- and Init restores directories with different paths.
pub clients_share :
    (parse : Text → Option Text) (root : Text) (s : State) (i j : ℕ)
    (repo_i root_i repo_j root_j : Text)
    → Reach parse root s
    → get_elem? s.clients i ≡ some (repo_i, root_i)
    → get_elem? s.clients j ≡ some (repo_j, root_j)
    → (root_i ≡ root_j) ↔ (normalize_git_url parse repo_i ≡ normalize_git_url parse repo_j)
clients_share parse root s i j repo_i root_i repo_j root_j r e f =
    let sound = Reach-IsSound parse root s r in
    let a = All-get parse s.temp s.clients i (repo_i, root_i) sound.current e in
    let b = All-get parse s.temp s.clients j (repo_j, root_j) sound.current f in
    (
      (λ q. sound.separate _ _ root_j (a ∙ ap some q) b),
      (λ q.
          (let c : some root_i ≡ some root_j = sym a ∙ ap (λ k. lookup k s.temp.paths) q ∙ b in
            cc)),
    )
