-- ===== src/RepoServer/Lock/Checkout.antt =====
-- The holders of a working copy and the revision that they see.
pub mod Steps
pub mod Runs
use argocd_monorepo_controll.Base.{
  ℕ, zero, suc, ◌-◌, ◌<◌, ◌≡◌, ◌≢◌, refl, sym, ap, subst, ◌∙◌, inl, inr, Text, text_eq, text_eq_iff,
  text_eq_refl, Bool, true, false, List, [], ◌∷◌, some, arith, ◌==◌, ==_iff, get_elem?, length, All,
  Bool-cases,
}
use argocd_monorepo_controll.RepoServer.Lock.{
  RepositoryState, Request, initialized, joined, init_failed, waits, initialize, may_join, lock,
  close, Copy, new_copy, remove_at, Step, initializes, fails, joins, closes, Reach, start, after,
}

-- The holder asked for the revision of the state, which is checked out.
abbrev pub Sees : Copy → Request → Type 0
Sees c req = (req.revision ≡ c.checked_out) × (req.revision ≡ c.state.revision)

pub record IsConsistent (c : Copy) : Type 0 where
  pub counted : c.state.process_count ≡ length c.holders
  pub seen : All (Sees c) c.holders
  pub alike : All (λ h. h.allow_concurrent ≡ c.state.allow_concurrent) c.holders
  pub concurrent : 1 < length c.holders → c.state.allow_concurrent ≡ true
  pub free : text_eq c.state.revision [] ≡ true → c.holders ≡ []
  pub idle : c.holders ≡ [] → text_eq c.state.revision [] ≡ true

-- What the outcomes of a round say of the state.
initialized_from :
    (req : Request) (st s : RepositoryState)
    → lock req true st ≡ initialized s
    → (text_eq st.revision [] ≡ true)
      × (s ≡ record st {
        revision = req.revision;
        has_init_closer = true;
        process_count = 1;
        allow_concurrent = req.allow_concurrent;
      })
unfolding lock initialize
initialized_from req st s e = elim (Bool-cases (text_eq st.revision [])) [
  | inl free ↦ (let f = rw free at e in (free, cc))
  | inr held ↦ elim (Bool-cases (may_join req st)) [
    | inl j ↦ (let f = rw (held, j) at e in cc)
    | inr j ↦ (let f = rw (held, j) at e in cc)
  ]
]

failed_from :
    (req : Request) (st : RepositoryState)
    → lock req false st ≡ init_failed
    → text_eq st.revision [] ≡ true
unfolding lock initialize
failed_from req st e = elim (Bool-cases (text_eq st.revision [])) [
  | inl free ↦ free
  | inr held ↦ elim (Bool-cases (may_join req st)) [
    | inl j ↦ (let f = rw (held, j) at e in cc)
    | inr j ↦ (let f = rw (held, j) at e in cc)
  ]
]

joined_from :
    (req : Request) (init_ok : Bool) (st s : RepositoryState)
    → lock req init_ok st ≡ joined s
    → (text_eq st.revision [] ≡ false)
      × (may_join req st ≡ true)
      × (s ≡ record st { process_count = suc st.process_count })
unfolding lock initialize
joined_from req init_ok st s e = elim (Bool-cases (text_eq st.revision [])) [
  | inl free ↦ elim (Bool-cases init_ok) [
    | inl o ↦ (let f = rw (free, o) at e in cc)
    | inr o ↦ (let f = rw (free, o) at e in cc)
  ]
  | inr held ↦ elim (Bool-cases (may_join req st)) [
    | inl j ↦ (let f = rw (held, j) at e in (held, j, cc))
    | inr j ↦ (let f = rw (held, j) at e in cc)
  ]
]

may_join_iff :
    (req : Request) (st : RepositoryState)
    → may_join req st ≡ true
    → (req.revision ≡ st.revision) × (st.allow_concurrent ≡ true) × (req.allow_concurrent ≡ true)
unfolding may_join
may_join_iff req st e = ground (arith, text_eq_iff st.revision req.revision)
