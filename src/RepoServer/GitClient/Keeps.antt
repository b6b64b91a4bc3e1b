-- ===== src/RepoServer/GitClient/Keeps.antt =====
-- Calls in a row: what a part of the state keeps, and what a success says of each.
use argocd_monorepo_controll.Base.{◌≡◌, refl, ◌∙◌, inl, inr, Bool, true, Bool-cases}
use argocd_monorepo_controll.RepoServer.GitClient.{◌>>◌, or_else, unless}

module _ {S X : Type 0} (view : S → X) where
  -- The call leaves this part of the state alone.
  abbrev pub Keeps : (S → Bool × S) → Type 0
  Keeps call = (s : S) → view (call s).1 ≡ view s

  pub >>-Keeps : (m k : S → Bool × S) → Keeps m → Keeps k → Keeps (m >> k)
  >>-Keeps m k hm hk s = elim (Bool-cases (m s).0) [
    | inl e ↦ rw e (hk (m s).1 ∙ hm s)
    | inr e ↦ rw e (hm s)
  ]

  pub or_else-Keeps : (m k : S → Bool × S) → Keeps m → Keeps k → Keeps (or_else m k)
  or_else-Keeps m k hm hk s = elim (Bool-cases (m s).0) [
    | inl e ↦ rw e (hm s)
    | inr e ↦ rw e (hk (m s).1 ∙ hm s)
  ]

  pub unless-Keeps : (test : S → Bool) (m : S → Bool × S) → Keeps m → Keeps (unless test m)
  unless-Keeps test m hm s = elim (Bool-cases (test s)) [ inl e ↦ rw e | inr e ↦ rw e (hm s) ]

-- Both calls succeed where both in a row do, and the state is what the second leaves.
pub >>-both :
    {S : Type 0} (m k : S → Bool × S) (s : S)
    → ((m >> k) s).0 ≡ true
    → ((m s).0 ≡ true) × ((k (m s).1).0 ≡ true) × ((m >> k) s ≡ k (m s).1)
>>-both m k s e = elim (Bool-cases (m s).0) [
  | inl h ↦ rw h ((refl, (rw h at e), refl))
  | inr h ↦ (let f = rw h at e in cc)
]
