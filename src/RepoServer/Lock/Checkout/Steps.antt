-- ===== src/RepoServer/Lock/Checkout/Steps.antt =====
-- The steps of the lock and its state.
use argocd_monorepo_controll.Base.{
  ℕ, zero, suc, ◌-◌, ◌≡◌, ◌≢◌, refl, sym, ap, subst, ◌∙◌, inl, inr, Text, text_eq, text_eq_iff,
  text_eq_refl, Bool, true, false, List, [], ◌∷◌, some, arith, ◌==◌, ==_iff, get_elem?, length, All,
  Bool-cases,
}
use argocd_monorepo_controll.RepoServer.Lock.{
  RepositoryState, Request, initialized, joined, init_failed, lock, close, Copy, remove_at,
}
use argocd_monorepo_controll.RepoServer.Lock.Checkout.{
  Sees, IsConsistent, initialized_from, failed_from, joined_from, may_join_iff,
}

length-remove_at :
    (i : ℕ) (hs : List Request) (r : Request)
    → get_elem? hs i ≡ some r
    → suc (length (remove_at i hs)) ≡ length hs
unfolding remove_at
length-remove_at i [] r e = cc
length-remove_at zero (h ∷ hs) r e = refl
length-remove_at (suc i) (h ∷ hs) r e = ap suc (length-remove_at i hs r e)

All-remove_at :
    (P : Request → Type 0) (i : ℕ) (hs : List Request) → All P hs → All P (remove_at i hs)
unfolding remove_at
All-remove_at P i [] a = tt
All-remove_at P zero (h ∷ hs) a = a.1
All-remove_at P (suc i) (h ∷ hs) a = (a.0, All-remove_at P i hs a.1)

none_held : (hs : List Request) → length hs ≡ 0 → hs ≡ []
none_held [] e = refl
none_held (h ∷ hs) e = absurd (omega (arith, e))

not_empty_revision : (s : Text) → s ≢ [] → text_eq s [] ≡ false
not_empty_revision s ne = elim (Bool-cases (text_eq s [])) [
  | inl e ↦ absurd (ne ((text_eq_iff s []).0 e))
  | inr e ↦ e
]

module _ (c : Copy) (v : IsConsistent c) where
  copy_of :
      (hs : List Request)
      → c.holders ≡ hs
      → text_eq c.state.revision [] ≡ false
      → All (Sees c) c.holders
      → c.state.revision ≡ c.checked_out
  copy_of [] e held seen = (let f = v.idle e in let g = rw f at held in cc)
  copy_of (h ∷ hs) e held seen =
      let first = (subst (All (Sees c)) e seen).0 in sym first.1 ∙ first.0

  -- A held copy is checked out at the state's revision.
  copy_at : text_eq c.state.revision [] ≡ false → c.state.revision ≡ c.checked_out
  copy_at held = copy_of c.holders refl held v.seen

  pub initializes-IsConsistent :
      (req : Request) (s : RepositoryState)
      → req.revision ≢ []
      → lock req true c.state ≡ initialized s
      → IsConsistent (record { state = s; holders = req ∷ c.holders; checked_out = req.revision })
  initializes-IsConsistent req s ne e =
      let (free, same) = initialized_from req c.state s e in
      let alone = v.free free in
      rw (same, alone)
        (record {
          counted = refl;
          seen = ((refl, refl), tt);
          alike = (refl, tt);
          concurrent = λ h. absurd (omega (arith, h));
          free = λ h. absurd (ne ((text_eq_iff req.revision []).0 h));
          idle = λ h. cc;
        })

  pub fails-IsConsistent :
      (req : Request) (left : Text)
      → lock req false c.state ≡ init_failed
      → IsConsistent (record c { checked_out = left })
  fails-IsConsistent req left e =
      let alone = v.free (failed_from req c.state e) in
      record {
        counted = v.counted;
        seen = subst (All (Sees (record c { checked_out = left }))) (sym alone) tt;
        alike = v.alike;
        concurrent = v.concurrent;
        free = v.free;
        idle = v.idle;
      }

  pub joins-IsConsistent :
      (req : Request) (init_ok : Bool) (s : RepositoryState)
      → req.revision ≢ []
      → lock req init_ok c.state ≡ joined s
      → IsConsistent (record c { state = s; holders = req ∷ c.holders })
  joins-IsConsistent req init_ok s ne e =
      let (held, join, same) = joined_from req init_ok c.state s e in
      let (rev, allowed, allows) = may_join_iff req c.state join in
      rw same (record {
        counted = ap suc v.counted;
        seen = ((rev ∙ copy_at held, rev), v.seen);
        alike = (allows ∙ sym allowed, v.alike);
        concurrent = λ h. allowed;
        free = λ h. (let f = rw h at held in cc);
        idle = λ h. cc;
      })

  pub closes-IsConsistent :
      (i : ℕ) (req : Request)
      → get_elem? c.holders i ≡ some req
      → IsConsistent (record c { state = (close c.state).0; holders = remove_at i c.holders })
  unfolding close
  closes-IsConsistent i req e =
      let rest = remove_at i c.holders in
      let fewer = length-remove_at i c.holders req e in
      elim (Bool-cases (c.state.process_count - 1 == 0)) [
        | inl last ↦
            let gone : rest ≡ [] =
              none_held rest
                (omega (arith, (==_iff (c.state.process_count - 1) 0).0 last, v.counted, fewer)) in
            rw (last, gone)
              (record {
                counted = refl;
                seen = tt;
                alike = tt;
                concurrent = λ h. absurd (omega (arith, h));
                free = λ h. refl;
                idle = λ h. text_eq_refl [];
              })
        | inr more ↦ rw more (record {
          counted = omega (arith, v.counted, fewer);
          seen = All-remove_at (Sees c) i c.holders v.seen;
          alike =
              All-remove_at (λ h. h.allow_concurrent ≡ c.state.allow_concurrent) i c.holders
                v.alike;
          concurrent = λ h. v.concurrent (omega (arith, h, fewer));
          free = λ h. absurd (omega (arith, ap length (v.free h), fewer));
          idle = λ h.
              (let z : (c.state.process_count - 1 == 0) ≡ true =
                  (==_iff (c.state.process_count - 1) 0).1
                    (omega (arith, ap length h, v.counted, fewer)) in
                cc);
        })
      ]
