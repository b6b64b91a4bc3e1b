-- ===== src/Projects/Windows/Policy/Decided.antt =====
-- The decision of `CanSync` for the windows of an application.
use argocd_monorepo_controll.Base.{
  ◌≡◌, refl, text_eq, Bool, true, false, not, ◌&&◌, ◌||◌, List, [], ◌∷◌, Option, none, some, any,
  all, is_some, if◌then◌else◌, Bool-cases, Option-cases, inl, inr, arith,
}
use argocd_monorepo_controll.Strconv.{ℤ}
use argocd_monorepo_controll.App.{Application}
use argocd_monorepo_controll.Projects.{SyncWindow, Compile}
use argocd_monorepo_controll.Projects.Windows.{
  Calendar, allow_kind, deny_kind, has_windows, is_open, window_active, active, inactive_allows,
  deny_loop, has_deny, manual_loop, can_sync,
}
use argocd_monorepo_controll.Projects.Windows.Matching.{matches}
use argocd_monorepo_controll.Projects.Windows.Policy.{keep, applies, matches-keep}

abbrev denies : SyncWindow → Bool
denies w = text_eq w.kind deny_kind

abbrev allows : SyncWindow → Bool
allows w = text_eq w.kind allow_kind

pub any-keep :
    (p q : SyncWindow → Bool) (windows : List SyncWindow)
    → any p (keep q windows) ≡ any (λ w. q w && p w) windows
any-keep p q [] = refl
any-keep p q (w ∷ windows) =
    let ih = any-keep p q windows in
    elim (Bool-cases (q w)) [ inl b ↦ rw (b, ih) | inr b ↦ rw (b, ih) ]

-- Whether windows with a property have all manual synchronisation.
abbrev manual_of : (SyncWindow → Bool) → List SyncWindow → Bool
manual_of p windows = all (λ w. not (p w) || w.manual_sync) windows

manual_of-keep :
    (p q : SyncWindow → Bool) (windows : List SyncWindow)
    → manual_of p (keep q windows) ≡ manual_of (λ w. q w && p w) windows
manual_of-keep p q [] = refl
manual_of-keep p q (w ∷ windows) =
    let ih = manual_of-keep p q windows in
    elim (Bool-cases (q w)) [ inl b ↦ rw (b, ih) | inr b ↦ rw (b, ih) ]

has_windows-keep :
    (q : SyncWindow → Bool) (windows : List SyncWindow)
    → has_windows (keep q windows) ≡ any q windows
has_windows-keep q [] = refl
has_windows-keep q (w ∷ windows) = elim (Bool-cases (q w)) [
  | inl b ↦ rw b
  | inr b ↦ rw (b, has_windows-keep q windows)
]

deny_loop_found :
    (windows : List SyncWindow) (m : Bool)
    → deny_loop windows true m ≡ (true, m && manual_of denies windows)
unfolding deny_loop
deny_loop_found [] m = ground arith
deny_loop_found (a ∷ windows) true =
    let ih = deny_loop_found windows in
    elim (Bool-cases (denies a)) [ inl b ↦ rw (b, ih a.manual_sync) | inr b ↦ rw (b, ih true) ]
deny_loop_found (a ∷ windows) false =
    let ih = deny_loop_found windows in
    elim (Bool-cases (denies a)) [ inl b ↦ rw (b, ih false) | inr b ↦ rw (b, ih false) ]

deny_loop_start :
    (windows : List SyncWindow)
    → deny_loop windows false false
      ≡ (any denies windows, any denies windows && manual_of denies windows)
unfolding deny_loop
deny_loop_start [] = refl
deny_loop_start (a ∷ windows) = elim (Bool-cases (denies a)) [
  | inl b ↦ rw (b, deny_loop_found windows a.manual_sync)
  | inr b ↦ rw (b, deny_loop_start windows)
]

has_deny_lem :
    (windows : List SyncWindow)
    → has_deny windows ≡ (any denies windows, any denies windows && manual_of denies windows)
unfolding has_deny
has_deny_lem [] = refl
has_deny_lem (a ∷ windows) = deny_loop_start (a ∷ windows)

manual_loop-keep :
    (q : SyncWindow → Bool) (windows : List SyncWindow)
    → manual_loop (keep q windows) ≡ manual_of q windows
manual_loop-keep q [] = refl
manual_loop-keep q (w ∷ windows) =
    let ih = manual_loop-keep q windows in
    elim (Bool-cases (q w)) [ inl b ↦ rw b (ground arith) | inr b ↦ rw (b, ih) ]

-- The branches of the source against one formula.
branches :
    (m denied denied_manual allowed later later_manual : Bool)
    → (if denied
        then some (if m && (denied && denied_manual) then true else false)
        else if allowed
        then some true
        else some (
            if later
            then if m && (if not later then false else later_manual) then true else false
            else true))
      ≡ some (if denied then m && denied_manual else allowed || (not later || (m && later_manual)))
branches m true dm a l lm = ground arith
branches m false dm true l lm = refl
branches m false dm false true lm = ground arith
branches m false dm false false lm = refl

module _ {Schedule : Type 0} (calendar : Calendar Schedule) where
  -- The schedule or the duration cannot be parsed.
  abbrev pub is_malformed : SyncWindow → Bool
  is_malformed w =
      not (
        is_some (calendar.parse_schedule w.schedule)
        && is_some (calendar.parse_duration w.duration))

  abbrev is_yes : Option Bool → Bool
  is_yes none = false
  is_yes (some b) = b

  abbrev opened : ℤ → SyncWindow → Bool
  opened t w = is_yes (window_active calendar w t)

  abbrev denies_now : ℤ → SyncWindow → Bool
  denies_now t w = opened t w && denies w

  abbrev allows_now : ℤ → SyncWindow → Bool
  allows_now t w = opened t w && allows w

  abbrev allows_later : ℤ → SyncWindow → Bool
  allows_later u w = not (opened u w) && allows w

  -- A window that denies wins over those that allow; an allowing window that is closed denies.
  abbrev pub decided : List SyncWindow → Bool → ℤ → ℤ → Bool
  decided windows is_manual t u =
      if any (denies_now t) windows
      then is_manual && manual_of (denies_now t) windows
      else any (allows_now t) windows
        || (not (any (allows_later u) windows) || (is_manual && manual_of (allows_later u) windows))

  abbrev pub policy : List SyncWindow → Bool → ℤ → ℤ → Option Bool
  policy windows is_manual t u =
      if any is_malformed windows then none else some (decided windows is_manual t u)

  active-keep :
      (windows : List SyncWindow) (t : ℤ)
      → active calendar windows t
        ≡ (if any is_malformed windows then none else some (keep (opened t) windows))
  unfolding active window_active
  active-keep [] t = refl
  active-keep (w ∷ windows) t =
      let ih = active-keep windows t in
      elim (Option-cases (calendar.parse_schedule w.schedule)) [
        | inl e ↦ rw e
        | inr (schedule, e) ↦ elim (Option-cases (calendar.parse_duration w.duration)) [
          | inl d ↦ rw (e, d)
          | inr (duration, d) ↦ elim (Bool-cases (any is_malformed windows)) [
            | inl m ↦ rw (e, d, ih, m)
            | inr m ↦ rw (e, d, ih, m)
          ]
        ]
      ]

  inactive_allows-keep :
      (windows : List SyncWindow) (u : ℤ)
      → any is_malformed windows ≡ false
      → inactive_allows calendar windows u ≡ some (keep (allows_later u) windows)
  unfolding inactive_allows window_active
  inactive_allows-keep [] u m = refl
  inactive_allows-keep (w ∷ windows) u m =
      elim (Option-cases (calendar.parse_schedule w.schedule)) [
        | inl e ↦ (let h = rw e at m in cc)
        | inr (schedule, e) ↦ elim (Option-cases (calendar.parse_duration w.duration)) [
          | inl d ↦ (let h = rw (e, d) at m in cc)
          | inr (duration, d) ↦
              let ih = inactive_allows-keep windows u (rw (e, d) at m) in
              elim (Bool-cases (allows w)) [
                | inl a ↦ elim (Bool-cases (is_open calendar w schedule duration u)) [
                  | inl o ↦ rw (e, d, ih, a, o)
                  | inr o ↦ rw (e, d, ih, a, o)
                ]
                | inr a ↦ elim (Bool-cases (is_open calendar w schedule duration u)) [
                  | inl o ↦ rw (e, d, ih, a, o)
                  | inr o ↦ rw (e, d, ih, a, o)
                ]
              ]
        ]
      ]

  can_sync-policy :
      (windows : List SyncWindow) (is_manual : Bool) (t u : ℤ)
      → can_sync calendar windows is_manual t u ≡ policy windows is_manual t u
  unfolding can_sync
  can_sync-policy [] is_manual t u = refl
  can_sync-policy (w ∷ windows) is_manual t u =
      let ws = w ∷ windows in
      elim (Bool-cases (any is_malformed ws)) [
        | inl m ↦ rw (active-keep ws t, m)
        | inr m ↦
            rw
              (
                active-keep ws t,
                m,
                has_deny_lem (keep (opened t) ws),
                any-keep denies (opened t) ws,
                manual_of-keep denies (opened t) ws,
                inactive_allows-keep ws u m,
                has_windows-keep (allows_later u) ws,
                manual_loop-keep (allows_later u) ws,
                any-keep allows (opened t) ws,
              )
              (branches is_manual (any (denies_now t) ws) (manual_of (denies_now t) ws)
                (any (allows_now t) ws) (any (allows_later u) ws) (manual_of (allows_later u) ws))
      ]

  -- What `CanSync` says for the windows that `Matches` finds for an application: an error if one
  -- of the windows that apply to it has a schedule or a duration that cannot be parsed. Otherwise,
  -- if windows that are open deny, it says whether it is manual and all of them have manual
  -- synchronisation; else yes if an open window allows or no closed one does; else whether it is
  -- manual and all closed windows that allow have manual synchronisation. The open windows are
  -- those of the first reading of the clock, the closed ones those of the second.
  pub can_sync-matches :
      (compile : Compile) (app : Application) (windows : List SyncWindow) (is_manual : Bool)
      (t u : ℤ)
      → can_sync calendar (matches compile app windows) is_manual t u
        ≡ policy (keep (applies compile app) windows) is_manual t u
  can_sync-matches compile app windows is_manual t u =
      rw (matches-keep compile app windows)
        (can_sync-policy (keep (applies compile app) windows) is_manual t u)
