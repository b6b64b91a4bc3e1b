-- ===== src/Projects/Windows/Policy/Edited.antt =====
-- The windows of a project that AddWindow and DeleteWindow have made.
use argocd_monorepo_controll.Base.{
  ℕ, zero, suc, ◌≡◌, refl, subst, ◌∙◌, sym, Text, text_eq, ltb, length, is_some, Bool, true, false,
  not, ◌&&◌, ◌||◌, List, [], ◌∷◌, ◌++◌, Option, none, some, any, if◌then◌else◌, Bool-cases,
  Option-cases, inl, inr, arith,
}
use mathlib.Core.Option.{some-injective}
use argocd_monorepo_controll.Strconv.{ℤ, pos, negsuc}
use argocd_monorepo_controll.App.{Application}
use argocd_monorepo_controll.Projects.{SyncWindow, AppProjectSpec, Compile, is_given}
use argocd_monorepo_controll.Projects.Windows.{Calendar, can_sync, allow_kind, deny_kind}
use argocd_monorepo_controll.Projects.Windows.Matching.{matches}
use argocd_monorepo_controll.Projects.Windows.Edits.{
  new_window, is_valid, known_zone, validate, add_window, remove_window, delete_window,
}
use argocd_monorepo_controll.Projects.Windows.Policy.{keep, applies}
use argocd_monorepo_controll.Projects.Windows.Policy.Decided.{
  is_malformed, decided, can_sync-matches,
}

or_false : (a b : Bool) → a || b ≡ false → (a ≡ false) × (b ≡ false)
or_false true b h = (h, ground arith)
or_false false b h = (refl, h)

valid_parts :
    (kind s d description : Bool) → kind && (s && (d && description)) ≡ true → not (s && d) ≡ false
valid_parts kind true true description v = refl
valid_parts kind true false description v = ground arith
valid_parts kind false d description v = ground arith

is_true_of : (b : Bool) → not b ≡ false → b ≡ true
is_true_of true e = refl
is_true_of false e = sym e

unless_some :
    {A : Type 0} (b : Bool) (o : Option A) (c : A)
    → (if b then none else o) ≡ some c
    → (b ≡ false) × (o ≡ some c)
unless_some true o c e = ground arith
unless_some false o c e = (refl, e)

module _ (p : SyncWindow → Bool) where
  none-append :
      (xs : List SyncWindow) (w : SyncWindow)
      → any p xs ≡ false
      → p w ≡ false
      → any p (xs ++ (w ∷ [])) ≡ false
  none-append [] w h e = rw e
  none-append (x ∷ xs) w h e =
      rw ((or_false (p x) (any p xs) h).0, none-append xs w (or_false (p x) (any p xs) h).1 e)

  none-keep :
      (q : SyncWindow → Bool) (xs : List SyncWindow) → any p xs ≡ false → any p (keep q xs) ≡ false
  none-keep q [] h = refl
  none-keep q (x ∷ xs) h =
      let (hx, hxs) = or_false (p x) (any p xs) h in
      elim (Bool-cases (q x)) [
        | inl b ↦ rw (b, hx, none-keep q xs hxs)
        | inr b ↦ rw (b, none-keep q xs hxs)
      ]

  none-remove_window :
      (xs : List SyncWindow) (i : ℕ) (ys : List SyncWindow)
      → remove_window xs i ≡ some ys
      → any p xs ≡ false
      → any p ys ≡ false
  none-remove_window [] i ys r h = ground arith
  none-remove_window (x ∷ xs) zero ys r h =
      rw (sym (some-injective xs ys r)) (or_false (p x) (any p xs) h).1
  none-remove_window (x ∷ xs) (suc i) ys r h =
      let (hx, hxs) = or_false (p x) (any p xs) h in
      elim (Option-cases (remove_window xs i)) [
        | inl n ↦ (let c = rw n at r in ground arith)
        | inr (zs, n) ↦
            (let c = rw n at r in
              rw (sym (some-injective (x ∷ zs) ys c), hx, none-remove_window xs i zs n hxs))
      ]

module _ {Schedule : Type 0} (calendar : Calendar Schedule) where
  -- The project had no windows, and calls of `AddWindow` and `DeleteWindow` succeeded.
  pub data Edited : AppProjectSpec → Type 0 where
    unedited : (spec : AppProjectSpec) → spec.sync_windows ≡ [] → Edited spec
    added :
        (spec next : AppProjectSpec) (knd sch dur : Text) (app ns cl : List Text) (ms : Bool)
        (time_zone : Text) (and_operator : Bool) (description : Text)
        → Edited spec
        → add_window calendar spec knd sch dur app ns cl ms time_zone and_operator description
          ≡ some next
        → Edited next
    deleted :
        (spec next : AppProjectSpec) (id : ℤ)
        → Edited spec
        → delete_window spec id ≡ some next
        → Edited next

  is_valid_lem : (w : SyncWindow) → is_valid calendar w ≡ true → is_malformed calendar w ≡ false
  unfolding text_eq
  is_valid_lem w v =
      valid_parts (text_eq w.kind allow_kind || text_eq w.kind deny_kind)
        (is_some (calendar.parse_schedule w.schedule))
        (is_some (calendar.parse_duration w.duration)) (not (ltb 255 (length w.description))) v

  abbrev IsWellFormed : AppProjectSpec → Type 0
  IsWellFormed spec = any (is_malformed calendar) spec.sync_windows ≡ false

  -- A successful call of `AddWindow` or `DeleteWindow` leaves no malformed window behind.
  added-IsWellFormed :
      (spec next : AppProjectSpec) (w : SyncWindow) (missing : Bool)
      → (if missing
          then none
          else if not (validate calendar w).0
          then none
          else some
              (record spec { sync_windows = spec.sync_windows ++ ((validate calendar w).1 ∷ []) }))
        ≡ some next
      → IsWellFormed spec
      → IsWellFormed next
  unfolding validate
  added-IsWellFormed spec next w missing h i =
      let more : AppProjectSpec = record spec {
        sync_windows = spec.sync_windows ++ (known_zone calendar w ∷ []);
      } in
      let invalid = not (is_valid calendar (known_zone calendar w)) in
      let (_, h1) = unless_some missing (if invalid then none else some more) next h in
      let (fine, h2) = unless_some invalid (some more) next h1 in
      subst IsWellFormed (some-injective more next h2) (
        none-append (is_malformed calendar) spec.sync_windows (known_zone calendar w) i (
          is_valid_lem (known_zone calendar w)
            (is_true_of (is_valid calendar (known_zone calendar w)) fine)))

  edited-IsWellFormed : (spec : AppProjectSpec) → Edited spec → IsWellFormed spec
  unfolding add_window delete_window
  edited-IsWellFormed spec (unedited _ e) = rw e
  edited-IsWellFormed _
        (added spec next knd sch dur app ns cl ms time_zone and_operator description r h) =
      added-IsWellFormed spec next
        (new_window knd sch dur app ns cl ms time_zone and_operator description)
        (not (is_given knd) || (not (is_given sch) || not (is_given dur))) h
        (edited-IsWellFormed spec r)
  edited-IsWellFormed _ (deleted spec next (pos id) r h) =
      let ih = edited-IsWellFormed spec r in
      elim (Option-cases (remove_window spec.sync_windows id)) [
        | inl n ↦ (let c = rw n at h in ground arith)
        | inr (windows, n) ↦
            let fewer : AppProjectSpec = record spec { sync_windows = windows } in
            subst IsWellFormed (some-injective fewer next (rw n at h))
              (none-remove_window (is_malformed calendar) spec.sync_windows id windows n ih)
      ]
  edited-IsWellFormed _ (deleted spec next (negsuc n) r h) = ground arith

  -- After any successful calls of `AddWindow` and `DeleteWindow` on a project without windows,
  -- `CanSync` has an answer, and no error, for the windows of every application at every time.
  pub edited-answer :
      (spec : AppProjectSpec) (compile : Compile) (app : Application) (is_manual : Bool) (t u : ℤ)
      → Edited spec
      → (b : Bool) × (can_sync calendar (matches compile app spec.sync_windows) is_manual t u
          ≡ some b)
  edited-answer spec compile app is_manual t u r = (
    decided calendar (keep (applies compile app) spec.sync_windows) is_manual t u,
    can_sync-matches calendar compile app spec.sync_windows is_manual t u
        ∙ rw (
            none-keep (is_malformed calendar) (applies compile app) spec.sync_windows
              (edited-IsWellFormed spec r)),
  )
