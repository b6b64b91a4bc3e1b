-- ===== src/Projects/Windows.antt =====
-- The sync windows of a project: which are open, and CanSync, of
-- pkg/apis/application/v1alpha1/types.go.
-- `none` is an error; its message is left out. A nil list of windows and an empty one are the same
-- here, as HasWindows has it. A time is the count of nanoseconds since the epoch, and a duration
-- an int64. Within one call the clock stands still: `now` is what it says.
pub mod Matching
pub mod Edits
pub mod Policy
use argocd_monorepo_controll.Base.{
  ℕ, zero, suc, ◌+◌, ◌-◌, ◌*◌, ◌%◌, Text, codes, text_eq, Bool, true, false, not, ◌&&◌, ◌||◌, List,
  [], ◌∷◌, ◌++◌, Option, none, some, any, is_some, ltb, leb, length, if◌then◌else◌,
}
use argocd_monorepo_controll.Strconv.{ℤ, pos, negsuc, pos_part, neg_part, ltb_ℤ, two_63, two_64}
use argocd_monorepo_controll.App.{Application}
use argocd_monorepo_controll.Projects.{SyncWindow, AppProjectSpec, Compile, glob_match, is_given}

infix 50 ◌⊖◌
abbrev ◌⊖◌ : ℕ → ℕ → ℤ
a ⊖ b = if leb b a then pos (a - b) else negsuc (b - a - 1)

infixl 60 ◌+ℤ◌
abbrev pub ◌+ℤ◌ : ℤ → ℤ → ℤ
a +ℤ b = (pos_part a + pos_part b) ⊖ (neg_part a + neg_part b)

abbrev pub negated : ℤ → ℤ
negated a = neg_part a ⊖ pos_part a

abbrev residue : ℤ → ℕ
residue (pos n) = n % two_64
residue (negsuc n) = two_64 - 1 - n % two_64

-- The int64 that a number wraps around to.
abbrev pub wrap_int64 : ℤ → ℤ
wrap_int64 a = if ltb (residue a) two_63 then pos (residue a) else negsuc (two_64 - 1 - residue a)

-- The parser of schedules of robfig/cron for five fields, with the first time of a schedule after
-- another; `time.ParseDuration`, in nanoseconds; and of the time zones, which the tables of
-- package `time` name, the seconds east of UTC at a time.
pub record Calendar (Schedule : Type 0) : Type 0 where
  pub parse_schedule : Text → Option Schedule
  pub next : Schedule → ℤ → ℤ
  pub parse_duration : Text → Option ℤ
  pub load_location : Text → Option (ℤ → ℤ)

infixl 5 ◌>>=◌
abbrev pub ◌>>=◌ {ℓ κ} : {A : Type ℓ} {B : Type κ} → Option A → (A → Option B) → Option B
none >>= k = none
some a >>= k = k a

abbrev pub has_entries : List Text → Bool
has_entries [] = false
has_entries (a ∷ entries) = true

abbrev pub has_windows : List SyncWindow → Bool
has_windows [] = false
has_windows (w ∷ windows) = true

abbrev pub allow_kind : Text
allow_kind = codes "allow"

abbrev pub deny_kind : Text
deny_kind = codes "deny"

-- The loop of `hasDeny`, with `denyFound` and `manualEnabled`.
unfoldable pub deny_loop : List SyncWindow → Bool → Bool → Bool × Bool
unfolding text_eq
deny_loop [] deny_found manual = (deny_found, manual)
deny_loop (a ∷ windows) deny_found manual =
    let denied =
      deny_loop windows true
        (if not deny_found then a.manual_sync else if manual then a.manual_sync else manual) in
    let kept = deny_loop windows deny_found manual in
    if text_eq a.kind deny_kind then denied else kept

unfoldable pub has_deny : List SyncWindow → Bool × Bool
unfolding deny_loop
has_deny windows =
    if not (has_windows windows) then (false, false) else deny_loop windows false false

unfoldable pub has_allow : List SyncWindow → Bool
unfolding text_eq
has_allow windows = any (λ a. text_eq a.kind allow_kind) windows

abbrev pub manual_loop : List SyncWindow → Bool
manual_loop [] = true
manual_loop (s ∷ windows) = if not s.manual_sync then false else manual_loop windows

unfoldable pub manual_enabled : List SyncWindow → Bool
manual_enabled windows = if not (has_windows windows) then false else manual_loop windows

module _ {Schedule : Type 0} (calendar : Calendar Schedule) where
  abbrev offset_of : Option (ℤ → ℤ) → ℤ → ℤ
  offset_of none now = pos 0
  offset_of (some zone) now = zone now

  abbrev billion : ℕ
  billion = 1000000000

  unfoldable pub schedule_offset_by_time_zone : SyncWindow → ℤ → ℤ
  schedule_offset_by_time_zone w now =
      let seconds = offset_of (calendar.load_location w.time_zone) now in
      wrap_int64 ((pos_part seconds * billion) ⊖ (neg_part seconds * billion))

  -- `nextWindow.Before(currentTime.Add(timeZoneOffsetDuration))`.
  unfoldable pub is_open : SyncWindow → Schedule → ℤ → ℤ → Bool
  unfolding schedule_offset_by_time_zone
  is_open w schedule duration now =
      let offset = schedule_offset_by_time_zone w now in
      ltb_ℤ (calendar.next schedule (now +ℤ wrap_int64 (offset +ℤ negated duration)))
        (now +ℤ offset)

  unfoldable pub window_active : SyncWindow → ℤ → Option Bool
  unfolding is_open
  window_active w now = do
    schedule ← calendar.parse_schedule w.schedule
    duration ← calendar.parse_duration w.duration
    some (is_open w schedule duration now)

  unfoldable pub active : List SyncWindow → ℤ → Option (List SyncWindow)
  unfolding is_open
  active [] now = some []
  active (w ∷ windows) now = do
    schedule ← calendar.parse_schedule w.schedule
    duration ← calendar.parse_duration w.duration
    rest ← active windows now
    some (if is_open w schedule duration now then w ∷ rest else rest)

  unfoldable pub inactive_allows : List SyncWindow → ℤ → Option (List SyncWindow)
  unfolding is_open text_eq
  inactive_allows [] now = some []
  inactive_allows (w ∷ windows) now =
      let others = inactive_allows windows now in
      let this = (do
        schedule ← calendar.parse_schedule w.schedule
        duration ← calendar.parse_duration w.duration
        rest ← others
        some (if not (is_open w schedule duration now) then w ∷ rest else rest)) in
      if not (text_eq w.kind allow_kind) then others else this

  -- The clock says `t` when `Active` reads it, and `u` when `InactiveAllows` does.
  unfoldable pub can_sync : List SyncWindow → Bool → ℤ → ℤ → Option Bool
  unfolding active inactive_allows has_deny has_allow manual_enabled
  can_sync windows is_manual t u = if not (has_windows windows) then some true else do
    active_windows ← active windows t
    (let denied = has_deny active_windows in
        if denied.0
        then some (if is_manual && denied.1 then true else false)
        else if has_allow active_windows
        then some true
        else do
          inactive ← inactive_allows windows u
          some (
              if has_windows inactive
              then if is_manual && manual_enabled inactive then true else false
              else true))
