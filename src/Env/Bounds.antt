-- ===== src/Env/Bounds.antt =====
-- What is read of a number from the environment.
use argocd_monorepo_controll.Base.{
  ◌+◌, ◌<◌, ◌≡◌, ◌≢◌, inl, inr, false, Text, text_eq_iff, [], Option, none, some, if◌then◌else◌,
  arith, Bool-cases,
}
use argocd_monorepo_controll.Strconv.{
  ℤ, pos, pos_part, neg_part, ◌≤ℤ◌, ltb_ℤ, min_int64, max_int64, parse_int, format_int,
}
use argocd_monorepo_controll.Strconv.RoundTrip.{parse_int-format_int, format_int-not_empty}
use argocd_monorepo_controll.Env.{
  in_bounds, fits_int, getenv, is_empty, parse_num_from_env, parse_int64_from_env,
  parse_duration_from_env,
}

infix 50 ◌<ℤ◌
abbrev pub ◌<ℤ◌ : ℤ → ℤ → Type 0
a <ℤ b = pos_part a + neg_part b < pos_part b + neg_part a

-- What is read from the text of a variable: the number in it, if the text is not empty and the
-- number is allowed, and otherwise the default.
pub data Reads (default_value minimum maximum : ℤ) (text : Text) : Option ℤ → ℤ → Type 0 where
  from_text :
      (num : ℤ)
      → text ≢ []
      → minimum ≤ℤ num
      → num ≤ℤ maximum
      → Reads default_value minimum maximum text (some num) num
  not_set : (o : Option ℤ) → text ≡ [] → Reads default_value minimum maximum text o default_value
  no_number : Reads default_value minimum maximum text none default_value
  too_small :
      (num : ℤ) → num <ℤ minimum → Reads default_value minimum maximum text (some num) default_value
  too_large :
      (num : ℤ) → maximum <ℤ num → Reads default_value minimum maximum text (some num) default_value

in_range-in_bounds : (d lo hi n : ℤ) → lo ≤ℤ n → n ≤ℤ hi → in_bounds d lo hi (some n) ≡ n
in_range-in_bounds d lo hi n h k = ground arith

fits-int64 : (n : ℤ) → min_int64 ≤ℤ n → n ≤ℤ max_int64 → fits_int (some n) ≡ some n
fits-int64 n h k = ground arith

empty_text : (text : Text) → is_empty text ≡ false → text ≢ []
empty_text text e same = (let f = (text_eq_iff text []).1 same in cc)

in_bounds-Reads :
    (d lo hi : ℤ) (text : Text) (o : Option ℤ)
    → is_empty text ≡ false
    → Reads d lo hi text o (in_bounds d lo hi o)
in_bounds-Reads d lo hi text none full = no_number
in_bounds-Reads d lo hi text (some n) full = elim (Bool-cases (ltb_ℤ n lo)) [
  | inl below ↦ rw below (too_small n (ground arith))
  | inr least ↦ elim (Bool-cases (ltb_ℤ hi n)) [
    | inl above ↦ rw (least, above) (too_large n (ground arith))
    | inr most ↦ rw (least, most) (from_text n (empty_text text full) (ground arith) (ground arith))
  ]
]

unless_empty-Reads :
    (d lo hi : ℤ) (text : Text) (o : Option ℤ)
    → Reads d lo hi text o (if is_empty text then d else in_bounds d lo hi o)
unless_empty-Reads d lo hi text o = elim (Bool-cases (is_empty text)) [
  | inl e ↦ rw e (not_set o ((text_eq_iff text []).0 e))
  | inr e ↦ rw e (in_bounds-Reads d lo hi text o e)
]

-- For a maximum greater than 0, a number, an int64 or a duration from the environment is the number
-- in the variable, if it is set and not empty, the number can be read, and it lies between the
-- minimum and the maximum, both included; and in every other case it is the default.
pub parse_from_env-Reads :
    (lookup_env : Text → Option Text) (parse_duration : Text → Option ℤ) (env : Text)
    (default_value minimum maximum : ℤ)
    → pos 0 <ℤ maximum
    → let text = getenv lookup_env env in
      Reads default_value minimum maximum text
        (fits_int (parse_int text))
        (parse_num_from_env lookup_env env default_value minimum maximum)
      × Reads default_value minimum maximum text
          (parse_int text)
          (parse_int64_from_env lookup_env env default_value minimum maximum)
      × Reads default_value minimum maximum text
          (parse_duration text)
          (parse_duration_from_env lookup_env parse_duration env default_value minimum maximum)
unfolding parse_num_from_env parse_int64_from_env parse_duration_from_env
parse_from_env-Reads lookup_env parse_duration env d lo hi h =
    let text = getenv lookup_env env in
    (
      unless_empty-Reads d lo hi text (fits_int (parse_int text)),
      unless_empty-Reads d lo hi text (parse_int text),
      unless_empty-Reads d lo hi text (parse_duration text),
    )

-- A variable that holds the decimal print of an int64 between the bounds gives this number.
pub parse_from_env-format_int :
    (lookup_env : Text → Option Text) (env : Text) (default_value minimum maximum n : ℤ)
    → lookup_env env ≡ some (format_int n)
    → min_int64 ≤ℤ n
    → n ≤ℤ max_int64
    → minimum ≤ℤ n
    → n ≤ℤ maximum
    → (parse_num_from_env lookup_env env default_value minimum maximum ≡ n)
      × (parse_int64_from_env lookup_env env default_value minimum maximum ≡ n)
unfolding parse_num_from_env parse_int64_from_env getenv
parse_from_env-format_int lookup_env env d lo hi n e min max least most =
    let full = format_int-not_empty n in
    let read = parse_int-format_int n min max in
    (
      rw (e, full, read, fits-int64 n min max) (in_range-in_bounds d lo hi n least most),
      rw (e, full, read) (in_range-in_bounds d lo hi n least most),
    )
