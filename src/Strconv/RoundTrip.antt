-- ===== src/Strconv/RoundTrip.antt =====
-- Parsing of what is formatted.
use argocd_monorepo_controll.Base.{
  ℕ, zero, suc, ◌+◌, ◌*◌, ◌/◌, ◌%◌, ◌≤◌, ◌<◌, ◌≡◌, refl, ap, ◌∙◌, if◌then◌else◌, inl, inr, Text,
  text_eq, Bool, true, false, [], ◌∷◌, some, ◌==◌, Bool-cases, arith,
}
use argocd_monorepo_controll.Strconv.{
  ℤ, pos, negsuc, ◌≤ℤ◌, two_64, min_int64, max_int64, scan_digits, parse_uint, signed, parse_int,
  format_digits, format_uint, format_int, parse_bool, format_bool,
}

-- The last digit, read behind the number that the digits before it spell.
scan_last :
    (n : ℕ) (out : Text)
    → n < two_64
    → scan_digits ((b'0' + n % 10) ∷ out) (n / 10) ≡ scan_digits out n
unfolding scan_digits
scan_last n out h = ground arith

-- `10 ^ rounds`.
abbrev power : ℕ → ℕ
power zero = 1
power (suc k) = 10 * power k

scan-format_digits :
    (rounds n : ℕ) (out : Text)
    → n < power rounds
    → n < two_64
    → scan_digits (format_digits rounds n out) 0 ≡ scan_digits out n
unfolding format_digits
scan-format_digits zero n out h fits = ground arith
scan-format_digits (suc rounds) n out h fits = elim (Bool-cases (n == 0)) [
  | inl e ↦ ground arith
  | inr e ↦ rw e (
      scan-format_digits rounds (n / 10) ((b'0' + n % 10) ∷ out) (omega arith) (omega arith)
      ∙ scan_last n out fits)
]

-- The text begins with a digit.
abbrev BeginsDigit : Text → Type 0
BeginsDigit [] = ⊥
BeginsDigit (c ∷ s) = (b'0' ≤ c) × (c ≤ b'9')

format_digits-BeginsDigit :
    (rounds n : ℕ) (out : Text) → BeginsDigit out → BeginsDigit (format_digits rounds n out)
unfolding format_digits
format_digits-BeginsDigit zero n out h = h
format_digits-BeginsDigit (suc rounds) n out h = elim (Bool-cases (n == 0)) [
  | inl e ↦ rw e h
  | inr e ↦
      rw e (
        format_digits-BeginsDigit rounds (n / 10) ((b'0' + n % 10) ∷ out)
          (omega arith, omega arith))
]

format_uint-BeginsDigit : (n : ℕ) → BeginsDigit (format_uint n)
unfolding format_uint format_digits
format_uint-BeginsDigit n = elim (Bool-cases (n == 0)) [
  | inl e ↦ rw e (omega arith, omega arith)
  | inr e ↦
      rw e (format_digits-BeginsDigit 19 (n / 10) ((b'0' + n % 10) ∷ []) (omega arith, omega arith))
]

parse_uint-scan : (s : Text) → BeginsDigit s → parse_uint s ≡ scan_digits s 0
unfolding parse_uint
parse_uint-scan [] h = absurd h
parse_uint-scan (c ∷ s) h = refl

format_uint-digits : (n : ℕ) → (n == 0) ≡ false → format_uint n ≡ format_digits 20 n []
unfolding format_uint
format_uint-digits n e = ap (λ b. if b then b'0' ∷ [] else format_digits 20 n []) e

scan_zero : scan_digits (format_uint 0) 0 ≡ some 0
unfolding scan_digits format_uint
scan_zero = refl

parse_uint-format_uint : (n : ℕ) → n < two_64 → parse_uint (format_uint n) ≡ some n
unfolding scan_digits
parse_uint-format_uint zero h =
    parse_uint-scan (format_uint 0) (format_uint-BeginsDigit 0) ∙ scan_zero
parse_uint-format_uint (suc n) h =
    parse_uint-scan (format_uint (suc n)) (format_uint-BeginsDigit (suc n))
    ∙ ap (λ s. scan_digits s 0) (format_uint-digits (suc n) (ground arith))
    ∙ scan-format_digits 20 (suc n) [] (omega arith) h

parse_int-unsigned : (s : Text) → BeginsDigit s → parse_int s ≡ signed false (parse_uint s)
unfolding parse_int
parse_int-unsigned [] h = absurd h
parse_int-unsigned (c ∷ s) h = ground arith

-- An int64 is read back from its decimal print.
pub parse_int-format_int :
    (z : ℤ) → min_int64 ≤ℤ z → z ≤ℤ max_int64 → parse_int (format_int z) ≡ some z
unfolding format_int parse_int
parse_int-format_int (pos n) lo hi =
    rw
      (
        parse_int-unsigned (format_uint n) (format_uint-BeginsDigit n),
        parse_uint-format_uint n (omega arith),
      )
      (ground arith)
parse_int-format_int (negsuc n) lo hi =
    rw (parse_uint-format_uint (suc n) (omega arith)) (ground arith)

pub parse_bool-format_bool : (b : Bool) → parse_bool (format_bool b) ≡ some b
unfolding parse_bool
parse_bool-format_bool true = refl
parse_bool-format_bool false = refl

begins_not_empty : (s : Text) → BeginsDigit s → text_eq s [] ≡ false
unfolding text_eq
begins_not_empty [] h = absurd h
begins_not_empty (c ∷ s) h = refl

pub format_int-not_empty : (z : ℤ) → text_eq (format_int z) [] ≡ false
unfolding format_int text_eq
format_int-not_empty (pos n) = begins_not_empty (format_uint n) (format_uint-BeginsDigit n)
format_int-not_empty (negsuc n) = refl
