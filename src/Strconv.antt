-- ===== src/Strconv.antt =====
-- Package `strconv` for base 10 and 64 bits: ParseInt, FormatInt, ParseBool and FormatBool.
-- `none` is an error, of syntax or of range.
pub mod RoundTrip
mod Tests
use argocd_monorepo_controll.Base.{
  ℕ, zero, suc, ◌+◌, ◌-◌, ◌*◌, ◌/◌, ◌%◌, ◌≤◌, Text, codes, text_eq, Bool, true, false, ◌&&◌, List,
  [], ◌∷◌, Option, none, some, ◌==◌, ltb, leb, any, if◌then◌else◌,
}

-- Signed integers over the native numbers: `negsuc n` is -(n + 1).
pub data ℤ : Type 0 where
  pos : ℕ → ℤ
  negsuc : ℕ → ℤ

abbrev pub pos_part : ℤ → ℕ
pos_part (pos n) = n
pos_part (negsuc n) = 0

abbrev pub neg_part : ℤ → ℕ
neg_part (pos n) = 0
neg_part (negsuc n) = suc n

abbrev pub ltb_ℤ : ℤ → ℤ → Bool
ltb_ℤ a b = ltb (pos_part a + neg_part b) (pos_part b + neg_part a)

infix 50 ◌≤ℤ◌
abbrev pub ◌≤ℤ◌ : ℤ → ℤ → Type 0
a ≤ℤ b = pos_part a + neg_part b ≤ pos_part b + neg_part a

abbrev pub is_zero : ℤ → Bool
is_zero (pos n) = n == 0
is_zero (negsuc n) = false

-- 2 ^ 63 and 2 ^ 64.
abbrev pub two_63 : ℕ
two_63 = 9223372036854775808

abbrev pub two_64 : ℕ
two_64 = 18446744073709551616

abbrev pub min_int64 : ℤ
min_int64 = negsuc (two_63 - 1)

abbrev pub max_int64 : ℤ
max_int64 = pos (two_63 - 1)

abbrev is_digit : ℕ → Bool
is_digit c = leb b'0' c && leb c b'9'

-- The loop of `ParseUint`. A number from this cutoff on would overflow when multiplied by ten.
abbrev cutoff : ℕ
cutoff = 1844674407370955162

unfoldable pub scan_digits : Text → ℕ → Option ℕ
scan_digits [] n = some n
scan_digits (c ∷ s) n =
    let next = (n * 10 + (c - b'0')) % two_64 in
    let rest = scan_digits s next in
    if is_digit c
    then if leb cutoff n then none else if ltb next (n * 10) then none else rest
    else none

unfoldable pub parse_uint : Text → Option ℕ
unfolding scan_digits
parse_uint [] = none
parse_uint (c ∷ s) = scan_digits (c ∷ s) 0

-- The number with its sign, if it is in the range of an int64.
unfoldable pub signed : Bool → Option ℕ → Option ℤ
signed neg none = none
signed false (some n) = if leb two_63 n then none else some (pos n)
signed true (some zero) = some (pos 0)
signed true (some (suc n)) = if ltb two_63 (suc n) then none else some (negsuc n)

unfoldable pub parse_int : Text → Option ℤ
unfolding parse_uint signed
parse_int [] = none
parse_int (c ∷ s) =
    if c == b'+'
    then signed false (parse_uint s)
    else if c == b'-'
    then signed true (parse_uint s)
    else signed false (parse_uint (c ∷ s))

-- The loop of `formatBits`: a digit for each round. A uint64 has at most 20.
unfoldable pub format_digits : ℕ → ℕ → Text → Text
format_digits zero n out = out
format_digits (suc rounds) n out =
    let more = format_digits rounds (n / 10) ((b'0' + n % 10) ∷ out) in if n == 0 then out else more

unfoldable pub format_uint : ℕ → Text
unfolding format_digits
format_uint n = if n == 0 then b'0' ∷ [] else format_digits 20 n []

unfoldable pub format_int : ℤ → Text
unfolding format_uint
format_int (pos n) = format_uint n
format_int (negsuc n) = b'-' ∷ format_uint (suc n)

abbrev true_words : List Text
true_words = codes "1" ∷ codes "t" ∷ codes "T" ∷ codes "TRUE" ∷ codes "true" ∷ codes "True" ∷ []

abbrev false_words : List Text
false_words = codes "0" ∷ codes "f" ∷ codes "F" ∷ codes "FALSE" ∷ codes "false" ∷ codes "False" ∷ []

unfoldable pub parse_bool : Text → Option Bool
unfolding text_eq
parse_bool s =
    if any (text_eq s) true_words
    then some true
    else if any (text_eq s) false_words
    then some false
    else none

abbrev pub format_bool : Bool → Text
format_bool true = codes "true"
format_bool false = codes "false"
