-- ===== src/Paths/Glob.antt =====
-- `filepath.Match` on Unix. Texts are bytes; `?` and a class match a rune of UTF-8.
-- `none` is ErrBadPattern. The fuel is the length of the pattern, of which each round takes a byte.
pub mod Enough
use argocd_monorepo_controll.Base.{
  ℕ, zero, suc, Text, Bool, true, false, not, ◌&&◌, ◌||◌, [], ◌∷◌, Option, none, some, length,
  take_rune, rune_value, ◌==◌, leb, if◌then◌else◌,
}
use argocd_monorepo_controll.Paths.FilePath.{slash, has_slash}

infixl 5 ◌>>=◌
abbrev ◌>>=◌ {ℓ κ} : {A : Type ℓ} {B : Type κ} → Option A → (A → Option B) → Option B
none >>= k = none
some a >>= k = k a

-- `scanChunk`: whether the pattern begins with stars, the text up to the next one, and the rest.
pub strip_stars : Text → Text
strip_stars [] = []
strip_stars (c ∷ s) = if c == b'*' then strip_stars s else c ∷ s

begins_star : Text → Bool
begins_star [] = false
begins_star (c ∷ s) = c == b'*'

abbrev cons_chunk : ℕ → Text × Text → Text × Text
cons_chunk c (chunk, rest) = (c ∷ chunk, rest)

pub scan_from : Bool → Text → Text × Text
scan_from in_range [] = ([], [])
scan_from in_range (c ∷ []) = if c == b'*' && not in_range then ([], c ∷ []) else (c ∷ [], [])
scan_from in_range (c ∷ d ∷ s) =
    let escaped = cons_chunk c (cons_chunk d (scan_from in_range s)) in
    let opened = cons_chunk c (scan_from true (d ∷ s)) in
    let closed = cons_chunk c (scan_from false (d ∷ s)) in
    let plain = cons_chunk c (scan_from in_range (d ∷ s)) in
    if c == 92
    then escaped
    else if c == b'['
    then opened
    else if c == b']'
    then closed
    else if c == b'*' && not in_range
    then ([], c ∷ d ∷ s)
    else plain

abbrev rest_of : Text → Text
rest_of [] = []
rest_of (c ∷ s) = s

-- `utf8.DecodeRuneInString`: a byte that begins no rune stands for U+FFFD.
abbrev decoded : Option (Text × Text) → Text → ℕ × Text
decoded none s = (0xfffd, rest_of s)
decoded (some (bytes, rest)) s = (rune_value bytes, rest)

decode_rune : Text → ℕ × Text
unfolding take_rune rune_value
decode_rune s = decoded (take_rune s) s

abbrev needs_more : Text → Text → Option (ℕ × Text)
needs_more bytes [] = none
needs_more bytes (c ∷ s) = some (rune_value bytes, c ∷ s)

-- `getEsc`: one possibly escaped rune of a class; something must follow it.
unescaped : Text → Option (ℕ × Text)
unfolding take_rune rune_value
unescaped s = do (bytes, rest) ← take_rune s; needs_more bytes rest

get_esc : Text → Option (ℕ × Text)
unfolding unescaped
get_esc [] = none
get_esc (c ∷ s) =
    if c == b'-' || c == b']' then none else if c == 92 then unescaped s else unescaped (c ∷ s)

-- The upper end of a range, after its lower end.
range_end : ℕ → Text → Option (ℕ × Text)
unfolding get_esc
range_end lo [] = some (lo, [])
range_end lo (c ∷ s) = if c == b'-' then get_esc s else some (lo, c ∷ s)

-- The ranges of a class; `some_range` is `nrange > 0`.
ranges : ℕ → Bool → Bool → ℕ → Text → Option (Bool × Text)
unfolding get_esc range_end
ranges zero some_range matched r chunk = none
ranges (suc fuel) some_range matched r chunk =
    let more = (do
      (lo, after_lo) ← get_esc chunk
      (hi, rest) ← range_end lo after_lo
      ranges fuel true (matched || (leb lo r && leb r hi)) r rest) in
    elim chunk [ [] ↦ more | c ∷ s ↦ if c == b']' && some_range then some (matched, s) else more ]

abbrev first_or_zero : Text → ℕ
first_or_zero [] = 0
first_or_zero (c ∷ s) = c

abbrev is_empty : Text → Bool
is_empty [] = true
is_empty (c ∷ s) = false

abbrev bool_eq : Bool → Bool → Bool
bool_eq true b = b
bool_eq false b = not b

class : Bool → ℕ → Text → Option (Bool × Text)
unfolding ranges
class negated r chunk = do
  (matched, rest) ← ranges (suc (length chunk)) false false r chunk
  some (bool_eq matched negated, rest)

-- Whether the class, behind its "[", fails at `r`, and the chunk behind it.
pub open_class : ℕ → Text → Option (Bool × Text)
unfolding class
open_class r [] = class false r []
open_class r (c ∷ chunk) = if c == b'^' then class true r chunk else class false r (c ∷ chunk)

-- `matchChunk`: the name behind the chunk, `some none` where it does not match. Once it has failed
-- the chunk is only read for its form.
match_chunk : ℕ → Bool → Text → Text → Option (Option Text)
unfolding open_class decode_rune
match_chunk zero failed chunk s = none
match_chunk (suc fuel) failed [] s = some (if failed then none else some s)
match_chunk (suc fuel) was_failed (c ∷ chunk) s =
    let failed = was_failed || is_empty s in
    let in_class = (do
      (fails, rest) ← open_class (decode_rune s).0 chunk
      match_chunk fuel (failed || fails) rest (decode_rune s).1) in
    let any_one = match_chunk fuel (failed || first_or_zero s == slash) chunk (decode_rune s).1 in
    let escaped : Option (Option Text) = elim chunk [
      | [] ↦ none
      | d ∷ rest ↦ match_chunk fuel (failed || not (d == first_or_zero s)) rest (rest_of s)
    ] in
    let plain = match_chunk fuel (failed || not (c == first_or_zero s)) chunk (rest_of s) in
    if c == b'['
    then in_class
    else if c == b'?'
    then any_one
    else if c == 92
    then escaped
    else plain

abbrev whole_chunk : Text → Text → Option (Option Text)
whole_chunk chunk s = match_chunk (suc (length chunk)) false chunk s

-- What is left of the name after the chunk, where the last chunk has to reach the end of the name.
accept : Bool → Option Text → Option Text
accept is_last none = none
accept is_last (some t) = if is_empty t || not is_last then some t else none

-- The loop behind a star: the chunk at each later position, with no slash skipped.
skip : Text → Bool → Text → Option (Option Text)
unfolding match_chunk accept
skip chunk is_last [] = some none
skip chunk is_last (c ∷ name) =
    let next = skip chunk is_last name in
    let here = (do
      found ← whole_chunk chunk name
      elim (accept is_last found) [ some t ↦ some (some t) | none ↦ next ]) in
    if c == slash then some none else here

-- A round of `Match` for a pattern that is not empty, with what `Match` gives for the rest of it.
match_round : (Text → Option Bool) → Text → Bool → Bool → Text → Option Bool
unfolding match_chunk accept skip has_slash
match_round match_rest chunk star is_last name =
    let skipped = (do
      found ← skip chunk is_last name
      elim found [ some t ↦ match_rest t | none ↦ some false ]) in
    let by_chunk = (do
      found ← whole_chunk chunk name
      elim (accept is_last found) [
        | some t ↦ match_rest t
        | none ↦ if star then skipped else some false
      ]) in
    if star && is_empty chunk then some (not (has_slash name)) else by_chunk

pub match_from : ℕ → Text → Text → Option Bool
unfolding scan_from strip_stars begins_star match_round
match_from zero pattern name = none
match_from (suc fuel) [] name = some (is_empty name)
match_from (suc fuel) (p ∷ ps) name =
    let (chunk, rest) = scan_from false (strip_stars (p ∷ ps)) in
    match_round (match_from fuel rest) chunk (begins_star (p ∷ ps)) (is_empty rest) name

unfoldable pub match : Text → Text → Option Bool
unfolding match_from
match pattern name = match_from (suc (length pattern)) pattern name
