-- ===== src/Paths/Glob/Enough.antt =====
-- The fuel of Match.
mod Chunks
mod Classes
use argocd_monorepo_controll.Base.{
  ℕ, zero, suc, ◌≤◌, ◌<◌, ◌≡◌, refl, ap, fun_ext, inl, inr, Text, Bool, true, false, not, ◌&&◌,
  ◌||◌, [], ◌∷◌, some, length, ◌==◌, leb, Bool-cases, Option-cases, arith,
}
use argocd_monorepo_controll.Paths.Glob.{
  decode_rune, strip_stars, begins_star, scan_from, unescaped, get_esc, range_end, ranges, class,
  open_class, match_chunk, is_empty, first_or_zero, rest_of, match_round, match_from, match, slash,
}
use argocd_monorepo_controll.Paths.Glob.Enough.Classes.{open_class-le}
use argocd_monorepo_controll.Paths.Glob.Enough.Chunks.{behind_stars}

abbrev SameChunk : ℕ → ℕ → Type 0
SameChunk n m =
    (failed : Bool) (chunk s : Text)
    → length chunk < n
    → length chunk < m
    → match_chunk n failed chunk s ≡ match_chunk m failed chunk s

-- Both rounds read the same and go on with the same.
class_round :
    (n m : ℕ) (was_failed : Bool) (c : ℕ) (chunk s : Text)
    → SameChunk n m
    → length chunk < n
    → length chunk < m
    → (c == b'[') ≡ true
    → match_chunk (suc n) was_failed (c ∷ chunk) s ≡ match_chunk (suc m) was_failed (c ∷ chunk) s
unfolding match_chunk
class_round n m was_failed c chunk s same h k opens =
    elim (Option-cases (open_class (decode_rune s).0 chunk)) [
      | inl e ↦ rw (opens, e)
      | inr ((fails, rest), e) ↦
          let p = open_class-le (decode_rune s).0 chunk fails rest e in
          rw (
            opens,
            e,
            same ((was_failed || is_empty s) || fails) rest (decode_rune s).1 (omega arith)
                (omega arith),
          )
    ]

escape_round :
    (n m : ℕ) (was_failed : Bool) (c : ℕ) (chunk s : Text)
    → SameChunk n m
    → length chunk < n
    → length chunk < m
    → (c == b'[') ≡ false
    → (c == b'?') ≡ false
    → (c == 92) ≡ true
    → match_chunk (suc n) was_failed (c ∷ chunk) s ≡ match_chunk (suc m) was_failed (c ∷ chunk) s
unfolding match_chunk
escape_round n m was_failed c [] s same h k a b e = rw (a, b, e)
escape_round n m was_failed c (d ∷ rest) s same h k a b e = rw (
  a,
  b,
  e,
  same ((was_failed || is_empty s) || not (d == first_or_zero s)) rest (rest_of s) (omega arith)
      (omega arith),
)

match_chunk-same : (n m : ℕ) → SameChunk n m
unfolding match_chunk
match_chunk-same zero m failed chunk s h k = absurd (omega arith)
match_chunk-same (suc n) zero failed chunk s h k = absurd (omega arith)
match_chunk-same (suc n) (suc m) failed [] s h k = refl
match_chunk-same (suc n) (suc m) was_failed (c ∷ chunk) s h k =
    let same = match_chunk-same n m in
    let failed = was_failed || is_empty s in
    elim (Bool-cases (c == b'[')) [
      | inl a ↦ class_round n m was_failed c chunk s same (omega arith) (omega arith) a
      | inr a ↦ elim (Bool-cases (c == b'?')) [
        | inl b ↦ rw (
          a,
          b,
          same (failed || first_or_zero s == slash) chunk (decode_rune s).1 (omega arith)
              (omega arith),
        )
        | inr b ↦ elim (Bool-cases (c == 92)) [
          | inl e ↦ escape_round n m was_failed c chunk s same (omega arith) (omega arith) a b e
          | inr e ↦ rw (
            a,
            b,
            e,
            same (failed || not (c == first_or_zero s)) chunk (rest_of s) (omega arith)
                (omega arith),
          )
        ]
      ]
    ]

abbrev SameMatch : ℕ → ℕ → Type 0
SameMatch n m =
    (pattern name : Text)
    → length pattern < n
    → length pattern < m
    → match_from n pattern name ≡ match_from m pattern name

match_from-same : (n m : ℕ) → SameMatch n m
unfolding match_from
match_from-same zero m pattern name h k = absurd (omega arith)
match_from-same (suc n) zero pattern name h k = absurd (omega arith)
match_from-same (suc n) (suc m) [] name h k = refl
match_from-same (suc n) (suc m) (p ∷ ps) name h k =
    let chunk = (scan_from false (strip_stars (p ∷ ps))).0 in
    let rest = (scan_from false (strip_stars (p ∷ ps))).1 in
    let l = behind_stars p ps in
    ap (λ match_rest. match_round match_rest chunk (begins_star (p ∷ ps)) (is_empty rest) name)
      (fun_ext (λ t. match_from-same n m rest t (omega arith) (omega arith)))

-- The fuel that Match begins with is enough.
pub match_from-match :
    (rounds : ℕ) (pattern name : Text)
    → length pattern < rounds
    → match_from rounds pattern name ≡ match pattern name
unfolding match
match_from-match rounds pattern name h =
    match_from-same rounds (suc (length pattern)) pattern name h (omega arith)
