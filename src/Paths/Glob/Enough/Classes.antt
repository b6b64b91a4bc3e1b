-- ===== src/Paths/Glob/Enough/Classes.antt =====
-- What the readers of classes in a pattern leave of it, and their fuel.
use argocd_monorepo_controll.Base.{
  ℕ, zero, suc, ◌≤◌, ◌<◌, ◌≡◌, refl, ap, ◌∙◌, length-append, take_rune, take_rune-Splits,
  take_rune-given, inl, inr, Text, Bool, true, false, ◌&&◌, ◌||◌, [], ◌∷◌, some, length, ◌==◌, leb,
  Bool-cases, Option-cases, arith,
}
use argocd_monorepo_controll.Paths.Glob.{
  needs_more, unescaped, get_esc, range_end, ranges, class, open_class,
}

needs_more-eq :
    (bytes left : Text) (c : ℕ) (rest : Text)
    → needs_more bytes left ≡ some (c, rest)
    → length left ≡ length rest
needs_more-eq bytes [] c rest e = cc
needs_more-eq bytes (d ∷ s) c rest e = let same : d ∷ s ≡ rest = cc in ap length same

-- What a reader leaves is shorter than what it had.
unescaped-lt :
    (s : Text) (c : ℕ) (rest : Text) → unescaped s ≡ some (c, rest) → length rest < length s
unfolding unescaped
unescaped-lt s c rest e = elim (Option-cases (take_rune s)) [
  | inl n ↦ (let f = rw n at e in cc)
  | inr ((bytes, left), n) ↦
      let shorter = ap length (take_rune-Splits s bytes left n).0 ∙ length-append bytes left in
      let given = take_rune-given s bytes left n in
      omega (arith, needs_more-eq bytes left c rest (rw n at e))
]

get_esc-lt : (s : Text) (c : ℕ) (rest : Text) → get_esc s ≡ some (c, rest) → length rest < length s
unfolding get_esc
get_esc-lt [] c rest e = cc
get_esc-lt (a ∷ s) c rest e = elim (Bool-cases (a == b'-' || a == b']')) [
  | inl b ↦ (let h = rw b at e in cc)
  | inr b ↦ elim (Bool-cases (a == 92)) [
    | inl d ↦ (let h = unescaped-lt s c rest (rw (b, d) at e) in omega arith)
    | inr d ↦ unescaped-lt (a ∷ s) c rest (rw (b, d) at e)
  ]
]

range_end-le :
    (lo : ℕ) (s : Text) (hi : ℕ) (rest : Text)
    → range_end lo s ≡ some (hi, rest)
    → length rest ≤ length s
unfolding range_end
range_end-le lo [] hi rest e = (let same : [] ≡ rest = cc in rw (← same) (omega arith))
range_end-le lo (c ∷ s) hi rest e = elim (Bool-cases (c == b'-')) [
  | inl b ↦ (let h = get_esc-lt s hi rest (rw b at e) in omega arith)
  | inr b ↦ let same : c ∷ s ≡ rest = (let h = rw b at e in cc) in rw (← same) (omega arith)
]

-- Two bounds on the rounds that are both above the length give the same.
abbrev SameRanges : ℕ → ℕ → Type 0
SameRanges n m =
    (some_range matched : Bool) (r : ℕ) (chunk : Text)
    → length chunk < n
    → length chunk < m
    → ranges n some_range matched r chunk ≡ ranges m some_range matched r chunk

ranges-same : (n m : ℕ) → SameRanges n m
unfolding ranges
ranges-same zero m some_range matched r chunk h k = absurd (omega arith)
ranges-same (suc n) zero some_range matched r chunk h k = absurd (omega arith)
ranges-same (suc n) (suc m) some_range matched r [] h k = refl
ranges-same (suc n) (suc m) some_range matched r (c ∷ chunk) h k =
    elim (Option-cases (get_esc (c ∷ chunk))) [
      | inl e ↦ rw e
      | inr ((lo, after_lo), e) ↦ elim (Option-cases (range_end lo after_lo)) [
        | inl f ↦ rw (e, f)
        | inr ((hi, rest), f) ↦
            let p = get_esc-lt (c ∷ chunk) lo after_lo e in
            let q = range_end-le lo after_lo hi rest f in
            rw (
              e,
              f,
              ranges-same n m true (matched || (leb lo r && leb r hi)) r rest (omega arith)
                  (omega arith),
            )
      ]
    ]

ranges-le :
    (n : ℕ) (some_range matched : Bool) (r : ℕ) (chunk : Text) (b : Bool) (rest : Text)
    → ranges n some_range matched r chunk ≡ some (b, rest)
    → length rest ≤ length chunk
unfolding ranges
ranges-le zero some_range matched r chunk b rest e = cc
ranges-le (suc n) some_range matched r [] b rest e = cc
ranges-le (suc n) some_range matched r (c ∷ chunk) b rest e =
    elim (Bool-cases (c == b']' && some_range)) [
      | inl h ↦ let same : chunk ≡ rest = (let f = rw h at e in cc) in rw (← same) (omega arith)
      | inr h ↦ elim (Option-cases (get_esc (c ∷ chunk))) [
        | inl g ↦ (let f = rw (h, g) at e in cc)
        | inr ((lo, after_lo), g) ↦ elim (Option-cases (range_end lo after_lo)) [
          | inl k ↦ (let f = rw (h, g, k) at e in cc)
          | inr ((hi, left), k) ↦
              let p = get_esc-lt (c ∷ chunk) lo after_lo g in
              let q = range_end-le lo after_lo hi left k in
              let f =
                ranges-le n true (matched || (leb lo r && leb r hi)) r left b rest
                  (rw (h, g, k) at e) in
              omega arith
        ]
      ]
    ]

class-le :
    (negated : Bool) (r : ℕ) (chunk : Text) (b : Bool) (rest : Text)
    → class negated r chunk ≡ some (b, rest)
    → length rest ≤ length chunk
unfolding class
class-le negated r chunk b rest e =
    elim (Option-cases (ranges (suc (length chunk)) false false r chunk)) [
      | inl h ↦ (let f = rw h at e in cc)
      | inr ((matched, left), h) ↦
          let p = ranges-le (suc (length chunk)) false false r chunk matched left h in
          let same : left ≡ rest = (let f = rw h at e in cc) in rw (← same) p
    ]

pub open_class-le :
    (r : ℕ) (chunk : Text) (b : Bool) (rest : Text)
    → open_class r chunk ≡ some (b, rest)
    → length rest ≤ length chunk
unfolding open_class
open_class-le r [] b rest e = class-le false r [] b rest e
open_class-le r (c ∷ chunk) b rest e = elim (Bool-cases (c == b'^')) [
  | inl h ↦ (let f = class-le true r chunk b rest (rw h at e) in omega arith)
  | inr h ↦ class-le false r (c ∷ chunk) b rest (rw h at e)
]
