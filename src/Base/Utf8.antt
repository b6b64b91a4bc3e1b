-- ===== src/Base/Utf8.antt =====
-- UTF-8 as package `unicode/utf8` reads it, on lists of bytes.
use Prim.Native.Nat.{ℕ, zero, suc, ◌+◌, ◌-◌, ◌*◌, ◌≤◌}
use mathlib.Core.Path.{◌≡◌, refl, ap}
use mathlib.Core.Logic.{inl, inr}
use mathlib.Core.Bool.{Bool, true, false, ◌&&◌}
use mathlib.Core.List.{[], ◌∷◌, ◌++◌}
use mathlib.Core.Option.{Option, none, some}
use native.Mathlib.Omega.{arith}
use argocd_monorepo_controll.Base.Strings.{Text}
use argocd_monorepo_controll.Base.Lists.{all, length}
use argocd_monorepo_controll.Base.Tests.{ltb, leb, ◌==◌, if◌then◌else◌, Bool-cases, Option-cases}

-- The bytes that continue a rune: so many, the first of them from one byte to another.
take_tail : ℕ → ℕ → ℕ → Text → Option (Text × Text)
take_tail zero lo hi s = some ([], s)
take_tail (suc n) lo hi [] = none
take_tail (suc n) lo hi (c ∷ s) =
    let more = take_tail n 0x80 0xbf s in
    if leb lo c && leb c hi
    then elim more [ none ↦ none | some (t, rest) ↦ some (c ∷ t, rest) ]
    else none

-- By the first byte of a rune of several bytes: how many follow, and the range of the next.
lead : ℕ → Option (ℕ × ℕ × ℕ)
lead c =
    if ltb c 0xc2
    then none
    else if ltb c 0xe0
    then some (1, 0x80, 0xbf)
    else if c == 0xe0
    then some (2, 0xa0, 0xbf)
    else if c == 0xed
    then some (2, 0x80, 0x9f)
    else if ltb c 0xf0
    then some (2, 0x80, 0xbf)
    else if c == 0xf0
    then some (3, 0x90, 0xbf)
    else if ltb c 0xf4
    then some (3, 0x80, 0xbf)
    else if c == 0xf4
    then some (3, 0x80, 0x8f)
    else none

abbrev tail_of : Option (ℕ × ℕ × ℕ) → Text → Option (Text × Text)
tail_of none s = none
tail_of (some (n, lo, hi)) s = take_tail n lo hi s

abbrev behind : ℕ → Option (Text × Text) → Option (Text × Text)
behind c none = none
behind c (some (t, rest)) = some (c ∷ t, rest)

-- The bytes of the first rune, and the text behind it; `none` where it is not well-formed.
unfoldable pub take_rune : Text → Option (Text × Text)
unfolding take_tail lead
take_rune [] = none
take_rune (c ∷ s) = if ltb c 0x80 then some (c ∷ [], s) else behind c (tail_of (lead c) s)

-- The number of a rune that is well-formed.
unfoldable pub rune_value : Text → ℕ
rune_value (a ∷ []) = a
rune_value (a ∷ b ∷ []) = (a - 0xc0) * 64 + (b - 0x80)
rune_value (a ∷ b ∷ c ∷ []) = (a - 0xe0) * 4096 + (b - 0x80) * 64 + (c - 0x80)
rune_value (a ∷ b ∷ c ∷ d ∷ []) =
    (a - 0xf0) * 262144 + (b - 0x80) * 4096 + (c - 0x80) * 64 + (d - 0x80)
rune_value _ = 0

-- `utf8.ValidString`: the text is a sequence of runes.
pub data IsUtf8 : Text → Type 0 where
  no_runes : IsUtf8 []
  rune : (s bytes rest : Text) → take_rune s ≡ some (bytes, rest) → IsUtf8 rest → IsUtf8 s

-- A part of a text that is read in the same way in front of any other.
abbrev pub Splits : (Text → Option (Text × Text)) → Text → Text → Text → Type 0
Splits read s t rest = (s ≡ t ++ rest) × ((r : Text) → read (t ++ r) ≡ some (t, r))

take_tail-Splits :
    (n lo hi : ℕ) (s t rest : Text)
    → take_tail n lo hi s ≡ some (t, rest)
    → Splits (take_tail n lo hi) s t rest
unfolding take_tail
take_tail-Splits zero lo hi s t rest e =
    let nothing : [] ≡ t = cc in
    let same : s ≡ rest = cc in rw (← nothing, same) (refl, (λ r. refl))
take_tail-Splits (suc n) lo hi [] t rest e = cc
take_tail-Splits (suc n) lo hi (c ∷ s) t rest e = elim (Bool-cases (leb lo c && leb c hi)) [
  | inr b ↦ (let f = rw b at e in cc)
  | inl b ↦ elim (Option-cases (take_tail n 0x80 0xbf s)) [
    | inl m ↦ (let f = rw (b, m) at e in cc)
    | inr ((u, left), m) ↦
        let f = rw (b, m) at e in
        let whole : c ∷ u ≡ t = cc in
        let same : left ≡ rest = cc in
        let (split, again) = take_tail-Splits n 0x80 0xbf s u left m in
        rw (← whole, ← same) (ap (λ x. c ∷ x) split, (λ r. rw (b, again r)))
  ]
]

tail_of-Splits :
    (o : Option (ℕ × ℕ × ℕ)) (s t rest : Text)
    → tail_of o s ≡ some (t, rest)
    → Splits (tail_of o) s t rest
tail_of-Splits none s t rest e = cc
tail_of-Splits (some (n, lo, hi)) s t rest e = take_tail-Splits n lo hi s t rest e

pub take_rune-Splits : (s t rest : Text) → take_rune s ≡ some (t, rest) → Splits take_rune s t rest
unfolding take_rune
take_rune-Splits [] t rest e = cc
take_rune-Splits (c ∷ s) t rest e = elim (Bool-cases (ltb c 0x80)) [
  | inl b ↦
      let f = rw b at e in
      let whole : c ∷ [] ≡ t = cc in
      let same : s ≡ rest = cc in rw (← whole, ← same) (refl, (λ r. rw b))
  | inr b ↦ elim (Option-cases (tail_of (lead c) s)) [
    | inl m ↦ (let f = rw (b, m) at e in cc)
    | inr ((u, left), m) ↦
        let f = rw (b, m) at e in
        let whole : c ∷ u ≡ t = cc in
        let same : left ≡ rest = cc in
        let (split, again) = tail_of-Splits (lead c) s u left m in
        rw (← whole, ← same) (ap (λ x. c ∷ x) split, (λ r. rw (b, again r)))
  ]
]

-- A rune has a byte.
pub take_rune-given : (s t rest : Text) → take_rune s ≡ some (t, rest) → 1 ≤ length t
unfolding take_rune
take_rune-given [] t rest e = cc
take_rune-given (c ∷ s) t rest e = elim (Bool-cases (ltb c 0x80)) [
  | inl b ↦ (let f = rw b at e in let whole : c ∷ [] ≡ t = cc in rw (← whole) (omega arith))
  | inr b ↦ elim (Option-cases (tail_of (lead c) s)) [
    | inl m ↦ (let f = rw (b, m) at e in cc)
    | inr ((u, left), m) ↦
        let f = rw (b, m) at e in let whole : c ∷ u ≡ t = cc in rw (← whole) (omega arith)
  ]
]

both_true : (a b : Bool) → a && b ≡ true → (a ≡ true) × (b ≡ true)
both_true true b h = (refl, h)
both_true false b h = absurd (ground arith)

-- ASCII is UTF-8.
pub ascii-IsUtf8 : (s : Text) → all (λ c. ltb c 0x80) s ≡ true → IsUtf8 s
unfolding take_rune
ascii-IsUtf8 [] h = no_runes
ascii-IsUtf8 (c ∷ s) h =
    let (low, rest) = both_true (ltb c 0x80) (all (λ d. ltb d 0x80) s) h in
    rune (c ∷ s) (c ∷ []) s (rw low) (ascii-IsUtf8 s rest)
