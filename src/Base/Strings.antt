-- ===== src/Base/Strings.antt =====
-- Go strings as lists of bytes, with the functions of package `strings` that the program calls.
use Prim.Native.Nat.{ℕ}
use Prim.Native.Char.{code}
use Prim.Native.String.{String}
use mathlib.Core.Path.{◌≡◌, refl}
use mathlib.Core.Logic.{◌↔◌, inl, inr}
use mathlib.Core.Bool.{Bool, true, false, ◌&&◌, ◌||◌}
use mathlib.Core.List.{
  List, [], ◌∷◌, ◌++◌, reverse, reverse_aux, reverse_aux-eq, reverse-append, reverse-reverse,
}
use native.Mathlib.Omega.{arith}
use argocd_monorepo_controll.Base.Tests.{Bool-cases, ◌==◌, leb, if◌then◌else◌}
use argocd_monorepo_controll.Base.Lists.{All}

abbrev pub Text : Type 0
Text = List ℕ

-- The bytes of an ASCII literal.
abbrev pub codes : String → Text
codes String.[] = []
codes (String.◌∷◌ c s) = code c ∷ codes s

-- `==` of strings.
unfoldable pub text_eq : Text → Text → Bool
text_eq [] [] = true
text_eq [] (y ∷ ys) = false
text_eq (x ∷ xs) [] = false
text_eq (x ∷ xs) (y ∷ ys) = x == y && text_eq xs ys

pub text_eq_iff : (s t : Text) → (text_eq s t ≡ true) ↔ (s ≡ t)
unfolding text_eq
text_eq_iff [] [] = ground arith
text_eq_iff [] (y ∷ ys) = ground arith
text_eq_iff (x ∷ xs) [] = ground arith
text_eq_iff (x ∷ xs) (y ∷ ys) = ground (arith, text_eq_iff xs ys)

pub text_eq_refl : (s : Text) → text_eq s s ≡ true
text_eq_refl s = (text_eq_iff s s).1 refl

-- `strings.HasPrefix(s, p)`.
unfoldable pub starts_with : Text → Text → Bool
starts_with s [] = true
starts_with [] (y ∷ ys) = false
starts_with (x ∷ xs) (y ∷ ys) = x == y && starts_with xs ys

-- `strings.HasSuffix(s, p)`.
unfoldable pub ends_with : Text → Text → Bool
unfolding starts_with
ends_with s p = starts_with (reverse s) (reverse p)

-- `strings.TrimPrefix(s, p)`, and `s` where `p` is no prefix.
strip : Text → Text → Text → Text
strip whole s [] = s
strip whole [] (y ∷ ys) = whole
strip whole (x ∷ xs) (y ∷ ys) = if x == y then strip whole xs ys else whole

unfoldable pub trim_prefix : Text → Text → Text
unfolding strip
trim_prefix s p = strip s s p

-- `strings.Split(s, sep)` for a separator of one byte: a part for each separator and one more.
unfoldable pub split_from : ℕ → Text → Text → List Text
split_from sep cur [] = cur ∷ []
split_from sep cur (c ∷ s) =
    let closed = cur ∷ split_from sep [] s in
    let longer = split_from sep (cur ++ c ∷ []) s in if c == sep then closed else longer

unfoldable pub split : ℕ → Text → List Text
unfolding split_from
split sep s = split_from sep [] s

-- ASCII white space.
unfoldable pub is_white : ℕ → Bool
is_white c = c == 32 || leb 9 c && leb c 13

trim_left : Text → Text
unfolding is_white
trim_left [] = []
trim_left (c ∷ s) = if is_white c then trim_left s else c ∷ s

-- `strings.TrimSpace`.
unfoldable pub trim_space : Text → Text
unfolding trim_left
trim_space s = reverse (trim_left (reverse (trim_left s)))

trim_left_keeps :
    (c : ℕ) (s : Text) → is_white c ≡ false → (t : Text) × (trim_left (s ++ c ∷ []) ≡ t ++ c ∷ [])
unfolding trim_left
trim_left_keeps c [] e = ([], rw e)
trim_left_keeps c (d ∷ s) e = elim (Bool-cases (is_white d)) [
  | inl white ↦ rw white (trim_left_keeps c s e)
  | inr other ↦ rw other (d ∷ s, refl)
]

-- A text that starts with another character than space is not empty behind `TrimSpace`.
pub trim_space-bracket : (s : Text) → text_eq (trim_space (b'[' ∷ s)) [] ≡ false
unfolding trim_space is_white text_eq
trim_space-bracket s =
    let (t, e) = trim_left_keeps b'[' (reverse s) refl in
    rw (
      reverse_aux-eq s (b'[' ∷ []),
      e,
      reverse_aux-eq (t ++ b'[' ∷ []) [],
      reverse-append t (b'[' ∷ []),
    )

abbrev pub IsGraphic : ℕ → Type 0
IsGraphic c = is_white c ≡ false

trim_left_graphic : (s : Text) → All IsGraphic s → trim_left s ≡ s
unfolding trim_left
trim_left_graphic [] h = refl
trim_left_graphic (c ∷ s) h = rw h.0

All-reverse : (s t : Text) → All IsGraphic s → All IsGraphic t → All IsGraphic (reverse_aux s t)
All-reverse [] t hs ht = ht
All-reverse (c ∷ s) t hs ht = All-reverse s (c ∷ t) hs.1 (hs.0, ht)

pub trim_space_of_graphic : (s : Text) → All IsGraphic s → trim_space s ≡ s
unfolding trim_space
trim_space_of_graphic s h =
    rw (trim_left_graphic s h, trim_left_graphic (reverse s) (All-reverse s [] h tt))
      (reverse-reverse s)

strip_of_none : (whole s p : Text) → starts_with s p ≡ false → strip whole s p ≡ whole
unfolding strip starts_with
strip_of_none whole s [] e = cc
strip_of_none whole [] (y ∷ ys) e = refl
strip_of_none whole (x ∷ xs) (y ∷ ys) e = ground (arith, strip_of_none whole xs ys)

pub trim_prefix_of_none : (s p : Text) → starts_with s p ≡ false → trim_prefix s p ≡ s
unfolding trim_prefix
trim_prefix_of_none s p e = strip_of_none s s p e

strip-append : (whole p s : Text) → strip whole (p ++ s) p ≡ s
unfolding strip
strip-append whole [] s = refl
strip-append whole (c ∷ p) s = ground (arith, strip-append whole p s)

pub trim_prefix-append : (p s : Text) → trim_prefix (p ++ s) p ≡ s
unfolding trim_prefix
trim_prefix-append p s = strip-append (p ++ s) p s
