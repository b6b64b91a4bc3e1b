-- ===== src/Paths/Glob/Enough/Chunks.antt =====
-- What is left of a pattern behind its first chunk.
use argocd_monorepo_controll.Base.{
  ℕ, zero, suc, ◌≤◌, ◌<◌, ◌≡◌, inl, inr, Text, Bool, true, false, not, ◌&&◌, [], ◌∷◌, length, ◌==◌,
  Bool-cases, arith,
}
use argocd_monorepo_controll.Paths.Glob.{strip_stars, scan_from}

-- What is left of a pattern behind its first chunk is shorter.
abbrev rest_len : Bool → Text → ℕ
rest_len in_range s = length (scan_from in_range s).1

-- Behind a byte that is not a star, or in a range.
scan_step :
    (in_range : Bool) (c d : ℕ) (s : Text)
    → ((b : Bool) → rest_len b s ≤ length s)
    → ((b : Bool) → rest_len b (d ∷ s) ≤ length (d ∷ s))
    → (c == b'*' && not in_range) ≡ false
    → rest_len in_range (c ∷ d ∷ s) ≤ length (d ∷ s)
unfolding scan_from
scan_step in_range c d s far near e = elim (Bool-cases (c == 92)) [
  | inl a ↦ (let h = far in_range in rw a (omega arith))
  | inr a ↦ elim (Bool-cases (c == b'[')) [
    | inl b ↦ rw (a, b) (near true)
    | inr b ↦ elim (Bool-cases (c == b']')) [
      | inl f ↦ rw (a, b, f) (near false)
      | inr f ↦ rw (a, b, f, e) (near in_range)
    ]
  ]
]

scan_star :
    (in_range : Bool) (c d : ℕ) (s : Text)
    → (c == b'*' && not in_range) ≡ true
    → rest_len in_range (c ∷ d ∷ s) ≤ length (c ∷ d ∷ s)
unfolding scan_from
scan_star in_range c d s e =
    let a : (c == 92) ≡ false = ground arith in
    let b : (c == b'[') ≡ false = ground arith in
    let f : (c == b']') ≡ false = ground arith in rw (a, b, f, e) (omega arith)

scan_from-le : (n : ℕ) (s : Text) → length s < n → (b : Bool) → rest_len b s ≤ length s
unfolding scan_from
scan_from-le zero s h b = absurd (omega arith)
scan_from-le (suc n) [] h b = omega arith
scan_from-le (suc n) (c ∷ []) h b = elim (Bool-cases (c == b'*' && not b)) [
  | inl e ↦ rw e (omega arith)
  | inr e ↦ rw e (omega arith)
]
scan_from-le (suc n) (c ∷ d ∷ s) h b = elim (Bool-cases (c == b'*' && not b)) [
  | inl e ↦ scan_star b c d s e
  | inr e ↦
      let k =
        scan_step b c d s (scan_from-le n s (omega arith)) (scan_from-le n (d ∷ s) (omega arith))
          e in
      omega arith
]

-- Without leading stars.
scan_from-lt : (c : ℕ) (s : Text) → (c == b'*') ≡ false → rest_len false (c ∷ s) < length (c ∷ s)
unfolding scan_from
scan_from-lt c [] e = rw e (omega arith)
scan_from-lt c (d ∷ s) e =
    let k =
      scan_step false c d s (scan_from-le (suc (length s)) s (omega arith))
        (scan_from-le (suc (length (d ∷ s))) (d ∷ s) (omega arith)) (rw e) in
    omega arith

pub behind_stars : (p : ℕ) (ps : Text) → rest_len false (strip_stars (p ∷ ps)) < length (p ∷ ps)
unfolding strip_stars scan_from
behind_stars p [] = elim (Bool-cases (p == b'*')) [
  | inl e ↦ rw e (omega arith)
  | inr e ↦ rw (e, e) (omega arith)
]
behind_stars p (q ∷ ps) = elim (Bool-cases (p == b'*')) [
  | inl e ↦ rw e (let h = behind_stars q ps in omega arith)
  | inr e ↦ rw e (scan_from-lt p (q ∷ ps) e)
]
