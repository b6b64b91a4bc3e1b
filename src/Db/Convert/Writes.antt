-- ===== src/Db/Convert/Writes.antt =====
-- What a field of a secret reads after a list of writes to different keys.
use argocd_monorepo_controll.Base.{
  ◌≡◌, refl, ◌∙◌, ◌⊎◌, inl, inr, Text, text_eq, text_eq_iff, Map, lookup, has, lookup-insert,
  lookup-insert_self, Bool, true, false, not, ◌||◌, ◌&&◌, List, [], ◌∷◌, all, Option, none, some,
  if◌then◌else◌, Bool-cases, Option-cases, arith,
}
use argocd_monorepo_controll.Strconv.{ℤ, pos, negsuc, is_zero, ◌≤ℤ◌, min_int64, max_int64}
use argocd_monorepo_controll.Strconv.RoundTrip.{parse_int-format_int, parse_bool-format_bool}
use argocd_monorepo_controll.Db.Secrets.{
  string_of, bool_or_false, int_or_zero, Write, update_secret_bool, update_secret_int,
  update_secret_string, update, update_all,
}

abbrev pub differs_from : Text → List Write → Bool
differs_from key ws = all (λ w. not (text_eq w.key key)) ws

-- The keys are all different.
abbrev pub distinct : List Write → Bool
distinct [] = true
distinct (w ∷ ws) = differs_from w.key ws && distinct ws

-- The write to a key.
abbrev pub find_write : Text → List Write → Option Write
find_write key [] = none
find_write key (w ∷ ws) = if text_eq w.key key then some w else find_write key ws

lookup-update_ne :
    (w : Write) (j : Text) (m : Map Text)
    → text_eq w.key j ≡ false
    → lookup j (update w m) ≡ lookup j m
unfolding update
lookup-update_ne w j m e = elim (Bool-cases (has w.key m || w.is_set)) [
  | inl b ↦ rw (b, lookup-insert w.key j w.val m, e)
  | inr b ↦ rw b
]

lookup-update_all_ne :
    (ws : List Write) (j : Text) (m : Map Text)
    → differs_from j ws ≡ true
    → lookup j (update_all ws m) ≡ lookup j m
unfolding update_all
lookup-update_all_ne [] j m e = refl
lookup-update_all_ne (w ∷ ws) j m e = elim (Bool-cases (text_eq w.key j)) [
  | inl b ↦ (let h = rw b at e in cc)
  | inr b ↦ let h = rw b at e in lookup-update_all_ne ws j (update w m) h ∙ lookup-update_ne w j m b
]

-- What a key holds after its write: the value, or nothing if it is zero and nothing was there.
abbrev Stored : Write → Option Text → Type 0
Stored w o = (o ≡ some w.val) ⊎ ((o ≡ none) × (w.is_set ≡ false))

lookup-update_self : (w : Write) (m : Map Text) → Stored w (lookup w.key (update w m))
unfolding update
lookup-update_self w m = elim (Bool-cases (has w.key m || w.is_set)) [
  | inl b ↦ rw (b, lookup-insert_self w.key w.val m) (inl refl)
  | inr b ↦ elim (Option-cases (lookup w.key m)) [
    | inl e ↦ (let h = rw e at b in rw (b, e) (inr (refl, h)))
    | inr (v, e) ↦ (let h = rw e at b in cc)
  ]
]

update_all-Stored :
    (ws : List Write) (j : Text) (m : Map Text) (w : Write)
    → distinct ws ≡ true
    → find_write j ws ≡ some w
    → Stored w (lookup j (update_all ws m))
unfolding update_all
update_all-Stored [] j m w d e = cc
update_all-Stored (v ∷ ws) j m w d e = elim (Bool-cases (differs_from v.key ws)) [
  | inr b ↦ (let h = rw b at d in cc)
  | inl b ↦ elim (Bool-cases (text_eq v.key j)) [
    | inr c ↦ update_all-Stored ws j (update v m) w (rw b at d) (rw c at e)
    | inl c ↦
        let same : v ≡ w = (let h = rw c at e in cc) in
        let key : v.key ≡ j = (text_eq_iff v.key j).0 c in
        rw (← key, ← same, lookup-update_all_ne ws v.key (update v m) b) (lookup-update_self v m)
  ]
]

zero_text : (v : Text) → not (text_eq v []) ≡ false → [] ≡ v
unfolding text_eq
zero_text [] e = refl
zero_text (c ∷ v) e = cc

zero_int : (v : ℤ) → not (is_zero v) ≡ false → some (pos 0) ≡ some v
zero_int (pos n) e = ground arith
zero_int (negsuc n) e = cc

module _ (ws : List Write) (d : distinct ws ≡ true) (m : Map Text) (j : Text) where
  pub string_of-update_all :
      (v : Text)
      → find_write j ws ≡ some (update_secret_string j v)
      → string_of (update_all ws m) j ≡ v
  unfolding string_of
  string_of-update_all v e = elim (update_all-Stored ws j m _ d e) [
    | inl h ↦ rw h
    | inr (h, z) ↦ rw h (zero_text v z)
  ]

  pub bool_or_false-update_all :
      (v : Bool)
      → find_write j ws ≡ some (update_secret_bool j v)
      → bool_or_false (update_all ws m) j ≡ some v
  unfolding bool_or_false
  bool_or_false-update_all v e = elim (update_all-Stored ws j m _ d e) [
    | inl h ↦ rw (h, parse_bool-format_bool v)
    | inr (h, z) ↦ rw (h, z)
  ]

  pub int_or_zero-update_all :
      (v : ℤ)
      → min_int64 ≤ℤ v
      → v ≤ℤ max_int64
      → find_write j ws ≡ some (update_secret_int j v)
      → int_or_zero (update_all ws m) j ≡ some v
  unfolding int_or_zero
  int_or_zero-update_all v lo hi e = elim (update_all-Stored ws j m _ d e) [
    | inl h ↦ rw (h, parse_int-format_int v lo hi)
    | inr (h, z) ↦ rw h (zero_int v z)
  ]
