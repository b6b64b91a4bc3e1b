-- ===== src/Paths/Covered/Names.antt =====
-- Paths whose parts are names.
use mathlib.Core.List.{reverse-append}
use argocd_monorepo_controll.Base.{
  ℕ, ◌≡◌, refl, sym, ap, ◌∙◌, Text, text_eq, starts_with, ends_with, true, false, List, [], ◌∷◌,
  ◌++◌, append_assoc, All, arith, ==_iff,
}
use argocd_monorepo_controll.Paths.FilePath.{slash, is_abs, join_slash, has_slash}
use argocd_monorepo_controll.Paths.Plain.{IsName, in_dirs}
use argocd_monorepo_controll.Paths.Security.{with_slash}
use argocd_monorepo_controll.Paths.Refresh.{ensure_abs_path}

name_not_abs : (p : Text) → IsName p → starts_with p (slash ∷ []) ≡ false
unfolding starts_with has_slash
name_not_abs [] h = refl
name_not_abs (c ∷ p) h = ground (arith, h.not_cut)

part_not_abs : (p s : Text) → IsName p → starts_with (p ++ s) (slash ∷ []) ≡ false
unfolding starts_with has_slash text_eq
part_not_abs [] s h = (let e = h.not_empty in cc)
part_not_abs (c ∷ p) s h = ground (arith, h.not_cut)

relative : (ps : List Text) (f : Text) → All IsName ps → IsName f → is_abs (in_dirs ps f) ≡ false
unfolding is_abs
relative [] f h hf = name_not_abs f hf
relative (p ∷ ps) f h hf = part_not_abs p (slash ∷ in_dirs ps f) h.0

pub ensure_abs_path-in_dirs :
    (ps : List Text) (f : Text)
    → All IsName ps
    → IsName f
    → ensure_abs_path (in_dirs ps f) ≡ slash ∷ in_dirs ps f
unfolding ensure_abs_path
ensure_abs_path-in_dirs ps f h hf = rw (relative ps f h hf)

pub starts_with-append : (s t : Text) → starts_with (s ++ t) s ≡ true
unfolding starts_with
starts_with-append [] t = refl
starts_with-append (c ∷ s) t = rw ((==_iff c c).1 refl) (starts_with-append s t)

-- The last character.
last_not_slash :
    (x p : Text) (c : ℕ) → has_slash (c ∷ p) ≡ false → ends_with (x ++ (c ∷ p)) (slash ∷ []) ≡ false
unfolding ends_with starts_with has_slash
last_not_slash x [] c h = rw (reverse-append x (c ∷ [])) (ground (arith, h))
last_not_slash x (d ∷ p) c h =
    rw (← append_assoc x (c ∷ []) (d ∷ p)) (last_not_slash (x ++ c ∷ []) p d (ground (arith, h)))

name_ends : (x p : Text) → IsName p → ends_with (x ++ p) (slash ∷ []) ≡ false
unfolding text_eq
name_ends x [] h = (let e = h.not_empty in cc)
name_ends x (c ∷ p) h = last_not_slash x p c h.not_cut

joined_ends :
    (x p : Text) (ps : List Text)
    → IsName p
    → All IsName ps
    → ends_with (x ++ join_slash (p ∷ ps)) (slash ∷ []) ≡ false
unfolding join_slash
joined_ends x p [] h hs = name_ends x p h
joined_ends x p (q ∷ ps) h hs =
    rw
      (
        ← append_assoc x p (slash ∷ join_slash (q ∷ ps)),
        ← append_assoc (x ++ p) (slash ∷ []) (join_slash (q ∷ ps)),
      )
      (joined_ends ((x ++ p) ++ (slash ∷ [])) q ps hs.0 hs.1)

join_slash-closed :
    (p : Text) (ps : List Text) → join_slash (p ∷ ps) ++ (slash ∷ []) ≡ in_dirs (p ∷ ps) []
unfolding join_slash
join_slash-closed p [] = refl
join_slash-closed p (q ∷ ps) =
    append_assoc p (slash ∷ join_slash (q ∷ ps)) (slash ∷ [])
    ∙ ap (λ x. p ++ (slash ∷ x)) (join_slash-closed q ps)

pub with_slash-join :
    (p : Text) (ps : List Text)
    → IsName p
    → All IsName ps
    → with_slash (slash ∷ join_slash (p ∷ ps)) ≡ slash ∷ in_dirs (p ∷ ps) []
with_slash-join p ps h hs =
    rw (with_slash, joined_ends (slash ∷ []) p ps h hs)
      (ap (λ x. slash ∷ x) (join_slash-closed p ps))

pub in_dirs-append : (ps qs : List Text) → in_dirs (ps ++ qs) [] ≡ in_dirs ps [] ++ in_dirs qs []
in_dirs-append [] qs = refl
in_dirs-append (p ∷ ps) qs =
    ap (λ x. p ++ (slash ∷ x)) (in_dirs-append ps qs)
    ∙ sym (append_assoc p (slash ∷ in_dirs ps []) (in_dirs qs []))
