-- ===== src/Paths/Plain.antt =====
-- Paths without special parts: what Clean and Dir of path/filepath make of them.
use mathlib.Core.List.{reverse, reverse-cons}
use argocd_monorepo_controll.Base.{
  ◌≡◌, refl, sym, ap, ◌∙◌, inl, inr, Text, text_eq, starts_with, split_from, split, true, false,
  List, [], ◌∷◌, ◌++◌, ◌==◌, append_assoc, append-nil, All, All-append, arith, Bool-cases,
}
use argocd_monorepo_controll.Paths.FilePath.{
  slash, dot, dot_dot, is_abs, join_slash, resolve, clean_parts, render, clean, has_slash,
  dir_prefix, dir,
}

-- A name of a file or a directory.
pub record IsName (p : Text) : Type 0 where
  pub not_empty : text_eq p [] ≡ false
  pub not_dot : text_eq p dot ≡ false
  pub not_dot_dot : text_eq p dot_dot ≡ false
  pub not_cut : has_slash p ≡ false

-- The directories, each with the slash behind it.
abbrev pub in_dirs : List Text → Text → Text
in_dirs [] f = f
in_dirs (p ∷ ps) f = p ++ (slash ∷ in_dirs ps f)

split_last : (cur p : Text) → has_slash p ≡ false → split_from slash cur p ≡ (cur ++ p) ∷ []
unfolding split_from has_slash
split_last cur [] h = ap (λ x. x ∷ []) (sym (append-nil cur))
split_last cur (c ∷ p) h = elim (Bool-cases (c == slash)) [
  | inl e ↦ (let f = rw e at h in cc)
  | inr e ↦ rw e (split_last (cur ++ c ∷ []) p (rw e at h) ∙ rw (append_assoc cur (c ∷ []) p))
]

split_part :
    (cur p s : Text)
    → has_slash p ≡ false
    → split_from slash cur (p ++ (slash ∷ s)) ≡ (cur ++ p) ∷ split_from slash [] s
unfolding split_from has_slash
split_part cur [] s h = ap (λ x. x ∷ split_from slash [] s) (sym (append-nil cur))
split_part cur (c ∷ p) s h = elim (Bool-cases (c == slash)) [
  | inl e ↦ (let f = rw e at h in cc)
  | inr e ↦ rw e (split_part (cur ++ c ∷ []) p s (rw e at h) ∙ rw (append_assoc cur (c ∷ []) p))
]

split-in_dirs :
    (ps : List Text) (f : Text)
    → All IsName ps
    → has_slash f ≡ false
    → split_from slash [] (in_dirs ps f) ≡ ps ++ f ∷ []
split-in_dirs [] f h hf = split_last [] f hf
split-in_dirs (p ∷ ps) f h hf =
    split_part [] p (in_dirs ps f) h.0.not_cut ∙ ap (λ x. p ∷ x) (split-in_dirs ps f h.1 hf)

done_parts : (st : List Text) → clean_parts true st [] ≡ reverse st
unfolding clean_parts
done_parts st = refl

one_empty : (st : List Text) → clean_parts true st ([] ∷ []) ≡ reverse st
unfolding clean_parts resolve text_eq
one_empty st = refl

no_slash_empty : has_slash [] ≡ false
unfolding has_slash
no_slash_empty = refl

resolve_name : (stack : List Text) (p : Text) → IsName p → resolve true stack p ≡ p ∷ stack
unfolding resolve
resolve_name stack p h = rw (h.not_empty, h.not_dot, h.not_dot_dot)

-- Names pass `clean_parts` as they are.
clean_names :
    (ps rest stack : List Text)
    → All IsName ps
    → ((st : List Text) → clean_parts true st rest ≡ reverse st)
    → clean_parts true stack (ps ++ rest) ≡ reverse stack ++ ps
unfolding clean_parts
clean_names [] rest stack h r = r stack ∙ sym (append-nil (reverse stack))
clean_names (p ∷ ps) rest stack h r =
    ap (λ st. clean_parts true st (ps ++ rest)) (resolve_name stack p h.0)
    ∙ clean_names ps rest (p ∷ stack) h.1 r
    ∙ rw (reverse-cons p stack, append_assoc (reverse stack) (p ∷ []) ps)

pub join-in_dirs : (ps : List Text) (f : Text) → join_slash (ps ++ f ∷ []) ≡ in_dirs ps f
unfolding join_slash
join-in_dirs [] f = refl
join-in_dirs (p ∷ []) f = refl
join-in_dirs (p ∷ q ∷ ps) f = ap (λ x. p ++ (slash ∷ x)) (join-in_dirs (q ∷ ps) f)

clean_from :
    (s : Text) (parts ps : List Text)
    → split_from slash [] s ≡ parts
    → clean_parts true [] parts ≡ ps
    → clean (slash ∷ s) ≡ slash ∷ join_slash ps
unfolding clean is_abs starts_with split split_from clean_parts resolve render text_eq
clean_from s parts ps e c = rw (e, c)

pub clean-in_dirs :
    (ps : List Text) (f : Text)
    → All IsName ps
    → IsName f
    → clean (slash ∷ in_dirs ps f) ≡ slash ∷ in_dirs ps f
clean-in_dirs ps f h hf =
    clean_from (in_dirs ps f) (ps ++ f ∷ []) (ps ++ f ∷ []) (split-in_dirs ps f h hf.not_cut) (
      rw (← append-nil (ps ++ f ∷ [])) (
        clean_names (ps ++ f ∷ []) [] [] (All-append IsName ps (f ∷ []) h (hf, tt))
          (λ st. done_parts st)
        ∙ sym (append-nil (ps ++ f ∷ []))))
    ∙ ap (λ x. slash ∷ x) (join-in_dirs ps f)

dir_prefix-last : (f : Text) → has_slash f ≡ false → dir_prefix f ≡ []
unfolding dir_prefix has_slash
dir_prefix-last [] h = refl
dir_prefix-last (c ∷ f) h = rw h

has_slash-append : (p s : Text) → has_slash (p ++ (slash ∷ s)) ≡ true
unfolding has_slash
has_slash-append [] s = refl
has_slash-append (c ∷ p) s = ground (arith, has_slash-append p s)

dir_prefix-part : (p s : Text) → dir_prefix (p ++ (slash ∷ s)) ≡ p ++ (slash ∷ dir_prefix s)
unfolding dir_prefix has_slash
dir_prefix-part [] s = refl
dir_prefix-part (c ∷ p) s = rw (has_slash-append (c ∷ p) s) (ap (λ x. c ∷ x) (dir_prefix-part p s))

dir_prefix-in_dirs :
    (ps : List Text) (f : Text) → has_slash f ≡ false → dir_prefix (in_dirs ps f) ≡ in_dirs ps []
dir_prefix-in_dirs [] f h = dir_prefix-last f h
dir_prefix-in_dirs (p ∷ ps) f h =
    dir_prefix-part p (in_dirs ps f) ∙ ap (λ x. p ++ (slash ∷ x)) (dir_prefix-in_dirs ps f h)

-- The directory of a file.
pub dir-in_dirs :
    (ps : List Text) (f : Text)
    → All IsName ps
    → has_slash f ≡ false
    → dir (slash ∷ in_dirs ps f) ≡ slash ∷ join_slash ps
unfolding dir
dir-in_dirs ps f h hf =
    ap clean (dir_prefix-part [] (in_dirs ps f) ∙ ap (λ x. slash ∷ x) (dir_prefix-in_dirs ps f hf))
    ∙ clean_from (in_dirs ps []) (ps ++ [] ∷ []) ps (split-in_dirs ps [] h (no_slash_empty))
        (clean_names ps ([] ∷ []) [] h (λ st. one_empty st))
