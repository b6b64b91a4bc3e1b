-- ===== src/Paths/Covered.antt =====
-- A changed file below a directory that an application is refreshed for.
mod Names
use mathlib.Core.List.{reverse-append}
use argocd_monorepo_controll.Base.{
  ℕ, ◌≡◌, refl, sym, ap, subst, ◌∙◌, inl, inr, Text, codes, text_eq, starts_with, ends_with, Bool,
  true, false, ◌||◌, List, [], ◌∷◌, ◌++◌, append_assoc, All, All-append, arith, Bool-cases, is_some,
  any, ==_iff,
}
use argocd_monorepo_controll.Paths.FilePath.{slash, is_abs, join_slash, clean, has_slash, dir}
use argocd_monorepo_controll.Paths.Plain.{IsName, in_dirs, clean-in_dirs, dir-in_dirs, join-in_dirs}
use argocd_monorepo_controll.Paths.Security.{
  with_slash, is_requested_dir_under_current_root, parse_path, enforce_to_current_root,
}
use argocd_monorepo_controll.Paths.Refresh.{
  ensure_abs_path, file_is_covered, app_files_have_changed,
}
use argocd_monorepo_controll.Paths.Covered.Names.{
  ensure_abs_path-in_dirs, starts_with-append, with_slash-join, in_dirs-append,
}

-- A directory under another.
under_root :
    (p : Text) (ps qs : List Text)
    → IsName p
    → All IsName ps
    → All IsName qs
    → is_requested_dir_under_current_root
        (slash ∷ join_slash (p ∷ ps))
        (slash ∷ join_slash (p ∷ (ps ++ qs)))
      ≡ true
unfolding is_requested_dir_under_current_root
under_root p ps qs h hs hq =
    let root = slash ∷ join_slash (p ∷ ps) in
    let requested = slash ∷ join_slash (p ∷ (ps ++ qs)) in
    elim (Bool-cases (text_eq root (codes "/"))) [
      | inl e ↦ rw e
      | inr e ↦ elim (Bool-cases (text_eq root requested)) [
        | inl f ↦ rw (e, f)
        | inr f ↦
            rw
              (
                e,
                f,
                with_slash-join p ps h hs,
                with_slash-join p (ps ++ qs) h (All-append IsName ps qs hs hq),
                in_dirs-append (p ∷ ps) qs,
              )
              (starts_with-append (slash ∷ in_dirs (p ∷ ps) []) (in_dirs qs []))
      ]
    ]

parse_path-dir : (path : Text) → (parse_path path).0 ≡ dir path
unfolding parse_path
parse_path-dir path = elim (Bool-cases (text_eq (dir path) path)) [ inl e ↦ rw e | inr e ↦ rw e ]

enforced :
    (root path : Text)
    → is_requested_dir_under_current_root (clean root) (dir path) ≡ true
    → is_some (enforce_to_current_root root path) ≡ true
unfolding enforce_to_current_root
enforced root path h = rw (parse_path-dir path, h)

under_dirs :
    (es : List Text) (e : Text) (qs : List Text)
    → All IsName es
    → IsName e
    → All IsName qs
    → is_requested_dir_under_current_root
        (slash ∷ join_slash (es ++ e ∷ []))
        (slash ∷ join_slash ((es ++ e ∷ []) ++ qs))
      ≡ true
under_dirs [] e qs h he hq = under_root e [] qs he tt hq
under_dirs (p ∷ es) e qs h he hq =
    under_root p (es ++ e ∷ []) qs h.0 (All-append IsName es (e ∷ []) h.1 (he, tt)) hq

dirs-IsName :
    (es : List Text) (e : Text) (qs : List Text)
    → All IsName es
    → IsName e
    → All IsName qs
    → All IsName ((es ++ e ∷ []) ++ qs)
dirs-IsName es e qs h he hq =
    All-append IsName (es ++ e ∷ []) qs (All-append IsName es (e ∷ []) h (he, tt)) hq

under_file :
    (es : List Text) (e : Text) (qs : List Text) (f : Text)
    → All IsName es
    → IsName e
    → All IsName qs
    → IsName f
    → is_requested_dir_under_current_root
        (clean (slash ∷ in_dirs es e))
        (dir (slash ∷ in_dirs ((es ++ e ∷ []) ++ qs) f))
      ≡ true
under_file es e qs f h he hq hf =
    let dirs = (es ++ e ∷ []) ++ qs in
    let requested = dir-in_dirs dirs f (dirs-IsName es e qs h he hq) hf.not_cut in
    let root = clean-in_dirs es e h he ∙ ap (λ x. slash ∷ x) (sym (join-in_dirs es e)) in
    subst (λ r. is_requested_dir_under_current_root r (dir (slash ∷ in_dirs dirs f)) ≡ true)
      (sym root)
      (subst (λ d. is_requested_dir_under_current_root (slash ∷ join_slash (es ++ e ∷ [])) d ≡ true)
        (sym requested) (under_dirs es e qs h he hq))

or_true : (b c : Bool) → ((b || true) || c) ≡ true
or_true true c = refl
or_true false c = refl

file_is_covered-in_dirs :
    (es : List Text) (e : Text) (qs : List Text) (f : Text)
    → All IsName es
    → IsName e
    → All IsName qs
    → IsName f
    → file_is_covered (in_dirs ((es ++ e ∷ []) ++ qs) f) (in_dirs es e) ≡ true
unfolding file_is_covered
file_is_covered-in_dirs es e qs f h he hq hf =
    let dirs = (es ++ e ∷ []) ++ qs in
    let names = dirs-IsName es e qs h he hq in
    let under = under_file es e qs f h he hq hf in
    rw
      (
        ensure_abs_path-in_dirs dirs f names hf,
        ensure_abs_path-in_dirs es e h he,
        enforced (slash ∷ in_dirs es e) (slash ∷ in_dirs dirs f) under,
      )
      (or_true (text_eq (slash ∷ in_dirs dirs f) (slash ∷ in_dirs es e)) _)

any_of :
    {A : Type 0} (test : A → Bool) (xs : List A) (y : A) (ys : List A)
    → test y ≡ true
    → any test (xs ++ y ∷ ys) ≡ true
any_of test [] y ys e = rw e
any_of test (x ∷ xs) y ys e = ground (arith, any_of test xs y ys e)

changed_of :
    (refresh files : List Text)
    → any (λ file. any (file_is_covered file) refresh) files ≡ true
    → app_files_have_changed refresh files ≡ true
unfolding app_files_have_changed
changed_of [] [] e = refl
changed_of [] (f ∷ files) e = refl
changed_of (r ∷ refresh) [] e = refl
changed_of (r ∷ refresh) (f ∷ files) e = e

-- If one of the changed files is in a directory that is one of the refresh paths, or in any
-- directory below it, the application's files have changed, whatever the other files and refresh
-- paths are, when the parts of these two paths are names: neither empty, nor `.`, nor `..`.
pub app_files_have_changed-in_dirs :
    (es : List Text) (e : Text) (qs : List Text) (f : Text)
    (refresh_before refresh_after files_before files_after : List Text)
    → All IsName es
    → IsName e
    → All IsName qs
    → IsName f
    → app_files_have_changed
        (refresh_before ++ in_dirs es e ∷ refresh_after)
        (files_before ++ in_dirs ((es ++ e ∷ []) ++ qs) f ∷ files_after)
      ≡ true
app_files_have_changed-in_dirs es e qs f rb ra fb fa h he hq hf =
    let file = in_dirs ((es ++ e ∷ []) ++ qs) f in
    changed_of (rb ++ in_dirs es e ∷ ra) (fb ++ file ∷ fa) (
      any_of (λ x. any (file_is_covered x) (rb ++ in_dirs es e ∷ ra)) fb file fa
        (any_of (file_is_covered file) rb (in_dirs es e) ra
          (file_is_covered-in_dirs es e qs f h he hq hf)))
