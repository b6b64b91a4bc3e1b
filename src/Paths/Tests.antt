-- ===== src/Paths/Tests.antt =====
-- The path functions on concrete paths.
use argocd_monorepo_controll.Base.{
  ◌++◌, ◌≡◌, refl, Text, text_eq, codes, true, false, [], ◌∷◌, none, some,
}
use argocd_monorepo_controll.Paths.FilePath.{clean, dir, dot, dot_dot, has_slash}
use argocd_monorepo_controll.Paths.Plain.{IsName}
use argocd_monorepo_controll.Paths.Covered.{app_files_have_changed-in_dirs}
use argocd_monorepo_controll.Paths.Glob.{match}
use argocd_monorepo_controll.Paths.Refresh.{app_files_have_changed}

clean_test : clean (codes "/a//b/./../c/") ≡ codes "/a/c"
unfolding clean
clean_test = refl

clean_relative : clean (codes "a/../../b") ≡ codes "../b"
unfolding clean
clean_relative = refl

dir_test : dir (codes "/a/b/c.yaml") ≡ codes "/a/b"
unfolding dir
dir_test = refl

match_star : match (codes "/a/*/c[x-z]?.yaml") (codes "/a/b/cy1.yaml") ≡ some true
unfolding match
match_star = refl

match_no_slash : match (codes "/a/*") (codes "/a/b/c") ≡ some false
unfolding match
match_no_slash = refl

match_bad : match (codes "/a[") (codes "/ab") ≡ none
unfolding match
match_bad = refl

match_bad_late : match (codes "/b[]a]") (codes "/b") ≡ none
unfolding match
match_bad_late = refl

changed_test :
    app_files_have_changed
      (codes "app1" ∷ codes "lib/*.yaml" ∷ [])
      (codes "app2/a.yaml" ∷ codes "lib/x.yaml" ∷ [])
    ≡ true
unfolding app_files_have_changed
changed_test = refl

unchanged_test :
    app_files_have_changed
      (codes "app1" ∷ codes "lib/*.yaml" ∷ [])
      (codes "app10/a.yaml" ∷ codes "lib/x.json" ∷ [])
    ≡ false
unfolding app_files_have_changed
unchanged_test = refl

app_files_have_changed-in_dirs_example :
    app_files_have_changed
      (codes "docs" ∷ codes "apps/web" ∷ [])
      (codes "README.md" ∷ codes "apps/web/base/deploy.yaml" ∷ [])
    ≡ true
unfolding text_eq has_slash
app_files_have_changed-in_dirs_example =
    let name : (p : Text)
        → text_eq p [] ≡ false
        → text_eq p dot ≡ false
        → text_eq p dot_dot ≡ false
        → has_slash p ≡ false
        → IsName p =
      λ p a b c d. record { not_empty = a; not_dot = b; not_dot_dot = c; not_cut = d } in
    app_files_have_changed-in_dirs (codes "apps" ∷ []) (codes "web") (codes "base" ∷ [])
      (codes "deploy.yaml") (codes "docs" ∷ []) [] (codes "README.md" ∷ []) []
      (name (codes "apps") refl refl refl refl, tt) (name (codes "web") refl refl refl refl)
      (name (codes "base") refl refl refl refl, tt) (name (codes "deploy.yaml") refl refl refl refl)

-- `?` stands for a rune of two bytes.
match_rune : match (codes "/a/?") (codes "/a/" ++ (0xc3 ∷ 0xa9 ∷ [])) ≡ some true
unfolding match
match_rune = refl

match_rune_class :
    match (codes "/[^" ++ (0xc3 ∷ 0xa9 ∷ codes "]")) (codes "/" ++ (0xc3 ∷ 0xa9 ∷ [])) ≡ some false
unfolding match
match_rune_class = refl
