-- ===== src/Paths/Refresh.antt =====
-- util/app/path/path.go: the paths that an application is refreshed for, and the test of the
-- changed files against them.
use argocd_monorepo_controll.Base.{
  ℕ, Text, codes, text_eq, lookup, split, Bool, true, false, ◌||◌, List, [], ◌∷◌, ◌++◌, map, Option,
  none, some, is_some, any, if◌then◌else◌,
}
use argocd_monorepo_controll.App.{
  Application, ApplicationSource, get_sources, annotation_key_manifest_generate_paths,
}
use argocd_monorepo_controll.Paths.FilePath.{is_abs, clean, join}
use argocd_monorepo_controll.Paths.Glob.{match}
use argocd_monorepo_controll.Paths.Security.{enforce_to_current_root}

abbrev pub semicolon : ℕ
semicolon = b';'

-- `item[1:]`.
abbrev pub drop_first : Text → Text
drop_first [] = []
drop_first (c ∷ s) = s

abbrev pub source_path : Text → ApplicationSource → Text
source_path item source = clean (join source.path item)

-- The paths of one item of the annotation.
unfoldable pub item_paths : List ApplicationSource → Text → List Text
unfolding is_abs clean join
item_paths sources [] = []
item_paths sources (c ∷ s) =
    if is_abs (c ∷ s) then drop_first (c ∷ s) ∷ [] else map (source_path (c ∷ s)) sources

unfoldable pub refresh_paths : List ApplicationSource → List Text → List Text
unfolding item_paths
refresh_paths sources [] = []
refresh_paths sources (item ∷ items) = item_paths sources item ++ refresh_paths sources items

-- The annotation's items; none where it is missing or empty.
unfoldable pub annotation_items : Application → List Text
unfolding lookup split
annotation_items app = elim (lookup annotation_key_manifest_generate_paths app.annotations) [
  | none ↦ []
  | some [] ↦ []
  | some (c ∷ val) ↦ split semicolon (c ∷ val)
]

unfoldable pub get_app_refresh_paths : Application → List Text
unfolding annotation_items refresh_paths get_sources
get_app_refresh_paths app = refresh_paths (get_sources app.spec) (annotation_items app)

unfoldable pub ensure_abs_path : Text → Text
unfolding is_abs
ensure_abs_path input = if is_abs input then input else codes "/" ++ input

abbrev pub is_matched : Option Bool → Bool
is_matched none = false
is_matched (some matched) = matched

-- The tests of the inner loop on one file and one refresh path.
unfoldable pub file_is_covered : Text → Text → Bool
unfolding ensure_abs_path enforce_to_current_root match
file_is_covered file path =
    let f = ensure_abs_path file in
    let item = ensure_abs_path path in
    text_eq f item || is_some (enforce_to_current_root item f) || is_matched (match item f)

unfoldable pub app_files_have_changed : List Text → List Text → Bool
unfolding file_is_covered
app_files_have_changed refresh [] = true
app_files_have_changed [] (f ∷ files) = true
app_files_have_changed (r ∷ refresh) (f ∷ files) =
    any (λ file. any (file_is_covered file) (r ∷ refresh)) (f ∷ files)
