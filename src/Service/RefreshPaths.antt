-- ===== src/Service/RefreshPaths.antt =====
-- The two versions of the refresh paths: GetAppRefreshPaths of util/app/path/path.go for all
-- sources, and GetSourceRefreshPaths of mrp_controller/service/mrp_service.go for one.
use argocd_monorepo_controll.Base.{◌≡◌, refl, ap, inl, inr, Text, Bool-cases, List, [], ◌∷◌}
use argocd_monorepo_controll.App.{Application, ApplicationSource, get_sources}
use argocd_monorepo_controll.Paths.FilePath.{is_abs}
use argocd_monorepo_controll.Paths.Refresh.{
  source_path, annotation_items, item_paths, refresh_paths, get_app_refresh_paths,
}
use argocd_monorepo_controll.Service.Reconcile.{
  source_refresh_path, source_refresh_paths, get_source_refresh_paths,
}

refresh_paths-one :
    (source : ApplicationSource) (items : List Text)
    → refresh_paths (source ∷ []) items ≡ source_refresh_paths source.path items
unfolding refresh_paths item_paths source_refresh_paths source_refresh_path
refresh_paths-one source [] = refl
refresh_paths-one source ([] ∷ items) = refresh_paths-one source items
refresh_paths-one source ((c ∷ item) ∷ items) = elim (Bool-cases (is_abs (c ∷ item))) [
  | inl e ↦ rw e (ap (λ ps. item ∷ ps) (refresh_paths-one source items))
  | inr e ↦ rw e (ap (λ ps. source_path (c ∷ item) source ∷ ps) (refresh_paths-one source items))
]

-- For an application with one source, hydrated or not, the refresh paths of the application are
-- those of the source.
pub get_app_refresh_paths-one :
    (app : Application) (source : ApplicationSource)
    → get_sources app.spec ≡ source ∷ []
    → get_app_refresh_paths app ≡ get_source_refresh_paths app source.path
unfolding get_app_refresh_paths get_source_refresh_paths
get_app_refresh_paths-one app source e = rw e (refresh_paths-one source (annotation_items app))
