-- ===== src/Service/Patch.antt =====
-- The annotations patch (addPatchIfNeeded and makeAnnotationPatch of
-- mrp_controller/service/mrp_service.go), and what the API server makes of it.
use argocd_monorepo_controll.Base.{
  Text, text_eq, Map, lookup, insert, Bool, true, false, List, [], ◌∷◌, Option, none, some,
  if◌then◌else◌,
}
use argocd_monorepo_controll.App.{Application}
use argocd_monorepo_controll.Json.Arrays.{marshal}
use argocd_monorepo_controll.Service.Revisions.{
  change_revision_ann, change_revisions_ann, git_revision_ann, git_revisions_ann,
}

abbrev pub differs : Option Text → Text → Bool
differs none val = true
differs (some current_val) val = if text_eq current_val val then false else true

unfoldable pub add_patch_if_needed : Map Text → Map Text → Text → Text → Map Text
unfolding lookup insert text_eq
add_patch_if_needed annotations current_annotations key val =
    if differs (lookup key current_annotations) val then insert key val annotations else annotations

-- The four annotations, before the test whether anything is left to patch.
unfoldable pub needed_annotations : Map Text → Text → List Text → Text → List Text → Map Text
unfolding add_patch_if_needed marshal
needed_annotations current change_revision change_revisions git_revision git_revisions =
    let one = add_patch_if_needed [] current change_revision_ann change_revision in
    let two = add_patch_if_needed one current change_revisions_ann (marshal change_revisions) in
    let three = add_patch_if_needed two current git_revision_ann git_revision in
    add_patch_if_needed three current git_revisions_ann (marshal git_revisions)

-- The annotations of the patch; `none` is the nil map, for nothing to patch. `Marshal` of a
-- []string does not fail.
abbrev pub patch_if_any : Map Text → Option (Map Text)
patch_if_any [] = none
patch_if_any (a ∷ annotations) = some (a ∷ annotations)

unfoldable pub make_annotation_patch :
    Application → Text → List Text → Text → List Text → Option (Map Text)
unfolding needed_annotations
make_annotation_patch a change_revision change_revisions git_revision git_revisions =
    patch_if_any
      (needed_annotations a.annotations change_revision change_revisions git_revision git_revisions)

-- A merge patch of the annotations (RFC 7386) as the API server applies it.
unfoldable pub merge : Map Text → Map Text → Map Text
unfolding insert
merge [] current = current
merge ((key, val) ∷ patch) current = merge patch (insert key val current)

unfoldable pub patched : Map Text → Application → Application
unfolding merge
patched patch a = record a { annotations = merge patch a.annotations }
