-- ===== src/Projects/Permissions.antt =====
-- What a project permits: IsSourcePermitted, IsDestinationPermitted, isDestinationMatched,
-- IsGroupKindPermitted and IsResourcePermitted of
-- pkg/apis/application/v1alpha1/app_project_types.go, and isResourceInList of types.go.
pub mod Rules
use argocd_monorepo_controll.Base.{
  Text, codes, text_eq, starts_with, trim_prefix, Bool, true, false, not, ◌&&◌, ◌||◌, List, [], ◌∷◌,
  ◌++◌, Option, none, some, any, if◌then◌else◌,
}
use argocd_monorepo_controll.App.{ApplicationDestination, ApplicationSource}
use argocd_monorepo_controll.Git.Urls.{normalize_git_url}
use argocd_monorepo_controll.Paths.Glob
use argocd_monorepo_controll.Projects.{
  GroupKind, AppProject, Compile, negation, is_deny_pattern, is_given, glob_match,
}

-- The name and the server of pkg/apis/application/v1alpha1.Cluster.
pub record Cluster : Type 0 where
  pub name : Text
  pub server : Text

-- A nil whitelist for namespaces, and another.
abbrev in_whitelist :
    (GroupKind → List GroupKind → Bool) → GroupKind → Option (List GroupKind) → Bool
in_whitelist is_in_list res none = true
in_whitelist is_in_list res (some list) = is_in_list res list

abbrev is_ok : Option Bool → Bool
is_ok none = false
is_ok (some b) = b

unfoldable pub is_resource_in_list : GroupKind → List GroupKind → Bool
is_resource_in_list res [] = false
is_resource_in_list res (item ∷ list) =
    let rest = is_resource_in_list res list in
    if is_ok (Glob.match item.kind res.kind)
    then if is_ok (Glob.match item.group res.group) then true else rest
    else rest

-- `len(list) != 0 && isResourceInList(res, list)` is the test of the list alone.
unfoldable pub is_group_kind_permitted : AppProject → GroupKind → Bool → Bool
unfolding is_resource_in_list
is_group_kind_permitted proj gk namespaced =
    let spec = proj.spec in
    if namespaced
    then in_whitelist is_resource_in_list gk spec.namespace_resource_whitelist
      && not (is_resource_in_list gk spec.namespace_resource_blacklist)
    else is_resource_in_list gk spec.cluster_resource_whitelist
      && not (is_resource_in_list gk spec.cluster_resource_blacklist)

unfoldable pub normalized_pattern : (Text → Option Text) → Text → Text
unfolding starts_with trim_prefix normalize_git_url text_eq
normalized_pattern parse repo_url =
    if is_deny_pattern repo_url
    then negation ++ normalize_git_url parse (trim_prefix repo_url negation)
    else normalize_git_url parse repo_url

module _ (compile : Compile) where
  module _ (parse : Text → Option Text) where
    unfoldable pub source_loop : Text → List Text → Bool → Bool
    unfolding normalized_pattern glob_match starts_with
    source_loop src [] any_source_matched = any_source_matched
    source_loop src (repo_url ∷ repos) any_source_matched =
        let pattern = normalized_pattern parse repo_url in
        let yes = source_loop src repos true in
        let rest = source_loop src repos any_source_matched in
        if glob_match compile (codes "/") true pattern src
        then yes
        else if is_deny_pattern pattern
        then false
        else rest

    unfoldable pub is_source_permitted : AppProject → ApplicationSource → Bool
    unfolding source_loop normalize_git_url
    is_source_permitted proj src =
        source_loop (normalize_git_url parse src.repo_url) proj.spec.source_repos false

  abbrev pub name_matched : ApplicationDestination → ApplicationDestination → Bool
  name_matched dst item = is_given dst.name && glob_match compile [] true item.name dst.name

  abbrev pub server_matched : ApplicationDestination → ApplicationDestination → Bool
  server_matched dst item = is_given dst.server && glob_match compile [] true item.server dst.server

  abbrev pub namespace_matched : ApplicationDestination → ApplicationDestination → Bool
  namespace_matched dst item = glob_match compile [] true item.namespace dst.namespace

  unfoldable pub destination_loop :
      ApplicationDestination → List ApplicationDestination → Bool → Bool
  unfolding glob_match starts_with
  destination_loop dst [] any_destination_matched = any_destination_matched
  destination_loop dst (item ∷ items) any_destination_matched =
      let by_name = name_matched dst item in
      let by_server = server_matched dst item in
      let by_namespace = namespace_matched dst item in
      let yes = destination_loop dst items true in
      let rest = destination_loop dst items any_destination_matched in
      if (by_server || by_name) && by_namespace
      then yes
      else if not by_name && is_deny_pattern item.name
          || (not by_server && is_deny_pattern item.server) && by_namespace
      then false
      else if not by_namespace && (is_deny_pattern item.namespace && by_server)
      then false
      else rest

  unfoldable pub is_destination_matched : AppProject → ApplicationDestination → Bool
  unfolding destination_loop
  is_destination_matched proj dst = destination_loop dst proj.spec.destinations false

  -- `projectClusters`, `none` where it fails.
  module _ (project_clusters : Text → Option (List Cluster)) where
    abbrev pub scoped : ApplicationDestination → Option (List Cluster) → Option Bool
    unfolding text_eq
    scoped dst none = none
    scoped dst (some clusters) = some (
        any (λ cluster. text_eq cluster.name dst.name || text_eq cluster.server dst.server)
          clusters)

    -- `none` is an error.
    unfoldable pub is_destination_permitted : AppProject → Option Cluster → Text → Option Bool
    unfolding is_destination_matched
    is_destination_permitted proj none namespace = some false
    is_destination_permitted proj (some cluster) namespace =
        let dst : ApplicationDestination = record {
          server = cluster.server;
          name = cluster.name;
          namespace = namespace;
        } in
        let matched = is_destination_matched proj dst in
        if matched && proj.spec.permit_only_project_scoped_clusters
        then scoped dst (project_clusters proj.name)
        else some matched

    unfoldable pub is_resource_permitted :
        AppProject → GroupKind → Text → Option Cluster → Option Bool
    unfolding is_group_kind_permitted is_destination_permitted
    is_resource_permitted proj group_kind namespace dest_cluster =
        if not (is_group_kind_permitted proj group_kind (is_given namespace))
        then some false
        else if is_given namespace
        then is_destination_permitted proj dest_cluster namespace
        else some true
