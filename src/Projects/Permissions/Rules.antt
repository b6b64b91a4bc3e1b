-- ===== src/Projects/Permissions/Rules.antt =====
-- A project's entries as rules whose order does not count.
use argocd_monorepo_controll.Base.{
  ◌≡◌, Text, codes, Bool, true, false, not, ◌&&◌, ◌||◌, List, [], ◌∷◌, any, Option, if◌then◌else◌,
  arith,
}
use argocd_monorepo_controll.App.{ApplicationDestination, ApplicationSource}
use argocd_monorepo_controll.Git.Urls.{normalize_git_url}
use argocd_monorepo_controll.Projects.{AppProject, Compile, is_deny_pattern, glob_match}
use argocd_monorepo_controll.Projects.Permissions.{
  normalized_pattern, source_loop, is_source_permitted, name_matched, server_matched,
  namespace_matched, destination_loop, is_destination_matched,
}

source_step :
    (g d denied permitted m : Bool)
    → (if g
        then not denied && (true || permitted)
        else if d
        then false
        else not denied && (m || permitted))
      ≡ not (d && not g || denied) && (m || (g || permitted))
source_step true d denied permitted m = ground arith
source_step false d denied permitted m = ground arith

destination_step :
    (n s k dn ds dk denied permitted m : Bool)
    → (if (s || n) && k
        then not denied && (true || permitted)
        else if not n && dn || (not s && ds) && k
        then false
        else if not k && (dk && s)
        then false
        else not denied && (m || permitted))
      ≡ not (
          not (k && (n || s)) && (dn && not n || (ds && (not s && k) || dk && (s && not k)))
          || denied)
        && (m || (k && (n || s) || permitted))
destination_step true s true dn ds dk denied permitted m = ground arith
destination_step false true true dn ds dk denied permitted m = ground arith
destination_step false false true dn ds dk denied permitted m = ground arith
destination_step true true false dn ds dk denied permitted m = ground arith
destination_step false true false dn ds dk denied permitted m = ground arith
destination_step true false false dn ds dk denied permitted m = ground arith
destination_step false false false dn ds dk denied permitted m = ground arith

module _ (compile : Compile) where
  module _ (parse : Text → Option Text) (src : Text) where
    -- The entry permits the source, a denying one if it does not match it.
    abbrev pub permits_source : Text → Bool
    permits_source repo_url =
        glob_match compile (codes "/") true (normalized_pattern parse repo_url) src

    abbrev pub denies_source : Text → Bool
    denies_source repo_url =
        is_deny_pattern (normalized_pattern parse repo_url) && not (permits_source repo_url)

    source_loop-rules :
        (repos : List Text) (matched : Bool)
        → source_loop compile parse src repos matched
          ≡ not (any denies_source repos) && (matched || any permits_source repos)
    unfolding source_loop
    source_loop-rules [] matched = ground arith
    source_loop-rules (repo_url ∷ repos) matched =
        rw (source_loop-rules repos true, source_loop-rules repos matched)
          (source_step (permits_source repo_url)
            (is_deny_pattern (normalized_pattern parse repo_url)) (any denies_source repos)
            (any permits_source repos) matched)

  module _ (dst : ApplicationDestination) where
    abbrev pub permits_destination : ApplicationDestination → Bool
    permits_destination item =
        namespace_matched compile dst item
        && (name_matched compile dst item || server_matched compile dst item)

    -- A denying name, or a denying server of the namespace, or a denying namespace of the server.
    abbrev pub denies_destination : ApplicationDestination → Bool
    denies_destination item =
        not (permits_destination item)
        && ((is_deny_pattern item.name && not (name_matched compile dst item))
            || ((is_deny_pattern item.server
                  && (not (server_matched compile dst item) && namespace_matched compile dst item))
                || (is_deny_pattern item.namespace
                    && (server_matched compile dst item
                        && not (namespace_matched compile dst item)))))

    destination_loop-rules :
        (items : List ApplicationDestination) (matched : Bool)
        → destination_loop compile dst items matched
          ≡ not (any denies_destination items) && (matched || any permits_destination items)
    unfolding destination_loop
    destination_loop-rules [] matched = ground arith
    destination_loop-rules (item ∷ items) matched =
        rw (destination_loop-rules items true, destination_loop-rules items matched)
          (destination_step (name_matched compile dst item) (server_matched compile dst item)
            (namespace_matched compile dst item) (is_deny_pattern item.name)
            (is_deny_pattern item.server) (is_deny_pattern item.namespace)
            (any denies_destination items) (any permits_destination items) matched)

  -- A project permits a source if and only if no entry denies it and some entry permits it, where a
  -- negated pattern denies what it matches and permits the rest. It matches a destination if and
  -- only if no entry denies it and some entry permits it, where an entry permits by its namespace
  -- with its name or server, and one that does not denies by a negated name, by a negated server
  -- in its namespace, or by a negated namespace on its server. The order of entries does not count.
  pub is_permitted-rules :
      (parse : Text → Option Text) (proj : AppProject) (src : ApplicationSource)
      (dst : ApplicationDestination)
      → (is_source_permitted compile parse proj src
          ≡ not (
              any
                (denies_source parse (normalize_git_url parse src.repo_url))
                proj.spec.source_repos)
            && any
                (permits_source parse (normalize_git_url parse src.repo_url))
                proj.spec.source_repos)
        × (is_destination_matched compile proj dst
            ≡ not (any (denies_destination dst) proj.spec.destinations)
              && any (permits_destination dst) proj.spec.destinations)
  unfolding is_source_permitted is_destination_matched
  is_permitted-rules parse proj src dst = (
    source_loop-rules parse (normalize_git_url parse src.repo_url) proj.spec.source_repos false,
    destination_loop-rules dst proj.spec.destinations false,
  )
