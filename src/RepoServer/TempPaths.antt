-- ===== src/RepoServer/TempPaths.antt =====
-- util/io/paths.go, and the working copies of the repository server: Init and newClient of
-- reposerver/repository/repository.go.
--
-- The lock of the paths makes each call one step. `uuid.NewRandom` is given by what it returns,
-- `none` where it fails. What newClient hands to the client besides its root is left out.
pub mod Runs
mod Tests
use argocd_monorepo_controll.Base.{
  Text, Map, lookup, insert, Bool, true, false, List, [], ◌∷◌, Option, none, some,
}
use argocd_monorepo_controll.Git.Urls.{normalize_git_url}
use argocd_monorepo_controll.Paths.FilePath.{join}

pub record RandomizedTempPaths : Type 0 where
  pub root : Text
  pub paths : Map Text

abbrev pub new_randomized_temp_paths : Text → RandomizedTempPaths
new_randomized_temp_paths root = record { root = root; paths = [] }

unfoldable pub add : Text → Text → RandomizedTempPaths → RandomizedTempPaths
unfolding insert
add key value p = record p { paths = insert key value p.paths }

abbrev new_path : Option Text → Text → RandomizedTempPaths → Option Text × RandomizedTempPaths
new_path none key p = (none, p)
new_path (some unique_id) key p =
    (some (join p.root unique_id), record p { paths = insert key (join p.root unique_id) p.paths })

abbrev pub or_new_path :
    Option Text → Option Text → Text → RandomizedTempPaths → Option Text × RandomizedTempPaths
or_new_path (some val) new_random key p = (some val, p)
or_new_path none new_random key p = new_path new_random key p

unfoldable pub get_path :
    Option Text → Text → RandomizedTempPaths → Option Text × RandomizedTempPaths
unfolding lookup insert join
get_path new_random key p = or_new_path (lookup key p.paths) new_random key p

abbrev or_empty : Option Text → Text
or_empty none = []
or_empty (some val) = val

unfoldable pub get_path_if_exists : Text → RandomizedTempPaths → Text
unfolding lookup
get_path_if_exists key p = or_empty (lookup key p.paths)

-- A copy.
abbrev pub get_paths : RandomizedTempPaths → Map Text
get_paths p = p.paths

-- An entry of the root directory, with the first URL of the first remote if it is a repository
-- with one.
pub record DirEntry : Type 0 where
  pub name : Text
  pub is_dir : Bool
  pub url : Option Text

module _ (parse : Text → Option Text) where
  abbrev pub restore_entry : DirEntry → RandomizedTempPaths → RandomizedTempPaths
  restore_entry file p = elim file.is_dir [
    | false ↦ p
    | true ↦ elim file.url [
      | none ↦ p
      | some url ↦ add (normalize_git_url parse url) (join p.root file.name) p
    ]
  ]

  -- The loop of Init, where the root directory can be read.
  unfoldable pub restore : List DirEntry → RandomizedTempPaths → RandomizedTempPaths
  unfolding add normalize_git_url join
  restore [] p = p
  restore (file ∷ files) p = restore files (restore_entry file p)

  -- The root of the working copy of a new client.
  unfoldable pub new_client :
      Option Text → Text → RandomizedTempPaths → Option Text × RandomizedTempPaths
  unfolding get_path normalize_git_url
  new_client new_random repo p = get_path new_random (normalize_git_url parse repo) p
