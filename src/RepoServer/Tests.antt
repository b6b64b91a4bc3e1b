-- ===== src/RepoServer/Tests.antt =====
-- GetChangeRevision on a repository with one commit above the previous revision.
use argocd_monorepo_controll.Base.{
  refl, text_eq, Text, codes, true, List, [], ◌∷◌, Option, some, replicate,
}
use argocd_monorepo_controll.Git.{NativeGitClient}
use argocd_monorepo_controll.Git.Cached.{IsSound, empty-IsSound}
use argocd_monorepo_controll.RepoServer.Lock.{
  Request, Copy, new_copy, lock, initialize, may_join, new_repository_state, Reach, start, after,
  initializes, joins,
}
use argocd_monorepo_controll.RepoServer.Lock.Checkout.{IsConsistent}
use argocd_monorepo_controll.RepoServer.Lock.Checkout.Runs.{lock_holders}
use argocd_monorepo_controll.RepoServer.ChangeRevision.{ChangeRevisionRequest, get_change_revision}
use argocd_monorepo_controll.RepoServer.ChangeRevision.Native.{
  Remote, World, native_git_client, Answers, change_revision_answer,
}

abbrev sha_a : Text
sha_a = replicate 40 b'a'

abbrev sha_b : Text
sha_b = replicate 40 b'b'

-- `rev-list` has three arguments and lists the commit; `diff-tree` lists a file.
abbrev run_cmd : Text → List Text → Option Text
run_cmd repo_url (c ∷ o ∷ r ∷ []) = some sha_b
run_cmd repo_url _ = some (codes "app/values.yaml")

abbrev m : NativeGitClient
m = record {
  repo_url = codes "https://git/a";
  use_list_revisions_cache = true;
  use_diff_tree_cache = true;
}

abbrev remote : Remote (Unit {0})
remote = record {
  ls_remote = λ rev r. (some rev, r);
  init = λ r. (true, r);
  is_revision_present = λ rev r. true;
  fetch = λ rev r. (true, r);
  checkout = λ rev r. (true, r);
}

abbrev request : ChangeRevisionRequest
request = record {
  repo = some (codes "https://git/a");
  current_revision = sha_b;
  previous_revision = sha_a;
  paths = codes "app" ∷ [];
}

abbrev world : World (Unit {0})
world = record { cache = []; copy = tt }

change_revision_answer_example :
    let (r, t) = get_change_revision (some (native_git_client run_cmd m remote)) request world in
    Answers run_cmd m remote request world r × IsSound run_cmd t.cache
change_revision_answer_example =
    change_revision_answer run_cmd m remote request world (empty-IsSound run_cmd)

abbrev wants : Text → Request
wants rev = record { revision = rev; allow_concurrent = true }

abbrev held_once : Copy
held_once = record {
  state = record {
    revision = sha_b;
    has_init_closer = true;
    process_count = 1;
    allow_concurrent = true;
  };
  holders = wants sha_b ∷ [];
  checked_out = sha_b;
}

abbrev held_twice : Copy
held_twice = record held_once {
  state = record {
    revision = sha_b;
    has_init_closer = true;
    process_count = 2;
    allow_concurrent = true;
  };
  holders = wants sha_b ∷ wants sha_b ∷ [];
}

held_twice-Reach : Reach held_twice
unfolding lock new_copy text_eq may_join new_repository_state initialize
held_twice-Reach =
    after (after start (initializes (wants sha_b) held_once.state (λ e. cc) refl))
      (joins (wants sha_b) true held_twice.state (λ e. cc) refl)

lock_holders_example : IsConsistent held_twice
lock_holders_example = lock_holders held_twice held_twice-Reach
