-- ===== src/RepoServer/TempPaths/Tests.antt =====
-- Three clients, two of them with the same repository.
use argocd_monorepo_controll.Base.{
  ◌≡◌, ◌↔◌, refl, subst, inl, inr, Text, codes, text_eq, text_eq_iff, lookup, false, [], ◌∷◌,
  Option, none, some, Bool-cases,
}
use argocd_monorepo_controll.Git.Urls.{normalize_git_url}
use argocd_monorepo_controll.Paths.FilePath.{join}
use argocd_monorepo_controll.RepoServer.TempPaths.{
  RandomizedTempPaths, new_randomized_temp_paths, get_path, new_client,
}
use argocd_monorepo_controll.RepoServer.TempPaths.Runs.{
  State, Reach, start, asked, made, IsFree, clients_share,
}

abbrev parse : Text → Option Text
parse url = some url

abbrev root : Text
root = codes "/tmp/_argocd-repo"

abbrev scp : Text
scp = codes "git@a.b:c/d"

abbrev ssh : Text
ssh = codes "ssh://git@a.b/c/d"

abbrev https : Text
https = codes "https://a.b/c"

abbrev s0 : State
s0 = record { temp = new_randomized_temp_paths root; clients = [] }

abbrev s1 : State
s1 = made parse (some (codes "id1")) scp s0

abbrev s2 : State
s2 = made parse none ssh s1

abbrev s3 : State
s3 = made parse (some (codes "id3")) https s2

nothing-IsFree : (v : Text) → IsFree v s0.temp
unfolding lookup
nothing-IsFree v k e = cc

one-IsFree :
    (p : RandomizedTempPaths) (key path v : Text)
    → p.paths ≡ (key, path) ∷ []
    → text_eq path v ≡ false
    → IsFree v p
unfolding lookup
one-IsFree p key path v e f k g = elim (Bool-cases (text_eq key k)) [
  | inl b ↦
      (let h = rw (e, b) at g in let q : path ≡ v = cc in let t = (text_eq_iff path v).1 q in cc)
  | inr b ↦ (let h = rw (e, b) at g in cc)
]

s1-paths : s1.temp.paths ≡ (codes "git@a.b/c/d", join root (codes "id1")) ∷ []
unfolding new_client get_path
s1-paths = refl

s2-paths : s2.temp.paths ≡ (codes "git@a.b/c/d", join root (codes "id1")) ∷ []
unfolding new_client get_path
s2-paths = refl

s3-Reach : Reach parse root s3
unfolding new_client get_path
s3-Reach =
    asked (some (codes "id3")) https
      (asked none ssh (asked (some (codes "id1")) scp start (λ i e. nothing-IsFree (join root i)))
        (λ i e. cc))
      (λ i e.
        let same : codes "id3" ≡ i = cc in
        subst (λ x. IsFree (join root x) s2.temp) same
          (one-IsFree s2.temp (codes "git@a.b/c/d") (join root (codes "id1"))
            (join root (codes "id3")) s2-paths refl))

clients_share_example :
    (join root (codes "id1") ≡ join root (codes "id1"))
    ↔ (normalize_git_url parse ssh ≡ normalize_git_url parse scp)
unfolding new_client get_path
clients_share_example =
    clients_share parse root s3 1 2 ssh (join root (codes "id1")) scp (join root (codes "id1"))
      s3-Reach refl refl
