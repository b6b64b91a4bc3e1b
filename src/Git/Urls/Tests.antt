-- ===== src/Git/Urls/Tests.antt =====
-- Spellings of a repository's URL.
use argocd_monorepo_controll.Base.{◌≡◌, refl, Text, codes, Option, none, some}
use argocd_monorepo_controll.Git.Urls.{is_ssh_url, normalize_git_url}

abbrev parse : Text → Option Text
parse url = some url

ssh_test : is_ssh_url (codes "git@github.com:org/repo.git") ≡ some (codes "git")
unfolding is_ssh_url
ssh_test = refl

https_test : is_ssh_url (codes "https://git@github.com/org/repo") ≡ none
unfolding is_ssh_url
https_test = refl

normalize_test :
    normalize_git_url parse (codes " Git@GitHub.com:org/repo.git") ≡ codes "git@github.com/org/repo"
unfolding normalize_git_url
normalize_test = refl
