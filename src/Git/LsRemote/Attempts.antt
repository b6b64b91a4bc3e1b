-- ===== src/Git/LsRemote/Attempts.antt =====
-- The loop of LsRemote over its attempts.
use argocd_monorepo_controll.Base.{
  ℕ, zero, suc, ◌+◌, ◌<◌, ◌≡◌, subst, Text, List, Option, none, some, arith,
}
use argocd_monorepo_controll.Git.LsRemote.{
  Reference, ReferenceNames, ls_remote_once, attempt_from, ls_remote,
}

module _ (names : ReferenceNames) (max_version : Text → List Text → Option Text) (revision : Text)
    (get_refs : ℕ → Option (List Reference)) where
  abbrev outcome : ℕ → Option Text
  outcome i = ls_remote_once names max_version revision (get_refs i)

  attempt_from-first :
      (n k i : ℕ) (res : Text)
      → i < n
      → ((j : ℕ) → j < i → outcome (k + j) ≡ none)
      → outcome (k + i) ≡ some res
      → attempt_from names max_version revision get_refs n k ≡ some res
  unfolding attempt_from
  attempt_from-first zero k i res h fails found = absurd (omega (arith, h))
  attempt_from-first (suc n) k zero res h fails found =
      let here : k + 0 ≡ k = omega arith in
      let f = subst (λ x. outcome x ≡ some res) here found in rw f
  attempt_from-first (suc n) k (suc i) res h fails found =
      let here : k + 0 ≡ k = omega arith in
      let f = subst (λ x. outcome x ≡ none) here (fails 0 (omega arith)) in
      let shift : (j : ℕ) → k + suc j ≡ suc k + j = λ j. omega arith in
      rw f (
        attempt_from-first n (suc k) i res (omega (arith, h))
          (λ j l. subst (λ x. outcome x ≡ none) (shift j) (fails (suc j) (omega (arith, l))))
          (subst (λ x. outcome x ≡ some res) (shift i) found))

-- If the attempts before one fail and that one, within the number of attempts, resolves the
-- revision, then LsRemote returns what it resolves to.
pub ls_remote_first :
    (names : ReferenceNames) (max_version : Text → List Text → Option Text) (revision : Text)
    (get_refs : ℕ → Option (List Reference)) (max_attempts_count i : ℕ) (res : Text)
    → i < max_attempts_count
    → ((j : ℕ) → j < i → ls_remote_once names max_version revision (get_refs j) ≡ none)
    → ls_remote_once names max_version revision (get_refs i) ≡ some res
    → ls_remote names max_version max_attempts_count get_refs revision ≡ some res
unfolding ls_remote
ls_remote_first names max_version revision get_refs n i res h fails found =
    let plain : (j : ℕ) → j ≡ 0 + j = λ j. omega arith in
    let once = λ (j : ℕ). ls_remote_once names max_version revision (get_refs j) in
    attempt_from-first names max_version revision get_refs n 0 i res h
      (λ j l. subst (λ x. once x ≡ none) (plain j) (fails j l))
      (subst (λ x. once x ≡ some res) (plain i) found)
