-- ===== src/Git/Keys.antt =====
-- The cache keys of reposerver/cache/cache.go. A repository's URL may itself contain the separator.
use argocd_monorepo_controll.Base.{
  ℕ, ◌≡◌, ◌≢◌, ◌↔◌, refl, ap, Text, codes, true, [], ◌∷◌, ◌++◌, arith, length, length-append,
  append_assoc, sym, ◌∙◌,
}
use argocd_monorepo_controll.Git.{is_commit_sha, list_revisions_key, diff_tree_key}

length-commit_sha : (sha : Text) → is_commit_sha sha ≡ true → length sha ≡ 40
unfolding is_commit_sha
length-commit_sha sha h = ground arith

-- Suffixes of the same length are cut off.
append_inj_right :
    (xs ys s t : Text) → xs ++ s ≡ ys ++ t → length s ≡ length t → (xs ≡ ys) × (s ≡ t)
append_inj_right [] [] s t e h = (refl, e)
append_inj_right [] (y ∷ ys) s t e h = absurd (omega (arith, ap length e, length-append ys t))
append_inj_right (x ∷ xs) [] s t e h = absurd (omega (arith, ap length e, length-append xs s))
append_inj_right (x ∷ xs) (y ∷ ys) s t e h =
    let (p, q) = append_inj_right xs ys s t (cc) h in (cc, q)

cons_inj : (x : ℕ) (s t : Text) → x ∷ s ≡ x ∷ t → s ≡ t
cons_inj x s t e = cc

append_inj_left : (p s t : Text) → p ++ s ≡ p ++ t → s ≡ t
append_inj_left [] s t e = e
append_inj_left (x ∷ p) s t e = append_inj_left p s t (cons_inj x _ _ e)

-- The end of a key, a commit behind a bar.
key_end :
    (u v a b : Text)
    → is_commit_sha a ≡ true
    → is_commit_sha b ≡ true
    → u ++ (codes "|" ++ a) ≡ v ++ (codes "|" ++ b)
    → (u ≡ v) × (a ≡ b)
key_end u v a b ha hb e =
    let (p, q) =
      append_inj_right u v (codes "|" ++ a) (codes "|" ++ b) e
        (omega (arith, length-commit_sha a ha, length-commit_sha b hb)) in
    (p, cons_inj b'|' a b q)

pub diff_tree_key_inj :
    (u v a b : Text)
    → is_commit_sha a ≡ true
    → is_commit_sha b ≡ true
    → diff_tree_key u a ≡ diff_tree_key v b
    → (u ≡ v) × (a ≡ b)
unfolding diff_tree_key
diff_tree_key_inj u v a b ha hb e =
    key_end u v a b ha hb (append_inj_left (codes "difftree|") _ _ e)

-- Two cache entries for lists of revisions between commits have the same key only if they are for
-- the same repository and commits, whatever the repository's URL holds.
pub list_revisions_key_inj :
    (u v a b c d : Text)
    → is_commit_sha a ≡ true
    → is_commit_sha b ≡ true
    → is_commit_sha c ≡ true
    → is_commit_sha d ≡ true
    → list_revisions_key u a c ≡ list_revisions_key v b d
    → (u ≡ v) × (a ≡ b) × (c ≡ d)
unfolding list_revisions_key
list_revisions_key_inj u v a b c d ha hb hc hd e =
    let whole = append_inj_left (codes "listrevisions|") _ _ e in
    let grouped = regroup u a c ∙ whole ∙ sym (regroup v b d) in
    let (front, back) = key_end (u ++ (codes "|" ++ a)) (v ++ (codes "|" ++ b)) c d hc hd grouped in
    let (p, q) = key_end u v a b ha hb front in (p, q, back)
  where
    regroup :
        (x y z : Text)
        → (x ++ (codes "|" ++ y)) ++ (codes "|" ++ z) ≡ x ++ (codes "|" ++ (y ++ (codes "|" ++ z)))
    regroup x y z = append_assoc x (codes "|" ++ y) (codes "|" ++ z)

-- No entry for a list of revisions has the key of an entry for the files of a commit.
pub list_revisions_key-ne-diff_tree_key :
    (u v a b c : Text) → list_revisions_key u a b ≢ diff_tree_key v c
unfolding list_revisions_key diff_tree_key
list_revisions_key-ne-diff_tree_key u v a b c e = ground arith

-- Two entries for lists of revisions between commits have the same cache key only if they are for
-- the same repository and commits, whatever the repository's URL holds, and none has the key of an
-- entry for the files of a commit.
pub list_revisions_key-separates :
    (u v a b c d : Text)
    → is_commit_sha a ≡ true
    → is_commit_sha b ≡ true
    → is_commit_sha c ≡ true
    → is_commit_sha d ≡ true
    → ((list_revisions_key u a c ≡ list_revisions_key v b d) ↔ ((u ≡ v) × (a ≡ b) × (c ≡ d)))
      × (list_revisions_key u a c ≢ diff_tree_key v d)
list_revisions_key-separates u v a b c d ha hb hc hd = (
  (
    list_revisions_key_inj u v a b c d ha hb hc hd,
    (λ (p, q, r).
        ap (λ x. list_revisions_key x a c) p
        ∙ ap (λ x. list_revisions_key v x c) q
        ∙ ap (λ x. list_revisions_key v b x) r),
  ),
  list_revisions_key-ne-diff_tree_key u v a c d,
)
