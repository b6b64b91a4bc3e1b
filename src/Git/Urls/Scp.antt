-- ===== src/Git/Urls/Scp.antt =====
-- The two spellings of an SSH URL.
use argocd_monorepo_controll.Base.{
  ℕ, ◌≡◌, refl, sym, ap, ◌∙◌, Text, codes, text_eq, text_eq_refl, starts_with, trim_prefix_of_none,
  trim_prefix-append, is_white, trim_space, IsGraphic, trim_space_of_graphic, true, false, ◌||◌, [],
  ◌∷◌, ◌++◌, append_assoc, Option, none, some, All, All-append, ◌==◌, arith,
}
use argocd_monorepo_controll.Git.Urls.{
  is_empty, trim_suffix, lower, to_lower, replace_first, ensure_prefix, has, cut_last, is_ssh_url,
  ssh_scheme, full_url, parsed, normalize_git_url, same_url,
}

-- No white space and no upper case letter.
abbrev pub IsPlain : ℕ → Type 0
IsPlain c = IsGraphic c × (lower c ≡ c)

-- A user, a host and a path, as they stand in an SSH URL.
pub record IsLocation (u h p : Text) : Type 0 where
  pub plain_user : All IsPlain u
  pub plain_host : All IsPlain h
  pub plain_path : All IsPlain p
  pub user_slash : has b'/' u ≡ false
  pub user_colon : has b':' u ≡ false
  pub host_colon : has b':' h ≡ false
  pub host_at : has b'@' h ≡ false
  pub path_at : has b'@' p ≡ false

abbrev pub behind_user : Text → Text → Text
behind_user u rest = u ++ b'@' ∷ rest

-- `user@host:path` and `ssh://user@host/path`.
abbrev pub scp_form : Text → Text → Text → Text
scp_form u h p = behind_user u (h ++ b':' ∷ p)

abbrev slash_form : Text → Text → Text → Text
slash_form u h p = behind_user u (h ++ b'/' ∷ p)

abbrev pub scheme_form : Text → Text → Text → Text
scheme_form u h p = ssh_scheme ++ slash_form u h p

-- What both are parsed as.
abbrev pub common : Text → Text → Text → Text
common u h p = trim_suffix (scheme_form u h p) (codes ".git")

to_lower_plain : (s : Text) → All IsPlain s → to_lower s ≡ s
to_lower_plain [] h = refl
to_lower_plain (c ∷ s) h = rw (h.0.1, to_lower_plain s h.1)

plain-IsGraphic : (s : Text) → All IsPlain s → All IsGraphic s
plain-IsGraphic [] h = tt
plain-IsGraphic (c ∷ s) h = (h.0.0, plain-IsGraphic s h.1)

cut_last-none : (c : ℕ) (s : Text) → has c s ≡ false → cut_last c s ≡ none
unfolding cut_last
cut_last-none c [] e = refl
cut_last-none c (d ∷ s) e = ground (arith, cut_last-none c s)

cut_last-append : (c : ℕ) (u s : Text) → has c s ≡ false → cut_last c (u ++ c ∷ s) ≡ some (u, s)
unfolding cut_last
cut_last-append c [] s e = rw (cut_last-none c s e) (ground arith)
cut_last-append c (d ∷ u) s e = rw (cut_last-append c u s e)

has-append : (c : ℕ) (s t : Text) → has c (s ++ t) ≡ (has c s || has c t)
has-append c [] t = refl
has-append c (d ∷ s) t = ground (arith, has-append c s t)

replace_first-append :
    (old new : ℕ) (s t : Text)
    → has old s ≡ false
    → replace_first old new (s ++ old ∷ t) ≡ s ++ new ∷ t
unfolding replace_first
replace_first-append old new [] t e = ground arith
replace_first-append old new (c ∷ s) t e = ground (arith, replace_first-append old new s t)

starts_with-append : (s t : Text) → starts_with (s ++ t) s ≡ true
unfolding starts_with
starts_with-append [] t = refl
starts_with-append (c ∷ s) t = ground (arith, starts_with-append s t)

-- A text that begins with a user has no scheme.
no_scheme :
    (u rest : Text) → has b':' u ≡ false → starts_with (behind_user u rest) ssh_scheme ≡ false
unfolding starts_with
no_scheme [] rest e = refl
no_scheme (a ∷ []) rest e = ground arith
no_scheme (a ∷ b ∷ []) rest e = ground arith
no_scheme (a ∷ b ∷ c ∷ []) rest e = ground arith
no_scheme (a ∷ b ∷ c ∷ d ∷ u) rest e = ground arith

module _ (u h p : Text) (l : IsLocation u h p) where
  -- The host and the path, behind a colon or a slash.
  has-rest : (sep : ℕ) → (sep == b'@') ≡ false → has b'@' (h ++ sep ∷ p) ≡ false
  has-rest sep e = rw (has-append b'@' h (sep ∷ p), l.host_at, l.path_at, e)

  abbrev IsUrl : Text → Type 0
  IsUrl s = (All IsPlain s) × (to_lower (trim_space s) ≡ s)

  graphic-IsUrl : (s : Text) → All IsPlain s → to_lower (trim_space s) ≡ s
  graphic-IsUrl s k = rw (trim_space_of_graphic s (plain-IsGraphic s k), to_lower_plain s k)

  rest-IsPlain : (sep : ℕ) → IsPlain sep → All IsPlain (behind_user u (h ++ sep ∷ p))
  unfolding is_white
  rest-IsPlain sep k =
      All-append IsPlain u (b'@' ∷ (h ++ sep ∷ p)) l.plain_user
        ((refl, refl), All-append IsPlain h (sep ∷ p) l.plain_host (k, l.plain_path))

  -- Both spellings have the user `u`.
  user_of_rest :
      (sep : ℕ)
      → (sep == b'@') ≡ false
      → is_empty (h ++ sep ∷ p) ≡ false
      → is_ssh_url (behind_user u (h ++ sep ∷ p)) ≡ some u
  unfolding is_ssh_url
  user_of_rest sep e n = rw (
    trim_prefix_of_none (behind_user u (h ++ sep ∷ p)) ssh_scheme
        (no_scheme u (h ++ sep ∷ p) l.user_colon),
    cut_last-append b'@' u (h ++ sep ∷ p) (has-rest sep e),
    n,
    l.user_slash,
    l.user_colon,
  )

  user_of_scheme : is_empty (h ++ b'/' ∷ p) ≡ false → is_ssh_url (scheme_form u h p) ≡ some u
  unfolding is_ssh_url
  user_of_scheme n = rw (
    trim_prefix-append ssh_scheme (slash_form u h p),
    cut_last-append b'@' u (h ++ b'/' ∷ p) (has-rest b'/' refl),
    n,
    l.user_slash,
    l.user_colon,
  )

  colon_to_slash : replace_first b':' b'/' (scp_form u h p) ≡ slash_form u h p
  colon_to_slash =
      ap (replace_first b':' b'/') (sym (append_assoc u (b'@' ∷ h) (b':' ∷ p)))
      ∙ replace_first-append b':' b'/' (u ++ b'@' ∷ h) p
          (rw (has-append b':' u (b'@' ∷ h), l.user_colon, l.host_colon))
      ∙ append_assoc u (b'@' ∷ h) (b'/' ∷ p)

  is_empty-rest : (sep : ℕ) (s : Text) → is_empty (s ++ sep ∷ p) ≡ false
  unfolding text_eq
  is_empty-rest sep [] = refl
  is_empty-rest sep (c ∷ s) = refl

  full_url-scp : full_url (scp_form u h p) ≡ scheme_form u h p
  unfolding full_url ensure_prefix
  full_url-scp = rw (
    user_of_rest b':' refl (is_empty-rest b':' h),
    no_scheme u (h ++ b':' ∷ p) l.user_colon,
    colon_to_slash,
    no_scheme u (h ++ b'/' ∷ p) l.user_colon,
  )

  full_url-scheme : full_url (scheme_form u h p) ≡ scheme_form u h p
  unfolding full_url
  full_url-scheme = rw (user_of_scheme (is_empty-rest b'/' h))

  module _ (parse : Text → Option Text) where
    normalize_git_url-scp : normalize_git_url parse (scp_form u h p) ≡ parsed parse (common u h p)
    unfolding normalize_git_url is_white
    normalize_git_url-scp =
        rw (graphic-IsUrl (scp_form u h p) (rest-IsPlain b':' (refl, refl)), full_url-scp)

    normalize_git_url-scheme :
        normalize_git_url parse (scheme_form u h p) ≡ parsed parse (common u h p)
    unfolding normalize_git_url is_white
    normalize_git_url-scheme =
        let k =
          All-append IsPlain ssh_scheme (slash_form u h p)
            (
              (refl, refl),
              ((refl, refl), ((refl, refl), ((refl, refl), ((refl, refl), ((refl, refl), tt))))),
            )
            (rest-IsPlain b'/' (refl, refl)) in
        rw (graphic-IsUrl (scheme_form u h p) k, full_url-scheme)

same_if_normal :
    (parse : Text → Option Text) (a b n : Text)
    → normalize_git_url parse a ≡ n
    → normalize_git_url parse b ≡ n
    → is_empty n ≡ false
    → same_url parse a b ≡ true
unfolding same_url
same_if_normal parse a b n e f k = rw (e, f, k) (rw (k, text_eq_refl n))

-- `user@host:path` and `ssh://user@host/path` are the same repository, where the user has no slash
-- or colon, the host no colon, host and path no "@", all three no space and no upper case, and the
-- parser of URLs returns a text that is not empty without its scheme.
pub same_url-scp :
    (parse : Text → Option Text) (u h p : Text) (l : IsLocation u h p)
    → is_empty (parsed parse (common u h p)) ≡ false
    → same_url parse (scp_form u h p) (scheme_form u h p) ≡ true
same_url-scp parse u h p l k =
    same_if_normal parse (scp_form u h p) (scheme_form u h p) (parsed parse (common u h p))
      (normalize_git_url-scp u h p l parse) (normalize_git_url-scheme u h p l parse) k
