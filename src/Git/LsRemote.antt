-- ===== src/Git/LsRemote.antt =====
-- util/git/client.go: LsRemote, which resolves a revision against the references of the remote.
--
-- A reference and the two methods of its name are go-git's. The listing of the references is the
-- remote's at each attempt, `none` where it fails. The wait between attempts is left out.
pub mod Resolves
pub mod Attempts
use argocd_monorepo_controll.Base.{
  ℕ, zero, suc, ◌≡◌, refl, sym, ap, ◌∙◌, inl, inr, Text, codes, text_eq, Map, lookup, insert,
  lookup-insert, Bool, true, false, ◌||◌, List, [], ◌∷◌, Option, none, some, arith, Bool-cases,
  Option-cases, if◌then◌else◌,
}
use argocd_monorepo_controll.Git.{is_commit_sha, is_truncated_commit_sha}

pub data ReferenceType : Type 0 where
  hash_reference : Text → ReferenceType
  symbolic_reference : Text → ReferenceType
  invalid_reference : ReferenceType

-- The hash or the target goes with the type.
pub record Reference : Type 0 where
  pub name : Text
  pub type : ReferenceType

pub record ReferenceNames : Type 0 where
  pub short : Text → Text
  pub is_tag : Text → Bool

-- What the loop over the references returns, or leaves.
pub data Scanned : Type 0 where
  returned : Text → Scanned
  left : Map Text → Text → Scanned

-- `refToHash` behind a reference.
unfoldable pub note_type : Text → ReferenceType → Map Text → Map Text
unfolding insert
note_type name (hash_reference hash) ref_to_hash = insert name hash ref_to_hash
note_type name _ ref_to_hash = ref_to_hash

unfoldable pub note_hash : Reference → Map Text → Map Text
unfolding note_type
note_hash ref ref_to_hash = note_type ref.name ref.type ref_to_hash

-- A reference with the name of the revision; `rest` is the rounds after it, for the name that is
-- to be resolved.
unfoldable pub resolve_named : ReferenceType → (Text → Scanned) → Text → Scanned
resolve_named (hash_reference hash) rest to_resolve = returned hash
resolve_named (symbolic_reference target) rest to_resolve = rest target
resolve_named invalid_reference rest to_resolve = rest to_resolve

abbrev truncated : Text → Option Text
truncated revision = if is_truncated_commit_sha revision then some revision else none

abbrev pub or_truncated : Text → Option Text → Option Text
or_truncated revision none = truncated revision
or_truncated revision (some hash) = some hash

-- What follows the loop.
unfoldable pub after_scan : Text → Scanned → Option Text
unfolding lookup text_eq is_truncated_commit_sha
after_scan revision (returned hash) = some hash
after_scan revision (left ref_to_hash to_resolve) =
    or_truncated revision (if text_eq to_resolve [] then none else lookup to_resolve ref_to_hash)

abbrev pub or_head : Text → Text
or_head [] = codes "HEAD"
or_head (c ∷ revision) = c ∷ revision

abbrev pub max_or : Text → Option Text → Text
max_or revision none = revision
max_or revision (some max_v) = max_v

module _ (names : ReferenceNames) where
  unfoldable pub get_git_tags : List Reference → List Text
  get_git_tags [] = []
  get_git_tags (ref ∷ refs) =
      let rest = get_git_tags refs in
      if names.is_tag ref.name then names.short ref.name ∷ rest else rest

  unfoldable pub is_named : Text → Reference → Bool
  unfolding text_eq
  is_named revision ref = text_eq (names.short ref.name) revision || text_eq ref.name revision

  unfoldable pub scan_refs : Text → List Reference → Map Text → Text → Scanned
  unfolding is_named resolve_named note_hash
  scan_refs revision [] ref_to_hash to_resolve = left ref_to_hash to_resolve
  scan_refs revision (ref ∷ refs) ref_to_hash to_resolve =
      let rest = scan_refs revision refs (note_hash ref ref_to_hash) in
      if is_named revision ref then resolve_named ref.type rest to_resolve else rest to_resolve

  module _ (max_version : Text → List Text → Option Text) where
    -- What follows the listing of the references.
    unfoldable pub resolve_in : Text → List Reference → Option Text
    unfolding scan_refs after_scan get_git_tags
    resolve_in revision refs =
        let wanted =
          max_or (or_head revision) (max_version (or_head revision) (get_git_tags refs)) in
        after_scan wanted (scan_refs wanted refs [] [])

    abbrev resolve_listed : Text → Option (List Reference) → Option Text
    resolve_listed revision none = none
    resolve_listed revision (some refs) = resolve_in revision refs

    unfoldable pub ls_remote_once : Text → Option (List Reference) → Option Text
    unfolding is_commit_sha resolve_in
    ls_remote_once revision refs =
        if is_commit_sha revision then some revision else resolve_listed revision refs

    abbrev or_next : Option Text → Option Text → Option Text
    or_next none rest = rest
    or_next (some res) rest = some res

    -- The attempts left, and the number of the next one.
    unfoldable pub attempt_from : Text → (ℕ → Option (List Reference)) → ℕ → ℕ → Option Text
    unfolding ls_remote_once
    attempt_from revision get_refs zero attempt = none
    attempt_from revision get_refs (suc n) attempt =
        or_next (ls_remote_once revision (get_refs attempt))
          (attempt_from revision get_refs n (suc attempt))

    unfoldable pub ls_remote : ℕ → (ℕ → Option (List Reference)) → Text → Option Text
    unfolding attempt_from
    ls_remote max_attempts_count get_refs revision =
        attempt_from revision get_refs max_attempts_count 0
