-- ===== src/Git/LsRemote/Resolves.antt =====
-- What LsRemote resolves a revision to.
use argocd_monorepo_controll.Base.{
  ◌≡◌, refl, ap, ◌∙◌, inl, inr, Text, text_eq, Map, lookup, lookup-insert, Bool, true, false, List,
  [], ◌∷◌, Option, none, some, Bool-cases,
}
use argocd_monorepo_controll.Git.LsRemote.{
  ReferenceType, hash_reference, symbolic_reference, invalid_reference, Reference, ReferenceNames,
  Scanned, returned, left, note_hash, note_type, get_git_tags, is_named, resolve_named, scan_refs,
  or_truncated, after_scan, or_head, max_or, resolve_in,
}

-- The hash of the last hash reference with this name.
abbrev pub hash_named : Bool → ReferenceType → Option Text
hash_named true (hash_reference hash) = some hash
hash_named _ _ = none

abbrev pub or_hash : Option Text → Option Text → Option Text
or_hash (some hash) old = some hash
or_hash none old = old

abbrev pub hash_of : Text → List Reference → Option Text
hash_of name [] = none
hash_of name (ref ∷ refs) =
    or_hash (hash_of name refs) (hash_named (text_eq ref.name name) ref.type)

abbrev pub hash_if : Bool → ReferenceType → Option Text → Option Text
hash_if true (hash_reference hash) rest = some hash
hash_if _ _ rest = rest

abbrev pub target_if : Bool → ReferenceType → Text → Text
target_if true (symbolic_reference target) to_resolve = target
target_if _ _ to_resolve = to_resolve

abbrev note_all : List Reference → Map Text → Map Text
note_all [] m = m
note_all (ref ∷ refs) m = note_all refs (note_hash ref m)

abbrev scanned : Option Text → Map Text → Text → Scanned
scanned (some hash) m to_resolve = returned hash
scanned none m to_resolve = left m to_resolve

module _ (names : ReferenceNames) (revision : Text) where
  -- The hash of the first hash reference with the name of the revision.
  abbrev pub first_hash : List Reference → Option Text
  first_hash [] = none
  first_hash (ref ∷ refs) = hash_if (is_named names revision ref) ref.type (first_hash refs)

  -- The target of the last symbolic reference with the name of the revision.
  abbrev pub last_target : List Reference → Text → Text
  last_target [] to_resolve = to_resolve
  last_target (ref ∷ refs) to_resolve =
      last_target refs (target_if (is_named names revision ref) ref.type to_resolve)

  named_round :
      (type : ReferenceType) (rest : Text → Scanned) (first : Option Text) (m : Map Text)
      (last : Text → Text) (to_resolve : Text)
      → ((t : Text) → rest t ≡ scanned first m (last t))
      → resolve_named type rest to_resolve
        ≡ scanned (hash_if true type first) m (last (target_if true type to_resolve))
  unfolding resolve_named
  named_round (hash_reference hash) rest first m last to_resolve ih = refl
  named_round (symbolic_reference target) rest first m last to_resolve ih = ih target
  named_round invalid_reference rest first m last to_resolve ih = ih to_resolve

  scan_refs-scanned :
      (refs : List Reference) (m : Map Text) (to_resolve : Text)
      → scan_refs names revision refs m to_resolve
        ≡ scanned (first_hash refs) (note_all refs m) (last_target refs to_resolve)
  unfolding scan_refs
  scan_refs-scanned [] m to_resolve = refl
  scan_refs-scanned (ref ∷ refs) m to_resolve = elim (Bool-cases (is_named names revision ref)) [
    | inl e ↦ rw e (
        named_round ref.type (scan_refs names revision refs (note_hash ref m)) (first_hash refs)
          (note_all refs (note_hash ref m)) (last_target refs) to_resolve
          (λ t. scan_refs-scanned refs (note_hash ref m) t))
    | inr e ↦ rw e (scan_refs-scanned refs (note_hash ref m) to_resolve)
  ]

not_hash :
    (b : Bool) (target : Text) (old : Option Text)
    → old ≡ or_hash (hash_named b (symbolic_reference target)) old
not_hash true target old = refl
not_hash false target old = refl

not_valid : (b : Bool) (old : Option Text) → old ≡ or_hash (hash_named b invalid_reference) old
not_valid true old = refl
not_valid false old = refl

lookup-note_type :
    (name own : Text) (type : ReferenceType) (m : Map Text)
    → lookup name (note_type own type m)
      ≡ or_hash (hash_named (text_eq own name) type) (lookup name m)
unfolding note_type
lookup-note_type name own (hash_reference hash) m =
    lookup-insert own name hash m
    ∙ elim (Bool-cases (text_eq own name)) [ inl e ↦ rw e | inr e ↦ rw e ]
lookup-note_type name own (symbolic_reference target) m =
    not_hash (text_eq own name) target (lookup name m)
lookup-note_type name own invalid_reference m = not_valid (text_eq own name) (lookup name m)

or_hash_assoc : (a b c : Option Text) → or_hash a (or_hash b c) ≡ or_hash (or_hash a b) c
or_hash_assoc (some a) b c = refl
or_hash_assoc none b c = refl

lookup-note_all :
    (name : Text) (refs : List Reference) (m : Map Text)
    → lookup name (note_all refs m) ≡ or_hash (hash_of name refs) (lookup name m)
unfolding note_hash
lookup-note_all name [] m = refl
lookup-note_all name (ref ∷ refs) m =
    lookup-note_all name refs (note_hash ref m)
    ∙ ap (or_hash (hash_of name refs)) (lookup-note_type name ref.name ref.type m)
    ∙ or_hash_assoc (hash_of name refs) (hash_named (text_eq ref.name name) ref.type)
        (lookup name m)

or_hash-none : (a : Option Text) → or_hash a none ≡ a
or_hash-none (some a) = refl
or_hash-none none = refl

-- The revision that the references are searched for.
abbrev pub wanted : ReferenceNames → (Text → List Text → Option Text) → Text → List Reference → Text
wanted names max_version revision refs =
    max_or (or_head revision) (max_version (or_head revision) (get_git_tags names refs))

-- A symbolic reference is resolved by the hash references, and what is left may be a truncated
-- commit.
abbrev pub by_target : Text → Text → List Reference → Option Text
by_target revision [] refs = or_truncated revision none
by_target revision (c ∷ target) refs = or_truncated revision (hash_of (c ∷ target) refs)

abbrev pub resolution : Text → Option Text → Text → List Reference → Option Text
resolution revision (some hash) target refs = some hash
resolution revision none target refs = by_target revision target refs

after_scanned :
    (revision : Text) (first : Option Text) (target : Text) (refs : List Reference)
    → after_scan revision (scanned first (note_all refs []) target)
      ≡ resolution revision first target refs
unfolding after_scan text_eq lookup
after_scanned revision (some hash) target refs = refl
after_scanned revision none [] refs = refl
after_scanned revision none (c ∷ target) refs =
    ap (or_truncated revision)
      (lookup-note_all (c ∷ target) refs [] ∙ or_hash-none (hash_of (c ∷ target) refs))

-- A revision is resolved, by the version constraint that it may be, to the hash of the first hash
-- reference with its name; else by the last symbolic reference with its name, to the hash of the
-- last hash reference that has the target's name; else, if it looks like a truncated commit, to
-- itself; and otherwise not at all.
pub resolve_in-resolution :
    (names : ReferenceNames) (max_version : Text → List Text → Option Text) (revision : Text)
    (refs : List Reference)
    → resolve_in names max_version revision refs
      ≡ resolution
          (wanted names max_version revision refs)
          (first_hash names (wanted names max_version revision refs) refs)
          (last_target names (wanted names max_version revision refs) refs [])
          refs
unfolding resolve_in
resolve_in-resolution names max_version revision refs =
    let w = wanted names max_version revision refs in
    ap (after_scan w) (scan_refs-scanned names w refs [] [])
    ∙ after_scanned w (first_hash names w refs) (last_target names w refs []) refs
