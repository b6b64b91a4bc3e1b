-- ===== src/Base/Maps.antt =====
-- Go maps with string keys, as association lists in which a key stands at most once.
use Prim.Native.Nat.{◌+◌}
use mathlib.Core.Path.{◌≡◌, refl, subst}
use mathlib.Core.Logic.{◌≢◌, inl, inr}
use mathlib.Core.Bool.{Bool}
use mathlib.Core.List.{List, [], ◌∷◌}
use mathlib.Core.Option.{Option, none, some}
use native.Mathlib.Omega.{arith}
use argocd_monorepo_controll.Base.Tests.{if◌then◌else◌, is_some, Bool-cases}
use argocd_monorepo_controll.Base.Lists.{length}
use argocd_monorepo_controll.Base.Strings.{Text, text_eq, text_eq_iff, text_eq_refl}

abbrev pub Map {ℓ} : Type ℓ → Type ℓ
Map V = List (Text × V)

module _ {ℓ} {V : Type ℓ} where
  -- `v, ok := m[k]`.
  unfoldable pub lookup : Text → Map V → Option V
  lookup k [] = none
  lookup k ((j, v) ∷ m) = if text_eq j k then some v else lookup k m

  abbrev pub has : Text → Map V → Bool
  has k m = is_some (lookup k m)

  -- `m[k] = v`.
  unfoldable pub insert : Text → V → Map V → Map V
  insert k v [] = (k, v) ∷ []
  insert k v ((j, w) ∷ m) = if text_eq j k then (k, v) ∷ m else (j, w) ∷ insert k v m

  -- `delete(m, k)`.
  unfoldable pub delete : Text → Map V → Map V
  delete k [] = []
  delete k ((j, w) ∷ m) = if text_eq j k then delete k m else (j, w) ∷ delete k m

  pub lookup-insert :
      (k j : Text) (v : V) (m : Map V)
      → lookup j (insert k v m) ≡ (if text_eq k j then some v else lookup j m)
  unfolding lookup insert
  lookup-insert k j v [] = refl
  lookup-insert k j v ((i, w) ∷ m) =
      ground (arith, text_eq_iff k j, text_eq_iff i k, text_eq_iff i j, lookup-insert k j v m)

  pub lookup-insert_self : (k : Text) (v : V) (m : Map V) → lookup k (insert k v m) ≡ some v
  lookup-insert_self k v m = ground (arith, lookup-insert k k v m, text_eq_refl k)

  pub lookup-delete :
      (k j : Text) (m : Map V) → lookup j (delete k m) ≡ (if text_eq k j then none else lookup j m)
  unfolding lookup delete
  lookup-delete k j [] = ground arith
  lookup-delete k j ((i, w) ∷ m) =
      ground (arith, text_eq_iff k j, text_eq_iff i k, text_eq_iff i j, lookup-delete k j m)

  -- No entry has this key.
  abbrev pub Absent : Text → Map V → Type 0
  Absent k [] = Unit {0}
  Absent k ((j, v) ∷ m) = (j ≢ k) × Absent k m

  -- No key has two entries, so that `length` is Go's `len`.
  abbrev pub HasNodupKeys : Map V → Type 0
  HasNodupKeys [] = Unit {0}
  HasNodupKeys ((j, v) ∷ m) = Absent j m × HasNodupKeys m

  pub lookup-Absent : (k : Text) (m : Map V) → Absent k m → lookup k m ≡ none
  unfolding lookup
  lookup-Absent k [] h = refl
  lookup-Absent k ((j, v) ∷ m) h = ground (arith, text_eq_iff j k, lookup-Absent k m h.1)

  pub Absent-insert :
      (k j : Text) (v : V) (m : Map V) → k ≢ j → Absent j m → Absent j (insert k v m)
  unfolding insert
  Absent-insert k j v [] n h = (n, tt)
  Absent-insert k j v ((i, w) ∷ m) n h = elim (Bool-cases (text_eq i k)) [
    | inl e ↦ rw e (n, h.1)
    | inr e ↦ rw e (h.0, Absent-insert k j v m n h.1)
  ]

  pub Absent-delete : (k j : Text) (m : Map V) → Absent j m → Absent j (delete k m)
  unfolding delete
  Absent-delete k j [] h = tt
  Absent-delete k j ((i, w) ∷ m) h = elim (Bool-cases (text_eq i k)) [
    | inl e ↦ rw e (Absent-delete k j m h.1)
    | inr e ↦ rw e (h.0, Absent-delete k j m h.1)
  ]

  pub Absent-delete_self : (k : Text) (m : Map V) → Absent k (delete k m)
  unfolding delete
  Absent-delete_self k [] = tt
  Absent-delete_self k ((i, w) ∷ m) = elim (Bool-cases (text_eq i k)) [
    | inl e ↦ rw e (Absent-delete_self k m)
    | inr e ↦ rw e ((λ q. ground (arith, text_eq_iff i k)), Absent-delete_self k m)
  ]

  pub delete_of_Absent : (k : Text) (m : Map V) → Absent k m → delete k m ≡ m
  unfolding delete
  delete_of_Absent k [] h = refl
  delete_of_Absent k ((j, v) ∷ m) h = ground (arith, text_eq_iff j k, delete_of_Absent k m h.1)

  pub insert-HasNodupKeys :
      (k : Text) (v : V) (m : Map V) → HasNodupKeys m → HasNodupKeys (insert k v m)
  unfolding insert
  insert-HasNodupKeys k v [] h = (tt, tt)
  insert-HasNodupKeys k v ((j, w) ∷ m) h = elim (Bool-cases (text_eq j k)) [
    | inl e ↦ rw e (subst (λ i. Absent i m) ((text_eq_iff j k).0 e) h.0, h.1)
    | inr e ↦ rw e (
      Absent-insert k j v m (λ q. ground (arith, text_eq_iff j k)) h.0,
      insert-HasNodupKeys k v m h.1,
    )
  ]

  pub delete-HasNodupKeys : (k : Text) (m : Map V) → HasNodupKeys m → HasNodupKeys (delete k m)
  unfolding delete
  delete-HasNodupKeys k [] h = tt
  delete-HasNodupKeys k ((j, w) ∷ m) h = elim (Bool-cases (text_eq j k)) [
    | inl e ↦ rw e (delete-HasNodupKeys k m h.1)
    | inr e ↦ rw e (Absent-delete k j m h.0, delete-HasNodupKeys k m h.1)
  ]

  pub length-insert_of_none :
      (k : Text) (v : V) (m : Map V) → lookup k m ≡ none → length (insert k v m) ≡ length m + 1
  unfolding lookup insert
  length-insert_of_none k v [] e = omega arith
  length-insert_of_none k v ((j, w) ∷ m) e = ground (arith, length-insert_of_none k v m)

  pub length-insert_of_some :
      (k : Text) (v w : V) (m : Map V) → lookup k m ≡ some w → length (insert k v m) ≡ length m
  unfolding lookup insert
  length-insert_of_some k v w [] e = cc
  length-insert_of_some k v w ((j, u) ∷ m) e = ground (arith, length-insert_of_some k v w m)

  pub length-delete_of_some :
      (k : Text) (w : V) (m : Map V)
      → HasNodupKeys m
      → lookup k m ≡ some w
      → length (delete k m) + 1 ≡ length m
  unfolding lookup delete
  length-delete_of_some k w [] h e = cc
  length-delete_of_some k w ((j, u) ∷ m) h e = elim (Bool-cases (text_eq j k)) [
    | inl hit ↦
        rw (hit, delete_of_Absent k m (subst (λ i. Absent i m) ((text_eq_iff j k).0 hit) h.0))
          (omega arith)
    | inr miss ↦ rw miss (omega (arith, length-delete_of_some k w m h.1 (rw miss at e)))
  ]
