-- ===== src/Controller/Queue/Cells.antt =====
-- The elements of the list and the pointers to them (container/list as appqueue.go uses it).
use argocd_monorepo_controll.Base.{
  ℕ, suc, ◌<◌, ◌≡◌, refl, ap, ◌≢◌, inl, inr, Text, Map, lookup, insert, text_eq, true, List, [],
  ◌∷◌, ◌++◌, none, some, All, arith, Bool-cases, any, ◌==◌,
}
use argocd_monorepo_controll.App.{Application}
use argocd_monorepo_controll.Controller.Queue.{AppQueueItem, Element, insert_cell, remove_cell}

-- The queue as a map from keys to applications, in queue order.
abbrev pub contents : List Element → Map Application
contents [] = []
contents (c ∷ cs) = (c.item.key, c.item.value) ∷ contents cs

-- Where the element of each key stands.
abbrev pub pointers : List Element → Map ℕ
pointers [] = []
pointers (c ∷ cs) = (c.item.key, c.id) ∷ pointers cs

abbrev pub NotId : ℕ → List Element → Type 0
NotId i [] = Unit {0}
NotId i (c ∷ cs) = (c.id ≢ i) × NotId i cs

-- The addresses are distinct, not nil, and below the next one.
abbrev pub HasFreshIds : ℕ → List Element → Type 0
HasFreshIds n [] = Unit {0}
HasFreshIds n (c ∷ cs) = (0 < c.id) × (c.id < n) × NotId c.id cs × HasFreshIds n cs

pub NotId-of_fresh : (n : ℕ) (cs : List Element) → HasFreshIds n cs → NotId n cs
NotId-of_fresh n [] h = tt
NotId-of_fresh n (c ∷ cs) h = ((λ e. omega arith), NotId-of_fresh n cs h.3)

pub HasFreshIds-suc : (n : ℕ) (cs : List Element) → HasFreshIds n cs → HasFreshIds (suc n) cs
HasFreshIds-suc n [] h = tt
HasFreshIds-suc n (c ∷ cs) h = (h.0, omega arith, h.2, HasFreshIds-suc n cs h.3)

pointer-ne :
    (i j : ℕ) (k : Text) (cs : List Element) → NotId j cs → lookup k (pointers cs) ≡ some i → j ≢ i
unfolding lookup
pointer-ne i j k [] h e = cc
pointer-ne i j k (c ∷ cs) h e = ground (arith, pointer-ne i j k cs h.1)

pub pointer_listed :
    (i : ℕ) (k : Text) (cs : List Element)
    → lookup k (pointers cs) ≡ some i
    → any (λ c. c.id == i) cs ≡ true
unfolding lookup
pointer_listed i k [] e = cc
pointer_listed i k (c ∷ cs) e = ground (arith, pointer_listed i k cs)

-- A key has a pointer exactly if it is queued.
pub pointers-contents :
    (k : Text) (cs : List Element) → lookup k (pointers cs) ≡ none → lookup k (contents cs) ≡ none
unfolding lookup
pointers-contents k [] e = refl
pointers-contents k (c ∷ cs) e = ground (arith, pointers-contents k cs)

pub contents-pointers :
    (k : Text) (cs : List Element) → lookup k (contents cs) ≡ none → lookup k (pointers cs) ≡ none
unfolding lookup
contents-pointers k [] e = refl
contents-pointers k (c ∷ cs) e = ground (arith, contents-pointers k cs)

abbrev replaced : Element → ℕ → List Element → List Element
replaced new i cs = remove_cell i (insert_cell new i cs)

replaced-cons_ne :
    (new c : Element) (i : ℕ) (cs : List Element)
    → c.id ≢ i
    → replaced new i (c ∷ cs) ≡ c ∷ replaced new i cs
unfolding insert_cell remove_cell
replaced-cons_ne new c i cs h = ground arith

replaced-cons_self :
    (new c : Element) (i : ℕ) (cs : List Element) → c.id ≡ i → replaced new i (c ∷ cs) ≡ new ∷ cs
unfolding insert_cell remove_cell
replaced-cons_self new c i cs h = ground arith

-- Replacing the element of a key writes the new value at the key's place in the queue, and moves
-- the key's pointer.
module _ (n : ℕ) (item : AppQueueItem) (i : ℕ) where
  abbrev fresh : Element
  fresh = record { id = n; item = item }

  pub contents-replace :
      (cs : List Element)
      → HasFreshIds n cs
      → lookup item.key (pointers cs) ≡ some i
      → (contents (replaced fresh i cs) ≡ insert item.key item.value (contents cs))
        × (pointers (replaced fresh i cs) ≡ insert item.key n (pointers cs))
  unfolding lookup insert
  contents-replace [] f e = cc
  contents-replace (c ∷ cs) f e = elim (Bool-cases (text_eq c.item.key item.key)) [
    | inl hit ↦ rw (replaced-cons_self fresh c i cs (ground arith), hit) (refl, refl)
    | inr miss ↦
        let rest : lookup item.key (pointers cs) ≡ some i = rw miss at e in
        let (p, q) = contents-replace cs f.3 rest in
        rw (replaced-cons_ne fresh c i cs (pointer-ne i c.id item.key cs f.2 rest), miss)
          (ap (λ m. (c.item.key, c.item.value) ∷ m) p, ap (λ m. (c.item.key, c.id) ∷ m) q)
  ]

  NotId-replace : (j : ℕ) (cs : List Element) → NotId j cs → n ≢ j → NotId j (replaced fresh i cs)
  unfolding insert_cell remove_cell
  NotId-replace j [] h e = tt
  NotId-replace j (c ∷ cs) h e = elim (Bool-cases (c.id == i)) [
    | inl hit ↦ rw (replaced-cons_self fresh c i cs (ground arith)) (e, h.1)
    | inr miss ↦ rw (replaced-cons_ne fresh c i cs (ground arith)) (h.0, NotId-replace j cs h.1 e)
  ]

  pub HasFreshIds-replace :
      (cs : List Element) → 0 < n → HasFreshIds n cs → HasFreshIds (suc n) (replaced fresh i cs)
  unfolding insert_cell remove_cell
  HasFreshIds-replace [] p f = tt
  HasFreshIds-replace (c ∷ cs) p f = elim (Bool-cases (c.id == i)) [
    | inl hit ↦
        rw (replaced-cons_self fresh c i cs (ground arith))
          (p, omega arith, NotId-of_fresh n cs f.3, HasFreshIds-suc n cs f.3)
    | inr miss ↦ rw (replaced-cons_ne fresh c i cs (ground arith)) (
      f.0,
      omega arith,
      NotId-replace c.id cs f.2 (λ e. omega arith),
      HasFreshIds-replace cs p f.3,
    )
  ]

  pub All-replace {ℓ} :
      (P : AppQueueItem → Type ℓ) (cs : List Element)
      → P item
      → All (λ c. P c.item) cs
      → All (λ c. P c.item) (replaced fresh i cs)
  unfolding insert_cell remove_cell
  All-replace P [] p h = tt
  All-replace P (c ∷ cs) p h = elim (Bool-cases (c.id == i)) [
    | inl hit ↦ rw (replaced-cons_self fresh c i cs (ground arith)) (p, h.1)
    | inr miss ↦ rw (replaced-cons_ne fresh c i cs (ground arith)) (h.0, All-replace P cs p h.1)
  ]

-- A new element at the end.
module _ (n : ℕ) (item : AppQueueItem) where
  abbrev last : List Element
  last = (record { id = n; item = item }) ∷ []

  pub contents-append :
      (cs : List Element)
      → lookup item.key (pointers cs) ≡ none
      → (contents (cs ++ last) ≡ insert item.key item.value (contents cs))
        × (pointers (cs ++ last) ≡ insert item.key n (pointers cs))
  unfolding lookup insert
  contents-append [] e = (refl, refl)
  contents-append (c ∷ cs) e = elim (Bool-cases (text_eq c.item.key item.key)) [
    | inl hit ↦ cc (rw hit at e)
    | inr miss ↦
        let (p, q) = contents-append cs (rw miss at e) in
        rw miss (ap (λ m. (c.item.key, c.item.value) ∷ m) p, ap (λ m. (c.item.key, c.id) ∷ m) q)
  ]

  NotId-append : (j : ℕ) (cs : List Element) → NotId j cs → n ≢ j → NotId j (cs ++ last)
  NotId-append j [] h e = (e, tt)
  NotId-append j (c ∷ cs) h e = (h.0, NotId-append j cs h.1 e)

  pub HasFreshIds-append :
      (cs : List Element) → 0 < n → HasFreshIds n cs → HasFreshIds (suc n) (cs ++ last)
  HasFreshIds-append [] p f = (p, omega arith, tt, tt)
  HasFreshIds-append (c ∷ cs) p f =
      (f.0, omega arith, NotId-append c.id cs f.2 (λ e. omega arith), HasFreshIds-append cs p f.3)
