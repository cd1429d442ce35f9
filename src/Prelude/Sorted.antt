-- ===== src/Prelude/Sorted.antt =====
-- Maps whose keys ascend: each entry is the one that `lookup` finds.
use clew.Prelude.{ℕ, ◌<◌, ◌≡◌, true, false, some, [], ◌∷◌, arith, inl, inr}
use clew.Prelude.Tests.{ltb, ◌==◌, ==_refl, if◌then◌else◌, Bool-cases}
use clew.Prelude.Map.{Map, lookup, insert, remove, Every, Every-insert, Every-remove, Every-imp}

module _ {ℓ} {V : Type ℓ} where
  abbrev pub IsSorted : Map V → Type 0
  IsSorted [] = Unit
  IsSorted ((k, v) ∷ m) = Every (λ j _. k < j) m × IsSorted m

  above : (k j : ℕ) (m : Map V) → k < j → Every (λ i _. j < i) m → Every (λ i _. k < i) m
  above k j m h = Every-imp (λ i _. j < i) (λ i _. k < i) m (λ i v p. omega arith)

  pub insert-IsSorted : (k : ℕ) (v : V) (m : Map V) → IsSorted m → IsSorted (insert k v m)
  unfolding insert
  insert-IsSorted k v [] h = (tt, tt)
  insert-IsSorted k v ((j, w) ∷ m) h = elim (Bool-cases (ltb k j)) [
    | inl before ↦ rw before ((ground arith, above k j m (ground arith) h.0), h)
    | inr not_before ↦ rw not_before (elim (Bool-cases (j == k)) [
      | inl here ↦ rw here (replace here)
      | inr after ↦
          rw after (Every-insert (λ i _. j < i) k v m (ground arith) h.0, insert-IsSorted k v m h.1)
    ])
  ]
    where
      replace : (j == k) ≡ true → IsSorted ((k, v) ∷ m)
      replace e = let q : j ≡ k = ground arith in (rw (← q) h.0, h.1)

  pub remove-IsSorted : (k : ℕ) (m : Map V) → IsSorted m → IsSorted (remove k m)
  unfolding remove
  remove-IsSorted k [] h = h
  remove-IsSorted k ((j, w) ∷ m) h = elim (Bool-cases (j == k)) [
    | inl here ↦ rw here (remove-IsSorted k m h.1)
    | inr other ↦ rw other (Every-remove (λ i _. j < i) k m h.0, remove-IsSorted k m h.1)
  ]

  -- An entry of a sorted map is found under its key.
  pub Every-lookup_self : (m : Map V) → IsSorted m → Every (λ k v. lookup k m ≡ some v) m
  unfolding lookup
  Every-lookup_self [] h = tt
  Every-lookup_self ((j, w) ∷ m) h = (rw ==_refl, both m h.0 (Every-lookup_self m h.1))
    where
      both :
          (l : Map V)
          → Every (λ i _. j < i) l
          → Every (λ k v. lookup k m ≡ some v) l
          → Every (λ k v. (if j == k then some w else lookup k m) ≡ some v) l
      both [] p q = tt
      both ((i, u) ∷ l) p q = (let e : (j == i) ≡ false = ground arith in rw e q.0, both l p.1 q.1)
