-- ===== src/Prelude/Map.antt =====
-- `BTreeMap` keyed by identifiers: an association list in the order of the keys. An identifier is
-- the big-endian value of its 16 bytes, whose order is that of `Uuid`.
use Prim.Native.Nat.{ℕ}
use mathlib.Core.Path.{◌≡◌, refl}
use mathlib.Core.Logic.{inl, inr}
use mathlib.Core.Bool.{Bool, true, false}
use mathlib.Core.Option.{Option, none, some}
use mathlib.Core.List.{List, [], ◌∷◌}
use native.Mathlib.Omega.{arith}
use mathlib.Core.Path.{subst₂}
use clew.Prelude.Tests.{ltb, ◌==◌, if◌then◌else◌, Bool-cases, ==_iff}

abbrev pub Map {ℓ} : Type ℓ → Type ℓ
Map V = List (ℕ × V)

abbrev pub map_option {ℓ κ} : {A : Type ℓ} {B : Type κ} → (A → B) → Option A → Option B
map_option f none = none
map_option f (some a) = some (f a)

abbrev pub is_some {ℓ} : {A : Type ℓ} → Option A → Bool
is_some none = false
is_some (some _) = true

pub some_inj {ℓ} : {A : Type ℓ} (a b : A) → some a ≡ some b → a ≡ b
some_inj a b e = cc

module _ {ℓ} {V : Type ℓ} where
  -- get, get_mut
  unfoldable pub lookup : ℕ → Map V → Option V
  lookup k [] = none
  lookup k ((j, v) ∷ m) = if j == k then some v else lookup k m

  -- contains_key
  abbrev pub contains_key : ℕ → Map V → Bool
  contains_key k m = is_some (lookup k m)

  -- insert, and a write through `get_mut`
  unfoldable pub insert : ℕ → V → Map V → Map V
  insert k v [] = (k, v) ∷ []
  insert k v ((j, w) ∷ m) =
      let rest = insert k v m in
      if ltb k j then (k, v) ∷ (j, w) ∷ m else if j == k then (k, v) ∷ m else (j, w) ∷ rest

  -- remove
  unfoldable pub remove : ℕ → Map V → Map V
  remove k [] = []
  remove k ((j, v) ∷ m) = let rest = remove k m in if j == k then rest else (j, v) ∷ rest

  unfoldable pub values : Map V → List V
  values [] = []
  values ((j, v) ∷ m) = v ∷ values m

  -- `for value in map.values_mut()`
  unfoldable pub map_values : (V → V) → Map V → Map V
  map_values f [] = []
  map_values f ((j, v) ∷ m) = (j, f v) ∷ map_values f m

  pub lookup-insert :
      (j k : ℕ) (v : V) (m : Map V)
      → lookup j (insert k v m) ≡ (if k == j then some v else lookup j m)
  unfolding lookup insert
  lookup-insert j k v [] = refl
  lookup-insert j k v ((i, w) ∷ m) = ground (arith, lookup-insert j k v m)

  pub lookup-remove :
      (j k : ℕ) (m : Map V) → lookup j (remove k m) ≡ (if k == j then none else lookup j m)
  unfolding lookup remove
  lookup-remove j k [] = ground arith
  lookup-remove j k ((i, w) ∷ m) = ground (arith, lookup-remove j k m)

  pub lookup-map_values :
      (j : ℕ) (f : V → V) (m : Map V) → lookup j (map_values f m) ≡ map_option f (lookup j m)
  unfolding lookup map_values
  lookup-map_values j f [] = refl
  lookup-map_values j f ((i, w) ∷ m) = ground (arith, lookup-map_values j f m)

pub lookup-nil {ℓ} : {V : Type ℓ} (j : ℕ) → lookup {V = V} j [] ≡ none
unfolding lookup
lookup-nil j = refl

pub ruleset map_laws = (lookup-insert, lookup-remove, lookup-map_values, lookup-nil)

-- A property of every entry of the map.
module _ {ℓ κ} {V : Type ℓ} where
  abbrev pub Every : (ℕ → V → Type κ) → Map V → Type κ
  Every P [] = Unit
  Every P ((k, v) ∷ m) = P k v × Every P m

module _ {ℓ κ} {V : Type ℓ} (P : ℕ → V → Type κ) where
  pub Every-insert : (k : ℕ) (v : V) (m : Map V) → P k v → Every P m → Every P (insert k v m)
  unfolding insert
  Every-insert k v [] p h = (p, tt)
  Every-insert k v ((j, w) ∷ m) p h =
      elim (ltb k j)
        as (λ b. Every P (
          if b
          then (k, v) ∷ (j, w) ∷ m
          else if j == k
          then (k, v) ∷ m
          else (j, w) ∷ insert k v m)) [
            | true ↦ (p, h)
            | false ↦
                elim (j == k) as (λ b. Every P (if b then (k, v) ∷ m else (j, w) ∷ insert k v m)) [
                  | true ↦ (p, h.1)
                  | false ↦ (h.0, Every-insert k v m p h.1)
                ]
          ]

  pub Every-remove : (k : ℕ) (m : Map V) → Every P m → Every P (remove k m)
  unfolding remove
  Every-remove k [] h = h
  Every-remove k ((j, w) ∷ m) h =
      elim (j == k) as (λ b. Every P (if b then remove k m else (j, w) ∷ remove k m)) [
        | true ↦ Every-remove k m h.1
        | false ↦ (h.0, Every-remove k m h.1)
      ]

  pub Every-map_values :
      (f : V → V) (m : Map V)
      → ((k : ℕ) (v : V) → P k v → P k (f v))
      → Every P m
      → Every P (map_values f m)
  unfolding map_values
  Every-map_values f [] k h = h
  Every-map_values f ((j, w) ∷ m) k h = (k j w h.0, Every-map_values f m k h.1)

  pub Every-lookup : (k : ℕ) {v : V} (m : Map V) → lookup k m ≡ some v → Every P m → P k v
  unfolding lookup
  Every-lookup k [] e h = cc
  Every-lookup k {v} ((j, w) ∷ m) e h = elim (Bool-cases (j == k)) [
    | inl p ↦ subst₂ P ((==_iff j k).0 p) (some_inj w v (rw p at e)) h.0
    | inr p ↦ Every-lookup k m (rw p at e) h.1
  ]

-- From one property of every entry to another.
pub Every-imp {ℓ κ} :
    {V : Type ℓ} (P Q : ℕ → V → Type κ) (m : Map V)
    → ((k : ℕ) (v : V) → P k v → Q k v)
    → Every P m
    → Every Q m
Every-imp P Q [] f h = h
Every-imp P Q ((k, v) ∷ m) f h = (f k v h.0, Every-imp P Q m f h.1)
