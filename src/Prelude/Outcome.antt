-- ===== src/Prelude/Outcome.antt =====
-- Rust's `Result`, and methods on `&mut self` that may fail: what was written before an early
-- return stays written, so the state comes back beside the error.
use mathlib.Core.Path.{◌≡◌, refl, ap}
use mathlib.Core.Logic.{◌⊎◌, inl, inr}
use mathlib.Core.Bool.{Bool, true, false}
use mathlib.Core.List.{List, [], ◌∷◌}
use mathlib.Core.Option.{Option, none, some}

pub data Result {ℓ} (E A : Type ℓ) : Type ℓ where
  ok : A → Result E A
  err : E → Result E A

infixl 5 ◌>>=◌ ◌>>◌
abbrev pub ◌>>=◌ {ℓ} : {E A B : Type ℓ} → Result E A → (A → Result E B) → Result E B
ok a >>= f = f a
err e >>= f = err e

abbrev pub ◌>>◌ {ℓ} : {E A B : Type ℓ} → Result E A → Result E B → Result E B
ok _ >> k = k
err e >> k = err e

-- `if bad { return Err(e) }`
abbrev pub reject : {E : Type 0} → Bool → E → Result E (Unit {0})
reject true e = err e
reject false e = ok tt

-- `option.ok_or(e)`
abbrev pub ok_or {ℓ} : {E A : Type ℓ} → Option A → E → Result E A
ok_or none e = err e
ok_or (some a) e = ok a

-- `result.map_err(f)`, and the conversion that `?` makes.
abbrev pub map_err {ℓ} : {E F A : Type ℓ} → (E → F) → Result E A → Result F A
map_err f (ok a) = ok a
map_err f (err e) = err (f e)

abbrev pub is_ok {ℓ} : {E A : Type ℓ} → Result E A → Bool
is_ok (ok _) = true
is_ok (err _) = false

-- `for x in xs { check(x)?; }`
unfoldable pub for_each {ℓ} :
    {E : Type 0} {A : Type ℓ} → (A → Result E (Unit {0})) → List A → Result E (Unit {0})
for_each f [] = ok tt
for_each f (x ∷ xs) = f x >> for_each f xs

-- A fallible read in a method that then goes on from the same state.
abbrev pub attempt {ℓ} : {E A B S : Type ℓ} → Result E A → S → (A → Result E B × S) → Result E B × S
attempt (ok a) s k = k a
attempt (err e) s k = (err e, s)

pub Result-cases {ℓ} :
    {E A : Type ℓ} (r : Result E A) → ((a : A) × (r ≡ ok a)) ⊎ ((e : E) × (r ≡ err e))
Result-cases (ok a) = inl (a, refl)
Result-cases (err e) = inr (e, refl)

pub ok-injective {ℓ} : {E A : Type ℓ} {a b : A} → ◌≡◌ {A = Result E A} (ok a) (ok b) → a ≡ b
ok-injective q = cc

-- What an answer says of the check before it.
pub checked :
    {E B : Type 0} (r : Result E (Unit {0})) (k : Result E B) (b : B)
    → r >> k ≡ ok b
    → (r ≡ ok tt) × (k ≡ ok b)
checked (ok a) k b q = (refl, q)
checked (err e) k b q = cc

pub passed : {E : Type 0} (bad : Bool) (e : E) → reject bad e ≡ ok tt → bad ≡ false
passed true e q = cc
passed false e q = refl

-- What an answer says of the value that it came from.
pub bound {ℓ} :
    {E A B : Type ℓ} (r : Result E A) (f : A → Result E B) (b : B)
    → r >>= f ≡ ok b
    → (a : A) × (r ≡ ok a) × (f a ≡ ok b)
bound (ok a) f b q = (a, refl, q)
bound (err e) f b q = cc

pub map_err-ok {ℓ} :
    {E F A : Type ℓ} (f : E → F) (r : Result E A) (a : A) → map_err f r ≡ ok a → r ≡ ok a
map_err-ok f (ok x) a q = let same : x ≡ a = ok-injective q in ap (λ y. ok y) same
map_err-ok f (err e) a q = cc
