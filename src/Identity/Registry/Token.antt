-- ===== src/Identity/Registry/Token.antt =====
-- `constant_time_eq` decides equality of tokens of bytes.
use Prim.Native.Nat.{bit_or, bit_xor}
use clew.Prelude.{ℕ, zero, suc, ◌<◌, ◌≡◌, ◌↔◌, refl, Bool, true, not, ◌&&◌, ◌||◌, [], ◌∷◌, arith}
use clew.Prelude.Tests.{ltb, ◌==◌, ==_iff}
use clew.Prelude.Lists.{length, All}
use clew.Identity.Keys.{Bytes}
use clew.Identity.Registry.{difference, constant_time_eq}

-- A test that every pair of numbers below two bounds passes.
row : (ℕ → Bool) → ℕ → Bool
row test zero = true
row test (suc k) = row test k && test k

square : (ℕ → ℕ → Bool) → ℕ → ℕ → Bool
unfolding row
square test bound zero = true
square test bound (suc k) = square test bound k && row (test k) bound

row-passed : (test : ℕ → Bool) (bound y : ℕ) → y < bound → row test bound ≡ true → test y ≡ true
unfolding row
row-passed test zero y lt all = absurd (omega (arith, lt))
row-passed test (suc k) y lt all = ground (arith, row-passed test k y)

square-passed :
    (test : ℕ → ℕ → Bool) (bound m x y : ℕ)
    → x < m
    → y < bound
    → square test bound m ≡ true
    → test x y ≡ true
unfolding square
square-passed test bound zero x y lt lt' all = absurd (omega (arith, lt))
square-passed test bound (suc k) x y lt lt' all =
    ground (arith, square-passed test bound k x y, row-passed (test k) bound y lt')

-- Of two bytes: the exclusive or is a byte, and is 0 just where they are equal.
abbrev xor_fits : ℕ → ℕ → Bool
xor_fits x y =
    ltb (bit_xor x y) 256
    && ((not (bit_xor x y == 0) || x == y) && (not (x == y) || bit_xor x y == 0))

-- Their or is a byte, and is 0 just where both are 0.
abbrev or_fits : ℕ → ℕ → Bool
or_fits x y =
    ltb (bit_or x y) 256
    && ((not (bit_or x y == 0) || (x == 0 && y == 0))
        && (not (x == 0 && y == 0) || bit_or x y == 0))

xor_table : square xor_fits 256 256 ≡ true
unfolding square
xor_table = refl

or_table : square or_fits 256 256 ≡ true
unfolding square
or_table = refl

xor_byte : (x y : ℕ) → x < 256 → y < 256 → xor_fits x y ≡ true
xor_byte x y p q = square-passed xor_fits 256 256 x y p q xor_table

or_byte : (x y : ℕ) → x < 256 → y < 256 → or_fits x y ≡ true
or_byte x y p q = square-passed or_fits 256 256 x y p q or_table

abbrev pub IsBytes : Bytes → Type 0
IsBytes = All (λ b. b < 256)

difference_zero :
    (xs ys : Bytes) (acc : ℕ)
    → acc < 256
    → IsBytes xs
    → IsBytes ys
    → length xs ≡ length ys
    → (difference xs ys acc ≡ 0) ↔ ((acc ≡ 0) × (xs ≡ ys))
unfolding difference
difference_zero [] [] acc a p q e = (λ h. (h, refl), λ h. h.0)
difference_zero [] (y ∷ ys) acc a p q e = absurd (omega arith)
difference_zero (x ∷ xs) [] acc a p q e = absurd (omega arith)
difference_zero (x ∷ xs) (y ∷ ys) acc a p q e =
    let xor_fact = xor_byte x y p.0 q.0 in
    let xor_small : bit_xor x y < 256 = ground arith in
    let or_fact = or_byte acc (bit_xor x y) a xor_small in
    let rest =
      difference_zero xs ys (bit_or acc (bit_xor x y)) (ground arith) p.1 q.1 (omega arith) in
    (
      λ h. let both = rest.0 h in (ground arith, ground arith),
      λ h. rest.1 (ground arith, ground arith),
    )

-- The comparison without an early exit accepts exactly the equal token, for tokens of bytes of
-- one length.
pub constant_time_eq_iff :
    (expected actual : Bytes)
    → IsBytes expected
    → IsBytes actual
    → length expected ≡ length actual
    → (constant_time_eq expected actual ≡ true) ↔ (expected ≡ actual)
unfolding constant_time_eq
constant_time_eq_iff xs ys p q e =
    let zero_iff = difference_zero xs ys 0 (omega arith) p q e in
    (
      λ h. (zero_iff.0 ((==_iff (difference xs ys 0) 0).0 h)).1,
      λ h. (==_iff (difference xs ys 0) 0).1 (zero_iff.1 (refl, h)),
    )
