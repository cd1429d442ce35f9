-- ===== src/Proto/Wire/Ids.antt =====
-- validate.rs: the identifier that a valid Hello names.
use clew.Prelude.{
  ℕ, ◌≡◌, ◌≤◌, ◌<◌, ◌+◌, ◌*◌, refl, true, false, not, Option, none, some, [], ◌∷◌, arith, inl, inr,
}
use clew.Prelude.Tests.{◌==◌, Bool-cases}
use clew.Prelude.Lists.{any}
use clew.Prelude.Outcome.{ok, Result-cases}
use clew.Prelude.Text.{Str, str}
use clew.Identity.Keys.{Bytes, from_be_bytes, id_from_bytes}
use clew.Proto.Wire.{
  Hello, validate_hello, hello_device_id, id_of, validate_id_bytes, validate_optional_id,
}

from_be_bytes_grows : (acc : ℕ) (bytes : Bytes) → acc ≤ from_be_bytes acc bytes
unfolding from_be_bytes
from_be_bytes_grows acc [] = omega arith
from_be_bytes_grows acc (b ∷ bs) = omega (arith, from_be_bytes_grows (acc * 256 + b) bs)

from_be_bytes_positive :
    (acc : ℕ) (bytes : Bytes)
    → any (λ byte. not (byte == 0)) bytes ≡ true
    → 0 < from_be_bytes acc bytes
unfolding from_be_bytes any
from_be_bytes_positive acc [] q = cc
from_be_bytes_positive acc (b ∷ bs) q = elim (Bool-cases (b == 0)) [
  | inl zero_byte ↦ from_be_bytes_positive (acc * 256 + b) bs (rw zero_byte at q)
  | inr other ↦ ground (arith, other, from_be_bytes_grows (acc * 256 + b) bs)
]

-- An identifier of 16 bytes that are not all zero is never nil.
validate_id_bytes-id_from_bytes :
    (field : Str) (bytes : Bytes)
    → validate_id_bytes field bytes ≡ ok tt
    → id_from_bytes bytes ≡ some (from_be_bytes 0 bytes)
unfolding validate_id_bytes id_from_bytes
validate_id_bytes-id_from_bytes field bytes q =
    let some_byte : any (λ byte. not (byte == 0)) bytes ≡ true = ground (arith, q) in
    let positive : (from_be_bytes 0 bytes == 0) ≡ false =
      ground (arith, from_be_bytes_positive 0 bytes some_byte) in
    rw positive refl

-- What `hello_device_id` says of an identifier that was validated.
abbrev pub named : Option Bytes → Option ℕ
named none = none
named (some raw) = some (from_be_bytes 0 raw)

id_of_lem :
    (id : Option Bytes)
    → validate_optional_id (str "device_id") id ≡ ok tt
    → id_of id ≡ ok (named id)
unfolding id_of validate_optional_id
id_of_lem none q = refl
id_of_lem (some raw) q = rw (q, validate_id_bytes-id_from_bytes (str "device_id") raw q) refl

device_id_checked :
    (hello : Hello)
    → validate_hello hello ≡ ok tt
    → validate_optional_id (str "device_id") hello.device_id ≡ ok tt
unfolding validate_hello
device_id_checked hello q =
    elim (Result-cases (validate_optional_id (str "device_id") hello.device_id)) [
      | inl (u, here) ↦ here
      | inr (e, here) ↦ ground (arith, q, here)
    ]

-- On a Hello that passes `validate_wire`, `hello_device_id` never fails: it gives no identifier
-- where the Hello names none, and otherwise the value of its bytes.
pub hello_device_id_lem :
    (hello : Hello)
    → validate_hello hello ≡ ok tt
    → hello_device_id hello ≡ ok (named hello.device_id)
unfolding hello_device_id
hello_device_id_lem hello q = id_of_lem hello.device_id (device_id_checked hello q)
