-- ===== src/Prelude/Bytes.antt =====
-- Bytes of integers in big-endian order, slices, and the validity of UTF-8.
use Prim.Native.Nat.{ℕ, zero, suc, ◌+◌, ◌-◌, ◌*◌, ◌/◌, ◌%◌, ◌^◌, ◌<◌}
use mathlib.Core.Path.{◌≡◌, refl, sym, ap}
use mathlib.Core.Bool.{Bool, true, false, ◌&&◌}
use mathlib.Core.Option.{Option, none, some}
use mathlib.Core.List.{List, [], ◌∷◌, ◌++◌}
use native.Mathlib.Omega.{arith}
use clew.Prelude.Tests.{ltb, leb, ◌==◌, if◌then◌else◌}
use clew.Prelude.Lists.{length, take, drop}

abbrev pub Bytes : Type 0
Bytes = List ℕ

-- `to_be_bytes` of an integer of `width` bytes
unfoldable pub to_be_bytes : ℕ → ℕ → Bytes
to_be_bytes zero v = []
to_be_bytes (suc width) v = (v / 256 ^ width % 256) ∷ to_be_bytes width v

-- The value of bytes in big-endian order, after those of `acc`.
unfoldable pub from_be_bytes : ℕ → Bytes → ℕ
from_be_bytes acc [] = acc
from_be_bytes acc (b ∷ bs) = from_be_bytes (acc * 256 + b) bs

-- `bytes[from..to]`
abbrev pub slice : ℕ → ℕ → Bytes → Bytes
slice from to bytes = take (to - from) (drop from bytes)

abbrev pub first : Bytes → ℕ
first [] = 0
first (b ∷ bs) = b

pub from_be_bytes-to_be_bytes_4 : (v : ℕ) → v < 2 ^ 32 → from_be_bytes 0 (to_be_bytes 4 v) ≡ v
unfolding from_be_bytes to_be_bytes
from_be_bytes-to_be_bytes_4 v h = omega arith

pub from_be_bytes-to_be_bytes_8 : (v : ℕ) → v < 2 ^ 64 → from_be_bytes 0 (to_be_bytes 8 v) ≡ v
unfolding from_be_bytes to_be_bytes
from_be_bytes-to_be_bytes_8 v h = omega arith

pub take-append : (xs ys : Bytes) → take (length xs) (xs ++ ys) ≡ xs
take-append [] ys = refl
take-append (x ∷ xs) ys = rw (take-append xs ys) refl

pub drop-append : (xs ys : Bytes) → drop (length xs) (xs ++ ys) ≡ ys
drop-append [] ys = refl
drop-append (x ∷ xs) ys = drop-append xs ys

pub take_all : (xs : Bytes) → take (length xs) xs ≡ xs
take_all [] = refl
take_all (x ∷ xs) = rw (take_all xs) refl

drop_nil : (n : ℕ) → ◌≡◌ {A = Bytes} (drop n []) []
drop_nil zero = refl
drop_nil (suc n) = refl

drop-suc : (n : ℕ) (xs : Bytes) → drop (suc n) xs ≡ drop n (drop 1 xs)
drop-suc n [] = sym (drop_nil n)
drop-suc n (x ∷ xs) = refl

pub drop_add : (m n : ℕ) (xs : Bytes) → drop (m + n) xs ≡ drop n (drop m xs)
drop_add zero n xs = ap (λ k. drop k xs) (omega arith)
drop_add (suc m) n xs =
    let next : suc m + n ≡ suc (m + n) = omega arith in
    rw (next, drop-suc (m + n) xs, drop-suc m xs) (drop_add m n (drop 1 xs))

-- How many bytes follow a leading byte, and the range of the first of them.
pub record Lead : Type 0 where
  pub more : ℕ
  pub low : ℕ
  pub high : ℕ

abbrev lead_of : ℕ → ℕ → ℕ → Option Lead
lead_of more low high = some (record { more = more; low = low; high = high })

-- The leading bytes of well-formed sequences (Unicode, table 3-7).
unfoldable pub utf8_lead : ℕ → Option Lead
utf8_lead b =
    if ltb b 0x80
    then lead_of 0 0 0
    else if leb 0xc2 b && leb b 0xdf
    then lead_of 1 0x80 0xbf
    else if b == 0xe0
    then lead_of 2 0xa0 0xbf
    else if b == 0xed
    then lead_of 2 0x80 0x9f
    else if leb 0xe1 b && leb b 0xef
    then lead_of 2 0x80 0xbf
    else if b == 0xf0
    then lead_of 3 0x90 0xbf
    else if leb 0xf1 b && leb b 0xf3
    then lead_of 3 0x80 0xbf
    else if b == 0xf4
    then lead_of 3 0x80 0x8f
    else none

-- `more` bytes go on a character, the first of them in a range; then characters follow.
unfoldable pub utf8_from : ℕ → ℕ → ℕ → Bytes → Bool
unfolding utf8_lead
utf8_from zero low high [] = true
utf8_from (suc more) low high [] = false
utf8_from zero low high (b ∷ bs) = elim (utf8_lead b) [
  | none ↦ false
  | some lead ↦ utf8_from lead.more lead.low lead.high bs
]
utf8_from (suc more) low high (b ∷ bs) = leb low b && leb b high && utf8_from more 0x80 0xbf bs

-- `str::from_utf8(bytes).is_ok()`
unfoldable pub is_utf8 : Bytes → Bool
unfolding utf8_from
is_utf8 = utf8_from 0 0 0

is_utf8_runs : is_utf8 (0xe2 ∷ 0x82 ∷ 0xac ∷ 0x41 ∷ []) ≡ true
unfolding is_utf8
is_utf8_runs = refl
