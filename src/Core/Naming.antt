-- ===== src/Core/Naming.antt =====
-- crates/clew-core/src/naming.rs: the five-character tags of Devices. SHA-256 is a parameter, the
-- field of `Crypto`; a tag is its five bytes.
pub mod Allocation
use clew.Prelude.{
  ℕ, zero, suc, ◌+◌, ◌/◌, ◌%◌, ◌^◌, Bool, true, false, not, List, [], ◌∷◌, ◌++◌, u32_max,
}
use clew.Prelude.Tests.{ltb, ◌==◌}
use clew.Prelude.Lists.{length, take, mem_ℕ}
use clew.Prelude.Outcome.{Result, ok, err, ◌>>=◌, ◌>>◌, reject, for_each}
use clew.Prelude.Text.{str}
use clew.Prelude.Bytes.{Bytes, to_be_bytes, from_be_bytes}

abbrev device_tag_domain : Bytes
device_tag_domain = str "clew/device-tag/v1" ++ 0 ∷ []

abbrev pub crockford_base32 : Bytes
crockford_base32 = str "0123456789ABCDEFGHJKMNPQRSTVWXYZ"

abbrev pub device_tag_len : ℕ
device_tag_len = 5

abbrev pub max_device_tag_attempts : ℕ
max_device_tag_attempts = 1024

pub data DeviceTagParseError : Type 0 where
  invalid_length : ℕ → DeviceTagParseError
  invalid_character : ℕ → DeviceTagParseError

pub data DeviceTagAllocationError : Type 0 where
  generation_overflow : DeviceTagAllocationError
  exhausted : ℕ → ℕ → DeviceTagAllocationError

pub record DeviceTagAllocation : Type 0 where
  pub tag : Bytes
  pub generation : ℕ

-- `alphabet[index]`, of an index within it.
unfoldable pub digit : Bytes → ℕ → ℕ
digit [] n = 0
digit (b ∷ bs) zero = b
digit (b ∷ bs) (suc n) = digit bs n

-- The loop of `derive`, from the last digit on.
unfoldable pub encode_digits : ℕ → ℕ → Bytes → Bytes
unfolding digit
encode_digits zero value encoded = encoded
encode_digits (suc n) value encoded =
    encode_digits n (value / 32) (digit crockford_base32 (value % 32) ∷ encoded)

module _ (sha256 : Bytes → Bytes) where
  -- DeviceTag::derive
  unfoldable pub derive : ℕ → ℕ → Bytes
  unfolding encode_digits to_be_bytes from_be_bytes
  derive device_id generation =
      let digest =
        sha256 (device_tag_domain ++ to_be_bytes 16 device_id ++ to_be_bytes 4 generation) in
      encode_digits device_tag_len (from_be_bytes 0 (take 4 digest) / 2 ^ 7) []

  -- The loop of `allocate_device_tag`, with the attempts that are left.
  unfoldable pub allocate_from :
      ℕ → ℕ → ℕ → (Bytes → Bool) → ℕ → Result DeviceTagAllocationError DeviceTagAllocation
  unfolding derive
  allocate_from device_id start_generation offset is_occupied zero =
      err (exhausted start_generation max_device_tag_attempts)
  allocate_from device_id start_generation offset is_occupied (suc attempts) = do
    let generation = start_generation + offset
    reject (ltb u32_max generation) generation_overflow
    let tag = derive device_id generation
    elim (is_occupied tag) [
      | false ↦ ok (record { tag = tag; generation = generation })
      | true ↦ allocate_from device_id start_generation (suc offset) is_occupied attempts
    ]

  unfoldable pub allocate_device_tag :
      ℕ → ℕ → (Bytes → Bool) → Result DeviceTagAllocationError DeviceTagAllocation
  unfolding allocate_from
  allocate_device_tag device_id start_generation is_occupied =
      allocate_from device_id start_generation 0 is_occupied max_device_tag_attempts

-- DeviceTag::from_str, of the bytes of the text.
unfoldable pub parse_tag : Bytes → Result DeviceTagParseError Bytes
unfolding for_each
parse_tag value = do
  reject (not (length value == device_tag_len)) (invalid_length (length value))
  for_each (λ byte. reject (not (mem_ℕ byte crockford_base32)) (invalid_character byte)) value
  ok value
