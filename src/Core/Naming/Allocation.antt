-- ===== src/Core/Naming/Allocation.antt =====
-- naming.rs: a derived tag parses, and the tag that is allocated is the first that is free.
use clew.Prelude.{
  ℕ, zero, suc, ◌+◌, ◌/◌, ◌%◌, ◌^◌, ◌≤◌, ◌<◌, ◌≡◌, refl, Bool, true, false, [], ◌∷◌, ◌++◌, inl, inr,
  u32_max, arith,
}
use clew.Prelude.Tests.{ltb, ◌==◌, ==_refl, Bool-cases}
use clew.Prelude.Lists.{length, take, mem_ℕ}
use clew.Prelude.Outcome.{Result, ok, err}
use clew.Prelude.Bytes.{Bytes, to_be_bytes, from_be_bytes}
use clew.Core.Naming.{
  DeviceTagAllocation, DeviceTagAllocationError, digit, derive, allocate_from, allocate_device_tag,
  device_tag_domain, parse_tag, crockford_base32, max_device_tag_attempts,
}

digit_is_listed : (xs : Bytes) (n : ℕ) → n < length xs → mem_ℕ (digit xs n) xs ≡ true
unfolding digit
digit_is_listed [] n h = absurd (omega (arith, h))
digit_is_listed (x ∷ xs) zero h = ground (arith, ==_refl x)
digit_is_listed (x ∷ xs) (suc n) h = ground (arith, digit_is_listed xs n (omega (arith, h)))

digit_accepted : (v : ℕ) → mem_ℕ (digit crockford_base32 (v % 32)) crockford_base32 ≡ true
digit_accepted v = digit_is_listed crockford_base32 (v % 32) (omega arith)

-- The tag that is derived for a Device in any generation is read back as itself.
pub parse_tag-derive :
    (sha256 : Bytes → Bytes) (device_id generation : ℕ)
    → parse_tag (derive sha256 device_id generation) ≡ ok (derive sha256 device_id generation)
unfolding parse_tag derive
parse_tag-derive sha256 device_id generation =
    let v =
      from_be_bytes 0 (
        take 4 (sha256 (device_tag_domain ++ to_be_bytes 16 device_id ++ to_be_bytes 4 generation)))
      / 2 ^ 7 in
    rw
      (
        digit_accepted v,
        digit_accepted (v / 32),
        digit_accepted (v / 32 / 32),
        digit_accepted (v / 32 / 32 / 32),
        digit_accepted (v / 32 / 32 / 32 / 32),
      )
      refl

module _ (sha256 : Bytes → Bytes) (device_id start : ℕ) (is_occupied : Bytes → Bool) where
  -- The tags of the generations from the first on, below a bound, are all taken.
  abbrev pub TakenBelow : ℕ → Type 0
  TakenBelow bound =
      (g : ℕ) → start ≤ g → g < bound → is_occupied (derive sha256 device_id g) ≡ true

  -- What `allocate_device_tag` says.
  abbrev pub Allocated : Result DeviceTagAllocationError DeviceTagAllocation → Type 0
  Allocated (ok a) =
      (a.tag ≡ derive sha256 device_id a.generation)
      × (is_occupied a.tag ≡ false)
      × (start ≤ a.generation)
      × (a.generation < start + max_device_tag_attempts)
      × (a.generation ≤ u32_max)
      × TakenBelow a.generation
  Allocated (err DeviceTagAllocationError.generation_overflow) =
      (u32_max < start + max_device_tag_attempts) × TakenBelow (u32_max + 1)
  Allocated (err (DeviceTagAllocationError.exhausted from attempts)) =
      (from ≡ start)
      × (attempts ≡ max_device_tag_attempts)
      × TakenBelow (start + max_device_tag_attempts)

  one_more :
      (offset : ℕ)
      → TakenBelow (start + offset)
      → is_occupied (derive sha256 device_id (start + offset)) ≡ true
      → TakenBelow (start + suc offset)
  one_more offset taken busy g from below = elim (Bool-cases (g == start + offset)) [
    | inl last ↦ let same : start + offset ≡ g = ground (arith, last) in rw same at busy
    | inr before ↦ taken g from (ground (arith, before, below))
  ]

  allocate_from_lem :
      (attempts offset : ℕ)
      → attempts + offset ≡ max_device_tag_attempts
      → start + offset ≤ u32_max + 1
      → TakenBelow (start + offset)
      → Allocated (allocate_from sha256 device_id start offset is_occupied attempts)
  unfolding allocate_from
  allocate_from_lem zero offset total room taken =
      let all : offset ≡ max_device_tag_attempts = omega (arith, total) in
      (refl, refl, rw all at taken)
  allocate_from_lem (suc attempts) offset total room taken =
      elim (Bool-cases (ltb u32_max (start + offset))) [
        | inl over ↦
            let past : start + offset ≡ u32_max + 1 = ground (arith, over, room) in
            rw over (omega (arith, past, total), rw past at taken)
        | inr within ↦ elim (Bool-cases (is_occupied (derive sha256 device_id (start + offset)))) [
          | inr free ↦
              rw (within, free)
                (refl, free, omega arith, omega (arith, total), ground (arith, within), taken)
          | inl busy ↦
              rw (within, busy)
                (allocate_from_lem attempts (suc offset) (omega (arith, total))
                  (ground (arith, within)) (one_more offset taken busy))
        ]
      ]

  -- The tag that is allocated is the one of the first generation, from the given one on, whose tag
  -- is free, at most 1023 later and within 32 bits; if there is none, the allocation fails: by the
  -- overflow of the generation where all up to 2^32 - 1 are taken, otherwise where 1024 are.
  pub allocate_device_tag_lem :
      start ≤ u32_max → Allocated (allocate_device_tag sha256 device_id start is_occupied)
  unfolding allocate_device_tag
  allocate_device_tag_lem h =
      allocate_from_lem max_device_tag_attempts 0 (omega arith) (omega (arith, h))
        (λ g from below. absurd (omega (arith, from, below)))
