-- ===== src/Identity/Registry/Consistency.antt =====
-- The invariant of the registry, and its two frame rules: a change of one Device's status, and a
-- change of invites that keeps their claims.
use clew.Prelude.{ℕ, ◌≤◌, ◌≡◌, refl, true, false, some, List, [], ◌∷◌, arith, inl, inr, ◌≢◌}
use clew.Prelude.Tests.{◌==◌, Bool-cases}
use clew.Prelude.Lists.{length, All}
use clew.Prelude.Map.{Map, lookup, insert, lookup-insert, Every}
use clew.Prelude.Sorted.{IsSorted}
use clew.Identity.Grant.{PermissionGrant}
use clew.Identity.Grant.Laws.{Within}
use clew.Identity.Records.{
  EnrollmentStatus, revoked, EnrollmentDeviceRecord, ClaimRecord, InviteRuntimeState,
  EnrollmentRegistry,
}
use clew.Identity.Bootstrap.{max_bootstrap_claims}
use clew.Identity.Registry.{is_claim_of, set_claim, set_device, modify_first}

-- The Device of a claim is enrolled, through that invite, with the claim's status.
abbrev pub ClaimFits : Map EnrollmentDeviceRecord → ℕ → ClaimRecord → Type 0
ClaimFits devices i c =
    (d : EnrollmentDeviceRecord) × (lookup c.receipt.device_id devices ≡ some d)
    × (d.invite_id ≡ i)
    × (d.status ≡ c.status)

abbrev pub IsNew : ℕ → List ClaimRecord → Type 0
IsNew k = All (λ c. (c.receipt.device_id == k) ≡ false)

-- No two claims of an invite are of one Device.
abbrev pub IsDistinct : List ClaimRecord → Type 0
IsDistinct [] = Unit
IsDistinct (c ∷ cs) = IsNew c.receipt.device_id cs × IsDistinct cs

pub record InviteFits (devices : Map EnrollmentDeviceRecord) (i : ℕ) (s : InviteRuntimeState)
    : Type 0 where
  pub fits : All (ClaimFits devices i) s.claims
  pub distinct : IsDistinct s.claims
  pub bounded : length s.claims ≤ max_bootstrap_claims
  pub all_revoked : s.revoked ≡ true → All (λ c. c.status ≡ revoked) s.claims

-- A Device stands under its own identifier, within the policy ceiling.
abbrev pub DeviceFits : PermissionGrant → ℕ → EnrollmentDeviceRecord → Type 0
DeviceFits ceiling k d = (d.device_id ≡ k) × Within d.effective_grant ceiling

pub record IsConsistent (reg : EnrollmentRegistry) : Type 0 where
  pub sorted : IsSorted reg.devices
  pub devices_fit : Every (DeviceFits reg.policy_ceiling) reg.devices
  pub invites_fit :
      (i : ℕ) (s : InviteRuntimeState) → lookup i reg.invites ≡ some s → InviteFits reg.devices i s

-- Claims of Devices that an insertion does not touch.
pub fits-insert_new :
    (devices : Map EnrollmentDeviceRecord) (i k : ℕ) (d : EnrollmentDeviceRecord)
    (cs : List ClaimRecord)
    → IsNew k cs
    → All (ClaimFits devices i) cs
    → All (ClaimFits (insert k d devices) i) cs
fits-insert_new devices i k d [] n h = tt
fits-insert_new devices i k d (c ∷ cs) n h = (
  (h.0.0, ground (arith, lookup-insert c.receipt.device_id k d devices), h.0.2, h.0.3),
  fits-insert_new devices i k d cs n.1 h.1,
)

-- A change of the status of Device `k`, in its record and in its claim.
module _ (devices : Map EnrollmentDeviceRecord) (k : ℕ) {d : EnrollmentDeviceRecord}
    (found : lookup k devices ≡ some d) (st : EnrollmentStatus) where
  abbrev marked : Map EnrollmentDeviceRecord
  marked = insert k (set_device st d) devices

  pub fits-modify_first :
      (cs : List ClaimRecord)
      → IsDistinct cs
      → All (ClaimFits devices d.invite_id) cs
      → All (ClaimFits marked d.invite_id) (modify_first (is_claim_of k) (set_claim st) cs)
  unfolding modify_first
  fits-modify_first [] u h = tt
  fits-modify_first (c ∷ cs) u h = elim (Bool-cases (c.receipt.device_id == k)) [
    | inl here ↦
        rw here (
          head_fits here,
          fits-insert_new devices d.invite_id k (set_device st d) cs (new here) h.1,
        )
    | inr other ↦ rw other (
      (
        h.0.0,
        ground (arith, lookup-insert c.receipt.device_id k (set_device st d) devices),
        h.0.2,
        h.0.3,
      ),
      fits-modify_first cs u.1 h.1,
    )
  ]
    where
      head_fits : (c.receipt.device_id == k) ≡ true → ClaimFits marked d.invite_id (set_claim st c)
      head_fits e = (
        set_device st d,
        ground (arith, lookup-insert c.receipt.device_id k (set_device st d) devices),
        refl,
        refl,
      )

      new : (c.receipt.device_id == k) ≡ true → IsNew k cs
      new e = let q : c.receipt.device_id ≡ k = ground arith in rw q at (u.0)

  -- The claims of another invite are of other Devices.
  pub IsNew-elsewhere :
      (j : ℕ) (cs : List ClaimRecord) → j ≢ d.invite_id → All (ClaimFits devices j) cs → IsNew k cs
  IsNew-elsewhere j [] ne h = tt
  IsNew-elsewhere j (c ∷ cs) ne h = (
    elim (Bool-cases (c.receipt.device_id == k)) [
      | inl here ↦ absurd (ne (ground arith))
      | inr other ↦ other
    ],
    IsNew-elsewhere j cs ne h.1,
  )

module _ (k : ℕ) (st : EnrollmentStatus) where
  pub IsNew-modify_first :
      (j : ℕ) (cs : List ClaimRecord)
      → IsNew j cs
      → IsNew j (modify_first (is_claim_of k) (set_claim st) cs)
  unfolding modify_first
  IsNew-modify_first j [] n = tt
  IsNew-modify_first j (c ∷ cs) n = elim (Bool-cases (c.receipt.device_id == k)) [
    | inl here ↦ rw here n
    | inr other ↦ rw other (n.0, IsNew-modify_first j cs n.1)
  ]

  pub IsDistinct-modify_first :
      (cs : List ClaimRecord)
      → IsDistinct cs
      → IsDistinct (modify_first (is_claim_of k) (set_claim st) cs)
  unfolding modify_first
  IsDistinct-modify_first [] u = tt
  IsDistinct-modify_first (c ∷ cs) u = elim (Bool-cases (c.receipt.device_id == k)) [
    | inl here ↦ rw here u
    | inr other ↦
        rw other (IsNew-modify_first c.receipt.device_id cs u.0, IsDistinct-modify_first cs u.1)
  ]

  pub length-modify_first :
      (cs : List ClaimRecord) → length (modify_first (is_claim_of k) (set_claim st) cs) ≡ length cs
  unfolding modify_first
  length-modify_first [] = refl
  length-modify_first (c ∷ cs) = ground (arith, length-modify_first cs)

pub All-modify_first :
    (k : ℕ) (cs : List ClaimRecord)
    → All (λ c. c.status ≡ revoked) cs
    → All (λ c. c.status ≡ revoked) (modify_first (is_claim_of k) (set_claim revoked) cs)
unfolding modify_first
All-modify_first k [] h = tt
All-modify_first k (c ∷ cs) h = elim (Bool-cases (c.receipt.device_id == k)) [
  | inl here ↦ rw here (refl, h.1)
  | inr other ↦ rw other (h.0, All-modify_first k cs h.1)
]

-- An invite that is put into the registry in place of another.
pub put_invite :
    {reg : EnrollmentRegistry} (i : ℕ) (s : InviteRuntimeState)
    → InviteFits reg.devices i s
    → IsConsistent reg
    → IsConsistent (record reg { invites = insert i s reg.invites })
put_invite {reg} i s f h = record {
  sorted = h.sorted;
  devices_fit = h.devices_fit;
  invites_fit = λ j t e. elim (Bool-cases (i == j)) [
    | inl here ↦
        let q : i ≡ j = ground arith in
        let r : s ≡ t = ground (arith, lookup-insert j i s reg.invites) in rw (← q, ← r) f
    | inr other ↦ h.invites_fit j t (ground (arith, lookup-insert j i s reg.invites))
  ];
}
