-- ===== src/Identity/Registry/Keeping.antt =====
-- What a claim, a registered pass and a closed invite leave of the enrolled Devices.
use clew.Prelude.{ℕ, ◌≡◌, refl, none, some, arith, inl, inr}
use clew.Prelude.Tests.{==_iff, Bool-cases, Option-cases}
use clew.Prelude.Outcome.{Result-cases, ◌>>◌}
use clew.Prelude.Map.{lookup, lookup-insert}
use clew.Identity.Grant.{PermissionGrant}
use clew.Identity.Keys.{Bytes, Crypto, DevicePublicIdentity}
use clew.Identity.Bootstrap.{SiteBootstrapPayload, SignedSiteBootstrapPass, BootstrapJson}
use clew.Identity.Records.{EnrollmentReceipt, EnrollmentDeviceRecord, EnrollmentRegistry}
use clew.Identity.Registry.{close_invite, revoke_invite, delete_invite_history, revoke_device}
use clew.Identity.Registry.Claims.{
  Draws, commit_claim, new_receipt, device_of_receipt, enroll, claim_verified, fresh_id,
  first_answer, check_times, check_capacity, conflicts, entry_or_default,
}
use clew.Identity.Registry.Passes.{claim_with_ceiling, check_pass, register_pass}
use clew.Identity.Registry.Enrolling.{fresh_id-is_free}
use clew.Identity.Registry.Claiming.{left_by}

-- A Device that is enrolled stays as it is, and the registry's Controller too.
pub record IsKept (k : ℕ) (reg reg' : EnrollmentRegistry) : Type 0 where
  pub device :
      (d : EnrollmentDeviceRecord)
      → lookup k reg.devices ≡ some d
      → lookup k reg'.devices ≡ lookup k reg.devices
  pub own_id : reg'.controller_id ≡ reg.controller_id

kept : (k : ℕ) (reg : EnrollmentRegistry) → IsKept k reg reg
kept k reg = record { device = λ d found. refl; own_id = refl }

module _ (k : ℕ) (reg : EnrollmentRegistry) where
  commit-IsKept :
      (p : SiteBootstrapPayload) (print : Bytes) (now : ℕ) (r : EnrollmentReceipt)
      → lookup r.device_id reg.devices ≡ none
      → IsKept k reg (commit_claim reg p print now r).1
  unfolding commit_claim
  commit-IsKept p print now r free =
      elim (Bool-cases
        (conflicts (entry_or_default p.invite_id reg.invites).0.issued_pass_fingerprint print)) [
          | inl other ↦ rw other (record { device = λ d found. refl; own_id = refl })
          | inr agrees ↦ rw agrees (record {
            device = λ d found. ground (
              arith,
              found,
              free,
              lookup-insert k r.device_id (device_of_receipt r) reg.devices,
              ==_iff r.device_id k,
            );
            own_id = refl;
          })
        ]

  enroll-IsKept :
      (p : SiteBootstrapPayload) (print : Bytes) (device : DevicePublicIdentity) (now : ℕ)
      (ceiling : PermissionGrant) (draws : Draws)
      → IsKept k reg (left_by reg (enroll p print device now ceiling draws reg))
  unfolding enroll
  enroll-IsKept p print device now ceiling draws =
      elim (Option-cases (fresh_id draws.device_ids reg.devices)) [
        | inl busy ↦ rw (busy, enroll) (kept k reg)
        | inr (j, free) ↦ elim (Result-cases draws.token) [
          | inr (e, failed) ↦ rw (free, enroll, failed) (kept k reg)
          | inl (token, drawn) ↦
              rw (free, enroll, drawn)
                (commit-IsKept p print now (new_receipt reg p device now ceiling j token)
                  (unfold new_receipt in fresh_id-is_free draws.device_ids reg.devices j free))
        ]
      ]

  claim_verified-IsKept :
      (p : SiteBootstrapPayload) (print : Bytes) (device : DevicePublicIdentity) (now : ℕ)
      (ceiling : PermissionGrant) (draws : Draws)
      → IsKept k reg (left_by reg (claim_verified p print device now ceiling draws reg))
  unfolding claim_verified
  claim_verified-IsKept p print device now ceiling draws =
      elim (Option-cases (first_answer (lookup p.invite_id reg.invites) print device)) [
        | inr (r, answered) ↦ rw (answered, claim_verified) (kept k reg)
        | inl open_to ↦
            elim (Result-cases
              (check_times p now >> check_capacity (lookup p.invite_id reg.invites) p now)) [
                | inr (e, failed) ↦ rw (open_to, claim_verified, failed) (kept k reg)
                | inl (u, passed) ↦
                    rw (open_to, claim_verified, passed)
                      (enroll-IsKept p print device now ceiling draws)
              ]
      ]

  pub claim-IsKept :
      (crypto : Crypto) (serde : BootstrapJson) (pass : SignedSiteBootstrapPass)
      (device : DevicePublicIdentity) (now : ℕ) (ceiling : PermissionGrant) (draws : Draws)
      → IsKept k reg
          (left_by reg (claim_with_ceiling crypto serde pass device now ceiling draws reg))
  unfolding claim_with_ceiling
  claim-IsKept crypto serde pass device now ceiling draws =
      elim (Result-cases (check_pass crypto serde reg pass device)) [
        | inr (e, failed) ↦ rw (failed, claim_with_ceiling) (kept k reg)
        | inl (print, passed) ↦
            rw (passed, claim_with_ceiling)
              (claim_verified-IsKept pass.payload print device now ceiling draws)
      ]

pub register_pass-IsKept :
    (crypto : Crypto) (serde : BootstrapJson) (pass : SignedSiteBootstrapPass)
    (reg : EnrollmentRegistry) (k : ℕ)
    → IsKept k reg (register_pass crypto serde pass reg).1
unfolding register_pass
register_pass-IsKept crypto serde pass reg k = record {
  device = λ d found. ground arith;
  own_id = ground arith;
}

pub close_invite-IsKept : (i k : ℕ) (reg : EnrollmentRegistry) → IsKept k reg (close_invite i reg).1
unfolding close_invite
close_invite-IsKept i k reg = record { device = λ d found. ground arith; own_id = ground arith }

pub revoke_invite-own_id :
    (i : ℕ) (reg : EnrollmentRegistry) → (revoke_invite i reg).1.controller_id ≡ reg.controller_id
unfolding revoke_invite
revoke_invite-own_id i reg = ground arith

pub delete-own_id :
    (i : ℕ) (reg : EnrollmentRegistry)
    → (delete_invite_history i reg).1.controller_id ≡ reg.controller_id
unfolding delete_invite_history
delete-own_id i reg = ground arith

pub revoke_device-own_id :
    (k : ℕ) (reg : EnrollmentRegistry) → (revoke_device k reg).1.controller_id ≡ reg.controller_id
unfolding revoke_device
revoke_device-own_id k reg = ground arith
