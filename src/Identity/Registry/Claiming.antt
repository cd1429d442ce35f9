-- ===== src/Identity/Registry/Claiming.antt =====
-- `claim_with_ceiling` keeps the registry consistent, and the grant that it makes within the
-- pass's, the policy's and the caller's.
use clew.Prelude.{ℕ, ◌+◌, ◌≤◌, ◌≡◌, refl, false, Option, none, some, arith, inl, inr}
use clew.Prelude.Tests.{Bool-cases, Option-cases}
use clew.Prelude.Outcome.{ok, Result-cases, ◌>>◌}
use clew.Prelude.Lists.{length}
use clew.Prelude.Map.{lookup, insert, lookup-insert, Every-insert}
use clew.Prelude.Sorted.{insert-IsSorted}
use clew.Identity.Grant.{PermissionGrant, intersect}
use clew.Identity.Grant.Laws.{Within, Within-trans, intersect-Within}
use clew.Identity.Keys.{Bytes, Crypto, DevicePublicIdentity}
use clew.Identity.Bootstrap.{
  SiteBootstrapPayload, SiteBootstrapSpec, SignedSiteBootstrapPass, BootstrapJson,
  max_bootstrap_claims, verify, validate_payload, validate_spec,
}
use clew.Identity.Records.{EnrollmentReceipt, EnrollmentRegistry}
use clew.Identity.Registry.Claims.{
  entry_or_default, conflicts, fresh_id, known_invite, first_answer, check_capacity, check_times,
  push_claim, new_receipt, device_of_receipt, commit_claim, Draws, enroll, claim_verified,
}
use clew.Identity.Registry.Passes.{check_pass, claim_with_ceiling}
use clew.Identity.Registry.Consistency.{DeviceFits, IsConsistent}
use clew.Identity.Registry.Withdrawal.{replace_invite}
use clew.Identity.Registry.Enrolling.{
  fresh_id-is_free, entry-InviteFits, entry-IsConsistent, push-InviteFits,
}

-- The registry that a call leaves; a call that has not returned has changed nothing yet.
abbrev pub left_by {ℓ} :
    {A : Type ℓ} → EnrollmentRegistry → Option (A × EnrollmentRegistry) → EnrollmentRegistry
left_by reg none = reg
left_by reg (some (_, reg')) = reg'

module _ (reg : EnrollmentRegistry) (h : IsConsistent reg) (p : SiteBootstrapPayload)
    (print : Bytes) (now : ℕ) where
  commit-IsConsistent :
      (r : EnrollmentReceipt)
      → lookup r.device_id reg.devices ≡ none
      → r.invite_id ≡ p.invite_id
      → Within r.effective_grant reg.policy_ceiling
      → (entry_or_default p.invite_id reg.invites).0.revoked ≡ false
      → length (entry_or_default p.invite_id reg.invites).0.claims + 1 ≤ max_bootstrap_claims
      → IsConsistent (commit_claim reg p print now r).1
  unfolding commit_claim
  commit-IsConsistent r free same within in_force room =
      let s = (entry_or_default p.invite_id reg.invites).0 in
      let invites = (entry_or_default p.invite_id reg.invites).1 in
      elim (Bool-cases (conflicts s.issued_pass_fingerprint print)) [
        | inl other ↦ rw other (entry-IsConsistent p.invite_id reg h)
        | inr agrees ↦ rw agrees (
            replace_invite {reg = record reg { invites = invites }} p.invite_id
              (push_claim s p print now r) (insert r.device_id (device_of_receipt r) reg.devices)
              (insert-IsSorted r.device_id (device_of_receipt r) reg.devices h.sorted)
              (Every-insert (DeviceFits reg.policy_ceiling) r.device_id (device_of_receipt r)
                reg.devices (unfold device_of_receipt in (refl, within)) h.devices_fit)
              (λ k d e ne.
                ground (arith, lookup-insert k r.device_id (device_of_receipt r) reg.devices))
              (push-InviteFits reg h p print now s r free same in_force room
                (entry-InviteFits p.invite_id reg h))
              (entry-IsConsistent p.invite_id reg h))
      ]

  -- What the tests of a claim say of the entry that it writes to.
  entry_open :
      (device : DevicePublicIdentity)
      → first_answer (lookup p.invite_id reg.invites) print device ≡ none
      → check_capacity (lookup p.invite_id reg.invites) p now ≡ ok tt
      → p.max_claims ≤ max_bootstrap_claims
      → ((entry_or_default p.invite_id reg.invites).0.revoked ≡ false)
        × (length (entry_or_default p.invite_id reg.invites).0.claims + 1 ≤ max_bootstrap_claims)
  unfolding entry_or_default known_invite check_capacity
  entry_open device a c m = elim (Option-cases (lookup p.invite_id reg.invites)) [
    | inl missing ↦ rw (missing, entry_or_default) (refl, omega arith)
    | inr (s, at_i) ↦ rw (at_i, entry_or_default) (ground arith, ground arith)
  ]

  enroll-IsConsistent :
      (device : DevicePublicIdentity) (ceiling : PermissionGrant) (draws : Draws)
      → first_answer (lookup p.invite_id reg.invites) print device ≡ none
      → check_capacity (lookup p.invite_id reg.invites) p now ≡ ok tt
      → p.max_claims ≤ max_bootstrap_claims
      → IsConsistent (left_by reg (enroll p print device now ceiling draws reg))
  unfolding enroll
  enroll-IsConsistent device ceiling draws a c m =
      elim (Option-cases (fresh_id draws.device_ids reg.devices)) [
        | inl busy ↦ rw (busy, enroll) h
        | inr (k, free) ↦ elim (Result-cases draws.token) [
          | inr (e, failed) ↦ rw (free, enroll, failed) h
          | inl (token, drawn) ↦
              let (in_force, room) = entry_open device a c m in
              rw (free, enroll, drawn)
                (commit-IsConsistent (new_receipt reg p device now ceiling k token)
                  (unfold new_receipt in fresh_id-is_free draws.device_ids reg.devices k free)
                  (unfold new_receipt in refl)
                  (unfold new_receipt in
                    Within-trans (intersect-Within (intersect p.grant reg.policy_ceiling) ceiling).0
                      (intersect-Within p.grant reg.policy_ceiling).1)
                  in_force room)
        ]
      ]

  claim_verified-IsConsistent :
      (device : DevicePublicIdentity) (ceiling : PermissionGrant) (draws : Draws)
      → p.max_claims ≤ max_bootstrap_claims
      → IsConsistent (left_by reg (claim_verified p print device now ceiling draws reg))
  unfolding claim_verified
  claim_verified-IsConsistent device ceiling draws m =
      elim (Option-cases (first_answer (lookup p.invite_id reg.invites) print device)) [
        | inr (r, answered) ↦ rw (answered, claim_verified) h
        | inl open_to ↦
            elim (Result-cases
              (check_times p now >> check_capacity (lookup p.invite_id reg.invites) p now)) [
                | inr (e, failed) ↦ rw (open_to, claim_verified, failed) h
                | inl (u, passed) ↦
                    rw (open_to, claim_verified, passed)
                      (enroll-IsConsistent device ceiling draws open_to
                        (ground (arith, check_capacity)) m)
              ]
      ]

-- The bound on claims that every verified pass meets.
validate_spec-max_claims :
    (s : SiteBootstrapSpec) → validate_spec s ≡ ok tt → s.max_claims ≤ max_bootstrap_claims
unfolding validate_spec
validate_spec-max_claims s h = ground arith

module _ (crypto : Crypto) (serde : BootstrapJson) where
  validate_payload-max_claims :
      (p : SiteBootstrapPayload)
      → validate_payload crypto serde p ≡ ok tt
      → p.max_claims ≤ max_bootstrap_claims
  unfolding validate_payload
  validate_payload-max_claims p h =
      validate_spec-max_claims
        (record {
          site_id = p.site_id;
          invite_id = p.invite_id;
          site_name = p.site_name;
          grant = p.grant;
          not_before_unix_ms = p.not_before_unix_ms;
          expires_unix_ms = p.expires_unix_ms;
          deployment_window_ms = p.deployment_window_ms;
          max_claims = p.max_claims;
        })
        (ground arith)

  pub check_pass-max_claims :
      (reg : EnrollmentRegistry) (pass : SignedSiteBootstrapPass) (device : DevicePublicIdentity)
      {print : Bytes}
      → check_pass crypto serde reg pass device ≡ ok print
      → pass.payload.max_claims ≤ max_bootstrap_claims
  unfolding check_pass verify
  check_pass-max_claims reg pass device h = validate_payload-max_claims pass.payload (ground arith)

  pub claim-IsConsistent :
      (pass : SignedSiteBootstrapPass) (device : DevicePublicIdentity) (now : ℕ)
      (ceiling : PermissionGrant) (draws : Draws) (reg : EnrollmentRegistry)
      → IsConsistent reg
      → IsConsistent
          (left_by reg (claim_with_ceiling crypto serde pass device now ceiling draws reg))
  unfolding claim_with_ceiling
  claim-IsConsistent pass device now ceiling draws reg h =
      elim (Result-cases (check_pass crypto serde reg pass device)) [
        | inr (e, failed) ↦ rw (failed, claim_with_ceiling) h
        | inl (print, passed) ↦
            rw (passed, claim_with_ceiling)
              (claim_verified-IsConsistent reg h pass.payload print now device ceiling draws
                (check_pass-max_claims reg pass device passed))
      ]
