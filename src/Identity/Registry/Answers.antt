-- ===== src/Identity/Registry/Answers.antt =====
-- The loop of `claim_with_ceiling` that draws identifiers ends at a draw that is free.
use clew.Prelude.{ℕ, ◌≡◌, true, false, List, [], ◌∷◌, arith, inl, inr}
use clew.Prelude.Tests.{Option-cases}
use clew.Prelude.Outcome.{Result-cases, ◌>>◌}
use clew.Prelude.Lists.{mem_ℕ}
use clew.Prelude.Map.{Map, contains_key, is_some, lookup}
use clew.Identity.Grant.{PermissionGrant}
use clew.Identity.Keys.{Bytes, Crypto, DevicePublicIdentity}
use clew.Identity.Bootstrap.{SignedSiteBootstrapPass, SiteBootstrapPayload, BootstrapJson}
use clew.Identity.Records.{EnrollmentDeviceRecord, EnrollmentRegistry}
use clew.Identity.Registry.Claims.{
  fresh_id, enroll, claim_verified, first_answer, check_times, check_capacity, Draws,
}
use clew.Identity.Registry.Passes.{check_pass, claim_with_ceiling}

free_draw :
    (k : ℕ) (ks : List ℕ) (m : Map EnrollmentDeviceRecord)
    → mem_ℕ k ks ≡ true
    → contains_key k m ≡ false
    → is_some (fresh_id ks m) ≡ true
unfolding fresh_id
free_draw k [] m h free = cc
free_draw k (j ∷ ks) m h free = ground (arith, free_draw k ks m)

module _ (k : ℕ) (draws : Draws) (reg : EnrollmentRegistry) where
  enroll_answers :
      (p : SiteBootstrapPayload) (print : Bytes) (device : DevicePublicIdentity) (now : ℕ)
      (ceiling : PermissionGrant)
      → is_some (fresh_id draws.device_ids reg.devices) ≡ true
      → is_some (enroll p print device now ceiling draws reg) ≡ true
  unfolding enroll
  enroll_answers p print device now ceiling h =
      elim (Option-cases (fresh_id draws.device_ids reg.devices)) [
        | inl none_free ↦ absurd (ground arith)
        | inr (j, found) ↦ rw (found, enroll)
      ]

  -- A claim with a draw that no enrolled Device has as its identifier answers, whether it succeeds
  -- or fails.
  pub claim_answers :
      (crypto : Crypto) (serde : BootstrapJson) (pass : SignedSiteBootstrapPass)
      (device : DevicePublicIdentity) (now : ℕ) (ceiling : PermissionGrant)
      → mem_ℕ k draws.device_ids ≡ true
      → contains_key k reg.devices ≡ false
      → is_some (claim_with_ceiling crypto serde pass device now ceiling draws reg) ≡ true
  unfolding claim_with_ceiling claim_verified
  claim_answers crypto serde pass device now ceiling h free =
      elim (Result-cases (check_pass crypto serde reg pass device)) [
        | inr (e, failed) ↦ rw (failed, claim_with_ceiling)
        | inl (print, passed) ↦
            rw (passed, claim_with_ceiling)
              (elim (Option-cases
                (first_answer (lookup pass.payload.invite_id reg.invites) print device)) [
                  | inr (r, answered) ↦ rw (answered, claim_verified)
                  | inl open_to ↦
                      elim (Result-cases (
                        check_times pass.payload now
                        >> check_capacity (lookup pass.payload.invite_id reg.invites) pass.payload
                            now)) [
                              | inr (e, failed) ↦ rw (open_to, claim_verified, failed)
                              | inl (u, allowed) ↦
                                  rw (open_to, claim_verified, allowed)
                                    (enroll_answers pass.payload print device now ceiling
                                      (free_draw k draws.device_ids reg.devices h free))
                            ]
                ])
      ]
