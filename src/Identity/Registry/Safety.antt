-- ===== src/Identity/Registry/Safety.antt =====
-- What holds of the registry of a Controller after any sequence of calls.
use clew.Prelude.{ℕ, ◌≡◌, refl, true, false, not, some, List, [], ◌∷◌, arith, ◌∙◌, inl, inr, subst}
use clew.Prelude.Tests.{◌==◌, Bool-cases, Option-cases}
use clew.Prelude.Outcome.{Result, Result-cases, ◌>>◌}
use clew.Prelude.Lists.{All}
use clew.Prelude.Map.{lookup, Every-lookup}
use clew.Identity.Grant.{PermissionGrant}
use clew.Identity.Grant.Laws.{Within}
use clew.Identity.Keys.{
  Bytes, Crypto, controller_id, ControllerIdentity, IdentityError, DevicePublicIdentity,
}
use clew.Identity.Bootstrap.{
  BootstrapJson, SignedSiteBootstrapPass, SiteBootstrapSpec, issue_site_bootstrap,
  SiteBootstrapPayload,
}
use clew.Identity.Records.{
  revoked, EnrollmentDeviceRecord, InviteRuntimeState, EnrollmentRegistry, new_registry,
}
use clew.Identity.Registry.{
  is_device_active, finalize_host_persist, close_invite, revoke_invite, delete_invite_history,
  revoke_device, revoke_each, revoke_site, close_all_invites, device_ids_where,
}
use clew.Identity.Registry.Claims.{
  Draws, claim_verified, enroll, commit_claim, first_answer, check_times, check_capacity,
}
use clew.Identity.Registry.Passes.{check_pass, claim_with_ceiling, register_pass, issue_bootstrap}
use clew.Identity.Registry.Consistency.{InviteFits, DeviceFits, IsConsistent}
use clew.Identity.Registry.Claiming.{left_by}
use clew.Identity.Registry.Calls.{
  Call, register, issue, persisted, close, withdraw, delete, revoke, revoke_all, close_all, perform,
  perform_all, perform_all-IsConsistent, new-IsConsistent,
}
use clew.Identity.Registry.Revocation.{is_out, Avoids, perform_all-is_out}

revoke_device-ceiling :
    (k : ℕ) (reg : EnrollmentRegistry) → (revoke_device k reg).1.policy_ceiling ≡ reg.policy_ceiling
unfolding revoke_device
revoke_device-ceiling k reg = ground arith

revoke_each-ceiling :
    (ks : List ℕ) (reg : EnrollmentRegistry)
    → (revoke_each ks reg).1.policy_ceiling ≡ reg.policy_ceiling
unfolding revoke_each
revoke_each-ceiling [] reg = refl
revoke_each-ceiling (k ∷ ks) reg =
    revoke_each-ceiling ks (revoke_device k reg).1 ∙ revoke_device-ceiling k reg

commit-ceiling :
    (reg : EnrollmentRegistry) (p : SiteBootstrapPayload) (device : DevicePublicIdentity) (now : ℕ)
    (ceiling : PermissionGrant) (draws : Draws) (print : Bytes)
    → (left_by reg (enroll p print device now ceiling draws reg)).policy_ceiling
      ≡ reg.policy_ceiling
unfolding enroll commit_claim
commit-ceiling reg p device now ceiling draws print = ground arith

module _ (crypto : Crypto) (serde : BootstrapJson) where
  claim-ceiling :
      (pass : SignedSiteBootstrapPass) (device : DevicePublicIdentity) (now : ℕ)
      (ceiling : PermissionGrant) (draws : Draws) (reg : EnrollmentRegistry)
      → (left_by reg
          (claim_with_ceiling crypto serde pass device now ceiling draws reg)).policy_ceiling
        ≡ reg.policy_ceiling
  unfolding claim_with_ceiling claim_verified
  claim-ceiling pass device now ceiling draws reg =
      elim (Result-cases (check_pass crypto serde reg pass device)) [
        | inr (e, failed) ↦ rw (failed, claim_with_ceiling)
        | inl (print, passed) ↦
            rw (passed, claim_with_ceiling)
              (elim (Option-cases
                (first_answer (lookup pass.payload.invite_id reg.invites) print device)) [
                  | inr (r, answered) ↦ rw (answered, claim_verified)
                  | inl open_to ↦
                      elim (Result-cases (
                        check_times pass.payload now
                        >> check_capacity (lookup pass.payload.invite_id reg.invites) pass.payload
                            now)) [
                              | inr (e, failed) ↦ rw (open_to, claim_verified, failed)
                              | inl (u, allowed) ↦
                                  rw (open_to, claim_verified, allowed)
                                    (commit-ceiling reg pass.payload device now ceiling draws print)
                            ]
                ])
      ]

  register-ceiling :
      (pass : SignedSiteBootstrapPass) (reg : EnrollmentRegistry)
      → (register_pass crypto serde pass reg).1.policy_ceiling ≡ reg.policy_ceiling
  unfolding register_pass
  register-ceiling pass reg = ground arith

  issue-ceiling :
      (c : ControllerIdentity) (spec : SiteBootstrapSpec) (secret : Result IdentityError Bytes)
      (reg : EnrollmentRegistry)
      → (issue_bootstrap crypto serde c spec secret reg).1.policy_ceiling ≡ reg.policy_ceiling
  unfolding issue_bootstrap
  issue-ceiling c spec secret reg =
      elim (Bool-cases (not (controller_id crypto c == reg.controller_id))) [
        | inl wrong ↦ rw wrong
        | inr right ↦ elim (Result-cases (issue_site_bootstrap crypto serde c spec secret)) [
          | inr (e, failed) ↦ rw (right, failed)
          | inl (pass, issued) ↦ elim (Result-cases (register_pass crypto serde pass reg).0) [
            | inr (e, failed) ↦ rw (right, issued, failed) (register-ceiling pass reg)
            | inl (u, done) ↦ rw (right, issued, done) (register-ceiling pass reg)
          ]
        ]
      ]

  perform-ceiling :
      (x : Call) (reg : EnrollmentRegistry)
      → (perform crypto serde x reg).policy_ceiling ≡ reg.policy_ceiling
  unfolding perform close_invite close_all_invites revoke_site revoke_invite delete_invite_history
      finalize_host_persist
  perform-ceiling (register pass) reg = register-ceiling pass reg
  perform-ceiling (issue c spec secret) reg = issue-ceiling c spec secret reg
  perform-ceiling (Call.enroll pass device now ceiling draws) reg =
      claim-ceiling pass device now ceiling draws reg
  perform-ceiling (persisted i j token) reg = ground arith
  perform-ceiling (close i) reg = ground arith
  perform-ceiling (withdraw i) reg = ground arith
  perform-ceiling (delete i) reg = ground arith
  perform-ceiling (revoke j) reg = revoke_device-ceiling j reg
  perform-ceiling (revoke_all j) reg =
      revoke_each-ceiling (device_ids_where (λ d. d.site_id == j) reg.devices) reg
  perform-ceiling close_all reg = refl

  perform_all-ceiling :
      (xs : List Call) (reg : EnrollmentRegistry)
      → (perform_all crypto serde xs reg).policy_ceiling ≡ reg.policy_ceiling
  unfolding perform_all
  perform_all-ceiling [] reg = refl
  perform_all-ceiling (x ∷ xs) reg =
      perform_all-ceiling xs (perform crypto serde x reg) ∙ perform-ceiling x reg

  -- The registry of a new Controller after the calls.
  unfoldable pub after : List Call → ℕ → PermissionGrant → EnrollmentRegistry
  unfolding perform_all
  after xs id ceiling = perform_all crypto serde xs (new_registry id ceiling)

  after-IsConsistent :
      (xs : List Call) (id : ℕ) (ceiling : PermissionGrant) → IsConsistent (after xs id ceiling)
  unfolding after
  after-IsConsistent xs id ceiling =
      perform_all-IsConsistent crypto serde xs (new_registry id ceiling)
        (new-IsConsistent id ceiling)

  -- After any sequence of calls on a new registry, every enrolled Device stands under its own
  -- identifier, and its grant is within the policy ceiling that the registry was created with.
  pub grants-Within :
      (xs : List Call) (id : ℕ) (ceiling : PermissionGrant) (k : ℕ) {d : EnrollmentDeviceRecord}
      → lookup k (after xs id ceiling).devices ≡ some d
      → (d.device_id ≡ k) × Within d.effective_grant ceiling
  unfolding after
  grants-Within xs id ceiling k {d} e =
      let (same, within) =
        Every-lookup (DeviceFits (after xs id ceiling).policy_ceiling) k
          (after xs id ceiling).devices e (after-IsConsistent xs id ceiling).devices_fit in
      (
        same,
        subst (Within d.effective_grant)
            (perform_all-ceiling xs (new_registry id ceiling) ∙ (unfold new_registry in refl))
            within,
      )

  -- After any sequence of calls on a new registry, each invite has at most 256 claims, of as many
  -- different Devices; the Device of each claim is enrolled through that invite, with the status
  -- of the claim; and every claim of a revoked invite is revoked.
  pub claims_in_step :
      (xs : List Call) (id : ℕ) (ceiling : PermissionGrant) (i : ℕ) {s : InviteRuntimeState}
      → lookup i (after xs id ceiling).invites ≡ some s
      → InviteFits (after xs id ceiling).devices i s
  claims_in_step xs id ceiling i {s} e = (after-IsConsistent xs id ceiling).invites_fit i s e

  -- A Device that is revoked at some time is not active after any further calls, as long as none
  -- of them draws the same identifier for a new Device.
  pub revoked_stays_out :
      (xs ys : List Call) (id : ℕ) (ceiling : PermissionGrant) (k : ℕ) {d : EnrollmentDeviceRecord}
      → lookup k (after xs id ceiling).devices ≡ some d
      → d.status ≡ revoked
      → All (Avoids k) ys
      → is_device_active k (perform_all crypto serde ys (after xs id ceiling)) ≡ false
  unfolding is_device_active
  revoked_stays_out xs ys id ceiling k {d} e st a =
      let reg = after xs id ceiling in
      let reg' = perform_all crypto serde ys reg in
      let out : is_out (lookup k reg'.devices) ≡ true =
        perform_all-is_out crypto serde k ys reg (after-IsConsistent xs id ceiling) a
          (ground arith) in
      ground arith
