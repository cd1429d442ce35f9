-- ===== src/Identity/Registry/Passes.antt =====
-- crates/clew-identity/src/enrollment.rs: `issue_bootstrap`, `register_pass` and
-- `claim_with_ceiling` of `EnrollmentRegistry`.
use clew.Prelude.{ℕ, not, ◌||◌, Option, some}
use clew.Prelude.Tests.{◌==◌, if◌then◌else◌}
use clew.Prelude.Outcome.{Result, ok, err, ◌>>=◌, ◌>>◌, attempt, reject, map_err}
use clew.Prelude.Map.{insert}
use clew.Identity.Grant.{PermissionGrant}
use clew.Identity.Keys.{
  Bytes, Crypto, IdentityError, ControllerIdentity, DevicePublicIdentity, controller_id,
  validate_key,
}
use clew.Identity.Bootstrap.{
  EnrollmentError, identity, invite_revoked, pass_conflict, wrong_controller, SiteBootstrapSpec,
  SignedSiteBootstrapPass, BootstrapJson, verify, fingerprint, issue_site_bootstrap,
}
use clew.Identity.Records.{EnrollmentReceipt, EnrollmentRegistry}
use clew.Identity.Registry.{Method}
use clew.Identity.Registry.Claims.{
  remember_pass_metadata, entry_or_default, conflicts, claim_verified, Draws,
}

module _ (crypto : Crypto) (serde : BootstrapJson) where
  -- The pass and the Device's key are sound, and the pass is of this Controller.
  unfoldable pub check_pass :
      EnrollmentRegistry
      → SignedSiteBootstrapPass
      → DevicePublicIdentity
      → Result EnrollmentError Bytes
  check_pass reg pass device = do
    public ← verify crypto serde pass
    map_err identity (validate_key crypto device.public_key)
    reject (not (public.controller_id == reg.controller_id)) wrong_controller
    fingerprint crypto serde pass

  unfoldable pub claim_with_ceiling :
      SignedSiteBootstrapPass
      → DevicePublicIdentity
      → ℕ
      → PermissionGrant
      → Draws
      → EnrollmentRegistry
      → Option (Method EnrollmentReceipt)
  unfolding check_pass claim_verified
  claim_with_ceiling pass device now ceiling draws reg = elim (check_pass reg pass device) [
    | err e ↦ some (err e, reg)
    | ok print ↦ claim_verified pass.payload print device now ceiling draws reg
  ]

  unfoldable pub claim :
      SignedSiteBootstrapPass
      → DevicePublicIdentity
      → ℕ
      → Draws
      → EnrollmentRegistry
      → Option (Method EnrollmentReceipt)
  unfolding claim_with_ceiling
  claim pass device now draws reg = claim_with_ceiling pass device now reg.policy_ceiling draws reg

  unfoldable pub register_pass : SignedSiteBootstrapPass → EnrollmentRegistry → Method (Unit {0})
  unfolding entry_or_default remember_pass_metadata
  register_pass pass reg = attempt (verify crypto serde pass) reg λ public.
      if not (public.controller_id == reg.controller_id)
      then (err wrong_controller, reg)
      else attempt (fingerprint crypto serde pass) reg λ print.
        let (state, invites) = entry_or_default pass.payload.invite_id reg.invites in
        if state.revoked || state.deleted
        then (err invite_revoked, record reg { invites = invites })
        else if conflicts state.issued_pass_fingerprint print
        then (err pass_conflict, record reg { invites = invites })
        else (
          ok tt,
          record reg {
            invites =
                insert pass.payload.invite_id
                  (record (remember_pass_metadata state pass.payload) {
                    issued_pass_fingerprint = some print;
                  })
                  invites;
          },
        )

  unfoldable pub issue_bootstrap :
      ControllerIdentity
      → SiteBootstrapSpec
      → Result IdentityError Bytes
      → EnrollmentRegistry
      → Method SignedSiteBootstrapPass
  unfolding register_pass
  issue_bootstrap controller spec secret reg =
      if not (controller_id crypto controller == reg.controller_id)
      then (err wrong_controller, reg)
      else attempt (issue_site_bootstrap crypto serde controller spec secret) reg
          λ pass. let (r, reg') = register_pass pass reg in attempt r reg' (λ _. (ok pass, reg'))
