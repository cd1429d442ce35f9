-- ===== src/Examples/Registry.antt =====
-- The theorems on the registry, applied to one enrolment.
use clew.Prelude.{◌≡◌, refl, true, false, some, List, [], ◌∷◌, ◌++◌, ◌↔◌, arith}
use clew.Prelude.Outcome.{ok, err}
use clew.Identity.Registry.Answers.{claim_answers}
use clew.Prelude.Map.{is_some, lookup, insert}
use clew.Prelude.Tests.{list_eq}
use clew.Prelude.Text.{trim, byte_len}
use clew.Identity.Registry.Token.{constant_time_eq_iff}
use clew.Identity.Grant.{connector_only_grant, execute_read, full_grant, intersect}
use clew.Identity.Grant.Laws.{Within, IsExecutable, intersect_greatest}
use clew.Identity.Keys.{controller_id}
use clew.Identity.Bootstrap.{invite_revoked, verify, fingerprint, issue_site_bootstrap}
use clew.Identity.Records.{active, new_registry, EnrollmentRegistry}
use clew.Identity.Registry.{
  is_device_active, finalize_host_persist, constant_time_eq, finalize_claim, revoke_device,
  revoke_invite,
}
use clew.Identity.Registry.Passes.{check_pass, claim_with_ceiling, issue_bootstrap}
use clew.Identity.Registry.Claiming.{claim-IsConsistent}
use clew.Identity.Registry.Consistency.{IsConsistent, InviteFits}
use clew.Identity.Registry.Calls.{Call, new-IsConsistent, enroll, perform_all}
use clew.Identity.Registry.Safety.{after, revoked_stays_out, grants-Within, claims_in_step}
use clew.Identity.Registry.Enrolment.{
  claim_retry, claim_after_revoke, claim_then_finalize, finalize_lem, FinalizeResult,
}
use clew.Examples.Toy.{
  toy, toy_json, repeat-IsBytes, repeat, toy_id, receipt, device_record, invite, claimed_registry,
  token, controller, device, pass, draws, other_draws, enrolment, revocation,
}

toy_id_lem : controller_id toy controller ≡ toy_id
unfolding controller_id
toy_id_lem = refl

enrolled : is_device_active 40 (after toy toy_json enrolment toy_id full_grant) ≡ true
unfolding after perform_all is_device_active lookup finalize_host_persist claim_with_ceiling verify
    trim byte_len list_eq issue_bootstrap controller_id new_registry issue_site_bootstrap
    fingerprint insert finalize_claim revoke_device intersect
enrolled = refl

abbrev retries : List Call
retries = enroll pass device 200 execute_read other_draws ∷ []

revoked_stays_out_example :
    is_device_active 40 (
      perform_all toy toy_json retries
        (after toy toy_json (enrolment ++ revocation) toy_id full_grant))
    ≡ false
unfolding after perform_all is_device_active lookup finalize_host_persist claim_with_ceiling verify
    trim byte_len list_eq issue_bootstrap controller_id new_registry issue_site_bootstrap
    fingerprint insert finalize_claim revoke_device intersect
revoked_stays_out_example =
    revoked_stays_out toy toy_json (enrolment ++ revocation) retries toy_id full_grant 40 refl refl
      (refl, tt)

grants-Within_example : ((device_record active).device_id ≡ 40) × Within execute_read full_grant
unfolding after perform_all is_device_active lookup finalize_host_persist claim_with_ceiling verify
    trim byte_len list_eq issue_bootstrap controller_id new_registry issue_site_bootstrap
    fingerprint insert finalize_claim revoke_device intersect
grants-Within_example = grants-Within toy toy_json enrolment toy_id full_grant 40 refl

claims_in_step_example :
    InviteFits (after toy toy_json enrolment toy_id full_grant).devices 30 (invite active)
unfolding after perform_all is_device_active lookup finalize_host_persist claim_with_ceiling verify
    trim byte_len list_eq issue_bootstrap controller_id new_registry issue_site_bootstrap
    fingerprint insert finalize_claim revoke_device intersect
claims_in_step_example = claims_in_step toy toy_json enrolment toy_id full_grant 30 refl

abbrev new : EnrollmentRegistry
new = record { controller_id = toy_id; policy_ceiling = full_grant; invites = []; devices = [] }

new_registry-IsConsistent : IsConsistent new
unfolding new_registry
new_registry-IsConsistent = new-IsConsistent toy_id full_grant

claim_retry_example :
    claim_with_ceiling toy toy_json pass device 5_000 full_grant other_draws claimed_registry
    ≡ some (ok receipt, claimed_registry)
unfolding after perform_all is_device_active lookup finalize_host_persist claim_with_ceiling verify
    trim byte_len list_eq issue_bootstrap controller_id new_registry issue_site_bootstrap
    fingerprint insert finalize_claim revoke_device intersect
claim_retry_example =
    claim_retry toy toy_json pass device 100 5_000 execute_read full_grant draws other_draws new
      refl

claim_after_revoke_example :
    claim_with_ceiling toy toy_json pass device 200 full_grant other_draws
      (revoke_invite 30 claimed_registry).1
    ≡ some (err invite_revoked, (revoke_invite 30 claimed_registry).1)
unfolding after perform_all is_device_active lookup finalize_host_persist claim_with_ceiling verify
    trim byte_len list_eq issue_bootstrap controller_id new_registry issue_site_bootstrap
    fingerprint insert finalize_claim revoke_device intersect revoke_invite check_pass
claim_after_revoke_example =
    claim_after_revoke toy toy_json pass device 200 full_grant other_draws claimed_registry refl
      refl

claim_then_finalize_example :
    is_device_active 40 (finalize_host_persist 30 40 token claimed_registry).1 ≡ true
unfolding after perform_all is_device_active lookup finalize_host_persist claim_with_ceiling verify
    trim byte_len list_eq issue_bootstrap controller_id new_registry issue_site_bootstrap
    fingerprint insert finalize_claim revoke_device intersect
claim_then_finalize_example =
    claim_then_finalize toy toy_json pass device 100 execute_read draws new refl
      new_registry-IsConsistent (repeat-IsBytes 32 5 (omega arith))

constant_time_eq_iff_example : (constant_time_eq token (repeat 32 6) ≡ true) ↔ (token ≡ repeat 32 6)
constant_time_eq_iff_example =
    constant_time_eq_iff token (repeat 32 6) (repeat-IsBytes 32 5 (omega arith))
      (repeat-IsBytes 32 6 (omega arith)) refl

intersect_greatest_example :
    IsExecutable (intersect full_grant execute_read)
    × (Within connector_only_grant (intersect full_grant execute_read)
        ↔ (Within connector_only_grant full_grant × Within connector_only_grant execute_read))
intersect_greatest_example =
    intersect_greatest connector_only_grant full_grant execute_read
      (record { read = λ e. e; write = λ e. e; shell = λ e. e; tcp_egress = λ e. e })

claimed_registry-IsConsistent : IsConsistent claimed_registry
unfolding after perform_all is_device_active lookup finalize_host_persist claim_with_ceiling verify
    trim byte_len list_eq issue_bootstrap controller_id new_registry issue_site_bootstrap
    fingerprint insert finalize_claim revoke_device intersect
claimed_registry-IsConsistent =
    claim-IsConsistent toy toy_json pass device 100 execute_read draws new new_registry-IsConsistent

finalize_lem_example : FinalizeResult 30 40 token claimed_registry
finalize_lem_example = finalize_lem 30 40 token claimed_registry claimed_registry-IsConsistent

claim_answers_example :
    is_some (claim_with_ceiling toy toy_json pass device 100 execute_read draws new) ≡ true
unfolding lookup
claim_answers_example =
    claim_answers 40 draws new toy toy_json pass device 100 execute_read refl refl
