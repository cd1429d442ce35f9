-- ===== src/Identity/Registry/Calls.antt =====
-- Sequences of calls on the registry of one Controller.
use clew.Prelude.{ℕ, ◌≡◌, true, List, [], ◌∷◌, arith, inl, inr}
use clew.Prelude.Outcome.{Result}
use clew.Prelude.Map.{lookup, lookup-map_values}
use clew.Prelude.Tests.{Option-cases}
use clew.Identity.Grant.{PermissionGrant}
use clew.Identity.Keys.{Bytes, Crypto, DevicePublicIdentity, IdentityError, ControllerIdentity}
use clew.Identity.Bootstrap.{SiteBootstrapSpec, SignedSiteBootstrapPass, BootstrapJson}
use clew.Identity.Records.{InviteRuntimeState, EnrollmentRegistry, new_registry}
use clew.Identity.Registry.{
  finalize_host_persist, close_invite, revoke_invite, delete_invite_history, revoke_device,
  revoke_site, close_all_invites,
}
use clew.Identity.Registry.Claims.{Draws}
use clew.Identity.Registry.Passes.{claim_with_ceiling, register_pass, issue_bootstrap}
use clew.Identity.Registry.Consistency.{IsConsistent, put_invite}
use clew.Identity.Registry.Statuses.{revoke_device-IsConsistent, revoke_site-IsConsistent}
use clew.Identity.Registry.Finalize.{finalize-IsConsistent}
use clew.Identity.Registry.Withdrawal.{revoke_invite-IsConsistent}
use clew.Identity.Registry.Deletion.{delete-IsConsistent}
use clew.Identity.Registry.Enrolling.{register_pass-IsConsistent, issue_bootstrap-IsConsistent}
use clew.Identity.Registry.Claiming.{left_by, claim-IsConsistent}

-- A call of a method of `EnrollmentRegistry` that may change it.
pub data Call : Type 0 where
  register : SignedSiteBootstrapPass → Call
  issue : ControllerIdentity → SiteBootstrapSpec → Result IdentityError Bytes → Call
  enroll : SignedSiteBootstrapPass → DevicePublicIdentity → ℕ → PermissionGrant → Draws → Call
  persisted : ℕ → ℕ → Bytes → Call
  close : ℕ → Call
  withdraw : ℕ → Call
  delete : ℕ → Call
  revoke : ℕ → Call
  revoke_all : ℕ → Call
  close_all : Call

module _ (crypto : Crypto) (serde : BootstrapJson) where
  unfoldable pub perform : Call → EnrollmentRegistry → EnrollmentRegistry
  perform (register pass) reg = (register_pass crypto serde pass reg).1
  perform (issue c spec secret) reg = (issue_bootstrap crypto serde c spec secret reg).1
  perform (enroll pass device now ceiling draws) reg =
      left_by reg (claim_with_ceiling crypto serde pass device now ceiling draws reg)
  perform (persisted i k token) reg = (finalize_host_persist i k token reg).1
  perform (close i) reg = (close_invite i reg).1
  perform (withdraw i) reg = (revoke_invite i reg).1
  perform (delete i) reg = (delete_invite_history i reg).1
  perform (revoke k) reg = (revoke_device k reg).1
  perform (revoke_all k) reg = (revoke_site k reg).1
  perform close_all reg = close_all_invites reg

  unfoldable pub perform_all : List Call → EnrollmentRegistry → EnrollmentRegistry
  unfolding perform
  perform_all [] reg = reg
  perform_all (x ∷ xs) reg = perform_all xs (perform x reg)

pub close_invite-IsConsistent :
    (i : ℕ) (reg : EnrollmentRegistry) → IsConsistent reg → IsConsistent (close_invite i reg).1
unfolding close_invite
close_invite-IsConsistent i reg h = elim (Option-cases (lookup i reg.invites)) [
  | inl missing ↦ rw missing h
  | inr (s, at_i) ↦
      let f = h.invites_fit i s at_i in
      rw at_i (
        put_invite i (record s { closed = true })
          (record {
            fits = f.fits;
            distinct = f.distinct;
            bounded = f.bounded;
            all_revoked = f.all_revoked;
          })
          h)
]

abbrev shut : InviteRuntimeState → InviteRuntimeState
shut s = record s { closed = true }

close_all-IsConsistent :
    (reg : EnrollmentRegistry) → IsConsistent reg → IsConsistent (close_all_invites reg)
unfolding close_all_invites
close_all-IsConsistent reg h = record {
  sorted = h.sorted;
  devices_fit = h.devices_fit;
  invites_fit = λ i t e. elim (Option-cases (lookup i reg.invites)) [
    | inl missing ↦ absurd (ground (arith, lookup-map_values i shut reg.invites))
    | inr (s, at_i) ↦
        let q : shut s ≡ t = ground (arith, lookup-map_values i shut reg.invites) in
        let f = h.invites_fit i s at_i in
        rw (← q) (record {
          fits = f.fits;
          distinct = f.distinct;
          bounded = f.bounded;
          all_revoked = f.all_revoked;
        })
  ];
}

module _ (crypto : Crypto) (serde : BootstrapJson) where
  pub perform-IsConsistent :
      (x : Call) (reg : EnrollmentRegistry)
      → IsConsistent reg
      → IsConsistent (perform crypto serde x reg)
  unfolding perform
  perform-IsConsistent (register pass) reg h = register_pass-IsConsistent crypto serde pass reg h
  perform-IsConsistent (issue c spec secret) reg h =
      issue_bootstrap-IsConsistent crypto serde c spec secret reg h
  perform-IsConsistent (enroll pass device now ceiling draws) reg h =
      claim-IsConsistent crypto serde pass device now ceiling draws reg h
  perform-IsConsistent (persisted i k token) reg h = finalize-IsConsistent i k token reg h
  perform-IsConsistent (close i) reg h = close_invite-IsConsistent i reg h
  perform-IsConsistent (withdraw i) reg h = revoke_invite-IsConsistent i reg h
  perform-IsConsistent (delete i) reg h = delete-IsConsistent i reg h
  perform-IsConsistent (revoke k) reg h = revoke_device-IsConsistent k reg h
  perform-IsConsistent (revoke_all k) reg h = revoke_site-IsConsistent k reg h
  perform-IsConsistent close_all reg h = close_all-IsConsistent reg h

  pub perform_all-IsConsistent :
      (xs : List Call) (reg : EnrollmentRegistry)
      → IsConsistent reg
      → IsConsistent (perform_all crypto serde xs reg)
  unfolding perform_all
  perform_all-IsConsistent [] reg h = h
  perform_all-IsConsistent (x ∷ xs) reg h =
      perform_all-IsConsistent xs (perform crypto serde x reg) (perform-IsConsistent x reg h)

pub new-IsConsistent : (id : ℕ) (ceiling : PermissionGrant) → IsConsistent (new_registry id ceiling)
unfolding new_registry
new-IsConsistent id ceiling = record {
  sorted = tt;
  devices_fit = tt;
  invites_fit = λ i s e. absurd (unfold lookup in ground arith);
}
