-- ===== src/Identity/Registry/Enrolment.antt =====
-- The calls of one enrolment in order: claim, retry, finalize, revoke.
use clew.Prelude.{
  ℕ, ◌⊎◌, ◌≡◌, refl, Bool, true, false, some, List, [], ◌∷◌, arith, inl, inr, ap, map, sym, subst,
}
use clew.Prelude.Tests.{◌==◌, if◌then◌else◌, ==_refl, Bool-cases, Option-cases}
use clew.Prelude.Outcome.{ok, err, Result-cases}
use clew.Prelude.Lists.{find?}
use clew.Prelude.Map.{lookup, lookup-insert, map_option}
use clew.Identity.Grant.{PermissionGrant}
use clew.Identity.Keys.{Bytes, Crypto, DevicePublicIdentity}
use clew.Identity.Bootstrap.{
  EnrollmentError, invite_revoked, SignedSiteBootstrapPass, BootstrapJson,
}
use clew.Identity.Records.{
  pending_host_persist, active, revoked, EnrollmentReceipt, EnrollmentDeviceRecord,
  InviteRuntimeState, EnrollmentRegistry, ClaimRecord,
}
use clew.Identity.Registry.{
  is_claim_of, finalize_claim, activate_device, set_claim, set_device, constant_time_eq,
  finalize_host_persist, revoke_invite, is_device_active,
}
use clew.Identity.Registry.Claims.{known_invite, first_answer, Draws, claim_verified}
use clew.Identity.Registry.Passes.{check_pass, claim_with_ceiling}
use clew.Identity.Registry.Consistency.{IsDistinct, ClaimFits, IsConsistent}
use clew.Identity.Registry.Statuses.{find-fits}
use clew.Identity.Registry.Finalize.{finalize-cases}
use clew.Identity.Registry.Claiming.{claim-IsConsistent}
use clew.Identity.Registry.Token.{IsBytes, constant_time_eq_iff}
use clew.Identity.Registry.Lifecycle.{by_key, Stands, verified-Stands, known_invite-Claimed}

module _ (crypto : Crypto) (serde : BootstrapJson) where
  -- The tests of a pass read nothing of the registry but its Controller.
  check_pass_same :
      (reg reg' : EnrollmentRegistry) (pass : SignedSiteBootstrapPass)
      (device : DevicePublicIdentity)
      → reg'.controller_id ≡ reg.controller_id
      → check_pass crypto serde reg' pass device ≡ check_pass crypto serde reg pass device
  unfolding check_pass
  check_pass_same reg reg' pass device e = rw e

  -- On the registry that a successful claim left, before anything else happens to it, the same
  -- Device's claim of the same pass, at any time, under any ceiling and with any draws, gets the
  -- same receipt, and does not change the registry.
  pub claim_retry :
      (pass : SignedSiteBootstrapPass) (device : DevicePublicIdentity) (now later : ℕ)
      (ceiling ceiling' : PermissionGrant) (draws draws' : Draws) (reg : EnrollmentRegistry)
      {r : EnrollmentReceipt} {reg' : EnrollmentRegistry}
      → claim_with_ceiling crypto serde pass device now ceiling draws reg ≡ some (ok r, reg')
      → claim_with_ceiling crypto serde pass device later ceiling' draws' reg' ≡ some (ok r, reg')
  unfolding claim_with_ceiling claim_verified
  claim_retry pass device now later ceiling ceiling' draws draws' reg {r} {reg'} h =
      elim (Result-cases (check_pass crypto serde reg pass device)) [
        | inr (e, failed) ↦ absurd (ground arith)
        | inl (print, passed) ↦
            let st =
              verified-Stands reg pass.payload print device now ceiling draws
                (rw (passed, claim_with_ceiling) at h) in
            let same = check_pass_same reg reg' pass device st.same_controller in
            let known = known_invite-Claimed st.s print device r st.claimed in
            rw (same, passed, claim_with_ceiling) (rw (st.at_i, known, claim_verified))
      ]

  -- On the registry that the revocation of an invite left, before anything else happens to it, a
  -- claim of a verified pass for that invite is refused, whatever the Device, and changes nothing.
  pub claim_after_revoke :
      (pass : SignedSiteBootstrapPass) (device : DevicePublicIdentity) (now : ℕ)
      (ceiling : PermissionGrant) (draws : Draws) (reg : EnrollmentRegistry) {ids : List ℕ}
      {print : Bytes}
      → (revoke_invite pass.payload.invite_id reg).0 ≡ ok ids
      → check_pass crypto serde reg pass device ≡ ok print
      → claim_with_ceiling crypto serde pass device now ceiling draws
          (revoke_invite pass.payload.invite_id reg).1
        ≡ some (err invite_revoked, (revoke_invite pass.payload.invite_id reg).1)
  unfolding claim_with_ceiling claim_verified revoke_invite known_invite
  claim_after_revoke pass device now ceiling draws reg {ids} {print} h passed =
      elim (Option-cases (lookup pass.payload.invite_id reg.invites)) [
        | inl missing ↦ absurd (ground arith)
        | inr (s, at_i) ↦
            let reg' = (revoke_invite pass.payload.invite_id reg).1 in
            let same_id : reg'.controller_id ≡ reg.controller_id = rw at_i in
            let same = check_pass_same reg reg' pass device same_id in
            let written : InviteRuntimeState = record s {
              closed = true;
              revoked = true;
              claims = map (set_claim revoked) s.claims;
            } in
            let found : lookup pass.payload.invite_id reg'.invites ≡ some written =
              rw at_i (rw lookup-insert (rw ==_refl)) in
            let answered : first_answer (lookup pass.payload.invite_id reg'.invites) print device
                ≡ some (err invite_revoked) =
              rw found in
            let checked : check_pass crypto serde reg' pass device ≡ ok print = rw same passed in
            rw (checked, claim_with_ceiling) (rw (answered, claim_verified))
      ]

-- The result of `finalize_host_persist`: an error and the registry as it was, or a Device that is
-- active, that an invite in force holds a claim of, with the token that was shown.
abbrev pub FinalizeResult : ℕ → ℕ → Bytes → EnrollmentRegistry → Type 0
FinalizeResult i k token reg =
    ((e : EnrollmentError) × (finalize_host_persist i k token reg ≡ (err e, reg)))
    ⊎ ((s : InviteRuntimeState) × (c : ClaimRecord) × (lookup i reg.invites ≡ some s)
        × (s.revoked ≡ false)
        × (find? (is_claim_of k) s.claims ≡ some c)
        × (constant_time_eq c.receipt.persist_ack_token token ≡ true)
        × (is_device_active k (finalize_host_persist i k token reg).1 ≡ true)
        × ((j : ℕ)
            → lookup j (finalize_host_persist i k token reg).1.devices ≡ (
                if k == j
                then map_option (set_device active) (lookup j reg.devices)
                else lookup j reg.devices)))

-- On a consistent registry `finalize_host_persist` either fails and changes nothing, or an invite
-- in force holds a claim of the Device whose token is the one shown, the Device is active
-- afterwards, and every other Device is as it was.
pub finalize_lem :
    (i k : ℕ) (token : Bytes) (reg : EnrollmentRegistry)
    → IsConsistent reg
    → FinalizeResult i k token reg
unfolding is_device_active
finalize_lem i k token reg h = elim (finalize-cases i k token reg h) [
  | inl failed ↦ inl failed
  | inr f ↦
      let written = set_device active f.d in
      inr (
        f.s,
        f.c,
        f.at_i,
        f.in_force,
        f.claimed,
        f.token_fits,
        rw f.result (ground (arith, lookup-insert k k written reg.devices)),
        λ j. rw f.result (ground (arith, lookup-insert j k written reg.devices, f.found)),
      )
]

-- The claim that `find` returns is the first of its Device.
find_by_device :
    (p : ClaimRecord → Bool) (cs : List ClaimRecord) (c : ClaimRecord)
    → IsDistinct cs
    → find? p cs ≡ some c
    → find? (is_claim_of c.receipt.device_id) cs ≡ some c
find_by_device p [] c u h = cc
find_by_device p (x ∷ cs) c u h = elim (Bool-cases (p x)) [
  | inl here ↦ let same : some x ≡ some c = rw here at h in head_found same
  | inr other ↦
      let found : find? p cs ≡ some c = rw other at h in
      let (ne, _) =
        find-fits (λ (y : ClaimRecord). (y.receipt.device_id == x.receipt.device_id) ≡ false) p cs
          found u.0 in
      let ih = find_by_device p cs c u.1 found in ground arith
]
  where
    head_found : some x ≡ some c → find? (is_claim_of c.receipt.device_id) (x ∷ cs) ≡ some c
    head_found e = let q : x ≡ c = ground arith in rw q (rw ==_refl)

-- A finalization that meets every test.
finalize_active :
    (i k : ℕ) (token : Bytes) (reg : EnrollmentRegistry) (s : InviteRuntimeState) (c : ClaimRecord)
    (d : EnrollmentDeviceRecord)
    → lookup i reg.invites ≡ some s
    → s.revoked ≡ false
    → find? (is_claim_of k) s.claims ≡ some c
    → c.receipt.device_id ≡ k
    → constant_time_eq c.receipt.persist_ack_token token ≡ true
    → c.status ≡ pending_host_persist
    → lookup k reg.devices ≡ some d
    → is_device_active k (finalize_host_persist i k token reg).1 ≡ true
unfolding finalize_host_persist finalize_claim activate_device is_device_active
finalize_active i k token reg s c d at_i in_force claimed same shown pending enrolled = rw at_i (
    rw in_force (
      rw (claimed) (
        rw shown (
          rw pending (
            rw same (
              rw (enrolled, activate_device)
                (ground (arith, lookup-insert k k (set_device active d) reg.devices))))))))

module _ {reg : EnrollmentRegistry} {id i : ℕ} {print : Bytes} {device : DevicePublicIdentity}
    (r : EnrollmentReceipt) (st : Stands reg id i print device r) where
  Stands-finalize :
      IsConsistent reg
      → IsBytes r.persist_ack_token
      → is_device_active r.device_id (finalize_host_persist i r.device_id r.persist_ack_token reg).1
        ≡ true
  Stands-finalize consistent bytes =
      let c = st.claimed.c in
      let claims = st.s.claims in
      let f = consistent.invites_fit i st.s st.at_i in
      let ((d, enrolled, _, _), _) =
        find-fits (ClaimFits reg.devices i) (by_key device) claims st.claimed.claimed f.fits in
      let same = st.claimed.receipt in
      finalize_active i r.device_id r.persist_ack_token reg st.s c d st.at_i st.claimed.in_force
        (subst (λ (x : EnrollmentReceipt). find? (is_claim_of x.device_id) claims ≡ some c) same
          (find_by_device (by_key device) claims c f.distinct st.claimed.claimed))
        (ap (λ (x : EnrollmentReceipt). x.device_id) same)
        (subst
          (λ (x : EnrollmentReceipt).
            constant_time_eq x.persist_ack_token r.persist_ack_token ≡ true)
          (sym same)
          ((constant_time_eq_iff r.persist_ack_token r.persist_ack_token bytes bytes refl).1 refl))
        st.claimed.pending
        (subst (λ (x : EnrollmentReceipt). lookup x.device_id reg.devices ≡ some d) same enrolled)

module _ (crypto : Crypto) (serde : BootstrapJson) where
  -- A Host that a claim on a consistent registry answered, and that shows the token of its
  -- receipt, is made active, for a token of bytes.
  pub claim_then_finalize :
      (pass : SignedSiteBootstrapPass) (device : DevicePublicIdentity) (now : ℕ)
      (ceiling : PermissionGrant) (draws : Draws) (reg : EnrollmentRegistry) {r : EnrollmentReceipt}
      {reg' : EnrollmentRegistry}
      → claim_with_ceiling crypto serde pass device now ceiling draws reg ≡ some (ok r, reg')
      → IsConsistent reg
      → IsBytes r.persist_ack_token
      → is_device_active r.device_id
          (finalize_host_persist pass.payload.invite_id r.device_id r.persist_ack_token reg').1
        ≡ true
  unfolding claim_with_ceiling
  claim_then_finalize pass device now ceiling draws reg {r} {reg'} h consistent bytes =
      elim (Result-cases (check_pass crypto serde reg pass device)) [
        | inr (e, failed) ↦ absurd (ground arith)
        | inl (print, passed) ↦
            Stands-finalize r
              (verified-Stands reg pass.payload print device now ceiling draws
                (rw (passed, claim_with_ceiling) at h))
              (rw h at
                (claim-IsConsistent crypto serde pass device now ceiling draws reg consistent))
              bytes
      ]
