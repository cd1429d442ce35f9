-- ===== src/Identity/Registry/Revocation.antt =====
-- A revoked Device stays out, and what no call changes.
use clew.Prelude.{
  ℕ, ◌≡◌, Bool, true, false, not, Option, none, some, List, [], ◌∷◌, arith, inl, inr,
}
use clew.Prelude.Tests.{◌==◌, Bool-cases, Option-cases}
use clew.Prelude.Outcome.{Result, Result-cases, ◌>>◌}
use clew.Prelude.Lists.{mem_ℕ, All}
use clew.Prelude.Map.{Map, lookup, lookup-insert}
use clew.Identity.Grant.{PermissionGrant}
use clew.Identity.Keys.{
  Bytes, Crypto, DevicePublicIdentity, IdentityError, ControllerIdentity, controller_id,
}
use clew.Identity.Bootstrap.{
  SiteBootstrapPayload, SiteBootstrapSpec, SignedSiteBootstrapPass, BootstrapJson,
  issue_site_bootstrap,
}
use clew.Identity.Records.{
  EnrollmentStatus, revoked, EnrollmentDeviceRecord, EnrollmentReceipt, EnrollmentRegistry,
}
use clew.Identity.Registry.{
  set_device, finalize_host_persist, close_invite, revoke_invite, delete_invite_history,
  revoke_device, revoke_each, revoke_site, close_all_invites, claim_ids, device_ids_where,
  push_claim_ids,
}
use clew.Identity.Registry.Claims.{
  Draws, fresh_id, enroll, commit_claim, claim_verified, first_answer, check_times, check_capacity,
  new_receipt, entry_or_default, conflicts,
}
use clew.Identity.Registry.Passes.{check_pass, claim_with_ceiling, register_pass, issue_bootstrap}
use clew.Identity.Registry.Consistency.{IsConsistent}
use clew.Identity.Registry.Finalize.{finalize-cases}
use clew.Identity.Registry.Withdrawal.{lookup-mark_all_revoked, lookup-remove_all}
use clew.Identity.Registry.Claiming.{left_by}
use clew.Identity.Registry.Calls.{
  Call, register, issue, persisted, close, withdraw, delete, revoke, revoke_all, close_all, perform,
  perform_all, perform-IsConsistent,
}

abbrev is_revoked : EnrollmentStatus → Bool
is_revoked revoked = true
is_revoked _ = false

-- The Device is not enrolled, or it is revoked.
abbrev pub is_out : Option EnrollmentDeviceRecord → Bool
is_out none = true
is_out (some d) = is_revoked d.status

-- The call draws no identifier `k` for a new Device.
abbrev pub Avoids : ℕ → Call → Type 0
Avoids k (Call.enroll pass device now ceiling draws) = mem_ℕ k draws.device_ids ≡ false
Avoids k _ = Unit

drawn_is_listed :
    (k j : ℕ) (ks : List ℕ) (m : Map EnrollmentDeviceRecord)
    → fresh_id ks m ≡ some j
    → mem_ℕ k ks ≡ false
    → (j == k) ≡ false
unfolding fresh_id
drawn_is_listed k j [] m h e = cc
drawn_is_listed k j (x ∷ ks) m h e = ground (arith, drawn_is_listed k j ks m)

module _ (k : ℕ) (reg : EnrollmentRegistry) (out : is_out (lookup k reg.devices) ≡ true) where
  commit-is_out :
      (p : SiteBootstrapPayload) (print : Bytes) (now : ℕ) (r : EnrollmentReceipt)
      → (r.device_id == k) ≡ false
      → is_out (lookup k (commit_claim reg p print now r).1.devices) ≡ true
  unfolding commit_claim
  commit-is_out p print now r ne =
      elim (Bool-cases
        (conflicts (entry_or_default p.invite_id reg.invites).0.issued_pass_fingerprint print)) [
          | inl other ↦ rw other out
          | inr agrees ↦ rw agrees (rw lookup-insert (rw ne out))
        ]

  enroll-is_out :
      (p : SiteBootstrapPayload) (print : Bytes) (device : DevicePublicIdentity) (now : ℕ)
      (ceiling : PermissionGrant) (draws : Draws)
      → mem_ℕ k draws.device_ids ≡ false
      → is_out (lookup k (left_by reg (enroll p print device now ceiling draws reg)).devices) ≡ true
  unfolding enroll
  enroll-is_out p print device now ceiling draws avoid =
      elim (Option-cases (fresh_id draws.device_ids reg.devices)) [
        | inl busy ↦ rw (busy, enroll) out
        | inr (j, free) ↦ elim (Result-cases draws.token) [
          | inr (e, failed) ↦ rw (free, enroll, failed) out
          | inl (token, drawn) ↦
              rw (free, enroll, drawn)
                (commit-is_out p print now (new_receipt reg p device now ceiling j token) (
                  unfold new_receipt in
                  drawn_is_listed k j draws.device_ids reg.devices free avoid))
        ]
      ]

  claim_verified-is_out :
      (p : SiteBootstrapPayload) (print : Bytes) (device : DevicePublicIdentity) (now : ℕ)
      (ceiling : PermissionGrant) (draws : Draws)
      → mem_ℕ k draws.device_ids ≡ false
      → is_out
          (lookup k (left_by reg (claim_verified p print device now ceiling draws reg)).devices)
        ≡ true
  unfolding claim_verified
  claim_verified-is_out p print device now ceiling draws avoid =
      elim (Option-cases (first_answer (lookup p.invite_id reg.invites) print device)) [
        | inr (r, answered) ↦ rw (answered, claim_verified) out
        | inl open_to ↦
            elim (Result-cases
              (check_times p now >> check_capacity (lookup p.invite_id reg.invites) p now)) [
                | inr (e, failed) ↦ rw (open_to, claim_verified, failed) out
                | inl (u, passed) ↦
                    rw (open_to, claim_verified, passed)
                      (enroll-is_out p print device now ceiling draws avoid)
              ]
      ]

  finalize-is_out :
      (i j : ℕ) (token : Bytes)
      → IsConsistent reg
      → is_out (lookup k (finalize_host_persist i j token reg).1.devices) ≡ true
  finalize-is_out i j token h = elim (finalize-cases i j token reg h) [
    | inl (e, failed) ↦ rw failed out
    | inr f ↦ rw f.result (elim (Bool-cases (j == k)) [
      | inl same ↦
          absurd (
            let q : j ≡ k = ground arith in let e = rw q at f.found in f.not_revoked (ground arith))
      | inr other ↦ rw lookup-insert (rw other out)
    ])
  ]

  revoke-is_out : (j : ℕ) → is_out (lookup k (revoke_device j reg).1.devices) ≡ true
  unfolding revoke_device
  revoke-is_out j = elim (Option-cases (lookup j reg.devices)) [
    | inl missing ↦ rw missing out
    | inr (d, found) ↦
        rw found (ground (arith, lookup-insert k j (set_device revoked d) reg.devices))
  ]

  withdraw-is_out : (i : ℕ) → is_out (lookup k (revoke_invite i reg).1.devices) ≡ true
  unfolding revoke_invite
  withdraw-is_out i = elim (Option-cases (lookup i reg.invites)) [
    | inl missing ↦ rw missing out
    | inr (s, at_i) ↦
        rw at_i (ground (arith, lookup-mark_all_revoked k (claim_ids s.claims) reg.devices))
  ]

  delete-is_out : (i : ℕ) → is_out (lookup k (delete_invite_history i reg).1.devices) ≡ true
  unfolding delete_invite_history
  delete-is_out i = elim (Option-cases (lookup i reg.invites)) [
    | inl missing ↦ rw missing out
    | inr (s, at_i) ↦
        let ids = push_claim_ids (device_ids_where (λ x. x.invite_id == i) reg.devices) s.claims in
        rw at_i (ground (arith, lookup-remove_all k ids reg.devices))
  ]

revoke_each-is_out :
    (k : ℕ) (ks : List ℕ) (reg : EnrollmentRegistry)
    → is_out (lookup k reg.devices) ≡ true
    → is_out (lookup k (revoke_each ks reg).1.devices) ≡ true
unfolding revoke_each
revoke_each-is_out k [] reg out = out
revoke_each-is_out k (j ∷ ks) reg out =
    revoke_each-is_out k ks (revoke_device j reg).1 (revoke-is_out k reg out j)

module _ (crypto : Crypto) (serde : BootstrapJson) where
  register-devices :
      (pass : SignedSiteBootstrapPass) (reg : EnrollmentRegistry)
      → (register_pass crypto serde pass reg).1.devices ≡ reg.devices
  unfolding register_pass
  register-devices pass reg = ground arith

  issue-devices :
      (c : ControllerIdentity) (spec : SiteBootstrapSpec) (secret : Result IdentityError Bytes)
      (reg : EnrollmentRegistry)
      → (issue_bootstrap crypto serde c spec secret reg).1.devices ≡ reg.devices
  unfolding issue_bootstrap
  issue-devices c spec secret reg =
      elim (Bool-cases (not (controller_id crypto c == reg.controller_id))) [
        | inl wrong ↦ rw wrong
        | inr right ↦ elim (Result-cases (issue_site_bootstrap crypto serde c spec secret)) [
          | inr (e, failed) ↦ rw (right, failed)
          | inl (pass, issued) ↦ elim (Result-cases (register_pass crypto serde pass reg).0) [
            | inr (e, failed) ↦ rw (right, issued, failed) (register-devices pass reg)
            | inl (u, done) ↦ rw (right, issued, done) (register-devices pass reg)
          ]
        ]
      ]

  claim-is_out :
      (k : ℕ) (pass : SignedSiteBootstrapPass) (device : DevicePublicIdentity) (now : ℕ)
      (ceiling : PermissionGrant) (draws : Draws) (reg : EnrollmentRegistry)
      → mem_ℕ k draws.device_ids ≡ false
      → is_out (lookup k reg.devices) ≡ true
      → is_out (
          lookup k
            (left_by reg
              (claim_with_ceiling crypto serde pass device now ceiling draws reg)).devices)
        ≡ true
  unfolding claim_with_ceiling
  claim-is_out k pass device now ceiling draws reg avoid out =
      elim (Result-cases (check_pass crypto serde reg pass device)) [
        | inr (e, failed) ↦ rw (failed, claim_with_ceiling) out
        | inl (print, passed) ↦
            rw (passed, claim_with_ceiling)
              (claim_verified-is_out k reg out pass.payload print device now ceiling draws avoid)
      ]

  perform-is_out :
      (k : ℕ) (x : Call) (reg : EnrollmentRegistry)
      → IsConsistent reg
      → Avoids k x
      → is_out (lookup k reg.devices) ≡ true
      → is_out (lookup k (perform crypto serde x reg).devices) ≡ true
  unfolding perform close_invite close_all_invites revoke_site
  perform-is_out k (register pass) reg h a out = rw register-devices out
  perform-is_out k (issue c spec secret) reg h a out = rw issue-devices out
  perform-is_out k (Call.enroll pass device now ceiling draws) reg h a out =
      claim-is_out k pass device now ceiling draws reg a out
  perform-is_out k (persisted i j token) reg h a out = finalize-is_out k reg out i j token h
  perform-is_out k (close i) reg h a out = ground arith
  perform-is_out k (withdraw i) reg h a out = withdraw-is_out k reg out i
  perform-is_out k (delete i) reg h a out = delete-is_out k reg out i
  perform-is_out k (revoke j) reg h a out = revoke-is_out k reg out j
  perform-is_out k (revoke_all j) reg h a out =
      revoke_each-is_out k (device_ids_where (λ d. d.site_id == j) reg.devices) reg out
  perform-is_out k close_all reg h a out = out

  pub perform_all-is_out :
      (k : ℕ) (xs : List Call) (reg : EnrollmentRegistry)
      → IsConsistent reg
      → All (Avoids k) xs
      → is_out (lookup k reg.devices) ≡ true
      → is_out (lookup k (perform_all crypto serde xs reg).devices) ≡ true
  unfolding perform_all
  perform_all-is_out k [] reg h a out = out
  perform_all-is_out k (x ∷ xs) reg h a out =
      perform_all-is_out k xs (perform crypto serde x reg)
        (perform-IsConsistent crypto serde x reg h) a.1 (perform-is_out k x reg h a.0 out)
