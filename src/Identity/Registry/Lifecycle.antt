-- ===== src/Identity/Registry/Lifecycle.antt =====
-- An enrolment from the claim to the active Device, its retries, and its end.
use clew.Prelude.{ℕ, ◌≡◌, refl, Bool, true, false, none, some, List, [], ◌∷◌, ◌++◌, arith, inl, inr}
use clew.Prelude.Tests.{==_refl, list_eq, list_eq_refl, Bool-cases, Option-cases}
use clew.Prelude.Outcome.{ok, Result-cases, ◌>>◌}
use clew.Prelude.Lists.{find?}
use clew.Prelude.Map.{Map, lookup, insert, lookup-insert}
use clew.Identity.Grant.{PermissionGrant}
use clew.Identity.Keys.{Bytes, DevicePublicIdentity}
use clew.Identity.Bootstrap.{SiteBootstrapPayload}
use clew.Identity.Records.{
  pending_host_persist, EnrollmentReceipt, ClaimRecord, InviteRuntimeState, EnrollmentRegistry,
}
use clew.Identity.Registry.Claims.{
  entry_or_default, conflicts, fresh_id, known_invite, first_answer, check_capacity, check_times,
  push_claim, new_receipt, commit_claim, Draws, enroll, claim_verified,
}

-- The claim on record of a Device key.
abbrev pub by_key : DevicePublicIdentity → ClaimRecord → Bool
by_key device c = list_eq c.receipt.device_public_identity.public_key device.public_key

-- After a claim that succeeds, its invite is in force, carries the pass's fingerprint, and has a
-- pending claim of this key and pass with this receipt.
pub record Claimed (print : Bytes) (device : DevicePublicIdentity) (r : EnrollmentReceipt)
    (s : InviteRuntimeState) : Type 0 where
  pub in_force : s.revoked ≡ false
  pub agrees : conflicts s.issued_pass_fingerprint print ≡ false
  pub c : ClaimRecord
  pub claimed : find? (by_key device) s.claims ≡ some c
  pub same_pass : list_eq c.pass_fingerprint print ≡ true
  pub pending : c.status ≡ pending_host_persist
  pub receipt : c.receipt ≡ r

-- Where the claim is on record, `known_invite` answers with its receipt.
pub known_invite-Claimed :
    (s : InviteRuntimeState) (print : Bytes) (device : DevicePublicIdentity) (r : EnrollmentReceipt)
    → Claimed print device r s
    → known_invite s print device ≡ some (ok r)
unfolding known_invite
known_invite-Claimed s print device r h =
    let q = h.claimed in rw (h.in_force, h.agrees, q) (rw h.same_pass (rw (h.pending, h.receipt)))

-- The other way round.
Claimed-known_invite :
    (s : InviteRuntimeState) (print : Bytes) (device : DevicePublicIdentity) (r : EnrollmentReceipt)
    → known_invite s print device ≡ some (ok r)
    → Claimed print device r s
unfolding known_invite
Claimed-known_invite s print device r h = elim (Option-cases (find? (by_key device) s.claims)) [
  | inl missing ↦ absurd (ground arith)
  | inr (c, found) ↦ record {
    in_force = ground arith;
    agrees = ground arith;
    c = c;
    claimed = found;
    same_pass = ground arith;
    pending = ground arith;
    receipt = ground arith;
  }
]

find-append :
    (p : ClaimRecord → Bool) (cs : List ClaimRecord) (c : ClaimRecord)
    → find? p cs ≡ none
    → p c ≡ true
    → find? p (cs ++ c ∷ []) ≡ some c
find-append p [] c h e = rw e
find-append p (x ∷ cs) c h e = ground (arith, find-append p cs c)

-- What the first tests of a claim say of the entry that it writes to.
entry_free :
    (i : ℕ) (m : Map InviteRuntimeState) (print : Bytes) (device : DevicePublicIdentity)
    → first_answer (lookup i m) print device ≡ none
    → ((entry_or_default i m).0.revoked ≡ false)
      × (find? (by_key device) (entry_or_default i m).0.claims ≡ none)
unfolding entry_or_default known_invite
entry_free i m print device a = elim (Option-cases (lookup i m)) [
  | inl missing ↦ rw (missing, entry_or_default) (refl, refl)
  | inr (s, at_i) ↦
      rw (at_i, entry_or_default)
        (elim (Option-cases (find? (by_key device) s.claims)) [
          | inl new ↦ (ground arith, new)
          | inr (c, found) ↦ absurd (ground arith)
        ])
]

-- The claim stands in the registry, of the same Controller.
pub record Stands (reg' : EnrollmentRegistry) (id i : ℕ) (print : Bytes)
    (device : DevicePublicIdentity) (r : EnrollmentReceipt) : Type 0 where
  pub s : InviteRuntimeState
  pub at_i : lookup i reg'.invites ≡ some s
  pub claimed : Claimed print device r s
  pub same_controller : reg'.controller_id ≡ id

pushed-Claimed :
    (s : InviteRuntimeState) (p : SiteBootstrapPayload) (print : Bytes) (now : ℕ)
    (r : EnrollmentReceipt) (device : DevicePublicIdentity)
    → s.revoked ≡ false
    → find? (by_key device) s.claims ≡ none
    → r.device_public_identity ≡ device
    → Claimed print device r (push_claim s p print now r)
unfolding push_claim
pushed-Claimed s p print now r device in_force free same =
    let c : ClaimRecord = record {
      pass_fingerprint = print;
      receipt = r;
      status = pending_host_persist;
    } in
    record {
      in_force = in_force;
      agrees = ground (arith, list_eq_refl print);
      c = c;
      claimed =
          find-append (by_key device) s.claims c free (rw same (list_eq_refl device.public_key));
      same_pass = list_eq_refl print;
      pending = refl;
      receipt = refl;
    }

module _ (reg : EnrollmentRegistry) (p : SiteBootstrapPayload) (print : Bytes)
    (device : DevicePublicIdentity) (now : ℕ) where
  commit-Stands :
      (r : EnrollmentReceipt) {r' : EnrollmentReceipt} {reg' : EnrollmentRegistry}
      → first_answer (lookup p.invite_id reg.invites) print device ≡ none
      → r.device_public_identity ≡ device
      → commit_claim reg p print now r ≡ (ok r', reg')
      → Stands reg' reg.controller_id p.invite_id print device r'
  unfolding commit_claim
  commit-Stands r {r'} {reg'} a same h =
      let s = (entry_or_default p.invite_id reg.invites).0 in
      let invites = (entry_or_default p.invite_id reg.invites).1 in
      let (in_force, free) = entry_free p.invite_id reg.invites print device a in
      let written = push_claim s p print now r in
      elim (Bool-cases (conflicts s.issued_pass_fingerprint print)) [
        | inl other ↦ absurd (ground arith)
        | inr agrees ↦
            let same_receipt : r ≡ r' = ground arith in
            record {
              s = written;
              at_i =
                  (let e : reg'.invites ≡ insert p.invite_id written invites = ground arith in
                    rw e (rw lookup-insert (rw ==_refl)));
              claimed =
                  rw (← same_receipt) (pushed-Claimed s p print now r device in_force free same);
              same_controller = ground arith;
            }
      ]

  enroll-Stands :
      (ceiling : PermissionGrant) (draws : Draws) {r : EnrollmentReceipt}
      {reg' : EnrollmentRegistry}
      → first_answer (lookup p.invite_id reg.invites) print device ≡ none
      → enroll p print device now ceiling draws reg ≡ some (ok r, reg')
      → Stands reg' reg.controller_id p.invite_id print device r
  unfolding enroll
  enroll-Stands ceiling draws a h = elim (Option-cases (fresh_id draws.device_ids reg.devices)) [
    | inl busy ↦ absurd (ground arith)
    | inr (k, free) ↦ elim (Result-cases draws.token) [
      | inr (e, failed) ↦ absurd (ground arith)
      | inl (token, drawn) ↦
          commit-Stands (new_receipt reg p device now ceiling k token) a
            (unfold new_receipt in refl) (ground arith)
    ]
  ]

  pub verified-Stands :
      (ceiling : PermissionGrant) (draws : Draws) {r : EnrollmentReceipt}
      {reg' : EnrollmentRegistry}
      → claim_verified p print device now ceiling draws reg ≡ some (ok r, reg')
      → Stands reg' reg.controller_id p.invite_id print device r
  unfolding claim_verified
  verified-Stands ceiling draws {r} {reg'} h =
      elim (Option-cases (lookup p.invite_id reg.invites)) [
        | inl missing ↦
            elim (Result-cases
              (check_times p now >> check_capacity (lookup p.invite_id reg.invites) p now)) [
                | inr (e, failed) ↦ absurd (ground arith)
                | inl (u, passed) ↦ enroll-Stands ceiling draws (rw missing) (ground arith)
              ]
        | inr (s, at_i) ↦ elim (Option-cases (known_invite s print device)) [
          | inr (answer, answered) ↦
              let same : reg ≡ reg' = ground arith in
              record {
                s = s;
                at_i = rw (← same) at_i;
                claimed = Claimed-known_invite s print device r (ground arith);
                same_controller = rw (← same);
              }
          | inl open_to ↦
              elim (Result-cases
                (check_times p now >> check_capacity (lookup p.invite_id reg.invites) p now)) [
                  | inr (e, failed) ↦ absurd (ground arith)
                  | inl (u, passed) ↦ enroll-Stands ceiling draws (rw (at_i) open_to) (ground arith)
                ]
        ]
      ]
