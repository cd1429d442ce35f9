-- ===== src/Identity/Registry/Statuses.antt =====
-- `finalize_host_persist`, `revoke_device` and `revoke_site` keep the registry consistent.
use clew.Prelude.{ℕ, ◌≡◌, refl, Bool, true, false, none, some, List, [], ◌∷◌, arith, inl, inr, ◌≢◌}
use clew.Prelude.Tests.{◌==◌, Bool-cases, Option-cases}
use clew.Prelude.Outcome.{ok}
use clew.Prelude.Lists.{All, find?}
use clew.Prelude.Map.{lookup, insert, lookup-insert, Every, Every-insert, Every-lookup}
use clew.Prelude.Sorted.{insert-IsSorted}
use clew.Identity.Keys.{Bytes}
use clew.Identity.Records.{
  EnrollmentStatus, active, revoked, EnrollmentReceipt, EnrollmentDeviceRecord, ClaimRecord,
  InviteRuntimeState, EnrollmentRegistry,
}
use clew.Identity.Registry.{
  is_claim_of, set_claim, set_device, modify_first, finalize_claim, revoke_claim, revoke_device,
  revoke_each, revoke_site, constant_time_eq, device_ids_where,
}
use clew.Identity.Registry.Consistency.{
  InviteFits, DeviceFits, IsConsistent, fits-insert_new, fits-modify_first, IsNew-elsewhere,
  IsDistinct-modify_first, length-modify_first, All-modify_first,
}

module _ {reg : EnrollmentRegistry} (h : IsConsistent reg) (k : ℕ) (d : EnrollmentDeviceRecord)
    (found : lookup k reg.devices ≡ some d) (st : EnrollmentStatus) where
  abbrev with_status : EnrollmentRegistry
  with_status = record reg { devices = insert k (set_device st d) reg.devices }

  -- An invite of other Devices.
  elsewhere :
      (j : ℕ) (t : InviteRuntimeState)
      → j ≢ d.invite_id
      → InviteFits reg.devices j t
      → InviteFits with_status.devices j t
  elsewhere j t ne f = record {
    fits =
        fits-insert_new reg.devices j k (set_device st d) t.claims
          (IsNew-elsewhere reg.devices k found st j t.claims ne f.fits) f.fits;
    distinct = f.distinct;
    bounded = f.bounded;
    all_revoked = f.all_revoked;
  }

  abbrev with_claim : InviteRuntimeState → InviteRuntimeState
  with_claim s = record s { claims = modify_first (is_claim_of k) (set_claim st) s.claims }

  own_invite :
      (s : InviteRuntimeState)
      → (s.revoked ≡ true → st ≡ revoked)
      → InviteFits reg.devices d.invite_id s
      → InviteFits with_status.devices d.invite_id (with_claim s)
  own_invite s only f = record {
    fits = fits-modify_first reg.devices k found st s.claims f.distinct f.fits;
    distinct = IsDistinct-modify_first k st s.claims f.distinct;
    bounded = rw length-modify_first f.bounded;
    all_revoked = λ e. rw (only e) (All-modify_first k s.claims (f.all_revoked e));
  }

  devices_fit-status : Every (DeviceFits reg.policy_ceiling) with_status.devices
  devices_fit-status =
      Every-insert (DeviceFits reg.policy_ceiling) k (set_device st d) reg.devices
        (Every-lookup (DeviceFits reg.policy_ceiling) k reg.devices found h.devices_fit)
        h.devices_fit

  -- The status of a Device and that of its claim change together.
  pub status-IsConsistent :
      (s : InviteRuntimeState)
      → lookup d.invite_id reg.invites ≡ some s
      → (s.revoked ≡ true → st ≡ revoked)
      → IsConsistent
          (record with_status { invites = insert d.invite_id (with_claim s) reg.invites })
  status-IsConsistent s e only = record {
    sorted = insert-IsSorted k (set_device st d) reg.devices h.sorted;
    devices_fit = devices_fit-status;
    invites_fit = λ j t at_j. elim (Bool-cases (d.invite_id == j)) [
      | inl here ↦
          let q : d.invite_id ≡ j = ground arith in
          let r : with_claim s ≡ t =
            ground (arith, lookup-insert j d.invite_id (with_claim s) reg.invites) in
          rw (← q, ← r) (own_invite s only (h.invites_fit d.invite_id s e))
      | inr other ↦
          elsewhere j t (λ p. ground arith)
            (h.invites_fit j t
              (ground (arith, lookup-insert j d.invite_id (with_claim s) reg.invites)))
    ];
  }

  -- A Device whose invite is not on record has no claim.
  pub no_claim-IsConsistent : lookup d.invite_id reg.invites ≡ none → IsConsistent with_status
  no_claim-IsConsistent e = record {
    sorted = insert-IsSorted k (set_device st d) reg.devices h.sorted;
    devices_fit = devices_fit-status;
    invites_fit = λ j t at_j. elsewhere j t (λ p. cc (e, at_j, p)) (h.invites_fit j t at_j);
  }

-- The claim that `find` returns.
pub find-fits {κ} :
    (P : ClaimRecord → Type κ) (p : ClaimRecord → Bool) (cs : List ClaimRecord) {c : ClaimRecord}
    → find? p cs ≡ some c
    → All P cs
    → P c × (p c ≡ true)
find-fits P p [] e h = cc
find-fits P p (x ∷ cs) {c} e h = elim (Bool-cases (p x)) [
  | inl here ↦ let q : x ≡ c = some_eq x c (rw here at e) in rw (← q) (h.0, here)
  | inr other ↦ find-fits P p cs (rw other at e) h.1
]
  where
    some_eq : (a b : ClaimRecord) → some a ≡ some b → a ≡ b
    some_eq a b q = cc

pub revoke_device-IsConsistent :
    (k : ℕ) (reg : EnrollmentRegistry) → IsConsistent reg → IsConsistent (revoke_device k reg).1
unfolding revoke_device
revoke_device-IsConsistent k reg h = elim (Option-cases (lookup k reg.devices)) [
  | inl missing ↦ rw missing h
  | inr (d, found) ↦ elim (Option-cases (lookup d.invite_id reg.invites)) [
    | inl gone ↦ rw (found, gone, revoke_claim) (no_claim-IsConsistent h k d found revoked gone)
    | inr (s, at_i) ↦
        rw (found, at_i, revoke_claim) (status-IsConsistent h k d found revoked s at_i (λ _. refl))
  ]
]

revoke_each-IsConsistent :
    (ks : List ℕ) (reg : EnrollmentRegistry)
    → IsConsistent reg
    → IsConsistent (revoke_each ks reg).1
unfolding revoke_each
revoke_each-IsConsistent [] reg h = h
revoke_each-IsConsistent (k ∷ ks) reg h =
    revoke_each-IsConsistent ks (revoke_device k reg).1 (revoke_device-IsConsistent k reg h)

pub revoke_site-IsConsistent :
    (k : ℕ) (reg : EnrollmentRegistry) → IsConsistent reg → IsConsistent (revoke_site k reg).1
unfolding revoke_site
revoke_site-IsConsistent k reg h =
    revoke_each-IsConsistent (device_ids_where (λ d. d.site_id == k) reg.devices) reg h

-- What a finalization that passes its tests has found and writes.
pub finalize_claim_lem :
    (s : InviteRuntimeState) (k : ℕ) (token : Bytes) {r : EnrollmentReceipt}
    {s' : InviteRuntimeState}
    → finalize_claim s k token ≡ ok (r, s')
    → (c : ClaimRecord) × (find? (is_claim_of k) s.claims ≡ some c)
      × (s.revoked ≡ false)
      × (constant_time_eq c.receipt.persist_ack_token token ≡ true)
      × (c.status ≢ revoked)
      × (r ≡ c.receipt)
      × (s' ≡ record s { claims = modify_first (is_claim_of k) (set_claim active) s.claims })
unfolding finalize_claim
finalize_claim_lem s k token h = elim (Option-cases (find? (is_claim_of k) s.claims)) [
  | inl missing ↦ absurd (ground arith)
  | inr (c, found) ↦
      (c, found, ground arith, ground arith, ground arith, ground arith, ground arith)
]
