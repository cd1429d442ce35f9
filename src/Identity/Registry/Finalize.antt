-- ===== src/Identity/Registry/Finalize.antt =====
-- What `finalize_host_persist` does to a consistent registry, on every branch.
use clew.Prelude.{ℕ, ◌≡◌, sym, subst, true, false, some, arith, inl, inr, ◌≢◌, ◌⊎◌}
use clew.Prelude.Tests.{Option-cases}
use clew.Prelude.Outcome.{ok, err, Result-cases}
use clew.Prelude.Lists.{find?}
use clew.Prelude.Map.{Map, lookup, insert}
use clew.Identity.Keys.{Bytes}
use clew.Identity.Bootstrap.{EnrollmentError, missing_claim}
use clew.Identity.Records.{
  active, revoked, EnrollmentReceipt, EnrollmentDeviceRecord, ClaimRecord, InviteRuntimeState,
  EnrollmentRegistry,
}
use clew.Identity.Registry.{
  is_claim_of, set_claim, set_device, modify_first, finalize_claim, finalize_host_persist,
  constant_time_eq, activate_device,
}
use clew.Identity.Registry.Consistency.{ClaimFits, IsConsistent}
use clew.Identity.Registry.Statuses.{finalize_claim_lem, find-fits, status-IsConsistent}

-- The registry in which claim and Device `k` of invite `i` are active.
abbrev pub finalized :
    ℕ → ℕ → InviteRuntimeState → EnrollmentDeviceRecord → EnrollmentRegistry → EnrollmentRegistry
finalized i k s d reg = record reg {
  invites =
      insert i (record s { claims = modify_first (is_claim_of k) (set_claim active) s.claims })
        reg.invites;
  devices = insert k (set_device active d) reg.devices;
}

-- A finalization that passed its tests.
pub record Finalized (i k : ℕ) (token : Bytes) (reg : EnrollmentRegistry) : Type 0 where
  pub s : InviteRuntimeState
  pub c : ClaimRecord
  pub d : EnrollmentDeviceRecord
  pub at_i : lookup i reg.invites ≡ some s
  pub found : lookup k reg.devices ≡ some d
  pub of_invite : d.invite_id ≡ i
  pub in_force : s.revoked ≡ false
  pub not_revoked : d.status ≢ revoked
  pub claimed : find? (is_claim_of k) s.claims ≡ some c
  pub token_fits : constant_time_eq c.receipt.persist_ack_token token ≡ true
  pub result :
      finalize_host_persist i k token reg ≡ (ok (set_device active d), finalized i k s d reg)

activate_device_lem :
    (k : ℕ) (d : EnrollmentDeviceRecord) (reg : EnrollmentRegistry) {m : Map InviteRuntimeState}
    → lookup k reg.devices ≡ some d
    → activate_device k (record reg { invites = m }) ≡ (
      ok (set_device active d),
      record reg { invites = m; devices = insert k (set_device active d) reg.devices },
    )
unfolding activate_device
activate_device_lem k d reg e = rw (e, activate_device)

module _ (i k : ℕ) (token : Bytes) (reg : EnrollmentRegistry) where
  passed :
      (s : InviteRuntimeState) {r : EnrollmentReceipt} {s' : InviteRuntimeState}
      → lookup i reg.invites ≡ some s
      → finalize_claim s k token ≡ ok (r, s')
      → IsConsistent reg
      → Finalized i k token reg
  unfolding finalize_host_persist
  passed s {r} {s'} at_i e h =
      let (c, claimed, in_force, token_fits, live, same, written) =
        finalize_claim_lem s k token e in
      let ((d, found, of_invite, status), is_k) =
        find-fits (ClaimFits reg.devices i) (is_claim_of k) s.claims claimed
          (h.invites_fit i s at_i).fits in
      let k_eq : c.receipt.device_id ≡ k = ground arith in
      let found_k : lookup k reg.devices ≡ some d = rw k_eq at found in
      record {
        s = s;
        c = c;
        d = d;
        at_i = at_i;
        found = found_k;
        of_invite = of_invite;
        in_force = in_force;
        not_revoked = λ q. live (cc (q, status));
        claimed = claimed;
        token_fits = token_fits;
        result = rw (at_i, e, written, same, k_eq) (activate_device_lem k d reg found_k);
      }

  -- A finalization either fails and leaves the registry as it was, or makes the claim and the
  -- Device active.
  pub finalize-cases :
      IsConsistent reg
      → ((e : EnrollmentError) × (finalize_host_persist i k token reg ≡ (err e, reg)))
        ⊎ Finalized i k token reg
  unfolding finalize_host_persist
  finalize-cases h = elim (Option-cases (lookup i reg.invites)) [
    | inl missing ↦ inl (missing_claim, rw missing)
    | inr (s, at_i) ↦ elim (Result-cases (finalize_claim s k token)) [
      | inr (e, failed) ↦ inl (e, rw (at_i, failed))
      | inl (done, e) ↦ inr (passed s at_i e h)
    ]
  ]

  pub finalize-IsConsistent :
      IsConsistent reg → IsConsistent (finalize_host_persist i k token reg).1
  finalize-IsConsistent h = elim (finalize-cases h) [
    | inl (e, failed) ↦ rw failed h
    | inr f ↦ rw f.result (
        subst (λ x. IsConsistent (finalized x k f.s f.d reg)) f.of_invite
          (status-IsConsistent h k f.d f.found active f.s
            (subst (λ x. lookup x reg.invites ≡ some f.s) (sym f.of_invite) f.at_i)
            (λ q. cc (q, f.in_force))))
  ]
