-- ===== src/Transport/Lease/Window.antt =====
-- Which leases a candidate is accepted on, and that a lease that was issued is one of them.
use clew.Prelude.{ℕ, ◌+◌, ◌≤◌, ◌<◌, ◌≡◌, refl, sym, ap, ◌∙◌, inl, inr, not, arith}
use clew.Prelude.Tests.{◌==◌, list_eq, list_eq_iff}
use clew.Prelude.Outcome.{
  Result, ok, err, reject, map_err, ◌>>◌, checked, Result-cases, ok-injective,
}
use clew.Identity.Keys.{
  Bytes, Crypto, ControllerPublicIdentity, connector_lease_signature_domain, verify_payload,
}
use clew.Transport.Lease.{
  ConnectorLease, SignedConnectorLease, ConnectorLeaseError, LeaseJson, validate_payload,
  check_size, verify_binding_for_candidate, verify_for_candidate, max_connector_lease_lifetime_ms,
  max_connector_lease_not_before_skew_ms, saturating_add, controller_mismatch, identity,
  site_mismatch, endpoint_mismatch,
}

validate_payload-window :
    (p : ConnectorLease)
    → validate_payload p ≡ ok tt
    → (p.issued_unix_ms < p.expires_unix_ms)
      × (p.expires_unix_ms ≤ p.issued_unix_ms + max_connector_lease_lifetime_ms)
unfolding validate_payload
validate_payload-window p q = (ground (arith, q), ground (arith, q))

was_ok : {E F : Type 0} (f : E → F) (r : Result E (Unit {0})) → map_err f r ≡ ok tt → r ≡ ok tt
was_ok f (ok u) q = refl
was_ok f (err e) q = cc

module _ (crypto : Crypto) (serde : LeaseJson) where
  -- A lease that binds its Device to the Controller, the Site and the endpoint.
  pub record Binds (pinned : ControllerPublicIdentity) (site_id : ℕ) (endpoint_id : Bytes)
      (signed : SignedConnectorLease) : Type 0 where
    pub is_valid : validate_payload signed.payload ≡ ok tt
    pub of_controller : signed.payload.controller_id ≡ pinned.controller_id
    pub is_signed :
        verify_payload crypto pinned connector_lease_signature_domain
          (serde.payload_json signed.payload)
          signed.signature
        ≡ ok tt
    pub of_site : signed.payload.site_id ≡ site_id
    pub of_endpoint : signed.payload.connector_endpoint_id ≡ endpoint_id

  module _ (pinned : ControllerPublicIdentity) (site_id : ℕ) (endpoint_id : Bytes)
      (signed : SignedConnectorLease) (device_id : ℕ) where
    binding :
        verify_binding_for_candidate crypto serde pinned site_id endpoint_id signed ≡ ok device_id
        → (device_id ≡ signed.payload.connector_device_id) × Binds pinned site_id endpoint_id signed
    unfolding verify_binding_for_candidate
    binding q0 =
        let of_endpoint =
          reject (not (list_eq signed.payload.connector_endpoint_id endpoint_id))
            endpoint_mismatch in
        let of_site = reject (not (signed.payload.site_id == site_id)) site_mismatch in
        let is_signed = map_err identity (
          verify_payload crypto pinned connector_lease_signature_domain
            (serde.payload_json signed.payload) signed.signature) in
        let of_controller =
          reject (not (signed.payload.controller_id == pinned.controller_id)) controller_mismatch in
        let d : Result ConnectorLeaseError ℕ = ok signed.payload.connector_device_id in
        let (_, q1) =
          checked (check_size crypto serde signed)
            (validate_payload signed.payload
              >> (of_controller >> (is_signed >> (of_site >> (of_endpoint >> d)))))
            device_id q0 in
        let (v, q2) =
          checked (validate_payload signed.payload)
            (of_controller >> (is_signed >> (of_site >> (of_endpoint >> d)))) device_id q1 in
        let (c, q3) =
          checked of_controller (is_signed >> (of_site >> (of_endpoint >> d))) device_id q2 in
        let (s, q4) = checked is_signed (of_site >> (of_endpoint >> d)) device_id q3 in
        let (t, q5) = checked of_site (of_endpoint >> d) device_id q4 in
        let (e, q6) = checked of_endpoint d device_id q5 in
        (
          sym (ok-injective q6),
          record {
            is_valid = v;
            of_controller = ground (arith, c);
            is_signed =
                was_ok identity
                  (verify_payload crypto pinned connector_lease_signature_domain
                    (serde.payload_json signed.payload) signed.signature)
                  s;
            of_site = ground (arith, t);
            of_endpoint =
                (list_eq_iff signed.payload.connector_endpoint_id endpoint_id).0
                  (ground (arith, e));
          },
        )

    -- A lease that is accepted at time `now`, with its Device.
    abbrev pub IsAccepted : ℕ → Type 0
    IsAccepted now =
        (device_id ≡ signed.payload.connector_device_id)
        × Binds pinned site_id endpoint_id signed
        × (signed.payload.issued_unix_ms
            ≤ saturating_add now max_connector_lease_not_before_skew_ms)
        × (now < signed.payload.expires_unix_ms)
        × (signed.payload.expires_unix_ms
            ≤ signed.payload.issued_unix_ms + max_connector_lease_lifetime_ms)

    -- A lease that a candidate is accepted on at time `now` gives the Device of the lease, is signed
    -- by the pinned Controller for this Site and this endpoint, and `now` is in its window: at most
    -- 30 seconds (in 64 bits) before the issue, before the expiry, which is at most 10 minutes
    -- after the issue.
    pub verify_for_candidate_lem :
        (now : ℕ)
        → verify_for_candidate crypto serde pinned site_id endpoint_id now signed ≡ ok device_id
        → IsAccepted now
    unfolding verify_for_candidate
    verify_for_candidate_lem now q =
        elim (Result-cases
          (verify_binding_for_candidate crypto serde pinned site_id endpoint_id signed)) [
            | inr (e, b) ↦ ground (arith, q, b)
            | inl (d, b) ↦
                let (same, early, late) = in_window now d b q in
                let (device, binds) = binding (b ∙ ap ok same) in
                (
                  device,
                  binds,
                  early,
                  late,
                  (validate_payload-window signed.payload binds.is_valid).1,
                )
          ]
      where
        in_window :
            (t d : ℕ)
            → verify_binding_for_candidate crypto serde pinned site_id endpoint_id signed ≡ ok d
            → verify_for_candidate crypto serde pinned site_id endpoint_id t signed ≡ ok device_id
            → (d ≡ device_id)
              × (signed.payload.issued_unix_ms
                  ≤ saturating_add t max_connector_lease_not_before_skew_ms)
              × (t < signed.payload.expires_unix_ms)
        in_window t d b r = (ground (arith, r, b), ground (arith, r, b), ground (arith, r, b))
