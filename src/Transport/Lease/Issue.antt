-- ===== src/Transport/Lease/Issue.antt =====
-- A lease that a Controller issues is one that a candidate accepts, in its window.
use clew.Prelude.{ℕ, ◌≤◌, ◌<◌, ◌≡◌, inl, inr, true, arith}
use clew.Prelude.Tests.{◌==◌, ==_refl, list_eq_refl}
use clew.Prelude.Outcome.{ok, Result-cases}
use clew.Identity.Keys.{
  Bytes, Crypto, ControllerIdentity, ControllerPublicIdentity, connector_lease_signature_domain,
  sign_payload, verify_payload, public_identity, controller_id,
}
use clew.Identity.Keys.Signatures.{Signs, sign_then_verify}
use clew.Transport.Lease.{
  ConnectorLease, SignedConnectorLease, LeaseJson, validate_payload, check_size, issue,
  verify_binding_for_candidate, verify_for_candidate, max_connector_lease_not_before_skew_ms,
  saturating_add, connector_lease_version,
}

module _ (crypto : Crypto) where
  module _ (serde : LeaseJson) (controller : ControllerIdentity) (site_id device_id : ℕ)
      (endpoint_id : Bytes) (issued_unix_ms expires_unix_ms : ℕ) where
    -- The payload of an issued lease.
    abbrev payload : ConnectorLease
    payload = record {
      version = connector_lease_version;
      controller_id = controller_id crypto controller;
      site_id = site_id;
      connector_device_id = device_id;
      connector_endpoint_id = endpoint_id;
      issued_unix_ms = issued_unix_ms;
      expires_unix_ms = expires_unix_ms;
    }

    abbrev with_signature : Bytes → SignedConnectorLease
    with_signature s = record { payload = payload; signature = s }

    issued :
        (lease : SignedConnectorLease)
        → issue crypto serde controller site_id device_id endpoint_id issued_unix_ms expires_unix_ms
          ≡ ok lease
        → (s : Bytes) × (lease ≡ with_signature s)
          × (validate_payload payload ≡ ok tt)
          × (sign_payload crypto controller connector_lease_signature_domain
                (serde.payload_json payload)
              ≡ ok s)
          × (check_size crypto serde (with_signature s) ≡ ok tt)
    unfolding issue
    issued lease q = elim (Result-cases (validate_payload payload)) [
      | inr (e, v) ↦ ground (arith, q, v)
      | inl (u, v) ↦
          elim (Result-cases (
            sign_payload crypto controller connector_lease_signature_domain
              (serde.payload_json payload))) [
                | inr (e, s) ↦ ground (arith, q, v, s)
                | inl (signature, s) ↦
                    elim (Result-cases (check_size crypto serde (with_signature signature))) [
                      | inr (e, c) ↦ ground (arith, q, v, s, c)
                      | inl (u', c) ↦ (signature, ground (arith, q, v, s, c), v, s, c)
                    ]
              ]
    ]

    -- Its checks, one by one.
    bound :
        (pinned : ControllerPublicIdentity) (s : Bytes)
        → check_size crypto serde (with_signature s) ≡ ok tt
        → validate_payload payload ≡ ok tt
        → (controller_id crypto controller == pinned.controller_id) ≡ true
        → verify_payload crypto pinned connector_lease_signature_domain
            (serde.payload_json payload)
            s
          ≡ ok tt
        → verify_binding_for_candidate crypto serde pinned site_id endpoint_id (with_signature s)
          ≡ ok device_id
    unfolding verify_binding_for_candidate
    bound pinned s c v i q =
        let same_site = ==_refl site_id in
        let same_endpoint = list_eq_refl endpoint_id in
        rw (c, v, i, q, same_site, same_endpoint, verify_binding_for_candidate)

    in_window :
        (pinned : ControllerPublicIdentity) (now : ℕ) (lease : SignedConnectorLease)
        → verify_binding_for_candidate crypto serde pinned site_id endpoint_id lease ≡ ok device_id
        → lease.payload.issued_unix_ms ≤ saturating_add now max_connector_lease_not_before_skew_ms
        → now < lease.payload.expires_unix_ms
        → verify_for_candidate crypto serde pinned site_id endpoint_id now lease ≡ ok device_id
    unfolding verify_for_candidate
    in_window pinned now lease b early late = ground (arith, b)

    -- A lease that the Controller issues is accepted, with its Device, by a candidate that pins the
    -- Controller and expects the lease's Site and endpoint, at any time before the expiry that is
    -- at most 30 seconds (in 64 bits) before the issue; given that signatures of the Controller are
    -- 64 bytes that verify under its key, and that its public identity is valid.
    pub issue_then_verify :
        (lease : SignedConnectorLease) (now : ℕ)
        → Signs crypto controller
        → issue crypto serde controller site_id device_id endpoint_id issued_unix_ms expires_unix_ms
          ≡ ok lease
        → issued_unix_ms ≤ saturating_add now max_connector_lease_not_before_skew_ms
        → now < expires_unix_ms
        → verify_for_candidate crypto serde
            (public_identity crypto controller)
            site_id
            endpoint_id
            now
            lease
          ≡ ok device_id
    unfolding public_identity
    issue_then_verify lease now h q early late =
        let (s, is_lease, v, signature, size) = issued lease q in
        let signed_ok =
          sign_then_verify crypto controller connector_lease_signature_domain
            (serde.payload_json payload) s h signature in
        let pinned = public_identity crypto controller in
        let b = bound pinned s size v (==_refl (controller_id crypto controller)) signed_ok in
        rw is_lease (in_window pinned now (with_signature s) b early late)
