-- ===== src/Transport/Lease.antt =====
-- crates/clew-transport/src/lease.rs: the Controller's signed lease of a Connector.
pub mod Window
pub mod Issue
use clew.Prelude.{
  ℕ, ◌+◌, ◌*◌, ◌-◌, Bool, true, false, not, ◌||◌, Option, none, some, List, [], ◌∷◌, min, u64_max,
}
use clew.Prelude.Tests.{ltb, leb, ◌==◌, list_eq}
use clew.Prelude.Lists.{length}
use clew.Prelude.Outcome.{Result, ok, err, ◌>>=◌, ◌>>◌, reject, ok_or, map_err}
use clew.Prelude.Text.{Str, str}
use clew.Identity.Keys.{
  Bytes, Crypto, IdentityError, ControllerIdentity, ControllerPublicIdentity,
  connector_lease_signature_domain, sign_payload, verify_payload,
}
use clew.Identity.Keys

abbrev pub connector_lease_version : ℕ
connector_lease_version = 1

abbrev pub max_connector_lease_lifetime_ms : ℕ
max_connector_lease_lifetime_ms = 10 * 60 * 1000

abbrev pub max_connector_lease_not_before_skew_ms : ℕ
max_connector_lease_not_before_skew_ms = 30 * 1000

abbrev pub max_connector_lease_encoded_bytes : ℕ
max_connector_lease_encoded_bytes = 8 * 1024

abbrev pub connector_lease_message_kind : Str
connector_lease_message_kind = str "connector_lease"

-- `ConnectorLeaseRole` has the one value `Connector`, so the test for another role never fails.
pub record ConnectorLease : Type 0 where
  pub version : ℕ
  pub controller_id : ℕ
  pub site_id : ℕ
  pub connector_device_id : ℕ
  pub connector_endpoint_id : Bytes
  pub issued_unix_ms : ℕ
  pub expires_unix_ms : ℕ

pub record SignedConnectorLease : Type 0 where
  pub payload : ConnectorLease
  pub signature : Bytes

pub data ConnectorLeaseError : Type 0 where
  json invalid_lifetime controller_mismatch site_mismatch endpoint_mismatch : ConnectorLeaseError
  not_yet_valid expired inner : ConnectorLeaseError
  identity : IdentityError → ConnectorLeaseError
  unsupported_version : ℕ → ConnectorLeaseError
  unexpected_message_kind : Str → ConnectorLeaseError
  encoded_too_large : ℕ → ConnectorLeaseError

-- serde_json, which is not under the repository.
pub record LeaseJson : Type 0 where
  pub payload_json : ConnectorLease → Option Bytes
  pub signed_json : SignedConnectorLease → Option Bytes
  pub signed_of : Bytes → Option SignedConnectorLease

unfoldable pub validate_payload : ConnectorLease → Result ConnectorLeaseError (Unit {0})
validate_payload payload = do
  reject (not (payload.version == connector_lease_version)) (unsupported_version payload.version)
  reject (ltb payload.expires_unix_ms payload.issued_unix_ms) invalid_lifetime
  let lifetime = payload.expires_unix_ms - payload.issued_unix_ms
  reject (lifetime == 0 || ltb max_connector_lease_lifetime_ms lifetime) invalid_lifetime

-- u64::saturating_add
abbrev pub saturating_add : ℕ → ℕ → ℕ
saturating_add a b = min (a + b) u64_max

module _ (crypto : Crypto) (serde : LeaseJson) where
  unfoldable pub check_size : SignedConnectorLease → Result ConnectorLeaseError (Unit {0})
  check_size signed = do
    encoded ← ok_or (serde.signed_json signed) json
    reject (ltb max_connector_lease_encoded_bytes (length encoded))
        (encoded_too_large (length encoded))

  -- SignedConnectorLease::issue
  unfoldable pub issue :
      ControllerIdentity → ℕ → ℕ → Bytes → ℕ → ℕ → Result ConnectorLeaseError SignedConnectorLease
  unfolding validate_payload check_size
  issue controller site_id connector_device_id endpoint_id issued_unix_ms expires_unix_ms = do
    let payload : ConnectorLease = record {
      version = connector_lease_version;
      controller_id = Keys.controller_id crypto controller;
      site_id = site_id;
      connector_device_id = connector_device_id;
      connector_endpoint_id = endpoint_id;
      issued_unix_ms = issued_unix_ms;
      expires_unix_ms = expires_unix_ms;
    }
    validate_payload payload
    signature ← map_err identity (
        sign_payload crypto controller connector_lease_signature_domain
          (serde.payload_json payload))
    let signed : SignedConnectorLease = record { payload = payload; signature = signature }
    check_size signed
    ok signed

  unfoldable pub verify_binding_for_candidate :
      ControllerPublicIdentity → ℕ → Bytes → SignedConnectorLease → Result ConnectorLeaseError ℕ
  unfolding validate_payload check_size
  verify_binding_for_candidate pinned expected_site_id expected_endpoint_id signed = do
    check_size signed
    validate_payload signed.payload
    reject (not (signed.payload.controller_id == pinned.controller_id)) controller_mismatch
    map_err identity (
        verify_payload crypto pinned connector_lease_signature_domain
          (serde.payload_json signed.payload) signed.signature)
    reject (not (signed.payload.site_id == expected_site_id)) site_mismatch
    reject (not (list_eq signed.payload.connector_endpoint_id expected_endpoint_id))
        endpoint_mismatch
    ok signed.payload.connector_device_id

  unfoldable pub verify_for_candidate :
      ControllerPublicIdentity → ℕ → Bytes → ℕ → SignedConnectorLease → Result ConnectorLeaseError ℕ
  unfolding verify_binding_for_candidate
  verify_for_candidate pinned expected_site_id expected_endpoint_id now_unix_ms signed = do
    device_id ← verify_binding_for_candidate pinned expected_site_id expected_endpoint_id signed
    reject
        (ltb (saturating_add now_unix_ms max_connector_lease_not_before_skew_ms)
          signed.payload.issued_unix_ms)
        not_yet_valid
    reject (leb signed.payload.expires_unix_ms now_unix_ms) expired
    ok device_id

  unfoldable pub to_bytes : SignedConnectorLease → Result ConnectorLeaseError Bytes
  unfolding check_size
  to_bytes signed = do check_size signed; ok_or (serde.signed_json signed) json

  unfoldable pub from_bytes : Bytes → Result ConnectorLeaseError SignedConnectorLease
  unfolding check_size validate_payload
  from_bytes bytes = do
    reject (ltb max_connector_lease_encoded_bytes (length bytes)) (encoded_too_large (length bytes))
    signed ← ok_or (serde.signed_of bytes) json
    check_size signed
    validate_payload signed.payload
    ok signed
