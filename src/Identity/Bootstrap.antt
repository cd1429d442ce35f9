-- ===== src/Identity/Bootstrap.antt =====
-- crates/clew-identity/src/enrollment.rs: the signed bootstrap pass of a Site.
use clew.Prelude.{ℕ, ◌*◌, not, ◌||◌, Option, ◌++◌}
use clew.Prelude.Tests.{ltb, leb, ◌==◌, list_eq}
use clew.Prelude.Lists.{is_empty}
use clew.Prelude.Outcome.{Result, ok, ◌>>=◌, ◌>>◌, reject, ok_or, map_err}
use clew.Prelude.Text.{Str, trim, byte_len}
use clew.Identity.Grant.{PermissionGrant}
use clew.Identity.Keys.{
  Bytes, Crypto, IdentityError, ControllerPublicIdentity, ControllerIdentity, domain_bytes,
  public_identity, validate_controller, sign_payload, verify_payload,
}

pub data BootstrapFault : Type 0 where
  site_name expiry deployment_window max_claims : BootstrapFault

pub data EnrollmentError : Type 0 where
  identity : IdentityError → EnrollmentError
  json bootstrap_secret_mismatch wrong_controller pass_conflict not_yet_valid : EnrollmentError
  expired deployment_window_closed invite_closed invite_revoked exhausted : EnrollmentError
  finalized_replay missing_claim persist_token_mismatch : EnrollmentError
  invalid_bootstrap : BootstrapFault → EnrollmentError
  unsupported_bootstrap_version : ℕ → EnrollmentError
  unknown_invite : ℕ → EnrollmentError
  unknown_device : ℕ → EnrollmentError

abbrev pub bootstrap_version : ℕ
bootstrap_version = 1

abbrev pub max_site_name_bytes : ℕ
max_site_name_bytes = 128

abbrev pub max_bootstrap_claims : ℕ
max_bootstrap_claims = 256

abbrev pub max_deployment_window_ms : ℕ
max_deployment_window_ms = 7 * 24 * 60 * 60 * 1000

abbrev pub bootstrap_signature_domain : Bytes
bootstrap_signature_domain = domain_bytes "clew/site-bootstrap-signature/v1"

abbrev pub bootstrap_secret_domain : Bytes
bootstrap_secret_domain = domain_bytes "clew/site-bootstrap-secret/v1"

abbrev pub bootstrap_fingerprint_domain : Bytes
bootstrap_fingerprint_domain = domain_bytes "clew/site-bootstrap-fingerprint/v1"

pub record SiteBootstrapSpec : Type 0 where
  pub site_id : ℕ
  pub invite_id : ℕ
  pub site_name : Str
  pub grant : PermissionGrant
  pub not_before_unix_ms : ℕ
  pub expires_unix_ms : ℕ
  pub deployment_window_ms : ℕ
  pub max_claims : ℕ

pub record SiteBootstrapPayload : Type 0 where
  pub version : ℕ
  pub controller : ControllerPublicIdentity
  pub site_id : ℕ
  pub invite_id : ℕ
  pub site_name : Str
  pub grant : PermissionGrant
  pub not_before_unix_ms : ℕ
  pub expires_unix_ms : ℕ
  pub deployment_window_ms : ℕ
  pub max_claims : ℕ
  pub bootstrap_secret_hash : Bytes

pub record SignedSiteBootstrapPass : Type 0 where
  pub payload : SiteBootstrapPayload
  pub bootstrap_secret : Bytes
  pub signature : Bytes

-- SiteBootstrapSpec::validate
unfoldable pub validate_spec : SiteBootstrapSpec → Result EnrollmentError (Unit {0})
validate_spec s = do
  let name = trim s.site_name
  reject (is_empty name || ltb max_site_name_bytes (byte_len name))
      (invalid_bootstrap BootstrapFault.site_name)
  reject (leb s.expires_unix_ms s.not_before_unix_ms) (invalid_bootstrap BootstrapFault.expiry)
  reject (s.deployment_window_ms == 0 || ltb max_deployment_window_ms s.deployment_window_ms)
      (invalid_bootstrap BootstrapFault.deployment_window)
  reject (s.max_claims == 0 || ltb max_bootstrap_claims s.max_claims)
      (invalid_bootstrap BootstrapFault.max_claims)

-- serde_json of the payload, and of the payload with its signature; `none` where it fails.
pub record BootstrapJson : Type 0 where
  pub payload_json : SiteBootstrapPayload → Option Bytes
  pub signed_json : SiteBootstrapPayload → Bytes → Option Bytes

module _ (crypto : Crypto) (serde : BootstrapJson) where
  unfoldable pub bootstrap_secret_hash : Bytes → Bytes
  bootstrap_secret_hash secret = crypto.sha256 (bootstrap_secret_domain ++ secret)

  -- ControllerIdentity::issue_site_bootstrap; `secret` is what `random_secret_32` returns.
  unfoldable pub issue_site_bootstrap :
      ControllerIdentity
      → SiteBootstrapSpec
      → Result IdentityError Bytes
      → Result EnrollmentError SignedSiteBootstrapPass
  unfolding validate_spec bootstrap_secret_hash sign_payload public_identity
  issue_site_bootstrap c spec secret = do
    validate_spec spec
    bootstrap_secret ← map_err identity secret
    let payload : SiteBootstrapPayload = record {
      version = bootstrap_version;
      controller = public_identity crypto c;
      site_id = spec.site_id;
      invite_id = spec.invite_id;
      site_name = spec.site_name;
      grant = spec.grant;
      not_before_unix_ms = spec.not_before_unix_ms;
      expires_unix_ms = spec.expires_unix_ms;
      deployment_window_ms = spec.deployment_window_ms;
      max_claims = spec.max_claims;
      bootstrap_secret_hash = bootstrap_secret_hash bootstrap_secret;
    }
    signature ←
        map_err identity
          (sign_payload crypto c bootstrap_signature_domain (serde.payload_json payload))
    ok (record { payload = payload; bootstrap_secret = bootstrap_secret; signature = signature })

  unfoldable pub validate_payload : SiteBootstrapPayload → Result EnrollmentError (Unit {0})
  unfolding validate_spec validate_controller
  validate_payload p = do
    reject (not (p.version == bootstrap_version)) (unsupported_bootstrap_version p.version)
    validate_spec (record {
      site_id = p.site_id;
      invite_id = p.invite_id;
      site_name = p.site_name;
      grant = p.grant;
      not_before_unix_ms = p.not_before_unix_ms;
      expires_unix_ms = p.expires_unix_ms;
      deployment_window_ms = p.deployment_window_ms;
      max_claims = p.max_claims;
    })
    map_err identity (validate_controller crypto p.controller)

  -- SignedSiteBootstrapPass::verify
  unfoldable pub verify : SignedSiteBootstrapPass → Result EnrollmentError ControllerPublicIdentity
  unfolding validate_payload bootstrap_secret_hash verify_payload
  verify pass = do
    validate_payload pass.payload
    reject
        (not (
          list_eq (bootstrap_secret_hash pass.bootstrap_secret) pass.payload.bootstrap_secret_hash))
        bootstrap_secret_mismatch
    map_err identity (
        verify_payload crypto pass.payload.controller bootstrap_signature_domain
          (serde.payload_json pass.payload) pass.signature)
    ok pass.payload.controller

  -- SignedSiteBootstrapPass::fingerprint
  unfoldable pub fingerprint : SignedSiteBootstrapPass → Result EnrollmentError Bytes
  fingerprint pass = do
    encoded ← ok_or (serde.signed_json pass.payload pass.signature) json
    ok (crypto.sha256 (bootstrap_fingerprint_domain ++ encoded))
