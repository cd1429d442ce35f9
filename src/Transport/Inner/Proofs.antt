-- ===== src/Transport/Inner/Proofs.antt =====
-- inner.rs: the proofs by which the ends of a session show who they are, and the identity of the
-- session that `connect` and `accept_authorized` make of them. Ed25519 and serde_json are
-- parameters; the handshake of Noise gives both ends its transcript hash.
pub mod Agreement
pub mod Binding
use clew.Prelude.{ℕ, Bool, true, false, not, Option, ◌&&◌, ◌||◌}
use clew.Prelude.Tests.{ltb, ◌==◌, list_eq}
use clew.Prelude.Lists.{length}
use clew.Prelude.Outcome.{Result, ok, err, ◌>>=◌, ◌>>◌, reject, map_err}
use clew.Identity.Keys.{
  Bytes, Crypto, IdentityError, ControllerIdentity, ControllerPublicIdentity, DevicePublicIdentity,
  DeviceIdentity, session_binding_signature_domain, sign_payload, verify_payload, public_identity,
  validate_controller, validate_key, device_public_identity, sign_session_binding,
  verify_session_binding,
}
use clew.Identity.Keys
use clew.Proto.{wire_major}
use clew.Transport.Inner.{InnerRole, InnerSessionError}

pub record ControllerSessionAuthority : Type 0 where
  pub identity : ControllerIdentity
  pub noise_static_secret : Bytes

pub record ControllerSessionIdentity : Type 0 where
  pub identity : ControllerIdentity
  pub noise_static_secret : Bytes
  pub expected_device : DevicePublicIdentity
  pub device_id : ℕ
  pub site_id : ℕ

pub record DeviceSessionClaim : Type 0 where
  pub device_identity : DevicePublicIdentity
  pub device_id : ℕ
  pub site_id : ℕ

pub record DeviceSessionIdentity : Type 0 where
  pub identity : DeviceIdentity
  pub pinned_controller : ControllerPublicIdentity
  pub device_id : ℕ
  pub site_id : ℕ

pub record DeviceProofBody : Type 0 where
  pub wire_major : ℕ
  pub role : InnerRole
  pub transcript_hash : Bytes
  pub controller_id : ℕ
  pub site_id : ℕ
  pub device_id : ℕ
  pub device_identity : DevicePublicIdentity

pub record DeviceProof : Type 0 where
  pub body : DeviceProofBody
  pub signature : Bytes

pub record ControllerProofBody : Type 0 where
  pub wire_major : ℕ
  pub role : InnerRole
  pub transcript_hash : Bytes
  pub controller_id : ℕ
  pub site_id : ℕ
  pub device_id : ℕ
  pub controller_identity : ControllerPublicIdentity

pub record ControllerProof : Type 0 where
  pub body : ControllerProofBody
  pub signature : Bytes

-- serde_json, which is not under the repository: `none` where it fails.
pub record ProofJson : Type 0 where
  pub device_body_json : DeviceProofBody → Option Bytes
  pub controller_body_json : ControllerProofBody → Option Bytes

-- Whose session it is.
pub record SessionNames : Type 0 where
  pub peer_role : InnerRole
  pub controller_id : ℕ
  pub device_id : ℕ
  pub site_id : ℕ

abbrev is_controller : InnerRole → Bool
is_controller InnerRole.controller = true
is_controller InnerRole.device = false

-- `==` on ControllerPublicIdentity and on DevicePublicIdentity
abbrev pub same_controller : ControllerPublicIdentity → ControllerPublicIdentity → Bool
same_controller a b = a.controller_id == b.controller_id && list_eq a.public_key b.public_key

abbrev pub same_device : DevicePublicIdentity → DevicePublicIdentity → Bool
same_device a b = list_eq a.public_key b.public_key

unfoldable pub device_binding_fails : DeviceProofBody → ℕ → Bytes → Bool
unfolding list_eq
device_binding_fails body controller_id transcript =
    not (body.wire_major == wire_major)
    || is_controller body.role
    || not (list_eq body.transcript_hash transcript)
    || not (body.controller_id == controller_id)

unfoldable pub controller_binding_fails :
    ControllerProofBody → ControllerPublicIdentity → Bytes → ℕ → ℕ → Bool
unfolding list_eq
controller_binding_fails body expected transcript site_id device_id =
    not (body.wire_major == wire_major)
    || not (is_controller body.role)
    || not (list_eq body.transcript_hash transcript)
    || not (body.controller_id == expected.controller_id)
    || not (body.site_id == site_id)
    || not (body.device_id == device_id)
    || not (same_controller body.controller_identity expected)

module _ (crypto : Crypto) (serde : ProofJson) where
  unfoldable pub validate_untrusted_device_proof :
      DeviceProof → ℕ → Bytes → Result InnerSessionError DeviceSessionClaim
  validate_untrusted_device_proof proof controller_id transcript = do
    reject (device_binding_fails proof.body controller_id transcript)
        InnerSessionError.identity_binding_mismatch
    map_err InnerSessionError.identity (validate_key crypto proof.body.device_identity.public_key)
    map_err InnerSessionError.identity (
        verify_session_binding crypto proof.body.device_identity (serde.device_body_json proof.body)
          proof.signature)
    ok (record {
      device_identity = proof.body.device_identity;
      device_id = proof.body.device_id;
      site_id = proof.body.site_id;
    })

  unfoldable pub validate_controller_proof :
      ControllerProof
      → ControllerPublicIdentity
      → Bytes
      → ℕ
      → ℕ
      → Result InnerSessionError (Unit {0})
  validate_controller_proof proof expected transcript site_id device_id = do
    reject (controller_binding_fails proof.body expected transcript site_id device_id)
        InnerSessionError.identity_binding_mismatch
    map_err InnerSessionError.identity (
        verify_payload crypto expected session_binding_signature_domain
          (serde.controller_body_json proof.body) proof.signature)

  -- InnerSession::connect: the checks before the handshake.
  unfoldable pub connect_checks : DeviceSessionIdentity → Result InnerSessionError (Unit {0})
  unfolding validate_controller validate_key
  connect_checks identity = do
    map_err InnerSessionError.identity (validate_controller crypto identity.pinned_controller)
    map_err InnerSessionError.identity
        (validate_key crypto (device_public_identity crypto identity.identity).public_key)

  -- InnerSession::connect: the proof that is sent after the handshake.
  unfoldable pub connect_proof :
      DeviceSessionIdentity → Bytes → Result InnerSessionError DeviceProof
  connect_proof identity transcript = do
    let body : DeviceProofBody = record {
      wire_major = wire_major;
      role = InnerRole.device;
      transcript_hash = transcript;
      controller_id = identity.pinned_controller.controller_id;
      site_id = identity.site_id;
      device_id = identity.device_id;
      device_identity = device_public_identity crypto identity.identity;
    }
    signature ←
        map_err InnerSessionError.identity
          (sign_session_binding crypto identity.identity (serde.device_body_json body))
    ok (record { body = body; signature = signature })

  -- InnerSession::connect: what the proof of the Controller makes of it.
  unfoldable pub connect_session :
      DeviceSessionIdentity → Bytes → ControllerProof → Result InnerSessionError SessionNames
  connect_session identity transcript controller_proof = do
    validate_controller_proof controller_proof identity.pinned_controller transcript
        identity.site_id identity.device_id
    ok (record {
      peer_role = InnerRole.controller;
      controller_id = identity.pinned_controller.controller_id;
      device_id = identity.device_id;
      site_id = identity.site_id;
    })

  -- InnerSession::accept_authorized: what it makes of the Device's proof, the proof that is answered
  -- and whose session it is.
  unfoldable pub accept_proof :
      ControllerSessionAuthority
      → (DeviceSessionClaim → Bool)
      → Bytes
      → DeviceProof
      → Result InnerSessionError (ControllerProof × SessionNames)
  accept_proof authority authorize transcript device_proof = do
    let controller_id = Keys.controller_id crypto authority.identity
    claim ← validate_untrusted_device_proof device_proof controller_id transcript
    reject (not (authorize claim)) InnerSessionError.identity_binding_mismatch
    let body : ControllerProofBody = record {
      wire_major = wire_major;
      role = InnerRole.controller;
      transcript_hash = transcript;
      controller_id = controller_id;
      site_id = claim.site_id;
      device_id = claim.device_id;
      controller_identity = public_identity crypto authority.identity;
    }
    signature ← map_err InnerSessionError.identity (
        sign_payload crypto authority.identity session_binding_signature_domain
          (serde.controller_body_json body))
    ok (
      record { body = body; signature = signature },
      record {
        peer_role = InnerRole.device;
        controller_id = controller_id;
        device_id = claim.device_id;
        site_id = claim.site_id;
      },
    )
