-- ===== src/Identity/Keys.antt =====
-- crates/clew-identity/src/keys.rs: Controller and Device identities. Ed25519, SHA-256 and the
-- system's random numbers are not under the repository: they are the fields of `Crypto`.
pub mod Signatures
use Prim.Native.Nat.{bit_and, bit_or}
use Prim.Native.String.{String}
use clew.Prelude.{ℕ, zero, suc, ◌+◌, ◌*◌, Bool, not, Option, none, some, List, [], ◌∷◌, ◌++◌}
use clew.Prelude.Tests.{◌==◌, if◌then◌else◌}
use clew.Prelude.Lists.{length, take}
use clew.Prelude.Outcome.{Result, ok, ◌>>=◌, ◌>>◌, reject, ok_or}
use clew.Prelude.Text.{str}
pub use clew.Prelude.Bytes.{Bytes}
unfoldable pub use clew.Prelude.Bytes.{from_be_bytes}

pub record Crypto : Type 0 where
  pub sha256 : Bytes → Bytes
  -- `VerifyingKey::from_bytes` accepts the bytes, and `is_weak`.
  pub is_key : Bytes → Bool
  pub is_weak : Bytes → Bool
  -- `SigningKey::from_bytes(secret).verifying_key()`, `sign` and `verify_strict`.
  pub verifying_key : Bytes → Bytes
  pub sign : Bytes → Bytes → Bytes
  pub verify_strict : Bytes → Bytes → Bytes → Bool

pub data IdentityError : Type 0 where
  random controller_id_mismatch invalid_public_key weak_public_key invalid_signature : IdentityError
  nil_controller_id json : IdentityError
  invalid_signature_length : ℕ → IdentityError

pub record ControllerPublicIdentity : Type 0 where
  pub controller_id : ℕ
  pub public_key : Bytes

pub record ControllerIdentity : Type 0 where
  pub secret : Bytes

pub record DeviceIdentity : Type 0 where
  pub signing_key : Bytes

pub record DevicePublicIdentity : Type 0 where
  pub public_key : Bytes

-- `bytes[index] = f(bytes[index])`
unfoldable pub update_byte : ℕ → (ℕ → ℕ) → Bytes → Bytes
update_byte n f [] = []
update_byte zero f (b ∷ bs) = f b ∷ bs
update_byte (suc n) f (b ∷ bs) = b ∷ update_byte n f bs

-- A byte-string domain: the literals of the source end in a NUL.
abbrev pub domain_bytes : String → Bytes
domain_bytes text = str text ++ 0 ∷ []

abbrev pub controller_id_domain : Bytes
controller_id_domain = domain_bytes "clew/controller-id/v1"

abbrev pub connector_lease_signature_domain : Bytes
connector_lease_signature_domain = domain_bytes "clew/connector-lease/v1"

abbrev pub session_binding_signature_domain : Bytes
session_binding_signature_domain = domain_bytes "clew/inner-session-binding/v1"

-- `id.rs`: `from_bytes` refuses the nil identifier.
unfoldable pub id_from_bytes : Bytes → Option ℕ
unfolding from_be_bytes
id_from_bytes bytes = let id = from_be_bytes 0 bytes in if id == 0 then none else some id

module _ (crypto : Crypto) where
  open crypto use {sha256, is_key, is_weak, verifying_key, sign, verify_strict}

  -- The bytes of the identifier of a Controller with this key.
  unfoldable pub controller_fingerprint : Bytes → Bytes
  unfolding update_byte
  controller_fingerprint public_key =
      let bytes = take 16 (sha256 (controller_id_domain ++ public_key)) in
      update_byte 8 (λ b. bit_or (bit_and b 0x3f) 0x80)
        (update_byte 6 (λ b. bit_or (bit_and b 0x0f) 0x80) bytes)

  unfoldable pub controller_id_from_public_key : Bytes → Result IdentityError ℕ
  unfolding controller_fingerprint id_from_bytes
  controller_id_from_public_key public_key =
      ok_or (id_from_bytes (controller_fingerprint public_key)) nil_controller_id

  -- The identifier of the Controller's own key. The source panics where it is nil.
  unfoldable pub controller_id : ControllerIdentity → ℕ
  unfolding controller_fingerprint from_be_bytes
  controller_id c = from_be_bytes 0 (controller_fingerprint (verifying_key c.secret))

  unfoldable pub public_identity : ControllerIdentity → ControllerPublicIdentity
  unfolding controller_id
  public_identity c = record {
    controller_id = controller_id c;
    public_key = verifying_key c.secret;
  }

  -- DevicePublicIdentity::validate, and the key tests of ControllerPublicIdentity::validate
  unfoldable pub validate_key : Bytes → Result IdentityError (Unit {0})
  validate_key key = do
    reject (not (is_key key)) invalid_public_key
    reject (is_weak key) weak_public_key

  -- ControllerPublicIdentity::validate
  unfoldable pub validate_controller : ControllerPublicIdentity → Result IdentityError (Unit {0})
  unfolding controller_id_from_public_key validate_key
  validate_controller c = do
    expected ← controller_id_from_public_key c.public_key
    reject (not (expected == c.controller_id)) controller_id_mismatch
    validate_key c.public_key

  -- The message that is signed; the JSON of the payload is `none` where serde fails.
  unfoldable pub signed_message : Bytes → Option Bytes → Result IdentityError Bytes
  signed_message domain payload_json = do encoded ← ok_or payload_json json; ok (domain ++ encoded)

  unfoldable pub sign_payload :
      ControllerIdentity → Bytes → Option Bytes → Result IdentityError Bytes
  unfolding signed_message
  sign_payload c domain payload_json = do
    message ← signed_message domain payload_json
    ok (sign c.secret message)

  -- ControllerPublicIdentity::verify_payload
  unfoldable pub verify_payload :
      ControllerPublicIdentity → Bytes → Option Bytes → Bytes → Result IdentityError (Unit {0})
  unfolding validate_controller signed_message
  verify_payload c domain payload_json signature = do
    validate_controller c
    reject (not (is_key c.public_key)) invalid_public_key
    reject (not (length signature == 64)) (invalid_signature_length (length signature))
    message ← signed_message domain payload_json
    reject (not (verify_strict c.public_key message signature)) invalid_signature

  -- DeviceIdentity::public_identity
  unfoldable pub device_public_identity : DeviceIdentity → DevicePublicIdentity
  device_public_identity d = record { public_key = verifying_key d.signing_key }

  -- DeviceIdentity::sign_session_binding
  unfoldable pub sign_session_binding : DeviceIdentity → Option Bytes → Result IdentityError Bytes
  unfolding signed_message
  sign_session_binding d payload_json = do
    message ← signed_message session_binding_signature_domain payload_json
    ok (sign d.signing_key message)

  -- DevicePublicIdentity::verify_session_binding
  unfoldable pub verify_session_binding :
      DevicePublicIdentity → Option Bytes → Bytes → Result IdentityError (Unit {0})
  unfolding validate_key signed_message
  verify_session_binding d payload_json signature = do
    validate_key d.public_key
    reject (not (is_key d.public_key)) invalid_public_key
    reject (not (length signature == 64)) (invalid_signature_length (length signature))
    message ← signed_message session_binding_signature_domain payload_json
    reject (not (verify_strict d.public_key message signature)) invalid_signature
