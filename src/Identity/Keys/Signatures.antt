-- ===== src/Identity/Keys/Signatures.antt =====
-- keys.rs: what a key signs, its public key verifies.
use clew.Prelude.{◌≡◌, ◌++◌, refl, sym, true, false, Option, some}
use clew.Prelude.Lists.{length}
use clew.Prelude.Outcome.{Result, ok, err, ◌>>=◌, ok-injective}
use clew.Identity.Keys.{
  Bytes, Crypto, IdentityError, ControllerIdentity, ControllerPublicIdentity, DeviceIdentity,
  sign_payload, verify_payload, public_identity, controller_id, validate_controller, signed_message,
  validate_key, device_public_identity, sign_session_binding, verify_session_binding,
  session_binding_signature_domain,
}

-- What is relied on of Ed25519: a signature is 64 bytes long and verifies under the signer's key,
-- whose bytes are a key; and the Controller's own public identity is valid.
pub record Signs (crypto : Crypto) (controller : ControllerIdentity) : Type 0 where
  pub length_64 : (m : Bytes) → length (crypto.sign controller.secret m) ≡ 64
  pub verifies :
      (m : Bytes)
      → crypto.verify_strict
          (crypto.verifying_key controller.secret)
          m
          (crypto.sign controller.secret m)
        ≡ true
  pub has_key : crypto.is_key (crypto.verifying_key controller.secret) ≡ true
  pub is_valid : validate_controller crypto (public_identity crypto controller) ≡ ok tt

module _ (crypto : Crypto) where
  -- The checks of a signature, one by one.
  pub verify_payload-ok :
      (c : ControllerPublicIdentity) (domain : Bytes) (json : Option Bytes)
      (message signature : Bytes)
      → validate_controller crypto c ≡ ok tt
      → crypto.is_key c.public_key ≡ true
      → length signature ≡ 64
      → signed_message crypto domain json ≡ ok message
      → crypto.verify_strict c.public_key message signature ≡ true
      → verify_payload crypto c domain json signature ≡ ok tt
  unfolding verify_payload
  verify_payload-ok c domain json message signature v k l m s = rw (v, k, l, m, s, verify_payload)

  pub signed :
      (r : Result IdentityError Bytes) (f : Bytes → Bytes) (s : Bytes)
      → r >>= (λ m. ok (f m)) ≡ ok s
      → (m : Bytes) × (r ≡ ok m) × (s ≡ f m)
  signed (ok m) f s q = (m, refl, sym (ok-injective q))
  signed (err e) f s q = cc

  module _ (controller : ControllerIdentity) where
    pub sign_then_verify :
        (domain : Bytes) (json : Option Bytes) (signature : Bytes)
        → Signs crypto controller
        → sign_payload crypto controller domain json ≡ ok signature
        → verify_payload crypto (public_identity crypto controller) domain json signature ≡ ok tt
    unfolding sign_payload public_identity
    sign_then_verify domain json signature h q =
        let (message, m, same) =
          signed (signed_message crypto domain json) (crypto.sign controller.secret) signature q in
        verify_payload-ok (public_identity crypto controller) domain json message signature
          h.is_valid h.has_key (rw same (h.length_64 message)) m (rw same (h.verifies message))

pub sign_payload-some :
    (crypto : Crypto) (c : ControllerIdentity) (domain json : Bytes)
    → sign_payload crypto c domain (some json) ≡ ok (crypto.sign c.secret (domain ++ json))
unfolding sign_payload
sign_payload-some crypto c domain json = refl

pub controller_id-public_identity :
    (crypto : Crypto) (c : ControllerIdentity)
    → (public_identity crypto c).controller_id ≡ controller_id crypto c
unfolding public_identity
controller_id-public_identity crypto c = refl

-- The same of a Device's key, which is not weak.
pub record DeviceSigns (crypto : Crypto) (device : DeviceIdentity) : Type 0 where
  pub length_64 : (m : Bytes) → length (crypto.sign device.signing_key m) ≡ 64
  pub verifies :
      (m : Bytes)
      → crypto.verify_strict
          (crypto.verifying_key device.signing_key)
          m
          (crypto.sign device.signing_key m)
        ≡ true
  pub has_key : crypto.is_key (crypto.verifying_key device.signing_key) ≡ true
  pub is_strong : crypto.is_weak (crypto.verifying_key device.signing_key) ≡ false

module _ (crypto : Crypto) (device : DeviceIdentity) (h : DeviceSigns crypto device) where
  pub validate_key-device :
      validate_key crypto (device_public_identity crypto device).public_key ≡ ok tt
  unfolding validate_key device_public_identity
  validate_key-device = rw (h.has_key, h.is_strong) refl

  pub verify-sign_session_binding :
      (json : Option Bytes) (signature : Bytes)
      → sign_session_binding crypto device json ≡ ok signature
      → verify_session_binding crypto (device_public_identity crypto device) json signature ≡ ok tt
  unfolding sign_session_binding verify_session_binding device_public_identity
  verify-sign_session_binding json signature q =
      let (message, m, same) =
        signed crypto (signed_message crypto session_binding_signature_domain json)
          (crypto.sign device.signing_key) signature q in
      let long = h.length_64 message in
      let verified = h.verifies message in
      rw (validate_key-device, h.has_key, same, long, m, verified) refl
