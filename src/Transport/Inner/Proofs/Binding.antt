-- ===== src/Transport/Inner/Proofs/Binding.antt =====
-- inner.rs: what a session's ends know of each other once both have checked the other's proof.
use clew.Prelude.{ℕ, ◌≡◌, refl, ap, true, false, Bool, not, arith}
use clew.Prelude.Tests.{list_eq, list_eq_iff}
use clew.Prelude.Outcome.{
  Result, ok, ◌>>=◌, ◌>>◌, reject, map_err, checked, bound, passed, map_err-ok, ok-injective,
}
use clew.Identity.Keys.{
  Bytes, Crypto, session_binding_signature_domain, sign_payload, public_identity, validate_key,
  verify_session_binding, controller_id,
}
use clew.Proto.{wire_major}
use clew.Transport.Inner.{InnerRole, InnerSessionError}
use clew.Transport.Inner.Proofs.{
  ControllerSessionAuthority, DeviceSessionClaim, DeviceProofBody, DeviceProof, ControllerProofBody,
  ControllerProof, ProofJson, SessionNames, device_binding_fails, validate_untrusted_device_proof,
  accept_proof,
}

-- What an accepted proof of a Device says.
pub record IsDeviceProof (crypto : Crypto) (serde : ProofJson) (controller : ℕ) (transcript : Bytes)
    (proof : DeviceProof) : Type 0 where
  pub of_this_handshake : proof.body.transcript_hash ≡ transcript
  pub to_this_controller : proof.body.controller_id ≡ controller
  pub from_device : proof.body.role ≡ InnerRole.device
  pub valid_key : validate_key crypto proof.body.device_identity.public_key ≡ ok tt
  pub signed :
      verify_session_binding crypto proof.body.device_identity
        (serde.device_body_json proof.body)
        proof.signature
      ≡ ok tt

abbrev claim_of : DeviceProof → DeviceSessionClaim
claim_of proof = record {
  device_identity = proof.body.device_identity;
  device_id = proof.body.device_id;
  site_id = proof.body.site_id;
}

device_binding_fails_lem :
    (body : DeviceProofBody) (controller : ℕ) (transcript : Bytes)
    → device_binding_fails body controller transcript ≡ false
    → (body.role ≡ InnerRole.device)
      × (body.controller_id ≡ controller)
      × (list_eq body.transcript_hash transcript ≡ true)
unfolding device_binding_fails
device_binding_fails_lem body controller transcript q = ground (arith, q)

module _ (crypto : Crypto) (serde : ProofJson) where
  validate_untrusted_device_proof_lem :
      (proof : DeviceProof) (controller : ℕ) (transcript : Bytes) (claim : DeviceSessionClaim)
      → validate_untrusted_device_proof crypto serde proof controller transcript ≡ ok claim
      → IsDeviceProof crypto serde controller transcript proof × (claim_of proof ≡ claim)
  unfolding validate_untrusted_device_proof
  validate_untrusted_device_proof_lem proof controller transcript claim q =
      let bad = device_binding_fails proof.body controller transcript in
      let key = validate_key crypto proof.body.device_identity.public_key in
      let signature =
        verify_session_binding crypto proof.body.device_identity (serde.device_body_json proof.body)
          proof.signature in
      let answer = ok (claim_of proof) in
      let after = map_err InnerSessionError.identity signature >> answer in
      let (binds, q1) =
        checked (reject bad InnerSessionError.identity_binding_mismatch)
          (map_err InnerSessionError.identity key >> after) claim q in
      let (valid, q2) = checked (map_err InnerSessionError.identity key) after claim q1 in
      let (verified, q3) = checked (map_err InnerSessionError.identity signature) answer claim q2 in
      let (role, to_controller, hash) =
        device_binding_fails_lem proof.body controller transcript
          (passed bad InnerSessionError.identity_binding_mismatch binds) in
      (
        record {
          of_this_handshake = (list_eq_iff proof.body.transcript_hash transcript).0 hash;
          to_this_controller = to_controller;
          from_device = role;
          valid_key = map_err-ok InnerSessionError.identity key tt valid;
          signed = map_err-ok InnerSessionError.identity signature tt verified;
        },
        ok-injective q3,
      )

-- What the Controller knows of a session that it has accepted.
pub record IsAuthorized (crypto : Crypto) (serde : ProofJson)
    (authority : ControllerSessionAuthority) (authorize : DeviceSessionClaim → Bool)
    (transcript : Bytes) (proof : DeviceProof) (names : SessionNames) : Type 0 where
  pub proved : IsDeviceProof crypto serde (controller_id crypto authority.identity) transcript proof
  pub authorized : authorize (claim_of proof) ≡ true
  pub peer : names.peer_role ≡ InnerRole.device
  pub own_id : names.controller_id ≡ controller_id crypto authority.identity
  pub of_device : names.device_id ≡ proof.body.device_id
  pub of_site : names.site_id ≡ proof.body.site_id

module _ (crypto : Crypto) (serde : ProofJson) (authority : ControllerSessionAuthority)
    (transcript : Bytes) where
  -- The body of the Controller's proof, and the session, for a Device's claim.
  abbrev pub answer_body : DeviceSessionClaim → ControllerProofBody
  answer_body claim = record {
    wire_major = wire_major;
    role = InnerRole.controller;
    transcript_hash = transcript;
    controller_id = controller_id crypto authority.identity;
    site_id = claim.site_id;
    device_id = claim.device_id;
    controller_identity = public_identity crypto authority.identity;
  }

  abbrev pub accepted_names : DeviceSessionClaim → SessionNames
  accepted_names claim = record {
    peer_role = InnerRole.device;
    controller_id = controller_id crypto authority.identity;
    device_id = claim.device_id;
    site_id = claim.site_id;
  }

  abbrev signature_of : DeviceSessionClaim → Result InnerSessionError Bytes
  signature_of claim = map_err InnerSessionError.identity (
      sign_payload crypto authority.identity session_binding_signature_domain
        (serde.controller_body_json (answer_body claim)))

  abbrev pub accepted : DeviceSessionClaim → Bytes → ControllerProof × SessionNames
  accepted claim signature =
      (record { body = answer_body claim; signature = signature }, accepted_names claim)

  abbrev finish : DeviceSessionClaim → Result InnerSessionError (ControllerProof × SessionNames)
  finish claim = signature_of claim >>= (λ s. ok (accepted claim s))

  abbrev guard :
      (DeviceSessionClaim → Bool) → DeviceSessionClaim → Result InnerSessionError (Unit {0})
  guard authorize claim = reject (not (authorize claim)) InnerSessionError.identity_binding_mismatch

  accepted_parts :
      (authorize : DeviceSessionClaim → Bool) (proof : DeviceProof) (answer : ControllerProof)
      (names : SessionNames)
      → accept_proof crypto serde authority authorize transcript proof ≡ ok (answer, names)
      → (claim : DeviceSessionClaim) × (validate_untrusted_device_proof crypto serde proof
            (controller_id crypto authority.identity)
            transcript
          ≡ ok claim)
        × (authorize claim ≡ true)
        × (accepted_names claim ≡ names)
  unfolding accept_proof
  accepted_parts authorize proof answer names q =
      let reads =
        validate_untrusted_device_proof crypto serde proof (controller_id crypto authority.identity)
          transcript in
      let next = λ (claim : DeviceSessionClaim). guard authorize claim >> finish claim in
      let (claim, here, q2) = bound reads next (answer, names) q in
      let (may, q3) = checked (guard authorize claim) (finish claim) (answer, names) q2 in
      let (signature, _, q4) =
        bound (signature_of claim) (λ s. ok (accepted claim s)) (answer, names) q3 in
      let allowed =
        passed (not (authorize claim)) InnerSessionError.identity_binding_mismatch may in
      (claim, here, ground (arith, allowed), ap (λ a. a.1) (ok-injective q4))

  -- A session that `accept_proof` makes names this Controller, and the Device and Site of a
  -- proof that carries the transcript hash of this handshake and this Controller's identifier,
  -- that the Device's own key has signed, and that `authorize` has approved.
  pub accept_proof-IsAuthorized :
      (authorize : DeviceSessionClaim → Bool) (proof : DeviceProof) (answer : ControllerProof)
      (names : SessionNames)
      → accept_proof crypto serde authority authorize transcript proof ≡ ok (answer, names)
      → IsAuthorized crypto serde authority authorize transcript proof names
  accept_proof-IsAuthorized authorize proof answer names q =
      let (claim, reads, may, same) = accepted_parts authorize proof answer names q in
      let (proved, named) =
        validate_untrusted_device_proof_lem crypto serde proof
          (controller_id crypto authority.identity) transcript claim reads in
      record {
        proved = proved;
        authorized = rw named may;
        peer = rw (← same) refl;
        own_id = rw (← same) refl;
        of_device = rw (← same, ← named) refl;
        of_site = rw (← same, ← named) refl;
      }
