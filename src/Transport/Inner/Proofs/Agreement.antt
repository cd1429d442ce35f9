-- ===== src/Transport/Inner/Proofs/Agreement.antt =====
-- inner.rs: the proofs of a Controller and a Device that know each other open one session.
use clew.Prelude.{◌≡◌, ◌++◌, refl, sym, ap, ◌∙◌, true, false, Bool, some}
use clew.Prelude.Tests.{==_refl, list_eq_refl}
use clew.Prelude.Outcome.{ok, map_err, bound, map_err-ok, ok-injective}
use clew.Prelude.Lists.{length}
use clew.Identity.Keys.{
  Bytes, Crypto, ControllerPublicIdentity, session_binding_signature_domain, sign_payload,
  verify_payload, public_identity, device_public_identity, sign_session_binding, controller_id,
}
use clew.Identity.Keys.Signatures.{
  Signs, DeviceSigns, sign_then_verify, sign_payload-some, controller_id-public_identity,
  verify-sign_session_binding, validate_key-device,
}
use clew.Proto.{wire_major}
use clew.Transport.Inner.{InnerRole, InnerSessionError}
use clew.Transport.Inner.Proofs.{
  ControllerSessionAuthority, DeviceSessionClaim, DeviceSessionIdentity, DeviceProofBody,
  DeviceProof, ControllerProof, ProofJson, SessionNames, device_binding_fails,
  controller_binding_fails, validate_untrusted_device_proof, validate_controller_proof,
  connect_proof, connect_session, accept_proof,
}
use clew.Transport.Inner.Proofs.Binding.{answer_body, accepted_names}

module _ (crypto : Crypto) (identity : DeviceSessionIdentity) where
  -- What the Device says of itself.
  abbrev pub own_claim : DeviceSessionClaim
  own_claim = record {
    device_identity = device_public_identity crypto identity.identity;
    device_id = identity.device_id;
    site_id = identity.site_id;
  }

-- Both ends of a session, and what they call it.
pub record OpensOne (crypto : Crypto) (serde : ProofJson) (authority : ControllerSessionAuthority)
    (identity : DeviceSessionIdentity) (authorize : DeviceSessionClaim → Bool) (transcript : Bytes)
    (proof : DeviceProof) : Type 0 where
  pub answer : ControllerProof
  pub at_controller : SessionNames
  pub at_device : SessionNames
  pub accepts :
      accept_proof crypto serde authority authorize transcript proof ≡ ok (answer, at_controller)
  pub connects : connect_session crypto serde identity transcript answer ≡ ok at_device
  pub answered :
      answer.body ≡ answer_body crypto serde authority transcript (own_claim crypto identity)
  pub signature_64 : length answer.signature ≡ 64
  pub to_device : at_controller.peer_role ≡ InnerRole.device
  pub to_controller : at_device.peer_role ≡ InnerRole.controller
  pub same_controller : at_controller.controller_id ≡ at_device.controller_id
  pub same_device : at_controller.device_id ≡ at_device.device_id
  pub same_site : at_controller.site_id ≡ at_device.site_id

module _ (crypto : Crypto) (serde : ProofJson) (authority : ControllerSessionAuthority)
    (identity : DeviceSessionIdentity) (transcript : Bytes) where
  abbrev own_body : DeviceProofBody
  own_body = record {
    wire_major = wire_major;
    role = InnerRole.device;
    transcript_hash = transcript;
    controller_id = identity.pinned_controller.controller_id;
    site_id = identity.site_id;
    device_id = identity.device_id;
    device_identity = device_public_identity crypto identity.identity;
  }

  connect_proof_lem :
      (proof : DeviceProof)
      → connect_proof crypto serde identity transcript ≡ ok proof
      → (s : Bytes) × (sign_session_binding crypto identity.identity
            (serde.device_body_json own_body)
          ≡ ok s)
        × (proof ≡ record { body = own_body; signature = s })
  unfolding connect_proof
  connect_proof_lem proof q =
      let r = sign_session_binding crypto identity.identity (serde.device_body_json own_body) in
      let (s, here, q1) =
        bound (map_err InnerSessionError.identity r)
          (λ s. ok (record { body = own_body; signature = s })) proof q in
      (s, map_err-ok InnerSessionError.identity r s here, sym (ok-injective q1))

  -- The pinned Controller is the one that answers.
  module _ (pins : identity.pinned_controller ≡ public_identity crypto authority.identity) where
    pinned_id : identity.pinned_controller.controller_id ≡ controller_id crypto authority.identity
    pinned_id =
        ap (λ (c : ControllerPublicIdentity). c.controller_id) pins
        ∙ controller_id-public_identity crypto authority.identity

    own_proof_matches :
        device_binding_fails own_body (controller_id crypto authority.identity) transcript ≡ false
    unfolding device_binding_fails
    own_proof_matches =
        rw (list_eq_refl transcript, pinned_id, ==_refl (controller_id crypto authority.identity))
          refl

    own_proof_accepted :
        (s : Bytes)
        → DeviceSigns crypto identity.identity
        → sign_session_binding crypto identity.identity (serde.device_body_json own_body) ≡ ok s
        → validate_untrusted_device_proof crypto serde
            (record { body = own_body; signature = s })
            (controller_id crypto authority.identity)
            transcript
          ≡ ok (own_claim crypto identity)
    unfolding validate_untrusted_device_proof
    own_proof_accepted s d q =
        let verified =
          verify-sign_session_binding crypto identity.identity d (serde.device_body_json own_body) s
            q in
        rw (own_proof_matches, validate_key-device crypto identity.identity d, verified) refl

    answer_matches :
        controller_binding_fails
          (answer_body crypto serde authority transcript (own_claim crypto identity))
          identity.pinned_controller
          transcript
          identity.site_id
          identity.device_id
        ≡ false
    unfolding controller_binding_fails
    answer_matches =
        rw
          (
            list_eq_refl transcript,
            pinned_id,
            ==_refl (controller_id crypto authority.identity),
            ==_refl identity.site_id,
            ==_refl identity.device_id,
            ← pins,
            pinned_id,
            ==_refl (controller_id crypto authority.identity),
            list_eq_refl identity.pinned_controller.public_key,
          )
          refl

    -- A Controller and a Device that pins it, whose handshake gave one transcript hash, open one
    -- session: if the Device makes a proof, the Controller accepts it, the Device accepts the
    -- answer, and both name the same Controller, Device and Site; given that `authorize` approves
    -- the Device's claim, that serde_json writes the body of the answer, and that the signatures of
    -- both keys verify.
    pub connect_proof-accept_proof :
        (authorize : DeviceSessionClaim → Bool) (proof : DeviceProof) (json : Bytes)
        → Signs crypto authority.identity
        → DeviceSigns crypto identity.identity
        → authorize (own_claim crypto identity) ≡ true
        → serde.controller_body_json
            (answer_body crypto serde authority transcript (own_claim crypto identity))
          ≡ some json
        → connect_proof crypto serde identity transcript ≡ ok proof
        → OpensOne crypto serde authority identity authorize transcript proof
    unfolding accept_proof connect_session validate_controller_proof
    connect_proof-accept_proof authorize proof json c d may writes q =
        let (s, made, is_own) = connect_proof_lem proof q in
        let body = answer_body crypto serde authority transcript (own_claim crypto identity) in
        let signature =
          crypto.sign authority.identity.secret (session_binding_signature_domain ++ json) in
        let signs : sign_payload crypto authority.identity session_binding_signature_domain
              (serde.controller_body_json body)
            ≡ ok signature =
          rw writes
            (sign_payload-some crypto authority.identity session_binding_signature_domain json) in
        let verifies : verify_payload crypto identity.pinned_controller
              session_binding_signature_domain (serde.controller_body_json body) signature
            ≡ ok tt =
          rw pins (
            sign_then_verify crypto authority.identity session_binding_signature_domain
              (serde.controller_body_json body) signature c signs) in
        record {
          answer = record { body = body; signature = signature };
          at_controller =
              accepted_names crypto serde authority transcript (own_claim crypto identity);
          at_device = record {
            peer_role = InnerRole.controller;
            controller_id = identity.pinned_controller.controller_id;
            device_id = identity.device_id;
            site_id = identity.site_id;
          };
          accepts = rw (is_own, own_proof_accepted s d made, may, signs) refl;
          connects = rw (answer_matches, verifies) refl;
          answered = refl;
          signature_64 = c.length_64 (session_binding_signature_domain ++ json);
          to_device = refl;
          to_controller = refl;
          same_controller = sym pinned_id;
          same_device = refl;
          same_site = refl;
        }
