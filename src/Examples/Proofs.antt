-- ===== src/Examples/Proofs.antt =====
-- The theorems on the proofs of a session, applied to a Controller and a Device of the tests.
use clew.Prelude.{◌≡◌, refl, sym, ap, some, [], ◌∷◌, ◌++◌, Bool, arith}
use clew.Prelude.Lists.{length}
use clew.Prelude.Tests.{◌==◌}
use clew.Prelude.Outcome.{ok}
use clew.Prelude.Bytes.{Bytes}
use clew.Identity.Keys.{
  public_identity, validate_controller, sign_session_binding, device_public_identity,
}
use clew.Identity.Keys.Signatures.{Signs, DeviceSigns}
use clew.Transport.Inner.{InnerRole}
use clew.Transport.Inner.Proofs.{
  ControllerSessionAuthority, DeviceSessionIdentity, DeviceSessionClaim, DeviceProof,
  ControllerProof, ProofJson, connect_proof,
}
use clew.Transport.Inner.Proofs.Binding.{answer_body}
use clew.Transport.Inner.Proofs.Agreement.{own_claim}
use clew.Transport.Inner.Handshake.{ProofCodec, Writing, Ending}
use clew.Transport.Inner.Handshake.Binding.{IsAccepted, accept_authorized-IsAccepted}
use clew.Transport.Inner.Handshake.Agreement.{
  IsDocument, Exchanges, OpensBoth, connect-accept_authorized,
}
use clew.Examples.Sessions.{plain_noise}
use clew.Examples.Toy.{toy, controller, repeat}

abbrev proof_json : ProofJson
proof_json = record {
  device_body_json = λ b. some (123 ∷ 125 ∷ []);
  controller_body_json = λ b. some (123 ∷ 125 ∷ []);
}

abbrev authority : ControllerSessionAuthority
authority = record { identity = controller; noise_static_secret = repeat 32 3 }

abbrev host : DeviceSessionIdentity
host = record {
  identity = record { signing_key = repeat 32 2 };
  pinned_controller = public_identity toy controller;
  device_id = 40;
  site_id = 20;
}

abbrev transcript : Bytes
transcript = repeat 32 8

abbrev at_site : DeviceSessionClaim → Bool
at_site claim = claim.site_id == 20

abbrev host_proof : DeviceProof
host_proof = record {
  body = record {
    wire_major = 1;
    role = InnerRole.device;
    transcript_hash = transcript;
    controller_id = host.pinned_controller.controller_id;
    site_id = 20;
    device_id = 40;
    device_identity = device_public_identity toy host.identity;
  };
  signature = repeat 64 9;
}

host_proof_made : connect_proof toy proof_json host transcript ≡ ok host_proof
unfolding connect_proof sign_session_binding
host_proof_made = refl

toy-Signs : Signs toy controller
unfolding validate_controller public_identity
toy-Signs = record { length_64 = λ m. refl; verifies = λ m. refl; has_key = refl; is_valid = refl }

host-DeviceSigns : DeviceSigns toy host.identity
host-DeviceSigns = record {
  length_64 = λ m. refl;
  verifies = λ m. refl;
  has_key = refl;
  is_strong = refl;
}

-- A codec that writes the signature alone, for the bodies of this handshake.
abbrev answer_to_host : Bytes → ControllerProof
answer_to_host signature = record {
  body = answer_body toy proof_json authority transcript (own_claim toy host);
  signature = signature;
}

abbrev codec : ProofCodec
codec = record {
  device_proof_json = λ proof. some proof.signature;
  device_proof_from = λ text. some (record host_proof { signature = text });
  controller_proof_json = λ answer. some answer.signature;
  controller_proof_from = λ text. some (answer_to_host text);
}

plain_noise-Exchanges : Exchanges plain_noise 0 0
plain_noise-Exchanges request reply p q = record {
  first = repeat 16 0 ++ request;
  second = repeat 16 1 ++ reply;
  device_between = 1;
  controller_between = 1;
  device_after = 2;
  controller_after = 2;
  first_size = omega arith;
  second_size = omega arith;
  request_written = refl;
  request_read = refl;
  reply_written = refl;
  reply_read = refl;
}

answer-IsDocument :
    (answer : ControllerProof)
    → (answer.body ≡ answer_body toy proof_json authority transcript (own_claim toy host))
      × (length answer.signature ≡ 64)
    → IsDocument codec.controller_proof_json codec.controller_proof_from answer
answer-IsDocument answer h = record {
  text = answer.signature;
  written = refl;
  was_read = ap (λ b. some (record { body = b; signature = answer.signature })) (sym h.0);
  small = let size = h.1 in omega arith;
}

host_proof-IsDocument : IsDocument codec.device_proof_json codec.device_proof_from host_proof
host_proof-IsDocument = record {
  text = host_proof.signature;
  written = refl;
  was_read = refl;
  small = omega arith;
}

connect-accept_authorized_example :
    OpensBoth plain_noise toy proof_json codec authority host at_site transcript 0 0
connect-accept_authorized_example =
    connect-accept_authorized plain_noise toy proof_json codec authority host at_site transcript 0 0
      host_proof (123 ∷ 125 ∷ []) refl toy-Signs host-DeviceSigns plain_noise-Exchanges refl refl
      host_proof_made host_proof-IsDocument answer-IsDocument

abbrev both : OpensBoth plain_noise toy proof_json codec authority host at_site transcript 0 0
both =
    connect-accept_authorized plain_noise toy proof_json codec authority host at_site transcript 0 0
      host_proof (123 ∷ 125 ∷ []) refl toy-Signs host-DeviceSigns plain_noise-Exchanges refl refl
      host_proof_made host_proof-IsDocument answer-IsDocument

-- The packet of the Device's proof, and one more byte.
abbrev device_stream : Bytes
device_stream = both.request ++ 9 ∷ []

accept_authorized-IsAccepted_example :
    IsAccepted plain_noise toy proof_json codec authority at_site transcript 0 Writing.taken
      Ending.closed device_stream both.reply both.at_controller
      (9 ∷ [])
accept_authorized-IsAccepted_example =
    accept_authorized-IsAccepted plain_noise toy proof_json codec authority at_site transcript 0
      Writing.taken Ending.closed device_stream both.reply both.at_controller (9 ∷ [])
      (both.accepts Ending.closed (9 ∷ []))
