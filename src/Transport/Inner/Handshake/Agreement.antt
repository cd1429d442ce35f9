-- ===== src/Transport/Inner/Handshake/Agreement.antt =====
-- inner.rs: a Controller and a Device that know each other open one session over a stream.
use clew.Prelude.{◌+◌, ◌≤◌, ◌≡◌, ◌++◌, refl, true, false, Bool, Option, some, arith}
use clew.Prelude.Tests.{ltb}
use clew.Prelude.Lists.{length}
use clew.Prelude.Outcome.{ok}
use clew.Identity.Keys.{Bytes, Crypto, public_identity, validate_controller}
use clew.Identity.Keys.Signatures.{Signs, DeviceSigns, validate_key-device}
use clew.Transport.Inner.{InnerRole, max_noise_packet, max_identity_proof}
use clew.Transport.Inner.Proofs.{
  ControllerSessionAuthority, DeviceSessionClaim, DeviceSessionIdentity, DeviceProof,
  ControllerProof, ProofJson, connect_checks, connect_proof,
}
use clew.Transport.Inner.Proofs.Binding.{answer_body}
use clew.Transport.Inner.Proofs.Agreement.{own_claim, connect_proof-accept_proof}
use clew.Transport.Inner.Session.{Noise, InnerSession}
use clew.Transport.Inner.Session.Delivery.{packet_of, write_packet_lem, read_packet-packet_of}
use clew.Transport.Inner.Handshake.{
  ProofCodec, Writing, Ending, read_packet_timed, in_time, write_packet_timed, read_encrypted_json,
  write_encrypted_json, new_session, connect_sends, connect_receives, connect, accept_authorized,
}

-- A value that serde_json writes and reads back, within the size of a proof.
pub record IsDocument {A : Type 0} (to_vec : A → Option Bytes) (from_slice : Bytes → Option A)
    (value : A) : Type 0 where
  pub text : Bytes
  pub written : to_vec value ≡ some text
  pub was_read : from_slice text ≡ some value
  pub small : length text ≤ max_identity_proof

-- Noise after its handshake: the Controller reads the first message of the Device, and the Device
-- then the first one of the Controller.
pub record Exchange {State : Type 0} (noise : Noise State) (device controller : State)
    (request reply : Bytes) : Type 0 where
  pub first : Bytes
  pub second : Bytes
  pub device_between : State
  pub controller_between : State
  pub device_after : State
  pub controller_after : State
  pub first_size : length first ≡ length request + 16
  pub second_size : length second ≡ length reply + 16
  pub request_written :
      noise.write_message device request (length request + 16) ≡ (some first, device_between)
  pub request_read :
      noise.read_message controller first (length first) ≡ (some request, controller_between)
  pub reply_written :
      noise.write_message controller_between reply (length reply + 16)
      ≡ (some second, controller_after)
  pub reply_read :
      noise.read_message device_between second (length second) ≡ (some reply, device_after)

abbrev pub Exchanges : {State : Type 0} → Noise State → State → State → Type 0
Exchanges noise device controller =
    (request reply : Bytes)
    → length request + 16 ≤ max_noise_packet
    → length reply + 16 ≤ max_noise_packet
    → Exchange noise device controller request reply

module _ {State A : Type 0} (noise : Noise State) (to_vec : A → Option Bytes)
    (from_slice : Bytes → Option A) (value : A) (d : IsDocument to_vec from_slice value)
    (before after : State) (c : Bytes) (fits : length c ≤ max_noise_packet) where
  not_large : ltb max_identity_proof (length d.text) ≡ false
  not_large = ground (arith, d.small)

  write_encrypted_json_lem :
      noise.write_message before d.text (length d.text + 16) ≡ (some c, after)
      → write_encrypted_json noise Writing.taken before (to_vec value) max_identity_proof
        ≡ ok (packet_of c, after)
  unfolding write_encrypted_json write_packet_timed
  write_encrypted_json_lem w = rw (d.written, not_large, w, write_packet_lem c fits) refl

  read_encrypted_json_lem :
      (ending : Ending) (rest : Bytes)
      → noise.read_message before c (length c) ≡ (some d.text, after)
      → read_encrypted_json noise ending before from_slice max_identity_proof (packet_of c ++ rest)
        ≡ ok (value, after, rest)
  unfolding read_encrypted_json read_packet_timed in_time
  read_encrypted_json_lem ending rest r =
      rw (read_packet-packet_of c rest fits, r, not_large, d.was_read) refl

module _ {State : Type 0} (noise : Noise State) (crypto : Crypto) (serde : ProofJson)
    (codec : ProofCodec) (authority : ControllerSessionAuthority) (identity : DeviceSessionIdentity)
    (authorize : DeviceSessionClaim → Bool) (transcript : Bytes) (device controller : State) where
  -- The packets of both proofs, and the sessions of both ends.
  pub record OpensBoth : Type 0 where
    pub request : Bytes
    pub reply : Bytes
    pub at_controller : InnerSession State
    pub at_device : InnerSession State
    pub accepts :
        (ending : Ending) (later : Bytes)
        → accept_authorized noise crypto serde codec authority authorize transcript controller
            Writing.taken ending
            (request ++ later)
          ≡ ok (reply, at_controller, later)
    pub connects :
        (ending : Ending) (later : Bytes)
        → connect noise crypto serde codec identity transcript device Writing.taken ending
            (reply ++ later)
          ≡ ok (request, at_device, later)
    pub to_device : at_controller.peer_role ≡ InnerRole.device
    pub to_controller : at_device.peer_role ≡ InnerRole.controller
    pub controller_open : at_controller.poisoned ≡ false
    pub device_open : at_device.poisoned ≡ false
    pub in_step_up : at_controller.recv_sequence ≡ at_device.send_sequence
    pub in_step_down : at_device.recv_sequence ≡ at_controller.send_sequence
    pub same_controller : at_controller.controller_id ≡ at_device.controller_id
    pub same_device : at_controller.device_id ≡ at_device.device_id
    pub same_site : at_controller.site_id ≡ at_device.site_id

  -- The Controller's answers to the Device's own claim.
  abbrev IsAnswer : ControllerProof → Type 0
  IsAnswer answer =
      (answer.body ≡ answer_body crypto serde authority transcript (own_claim crypto identity))
      × (length answer.signature ≡ 64)

  -- A Controller and a Device that pins it, whose handshake gave one transcript hash, open one
  -- session over a stream: `connect` writes a packet that `accept_authorized` reads, `connect`
  -- reads the packet that it answers, both succeed, leave what follows on the streams, name the
  -- same Controller, Device and Site, and expect each other's first message; given that the Device makes a proof, that `authorize`
  -- approves its claim, that serde_json writes the body of the answer, writes and reads back both
  -- proofs in at most 8192 bytes, that Noise carries one message each way, and that the signatures
  -- of both keys verify.
  pub connect-accept_authorized :
      (proof : DeviceProof) (json : Bytes)
      → identity.pinned_controller ≡ public_identity crypto authority.identity
      → Signs crypto authority.identity
      → DeviceSigns crypto identity.identity
      → Exchanges noise device controller
      → authorize (own_claim crypto identity) ≡ true
      → serde.controller_body_json
          (answer_body crypto serde authority transcript (own_claim crypto identity))
        ≡ some json
      → connect_proof crypto serde identity transcript ≡ ok proof
      → IsDocument codec.device_proof_json codec.device_proof_from proof
      → ((answer : ControllerProof)
          → IsAnswer answer
          → IsDocument codec.controller_proof_json codec.controller_proof_from answer)
      → OpensBoth
  unfolding accept_authorized connect connect_sends connect_receives connect_checks
  connect-accept_authorized proof json pins c d exchanges may writes q doc docs =
      let one =
        connect_proof-accept_proof crypto serde authority identity transcript pins authorize proof
          json c d may writes q in
      let answer_doc = docs one.answer (one.answered, one.signature_64) in
      let x =
        exchanges doc.text answer_doc.text (let h = doc.small in omega arith)
          (let h = answer_doc.small in omega arith) in
      let first_fits : length x.first ≤ max_noise_packet =
        let h = doc.small in let k = x.first_size in omega arith in
      let second_fits : length x.second ≤ max_noise_packet =
        let h = answer_doc.small in let k = x.second_size in omega arith in
      let sends =
        write_encrypted_json_lem noise codec.device_proof_json codec.device_proof_from proof doc
          device x.device_between x.first first_fits x.request_written in
      let reads =
        read_encrypted_json_lem noise codec.device_proof_json codec.device_proof_from proof doc
          controller x.controller_between x.first first_fits in
      let replies =
        write_encrypted_json_lem noise codec.controller_proof_json codec.controller_proof_from
          one.answer answer_doc x.controller_between x.controller_after x.second second_fits
          x.reply_written in
      let takes =
        read_encrypted_json_lem noise codec.controller_proof_json codec.controller_proof_from
          one.answer answer_doc x.device_between x.device_after x.second second_fits in
      let pinned_valid : validate_controller crypto identity.pinned_controller ≡ ok tt =
        rw pins c.is_valid in
      record {
        request = packet_of x.first;
        reply = packet_of x.second;
        at_controller = new_session one.at_controller x.controller_after;
        at_device = new_session one.at_device x.device_after;
        accepts = λ ending later.
            rw (c.is_valid, reads ending later x.request_read, one.accepts, replies) refl;
        connects = λ ending later.
            rw
              (
                pinned_valid,
                validate_key-device crypto identity.identity d,
                q,
                sends,
                takes ending later x.reply_read,
                one.connects,
              )
              refl;
        to_device = one.to_device;
        to_controller = one.to_controller;
        controller_open = refl;
        device_open = refl;
        in_step_up = refl;
        in_step_down = refl;
        same_controller = one.same_controller;
        same_device = one.same_device;
        same_site = one.same_site;
      }
