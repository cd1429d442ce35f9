-- ===== src/Transport/Inner/Handshake.antt =====
-- inner.rs: `connect`, `accept` and `accept_authorized` from the end of Noise's handshake on. Its
-- transcript hash and its transport are arguments, as are serde_json and the ends of the writes. A
-- stream is the bytes that are still to be read.
pub mod Agreement
pub mod Binding
use clew.Prelude.{ℕ, ◌+◌, Bool, true, false, ◌&&◌, Option, none, some}
use clew.Prelude.Tests.{ltb, ◌==◌}
use clew.Prelude.Lists.{length}
use clew.Prelude.Outcome.{Result, ok, err, ◌>>=◌, ◌>>◌, reject, ok_or, map_err}
use clew.Identity.Keys.{Bytes, Crypto, public_identity, validate_controller, validate_key}
use clew.Transport.Inner.{InnerSessionError, max_identity_proof}
use clew.Transport.Inner.Proofs.{
  ControllerSessionAuthority, ControllerSessionIdentity, DeviceSessionClaim, DeviceSessionIdentity,
  DeviceProof, ControllerProof, ProofJson, SessionNames, same_device, connect_checks, connect_proof,
  connect_session, accept_proof,
}
use clew.Transport.Inner.Session.{Noise, InnerSession, write_packet, read_packet}

-- serde_json on the proofs, which is not under the repository: `to_vec` and `from_slice`.
pub record ProofCodec : Type 0 where
  pub device_proof_json : DeviceProof → Option Bytes
  pub device_proof_from : Bytes → Option DeviceProof
  pub controller_proof_json : ControllerProof → Option Bytes
  pub controller_proof_from : Bytes → Option ControllerProof

-- How the write of a packet ends that is not too large, and how a stream ends that is too short.
pub data Writing : Type 0 where
  taken broken late : Writing

pub data Ending : Type 0 where
  closed silent : Ending

unfoldable pub write_packet_timed : Writing → Bytes → Result InnerSessionError Bytes
unfolding write_packet
write_packet_timed taken payload = write_packet payload
write_packet_timed broken payload = write_packet payload >> err InnerSessionError.io
write_packet_timed late payload = write_packet payload >> err InnerSessionError.handshake_timeout

-- A stream that ends within the packet is an I/O error where it is closed, and a timeout where
-- nothing more arrives.
unfoldable pub in_time :
    Ending → Result InnerSessionError Bytes × Bytes → Result InnerSessionError (Bytes × Bytes)
in_time ending (ok packet, rest) = ok (packet, rest)
in_time silent (err InnerSessionError.io, rest) = err InnerSessionError.handshake_timeout
in_time ending (err e, rest) = err e

unfoldable pub read_packet_timed : Ending → Bytes → Result InnerSessionError (Bytes × Bytes)
unfolding in_time read_packet
read_packet_timed ending stream = in_time ending (read_packet stream)

module _ {State : Type 0} where
  abbrev pub noise_answer : Option Bytes × State → Result InnerSessionError (Bytes × State)
  noise_answer (none, transport) = err InnerSessionError.noise
  noise_answer (some bytes, transport) = ok (bytes, transport)

  -- The session that both ends start with.
  abbrev pub new_session : SessionNames → State → InnerSession State
  new_session names transport = record {
    transport = transport;
    send_sequence = 0;
    recv_sequence = 0;
    poisoned = false;
    peer_role = names.peer_role;
    controller_id = names.controller_id;
    device_id = names.device_id;
    site_id = names.site_id;
  }

module _ {State : Type 0} (noise : Noise State) where
  -- The packet of a value that serde_json writes, and the state of Noise that is left.
  unfoldable pub write_encrypted_json :
      Writing → State → Option Bytes → ℕ → Result InnerSessionError (Bytes × State)
  unfolding write_packet_timed
  write_encrypted_json writing transport json max_plaintext = do
    plaintext ← ok_or json InnerSessionError.json
    reject (ltb max_plaintext (length plaintext))
        (InnerSessionError.identity_proof_too_large (length plaintext))
    written ← noise_answer (noise.write_message transport plaintext (length plaintext + 16))
    packet ← write_packet_timed writing written.0
    ok (packet, written.1)

  -- The value, the state of Noise and what is left of the stream.
  unfoldable pub read_encrypted_json :
      {A : Type 0}
      → Ending
      → State
      → (Bytes → Option A)
      → ℕ
      → Bytes
      → Result InnerSessionError (A × State × Bytes)
  unfolding read_packet_timed
  read_encrypted_json ending transport from_slice max_plaintext stream = do
    packet ← read_packet_timed ending stream
    read ← noise_answer (noise.read_message transport packet.0 (length packet.0))
    reject (ltb max_plaintext (length read.0))
        (InnerSessionError.identity_proof_too_large (length read.0))
    value ← ok_or (from_slice read.0) InnerSessionError.json
    ok (value, read.1, packet.1)

module _ {State : Type 0} (noise : Noise State) (crypto : Crypto) (serde : ProofJson)
    (codec : ProofCodec) where
  -- `connect` up to the packet of the Device's proof.
  unfoldable pub connect_sends :
      DeviceSessionIdentity → Bytes → State → Writing → Result InnerSessionError (Bytes × State)
  unfolding connect_checks connect_proof write_encrypted_json
  connect_sends identity transcript transport writing = do
    connect_checks crypto serde identity
    proof ← connect_proof crypto serde identity transcript
    write_encrypted_json noise writing transport (codec.device_proof_json proof) max_identity_proof

  -- `connect` from there on: the session, and what is left of the stream.
  unfoldable pub connect_receives :
      DeviceSessionIdentity
      → Bytes
      → State
      → Ending
      → Bytes
      → Result InnerSessionError (InnerSession State × Bytes)
  unfolding connect_session read_encrypted_json
  connect_receives identity transcript transport ending stream = do
    read ←
        read_encrypted_json noise ending transport codec.controller_proof_from max_identity_proof
          stream
    names ← connect_session crypto serde identity transcript read.0
    ok (new_session names read.1, read.2)

  -- InnerSession::connect: the packet that it writes, the session, and what is left of the stream.
  unfoldable pub connect :
      DeviceSessionIdentity
      → Bytes
      → State
      → Writing
      → Ending
      → Bytes
      → Result InnerSessionError (Bytes × InnerSession State × Bytes)
  unfolding connect_sends connect_receives
  connect identity transcript transport writing ending stream = do
    sent ← connect_sends identity transcript transport writing
    received ← connect_receives identity transcript sent.1 ending stream
    ok (sent.0, received.0, received.1)

  -- InnerSession::accept_authorized: the packet that it writes, the session, and what is left of
  -- the stream.
  unfoldable pub accept_authorized :
      ControllerSessionAuthority
      → (DeviceSessionClaim → Bool)
      → Bytes
      → State
      → Writing
      → Ending
      → Bytes
      → Result InnerSessionError (Bytes × InnerSession State × Bytes)
  unfolding accept_proof read_encrypted_json write_encrypted_json
  accept_authorized authority authorize transcript transport writing ending stream = do
    map_err InnerSessionError.identity
        (validate_controller crypto (public_identity crypto authority.identity))
    read ←
        read_encrypted_json noise ending transport codec.device_proof_from max_identity_proof stream
    accepted ← accept_proof crypto serde authority authorize transcript read.0
    sent ←
        write_encrypted_json noise writing read.1 (codec.controller_proof_json accepted.0)
          max_identity_proof
    ok (sent.0, new_session accepted.1 sent.1, read.2)

  -- InnerSession::accept
  unfoldable pub accept :
      ControllerSessionIdentity
      → Bytes
      → State
      → Writing
      → Ending
      → Bytes
      → Result InnerSessionError (Bytes × InnerSession State × Bytes)
  unfolding accept_authorized validate_key
  accept identity transcript transport writing ending stream = do
    map_err InnerSessionError.identity (validate_key crypto identity.expected_device.public_key)
    accept_authorized
        (record {
          identity = identity.identity;
          noise_static_secret = identity.noise_static_secret;
        })
        (λ claim.
          same_device claim.device_identity identity.expected_device
          && claim.device_id == identity.device_id
          && claim.site_id == identity.site_id)
        transcript transport writing ending stream
