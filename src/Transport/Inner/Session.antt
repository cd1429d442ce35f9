-- ===== src/Transport/Inner/Session.antt =====
-- inner.rs: `InnerSession`, which seals and opens messages in the order of their sequence numbers,
-- and the packets that carry them. The Noise protocol (snow) is not in the repository: it is the
-- record `Noise`. A stream is the bytes that are still to be read.
pub mod Delivery
pub mod Order
pub mod Poison
use clew.Prelude.{ℕ, ◌+◌, Bool, true, not, Option, none, some, [], ◌++◌, u64_max}
use clew.Prelude.Tests.{ltb, ◌==◌, if◌then◌else◌}
use clew.Prelude.Lists.{length, take, drop}
use clew.Prelude.Outcome.{Result, ok, err, ◌>>=◌, ◌>>◌, reject, ok_or}
use clew.Prelude.Bytes.{to_be_bytes, from_be_bytes}
use clew.Identity.Keys.{Bytes}
use clew.Proto.{wire_major}
use clew.Transport.Inner.{
  InnerRole, InnerMessage, InnerSessionError, validate_message, max_noise_packet,
  max_inner_plaintext,
}
use clew.Transport.Inner.Frame.{Decoded, encode_business_frame, decode_business_frame}

-- snow's `TransportState`: each call takes the length of the buffer for its output, and leaves
-- its own state.
pub record Noise (State : Type 0) : Type 0 where
  pub write_message : State → Bytes → ℕ → Option Bytes × State
  pub read_message : State → Bytes → ℕ → Option Bytes × State

pub record InnerSession (State : Type 0) : Type 0 where
  pub transport : State
  pub send_sequence : ℕ
  pub recv_sequence : ℕ
  pub poisoned : Bool
  pub peer_role : InnerRole
  pub controller_id : ℕ
  pub device_id : ℕ
  pub site_id : ℕ

-- u64::checked_add(1)
abbrev pub next_sequence : ℕ → Result InnerSessionError ℕ
next_sequence n = do reject (n == u64_max) InnerSessionError.sequence_exhausted; ok (n + 1)

-- The message of a frame, where it is the one that is expected next.
unfoldable pub accept_decoded : ℕ → Decoded → Result InnerSessionError InnerMessage
unfolding validate_message
accept_decoded recv_sequence decoded = do
  reject (not (decoded.wire_major == wire_major))
      (InnerSessionError.wrong_wire_major decoded.wire_major)
  reject (not (decoded.sequence == recv_sequence))
      (InnerSessionError.unexpected_sequence recv_sequence decoded.sequence)
  validate_message decoded.message
  ok decoded.message

unfoldable pub open_plaintext : ℕ → Bytes → Result InnerSessionError InnerMessage
unfolding accept_decoded
open_plaintext recv_sequence plaintext = do
  reject (ltb max_inner_plaintext (length plaintext))
      (InnerSessionError.plaintext_too_large (length plaintext))
  decoded ← decode_business_frame plaintext
  accept_decoded recv_sequence decoded

-- The message, and the sequence number of the one after it.
unfoldable pub next_message : ℕ → Bytes → Result InnerSessionError (InnerMessage × ℕ)
unfolding open_plaintext
next_message recv_sequence plaintext = do
  message ← open_plaintext recv_sequence plaintext
  next ← next_sequence recv_sequence
  ok (message, next)

module _ {State : Type 0} where
  abbrev pub poison : InnerSession State → InnerSession State
  poison session = record session { poisoned = true }

  -- A failure poisons the session.
  unfoldable pub settled :
      InnerSession State
      → Result InnerSessionError (InnerMessage × ℕ)
      → Result InnerSessionError InnerMessage × InnerSession State
  settled session (err e) = (err e, poison session)
  settled session (ok taken) = (ok taken.0, record session { recv_sequence = taken.1 })

  -- What `open` makes of a plaintext.
  unfoldable pub take_plaintext :
      InnerSession State → Bytes → Result InnerSessionError InnerMessage × InnerSession State
  unfolding next_message settled
  take_plaintext session plaintext = settled session (next_message session.recv_sequence plaintext)

  -- What `seal` makes of the answer of `write_message`.
  unfoldable pub sealed :
      InnerSession State
      → Option Bytes × State
      → Result InnerSessionError Bytes × InnerSession State
  sealed session (none, transport) =
      (err InnerSessionError.noise, record session { transport = transport })
  sealed session (some ciphertext, transport) = elim (next_sequence session.send_sequence) [
    | err e ↦ (err e, record session { transport = transport })
    | ok next ↦ (ok ciphertext, record session { transport = transport; send_sequence = next })
  ]

  -- What `open` makes of the answer of `read_message`.
  unfoldable pub opened :
      InnerSession State
      → Option Bytes × State
      → Result InnerSessionError InnerMessage × InnerSession State
  unfolding take_plaintext
  opened session (none, transport) =
      (err InnerSessionError.noise, poison (record session { transport = transport }))
  opened session (some plaintext, transport) =
      take_plaintext (record session { transport = transport }) plaintext

  -- The plaintext that `seal` encrypts.
  unfoldable pub seal_plaintext : InnerSession State → InnerMessage → Result InnerSessionError Bytes
  seal_plaintext session message = do
    reject session.poisoned InnerSessionError.session_poisoned
    validate_message message
    encode_business_frame session.send_sequence message

module _ {State : Type 0} (noise : Noise State) where
  -- InnerSession::seal
  unfoldable pub seal :
      InnerSession State → InnerMessage → Result InnerSessionError Bytes × InnerSession State
  unfolding seal_plaintext sealed
  seal session message = elim (seal_plaintext session message) [
    | err e ↦ (err e, session)
    | ok plaintext ↦
        sealed session (noise.write_message session.transport plaintext (length plaintext + 16))
  ]

  -- InnerSession::open
  unfoldable pub open_ciphertext :
      InnerSession State → Bytes → Result InnerSessionError InnerMessage × InnerSession State
  unfolding opened
  open_ciphertext session ciphertext =
      if session.poisoned
      then (err InnerSessionError.session_poisoned, session)
      else if ltb max_noise_packet (length ciphertext)
      then (err (InnerSessionError.ciphertext_too_large (length ciphertext)), poison session)
      else opened session (noise.read_message session.transport ciphertext (length ciphertext))

-- The bytes that `write_packet` puts on the stream.
unfoldable pub write_packet : Bytes → Result InnerSessionError Bytes
unfolding to_be_bytes
write_packet payload = do
  reject (ltb max_noise_packet (length payload))
      (InnerSessionError.ciphertext_too_large (length payload))
  ok (to_be_bytes 4 (length payload) ++ payload)

-- A packet or an error, and what is then left of the stream. A stream that ends within the packet
-- is an I/O error.
unfoldable pub read_packet : Bytes → Result InnerSessionError Bytes × Bytes
unfolding from_be_bytes
read_packet stream =
    let size = from_be_bytes 0 (take 4 stream) in
    let rest = drop 4 stream in
    if ltb (length stream) 4
    then (err InnerSessionError.io, [])
    else if ltb max_noise_packet size
    then (err (InnerSessionError.ciphertext_too_large size), rest)
    else if ltb (length rest) size
    then (err InnerSessionError.io, [])
    else (ok (take size rest), drop size rest)

module _ {State : Type 0} (noise : Noise State) where
  -- What `send` makes of the answer of `seal`, on a stream that takes what is written or fails.
  unfoldable pub sent :
      Bool
      → Result InnerSessionError Bytes × InnerSession State
      → Result InnerSessionError Bytes × InnerSession State
  unfolding write_packet
  sent writable (err e, session) = (err e, session)
  sent writable (ok ciphertext, session) = elim (write_packet ciphertext) [
    | err e ↦ (err e, poison session)
    | ok packet ↦
        if writable then (ok packet, session) else (err InnerSessionError.io, poison session)
  ]

  -- InnerSession::send, which answers with the bytes that are written.
  unfoldable pub send :
      InnerSession State → Bool → InnerMessage → Result InnerSessionError Bytes × InnerSession State
  unfolding seal sent
  send session writable message = sent writable (seal noise session message)

  -- What `recv` makes of the answer of `read_packet`.
  unfoldable pub received :
      InnerSession State
      → Result InnerSessionError Bytes × Bytes
      → (Result InnerSessionError InnerMessage × InnerSession State) × Bytes
  unfolding open_ciphertext
  received session (err e, stream) = ((err e, poison session), stream)
  received session (ok packet, stream) = (open_ciphertext noise session packet, stream)

  -- InnerSession::recv, with what is left of the stream.
  unfoldable pub recv :
      InnerSession State
      → Bytes
      → (Result InnerSessionError InnerMessage × InnerSession State) × Bytes
  unfolding received read_packet
  recv session stream =
      if session.poisoned
      then ((err InnerSessionError.session_poisoned, session), stream)
      else received session (read_packet stream)
