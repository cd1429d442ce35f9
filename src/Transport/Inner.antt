-- ===== src/Transport/Inner.antt =====
-- crates/clew-transport/src/inner.rs: the encrypted session between a Controller and a Device.
-- The message, the errors and the limits; the children model frames, session, proofs and
-- handshake.
pub mod Frame
pub mod Handshake
pub mod Proofs
pub mod Session
use clew.Prelude.{ℕ, ◌+◌, ◌*◌, ◌≤◌, ◌<◌, ◌≡◌, ◌||◌, u64_max, arith}
use clew.Prelude.Tests.{ltb, ◌==◌}
use clew.Prelude.Lists.{length}
use clew.Prelude.Outcome.{Result, ok, err, ◌>>◌, reject}
use clew.Identity.Keys.{Bytes, IdentityError}

abbrev pub max_noise_packet : ℕ
max_noise_packet = 65535

abbrev pub max_inner_plaintext : ℕ
max_inner_plaintext = 60 * 1024

abbrev pub max_identity_proof : ℕ
max_identity_proof = 8 * 1024

abbrev pub max_message_kind_bytes : ℕ
max_message_kind_bytes = 64

abbrev pub business_frame_header_bytes : ℕ
business_frame_header_bytes = 4 + 8 + 1 + 4

-- `usize::MAX` where a pointer has 64 bits.
abbrev pub usize_max : ℕ
usize_max = u64_max

pub data InnerRole : Type 0 where
  controller device : InnerRole

pub data InnerSessionError : Type 0 where
  noise json io identity_binding_mismatch invalid_message_kind : InnerSessionError
  malformed_business_frame invalid_message_kind_encoding : InnerSessionError
  session_poisoned sequence_exhausted invalid_noise_pattern : InnerSessionError
  handshake_timeout : InnerSessionError
  identity_proof_too_large : ℕ → InnerSessionError
  identity : IdentityError → InnerSessionError
  ciphertext_too_large : ℕ → InnerSessionError
  plaintext_too_large : ℕ → InnerSessionError
  wrong_wire_major : ℕ → InnerSessionError
  unexpected_sequence : ℕ → ℕ → InnerSessionError

-- The kind is a `String`: its bytes in UTF-8.
pub record InnerMessage : Type 0 where
  pub kind : Bytes
  pub payload : Bytes

-- InnerMessage::validate
unfoldable pub validate_message : InnerMessage → Result InnerSessionError (Unit {0})
validate_message message = do
  reject (length message.kind == 0 || ltb max_message_kind_bytes (length message.kind))
      invalid_message_kind
  let encoded_len = business_frame_header_bytes + length message.kind + length message.payload
  reject (ltb usize_max encoded_len) (plaintext_too_large usize_max)
  reject (ltb max_inner_plaintext encoded_len) (plaintext_too_large encoded_len)

-- InnerMessage::new
unfoldable pub new_message : Bytes → Bytes → Result InnerSessionError InnerMessage
unfolding validate_message
new_message kind payload = do
  let message : InnerMessage = record { kind = kind; payload = payload }
  validate_message message
  ok message

-- What a message that passes `validate` is like.
pub record IsMessage (message : InnerMessage) : Type 0 where
  pub kind_named : 0 < length message.kind
  pub kind_short : length message.kind ≤ max_message_kind_bytes
  pub fits :
      business_frame_header_bytes + length message.kind + length message.payload
      ≤ max_inner_plaintext

pub validate_message-IsMessage :
    (message : InnerMessage) → validate_message message ≡ ok tt → IsMessage message
unfolding validate_message
validate_message-IsMessage message q = record {
  kind_named = ground (arith, q);
  kind_short = ground (arith, q);
  fits = ground (arith, q);
}

pub IsMessage-validate_message :
    (message : InnerMessage) → IsMessage message → validate_message message ≡ ok tt
unfolding validate_message
IsMessage-validate_message message m = ground (arith, m.kind_named, m.kind_short, m.fits)
