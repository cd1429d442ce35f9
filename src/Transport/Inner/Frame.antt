-- ===== src/Transport/Inner/Frame.antt =====
-- inner.rs: `encode_business_frame` and `decode_business_frame`. A frame is the wire major, the
-- sequence number, the lengths of kind and payload, then both.
use clew.Prelude.{
  ℕ, ◌+◌, ◌-◌, ◌≡◌, ◌<◌, ◌^◌, refl, true, false, not, ◌||◌, ◌∷◌, ◌++◌, u32_max, arith,
}
use clew.Prelude.Tests.{ltb, ◌==◌, ==_refl}
use clew.Prelude.Lists.{length, length-append, drop}
use clew.Prelude.Outcome.{Result, ok, ◌>>=◌, ◌>>◌, reject}
use clew.Prelude.Bytes.{
  to_be_bytes, from_be_bytes, slice, first, is_utf8, from_be_bytes-to_be_bytes_4,
  from_be_bytes-to_be_bytes_8, take-append, drop-append, take_all, drop_add,
}
use clew.Identity.Keys.{Bytes}
use clew.Proto.{wire_major}
use clew.Transport.Inner.{
  InnerMessage, InnerSessionError, IsMessage, validate_message, business_frame_header_bytes,
  max_inner_plaintext, max_message_kind_bytes, IsMessage-validate_message,
}

-- `frame[..17]`
unfoldable pub frame_header : ℕ → ℕ → ℕ → Bytes
unfolding to_be_bytes
frame_header sequence kind_len payload_len =
    to_be_bytes 4 wire_major ++ to_be_bytes 8 sequence ++ kind_len ∷ to_be_bytes 4 payload_len

unfoldable pub encode_business_frame : ℕ → InnerMessage → Result InnerSessionError Bytes
unfolding validate_message frame_header
encode_business_frame sequence message = do
  validate_message message
  let kind_len = length message.kind
  reject (ltb 255 kind_len) InnerSessionError.invalid_message_kind
  let payload_len = length message.payload
  reject (ltb u32_max payload_len) (InnerSessionError.plaintext_too_large payload_len)
  let total = business_frame_header_bytes + kind_len + payload_len
  reject (ltb max_inner_plaintext total) (InnerSessionError.plaintext_too_large total)
  ok (frame_header sequence kind_len payload_len ++ message.kind ++ message.payload)

pub record Decoded : Type 0 where
  pub wire_major : ℕ
  pub sequence : ℕ
  pub message : InnerMessage

unfoldable pub decode_business_frame : Bytes → Result InnerSessionError Decoded
unfolding from_be_bytes is_utf8 validate_message
decode_business_frame frame = do
  reject (ltb (length frame) business_frame_header_bytes || ltb max_inner_plaintext (length frame))
      InnerSessionError.malformed_business_frame
  let major = from_be_bytes 0 (slice 0 4 frame)
  let sequence = from_be_bytes 0 (slice 4 12 frame)
  let kind_len = first (drop 12 frame)
  let payload_len = from_be_bytes 0 (slice 13 17 frame)
  reject (kind_len == 0 || ltb max_message_kind_bytes kind_len)
      InnerSessionError.invalid_message_kind
  let payload_start = business_frame_header_bytes + kind_len
  let end = payload_start + payload_len
  reject (not (end == length frame)) InnerSessionError.malformed_business_frame
  let kind = slice business_frame_header_bytes payload_start frame
  reject (not (is_utf8 kind)) InnerSessionError.invalid_message_kind_encoding
  let message : InnerMessage = record { kind = kind; payload = slice payload_start end frame }
  validate_message message
  ok (record { wire_major = major; sequence = sequence; message = message })

-- The frame that carries a message.
unfoldable pub frame_of : ℕ → InnerMessage → Bytes
unfolding frame_header
frame_of sequence message =
    frame_header sequence (length message.kind) (length message.payload)
    ++ message.kind
    ++ message.payload

abbrev pub decoded_of : ℕ → InnerMessage → Decoded
decoded_of sequence message = record {
  wire_major = wire_major;
  sequence = sequence;
  message = message;
}

pub encode_business_frame_lem :
    (sequence : ℕ) (message : InnerMessage)
    → IsMessage message
    → encode_business_frame sequence message ≡ ok (frame_of sequence message)
unfolding encode_business_frame frame_of
encode_business_frame_lem sequence message m =
    rw (IsMessage-validate_message message m) (ground (arith, m.kind_named, m.kind_short, m.fits))

-- The frame's fields.
module _ (s : ℕ) (m : InnerMessage) where
  pub length-frame_of :
      length (frame_of s m) ≡ business_frame_header_bytes + length m.kind + length m.payload
  unfolding frame_of to_be_bytes
  length-frame_of = omega (arith, length-append m.kind m.payload)

  version_of_frame : slice 0 4 (frame_of s m) ≡ to_be_bytes 4 wire_major
  unfolding frame_of to_be_bytes
  version_of_frame = refl

  sequence_of_frame : slice 4 12 (frame_of s m) ≡ to_be_bytes 8 s
  unfolding frame_of to_be_bytes
  sequence_of_frame = refl

  kind_len_of_frame : first (drop 12 (frame_of s m)) ≡ length m.kind
  unfolding frame_of to_be_bytes
  kind_len_of_frame = refl

  payload_len_of_frame : slice 13 17 (frame_of s m) ≡ to_be_bytes 4 (length m.payload)
  unfolding frame_of to_be_bytes
  payload_len_of_frame = refl

  body_of_frame : drop business_frame_header_bytes (frame_of s m) ≡ m.kind ++ m.payload
  unfolding frame_of to_be_bytes
  body_of_frame = refl

  kind_of_frame :
      slice business_frame_header_bytes (business_frame_header_bytes + length m.kind) (frame_of s m)
      ≡ m.kind
  kind_of_frame =
      let k = length m.kind in
      let width : business_frame_header_bytes + k - business_frame_header_bytes ≡ k = omega arith in
      rw (body_of_frame, width) (take-append m.kind m.payload)

  payload_of_frame :
      let start = business_frame_header_bytes + length m.kind in
      slice start (start + length m.payload) (frame_of s m) ≡ m.payload
  payload_of_frame =
      let k = length m.kind in
      let start = business_frame_header_bytes + k in
      let width : start + length m.payload - start ≡ length m.payload = omega arith in
      rw
        (
          drop_add business_frame_header_bytes k (frame_of s m),
          body_of_frame,
          drop-append m.kind m.payload,
          width,
        )
        (take_all m.payload)

pub decode-frame_of :
    (sequence : ℕ) (message : InnerMessage)
    → sequence < 2 ^ 64
    → is_utf8 message.kind ≡ true
    → IsMessage message
    → decode_business_frame (frame_of sequence message) ≡ ok (decoded_of sequence message)
unfolding decode_business_frame
decode-frame_of s m h u v =
    let k = length m.kind in
    let p = length m.payload in
    let total = business_frame_header_bytes + k + p in
    let long : (ltb total business_frame_header_bytes || ltb max_inner_plaintext total) ≡ false =
      ground (arith, v.fits) in
    let named : (k == 0 || ltb max_message_kind_bytes k) ≡ false =
      ground (arith, v.kind_named, v.kind_short) in
    rw
      (
        length-frame_of s m,
        long,
        kind_len_of_frame s m,
        named,
        payload_len_of_frame s m,
        from_be_bytes-to_be_bytes_4 p (omega (arith, v.fits)),
        ==_refl total,
        kind_of_frame s m,
        u,
        payload_of_frame s m,
        IsMessage-validate_message m v,
        version_of_frame s m,
        sequence_of_frame s m,
        from_be_bytes-to_be_bytes_4 wire_major (omega arith),
        from_be_bytes-to_be_bytes_8 s h,
      )
      refl

-- A frame made for a message that passes `validate`, whose kind is UTF-8, is read back as that
-- message under the same wire major and sequence number.
pub decode-encode :
    (sequence : ℕ) (message : InnerMessage)
    → sequence < 2 ^ 64
    → is_utf8 message.kind ≡ true
    → IsMessage message
    → encode_business_frame sequence message >>= decode_business_frame
      ≡ ok (decoded_of sequence message)
decode-encode s m h u v = rw (encode_business_frame_lem s m v) (decode-frame_of s m h u v)
