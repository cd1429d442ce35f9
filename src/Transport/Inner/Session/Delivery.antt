-- ===== src/Transport/Inner/Session/Delivery.antt =====
-- inner.rs: what one end of a session sends over a stream, the other end receives, in order.
use clew.Prelude.{
  ℕ, zero, suc, ◌+◌, ◌≡◌, ◌<◌, ◌≤◌, refl, true, false, some, List, [], ◌∷◌, ◌++◌, arith, u64_max,
}
use clew.Prelude.Tests.{ltb, ◌==◌, if_false}
use clew.Prelude.Lists.{length, All, take, drop, length-append}
use clew.Prelude.Outcome.{Result, ok, ◌>>=◌}
use clew.Prelude.Bytes.{is_utf8, to_be_bytes, from_be_bytes-to_be_bytes_4, take-append, drop-append}
use clew.Identity.Keys.{Bytes}
use clew.Transport.Inner.{
  InnerMessage, InnerSessionError, IsMessage, IsMessage-validate_message, max_noise_packet,
  max_inner_plaintext,
}
use clew.Transport.Inner.Frame.{
  frame_of, encode_business_frame_lem, length-frame_of, decode-frame_of,
}
use clew.Transport.Inner.Session.{
  Noise, InnerSession, accept_decoded, open_plaintext, next_message, take_plaintext, opened,
  settled, open_ciphertext, seal, sealed, seal_plaintext, send, sent, recv, received, read_packet,
  write_packet,
}

-- One message through Noise: what the writer makes of it, the reader turns back.
pub record Carries {State : Type 0} (noise : Noise State) (writer reader : State)
    (plaintext : Bytes) (Next : State → State → Type 0) : Type 0 where
  pub ciphertext : Bytes
  pub writer_after : State
  pub reader_after : State
  pub size : length ciphertext ≡ length plaintext + 16
  pub written :
      noise.write_message writer plaintext (length plaintext + 16) ≡ (some ciphertext, writer_after)
  pub was_read :
      noise.read_message reader ciphertext (length ciphertext) ≡ (some plaintext, reader_after)
  pub next : Next writer_after reader_after

-- Noise, in one direction. `Paired n` says that the writer's nonce and the reader's are both `n`,
-- under the same key. The handshake's proofs use the first nonce, and the last one is reserved.
pub record NoiseLaws {State : Type 0} (noise : Noise State) : Type 1 where
  pub Paired : ℕ → State → State → Type 0
  pub carries :
      (n : ℕ) (writer reader : State) (plaintext : Bytes)
      → Paired n writer reader
      → n < u64_max
      → length plaintext + 16 ≤ max_noise_packet
      → Carries noise writer reader plaintext (Paired (n + 1))

module _ {State : Type 0} (noise : Noise State) where
  -- Calls of `send`, one for each message, on a stream that takes all; what is then on the stream.
  unfoldable pub send_each :
      InnerSession State → List InnerMessage → Result InnerSessionError Bytes × InnerSession State
  unfolding send
  send_each session [] = (ok [], session)
  send_each session (m ∷ ms) =
      let (first, between) = send noise session true m in
      let (rest, after) = send_each between ms in
      (do packet ← first; packets ← rest; ok (packet ++ packets), after)

  -- What `n` calls of `recv` answer, and the session and the stream that they leave.
  unfoldable pub recv_each :
      ℕ
      → InnerSession State
      → Bytes
      → Result InnerSessionError (List InnerMessage) × InnerSession State × Bytes
  unfolding recv
  recv_each zero session stream = (ok [], session, stream)
  recv_each (suc n) session stream =
      let ((first, between), left) = recv noise session stream in
      let (rest, after, over) = recv_each n between left in
      (do message ← first; messages ← rest; ok (message ∷ messages), after, over)

  -- The two ends of a session, where the sender has sent what the receiver has received.
  pub record IsLinked (laws : NoiseLaws noise) (sender receiver : InnerSession State) : Type 0 where
    pub sender_open : sender.poisoned ≡ false
    pub receiver_open : receiver.poisoned ≡ false
    pub in_step : receiver.recv_sequence ≡ sender.send_sequence
    pub paired : laws.Paired (sender.send_sequence + 1) sender.transport receiver.transport

-- A message that a Rust program can hand over: its kind is a `String`.
pub record IsSendable (message : InnerMessage) : Type 0 where
  pub valid : IsMessage message
  pub text : is_utf8 message.kind ≡ true

-- The packet of a ciphertext.
unfoldable pub packet_of : Bytes → Bytes
unfolding to_be_bytes
packet_of c = to_be_bytes 4 (length c) ++ c

pub write_packet_lem : (c : Bytes) → length c ≤ max_noise_packet → write_packet c ≡ ok (packet_of c)
unfolding write_packet packet_of
write_packet_lem c h = ground (arith, h)

size_of_packet : (c rest : Bytes) → take 4 (packet_of c ++ rest) ≡ to_be_bytes 4 (length c)
unfolding packet_of to_be_bytes
size_of_packet c rest = refl

body_of_packet : (c rest : Bytes) → drop 4 (packet_of c ++ rest) ≡ c ++ rest
unfolding packet_of to_be_bytes
body_of_packet c rest = refl

length-packet_of : (c rest : Bytes) → length (packet_of c ++ rest) ≡ 4 + length (c ++ rest)
unfolding packet_of to_be_bytes
length-packet_of c rest = omega arith

-- A packet is read back, and what follows it is left on the stream.
pub read_packet-packet_of :
    (c rest : Bytes)
    → length c ≤ max_noise_packet
    → read_packet (packet_of c ++ rest) ≡ (ok c, rest)
unfolding read_packet
read_packet-packet_of c rest h =
    let whole : ltb (4 + length (c ++ rest)) 4 ≡ false = ground arith in
    let small : ltb max_noise_packet (length c) ≡ false = ground (arith, h) in
    let there : ltb (length (c ++ rest)) (length c) ≡ false =
      ground (arith, length-append c rest) in
    rw
      (
        size_of_packet c rest,
        from_be_bytes-to_be_bytes_4 (length c) (omega (arith, h)),
        body_of_packet c rest,
        length-packet_of c rest,
        whole,
        small,
        there,
        take-append c rest,
        drop-append c rest,
      )
      refl

seal_plaintext_lem :
    {State : Type 0} (s : InnerSession State) (m : InnerMessage)
    → s.poisoned ≡ false
    → IsMessage m
    → seal_plaintext s m ≡ ok (frame_of s.send_sequence m)
unfolding seal_plaintext
seal_plaintext_lem s m p v =
    rw (p, IsMessage-validate_message m v, encode_business_frame_lem s.send_sequence m v) refl

module _ {State : Type 0} (noise : Noise State) where
  recv_open :
      (r : InnerSession State) (stream : Bytes)
      → r.poisoned ≡ false
      → recv noise r stream ≡ received noise r (read_packet stream)
  unfolding recv
  recv_open r stream p = if_false r.poisoned _ _ p

  module _ {Next : State → State → Type 0} (s : InnerSession State) (m : InnerMessage)
      (reader : State)
      (c : Carries noise s.transport reader (frame_of s.send_sequence m) Next) where
    seal_lem :
        s.poisoned ≡ false
        → s.send_sequence < u64_max
        → IsMessage m
        → seal noise s m ≡ (
          ok c.ciphertext,
          record s { transport = c.writer_after; send_sequence = s.send_sequence + 1 },
        )
    unfolding seal seal_plaintext sealed
    seal_lem p h v =
        let more : (s.send_sequence == u64_max) ≡ false = ground (arith, h) in
        rw (seal, seal_plaintext_lem s m p v, c.written, sealed, more) refl

  module _ {Next : State → State → Type 0} (r : InnerSession State) (n : ℕ) (m : InnerMessage)
      (writer : State) (c : Carries noise writer r.transport (frame_of n m) Next) where
    open_lem :
        r.poisoned ≡ false
        → r.recv_sequence ≡ n
        → n < u64_max
        → IsSendable m
        → open_ciphertext noise r c.ciphertext
          ≡ (ok m, record r { transport = c.reader_after; recv_sequence = r.recv_sequence + 1 })
    unfolding open_ciphertext opened take_plaintext next_message open_plaintext accept_decoded
        settled
    open_lem p same h v =
        let more : (r.recv_sequence == u64_max) ≡ false = ground (arith, h, same) in
        let next : (n == r.recv_sequence) ≡ true = ground (arith, same) in
        let long = length-frame_of n m in
        let packet : ltb max_noise_packet (length c.ciphertext) ≡ false =
          ground (arith, c.size, long, v.valid.fits) in
        let small : ltb max_inner_plaintext (length (frame_of n m)) ≡ false =
          ground (arith, long, v.valid.fits) in
        rw
          (
            p,
            packet,
            c.was_read,
            small,
            decode-frame_of n m (omega (arith, h)) v.text v.valid,
            next,
            IsMessage-validate_message m v.valid,
            more,
          )
          refl

-- One message, sent and received.
pub record Transfers {State : Type 0} (noise : Noise State) (laws : NoiseLaws noise)
    (sender receiver : InnerSession State) (m : InnerMessage) : Type 0 where
  pub packet : Bytes
  pub sender_after : InnerSession State
  pub receiver_after : InnerSession State
  pub sends : send noise sender true m ≡ (ok packet, sender_after)
  pub receives :
      (rest : Bytes) → recv noise receiver (packet ++ rest) ≡ ((ok m, receiver_after), rest)
  pub counted : sender_after.send_sequence ≡ sender.send_sequence + 1
  pub linked : IsLinked noise laws sender_after receiver_after

module _ {State : Type 0} (noise : Noise State) (laws : NoiseLaws noise) where
  carried :
      (s r : InnerSession State) (m : InnerMessage)
      → IsLinked noise laws s r
      → IsMessage m
      → s.send_sequence + 1 < u64_max
      → Carries noise s.transport r.transport
          (frame_of s.send_sequence m)
          (laws.Paired (s.send_sequence + 1 + 1))
  carried s r m l v h =
      laws.carries (s.send_sequence + 1) s.transport r.transport (frame_of s.send_sequence m)
        l.paired h (omega (arith, length-frame_of s.send_sequence m, v.fits))

  transfer :
      (s r : InnerSession State) (m : InnerMessage)
      → IsLinked noise laws s r
      → IsSendable m
      → s.send_sequence + 1 < u64_max
      → Transfers noise laws s r m
  unfolding send sent recv received
  transfer s r m l v h =
      let c = carried s r m l v.valid h in
      let small : length c.ciphertext ≤ max_noise_packet =
        omega (arith, c.size, length-frame_of s.send_sequence m, v.valid.fits) in
      record {
        packet = packet_of c.ciphertext;
        sender_after = record s { transport = c.writer_after; send_sequence = s.send_sequence + 1 };
        receiver_after = record r {
          transport = c.reader_after;
          recv_sequence = r.recv_sequence + 1;
        };
        sends =
            rw
              (
                seal_lem noise s m r.transport c l.sender_open (omega (arith, h)) v.valid,
                sent,
                write_packet_lem c.ciphertext small,
              )
              refl;
        receives = λ rest.
            rw
              (
                recv_open noise r (packet_of c.ciphertext ++ rest) l.receiver_open,
                read_packet-packet_of c.ciphertext rest small,
                received,
                open_lem noise r s.send_sequence m s.transport c l.receiver_open l.in_step
                    (omega (arith, h)) v,
              )
              refl;
        counted = refl;
        linked = record {
          sender_open = l.sender_open;
          receiver_open = l.receiver_open;
          in_step = rw l.in_step refl;
          paired = c.next;
        };
      }

-- All the messages of a list, sent and received.
pub record Delivers {State : Type 0} (noise : Noise State) (laws : NoiseLaws noise)
    (sender receiver : InnerSession State) (ms : List InnerMessage) : Type 0 where
  pub stream : Bytes
  pub sender_after : InnerSession State
  pub receiver_after : InnerSession State
  pub sends : send_each noise sender ms ≡ (ok stream, sender_after)
  pub receives :
      (rest : Bytes)
      → recv_each noise (length ms) receiver (stream ++ rest) ≡ (ok ms, receiver_after, rest)
  pub linked : IsLinked noise laws sender_after receiver_after

module _ {State : Type 0} (noise : Noise State) (laws : NoiseLaws noise) where
  append_assoc : (xs ys zs : Bytes) → (xs ++ ys) ++ zs ≡ xs ++ (ys ++ zs)
  append_assoc [] ys zs = refl
  append_assoc (x ∷ xs) ys zs = rw (append_assoc xs ys zs) refl

  -- Between linked ends, over any Noise with the laws, messages that are valid are all sent, and
  -- as many calls of `recv` on the stream receive them, in order, and leave what follows them;
  -- the ends are then linked again. This holds while the sequence numbers stay below
  -- 2^64 - 2, where the last nonce of Noise is used up.
  pub recv_each-send_each :
      (sender receiver : InnerSession State) (messages : List InnerMessage)
      → IsLinked noise laws sender receiver
      → All IsSendable messages
      → sender.send_sequence + length messages < u64_max
      → Delivers noise laws sender receiver messages
  unfolding send_each recv_each
  recv_each-send_each s r [] l v h = record {
    stream = [];
    sender_after = s;
    receiver_after = r;
    sends = refl;
    receives = λ rest. refl;
    linked = l;
  }
  recv_each-send_each s r (m ∷ ms) l v h =
      let one = transfer noise laws s r m l v.0 (omega (arith, h)) in
      let more =
        recv_each-send_each one.sender_after one.receiver_after ms one.linked v.1
          (omega (arith, h, one.counted)) in
      record {
        stream = one.packet ++ more.stream;
        sender_after = more.sender_after;
        receiver_after = more.receiver_after;
        sends = rw (one.sends, more.sends) refl;
        receives = λ rest.
            rw
              (
                append_assoc one.packet more.stream rest,
                one.receives (more.stream ++ rest),
                more.receives rest,
              )
              refl;
        linked = more.linked;
      }
