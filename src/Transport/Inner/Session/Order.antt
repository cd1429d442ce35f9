-- ===== src/Transport/Inner/Session/Order.antt =====
-- inner.rs: the messages that a session takes carry the sequence numbers in order.
use clew.Prelude.{ℕ, ◌+◌, ◌≤◌, ◌≡◌, refl, sym, ◌∙◌, false, Option, none, some, arith, ap}
use clew.Prelude.Tests.{ltb, if_cases}
use clew.Prelude.Lists.{length}
use clew.Prelude.Outcome.{Result, ok, err, ◌>>=◌, reject, checked, bound, ok-injective}
use clew.Identity.Keys.{Bytes}
use clew.Transport.Inner.{
  InnerMessage, InnerSessionError, IsMessage, validate_message, validate_message-IsMessage,
  max_noise_packet, max_inner_plaintext,
}
use clew.Transport.Inner.Frame.{Decoded, decode_business_frame, decoded_of}
use clew.Transport.Inner.Session.{
  Noise, InnerSession, next_sequence, accept_decoded, open_plaintext, next_message, take_plaintext,
  opened, settled, open_ciphertext,
}

-- What is known of a message that is taken as the one of a sequence number.
pub record IsNext (sequence : ℕ) (plaintext : Bytes) (message : InnerMessage) : Type 0 where
  pub decoded : decode_business_frame plaintext ≡ ok (decoded_of sequence message)
  pub checked_message : IsMessage message

accept_decoded_lem :
    (n : ℕ) (d : Decoded) (m : InnerMessage)
    → accept_decoded n d ≡ ok m
    → (d ≡ decoded_of n m) × (validate_message m ≡ ok tt)
unfolding accept_decoded
accept_decoded_lem n d m q = ground (arith, q)

open_plaintext-IsNext :
    (n : ℕ) (p : Bytes) (m : InnerMessage) → open_plaintext n p ≡ ok m → IsNext n p m
unfolding open_plaintext
open_plaintext-IsNext n p m q =
    let large = ltb max_inner_plaintext (length p) in
    let after = decode_business_frame p >>= accept_decoded n in
    let (small, q1) =
      checked (reject large (InnerSessionError.plaintext_too_large (length p))) after m q in
    let (d, here, q2) = bound (decode_business_frame p) (accept_decoded n) m q1 in
    let (same, valid) = accept_decoded_lem n d m q2 in
    record { decoded = rw (← same) here; checked_message = validate_message-IsMessage m valid }

next_sequence_lem : (n next : ℕ) → next_sequence n ≡ ok next → next ≡ n + 1
next_sequence_lem n next q = ground (arith, q)

next_message_lem :
    (n : ℕ) (p : Bytes) (m : InnerMessage) (next : ℕ)
    → next_message n p ≡ ok (m, next)
    → (open_plaintext n p ≡ ok m) × (next ≡ n + 1)
unfolding next_message
next_message_lem n p m next q =
    let (m', opens, q1) =
      bound (open_plaintext n p) (λ x. next_sequence n >>= (λ k. ok (x, k))) (m, next) q in
    let (k, counts, q2) = bound (next_sequence n) (λ k. ok (m', k)) (m, next) q1 in
    let same : m' ≡ m = ap (λ x. x.0) (ok-injective q2) in
    let number : k ≡ next = ap (λ x. x.1) (ok-injective q2) in
    (rw (← same) opens, rw (← number) (next_sequence_lem n k counts))

-- What is known of a message that a session takes from a ciphertext, and of the session that is
-- left: the plaintext is the one that Noise reads from this ciphertext in the session's state.
pub record IsTaken {State : Type 0} (noise : Noise State) (before after : InnerSession State)
    (ciphertext : Bytes) (message : InnerMessage) : Type 0 where
  pub not_poisoned : before.poisoned ≡ false
  pub packet_fits : length ciphertext ≤ max_noise_packet
  pub plaintext : Bytes
  pub was_read :
      noise.read_message before.transport ciphertext (length ciphertext)
      ≡ (some plaintext, after.transport)
  pub is_next : IsNext before.recv_sequence plaintext message
  pub left_behind :
      after
      ≡ record before { transport = after.transport; recv_sequence = before.recv_sequence + 1 }

module _ {State : Type 0} where
  -- A plaintext from which a session takes a message, and the session that is left.
  record IsRead (before after : InnerSession State) (plaintext : Bytes) (message : InnerMessage)
      : Type 0 where
    is_next : IsNext before.recv_sequence plaintext message
    left_behind : after ≡ record before { recv_sequence = before.recv_sequence + 1 }

  settled_lem :
      (s : InnerSession State) (r : Result InnerSessionError (InnerMessage × ℕ)) (m : InnerMessage)
      → (settled s r).0 ≡ ok m
      → (next : ℕ) × (r ≡ ok (m, next)) × ((settled s r).1 ≡ record s { recv_sequence = next })
  unfolding settled
  settled_lem s (err e) m q = cc
  settled_lem s (ok (m', next)) m q =
      let same : m' ≡ m = ok-injective q in (next, ap (λ x. ok (x, next)) same, refl)

  take_plaintext-IsRead :
      (s : InnerSession State) (p : Bytes) (m : InnerMessage)
      → (take_plaintext s p).0 ≡ ok m
      → IsRead s (take_plaintext s p).1 p m
  unfolding take_plaintext
  take_plaintext-IsRead s p m q =
      let n = s.recv_sequence in
      let (next, here, left) = settled_lem s (next_message n p) m q in
      let (opens, counts) = next_message_lem n p m next here in
      record {
        is_next = open_plaintext-IsNext n p m opens;
        left_behind = left ∙ ap (λ k. record s { recv_sequence = k }) counts;
      }

  -- What `open` makes of the answer of `read_message`, where the packet is not too large.
  opened-IsTaken :
      (noise : Noise State) (s : InnerSession State) (c : Bytes) (r : Option Bytes × State)
      (m : InnerMessage)
      → s.poisoned ≡ false
      → length c ≤ max_noise_packet
      → noise.read_message s.transport c (length c) ≡ r
      → (opened s r).0 ≡ ok m
      → IsTaken noise s (opened s r).1 c m
  unfolding opened
  opened-IsTaken noise s c (none, t) m clean fits here q = cc
  opened-IsTaken noise s c (some p, t) m clean fits here q =
      let taken = take_plaintext-IsRead (record s { transport = t }) p m q in
      let same : (take_plaintext (record s { transport = t }) p).1.transport ≡ t =
        ap (λ x. x.transport) taken.left_behind in
      record {
        not_poisoned = clean;
        packet_fits = fits;
        plaintext = p;
        was_read = here ∙ ap (λ x. (some p, x)) (sym same);
        is_next = taken.is_next;
        left_behind =
            taken.left_behind
            ∙ ap (λ x. record s { transport = x; recv_sequence = s.recv_sequence + 1 }) (sym same);
      }

  -- A message that `open` answers with is the one that the frame holds which Noise reads from this
  -- ciphertext, in the state of the session: a frame of this wire major with the sequence number
  -- that the session expects, and the message passes `validate`. The session was not poisoned and
  -- the ciphertext fits a packet. The session that is left has the state that Noise leaves,
  -- expects the next number, and is otherwise as before.
  pub open_ciphertext-IsTaken :
      (noise : Noise State) (session : InnerSession State) (ciphertext : Bytes)
      (message : InnerMessage)
      → (open_ciphertext noise session ciphertext).0 ≡ ok message
      → IsTaken noise session (open_ciphertext noise session ciphertext).1 ciphertext message
  unfolding open_ciphertext
  open_ciphertext-IsTaken noise s c =
      let Takes = λ (left : Result InnerSessionError InnerMessage × InnerSession State).
        (m : InnerMessage) → left.0 ≡ ok m → IsTaken noise s left.1 c m in
      if_cases Takes s.poisoned _ _ (λ p m q. cc)
        (λ clean.
          if_cases Takes (ltb max_noise_packet (length c)) _ _ (λ _ m q. cc)
            (λ small m.
              opened-IsTaken noise s c (noise.read_message s.transport c (length c)) m clean
                (ground (arith, small)) refl))
