-- ===== src/Examples/Sessions.antt =====
-- The theorems on sessions, applied to a session over a Noise that does not encrypt: 16 bytes of
-- the nonce before the plaintext.
use clew.Prelude.{ℕ, ◌+◌, ◌%◌, ◌≡◌, refl, false, none, some, [], ◌∷◌, ◌++◌, arith}
use clew.Prelude.Tests.{◌==◌, ==_refl, if◌then◌else◌}
use clew.Prelude.Lists.{length, drop}
use clew.Prelude.Outcome.{ok, err, ◌>>=◌}
use clew.Prelude.Text.{str}
use clew.Prelude.Bytes.{Bytes, first, is_utf8}
use clew.Transport.Inner.{InnerMessage, InnerSessionError, IsMessage, InnerRole}
use clew.Transport.Inner.Frame.{
  decode-encode, encode_business_frame, decode_business_frame, decoded_of,
}
use clew.Transport.Inner.Session.{Noise, InnerSession, open_ciphertext, recv}
use clew.Transport.Inner.Session.Order.{IsTaken, open_ciphertext-IsTaken}
use clew.Transport.Inner.Session.Poison.{Call, calls, calls-recv}
use clew.Transport.Inner.Session.Delivery.{NoiseLaws, IsSendable, Delivers, recv_each-send_each}
use clew.Examples.Toy.{repeat}

abbrev pub plain_noise : Noise ℕ
plain_noise = record {
  write_message = λ n p size. (some (repeat 16 (n % 256) ++ p), n + 1);
  read_message = λ n c size. (if first c == n % 256 then some (drop 16 c) else none, n + 1);
}

plain_read :
    (n : ℕ) (p : Bytes) (size : ℕ)
    → plain_noise.read_message n (repeat 16 (n % 256) ++ p) size ≡ (some p, n + 1)
plain_read n p size = rw (==_refl (n % 256)) refl

abbrev plain_laws : NoiseLaws plain_noise
plain_laws = record {
  Paired = λ n writer reader. (writer ≡ n) × (reader ≡ n);
  carries = λ n writer reader p paired few short. record {
    ciphertext = repeat 16 (writer % 256) ++ p;
    writer_after = writer + 1;
    reader_after = reader + 1;
    size = omega arith;
    written = refl;
    was_read = rw (paired.0, paired.1) (plain_read n p (length (repeat 16 (n % 256) ++ p)));
    next = (rw paired.0 refl, rw paired.1 refl);
  };
}

abbrev end : InnerRole → InnerSession ℕ
end peer = record {
  transport = 1;
  send_sequence = 0;
  recv_sequence = 0;
  poisoned = false;
  peer_role = peer;
  controller_id = 7;
  device_id = 40;
  site_id = 20;
}

abbrev ping : InnerMessage
ping = record { kind = str "ping"; payload = 1 ∷ 2 ∷ 3 ∷ [] }

ping-IsMessage : IsMessage ping
ping-IsMessage = record { kind_named = omega arith; kind_short = omega arith; fits = omega arith }

ping-IsSendable : IsSendable ping
unfolding is_utf8
ping-IsSendable = record { valid = ping-IsMessage; text = refl }

decode-encode_example :
    encode_business_frame 5 ping >>= decode_business_frame ≡ ok (decoded_of 5 ping)
decode-encode_example = decode-encode 5 ping (omega arith) ping-IsSendable.text ping-IsMessage

recv_each-send_each_example :
    Delivers plain_noise plain_laws
      (end InnerRole.controller)
      (end InnerRole.device)
      (ping ∷ ping ∷ [])
recv_each-send_each_example =
    recv_each-send_each plain_noise plain_laws (end InnerRole.controller) (end InnerRole.device)
      (ping ∷ ping ∷ [])
      (record { sender_open = refl; receiver_open = refl; in_step = refl; paired = (refl, refl) })
      (ping-IsSendable, (ping-IsSendable, tt)) (omega arith)

cut_off_fails :
    (recv plain_noise (end InnerRole.device) (0 ∷ 0 ∷ 0 ∷ 9 ∷ 1 ∷ [])).0.0
    ≡ err InnerSessionError.io
unfolding recv
cut_off_fails = refl

calls-recv_example :
    calls plain_noise
      (recv plain_noise (end InnerRole.device) (0 ∷ 0 ∷ 0 ∷ 9 ∷ 1 ∷ [])).0.1
      (Call.sealing ping ∷ [])
    ≡ []
calls-recv_example =
    calls-recv plain_noise (end InnerRole.device) (0 ∷ 0 ∷ 0 ∷ 9 ∷ 1 ∷ []) InnerSessionError.io
      (Call.sealing ping ∷ []) cut_off_fails

-- The first `ping` of the other end.
abbrev first_ping : Bytes
first_ping =
    repeat 16 1
    ++ (0 ∷ 0 ∷ 0 ∷ 1 ∷ 0 ∷ 0 ∷ 0 ∷ 0 ∷ 0 ∷ 0 ∷ 0 ∷ 0 ∷ 4 ∷ 0 ∷ 0 ∷ 0 ∷ 3 ∷ [])
    ++ str "ping"
    ++ (1 ∷ 2 ∷ 3 ∷ [])

first_ping_opens : (open_ciphertext plain_noise (end InnerRole.device) first_ping).0 ≡ ok ping
unfolding open_ciphertext decode_business_frame
first_ping_opens = refl

open_ciphertext-IsTaken_example :
    IsTaken plain_noise
      (end InnerRole.device)
      (open_ciphertext plain_noise (end InnerRole.device) first_ping).1
      first_ping
      ping
open_ciphertext-IsTaken_example =
    open_ciphertext-IsTaken plain_noise (end InnerRole.device) first_ping ping first_ping_opens
