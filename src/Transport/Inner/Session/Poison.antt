-- ===== src/Transport/Inner/Session/Poison.antt =====
-- inner.rs: after a failure, a session takes and makes no more messages.
use clew.Prelude.{ℕ, ◌≡◌, refl, true, Option, none, some, List, [], ◌∷◌, ◌++◌}
use clew.Prelude.Tests.{ltb, if_cases}
use clew.Prelude.Lists.{length}
use clew.Prelude.Outcome.{Result, ok, err}
use clew.Identity.Keys.{Bytes}
use clew.Transport.Inner.{InnerMessage, InnerSessionError, max_noise_packet}
use clew.Transport.Inner.Session.{
  Noise, InnerSession, take_plaintext, opened, settled, open_ciphertext, seal, seal_plaintext,
  received, recv, read_packet,
}

-- One call on a session, and its answer where it succeeds.
pub data Call : Type 0 where
  sealing : InnerMessage → Call
  opening : Bytes → Call

pub data Gain : Type 0 where
  ciphertext : Bytes → Gain
  message : InnerMessage → Gain

module _ {State : Type 0} where
  abbrev gained :
      {A : Type 0}
      → (A → Gain)
      → Result InnerSessionError A × InnerSession State
      → List Gain × InnerSession State
  gained make (ok a, session) = (make a ∷ [], session)
  gained make (err e, session) = ([], session)

module _ {State : Type 0} (noise : Noise State) where
  -- What the calls of a list gain, in order.
  unfoldable pub call : InnerSession State → Call → List Gain × InnerSession State
  unfolding seal open_ciphertext
  call session (sealing m) = gained ciphertext (seal noise session m)
  call session (opening c) = gained message (open_ciphertext noise session c)

  unfoldable pub calls : InnerSession State → List Call → List Gain
  unfolding call
  calls session [] = []
  calls session (c ∷ cs) = let (gains, session) = call session c in gains ++ calls session cs

  call_poisoned : (s : InnerSession State) (c : Call) → s.poisoned ≡ true → call s c ≡ ([], s)
  unfolding call seal open_ciphertext seal_plaintext
  call_poisoned s (sealing m) p = rw p refl
  call_poisoned s (opening c) p = rw p refl

  calls_poisoned : (s : InnerSession State) (cs : List Call) → s.poisoned ≡ true → calls s cs ≡ []
  unfolding calls
  calls_poisoned s [] p = refl
  calls_poisoned s (c ∷ cs) p = rw (call_poisoned s c p) (calls_poisoned s cs p)

module _ {State : Type 0} where
  settled-poison :
      (s : InnerSession State) (r : Result InnerSessionError (InnerMessage × ℕ))
      (e : InnerSessionError)
      → (settled s r).0 ≡ err e
      → (settled s r).1.poisoned ≡ true
  unfolding settled
  settled-poison s (err x) e q = refl
  settled-poison s (ok taken) e q = cc

  opened-poison :
      (s : InnerSession State) (r : Option Bytes × State) (e : InnerSessionError)
      → (opened s r).0 ≡ err e
      → (opened s r).1.poisoned ≡ true
  unfolding opened take_plaintext
  opened-poison s (none, t) e q = refl
  opened-poison s (some p, t) e q = settled-poison (record s { transport = t }) _ e q

module _ {State : Type 0} (noise : Noise State) where
  abbrev Poisons : Result InnerSessionError InnerMessage × InnerSession State → Type 0
  Poisons left = (e : InnerSessionError) → left.0 ≡ err e → left.1.poisoned ≡ true

  pub open_ciphertext-poison :
      (s : InnerSession State) (c : Bytes) → Poisons (open_ciphertext noise s c)
  unfolding open_ciphertext
  open_ciphertext-poison s c =
      if_cases Poisons s.poisoned _ _ (λ p e q. p)
        (λ _.
          if_cases Poisons (ltb max_noise_packet (length c)) _ _ (λ _ e q. refl)
            (λ _. opened-poison s (noise.read_message s.transport c (length c))))

  -- After a call of `open` that fails, no call of `seal` or `open` on the session succeeds.
  pub calls-open_ciphertext :
      (session : InnerSession State) (ciphertext : Bytes) (e : InnerSessionError)
      (later : List Call)
      → (open_ciphertext noise session ciphertext).0 ≡ err e
      → calls noise (open_ciphertext noise session ciphertext).1 later ≡ []
  calls-open_ciphertext s c e cs q =
      calls_poisoned noise (open_ciphertext noise s c).1 cs (open_ciphertext-poison s c e q)

  received-poison :
      (s : InnerSession State) (r : Result InnerSessionError Bytes × Bytes)
      → Poisons (received noise s r).0
  unfolding received
  received-poison s (err x, rest) e q = refl
  received-poison s (ok c, rest) e q = open_ciphertext-poison s c e q

  pub recv-poison : (s : InnerSession State) (stream : Bytes) → Poisons (recv noise s stream).0
  unfolding recv
  recv-poison s stream =
      if_cases
        (λ (r : (Result InnerSessionError InnerMessage × InnerSession State) × Bytes). Poisons r.0)
        s.poisoned _ _ (λ p e q. p) (λ _. received-poison s (read_packet stream))

  -- After a call of `recv` that fails, for whatever reason, no call of `seal` or `open` on the
  -- session succeeds.
  pub calls-recv :
      (session : InnerSession State) (stream : Bytes) (e : InnerSessionError) (later : List Call)
      → (recv noise session stream).0.0 ≡ err e
      → calls noise (recv noise session stream).0.1 later ≡ []
  calls-recv s stream e cs q =
      calls_poisoned noise (recv noise s stream).0.1 cs (recv-poison s stream e q)
