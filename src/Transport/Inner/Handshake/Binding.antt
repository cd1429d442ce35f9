-- ===== src/Transport/Inner/Handshake/Binding.antt =====
-- inner.rs: what the Controller knows of a session that `accept_authorized` opens.
use clew.Prelude.{◌≡◌, ◌∙◌, sym, ap, Bool}
use clew.Prelude.Outcome.{ok, ◌>>=◌, map_err, checked, bound, ok-injective}
use clew.Identity.Keys.{Bytes, Crypto, public_identity, validate_controller}
use clew.Transport.Inner.{InnerSessionError, max_identity_proof}
use clew.Transport.Inner.Proofs.{
  ControllerSessionAuthority, DeviceSessionClaim, DeviceProof, ControllerProof, ProofJson,
  SessionNames, accept_proof,
}
use clew.Transport.Inner.Proofs.Binding.{IsAuthorized, accept_proof-IsAuthorized}
use clew.Transport.Inner.Session.{Noise, InnerSession}
use clew.Transport.Inner.Handshake.{
  ProofCodec, Writing, Ending, read_encrypted_json, write_encrypted_json, new_session,
  accept_authorized,
}

-- The parts of what `accept_authorized` answers.
answer_parts :
    {State : Type 0} (sent : Bytes × State) (names : SessionNames) (left packet : Bytes)
    (session : InnerSession State) (rest : Bytes)
    → ◌≡◌ {A = Bytes × InnerSession State × Bytes}
        (sent.0, new_session names sent.1, left)
        (packet, session, rest)
    → (sent ≡ (packet, session.transport))
      × (session ≡ new_session names session.transport)
      × (left ≡ rest)
answer_parts sent names left packet session rest same =
    let first : sent.0 ≡ packet = ap (λ x. x.0) same in
    let opened : new_session names sent.1 ≡ session = ap (λ x. x.1) same in
    let state : sent.1 ≡ session.transport = ap (λ s. s.transport) opened in
    (λ i. (first i, state i), sym opened ∙ ap (new_session names) state, ap (λ x. x.2) same)

module _ {State : Type 0} (noise : Noise State) (crypto : Crypto) (serde : ProofJson)
    (codec : ProofCodec) (authority : ControllerSessionAuthority)
    (authorize : DeviceSessionClaim → Bool) (transcript : Bytes) (transport : State)
    (writing : Writing) (ending : Ending) (stream : Bytes) where
  -- The session of a proof that is the first packet of the stream.
  pub record IsAccepted (packet : Bytes) (session : InnerSession State) (rest : Bytes)
      : Type 0 where
    pub proof : DeviceProof
    pub between : State
    pub was_read :
        read_encrypted_json noise ending transport codec.device_proof_from max_identity_proof stream
        ≡ ok (proof, between, rest)
    pub answer : ControllerProof
    pub names : SessionNames
    pub answers :
        accept_proof crypto serde authority authorize transcript proof ≡ ok (answer, names)
    pub was_written :
        write_encrypted_json noise writing between
          (codec.controller_proof_json answer)
          max_identity_proof
        ≡ ok (packet, session.transport)
    pub authorized : IsAuthorized crypto serde authority authorize transcript proof names
    pub is_new : session ≡ new_session names session.transport

  -- A session that `accept_authorized` opens is a new one, and names this Controller, and the
  -- Device and Site of the proof that the first packet of the stream decrypts to: one that carries
  -- the transcript hash of this handshake and this Controller's identifier, that the Device's own
  -- key has signed, and that `authorize` has approved. The packet that it writes is the answer to
  -- this proof.
  pub accept_authorized-IsAccepted :
      (packet : Bytes) (session : InnerSession State) (rest : Bytes)
      → accept_authorized noise crypto serde codec authority authorize transcript transport writing
          ending stream
        ≡ ok (packet, session, rest)
      → IsAccepted packet session rest
  unfolding accept_authorized
  accept_authorized-IsAccepted packet session rest q =
      let own =
        map_err InnerSessionError.identity
          (validate_controller crypto (public_identity crypto authority.identity)) in
      let reads =
        read_encrypted_json noise ending transport codec.device_proof_from max_identity_proof
          stream in
      let writes = λ (between : State) (answer : ControllerProof).
        write_encrypted_json noise writing between (codec.controller_proof_json answer)
          max_identity_proof in
      let last = λ (read : DeviceProof × State × Bytes) (accepted : ControllerProof × SessionNames).
        writes read.1 accepted.0 >>= (λ sent. ok (sent.0, new_session accepted.1 sent.1, read.2)) in
      let next = λ (read : DeviceProof × State × Bytes).
        accept_proof crypto serde authority authorize transcript read.0 >>= last read in
      let (_, q1) = checked own (reads >>= next) (packet, session, rest) q in
      let (read, was_read, q2) = bound reads next (packet, session, rest) q1 in
      let (accepted, answers, q3) =
        bound (accept_proof crypto serde authority authorize transcript read.0) (last read)
          (packet, session, rest) q2 in
      let (sent, was_sent, q4) =
        bound (writes read.1 accepted.0)
          (λ sent. ok (sent.0, new_session accepted.1 sent.1, read.2)) (packet, session, rest) q3 in
      let (pair, opened, left) =
        answer_parts sent accepted.1 read.2 packet session rest (ok-injective q4) in
      record {
        proof = read.0;
        between = read.1;
        was_read = was_read ∙ ap (λ r. ok (read.0, read.1, r)) left;
        answer = accepted.0;
        names = accepted.1;
        answers = answers;
        was_written = was_sent ∙ ap (λ x. ok x) pair;
        authorized =
            accept_proof-IsAuthorized crypto serde authority transcript authorize read.0 accepted.0
              accepted.1 answers;
        is_new = opened;
      }
