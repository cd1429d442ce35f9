-- ===== src/Examples/Transport.antt =====
-- The theorems on transfers and leases, applied to a transfer of two steps and to one lease.
use clew.Prelude.{ℕ, ◌≡◌, refl, none, some, List, [], ◌∷◌, arith}
use clew.Prelude.Outcome.{ok}
use clew.Prelude.Text.{str, Str, trim, byte_len}
use clew.Prelude.Tests.{list_eq}
use clew.Prelude.Lists.{any}
use clew.Identity.Keys.{
  controller_id, public_identity, validate_controller, sign_payload, verify_payload,
}
use clew.Transport.FileResume.{
  FileResumeDescriptor, controller_to_device, empty_sha256_hex, validate_successor_of,
}
use clew.Transport.FileResume.Chain.{start, next, Follows, chain_lem}
use clew.Transport.Lease.{SignedConnectorLease, LeaseJson, issue, verify_for_candidate}
use clew.Transport.Lease.Window.{IsAccepted, verify_for_candidate_lem}
use clew.Identity.Keys.Signatures.{Signs}
use clew.Transport.Lease.Issue.{issue_then_verify}
use clew.Examples.Toy.{toy, toy_id, controller, repeat}

-- Of 64 digits.
abbrev hash : ℕ → Str
hash digit = repeat 64 digit

abbrev checkpoint : ℕ → ℕ → Str → FileResumeDescriptor
checkpoint revision offset prefix = record {
  version = 1;
  transfer_id = 1;
  controller_id = 7;
  site_id = 20;
  device_id = 40;
  direction = controller_to_device;
  device_path = str "/tmp/target";
  total_size = 1_024;
  checkpoint_revision = revision;
  confirmed_offset = offset;
  confirmed_prefix_sha256 = prefix;
  final_sha256 = some (hash 49);
}

abbrev first : FileResumeDescriptor
first = checkpoint 1 0 empty_sha256_hex

abbrev second : FileResumeDescriptor
second = checkpoint 2 512 (hash 50)

abbrev last : FileResumeDescriptor
last = checkpoint 5 1_024 (hash 49)

second_accepted : validate_successor_of second first ≡ ok tt
unfolding validate_successor_of trim byte_len any list_eq
second_accepted = refl

last_accepted : validate_successor_of last second ≡ ok tt
unfolding validate_successor_of trim byte_len any list_eq
last_accepted = refl

chain_lem_example : Follows first 2 last
chain_lem_example = chain_lem (next last (next second (start first) second_accepted) last_accepted)

abbrev lease_json : LeaseJson
lease_json = record {
  payload_json = λ p. some (123 ∷ 125 ∷ []);
  signed_json = λ s. some (123 ∷ 125 ∷ []);
  signed_of = λ bytes. none;
}

abbrev endpoint : List ℕ
endpoint = repeat 32 4

abbrev lease : SignedConnectorLease
lease = record {
  payload = record {
    version = 1;
    controller_id = toy_id;
    site_id = 20;
    connector_device_id = 40;
    connector_endpoint_id = endpoint;
    issued_unix_ms = 100_000;
    expires_unix_ms = 400_000;
  };
  signature = repeat 64 9;
}

verify_for_candidate_lem_example :
    IsAccepted toy lease_json
      (record { controller_id = toy_id; public_key = repeat 32 1 })
      20
      endpoint
      lease
      40
      80_000
unfolding verify_for_candidate verify_payload list_eq
verify_for_candidate_lem_example =
    verify_for_candidate_lem toy lease_json
      (record { controller_id = toy_id; public_key = repeat 32 1 }) 20 endpoint lease 40 80_000 refl

toy_valid : validate_controller toy (public_identity toy controller) ≡ ok tt
unfolding validate_controller public_identity
toy_valid = refl

toy-Signs : Signs toy controller
toy-Signs = record {
  length_64 = λ m. refl;
  verifies = λ m. refl;
  has_key = refl;
  is_valid = toy_valid;
}

issue_then_verify_example :
    verify_for_candidate toy lease_json (public_identity toy controller) 20 endpoint 80_000 lease
    ≡ ok 40
unfolding issue sign_payload controller_id
issue_then_verify_example =
    issue_then_verify toy lease_json controller 20 40 endpoint 100_000 400_000 lease 80_000
      toy-Signs refl (omega arith) (omega arith)
