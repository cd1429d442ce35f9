-- ===== src/Examples/Toy.antt =====
-- A cryptography for tests: one hash for all messages, and signatures that always verify.
use clew.Identity.Registry.Token.{IsBytes}
use clew.Prelude.{ℕ, ◌<◌, zero, suc, true, false, some, List, [], ◌∷◌}
use clew.Prelude.Outcome.{ok}
use clew.Prelude.Text.{str}
use clew.Identity.Grant.{execute_read, full_grant}
use clew.Identity.Keys.{Bytes, Crypto, ControllerIdentity, DevicePublicIdentity}
use clew.Identity.Bootstrap.{BootstrapJson, SiteBootstrapSpec, SignedSiteBootstrapPass}
use clew.Identity.Records.{
  EnrollmentStatus, pending_host_persist, EnrollmentReceipt, EnrollmentDeviceRecord,
  InviteRuntimeState, EnrollmentRegistry,
}
use clew.Identity.Registry.Claims.{Draws}
use clew.Identity.Registry.Calls.{Call, issue, enroll, persisted, revoke}

abbrev pub repeat : ℕ → ℕ → Bytes
repeat zero b = []
repeat (suc n) b = b ∷ repeat n b

pub repeat-IsBytes : (n b : ℕ) → b < 256 → IsBytes (repeat n b)
repeat-IsBytes zero b lt = tt
repeat-IsBytes (suc n) b lt = (lt, repeat-IsBytes n b lt)

abbrev pub toy : Crypto
toy = record {
  sha256 = λ m. repeat 32 7;
  is_key = λ k. true;
  is_weak = λ k. false;
  verifying_key = λ s. s;
  sign = λ s m. repeat 64 9;
  verify_strict = λ k m s. true;
}

abbrev pub toy_json : BootstrapJson
toy_json = record {
  payload_json = λ p. some (123 ∷ 125 ∷ []);
  signed_json = λ p s. some (123 ∷ 125 ∷ []);
}

abbrev pub controller : ControllerIdentity
controller = record { secret = repeat 32 1 }

abbrev pub device : DevicePublicIdentity
device = record { public_key = repeat 32 2 }

abbrev pub token : Bytes
token = repeat 32 5

-- The identifier of every Controller under the one hash.
abbrev pub toy_id : ℕ
toy_id = 0x07070707070787078707070707070707

abbrev pub spec : SiteBootstrapSpec
spec = record {
  site_id = 20;
  invite_id = 30;
  site_name = str "Lab";
  grant = full_grant;
  not_before_unix_ms = 1;
  expires_unix_ms = 10_000;
  deployment_window_ms = 1_000;
  max_claims = 2;
}

abbrev pub pass : SignedSiteBootstrapPass
pass = record {
  payload = record {
    version = 1;
    controller = record { controller_id = toy_id; public_key = repeat 32 1 };
    site_id = 20;
    invite_id = 30;
    site_name = str "Lab";
    grant = full_grant;
    not_before_unix_ms = 1;
    expires_unix_ms = 10_000;
    deployment_window_ms = 1_000;
    max_claims = 2;
    bootstrap_secret_hash = repeat 32 7;
  };
  bootstrap_secret = repeat 32 3;
  signature = repeat 64 9;
}

abbrev pub draws : Draws
draws = record { device_ids = 40 ∷ []; token = ok token }

abbrev pub other_draws : Draws
other_draws = record { device_ids = 41 ∷ []; token = ok token }

-- A pass is issued, a Device claims it, shows its token, and is revoked.
abbrev pub enrolment : List Call
enrolment =
    issue controller spec (ok (repeat 32 3))
    ∷ enroll pass device 100 execute_read draws
    ∷ persisted 30 40 token
    ∷ []

abbrev pub revocation : List Call
revocation = revoke 40 ∷ []

abbrev pub receipt : EnrollmentReceipt
receipt = record {
  controller_id = toy_id;
  site_id = 20;
  invite_id = 30;
  device_id = 40;
  device_public_identity = device;
  effective_grant = execute_read;
  issued_unix_ms = 100;
  persist_ack_token = token;
}

abbrev pub device_record : EnrollmentStatus → EnrollmentDeviceRecord
device_record status = record {
  controller_id = toy_id;
  site_id = 20;
  invite_id = 30;
  device_id = 40;
  device_public_identity = device;
  effective_grant = execute_read;
  status = status;
}

-- The invite after the claim.
abbrev pub invite : EnrollmentStatus → InviteRuntimeState
invite status = record {
  issued_pass_fingerprint = some (repeat 32 7);
  site_id = some 20;
  site_name = some (str "Lab");
  grant = some full_grant;
  not_before_unix_ms = some 1;
  expires_unix_ms = some 10_000;
  deployment_window_ms = some 1_000;
  max_claims = some 2;
  first_claim_unix_ms = some 100;
  closed = false;
  revoked = false;
  deleted = false;
  claims = record { pass_fingerprint = repeat 32 7; receipt = receipt; status = status } ∷ [];
}

-- The registry after the claim.
abbrev pub claimed_registry : EnrollmentRegistry
claimed_registry = record {
  controller_id = toy_id;
  policy_ceiling = full_grant;
  invites = (30, invite pending_host_persist) ∷ [];
  devices = (40, device_record pending_host_persist) ∷ [];
}
