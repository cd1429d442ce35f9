-- ===== src/Identity/Records.antt =====
-- crates/clew-identity/src/enrollment.rs: the records of `EnrollmentRegistry`, its invites with
-- their claims and its enrolled Devices.
use clew.Prelude.{ℕ, Bool, false, Option, none, List, []}
use clew.Prelude.Text.{Str}
use clew.Prelude.Map.{Map}
use clew.Identity.Grant.{PermissionGrant}
use clew.Identity.Keys.{Bytes, DevicePublicIdentity}

pub data EnrollmentStatus : Type 0 where
  pending_host_persist active revoked : EnrollmentStatus

pub record EnrollmentReceipt : Type 0 where
  pub controller_id : ℕ
  pub site_id : ℕ
  pub invite_id : ℕ
  pub device_id : ℕ
  pub device_public_identity : DevicePublicIdentity
  pub effective_grant : PermissionGrant
  pub issued_unix_ms : ℕ
  pub persist_ack_token : Bytes

pub record EnrollmentDeviceRecord : Type 0 where
  pub controller_id : ℕ
  pub site_id : ℕ
  pub invite_id : ℕ
  pub device_id : ℕ
  pub device_public_identity : DevicePublicIdentity
  pub effective_grant : PermissionGrant
  pub status : EnrollmentStatus

pub record ClaimRecord : Type 0 where
  pub pass_fingerprint : Bytes
  pub receipt : EnrollmentReceipt
  pub status : EnrollmentStatus

pub record InviteRuntimeState : Type 0 where
  pub issued_pass_fingerprint : Option Bytes
  pub site_id : Option ℕ
  pub site_name : Option Str
  pub grant : Option PermissionGrant
  pub not_before_unix_ms : Option ℕ
  pub expires_unix_ms : Option ℕ
  pub deployment_window_ms : Option ℕ
  pub max_claims : Option ℕ
  pub first_claim_unix_ms : Option ℕ
  pub closed : Bool
  pub revoked : Bool
  pub deleted : Bool
  pub claims : List ClaimRecord

-- `InviteRuntimeState::default`
abbrev pub default_invite : InviteRuntimeState
default_invite = record {
  issued_pass_fingerprint = none;
  site_id = none;
  site_name = none;
  grant = none;
  not_before_unix_ms = none;
  expires_unix_ms = none;
  deployment_window_ms = none;
  max_claims = none;
  first_claim_unix_ms = none;
  closed = false;
  revoked = false;
  deleted = false;
  claims = [];
}

pub record EnrollmentRegistry : Type 0 where
  pub controller_id : ℕ
  pub policy_ceiling : PermissionGrant
  pub invites : Map InviteRuntimeState
  pub devices : Map EnrollmentDeviceRecord

-- EnrollmentRegistry::new
unfoldable pub new_registry : ℕ → PermissionGrant → EnrollmentRegistry
new_registry controller_id policy_ceiling = record {
  controller_id = controller_id;
  policy_ceiling = policy_ceiling;
  invites = [];
  devices = [];
}
