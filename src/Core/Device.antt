-- ===== src/Core/Device.antt =====
-- crates/clew-core/src/device.rs: members, device records and their summaries. A `DeviceId`, a
-- `SiteId` and the other stable identifiers of id.rs are the values of their 16 bytes.
use clew.Prelude.{ℕ, Bool, true, false, ℕ_discrete, Option, none}
use clew.Prelude.Text.{Str}

pub record MemberCapabilities : Type 0 where
  pub execute : Bool
  pub connector : Bool

pub data DeviceNameOrigin : Type 0 where
  automatic : Str → Bool → ℕ → DeviceNameOrigin
  renamed : DeviceNameOrigin

pub record DeviceRecord : Type 0 where
  pub device_id : ℕ
  pub site_id : ℕ
  pub display_name : Str
  pub hostname_observed : Str
  pub capabilities : MemberCapabilities
  pub enrolled_via_invite_id : ℕ
  pub name_origin : DeviceNameOrigin

unfoldable pub DeviceRecord-discrete : Discrete DeviceRecord
DeviceRecord-discrete = hlevel ℕ_discrete

abbrev pub execute_only : MemberCapabilities
execute_only = record { execute = true; connector = false }

abbrev pub connector_only : MemberCapabilities
connector_only = record { execute = false; connector = true }

abbrev pub execute_and_connector : MemberCapabilities
execute_and_connector = record { execute = true; connector = true }

pub record DeviceSummary : Type 0 where
  pub device_id : ℕ
  pub site_id : ℕ
  pub enrolled_via_invite_id : ℕ
  pub site_name : Str
  pub display_name : Str
  pub hostname_observed : Str
  pub online : Bool
  pub executable : Bool
  pub connector : Bool
  pub last_seen_unix_ms : Option ℕ

unfoldable pub from_record : DeviceRecord → Str → Bool → DeviceSummary
from_record r site_name online = record {
  device_id = r.device_id;
  site_id = r.site_id;
  enrolled_via_invite_id = r.enrolled_via_invite_id;
  site_name = site_name;
  display_name = r.display_name;
  hostname_observed = r.hostname_observed;
  online = online;
  executable = r.capabilities.execute;
  connector = r.capabilities.connector;
  last_seen_unix_ms = none;
}
