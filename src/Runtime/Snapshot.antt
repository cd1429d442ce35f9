-- ===== src/Runtime/Snapshot.antt =====
-- crates/clew-runtime/src/control.rs: `ControllerControlSnapshot`, the whole durable state of a
-- Controller, and its validation.
use clew.Prelude.{ℕ, max, Bool, true, false, not, ◌&&◌, ◌||◌, Option, none, some, List, [], ◌∷◌}
use clew.Prelude.Tests.{ltb, leb, ◌==◌, if◌then◌else◌}
use clew.Prelude.Outcome.{Result, ok, ◌>>=◌, ◌>>◌, reject, ok_or, map_err}
use clew.Prelude.Lists.{length}
use clew.Prelude.Map.{Map, lookup}
use clew.Core.Error.{ControlModelError, hard_max_activity_events}
use clew.Core.Device.{MemberCapabilities}
use clew.Core.Policy.{ActivityEvent, validate_event}
use clew.Core.State.{StateCodecError}
use clew.Core.Catalog.{ControllerCatalog, ControllerDeviceRecord, validate_catalog, empty_catalog}
use clew.Identity.Grant.{full_grant}
use clew.Identity.Bootstrap.{EnrollmentError}
use clew.Identity.Records.{
  EnrollmentStatus, active, revoked, pending_host_persist, EnrollmentRegistry, new_registry,
}

pub data ControlStoreError : Type 0 where
  io controller_mismatch no_valid_slot generation_overflow : ControlStoreError
  activity_sequence_overflow invalid_activity_sequence : ControlStoreError
  state : StateCodecError → ControlStoreError
  model : ControlModelError → ControlStoreError
  enrollment : EnrollmentError → ControlStoreError
  document_too_large : ℕ → ControlStoreError
  generation_conflict : ℕ → ControlStoreError
  too_many_activity_events : ℕ → ControlStoreError
  catalog_registry_mismatch : ℕ → ControlStoreError

pub record RecoveryReview : Type 0 where
  pub restored_controller_id : ℕ
  pub remote_access_paused : Bool
  pub historical_bootstrap_closed : Bool

pub record ControllerControlSnapshot : Type 0 where
  pub generation : ℕ
  pub registry : EnrollmentRegistry
  pub catalog : ControllerCatalog
  pub activity : List ActivityEvent
  pub next_activity_sequence : ℕ
  pub recovery_review : Option RecoveryReview

-- ControllerControlSnapshot::initial
unfoldable pub initial : ℕ → ControllerControlSnapshot
initial controller_id = record {
  generation = 0;
  registry = new_registry controller_id full_grant;
  catalog = empty_catalog;
  activity = [];
  next_activity_sequence = 1;
  recovery_review = none;
}

-- The loop over the activity: the greatest sequence number.
unfoldable pub max_sequence : ℕ → List ActivityEvent → Result ControlStoreError ℕ
max_sequence acc [] = ok acc
max_sequence acc (e ∷ es) = map_err model (validate_event e) >> max_sequence (max acc e.sequence) es

abbrev pub review_mismatch : Option RecoveryReview → ℕ → Bool
review_mismatch none id = false
review_mismatch (some review) id = not (review.restored_controller_id == id)

unfoldable pub bool_eq : Bool → Bool → Bool
bool_eq true b = b
bool_eq false b = not b

unfoldable pub same_member : MemberCapabilities → MemberCapabilities → Bool
unfolding bool_eq
same_member a b = bool_eq a.execute b.execute && bool_eq a.connector b.connector

abbrev pub same_status : EnrollmentStatus → EnrollmentStatus → Bool
same_status pending_host_persist pending_host_persist = true
same_status active active = true
same_status revoked revoked = true
same_status _ _ = false

-- The Device of the catalog and of the registry agree.
unfoldable pub check_device :
    EnrollmentRegistry → ℕ → ControllerDeviceRecord → Result ControlStoreError (Unit {0})
unfolding same_member
check_device registry device_id r = do
  reject (not (device_id == r.device.device_id)) (catalog_registry_mismatch device_id)
  enrolled ← ok_or (lookup device_id registry.devices) (catalog_registry_mismatch device_id)
  reject
      (not (enrolled.site_id == r.device.site_id)
        || not (enrolled.invite_id == r.device.enrolled_via_invite_id)
        || not (same_member enrolled.effective_grant.member r.device.capabilities))
      (catalog_registry_mismatch device_id)
  reject (not (same_status enrolled.status (if r.revoked then revoked else active)))
      (catalog_registry_mismatch device_id)

unfoldable pub check_devices :
    EnrollmentRegistry → Map ControllerDeviceRecord → Result ControlStoreError (Unit {0})
unfolding check_device
check_devices registry [] = ok tt
check_devices registry ((k, r) ∷ m) = check_device registry k r >> check_devices registry m

-- ControllerControlSnapshot::validate
unfoldable pub validate_snapshot :
    ℕ → ControllerControlSnapshot → Result ControlStoreError (Unit {0})
unfolding max_sequence check_devices
validate_snapshot controller_id s = do
  reject (not (s.registry.controller_id == controller_id)) controller_mismatch
  map_err model (validate_catalog s.catalog)
  reject (ltb hard_max_activity_events (length s.activity))
      (too_many_activity_events (length s.activity))
  top ← max_sequence 0 s.activity
  reject (leb s.next_activity_sequence top) invalid_activity_sequence
  reject (review_mismatch s.recovery_review controller_id) controller_mismatch
  check_devices s.registry s.catalog.devices
