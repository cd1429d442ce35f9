-- ===== src/Runtime/ControlCalls/Agreement.antt =====
-- The agreement of catalog and registry: each Device that the catalog shows is enrolled, at the
-- same Site, through the same invite, with the same capabilities, active unless it is revoked.
use clew.Prelude.{ℕ, ◌≡◌, refl, Bool, true, false, none, some, [], ◌∷◌, arith, inl, inr}
use clew.Prelude.Tests.{◌==◌, ==_iff, ==_refl, if◌then◌else◌, Bool-cases, Option-cases}
use clew.Prelude.Outcome.{ok}
use clew.Prelude.Map.{Map, lookup, insert, remove, lookup-insert, lookup-remove, Every, Every-imp}
use clew.Prelude.Sorted.{IsSorted, Every-lookup_self}
use clew.Core.Device.{MemberCapabilities}
use clew.Core.Catalog.{ControllerDeviceRecord}
use clew.Identity.Records.{
  EnrollmentStatus, active, revoked, EnrollmentDeviceRecord, EnrollmentRegistry,
}
use clew.Identity.Registry.{set_device, mark_revoked}
use clew.Identity.Registry.Withdrawal.{lookup-mark_revoked}
use clew.Runtime.Snapshot.{check_device, check_devices, same_member, same_status, bool_eq}

abbrev pub status_for : Bool → EnrollmentStatus
status_for is_revoked = if is_revoked then revoked else active

-- A Device of the catalog fits its enrolment.
pub record FitsEnrolment (devices : Map EnrollmentDeviceRecord) (k : ℕ) (r : ControllerDeviceRecord)
    : Type 0 where
  pub own_id : r.device.device_id ≡ k
  pub e : EnrollmentDeviceRecord
  pub enrolled : lookup k devices ≡ some e
  pub same_site : e.site_id ≡ r.device.site_id
  pub same_invite : e.invite_id ≡ r.device.enrolled_via_invite_id
  pub same_capabilities : e.effective_grant.member ≡ r.device.capabilities
  pub status_fits : e.status ≡ status_for r.revoked

abbrev pub Agrees : Map EnrollmentDeviceRecord → Map ControllerDeviceRecord → Type 0
Agrees devices m =
    (k : ℕ) (r : ControllerDeviceRecord) → lookup k m ≡ some r → FitsEnrolment devices k r

same_member_refl : (m : MemberCapabilities) → same_member m m ≡ true
unfolding same_member bool_eq
same_member_refl m = ground arith

pub same_member-equal : (a b : MemberCapabilities) → same_member a b ≡ true → a ≡ b
unfolding same_member bool_eq
same_member-equal a b q =
    let executes : a.execute ≡ b.execute = ground (arith, q) in
    let connects : a.connector ≡ b.connector = ground (arith, q) in
    λ i. record { execute = executes i; connector = connects i }

same_status_refl : (s : EnrollmentStatus) → same_status s s ≡ true
same_status_refl s = ground arith

fits-check :
    (reg : EnrollmentRegistry) (k : ℕ) (r : ControllerDeviceRecord)
    → FitsEnrolment reg.devices k r
    → check_device reg k r ≡ ok tt
unfolding check_device
fits-check reg k r f =
    rw
      (
        f.own_id,
        ==_refl k,
        f.enrolled,
        f.same_site,
        f.same_invite,
        f.same_capabilities,
        f.status_fits,
        ==_refl r.device.site_id,
        ==_refl r.device.enrolled_via_invite_id,
        same_member_refl r.device.capabilities,
        same_status_refl (status_for r.revoked),
      )
      refl

check_records :
    (reg : EnrollmentRegistry) (m : Map ControllerDeviceRecord)
    → Every (FitsEnrolment reg.devices) m
    → check_devices reg m ≡ ok tt
unfolding check_devices
check_records reg [] h = refl
check_records reg ((k, r) ∷ m) h = rw (fits-check reg k r h.0, check_records reg m h.1) refl

pub Agrees-check_devices :
    (reg : EnrollmentRegistry) (m : Map ControllerDeviceRecord)
    → IsSorted m
    → Agrees reg.devices m
    → check_devices reg m ≡ ok tt
Agrees-check_devices reg m sorted h = check_records reg m (
    Every-imp (λ k r. lookup k m ≡ some r) (FitsEnrolment reg.devices) m h
      (Every-lookup_self m sorted))

-- What a fit becomes where the registry keeps the Device.
pub FitsEnrolment-kept :
    (devices devices' : Map EnrollmentDeviceRecord) (k : ℕ) (r : ControllerDeviceRecord)
    → FitsEnrolment devices k r
    → lookup k devices' ≡ lookup k devices
    → FitsEnrolment devices' k r
FitsEnrolment-kept devices devices' k r f kept = record {
  own_id = f.own_id;
  e = f.e;
  enrolled = rw kept f.enrolled;
  same_site = f.same_site;
  same_invite = f.same_invite;
  same_capabilities = f.same_capabilities;
  status_fits = f.status_fits;
}

-- The catalog stays, and the registry keeps the Devices of the catalog.
pub Agrees-kept :
    (devices devices' : Map EnrollmentDeviceRecord) (m : Map ControllerDeviceRecord)
    → ((j : ℕ) (r : ControllerDeviceRecord)
        → lookup j m ≡ some r
        → lookup j devices' ≡ lookup j devices)
    → Agrees devices m
    → Agrees devices' m
Agrees-kept devices devices' m kept h j r at_j =
    FitsEnrolment-kept devices devices' j r (h j r at_j) (kept j r at_j)

-- One Device changes in the catalog.
pub Agrees-insert :
    (devices devices' : Map EnrollmentDeviceRecord) (m : Map ControllerDeviceRecord) (k : ℕ)
    (r : ControllerDeviceRecord)
    → FitsEnrolment devices' k r
    → ((j : ℕ) → (k == j) ≡ false → lookup j devices' ≡ lookup j devices)
    → Agrees devices m
    → Agrees devices' (insert k r m)
Agrees-insert devices devices' m k r f others h j x at_j = elim (Bool-cases (k == j)) [
  | inl here ↦
      let same : k ≡ j = (==_iff k j).0 here in
      let is_r : r ≡ x = ground (arith, at_j, here, lookup-insert j k r m) in rw (← same, ← is_r) f
  | inr other ↦
      let at_x : lookup j m ≡ some x = ground (arith, at_j, other, lookup-insert j k r m) in
      FitsEnrolment-kept devices devices' j x (h j x at_x) (others j other)
]

-- One Device leaves the catalog, and the registry too.
pub Agrees-remove :
    (devices : Map EnrollmentDeviceRecord) (m : Map ControllerDeviceRecord) (k : ℕ)
    → Agrees devices m
    → Agrees (remove k devices) (remove k m)
Agrees-remove devices m k h j x at_j = elim (Bool-cases (k == j)) [
  | inl here ↦ ground (arith, at_j, here, lookup-remove j k m)
  | inr other ↦
      let at_x : lookup j m ≡ some x = ground (arith, at_j, other, lookup-remove j k m) in
      FitsEnrolment-kept devices (remove k devices) j x (h j x at_x)
        (ground (arith, other, lookup-remove j k devices))
]

-- A Device is revoked in the catalog, if it is there.
abbrev pub revoke_in : ℕ → Map ControllerDeviceRecord → Map ControllerDeviceRecord
revoke_in k m = elim (lookup k m) [ none ↦ m | some r ↦ insert k (record r { revoked = true }) m ]

pub Agrees-revoke :
    (devices : Map EnrollmentDeviceRecord) (m : Map ControllerDeviceRecord) (k : ℕ)
    → Agrees devices m
    → Agrees (mark_revoked k devices) (revoke_in k m)
Agrees-revoke devices m k h = elim (Option-cases (lookup k m)) [
  | inl missing ↦
      rw (revoke_in, missing)
        (Agrees-kept devices (mark_revoked k devices) m
          (λ j r at_j. ground (arith, at_j, missing, lookup-mark_revoked j k devices, ==_iff k j))
          h)
  | inr (r, found) ↦
      let f = h k r found in
      rw (revoke_in, found)
        (Agrees-insert devices (mark_revoked k devices) m k (record r { revoked = true })
          (record {
            own_id = f.own_id;
            e = set_device revoked f.e;
            enrolled = ground (arith, lookup-mark_revoked k k devices, f.enrolled, ==_refl k);
            same_site = f.same_site;
            same_invite = f.same_invite;
            same_capabilities = f.same_capabilities;
            status_fits = refl;
          })
          (λ j other. ground (arith, other, lookup-mark_revoked j k devices)) h)
]
