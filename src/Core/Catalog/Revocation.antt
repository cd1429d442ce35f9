-- ===== src/Core/Catalog/Revocation.antt =====
-- What revocation and renaming do to each Device of the catalog.
use clew.Prelude.{
  inl, inr, ℕ, ◌≡◌, ◌≤◌, refl, Bool, true, false, not, ◌||◌, Option, none, some, List, [], ◌∷◌,
  arith,
}
use clew.Prelude.Tests.{◌==◌, if◌then◌else◌, Option-cases}
use clew.Prelude.Outcome.{ok}
use clew.Prelude.Lists.{mem_ℕ, is_empty}
use clew.Prelude.Text.{Str, trim, byte_len}
use clew.Prelude.Map.{Map, map_option, lookup, lookup-insert}
use clew.Core.Device.{DeviceRecord, renamed}
use clew.Core.Policy.{ControllerSiteRecord, validate_name}
use clew.Core.Catalog.{
  ControllerDeviceRecord, ControllerCatalog, revoke_site, revoke_site_devices, rename_device,
}

-- A Device's record after its Site `k` is revoked.
abbrev pub revoked_with : ℕ → ControllerDeviceRecord → ControllerDeviceRecord
revoked_with k r = if r.device.site_id == k then record r { revoked = true } else r

lookup-revoke_site_devices :
    (k i : ℕ) (m : Map ControllerDeviceRecord)
    → lookup i (revoke_site_devices k m).1 ≡ map_option (revoked_with k) (lookup i m)
unfolding lookup revoke_site_devices
lookup-revoke_site_devices k i [] = refl
lookup-revoke_site_devices k i ((j, r) ∷ m) = ground (arith, lookup-revoke_site_devices k i m)

listed-revoke_site_devices :
    (k i : ℕ) (m : Map ControllerDeviceRecord) (r : ControllerDeviceRecord)
    → lookup i m ≡ some r
    → r.device.site_id ≡ k
    → mem_ℕ i (revoke_site_devices k m).0 ≡ true
unfolding lookup revoke_site_devices
listed-revoke_site_devices k i [] r h e = cc
listed-revoke_site_devices k i ((j, s) ∷ m) r h e =
    ground (arith, listed-revoke_site_devices k i m r)

abbrev revoked_record : ControllerSiteRecord → ControllerSiteRecord
revoked_record s = record s { revoked = true }

-- A Device at the Site `k` is among the listed ones.
abbrev is_listed : ℕ → List ℕ → ℕ → Option ControllerDeviceRecord → Bool
is_listed i ids k none = true
is_listed i ids k (some r) = not (r.device.site_id == k) || mem_ℕ i ids

is_listed-revoke_site_devices :
    (k i : ℕ) (m : Map ControllerDeviceRecord)
    → is_listed i (revoke_site_devices k m).0 k (lookup i m) ≡ true
is_listed-revoke_site_devices k i m = elim (Option-cases (lookup i m)) [
  | inl missing ↦ rw missing
  | inr (r, found) ↦ rw found (ground (arith, listed-revoke_site_devices k i m r found))
]

-- A catalog whose Site `k` was revoked, with the listed Devices.
abbrev pub SiteRevoked : ℕ → ControllerCatalog → List ℕ → ControllerCatalog → Type 0
SiteRevoked k c ids after =
    (lookup k after.sites ≡ map_option revoked_record (lookup k c.sites))
    × ((i : ℕ) → lookup i after.devices ≡ map_option (revoked_with k) (lookup i c.devices))
    × ((i : ℕ) → is_listed i ids k (lookup i c.devices) ≡ true)

-- Revoking a Site that the catalog has marks the Site and every Device at it as revoked, leaves
-- every other Device as it was, and lists the identifier of every Device at the Site.
pub revoke_site_lem :
    (k : ℕ) (c : ControllerCatalog) {ids : List ℕ}
    → (revoke_site k c).0 ≡ ok ids
    → SiteRevoked k c ids (revoke_site k c).1
unfolding revoke_site
revoke_site_lem k c {ids} h = elim (Option-cases (lookup k c.sites)) [
  | inl missing ↦ absurd (ground arith)
  | inr (s, found) ↦ (
    ground (arith, lookup-insert k k (record s { revoked = true }) c.sites),
    λ i. ground (arith, lookup-revoke_site_devices k i c.devices),
    λ i. ground (arith, is_listed-revoke_site_devices k i c.devices),
  )
]

-- A catalog whose Device `k` was renamed to `d`, the name trimmed and of 1 to 128 bytes.
abbrev pub DeviceRenamed : ℕ → Str → ControllerCatalog → DeviceRecord → ControllerCatalog → Type 0
DeviceRenamed k name c d after =
    (r : ControllerDeviceRecord) × (lookup k c.devices ≡ some r)
    × (d ≡ record r.device { display_name = trim name; name_origin = renamed })
    × (is_empty (trim name) ≡ false)
    × (byte_len (trim name) ≤ 128)
    × ((i : ℕ)
        → lookup i after.devices
          ≡ (if k == i then some (record r { device = d }) else lookup i c.devices))

-- A rename that succeeds stores the trimmed name, of 1 to 128 bytes, marks the name as chosen,
-- keeps the Device's Site, capabilities and revocation, and touches no other Device.
pub rename_device_lem :
    (k : ℕ) (name : Str) (c : ControllerCatalog) {d : DeviceRecord}
    → (rename_device k name c).0 ≡ ok d
    → DeviceRenamed k name c d (rename_device k name c).1
unfolding rename_device validate_name
rename_device_lem k name c {d} h = elim (Option-cases (lookup k c.devices)) [
  | inl missing ↦ absurd (ground arith)
  | inr (r, found) ↦ (
    r,
    found,
    ground arith,
    ground arith,
    ground arith,
    λ i. ground (arith, lookup-insert i k (record r { device = d }) c.devices),
  )
]
