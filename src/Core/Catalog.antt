-- ===== src/Core/Catalog.antt =====
-- crates/clew-core/src/control.rs: `ControllerCatalog`, the Controller's view of its Sites and
-- Devices. A method on `&mut self` returns its result beside the catalog that it leaves.
pub mod Validity
pub mod Calls
pub mod Revocation
use clew.Prelude.{ℕ, Bool, true, false, Option, none, some, List, [], ◌∷◌}
use mathlib.Core.Logic.{ite}
use clew.Prelude.Tests.{◌==◌, if◌then◌else◌, list_eq}
use clew.Prelude.Outcome.{Result, ok, err, ◌>>◌, for_each, attempt}
use clew.Prelude.Text.{Str}
use clew.Prelude.Map.{Map, lookup, contains_key, insert, remove, values}
use clew.Core.Error.{
  ControlModelError, unknown_site, unknown_device, site_conflict, device_conflict,
}
use clew.Core.Device.{DeviceRecord, DeviceRecord-discrete, renamed}
use clew.Core.Policy.{ControllerSiteRecord, validate_site, validate_name}

pub record ControllerDeviceRecord : Type 0 where
  pub device : DeviceRecord
  pub revoked : Bool

pub record ControllerCatalog : Type 0 where
  pub sites : Map ControllerSiteRecord
  pub devices : Map ControllerDeviceRecord

abbrev pub empty_catalog : ControllerCatalog
empty_catalog = record { sites = []; devices = [] }

unfoldable pub check_device_site :
    Map ControllerSiteRecord → ControllerDeviceRecord → Result ControlModelError (Unit {0})
check_device_site sites r =
    if contains_key r.device.site_id sites then ok tt else err (unknown_site r.device.site_id)

-- ControllerCatalog::validate
unfoldable pub validate_catalog : ControllerCatalog → Result ControlModelError (Unit {0})
unfolding check_device_site
validate_catalog c =
    for_each validate_site (values c.sites)
    >> for_each (check_device_site c.sites) (values c.devices)

abbrev pub Method : Type 0 → Type 0
Method A = Result ControlModelError A × ControllerCatalog

-- `if let Some(existing) = … && existing.site_name != site.site_name`
abbrev pub site_renamed : Option ControllerSiteRecord → ControllerSiteRecord → Bool
site_renamed none site = false
site_renamed (some existing) site =
    if list_eq existing.site_name site.site_name then false else true

unfoldable pub upsert_site : ControllerSiteRecord → ControllerCatalog → Method (Unit {0})
upsert_site site c = attempt (validate_site site) c λ _.
    if site_renamed (lookup site.site_id c.sites) site
    then (err (site_conflict site.site_id), c)
    else (ok tt, record c { sites = insert site.site_id site c.sites })

abbrev pub device_changed : Option ControllerDeviceRecord → DeviceRecord → Bool
device_changed none device = false
device_changed (some existing) device =
    ite (DeviceRecord-discrete existing.device device) false true

unfoldable pub register_device : DeviceRecord → ControllerCatalog → Method (Unit {0})
register_device device c =
    if contains_key device.site_id c.sites
    then (if device_changed (lookup device.device_id c.devices) device
        then (err (device_conflict device.device_id), c)
        else (
          ok tt,
          record c {
            devices =
                insert device.device_id (record { device = device; revoked = false }) c.devices;
          },
        ))
    else (err (unknown_site device.site_id), c)

abbrev pub with_name : Str → ControllerDeviceRecord → ControllerDeviceRecord
with_name name r = record r {
  device = record r.device { display_name = name; name_origin = renamed };
}

unfoldable pub rename_device : ℕ → Str → ControllerCatalog → Method DeviceRecord
rename_device device_id display_name c = attempt (validate_name display_name) c λ name.
    elim (lookup device_id c.devices) [
      | none ↦ (err (unknown_device device_id), c)
      | some r ↦ (
        ok (with_name name r).device,
        record c { devices = insert device_id (with_name name r) c.devices },
      )
    ]

unfoldable pub revoke_device : ℕ → ControllerCatalog → Method (Unit {0})
revoke_device device_id c = elim (lookup device_id c.devices) [
  | none ↦ (err (unknown_device device_id), c)
  | some r ↦
      (ok tt, record c { devices = insert device_id (record r { revoked = true }) c.devices })
]

unfoldable pub remove_device :
    ℕ → ControllerCatalog → Option ControllerDeviceRecord × ControllerCatalog
remove_device device_id c =
    (lookup device_id c.devices, record c { devices = remove device_id c.devices })

-- The loop of `revoke_site` over the devices, with the identifiers that it collects.
unfoldable pub revoke_site_devices :
    ℕ → Map ControllerDeviceRecord → List ℕ × Map ControllerDeviceRecord
revoke_site_devices site_id [] = ([], [])
revoke_site_devices site_id ((device_id, r) ∷ m) =
    let (revoked, rest) = revoke_site_devices site_id m in
    if r.device.site_id == site_id
    then (device_id ∷ revoked, (device_id, record r { revoked = true }) ∷ rest)
    else (revoked, (device_id, r) ∷ rest)

unfoldable pub revoke_site : ℕ → ControllerCatalog → Method (List ℕ)
revoke_site site_id c = elim (lookup site_id c.sites) [
  | none ↦ (err (unknown_site site_id), c)
  | some site ↦ (
    ok (revoke_site_devices site_id c.devices).0,
    record c {
      sites = insert site_id (record site { revoked = true }) c.sites;
      devices = (revoke_site_devices site_id c.devices).1;
    },
  )
]

-- `site` and `device`, the lookups.
unfoldable pub site : ℕ → ControllerCatalog → Option ControllerSiteRecord
site site_id c = lookup site_id c.sites

unfoldable pub device : ℕ → ControllerCatalog → Option ControllerDeviceRecord
device device_id c = lookup device_id c.devices
