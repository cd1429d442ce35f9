-- ===== src/Core/Catalog/Validity.antt =====
-- Every method of `ControllerCatalog` keeps the catalog valid, whether it succeeds or fails.
use clew.Prelude.{ℕ, ◌≡◌, refl, true, false, [], ◌∷◌, arith, inl, inr}
use clew.Prelude.Tests.{◌==◌, Bool-cases, Option-cases}
use clew.Prelude.Outcome.{Result-cases, ok, for_each}
use clew.Prelude.Text.{Str}
use clew.Prelude.Map.{
  Map, lookup, contains_key, insert, values, lookup-insert, Every, Every-insert, Every-remove,
  Every-lookup, Every-imp,
}
use clew.Core.Device.{DeviceRecord}
use clew.Core.Policy.{ControllerSiteRecord, validate_site, validate_name}
use clew.Core.Catalog.{
  ControllerDeviceRecord, ControllerCatalog, check_device_site, validate_catalog, upsert_site,
  register_device, rename_device, revoke_device, remove_device, revoke_site, revoke_site_devices,
  site_renamed, device_changed, with_name,
}

abbrev SiteFits : ℕ → ControllerSiteRecord → Type 0
SiteFits k s = (s.site_id ≡ k) × (validate_site s ≡ ok tt)

abbrev DeviceFits : Map ControllerSiteRecord → ℕ → ControllerDeviceRecord → Type 0
DeviceFits sites k r = (r.device.device_id ≡ k) × (contains_key r.device.site_id sites ≡ true)

-- Each record stands under its own identifier, each Site is valid, and each Device is at a Site
-- of the catalog.
pub record IsConsistent (c : ControllerCatalog) : Type 0 where
  pub sites_fit : Every SiteFits c.sites
  pub devices_fit : Every (DeviceFits c.sites) c.devices

for_each_sites :
    (m : Map ControllerSiteRecord) → Every SiteFits m → for_each validate_site (values m) ≡ ok tt
unfolding for_each values
for_each_sites [] h = refl
for_each_sites ((k, s) ∷ m) h = ground (arith, for_each_sites m h.1)

for_each_devices :
    (sites : Map ControllerSiteRecord) (m : Map ControllerDeviceRecord)
    → Every (DeviceFits sites) m
    → for_each (check_device_site sites) (values m) ≡ ok tt
unfolding for_each values check_device_site
for_each_devices sites [] h = refl
for_each_devices sites ((k, r) ∷ m) h = ground (arith, for_each_devices sites m h.1)

pub validate-IsConsistent : (c : ControllerCatalog) → IsConsistent c → validate_catalog c ≡ ok tt
unfolding validate_catalog
validate-IsConsistent c h =
    ground
      (arith, for_each_sites c.sites h.sites_fit, for_each_devices c.sites c.devices h.devices_fit)

-- A Site that is put into the catalog removes none.
contains_key-insert :
    (j k : ℕ) (s : ControllerSiteRecord) (m : Map ControllerSiteRecord)
    → contains_key j m ≡ true
    → contains_key j (insert k s m) ≡ true
contains_key-insert j k s m h = ground (arith, lookup-insert j k s m)

devices_fit-insert :
    (k : ℕ) (s : ControllerSiteRecord) (sites : Map ControllerSiteRecord)
    (m : Map ControllerDeviceRecord)
    → Every (DeviceFits sites) m
    → Every (DeviceFits (insert k s sites)) m
devices_fit-insert k s sites m =
    Every-imp (DeviceFits sites) (DeviceFits (insert k s sites)) m
      (λ i r h. (h.0, contains_key-insert r.device.site_id k s sites h.1))

put_site :
    {c : ControllerCatalog} (k : ℕ) (s : ControllerSiteRecord)
    → SiteFits k s
    → IsConsistent c
    → IsConsistent (record c { sites = insert k s c.sites })
put_site {c} k s f h = record {
  sites_fit = Every-insert SiteFits k s c.sites f h.sites_fit;
  devices_fit = devices_fit-insert k s c.sites c.devices h.devices_fit;
}

put_device :
    {c : ControllerCatalog} (k : ℕ) (r : ControllerDeviceRecord)
    → DeviceFits c.sites k r
    → IsConsistent c
    → IsConsistent (record c { devices = insert k r c.devices })
put_device {c} k r f h = record {
  sites_fit = h.sites_fit;
  devices_fit = Every-insert (DeviceFits c.sites) k r c.devices f h.devices_fit;
}

pub upsert_site-IsConsistent :
    (s : ControllerSiteRecord) (c : ControllerCatalog)
    → IsConsistent c
    → IsConsistent (upsert_site s c).1
unfolding upsert_site
upsert_site-IsConsistent s c h = elim (Result-cases (validate_site s)) [
  | inl (u, e) ↦ rw e (elim (Bool-cases (site_renamed (lookup s.site_id c.sites) s)) [
    | inl changed ↦ rw changed h
    | inr same ↦ rw same (put_site s.site_id s (refl, e) h)
  ])
  | inr (x, e) ↦ rw e h
]

pub register_device-IsConsistent :
    (d : DeviceRecord) (c : ControllerCatalog)
    → IsConsistent c
    → IsConsistent (register_device d c).1
unfolding register_device
register_device-IsConsistent d c h = elim (Bool-cases (contains_key d.site_id c.sites)) [
  | inl known ↦ rw known (elim (Bool-cases (device_changed (lookup d.device_id c.devices) d)) [
    | inl changed ↦ rw changed h
    | inr same ↦
        rw same (put_device d.device_id (record { device = d; revoked = false }) (refl, known) h)
  ])
  | inr unknown ↦ rw unknown h
]

pub rename_device-IsConsistent :
    (k : ℕ) (name : Str) (c : ControllerCatalog)
    → IsConsistent c
    → IsConsistent (rename_device k name c).1
unfolding rename_device
rename_device-IsConsistent k name c h = elim (Result-cases (validate_name name)) [
  | inl (n, e) ↦ rw e (elim (Option-cases (lookup k c.devices)) [
    | inl missing ↦ rw missing h
    | inr (r, found) ↦ rw found (
        put_device k (with_name n r)
          (Every-lookup (DeviceFits c.sites) k c.devices found h.devices_fit) h)
  ])
  | inr (x, e) ↦ rw e h
]

pub revoke_device-IsConsistent :
    (k : ℕ) (c : ControllerCatalog) → IsConsistent c → IsConsistent (revoke_device k c).1
unfolding revoke_device
revoke_device-IsConsistent k c h = elim (Option-cases (lookup k c.devices)) [
  | inl missing ↦ rw (missing, revoke_device) h
  | inr (r, found) ↦
      rw (found, revoke_device)
        (put_device k (record r { revoked = true })
          (Every-lookup (DeviceFits c.sites) k c.devices found h.devices_fit) h)
]

pub remove_device-IsConsistent :
    (k : ℕ) (c : ControllerCatalog) → IsConsistent c → IsConsistent (remove_device k c).1
unfolding remove_device
remove_device-IsConsistent k c h = record {
  sites_fit = h.sites_fit;
  devices_fit = Every-remove (DeviceFits c.sites) k c.devices h.devices_fit;
}

revoke_site_devices-fit :
    (k : ℕ) (sites : Map ControllerSiteRecord) (m : Map ControllerDeviceRecord)
    → Every (DeviceFits sites) m
    → Every (DeviceFits sites) (revoke_site_devices k m).1
unfolding revoke_site_devices
revoke_site_devices-fit k sites [] h = h
revoke_site_devices-fit k sites ((i, r) ∷ m) h = elim (Bool-cases (r.device.site_id == k)) [
  | inl here ↦ rw here (h.0, revoke_site_devices-fit k sites m h.1)
  | inr other ↦ rw other (h.0, revoke_site_devices-fit k sites m h.1)
]

pub revoke_site-IsConsistent :
    (k : ℕ) (c : ControllerCatalog) → IsConsistent c → IsConsistent (revoke_site k c).1
unfolding revoke_site
revoke_site-IsConsistent k c h = elim (Option-cases (lookup k c.sites)) [
  | inl missing ↦ rw (missing, revoke_site) h
  | inr (s, found) ↦
      rw (found, revoke_site)
        (put_site {c = record c { devices = (revoke_site_devices k c.devices).1 }} k
          (record s { revoked = true })
          (let f = Every-lookup SiteFits k c.sites found h.sites_fit in
            (f.0, (unfold validate_site in f.1)))
          (record {
            sites_fit = h.sites_fit;
            devices_fit = revoke_site_devices-fit k c.sites c.devices h.devices_fit;
          }))
]
