-- ===== src/Runtime/ControlCalls/Confirming.antt =====
-- The closure of `finalize_persisted` keeps the invariant of the snapshot.
use clew.Prelude.{ℕ, ◌≡◌, refl, sym, ap, false, none, some, arith, inl, inr, ◌⊎◌}
use mathlib.Core.Path.{subst₂}
use clew.Prelude.Tests.{◌==◌, ==_iff, ==_refl, Bool-cases, Option-cases}
use clew.Prelude.Outcome.{Result, ok, err, bound, ok-injective}
use clew.Prelude.Text.{Str}
use clew.Prelude.Map.{Map, lookup, insert, contains_key, lookup-insert, some_inj}
use clew.Prelude.Sorted.{insert-IsSorted}
use clew.Core.Error.{device_conflict}
use clew.Core.Device.{DeviceRecord}
use clew.Core.Catalog.{
  ControllerCatalog, ControllerDeviceRecord, upsert_site, register_device, site_renamed,
  device_changed,
}
use clew.Core.Catalog
use clew.Core.Catalog.Validity.{register_device-IsConsistent}
use clew.Identity.Keys.{Bytes}
use clew.Identity.Bootstrap.{EnrollmentError}
use clew.Identity.Records.{EnrollmentDeviceRecord, active}
use clew.Identity.Registry.{set_device, finalize_host_persist}
use clew.Identity.Registry.Consistency.{IsConsistent}
use clew.Identity.Registry.Finalize.{finalize-cases, finalize-IsConsistent, finalized, Finalized}
use clew.Runtime.Snapshot.{ControllerControlSnapshot, ControlStoreError, model}
use clew.Runtime.ControlCalls.{
  on_registry, on_catalog, finalize_persisted, put_in_catalog, device_for, differs,
}
use clew.Runtime.ControlCalls.Agreement.{Agrees, FitsEnrolment-kept, Agrees-insert}
use clew.Runtime.ControlCalls.Sound.{IsSound}
use clew.Runtime.ControlCalls.Steps.{Keeps, on_registry_lem, on_catalog_lem}

-- What `put_in_catalog` finds and leaves where it succeeds.
put_in_catalog_lem :
    (k : ℕ) (hostname : Str) (e : EnrollmentDeviceRecord) (s s' : ControllerControlSnapshot)
    (r : DeviceRecord)
    → put_in_catalog k hostname e s ≡ ok (r, s')
    → ((existing : ControllerDeviceRecord) × (lookup k s.catalog.devices ≡ some existing)
        × (differs existing e ≡ false)
        × (s ≡ s'))
      ⊎ ((lookup k s.catalog.devices ≡ none)
          × (on_catalog (register_device (device_for hostname e k)) s ≡ ok (tt, s')))
unfolding put_in_catalog Catalog.site Catalog.device
put_in_catalog_lem k hostname e s s' r q = elim (Option-cases (lookup e.site_id s.catalog.sites)) [
  | inl unknown ↦ ground (arith, unknown, q)
  | inr (site, at_site) ↦ elim (Bool-cases site.revoked) [
    | inl gone ↦ ground (arith, at_site, gone, q)
    | inr in_force ↦ elim (Option-cases (lookup k s.catalog.devices)) [
      | inr (existing, found) ↦ elim (Bool-cases (differs existing e)) [
        | inl other ↦
            let q1 : ◌≡◌ {A = Result ControlStoreError (DeviceRecord × ControllerControlSnapshot)}
                (err (model (device_conflict k))) (ok (r, s')) =
              rw (at_site, in_force, found, other) at q in
            cc
        | inr same ↦ inl (
          existing,
          found,
          same,
          ap (λ x. x.1) (ok-injective (rw (at_site, in_force, found, same) at q)),
        )
      ]
      | inl missing ↦
          let put = on_catalog (register_device (device_for hostname e k)) s in
          let after : Unit {0} × ControllerControlSnapshot
              → Result ControlStoreError (DeviceRecord × ControllerControlSnapshot) =
            λ x. ok (device_for hostname e k, x.1) in
          let (x, first, q1) = bound put after (r, s') (rw (at_site, in_force, missing) at q) in
          let last : x.1 ≡ s' = ap (λ y. y.1) (ok-injective q1) in inr (missing, rw (← last) first)
    ]
  ]
]

differs-live :
    (existing : ControllerDeviceRecord) (e : EnrollmentDeviceRecord)
    → differs existing e ≡ false
    → existing.revoked ≡ false
unfolding differs
differs-live existing e q = ground (arith, q)

-- A Device that the catalog puts in.
register_device_lem :
    (d : DeviceRecord) (c : ControllerCatalog)
    → lookup d.device_id c.devices ≡ none
    → (register_device d c).0 ≡ ok tt
    → (register_device d c).1
      ≡ record c { devices = insert d.device_id (record { device = d; revoked = false }) c.devices }
unfolding register_device
register_device_lem d c missing q = elim (Bool-cases (contains_key d.site_id c.sites)) [
  | inl known ↦ rw (known, missing, register_device) refl
  | inr unknown ↦ ground (arith, unknown, q)
]

-- The Device of a finalized claim, in the registry and in the catalog.
module _ (s : ControllerControlSnapshot) (h : IsSound s) (k : ℕ) (d : EnrollmentDeviceRecord)
    (found : lookup k s.registry.devices ≡ some d) where
  abbrev activated_devices : Map EnrollmentDeviceRecord
  activated_devices = insert k (set_device active d) s.registry.devices

  others_stay :
      (j : ℕ) → (k == j) ≡ false → lookup j activated_devices ≡ lookup j s.registry.devices
  others_stay j other =
      ground (arith, other, lookup-insert j k (set_device active d) s.registry.devices)

  at_device : lookup k activated_devices ≡ some (set_device active d)
  at_device = ground (arith, ==_refl k, lookup-insert k k (set_device active d) s.registry.devices)

  -- The Device was in the catalog.
  Agrees-activated :
      (existing : ControllerDeviceRecord)
      → lookup k s.catalog.devices ≡ some existing
      → existing.revoked ≡ false
      → Agrees activated_devices s.catalog.devices
  Agrees-activated existing at_k live j r at_j = elim (Bool-cases (k == j)) [
    | inr other ↦
        FitsEnrolment-kept s.registry.devices activated_devices j r (h.agrees j r at_j)
          (others_stay j other)
    | inl here ↦
        let same : k ≡ j = (==_iff k j).0 here in
        let is_r : existing ≡ r = some_inj existing r (rw (← at_k, same) at_j) in
        let f = h.agrees k existing at_k in
        let is_d : f.e ≡ d = some_inj f.e d (rw (← f.enrolled) found) in
        rw (← same, ← is_r)
          (record {
            own_id = f.own_id;
            e = set_device active d;
            enrolled = at_device;
            same_site = rw (← is_d) f.same_site;
            same_invite = rw (← is_d) f.same_invite;
            same_capabilities = rw (← is_d) f.same_capabilities;
            status_fits = rw live refl;
          })
  ]

  -- The Device is new in the catalog.
  Agrees-registered :
      (hostname : Str)
      → Agrees activated_devices (
          insert k
            (record { device = device_for hostname (set_device active d) k; revoked = false })
            s.catalog.devices)
  Agrees-registered hostname =
      Agrees-insert s.registry.devices activated_devices s.catalog.devices k
        (record { device = device_for hostname (set_device active d) k; revoked = false })
        (record {
          own_id = refl;
          e = set_device active d;
          enrolled = at_device;
          same_site = refl;
          same_invite = refl;
          same_capabilities = refl;
          status_fits = refl;
        })
        others_stay h.agrees

module _ (s s' : ControllerControlSnapshot) (h : IsSound s) (i k : ℕ) (token : Bytes)
    (hostname : Str) (r : DeviceRecord) where
  -- The registry has made the Device active; what is left is the catalog's part.
  confirmed :
      (f : Finalized i k token s.registry)
      → put_in_catalog k hostname
          (set_device active f.d)
          (record s { registry = finalized i k f.s f.d s.registry })
        ≡ ok (r, s')
      → IsConsistent (finalized i k f.s f.d s.registry)
      → Keeps s s'
  confirmed f q fits =
      let t : ControllerControlSnapshot = record s {
        registry = finalized i k f.s f.d s.registry;
      } in
      elim (put_in_catalog_lem k hostname (set_device active f.d) t s' r q) [
        | inl (existing, at_k, same, last) ↦ rw (← last) (record {
          sound = record {
            registry_fits = fits;
            catalog_fits = h.catalog_fits;
            sorted = h.sorted;
            agrees =
                Agrees-activated s h k f.d f.found existing at_k
                  (differs-live existing (set_device active f.d) same);
          };
          log = record { own_id = refl; activity = refl; next_sequence = refl; review = refl };
        })
        | inr (missing, put) ↦
            let new = device_for hostname (set_device active f.d) k in
            let (done, last) = on_catalog_lem (register_device new) t s' tt put in
            let same = register_device_lem new s.catalog missing done in
            rw (← last) (record {
              sound = record {
                registry_fits = fits;
                catalog_fits = register_device-IsConsistent new s.catalog h.catalog_fits;
                sorted = rw same (
                    insert-IsSorted k (record { device = new; revoked = false }) s.catalog.devices
                      h.sorted);
                agrees = rw same (Agrees-registered s h k f.d f.found hostname);
              };
              log = record { own_id = refl; activity = refl; next_sequence = refl; review = refl };
            })
      ]

  pub finalize_persisted-Keeps : finalize_persisted i k token hostname s ≡ ok (r, s') → Keeps s s'
  unfolding finalize_persisted
  finalize_persisted-Keeps q =
      let after : EnrollmentDeviceRecord × ControllerControlSnapshot
          → Result ControlStoreError (DeviceRecord × ControllerControlSnapshot) =
        λ x. put_in_catalog k hostname x.0 x.1 in
      let (one, first, q1) =
        bound (on_registry (finalize_host_persist i k token) s) after (r, s') q in
      let (answer, left) = on_registry_lem (finalize_host_persist i k token) s one.1 one.0 first in
      elim (finalize-cases i k token s.registry h.registry_fits) [
        | inl (e, failed) ↦
            let q2 : ◌≡◌ {A = Result EnrollmentError EnrollmentDeviceRecord} (err e) (ok one.0) =
              rw failed at answer in
            cc
        | inr f ↦
            let is_active : set_device active f.d ≡ one.0 = ok-injective (rw f.result at answer) in
            let is_left : record s { registry = finalized i k f.s f.d s.registry } ≡ one.1 =
              rw f.result at left in
            confirmed f
              (subst₂
                (λ (x : EnrollmentDeviceRecord) (y : ControllerControlSnapshot).
                  put_in_catalog k hostname x y ≡ ok (r, s'))
                (sym is_active) (sym is_left) q1)
              (rw f.result at (finalize-IsConsistent i k token s.registry h.registry_fits))
      ]
