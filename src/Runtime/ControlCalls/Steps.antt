-- ===== src/Runtime/ControlCalls/Steps.antt =====
-- Each closure keeps the invariant of the snapshot, and its log.
use clew.Prelude.{ℕ, ◌≡◌, refl, ap, true, List, [], ◌∷◌, inl, inr}
use clew.Prelude.Tests.{Option-cases}
use clew.Prelude.Outcome.{Result, ok, map_err, bound, map_err-ok, ok-injective}
use clew.Prelude.Map.{Map, lookup, remove}
use clew.Prelude.Sorted.{IsSorted, insert-IsSorted, remove-IsSorted}
use clew.Core.Error.{ControlModelError}
use clew.Core.Catalog.{
  ControllerCatalog, ControllerDeviceRecord, upsert_site, register_device, rename_device,
  remove_device,
}
use clew.Core.Catalog
use clew.Core.Catalog.Validity
use clew.Core.Catalog.Validity.{revoke_device-IsConsistent, remove_device-IsConsistent}
use clew.Identity.Bootstrap.{EnrollmentError}
use clew.Identity.Records.{EnrollmentRegistry, EnrollmentDeviceRecord}
use clew.Identity.Registry.{mark_revoked, mark_all_revoked, remove_all}
use clew.Identity.Registry.Consistency.{IsConsistent}
use clew.Identity.Registry.Keeping.{IsKept}
use clew.Runtime.Snapshot.{ControllerControlSnapshot, ControlStoreError, enrollment, model}
use clew.Runtime.ControlCalls.{
  on_registry, on_catalog, revoke_if_known, revoke_listed, remove_listed,
}
use clew.Runtime.ControlCalls.Agreement.{
  Agrees, Agrees-kept, Agrees-revoke, Agrees-remove, revoke_in,
}
use clew.Runtime.ControlCalls.Sound.{IsSound, KeepsLog, KeepsLog-trans}

-- What a closure that succeeds leaves.
pub record Keeps (before after : ControllerControlSnapshot) : Type 0 where
  pub sound : IsSound after
  pub log : KeepsLog before after

pub on_registry_lem :
    {A : Type 0} (f : EnrollmentRegistry → Result EnrollmentError A × EnrollmentRegistry)
    (s s' : ControllerControlSnapshot) (a : A)
    → on_registry f s ≡ ok (a, s')
    → ((f s.registry).0 ≡ ok a) × (record s { registry = (f s.registry).1 } ≡ s')
unfolding on_registry
on_registry_lem {A} f s s' a q =
    let next : A → Result ControlStoreError (A × ControllerControlSnapshot) =
      λ x. ok (x, record s { registry = (f s.registry).1 }) in
    let (x, here, q1) = bound (map_err enrollment (f s.registry).0) next (a, s') q in
    let same : x ≡ a = ap (λ y. y.0) (ok-injective q1) in
    (rw (← same) (map_err-ok enrollment (f s.registry).0 x here), ap (λ y. y.1) (ok-injective q1))

pub on_catalog_lem :
    {A : Type 0} (f : ControllerCatalog → Result ControlModelError A × ControllerCatalog)
    (s s' : ControllerControlSnapshot) (a : A)
    → on_catalog f s ≡ ok (a, s')
    → ((f s.catalog).0 ≡ ok a) × (record s { catalog = (f s.catalog).1 } ≡ s')
unfolding on_catalog
on_catalog_lem {A} f s s' a q =
    let next : A → Result ControlStoreError (A × ControllerControlSnapshot) =
      λ x. ok (x, record s { catalog = (f s.catalog).1 }) in
    let (x, here, q1) = bound (map_err model (f s.catalog).0) next (a, s') q in
    let same : x ≡ a = ap (λ y. y.0) (ok-injective q1) in
    (rw (← same) (map_err-ok model (f s.catalog).0 x here), ap (λ y. y.1) (ok-injective q1))

module _ {A : Type 0} (s s' : ControllerControlSnapshot) (a : A) (h : IsSound s) where
  -- A method of the registry, whose change of the Devices agrees with the catalog as it is.
  pub on_registry-Keeps :
      (f : EnrollmentRegistry → Result EnrollmentError A × EnrollmentRegistry)
      → on_registry f s ≡ ok (a, s')
      → IsConsistent (f s.registry).1
      → (f s.registry).1.controller_id ≡ s.registry.controller_id
      → Agrees (f s.registry).1.devices s.catalog.devices
      → Keeps s s'
  on_registry-Keeps f q fits own agrees =
      let (_, same) = on_registry_lem f s s' a q in
      rw (← same) (record {
        sound = record {
          registry_fits = fits;
          catalog_fits = h.catalog_fits;
          sorted = h.sorted;
          agrees = agrees;
        };
        log = record { own_id = own; activity = refl; next_sequence = refl; review = refl };
      })

  -- A method of the catalog, whose change of the Devices agrees with the registry as it is.
  pub on_catalog-Keeps :
      (f : ControllerCatalog → Result ControlModelError A × ControllerCatalog)
      → on_catalog f s ≡ ok (a, s')
      → Validity.IsConsistent (f s.catalog).1
      → IsSorted (f s.catalog).1.devices
      → Agrees s.registry.devices (f s.catalog).1.devices
      → Keeps s s'
  on_catalog-Keeps f q fits sorted agrees =
      let (_, same) = on_catalog_lem f s s' a q in
      rw (← same) (record {
        sound = record {
          registry_fits = h.registry_fits;
          catalog_fits = fits;
          sorted = sorted;
          agrees = agrees;
        };
        log = record { own_id = refl; activity = refl; next_sequence = refl; review = refl };
      })

-- A registry that keeps the enrolled Devices agrees with the catalog as before.
pub Agrees-IsKept :
    (reg reg' : EnrollmentRegistry) (m : Map ControllerDeviceRecord)
    → ((j : ℕ) → IsKept j reg reg')
    → Agrees reg.devices m
    → Agrees reg'.devices m
Agrees-IsKept reg reg' m keeps h =
    Agrees-kept reg.devices reg'.devices m
      (λ j r at_j. let f = h j r at_j in (keeps j).device f.e f.enrolled) h

pub Keeps-trans : {a b c : ControllerControlSnapshot} → Keeps a b → Keeps b c → Keeps a c
Keeps-trans x y = record { sound = y.sound; log = KeepsLog-trans x.log y.log }

-- The catalog after a loop that revokes or removes Devices, beside the registry's Devices after
-- the same.
pub record IsInStep (devices : Map EnrollmentDeviceRecord) (c : ControllerCatalog) : Type 0 where
  pub fits : Validity.IsConsistent c
  pub sorted : IsSorted c.devices
  pub agrees : Agrees devices c.devices

-- One Device is revoked in the catalog, if it is there.
abbrev pub revoked_catalog : ℕ → ControllerCatalog → ControllerCatalog
revoked_catalog k c = record c { devices = revoke_in k c.devices }

revoke_if_known_lem :
    (k : ℕ) (s : ControllerControlSnapshot)
    → revoke_if_known k s ≡ ok (tt, record s { catalog = revoked_catalog k s.catalog })
unfolding revoke_if_known on_catalog Catalog.revoke_device
revoke_if_known_lem k s = elim (Option-cases (lookup k s.catalog.devices)) [
  | inl missing ↦ rw (missing, revoked_catalog, revoke_in) refl
  | inr (r, found) ↦ rw (found, revoked_catalog, revoke_in, on_catalog, Catalog.revoke_device) refl
]

pub revoked_catalog-IsInStep :
    (k : ℕ) (devices : Map EnrollmentDeviceRecord) (c : ControllerCatalog)
    → IsInStep devices c
    → IsInStep (mark_revoked k devices) (revoked_catalog k c)
unfolding Catalog.revoke_device
revoked_catalog-IsInStep k devices c h = elim (Option-cases (lookup k c.devices)) [
  | inl missing ↦ record {
    fits = rw (revoke_in, missing) h.fits;
    sorted = rw (revoke_in, missing) h.sorted;
    agrees = Agrees-revoke devices c.devices k h.agrees;
  }
  | inr (r, found) ↦ record {
    fits =
        rw (revoke_in, found)
          (rw (found, Catalog.revoke_device) at (revoke_device-IsConsistent k c h.fits));
    sorted =
        rw (revoke_in, found) (insert-IsSorted k (record r { revoked = true }) c.devices h.sorted);
    agrees = Agrees-revoke devices c.devices k h.agrees;
  }
]

pub revoke_listed_lem :
    (ks : List ℕ) (s s' : ControllerControlSnapshot) (devices : Map EnrollmentDeviceRecord)
    → revoke_listed ks s ≡ ok (tt, s')
    → IsInStep devices s.catalog
    → IsInStep (mark_all_revoked ks devices) s'.catalog × (s' ≡ record s { catalog = s'.catalog })
unfolding revoke_listed mark_all_revoked
revoke_listed_lem [] s s' devices q h =
    let same : s ≡ s' = ap (λ x. x.1) (ok-injective q) in rw (← same) (h, refl)
revoke_listed_lem (k ∷ ks) s s' devices q h =
    let t : ControllerControlSnapshot = record s { catalog = revoked_catalog k s.catalog } in
    let rest : revoke_listed ks t ≡ ok (tt, s') = rw (revoke_if_known_lem k s) at q in
    let (steps, same) =
      revoke_listed_lem ks t s' (mark_revoked k devices) rest
        (revoked_catalog-IsInStep k devices s.catalog h) in
    (steps, same)

pub remove_listed_lem :
    (ks : List ℕ) (devices : Map EnrollmentDeviceRecord) (c : ControllerCatalog)
    → IsInStep devices c
    → IsInStep (remove_all ks devices) (remove_listed ks c)
unfolding remove_listed remove_all remove_device
remove_listed_lem [] devices c h = h
remove_listed_lem (k ∷ ks) devices c h =
    remove_listed_lem ks (remove k devices) (remove_device k c).1 (record {
      fits = remove_device-IsConsistent k c h.fits;
      sorted = remove-IsSorted k c.devices h.sorted;
      agrees = Agrees-remove devices c.devices k h.agrees;
    })
