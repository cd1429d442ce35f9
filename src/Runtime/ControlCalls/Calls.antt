-- ===== src/Runtime/ControlCalls/Calls.antt =====
-- Every closure that changes registry and catalog keeps the invariant of the snapshot.
use clew.Prelude.{ℕ, ◌≡◌, refl, sym, ap, subst, List, arith, inl, inr}
use clew.Prelude.Tests.{Option-cases}
use clew.Prelude.Outcome.{Result, ok, ◌>>=◌, bound, ok-injective, Result-cases}
use clew.Prelude.Text.{Str}
use clew.Prelude.Map.{lookup}
use clew.Prelude.Sorted.{IsSorted, insert-IsSorted}
use clew.Core.Device.{DeviceRecord}
use clew.Core.Policy.{validate_name}
use clew.Core.Catalog.{
  ControllerCatalog, ControllerDeviceRecord, upsert_site, register_device, rename_device,
  site_renamed, with_name,
}
use clew.Core.Catalog
use clew.Core.Catalog.Validity.{rename_device-IsConsistent}
use clew.Identity.Registry.{
  mark_revoked, mark_all_revoked, remove_all, revoke_invite, delete_invite_history, close_invite,
  set_device,
}
use clew.Identity.Registry
use clew.Identity.Registry.Statuses.{revoke_device-IsConsistent}
use clew.Identity.Registry.Calls.{close_invite-IsConsistent}
use clew.Identity.Registry.Withdrawal.{revoke_invite-IsConsistent}
use clew.Identity.Registry.Deletion.{delete-IsConsistent}
use clew.Identity.Registry.Keeping.{
  close_invite-IsKept, revoke_invite-own_id, delete-own_id, revoke_device-own_id,
}
use clew.Runtime.Snapshot.{ControllerControlSnapshot, ControlStoreError}
use clew.Runtime.ControlCalls.{
  on_registry, on_catalog, revoke_listed, remove_listed, close_invite_call, revoke_invite_call,
  delete_invite_call, rename_device_call, revoke_device_call,
}
use clew.Runtime.ControlCalls.Agreement.{revoke_in, Agrees, Agrees-insert}
use clew.Runtime.ControlCalls.Sound.{IsSound}
use clew.Runtime.ControlCalls.Steps.{
  Agrees-IsKept, Keeps, on_registry-Keeps, on_catalog-Keeps, on_registry_lem, on_catalog_lem,
  revoked_catalog, revoked_catalog-IsInStep, IsInStep, revoke_listed_lem, remove_listed_lem,
}

module _ (s s' : ControllerControlSnapshot) (h : IsSound s) where
  pub close_invite_call-Keeps : (i : ℕ) → close_invite_call i s ≡ ok (tt, s') → Keeps s s'
  unfolding close_invite_call
  close_invite_call-Keeps i q =
      let k = λ (j : ℕ). close_invite-IsKept i j s.registry in
      on_registry-Keeps s s' tt h (close_invite i) q
        (close_invite-IsConsistent i s.registry h.registry_fits) (k 0).own_id
        (Agrees-IsKept s.registry (close_invite i s.registry).1 s.catalog.devices k h.agrees)

  rename_device-IsSorted :
      (k : ℕ) (name : Str) → IsSorted (rename_device k name s.catalog).1.devices
  unfolding rename_device
  rename_device-IsSorted k name = elim (Result-cases (validate_name name)) [
    | inr (x, e) ↦ rw e h.sorted
    | inl (n, e) ↦ elim (Option-cases (lookup k s.catalog.devices)) [
      | inl missing ↦ rw (e, missing) h.sorted
      | inr (r, found) ↦
          rw (e, found) (insert-IsSorted k (with_name n r) s.catalog.devices h.sorted)
    ]
  ]

  Agrees-rename_device :
      (k : ℕ) (name : Str) → Agrees s.registry.devices (rename_device k name s.catalog).1.devices
  unfolding rename_device
  Agrees-rename_device k name = elim (Result-cases (validate_name name)) [
    | inr (x, e) ↦ rw e h.agrees
    | inl (n, e) ↦ elim (Option-cases (lookup k s.catalog.devices)) [
      | inl missing ↦ rw (e, missing) h.agrees
      | inr (r, found) ↦
          let f = h.agrees k r found in
          rw (e, found)
            (Agrees-insert s.registry.devices s.registry.devices s.catalog.devices k (with_name n r)
              (record {
                own_id = f.own_id;
                e = f.e;
                enrolled = f.enrolled;
                same_site = f.same_site;
                same_invite = f.same_invite;
                same_capabilities = f.same_capabilities;
                status_fits = f.status_fits;
              })
              (λ j other. refl) h.agrees)
    ]
  ]

  pub rename_device_call-Keeps :
      (k : ℕ) (name : Str) (d : DeviceRecord)
      → rename_device_call k name s ≡ ok (d, s')
      → Keeps s s'
  unfolding rename_device_call
  rename_device_call-Keeps k name d q =
      on_catalog-Keeps s s' d h (rename_device k name) q
        (rename_device-IsConsistent k name s.catalog h.catalog_fits) (rename_device-IsSorted k name)
        (Agrees-rename_device k name)

  -- What the registry's part of a revoked or deleted invite leaves.
  revoke_invite-lem :
      (i : ℕ) (ids : List ℕ)
      → (revoke_invite i s.registry).0 ≡ ok ids
      → (revoke_invite i s.registry).1.devices ≡ mark_all_revoked ids s.registry.devices
  unfolding revoke_invite
  revoke_invite-lem i ids q = elim (Option-cases (lookup i s.registry.invites)) [
    | inl missing ↦ ground (arith, missing, q)
    | inr (state, found) ↦ ground (arith, found, q)
  ]

  delete_invite-lem :
      (i : ℕ) (ids : List ℕ)
      → (delete_invite_history i s.registry).0 ≡ ok ids
      → (delete_invite_history i s.registry).1.devices ≡ remove_all ids s.registry.devices
  unfolding delete_invite_history
  delete_invite-lem i ids q = elim (Option-cases (lookup i s.registry.invites)) [
    | inl missing ↦ ground (arith, missing, q)
    | inr (state, found) ↦ ground (arith, found, q)
  ]

  in_step : IsInStep s.registry.devices s.catalog
  in_step = record { fits = h.catalog_fits; sorted = h.sorted; agrees = h.agrees }

  pub revoke_invite_call-Keeps :
      (i : ℕ) (ids : List ℕ) → revoke_invite_call i s ≡ ok (ids, s') → Keeps s s'
  unfolding revoke_invite_call
  revoke_invite_call-Keeps i ids q =
      let after : List ℕ × ControllerControlSnapshot
          → Result ControlStoreError (List ℕ × ControllerControlSnapshot) =
        λ one. revoke_listed one.0 one.1 >>= (λ two. ok (one.0, two.1)) in
      let (one, first, q1) = bound (on_registry (revoke_invite i) s) after (ids, s') q in
      let (two, second, q2) =
        bound (revoke_listed one.0 one.1) (λ x. ok (one.0, x.1)) (ids, s') q1 in
      let (answer, left) = on_registry_lem (revoke_invite i) s one.1 one.0 first in
      let devices = revoke_invite-lem i one.0 answer in
      let last : two.1 ≡ s' = ap (λ x. x.1) (ok-injective q2) in
      let (steps, same) =
        revoke_listed_lem one.0 one.1 two.1 s.registry.devices second (rw (← left) in_step) in
      rw (← last, same, ← left)
        (record {
          sound = record {
            registry_fits = revoke_invite-IsConsistent i s.registry h.registry_fits;
            catalog_fits = steps.fits;
            sorted = steps.sorted;
            agrees = rw devices steps.agrees;
          };
          log = record {
            own_id = revoke_invite-own_id i s.registry;
            activity = refl;
            next_sequence = refl;
            review = refl;
          };
        })

  pub delete_invite_call-Keeps :
      (i : ℕ) (ids : List ℕ) → delete_invite_call i s ≡ ok (ids, s') → Keeps s s'
  unfolding delete_invite_call
  delete_invite_call-Keeps i ids q =
      let after : List ℕ × ControllerControlSnapshot
          → Result ControlStoreError (List ℕ × ControllerControlSnapshot) =
        λ one. ok (one.0, record one.1 { catalog = remove_listed one.0 one.1.catalog }) in
      let (one, first, q1) = bound (on_registry (delete_invite_history i) s) after (ids, s') q in
      let (answer, left) = on_registry_lem (delete_invite_history i) s one.1 one.0 first in
      let devices = delete_invite-lem i one.0 answer in
      let last : record one.1 { catalog = remove_listed one.0 one.1.catalog } ≡ s' =
        ap (λ x. x.1) (ok-injective q1) in
      let steps = remove_listed_lem one.0 s.registry.devices s.catalog in_step in
      rw (← last, ← left)
        (record {
          sound = record {
            registry_fits = delete-IsConsistent i s.registry h.registry_fits;
            catalog_fits = steps.fits;
            sorted = steps.sorted;
            agrees = rw devices steps.agrees;
          };
          log = record {
            own_id = delete-own_id i s.registry;
            activity = refl;
            next_sequence = refl;
            review = refl;
          };
        })

  revoke_device-lem :
      (k : ℕ)
      → (Registry.revoke_device k s.registry).0 ≡ ok tt
      → (Registry.revoke_device k s.registry).1.devices ≡ mark_revoked k s.registry.devices
  unfolding Registry.revoke_device mark_revoked
  revoke_device-lem k q = elim (Option-cases (lookup k s.registry.devices)) [
    | inl missing ↦ ground (arith, missing, q)
    | inr (d, found) ↦ rw (found, mark_revoked) refl
  ]

  revoked_catalog-lem :
      (k : ℕ)
      → (Catalog.revoke_device k s.catalog).0 ≡ ok tt
      → (Catalog.revoke_device k s.catalog).1 ≡ revoked_catalog k s.catalog
  unfolding Catalog.revoke_device
  revoked_catalog-lem k q = elim (Option-cases (lookup k s.catalog.devices)) [
    | inl missing ↦ ground (arith, missing, q)
    | inr (r, found) ↦ rw (found, revoked_catalog, Catalog.revoke_device, revoke_in) refl
  ]

  pub revoke_device_call-Keeps : (k : ℕ) → revoke_device_call k s ≡ ok (tt, s') → Keeps s s'
  unfolding revoke_device_call
  revoke_device_call-Keeps k q =
      let after : Unit {0} × ControllerControlSnapshot
          → Result ControlStoreError (Unit {0} × ControllerControlSnapshot) =
        λ one. on_catalog (Catalog.revoke_device k) one.1 in
      let (one, first, q1) = bound (on_registry (Registry.revoke_device k) s) after (tt, s') q in
      let (answer, left) = on_registry_lem (Registry.revoke_device k) s one.1 tt first in
      let q2 : on_catalog (Catalog.revoke_device k)
            (record s { registry = (Registry.revoke_device k s.registry).1 })
          ≡ ok (tt, s') =
        subst
          (λ (x : ControllerControlSnapshot). on_catalog (Catalog.revoke_device k) x ≡ ok (tt, s'))
          (sym left) q1 in
      let (done, last) =
        on_catalog_lem (Catalog.revoke_device k)
          (record s { registry = (Registry.revoke_device k s.registry).1 }) s' tt q2 in
      let steps = revoked_catalog-IsInStep k s.registry.devices s.catalog in_step in
      rw (← last, revoked_catalog-lem k done)
        (record {
          sound = record {
            registry_fits = revoke_device-IsConsistent k s.registry h.registry_fits;
            catalog_fits = steps.fits;
            sorted = steps.sorted;
            agrees = rw (revoke_device-lem k answer) steps.agrees;
          };
          log = record {
            own_id = revoke_device-own_id k s.registry;
            activity = refl;
            next_sequence = refl;
            review = refl;
          };
        })
