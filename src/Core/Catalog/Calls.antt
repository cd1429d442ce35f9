-- ===== src/Core/Catalog/Calls.antt =====
-- Sequences of method calls on a catalog, and what a failed call leaves.
use clew.Prelude.{ℕ, ◌≡◌, refl, Option, none, some, List, [], ◌∷◌, arith}
use clew.Prelude.Outcome.{Result, ok, err}
use clew.Prelude.Text.{Str}
use clew.Core.Error.{ControlModelError}
use clew.Core.Device.{DeviceRecord}
use clew.Core.Policy.{ControllerSiteRecord}
use clew.Core.Catalog.{
  ControllerCatalog, validate_catalog, upsert_site, register_device, rename_device, revoke_device,
  remove_device, revoke_site, empty_catalog,
}
use clew.Core.Catalog.Validity.{
  IsConsistent, validate-IsConsistent, upsert_site-IsConsistent, register_device-IsConsistent,
  rename_device-IsConsistent, revoke_device-IsConsistent, remove_device-IsConsistent,
  revoke_site-IsConsistent,
}

-- A call of a method of `ControllerCatalog` that may change it.
pub data Call : Type 0 where
  upsert : ControllerSiteRecord → Call
  register : DeviceRecord → Call
  rename : ℕ → Str → Call
  revoke : ℕ → Call
  forget : ℕ → Call
  revoke_all : ℕ → Call

abbrev done :
    {A : Type 0}
    → Result ControlModelError A × ControllerCatalog
    → Option ControlModelError × ControllerCatalog
done (ok _, c) = (none, c)
done (err e, c) = (some e, c)

-- The error of a call, if it fails, and the catalog that it leaves.
unfoldable pub perform : Call → ControllerCatalog → Option ControlModelError × ControllerCatalog
perform (upsert s) c = done (upsert_site s c)
perform (register d) c = done (register_device d c)
perform (rename k name) c = done (rename_device k name c)
perform (revoke k) c = done (revoke_device k c)
perform (forget k) c = (none, (remove_device k c).1)
perform (revoke_all k) c = done (revoke_site k c)

unfoldable pub perform_all : List Call → ControllerCatalog → ControllerCatalog
unfolding perform
perform_all [] c = c
perform_all (x ∷ xs) c = perform_all xs (perform x c).1

done-state : {A : Type 0} (m : Result ControlModelError A × ControllerCatalog) → (done m).1 ≡ m.1
done-state (ok _, c) = refl
done-state (err _, c) = refl

perform-IsConsistent :
    (x : Call) (c : ControllerCatalog) → IsConsistent c → IsConsistent (perform x c).1
unfolding perform
perform-IsConsistent (upsert s) c h =
    rw (done-state (upsert_site s c)) (upsert_site-IsConsistent s c h)
perform-IsConsistent (register d) c h =
    rw (done-state (register_device d c)) (register_device-IsConsistent d c h)
perform-IsConsistent (rename k n) c h =
    rw (done-state (rename_device k n c)) (rename_device-IsConsistent k n c h)
perform-IsConsistent (revoke k) c h =
    rw (done-state (revoke_device k c)) (revoke_device-IsConsistent k c h)
perform-IsConsistent (forget k) c h = remove_device-IsConsistent k c h
perform-IsConsistent (revoke_all k) c h =
    rw (done-state (revoke_site k c)) (revoke_site-IsConsistent k c h)

perform_all-IsConsistent :
    (xs : List Call) (c : ControllerCatalog) → IsConsistent c → IsConsistent (perform_all xs c)
unfolding perform_all
perform_all-IsConsistent [] c h = h
perform_all-IsConsistent (x ∷ xs) c h =
    perform_all-IsConsistent xs (perform x c).1 (perform-IsConsistent x c h)

-- After any sequence of method calls on an empty catalog, failed ones included, `validate`
-- succeeds: every Site is valid and every Device is at a Site of the catalog.
pub validate-perform_all :
    (xs : List Call) → validate_catalog (perform_all xs empty_catalog) ≡ ok tt
validate-perform_all xs =
    validate-IsConsistent (perform_all xs empty_catalog)
      (perform_all-IsConsistent xs empty_catalog (record { sites_fit = tt; devices_fit = tt }))

-- A method call that fails leaves the catalog as it was.
pub failed_call_unchanged :
    (x : Call) (c : ControllerCatalog) {e : ControlModelError}
    → (perform x c).0 ≡ some e
    → (perform x c).1 ≡ c
unfolding perform upsert_site register_device rename_device revoke_device revoke_site
failed_call_unchanged (upsert s) c h = ground arith
failed_call_unchanged (register d) c h = ground arith
failed_call_unchanged (rename k n) c h = ground arith
failed_call_unchanged (revoke k) c h = ground arith
failed_call_unchanged (forget k) c h = cc
failed_call_unchanged (revoke_all k) c h = ground arith
