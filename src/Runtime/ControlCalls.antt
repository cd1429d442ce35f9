-- ===== src/Runtime/ControlCalls.antt =====
-- crates/clew-runtime/src/local_api.rs and remote.rs: the closures that run in a `transaction` of
-- the control store, each of which changes the registry and the catalog together. A closure that
-- fails leaves the snapshot: `transaction` drops its copy.
pub mod Agreement
pub mod Calls
pub mod Confirming
pub mod History
pub mod Joining
pub mod Steps
pub mod Sound
use clew.Prelude.{ℕ, Bool, true, false, not, ◌||◌, Option, none, some, List, [], ◌∷◌}
use clew.Prelude.Tests.{◌==◌, if◌then◌else◌}
use clew.Prelude.Outcome.{Result, ok, err, ◌>>=◌, ◌>>◌, reject, ok_or, map_err}
use clew.Prelude.Text.{Str}
use clew.Prelude.Map.{contains_key}
use clew.Core.Error.{ControlModelError, unknown_site, device_conflict}
use clew.Core.Device.{DeviceRecord, automatic}
use clew.Core.Policy.{ControllerSiteRecord}
use clew.Core.Catalog.{
  ControllerCatalog, ControllerDeviceRecord, upsert_site, register_device, rename_device,
  remove_device,
}
use clew.Core.Catalog
use clew.Identity.Grant.{PermissionGrant, full_grant, connector_only_grant}
use clew.Identity.Keys.{Bytes, Crypto, DevicePublicIdentity}
use clew.Identity.Bootstrap.{BootstrapJson, SignedSiteBootstrapPass, EnrollmentError}
use clew.Identity.Records.{EnrollmentRegistry, EnrollmentReceipt, EnrollmentDeviceRecord}
use clew.Identity.Registry.{
  finalize_host_persist, close_invite, revoke_invite, delete_invite_history,
}
use clew.Identity.Registry
use clew.Identity.Registry.Claims.{Draws}
use clew.Identity.Registry.Passes.{claim_with_ceiling, register_pass}
use clew.Runtime.Snapshot.{
  ControlStoreError, model, enrollment, ControllerControlSnapshot, same_member,
}
use clew.Runtime.ControlStore.Transaction.{Mutation}

-- `snapshot.registry.f()?`
unfoldable pub on_registry :
    {A : Type 0} → (EnrollmentRegistry → Result EnrollmentError A × EnrollmentRegistry) → Mutation A
on_registry f s =
    let (answer, registry) = f s.registry in
    map_err enrollment answer >>= (λ a. ok (a, record s { registry = registry }))

-- `snapshot.catalog.f()?`
unfoldable pub on_catalog :
    {A : Type 0} → (ControllerCatalog → Result ControlModelError A × ControllerCatalog) → Mutation A
on_catalog f s =
    let (answer, catalog) = f s.catalog in
    map_err model answer >>= (λ a. ok (a, record s { catalog = catalog }))

-- InviteClose, and the answer to a kit that fails after its invite was issued.
unfoldable pub close_invite_call : ℕ → Mutation (Unit {0})
unfolding on_registry
close_invite_call invite_id = on_registry (close_invite invite_id)

unfoldable pub revoke_if_known : ℕ → Mutation (Unit {0})
unfolding on_catalog
revoke_if_known device_id s =
    if contains_key device_id s.catalog.devices
    then on_catalog (Catalog.revoke_device device_id) s
    else ok (tt, s)

unfoldable pub revoke_listed : List ℕ → Mutation (Unit {0})
unfolding revoke_if_known
revoke_listed [] s = ok (tt, s)
revoke_listed (k ∷ ks) s = do one ← revoke_if_known k s; revoke_listed ks one.1

-- InviteRevoke
unfoldable pub revoke_invite_call : ℕ → Mutation (List ℕ)
unfolding on_registry revoke_listed
revoke_invite_call invite_id s = do
  one ← on_registry (revoke_invite invite_id) s
  two ← revoke_listed one.0 one.1
  ok (one.0, two.1)

unfoldable pub remove_listed : List ℕ → ControllerCatalog → ControllerCatalog
remove_listed [] c = c
remove_listed (k ∷ ks) c = remove_listed ks (remove_device k c).1

-- InviteDelete
unfoldable pub delete_invite_call : ℕ → Mutation (List ℕ)
unfolding on_registry remove_listed
delete_invite_call invite_id s = do
  one ← on_registry (delete_invite_history invite_id) s
  ok (one.0, record one.1 { catalog = remove_listed one.0 one.1.catalog })

-- DeviceRename
unfoldable pub rename_device_call : ℕ → Str → Mutation DeviceRecord
unfolding on_catalog
rename_device_call device_id display_name = on_catalog (rename_device device_id display_name)

-- DeviceRevoke
unfoldable pub revoke_device_call : ℕ → Mutation (Unit {0})
unfolding on_registry on_catalog
revoke_device_call device_id s = do
  one ← on_registry (Registry.revoke_device device_id) s
  on_catalog (Catalog.revoke_device device_id) one.1

-- The Device that `finalize_persisted` registers.
abbrev pub device_for : Str → EnrollmentDeviceRecord → ℕ → DeviceRecord
device_for hostname enrolled device_id = record {
  device_id = device_id;
  site_id = enrolled.site_id;
  display_name = hostname;
  hostname_observed = hostname;
  capabilities = enrolled.effective_grant.member;
  enrolled_via_invite_id = enrolled.invite_id;
  name_origin = automatic hostname false 0;
}

-- The catalog has the Device otherwise than the registry.
unfoldable pub differs : ControllerDeviceRecord → EnrollmentDeviceRecord → Bool
unfolding same_member
differs existing enrolled =
    not (existing.device.site_id == enrolled.site_id)
    || not (existing.device.enrolled_via_invite_id == enrolled.invite_id)
    || not (same_member existing.device.capabilities enrolled.effective_grant.member)
    || existing.revoked

-- `finalize_persisted`, after the registry's part.
unfoldable pub put_in_catalog : ℕ → Str → EnrollmentDeviceRecord → Mutation DeviceRecord
unfolding on_catalog differs
put_in_catalog device_id hostname enrolled s = do
  site ← ok_or (Catalog.site enrolled.site_id s.catalog) (model (unknown_site enrolled.site_id))
  reject site.revoked (model (unknown_site enrolled.site_id))
  elim (Catalog.device device_id s.catalog) [
    | some existing ↦ do
      reject (differs existing enrolled) (model (device_conflict device_id))
      ok (existing.device, s)
    | none ↦ do
      put ← on_catalog (register_device (device_for hostname enrolled device_id)) s
      ok (device_for hostname enrolled device_id, put.1)
  ]

-- `finalize_persisted`, given the normalized hostname.
unfoldable pub finalize_persisted : ℕ → ℕ → Bytes → Str → Mutation DeviceRecord
unfolding on_registry put_in_catalog
finalize_persisted invite_id device_id token hostname s = do
  enrolled ← on_registry (finalize_host_persist invite_id device_id token) s
  put_in_catalog device_id hostname enrolled.0 enrolled.1

pub data BootstrapMemberMode : Type 0 where
  execute_preferred connector_only : BootstrapMemberMode

abbrev pub claim_ceiling : BootstrapMemberMode → PermissionGrant
claim_ceiling execute_preferred = full_grant
claim_ceiling connector_only = connector_only_grant

module _ (crypto : Crypto) (serde : BootstrapJson) where
  -- The commit of `issue_invite_response`.
  unfoldable pub issue_invite_call :
      ControllerSiteRecord → SignedSiteBootstrapPass → Mutation (Unit {0})
  unfolding on_registry on_catalog
  issue_invite_call site pass s = do
    one ← on_catalog (upsert_site site) s
    on_registry (register_pass crypto serde pass) one.1

  -- The claim of a bootstrap connection. No draw of an identifier is free: `none`.
  unfoldable pub claim_call :
      SignedSiteBootstrapPass
      → DevicePublicIdentity
      → ℕ
      → BootstrapMemberMode
      → Draws
      → ControllerControlSnapshot
      → Option (Result ControlStoreError (EnrollmentReceipt × ControllerControlSnapshot))
  unfolding on_registry
  claim_call pass device now mode draws s =
      elim (claim_with_ceiling crypto serde pass device now (claim_ceiling mode) draws s.registry) [
        | none ↦ none
        | some answer ↦ some (on_registry (λ _. answer) s)
      ]
