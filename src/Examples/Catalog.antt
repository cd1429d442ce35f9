-- ===== src/Examples/Catalog.antt =====
-- The theorems on the catalog, applied to a Site with one Device.
use clew.Prelude.{true, some, ◌≡◌, refl, false, none, List, [], ◌∷◌}
use clew.Prelude.Outcome.{ok}
use clew.Prelude.Text.{str, trim, byte_len}
use clew.Prelude.Map.{lookup, insert}
use clew.Core.Device.{DeviceSummary, from_record, DeviceRecord, execute_only, renamed}
use clew.Core.Policy.{ControllerSiteRecord, deny_all, validate_name}
use clew.Core.Catalog.{
  ControllerCatalog, validate_catalog, empty_catalog, revoke_site, rename_device,
  revoke_site_devices,
}
use clew.Core.Catalog.Calls.{
  Call, upsert, register, rename, revoke_all, perform, perform_all, validate-perform_all,
  failed_call_unchanged,
}
use clew.Core.Selection.{select_executable_device}
use clew.Core.Selection.Sound.{is_choice, select_executable_device_lem}
use clew.Prelude.Lists.{any, retain}
use clew.Prelude.Tests.{list_eq}
use clew.Core.Catalog.Revocation.{revoke_site_lem, SiteRevoked, rename_device_lem, DeviceRenamed}

abbrev lab : ControllerSiteRecord
lab = record { site_id = 20; site_name = str "Lab"; read_policy = deny_all; revoked = false }

abbrev gpu : DeviceRecord
gpu = record {
  device_id = 40;
  site_id = 20;
  display_name = str "gpu";
  hostname_observed = str "gpu";
  capabilities = execute_only;
  enrolled_via_invite_id = 30;
  name_origin = renamed;
}

abbrev catalog : ControllerCatalog
catalog = record {
  sites = (20, lab) ∷ [];
  devices = (40, record { device = gpu; revoked = false }) ∷ [];
}

abbrev calls : List Call
calls = upsert lab ∷ register gpu ∷ rename 40 (str " box ") ∷ revoke_all 20 ∷ []

revoke_all_runs : (perform (revoke_all 20) catalog).0 ≡ none
unfolding perform revoke_site lookup insert
revoke_all_runs = refl

validate-perform_all_example : validate_catalog (perform_all calls empty_catalog) ≡ ok tt
validate-perform_all_example = validate-perform_all calls

failed_call_unchanged_example : (perform (rename 41 (str "box")) catalog).1 ≡ catalog
unfolding perform rename_device lookup trim byte_len validate_name
failed_call_unchanged_example = failed_call_unchanged (rename 41 (str "box")) catalog refl

revoke_site_lem_example : SiteRevoked 20 catalog (40 ∷ []) (revoke_site 20 catalog).1
unfolding revoke_site lookup insert revoke_site_devices
revoke_site_lem_example = revoke_site_lem 20 catalog refl

rename_device_lem_example :
    DeviceRenamed 40
      (str " box ")
      catalog
      (record gpu { display_name = str "box" })
      (rename_device 40 (str " box ") catalog).1
unfolding rename_device lookup insert trim byte_len validate_name
rename_device_lem_example = rename_device_lem 40 (str " box ") catalog refl

abbrev summary : DeviceSummary
summary = record (from_record gpu (str "Lab") true) { executable = true }

select_executable_device_lem_example : any (is_choice 40) (summary ∷ []) ≡ true
unfolding from_record any select_executable_device retain trim list_eq
select_executable_device_lem_example =
    select_executable_device_lem (λ k. str "id") (λ s. none) (summary ∷ []) (some (str " Lab/gpu "))
      40 refl
