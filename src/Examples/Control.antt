-- ===== src/Examples/Control.antt =====
-- The theorem on requests to a Controller, applied to the enrolment of one Host.
use clew.Prelude.{◌≡◌, refl, Bool, true, false, some, List, [], ◌∷◌}
use clew.Prelude.Map.{map_option, lookup, insert}
use clew.Prelude.Text.{Str, str}
use clew.Core.Policy.{ControllerSiteRecord}
use clew.Core.Catalog.{ControllerDeviceRecord, register_device}
use clew.Core.Catalog
use clew.Identity.Registry
use clew.Identity.Registry.{finalize_host_persist, finalize_claim}
use clew.Runtime.Snapshot.{initial, ControllerControlSnapshot}
use clew.Runtime.ControlCalls.{execute_preferred}
use clew.Runtime.ControlCalls.History.{
  Request, issue, enroll, confirm, rename, revoke, serve, IsServed, serve_lem,
}
use clew.Examples.Toy.{toy, toy_json, toy_id, pass, device, draws, token, claimed_registry}

abbrev lab : ControllerSiteRecord
lab = record {
  site_id = 20;
  site_name = str "Lab";
  read_policy = record {
    all_filesystem = true;
    roots = [];
    max_result_bytes = 1_024;
    timeout_ms = 1_000;
  };
  revoked = false;
}

-- An invite is issued, a Host claims it and confirms, and its Device is renamed and revoked.
abbrev requests : List Request
requests =
    issue lab pass
    ∷ enroll pass device 100 execute_preferred draws
    ∷ confirm 30 40 token (str "bench-2")
    ∷ rename 40 (str " Bench ")
    ∷ revoke 40
    ∷ []

-- From the claim on.
abbrev claimed : ControllerControlSnapshot
claimed = record (initial toy_id) {
  registry = claimed_registry;
  catalog = record { sites = (20, lab) ∷ []; devices = [] };
}

confirm_runs :
    map_option {B = Str × Bool}
      (λ (r : ControllerDeviceRecord). (r.device.display_name, r.revoked))
      (lookup 40
        (serve toy toy_json
          (confirm 30 40 token (str "bench-2") ∷ revoke 40 ∷ [])
          claimed).catalog.devices)
    ≡ some (str "bench-2", true)
unfolding serve initial lookup insert finalize_host_persist finalize_claim Registry.revoke_device
    Catalog.revoke_device Catalog.site Catalog.device register_device
confirm_runs = refl

serve_lem_example : IsServed toy_id (serve toy toy_json requests (initial toy_id))
serve_lem_example = serve_lem toy toy_json toy_id requests
