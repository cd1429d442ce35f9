-- ===== src/Runtime/ControlCalls/Joining.antt =====
-- The closures by which a Device joins keep the invariant of the snapshot: the commit of an issued
-- invite, a claim, and the confirmation of a Host.
use clew.Prelude.{ℕ, ◌≡◌, some, arith, inl, inr}
use clew.Prelude.Tests.{Option-cases}
use clew.Prelude.Outcome.{Result, ok, bound}
use clew.Prelude.Map.{some_inj}
use clew.Core.Policy.{ControllerSiteRecord}
use clew.Core.Catalog.{ControllerCatalog, upsert_site}
use clew.Core.Catalog.Validity.{upsert_site-IsConsistent}
use clew.Identity.Keys.{Crypto, DevicePublicIdentity}
use clew.Identity.Bootstrap.{BootstrapJson, SignedSiteBootstrapPass, EnrollmentError}
use clew.Identity.Records.{EnrollmentRegistry, EnrollmentReceipt}
use clew.Identity.Registry.Claims.{Draws}
use clew.Identity.Registry.Consistency.{IsConsistent}
use clew.Identity.Registry.Enrolling.{register_pass-IsConsistent}
use clew.Identity.Registry.Claiming.{claim-IsConsistent}
use clew.Identity.Registry.Keeping.{IsKept, claim-IsKept, register_pass-IsKept}
use clew.Identity.Registry.Passes.{claim_with_ceiling, register_pass}
use clew.Runtime.Snapshot.{ControllerControlSnapshot, ControlStoreError}
use clew.Runtime.ControlCalls.{
  on_registry, on_catalog, issue_invite_call, claim_call, claim_ceiling, BootstrapMemberMode,
}
use clew.Runtime.ControlCalls.Sound.{IsSound}
use clew.Runtime.ControlCalls.Steps.{
  Agrees-IsKept, Keeps, Keeps-trans, on_registry-Keeps, on_catalog-Keeps,
}

upsert_site-devices :
    (site : ControllerSiteRecord) (c : ControllerCatalog)
    → (upsert_site site c).1.devices ≡ c.devices
unfolding upsert_site
upsert_site-devices site c = ground arith

module _ (crypto : Crypto) (serde : BootstrapJson) (s s' : ControllerControlSnapshot)
    (h : IsSound s) where
  pub issue_invite_call-Keeps :
      (site : ControllerSiteRecord) (pass : SignedSiteBootstrapPass)
      → issue_invite_call crypto serde site pass s ≡ ok (tt, s')
      → Keeps s s'
  unfolding issue_invite_call
  issue_invite_call-Keeps site pass q =
      let after : Unit {0} × ControllerControlSnapshot
          → Result ControlStoreError (Unit {0} × ControllerControlSnapshot) =
        λ one. on_registry (register_pass crypto serde pass) one.1 in
      let (one, first, second) = bound (on_catalog (upsert_site site) s) after (tt, s') q in
      let same = upsert_site-devices site s.catalog in
      let x =
        on_catalog-Keeps s one.1 tt h (upsert_site site) first
          (upsert_site-IsConsistent site s.catalog h.catalog_fits) (rw same h.sorted)
          (rw same h.agrees) in
      let k = λ (j : ℕ). register_pass-IsKept crypto serde pass one.1.registry j in
      Keeps-trans x (
        on_registry-Keeps one.1 s' tt x.sound (register_pass crypto serde pass) second
          (register_pass-IsConsistent crypto serde pass one.1.registry x.sound.registry_fits)
          (k 0).own_id
          (Agrees-IsKept one.1.registry (register_pass crypto serde pass one.1.registry).1
            one.1.catalog.devices k x.sound.agrees))

  -- A claim that answers.
  answered :
      (pass : SignedSiteBootstrapPass) (device : DevicePublicIdentity) (now : ℕ)
      (mode : BootstrapMemberMode) (draws : Draws)
      (answer : Result EnrollmentError EnrollmentReceipt × EnrollmentRegistry)
      (r : EnrollmentReceipt)
      → claim_with_ceiling crypto serde pass device now (claim_ceiling mode) draws s.registry
        ≡ some answer
      → on_registry (λ _. answer) s ≡ ok (r, s')
      → Keeps s s'
  answered pass device now mode draws answer r at_answer q =
      let ceiling = claim_ceiling mode in
      let fits : IsConsistent answer.1 = rw at_answer at (
        claim-IsConsistent crypto serde pass device now ceiling draws s.registry h.registry_fits) in
      let keeps : (j : ℕ) → IsKept j s.registry answer.1 = λ j.
        rw at_answer at (claim-IsKept j s.registry crypto serde pass device now ceiling draws) in
      on_registry-Keeps s s' r h (λ _. answer) q fits (keeps 0).own_id
        (Agrees-IsKept s.registry answer.1 s.catalog.devices keeps h.agrees)

  pub claim_call-Keeps :
      (pass : SignedSiteBootstrapPass) (device : DevicePublicIdentity) (now : ℕ)
      (mode : BootstrapMemberMode) (draws : Draws) (r : EnrollmentReceipt)
      → claim_call crypto serde pass device now mode draws s ≡ some (ok (r, s'))
      → Keeps s s'
  unfolding claim_call
  claim_call-Keeps pass device now mode draws r q =
      elim (Option-cases
        (claim_with_ceiling crypto serde pass device now (claim_ceiling mode) draws s.registry)) [
          | inl none_free ↦ ground (arith, q, none_free)
          | inr (answer, at_answer) ↦ answered pass device now mode draws answer r at_answer (
              some_inj (on_registry (λ _. answer) s) (ok (r, s')) (rw (claim_call, at_answer) at q))
        ]
