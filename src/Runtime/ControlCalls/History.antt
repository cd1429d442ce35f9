-- ===== src/Runtime/ControlCalls/History.antt =====
-- Sequences of the closures on a new Controller's snapshot.
use clew.Prelude.Map.{some_inj, values, lookup-nil}
use clew.Prelude.{ℕ, ap, ◌≡◌, refl, Option, none, some, List, [], ◌∷◌, inl, inr, arith}
use clew.Prelude.Tests.{Option-cases, ==_refl}
use clew.Prelude.Outcome.{Result, ok, err, for_each}
use clew.Prelude.Text.{Str}
use clew.Core.Policy.{ControllerSiteRecord}
use clew.Identity.Keys.{Bytes, Crypto, DevicePublicIdentity}
use clew.Identity.Bootstrap.{BootstrapJson, SignedSiteBootstrapPass}
use clew.Identity.Grant.{full_grant}
use clew.Core.Catalog.{ControllerDeviceRecord, validate_catalog}
use clew.Identity.Records.{new_registry}
use clew.Identity.Registry.Calls.{new-IsConsistent}
use clew.Identity.Registry.Claims.{Draws}
use clew.Runtime.Snapshot.{ControllerControlSnapshot, ControlStoreError, initial, validate_snapshot}
use clew.Runtime.ControlCalls.{
  close_invite_call, revoke_invite_call, delete_invite_call, rename_device_call, revoke_device_call,
  issue_invite_call, claim_call, finalize_persisted, BootstrapMemberMode,
}
use clew.Runtime.ControlCalls.Sound.{IsSound, valid_after}
use clew.Runtime.ControlCalls.Steps.{Keeps}
use clew.Runtime.ControlCalls.Calls.{
  close_invite_call-Keeps, revoke_invite_call-Keeps, delete_invite_call-Keeps,
  rename_device_call-Keeps, revoke_device_call-Keeps,
}
use clew.Runtime.ControlCalls.Joining.{issue_invite_call-Keeps, claim_call-Keeps}
use clew.Runtime.ControlCalls.Confirming.{finalize_persisted-Keeps}

-- A request to the Controller that runs one of the closures.
pub data Request : Type 0 where
  close : ℕ → Request
  withdraw : ℕ → Request
  delete : ℕ → Request
  rename : ℕ → Str → Request
  revoke : ℕ → Request
  issue : ControllerSiteRecord → SignedSiteBootstrapPass → Request
  enroll :
      SignedSiteBootstrapPass → DevicePublicIdentity → ℕ → BootstrapMemberMode → Draws → Request
  confirm : ℕ → ℕ → Bytes → Str → Request

-- The snapshot of a closure that succeeds, if it does.
abbrev changed :
    {A : Type 0}
    → Result ControlStoreError (A × ControllerControlSnapshot)
    → Option ControllerControlSnapshot
changed (ok (_, s)) = some s
changed (err _) = none

abbrev answered :
    {A : Type 0}
    → Option (Result ControlStoreError (A × ControllerControlSnapshot))
    → Option ControllerControlSnapshot
answered none = none
answered (some r) = changed r

changed-ok :
    {A : Type 0} (r : Result ControlStoreError (A × ControllerControlSnapshot))
    (s' : ControllerControlSnapshot)
    → changed r ≡ some s'
    → (a : A) × (r ≡ ok (a, s'))
changed-ok (ok (a, s)) s' q = let same : s ≡ s' = some_inj s s' q in (a, ap (λ x. ok (a, x)) same)
changed-ok (err e) s' q = cc

answered-some :
    {A : Type 0} (r : Option (Result ControlStoreError (A × ControllerControlSnapshot)))
    (s' : ControllerControlSnapshot)
    → answered r ≡ some s'
    → (a : A) × (r ≡ some (ok (a, s')))
answered-some none s' q = cc
answered-some (some r) s' q = let (a, same) = changed-ok r s' q in (a, ap some same)

-- A snapshot that `validate` accepts, in which catalog and registry agree.
pub record IsServed (id : ℕ) (s : ControllerControlSnapshot) : Type 0 where
  pub valid : validate_snapshot id s ≡ ok tt
  pub sound : IsSound s

module _ (crypto : Crypto) (serde : BootstrapJson) where
  unfoldable pub request : Request → ControllerControlSnapshot → Option ControllerControlSnapshot
  unfolding close_invite_call revoke_invite_call delete_invite_call rename_device_call
      revoke_device_call issue_invite_call claim_call finalize_persisted
  request (close i) s = changed (close_invite_call i s)
  request (withdraw i) s = changed (revoke_invite_call i s)
  request (delete i) s = changed (delete_invite_call i s)
  request (rename k name) s = changed (rename_device_call k name s)
  request (revoke k) s = changed (revoke_device_call k s)
  request (issue site pass) s = changed (issue_invite_call crypto serde site pass s)
  request (enroll pass device now mode draws) s =
      answered (claim_call crypto serde pass device now mode draws s)
  request (confirm i k token hostname) s = changed (finalize_persisted i k token hostname s)

  -- A request that fails leaves the snapshot as it was.
  abbrev after :
      ControllerControlSnapshot → Option ControllerControlSnapshot → ControllerControlSnapshot
  after s none = s
  after s (some s') = s'

  unfoldable pub serve : List Request → ControllerControlSnapshot → ControllerControlSnapshot
  unfolding request
  serve [] s = s
  serve (x ∷ xs) s = serve xs (after s (request x s))

  request-Keeps :
      (x : Request) (s s' : ControllerControlSnapshot)
      → IsSound s
      → request x s ≡ some s'
      → Keeps s s'
  unfolding request
  request-Keeps (close i) s s' h q =
      close_invite_call-Keeps s s' h i (changed-ok (close_invite_call i s) s' q).1
  request-Keeps (withdraw i) s s' h q =
      let (ids, e) = changed-ok (revoke_invite_call i s) s' q in
      revoke_invite_call-Keeps s s' h i ids e
  request-Keeps (delete i) s s' h q =
      let (ids, e) = changed-ok (delete_invite_call i s) s' q in
      delete_invite_call-Keeps s s' h i ids e
  request-Keeps (rename k name) s s' h q =
      let (d, e) = changed-ok (rename_device_call k name s) s' q in
      rename_device_call-Keeps s s' h k name d e
  request-Keeps (revoke k) s s' h q =
      revoke_device_call-Keeps s s' h k (changed-ok (revoke_device_call k s) s' q).1
  request-Keeps (issue site pass) s s' h q =
      issue_invite_call-Keeps crypto serde s s' h site pass
        (changed-ok (issue_invite_call crypto serde site pass s) s' q).1
  request-Keeps (enroll pass device now mode draws) s s' h q =
      let (r, e) = answered-some (claim_call crypto serde pass device now mode draws s) s' q in
      claim_call-Keeps crypto serde s s' h pass device now mode draws r e
  request-Keeps (confirm i k token hostname) s s' h q =
      let (r, e) = changed-ok (finalize_persisted i k token hostname s) s' q in
      finalize_persisted-Keeps s s' h i k token hostname r e

  -- A closure that succeeds leaves a snapshot that `transaction` does not refuse.
  pub request-IsServed :
      (id : ℕ) (x : Request) (s s' : ControllerControlSnapshot)
      → IsServed id s
      → request x s ≡ some s'
      → IsServed id s'
  request-IsServed id x s s' h q =
      let k = request-Keeps x s s' h.sound q in
      record { valid = valid_after id s s' h.valid k.log k.sound; sound = k.sound }

  serve-IsServed :
      (id : ℕ) (xs : List Request) (s : ControllerControlSnapshot)
      → IsServed id s
      → IsServed id (serve xs s)
  unfolding serve
  serve-IsServed id [] s h = h
  serve-IsServed id (x ∷ xs) s h = elim (Option-cases (request x s)) [
    | inl refused ↦ rw refused (serve-IsServed id xs s h)
    | inr (s', granted) ↦
        rw granted (serve-IsServed id xs s' (request-IsServed id x s s' h granted))
  ]

  initial-IsServed : (id : ℕ) → IsServed id (initial id)
  unfolding initial validate_snapshot new_registry validate_catalog for_each values
  initial-IsServed id = record {
    valid = rw (==_refl id) refl;
    sound = record {
      registry_fits = new-IsConsistent id full_grant;
      catalog_fits = record { sites_fit = tt; devices_fit = tt };
      sorted = tt;
      agrees = λ k r at_k. ground (arith, at_k, lookup-nil {V = ControllerDeviceRecord} k);
    };
  }

  -- After any sequence of requests to a new Controller, refused ones included, `validate` succeeds
  -- on the snapshot, and registry and catalog are each consistent and agree on every Device that
  -- the catalog has.
  pub serve_lem : (id : ℕ) (xs : List Request) → IsServed id (serve xs (initial id))
  serve_lem id xs = serve-IsServed id xs (initial id) (initial-IsServed id)
