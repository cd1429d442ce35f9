-- ===== src/Runtime/ControlCalls/Sound.antt =====
-- The invariant of a Controller's snapshot, and what it gives of `validate`.
use clew.Prelude.{ℕ, ◌≡◌, refl, not}
use clew.Prelude.Tests.{◌==◌, ltb, leb}
use clew.Prelude.Lists.{length}
use clew.Prelude.Outcome.{ok, ◌>>=◌, ◌>>◌, map_err, reject, checked, bound}
use clew.Prelude.Sorted.{IsSorted}
use clew.Core.Error.{hard_max_activity_events}
use clew.Core.Catalog.{validate_catalog}
use clew.Core.Catalog.Validity
use clew.Core.Catalog.Validity.{validate-IsConsistent}
use clew.Identity.Registry.Consistency.{IsConsistent}
use clew.Runtime.Snapshot.{
  controller_mismatch, invalid_activity_sequence, too_many_activity_events, model,
  ControllerControlSnapshot, validate_snapshot, max_sequence, review_mismatch, check_devices,
}
use clew.Runtime.ControlCalls.Agreement.{Agrees, Agrees-check_devices}

pub record IsSound (s : ControllerControlSnapshot) : Type 0 where
  pub registry_fits : IsConsistent s.registry
  pub catalog_fits : Validity.IsConsistent s.catalog
  pub sorted : IsSorted s.catalog.devices
  pub agrees : Agrees s.registry.devices s.catalog.devices

-- What the calls on registry and catalog leave alone.
pub record KeepsLog (before after : ControllerControlSnapshot) : Type 0 where
  pub own_id : after.registry.controller_id ≡ before.registry.controller_id
  pub activity : after.activity ≡ before.activity
  pub next_sequence : after.next_activity_sequence ≡ before.next_activity_sequence
  pub review : after.recovery_review ≡ before.recovery_review

pub KeepsLog-refl : (s : ControllerControlSnapshot) → KeepsLog s s
KeepsLog-refl s = record { own_id = refl; activity = refl; next_sequence = refl; review = refl }

pub KeepsLog-trans :
    {a b c : ControllerControlSnapshot} → KeepsLog a b → KeepsLog b c → KeepsLog a c
KeepsLog-trans x y = record {
  own_id = rw (y.own_id) x.own_id;
  activity = rw (y.activity) x.activity;
  next_sequence = rw (y.next_sequence) x.next_sequence;
  review = rw (y.review) x.review;
}

-- The log of a valid snapshot.
record HasLog (id : ℕ) (s : ControllerControlSnapshot) : Type 0 where
  pub own : reject (not (s.registry.controller_id == id)) controller_mismatch ≡ ok tt
  pub short :
      reject
        (ltb hard_max_activity_events (length s.activity))
        (too_many_activity_events (length s.activity))
      ≡ ok tt
  pub top : ℕ
  pub at_top : max_sequence 0 s.activity ≡ ok top
  pub above : reject (leb s.next_activity_sequence top) invalid_activity_sequence ≡ ok tt
  pub reviewed : reject (review_mismatch s.recovery_review id) controller_mismatch ≡ ok tt

validate-HasLog :
    (id : ℕ) (s : ControllerControlSnapshot) → validate_snapshot id s ≡ ok tt → HasLog id s
unfolding validate_snapshot
validate-HasLog id s q =
    let last = check_devices s.registry s.catalog.devices in
    let review = reject (review_mismatch s.recovery_review id) controller_mismatch in
    let sequence = λ (top : ℕ).
      reject (leb s.next_activity_sequence top) invalid_activity_sequence >> (review >> last) in
    let log = max_sequence 0 s.activity >>= sequence in
    let short =
      reject (ltb hard_max_activity_events (length s.activity))
        (too_many_activity_events (length s.activity)) in
    let (own, q1) = checked _ (map_err model (validate_catalog s.catalog) >> (short >> log)) tt q in
    let (_, q2) = checked (map_err model (validate_catalog s.catalog)) (short >> log) tt q1 in
    let (is_short, q3) = checked short log tt q2 in
    let (top, at_top, q4) = bound (max_sequence 0 s.activity) sequence tt q3 in
    let (above, q5) = checked _ (review >> last) tt q4 in
    let (reviewed, _) = checked review last tt q5 in
    record {
      own = own;
      short = is_short;
      top = top;
      at_top = at_top;
      above = above;
      reviewed = reviewed;
    }

HasLog-validate :
    (id : ℕ) (s : ControllerControlSnapshot)
    → HasLog id s
    → IsSound s
    → validate_snapshot id s ≡ ok tt
unfolding validate_snapshot
HasLog-validate id s h sound =
    rw
      (
        h.own,
        validate-IsConsistent s.catalog sound.catalog_fits,
        h.short,
        h.at_top,
        h.above,
        h.reviewed,
        Agrees-check_devices s.registry s.catalog.devices sound.sorted sound.agrees,
      )
      refl

-- A valid snapshot stays valid where its log is kept and the invariant holds.
pub valid_after :
    (id : ℕ) (s s' : ControllerControlSnapshot)
    → validate_snapshot id s ≡ ok tt
    → KeepsLog s s'
    → IsSound s'
    → validate_snapshot id s' ≡ ok tt
valid_after id s s' q k sound =
    let h = validate-HasLog id s q in
    HasLog-validate id s'
      (record {
        own = rw k.own_id h.own;
        short = rw k.activity h.short;
        top = h.top;
        at_top = rw k.activity h.at_top;
        above = rw k.next_sequence h.above;
        reviewed = rw k.review h.reviewed;
      })
      sound
