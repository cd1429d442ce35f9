-- ===== src/Runtime/ControlStore/Transaction.antt =====
-- crates/clew-runtime/src/control.rs: `ControllerControlStore::transaction` and the operations
-- that run in one.
use clew.Prelude.{ℕ, ◌+◌, ◌-◌, false, Option, none, some, List, [], ◌∷◌, ◌++◌, u64_max}
use clew.Prelude.Tests.{leb}
use clew.Prelude.Outcome.{Result, ok, err, ◌>>◌, reject, map_err}
use clew.Prelude.Lists.{length, drop, retain}
use clew.Prelude.Text.{Str}
use clew.Core.Error.{hard_max_activity_events, hard_activity_retention_ms}
use clew.Core.State.{Json}
use clew.Core.Policy.{ActivityEvent, ActivityResult, validate_event}
use clew.Core.Catalog.{ControllerCatalog}
use clew.Identity.Records.{EnrollmentRegistry}
use clew.Runtime.Snapshot.{
  ControlStoreError, activity_sequence_overflow, model, RecoveryReview, ControllerControlSnapshot,
  validate_snapshot,
}
use clew.Runtime.ControlStore.{
  Disk, WriteOutcome, ControllerControlStore, Outcome, commit_candidate,
}

-- A closure that changes a snapshot and returns a value.
abbrev pub Mutation : Type 0 → Type 0
Mutation R = ControllerControlSnapshot → Result ControlStoreError (R × ControllerControlSnapshot)

abbrev pub returning : {R : Type 0} → R → Outcome (Unit {0}) → Outcome R
returning result (ok _, store, disk) = (ok result, store, disk)
returning result (err e, store, disk) = (err e, store, disk)

unfoldable pub transaction :
    {R : Type 0}
    → Json ControllerControlSnapshot
    → WriteOutcome
    → Mutation R
    → ControllerControlStore
    → Disk
    → Outcome R
transaction serde outcome mutate store disk = elim (mutate store.snapshot) [
  | err e ↦ (err e, store, disk)
  | ok (result, candidate) ↦ elim (validate_snapshot store.controller_id candidate) [
    | err e ↦ (err e, store, disk)
    | ok _ ↦ returning result (commit_candidate serde outcome candidate store disk)
  ]
]

-- The closure of `confirm_recovery_review`
unfoldable pub confirm_recovery_review : Mutation (Option RecoveryReview)
confirm_recovery_review snapshot = elim snapshot.recovery_review [
  | none ↦ ok (none, snapshot)
  | some review ↦
      let confirmed = record review { remote_access_paused = false } in
      ok (some confirmed, record snapshot { recovery_review = some confirmed })
]

-- What the caller of `record_activity` gives.
pub record Activity : Type 0 where
  pub unix_ms : ℕ
  pub site_id : ℕ
  pub device_id : ℕ
  pub operation : Str
  pub path_summary : Option Str
  pub result : ActivityResult
  pub duration_ms : ℕ
  pub transferred_bytes : ℕ

abbrev pub event_of : ℕ → Activity → ActivityEvent
event_of sequence a = record {
  sequence = sequence;
  unix_ms = a.unix_ms;
  site_id = a.site_id;
  device_id = a.device_id;
  operation = a.operation;
  path_summary = a.path_summary;
  result = a.result;
  duration_ms = a.duration_ms;
  transferred_bytes = a.transferred_bytes;
}

-- The event after the retained ones, and the excess at the front drained.
unfoldable pub push_activity : ActivityEvent → List ActivityEvent → List ActivityEvent
push_activity event events =
    let kept = retain (λ e. leb (event.unix_ms - hard_activity_retention_ms) e.unix_ms) events in
    let pushed = kept ++ event ∷ [] in drop (length pushed - hard_max_activity_events) pushed

-- The closure of `record_activity`
unfoldable pub record_activity : Activity → Mutation ActivityEvent
unfolding push_activity
record_activity activity snapshot = do
  reject (leb u64_max snapshot.next_activity_sequence) activity_sequence_overflow
  map_err model (validate_event (event_of snapshot.next_activity_sequence activity))
  ok (
    event_of snapshot.next_activity_sequence activity,
    record snapshot {
      next_activity_sequence = snapshot.next_activity_sequence + 1;
      activity =
          push_activity (event_of snapshot.next_activity_sequence activity) snapshot.activity;
    },
  )

-- The closure of `clear_activity`
unfoldable pub clear_activity : Mutation (Unit {0})
clear_activity snapshot = ok (tt, record snapshot { activity = [] })

-- The closure of `replace_restored_state`
unfoldable pub replace_restored_state :
    EnrollmentRegistry → ControllerCatalog → RecoveryReview → Mutation (Unit {0})
replace_restored_state registry catalog review snapshot = ok (
  tt,
  record snapshot {
    registry = registry;
    catalog = catalog;
    activity = [];
    recovery_review = some review;
  },
)
