-- ===== src/Runtime/ControlStore.antt =====
-- crates/clew-runtime/src/control.rs: `ControllerControlStore`, which keeps the snapshot in two
-- slot files that are written in turn.
pub mod Durable
pub mod Commit
pub mod Transaction
pub mod Activity
pub mod Atomic
use clew.Prelude.{
  ℕ, ◌+◌, ◌-◌, ◌%◌, ◌≤◌, Bool, true, false, not, ◌&&◌, Option, none, some, List, [], ◌∷◌, ◌++◌,
  u64_max,
}
use clew.Prelude.Tests.{ltb, leb, ◌==◌, if◌then◌else◌}
use clew.Prelude.Outcome.{Result, ok, err, ◌>>=◌, ◌>>◌, reject, ok_or, map_err, attempt}
use clew.Prelude.Lists.{length, take, drop, retain}
use clew.Prelude.Text.{Str}
use clew.Core.Error.{hard_max_activity_events, hard_activity_retention_ms}
use clew.Core.State.{Json, encode_state_json, decode_state_json, max_state_document_size}
use clew.Core.Policy.{ActivityEvent, ActivityResult, validate_event}
use clew.Core.Catalog.{ControllerCatalog}
use clew.Identity.Records.{EnrollmentRegistry}
use clew.Runtime.Snapshot.{
  ControlStoreError, io, no_valid_slot, generation_overflow, activity_sequence_overflow, state,
  model, document_too_large, generation_conflict, RecoveryReview, ControllerControlSnapshot,
  initial, validate_snapshot,
}

-- What `fs::metadata` and `fs::read` find at a slot's path.
pub data SlotFile : Type 0 where
  absent unreadable : SlotFile
  contents : List ℕ → SlotFile

-- The files of slots a and b.
pub record Disk : Type 0 where
  pub slot_a : SlotFile
  pub slot_b : SlotFile

-- How a write of `bytes` goes: no directory could be made, the file could not be opened, the write
-- stopped after a prefix of the bytes (an error, or the end of the process), or all was synced.
pub data WriteOutcome : Type 0 where
  no_directory unopened : WriteOutcome
  stopped : ℕ → WriteOutcome
  synced : WriteOutcome

pub data SlotRead : Type 0 where
  missing : SlotRead
  valid : ControllerControlSnapshot → SlotRead
  invalid : ControlStoreError → SlotRead

pub record ControllerControlStore : Type 0 where
  pub controller_id : ℕ
  pub snapshot : ControllerControlSnapshot

-- The slot that a generation is written to: a if it is odd, b if it is even.
abbrev pub in_slot_a : ℕ → Bool
in_slot_a generation = generation % 2 == 1

abbrev pub slot_for : ℕ → Disk → SlotFile
slot_for generation disk = if in_slot_a generation then disk.slot_a else disk.slot_b

abbrev pub put_slot : ℕ → SlotFile → Disk → Disk
put_slot generation file disk =
    if in_slot_a generation then record disk { slot_a = file } else record disk { slot_b = file }

-- The slots that hold a valid snapshot, the first error, and whether a file was there.
pub record Found : Type 0 where
  pub snapshots : List ControllerControlSnapshot
  pub first_invalid : Option ControlStoreError
  pub any_present : Bool

abbrev get_or_insert : Option ControlStoreError → ControlStoreError → Option ControlStoreError
get_or_insert none e = some e
get_or_insert (some first) e = some first

-- The body of the loop over the slots.
unfoldable pub visit_slot : ℕ → SlotRead → Found → Found
visit_slot controller_id missing found = found
visit_slot controller_id (valid snapshot) found = elim (validate_snapshot controller_id snapshot) [
  | ok _ ↦ record found { snapshots = found.snapshots ++ snapshot ∷ []; any_present = true }
  | err e ↦ record found { first_invalid = get_or_insert found.first_invalid e; any_present = true }
]
visit_slot controller_id (invalid e) found = record found {
  first_invalid = get_or_insert found.first_invalid e;
  any_present = true;
}

-- The choice among the valid snapshots: `none` where there is no slot file at all.
unfoldable pub choose : Found → Option (Result ControlStoreError ControllerControlSnapshot)
choose found = elim found.snapshots [
  | [] ↦
      if found.any_present
      then elim found.first_invalid [ some e ↦ some (err e) | none ↦ some (err no_valid_slot) ]
      else none
  | one ∷ [] ↦ some (ok one)
  | one ∷ two ∷ _ ↦
      if one.generation == two.generation
      then some (err (generation_conflict one.generation))
      else if ltb one.generation two.generation
      then some (ok two)
      else some (ok one)
]

abbrev nothing_found : Found
nothing_found = record { snapshots = []; first_invalid = none; any_present = false }

-- The file after `encoded` was written to it.
abbrev written_file :
    WriteOutcome → List ℕ → SlotFile → Result ControlStoreError (Unit {0}) × SlotFile
written_file no_directory encoded file = (err io, file)
written_file unopened encoded file = (err io, file)
written_file (stopped n) encoded file = (err io, contents (take n encoded))
written_file synced encoded file = (ok tt, contents encoded)

abbrev is_no_directory : WriteOutcome → Bool
is_no_directory no_directory = true
is_no_directory _ = false

abbrev pub Outcome : Type 0 → Type 0
Outcome A = Result ControlStoreError A × ControllerControlStore × Disk

-- `checked_add(1)` on a u64
abbrev next_generation : ℕ → Result ControlStoreError ℕ
next_generation g = if leb u64_max g then err generation_overflow else ok (g + 1)

abbrev written :
    ControllerControlStore
    → Disk
    → ControllerControlSnapshot
    → Result ControlStoreError (Unit {0}) × SlotFile
    → Outcome (Unit {0})
written store disk candidate (err e, file) = (err e, store, put_slot candidate.generation file disk)
written store disk candidate (ok _, file) =
    (ok tt, record store { snapshot = candidate }, put_slot candidate.generation file disk)

abbrev created : Outcome (Unit {0}) → Result ControlStoreError ControllerControlStore × Disk
created (ok _, store, disk) = (ok store, disk)
created (err e, store, disk) = (err e, disk)

module _ (serde : Json ControllerControlSnapshot) where
  unfoldable pub read_slot : SlotFile → SlotRead
  read_slot absent = missing
  read_slot unreadable = invalid io
  read_slot (contents bytes) =
      if ltb max_state_document_size (length bytes)
      then invalid (document_too_large (length bytes))
      else elim (decode_state_json serde bytes) [
        | ok snapshot ↦ valid snapshot
        | err e ↦ invalid (state e)
      ]

  unfoldable pub write_slot :
      WriteOutcome
      → ControllerControlSnapshot
      → SlotFile
      → Result ControlStoreError (Unit {0}) × SlotFile
  write_slot outcome snapshot file =
      if is_no_directory outcome then (err io, file) else elim (encode_state_json serde snapshot) [
        | err e ↦ (err (state e), file)
        | ok encoded ↦ written_file outcome encoded file
      ]

  unfoldable pub commit_candidate :
      WriteOutcome → ControllerControlSnapshot → ControllerControlStore → Disk → Outcome (Unit {0})
  unfolding write_slot
  commit_candidate outcome candidate store disk = elim (next_generation store.snapshot.generation) [
    | err e ↦ (err e, store, disk)
    | ok generation ↦
        elim (validate_snapshot store.controller_id
          (record candidate { generation = generation })) [
            | err e ↦ (err e, store, disk)
            | ok _ ↦
                written store disk (record candidate { generation = generation })
                  (write_slot outcome (record candidate { generation = generation })
                    (slot_for generation disk))
          ]
  ]

  unfoldable pub load_or_create :
      WriteOutcome → ℕ → Disk → Result ControlStoreError ControllerControlStore × Disk
  unfolding read_slot visit_slot choose commit_candidate
  load_or_create outcome controller_id disk =
      elim (choose (
        visit_slot controller_id (read_slot disk.slot_b)
          (visit_slot controller_id (read_slot disk.slot_a) nothing_found))) [
            | some (ok snapshot) ↦
                (ok (record { controller_id = controller_id; snapshot = snapshot }), disk)
            | some (err e) ↦ (err e, disk)
            | none ↦ created (
                commit_candidate outcome (initial controller_id)
                  (record { controller_id = controller_id; snapshot = initial controller_id }) disk)
          ]
