-- ===== src/Examples/Store.antt =====
-- The theorems on the control store, applied to a new store and to one event.
use clew.Prelude.{
  ◌≡◌, ◌<◌, refl, none, some, ℕ, zero, suc, List, [], ◌∷◌, Option, arith, subst, sym,
}
use clew.Prelude.Outcome.{ok, err, ok-injective, for_each}
use clew.Prelude.Map.{values}
use clew.Prelude.Lists.{length, take, retain}
use clew.Prelude.Text.{str, byte_len}
use clew.Identity.Records.{new_registry}
use clew.Core.State.{Json, encode_state_json, decode_state_json, StateCodecError, json}
use clew.Core.Policy.{succeeded, validate_event}
use clew.Core.Catalog.{validate_catalog}
use clew.Runtime.Snapshot.{ControllerControlSnapshot, initial, validate_snapshot}
use clew.Runtime.ControlStore.{
  Disk, ControllerControlStore, contents, absent, read_slot, synced, stopped,
}
use clew.Runtime.ControlStore.Durable.{IsDurable, IsReadable}
use clew.Runtime.ControlStore.Commit.{Restarts, commit_then_restart}
use clew.Runtime.ControlStore.Transaction.{clear_activity, record_activity, Activity, event_of}
use clew.Runtime.ControlStore.Activity.{Recorded, record_activity_lem}
use clew.Runtime.ControlStore.Atomic.{TransactionResult, transaction_lem}

-- The first snapshot of Controller 7 at a generation.
abbrev at : ℕ → ControllerControlSnapshot
at g = record (initial 7) { generation = g }

-- A document of two bytes, the first of which is the generation.
abbrev of_bytes : List ℕ → Option ControllerControlSnapshot
of_bytes (g ∷ x ∷ _) = some (at g)
of_bytes _ = none

abbrev generations : Json ControllerControlSnapshot
generations = record {
  to_json = λ v s. some (s.generation ∷ 0 ∷ []);
  version_of = λ bytes. some 1;
  payload_of = of_bytes;
}

abbrev store : ControllerControlStore
store = record { controller_id = 7; snapshot = at 1 }

abbrev disk : Disk
disk = record { slot_a = contents (1 ∷ 0 ∷ []); slot_b = absent }

at_1_valid : validate_snapshot 7 (at 1) ≡ ok tt
unfolding validate_snapshot initial validate_catalog new_registry for_each values
at_1_valid = refl

disk-IsDurable : IsDurable generations store disk
unfolding read_slot decode_state_json
disk-IsDurable = record { current = refl; older = tt; is_valid = at_1_valid }

prefix_refused :
    (n : ℕ)
    → n < 2
    → (e : StateCodecError) × (decode_state_json generations (take n (2 ∷ 0 ∷ [])) ≡ err e)
unfolding decode_state_json
prefix_refused zero lt = (json, refl)
prefix_refused (suc zero) lt = (json, refl)
prefix_refused (suc (suc n)) lt = absurd (omega arith)

encoded : (bytes : List ℕ) → encode_state_json generations (at 2) ≡ ok bytes → 2 ∷ 0 ∷ [] ≡ bytes
unfolding encode_state_json
encoded bytes q = ok-injective q

next_IsReadable : IsReadable generations (at 2)
unfolding decode_state_json
next_IsReadable = record {
  round_trip =
      λ bytes q. subst (λ b. decode_state_json generations b ≡ ok (at 2)) (encoded bytes q) refl;
  no_prefix = λ bytes n q lt.
      let e = encoded bytes q in rw (← e) (prefix_refused n (subst (λ b. n < length b) (sym e) lt));
}

commit_then_restart_example : Restarts generations store (at 1) disk (stopped 1) synced
commit_then_restart_example =
    commit_then_restart generations store (at 1) disk (stopped 1) synced disk-IsDurable
      next_IsReadable

transaction_lem_example : TransactionResult generations synced clear_activity store disk
transaction_lem_example = transaction_lem generations synced clear_activity store disk

abbrev read : Activity
read = record {
  unix_ms = 1_000;
  site_id = 20;
  device_id = 40;
  operation = str "read";
  path_summary = none;
  result = succeeded;
  duration_ms = 3;
  transferred_bytes = 12;
}

record_activity_lem_example :
    Recorded 7 read
      (at 1)
      (event_of 1 read)
      (record (at 1) { next_activity_sequence = 2; activity = event_of 1 read ∷ [] })
unfolding record_activity initial validate_event byte_len retain
record_activity_lem_example =
    record_activity_lem 7 read (at 1)
      (record (at 1) { next_activity_sequence = 2; activity = event_of 1 read ∷ [] })
      (event_of 1 read) at_1_valid refl
