-- ===== src/Runtime/Transfers/Start.antt =====
-- crates/clew-runtime/src/transfer.rs: `persist`, and how a put or a get enters the table.
use clew.Prelude.{ℕ, ◌+◌, ◌%◌, Bool, false, Option, none, some, List, [], ◌∷◌, u64_max}
use clew.Prelude.Tests.{ltb, leb, ◌==◌, if◌then◌else◌}
use clew.Prelude.Lists.{length}
use clew.Prelude.Map.{Map, insert, remove, values, contains_key}
use clew.Prelude.Outcome.{Result, ok, err, ◌>>=◌, ◌>>◌, reject, attempt}
use clew.Prelude.Text.{Str}
use clew.Transport.FileTransfer.{FileConflictPolicy}
use clew.Runtime.Transfers.{
  hard_max_controller_file_transfers, preparing, FilePutInfo, FileGetInfo,
  ControllerFileTransferEntry, put_entry, get_entry, DurableControllerFileTransfer, durable_record,
  ControllerFileTransferSnapshot, ControllerFileTransferError, capacity, state_generation_overflow,
  transfer_id_conflict, prune_terminal,
}
use clew.Runtime.Transfers.Journal.{
  validate_start_inputs, validate_get_start_inputs, validate_journal,
}

-- The manager: the table, and the journal's generation, when there is a journal.
pub record ControllerFileTransferManager : Type 0 where
  pub controller_id : ℕ
  pub transfers : Map ControllerFileTransferEntry
  pub state_store : Option ℕ

unfoldable pub records_of : List ControllerFileTransferEntry → List DurableControllerFileTransfer
records_of [] = []
records_of (e ∷ entries) = durable_record e ∷ records_of entries

-- The entries that a start makes.
abbrev pub new_put : ℕ → ℕ → Str → Str → ℕ → FilePutInfo
new_put t d source device size = record {
  transfer_id = t;
  device_id = d;
  source_path = source;
  device_path = device;
  phase = preparing;
  chunk_size = size;
  total_size = none;
  final_sha256 = none;
  confirmed_offset = 0;
  final_device_path = none;
  error = none;
}

abbrev pub new_get : ℕ → ℕ → Str → Str → ℕ → FileGetInfo
new_get t d device destination size = record {
  transfer_id = t;
  device_id = d;
  device_path = device;
  destination_path = destination;
  phase = preparing;
  chunk_size = size;
  total_size = none;
  final_sha256 = none;
  confirmed_offset = 0;
  final_controller_path = none;
  error = none;
}

module _ (is_absolute : Str → Bool)
    (write_slot : Bool
      → ControllerFileTransferSnapshot
      → Result ControllerFileTransferError (Unit {0})) where
  -- `persist`: the generation that it leaves. The slot is `a` when the generation is even.
  unfoldable pub persist :
      ℕ → ℕ → Map ControllerFileTransferEntry → Result ControllerFileTransferError ℕ
  unfolding validate_journal records_of
  persist controller_id generation transfers =
      let next_generation = generation + 1 in
      let snapshot : ControllerFileTransferSnapshot = record {
        controller_id = controller_id;
        generation = next_generation;
        transfers = records_of (values transfers);
      } in
      do
        reject (ltb u64_max next_generation) state_generation_overflow
        validate_journal is_absolute snapshot controller_id
        write_slot (next_generation % 2 == 0) snapshot
        ok next_generation

  -- `persist_current`
  unfoldable pub persist_current :
      ControllerFileTransferManager
      → Result ControllerFileTransferError ControllerFileTransferManager
  unfolding persist
  persist_current m = elim m.state_store [
    | none ↦ ok m
    | some generation ↦ do
      next ← persist m.controller_id generation m.transfers
      ok (record m { state_store = some next })
  ]

  -- The tail of a start: the journal is written, and the new entry is taken back when that fails.
  unfoldable pub settle :
      ℕ
      → ControllerFileTransferManager
      → Result ControllerFileTransferError (Unit {0}) × ControllerFileTransferManager
  unfolding persist_current
  settle transfer_id m = elim (persist_current m) [
    | ok next ↦ (ok tt, next)
    | err e ↦ (err e, record m { transfers = remove transfer_id m.transfers })
  ]

  -- A start from the lock on, for the entry that it makes.
  unfoldable pub enter :
      ℕ
      → ControllerFileTransferEntry
      → ControllerFileTransferManager
      → Result ControllerFileTransferError (Unit {0}) × ControllerFileTransferManager
  unfolding prune_terminal settle
  enter transfer_id entry m =
      let pruned = record m { transfers = prune_terminal m.transfers } in
      if contains_key transfer_id pruned.transfers
      then (err (transfer_id_conflict transfer_id), pruned)
      else if leb hard_max_controller_file_transfers (length pruned.transfers)
      then (err capacity, pruned)
      else settle transfer_id
          (record pruned { transfers = insert transfer_id entry pruned.transfers })

  -- start_put_with_transfer_id, without the worker that it spawns
  unfoldable pub start_put_with_transfer_id :
      ℕ
      → ℕ
      → ℕ
      → Str
      → Str
      → ℕ
      → FileConflictPolicy
      → ControllerFileTransferManager
      → Result ControllerFileTransferError FilePutInfo × ControllerFileTransferManager
  unfolding validate_start_inputs enter
  start_put_with_transfer_id t d site source device size policy m =
      attempt (validate_start_inputs is_absolute source device size) m (λ _.
        let info = new_put t d source device size in
        let entered = enter t (put_entry info site policy false) m in
        (entered.0 >> ok info, entered.1))

  -- start_get_with_transfer_id, without the worker that it spawns
  unfoldable pub start_get_with_transfer_id :
      ℕ
      → ℕ
      → ℕ
      → Str
      → Str
      → ℕ
      → FileConflictPolicy
      → ControllerFileTransferManager
      → Result ControllerFileTransferError FileGetInfo × ControllerFileTransferManager
  unfolding validate_get_start_inputs enter
  start_get_with_transfer_id t d site device destination size policy m =
      attempt (validate_get_start_inputs is_absolute device destination size) m (λ _.
        let info = new_get t d device destination size in
        let entered = enter t (get_entry info site policy none false) m in
        (entered.0 >> ok info, entered.1))
