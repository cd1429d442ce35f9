-- ===== src/Runtime/Transfers/Journal.antt =====
-- crates/clew-runtime/src/transfer.rs: what a record of the journal must hold, and the whole journal.
use clew.Prelude.{ℕ, Bool, true, not, ◌||◌, Option, none, some, List, [], ◌∷◌}
use clew.Prelude.Tests.{ltb, ◌==◌, list_eq}
use clew.Prelude.Lists.{length, mem_ℕ}
use clew.Prelude.Map.{is_some}
use clew.Prelude.Outcome.{Result, ok, err, ◌>>◌, reject, map_err}
use clew.Prelude.Text.{Str, str}
use clew.Core.Error.{hard_max_read_root_bytes}
use clew.Transport.FileResume.{device_to_controller, same_direction}
use clew.Transport.FileTransfer.{
  FileTransferManifest, validate_manifest, is_invalid_chunk_size, is_invalid_path,
  is_invalid_sha256,
}
use clew.Runtime.Transfers.{
  hard_max_controller_file_transfers, max_controller_file_path_bytes, FileGetInfo, FileTransferInfo,
  put, get, info_id, DurableControllerGetState, DurableControllerFileTransfer,
  ControllerFileTransferSnapshot, ControllerFileTransferError, controller_mismatch,
  invalid_source_path, invalid_device_path, invalid_destination_path, invalid_persisted_state,
  invalid_host_manifest, invalid_chunk_size, protocol,
}

-- The match on the recorded progress.
unfoldable pub validate_persisted_progress :
    Option ℕ → Option Str → ℕ → Result ControllerFileTransferError (Unit {0})
unfolding is_invalid_sha256
validate_persisted_progress none none confirmed_offset =
    reject (not (confirmed_offset == 0))
      (invalid_persisted_state (str "persisted transfer progress is incomplete or inconsistent"))
validate_persisted_progress (some total_size) (some final_sha256) confirmed_offset = do
  reject (ltb total_size confirmed_offset)
      (invalid_persisted_state (str "confirmed offset exceeds persisted total size"))
  reject (is_invalid_sha256 final_sha256)
      (invalid_persisted_state (str "persisted final SHA-256 is not canonical lowercase hex"))
validate_persisted_progress _ _ confirmed_offset =
    err (invalid_persisted_state (str "persisted transfer progress is incomplete or inconsistent"))

-- `info.total_size != Some(total_size) || info.final_sha256 != Some(final_sha256)`
unfoldable pub differs_from : Option ℕ → Option Str → ℕ → Str → Bool
differs_from (some n) (some h) total_size final_sha256 =
    not (n == total_size) || not (list_eq h final_sha256)
differs_from _ _ total_size final_sha256 = true

-- What the functions ask of the platform: `Path::is_absolute`, and how the write of a slot ends.
module _ (is_absolute : Str → Bool) where
  unfoldable pub validate_start_inputs :
      Str → Str → ℕ → Result ControllerFileTransferError (Unit {0})
  unfolding is_invalid_path is_invalid_chunk_size
  validate_start_inputs source_path device_path chunk_size = do
    reject
        (is_invalid_path max_controller_file_path_bytes source_path
          || not (is_absolute source_path))
        invalid_source_path
    reject (is_invalid_path hard_max_read_root_bytes device_path) invalid_device_path
    reject (is_invalid_chunk_size chunk_size) (invalid_chunk_size chunk_size)

  unfoldable pub validate_get_start_inputs :
      Str → Str → ℕ → Result ControllerFileTransferError (Unit {0})
  unfolding is_invalid_path is_invalid_chunk_size
  validate_get_start_inputs device_path destination_path chunk_size = do
    reject (is_invalid_path hard_max_read_root_bytes device_path) invalid_device_path
    reject
        (is_invalid_path max_controller_file_path_bytes destination_path
          || not (is_absolute destination_path))
        invalid_destination_path
    reject (is_invalid_chunk_size chunk_size) (invalid_chunk_size chunk_size)

  -- `validate_get_manifest`
  unfoldable pub validate_get_manifest :
      FileTransferManifest → ℕ → ℕ → FileGetInfo → Result ControllerFileTransferError (Unit {0})
  unfolding validate_manifest
  validate_get_manifest manifest controller_id site_id info = do
    map_err protocol (validate_manifest manifest)
    reject
        (not (manifest.transfer_id == info.transfer_id)
          || not (manifest.controller_id == controller_id)
          || not (manifest.site_id == site_id)
          || not (manifest.device_id == info.device_id)
          || not (same_direction manifest.direction device_to_controller)
          || not (manifest.chunk_size == info.chunk_size)
          || is_some manifest.device_conflict_policy)
        (invalid_host_manifest (str "device source manifest changed transfer scope"))

  unfoldable pub validate_durable_get_state :
      DurableControllerGetState
      → ℕ
      → ℕ
      → FileGetInfo
      → Result ControllerFileTransferError (Unit {0})
  unfolding is_invalid_path validate_get_manifest differs_from
  validate_durable_get_state state controller_id site_id info = do
    reject
        (is_invalid_path max_controller_file_path_bytes state.part_path
          || not (is_absolute state.part_path))
        (invalid_persisted_state (str "Controller get part path is invalid"))
    validate_get_manifest state.manifest controller_id site_id info
    reject
        (differs_from info.total_size info.final_sha256 state.manifest.total_size
          state.manifest.final_sha256)
        (invalid_persisted_state
          (str "Controller get journal manifest disagrees with public transfer progress"))

  unfoldable pub validate_get_record :
      ℕ
      → ℕ
      → FileGetInfo
      → Option DurableControllerGetState
      → Result ControllerFileTransferError (Unit {0})
  unfolding validate_durable_get_state
  validate_get_record controller_id site_id info none = ok tt
  validate_get_record controller_id site_id info (some state) =
      validate_durable_get_state state controller_id site_id info

  -- The match in the loop of `validate`.
  unfoldable pub validate_record :
      ℕ
      → ℕ
      → FileTransferInfo
      → Option DurableControllerGetState
      → Result ControllerFileTransferError (Unit {0})
  unfolding validate_start_inputs validate_get_start_inputs validate_persisted_progress
      validate_get_record
  validate_record controller_id site_id (put info) get_state = do
    reject (is_some get_state)
        (invalid_persisted_state (str "Controller-to-device transfer cannot carry get part state"))
    validate_start_inputs info.source_path info.device_path info.chunk_size
    validate_persisted_progress info.total_size info.final_sha256 info.confirmed_offset
  validate_record controller_id site_id (get info) get_state = do
    validate_get_start_inputs info.device_path info.destination_path info.chunk_size
    validate_persisted_progress info.total_size info.final_sha256 info.confirmed_offset
    validate_get_record controller_id site_id info get_state

  -- The loop of `validate`; `ids` are those of the records before.
  unfoldable pub validate_records :
      ℕ
      → List ℕ
      → List DurableControllerFileTransfer
      → Result ControllerFileTransferError (Unit {0})
  unfolding validate_record
  validate_records controller_id ids [] = ok tt
  validate_records controller_id ids (record_ ∷ transfers) = do
    reject (mem_ℕ (info_id record_.info) ids)
        (invalid_persisted_state (str "controller transfer journal contains duplicate TransferId"))
    validate_record controller_id record_.site_id record_.info record_.get_state
    validate_records controller_id (info_id record_.info ∷ ids) transfers

  -- ControllerFileTransferSnapshot::validate
  unfoldable pub validate_journal :
      ControllerFileTransferSnapshot → ℕ → Result ControllerFileTransferError (Unit {0})
  unfolding validate_records
  validate_journal snapshot expected_controller_id = do
    reject (not (snapshot.controller_id == expected_controller_id)) controller_mismatch
    reject (ltb hard_max_controller_file_transfers (length snapshot.transfers))
        (invalid_persisted_state (str "controller transfer journal exceeds the hard entry bound"))
    validate_records snapshot.controller_id [] snapshot.transfers
