-- ===== src/Runtime/Transfers.antt =====
-- crates/clew-runtime/src/transfer.rs: the Controller's table of file transfers, how a transfer
-- enters it, and the journal that it is kept in. `cancel` is the value that the watch channel holds.
pub mod Journal
pub mod Start
pub mod Capacity
pub mod Starting
use clew.Prelude.{
  ℕ, zero, suc, ◌+◌, ◌%◌, Bool, true, false, not, ◌&&◌, ◌||◌, Option, none, some, List, [], ◌∷◌,
  u64_max,
}
use clew.Prelude.Tests.{ltb, leb, ◌==◌, list_eq, if◌then◌else◌}
use clew.Prelude.Lists.{length, mem_ℕ}
use clew.Prelude.Map.{Map, lookup, insert, remove, values, contains_key, is_some}
use clew.Prelude.Outcome.{Result, ok, err, ◌>>=◌, ◌>>◌, reject, map_err}
use clew.Prelude.Text.{Str, str}
use clew.Core.Error.{hard_max_read_root_bytes}
use clew.Core.State.{StateCodecError}
use clew.Transport.FileResume.{
  FileResumeError, FileTransferDirection, controller_to_device, device_to_controller,
  same_direction,
}
use clew.Transport.FileTransfer.{
  FileConflictPolicy, FileTransferManifest, FileTransferError, validate_manifest,
  is_invalid_chunk_size, is_invalid_path, is_invalid_sha256,
}

abbrev pub hard_max_controller_file_transfers : ℕ
hard_max_controller_file_transfers = 16

abbrev pub max_controller_file_path_bytes : ℕ
max_controller_file_path_bytes = 4096

pub data ControllerFileTransferPhase : Type 0 where
  preparing running waiting_for_reconnect ready_to_finalize : ControllerFileTransferPhase
  cancelling completed failed cancelled : ControllerFileTransferPhase

unfoldable pub terminal : ControllerFileTransferPhase → Bool
terminal completed = true
terminal failed = true
terminal cancelled = true
terminal _ = false

pub record FilePutInfo : Type 0 where
  pub transfer_id : ℕ
  pub device_id : ℕ
  pub source_path : Str
  pub device_path : Str
  pub phase : ControllerFileTransferPhase
  pub chunk_size : ℕ
  pub total_size : Option ℕ
  pub final_sha256 : Option Str
  pub confirmed_offset : ℕ
  pub final_device_path : Option Str
  pub error : Option Str

pub record FileGetInfo : Type 0 where
  pub transfer_id : ℕ
  pub device_id : ℕ
  pub device_path : Str
  pub destination_path : Str
  pub phase : ControllerFileTransferPhase
  pub chunk_size : ℕ
  pub total_size : Option ℕ
  pub final_sha256 : Option Str
  pub confirmed_offset : ℕ
  pub final_controller_path : Option Str
  pub error : Option Str

pub data FileTransferInfo : Type 0 where
  put : FilePutInfo → FileTransferInfo
  get : FileGetInfo → FileTransferInfo

abbrev pub info_id : FileTransferInfo → ℕ
info_id (put info) = info.transfer_id
info_id (get info) = info.transfer_id

pub record DurableControllerGetState : Type 0 where
  pub part_path : Str
  pub manifest : FileTransferManifest

-- The direction is the constructor of `info`; a put has no `durable_state`.
pub data ControllerFileTransferEntry : Type 0 where
  put_entry : FilePutInfo → ℕ → FileConflictPolicy → Bool → ControllerFileTransferEntry
  get_entry :
      FileGetInfo
      → ℕ
      → FileConflictPolicy
      → Option DurableControllerGetState
      → Bool
      → ControllerFileTransferEntry

abbrev pub phase_of : ControllerFileTransferEntry → ControllerFileTransferPhase
phase_of (put_entry info _ _ _) = info.phase
phase_of (get_entry info _ _ _ _) = info.phase

pub record DurableControllerFileTransfer : Type 0 where
  pub site_id : ℕ
  pub conflict_policy : FileConflictPolicy
  pub info : FileTransferInfo
  pub get_state : Option DurableControllerGetState

abbrev pub durable_record : ControllerFileTransferEntry → DurableControllerFileTransfer
durable_record (put_entry i site policy cancel) = record {
  site_id = site;
  conflict_policy = policy;
  info = put i;
  get_state = none;
}
durable_record (get_entry i site policy durable_state cancel) = record {
  site_id = site;
  conflict_policy = policy;
  info = get i;
  get_state = durable_state;
}

pub record ControllerFileTransferSnapshot : Type 0 where
  pub controller_id : ℕ
  pub generation : ℕ
  pub transfers : List DurableControllerFileTransfer

-- The source's errors; those of the file system and of the remote services keep no payload.
pub data ControllerFileTransferError : Type 0 where
  state_poisoned capacity controller_mismatch : ControllerFileTransferError
  state_generation_overflow destination_conflict : ControllerFileTransferError
  invalid_source_path invalid_device_path invalid_destination_path : ControllerFileTransferError
  invalid_source source_too_large invalid_local_checkpoint : ControllerFileTransferError
  final_hash_mismatch worker_failed transfer_cancelled : ControllerFileTransferError
  unexpected_reply remote_hub io : ControllerFileTransferError
  invalid_persisted_state invalid_host_manifest : Str → ControllerFileTransferError
  invalid_host_status remote : Str → ControllerFileTransferError
  state_generation_conflict not_found : ℕ → ControllerFileTransferError
  transfer_id_conflict invalid_chunk_size : ℕ → ControllerFileTransferError
  protocol : FileTransferError → ControllerFileTransferError
  resume : FileResumeError → ControllerFileTransferError
  state_codec : StateCodecError → ControllerFileTransferError

-- The loop of `prune_terminal`, on fuel: each round removes an entry.
unfoldable pub first_terminal : Map ControllerFileTransferEntry → Option ℕ
unfolding terminal
first_terminal [] = none
first_terminal ((k, e) ∷ m) = if terminal (phase_of e) then some k else first_terminal m

unfoldable pub prune_from : ℕ → Map ControllerFileTransferEntry → Map ControllerFileTransferEntry
unfolding first_terminal
prune_from zero m = m
prune_from (suc n) m = elim (first_terminal m) [
  | none ↦ m
  | some k ↦
      let rest = prune_from n (remove k m) in
      if leb hard_max_controller_file_transfers (length m) then rest else m
]

unfoldable pub prune_terminal : Map ControllerFileTransferEntry → Map ControllerFileTransferEntry
unfolding prune_from
prune_terminal m = prune_from (length m) m
