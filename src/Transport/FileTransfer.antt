-- ===== src/Transport/FileTransfer.antt =====
-- crates/clew-transport/src/file_transfer.rs: the manifest of a file transfer and its validation.
use clew.Prelude.{ℕ, zero, suc, ◌*◌, Bool, not, ◌&&◌, ◌||◌, Option, none, some, List, [], ◌∷◌}
use clew.Prelude.Tests.{ltb, leb, ◌==◌, list_eq}
use clew.Prelude.Lists.{any, is_empty, mem_ℕ}
use clew.Prelude.Outcome.{Result, ok, err, ◌>>◌, reject}
use clew.Prelude.Text.{Str, byte_len, trim, contains_char}
use clew.Core.Error.{hard_max_read_root_bytes}
use clew.Transport.FileResume.{
  FileTransferDirection, controller_to_device, device_to_controller, empty_sha256_hex,
}

abbrev pub file_transfer_manifest_version : ℕ
file_transfer_manifest_version = 1

abbrev pub min_file_chunk_bytes : ℕ
min_file_chunk_bytes = 4 * 1024

abbrev pub max_file_chunk_bytes : ℕ
max_file_chunk_bytes = 32 * 1024

pub data FileConflictPolicy : Type 0 where
  fail_if_exists replace_existing rename_if_exists : FileConflictPolicy

pub record FileTransferManifest : Type 0 where
  pub version : ℕ
  pub transfer_id : ℕ
  pub controller_id : ℕ
  pub site_id : ℕ
  pub device_id : ℕ
  pub direction : FileTransferDirection
  pub device_path : Str
  pub total_size : ℕ
  pub chunk_size : ℕ
  pub final_sha256 : Str
  pub device_conflict_policy : Option FileConflictPolicy

-- The errors that `validate` answers.
pub data FileTransferError : Type 0 where
  unsupported_manifest_version : ℕ → FileTransferError
  invalid_device_path : FileTransferError
  invalid_chunk_size : ℕ → FileTransferError
  invalid_sha256 empty_file_hash_mismatch missing_device_conflict_policy : FileTransferError
  controller_private_conflict_policy_leaked : FileTransferError

-- The powers of two from `p` on, `n` of them.
abbrev doublings : ℕ → ℕ → List ℕ
doublings zero p = []
doublings (suc n) p = p ∷ doublings n (p * 2)

-- `u32::is_power_of_two`
unfoldable pub is_power_of_two : ℕ → Bool
is_power_of_two n = mem_ℕ n (doublings 32 1)

-- The test of a chunk size, which the manifest and the Controller share.
unfoldable pub is_invalid_chunk_size : ℕ → Bool
unfolding is_power_of_two
is_invalid_chunk_size n =
    ltb n min_file_chunk_bytes || ltb max_file_chunk_bytes n || not (is_power_of_two n)

-- The test of a path of at most `bound` bytes.
unfoldable pub is_invalid_path : ℕ → Str → Bool
is_invalid_path bound path =
    is_empty (trim path) || ltb bound (byte_len path) || contains_char 0 path

-- `validate_sha256` and the test in `validate_persisted_progress` of the Controller
unfoldable pub is_invalid_sha256 : Str → Bool
is_invalid_sha256 value =
    not (byte_len value == 64)
    || any (λ c. not ((leb 48 c && leb c 57) || (leb 97 c && leb c 102))) value

-- The match on direction and policy at the end of `validate`.
unfoldable pub check_policy :
    FileTransferDirection → Option FileConflictPolicy → Result FileTransferError (Unit {0})
check_policy controller_to_device (some policy) = ok tt
check_policy device_to_controller none = ok tt
check_policy controller_to_device none = err missing_device_conflict_policy
check_policy device_to_controller (some policy) = err controller_private_conflict_policy_leaked

-- FileTransferManifest::validate
unfoldable pub validate_manifest : FileTransferManifest → Result FileTransferError (Unit {0})
unfolding is_invalid_chunk_size is_invalid_path is_invalid_sha256 check_policy
validate_manifest m = do
  reject (not (m.version == file_transfer_manifest_version))
      (unsupported_manifest_version m.version)
  reject (is_invalid_path hard_max_read_root_bytes m.device_path) invalid_device_path
  reject (is_invalid_chunk_size m.chunk_size) (invalid_chunk_size m.chunk_size)
  reject (is_invalid_sha256 m.final_sha256) invalid_sha256
  reject (m.total_size == 0 && not (list_eq m.final_sha256 empty_sha256_hex))
      empty_file_hash_mismatch
  check_policy m.direction m.device_conflict_policy
