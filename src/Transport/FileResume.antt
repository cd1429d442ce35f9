-- ===== src/Transport/FileResume.antt =====
-- crates/clew-transport/src/file_resume.rs: the checkpoint of a file transfer, its validation, and
-- the rule by which a checkpoint may follow another.
pub mod Chain
use clew.Prelude.{ℕ, ◌*◌, Bool, true, false, not, ◌&&◌, ◌||◌, Option, none, some, List, [], ◌∷◌}
use clew.Prelude.Tests.{ltb, leb, ◌==◌, list_eq, if◌then◌else◌}
use clew.Prelude.Lists.{length, any, is_empty}
use clew.Prelude.Outcome.{Result, ok, err, ◌>>=◌, ◌>>◌, reject, ok_or}
use clew.Prelude.Text.{Str, str, byte_len, trim, contains_char}
use clew.Core.Error.{hard_max_read_root_bytes}

abbrev pub file_resume_descriptor_version : ℕ
file_resume_descriptor_version = 1

abbrev pub max_file_resume_descriptor_bytes : ℕ
max_file_resume_descriptor_bytes = 8 * 1024

abbrev pub empty_sha256_hex : Str
empty_sha256_hex = str "e3b0c44298fc1c149afbf4c8996fb92427ae41e4649b934ca495991b7852b855"

pub data FileTransferDirection : Type 0 where
  controller_to_device device_to_controller : FileTransferDirection

pub data Scope : Type 0 where
  transfer_id controller_id site_id device_id direction device_path total_size : Scope

pub data HashField : Type 0 where
  confirmed_prefix final : HashField

pub data FileResumeError : Type 0 where
  invalid_path invalid_checkpoint_revision invalid_empty_prefix_hash : FileResumeError
  missing_final_sha256_for_complete completed_hash_mismatch already_complete : FileResumeError
  prefix_hash_changed_at_same_offset final_hash_changed json : FileResumeError
  unsupported_version : ℕ → FileResumeError
  offset_beyond_end : ℕ → ℕ → FileResumeError
  invalid_sha256 : HashField → FileResumeError
  scope_changed : Scope → FileResumeError
  stale_checkpoint_revision : ℕ → ℕ → FileResumeError
  offset_regressed : ℕ → ℕ → FileResumeError
  encoded_too_large : ℕ → FileResumeError

pub record FileResumeDescriptor : Type 0 where
  pub version : ℕ
  pub transfer_id : ℕ
  pub controller_id : ℕ
  pub site_id : ℕ
  pub device_id : ℕ
  pub direction : FileTransferDirection
  pub device_path : Str
  pub total_size : ℕ
  pub checkpoint_revision : ℕ
  pub confirmed_offset : ℕ
  pub confirmed_prefix_sha256 : Str
  pub final_sha256 : Option Str

-- serde_json, which is not under the repository: `to_vec` and `from_slice`.
pub record DescriptorJson : Type 0 where
  pub to_vec : FileResumeDescriptor → Option (List ℕ)
  pub from_slice : List ℕ → Option FileResumeDescriptor

unfoldable pub validate_path : Str → Result FileResumeError (Unit {0})
validate_path path =
    reject
      (is_empty (trim path) || ltb hard_max_read_root_bytes (byte_len path) || contains_char 0 path)
      invalid_path

-- A byte that is not a digit or one of `a` to `f`.
abbrev is_not_hex : ℕ → Bool
is_not_hex c = not ((leb 48 c && leb c 57) || (leb 97 c && leb c 102))

unfoldable pub validate_sha256 : HashField → Str → Result FileResumeError (Unit {0})
validate_sha256 field value =
    reject (not (byte_len value == 64) || any is_not_hex value) (invalid_sha256 field)

unfoldable pub is_complete : FileResumeDescriptor → Bool
is_complete d = d.confirmed_offset == d.total_size

-- The match on `final_sha256` at the end of `validate`.
unfoldable pub validate_final :
    FileResumeDescriptor → Option Str → Result FileResumeError (Unit {0})
unfolding validate_sha256 is_complete
validate_final d (some final_sha256) = do
  validate_sha256 final final_sha256
  reject (is_complete d && not (list_eq final_sha256 d.confirmed_prefix_sha256))
      completed_hash_mismatch
validate_final d none = reject (is_complete d) missing_final_sha256_for_complete

-- FileResumeDescriptor::validate
unfoldable pub validate : FileResumeDescriptor → Result FileResumeError (Unit {0})
unfolding validate_path validate_sha256 validate_final
validate d = do
  reject (not (d.version == file_resume_descriptor_version)) (unsupported_version d.version)
  validate_path d.device_path
  reject (d.checkpoint_revision == 0) invalid_checkpoint_revision
  reject (ltb d.total_size d.confirmed_offset) (offset_beyond_end d.confirmed_offset d.total_size)
  validate_sha256 confirmed_prefix d.confirmed_prefix_sha256
  reject (d.confirmed_offset == 0 && not (list_eq d.confirmed_prefix_sha256 empty_sha256_hex))
      invalid_empty_prefix_hash
  validate_final d d.final_sha256

abbrev pub same_direction : FileTransferDirection → FileTransferDirection → Bool
same_direction controller_to_device controller_to_device = true
same_direction device_to_controller device_to_controller = true
same_direction _ _ = false

-- A final hash that was known, and is not the next one.
abbrev pub final_differs : Option Str → Option Str → Bool
final_differs none next = false
final_differs (some previous) none = true
final_differs (some previous) (some next) = not (list_eq next previous)

-- The comparisons of `validate_successor_of`, after both descriptors are validated.
unfoldable pub check_scope :
    FileResumeDescriptor → FileResumeDescriptor → Result FileResumeError (Unit {0})
check_scope next previous = do
  reject (not (next.transfer_id == previous.transfer_id)) (scope_changed transfer_id)
  reject (not (next.controller_id == previous.controller_id)) (scope_changed controller_id)
  reject (not (next.site_id == previous.site_id)) (scope_changed site_id)
  reject (not (next.device_id == previous.device_id)) (scope_changed device_id)
  reject (not (same_direction next.direction previous.direction)) (scope_changed direction)
  reject (not (list_eq next.device_path previous.device_path)) (scope_changed device_path)
  reject (not (next.total_size == previous.total_size)) (scope_changed total_size)

unfoldable pub check_progress :
    FileResumeDescriptor → FileResumeDescriptor → Result FileResumeError (Unit {0})
check_progress next previous = do
  reject (leb next.checkpoint_revision previous.checkpoint_revision)
      (stale_checkpoint_revision previous.checkpoint_revision next.checkpoint_revision)
  reject (ltb next.confirmed_offset previous.confirmed_offset)
      (offset_regressed previous.confirmed_offset next.confirmed_offset)
  reject
      (next.confirmed_offset == previous.confirmed_offset
        && not (list_eq next.confirmed_prefix_sha256 previous.confirmed_prefix_sha256))
      prefix_hash_changed_at_same_offset
  reject (final_differs previous.final_sha256 next.final_sha256) final_hash_changed

-- FileResumeDescriptor::validate_successor_of
unfoldable pub validate_successor_of :
    FileResumeDescriptor → FileResumeDescriptor → Result FileResumeError (Unit {0})
unfolding validate is_complete check_scope check_progress
validate_successor_of next previous = do
  validate previous
  validate next
  reject (is_complete previous) already_complete
  check_scope next previous
  check_progress next previous

module _ (serde : DescriptorJson) where
  -- FileResumeDescriptor::encode
  unfoldable pub encode : FileResumeDescriptor → Result FileResumeError (List ℕ)
  unfolding validate
  encode d = do
    validate d
    encoded ← ok_or (serde.to_vec d) json
    reject (ltb max_file_resume_descriptor_bytes (length encoded))
        (encoded_too_large (length encoded))
    ok encoded

  -- FileResumeDescriptor::decode
  unfoldable pub decode : List ℕ → Result FileResumeError FileResumeDescriptor
  unfolding validate
  decode encoded = do
    reject (ltb max_file_resume_descriptor_bytes (length encoded))
        (encoded_too_large (length encoded))
    d ← ok_or (serde.from_slice encoded) json
    validate d
    ok d
