-- ===== src/Core/State.antt =====
-- crates/clew-core/src/state.rs: the versioned JSON document of a state file. serde_json is not
-- under the repository: it is the fields of `Json`.
use clew.Prelude.{ℕ, ◌*◌, not, Option, List}
use clew.Prelude.Tests.{ltb, ◌==◌}
use clew.Prelude.Lists.{length}
use clew.Prelude.Outcome.{Result, ok, ◌>>=◌, ◌>>◌, reject, ok_or}

abbrev pub state_schema_version : ℕ
state_schema_version = 1

abbrev pub max_state_document_size : ℕ
max_state_document_size = 16 * 1024 * 1024

pub data StateCodecError : Type 0 where
  json : StateCodecError
  document_too_large : ℕ → StateCodecError
  unsupported_schema_version : ℕ → StateCodecError

pub record Json (T : Type 0) : Type 0 where
  -- `to_vec_pretty` of the envelope of a payload
  pub to_json : ℕ → T → Option (List ℕ)
  -- `from_slice` at the header, and at the envelope
  pub version_of : List ℕ → Option ℕ
  pub payload_of : List ℕ → Option T

unfoldable pub check_document_size : ℕ → Result StateCodecError (Unit {0})
check_document_size actual = reject (ltb max_state_document_size actual) (document_too_large actual)

module _ {T : Type 0} (serde : Json T) where
  unfoldable pub encode_state_json : T → Result StateCodecError (List ℕ)
  unfolding check_document_size
  encode_state_json payload = do
    encoded ← ok_or (serde.to_json state_schema_version payload) json
    check_document_size (length encoded)
    ok encoded

  unfoldable pub decode_state_json : List ℕ → Result StateCodecError T
  unfolding check_document_size
  decode_state_json input = do
    check_document_size (length input)
    version ← ok_or (serde.version_of input) json
    reject (not (version == state_schema_version)) (unsupported_schema_version version)
    ok_or (serde.payload_of input) json
