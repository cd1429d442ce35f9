-- ===== src/Proto/Wire.antt =====
-- crates/clew-proto/src/validate.rs: the checks of wire messages and the negotiation of limits and
-- features. The messages are those of proto/clew/v1/clew.proto; encoding and decoding them (prost)
-- is a parameter. An enumeration's field holds its number, an `i32`, as 32 bits.
pub mod Ids
pub mod Negotiation
use clew.Prelude.{
  ℕ, Bool, true, false, not, ◌&&◌, ◌||◌, Option, none, some, List, [], ◌∷◌, min, u64_max,
}
use clew.Prelude.Tests.{ltb, leb, ◌==◌}
use clew.Prelude.Lists.{length, any, is_empty, mem_ℕ, retain}
use clew.Prelude.Outcome.{Result, ok, err, ◌>>=◌, ◌>>◌, reject, ok_or, map_err}
use clew.Prelude.Text.{Str, str, byte_len}
use clew.Identity.Keys.{Bytes, id_from_bytes}
use clew.Proto.{wire_major, hard_max_frame_size, hard_max_concurrent_requests}

abbrev id_bytes : ℕ
id_bytes = 16

abbrev max_software_version_bytes : ℕ
max_software_version_bytes = 128

abbrev max_error_message_bytes : ℕ
max_error_message_bytes = 4096

pub data Feature : Type 0 where
  unspecified tool_rpc shell_task forward socks5 http_connect file_resume : Feature

-- `feature as i32`
unfoldable pub feature_number : Feature → ℕ
feature_number unspecified = 0
feature_number tool_rpc = 1
feature_number shell_task = 2
feature_number forward = 3
feature_number socks5 = 4
feature_number http_connect = 5
feature_number file_resume = 6

abbrev pub implemented_features : List Feature
implemented_features = tool_rpc ∷ shell_task ∷ forward ∷ socks5 ∷ http_connect ∷ file_resume ∷ []

pub record Hello : Type 0 where
  pub wire_major : ℕ
  pub capability_version : ℕ
  pub software_version : Str
  pub role : ℕ
  pub device_id : Option Bytes
  pub features : List ℕ
  pub max_frame_size : ℕ
  pub max_concurrent_requests : ℕ

pub data RequestBody : Type 0 where
  ping : RequestBody

pub record RequestEnvelope : Type 0 where
  pub request_id : Bytes
  pub trace_id : Option Bytes
  pub deadline_ms : Option ℕ
  pub body : Option RequestBody

pub record Error : Type 0 where
  pub code : ℕ
  pub message : Str
  pub retryable : Bool

pub data ResponseResult : Type 0 where
  success : ResponseResult
  error : Error → ResponseResult

pub record ResponseEnvelope : Type 0 where
  pub request_id : Bytes
  pub result : Option ResponseResult

pub data WireValidationError : Type 0 where
  frame_too_large : ℕ → ℕ → WireValidationError
  decode : WireValidationError
  unsupported_wire_major : ℕ → ℕ → WireValidationError
  missing_field zero_id : Str → WireValidationError
  invalid_length : Str → ℕ → ℕ → WireValidationError
  invalid_enum : Str → ℕ → WireValidationError
  out_of_range : Str → ℕ → ℕ → ℕ → WireValidationError
  string_too_long : Str → ℕ → ℕ → WireValidationError

unfoldable pub check_frame_size : ℕ → Result WireValidationError (Unit {0})
check_frame_size actual =
    reject (ltb hard_max_frame_size actual) (frame_too_large actual hard_max_frame_size)

-- `decode` is prost's, of the message's type.
unfoldable pub decode_wire_message :
    {M : Type 0} → (Bytes → Option M) → Bytes → Result WireValidationError M
unfolding check_frame_size
decode_wire_message decode_with input = do
  check_frame_size (length input)
  ok_or (decode_with input) decode

-- `encode_to_vec` is prost's; `encoded_len` is the length of what it makes.
unfoldable pub encode_wire_message :
    {M : Type 0} → (M → Bytes) → M → Result WireValidationError Bytes
unfolding check_frame_size
encode_wire_message encode_with message = do
  check_frame_size (length (encode_with message))
  ok (encode_with message)

unfoldable pub validate_id_bytes : Str → Bytes → Result WireValidationError (Unit {0})
unfolding any
validate_id_bytes field bytes = do
  reject (not (length bytes == id_bytes)) (invalid_length field (length bytes) id_bytes)
  reject (not (any (λ byte. not (byte == 0)) bytes)) (zero_id field)

unfoldable pub validate_optional_id : Str → Option Bytes → Result WireValidationError (Unit {0})
unfolding validate_id_bytes
validate_optional_id field none = ok tt
validate_optional_id field (some bytes) = validate_id_bytes field bytes

-- Hello::validate_wire
unfoldable pub validate_hello : Hello → Result WireValidationError (Unit {0})
validate_hello hello = do
  reject (not (hello.wire_major == wire_major)) (unsupported_wire_major hello.wire_major wire_major)
  reject (hello.capability_version == 0) (out_of_range (str "capability_version") 0 1 u64_max)
  reject (is_empty hello.software_version) (missing_field (str "software_version"))
  reject (ltb max_software_version_bytes (byte_len hello.software_version)) (
      string_too_long (str "software_version") (byte_len hello.software_version)
        max_software_version_bytes)
  reject (hello.role == 0 || ltb 2 hello.role) (invalid_enum (str "role") hello.role)
  validate_optional_id (str "device_id") hello.device_id
  reject (mem_ℕ 0 hello.features) (invalid_enum (str "features") 0)
  reject (hello.max_frame_size == 0 || ltb hard_max_frame_size hello.max_frame_size)
      (out_of_range (str "max_frame_size") hello.max_frame_size 1 hard_max_frame_size)
  reject
      (hello.max_concurrent_requests == 0
        || ltb hard_max_concurrent_requests hello.max_concurrent_requests)
      (out_of_range (str "max_concurrent_requests") hello.max_concurrent_requests 1
        hard_max_concurrent_requests)

-- RequestEnvelope::validate_wire
unfoldable pub validate_request : RequestEnvelope → Result WireValidationError (Unit {0})
unfolding validate_id_bytes validate_optional_id
validate_request request = do
  validate_id_bytes (str "request_id") request.request_id
  validate_optional_id (str "trace_id") request.trace_id
  body ← ok_or request.body (missing_field (str "body"))
  ok tt

-- Error::validate_wire
unfoldable pub validate_error : Error → Result WireValidationError (Unit {0})
unfolding byte_len
validate_error e = do
  reject (e.code == 0) (invalid_enum (str "error.code") 0)
  reject (ltb max_error_message_bytes (byte_len e.message))
      (string_too_long (str "error.message") (byte_len e.message) max_error_message_bytes)

unfoldable pub validate_result : ResponseResult → Result WireValidationError (Unit {0})
unfolding validate_error
validate_result success = ok tt
validate_result (error e) = validate_error e

-- ResponseEnvelope::validate_wire
unfoldable pub validate_response : ResponseEnvelope → Result WireValidationError (Unit {0})
unfolding validate_id_bytes validate_result
validate_response response = do
  validate_id_bytes (str "request_id") response.request_id
  result ← ok_or response.result (missing_field (str "result"))
  validate_result result

-- The identifier that a Hello names, where it names one.
unfoldable pub id_of : Option Bytes → Result WireValidationError (Option ℕ)
unfolding validate_id_bytes id_from_bytes
id_of none = ok none
id_of (some raw) = do
  validate_id_bytes (str "device_id") raw
  id ← ok_or (id_from_bytes raw) (zero_id (str "device_id"))
  ok (some id)

unfoldable pub hello_device_id : Hello → Result WireValidationError (Option ℕ)
unfolding id_of
hello_device_id hello = id_of hello.device_id

unfoldable pub hello_advertises_feature : Hello → Feature → Bool
unfolding feature_number
hello_advertises_feature hello feature = mem_ℕ (feature_number feature) hello.features

unfoldable pub hello_advertises_file_resume : Hello → Bool
unfolding hello_advertises_feature
hello_advertises_file_resume hello = hello_advertises_feature hello file_resume

unfoldable pub locally_implements_feature : Feature → Bool
unfolding any feature_number
locally_implements_feature feature =
    any (λ implemented. feature_number implemented == feature_number feature) implemented_features

unfoldable pub feature_negotiated : Hello → Hello → Feature → Result WireValidationError Bool
unfolding locally_implements_feature hello_advertises_feature
feature_negotiated own peer feature = do
  validate_hello own
  validate_hello peer
  ok (
      locally_implements_feature feature
      && hello_advertises_feature own feature
      && hello_advertises_feature peer feature)

pub record NegotiatedLimits : Type 0 where
  pub max_frame_size : ℕ
  pub max_concurrent_requests : ℕ

unfoldable pub negotiate_limits : Hello → Hello → Result WireValidationError NegotiatedLimits
negotiate_limits own peer = do
  validate_hello own
  validate_hello peer
  ok (record {
    max_frame_size = min own.max_frame_size peer.max_frame_size;
    max_concurrent_requests = min own.max_concurrent_requests peer.max_concurrent_requests;
  })

unfoldable pub negotiated_implemented_features :
    Hello → Hello → Result WireValidationError (List Feature)
unfolding retain hello_advertises_feature
negotiated_implemented_features own peer = do
  validate_hello own
  validate_hello peer
  ok (
      retain
        (λ feature. hello_advertises_feature own feature && hello_advertises_feature peer feature)
        implemented_features)
