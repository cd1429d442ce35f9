-- ===== src/Examples/Wire.antt =====
-- The theorems on the wire protocol, applied to the Hellos of a Controller and a Host.
use clew.Prelude.{ℕ, ◌≡◌, refl, some, List, [], ◌∷◌}
use clew.Prelude.Outcome.{ok}
use clew.Prelude.Text.{str, byte_len}
use clew.Proto.Wire.{
  Hello, Feature, validate_hello, negotiate_limits, negotiated_implemented_features,
  hello_device_id, validate_optional_id,
}
use clew.Proto.Wire.Negotiation.{
  IsAgreed, IsCommon, negotiate_limits_lem, negotiated_implemented_features_lem,
}
use clew.Proto.Wire.Ids.{hello_device_id_lem, named}
use clew.Examples.Toy.{repeat}

abbrev hello : ℕ → List ℕ → ℕ → Hello
hello role features frame = record {
  wire_major = 1;
  capability_version = 1;
  software_version = str "0.3.0";
  role = role;
  device_id = some (repeat 16 5);
  features = features;
  max_frame_size = frame;
  max_concurrent_requests = 64;
}

-- The Host knows a feature that this build does not.
abbrev own : Hello
own = hello 2 (1 ∷ 2 ∷ 6 ∷ []) 1_048_576

abbrev peer : Hello
peer = hello 1 (2 ∷ 6 ∷ 9 ∷ 4 ∷ []) 65_536

own_valid : validate_hello own ≡ ok tt
unfolding validate_hello validate_optional_id byte_len
own_valid = refl

negotiate_limits_lem_example :
    IsAgreed own peer (record { max_frame_size = 65_536; max_concurrent_requests = 64 })
unfolding negotiate_limits validate_hello validate_optional_id byte_len
negotiate_limits_lem_example =
    negotiate_limits_lem own peer (record { max_frame_size = 65_536; max_concurrent_requests = 64 })
      refl

negotiated_implemented_features_lem_example :
    IsCommon own peer (Feature.shell_task ∷ Feature.file_resume ∷ [])
unfolding negotiated_implemented_features validate_hello validate_optional_id byte_len
negotiated_implemented_features_lem_example =
    negotiated_implemented_features_lem own peer (Feature.shell_task ∷ Feature.file_resume ∷ [])
      refl

hello_device_id_lem_example : hello_device_id own ≡ ok (named own.device_id)
hello_device_id_lem_example = hello_device_id_lem own own_valid
