-- ===== src/Examples/Naming.antt =====
-- The theorems on tags, applied to a hash that shows the generation's last byte.
use clew.Prelude.{◌≡◌, refl, Bool, [], ◌∷◌, ◌++◌, arith}
use clew.Prelude.Tests.{list_eq}
use clew.Prelude.Lists.{drop}
use clew.Prelude.Outcome.{ok}
use clew.Prelude.Bytes.{Bytes}
use clew.Core.Naming.{derive, allocate_device_tag, parse_tag}
use clew.Core.Naming.Allocation.{Allocated, allocate_device_tag_lem, parse_tag-derive}

abbrev last_byte : Bytes → Bytes
last_byte message = drop 38 message ++ 0 ∷ 0 ∷ 0 ∷ []

-- The tag of generation 6 is taken.
unfoldable is_occupied : Bytes → Bool
unfolding list_eq derive
is_occupied tag = list_eq tag (derive last_byte 40 6)

allocate_runs :
    allocate_device_tag last_byte 40 6 is_occupied
    ≡ ok (record { tag = derive last_byte 40 7; generation = 7 })
unfolding allocate_device_tag is_occupied
allocate_runs = refl

allocate_device_tag_lem_example :
    Allocated last_byte 40 6 is_occupied (allocate_device_tag last_byte 40 6 is_occupied)
allocate_device_tag_lem_example = allocate_device_tag_lem last_byte 40 6 is_occupied (omega arith)

parse_tag-derive_example : parse_tag (derive last_byte 40 7) ≡ ok (derive last_byte 40 7)
parse_tag-derive_example = parse_tag-derive last_byte 40 7
