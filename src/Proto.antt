-- ===== src/Proto.antt =====
-- crates/clew-proto: the limits of the wire protocol and the checks of its messages.
pub mod Wire
use clew.Prelude.{ℕ, ◌*◌}

abbrev pub wire_major : ℕ
wire_major = 1

abbrev pub hard_max_frame_size : ℕ
hard_max_frame_size = 16 * 1024 * 1024

abbrev pub hard_max_concurrent_requests : ℕ
hard_max_concurrent_requests = 4096
