-- ===== src/Core/Error.antt =====
-- crates/clew-core/src/control.rs: `ControlModelError` and the hard limits.
use clew.Prelude.{ℕ, ◌*◌}

abbrev pub hard_max_read_result_bytes : ℕ
hard_max_read_result_bytes = 48 * 1024

abbrev pub hard_max_read_timeout_ms : ℕ
hard_max_read_timeout_ms = 30_000

abbrev pub hard_max_read_roots : ℕ
hard_max_read_roots = 16

abbrev pub hard_max_read_root_bytes : ℕ
hard_max_read_root_bytes = 2048

abbrev pub hard_max_activity_events : ℕ
hard_max_activity_events = 1024

abbrev pub hard_activity_retention_ms : ℕ
hard_activity_retention_ms = 7 * 24 * 60 * 60 * 1000

pub data ControlModelError : Type 0 where
  ambiguous_filesystem_scope invalid_read_root invalid_name : ControlModelError
  invalid_activity_operation invalid_activity_path : ControlModelError
  too_many_read_roots : ℕ → ControlModelError
  invalid_read_result_limit : ℕ → ControlModelError
  invalid_read_timeout : ℕ → ControlModelError
  unknown_site : ℕ → ControlModelError
  unknown_device : ℕ → ControlModelError
  site_conflict : ℕ → ControlModelError
  device_conflict : ℕ → ControlModelError
