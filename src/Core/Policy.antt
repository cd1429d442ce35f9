-- ===== src/Core/Policy.antt =====
-- crates/clew-core/src/control.rs: `ReadPolicy`, `ControllerSiteRecord`, `ActivityEvent` and
-- `validate_name`.
use clew.Prelude.{ℕ, Bool, true, false, ◌&&◌, ◌||◌, not, Option, none, some, List, []}
use clew.Prelude.Tests.{ltb, ◌==◌}
use clew.Prelude.Outcome.{Result, ok, ◌>>◌, reject, for_each}
use clew.Prelude.Lists.{length, is_empty}
use clew.Prelude.Text.{Str, trim, byte_len}
use clew.Core.Error.{
  ControlModelError, ambiguous_filesystem_scope, invalid_read_root, invalid_name,
  invalid_activity_operation, invalid_activity_path, too_many_read_roots, invalid_read_result_limit,
  invalid_read_timeout, hard_max_read_result_bytes, hard_max_read_timeout_ms, hard_max_read_roots,
  hard_max_read_root_bytes,
}

pub record ReadPolicy : Type 0 where
  pub all_filesystem : Bool
  pub roots : List Str
  pub max_result_bytes : ℕ
  pub timeout_ms : ℕ

unfoldable pub validate_root : Str → Result ControlModelError (Unit {0})
validate_root root =
    let trimmed = trim root in
    reject (is_empty trimmed || ltb hard_max_read_root_bytes (byte_len trimmed)) invalid_read_root

-- ReadPolicy::validate
unfoldable pub validate_policy : ReadPolicy → Result ControlModelError (Unit {0})
validate_policy p = do
  reject (p.all_filesystem && not (is_empty p.roots)) ambiguous_filesystem_scope
  reject (ltb hard_max_read_roots (length p.roots)) (too_many_read_roots (length p.roots))
  for_each validate_root p.roots
  reject (p.max_result_bytes == 0 || ltb hard_max_read_result_bytes p.max_result_bytes)
      (invalid_read_result_limit p.max_result_bytes)
  reject (p.timeout_ms == 0 || ltb hard_max_read_timeout_ms p.timeout_ms)
      (invalid_read_timeout p.timeout_ms)

-- ReadPolicy::new
unfoldable pub new_policy : List Str → ℕ → ℕ → Result ControlModelError ReadPolicy
new_policy roots max_result_bytes timeout_ms = do
  let policy : ReadPolicy = record {
    all_filesystem = false;
    roots = roots;
    max_result_bytes = max_result_bytes;
    timeout_ms = timeout_ms;
  }
  validate_policy policy
  ok policy

-- ReadPolicy::all_filesystem
unfoldable pub all_filesystem_policy : ℕ → ℕ → Result ControlModelError ReadPolicy
all_filesystem_policy max_result_bytes timeout_ms = do
  let policy : ReadPolicy = record {
    all_filesystem = true;
    roots = [];
    max_result_bytes = max_result_bytes;
    timeout_ms = timeout_ms;
  }
  validate_policy policy
  ok policy

unfoldable pub deny_all : ReadPolicy
deny_all = record {
  all_filesystem = false;
  roots = [];
  max_result_bytes = hard_max_read_result_bytes;
  timeout_ms = 5_000;
}

unfoldable pub allows_read : ReadPolicy → Bool
allows_read p = p.all_filesystem || not (is_empty p.roots)

unfoldable pub validate_name : Str → Result ControlModelError Str
validate_name value =
    let name = trim value in
    reject (is_empty name || ltb 128 (byte_len name)) invalid_name >> ok name

pub record ControllerSiteRecord : Type 0 where
  pub site_id : ℕ
  pub site_name : Str
  pub read_policy : ReadPolicy
  pub revoked : Bool

-- ControllerSiteRecord::validate
unfoldable pub validate_site : ControllerSiteRecord → Result ControlModelError (Unit {0})
validate_site s = do validate_name s.site_name; validate_policy s.read_policy

pub data ActivityResult : Type 0 where
  succeeded denied failed timed_out cancelled : ActivityResult

pub record ActivityEvent : Type 0 where
  pub sequence : ℕ
  pub unix_ms : ℕ
  pub site_id : ℕ
  pub device_id : ℕ
  pub operation : Str
  pub path_summary : Option Str
  pub result : ActivityResult
  pub duration_ms : ℕ
  pub transferred_bytes : ℕ

abbrev path_too_long : Option Str → Bool
path_too_long none = false
path_too_long (some value) = ltb hard_max_read_root_bytes (byte_len value)

-- ActivityEvent::validate
unfoldable pub validate_event : ActivityEvent → Result ControlModelError (Unit {0})
validate_event e = do
  reject (is_empty e.operation || ltb 64 (byte_len e.operation)) invalid_activity_operation
  reject (path_too_long e.path_summary) invalid_activity_path
