-- ===== src/Core/Selection.antt =====
-- crates/clew-core/src/selection.rs: the choice of the Device that a command runs on. The parser
-- and the printer of identifiers are the `uuid` library's: they are parameters.
pub mod Sound
use clew.Prelude.{ℕ, Bool, not, ◌&&◌, Option, none, some, List, [], ◌∷◌, ◌++◌, map}
use clew.Prelude.Tests.{◌==◌, if◌then◌else◌, list_eq}
use clew.Prelude.Lists.{find?, retain, is_empty}
use clew.Prelude.Outcome.{Result, ok, err, ◌>>=◌, ◌>>◌, reject, ok_or}
use clew.Prelude.Text.{Str, str, trim}
use clew.Core.Device.{DeviceSummary}

pub data DeviceSelectionError : Type 0 where
  no_online_executable_device : DeviceSelectionError
  ambiguous : List Str → DeviceSelectionError
  not_found : Str → DeviceSelectionError
  not_executable : ℕ → DeviceSelectionError
  offline : ℕ → DeviceSelectionError

-- `str::split_once` at a character
unfoldable pub split_once : ℕ → Str → Option (Str × Str)
split_once separator [] = none
split_once separator (c ∷ s) =
    let rest = split_once separator s in
    if c == separator
    then some ([], s)
    else elim rest [ none ↦ none | some (before, after) ↦ some (c ∷ before, after) ]

-- `selector.map(str::trim).filter(|value| !value.is_empty())`
unfoldable pub trimmed_selector : Option Str → Option Str
trimmed_selector none = none
trimmed_selector (some selector) =
    let value = trim selector in if is_empty value then none else some value

abbrev pub is_ready : DeviceSummary → Bool
is_ready d = d.online && d.executable

module _ (show_id : ℕ → Str) where
  unfoldable pub candidate : DeviceSummary → Str
  candidate d =
      d.site_name ++ (str "/" ++ (d.display_name ++ (str " [" ++ (show_id d.device_id ++ str "]"))))

  unfoldable pub unique_match : Str → List DeviceSummary → Result DeviceSelectionError ℕ
  unfolding candidate
  unique_match selector [] = err (not_found selector)
  unique_match selector (only ∷ []) = ok only.device_id
  unique_match selector (d ∷ e ∷ ds) = err (ambiguous (map candidate (d ∷ e ∷ ds)))

  -- The answer where there is no selector.
  unfoldable pub only_ready : List DeviceSummary → Result DeviceSelectionError ℕ
  unfolding candidate
  only_ready [] = err no_online_executable_device
  only_ready (only ∷ []) = ok only.device_id
  only_ready (d ∷ e ∷ ds) = err (ambiguous (map candidate (d ∷ e ∷ ds)))

  -- The answer to a selector that is an identifier.
  unfoldable pub select_by_id : List DeviceSummary → Str → ℕ → Result DeviceSelectionError ℕ
  select_by_id devices selector device_id = do
    device ←
        ok_or (find? (λ (d : DeviceSummary). d.device_id == device_id) devices) (not_found selector)
    reject (not device.executable) (not_executable device_id)
    reject (not device.online) (offline device_id)
    ok device_id

  -- The answer to a selector that is a name, or a Site and a name.
  unfoldable pub select_by_name : List DeviceSummary → Str → Result DeviceSelectionError ℕ
  unfolding unique_match split_once
  select_by_name ready selector = elim (split_once 47 selector) [
    | some (site, name) ↦
        unique_match selector
          (retain (λ d. list_eq d.site_name site && list_eq d.display_name name) ready)
    | none ↦ unique_match selector (retain (λ d. list_eq d.display_name selector) ready)
  ]

  unfoldable pub select_executable_device :
      (Str → Option ℕ) → List DeviceSummary → Option Str → Result DeviceSelectionError ℕ
  unfolding trimmed_selector only_ready select_by_id select_by_name
  select_executable_device parse devices selector = elim (trimmed_selector selector) [
    | none ↦ only_ready (retain is_ready devices)
    | some value ↦ elim (parse value) [
      | some device_id ↦ select_by_id devices value device_id
      | none ↦ select_by_name (retain is_ready devices) value
    ]
  ]
