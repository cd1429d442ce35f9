-- ===== src/Core/Selection/Sound.antt =====
-- The Device that is selected is one of those given, online and able to execute.
use clew.Prelude.{ℕ, ◌≡◌, Bool, true, ◌&&◌, Option, some, List, [], ◌∷◌, arith, inl, inr}
use clew.Prelude.Tests.{◌==◌, list_eq, Option-cases}
use clew.Prelude.Lists.{find?, retain, any}
use clew.Prelude.Outcome.{ok}
use clew.Prelude.Text.{Str}
use clew.Core.Device.{DeviceSummary}
use clew.Core.Selection.{
  is_ready, unique_match, only_ready, select_by_id, select_by_name, split_once, trimmed_selector,
  select_executable_device,
}

-- A Device with this identifier.
abbrev has_id : ℕ → DeviceSummary → Bool
has_id k d = d.device_id == k

-- A Device with this identifier that is online and can execute.
abbrev pub is_choice : ℕ → DeviceSummary → Bool
is_choice k d = d.device_id == k && is_ready d

any-retain :
    (k : ℕ) (p : DeviceSummary → Bool) (ds : List DeviceSummary)
    → any (has_id k) (retain p ds) ≡ true
    → any (has_id k) ds ≡ true
unfolding any retain
any-retain k p [] h = h
any-retain k p (d ∷ ds) h = ground (arith, any-retain k p ds)

any-ready :
    (k : ℕ) (ds : List DeviceSummary)
    → any (has_id k) (retain is_ready ds) ≡ true
    → any (is_choice k) ds ≡ true
unfolding any retain
any-ready k [] h = h
any-ready k (d ∷ ds) h = ground (arith, any-ready k ds)

any-find :
    (k : ℕ) (ds : List DeviceSummary) (d : DeviceSummary)
    → find? (has_id k) ds ≡ some d
    → is_ready d ≡ true
    → any (is_choice k) ds ≡ true
unfolding any
any-find k [] d h r = cc
any-find k (e ∷ ds) d h r = ground (arith, any-find k ds d)

module _ (show_id : ℕ → Str) where
  unique_match-any :
      (k : ℕ) (s : Str) (ds : List DeviceSummary)
      → unique_match show_id s ds ≡ ok k
      → any (has_id k) ds ≡ true
  unfolding unique_match any
  unique_match-any k s [] h = cc
  unique_match-any k s (d ∷ []) h = ground arith
  unique_match-any k s (d ∷ e ∷ ds) h = cc

  only_ready-any :
      (k : ℕ) (ds : List DeviceSummary) → only_ready show_id ds ≡ ok k → any (has_id k) ds ≡ true
  unfolding only_ready any
  only_ready-any k [] h = cc
  only_ready-any k (d ∷ []) h = ground arith
  only_ready-any k (d ∷ e ∷ ds) h = cc

  select_by_id-any :
      (k i : ℕ) (s : Str) (ds : List DeviceSummary)
      → select_by_id show_id ds s i ≡ ok k
      → any (is_choice k) ds ≡ true
  unfolding select_by_id
  select_by_id-any k i s ds h = elim (Option-cases (find? (has_id i) ds)) [
    | inl missing ↦ absurd (ground (arith, h, missing))
    | inr (d, found) ↦
        let same : i ≡ k = ground (arith, h, found) in
        rw (← same) (any-find i ds d found (ground (arith, h, found)))
  ]

  select_by_name-any :
      (k : ℕ) (s : Str) (ds : List DeviceSummary)
      → select_by_name show_id ds s ≡ ok k
      → any (has_id k) ds ≡ true
  unfolding select_by_name
  select_by_name-any k s ds h = elim (Option-cases (split_once 47 s)) [
    | inl whole ↦
        any-retain k (λ d. list_eq d.display_name s) ds
          (unique_match-any k s (retain (λ d. list_eq d.display_name s) ds)
            (rw (whole, select_by_name) at h))
    | inr ((site, name), parts) ↦
        any-retain k (λ d. list_eq d.site_name site && list_eq d.display_name name) ds
          (unique_match-any k s
            (retain (λ d. list_eq d.site_name site && list_eq d.display_name name) ds)
            (rw (parts, select_by_name) at h))
  ]

  -- A Device that is selected, by whatever selector or by none and with whatever parser of
  -- identifiers, is among the given ones, where it is online and able to execute.
  pub select_executable_device_lem :
      (parse : Str → Option ℕ) (devices : List DeviceSummary) (selector : Option Str) (k : ℕ)
      → select_executable_device show_id parse devices selector ≡ ok k
      → any (is_choice k) devices ≡ true
  unfolding select_executable_device
  select_executable_device_lem parse devices selector k h =
      elim (Option-cases (trimmed_selector selector)) [
        | inl nothing ↦ any-ready k devices (
            only_ready-any k (retain is_ready devices)
              (rw (nothing, select_executable_device) at h))
        | inr (value, given) ↦ elim (Option-cases (parse value)) [
          | inr (i, parsed) ↦
              select_by_id-any k i value devices (rw (given, parsed, select_executable_device) at h)
          | inl name ↦ any-ready k devices (
              select_by_name-any k value (retain is_ready devices)
                (rw (given, name, select_executable_device) at h))
        ]
      ]
