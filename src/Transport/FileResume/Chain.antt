-- ===== src/Transport/FileResume/Chain.antt =====
-- Chains of checkpoints, each accepted as the successor of the one before.
use clew.Prelude.{
  ℕ, suc, ◌+◌, ◌≤◌, ◌<◌, ◌≡◌, ◌⊎◌, inl, inr, refl, sym, ◌∙◌, true, false, Option, none, some, arith,
}
use clew.Prelude.Tests.{list_eq, list_eq_iff, Bool-cases}
use clew.Prelude.Outcome.{ok, reject, ◌>>◌, checked, passed}
use clew.Prelude.Text.{Str}
use clew.Transport.FileResume.{
  FileResumeDescriptor, FileTransferDirection, controller_to_device, device_to_controller,
  same_direction, final_differs, is_complete, already_complete, validate, check_scope,
  check_progress, validate_successor_of,
}

-- Two checkpoints of one transfer: the same file of the same Device, in the same direction.
pub record SameScope (a b : FileResumeDescriptor) : Type 0 where
  pub transfer_id : a.transfer_id ≡ b.transfer_id
  pub controller_id : a.controller_id ≡ b.controller_id
  pub site_id : a.site_id ≡ b.site_id
  pub device_id : a.device_id ≡ b.device_id
  pub direction : a.direction ≡ b.direction
  pub device_path : a.device_path ≡ b.device_path
  pub total_size : a.total_size ≡ b.total_size

same_direction-eq : (a b : FileTransferDirection) → same_direction a b ≡ true → a ≡ b
same_direction-eq controller_to_device controller_to_device q = refl
same_direction-eq device_to_controller device_to_controller q = refl
same_direction-eq controller_to_device device_to_controller q = cc
same_direction-eq device_to_controller controller_to_device q = cc

check_scope-SameScope :
    (next previous : FileResumeDescriptor)
    → check_scope next previous ≡ ok tt
    → SameScope next previous
unfolding check_scope
check_scope-SameScope next previous q = record {
  transfer_id = ground (arith, q);
  controller_id = ground (arith, q);
  site_id = ground (arith, q);
  device_id = ground (arith, q);
  direction = same_direction-eq next.direction previous.direction (ground (arith, q));
  device_path = (list_eq_iff next.device_path previous.device_path).0 (ground (arith, q));
  total_size = ground (arith, q);
}

-- A checkpoint that goes on from another one: a later revision, no smaller offset, the same prefix
-- at the same offset, and the final hash kept where it was known.
pub record Progress (a b : FileResumeDescriptor) : Type 0 where
  pub revision : a.checkpoint_revision < b.checkpoint_revision
  pub offset : a.confirmed_offset ≤ b.confirmed_offset
  pub in_file : b.confirmed_offset ≤ b.total_size
  pub prefix :
      (a.confirmed_offset < b.confirmed_offset)
      ⊎ (a.confirmed_prefix_sha256 ≡ b.confirmed_prefix_sha256)
  pub final : (a.final_sha256 ≡ none) ⊎ (a.final_sha256 ≡ b.final_sha256)

same_final : (a b : Option Str) → final_differs a b ≡ false → (a ≡ none) ⊎ (a ≡ b)
same_final none b q = inl refl
same_final (some x) none q = cc
same_final (some x) (some y) q =
    let same : y ≡ x = (list_eq_iff y x).0 (ground (arith, q)) in inr (rw same refl)

check_progress-Progress :
    (next previous : FileResumeDescriptor)
    → check_progress next previous ≡ ok tt
    → next.confirmed_offset ≤ next.total_size
    → Progress previous next
unfolding check_progress
check_progress-Progress next previous q le = record {
  revision = ground (arith, q);
  offset = ground (arith, q);
  in_file = le;
  prefix =
      elim (Bool-cases (list_eq next.confirmed_prefix_sha256 previous.confirmed_prefix_sha256)) [
        | inl same ↦ inr (
            sym
              ((list_eq_iff next.confirmed_prefix_sha256 previous.confirmed_prefix_sha256).0 same))
        | inr differ ↦ inl (ground (arith, q))
      ];
  final = same_final previous.final_sha256 next.final_sha256 (ground (arith, q));
}

-- What `validate` requires of a complete checkpoint.
validate-offset :
    (d : FileResumeDescriptor) → validate d ≡ ok tt → d.confirmed_offset ≤ d.total_size
unfolding validate
validate-offset d q = ground (arith, q)

accepted :
    (next previous : FileResumeDescriptor)
    → validate_successor_of next previous ≡ ok tt
    → (validate next ≡ ok tt)
      × (is_complete previous ≡ false)
      × (check_scope next previous ≡ ok tt)
      × (check_progress next previous ≡ ok tt)
unfolding validate_successor_of
accepted next previous q =
    let scope_progress = check_scope next previous >> check_progress next previous in
    let open_check = reject (is_complete previous) already_complete in
    let (_, q1) =
      checked (validate previous) (validate next >> (open_check >> scope_progress)) tt q in
    let (v, q2) = checked (validate next) (open_check >> scope_progress) tt q1 in
    let (o, q3) = checked open_check scope_progress tt q2 in
    let (s, p) = checked (check_scope next previous) (check_progress next previous) tt q3 in
    (v, passed (is_complete previous) already_complete o, s, p)

-- A checkpoint that is accepted after another one is of the same transfer and goes on from it,
-- and the other one was not complete.
pub accepted-Progress :
    (next previous : FileResumeDescriptor)
    → validate_successor_of next previous ≡ ok tt
    → SameScope next previous × Progress previous next × (is_complete previous ≡ false)
accepted-Progress next previous q =
    let (v, o, s, p) = accepted next previous q in
    (
      check_scope-SameScope next previous s,
      check_progress-Progress next previous p (validate-offset next v),
      o,
    )

-- The checkpoints from one to another, each accepted after the one before; indexed by the number
-- of steps.
pub data Chain : FileResumeDescriptor → ℕ → FileResumeDescriptor → Type 0 where
  start : (a : FileResumeDescriptor) → Chain a 0 a
  next :
      {a b : FileResumeDescriptor} {n : ℕ} (c : FileResumeDescriptor)
      → Chain a n b
      → validate_successor_of c b ≡ ok tt
      → Chain a (suc n) c

SameScope-refl : (a : FileResumeDescriptor) → SameScope a a
SameScope-refl a = record {
  transfer_id = refl;
  controller_id = refl;
  site_id = refl;
  device_id = refl;
  direction = refl;
  device_path = refl;
  total_size = refl;
}

SameScope-trans : {a b c : FileResumeDescriptor} → SameScope a b → SameScope b c → SameScope a c
SameScope-trans h k = record {
  transfer_id = h.transfer_id ∙ k.transfer_id;
  controller_id = h.controller_id ∙ k.controller_id;
  site_id = h.site_id ∙ k.site_id;
  device_id = h.device_id ∙ k.device_id;
  direction = h.direction ∙ k.direction;
  device_path = h.device_path ∙ k.device_path;
  total_size = h.total_size ∙ k.total_size;
}

kept_final :
    {x y z : Option Str} → (x ≡ none) ⊎ (x ≡ y) → (y ≡ none) ⊎ (y ≡ z) → (x ≡ none) ⊎ (x ≡ z)
kept_final (inl q) k = inl q
kept_final (inr q) (inl r) = inl (q ∙ r)
kept_final (inr q) (inr r) = inr (q ∙ r)

same_hash :
    {x y z : ℕ} {p q r : Str}
    → (x < y) ⊎ (p ≡ q)
    → (y < z) ⊎ (q ≡ r)
    → x ≤ y
    → y ≤ z
    → (x < z) ⊎ (p ≡ r)
same_hash (inl lt) k le le' = inl (omega arith)
same_hash (inr s) (inl lt) le le' = inl (omega arith)
same_hash (inr s) (inr t) le le' = inr (s ∙ t)

-- A checkpoint `b` that follows `a` by `n` steps.
abbrev pub Follows : FileResumeDescriptor → ℕ → FileResumeDescriptor → Type 0
Follows a n b =
    SameScope b a
    × (a.checkpoint_revision + n ≤ b.checkpoint_revision)
    × (a.confirmed_offset ≤ b.confirmed_offset)
    × ((a.confirmed_offset < b.confirmed_offset)
        ⊎ (a.confirmed_prefix_sha256 ≡ b.confirmed_prefix_sha256))
    × ((a.final_sha256 ≡ none) ⊎ (a.final_sha256 ≡ b.final_sha256))

-- Along a chain of `n` accepted checkpoints, all are of one transfer, the revision grows by `n` at
-- least, the confirmed offset never falls, at an unchanged offset the prefix hash is unchanged,
-- and a final hash that was known once stays the same.
pub chain_lem : {a b : FileResumeDescriptor} {n : ℕ} → Chain a n b → Follows a n b
chain_lem (start a) = (SameScope-refl a, omega arith, omega arith, inr refl, inr refl)
chain_lem (next {b = b} c chain step) =
    let (scope, revision, offset, hash, final) = chain_lem chain in
    let (s, p, _) = accepted-Progress c b step in
    (
      SameScope-trans s scope,
      omega (arith, p.revision),
      omega (arith, p.offset),
      same_hash hash p.prefix offset p.offset,
      kept_final final p.final,
    )
