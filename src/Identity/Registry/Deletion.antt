-- ===== src/Identity/Registry/Deletion.antt =====
-- `delete_invite_history` keeps the registry consistent.
use clew.Prelude.{ℕ, ◌≡◌, Bool, true, some, List, [], ◌∷◌, ◌++◌, arith, inl, inr, ◌⊎◌, ◌||◌}
use clew.Prelude.Tests.{◌==◌, if◌then◌else◌, Bool-cases, Option-cases}
use clew.Prelude.Lists.{mem_ℕ}
use clew.Prelude.Map.{Map, lookup, remove, Every, Every-remove}
use clew.Prelude.Sorted.{IsSorted, remove-IsSorted, Every-lookup_self}
use clew.Identity.Grant.{PermissionGrant}
use clew.Identity.Records.{
  EnrollmentDeviceRecord, ClaimRecord, InviteRuntimeState, EnrollmentRegistry,
}
use clew.Identity.Registry.{
  claim_ids, device_ids_where, push_claim_ids, remove_all, tombstone, delete_invite_history,
}
use clew.Identity.Registry.Consistency.{DeviceFits, IsConsistent}
use clew.Identity.Registry.Withdrawal.{lookup-remove_all, of_claim, replace_invite}

remove_all-fit :
    (p : PermissionGrant) (ks : List ℕ) (m : Map EnrollmentDeviceRecord)
    → IsSorted m
    → Every (DeviceFits p) m
    → IsSorted (remove_all ks m) × Every (DeviceFits p) (remove_all ks m)
unfolding remove_all
remove_all-fit p [] m s h = (s, h)
remove_all-fit p (k ∷ ks) m s h =
    remove_all-fit p ks (remove k m) (remove-IsSorted k m s) (Every-remove (DeviceFits p) k m h)

-- Whoever is listed by `device_ids_where` has a record that passes the test.
pub listed_where :
    (p : EnrollmentDeviceRecord → Bool) (m : Map EnrollmentDeviceRecord)
    (n : Map EnrollmentDeviceRecord) (k : ℕ)
    → Every (λ j d. (lookup j n ≡ some d) × (d.device_id ≡ j)) m
    → mem_ℕ k (device_ids_where p m) ≡ true
    → (d : EnrollmentDeviceRecord) × (lookup k n ≡ some d) × (p d ≡ true)
unfolding device_ids_where
listed_where p [] n k h e = cc
listed_where p ((j, d) ∷ m) n k h e = elim (Bool-cases (p d)) [
  | inl passes ↦ elim (Bool-cases (k == d.device_id)) [
    | inl here ↦ let q : j ≡ k = ground arith in (d, rw q at (h.0.0), passes)
    | inr other ↦ listed_where p m n k h.1 (ground arith)
  ]
  | inr fails ↦ listed_where p m n k h.1 (ground arith)
]

mem-append_one : (k j : ℕ) (ids : List ℕ) → mem_ℕ k (ids ++ j ∷ []) ≡ (k == j || mem_ℕ k ids)
mem-append_one k j [] = ground arith
mem-append_one k j (x ∷ ids) = ground (arith, mem-append_one k j ids)

-- What `push_claim_ids` lists was listed before, or is of a claim.
listed_push :
    (k : ℕ) (cs : List ClaimRecord) (ids : List ℕ)
    → mem_ℕ k (push_claim_ids ids cs) ≡ true
    → (mem_ℕ k ids ≡ true) ⊎ (mem_ℕ k (claim_ids cs) ≡ true)
unfolding push_claim_ids claim_ids
listed_push k [] ids e = inl e
listed_push k (c ∷ cs) ids e = ground (
  arith,
  listed_push k cs (if mem_ℕ c.receipt.device_id ids then ids else ids ++ c.receipt.device_id ∷ [])
      e,
  mem-append_one k c.receipt.device_id ids,
)

-- A Device that the deletion of invite `i` removes is enrolled through `i`.
pub deleted_of_invite :
    (i k : ℕ) (s : InviteRuntimeState) (reg : EnrollmentRegistry) (d : EnrollmentDeviceRecord)
    → IsConsistent reg
    → lookup i reg.invites ≡ some s
    → lookup k reg.devices ≡ some d
    → mem_ℕ k (push_claim_ids (device_ids_where (λ x. x.invite_id == i) reg.devices) s.claims)
      ≡ true
    → d.invite_id ≡ i
deleted_of_invite i k s reg d h at_i e m =
    elim (listed_push k s.claims (device_ids_where (λ x. x.invite_id == i) reg.devices) m) [
      | inr claimed ↦ of_claim reg.devices i k s.claims d (h.invites_fit i s at_i).fits claimed e
      | inl enrolled ↦
          let (d', found, passes) =
            listed_where (λ x. x.invite_id == i) reg.devices reg.devices k (entries reg h)
              enrolled in
          ground arith
    ]
  where
    both :
        (p : PermissionGrant) (m n : Map EnrollmentDeviceRecord)
        → Every (λ j x. lookup j n ≡ some x) m
        → Every (DeviceFits p) m
        → Every (λ j x. (lookup j n ≡ some x) × (x.device_id ≡ j)) m
    both p [] n f g = tt
    both p ((j, x) ∷ m) n f g = ((f.0, g.0.0), both p m n f.1 g.1)

    entries :
        (r : EnrollmentRegistry)
        → IsConsistent r
        → Every (λ j x. (lookup j r.devices ≡ some x) × (x.device_id ≡ j)) r.devices
    entries r c =
        both r.policy_ceiling r.devices r.devices (Every-lookup_self r.devices c.sorted)
          c.devices_fit

pub delete-IsConsistent :
    (i : ℕ) (reg : EnrollmentRegistry)
    → IsConsistent reg
    → IsConsistent (delete_invite_history i reg).1
unfolding delete_invite_history
delete-IsConsistent i reg h = elim (Option-cases (lookup i reg.invites)) [
  | inl missing ↦ rw missing h
  | inr (s, at_i) ↦
      let ids = push_claim_ids (device_ids_where (λ x. x.invite_id == i) reg.devices) s.claims in
      let (sorted, fit) =
        remove_all-fit reg.policy_ceiling ids reg.devices h.sorted h.devices_fit in
      rw at_i (
        replace_invite i (tombstone s) (remove_all ids reg.devices) sorted fit
          (λ k d e ne. elim (Bool-cases (mem_ℕ k ids)) [
            | inl listed ↦ absurd (ne (deleted_of_invite i k s reg d h at_i e listed))
            | inr other ↦ ground (arith, lookup-remove_all k ids reg.devices)
          ])
          (record { fits = tt; distinct = tt; bounded = omega arith; all_revoked = λ _. tt }) h)
]
