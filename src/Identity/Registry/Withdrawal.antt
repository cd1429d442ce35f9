-- ===== src/Identity/Registry/Withdrawal.antt =====
-- `revoke_invite` keeps the registry consistent.
use clew.Prelude.{ℕ, ◌≡◌, refl, true, none, some, List, [], ◌∷◌, map, arith, inl, inr, ◌≢◌}
use clew.Prelude.Tests.{◌==◌, if◌then◌else◌, Bool-cases, Option-cases}
use clew.Prelude.Lists.{length, All, mem_ℕ}
use clew.Prelude.Map.{
  Map, map_option, lookup, insert, remove, lookup-insert, lookup-remove, Every, Every-insert,
  Every-lookup,
}
use clew.Prelude.Sorted.{IsSorted, insert-IsSorted}
use clew.Identity.Grant.{PermissionGrant}
use clew.Identity.Records.{
  revoked, EnrollmentDeviceRecord, ClaimRecord, InviteRuntimeState, EnrollmentRegistry,
}
use clew.Identity.Registry.{
  set_claim, set_device, claim_ids, mark_revoked, mark_all_revoked, revoke_invite, remove_all,
}
use clew.Identity.Registry.Consistency.{
  ClaimFits, IsNew, IsDistinct, InviteFits, DeviceFits, IsConsistent,
}

pub lookup-mark_revoked :
    (j k : ℕ) (m : Map EnrollmentDeviceRecord)
    → lookup j (mark_revoked k m)
      ≡ (if k == j then map_option (set_device revoked) (lookup j m) else lookup j m)
unfolding mark_revoked
lookup-mark_revoked j k m = elim (Option-cases (lookup k m)) [
  | inl missing ↦ rw (missing, mark_revoked) (ground arith)
  | inr (d, found) ↦
      rw (found, mark_revoked) (ground (arith, lookup-insert j k (set_device revoked d) m))
]

pub lookup-mark_all_revoked :
    (j : ℕ) (ks : List ℕ) (m : Map EnrollmentDeviceRecord)
    → lookup j (mark_all_revoked ks m)
      ≡ (if mem_ℕ j ks then map_option (set_device revoked) (lookup j m) else lookup j m)
unfolding mark_all_revoked
lookup-mark_all_revoked j [] m = refl
lookup-mark_all_revoked j (k ∷ ks) m =
    ground (arith, lookup-mark_all_revoked j ks (mark_revoked k m), lookup-mark_revoked j k m)

pub lookup-remove_all :
    (j : ℕ) (ks : List ℕ) (m : Map EnrollmentDeviceRecord)
    → lookup j (remove_all ks m) ≡ (if mem_ℕ j ks then none else lookup j m)
unfolding remove_all
lookup-remove_all j [] m = refl
lookup-remove_all j (k ∷ ks) m =
    ground (arith, lookup-remove_all j ks (remove k m), lookup-remove j k m)

-- The Device of a claim of invite `i`, if it is enrolled, is enrolled through `i`.
pub of_claim :
    (devices : Map EnrollmentDeviceRecord) (i k : ℕ) (cs : List ClaimRecord)
    (d : EnrollmentDeviceRecord)
    → All (ClaimFits devices i) cs
    → mem_ℕ k (claim_ids cs) ≡ true
    → lookup k devices ≡ some d
    → d.invite_id ≡ i
unfolding claim_ids
of_claim devices i k [] d h m e = cc
of_claim devices i k (c ∷ cs) d h m e = elim (Bool-cases (k == c.receipt.device_id)) [
  | inl here ↦ ground arith
  | inr other ↦ of_claim devices i k cs d h.1 (ground arith) e
]

-- Claims whose Devices are none of those changed.
pub fits-unchanged :
    (m n : Map EnrollmentDeviceRecord) (j : ℕ) (cs : List ClaimRecord)
    → ((k : ℕ) (d : EnrollmentDeviceRecord)
        → lookup k m ≡ some d
        → d.invite_id ≡ j
        → lookup k n ≡ some d)
    → All (ClaimFits m j) cs
    → All (ClaimFits n j) cs
fits-unchanged m n j [] same h = tt
fits-unchanged m n j (c ∷ cs) same h = (
  (h.0.0, same c.receipt.device_id h.0.0 h.0.1 h.0.2, h.0.2, h.0.3),
  fits-unchanged m n j cs same h.1,
)

-- A registry in which invite `i` and some Devices of it have changed.
pub replace_invite :
    {reg : EnrollmentRegistry} (i : ℕ) (s : InviteRuntimeState) (m : Map EnrollmentDeviceRecord)
    → IsSorted m
    → Every (DeviceFits reg.policy_ceiling) m
    → ((k : ℕ) (d : EnrollmentDeviceRecord)
        → lookup k reg.devices ≡ some d
        → d.invite_id ≢ i
        → lookup k m ≡ some d)
    → InviteFits m i s
    → IsConsistent reg
    → IsConsistent (record reg { invites = insert i s reg.invites; devices = m })
replace_invite {reg} i s m sorted fit same f h = record {
  sorted = sorted;
  devices_fit = fit;
  invites_fit = λ j t e. elim (Bool-cases (i == j)) [
    | inl here ↦
        let q : i ≡ j = ground arith in
        let r : s ≡ t = ground (arith, lookup-insert j i s reg.invites) in rw (← q, ← r) f
    | inr other ↦
        let g = h.invites_fit j t (ground (arith, lookup-insert j i s reg.invites)) in
        record {
          fits =
              fits-unchanged reg.devices m j t.claims (λ k d p q. same k d p (λ x. ground arith))
                g.fits;
          distinct = g.distinct;
          bounded = g.bounded;
          all_revoked = g.all_revoked;
        }
  ];
}

-- The claims of a revoked invite.
IsNew-revoked : (k : ℕ) (cs : List ClaimRecord) → IsNew k cs → IsNew k (map (set_claim revoked) cs)
IsNew-revoked k [] n = tt
IsNew-revoked k (c ∷ cs) n = (n.0, IsNew-revoked k cs n.1)

IsDistinct-revoked :
    (cs : List ClaimRecord) → IsDistinct cs → IsDistinct (map (set_claim revoked) cs)
IsDistinct-revoked [] u = tt
IsDistinct-revoked (c ∷ cs) u =
    (IsNew-revoked c.receipt.device_id cs u.0, IsDistinct-revoked cs u.1)

length-revoked : (cs : List ClaimRecord) → length (map (set_claim revoked) cs) ≡ length cs
length-revoked [] = refl
length-revoked (c ∷ cs) = omega (arith, length-revoked cs)

pub All-set_claim :
    (cs : List ClaimRecord) → All (λ c. c.status ≡ revoked) (map (set_claim revoked) cs)
All-set_claim [] = tt
All-set_claim (c ∷ cs) = (refl, All-set_claim cs)

-- Their Devices, marked by the list of all the claims.
fits-revoked :
    (devices : Map EnrollmentDeviceRecord) (i : ℕ) (ks : List ℕ) (cs : List ClaimRecord)
    → ((k : ℕ) → mem_ℕ k (claim_ids cs) ≡ true → mem_ℕ k ks ≡ true)
    → All (ClaimFits devices i) cs
    → All (ClaimFits (mark_all_revoked ks devices) i) (map (set_claim revoked) cs)
unfolding claim_ids
fits-revoked devices i ks [] sub h = tt
fits-revoked devices i ks (c ∷ cs) sub h = (
  (
    set_device revoked h.0.0,
    (let listed : mem_ℕ c.receipt.device_id ks ≡ true = sub c.receipt.device_id (ground arith) in
        ground (arith, lookup-mark_all_revoked c.receipt.device_id ks devices)),
    h.0.2,
    refl,
  ),
  fits-revoked devices i ks cs (λ k m. sub k (ground arith)) h.1,
)

mark_all-fit :
    (p : PermissionGrant) (ks : List ℕ) (m : Map EnrollmentDeviceRecord)
    → IsSorted m
    → Every (DeviceFits p) m
    → IsSorted (mark_all_revoked ks m) × Every (DeviceFits p) (mark_all_revoked ks m)
unfolding mark_all_revoked mark_revoked
mark_all-fit p [] m s h = (s, h)
mark_all-fit p (k ∷ ks) m s h = elim (Option-cases (lookup k m)) [
  | inl missing ↦ rw (missing, mark_revoked) (mark_all-fit p ks m s h)
  | inr (d, found) ↦
      rw (found, mark_revoked)
        (mark_all-fit p ks (insert k (set_device revoked d) m)
          (insert-IsSorted k (set_device revoked d) m s)
          (Every-insert (DeviceFits p) k (set_device revoked d) m
            (Every-lookup (DeviceFits p) k m found h) h))
]

pub revoke_invite-IsConsistent :
    (i : ℕ) (reg : EnrollmentRegistry) → IsConsistent reg → IsConsistent (revoke_invite i reg).1
unfolding revoke_invite
revoke_invite-IsConsistent i reg h = elim (Option-cases (lookup i reg.invites)) [
  | inl missing ↦ rw missing h
  | inr (s, at_i) ↦
      let f = h.invites_fit i s at_i in
      let ids = claim_ids s.claims in
      let (sorted, fit) = mark_all-fit reg.policy_ceiling ids reg.devices h.sorted h.devices_fit in
      rw at_i (
        replace_invite i
          (record s { closed = true; revoked = true; claims = map (set_claim revoked) s.claims })
          (mark_all_revoked ids reg.devices) sorted fit
          (λ k d e ne. elim (Bool-cases (mem_ℕ k ids)) [
            | inl listed ↦ absurd (ne (of_claim reg.devices i k s.claims d f.fits listed e))
            | inr other ↦ ground (arith, lookup-mark_all_revoked k ids reg.devices)
          ])
          (record {
            fits = fits-revoked reg.devices i ids s.claims (λ k m. m) f.fits;
            distinct = IsDistinct-revoked s.claims f.distinct;
            bounded = rw length-revoked f.bounded;
            all_revoked = λ _. All-set_claim s.claims;
          })
          h)
]
