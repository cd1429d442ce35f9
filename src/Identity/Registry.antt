-- ===== src/Identity/Registry.antt =====
-- crates/clew-identity/src/enrollment.rs: the methods of `EnrollmentRegistry` that finalize, close,
-- revoke and delete. Those that take a pass are in `Registry.Claims` and `Registry.Passes`.
pub mod Keeping
pub mod Claims
pub mod Consistency
pub mod Statuses
pub mod Finalize
pub mod Withdrawal
pub mod Deletion
pub mod Enrolling
pub mod Claiming
pub mod Calls
pub mod Revocation
pub mod Safety
pub mod Token
pub mod Lifecycle
pub mod Enrolment
pub mod Answers
pub mod Passes
use Prim.Native.Nat.{bit_or, bit_xor}
use clew.Prelude.{
  ℕ, Bool, true, false, not, ◌&&◌, ◌||◌, Option, none, some, List, [], ◌∷◌, ◌++◌, map,
}
use clew.Prelude.Tests.{◌==◌, if◌then◌else◌}
use clew.Prelude.Outcome.{Result, ok, err, attempt, ok_or, is_ok}
use clew.Prelude.Lists.{find?, retain, mem_ℕ}
use clew.Prelude.Text.{Str}
use clew.Prelude.Map.{Map, lookup, insert, remove, values, map_values}
use clew.Identity.Grant.{PermissionGrant}
use clew.Identity.Keys.{Bytes, DevicePublicIdentity}
use clew.Identity.Records.{
  EnrollmentStatus, pending_host_persist, active, revoked, EnrollmentReceipt,
  EnrollmentDeviceRecord, ClaimRecord, InviteRuntimeState, default_invite, EnrollmentRegistry,
}
use clew.Identity.Bootstrap.{
  EnrollmentError, invite_revoked, missing_claim, persist_token_mismatch, unknown_invite,
  unknown_device,
}

abbrev pub Method : Type 0 → Type 0
Method A = Result EnrollmentError A × EnrollmentRegistry

-- The difference bits of two arrays of equal length, gathered without an early exit.
unfoldable pub difference : Bytes → Bytes → ℕ → ℕ
difference (x ∷ xs) (y ∷ ys) acc = difference xs ys (bit_or acc (bit_xor x y))
difference _ _ acc = acc

unfoldable pub constant_time_eq : Bytes → Bytes → Bool
unfolding difference
constant_time_eq expected actual = difference expected actual 0 == 0

abbrev pub is_claim_of : ℕ → ClaimRecord → Bool
is_claim_of device_id c = c.receipt.device_id == device_id

abbrev pub set_claim : EnrollmentStatus → ClaimRecord → ClaimRecord
set_claim status c = record c { status = status }

abbrev pub set_device : EnrollmentStatus → EnrollmentDeviceRecord → EnrollmentDeviceRecord
set_device status d = record d { status = status }

-- A write through `iter_mut().find(p)`.
unfoldable pub modify_first :
    (ClaimRecord → Bool) → (ClaimRecord → ClaimRecord) → List ClaimRecord → List ClaimRecord
modify_first p f [] = []
modify_first p f (c ∷ cs) = let rest = modify_first p f cs in if p c then f c ∷ cs else c ∷ rest

-- The `match claim.status` of `finalize_host_persist`.
abbrev activated : EnrollmentStatus → Result EnrollmentError EnrollmentStatus
activated pending_host_persist = ok active
activated active = ok active
activated revoked = err invite_revoked

-- The first block of `finalize_host_persist`: the receipt, and the invite with its claim active.
unfoldable pub finalize_claim :
    InviteRuntimeState → ℕ → Bytes → Result EnrollmentError (EnrollmentReceipt × InviteRuntimeState)
unfolding constant_time_eq modify_first
finalize_claim state device_id token =
    if state.revoked
    then err invite_revoked
    else elim (find? (is_claim_of device_id) state.claims) [
      | none ↦ err missing_claim
      | some claim ↦
          if constant_time_eq claim.receipt.persist_ack_token token
          then elim (activated claim.status) [
            | err e ↦ err e
            | ok status ↦ ok (
              claim.receipt,
              record state {
                claims = modify_first (is_claim_of device_id) (set_claim status) state.claims;
              },
            )
          ]
          else err persist_token_mismatch
    ]

-- The rest of `finalize_host_persist`: the Device's own record.
unfoldable pub activate_device : ℕ → EnrollmentRegistry → Method EnrollmentDeviceRecord
activate_device device_id reg = elim (lookup device_id reg.devices) [
  | none ↦ (err missing_claim, reg)
  | some d ↦ (
    ok (set_device active d),
    record reg { devices = insert device_id (set_device active d) reg.devices },
  )
]

unfoldable pub finalize_host_persist :
    ℕ → ℕ → Bytes → EnrollmentRegistry → Method EnrollmentDeviceRecord
unfolding activate_device
finalize_host_persist invite_id device_id token reg =
    attempt (ok_or (lookup invite_id reg.invites) missing_claim) reg λ state.
      attempt (finalize_claim state device_id token) reg λ done.
        activate_device done.0.device_id
          (record reg { invites = insert invite_id done.1 reg.invites })

unfoldable pub close_invite : ℕ → EnrollmentRegistry → Method (Unit {0})
close_invite invite_id reg =
    attempt (ok_or (lookup invite_id reg.invites) (unknown_invite invite_id)) reg λ state. (
      ok tt,
      record reg { invites = insert invite_id (record state { closed = true }) reg.invites },
    )

unfoldable pub claim_ids : List ClaimRecord → List ℕ
claim_ids [] = []
claim_ids (c ∷ cs) = c.receipt.device_id ∷ claim_ids cs

-- `if let Some(device) = self.devices.get_mut(id) { device.status = Revoked }`
unfoldable pub mark_revoked : ℕ → Map EnrollmentDeviceRecord → Map EnrollmentDeviceRecord
mark_revoked k m = elim (lookup k m) [ none ↦ m | some d ↦ insert k (set_device revoked d) m ]

unfoldable pub mark_all_revoked : List ℕ → Map EnrollmentDeviceRecord → Map EnrollmentDeviceRecord
unfolding mark_revoked
mark_all_revoked [] m = m
mark_all_revoked (k ∷ ks) m = mark_all_revoked ks (mark_revoked k m)

unfoldable pub revoke_invite : ℕ → EnrollmentRegistry → Method (List ℕ)
unfolding claim_ids
revoke_invite invite_id reg =
    attempt (ok_or (lookup invite_id reg.invites) (unknown_invite invite_id)) reg λ state.
      let device_ids = claim_ids state.claims in
      let state' = record state {
        closed = true;
        revoked = true;
        claims = map (set_claim revoked) state.claims;
      } in
      (
        ok device_ids,
        record reg {
          invites = insert invite_id state' reg.invites;
          devices = mark_all_revoked device_ids reg.devices;
        },
      )

-- `devices.values().filter(p).map(|device| device.device_id)`
unfoldable pub device_ids_where :
    (EnrollmentDeviceRecord → Bool) → Map EnrollmentDeviceRecord → List ℕ
device_ids_where p [] = []
device_ids_where p ((k, d) ∷ m) =
    let rest = device_ids_where p m in if p d then d.device_id ∷ rest else rest

-- The claims' identifiers that are not listed yet, pushed at the end.
unfoldable pub push_claim_ids : List ℕ → List ClaimRecord → List ℕ
push_claim_ids ids [] = ids
push_claim_ids ids (c ∷ cs) =
    push_claim_ids (if mem_ℕ c.receipt.device_id ids then ids else ids ++ c.receipt.device_id ∷ [])
      cs

unfoldable pub remove_all : List ℕ → Map EnrollmentDeviceRecord → Map EnrollmentDeviceRecord
remove_all [] m = m
remove_all (k ∷ ks) m = remove_all ks (remove k m)

-- What `delete_invite_history` keeps of an invite.
abbrev pub tombstone : InviteRuntimeState → InviteRuntimeState
tombstone state = record default_invite {
  issued_pass_fingerprint = state.issued_pass_fingerprint;
  closed = true;
  revoked = true;
  deleted = true;
}

unfoldable pub delete_invite_history : ℕ → EnrollmentRegistry → Method (List ℕ)
unfolding device_ids_where push_claim_ids remove_all
delete_invite_history invite_id reg =
    attempt (ok_or (lookup invite_id reg.invites) (unknown_invite invite_id)) reg λ state.
      let device_ids =
        push_claim_ids (device_ids_where (λ d. d.invite_id == invite_id) reg.devices)
          state.claims in
      (
        ok device_ids,
        record reg {
          invites = insert invite_id (tombstone state) reg.invites;
          devices = remove_all device_ids reg.devices;
        },
      )

-- The claim that `revoke_device` marks, in the invite of the Device.
unfoldable pub revoke_claim : ℕ → ℕ → Map InviteRuntimeState → Map InviteRuntimeState
unfolding modify_first
revoke_claim invite_id device_id m = elim (lookup invite_id m) [
  | none ↦ m
  | some state ↦
      insert invite_id
        (record state {
          claims = modify_first (is_claim_of device_id) (set_claim revoked) state.claims;
        })
        m
]

unfoldable pub revoke_device : ℕ → EnrollmentRegistry → Method (Unit {0})
unfolding revoke_claim
revoke_device device_id reg =
    attempt (ok_or (lookup device_id reg.devices) (unknown_device device_id)) reg λ d. (
      ok tt,
      record reg {
        invites = revoke_claim d.invite_id device_id reg.invites;
        devices = insert device_id (set_device revoked d) reg.devices;
      },
    )

-- The loop of `revoke_site`.
unfoldable pub revoke_each : List ℕ → EnrollmentRegistry → List ℕ × EnrollmentRegistry
unfolding revoke_device
revoke_each [] reg = ([], reg)
revoke_each (k ∷ ks) reg =
    let (r, reg') = revoke_device k reg in
    let (ids, last) = revoke_each ks reg' in (if is_ok r then k ∷ ids else ids, last)

unfoldable pub revoke_site : ℕ → EnrollmentRegistry → List ℕ × EnrollmentRegistry
unfolding revoke_each device_ids_where
revoke_site site_id reg = revoke_each (device_ids_where (λ d. d.site_id == site_id) reg.devices) reg

unfoldable pub close_all_invites : EnrollmentRegistry → EnrollmentRegistry
close_all_invites reg = record reg {
  invites = map_values (λ s. record s { closed = true }) reg.invites;
}

abbrev is_active : EnrollmentStatus → Bool
is_active active = true
is_active _ = false

unfoldable pub is_device_active : ℕ → EnrollmentRegistry → Bool
is_device_active device_id reg = elim (lookup device_id reg.devices) [
  | none ↦ false
  | some d ↦ is_active d.status
]
