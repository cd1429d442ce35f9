-- ===== src/Identity/Registry/Claims.antt =====
-- crates/clew-identity/src/enrollment.rs: the steps of `claim_with_ceiling`, after the pass is
-- verified.
use clew.Prelude.{ℕ, ◌+◌, min, Bool, false, not, Option, none, some, List, [], ◌∷◌, ◌++◌, u64_max}
use clew.Prelude.Tests.{ltb, leb, if◌then◌else◌, list_eq}
use clew.Prelude.Outcome.{Result, ok, err, ◌>>◌, attempt, reject, map_err}
use clew.Prelude.Lists.{length, find?}
use clew.Prelude.Map.{Map, lookup, contains_key, insert}
use clew.Identity.Grant.{PermissionGrant, intersect}
use clew.Identity.Keys.{Bytes, IdentityError, DevicePublicIdentity}
use clew.Identity.Bootstrap.{
  EnrollmentError, identity, invite_revoked, invite_closed, pass_conflict, finalized_replay,
  not_yet_valid, expired, deployment_window_closed, exhausted, SiteBootstrapPayload,
}
use clew.Identity.Records.{
  EnrollmentStatus, pending_host_persist, active, revoked, EnrollmentReceipt,
  EnrollmentDeviceRecord, ClaimRecord, InviteRuntimeState, default_invite, EnrollmentRegistry,
}
use clew.Identity.Registry.{Method}

-- `remember_pass_metadata`
unfoldable pub remember_pass_metadata :
    InviteRuntimeState → SiteBootstrapPayload → InviteRuntimeState
remember_pass_metadata state p = record state {
  site_id = some p.site_id;
  site_name = some p.site_name;
  grant = some p.grant;
  not_before_unix_ms = some p.not_before_unix_ms;
  expires_unix_ms = some p.expires_unix_ms;
  deployment_window_ms = some p.deployment_window_ms;
  max_claims = some p.max_claims;
}

-- `invites.entry(id).or_default()`: the state, and the map that holds it.
unfoldable pub entry_or_default :
    ℕ → Map InviteRuntimeState → InviteRuntimeState × Map InviteRuntimeState
entry_or_default k m = elim (lookup k m) [
  | none ↦ (default_invite, insert k default_invite m)
  | some state ↦ (state, m)
]

-- The invite's fingerprint is another one.
abbrev pub conflicts : Option Bytes → Bytes → Bool
conflicts none print = false
conflicts (some issued) print = not (list_eq issued print)

-- The first draw of `DeviceId::new` that is not taken. `none`: the loop goes on past these draws.
unfoldable pub fresh_id : List ℕ → Map EnrollmentDeviceRecord → Option ℕ
fresh_id [] m = none
fresh_id (k ∷ ks) m = let rest = fresh_id ks m in if contains_key k m then rest else some k

-- What the claim on record answers to the Device that made it.
abbrev answer : EnrollmentStatus → EnrollmentReceipt → Result EnrollmentError EnrollmentReceipt
answer pending_host_persist receipt = ok receipt
answer active receipt = err finalized_replay
answer revoked receipt = err invite_revoked

abbrev replay_claim : ClaimRecord → Bytes → Result EnrollmentError EnrollmentReceipt
replay_claim existing print =
    if list_eq existing.pass_fingerprint print
    then answer existing.status existing.receipt
    else err pass_conflict

-- The tests of an invite that is on record. `some` is the answer at which the claim ends.
unfoldable pub known_invite :
    InviteRuntimeState
    → Bytes
    → DevicePublicIdentity
    → Option (Result EnrollmentError EnrollmentReceipt)
known_invite state print device =
    if state.revoked
    then some (err invite_revoked)
    else if conflicts state.issued_pass_fingerprint print
    then some (err pass_conflict)
    else elim (find?
        (λ (c : ClaimRecord). list_eq c.receipt.device_public_identity.public_key device.public_key)
        state.claims) [
          | some existing ↦ some (replay_claim existing print)
          | none ↦ if state.closed then some (err invite_closed) else none
        ]

unfoldable pub saturating_add : ℕ → ℕ → ℕ
saturating_add a b = min (a + b) u64_max

-- The deployment window and the capacity of an invite that is on record.
abbrev window_closed : Option ℕ → ℕ → ℕ → Bool
window_closed none window now = false
window_closed (some first) window now = leb (saturating_add first window) now

unfoldable pub check_capacity :
    Option InviteRuntimeState → SiteBootstrapPayload → ℕ → Result EnrollmentError (Unit {0})
unfolding saturating_add
check_capacity none p now = ok tt
check_capacity (some state) p now = do
  reject (window_closed state.first_claim_unix_ms p.deployment_window_ms now)
      deployment_window_closed
  reject (leb p.max_claims (length state.claims)) exhausted

unfoldable pub check_times : SiteBootstrapPayload → ℕ → Result EnrollmentError (Unit {0})
check_times p now = do
  reject (ltb now p.not_before_unix_ms) not_yet_valid
  reject (leb p.expires_unix_ms now) expired

-- `first_claim_unix_ms.get_or_insert(now)`
abbrev get_or_insert : Option ℕ → ℕ → Option ℕ
get_or_insert none now = some now
get_or_insert (some first) now = some first

-- The invite with one claim more.
unfoldable pub push_claim :
    InviteRuntimeState → SiteBootstrapPayload → Bytes → ℕ → EnrollmentReceipt → InviteRuntimeState
unfolding remember_pass_metadata
push_claim state p print now receipt = record (remember_pass_metadata state p) {
  issued_pass_fingerprint = some print;
  first_claim_unix_ms = get_or_insert state.first_claim_unix_ms now;
  claims =
      state.claims
      ++ record { pass_fingerprint = print; receipt = receipt; status = pending_host_persist } ∷ [];
}

unfoldable pub new_receipt :
    EnrollmentRegistry
    → SiteBootstrapPayload
    → DevicePublicIdentity
    → ℕ
    → PermissionGrant
    → ℕ
    → Bytes
    → EnrollmentReceipt
new_receipt reg p device now ceiling device_id token = record {
  controller_id = reg.controller_id;
  site_id = p.site_id;
  invite_id = p.invite_id;
  device_id = device_id;
  device_public_identity = device;
  effective_grant = intersect (intersect p.grant reg.policy_ceiling) ceiling;
  issued_unix_ms = now;
  persist_ack_token = token;
}

unfoldable pub device_of_receipt : EnrollmentReceipt → EnrollmentDeviceRecord
device_of_receipt r = record {
  controller_id = r.controller_id;
  site_id = r.site_id;
  invite_id = r.invite_id;
  device_id = r.device_id;
  device_public_identity = r.device_public_identity;
  effective_grant = r.effective_grant;
  status = pending_host_persist;
}

-- The writes of a claim that is accepted. The second test of the fingerprint stands in the source.
unfoldable pub commit_claim :
    EnrollmentRegistry
    → SiteBootstrapPayload
    → Bytes
    → ℕ
    → EnrollmentReceipt
    → Method EnrollmentReceipt
unfolding entry_or_default push_claim device_of_receipt
commit_claim reg p print now receipt =
    let (state, invites) = entry_or_default p.invite_id reg.invites in
    if conflicts state.issued_pass_fingerprint print
    then (err pass_conflict, record reg { invites = invites })
    else (
      ok receipt,
      record reg {
        invites = insert p.invite_id (push_claim state p print now receipt) invites;
        devices = insert receipt.device_id (device_of_receipt receipt) reg.devices;
      },
    )

-- What a claim finds of its invite before the tests of time: `some` ends the claim.
abbrev pub first_answer :
    Option InviteRuntimeState
    → Bytes
    → DevicePublicIdentity
    → Option (Result EnrollmentError EnrollmentReceipt)
first_answer none print device = none
first_answer (some state) print device = known_invite state print device

-- Draws of `DeviceId::new`, and what `random_secret_32` returns.
pub record Draws : Type 0 where
  pub device_ids : List ℕ
  pub token : Result IdentityError Bytes

-- A claim from the draw of its identifier on.
unfoldable pub enroll :
    SiteBootstrapPayload
    → Bytes
    → DevicePublicIdentity
    → ℕ
    → PermissionGrant
    → Draws
    → EnrollmentRegistry
    → Option (Method EnrollmentReceipt)
unfolding fresh_id new_receipt commit_claim
enroll p print device now ceiling draws reg = elim (fresh_id draws.device_ids reg.devices) [
  | none ↦ none
  | some device_id ↦ some (
      attempt (map_err identity draws.token) reg λ token.
        commit_claim reg p print now (new_receipt reg p device now ceiling device_id token))
]

-- A claim after the pass is verified.
unfoldable pub claim_verified :
    SiteBootstrapPayload
    → Bytes
    → DevicePublicIdentity
    → ℕ
    → PermissionGrant
    → Draws
    → EnrollmentRegistry
    → Option (Method EnrollmentReceipt)
unfolding known_invite check_times check_capacity enroll
claim_verified p print device now ceiling draws reg =
    elim (first_answer (lookup p.invite_id reg.invites) print device) [
      | some r ↦ some (r, reg)
      | none ↦ elim (check_times p now >> check_capacity (lookup p.invite_id reg.invites) p now) [
        | err e ↦ some (err e, reg)
        | ok _ ↦ enroll p print device now ceiling draws reg
      ]
    ]
