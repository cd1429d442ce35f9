-- ===== src/Identity/Registry/Enrolling.antt =====
-- `register_pass`, `issue_bootstrap` and `claim_with_ceiling` keep the registry consistent.
use clew.Prelude.{
  ℕ, ◌+◌, ◌≤◌, ◌≡◌, refl, false, not, ◌||◌, none, some, List, [], ◌∷◌, ◌++◌, arith, inl, inr,
}
use clew.Prelude.Tests.{◌==◌, Bool-cases, Option-cases}
use clew.Prelude.Outcome.{Result, Result-cases}
use clew.Prelude.Lists.{length, length-append, All, All-append}
use clew.Prelude.Map.{Map, lookup, insert, lookup-insert}
use clew.Identity.Keys.{Bytes, Crypto, IdentityError, ControllerIdentity, controller_id}
use clew.Identity.Bootstrap.{
  SiteBootstrapPayload, SiteBootstrapSpec, SignedSiteBootstrapPass, BootstrapJson,
  max_bootstrap_claims, verify, fingerprint, issue_site_bootstrap,
}
use clew.Identity.Records.{
  pending_host_persist, EnrollmentReceipt, EnrollmentDeviceRecord, ClaimRecord, InviteRuntimeState,
  default_invite, EnrollmentRegistry,
}
use clew.Identity.Registry.Claims.{
  remember_pass_metadata, entry_or_default, conflicts, fresh_id, push_claim, device_of_receipt,
}
use clew.Identity.Registry.Passes.{register_pass, issue_bootstrap}
use clew.Identity.Registry.Consistency.{
  ClaimFits, IsNew, IsDistinct, InviteFits, IsConsistent, fits-insert_new, put_invite,
}

-- `fresh_id` returns no identifier of an enrolled Device.
pub fresh_id-is_free :
    (ks : List ℕ) (m : Map EnrollmentDeviceRecord) (k : ℕ)
    → fresh_id ks m ≡ some k
    → lookup k m ≡ none
unfolding fresh_id
fresh_id-is_free [] m k h = cc
fresh_id-is_free (j ∷ ks) m k h = ground (arith, fresh_id-is_free ks m k)

pub default-InviteFits : (m : Map EnrollmentDeviceRecord) (i : ℕ) → InviteFits m i default_invite
default-InviteFits m i = record {
  fits = tt;
  distinct = tt;
  bounded = omega arith;
  all_revoked = λ _. tt;
}

-- The entry that a pass writes to is consistent, and so is the registry that holds it.
module _ (i : ℕ) (reg : EnrollmentRegistry) (h : IsConsistent reg) where
  pub entry-InviteFits : InviteFits reg.devices i (entry_or_default i reg.invites).0
  unfolding entry_or_default
  entry-InviteFits = elim (Option-cases (lookup i reg.invites)) [
    | inl missing ↦ rw (missing, entry_or_default) (default-InviteFits reg.devices i)
    | inr (s, at_i) ↦ rw (at_i, entry_or_default) (h.invites_fit i s at_i)
  ]

  pub entry-IsConsistent :
      IsConsistent (record reg { invites = (entry_or_default i reg.invites).1 })
  unfolding entry_or_default
  entry-IsConsistent = elim (Option-cases (lookup i reg.invites)) [
    | inl missing ↦
        rw (missing, entry_or_default)
          (put_invite i default_invite (default-InviteFits reg.devices i) h)
    | inr (s, at_i) ↦ rw (at_i, entry_or_default) h
  ]

-- Metadata of an invite is free.
InviteFits-metadata :
    (m : Map EnrollmentDeviceRecord) (i : ℕ) (s : InviteRuntimeState) (p : SiteBootstrapPayload)
    (print : Bytes)
    → InviteFits m i s
    → InviteFits m i (record (remember_pass_metadata s p) { issued_pass_fingerprint = some print })
unfolding remember_pass_metadata
InviteFits-metadata m i s p print f = record {
  fits = f.fits;
  distinct = f.distinct;
  bounded = f.bounded;
  all_revoked = f.all_revoked;
}

-- A claim of a Device that is enrolled is not of one that is not.
IsNew-of_free :
    (m : Map EnrollmentDeviceRecord) (i k : ℕ) (cs : List ClaimRecord)
    → lookup k m ≡ none
    → All (ClaimFits m i) cs
    → IsNew k cs
IsNew-of_free m i k [] free h = tt
IsNew-of_free m i k (c ∷ cs) free h =
    ((let e = h.0.1 in ground arith), IsNew-of_free m i k cs free h.1)

IsDistinct-append :
    (cs : List ClaimRecord) (c : ClaimRecord)
    → IsNew c.receipt.device_id cs
    → IsDistinct cs
    → IsDistinct (cs ++ c ∷ [])
IsDistinct-append [] c n u = (tt, tt)
IsDistinct-append (x ∷ cs) c n u = (
  All-append (λ y. (y.receipt.device_id == x.receipt.device_id) ≡ false) cs (c ∷ []) u.0
      (ground arith, tt),
  IsDistinct-append cs c n.1 u.1,
)

-- One claim more, of a Device that was not enrolled.
module _ (reg : EnrollmentRegistry) (h : IsConsistent reg) (p : SiteBootstrapPayload)
    (print : Bytes) (now : ℕ) (s : InviteRuntimeState) (r : EnrollmentReceipt) where
  abbrev with_device : Map EnrollmentDeviceRecord
  with_device = insert r.device_id (device_of_receipt r) reg.devices

  pub push-InviteFits :
      lookup r.device_id reg.devices ≡ none
      → r.invite_id ≡ p.invite_id
      → s.revoked ≡ false
      → length s.claims + 1 ≤ max_bootstrap_claims
      → InviteFits reg.devices p.invite_id s
      → InviteFits with_device p.invite_id (push_claim s p print now r)
  unfolding push_claim device_of_receipt
  push-InviteFits free same in_force room f =
      let claim : ClaimRecord = record {
        pass_fingerprint = print;
        receipt = r;
        status = pending_host_persist;
      } in
      let new = IsNew-of_free reg.devices p.invite_id r.device_id s.claims free f.fits in
      record {
        fits =
            All-append (ClaimFits with_device p.invite_id) s.claims (claim ∷ [])
              (fits-insert_new reg.devices p.invite_id r.device_id (device_of_receipt r) s.claims
                new f.fits)
              (
                (
                  device_of_receipt r,
                  ground (
                    arith,
                    lookup-insert r.device_id r.device_id (device_of_receipt r) reg.devices,
                  ),
                  same,
                  refl,
                ),
                tt,
              );
        distinct = IsDistinct-append s.claims claim new f.distinct;
        bounded = omega (arith, length-append s.claims (claim ∷ []));
        all_revoked = λ e. cc (e, in_force);
      }

module _ (crypto : Crypto) (serde : BootstrapJson) where
  pub register_pass-IsConsistent :
      (pass : SignedSiteBootstrapPass) (reg : EnrollmentRegistry)
      → IsConsistent reg
      → IsConsistent (register_pass crypto serde pass reg).1
  unfolding register_pass
  register_pass-IsConsistent pass reg h =
      let i = pass.payload.invite_id in
      let s = (entry_or_default i reg.invites).0 in
      let reg' : EnrollmentRegistry = record reg { invites = (entry_or_default i reg.invites).1 } in
      elim (Result-cases (verify crypto serde pass)) [
        | inr (e, failed) ↦ rw failed h
        | inl (public, verified) ↦
            elim (Bool-cases (not (public.controller_id == reg.controller_id))) [
              | inl wrong ↦ rw (verified, wrong) h
              | inr right ↦ elim (Result-cases (fingerprint crypto serde pass)) [
                | inr (e, failed) ↦ rw (verified, right, failed) h
                | inl (print, printed) ↦ elim (Bool-cases (s.revoked || s.deleted)) [
                  | inl gone ↦ rw (verified, right, printed, gone) (entry-IsConsistent i reg h)
                  | inr in_force ↦ elim (Bool-cases (conflicts s.issued_pass_fingerprint print)) [
                    | inl other ↦
                        rw (verified, right, printed, in_force, other) (entry-IsConsistent i reg h)
                    | inr agrees ↦
                        rw (verified, right, printed, in_force, agrees)
                          (put_invite {reg = reg'} i
                            (record (remember_pass_metadata s pass.payload) {
                              issued_pass_fingerprint = some print;
                            })
                            (InviteFits-metadata reg.devices i s pass.payload print
                              (entry-InviteFits i reg h))
                            (entry-IsConsistent i reg h))
                  ]
                ]
              ]
            ]
      ]

  pub issue_bootstrap-IsConsistent :
      (c : ControllerIdentity) (spec : SiteBootstrapSpec) (secret : Result IdentityError Bytes)
      (reg : EnrollmentRegistry)
      → IsConsistent reg
      → IsConsistent (issue_bootstrap crypto serde c spec secret reg).1
  unfolding issue_bootstrap
  issue_bootstrap-IsConsistent c spec secret reg h =
      elim (Bool-cases (not (controller_id crypto c == reg.controller_id))) [
        | inl wrong ↦ rw wrong h
        | inr right ↦ elim (Result-cases (issue_site_bootstrap crypto serde c spec secret)) [
          | inr (e, failed) ↦ rw (right, failed) h
          | inl (pass, issued) ↦ elim (Result-cases (register_pass crypto serde pass reg).0) [
            | inr (e, failed) ↦ rw (right, issued, failed) (register_pass-IsConsistent pass reg h)
            | inl (u, done) ↦ rw (right, issued, done) (register_pass-IsConsistent pass reg h)
          ]
        ]
      ]
