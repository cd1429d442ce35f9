-- ===== src/Runtime/ControlStore/Atomic.antt =====
-- Transactions of the control store: all of the mutation is committed, or the store is as before.
use clew.Prelude.{◌+◌, ◌≡◌, ◌⊎◌, inl, inr, refl, u64_max}
use clew.Prelude.Tests.{leb, Bool-cases}
use clew.Prelude.Outcome.{Result, ok, err, Result-cases}
use clew.Core.State.{Json}
use clew.Runtime.Snapshot.{
  ControlStoreError, generation_overflow, ControllerControlSnapshot, validate_snapshot,
}
use clew.Runtime.ControlStore.{
  SlotFile, Disk, WriteOutcome, next_generation, put_slot, ControllerControlStore, write_slot,
  slot_for, commit_candidate,
}
use clew.Runtime.ControlStore.Commit.{committed, no_room, not_valid, commits}
use clew.Runtime.ControlStore.Transaction.{Mutation, transaction}

module _ (serde : Json ControllerControlSnapshot) where
  module _ (candidate : ControllerControlSnapshot) (store : ControllerControlStore)
      (disk : Disk) where
    -- A commit moves the store on to a valid candidate, or leaves it.
    abbrev Atomic : WriteOutcome → Type 0
    Atomic outcome =
        ((after : Disk) × (commit_candidate serde outcome candidate store disk
            ≡ (ok tt, committed store candidate, after))
          × (validate_snapshot store.controller_id (committed store candidate).snapshot ≡ ok tt))
        ⊎ ((e : ControlStoreError) × (after : Disk) × (commit_candidate serde outcome candidate
                store disk
              ≡ (err e, store, after)))

    written-Atomic :
        (outcome : WriteOutcome) (r : Result ControlStoreError (Unit {0})) (file : SlotFile)
        → next_generation store.snapshot.generation ≡ ok (store.snapshot.generation + 1)
        → validate_snapshot store.controller_id (committed store candidate).snapshot ≡ ok tt
        → write_slot serde outcome
            (committed store candidate).snapshot
            (slot_for (store.snapshot.generation + 1) disk)
          ≡ (r, file)
        → Atomic outcome
    written-Atomic outcome (ok u) file q v w = inl (
      put_slot (store.snapshot.generation + 1) file disk,
      commits serde store candidate disk outcome (ok tt) file q v w,
      v,
    )
    written-Atomic outcome (err e) file q v w = inr (
      e,
      put_slot (store.snapshot.generation + 1) file disk,
      commits serde store candidate disk outcome (err e) file q v w,
    )

    commit_candidate-Atomic : (outcome : WriteOutcome) → Atomic outcome
    commit_candidate-Atomic outcome = elim (Bool-cases (leb u64_max store.snapshot.generation)) [
      | inl full ↦
          inr (generation_overflow, disk, no_room serde store candidate disk outcome (rw full))
      | inr room ↦
          elim (Result-cases
            (validate_snapshot store.controller_id (committed store candidate).snapshot)) [
              | inr (e, v) ↦
                  inr (e, disk, not_valid serde store candidate disk outcome e (rw room) v)
              | inl (u, v) ↦
                  let w =
                    write_slot serde outcome (committed store candidate).snapshot
                      (slot_for (store.snapshot.generation + 1) disk) in
                  written-Atomic outcome w.0 w.1 (rw room) v refl
            ]
    ]

  -- The result of a transaction: all of the mutation, its error, or another error.
  abbrev pub TransactionResult :
      {R : Type 0} → WriteOutcome → Mutation R → ControllerControlStore → Disk → Type 0
  TransactionResult {R} outcome mutate store disk =
      ((result : R) × (candidate : ControllerControlSnapshot) × (after : Disk) × (mutate
            store.snapshot
          ≡ ok (result, candidate))
        × (validate_snapshot store.controller_id (committed store candidate).snapshot ≡ ok tt)
        × (transaction serde outcome mutate store disk
            ≡ (ok result, committed store candidate, after)))
      ⊎ ((e : ControlStoreError) × (mutate store.snapshot ≡ err e)
          × (transaction serde outcome mutate store disk ≡ (err e, store, disk)))
      ⊎ ((e : ControlStoreError) × (after : Disk) × (transaction serde outcome mutate store disk
            ≡ (err e, store, after)))

  -- A transaction either returns what the mutation of the store's snapshot returned, and the store
  -- holds the mutated snapshot, which is valid, under the next generation; or the
  -- mutation fails, its error is returned, and the store and the slots are as they were; or another
  -- error is returned and the store is as it was.
  pub transaction_lem :
      {R : Type 0} (outcome : WriteOutcome) (mutate : Mutation R) (store : ControllerControlStore)
      (disk : Disk)
      → TransactionResult outcome mutate store disk
  unfolding transaction
  transaction_lem outcome mutate store disk = elim (Result-cases (mutate store.snapshot)) [
    | inr (e, m) ↦ inr (inl (e, m, rw (m, transaction)))
    | inl ((result, candidate), m) ↦
        elim (Result-cases (validate_snapshot store.controller_id candidate)) [
          | inr (e, v) ↦ inr (inr (e, disk, rw (m, v, transaction)))
          | inl (u, v) ↦ elim (commit_candidate-Atomic candidate store disk outcome) [
            | inl (after, c, w) ↦ inl (result, candidate, after, m, w, rw (m, v, c, transaction))
            | inr (e, after, c) ↦ inr (inr (e, after, rw (m, v, c, transaction)))
          ]
        ]
  ]
