-- ===== src/Runtime/ControlStore/Commit.antt =====
-- Commits of the control store: what the two slots hold after a write that was interrupted at any
-- point, and which snapshot a restart then finds.
use clew.Prelude.{ℕ, zero, suc, ◌+◌, ◌≤◌, ◌≡◌, ◌⊎◌, refl, List, [], ◌∷◌, arith, inl, inr, u64_max}
use clew.Prelude.Tests.{leb, ltb, Bool-cases}
use clew.Prelude.Outcome.{Result, ok, err, Result-cases}
use clew.Prelude.Lists.{length, take}
use clew.Core.State.{Json, encode_state_json}
use clew.Runtime.Snapshot.{
  state, io, generation_overflow, ControlStoreError, ControllerControlSnapshot, validate_snapshot,
}
use clew.Runtime.ControlStore.{
  SlotFile, Disk, WriteOutcome, no_directory, unopened, stopped, synced, valid, invalid,
  ControllerControlStore, contents, slot_for, put_slot, read_slot, write_slot, commit_candidate,
  load_or_create, next_generation, written,
}
use clew.Runtime.ControlStore.Durable.{
  IsDurable, IsReadable, read_prefix, read_whole, load-IsDurable, slot_for-next, slot_for-next_next,
  IsOlder,
}

-- The store with a candidate as its next snapshot.
abbrev pub committed : ControllerControlStore → ControllerControlSnapshot → ControllerControlStore
committed store candidate = record store {
  snapshot = record candidate { generation = store.snapshot.generation + 1 };
}

take_all : {A : Type 0} → (n : ℕ) (xs : List A) → length xs ≤ n → take n xs ≡ xs
take_all zero [] le = refl
take_all zero (x ∷ xs) le = ground arith
take_all (suc n) [] le = refl
take_all (suc n) (x ∷ xs) le = let rest : take n xs ≡ xs = take_all n xs (ground arith) in rw rest

module _ (serde : Json ControllerControlSnapshot) where
  -- The file of a failed write: as it was, unreadable, or complete.
  abbrev FailedFile : ControllerControlSnapshot → SlotFile → SlotFile → Type 0
  FailedFile s before after =
      (after ≡ before)
      ⊎ ((e : ControlStoreError) × (read_slot serde after ≡ invalid e))
      ⊎ (read_slot serde after ≡ valid s)

  write_slot-cases :
      (outcome : WriteOutcome) (s : ControllerControlSnapshot) (file : SlotFile)
      → IsReadable serde s
      → ((after : SlotFile) × (write_slot serde outcome s file ≡ (ok tt, after))
          × (read_slot serde after ≡ valid s))
        ⊎ ((e : ControlStoreError) × (after : SlotFile) × (write_slot serde outcome s file
              ≡ (err e, after))
            × FailedFile s file after)
  unfolding write_slot
  write_slot-cases no_directory s file r = inr (io, file, refl, inl refl)
  write_slot-cases unopened s file r = elim (Result-cases (encode_state_json serde s)) [
    | inl (bytes, q) ↦ inr (io, file, rw q, inl refl)
    | inr (e, q) ↦ inr (state e, file, rw q, inl refl)
  ]
  write_slot-cases (stopped n) s file r = elim (Result-cases (encode_state_json serde s)) [
    | inl (bytes, q) ↦ inr (
      io,
      contents (take n bytes),
      rw q,
      inr (elim (Bool-cases (ltb n (length bytes))) [
        | inl short ↦ inl (read_prefix serde s bytes n r q (ground arith))
        | inr long ↦
            let whole = take_all n bytes (ground arith) in
            inr (rw whole (read_whole serde s bytes r q))
      ]),
    )
    | inr (e, q) ↦ inr (state e, file, rw q, inl refl)
  ]
  write_slot-cases synced s file r = elim (Result-cases (encode_state_json serde s)) [
    | inl (bytes, q) ↦ inl (contents bytes, rw q, read_whole serde s bytes r q)
    | inr (e, q) ↦ inr (state e, file, rw q, inl refl)
  ]

  -- What a commit leaves: the store moves on and a restart finds it, or the commit fails, the
  -- store stays, and a restart finds the store as it was or with the candidate.
  abbrev pub Committed :
      ControllerControlStore → ControllerControlSnapshot → Disk → WriteOutcome → Type 0
  Committed store candidate disk outcome =
      ((after : Disk) × (commit_candidate serde outcome candidate store disk
          ≡ (ok tt, committed store candidate, after))
        × IsDurable serde (committed store candidate) after)
      ⊎ ((e : ControlStoreError) × (after : Disk) × (commit_candidate serde outcome candidate store
              disk
            ≡ (err e, store, after))
          × (IsDurable serde store after ⊎ IsDurable serde (committed store candidate) after))

  module _ (store : ControllerControlStore) (candidate : ControllerControlSnapshot)
      (disk : Disk) where
    -- The slot of the next generation takes a new snapshot.
    newer_slot :
        (after : SlotFile)
        → IsDurable serde store disk
        → validate_snapshot store.controller_id (committed store candidate).snapshot ≡ ok tt
        → read_slot serde after ≡ valid (committed store candidate).snapshot
        → IsDurable serde
            (committed store candidate)
            (put_slot (store.snapshot.generation + 1) after disk)
    newer_slot after h v q =
        let g = store.snapshot.generation in
        let (new, old) = slot_for-next g after disk in
        let same = slot_for-next_next g (put_slot (g + 1) after disk) in
        record {
          current = rw new q;
          older = rw same (rw old (rw h.current (omega arith)));
          is_valid = v;
        }

    older_slot :
        (after : SlotFile)
        → IsDurable serde store disk
        → IsOlder store.snapshot.generation (read_slot serde after)
        → IsDurable serde store (put_slot (store.snapshot.generation + 1) after disk)
    older_slot after h q =
        let g = store.snapshot.generation in
        let (new, old) = slot_for-next g after disk in
        record { current = rw old h.current; older = rw new q; is_valid = h.is_valid }

    -- The slot after a failed write of the candidate.
    failed_slot :
        (after : SlotFile)
        → IsDurable serde store disk
        → validate_snapshot store.controller_id (committed store candidate).snapshot ≡ ok tt
        → FailedFile
            (committed store candidate).snapshot
            (slot_for (store.snapshot.generation + 1) disk)
            after
        → IsDurable serde store (put_slot (store.snapshot.generation + 1) after disk)
          ⊎ IsDurable serde
              (committed store candidate)
              (put_slot (store.snapshot.generation + 1) after disk)
    failed_slot after h v (inl same) = inl (older_slot after h (rw same h.older))
    failed_slot after h v (inr (inl (e, q))) = inl (older_slot after h (rw q tt))
    failed_slot after h v (inr (inr q)) = inr (newer_slot after h v q)

    pub no_room :
        (outcome : WriteOutcome)
        → next_generation store.snapshot.generation ≡ err generation_overflow
        → commit_candidate serde outcome candidate store disk
          ≡ (err generation_overflow, store, disk)
    unfolding commit_candidate
    no_room outcome q = rw (q, commit_candidate)

    pub not_valid :
        (outcome : WriteOutcome) (e : ControlStoreError)
        → next_generation store.snapshot.generation ≡ ok (store.snapshot.generation + 1)
        → validate_snapshot store.controller_id (committed store candidate).snapshot ≡ err e
        → commit_candidate serde outcome candidate store disk ≡ (err e, store, disk)
    unfolding commit_candidate
    not_valid outcome e q v = rw (q, v, commit_candidate)

    pub commits :
        (outcome : WriteOutcome) (r : Result ControlStoreError (Unit {0})) (after : SlotFile)
        → next_generation store.snapshot.generation ≡ ok (store.snapshot.generation + 1)
        → validate_snapshot store.controller_id (committed store candidate).snapshot ≡ ok tt
        → write_slot serde outcome
            (committed store candidate).snapshot
            (slot_for (store.snapshot.generation + 1) disk)
          ≡ (r, after)
        → commit_candidate serde outcome candidate store disk
          ≡ written store disk (committed store candidate).snapshot (r, after)
    unfolding commit_candidate
    commits outcome r after q v w = rw (q, v, w, commit_candidate)

    -- Whatever becomes of the write of a slot (no directory, no file, a prefix of any length, the
    -- whole document with or without success), a store whose slots are durable commits a
    -- candidate, whose document serde_json reads back, as follows: on success the store holds
    -- the candidate under the next generation and the slots are durable for it; on an error the
    -- store is as before and the slots are durable for it or for the store with the candidate.
    pub commit_candidate_lem :
        (outcome : WriteOutcome)
        → IsDurable serde store disk
        → IsReadable serde (committed store candidate).snapshot
        → Committed store candidate disk outcome
    commit_candidate_lem outcome h r = elim (Bool-cases (leb u64_max store.snapshot.generation)) [
      | inl full ↦ inr (generation_overflow, disk, no_room outcome (rw full), inl h)
      | inr room ↦ valid_or_not (rw room)
    ]
      where
        valid_or_not :
            next_generation store.snapshot.generation ≡ ok (store.snapshot.generation + 1)
            → Committed store candidate disk outcome
        valid_or_not q =
            elim (Result-cases
              (validate_snapshot store.controller_id (committed store candidate).snapshot)) [
                | inr (e, v) ↦ inr (e, disk, not_valid outcome e q v, inl h)
                | inl (u, v) ↦
                    elim (write_slot-cases outcome (committed store candidate).snapshot
                      (slot_for (store.snapshot.generation + 1) disk) r) [
                        | inl (after, w, f) ↦ inl (
                          put_slot (store.snapshot.generation + 1) after disk,
                          commits outcome (ok tt) after q v w,
                          newer_slot after h v f,
                        )
                        | inr (e, after, w, f) ↦ inr (
                          e,
                          put_slot (store.snapshot.generation + 1) after disk,
                          commits outcome (err e) after q v w,
                          failed_slot after h v f,
                        )
                      ]
              ]

    -- What a restart finds after a commit: the new snapshot after a success, the old one or the
    -- new one after an error.
    abbrev pub Restarts : WriteOutcome → WriteOutcome → Type 0
    Restarts outcome restart =
        ((after : Disk) × (commit_candidate serde outcome candidate store disk
            ≡ (ok tt, committed store candidate, after))
          × (load_or_create serde restart store.controller_id after
              ≡ (ok (committed store candidate), after)))
        ⊎ ((e : ControlStoreError) × (after : Disk) × (commit_candidate serde outcome candidate
                store disk
              ≡ (err e, store, after))
            × ((load_or_create serde restart store.controller_id after ≡ (ok store, after))
                ⊎ (load_or_create serde restart store.controller_id after
                    ≡ (ok (committed store candidate), after))))

    -- Whatever becomes of the write of a slot (no directory, no file, a prefix of any length, the
    -- whole document with or without success), and however the process then restarts: if the
    -- slots were durable for the store and serde_json reads back the candidate's document and
    -- none of its proper prefixes, a commit that succeeds leaves slots in which `load_or_create`
    -- finds the store with the candidate, and one that fails leaves the store as it was and slots
    -- in which `load_or_create` finds either that store or the one with the candidate.
    pub commit_then_restart :
        (outcome restart : WriteOutcome)
        → IsDurable serde store disk
        → IsReadable serde (committed store candidate).snapshot
        → Restarts outcome restart
    commit_then_restart outcome restart h r = elim (commit_candidate_lem outcome h r) [
      | inl (after, c, d) ↦
          inl (after, c, load-IsDurable serde restart (committed store candidate) after d)
      | inr (e, after, c, inl d) ↦
          inr (e, after, c, inl (load-IsDurable serde restart store after d))
      | inr (e, after, c, inr d) ↦
          inr (e, after, c, inr (load-IsDurable serde restart (committed store candidate) after d))
    ]
