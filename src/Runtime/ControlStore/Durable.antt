-- ===== src/Runtime/ControlStore/Durable.antt =====
-- What a restart finds after a commit, however the write of the slot went.
use clew.Prelude.{ℕ, ◌+◌, ◌<◌, ◌≡◌, true, false, some, List, arith, inl, inr}
use clew.Prelude.Tests.{ltb, if◌then◌else◌, Bool-cases}
use clew.Prelude.Outcome.{ok, err, Result-cases}
use clew.Prelude.Lists.{length, take}
use clew.Core.State.{
  Json, encode_state_json, decode_state_json, max_state_document_size, StateCodecError,
}
use clew.Runtime.Snapshot.{
  document_too_large, state, ControlStoreError, ControllerControlSnapshot, validate_snapshot,
}
use clew.Runtime.ControlStore.{
  SlotFile, Disk, WriteOutcome, SlotRead, missing, valid, invalid, ControllerControlStore, contents,
  in_slot_a, slot_for, put_slot, visit_slot, choose, nothing_found, read_slot, load_or_create,
}

-- A slot that a restart passes over in favour of generation `g`: no file, an error, or an older
-- snapshot, valid or not.
abbrev pub IsOlder : ℕ → SlotRead → Type 0
IsOlder g missing = Unit
IsOlder g (invalid e) = Unit
IsOlder g (valid s) = s.generation < g

-- Two slots, one of them with the snapshot of a store.
choose_a :
    (id : ℕ) (s : ControllerControlSnapshot) (other : SlotRead)
    → validate_snapshot id s ≡ ok tt
    → IsOlder s.generation other
    → choose (visit_slot id other (visit_slot id (valid s) nothing_found)) ≡ some (ok s)
unfolding choose visit_slot
choose_a id s missing v o = rw (v, visit_slot)
choose_a id s (invalid e) v o = rw (v, visit_slot)
choose_a id s (valid t) v o = elim (Result-cases (validate_snapshot id t)) [
  | inl (u, w) ↦ ground arith
  | inr (e, w) ↦ ground arith
]

choose_b :
    (id : ℕ) (s : ControllerControlSnapshot) (other : SlotRead)
    → validate_snapshot id s ≡ ok tt
    → IsOlder s.generation other
    → choose (visit_slot id (valid s) (visit_slot id other nothing_found)) ≡ some (ok s)
unfolding choose visit_slot
choose_b id s missing v o = rw (v, visit_slot)
choose_b id s (invalid e) v o = rw (v, visit_slot)
choose_b id s (valid t) v o = elim (Result-cases (validate_snapshot id t)) [
  | inl (u, w) ↦ ground arith
  | inr (e, w) ↦ ground arith
]

-- The store's snapshot is in the slot of its generation, and the other slot holds nothing newer.
pub record IsDurable (serde : Json ControllerControlSnapshot) (store : ControllerControlStore)
    (disk : Disk) : Type 0 where
  pub current : read_slot serde (slot_for store.snapshot.generation disk) ≡ valid store.snapshot
  pub older :
      IsOlder store.snapshot.generation
        (read_slot serde (slot_for (store.snapshot.generation + 1) disk))
  pub is_valid : validate_snapshot store.controller_id store.snapshot ≡ ok tt

-- What the store relies on of serde_json: the document of the snapshot is read back as it was
-- written, and no proper prefix of it is a document.
pub record IsReadable (serde : Json ControllerControlSnapshot) (s : ControllerControlSnapshot)
    : Type 0 where
  pub round_trip :
      (bytes : List ℕ) → encode_state_json serde s ≡ ok bytes → decode_state_json serde bytes ≡ ok s
  pub no_prefix :
      (bytes : List ℕ) (n : ℕ)
      → encode_state_json serde s ≡ ok bytes
      → n < length bytes
      → (e : StateCodecError) × (decode_state_json serde (take n bytes) ≡ err e)

-- Generations of one parity stand in one slot, and neighbours in different ones.
module _ (g : ℕ) where
  next_slot : in_slot_a (g + 1) ≡ (if in_slot_a g then false else true)
  next_slot = ground arith

  pub slot_for-next :
      (file : SlotFile) (disk : Disk)
      → (slot_for (g + 1) (put_slot (g + 1) file disk) ≡ file)
        × (slot_for g (put_slot (g + 1) file disk) ≡ slot_for g disk)
  slot_for-next file disk = ground (arith, next_slot)

  pub slot_for-next_next : (disk : Disk) → slot_for (g + 1 + 1) disk ≡ slot_for g disk
  slot_for-next_next disk = ground arith

  pub put_slot_self : (disk : Disk) → put_slot g (slot_for g disk) disk ≡ disk
  put_slot_self disk = ground arith

module _ (serde : Json ControllerControlSnapshot) where
  load_found :
      (outcome : WriteOutcome) (id : ℕ) (disk : Disk) (s : ControllerControlSnapshot)
      → choose (
          visit_slot id
            (read_slot serde disk.slot_b)
            (visit_slot id (read_slot serde disk.slot_a) nothing_found))
        ≡ some (ok s)
      → load_or_create serde outcome id disk
        ≡ (ok (record { controller_id = id; snapshot = s }), disk)
  unfolding load_or_create
  load_found outcome id disk s e = rw (e, load_or_create)

  -- A restart finds the snapshot of the store.
  pub load-IsDurable :
      (outcome : WriteOutcome) (store : ControllerControlStore) (disk : Disk)
      → IsDurable serde store disk
      → load_or_create serde outcome store.controller_id disk ≡ (ok store, disk)
  load-IsDurable outcome store disk h =
      let g = store.snapshot.generation in
      load_found outcome store.controller_id disk store.snapshot (elim (Bool-cases (in_slot_a g)) [
        | inl in_a ↦
            let a : slot_for g disk ≡ disk.slot_a = rw in_a in
            let b : slot_for (g + 1) disk ≡ disk.slot_b = ground (arith, next_slot g) in
            rw (rw a at h.current) (
              choose_a store.controller_id store.snapshot (read_slot serde disk.slot_b) h.is_valid
                (rw b at h.older))
        | inr in_b ↦
            let b : slot_for g disk ≡ disk.slot_b = rw in_b in
            let a : slot_for (g + 1) disk ≡ disk.slot_a = ground (arith, next_slot g) in
            rw (rw b at h.current) (
              choose_b store.controller_id store.snapshot (read_slot serde disk.slot_a) h.is_valid
                (rw a at h.older))
      ])

  -- The slot after a write that stopped before the end of the document.
  pub read_prefix :
      (s : ControllerControlSnapshot) (bytes : List ℕ) (n : ℕ)
      → IsReadable serde s
      → encode_state_json serde s ≡ ok bytes
      → n < length bytes
      → (e : ControlStoreError) × (read_slot serde (contents (take n bytes)) ≡ invalid e)
  unfolding read_slot
  read_prefix s bytes n r e lt =
      let (x, bad) = r.no_prefix bytes n e lt in
      elim (Bool-cases (ltb max_state_document_size (length (take n bytes)))) [
        | inl large ↦ (document_too_large (length (take n bytes)), rw large)
        | inr fits ↦ (state x, rw (fits) (rw (bad, read_slot)))
      ]

  -- The slot after a write of the whole document.
  pub read_whole :
      (s : ControllerControlSnapshot) (bytes : List ℕ)
      → IsReadable serde s
      → encode_state_json serde s ≡ ok bytes
      → read_slot serde (contents bytes) ≡ valid s
  unfolding read_slot
  read_whole s bytes r e =
      let fits : ltb max_state_document_size (length bytes) ≡ false = encoded_fits s bytes e in
      let whole = r.round_trip bytes e in rw fits (rw (whole, read_slot))
    where
      encoded_fits :
          (t : ControllerControlSnapshot) (b : List ℕ)
          → encode_state_json serde t ≡ ok b
          → ltb max_state_document_size (length b) ≡ false
      encoded_fits t b q = unfold encode_state_json in ground arith
