-- ===== src/Runtime/Transfers/Starting.antt =====
-- What a start leaves in the table, whether it is accepted or refused.
use clew.Prelude.{
  ℕ, suc, ◌≤◌, ◌<◌, ◌≡◌, refl, sym, ◌∙◌, ap, Bool, true, false, Option, none, some, [], ◌∷◌, inl,
  inr, arith,
}
use clew.Prelude.Tests.{leb, ◌==◌, ==_iff, ==_refl, Option-cases, Bool-cases}
use clew.Prelude.Lists.{length}
use clew.Prelude.Map.{lookup, insert, remove, lookup-insert, lookup-remove}
use clew.Prelude.Sorted.{IsSorted, remove-IsSorted, insert-IsSorted}
use clew.Prelude.Outcome.{Result, ok, err, is_ok, Result-cases, ok-injective, bound, ◌>>◌}
use clew.Prelude.Text.{Str}
use clew.Transport.FileTransfer.{FileConflictPolicy}
use clew.Runtime.Transfers.{
  ControllerFileTransferEntry, ControllerFileTransferSnapshot, ControllerFileTransferError,
  prune_terminal, hard_max_controller_file_transfers, put_entry, get_entry,
}
use clew.Runtime.Transfers.Journal.{validate_start_inputs, validate_get_start_inputs}
use clew.Runtime.Transfers.Start.{
  ControllerFileTransferManager, persist, persist_current, settle, enter,
  start_put_with_transfer_id, start_get_with_transfer_id, new_put, new_get,
}
use clew.Runtime.Transfers.Capacity.{Table, is_terminal, IsPruned, prune_terminal_lem}

pub record IsStarted (t : ℕ) (entry : ControllerFileTransferEntry) (before after : Table)
    (accepted : Bool) : Type 0 where
  pub sorted : IsSorted after
  pub runs_on :
      (j : ℕ) (e : ControllerFileTransferEntry)
      → lookup j before ≡ some e
      → is_terminal e ≡ false
      → lookup j after ≡ some e
  pub bounded :
      length before ≤ hard_max_controller_file_transfers
      → length after ≤ hard_max_controller_file_transfers
  pub entered : accepted ≡ true → lookup t after ≡ some entry
  pub nothing_new :
      accepted ≡ false
      → (j : ℕ) (e : ControllerFileTransferEntry) → lookup j after ≡ some e
      → lookup j before ≡ some e

length-insert :
    (k : ℕ) (e : ControllerFileTransferEntry) (m : Table) → length (insert k e m) ≤ suc (length m)
unfolding insert
length-insert k e [] = omega arith
length-insert k e ((j, d) ∷ m) = ground (arith, length-insert k e m)

length-removed : (k : ℕ) (m : Table) → length (remove k m) ≤ length m
unfolding remove
length-removed k [] = omega arith
length-removed k ((j, d) ∷ m) = ground (arith, length-removed k m)

-- A refusal that leaves a pruned table.
refused-IsStarted :
    (t : ℕ) (entry : ControllerFileTransferEntry) (before after : Table)
    → IsPruned before after
    → IsStarted t entry before after false
refused-IsStarted t entry before after h = record {
  sorted = h.sorted;
  runs_on = h.runs_on;
  bounded = λ b. let shorter = h.no_longer in omega arith;
  entered = λ q. ground arith;
  nothing_new = λ _. h.nothing_new;
}

module _ (t : ℕ) (entry : ControllerFileTransferEntry) (before after : Table)
    (h : IsPruned before after) (fresh : lookup t after ≡ none)
    (below : length after < hard_max_controller_file_transfers) where
  apart : (j : ℕ) (e : ControllerFileTransferEntry) → lookup j after ≡ some e → (t == j) ≡ false
  apart j e here = elim (Bool-cases (t == j)) [
    | inr other ↦ other
    | inl same ↦ let q : t ≡ j = (==_iff t j).0 same in absurd (sym (rw q at fresh) ∙ here)
  ]
    where
      absurd : ◌≡◌ {A = Option ControllerFileTransferEntry} none (some e) → (t == j) ≡ false
      absurd bad = cc

  inserted-IsStarted : IsStarted t entry before (insert t entry after) true
  inserted-IsStarted = record {
    sorted = insert-IsSorted t entry after h.sorted;
    runs_on = λ j e here runs.
        let there = h.runs_on j e here runs in
        lookup-insert j t entry after ∙ (rw (apart j e there) there);
    bounded = λ _. let longer = length-insert t entry after in omega arith;
    entered = λ _. lookup-insert t t entry after ∙ (rw ==_refl refl);
    nothing_new = λ q. ground arith;
  }

  undone-IsStarted : IsStarted t entry before (remove t (insert t entry after)) false
  undone-IsStarted = record {
    sorted = remove-IsSorted t (insert t entry after) (insert-IsSorted t entry after h.sorted);
    runs_on = λ j e here runs.
        let there = h.runs_on j e here runs in
        lookup-remove j t (insert t entry after)
        ∙ (rw (apart j e there) (lookup-insert j t entry after ∙ (rw (apart j e there) there)));
    bounded = λ _.
        let longer = length-insert t entry after in
        let shorter = length-removed t (insert t entry after) in omega arith;
    entered = λ q. ground arith;
    nothing_new = λ _ j e here. h.nothing_new j e (was_there j e here);
  }
    where
      was_there :
          (j : ℕ) (e : ControllerFileTransferEntry)
          → lookup j (remove t (insert t entry after)) ≡ some e
          → lookup j after ≡ some e
      was_there j e here =
          let one = sym (lookup-remove j t (insert t entry after)) ∙ here in
          let two = lookup-insert j t entry after in
          elim (Bool-cases (t == j)) [
            | inl same ↦ absurd (rw same at one)
            | inr other ↦ sym (rw other at two) ∙ (rw other at one)
          ]
        where
          absurd :
              ◌≡◌ {A = Option ControllerFileTransferEntry} none (some e) → lookup j after ≡ some e
          absurd bad = cc

-- Inputs that are refused before the lock is taken.
untouched-IsStarted :
    (t : ℕ) (entry : ControllerFileTransferEntry) (m : Table)
    → IsSorted m
    → IsStarted t entry m m false
untouched-IsStarted t entry m sorted = record {
  sorted = sorted;
  runs_on = λ j e here _. here;
  bounded = λ b. b;
  entered = λ q. ground arith;
  nothing_new = λ _ j e here. here;
}

is_ok-then :
    {A : Type 0} (r : Result ControllerFileTransferError (Unit {0})) (a : A)
    → is_ok (r >> ok a) ≡ is_ok r
is_ok-then (ok _) a = refl
is_ok-then (err e) a = refl

module _ (is_absolute : Str → Bool)
    (write_slot : Bool
      → ControllerFileTransferSnapshot
      → Result ControllerFileTransferError (Unit {0})) where
  persist_current_lem :
      (m next : ControllerFileTransferManager)
      → persist_current is_absolute write_slot m ≡ ok next
      → next.transfers ≡ m.transfers
  unfolding persist_current
  persist_current_lem m next q = elim (Option-cases m.state_store) [
    | inl without ↦ ap (λ n. n.transfers) (sym (ok-injective (rw (persist_current, without) at q)))
    | inr (generation, with_one) ↦
        let steps =
          bound (persist is_absolute write_slot m.controller_id generation m.transfers)
            (λ g. ok (record m { state_store = some g })) next
            (rw (persist_current, with_one) at q) in
        ap (λ n. n.transfers) (sym (ok-injective steps.2))
  ]

  settle_lem :
      (t : ℕ) (entry : ControllerFileTransferEntry) (before : Table)
      (pruned : ControllerFileTransferManager)
      → IsPruned before pruned.transfers
      → lookup t pruned.transfers ≡ none
      → length pruned.transfers < hard_max_controller_file_transfers
      → let placed = record pruned { transfers = insert t entry pruned.transfers } in
        let done = settle is_absolute write_slot t placed in
        IsStarted t entry before done.1.transfers (is_ok done.0)
  unfolding settle
  settle_lem t entry before pruned h fresh below =
      let placed = record pruned { transfers = insert t entry pruned.transfers } in
      elim (Result-cases (persist_current is_absolute write_slot placed)) [
        | inl (next, q) ↦
            rw (settle, q)
              (rw (persist_current_lem placed next q)
                (inserted-IsStarted t entry before pruned.transfers h fresh below))
        | inr (e, q) ↦
            rw (settle, q) (undone-IsStarted t entry before pruned.transfers h fresh below)
      ]

  -- Whatever a start answers from the lock on.
  enter_lem :
      (t : ℕ) (entry : ControllerFileTransferEntry) (m : ControllerFileTransferManager)
      → IsSorted m.transfers
      → let done = enter is_absolute write_slot t entry m in
        IsStarted t entry m.transfers done.1.transfers (is_ok done.0)
  unfolding enter
  enter_lem t entry m sorted =
      let h = prune_terminal_lem m.transfers sorted in
      let table = prune_terminal m.transfers in
      elim (Option-cases (lookup t table)) [
        | inr (e, taken) ↦ rw taken (refused-IsStarted t entry m.transfers table h)
        | inl fresh ↦
            rw fresh (elim (Bool-cases (leb hard_max_controller_file_transfers (length table))) [
              | inl full ↦ rw full (refused-IsStarted t entry m.transfers table h)
              | inr below ↦ rw below (
                  settle_lem t entry m.transfers (record m { transfers = table }) h fresh
                    (ground arith))
            ])
      ]

  -- From a table with distinct keys, whatever `start_put` answers: no transfer that runs is lost or
  -- changed, at most 16 entries stay at most 16, an accepted put stands under its id as a
  -- preparing transfer with these paths, and a refused one has added nothing.
  pub start_put_with_transfer_id_lem :
      (t d site : ℕ) (source device : Str) (size : ℕ) (policy : FileConflictPolicy)
      (m : ControllerFileTransferManager)
      → IsSorted m.transfers
      → let done =
          start_put_with_transfer_id is_absolute write_slot t d site source device size policy m in
        IsStarted t
          (put_entry (new_put t d source device size) site policy false)
          m.transfers
          done.1.transfers
          (is_ok done.0)
  unfolding start_put_with_transfer_id
  start_put_with_transfer_id_lem t d site source device size policy m sorted =
      let info = new_put t d source device size in
      let entry = put_entry info site policy false in
      elim (Result-cases (validate_start_inputs is_absolute source device size)) [
        | inr (e, q) ↦ rw q (untouched-IsStarted t entry m.transfers sorted)
        | inl (_, q) ↦
            rw (q, is_ok-then (enter is_absolute write_slot t entry m).0 info)
              (enter_lem t entry m sorted)
      ]

  -- From a table with distinct keys, whatever `start_get` answers: no transfer that runs is lost or
  -- changed, at most 16 entries stay at most 16, an accepted get stands under its id as a
  -- preparing transfer with these paths, and a refused one has added nothing.
  pub start_get_with_transfer_id_lem :
      (t d site : ℕ) (device destination : Str) (size : ℕ) (policy : FileConflictPolicy)
      (m : ControllerFileTransferManager)
      → IsSorted m.transfers
      → let done =
          start_get_with_transfer_id is_absolute write_slot t d site device destination size policy
            m in
        IsStarted t
          (get_entry (new_get t d device destination size) site policy none false)
          m.transfers
          done.1.transfers
          (is_ok done.0)
  unfolding start_get_with_transfer_id
  start_get_with_transfer_id_lem t d site device destination size policy m sorted =
      let info = new_get t d device destination size in
      let entry = get_entry info site policy none false in
      elim (Result-cases (validate_get_start_inputs is_absolute device destination size)) [
        | inr (e, q) ↦ rw q (untouched-IsStarted t entry m.transfers sorted)
        | inl (_, q) ↦
            rw (q, is_ok-then (enter is_absolute write_slot t entry m).0 info)
              (enter_lem t entry m sorted)
      ]
