-- ===== src/Runtime/Transfers/Capacity.antt =====
-- What pruning and a start leave in the table: no transfer that runs is lost.
use clew.Prelude.{
  ℕ, zero, suc, ◌≤◌, ◌<◌, ◌≡◌, refl, sym, ◌∙◌, Bool, true, false, Option, none, some, [], ◌∷◌, ◌⊎◌,
  inl, inr, arith,
}
use clew.Prelude.Tests.{leb, ◌==◌, ==_iff, if◌then◌else◌, Option-cases, Bool-cases}
use clew.Prelude.Lists.{length}
use clew.Prelude.Map.{Map, lookup, remove, lookup-remove, some_inj, Every-lookup}
use clew.Prelude.Sorted.{IsSorted, remove-IsSorted}
use clew.Runtime.Transfers.{
  ControllerFileTransferEntry, terminal, phase_of, first_terminal, prune_from, prune_terminal,
  hard_max_controller_file_transfers,
}

abbrev pub Table : Type 0
Table = Map ControllerFileTransferEntry

abbrev pub is_terminal : ControllerFileTransferEntry → Bool
is_terminal e = terminal (phase_of e)

first_terminal-none :
    (m : Table) (j : ℕ) (e : ControllerFileTransferEntry)
    → first_terminal m ≡ none
    → lookup j m ≡ some e
    → is_terminal e ≡ false
unfolding first_terminal lookup
first_terminal-none [] j e q here = ground arith
first_terminal-none ((k, d) ∷ m) j e q here = elim (Bool-cases (is_terminal d)) [
  | inl over ↦ absurd (rw over at q)
  | inr runs ↦
      let rest : first_terminal m ≡ none = rw runs at q in
      elim (Bool-cases (k == j)) [
        | inl at_k ↦ let same : d ≡ e = some_inj d e (rw at_k at here) in rw (← same) runs
        | inr other ↦ first_terminal-none m j e rest (rw other at here)
      ]
]
  where
    absurd : ◌≡◌ {A = Option ℕ} (some k) none → is_terminal e ≡ false
    absurd bad = cc

pub length-remove :
    (k : ℕ) (e : ControllerFileTransferEntry) (m : Table)
    → lookup k m ≡ some e
    → length (remove k m) < length m
unfolding lookup remove
length-remove k e [] here = ground arith
length-remove k e ((j, d) ∷ m) here = elim (Bool-cases (j == k)) [
  | inl same ↦ rw same (shorter m)
  | inr other ↦ rw other (let h = length-remove k e m (rw other at here) in omega arith)
]
  where
    shorter : (l : Table) → length (remove k l) < suc (length l)
    shorter [] = omega arith
    shorter ((i, f) ∷ l) = ground (arith, shorter l)

-- In a table with distinct keys the loop picks an entry that is over.
first_terminal-some :
    (m : Table) (k : ℕ)
    → IsSorted m
    → first_terminal m ≡ some k
    → (e : ControllerFileTransferEntry) × (lookup k m ≡ some e) × (is_terminal e ≡ true)
unfolding first_terminal lookup
first_terminal-some [] k sorted q = ground arith
first_terminal-some ((i, d) ∷ m) k sorted q = elim (Bool-cases (is_terminal d)) [
  | inl over ↦
      let same : i ≡ k = some_inj i k (rw over at q) in
      let here : (i == k) ≡ true = ground arith in (d, rw here refl, over)
  | inr runs ↦
      let found = first_terminal-some m k sorted.1 (rw runs at q) in
      let above : i < k = Every-lookup (λ j _. i < j) k m found.1 sorted.0 in
      let apart : (i == k) ≡ false = ground arith in (found.0, rw apart found.1, found.2)
]

abbrev pub HasRoom : Table → Type 0
HasRoom m =
    (length m < hard_max_controller_file_transfers)
    ⊎ ((j : ℕ) (e : ControllerFileTransferEntry) → lookup j m ≡ some e → is_terminal e ≡ false)

-- What pruning keeps of a table, and the room that it makes.
pub record IsPruned (before after : Table) : Type 0 where
  pub sorted : IsSorted after
  pub runs_on :
      (j : ℕ) (e : ControllerFileTransferEntry)
      → lookup j before ≡ some e
      → is_terminal e ≡ false
      → lookup j after ≡ some e
  pub nothing_new :
      (j : ℕ) (e : ControllerFileTransferEntry) → lookup j after ≡ some e → lookup j before ≡ some e
  pub no_longer : length after ≤ length before
  pub room : HasRoom after

same-IsPruned : (m : Table) → IsSorted m → HasRoom m → IsPruned m m
same-IsPruned m sorted room = record {
  sorted = sorted;
  runs_on = λ j e here _. here;
  nothing_new = λ j e here. here;
  no_longer = omega arith;
  room = room;
}

-- Removing an entry that is over, then pruning the rest.
removed-IsPruned :
    (k : ℕ) (m rest : Table)
    → IsSorted m
    → first_terminal m ≡ some k
    → IsPruned (remove k m) rest
    → IsPruned m rest
removed-IsPruned k m rest sorted over next = record {
  sorted = next.sorted;
  runs_on = λ j e here runs. next.runs_on j e (stays j e here runs) runs;
  nothing_new = λ j e here. was_there j e (sym (lookup-remove j k m) ∙ next.nothing_new j e here);
  no_longer =
      let h = next.no_longer in let shorter = length-remove k found.0 m found.1 in omega arith;
  room = next.room;
}
  where
    found : (e : ControllerFileTransferEntry) × (lookup k m ≡ some e) × (is_terminal e ≡ true)
    found = first_terminal-some m k sorted over

    stays :
        (j : ℕ) (e : ControllerFileTransferEntry)
        → lookup j m ≡ some e
        → is_terminal e ≡ false
        → lookup j (remove k m) ≡ some e
    stays j e here runs = elim (Bool-cases (k == j)) [
      | inl same ↦
          let q : k ≡ j = (==_iff k j).0 same in
          let entry : found.0 ≡ e = some_inj found.0 e (sym found.1 ∙ (rw q here)) in
          absurd (sym found.2 ∙ (rw entry runs))
      | inr other ↦ lookup-remove j k m ∙ (rw other here)
    ]
      where
        absurd : true ≡ false → lookup j (remove k m) ≡ some e
        absurd bad = cc

    was_there :
        (j : ℕ) (e : ControllerFileTransferEntry)
        → (if k == j then none else lookup j m) ≡ some e
        → lookup j m ≡ some e
    was_there j e here = elim (Bool-cases (k == j)) [
      | inl same ↦ absurd (rw same at here)
      | inr other ↦ rw other at here
    ]
      where
        absurd : ◌≡◌ {A = Option ControllerFileTransferEntry} none (some e) → lookup j m ≡ some e
        absurd bad = cc

prune_from-IsPruned : (n : ℕ) (m : Table) → length m ≤ n → IsSorted m → IsPruned m (prune_from n m)
unfolding prune_from
prune_from-IsPruned zero m fuel sorted = same-IsPruned m sorted (inl (omega arith))
prune_from-IsPruned (suc n) m fuel sorted = elim (Option-cases (first_terminal m)) [
  | inl none_over ↦
      rw (prune_from, none_over)
        (same-IsPruned m sorted (inr (λ j e here. first_terminal-none m j e none_over here)))
  | inr (k, over) ↦
      rw (prune_from, over)
        (elim (Bool-cases (leb hard_max_controller_file_transfers (length m))) [
          | inl full ↦
              let found = first_terminal-some m k sorted over in
              let shorter = length-remove k found.0 m found.1 in
              rw full (
                removed-IsPruned k m (prune_from n (remove k m)) sorted over
                  (prune_from-IsPruned n (remove k m) (omega arith) (remove-IsSorted k m sorted)))
          | inr below ↦ rw below (same-IsPruned m sorted (inl (ground arith)))
        ])
]

-- Pruning a table with distinct keys keeps every transfer that is not over, with its entry, and
-- adds none; afterwards fewer than 16 entries are left, or none that is over.
pub prune_terminal_lem : (m : Table) → IsSorted m → IsPruned m (prune_terminal m)
unfolding prune_terminal
prune_terminal_lem m sorted = prune_from-IsPruned (length m) m (omega arith) sorted
