-- ===== src/Examples/Transfers.antt =====
-- A table of sixteen transfers, of which the oldest is over, and the starts applied to it.
use clew.Prelude.{ℕ, zero, suc, ◌≡◌, refl, Bool, true, false, none, some, [], ◌∷◌, ◌++◌, ◌+◌, arith}
use clew.Prelude.Tests.{◌==◌}
use clew.Prelude.Lists.{length, any}
use clew.Prelude.Map.{lookup, remove, insert, values}
use clew.Prelude.Sorted.{IsSorted}
use clew.Prelude.Outcome.{Result, ok, is_ok}
use clew.Prelude.Text.{Str, str, trim, byte_len}
use clew.Transport.FileTransfer.{fail_if_exists}
use clew.Runtime.Transfers.{
  ControllerFileTransferPhase, completed, running, put_entry, get_entry,
  ControllerFileTransferSnapshot, ControllerFileTransferError, prune_terminal,
}
use clew.Runtime.Transfers.Start.{
  ControllerFileTransferManager, new_put, new_get, start_put_with_transfer_id,
  start_get_with_transfer_id,
}
use clew.Runtime.Transfers.Capacity.{Table, IsPruned, prune_terminal_lem}
use clew.Runtime.Transfers.Starting.{
  IsStarted, start_put_with_transfer_id_lem, start_get_with_transfer_id_lem,
}

-- `Path::is_absolute` on Unix
abbrev from_root : Str → Bool
from_root [] = false
from_root (c ∷ _) = c == 47

abbrev written :
    Bool → ControllerFileTransferSnapshot → Result ControllerFileTransferError (Unit {0})
written _ _ = ok tt

abbrev transfers_in : ControllerFileTransferPhase → ℕ → ℕ → Table
transfers_in phase zero k = []
transfers_in phase (suc n) k =
    (
      k,
      put_entry (record (new_put k 9 (str "/a") (str "b") 4096) { phase = phase }) 5 fail_if_exists
          false,
    )
    ∷ transfers_in phase n (k + 1)

abbrev crowded : Table
crowded = transfers_in completed 1 1 ++ transfers_in running 15 2

abbrev manager : ControllerFileTransferManager
manager = record { controller_id = 7; transfers = crowded; state_store = some 4 }

crowded-IsSorted : IsSorted crowded
crowded-IsSorted = ground arith

prune_runs : (length crowded ≡ 16) × (length (prune_terminal crowded) ≡ 15)
unfolding prune_terminal remove
prune_runs = (refl, refl)

start_put_runs :
    is_ok
      (start_put_with_transfer_id from_root written 20 9 5
        (str "/a")
        (str "b")
        4096
        fail_if_exists
        manager).0
    ≡ true
unfolding start_put_with_transfer_id trim byte_len any lookup remove values insert
start_put_runs = refl

prune_terminal_lem_example : IsPruned crowded (prune_terminal crowded)
prune_terminal_lem_example = prune_terminal_lem crowded crowded-IsSorted

start_put_with_transfer_id_lem_example :
    let done =
      start_put_with_transfer_id from_root written 20 9 5
        (str "/a")
        (str "b")
        4096
        fail_if_exists
        manager in
    IsStarted 20
      (put_entry (new_put 20 9 (str "/a") (str "b") 4096) 5 fail_if_exists false)
      crowded
      done.1.transfers
      (is_ok done.0)
start_put_with_transfer_id_lem_example =
    start_put_with_transfer_id_lem from_root written 20 9 5 (str "/a") (str "b") 4096 fail_if_exists
      manager crowded-IsSorted

start_get_with_transfer_id_lem_example :
    let done =
      start_get_with_transfer_id from_root written 20 9 5
        (str "b")
        (str "/a")
        4096
        fail_if_exists
        manager in
    IsStarted 20
      (get_entry (new_get 20 9 (str "b") (str "/a") 4096) 5 fail_if_exists none false)
      crowded
      done.1.transfers
      (is_ok done.0)
start_get_with_transfer_id_lem_example =
    start_get_with_transfer_id_lem from_root written 20 9 5 (str "b") (str "/a") 4096 fail_if_exists
      manager crowded-IsSorted
