-- ===== src/Bank/FromOme.antt =====
-- pkg/bank/grpc.go: `BalanceChanges`, the service through which an engine tells the bank of trades.
pub mod Delivery
pub mod Restarted
pub mod Settlement
use ccoms.Prelude.{ℤ, pos, negsuc, ◌==ℤ◌, Option, none, some, List, [], ◌∷◌, if◌then◌else◌, Bool}
use ccoms.Errors.{Error}
use ccoms.Text.{Text}
use ccoms.Dict.{Dict, str_eq, get_or}
use ccoms.Bank.Structs.{BalanceChange}
use ccoms.Bank.Messages.{BankMsg}

-- A message of the stream, with `OmeReasonIDs` as it is when the message comes, and what sending
-- an answer to it returns.
pub record Arrival : Type 0 where
  pub change : BalanceChange
  pub reason_ids : Dict Text ℤ
  pub send_error : Option Error

-- The messages that are given to the main task, the IDs that are answered, and the error.
abbrev pub Serving : Type 0
Serving = List BankMsg × List ℤ × Option Error

unfoldable pub from_ome : BalanceChange → BankMsg
from_ome bc = record { n = none; g = some bc }

abbrev pub forward : BalanceChange → ℤ → (ℤ → Serving) → Serving
forward bc first_id rest =
    let (ms, ids, e) = rest first_id in
    if bc.reason_id_first ==ℤ first_id then (from_ome bc ∷ ms, ids, e) else (ms, ids, e)

abbrev pub answered : ℤ → Serving → Serving
answered id (ms, ids, e) = (ms, id ∷ ids, e)

abbrev pub after_hello : BalanceChange → ℤ → Option Error → (ℤ → Serving) → Serving
after_hello bc id (some e) rest = ([], [], some e)
after_hello bc id none rest = answered id (forward bc id rest)

-- `BalanceChanges`, on the messages up to the end of the stream, for which `Recv` returns `stop`:
-- `none` is `io.EOF`.
unfoldable pub balance_changes : Option Error → ℤ → List Arrival → Serving
unfolding from_ome
balance_changes stop first_id [] = ([], [], stop)
balance_changes stop first_id (a ∷ l) =
    if a.change.reason_id_first ==ℤ negsuc 0
    then after_hello a.change (get_or a.change.reason_table (pos 0) a.reason_ids) a.send_error
        (λ id. balance_changes stop id l)
    else forward a.change first_id (λ id. balance_changes stop id l)
