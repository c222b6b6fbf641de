-- ===== src/Ome/ToBank.antt =====
-- pkg/ome/grpc.go: `PushBalanceLogs`, which tells the banks of a market what a trade moves.
pub mod Settlement
use ccoms.Prelude.{
  ℤ, pos, negsuc, leb_ℤ, Option, none, some, List, [], ◌∷◌, ◌++◌, if◌then◌else◌, Bool,
}
use ccoms.Errors.{Error, Result, ok, err, unmarshal_failed}
use ccoms.Text.{Text, codes, text_eq, to_lower}
use ccoms.Bank.Structs.{BalanceChange}
use ccoms.Ome.Structs.{MatchLog, OmeLog, int_to_decimal}
use ccoms.Ome.Worker.{Ticket, Libs, Worker}

module _ (L : Libs) where
  open L.decimal use {zero, neg, to_string}

  -- The change of the bank of the quote asset: the asker is paid from what the bider has frozen.
  unfoldable pub quote_change : Worker L → ℤ → ℤ → MatchLog → BalanceChange
  unfolding int_to_decimal
  quote_change w first_id log_id ml =
      let amount = int_to_decimal L.decimal ml.amount in
      record {
        reason = codes "match";
        reason_table = (codes "ome_" ++ to_lower w.symbol) ++ codes "_logs";
        reason_id = log_id;
        owner = ml.asker;
        free_change = to_string amount;
        freeze_change = to_string zero;
        owner2 = ml.bider;
        free_change2 = to_string zero;
        freeze_change2 = to_string (neg amount);
        reason_id_first = first_id;
      }

  -- The change of the bank of the base asset: the bider gets what the asker has frozen.
  unfoldable pub base_change : Worker L → ℤ → ℤ → MatchLog → BalanceChange
  unfolding int_to_decimal
  base_change w first_id log_id ml =
      let quantity = int_to_decimal L.decimal ml.quantity in
      record {
        reason = codes "match";
        reason_table = (codes "ome_" ++ to_lower w.symbol) ++ codes "_logs";
        reason_id = log_id;
        owner = ml.asker;
        free_change = to_string zero;
        freeze_change = to_string (neg quantity);
        owner2 = ml.bider;
        free_change2 = to_string quantity;
        freeze_change2 = to_string zero;
        reason_id_first = first_id;
      }

  -- The changes that are sent for one trade to the bank of `coin`.
  unfoldable pub changes_for : Text → Worker L → ℤ → ℤ → MatchLog → List BalanceChange
  changes_for coin w first_id log_id ml =
      (if text_eq coin w.quote_asset then quote_change w first_id log_id ml ∷ [] else [])
      ++ (if text_eq coin w.base_asset then base_change w first_id log_id ml ∷ [] else [])

  abbrev pub changes_of : Text → Worker L → ℤ → ℤ → List MatchLog → List BalanceChange
  changes_of coin w first_id log_id [] = []
  changes_of coin w first_id log_id (ml ∷ mls) =
      if leb_ℤ log_id first_id then [] else changes_for coin w first_id log_id ml

  abbrev pub pushed : Text → Worker L → ℤ → Option OmeLog → Result (List BalanceChange)
  pushed coin w first_id none = err unmarshal_failed
  pushed coin w first_id (some l) = ok (changes_of coin w first_id l.log_id l.match_logs)

  -- `push`, on one line of the log: what it sends if the stream takes it.
  unfoldable pub push : Text → Worker L → ℤ → Text → Result (List BalanceChange)
  unfolding changes_for
  push coin w first_id s = pushed coin w first_id (L.json.unmarshal s)

  -- What `PushBalanceChanges` sends first.
  unfoldable pub hello : Worker L → BalanceChange
  hello w = record {
    reason = [];
    reason_table = (codes "ome_" ++ to_lower w.symbol) ++ codes "_logs";
    reason_id = pos 0;
    owner = pos 0;
    free_change = [];
    freeze_change = [];
    owner2 = pos 0;
    free_change2 = [];
    freeze_change2 = [];
    reason_id_first = negsuc 0;
  }

  abbrev pub then_lines :
      Result (List BalanceChange)
      → List BalanceChange × Option Error
      → List BalanceChange × Option Error
  then_lines (err e) rest = ([], some e)
  then_lines (ok l) (bcs, e) = (l ++ bcs, e)

  -- The lines that `PushBalanceLogs` reads from the log, up to the first that cannot be read.
  unfoldable pub push_lines : Text → Worker L → ℤ → List Text → List BalanceChange × Option Error
  unfolding push
  push_lines coin w first_id [] = ([], none)
  push_lines coin w first_id (s ∷ ss) =
      then_lines (push coin w first_id s) (push_lines coin w first_id ss)

  -- The ID from which `PullTickets` asks a bank for tickets.
  unfoldable pub last_ticket_id : Text → Worker L → ℤ
  last_ticket_id coin w =
      if text_eq coin w.quote_asset then w.latest_bid_ticket_id else w.latest_ask_ticket_id

  abbrev pub then_round :
      List BalanceChange × Option Error
      → List BalanceChange × Option Error
      → List BalanceChange × Option Error
  then_round (bcs, some e) rest = (bcs, some e)
  then_round (bcs, none) (more, e) = (bcs ++ more, e)

  -- The rounds of `PushBalanceChanges`: the ID that the bank answers, with the lines that are read
  -- until the next one.
  unfoldable pub push_rounds :
      Text → Worker L → List (ℤ × List Text) → List BalanceChange × Option Error
  unfolding push_lines
  push_rounds coin w [] = ([], none)
  push_rounds coin w ((first_id, ss) ∷ rounds) =
      then_round (push_lines coin w first_id ss) (push_rounds coin w rounds)

  abbrev pub greeted :
      BalanceChange → List BalanceChange × Option Error → List BalanceChange × Option Error
  greeted bc (bcs, e) = (bc ∷ bcs, e)

  -- What `PushBalanceChanges` sends over a stream that takes it.
  unfoldable pub push_balance_changes :
      Text → Worker L → List (ℤ × List Text) → List BalanceChange × Option Error
  unfolding hello push_rounds
  push_balance_changes coin w rounds = greeted (hello w) (push_rounds coin w rounds)

  -- `PullTickets`: the tickets that the bank serves from an ID on, up to the error that ends them.
  unfoldable pub pull_tickets : (ℤ → List Ticket × Error) → Text → Worker L → List Ticket × Error
  unfolding last_ticket_id
  pull_tickets serve coin w = serve (last_ticket_id coin w)
