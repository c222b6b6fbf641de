-- ===== src/Tests/Resuming.antt =====
-- The theorems on the start of the bank, and on what engines tell it, at concrete states.
use ccoms.Prelude.{
  ℤ, pos, ◌≡◌, ◌≤◌, ◌+◌, inc64, ◌+ℤ◌, ◌-ℤ◌, ◌*ℤ◌, div_ℕ, ap, refl, none, some, Option, List, [],
  ◌∷◌, map, arith, length,
}
use ccoms.Errors.{Error, ok}
use ccoms.Text.{Text, codes, text_eq, split, to_lower}
use ccoms.Dict.{Dict, str_eq, lookup, get_or, insert}
use ccoms.Filedb.{write_line}
use ccoms.Filedb.Writes.{IsIntact}
use ccoms.Model.{Lastkv}
use ccoms.Bank.Structs.{BalanceChange}
use ccoms.Bank.Worker.{Worker, write_log, change_asset}
use ccoms.Bank.Orders.{
  create_order, book_order, two_parts, terms, reserve, order_total, order_bank_log,
}
use ccoms.Bank.Start.{Balance, TicketQuery, new_worker, load_all_assets}
use ccoms.Bank.Start.Loading.{LoadsAll, load_all_assets_lem}
use ccoms.Bank.Start.Resuming.{Resumed, reopened, new_worker-create_order}
use ccoms.Bank.FromOme.{Arrival, from_ome, balance_changes}
use ccoms.Bank.FromOme.Delivery.{greeting, changes_in, balance_changes-push_lines}
use ccoms.Bank.FromOme.Restarted.{load_all_assets-forgets}
use ccoms.Ome.ToBank.{hello, push_lines}
use ccoms.Tests.Banking as Banking
use ccoms.Tests.Banking.{bank, bid_on, bank-IsCounted}
use ccoms.Tests.Codec.{line}
use ccoms.Tests.Engine as Engine
use ccoms.Tests.Engine.{ome_codec, crossed}
use ccoms.Tests.Matching.{trade_log}

abbrev bid : Worker Banking.libs × Option Error
bid = create_order Banking.libs (pos 3) (bid_on (codes "BTC_USDT")) bank

bid_accepted : bid.1 ≡ none
unfolding create_order two_parts split terms text_eq book_order write_log write_line reserve
    change_asset
bid_accepted = refl

bid_fits : length bid.0.fdb.content ≤ length bank.fdb.content + 1024
unfolding create_order two_parts split terms text_eq book_order write_log write_line reserve
    change_asset order_total order_bank_log inc64 get_or lookup insert to_lower ◌+ℤ◌ ◌-ℤ◌ ◌*ℤ◌ div_ℕ
bid_fits = omega arith

bank-IsIntact : IsIntact bank.fdb
bank-IsIntact = record { is_open = refl; ended = tt }

new_worker-create_order_example : Resumed Banking.libs bid.0 (
    new_worker Banking.libs
      (reopened Banking.libs bid.0.fdb.content)
      (codes "data")
      (codes "usdt")
      bank.clock)
new_worker-create_order_example =
    new_worker-create_order Banking.libs (pos 3) (bid_on (codes "BTC_USDT")) bank (codes "data")
      (codes "usdt") bank.clock bank-IsCounted bank-IsIntact bid_accepted bid_fits

abbrev empty : Worker Banking.libs
empty = record bank { assets = []; ticket_ids = [] }

abbrev balances : List (Balance Banking.libs)
balances = record { owner = pos 7; free = pos 80; freeze = pos 20 } ∷ []

abbrev newest_ticket : TicketQuery Banking.libs
newest_ticket table last = ok (some (pos 4))

abbrev kvs : List Lastkv
kvs =
    record { id = pos 1; app = codes "bank_usdt"; key = codes "nats_seq"; val = pos 2 }
    ∷ record {
      id = pos 2;
      app = codes "bank_usdt";
      key = codes "ome_reasonid_btc_usdt";
      val = pos 5;
    }
    ∷ []

load_all_assets_lem_example :
    LoadsAll Banking.libs balances
      (codes "BTC_USDT")
      (some (pos 4))
      kvs
      empty
      (load_all_assets Banking.libs (ok balances) newest_ticket (ok kvs) empty)
load_all_assets_lem_example =
    load_all_assets_lem Banking.libs balances newest_ticket kvs (codes "BTC_USDT") (some (pos 4))
      empty refl refl

-- What the engine pushes of one trade.
abbrev trade_lines : List Text
trade_lines = line ome_codec trade_log ∷ []

-- It comes in messages that need no answer.
abbrev arrival : BalanceChange → Arrival
arrival bc = record { change = bc; reason_ids = []; send_error = none }

arrivals : (bcs : List BalanceChange) → changes_in (map arrival bcs) ≡ bcs
arrivals [] = refl
arrivals (bc ∷ bcs) = ap (λ l. bc ∷ l) (arrivals bcs)

abbrev noted : Dict Text ℤ
noted = (codes "ome_btc_usdt_logs", pos 3) ∷ []

noted_reason : get_or (hello Engine.libs crossed).reason_table (pos 0) noted ≡ pos 3
unfolding hello get_or lookup text_eq to_lower
noted_reason = refl

abbrev after_three : List BalanceChange
after_three = (push_lines Engine.libs (codes "USDT") crossed (pos 3) trade_lines).0

balance_changes-push_lines_example :
    balance_changes none (pos 0) (greeting Engine.libs crossed noted ∷ map arrival after_three)
    ≡ (map from_ome after_three, pos 3 ∷ [], none)
balance_changes-push_lines_example =
    balance_changes-push_lines Engine.libs none (codes "USDT") crossed trade_lines noted
      (map arrival after_three) (pos 3) noted_reason (omega arith) (arrivals after_three)

abbrev from_zero : List BalanceChange
from_zero = (push_lines Engine.libs (codes "USDT") crossed (pos 0) trade_lines).0

-- The database has the reason ID 5, and the bank is asked for what follows 0.
load_all_assets-forgets_example :
    balance_changes none (pos 0) (
      greeting Engine.libs crossed
        (load_all_assets Banking.libs (ok balances) newest_ticket (ok kvs) empty).0.ome_reason_ids
      ∷ map arrival from_zero)
    ≡ (map from_ome from_zero, pos 0 ∷ [], none)
load_all_assets-forgets_example =
    load_all_assets-forgets Banking.libs Engine.libs balances newest_ticket kvs (codes "BTC_USDT")
      (some (pos 4)) empty none crossed trade_lines (map arrival from_zero) refl refl refl
      (arrivals from_zero)
