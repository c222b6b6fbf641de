-- ===== src/Tests/Banking.antt =====
-- The bank on concrete libraries, and its theorems at concrete orders and changes.
use ccoms.Prelude.{
  ◌<ℤ◌, negsuc, ◌+ℤ◌, inc64, ℕ, zero, suc, ℤ, pos, ◌≡◌, refl, true, none, some, Option, List, [],
  ◌∷◌, ◌++◌, arith,
}
use ccoms.Errors.{Error, only_for_coin, database_failed, ok}
use ccoms.Text.{Text, codes, split, text_eq, text_eq_refl}
use ccoms.Dict.{int_eq, str_eq, lookup, get_or, insert}
use ccoms.Filedb.{write_line}
use ccoms.Bank.Structs.{BalanceLog, TicketLog, BankLog, BalanceChange, OrderReq}
use ccoms.Bank.Worker.{Libs, Worker, checkout_asset, change_asset, write_log}
use ccoms.Bank.Assets.{IsCounted, sum}
use ccoms.Bank.Orders.{Terms, order_bank_log, create_order, two_parts, terms, book_order, reserve}
use ccoms.Bank.Orders.Outcome.{Ordered, create_order_lem, create_order-conserves}
use ccoms.Bank.Changes.{
  order_matched, handle_balance_change, apply_one, apply_change, balance_bank_log,
  direct_balance_log, change_balance_log,
}
use ccoms.Bank.Changes.Conservation.{order_matched-conserves}
use ccoms.Ome.Worker.{Ticket}
use ccoms.Bank.ToOme.{push_tickets}
use ccoms.Bank.ToOme.Handover.{Hands, push_tickets-Hands}
use ccoms.Bank.Changes.Undoing.{Changed}
use ccoms.Bank.Changes.Outcome.{credited_by, noted, handle_balance_change_lem}
use ccoms.Bank.Messages.{Msg, handle_order_req, handle_bank_msgs}
use ccoms.Bank.Messages.Delivery.{handle_order_req-again, handle_bank_msgs_other_coin}
use ccoms.Bank.Saving.{Statement, Batch, empty_batch, add_log, collect}
use ccoms.Bank.Saving.Rows.{last_balance, collect-Agrees}
use ccoms.Tests.Codec.{
  line, Codec, int_codec, nat_codec, pair_codec, list_codec, iso_codec, json_of, nth,
}
use ccoms.Tests.Libraries.{int_decimal}

abbrev text_codec : Codec Text
text_codec = list_codec nat_codec

-- The `i`-th text of a list, for records of texts.
abbrev nth_text : ℕ → List Text → Text
nth_text i [] = []
nth_text zero (z ∷ l) = z
nth_text (suc i) (z ∷ l) = nth_text i l

-- Integers and texts of a record.
abbrev Parts : Type 0
Parts = List ℤ × List Text

abbrev parts_codec : Codec Parts
parts_codec = pair_codec (list_codec int_codec) (list_codec text_codec)

abbrev balance_log_parts : BalanceLog → Parts
balance_log_parts b = (
  b.log_index ∷ b.reason_id ∷ b.owner ∷ b.owner2 ∷ [],
  b.reason ∷ b.reason_table ∷ b.coin ∷ b.free_change ∷ b.freeze_change ∷ b.free_new ∷ b.freeze_new
      ∷ b.coin2 ∷ b.free_change2 ∷ b.freeze_change2 ∷ b.free_new2 ∷ b.freeze_new2 ∷ [],
)

abbrev balance_log_of : Parts → BalanceLog
balance_log_of p = record {
  log_index = nth 0 p.0;
  reason_id = nth 1 p.0;
  owner = nth 2 p.0;
  owner2 = nth 3 p.0;
  reason = nth_text 0 p.1;
  reason_table = nth_text 1 p.1;
  coin = nth_text 2 p.1;
  free_change = nth_text 3 p.1;
  freeze_change = nth_text 4 p.1;
  free_new = nth_text 5 p.1;
  freeze_new = nth_text 6 p.1;
  coin2 = nth_text 7 p.1;
  free_change2 = nth_text 8 p.1;
  freeze_change2 = nth_text 9 p.1;
  free_new2 = nth_text 10 p.1;
  freeze_new2 = nth_text 11 p.1;
}

abbrev ticket_log_parts : TicketLog → Parts
ticket_log_parts t = (
  t.log_index ∷ t.reason_id ∷ t.id ∷ t.owner ∷ t.order_type ∷ t.side ∷ [],
  t.reason ∷ t.reason_table ∷ t.symbol ∷ t.price ∷ t.quantity ∷ t.amount ∷ [],
)

abbrev ticket_log_of : Parts → TicketLog
ticket_log_of p = record {
  log_index = nth 0 p.0;
  reason_id = nth 1 p.0;
  id = nth 2 p.0;
  owner = nth 3 p.0;
  order_type = nth 4 p.0;
  side = nth 5 p.0;
  reason = nth_text 0 p.1;
  reason_table = nth_text 1 p.1;
  symbol = nth_text 2 p.1;
  price = nth_text 3 p.1;
  quantity = nth_text 4 p.1;
  amount = nth_text 5 p.1;
}

abbrev BankLogParts : Type 0
BankLogParts = List ℤ × (List BalanceLog × List TicketLog)

abbrev bank_log_of : BankLogParts → BankLog
bank_log_of p = record {
  log_id = nth 0 p.0;
  ts = nth 1 p.0;
  msg_seq = nth 2 p.0;
  balance_logs = p.1.0;
  ticket_logs = p.1.1;
}

abbrev bank_log_parts : BankLog → BankLogParts
bank_log_parts l = (l.log_id ∷ l.ts ∷ l.msg_seq ∷ [], (l.balance_logs, l.ticket_logs))

abbrev bank_codec : Codec BankLog
bank_codec =
    iso_codec
      (pair_codec (list_codec int_codec) (
        pair_codec (list_codec (iso_codec parts_codec balance_log_of balance_log_parts (λ y. refl)))
          (list_codec (iso_codec parts_codec ticket_log_of ticket_log_parts (λ y. refl)))))
      bank_log_of bank_log_parts (λ y. refl)

abbrev OrderReqParts : Type 0
OrderReqParts = List ℤ × Text

abbrev order_req_of : OrderReqParts → OrderReq int_decimal
order_req_of p = record {
  symbol = p.1;
  owner = nth 0 p.0;
  side = nth 1 p.0;
  order_type = nth 2 p.0;
  price = nth 3 p.0;
  quantity = nth 4 p.0;
  orig_qty = nth 5 p.0;
  amount = nth 6 p.0;
  time = nth 7 p.0;
  fee_level = nth 8 p.0;
}

abbrev order_req_parts : OrderReq int_decimal → OrderReqParts
order_req_parts o = (
  o.owner ∷ o.side ∷ o.order_type ∷ o.price ∷ o.quantity ∷ o.orig_qty ∷ o.amount ∷ o.time
      ∷ o.fee_level ∷ [],
  o.symbol,
)

abbrev pub order_req_codec : Codec (OrderReq int_decimal)
order_req_codec =
    iso_codec (pair_codec (list_codec int_codec) text_codec) order_req_of order_req_parts
      (λ y. refl)

abbrev pub libs : Libs
libs = record {
  decimal = int_decimal;
  json = json_of bank_codec;
  order_json = json_of order_req_codec;
}

-- The bank of USDT; user 7 has 100 units, of which 20 are frozen.
abbrev pub bank : Worker libs
bank = record {
  name = codes "BANK_USDT";
  coin = codes "USDT";
  symbols = codes "BTC_USDT" ∷ [];
  state = codes "Working";
  log_id = pos 1;
  ticket_ids = (codes "BTC_USDT", pos 4) ∷ [];
  assets = (pos 7, record { free = pos 80; freeze = pos 20 }) ∷ [];
  ome_reason_ids = [];
  latest_msg_seq = pos 2;
  saved_log_id = pos 0;
  fdb = record { file_path = codes "bank.log"; opened = true; content = []; answers = [] };
  clock = record { unix = λ n. pos 0; unix_nano = λ n. pos 0; calls = 0 };
}

-- A bid of user 7 for 30 units, and one on another market.
abbrev pub bid_on : Text → OrderReq int_decimal
bid_on symbol = record {
  symbol = symbol;
  owner = pos 7;
  side = pos 2;
  order_type = pos 1;
  price = pos 10;
  quantity = pos 3;
  orig_qty = pos 3;
  amount = pos 30;
  time = pos 0;
  fee_level = pos 0;
}

abbrev message : Text → Msg
message symbol = record {
  subject = codes "BANK.USDT.OrderReq";
  payload = b'{' ∷ order_req_codec.enc (bid_on symbol) ++ b'}' ∷ [];
  stream_seq = some (pos 3);
}

pub bank-IsCounted : IsCounted libs bank
unfolding get_or lookup text_eq
bank-IsCounted = record { log_id_range = omega arith; ticket_id_range = λ s. ground arith }

create_order_lem_example :
    Ordered libs
      (pos 3)
      (bid_on (codes "BTC_USDT"))
      bank
      (create_order libs (pos 3) (bid_on (codes "BTC_USDT")) bank)
create_order_lem_example =
    create_order_lem libs (pos 3) (bid_on (codes "BTC_USDT")) bank bank-IsCounted

create_order-conserves_example :
    sum libs
      (checkout_asset libs (pos 7) (create_order libs (pos 3) (bid_on (codes "BTC_USDT")) bank).0)
    ≡ sum libs (checkout_asset libs (pos 7) bank)
create_order-conserves_example =
    create_order-conserves libs (pos 3) (bid_on (codes "BTC_USDT")) bank (pos 7) bank-IsCounted

abbrev one_changed : Worker libs
one_changed = apply_one libs (pos 7) (pos 5) (pos 0) bank

abbrev sold : BalanceChange
sold = record {
  reason = codes "OrderMatched";
  reason_table = codes "ome_btc_usdt_logs";
  reason_id = pos 9;
  owner = pos 7;
  free_change = 105 ∷ [];
  freeze_change = 100 ∷ [];
  owner2 = pos 8;
  free_change2 = 100 ∷ [];
  freeze_change2 = b'-' ∷ 109 ∷ [];
  reason_id_first = pos 0;
}

abbrev sold_changed : Worker libs
sold_changed = apply_change libs sold (noted libs sold bank)

handle_balance_change_lem_example :
    (r : Worker libs × Option Error) × (handle_balance_change libs sold bank ≡ some r)
    × Changed libs
        (credited_by libs sold)
        (balance_bank_log libs (change_balance_log libs sold sold_changed) sold_changed)
        (noted libs sold bank)
        r
handle_balance_change_lem_example =
    handle_balance_change_lem libs sold bank bank-IsCounted (omega arith)

abbrev deposit_log : BankLog
deposit_log =
    balance_bank_log libs
      (direct_balance_log libs (pos 7) (pos 5) (pos 0) (codes "deposits") (pos 1) one_changed)
      one_changed

abbrev deposit_line : Text
deposit_line = line bank_codec deposit_log

abbrev deposit_batch : Batch libs
deposit_batch = add_log libs (pos 0) deposit_log (empty_batch libs)

collected_deposit : collect libs (pos 0) (deposit_line ∷ []) (empty_batch libs) ≡ ok deposit_batch
unfolding collect balance_bank_log direct_balance_log apply_one change_asset get_or lookup insert
    ◌+ℤ◌ inc64
collected_deposit = refl

collect-Agrees_example :
    lookup (pos 7) deposit_batch.balances ≡ last_balance libs (pos 7) deposit_batch.snaps
collect-Agrees_example =
    collect-Agrees libs (pos 0) (deposit_line ∷ []) deposit_batch collected_deposit (pos 7)

abbrev accepting : List (Statement libs) → Option Error
accepting sts = none

abbrev refusing_all : List (Statement libs) → Option Error
refusing_all sts = some database_failed

abbrev deposit_balance : BalanceLog
deposit_balance =
    direct_balance_log libs (pos 7) (pos 5) (pos 0) (codes "deposits") (pos 1) one_changed

no_error : (handle_order_req libs (message (codes "BTC_USDT")) bank).2 ≡ none
unfolding handle_order_req create_order two_parts split terms write_log write_line text_eq
    book_order reserve change_asset
no_error = refl

handle_order_req-again_example :
    handle_order_req libs
      (message (codes "BTC_USDT"))
      (handle_order_req libs (message (codes "BTC_USDT")) bank).0
    ≡ ((handle_order_req libs (message (codes "BTC_USDT")) bank).0, pos 3 ∷ [], none)
handle_order_req-again_example =
    handle_order_req-again libs (message (codes "BTC_USDT")) (bid_on (codes "BTC_USDT")) (pos 3)
      bank bank-IsCounted refl refl no_error

-- An order for BTC_ETH wants ETH, which this bank does not have; the messages after it are lost.
handle_bank_msgs_other_coin_example :
    handle_bank_msgs libs
      (record { n = some (message (codes "BTC_ETH")); g = none }
        ∷ record { n = some (message (codes "BTC_USDT")); g = none }
        ∷ [])
      bank
    ≡ some (bank, pos 3 ∷ [], some only_for_coin)
unfolding two_parts split terms
handle_bank_msgs_other_coin_example =
    handle_bank_msgs_other_coin libs (message (codes "BTC_ETH")) none
      (record { n = some (message (codes "BTC_USDT")); g = none } ∷ []) (bid_on (codes "BTC_ETH"))
      (pos 3) (codes "BTC", codes "ETH")
      (record { side = codes "bid"; coin = codes "ETH"; value = pos 30 }) bank
      (text_eq_refl (codes "BANK.USDT.OrderReq")) refl refl (omega arith) refl refl
      (λ e. ground arith)

abbrev after_trade : Worker libs
after_trade =
    (order_matched libs (pos 7) (pos 5) (pos 0) (pos 8) (pos 0) (negsuc 4)
      (codes "ome_btc_usdt_logs") (pos 1) bank).0

order_matched-conserves_example :
    sum libs (checkout_asset libs (pos 7) after_trade)
      +ℤ sum libs (checkout_asset libs (pos 8) after_trade)
    ≡ sum libs (checkout_asset libs (pos 7) bank) +ℤ sum libs (checkout_asset libs (pos 8) bank)
unfolding ◌+ℤ◌
order_matched-conserves_example =
    order_matched-conserves libs (pos 7) (pos 5) (pos 0) (pos 8) (pos 0) (negsuc 4)
      (codes "ome_btc_usdt_logs") (pos 1) bank bank-IsCounted (λ e. ground arith) refl

abbrev bid_terms : Terms libs
bid_terms = record { side = codes "bid"; coin = codes "USDT"; value = pos 30 }

-- The log of the bid, in a bank whose last ticket has the ID 4.
abbrev bid_log : BankLog
bid_log = order_bank_log libs (pos 3) (bid_on (codes "BTC_USDT")) bid_terms (pos 30) bank

newer : pos 3 <ℤ get_or (codes "BTC_USDT") (pos 0) bank.ticket_ids
unfolding get_or lookup text_eq
newer = omega arith

push_tickets-Hands_example :
    (k : Ticket) × (push_tickets libs (pos 3) (line bank_codec bid_log) ≡ ok (k ∷ []))
    × Hands libs (bid_on (codes "BTC_USDT")) (get_or (codes "BTC_USDT") (pos 0) bank.ticket_ids) k
push_tickets-Hands_example =
    push_tickets-Hands libs (pos 3) (pos 3) (bid_on (codes "BTC_USDT")) bid_terms (pos 30) bank
      (line bank_codec bid_log) refl newer
