-- ===== src/Bank/Orders.antt =====
-- pkg/bank/bank.go: `CreateOrder`, which freezes what an order may cost and issues its ticket.
pub mod Outcome
pub mod Booking
use ccoms.Prelude.{
  ℤ, pos, ◌==ℤ◌, inc64, dec64, Option, none, some, List, [], ◌∷◌, ◌++◌, if◌then◌else◌, Bool,
}
use ccoms.Errors.{Error, invalid_symbol, invalid_order_side, only_for_coin}
use ccoms.Text.{Text, codes, split, text_eq, to_lower}
use ccoms.Dict.{int_eq, str_eq, get_or, insert}
use ccoms.Bank.Structs.{BankLog, BalanceLog, TicketLog, OrderReq}
use ccoms.Bank.Worker.{Libs, Worker, Asset, checkout_asset, change_asset, write_log}

abbrev pub side_ask : ℤ
side_ask = pos 1

abbrev pub side_bid : ℤ
side_bid = pos 2

-- `base, quote := ss[0], ss[1]` if there are two parts.
unfoldable pub two_parts : List Text → Option (Text × Text)
two_parts [] = none
two_parts (a ∷ []) = none
two_parts (a ∷ b ∷ []) = some (a, b)
two_parts (a ∷ b ∷ c ∷ l) = none

module _ (L : Libs) where
  open L.decimal use {D, add, sub, mul, new_from_float, to_string}

  abbrev pub Req : Type 0
  Req = OrderReq L.decimal

  -- What an order of one side freezes: the name of the side, the coin and the value.
  pub record Terms : Type 0 where
    pub side : Text
    pub coin : Text
    pub value : D

  unfoldable pub terms : Req → Text × Text → Option Terms
  terms o (base, quote) =
      if o.side ==ℤ side_bid
      then some (record { side = codes "bid"; coin = quote; value = o.amount })
      else if o.side ==ℤ side_ask
      then some (record { side = codes "ask"; coin = base; value = o.quantity })
      else none

  -- The value with its fee.
  unfoldable pub order_total : Req → D → D
  order_total o value = add value (mul value (new_from_float o.fee_level))

  unfoldable pub ticket_log : Req → Worker L → TicketLog
  ticket_log o w = record {
    log_index = pos 1;
    reason = codes "CreateOrder";
    reason_table = [];
    reason_id = pos 0;
    id = get_or o.symbol (pos 0) w.ticket_ids;
    owner = o.owner;
    symbol = o.symbol;
    order_type = o.order_type;
    side = o.side;
    price = to_string o.price;
    quantity = to_string o.quantity;
    amount = to_string o.amount;
  }

  unfoldable pub order_balance_log : Req → Terms → D → Worker L → BalanceLog
  order_balance_log o t total w = record {
    log_index = pos 2;
    reason = codes "CreateOrder";
    reason_table = ((to_lower o.symbol ++ codes "_") ++ t.side) ++ codes "_tickets";
    reason_id = get_or o.symbol (pos 0) w.ticket_ids;
    owner = o.owner;
    coin = t.coin;
    free_change = codes "-" ++ to_string total;
    freeze_change = to_string total;
    free_new = to_string (checkout_asset L o.owner w).free;
    freeze_new = to_string (checkout_asset L o.owner w).freeze;
    owner2 = pos 0;
    coin2 = [];
    free_change2 = [];
    freeze_change2 = [];
    free_new2 = [];
    freeze_new2 = [];
  }

  unfoldable pub order_bank_log : ℤ → Req → Terms → D → Worker L → BankLog
  unfolding ticket_log order_balance_log
  order_bank_log msg_seq o t total w = record {
    log_id = w.log_id;
    ts = w.clock.unix_nano w.clock.calls;
    msg_seq = msg_seq;
    balance_logs = order_balance_log o t total w ∷ [];
    ticket_logs = ticket_log o w ∷ [];
  }

  abbrev pub freeze_by : D → Asset L → Asset L
  freeze_by total a = record { free = sub a.free total; freeze = add a.freeze total }

  abbrev pub unfreeze_by : D → Asset L → Asset L
  unfreeze_by total a = record { free = add a.free total; freeze = sub a.freeze total }

  -- The state with the order, before its log is written.
  unfoldable pub reserve : Req → D → Worker L → Worker L
  reserve o total w =
      let w1 = change_asset L o.owner (freeze_by total) w in
      record w1 {
        log_id = inc64 w1.log_id;
        ticket_ids = insert o.symbol (inc64 (get_or o.symbol (pos 0) w1.ticket_ids)) w1.ticket_ids;
      }

  -- The deferred function.
  unfoldable pub unreserve : Req → D → Worker L → Worker L
  unreserve o total w =
      let w1 = change_asset L o.owner (unfreeze_by total) w in
      record w1 {
        log_id = dec64 w1.log_id;
        ticket_ids = insert o.symbol (dec64 (get_or o.symbol (pos 0) w1.ticket_ids)) w1.ticket_ids;
      }

  abbrev pub finished : ℤ → Req → D → Worker L × Option Error → Worker L × Option Error
  finished msg_seq o total (w, none) = (record w { latest_msg_seq = msg_seq }, none)
  finished msg_seq o total (w, some e) = (unreserve o total w, some e)

  unfoldable pub book_order : ℤ → Req → Terms → Worker L → Worker L × Option Error
  unfolding order_total
  book_order msg_seq o t w =
      let total = order_total o t.value in
      let w1 = reserve o total w in
      finished msg_seq o total (write_log L (order_bank_log msg_seq o t total w1) w1)

  abbrev pub for_coin : ℤ → Req → Option Terms → Worker L → Worker L × Option Error
  for_coin msg_seq o none w = (w, some invalid_order_side)
  for_coin msg_seq o (some t) w =
      if text_eq t.coin w.coin then book_order msg_seq o t w else (w, some only_for_coin)

  abbrev pub for_symbol : ℤ → Req → Option (Text × Text) → Worker L → Worker L × Option Error
  for_symbol msg_seq o none w = (w, some invalid_symbol)
  for_symbol msg_seq o (some p) w = for_coin msg_seq o (terms o p) w

  unfoldable pub create_order : ℤ → Req → Worker L → Worker L × Option Error
  create_order msg_seq o w = for_symbol msg_seq o (two_parts (split b'_' o.symbol)) w
