-- ===== src/Ome/Tickets.antt =====
-- pkg/ome/ome.go: `NewAsk`, `NewBid` and `TicketToMatchEngine`. `none` stands for a `TryMatch` that
-- has run out of fuel.
pub mod Insert
pub mod Engine
pub mod Settled
pub mod Handle
use ccoms.Prelude.{
  ℤ, pos, ◌+ℤ◌, leb_ℤ, ◌==ℤ◌, inc64, dec64, to_int8, Bool, true, false, not, Option, none, some,
  List, [], ◌∷◌, if◌then◌else◌, suc,
}
use ccoms.Errors.{Error, order_exists, ticket_not_continuous, invalid_order_side, bad_decimal}
use ccoms.Text.{Text}
use ccoms.Filedb.{Filedb, write_line}
use ccoms.Ome.Structs.{Order, NewOrder, OrderLog, OmeLog, decimal_to_int}
use ccoms.Ome.Worker.{Ticket, Libs, Worker, side_ask, side_bid}
use ccoms.Ome.Match.{match_all, log_line}

unfoldable pub to_order : NewOrder → Order
to_order req = record {
  id = req.id;
  ticket_id = req.ticket_id;
  owner = req.owner;
  fee_rate = req.fee_rate;
  price = req.price;
  quantity = req.quantity;
}

unfoldable pub to_order_log : NewOrder → OrderLog
to_order_log o = record {
  log_index = pos 0;
  id = o.id;
  ticket_id = o.ticket_id;
  owner = o.owner;
  fee_rate = o.fee_rate;
  time = o.time;
  side = o.side;
  order_type = o.order_type;
  price = o.price;
  quantity = o.quantity;
}

-- What the ID of a ticket is beside the latest one of its side.
pub data TicketCheck : Type 0 where
  duplicate gap fresh bad_side : TicketCheck

unfoldable pub check_id : ℤ → ℤ → TicketCheck
check_id id latest =
    if leb_ℤ id latest then duplicate else if id ==ℤ inc64 latest then fresh else gap

module _ (L : Libs) where
  unfoldable pub check_ticket : ℤ → ℤ → Worker L → TicketCheck
  check_ticket side id w =
      if side ==ℤ side_ask
      then check_id id w.latest_ask_ticket_id
      else if side ==ℤ side_bid
      then check_id id w.latest_bid_ticket_id
      else bad_side

  abbrev pub matched : Option (Worker L × Bool × Option Error) → Option (Worker L × Option Error)
  matched none = none
  matched (some (w, _, e)) = some (w, e)

  unfoldable pub new_ask : NewOrder → Worker L → Option (Worker L × Option Error)
  unfolding to_order match_all
  new_ask req w =
      let o = to_order req in
      if L.ask_tree.has o w.asks
      then some (w, some order_exists)
      else matched (match_all L (record w { asks = L.ask_tree.replace_or_insert o w.asks }))

  unfoldable pub new_bid : NewOrder → Worker L → Option (Worker L × Option Error)
  unfolding to_order match_all
  new_bid req w =
      let o = to_order req in
      if L.bid_tree.has o w.bids
      then some (w, some order_exists)
      else matched (match_all L (record w { bids = L.bid_tree.replace_or_insert o w.bids }))

  -- The order that a ticket asks for.
  unfoldable pub order_of : Ticket → L.decimal.D → L.decimal.D → Worker L → NewOrder
  order_of t p q w = record {
    id = w.order_id;
    ticket_id = t.id;
    owner = t.owner;
    fee_rate = t.fee_rate;
    time = w.clock.unix w.clock.calls;
    side = to_int8 t.side;
    order_type = to_int8 t.ticket_type;
    price = decimal_to_int L.decimal p;
    quantity = decimal_to_int L.decimal q;
  }

  unfoldable pub order_log : NewOrder → Worker L → OmeLog
  unfolding to_order_log
  order_log o w = record {
    log_id = w.log_id;
    ts = w.clock.unix_nano (suc w.clock.calls);
    order_logs = to_order_log o ∷ [];
    match_logs = [];
  }

  -- The deferred function: on an error both counters go back.
  abbrev pub rolled_back : Worker L → Option Error → Worker L × Option Error
  rolled_back w none = (w, none)
  rolled_back w (some e) =
      (record w { order_id = dec64 w.order_id; log_id = dec64 w.log_id }, some e)

  -- The new order goes to its book, and the ticket is the latest of its side if that succeeds.
  abbrev pub accepted : ℤ → ℤ → Option (Worker L × Option Error) → Option (Worker L × Option Error)
  accepted side id none = none
  accepted side id (some (w, some e)) = some (rolled_back w (some e))
  accepted side id (some (w, none)) =
      if side ==ℤ side_ask
      then some (record w { latest_ask_ticket_id = id }, none)
      else some (record w { latest_bid_ticket_id = id }, none)

  unfoldable pub place : NewOrder → Worker L → Option (Worker L × Option Error)
  unfolding new_ask new_bid
  place o w =
      if o.side ==ℤ side_ask
      then accepted o.side o.ticket_id (new_ask o w)
      else if o.side ==ℤ side_bid
      then accepted o.side o.ticket_id (new_bid o w)
      else some (rolled_back w (some invalid_order_side))

  -- The log of the new order is written before the order is placed.
  unfoldable pub record_and_place : NewOrder → Worker L → Option (Worker L × Option Error)
  unfolding place order_log
  record_and_place o w =
      let r = write_line (log_line L (order_log o w)) w.fdb in
      let w1 = record w { fdb = r.0; clock = record w.clock { calls = suc (suc w.clock.calls) } } in
      elim r.1 [ some e ↦ some (rolled_back w1 (some e)) | none ↦ place o w1 ]

  abbrev pub parsed :
      Ticket → Option L.decimal.D → Option L.decimal.D → Worker L → Option (Worker L × Option Error)
  parsed t none q w = some (w, some bad_decimal)
  parsed t (some p) none w = some (w, some bad_decimal)
  parsed t (some p) (some q) w =
      let w1 = record w { order_id = inc64 w.order_id; log_id = inc64 w.log_id } in
      record_and_place (order_of t p q w1) w1

  unfoldable pub ticket_to_match_engine : Ticket → Worker L → Option (Worker L × Option Error)
  ticket_to_match_engine t w = elim (check_ticket (to_int8 t.side) t.id w) [
    | duplicate ↦ some (w, none)
    | gap ↦ some (w, some ticket_not_continuous)
    | bad_side ↦ some (w, some invalid_order_side)
    | fresh ↦ parsed t (L.decimal.new_from_string t.price) (L.decimal.new_from_string t.quantity) w
  ]
