-- ===== src/Ome/Match.antt =====
-- pkg/ome/ome.go: `TryMatch`, which trades the best ask with the best bid until they do not cross.
pub mod Books
pub mod Funding
pub mod Priority
pub mod Records
pub mod Runs
pub mod Trades
use ccoms.Prelude.{
  ℕ, zero, suc, ◌+◌, ℤ, pos, ◌-ℤ◌, ◌*ℤ◌, div_ℕ, inc64, ltb_ℤ, Bool, true, false, ◌||◌, Option, none,
  some, List, [], ◌∷◌, ◌++◌, if◌then◌else◌,
}
use ccoms.Errors.{Error}
use ccoms.Text.{Text}
use ccoms.Filedb.{Filedb, write_line}
use ccoms.Ome.Structs.{Order, MatchLog, OmeLog, less, greater, is_zero, exp_int}
use ccoms.Ome.Worker.{Libs, Worker}

-- The price of the order with the lower ID.
unfoldable pub trade_price : Order → Order → ℤ
trade_price oa ob = if ltb_ℤ oa.id ob.id then oa.price else ob.price

-- The lesser quantity.
unfoldable pub trade_quantity : Order → Order → ℤ
unfolding less
trade_quantity oa ob = if less oa.quantity ob.quantity then oa.quantity else ob.quantity

-- `amount.Div(amount.Mul(price, quantity), ExpInt)`
unfoldable pub trade_amount : Order → Order → ℤ
unfolding trade_price trade_quantity
trade_amount oa ob = div_ℕ (trade_price oa ob *ℤ trade_quantity oa ob) exp_int

-- What is left of an order after a trade of `q`.
unfoldable pub reduce : ℤ → Order → Order
reduce q o = record o { quantity = o.quantity -ℤ q }

-- The item by which an order is deleted: `AskOrder{ID: oa.ID, Price: oa.Price}`.
unfoldable pub key_of : Order → Order
key_of o = record {
  id = o.id;
  ticket_id = pos 0;
  owner = pos 0;
  fee_rate = pos 0;
  price = o.price;
  quantity = pos 0;
}

-- How one round of `TryMatch` ends: it returns `true, nil`; it returns `false, err`; it calls itself.
pub data MatchStep (L : Libs) : Type 0 where
  halt : Worker L → MatchStep L
  fail : Worker L → Error → MatchStep L
  again : Worker L → MatchStep L

module _ (L : Libs) where
  -- `string(mlb) + "\n"`, where an error of `json.Marshal` is ignored.
  unfoldable pub log_line : OmeLog → Text
  log_line l = elim (L.json.marshal l) [ none ↦ 10 ∷ [] | some s ↦ s ++ 10 ∷ [] ]

  unfoldable pub match_log : Worker L → Order → Order → OmeLog
  unfolding trade_price trade_quantity trade_amount reduce
  match_log w oa ob =
      let q = trade_quantity oa ob in
      record {
        log_id = w.log_id;
        ts = w.clock.unix_nano (suc w.clock.calls);
        order_logs = [];
        match_logs =
            record {
              log_index = pos 0;
              asker = oa.owner;
              ask_id = oa.id;
              ask_price = oa.price;
              ask_quantity = (reduce q oa).quantity;
              bider = ob.owner;
              bid_id = ob.id;
              bid_price = ob.price;
              bid_quantity = (reduce q ob).quantity;
              price = trade_price oa ob;
              quantity = q;
              amount = trade_amount oa ob;
              ask_fee = pos 0;
              bid_fee = pos 0;
              time = w.clock.unix w.clock.calls;
            }
            ∷ [];
      }

  -- The asks after a trade of `q`: the order is deleted if nothing is left of it.
  unfoldable pub settle_ask : ℤ → Order → L.ask_tree.Tree → L.ask_tree.Tree
  unfolding reduce key_of is_zero
  settle_ask q oa t =
      if is_zero (reduce q oa).quantity
      then L.ask_tree.delete (key_of oa) t
      else L.ask_tree.replace_or_insert (reduce q oa) t

  unfoldable pub settle_bid : ℤ → Order → L.bid_tree.Tree → L.bid_tree.Tree
  unfolding reduce key_of is_zero
  settle_bid q ob t =
      if is_zero (reduce q ob).quantity
      then L.bid_tree.delete (key_of ob) t
      else L.bid_tree.replace_or_insert (reduce q ob) t

  -- The trees and the log ID change before the log is written.
  unfoldable pub settle : Worker L → Order → Order → Worker L
  unfolding settle_ask settle_bid trade_quantity
  settle w oa ob = record w {
    asks = settle_ask (trade_quantity oa ob) oa w.asks;
    bids = settle_bid (trade_quantity oa ob) ob w.bids;
    log_id = inc64 w.log_id;
  }

  -- The log of the trade is written; `clock` has answered two calls.
  abbrev after_write : Worker L → Filedb × Option Error → Worker L
  after_write w r = record w {
    fdb = r.0;
    clock = record w.clock { calls = suc (suc w.clock.calls) };
  }

  unfoldable pub trade : Worker L → Order → Order → MatchStep L
  unfolding settle match_log log_line is_zero reduce trade_quantity
  trade w oa ob =
      let w1 = settle w oa ob in
      let r = write_line (log_line (match_log w1 oa ob)) w1.fdb in
      let w2 = after_write w1 r in
      let q = trade_quantity oa ob in
      elim r.1 [
        | some e ↦ fail w2 e
        | none ↦
            if is_zero (reduce q oa).quantity || is_zero (reduce q ob).quantity
            then again w2
            else halt w2
      ]

  -- One round, on the best ask and the best bid.
  unfoldable pub match_best : Worker L → Option Order → Option Order → MatchStep L
  unfolding trade greater
  match_best w none bid = halt w
  match_best w (some oa) none = halt w
  match_best w (some oa) (some ob) = if greater oa.price ob.price then halt w else trade w oa ob

  unfoldable pub match_step : Worker L → MatchStep L
  unfolding match_best
  match_step w = match_best w (L.ask_tree.min w.asks) (L.bid_tree.max w.bids)

  -- `TryMatch` on fuel; `none` means that the fuel ran out.
  unfoldable pub try_match : ℕ → Worker L → Option (Worker L × Bool × Option Error)
  unfolding match_step
  try_match zero w = none
  try_match (suc n) w = elim (match_step w) [
    | halt w' ↦ some (w', true, none)
    | fail w' e ↦ some (w', false, some e)
    | again w' ↦ try_match n w'
  ]

  -- A round takes an order from a book, so one round more than there are orders is enough.
  unfoldable pub match_fuel : Worker L → ℕ
  match_fuel w = suc (L.ask_tree.len w.asks + L.bid_tree.len w.bids)

  unfoldable pub match_all : Worker L → Option (Worker L × Bool × Option Error)
  unfolding match_fuel try_match
  match_all w = try_match (match_fuel w) w
