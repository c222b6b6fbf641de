-- ===== src/Tests/Engine.antt =====
-- The matching engine on concrete libraries: two asks and two bids at one price.
use ccoms.Prelude.{
  ℕ, ℤ, pos, ◌≡◌, refl, Bool, true, Option, none, some, List, [], ◌∷◌, ◌+ℤ◌, ◌-ℤ◌, ◌*ℤ◌, div_ℕ,
}
use ccoms.Errors.{Error}
use ccoms.Text.{codes}
use ccoms.Filedb.{Filedb, write_line}
use ccoms.Extern.BTree.{put, remove}
use ccoms.Ome.Structs.{Order, MatchLog, OrderLog, OmeLog, ask_less, bid_less}
use ccoms.Ome.Worker.{Libs, Worker}
use ccoms.Ome.Match.{match_all, try_match, match_step}
use ccoms.Tests.Codec.{Codec, int_codec, pair_codec, list_codec, iso_codec, json_of, nth}
use ccoms.Tests.Libraries.{list_tree, int_decimal}

abbrev pub match_log_ints : MatchLog → List ℤ
match_log_ints m =
    m.log_index ∷ m.asker ∷ m.ask_id ∷ m.ask_price ∷ m.ask_quantity ∷ m.bider ∷ m.bid_id
    ∷ m.bid_price ∷ m.bid_quantity ∷ m.price ∷ m.quantity ∷ m.amount ∷ m.ask_fee ∷ m.bid_fee
    ∷ m.time ∷ []

abbrev pub match_log_of : List ℤ → MatchLog
match_log_of l = record {
  log_index = nth 0 l;
  asker = nth 1 l;
  ask_id = nth 2 l;
  ask_price = nth 3 l;
  ask_quantity = nth 4 l;
  bider = nth 5 l;
  bid_id = nth 6 l;
  bid_price = nth 7 l;
  bid_quantity = nth 8 l;
  price = nth 9 l;
  quantity = nth 10 l;
  amount = nth 11 l;
  ask_fee = nth 12 l;
  bid_fee = nth 13 l;
  time = nth 14 l;
}

abbrev pub order_log_ints : OrderLog → List ℤ
order_log_ints o =
    o.log_index ∷ o.id ∷ o.ticket_id ∷ o.owner ∷ o.fee_rate ∷ o.time ∷ o.side ∷ o.order_type
    ∷ o.price ∷ o.quantity ∷ []

abbrev pub order_log_of : List ℤ → OrderLog
order_log_of l = record {
  log_index = nth 0 l;
  id = nth 1 l;
  ticket_id = nth 2 l;
  owner = nth 3 l;
  fee_rate = nth 4 l;
  time = nth 5 l;
  side = nth 6 l;
  order_type = nth 7 l;
  price = nth 8 l;
  quantity = nth 9 l;
}

abbrev pub OmeLogParts : Type 0
OmeLogParts = (ℤ × ℤ) × (List OrderLog × List MatchLog)

abbrev pub ome_log_of : OmeLogParts → OmeLog
ome_log_of p = record { log_id = p.0.0; ts = p.0.1; order_logs = p.1.0; match_logs = p.1.1 }

abbrev pub ome_log_parts : OmeLog → OmeLogParts
ome_log_parts l = ((l.log_id, l.ts), (l.order_logs, l.match_logs))

abbrev pub ome_codec : Codec OmeLog
ome_codec =
    iso_codec
      (pair_codec (pair_codec int_codec int_codec) (
        pair_codec
          (list_codec (iso_codec (list_codec int_codec) order_log_of order_log_ints (λ y. refl)))
          (list_codec (iso_codec (list_codec int_codec) match_log_of match_log_ints (λ y. refl)))))
      ome_log_of ome_log_parts (λ y. refl)

abbrev pub libs : Libs
libs = record {
  ask_tree = list_tree ask_less;
  bid_tree = list_tree bid_less;
  json = json_of ome_codec;
  decimal = int_decimal;
}

abbrev pub order : ℕ → ℕ → ℕ → Order
order id price quantity = record {
  id = pos id;
  ticket_id = pos id;
  owner = pos id;
  fee_rate = pos 0;
  price = pos price;
  quantity = pos quantity;
}

abbrev pub disk : Filedb
disk = record { file_path = codes "ome.log"; opened = true; content = []; answers = [] }

abbrev pub engine : List Order → List Order → Worker libs
engine asks bids = record {
  asks = asks;
  bids = bids;
  fdb = disk;
  name = codes "OME_BTC_USDT";
  symbol = codes "BTC_USDT";
  base_asset = codes "BTC";
  quote_asset = codes "USDT";
  table_prefix = codes "btc_usdt";
  state = codes "Matching";
  latest_ask_ticket_id = pos 2;
  latest_bid_ticket_id = pos 2;
  log_id = pos 4;
  order_id = pos 4;
  saved_log_id = pos 0;
  to_bank_log_id = pos 0;
  clock = record { unix = λ n. pos 0; unix_nano = λ n. pos 0; calls = 0 };
}

-- Asks 1 and 2 sell 5 and 3, bids 3 and 4 buy 4 and 2, all at price 10.
abbrev pub crossed : Worker libs
crossed = engine (order 1 10 5 ∷ order 2 10 3 ∷ []) (order 3 10 4 ∷ order 4 10 2 ∷ [])

abbrev remaining : Option (Worker libs × Bool × Option Error) → List Order × List Order
remaining none = ([], [])
remaining (some (w, b, e)) = (w.asks, w.bids)

-- Bid 4 is served before bid 3, though it is newer; then ask 1 is filled, and ask 2 has one sold.
crossed_remaining : remaining (match_all libs crossed) ≡ (order 2 10 2 ∷ [], [])
unfolding match_all try_match match_step ask_less bid_less ◌+ℤ◌ ◌-ℤ◌ ◌*ℤ◌ div_ℕ put remove
    write_line
crossed_remaining = refl

abbrev pub reported : Option (Worker libs × Bool × Option Error) → Option Error
reported none = none
reported (some (w, b, e)) = e

pub crossed_reported : reported (match_all libs crossed) ≡ none
unfolding match_all try_match match_step ask_less bid_less ◌+ℤ◌ ◌-ℤ◌ ◌*ℤ◌ div_ℕ put remove
    write_line
crossed_reported = refl
