-- ===== src/Tests/Starting.antt =====
-- The theorems on the start of the matching engine at concrete databases and log files.
use ccoms.Prelude.{
  ℤ, pos, ◌+ℤ◌, ◌*ℤ◌, ◌≤ℤ◌, ◌<ℤ◌, ◌≡◌, ◌⊎◌, refl, inl, inr, some, none, List, [], ◌∷◌, ◌++◌, All,
  true, drop, arith, int64_max,
}
use ccoms.Errors.{ok}
use ccoms.Text.{Text, codes, last_text, split, trim, text_eq}
use ccoms.Filedb.{Filedb, read_last_line}
use ccoms.Model.{Lastkv}
use ccoms.Extern.Floats.{Floats, IsExact}
use ccoms.Ome.Structs.{OrderLog, OmeLog}
use ccoms.Ome.Worker.{Ticket, Worker, side_ask, side_bid}
use ccoms.Ome.Saving.{order_row}
use ccoms.Ome.Start.{StoredOrder, loaded_order, load_all_orders, wait_for_filedb, run}
use ccoms.Ome.Start.Reloaded.{read_back, loaded_order-order_row}
use ccoms.Ome.Start.Restart.{LoadsAll, IsStored, load_all_orders_lem, stored_value, order_key}
use ccoms.Ome.Start.Running.{LastLog, FirstReach, Starts, wait_for_filedb_lem, run-Starts}
use ccoms.Tests.Codec.{line}
use ccoms.Tests.Engine.{ome_codec, libs, engine}

abbrev int_floats : Floats ℤ
int_floats = record {
  of_int = λ n. n;
  times = ◌*ℤ◌;
  to_int = λ n. n;
  to_int-times = λ m n x y z. refl;
}

abbrev unit : ℤ
unit = pos 1000000000000

-- Two orders that are stored: an ask of 5 and a bid of 4, the ask dearer.
abbrev row : ℤ → ℤ → ℤ → ℤ → StoredOrder libs
row id side price quantity = record {
  id = id;
  ticket_id = id;
  owner = pos 7;
  side = side;
  fee_level = pos 0;
  price = price;
  quantity = quantity;
}

abbrev rows : List (StoredOrder libs)
rows = row (pos 1) side_ask (pos 11) (pos 5) ∷ row (pos 3) side_bid (pos 10) (pos 4) ∷ []

abbrev kv : Text → ℤ → Lastkv
kv key val = record { id = pos 1; app = codes "ome_btc_usdt"; key = key; val = val }

abbrev kvs : List Lastkv
kvs = kv (codes "latest_order_id") (pos 4) ∷ kv (codes "latest_bid_ticket_id") (pos 3) ∷ []

abbrev pub last_log : OmeLog
last_log = record { log_id = pos 4; ts = pos 0; order_logs = []; match_logs = [] }

abbrev log_file : Filedb
log_file = record {
  file_path = codes "ome.log";
  opened = true;
  content = line ome_codec last_log ++ 10 ∷ [];
  answers = [];
}

abbrev fresh : Worker libs
fresh = record (engine [] []) { fdb = log_file; order_id = pos 0 }

last_log-LastLog : LastLog libs log_file last_log
unfolding read_last_line last_text split trim
last_log-LastLog = record {
  byte = b'{';
  bytes = drop 1 (line ome_codec last_log);
  reads = refl;
  parses = refl;
}

wait_for_filedb_lem_example :
    (All (λ v. v <ℤ pos 4) (pos 2 ∷ pos 5 ∷ [])
      × (wait_for_filedb libs (pos 2 ∷ pos 5 ∷ []) fresh ≡ none))
    ⊎ ((v : ℤ) × FirstReach (pos 4) (pos 2 ∷ pos 5 ∷ []) v
        × (wait_for_filedb libs (pos 2 ∷ pos 5 ∷ []) fresh
            ≡ some (record fresh { log_id = pos 4; saved_log_id = v }, none)))
wait_for_filedb_lem_example =
    wait_for_filedb_lem libs (pos 2 ∷ pos 5 ∷ []) fresh last_log last_log-LastLog

rows-IsStored : IsStored libs int_floats rows kvs fresh
unfolding stored_value text_eq
rows-IsStored = record {
  no_asks = refl;
  no_bids = refl;
  sides = (inl refl, (inr refl, tt));
  is_id = omega arith;
  rising = (omega arith, omega arith, (omega arith, omega arith, tt));
}

load_all_orders_lem_example :
    LoadsAll libs int_floats rows kvs fresh
      (load_all_orders libs int_floats (ok rows) (ok kvs) fresh)
load_all_orders_lem_example = load_all_orders_lem libs int_floats rows kvs fresh rows-IsStored

-- The next ask, which meets the stored bid.
abbrev tickets : List Ticket
tickets =
    record {
      id = pos 1;
      time = pos 0;
      owner = pos 8;
      side = side_ask;
      ticket_type = pos 0;
      price = codes "n";
      quantity = codes "e";
      fee_rate = pos 0;
    }
    ∷ []

stored_room : stored_value order_key fresh.order_id kvs +ℤ pos 1 ≤ℤ int64_max
unfolding stored_value text_eq ◌+ℤ◌
stored_room = omega arith

run-Starts_example :
    Starts libs int_floats
      (stored_value order_key fresh.order_id kvs +ℤ pos 1)
      (run libs int_floats (pos 2 ∷ pos 5 ∷ []) (ok rows) (ok kvs) tickets fresh)
run-Starts_example =
    run-Starts libs int_floats (pos 2 ∷ pos 5 ∷ []) rows kvs tickets fresh
      (inr (last_log, last_log-LastLog, inr (inl (omega arith)))) rows-IsStored stored_room

abbrev saved_order : OrderLog
saved_order = record {
  log_index = pos 1;
  id = pos 9;
  ticket_id = pos 6;
  owner = pos 7;
  fee_rate = pos 10;
  time = pos 0;
  side = side_bid;
  order_type = pos 0;
  price = pos 11;
  quantity = pos 5;
}

small : IsExact (pos 10 *ℤ pos 10000)
unfolding ◌*ℤ◌
small = (omega arith, omega arith)

loaded_order-order_row_example :
    loaded_order libs int_floats
      (read_back libs int_floats (order_row libs (pos 5) (pos 0) saved_order))
    ≡ record {
      id = pos 9;
      ticket_id = pos 6;
      owner = pos 7;
      fee_rate = pos 10 *ℤ pos 10000;
      price = pos 11;
      quantity = pos 5;
    }
loaded_order-order_row_example =
    loaded_order-order_row libs int_floats (pos 5) (pos 0) saved_order (omega arith, omega arith)
      small
