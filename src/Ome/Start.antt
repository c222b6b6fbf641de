-- ===== src/Ome/Start.antt =====
-- pkg/ome/ome.go: what the engine does before its first ticket, and the loop over the tickets. What
-- the database answers to a query is a parameter: the rows that it finds, or an error.
pub mod CaughtUp
pub mod Loading
pub mod Matching
pub mod Reloaded
pub mod Restart
pub mod Running
use ccoms.Prelude.{
  ℕ, ℤ, pos, ltb_ℤ, leb_ℤ, ◌==ℤ◌, Option, none, some, List, [], ◌∷◌, ◌++◌, Bool, true, false, ◌||◌,
  if◌then◌else◌,
}
use ccoms.Errors.{
  Error, Result, ok, err, invalid_symbol, invalid_order_side, unmarshal_failed, database_failed,
}
use ccoms.Text.{Text, codes, text_eq, split, to_upper, to_lower}
use ccoms.Filedb.{Filedb, read_last_line}
use ccoms.Model.{Lastkv}
use ccoms.Extern.Clock.{Clock}
use ccoms.Extern.Floats.{Floats}
use ccoms.Ome.Structs.{Order, OmeLog, decimal_to_int}
use ccoms.Ome.Worker.{Ticket, Libs, Worker, side_ask, side_bid}
use ccoms.Ome.Match.{match_all}
use ccoms.Ome.Tickets.{matched, ticket_to_match_engine}

-- `base, quote := ss[0], ss[1]`, where neither may be empty.
unfoldable pub market_parts : List Text → Option (Text × Text)
market_parts [] = none
market_parts (a ∷ []) = none
market_parts ([] ∷ b ∷ []) = none
market_parts ((c ∷ a) ∷ [] ∷ []) = none
market_parts ((c ∷ a) ∷ (d ∷ b) ∷ []) = some (c ∷ a, d ∷ b)
market_parts (a ∷ b ∷ e ∷ l) = none

-- The path of the log file; `DataDir` is taken as `path.Join` leaves it.
unfoldable pub log_path : Text → Text → Text
log_path data_dir name = (data_dir ++ codes "/filedb/") ++ to_lower name ++ codes ".log"

-- The loop of `WaitForFiledb`: `seen` are the values that `w.SavedLogID`, which the writer raises,
-- has at its rounds. `none` means that it still waits after the last of them.
unfoldable pub wait_rounds : ℤ → List ℤ → Option ℤ
wait_rounds id [] = none
wait_rounds id (saved ∷ seen) =
    let rest = wait_rounds id seen in if leb_ℤ id saved then some saved else rest

module _ (L : Libs) where
  open L.decimal use {D, Float}

  -- The worker of a market, on the file that `filedb.New` has made of its path.
  unfoldable pub initial : Text → Text × Text → Filedb → Clock → Worker L
  initial symbol (base, quote) fdb clock = record {
    asks = L.ask_tree.new_tree;
    bids = L.bid_tree.new_tree;
    fdb = fdb;
    name = codes "OME_" ++ symbol;
    symbol = symbol;
    base_asset = base;
    quote_asset = quote;
    table_prefix = to_lower symbol;
    state = codes "Init";
    latest_ask_ticket_id = pos 0;
    latest_bid_ticket_id = pos 0;
    log_id = pos 0;
    order_id = pos 0;
    saved_log_id = pos 0;
    to_bank_log_id = pos 0;
    clock = clock;
  }

  abbrev pub on_file : Text → Text × Text → Clock → Filedb × Option Error → Result (Worker L)
  on_file symbol p clock (fdb, none) = ok (initial symbol p fdb clock)
  on_file symbol p clock (fdb, some e) = err e

  abbrev pub of_market :
      (Text → Filedb × Option Error)
      → Text
      → Text
      → Clock
      → Option (Text × Text)
      → Result (Worker L)
  of_market open_log data_dir symbol clock none = err invalid_symbol
  of_market open_log data_dir symbol clock (some p) =
      on_file symbol p clock (open_log (log_path data_dir (codes "OME_" ++ symbol)))

  -- `New`; `open_log` is `filedb.New` with what the operating system answers.
  unfoldable pub new_worker :
      (Text → Filedb × Option Error) → Text → Text → Clock → Result (Worker L)
  unfolding market_parts initial
  new_worker open_log data_dir symbol clock =
      let s = to_upper symbol in of_market open_log data_dir s clock (market_parts (split b'_' s))

  abbrev pub waited : ℤ → Worker L → Option ℤ → Option (Worker L × Option Error)
  waited id w none = none
  waited id w (some saved) = some (record w { log_id = id; saved_log_id = saved }, none)

  abbrev pub wait_for_log : List ℤ → Worker L → Option OmeLog → Option (Worker L × Option Error)
  wait_for_log seen w none = some (w, some unmarshal_failed)
  wait_for_log seen w (some l) = waited l.log_id w (wait_rounds l.log_id seen)

  abbrev pub wait_for_line : List ℤ → Worker L → Result Text → Option (Worker L × Option Error)
  wait_for_line seen w (err e) = some (w, some e)
  wait_for_line seen w (ok []) = some (w, none)
  wait_for_line seen w (ok (c ∷ s)) = wait_for_log seen w (L.json.unmarshal (c ∷ s))

  unfoldable pub wait_for_filedb : List ℤ → Worker L → Option (Worker L × Option Error)
  unfolding wait_rounds
  wait_for_filedb seen w = wait_for_line seen w (read_last_line w.fdb)

  -- The columns of a row of `model.Order` that are loaded.
  pub record StoredOrder : Type 0 where
    pub id : ℤ
    pub ticket_id : ℤ
    pub owner : ℤ
    pub side : ℤ
    pub fee_level : Float
    pub price : D
    pub quantity : D

  module _ (F : Floats Float) where
    unfoldable pub loaded_order : StoredOrder → Order
    unfolding decimal_to_int
    loaded_order r = record {
      id = r.id;
      ticket_id = r.ticket_id;
      owner = r.owner;
      fee_rate = F.to_int (F.times r.fee_level (F.of_int (pos 10000)));
      price = decimal_to_int L.decimal r.price;
      quantity = decimal_to_int L.decimal r.quantity;
    }

    -- `none` is a side that is neither.
    unfoldable pub insert_row : StoredOrder → Worker L → Option (Worker L)
    unfolding loaded_order
    insert_row r w =
        if r.side ==ℤ side_ask
        then some (record w { asks = L.ask_tree.replace_or_insert (loaded_order r) w.asks })
        else if r.side ==ℤ side_bid
        then some (record w { bids = L.bid_tree.replace_or_insert (loaded_order r) w.bids })
        else none

    abbrev pub next_row :
        (Worker L → Worker L × Option Error)
        → Worker L
        → Option (Worker L)
        → Worker L × Option Error
    next_row rest w none = (w, some invalid_order_side)
    next_row rest w (some w') = rest w'

    unfoldable pub load_rows : List StoredOrder → Worker L → Worker L × Option Error
    unfolding insert_row
    load_rows [] w = (w, none)
    load_rows (r ∷ rs) w = next_row (λ w'. load_rows rs w') w (insert_row r w)

  -- The values of `lastkvs` of the worker, in the order in which they are found.
  unfoldable pub load_lastkv : Lastkv → Worker L → Worker L
  load_lastkv kv w =
      if text_eq kv.key (codes "latest_order_id")
      then record w { order_id = kv.val }
      else if text_eq kv.key (codes "latest_ask_ticket_id")
      then record w { latest_ask_ticket_id = kv.val }
      else if text_eq kv.key (codes "latest_bid_ticket_id")
      then record w { latest_bid_ticket_id = kv.val }
      else w

  unfoldable pub load_lastkvs : List Lastkv → Worker L → Worker L
  unfolding load_lastkv
  load_lastkvs [] w = w
  load_lastkvs (kv ∷ kvs) w = load_lastkvs kvs (load_lastkv kv w)

  abbrev pub with_lastkvs : Result (List Lastkv) → Worker L × Option Error → Worker L × Option Error
  with_lastkvs kvs (w, some e) = (w, some e)
  with_lastkvs (err e) (w, none) = (w, some e)
  with_lastkvs (ok l) (w, none) = (load_lastkvs l w, none)

  -- `LoadAllOrders`, on the answers to its two queries: the orders that are not deleted by rising
  -- ID, and the values of `lastkvs` of this worker.
  unfoldable pub load_all_orders :
      Floats Float
      → Result (List StoredOrder)
      → Result (List Lastkv)
      → Worker L
      → Worker L × Option Error
  unfolding load_rows load_lastkvs
  load_all_orders F (err e) kvs w = (w, some e)
  load_all_orders F (ok rows) kvs w = with_lastkvs kvs (load_rows F rows w)

  abbrev pub next_tickets :
      (Worker L → Option (Worker L × Option Error))
      → Option (Worker L × Option Error)
      → Option (Worker L × Option Error)
  next_tickets rest none = none
  next_tickets rest (some (w, some e)) = some (w, some e)
  next_tickets rest (some (w, none)) = rest w

  -- The tickets that come through the channel until it is closed, up to the first error.
  unfoldable pub handle_tickets : List Ticket → Worker L → Option (Worker L × Option Error)
  handle_tickets [] w = some (w, none)
  handle_tickets (t ∷ ts) w =
      next_tickets (λ w'. handle_tickets ts w') (ticket_to_match_engine L t w)

  unfoldable pub start_matching : List Ticket → Worker L → Option (Worker L × Option Error)
  unfolding handle_tickets
  start_matching ts w = next_tickets (λ w'. handle_tickets ts w') (matched L (match_all L w))

  abbrev pub in_state : Text → Worker L → Worker L
  in_state s w = record w { state = s }

  abbrev pub after_loading :
      List Ticket → Worker L × Option Error → Option (Worker L × Option Error)
  after_loading ts (w, some e) = some (w, some e)
  after_loading ts (w, none) = start_matching ts (in_state (codes "Matching") w)

  abbrev pub after_waiting :
      Floats Float
      → Result (List StoredOrder)
      → Result (List Lastkv)
      → List Ticket
      → Option (Worker L × Option Error)
      → Option (Worker L × Option Error)
  after_waiting F rows kvs ts none = none
  after_waiting F rows kvs ts (some (w, some e)) = some (w, some e)
  after_waiting F rows kvs ts (some (w, none)) =
      after_loading ts (load_all_orders F rows kvs (in_state (codes "LoadingOrders") w))

  -- `Run`, with what its helpers of other goroutines bring: the values of `SavedLogID` that the
  -- waiting sees, the answers of the database, and the tickets.
  unfoldable pub run :
      Floats Float
      → List ℤ
      → Result (List StoredOrder)
      → Result (List Lastkv)
      → List Ticket
      → Worker L
      → Option (Worker L × Option Error)
  unfolding wait_for_filedb load_all_orders start_matching
  run F seen rows kvs ts w =
      after_waiting F rows kvs ts (wait_for_filedb seen (in_state (codes "WaitForFiledb") w))
