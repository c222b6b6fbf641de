-- ===== src/Ome/Saving.antt =====
-- pkg/ome/filedb.go: `ParseAndWriteLogs`, which turns a batch of log lines into one transaction of
-- the database. The database is a parameter: what it answers to the statements of a transaction.
pub mod Rows
pub mod Again
pub mod Writer
use ccoms.Prelude.{
  ℕ, suc, ℤ, pos, ◌+ℤ◌, ◌==ℤ◌, ltb_ℤ, leb_ℤ, Option, none, some, List, [], ◌∷◌, ◌++◌, if◌then◌else◌,
  Bool, ◌&&◌, map,
}
use ccoms.Errors.{Error, Result, ok, err, unmarshal_failed}
use ccoms.Text.{Text, codes, to_lower}
use ccoms.Dict.{Dict, int_eq, str_eq, insert, lookup}
use ccoms.Model.{order_table, trade_table}
use ccoms.Ome.Structs.{OmeLog, MatchLog, OrderLog, int_to_decimal}
use ccoms.Ome.Worker.{Libs, Worker, side_ask}

module _ (L : Libs) where
  open L.decimal use {D, zero, equal}

  -- The columns of a row of `model.Trade` that are set; `LogType` is 1.
  pub record TradeRow : Type 0 where
    pub log_id : ℤ
    pub log_index : ℤ
    pub price : D
    pub quantity : D
    pub amount : D
    pub time : ℤ
    pub ask_order : ℤ
    pub bid_order : ℤ
    pub asker : ℤ
    pub bider : ℤ
    pub ask_fee : D
    pub bid_fee : D

  -- The columns of a row of `model.Order` that are set for a new order; `LogType` is 1, and the
  -- fee level is the whole number that the log has as the fee rate.
  pub record OrderRow : Type 0 where
    pub id : ℤ
    pub log_id : ℤ
    pub log_index : ℤ
    pub price : D
    pub quantity : D
    pub orig_qty : D
    pub amount : D
    pub time : ℤ
    pub ticket_id : ℤ
    pub owner : ℤ
    pub side : ℤ
    pub order_type : ℤ
    pub fee_level : ℤ

  -- What an order that has traded is updated by.
  pub record OrderUpdate : Type 0 where
    pub owner : ℤ
    pub quantity : D
    pub amount : D
    pub trades : ℤ

  -- What the lines of a batch come to.
  pub record Batch : Type 0 where
    pub latest_log_id : ℤ
    pub latest_order_id : ℤ
    pub latest_ask_ticket_id : ℤ
    pub latest_bid_ticket_id : ℤ
    pub trades : List TradeRow
    pub orders : List OrderRow
    pub updates : Dict ℤ OrderUpdate

  abbrev pub empty_batch : Batch
  empty_batch = record {
    latest_log_id = pos 0;
    latest_order_id = pos 0;
    latest_ask_ticket_id = pos 0;
    latest_bid_ticket_id = pos 0;
    trades = [];
    orders = [];
    updates = [];
  }

  unfoldable pub trade_row : ℤ → MatchLog → TradeRow
  unfolding int_to_decimal
  trade_row log_id ml = record {
    log_id = log_id;
    log_index = pos 1;
    price = int_to_decimal L.decimal ml.price;
    quantity = int_to_decimal L.decimal ml.quantity;
    amount = int_to_decimal L.decimal ml.amount;
    time = ml.time;
    ask_order = ml.ask_id;
    bid_order = ml.bid_id;
    asker = ml.asker;
    bider = ml.bider;
    ask_fee = int_to_decimal L.decimal ml.ask_fee;
    bid_fee = int_to_decimal L.decimal ml.bid_fee;
  }

  unfoldable pub ask_update : MatchLog → OrderUpdate
  unfolding int_to_decimal
  ask_update ml = record {
    owner = ml.asker;
    quantity = int_to_decimal L.decimal ml.ask_quantity;
    amount = int_to_decimal L.decimal ml.amount;
    trades = pos 1;
  }

  unfoldable pub bid_update : MatchLog → OrderUpdate
  unfolding int_to_decimal
  bid_update ml = record {
    owner = ml.bider;
    quantity = int_to_decimal L.decimal ml.bid_quantity;
    amount = int_to_decimal L.decimal ml.amount;
    trades = pos 1;
  }

  -- An order's first update of the batch is taken as it is; a later one replaces the quantity and
  -- the amount and counts one more trade.
  abbrev pub merged : OrderUpdate → Option OrderUpdate → OrderUpdate
  merged u none = u
  merged u (some v) = record v {
    quantity = u.quantity;
    amount = u.amount;
    trades = v.trades +ℤ pos 1;
  }

  unfoldable pub update_order : ℤ → OrderUpdate → Dict ℤ OrderUpdate → Dict ℤ OrderUpdate
  update_order id u d = insert id (merged u (lookup id d)) d

  -- The first match of a log, with the log index after it.
  unfoldable pub add_match : ℤ → List MatchLog → Batch → Batch × ℤ
  unfolding trade_row ask_update bid_update update_order
  add_match log_id [] b = (b, pos 0)
  add_match log_id (ml ∷ mls) b = (
    record b {
      trades = b.trades ++ trade_row log_id ml ∷ [];
      updates =
          update_order ml.bid_id (bid_update ml) (update_order ml.ask_id (ask_update ml) b.updates);
    },
    pos 3,
  )

  unfoldable pub order_row : ℤ → ℤ → OrderLog → OrderRow
  unfolding int_to_decimal
  order_row log_id log_index ml = record {
    id = ml.id;
    log_id = log_id;
    log_index = log_index +ℤ pos 1;
    price = int_to_decimal L.decimal ml.price;
    quantity = int_to_decimal L.decimal ml.quantity;
    orig_qty = int_to_decimal L.decimal ml.quantity;
    amount = int_to_decimal L.decimal ml.quantity;
    time = ml.time;
    ticket_id = ml.ticket_id;
    owner = ml.owner;
    side = ml.side;
    order_type = ml.order_type;
    fee_level = ml.fee_rate;
  }

  -- The first new order of a log.
  unfoldable pub add_order : ℤ → ℤ → List OrderLog → Batch → Batch
  unfolding order_row
  add_order log_id log_index [] b = b
  add_order log_id log_index (ml ∷ mls) b = record b {
    orders = b.orders ++ order_row log_id log_index ml ∷ [];
    latest_order_id = ml.id;
    latest_ask_ticket_id = if ml.side ==ℤ side_ask then ml.ticket_id else b.latest_ask_ticket_id;
    latest_bid_ticket_id = if ml.side ==ℤ side_ask then b.latest_bid_ticket_id else ml.ticket_id;
  }

  abbrev pub after_match : OmeLog → Batch × ℤ → Batch
  after_match l (b, log_index) =
      let b1 = add_order l.log_id log_index l.order_logs b in record b1 { latest_log_id = l.log_id }

  -- One log: one that was saved is passed over.
  unfoldable pub add_log : ℤ → OmeLog → Batch → Batch
  unfolding add_match add_order
  add_log saved l b =
      if leb_ℤ l.log_id saved
      then record b { latest_log_id = l.log_id }
      else after_match l (add_match l.log_id l.match_logs b)

  -- One line, and the lines after it.
  abbrev pub collected : ℤ → Batch → (Batch → Result Batch) → Option OmeLog → Result Batch
  collected saved b rest none = err unmarshal_failed
  collected saved b rest (some l) = rest (add_log saved l b)

  unfoldable pub collect : ℤ → List Text → Batch → Result Batch
  unfolding add_log
  collect saved [] b = ok b
  collect saved (s ∷ ss) b = collected saved b (collect saved ss) (L.json.unmarshal s)

  -- The statements of the transaction, in their order; one with a table takes its name first, and a
  -- key of `lastkvs` is raised to the value if it is lower.
  pub data Statement : Type 0 where
    create_orders : Text → List OrderRow → Statement
    create_trades : Text → List TradeRow → Statement
    update_orders : Text → Dict ℤ OrderUpdate → Statement
    mark_deleted : Text → List ℤ → Statement
    raise_lastkv : Text → Text → ℤ → Statement

  -- The orders of which nothing is left.
  unfoldable pub filled : Dict ℤ OrderUpdate → List ℤ
  filled [] = []
  filled ((id, u) ∷ d) = let rest = filled d in if equal u.quantity zero then id ∷ rest else rest

  abbrev pub unless_empty {ℓ} : {A : Type ℓ} → List A → Statement → List Statement
  unless_empty [] st = []
  unless_empty (x ∷ l) st = st ∷ []

  abbrev pub if_positive : ℤ → Statement → List Statement
  if_positive v st = if ltb_ℤ (pos 0) v then st ∷ [] else []

  unfoldable pub statements : Worker L → Batch → List Statement
  unfolding filled order_table trade_table
  statements w b =
      let app = to_lower w.name in
      unless_empty b.orders (create_orders (order_table w.symbol) b.orders)
      ++ unless_empty b.trades (create_trades (trade_table w.symbol) b.trades)
      ++ unless_empty b.updates (update_orders (to_lower w.symbol ++ codes "_orders") b.updates)
      ++ unless_empty (filled b.updates) (mark_deleted (order_table w.symbol) (filled b.updates))
      ++ raise_lastkv app (codes "saved_log_id") b.latest_log_id ∷ []
      ++ if_positive b.latest_order_id
          (raise_lastkv app (codes "latest_order_id") b.latest_order_id)
      ++ if_positive b.latest_ask_ticket_id
          (raise_lastkv app (codes "latest_ask_ticket_id") b.latest_ask_ticket_id)
      ++ if_positive b.latest_bid_ticket_id
          (raise_lastkv app (codes "latest_bid_ticket_id") b.latest_bid_ticket_id)

  -- The worker, the transaction if one is made, and the error.
  abbrev pub Saving : Type 0
  Saving = Worker L × Option (List Statement) × Option Error

  abbrev pub answered : Worker L → ℤ → List Statement → Option Error → Saving
  answered w id sts none = (record w { saved_log_id = id }, some sts, none)
  answered w id sts (some e) = (w, some sts, some e)

  abbrev pub is_empty {ℓ} : {A : Type ℓ} → List A → Bool
  is_empty [] = Bool.true
  is_empty (x ∷ l) = Bool.false

  abbrev pub written_batch : (List Statement → Option Error) → Worker L → Result Batch → Saving
  written_batch db w (err e) = (w, none, some e)
  written_batch db w (ok b) =
      if is_empty b.trades && is_empty b.orders && is_empty b.updates
      then (w, none, none)
      else answered w b.latest_log_id (statements w b) (db (statements w b))

  unfoldable pub parse_and_write_logs :
      (List Statement → Option Error) → List Text → Worker L → Saving
  unfolding collect statements
  parse_and_write_logs db ss w = written_batch db w (collect w.saved_log_id ss empty_batch)
