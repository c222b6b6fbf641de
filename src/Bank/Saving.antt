-- ===== src/Bank/Saving.antt =====
-- pkg/bank/filedb.go: `ParseAndWriteLogs`, which turns a batch of log lines into one transaction of
-- the database. The database is a parameter: what it answers to the statements of a transaction.
pub mod Failed
pub mod Rows
pub mod Writer
use ccoms.Prelude.{
  ℕ, suc, ℤ, pos, ◌+ℤ◌, ltb_ℤ, leb_ℤ, Option, none, some, List, [], ◌∷◌, ◌++◌, if◌then◌else◌, Bool,
}
use ccoms.Errors.{Error, Result, ok, err, unmarshal_failed}
use ccoms.Text.{Text, codes, has_prefix, to_lower, to_upper}
use ccoms.Dict.{Dict, int_eq, str_eq, insert, get_or}
use ccoms.Bank.Structs.{BankLog, BalanceLog, TicketLog}
use ccoms.Bank.Worker.{Libs, Worker}
use ccoms.Bank.Changes.{parse_change}
use ccoms.Model.{ticket_table, balance_snap_table}

module _ (L : Libs) where
  open L.decimal use {D}

  -- The columns of a row of `model.Ticket` that are set; `LogType` is 1.
  pub record TicketRow : Type 0 where
    pub log_id : ℤ
    pub log_index : ℤ
    pub price : D
    pub quantity : D
    pub amount : D

  -- The columns of a row of `model.BalanceSnap` that are set; `LogType` is 1.
  pub record SnapRow : Type 0 where
    pub log_id : ℤ
    pub log_index : ℤ
    pub owner : ℤ
    pub free_change : D
    pub freeze_change : D
    pub free_new : D
    pub freeze_new : D

  -- The new values of a row of `model.Balance`.
  abbrev pub BalanceRow : Type 0
  BalanceRow = D × D

  -- What the lines of a batch come to.
  pub record Batch : Type 0 where
    pub latest_log_id : ℤ
    pub latest_msg_seq : ℤ
    pub tickets : Dict Text (List TicketRow)
    pub snaps : List SnapRow
    pub balances : Dict ℤ BalanceRow

  abbrev pub empty_batch : Batch
  empty_batch = record {
    latest_log_id = pos 0;
    latest_msg_seq = pos 0;
    tickets = [];
    snaps = [];
    balances = [];
  }

  unfoldable pub ticket_row : ℤ → TicketLog → TicketRow
  unfolding parse_change
  ticket_row log_id ml = record {
    log_id = log_id;
    log_index = pos 1;
    price = parse_change L ml.price;
    quantity = parse_change L ml.quantity;
    amount = parse_change L ml.amount;
  }

  -- The first ticket of a log, with the log index after it.
  unfoldable pub add_ticket : ℤ → List TicketLog → Batch → Batch × ℤ
  unfolding ticket_row
  add_ticket log_id [] b = (b, pos 0)
  add_ticket log_id (ml ∷ mls) b = (
    record b {
      tickets =
          insert ml.symbol (get_or ml.symbol [] b.tickets ++ ticket_row log_id ml ∷ []) b.tickets;
    },
    pos 1,
  )

  -- A snapshot, and the balance that its owner then has.
  unfoldable pub add_snap : SnapRow → Batch → Batch
  add_snap s b = record b {
    snaps = b.snaps ++ s ∷ [];
    balances = insert s.owner (s.free_new, s.freeze_new) b.balances;
  }

  unfoldable pub first_snap : ℤ → ℤ → BalanceLog → SnapRow
  unfolding parse_change
  first_snap log_id log_index ml = record {
    log_id = log_id;
    log_index = log_index +ℤ pos 1;
    owner = ml.owner;
    free_change = parse_change L ml.free_change;
    freeze_change = parse_change L ml.freeze_change;
    free_new = parse_change L ml.free_new;
    freeze_new = parse_change L ml.freeze_new;
  }

  unfoldable pub second_snap : ℤ → ℤ → BalanceLog → SnapRow
  unfolding parse_change
  second_snap log_id log_index ml = record {
    log_id = log_id;
    log_index = log_index +ℤ pos 2;
    owner = ml.owner2;
    free_change = parse_change L ml.free_change2;
    freeze_change = parse_change L ml.freeze_change2;
    free_new = parse_change L ml.free_new2;
    freeze_new = parse_change L ml.freeze_new2;
  }

  -- The first balance log of a log, for its one owner or its two.
  unfoldable pub add_balances : ℤ → ℤ → List BalanceLog → Batch → Batch
  unfolding add_snap first_snap second_snap
  add_balances log_id log_index [] b = b
  add_balances log_id log_index (ml ∷ mls) b =
      let b1 = add_snap (first_snap log_id log_index ml) b in
      if ltb_ℤ (pos 0) ml.owner2 then add_snap (second_snap log_id log_index ml) b1 else b1

  abbrev pub after_ticket : BankLog → Batch × ℤ → Batch
  after_ticket l (b, log_index) =
      let b1 = add_balances l.log_id log_index l.balance_logs b in
      record b1 { latest_log_id = l.log_id }

  -- One log: one that was saved is passed over.
  unfoldable pub add_log : ℤ → BankLog → Batch → Batch
  unfolding add_ticket add_balances
  add_log saved l b =
      if leb_ℤ l.log_id saved
      then record b { latest_log_id = l.log_id }
      else after_ticket l (
          add_ticket l.log_id l.ticket_logs (record b {
            latest_msg_seq =
                if ltb_ℤ b.latest_msg_seq l.msg_seq then l.msg_seq else b.latest_msg_seq;
          }))

  -- One line, and the lines after it.
  abbrev pub collected : ℤ → Batch → (Batch → Result Batch) → Option BankLog → Result Batch
  collected saved b rest none = err unmarshal_failed
  collected saved b rest (some l) = rest (add_log saved l b)

  unfoldable pub collect : ℤ → List Text → Batch → Result Batch
  unfolding add_log
  collect saved [] b = ok b
  collect saved (s ∷ ss) b = collected saved b (collect saved ss) (L.json.unmarshal s)

  -- The statements of the transaction, in their order. A statement with a table takes its name first.
  pub data Statement : Type 0 where
    set_nats_seq : Text → ℤ → Statement
    create_snaps : Text → List SnapRow → Statement
    create_tickets : Text → List TicketRow → Statement
    update_balances : Text → Dict ℤ BalanceRow → Statement

  unfoldable pub get_side : Text → Worker L → Text
  get_side symbol w = if has_prefix (to_upper symbol) w.coin then codes "ask" else codes "bid"

  abbrev pub ticket_statements : Worker L → Dict Text (List TicketRow) → List Statement
  ticket_statements w [] = []
  ticket_statements w ((symbol, rows) ∷ d) =
      create_tickets (ticket_table symbol (get_side symbol w)) rows ∷ ticket_statements w d

  unfoldable pub statements : Worker L → Batch → List Statement
  unfolding get_side ticket_table balance_snap_table
  statements w b =
      (if ltb_ℤ (pos 0) b.latest_msg_seq
        then set_nats_seq (to_lower w.name) b.latest_msg_seq ∷ []
        else [])
      ++ create_snaps (balance_snap_table w.coin) b.snaps ∷ ticket_statements w b.tickets
      ++ update_balances (to_lower w.coin) b.balances ∷ []

  -- The worker, the transaction if one is made, and the error.
  abbrev pub Saving : Type 0
  Saving = Worker L × Option (List Statement) × Option Error

  abbrev pub saved_up_to : ℤ → Worker L → Worker L
  saved_up_to id w = record w {
    saved_log_id = if ltb_ℤ w.saved_log_id id then id else w.saved_log_id;
  }

  -- `SavedLogID` goes on whatever the database answers.
  abbrev pub transacted : (List Statement → Option Error) → Batch → Worker L → List SnapRow → Saving
  transacted db b w [] = (w, none, none)
  transacted db b w (s ∷ ss) =
      (saved_up_to b.latest_log_id w, some (statements w b), db (statements w b))

  abbrev pub written_batch : (List Statement → Option Error) → Worker L → Result Batch → Saving
  written_batch db w (err e) = (w, none, some e)
  written_batch db w (ok b) = transacted db b w b.snaps

  abbrev pub unless_saved :
      (List Statement → Option Error) → List Text → Worker L → Option BankLog → Saving
  unless_saved db ss w none = (w, none, some unmarshal_failed)
  unless_saved db ss w (some l) =
      if leb_ℤ l.log_id w.saved_log_id
      then (w, none, none)
      else written_batch db w (collect w.saved_log_id ss empty_batch)

  -- The batch is its last line and the lines before it, since `ToMySQL` passes no empty batch.
  unfoldable pub parse_and_write_logs :
      (List Statement → Option Error) → List Text → Text → Worker L → Saving
  unfolding collect statements
  parse_and_write_logs db init last w =
      unless_saved db (init ++ last ∷ []) w (L.json.unmarshal last)
