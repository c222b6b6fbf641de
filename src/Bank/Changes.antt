-- ===== src/Bank/Changes.antt =====
-- pkg/bank/bank.go: `OrderMatched`, `BalanceChanged`, `DirectChange` and `HandleBalanceChange`.
pub mod Undoing
pub mod Conservation
pub mod Outcome
use ccoms.Prelude.{
  ℤ, pos, ltb_ℤ, inc64, dec64, Option, none, some, List, [], ◌∷◌, if◌then◌else◌, Bool,
}
use ccoms.Errors.{Error}
use ccoms.Text.{Text, codes}
use ccoms.Dict.{int_eq, str_eq, insert}
use ccoms.Bank.Structs.{BankLog, BalanceLog, BalanceChange}
use ccoms.Bank.Worker.{
  Libs, Worker, Asset, checkout_asset, change_asset, add_to, take_from, write_log,
}

module _ (L : Libs) where
  open L.decimal use {D, zero, to_string, new_from_string}

  -- `d, _ := decimal.NewFromString(s)`: an error is ignored, and the value is then zero.
  abbrev pub value_or_zero : Option D → D
  value_or_zero none = zero
  value_or_zero (some d) = d

  unfoldable pub parse_change : Text → D
  parse_change s = value_or_zero (new_from_string s)

  -- A log with one balance log and no message of NATS.
  unfoldable pub balance_bank_log : BalanceLog → Worker L → BankLog
  balance_bank_log bl w = record {
    log_id = w.log_id;
    ts = w.clock.unix_nano w.clock.calls;
    msg_seq = pos 0;
    balance_logs = bl ∷ [];
    ticket_logs = [];
  }

  -- The changes of two users, one after the other: if they are one user, both apply to it.
  unfoldable pub apply_two : ℤ → D → D → ℤ → D → D → Worker L → Worker L
  apply_two owner1 x1 y1 owner2 x2 y2 w =
      let w1 = change_asset L owner1 (add_to L x1 y1) w in
      let w2 = change_asset L owner2 (add_to L x2 y2) w1 in record w2 { log_id = inc64 w2.log_id }

  unfoldable pub undo_two : ℤ → D → D → ℤ → D → D → Worker L → Worker L
  undo_two owner1 x1 y1 owner2 x2 y2 w =
      let w1 = change_asset L owner1 (take_from L x1 y1) w in
      let w2 = change_asset L owner2 (take_from L x2 y2) w1 in
      record w2 { log_id = dec64 w2.log_id }

  abbrev pub undone : (Worker L → Worker L) → Worker L × Option Error → Worker L × Option Error
  undone undo (w, none) = (w, none)
  undone undo (w, some e) = (undo w, some e)

  unfoldable pub match_balance_log : ℤ → D → D → ℤ → D → D → Text → ℤ → Worker L → BalanceLog
  match_balance_log owner1 x1 y1 owner2 x2 y2 table id w = record {
    log_index = pos 1;
    reason = codes "OrderMatched";
    reason_table = table;
    reason_id = id;
    owner = owner1;
    coin = w.coin;
    free_change = to_string x1;
    freeze_change = to_string y1;
    free_new = to_string (checkout_asset L owner1 w).free;
    freeze_new = to_string (checkout_asset L owner1 w).freeze;
    owner2 = owner2;
    coin2 = [];
    free_change2 = to_string x2;
    freeze_change2 = to_string y2;
    free_new2 = to_string (checkout_asset L owner2 w).free;
    freeze_new2 = to_string (checkout_asset L owner2 w).freeze;
  }

  unfoldable pub order_matched :
      ℤ → D → D → ℤ → D → D → Text → ℤ → Worker L → Worker L × Option Error
  unfolding match_balance_log balance_bank_log apply_two undo_two
  order_matched owner1 x1 y1 owner2 x2 y2 table id w =
      let w1 = apply_two owner1 x1 y1 owner2 x2 y2 w in
      undone (undo_two owner1 x1 y1 owner2 x2 y2) (
        write_log L (balance_bank_log (match_balance_log owner1 x1 y1 owner2 x2 y2 table id w1) w1)
          w1)

  unfoldable pub change_balance_log : BalanceChange → Worker L → BalanceLog
  change_balance_log bc w = record {
    log_index = pos 1;
    reason = bc.reason;
    reason_table = bc.reason_table;
    reason_id = bc.reason_id;
    owner = bc.owner;
    coin = w.coin;
    free_change = bc.free_change;
    freeze_change = bc.freeze_change;
    free_new = to_string (checkout_asset L bc.owner w).free;
    freeze_new = to_string (checkout_asset L bc.owner w).freeze;
    owner2 = bc.owner2;
    coin2 = [];
    free_change2 = bc.free_change2;
    freeze_change2 = bc.freeze_change2;
    free_new2 = to_string (checkout_asset L bc.owner2 w).free;
    freeze_new2 = to_string (checkout_asset L bc.owner2 w).freeze;
  }

  unfoldable pub apply_change : BalanceChange → Worker L → Worker L
  unfolding apply_two parse_change
  apply_change bc w =
      apply_two bc.owner (parse_change bc.free_change) (parse_change bc.freeze_change) bc.owner2
        (parse_change bc.free_change2) (parse_change bc.freeze_change2) w

  unfoldable pub undo_change : BalanceChange → Worker L → Worker L
  unfolding undo_two parse_change
  undo_change bc w =
      undo_two bc.owner (parse_change bc.free_change) (parse_change bc.freeze_change) bc.owner2
        (parse_change bc.free_change2) (parse_change bc.freeze_change2) w

  -- `none` is a panic: without a second owner `uaa2` is nil, and `uaa2.Free` is read for the log.
  unfoldable pub balance_changed : BalanceChange → Worker L → Option (Worker L × Option Error)
  unfolding change_balance_log balance_bank_log apply_change undo_change
  balance_changed bc w =
      if ltb_ℤ (pos 0) bc.owner2
      then (let w1 = apply_change bc w in
          some (
            undone (undo_change bc)
              (write_log L (balance_bank_log (change_balance_log bc w1) w1) w1)))
      else none

  unfoldable pub direct_balance_log : ℤ → D → D → Text → ℤ → Worker L → BalanceLog
  direct_balance_log owner x y table id w = record {
    log_index = pos 1;
    reason = codes "DirectChange";
    reason_table = table;
    reason_id = id;
    owner = owner;
    coin = w.coin;
    free_change = to_string x;
    freeze_change = to_string y;
    free_new = to_string (checkout_asset L owner w).free;
    freeze_new = to_string (checkout_asset L owner w).freeze;
    owner2 = pos 0;
    coin2 = [];
    free_change2 = [];
    freeze_change2 = [];
    free_new2 = [];
    freeze_new2 = [];
  }

  unfoldable pub apply_one : ℤ → D → D → Worker L → Worker L
  apply_one owner x y w =
      let w1 = change_asset L owner (add_to L x y) w in record w1 { log_id = inc64 w1.log_id }

  unfoldable pub undo_one : ℤ → D → D → Worker L → Worker L
  undo_one owner x y w =
      let w1 = change_asset L owner (take_from L x y) w in record w1 { log_id = dec64 w1.log_id }

  unfoldable pub direct_change : ℤ → D → D → Text → ℤ → Worker L → Worker L × Option Error
  unfolding direct_balance_log balance_bank_log apply_one undo_one
  direct_change owner x y table id w =
      let w1 = apply_one owner x y w in
      undone (undo_one owner x y)
        (write_log L (balance_bank_log (direct_balance_log owner x y table id w1) w1) w1)

  unfoldable pub handle_balance_change : BalanceChange → Worker L → Option (Worker L × Option Error)
  handle_balance_change bc w =
      balance_changed bc
        (record w { ome_reason_ids = insert bc.reason_table bc.reason_id w.ome_reason_ids })
