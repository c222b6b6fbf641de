-- ===== src/Bank/Changes/Outcome.antt =====
-- `OrderMatched`, `BalanceChanged` and `DirectChange` on every branch.
use ccoms.Prelude.{
  ℤ, pos, ◌≤ℤ◌, ◌<ℤ◌, lt→ltb_ℤ, le→ltb_ℤ, ◌≡◌, if_true, if_false, Option, none, some,
}
use ccoms.Errors.{Error}
use ccoms.Text.{Text}
use ccoms.Dict.{int_eq, str_eq, insert}
use ccoms.Bank.Structs.{BankLog, BalanceChange}
use ccoms.Bank.Worker.{Libs, Worker, Asset, write_log}
use ccoms.Bank.Assets.{IsCounted}
use ccoms.Bank.Changes.{
  parse_change, balance_bank_log, apply_two, undo_two, undone, match_balance_log, order_matched,
  change_balance_log, apply_change, undo_change, balance_changed, direct_balance_log, apply_one,
  undo_one, direct_change, handle_balance_change,
}
use ccoms.Bank.Changes.Undoing.{
  Changed, credited, credited_both, logged_change, apply_two-Applied, undo_two-Same,
  apply_one-Applied, undo_one-Same,
}

module _ (L : Libs) where
  open L.decimal use {D}

  -- From a bank whose counters are in the range of `int64`, `OrderMatched` returns an error with
  -- every balance and counter as before, or it has applied both changes, to one user one after the
  -- other if the owners are the same, advanced the log ID and appended the log's line.
  pub order_matched_lem :
      (o1 : ℤ) (x1 y1 : D) (o2 : ℤ) (x2 y2 : D) (table : Text) (id : ℤ) (w : Worker L)
      → IsCounted L w
      → let w1 = apply_two L o1 x1 y1 o2 x2 y2 w in
        Changed L
          (credited_both L o1 x1 y1 o2 x2 y2)
          (balance_bank_log L (match_balance_log L o1 x1 y1 o2 x2 y2 table id w1) w1)
          w
          (order_matched L o1 x1 y1 o2 x2 y2 table id w)
  unfolding order_matched
  order_matched_lem o1 x1 y1 o2 x2 y2 table id w c =
      let w1 = apply_two L o1 x1 y1 o2 x2 y2 w in
      logged_change L (credited_both L o1 x1 y1 o2 x2 y2)
        (balance_bank_log L (match_balance_log L o1 x1 y1 o2 x2 y2 table id w1) w1) w w1
        (undo_two L o1 x1 y1 o2 x2 y2) (apply_two-Applied L o1 x1 y1 o2 x2 y2 w)
        (λ w'. undo_two-Same L o1 x1 y1 o2 x2 y2 w w' c)

  -- From a bank whose counters are in the range of `int64`, `DirectChange` returns an error with
  -- every balance and counter as before, or it has applied the change to its owner and to nobody
  -- else, advanced the log ID and appended the log's line.
  direct_change_lem :
      (o : ℤ) (x y : D) (table : Text) (id : ℤ) (w : Worker L)
      → IsCounted L w
      → let w1 = apply_one L o x y w in
        Changed L
          (credited L o x y)
          (balance_bank_log L (direct_balance_log L o x y table id w1) w1)
          w
          (direct_change L o x y table id w)
  unfolding direct_change
  direct_change_lem o x y table id w c =
      let w1 = apply_one L o x y w in
      logged_change L (credited L o x y)
        (balance_bank_log L (direct_balance_log L o x y table id w1) w1) w w1 (undo_one L o x y)
        (apply_one-Applied L o x y w) (λ w'. undo_one-Same L o x y w w' c)

  -- The reason ID is noted before the change is made.
  abbrev pub noted : BalanceChange → Worker L → Worker L
  noted bc w = record w { ome_reason_ids = insert bc.reason_table bc.reason_id w.ome_reason_ids }

  abbrev pub credited_by : BalanceChange → ℤ → Asset L → Asset L
  credited_by bc =
      credited_both L bc.owner (parse_change L bc.free_change) (parse_change L bc.freeze_change)
        bc.owner2 (parse_change L bc.free_change2) (parse_change L bc.freeze_change2)

  Changed-apply_change :
      (bc : BalanceChange) (w : Worker L) (l : BankLog)
      → IsCounted L w
      → Changed L
          (credited_by bc)
          l
          w
          (undone L (undo_change L bc) (write_log L l (apply_change L bc w)))
  unfolding apply_change undo_change
  Changed-apply_change bc w l c =
      let x1 = parse_change L bc.free_change in
      let y1 = parse_change L bc.freeze_change in
      let x2 = parse_change L bc.free_change2 in
      let y2 = parse_change L bc.freeze_change2 in
      logged_change L (credited_by bc) l w (apply_change L bc w) (undo_change L bc)
        (apply_two-Applied L bc.owner x1 y1 bc.owner2 x2 y2 w)
        (λ w'. undo_two-Same L bc.owner x1 y1 bc.owner2 x2 y2 w w' c)

  -- `HandleBalanceChange` panics if there is no second owner.
  handle_balance_change_panics :
      (bc : BalanceChange) (w : Worker L) → bc.owner2 ≤ℤ pos 0 → handle_balance_change L bc w ≡ none
  unfolding handle_balance_change balance_changed
  handle_balance_change_panics bc w h = if_false _ _ (le→ltb_ℤ (pos 0) bc.owner2 h)

  -- From a bank whose counters are in the range of `int64` and for a change with a second owner,
  -- `HandleBalanceChange` returns, the reason ID is noted in either case, and both changes are
  -- applied and logged unless it returns an error, with which every balance and counter is as
  -- before.
  pub handle_balance_change_lem :
      (bc : BalanceChange) (w : Worker L)
      → IsCounted L w
      → pos 0 <ℤ bc.owner2
      → (r : Worker L × Option Error) × (handle_balance_change L bc w ≡ some r)
        × (let w1 = apply_change L bc (noted bc w) in
            Changed L
              (credited_by bc)
              (balance_bank_log L (change_balance_log L bc w1) w1)
              (noted bc w)
              r)
  unfolding handle_balance_change balance_changed
  handle_balance_change_lem bc w c h =
      let w1 = apply_change L bc (noted bc w) in
      let l = balance_bank_log L (change_balance_log L bc w1) w1 in
      (
        undone L (undo_change L bc) (write_log L l w1),
        if_true _ _ (lt→ltb_ℤ (pos 0) bc.owner2 h),
        Changed-apply_change bc (noted bc w) l
            (record { log_id_range = c.log_id_range; ticket_id_range = c.ticket_id_range }),
      )
