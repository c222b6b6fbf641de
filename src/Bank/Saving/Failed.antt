-- ===== src/Bank/Saving/Failed.antt =====
-- pkg/bank/filedb.go: `ParseAndWriteLogs` on a transaction that the database refuses.
use ccoms.Prelude.{◌≡◌, List, ◌∷◌}
use ccoms.Text.{Text}
use ccoms.Bank.Structs.{BankLog}
use ccoms.Bank.Worker.{Libs, Worker}
use ccoms.Bank.Saving.{SnapRow, Batch}

module _ (L : Libs) where
  -- The batch has a snapshot.
  abbrev HasSnap : Batch L → Type 0
  HasSnap b = (s : SnapRow L) × ((ss : List (SnapRow L)) × (b.snaps ≡ s ∷ ss))

  -- What is read of a log that is not saved has its ID, and a snapshot if the log has a change.
  abbrev Ends : BankLog → Batch L → Type 0
  Ends l b = (b.latest_log_id ≡ l.log_id) × HasSnap b
