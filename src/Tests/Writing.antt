-- ===== src/Tests/Writing.antt =====
-- The writer of the engine on a log file with one trade.
use ccoms.Prelude.{
  true, ℤ, pos, ◌≤ℤ◌, ◌++◌, ◌-ℤ◌, ◌*ℤ◌, div_ℕ, ◌≡◌, refl, inl, inr, none, some, Option, List, [],
  ◌∷◌, arith,
}
use ccoms.Errors.{Error, Result, ok, database_failed}
use ccoms.Text.{Text, to_lower}
use ccoms.Model.{Lastkv}
use ccoms.Filedb.{to_mysql, batch_size}
use ccoms.Filedb.Batches.{IsReady}
use ccoms.Ome.Worker.{Worker}
use ccoms.Ome.Match.{match_log}
use ccoms.Ome.Saving.{Statement, parse_and_write_logs}
use ccoms.Ome.Saving.Writer.{
  load_saved_log_id, checkout_all, keys, save, filedb_to_mysql, WriterRound, start_writer,
}
use ccoms.Ome.Saving.Writer.Kinds.{
  logs_of, log_trades, log_orders, statement_trades, statement_orders, rows_of,
}
use ccoms.Ome.Saving.Writer.Windows.{between}
use ccoms.Ome.Saving.Writer.Stored.{stored_by}
use ccoms.Ome.Saving.Writer.Resumed.{Resumes, start_writer_once}
use ccoms.Ome.Saving.Writer.CatchUp.{Rising}
use ccoms.Ome.Saving.Writer.Progress.{Covers, handle, filedb_to_mysql-Covers}
use ccoms.Ome.Start.{wait_for_filedb}
use ccoms.Ome.Start.CaughtUp.{wait_for_filedb-filedb_to_mysql}
use ccoms.Tests.Engine.{libs, crossed}
use ccoms.Tests.Matching.{trade_line, trade_log, trade_entry}

abbrev finds : Text → Text → Result (Option Lastkv)
finds app key = ok (some (record { id = pos 1; app = app; key = key; val = pos 3 }))

abbrev creates : Lastkv → Result Lastkv
creates kv = ok kv

abbrev accepts : List (Statement libs) → Option Error
accepts sts = none

abbrev lines : List Text
lines = trade_line ∷ []

abbrev from_three : Worker libs
from_three = record crossed { saved_log_id = pos 3 }

lines-IsReady : IsReady (1 ∷ []) lines
lines-IsReady = (omega arith, tt)

lines-Rising : Rising libs (pos 3) lines
unfolding match_log ◌-ℤ◌ div_ℕ ◌*ℤ◌
lines-Rising = (trade_log, (refl, (inl (trade_entry, ([], refl)), (omega arith, tt))))

taken : (to_mysql (handle libs finds creates accepts) (1 ∷ []) lines (from_three, [])).1 ≡ []
unfolding to_mysql batch_size save parse_and_write_logs match_log
taken = refl

checked_out : checkout_all libs finds creates keys from_three ≡ none
unfolding checkout_all
checked_out = refl

ended_well : (filedb_to_mysql libs finds creates none accepts (1 ∷ []) lines crossed).1 ≡ none
unfolding filedb_to_mysql to_mysql batch_size parse_and_write_logs match_log
ended_well = refl

filedb_to_mysql-Covers_example :
    Covers libs finds creates accepts from_three lines
      (filedb_to_mysql libs finds creates none accepts (1 ∷ []) lines crossed).0.0
unfolding load_saved_log_id
filedb_to_mysql-Covers_example =
    filedb_to_mysql-Covers libs finds creates accepts (pos 3) (pos 3) none (1 ∷ []) lines crossed
      refl checked_out lines-IsReady taken lines-Rising ended_well

-- A start on the file that has the trade.
abbrev restarted : Worker libs
restarted = record crossed {
  fdb = record crossed.fdb { opened = true; content = trade_line ++ 10 ∷ [] };
}

restarted_taken :
    (to_mysql
      (handle libs finds creates accepts)
      (1 ∷ [])
      lines
      (record restarted { saved_log_id = pos 3 }, [])).1
    ≡ []
unfolding to_mysql batch_size save parse_and_write_logs match_log
restarted_taken = refl

restarted_checked_out :
    checkout_all libs finds creates keys (record restarted { saved_log_id = pos 3 }) ≡ none
unfolding checkout_all
restarted_checked_out = refl

restarted_ended_well :
    (filedb_to_mysql libs finds creates none accepts (1 ∷ []) lines restarted).1 ≡ none
unfolding filedb_to_mysql to_mysql batch_size parse_and_write_logs match_log
restarted_ended_well = refl

-- The writer has left a saved ID that the third round sees.
wait_for_filedb-filedb_to_mysql_example :
    let left =
      (filedb_to_mysql libs finds creates none accepts (1 ∷ []) lines restarted).0.0.saved_log_id in
    (v : ℤ) × (trade_log.log_id ≤ℤ v)
    × (wait_for_filedb libs (pos 0 ∷ pos 3 ∷ left ∷ []) restarted
        ≡ some (record restarted { log_id = trade_log.log_id; saved_log_id = v }, none))
unfolding load_saved_log_id match_log
wait_for_filedb-filedb_to_mysql_example =
    wait_for_filedb-filedb_to_mysql libs finds creates accepts (pos 3) (pos 3) none (1 ∷ []) []
      trade_line [] trade_log restarted (pos 0 ∷ pos 3 ∷ []) [] refl restarted_checked_out
      lines-IsReady restarted_taken lines-Rising restarted_ended_well refl (omega arith) refl tt
      refl

abbrev refuses : List (Statement libs) → Option Error
refuses sts = some database_failed

-- A round whose transaction is refused, and one whose transaction is taken.
abbrev two_rounds : List (WriterRound libs)
two_rounds =
    record {
      find = finds;
      create = creates;
      tailed = none;
      db = refuses;
      queued = 1 ∷ [];
      lines = lines;
    }
    ∷ record {
      find = finds;
      create = creates;
      tailed = none;
      db = accepts;
      queued = 1 ∷ [];
      lines = lines;
    }
    ∷ []

two_rounds-Resumes : Resumes libs (pos 3) lines lines-Rising (pos 3) two_rounds (crossed, [])
unfolding load_saved_log_id stored_by filedb_to_mysql to_mysql batch_size parse_and_write_logs
    match_log
two_rounds-Resumes =
    (inr refl, lines-IsReady, ([], refl), (inr refl, lines-IsReady, ([], refl), tt))

start_writer_once_example :
    let (w', ts) = start_writer libs two_rounds (crossed, []) in
    let m = stored_by libs (to_lower w'.name) (pos 3) ts in
    (rows_of (rows_of (statement_trades libs)) ts
      ≡ rows_of (log_trades libs) (between (pos 3) m (logs_of libs lines)))
    × (rows_of (rows_of (statement_orders libs)) ts
        ≡ rows_of (log_orders libs) (between (pos 3) m (logs_of libs lines)))
start_writer_once_example =
    start_writer_once libs (pos 3) lines lines-Rising (pos 3) two_rounds crossed two_rounds-Resumes
