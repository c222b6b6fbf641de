-- ===== src/Tests/Matching.antt =====
-- The theorems on the matching engine at concrete books.
use ccoms.Prelude.{
  pos, ◌+ℤ◌, ◌-ℤ◌, ◌*ℤ◌, ◌≤ℤ◌, div_ℕ, ◌≡◌, ◌≢◌, refl, sym, ap, ◌∙◌, none, List, [], ◌∷◌, ◌++◌, map,
  arith,
}
use mathlib.Core.List.{flatten}
use ccoms.Ome.Structs.{MatchLog, OmeLog, ask_less, bid_less, exp_int}
use ccoms.Ome.Worker.{Ticket, Worker}
use ccoms.Errors.{ok}
use ccoms.Text.{Text, codes}
use ccoms.Ome.Match.{match_step, match_all, log_line, match_log}
use ccoms.Ome.Saving.{Batch, empty_batch, add_log, collect}
use ccoms.Ome.Saving.Rows.{updated_by, trades_with, collect-Tallies}
use ccoms.Ome.ToBank.{push}
use ccoms.Ome.ToBank.Settlement.{Told, push-Settles}
use ccoms.Tests.Codec.{line}
use ccoms.Ome.Match.Runs.{asks_of, bids_of, IsBook, Matched, match_all-Matched}
use ccoms.Ome.Match.Funding.{promised, paid, IsStocked, Run-paid}
use ccoms.Ome.Match.Priority.{Chosen, match_step_priority}
use ccoms.Ome.Match.Records.{Recorded}
use ccoms.Ome.Match.Trades.{total, volume, Run-conserves, trade_logs, Run-logs}
use ccoms.Ome.Tickets.{ticket_to_match_engine}
use ccoms.Ome.Tickets.Engine.{IsEngine}
use ccoms.Ome.Tickets.Handle.{Handled, ticket_to_match_engine_lem}
use ccoms.Tests.Engine.{
  ome_codec, match_log_of, libs, order, engine, crossed, reported, crossed_reported,
}

abbrev nth_log : List MatchLog → MatchLog
nth_log [] = match_log_of []
nth_log (m ∷ ms) = m

crossed-IsBook : IsBook libs crossed
unfolding ask_less bid_less
crossed-IsBook = record { asks_sorted = ground arith; bids_sorted = ground arith }

match_all-Matched_example : Matched libs crossed (match_all libs crossed)
match_all-Matched_example = match_all-Matched libs crossed crossed-IsBook

abbrev matched_run : Matched libs crossed (match_all libs crossed)
matched_run = match_all-Matched libs crossed crossed-IsBook

Run-conserves_example :
    (total (asks_of libs crossed)
      ≡ total (asks_of libs matched_run.worker) +ℤ volume matched_run.pairs)
    × (total (bids_of libs crossed)
        ≡ total (bids_of libs matched_run.worker) +ℤ volume matched_run.pairs)
Run-conserves_example = Run-conserves libs matched_run.run crossed-IsBook

crossed-IsStocked : IsStocked libs crossed
crossed-IsStocked = record { asks = omega arith; bids = omega arith }

-- The owner of bid 4.
Run-paid_example :
    paid (pos 4) matched_run.pairs *ℤ pos exp_int
      +ℤ promised (pos 4) (bids_of libs matched_run.worker)
    ≤ℤ promised (pos 4) (bids_of libs crossed)
Run-paid_example = Run-paid libs (pos 4) matched_run.run crossed-IsBook crossed-IsStocked

matched_run_error : matched_run.error ≡ none
matched_run_error = sym (ap reported matched_run.returns) ∙ crossed_reported

Run-logs_example :
    (matched_run.worker.fdb.content
      ≡ crossed.fdb.content
        ++ flatten (map (log_line libs) (trade_logs libs crossed matched_run.pairs)))
    × Recorded crossed.log_id matched_run.pairs (trade_logs libs crossed matched_run.pairs)
Run-logs_example = Run-logs libs matched_run.run matched_run_error

match_step_priority_example : Chosen libs crossed (match_step libs crossed)
match_step_priority_example = match_step_priority libs crossed crossed-IsBook

abbrev resting : Worker libs
resting = engine (order 1 10 5 ∷ order 2 12 3 ∷ []) (order 3 8 4 ∷ order 4 9 2 ∷ [])

resting-IsEngine : IsEngine libs resting
unfolding ask_less bid_less
resting-IsEngine = record {
  book = record { asks_sorted = ground arith; bids_sorted = ground arith };
  ids = ground arith;
  uncrossed = λ oa ob p q. ground arith;
}

-- The third bid: 6 at price 11.
abbrev third_bid : Ticket
third_bid = record {
  id = pos 3;
  time = pos 0;
  owner = pos 7;
  side = pos 2;
  ticket_type = pos 1;
  price = 111 ∷ [];
  quantity = 106 ∷ [];
  fee_rate = pos 0;
}

ticket_to_match_engine_lem_example :
    Handled libs third_bid resting (ticket_to_match_engine libs third_bid resting)
ticket_to_match_engine_lem_example =
    ticket_to_match_engine_lem libs third_bid resting resting-IsEngine (omega arith)

abbrev pub trade_line : Text
trade_line = line ome_codec (match_log libs crossed (order 1 10 5) (order 4 10 2))

abbrev trade_batch : Batch libs
trade_batch =
    add_log libs (pos 0) (match_log libs crossed (order 1 10 5) (order 4 10 2)) (empty_batch libs)

collected_trade : collect libs (pos 0) (trade_line ∷ []) (empty_batch libs) ≡ ok trade_batch
unfolding collect match_log ◌-ℤ◌ div_ℕ ◌*ℤ◌
collected_trade = refl

collect-Tallies_example :
    updated_by libs (pos 1) trade_batch.updates ≡ trades_with libs (pos 1) trade_batch.trades
collect-Tallies_example =
    collect-Tallies libs (pos 0) (trade_line ∷ []) trade_batch collected_trade (pos 1)

-- The log of the trade of ask 1 with bid 4.
abbrev pub trade_log : OmeLog
trade_log = match_log libs crossed (order 1 10 5) (order 4 10 2)

abbrev pub trade_entry : MatchLog
trade_entry = nth_log trade_log.match_logs

two_assets : crossed.quote_asset ≢ crossed.base_asset
two_assets p = absurd (ground arith)

push-Settles_example :
    Told libs crossed
      (pos 3)
      (codes "USDT")
      trade_log
      trade_entry
      (push libs (codes "USDT") crossed (pos 3) (line ome_codec trade_log))
unfolding match_log
push-Settles_example =
    push-Settles libs crossed (pos 3) (codes "USDT") trade_log trade_entry []
      (line ome_codec trade_log) refl refl two_assets
