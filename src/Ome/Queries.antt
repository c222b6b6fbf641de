-- ===== src/Ome/Queries.antt =====
-- pkg/ome/ome.go: what the worker can ask the database and its log file for, besides what its start
-- needs. The rows that a query finds are parameters; where there is none, Go's zero values stay.
use ccoms.Prelude.{ℤ, pos, ltb_ℤ, Option, none, some, [], ◌∷◌, if◌then◌else◌}
use ccoms.Errors.{Result, ok, err, unmarshal_failed}
use ccoms.Text.{Text}
use ccoms.Extern.Json.{Json}
use ccoms.Filedb.{read_last_line}
use ccoms.Model.{Lastkv}
use ccoms.Ome.Structs.{MatchLog}
use ccoms.Ome.Worker.{Libs, Worker}

abbrev pub value_or_zero : Option Lastkv → ℤ
value_or_zero none = pos 0
value_or_zero (some kv) = kv.val

-- `LoadLatestTicketID`, which asks for the key of the asks, and `LoadLatestOrderID`.
unfoldable pub load_latest_ticket_id : Result (Option Lastkv) → Result ℤ
load_latest_ticket_id (err e) = err e
load_latest_ticket_id (ok o) = ok (value_or_zero o)

unfoldable pub load_latest_order_id : Result (Option Lastkv) → Result ℤ
load_latest_order_id (err e) = err e
load_latest_order_id (ok o) = ok (value_or_zero o)

abbrev pub max_ℤ : ℤ → ℤ → ℤ
max_ℤ a b = if ltb_ℤ a b then b else a

-- The two orders of a row of `model.Trade`.
abbrev pub Traded : Type 0
Traded = ℤ × ℤ

-- `LoadLatestOrderIDFromTables`: the newest order, the trade with the newest ask, and the trade with
-- the newest bid, of which nothing is read.
unfoldable pub load_latest_order_id_from_tables :
    Result ℤ → Result Traded → Result Traded → Result ℤ
load_latest_order_id_from_tables (err e) ask bid = err e
load_latest_order_id_from_tables (ok id) (err e) bid = err e
load_latest_order_id_from_tables (ok id) (ok ask) (err e) = err e
load_latest_order_id_from_tables (ok id) (ok (ask_order, bid_order)) (ok bid) =
    ok (max_ℤ (max_ℤ id ask_order) bid_order)

module _ (L : Libs) (json : Json MatchLog) where
  abbrev pub parsed_log : Option MatchLog → Result (Option MatchLog)
  parsed_log none = err unmarshal_failed
  parsed_log (some ml) = ok (some ml)

  abbrev pub of_line : Result Text → Result (Option MatchLog)
  of_line (err e) = err e
  of_line (ok []) = ok none
  of_line (ok (c ∷ s)) = parsed_log (json.unmarshal (c ∷ s))

  -- `LoadLatestMatchLog`; `none` is the zero value of an empty file.
  unfoldable pub load_latest_match_log : Worker L → Result (Option MatchLog)
  load_latest_match_log w = of_line (read_last_line w.fdb)
