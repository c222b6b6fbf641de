-- ===== src/Bank/Start.antt =====
-- pkg/bank/bank.go: what the bank does before its first message. What the database answers to a
-- query is a parameter: the rows that it finds, or an error.
pub mod Loading
pub mod Resuming
use ccoms.Prelude.{
  ℕ, ◌-◌, ℤ, pos, negsuc, leb_ℤ, Option, none, some, List, [], ◌∷◌, ◌++◌, Bool, true, false, length,
  drop, if◌then◌else◌,
}
use ccoms.Errors.{Error, Result, ok, err, unmarshal_failed}
use ccoms.Text.{Text, codes, text_eq, has_prefix, to_upper, to_lower}
use ccoms.Dict.{Dict, int_eq, str_eq, insert}
use ccoms.Filedb.{Filedb, read_last_line}
use ccoms.Model.{Lastkv, ticket_table}
use ccoms.Extern.Clock.{Clock}
use ccoms.Bank.Structs.{BankLog}
use ccoms.Bank.Worker.{Libs, Worker}
use ccoms.Bank.Saving.{get_side}
use ccoms.Bank.Messages.{BankMsg, Handling, handle_bank_msgs}

-- The path of the log file; `DataDir` is taken as `path.Join` leaves it.
unfoldable pub log_path : Text → Text → Text
log_path data_dir name = (data_dir ++ codes "/filedb/") ++ to_lower name ++ codes ".log"

-- `LoadSavedLogID`, on the answer to its query: the log ID of the newest snapshot, if there is one.
unfoldable pub load_saved_log_id : Result (Option ℤ) → ℤ × Option Error
load_saved_log_id (err e) = (pos 0, some e)
load_saved_log_id (ok none) = (pos 0, none)
load_saved_log_id (ok (some id)) = (id, none)

-- Whether the loop of `WaitForFiledb` ends within the rounds of these answers.
unfoldable pub wait_rounds : ℤ → List (Result (Option ℤ)) → Bool
unfolding load_saved_log_id
wait_rounds id [] = false
wait_rounds id (a ∷ seen) =
    let rest = wait_rounds id seen in if leb_ℤ id (load_saved_log_id a).0 then true else rest

-- `uint64(n)`.
unfoldable pub to_uint64 : ℤ → ℤ
to_uint64 (pos n) = pos n
to_uint64 (negsuc n) = pos (18446744073709551615 - n)

abbrev pub reason_prefix : Text
reason_prefix = codes "ome_reasonid_"

-- The first `ome_reasonid_` of a key that starts with it is its start.
abbrev pub reason_symbol : Text → Text
reason_symbol key = to_upper (drop (length reason_prefix) key)

module _ (L : Libs) where
  open L.decimal use {D}

  unfoldable pub initial : Text → Filedb → Clock → Worker L
  initial coin fdb clock = record {
    name = codes "Bank_" ++ coin;
    coin = coin;
    symbols = codes "BTC_USDT" ∷ [];
    state = codes "Init";
    log_id = pos 0;
    ticket_ids = [];
    assets = [];
    ome_reason_ids = [];
    latest_msg_seq = pos 0;
    saved_log_id = pos 0;
    fdb = fdb;
    clock = clock;
  }

  abbrev pub from_log : Worker L → Option BankLog → Result (Worker L)
  from_log w none = err unmarshal_failed
  from_log w (some l) = ok (record w { log_id = l.log_id; latest_msg_seq = l.msg_seq })

  abbrev pub from_line : Worker L → Result Text → Result (Worker L)
  from_line w (err e) = err e
  from_line w (ok []) = ok w
  from_line w (ok (c ∷ s)) = from_log w (L.json.unmarshal (c ∷ s))

  abbrev pub on_file : Text → Clock → Filedb × Option Error → Result (Worker L)
  on_file coin clock (fdb, some e) = err e
  on_file coin clock (fdb, none) = from_line (initial coin fdb clock) (read_last_line fdb)

  -- `New`; `open_log` is `filedb.New` with what the operating system answers.
  unfoldable pub new_worker :
      (Text → Filedb × Option Error) → Text → Text → Clock → Result (Worker L)
  unfolding initial
  new_worker open_log data_dir coin clock =
      let c = to_upper coin in on_file c clock (open_log (log_path data_dir (codes "Bank_" ++ c)))

  -- `none` is a wait that goes on after the last answer.
  abbrev pub waited : ℤ → Worker L → Bool → Option (Worker L × Option Error)
  waited id w false = none
  waited id w true = some (record w { log_id = id }, none)

  abbrev pub wait_for_log :
      List (Result (Option ℤ)) → Worker L → Option BankLog → Option (Worker L × Option Error)
  wait_for_log seen w none = some (w, some unmarshal_failed)
  wait_for_log seen w (some l) = waited l.log_id w (wait_rounds l.log_id seen)

  abbrev pub wait_for_line :
      List (Result (Option ℤ)) → Worker L → Result Text → Option (Worker L × Option Error)
  wait_for_line seen w (err e) = some (w, some e)
  wait_for_line seen w (ok []) = some (w, none)
  wait_for_line seen w (ok (c ∷ s)) = wait_for_log seen w (L.json.unmarshal (c ∷ s))

  unfoldable pub wait_for_filedb :
      List (Result (Option ℤ)) → Worker L → Option (Worker L × Option Error)
  unfolding wait_rounds
  wait_for_filedb seen w = wait_for_line seen w (read_last_line w.fdb)

  -- The columns of a row of `model.Balance` that are loaded.
  pub record Balance : Type 0 where
    pub owner : ℤ
    pub free : D
    pub freeze : D

  unfoldable pub load_balances : List Balance → Worker L → Worker L
  load_balances [] w = w
  load_balances (b ∷ bs) w =
      load_balances bs (record w {
        assets = insert b.owner (record { free = b.free; freeze = b.freeze }) w.assets;
      })

  -- The newest ticket of a table, given the ID that the one variable of all the rounds has; with
  -- no row it stays as it is.
  abbrev pub TicketQuery : Type 0
  TicketQuery = Text → ℤ → Result (Option ℤ)

  abbrev pub found_or : ℤ → Option ℤ → ℤ
  found_or last none = last
  found_or last (some id) = id

  abbrev pub next_symbol :
      (ℤ → Worker L → Worker L × Option Error)
      → ℤ
      → Text
      → Worker L
      → Result (Option ℤ)
      → Worker L × Option Error
  next_symbol rest last symbol w (err e) = (w, some e)
  next_symbol rest last symbol w (ok o) =
      rest (found_or last o)
        (record w { ticket_ids = insert symbol (found_or last o) w.ticket_ids })

  unfoldable pub load_ticket_ids : TicketQuery → ℤ → List Text → Worker L → Worker L × Option Error
  unfolding ticket_table get_side
  load_ticket_ids q last [] w = (w, none)
  load_ticket_ids q last (s ∷ ss) w =
      next_symbol (λ n v. load_ticket_ids q n ss v) last s w
        (q (ticket_table s (get_side L s w)) last)

  unfoldable pub load_nats_seq : Lastkv → Worker L → Worker L
  unfolding to_uint64
  load_nats_seq kv w =
      if text_eq kv.key (codes "nats_seq")
      then record w { latest_msg_seq = to_uint64 kv.val }
      else w

  unfoldable pub load_reason_id : Lastkv → Worker L → Worker L
  load_reason_id kv w =
      if has_prefix kv.key reason_prefix
      then record w { ome_reason_ids = insert (reason_symbol kv.key) kv.val w.ome_reason_ids }
      else w

  unfoldable pub load_lastkvs : List Lastkv → Worker L → Worker L
  unfolding load_nats_seq load_reason_id
  load_lastkvs [] w = w
  load_lastkvs (kv ∷ kvs) w = load_lastkvs kvs (load_reason_id kv (load_nats_seq kv w))

  abbrev pub with_lastkvs : Result (List Lastkv) → Worker L × Option Error → Worker L × Option Error
  with_lastkvs kvs (w, some e) = (w, some e)
  with_lastkvs (err e) (w, none) = (w, some e)
  with_lastkvs (ok l) (w, none) = (load_lastkvs l w, none)

  -- `LoadAllAssets`, on the answers to its queries: the balances of this coin by rising ID, the
  -- newest tickets, and the values of `lastkvs` of this worker.
  unfoldable pub load_all_assets :
      Result (List Balance)
      → TicketQuery
      → Result (List Lastkv)
      → Worker L
      → Worker L × Option Error
  unfolding load_balances load_ticket_ids load_lastkvs
  load_all_assets (err e) q kvs w = (w, some e)
  load_all_assets (ok bs) q kvs w =
      let w1 = load_balances bs w in with_lastkvs kvs (load_ticket_ids q (pos 0) w1.symbols w1)

  abbrev pub in_state : Text → Worker L → Worker L
  in_state s w = record w { state = s }

  abbrev pub after_loading : List BankMsg → Worker L × Option Error → Option (Handling L)
  after_loading ms (w, some e) = some (w, [], some e)
  after_loading ms (w, none) = handle_bank_msgs L ms (in_state (codes "Working") w)

  abbrev pub after_waiting :
      Result (List Balance)
      → TicketQuery
      → Result (List Lastkv)
      → List BankMsg
      → Option (Worker L × Option Error)
      → Option (Handling L)
  after_waiting bs q kvs ms none = none
  after_waiting bs q kvs ms (some (w, some e)) = some (w, [], some e)
  after_waiting bs q kvs ms (some (w, none)) =
      after_loading ms (load_all_assets bs q kvs (in_state (codes "LoadingAssets") w))

  -- `Run`, with the answers of the database and the messages that come through the channel.
  unfoldable pub run :
      List (Result (Option ℤ))
      → Result (List Balance)
      → TicketQuery
      → Result (List Lastkv)
      → List BankMsg
      → Worker L
      → Option (Handling L)
  unfolding wait_for_filedb load_all_assets
  run seen bs q kvs ms w =
      after_waiting bs q kvs ms (wait_for_filedb seen (in_state (codes "WaitForFiledb") w))
