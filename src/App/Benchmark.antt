-- ===== src/App/Benchmark.antt =====
-- cmd/main/bm.go: `PrepareForBenchmark`. MySQL is a list of statements, whose errors the code does not
-- read; the file with the flag, NATS and etcd are parameters.
pub mod Ready
use ccoms.Prelude.{Bool, true, false, Option, none, some, List, [], ◌∷◌, ◌++◌, map}
use ccoms.Errors.{Error, Result, ok, err}
use ccoms.Text.{Text, codes}
use ccoms.Extern.KeyValue.{KeyValue}
use ccoms.Etcd.{key_bank_service, key_nats_service}
use ccoms.Model.{order_table, trade_table, ticket_table, balance_snap_table}

-- What `os.Stat` says of the flag: it is there, it is not, or another error.
pub data Stat : Type 0 where
  present absent unreadable : Stat

pub data Kind : Type 0 where
  order trade ticket balance_snap lastkv balance user : Kind

-- A table that is dropped, or made for a model; the last three have the name that gorm gives them.
pub data Statement : Type 0 where
  drop_table : Text → Statement
  migrate : Kind → Text → Statement
  migrate_default : Kind → Statement

unfoldable pub market_tables : Text → List Statement
unfolding order_table trade_table ticket_table
market_tables symbol =
    migrate order (order_table symbol)
    ∷ migrate trade (trade_table symbol)
    ∷ migrate ticket (ticket_table symbol (codes "ask"))
    ∷ migrate ticket (ticket_table symbol (codes "bid"))
    ∷ []

unfoldable pub migrations : List Statement
unfolding market_tables balance_snap_table
migrations =
    market_tables (codes "btc_usdt")
    ++ (market_tables (codes "eth_usdt")
        ++ (market_tables (codes "eth_btc")
            ++ (migrate balance_snap (balance_snap_table (codes "btc"))
                ∷ migrate balance_snap (balance_snap_table (codes "usdt"))
                ∷ migrate balance_snap (balance_snap_table (codes "eth"))
                ∷ migrate_default lastkv
                ∷ migrate_default balance
                ∷ migrate_default user
                ∷ [])))

abbrev pub nats_urls : List Text
nats_urls = codes "nats_btc:4222" ∷ codes "nats_usdt:4222" ∷ []

-- The keys that are put, with their values, in their order.
unfoldable pub addresses : List (Text × Text)
unfolding key_nats_service key_bank_service
addresses =
    (key_nats_service (codes "usdt"), codes "nats_usdt:4222")
    ∷ (key_nats_service (codes "btc"), codes "nats_btc:4222")
    ∷ (key_nats_service (codes "eth"), codes "nats_eth:4222")
    ∷ (key_bank_service (codes "usdt"), codes "bank_usdt:12341")
    ∷ (key_bank_service (codes "btc"), codes "bank_btc:12342")
    ∷ (key_bank_service (codes "eth"), codes "bank_eth:12343")
    ∷ []

-- `create` is the error of making the flag.
module _ {Nc Js : Type 0} (etcd : KeyValue) (connect : Text → Result Nc)
    (jet_stream : Nc → Result Js) (add_stream : Js → Option Error) (create : Option Error) where
  abbrev on_ok : {A : Type 0} → Result A → (A → Option Error) → Option Error
  on_ok (err e) k = some e
  on_ok (ok a) k = k a

  unfoldable pub stream_at : Text → Option Error
  stream_at url = on_ok (connect url) (λ nc. on_ok (jet_stream nc) add_stream)

  abbrev pub next_url : Text → List Text × Option Error → Option Error → List Text × Option Error
  next_url url rest (some e) = ([], some e)
  next_url url (urls, e) none = (url ∷ urls, e)

  -- The servers on which the stream was made, up to the first error.
  unfoldable pub add_streams : List Text → List Text × Option Error
  unfolding stream_at
  add_streams [] = ([], none)
  add_streams (url ∷ urls) = next_url url (add_streams urls) (stream_at url)

  abbrev pub next_put :
      (etcd.State → etcd.State × Option Error)
      → etcd.State × Option Error
      → etcd.State × Option Error
  next_put rest (s, some e) = (s, some e)
  next_put rest (s, none) = rest s

  unfoldable pub put_all : List (Text × Text) → etcd.State → etcd.State × Option Error
  put_all [] s = (s, none)
  put_all ((k, v) ∷ l) s = next_put (put_all l) (etcd.put k v s)

  -- With no error the program waits for ever.
  pub record Prepared : Type 0 where
    pub statements : List Statement
    pub streams : List Text
    pub store : etcd.State
    pub created : Bool
    pub error : Option Error

  abbrev pub idle : etcd.State → Prepared
  idle s = record { statements = []; streams = []; store = s; created = false; error = none }

  abbrev pub flagged : Prepared → Option Error → Prepared
  flagged p (some e) = record p { error = some e }
  flagged p none = record p { created = true }

  abbrev pub with_store : Prepared → etcd.State × Option Error → Prepared
  with_store p (s, some e) = record p { store = s; error = some e }
  with_store p (s, none) = flagged (record p { store = s }) create

  abbrev pub with_streams : Prepared → List Text × Option Error → Prepared
  with_streams p (urls, some e) = record p { streams = urls; error = some e }
  with_streams p (urls, none) = with_store (record p { streams = urls }) (put_all addresses p.store)

  -- `tables` are the names that the query of the tables finds.
  unfoldable pub prepare_for_benchmark : Stat → List Text → etcd.State → Prepared
  unfolding migrations addresses add_streams put_all
  prepare_for_benchmark present tables s = idle s
  prepare_for_benchmark unreadable tables s = idle s
  prepare_for_benchmark absent tables s =
      with_streams (record (idle s) { statements = map drop_table tables ++ migrations })
        (add_streams nats_urls)
