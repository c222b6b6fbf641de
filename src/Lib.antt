-- ===== src/Lib.antt =====
-- The coin exchange ccoms: its matching engine, its bank, and the log files on which both stand.
--
-- The program. For each market there is an engine (pkg/ome) and for each coin a bank (pkg/bank).
-- An order request comes to the bank through NATS; the bank freezes what the order may cost and
-- writes a log with a ticket. The engine reads the tickets of the two banks of its market, puts
-- each into its books as an order, matches, and writes a log for each order and each trade. The
-- banks are told of the trades as balance changes. Each worker writes its log to a file
-- (pkg/filedb), which is the record of what happened; a second task follows the file and copies
-- batches of lines into MySQL.
--
-- The files. Prelude, Text, Errors and Dict are shared: native numbers with a signed integer over
-- them, byte strings, error values, and maps. Extern has what the program calls and does not
-- implement, as records of operations with laws: the JSON of a record, a B-tree, decimals and the
-- clock, and the store of the addresses. Model has the names of tables (pkg/model/tables.go).
-- * Filedb is pkg/filedb/filedb.go: the file as a list of bytes, WriteLine (which may write only a
--   part), ReadLastLine, ReadFirstLine, Tailf and the batches of ToMySQL.
-- * Ome.Structs and Ome.Worker are pkg/ome/structs.go and the state of pkg/ome/ome.go; Ome.Match
--   is TryMatch there, Ome.Tickets is NewAsk, NewBid and TicketToMatchEngine, and Ome.Start is
--   New, Run, WaitForFiledb, LoadAllOrders and StartMatching. Ome.ToBank is PushBalanceChanges
--   with the function push inside PushBalanceLogs, and PullTickets (pkg/ome/grpc.go); Ome.Saving
--   is ParseAndWriteLogs and Ome.Saving.Writer is FiledbToMySQL (pkg/ome/filedb.go) with
--   CheckoutLastKv and StartWriter (pkg/ome/ome.go). Ome.Queries has the other queries of ome.go.
-- * Bank.Structs and Bank.Worker are pkg/bank/structs.go and the state of pkg/bank/bank.go;
--   Bank.Orders is CreateOrder, Bank.Changes is OrderMatched, BalanceChanged, DirectChange and
--   HandleBalanceChange, Bank.Messages is HandleOrderReq and the loop of HandleBankMsgs, Bank.Acks
--   is its acknowledging task, and Bank.Start is New, Run, WaitForFiledb, LoadSavedLogID and
--   LoadAllAssets, all of bank.go. Bank.Saving is ParseAndWriteLogs (pkg/bank/filedb.go) with
--   GetSide, and Bank.Saving.Writer is FiledbToMySQL. Of pkg/bank/grpc.go, Bank.ToOme is the
--   function push inside Tickets and Bank.FromOme is BalanceChanges.
--   Bank.Connections is ServeGrpc there and SubNats (pkg/bank/nats.go).
-- * Ingress is GetNats and SendOrderReq (pkg/ingress/nats.go) with dispatchBank
--   (cmd/main/main.go). App is the rest of cmd/main: App.Signals is handleSignals, App.Load is
--   startIngress, App.Programs is main with startBank, startOme and the choice of the settings
--   file (pkg/config/config.go), and App.Benchmark is PrepareForBenchmark (cmd/main/bm.go).
--   Monitor is what runFiledbMonitorOne computes of one log file, Etcd has the keys and Get of
--   pkg/xetcd/xetcd.go, and Info is IsNewerVersion and init (pkg/info/info.go).
-- * Xlog is the logger of pkg/xlog/xlog.go with its colours (pkg/xlog/color.go), and Xlog.Zap is
--   FileWithLineNum (pkg/xlog/zap.go) and the writer of pkg/xlog/zap-logger.go.
-- * Tests has concrete libraries and the theorems at concrete inputs.
--
-- How the parts meet. Ingress.Requests follows a request from the ingress into the bank,
-- Bank.ToOme.Handover a ticket from the bank's log to the engine, Bank.FromOme.Delivery the
-- changes of a trade from the engine's log back to the bank, Bank.FromOme.Settlement such a change
-- in the accounts of the bank, and Ome.Start and Bank.Start what a worker has after a restart of
-- what it had before. Ome.Saving.Writer.Resumed follows the rounds of the engine's writer and what
-- the database has taken over all of them. Ome.Start.CaughtUp has the wait of a start beside the
-- task that ends it, and App.Benchmark.Ready the addresses that the preparation puts and the
-- services ask for.
--
-- How code becomes definitions. A method that changes its worker takes the worker and returns it
-- with the error; a panic is none. Assets are reached through pointers into a map, and the model
-- changes them in the map, so two owners that are one user share an asset. int64 counters wrap
-- around (inc64, dec64); big.Int and exact decimals do not. TryMatch calls itself: it runs on
-- fuel, one round more than there are orders in the books, which is enough because a round that
-- goes on takes an order away. The answers of the disk to writes, of the clock and of the database
-- are parameters: for a query, the rows that it finds or an error. A loop that waits is a function
-- of the values that it sees, one for each round, and none says that it still waits after them.
-- What comes through a channel or a stream is a list; what another task changes meanwhile (the
-- saved log ID, the reason IDs) stands with the value that is read. The acknowledgements that the
-- bank sends are a list in their order. In CreateOrder and its like the log file is taken as open,
-- since the worker opens it at the start. A sequence number of NATS is taken below 2^63, where
-- uint64 and int64 agree.
--
-- The two ends of the channel of handleSignals are places of its one goroutine, in a step relation.
-- The random numbers of startIngress are a parameter of each order, and its sixteen senders are
-- orders that are sent at any times.
--
-- Not modelled: the client libraries behind connections and subscriptions, and the start of
-- goroutines; the rounds, a second apart, of StartBanker and StartPullTickets and those of the
-- bank, which repeat what is modelled; the library that follows the file; the queries of gorm behind the rows that are loaded
-- and the statements of a transaction; the reading of the settings (pkg/config) and the set-up of
-- zap; pkg/model/xgorm, a copy of gorm's logger, with the opening of the databases
-- and the column types that no table uses (pkg/model/db.go, pkg/model/model.go); the printing of
-- rates, and the generated gRPC code. The files pkg/ome/tobank.go and pkg/ome/nats.go
-- are commented out.
pub mod App
pub mod Bank
pub mod Dict
pub mod Errors
pub mod Etcd
pub mod Extern
pub mod Filedb
pub mod Info
pub mod Ingress
pub mod Model
pub mod Monitor
pub mod Ome
pub mod Prelude
pub mod Tests
pub mod Text
pub mod Xlog
