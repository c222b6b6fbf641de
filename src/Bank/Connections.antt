-- ===== src/Bank/Connections.antt =====
-- `SubNats` (pkg/bank/nats.go) and `ServeGrpc` (pkg/bank/grpc.go). The store of addresses, NATS and
-- the server of gRPC are parameters.
use ccoms.Prelude.{ℤ, inc64, Option, none, some, List, [], ◌∷◌, ◌++◌}
use ccoms.Errors.{Error, Result, ok, err, ◌>>=◌}
use ccoms.Text.{Text, codes, split}
use ccoms.Etcd.{get, key_bank_service, key_nats_service}
use ccoms.Bank.Messages.{Msg, BankMsg}
use ccoms.Bank.Worker.{Libs, Worker}

-- What goes into the channel of the main task for each message.
unfoldable pub forwarded : List Msg → List BankMsg
forwarded [] = []
forwarded (m ∷ ms) = record { n = some m; g = none } ∷ forwarded ms

abbrev pub subscribed : Result (List Msg) → List BankMsg × Option Error
subscribed (err e) = ([], some e)
subscribed (ok ms) = (forwarded ms, none)

-- `subscribe` is given a subject and the sequence number to start with, and answers with the
-- messages that come until the channel is closed.
module _ {Nc Js : Type 0} (etcd : Text → Result (List Text)) (connect : Text → Result Nc)
    (jet_stream : Nc → Result Js) (subscribe : Js → Text → ℤ → Result (List Msg)) where
  unfoldable pub sub_nats : (L : Libs) → Worker L → List BankMsg × Option Error
  unfolding get key_nats_service
  sub_nats L w = subscribed (
      get (etcd (key_nats_service w.coin)) >>= (λ url. connect url >>= (λ nc.
        jet_stream nc >>= (λ js.
          subscribe js ((codes "BANK." ++ w.coin) ++ codes ".*") (inc64 w.latest_msg_seq)))))

-- `":" + ss[1]`, which panics where the address has no colon.
abbrev pub second : List Text → Option Text
second [] = none
second (a ∷ []) = none
second (a ∷ b ∷ l) = some (codes ":" ++ b)

unfoldable pub listen_addr : Text → Option Text
listen_addr url = second (split b':' url)

-- `serve` listens on an address and serves there until an error.
module _ (etcd : Text → Result (List Text)) (serve : Text → Option Error) where
  abbrev pub served : Option Text → Option (Option Error)
  served none = none
  served (some addr) = some (serve addr)

  abbrev pub at_address : Result Text → Option (Option Error)
  at_address (err e) = some (some e)
  at_address (ok url) = served (listen_addr url)

  -- The error of `ServeGrpc`; `none` is a panic.
  unfoldable pub serve_grpc : Text → Option (Option Error)
  unfolding get key_bank_service listen_addr
  serve_grpc coin = at_address (get (etcd (key_bank_service coin)))
