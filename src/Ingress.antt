-- ===== src/Ingress.antt =====
-- pkg/ingress/nats.go: the requests that the ingress publishes, and cmd/main/main.go: the bank to
-- which a request goes. The store of addresses, NATS and JSON are parameters.
pub mod Dispatch
pub mod Requests
use ccoms.Prelude.{ℤ, ◌==ℤ◌, Option, none, some, List, [], ◌∷◌, ◌++◌, if◌then◌else◌, Bool}
use ccoms.Errors.{Error, Result, ok, err, marshal_failed}
use ccoms.Text.{Text, codes, split, to_upper}
use ccoms.Dict.{Dict, str_eq, lookup, insert}
use ccoms.Extern.Decimal.{Decimal}
use ccoms.Extern.Json.{Json}
use ccoms.Etcd.{get, key_nats_service}
use ccoms.Bank.Structs.{OrderReq}
use ccoms.Bank.Orders.{two_parts, side_ask, side_bid}

abbrev pub coin_of : ℤ → Option (Text × Text) → Text
coin_of side none = []
coin_of side (some (base, quote)) =
    if side ==ℤ side_bid then quote else (if side ==ℤ side_ask then base else [])

-- `dispatchBank`
unfoldable pub dispatch_bank : Text → ℤ → Text
unfolding two_parts
dispatch_bank symbol side = coin_of side (two_parts (split b'_' (to_upper symbol)))

unfoldable pub order_subject : Text → Text
order_subject coin = (codes "BANK." ++ to_upper coin) ++ codes ".OrderReq"

-- `js` is a connection to the stream of a coin.
module _ {Js : Type 0} (M : Decimal) (json : Json (OrderReq M)) (etcd : Text → Result (List Text))
    (connect : Text → Result Js) (publish : Js → Text → Text → Option Error) where
  -- The connections are kept.
  abbrev pub connected : Text → Dict Text Js → Result Js → Dict Text Js × Result Js
  connected coin nats (err e) = (nats, err e)
  connected coin nats (ok js) = (insert coin js nats, ok js)

  abbrev pub at_url : Text → Dict Text Js → Result Text → Dict Text Js × Result Js
  at_url coin nats (err e) = (nats, err e)
  at_url coin nats (ok url) = connected coin nats (connect url)

  abbrev pub known : Text → Dict Text Js → Option Js → Dict Text Js × Result Js
  known coin nats (some js) = (nats, ok js)
  known coin nats none = at_url coin nats (get (etcd (key_nats_service coin)))

  unfoldable pub get_nats : Text → Dict Text Js → Dict Text Js × Result Js
  unfolding get key_nats_service
  get_nats coin nats = known coin nats (lookup coin nats)

  -- The connections, the subject and the data that `Publish` was called with, and the error.
  abbrev pub Sent : Type 0
  Sent = Dict Text Js × Option (Text × Text) × Option Error

  abbrev pub marshalled : Text → Dict Text Js → Js → Option Text → Sent
  marshalled coin nats js none = (nats, none, some marshal_failed)
  marshalled coin nats js (some data_text) =
      (nats, some (order_subject coin, data_text), publish js (order_subject coin) data_text)

  abbrev pub on_stream : Text → OrderReq M → Dict Text Js × Result Js → Sent
  on_stream coin msg (nats, err e) = (nats, none, some e)
  on_stream coin msg (nats, ok js) = marshalled coin nats js (json.marshal msg)

  unfoldable pub send_order_req : Text → OrderReq M → Dict Text Js → Sent
  unfolding get_nats order_subject
  send_order_req coin msg nats = on_stream coin msg (get_nats coin nats)
