-- ===== src/Tests/Requests.antt =====
-- The theorems on the requests of the ingress.
use ccoms.Prelude.{pos, ◌≡◌, refl, none, some, Option, List, [], ◌∷◌}
use ccoms.Errors.{Error, Result, ok}
use ccoms.Text.{Text, codes, split, to_upper}
use ccoms.Dict.{str_eq, lookup}
use ccoms.Bank.Orders.{Terms, two_parts, terms}
use ccoms.Bank.Messages.{nats_part, sequenced}
use ccoms.Bank.Structs.{OrderReq}
use ccoms.Ingress.{dispatch_bank, send_order_req}
use ccoms.Ingress.Dispatch.{coin_in, terms_of, dispatch_bank-terms}
use ccoms.Ingress.Requests.{send_order_req-sequenced}
use ccoms.Tests.Codec.{line}
use ccoms.Tests.Banking as Banking
use ccoms.Tests.Banking.{bank, bid_on, order_req_codec}

-- A bid for btc_usdt, in lower case.
abbrev lower_bid : OrderReq Banking.libs.decimal
lower_bid = bid_on (codes "btc_usdt")

dispatch_bank-terms_example :
    dispatch_bank (codes "btc_usdt") (pos 2)
    ≡ coin_in Banking.libs
        (terms_of Banking.libs lower_bid (two_parts (split b'_' (codes "btc_usdt"))))
dispatch_bank-terms_example = dispatch_bank-terms Banking.libs lower_bid

dispatched : dispatch_bank (codes "btc_usdt") (pos 2) ≡ codes "USDT"
unfolding dispatch_bank to_upper split two_parts
dispatched = refl

abbrev upper_bid : OrderReq Banking.libs.decimal
upper_bid = bid_on (codes "BTC_USDT")

abbrev bid_terms : Terms Banking.libs
bid_terms = record { side = codes "bid"; coin = codes "USDT"; value = pos 30 }

abbrev addresses : Text → Result (List Text)
addresses key = ok (codes "nats:4222" ∷ [])

abbrev connects : Text → Result Text
connects url = ok url

abbrev takes : Text → Text → Text → Option Error
takes js subject payload = none

published :
    (send_order_req Banking.libs.decimal Banking.libs.order_json addresses connects takes
      (dispatch_bank upper_bid.symbol upper_bid.side)
      upper_bid
      []).1
    ≡ some (codes "BANK.USDT.OrderReq", line order_req_codec upper_bid)
unfolding send_order_req dispatch_bank to_upper split two_parts lookup
published = refl

send_order_req-sequenced_example :
    nats_part Banking.libs
      (some (record {
        subject = codes "BANK.USDT.OrderReq";
        payload = line order_req_codec upper_bid;
        stream_seq = some (pos 3);
      }))
      bank
    ≡ sequenced Banking.libs upper_bid (some (pos 3)) bank
unfolding two_parts split terms to_upper
send_order_req-sequenced_example =
    send_order_req-sequenced Banking.libs addresses connects takes upper_bid
      (codes "BTC", codes "USDT") bid_terms [] (codes "BANK.USDT.OrderReq")
      (line order_req_codec upper_bid) (pos 3) bank refl refl refl published
