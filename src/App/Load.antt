-- ===== src/App/Load.antt =====
-- cmd/main/main.go: `startIngress`, which connects to the banks, sends random orders and counts them.
pub mod Counting
pub mod Sending
use ccoms.Prelude.{
  ℕ, zero, suc, ◌+◌, ◌*◌, ℤ, pos, Option, none, some, List, [], ◌∷◌, leb, if◌then◌else◌,
}
use ccoms.Errors.{Error, Result, ok, err}
use ccoms.Text.{Text, codes}
use ccoms.Dict.{Dict}
use ccoms.Extern.Decimal.{Decimal}
use ccoms.Extern.Json.{Json}
use ccoms.Bank.Structs.{OrderReq}
use ccoms.Ingress.{get_nats, dispatch_bank, send_order_req}

-- What the random numbers of one order are, from 0 on.
pub record Draw : Type 0 where
  pub price : ℕ
  pub quantity : ℕ
  pub owner : ℕ
  pub side : ℕ

-- `from_int` is `decimal.NewFromInt`, and `fee` the number 0.01 as a `float64`. What the store and
-- NATS answer may differ from one attempt to connect to the next.
module _ {Js : Type 0} (M : Decimal) (json : Json (OrderReq M)) (from_int : ℤ → M.D) (fee : M.Float)
    (etcd : ℕ → Text → Result (List Text)) (connect : ℕ → Text → Result Js)
    (publish : Js → Text → Text → Option Error) where
  unfoldable pub random_order : ℕ → Draw → OrderReq M
  random_order i d =
      let price = 10 + d.price in
      let quantity = 1 + d.quantity in
      record {
        symbol = codes "BTC_USDT";
        owner = pos (1 + d.owner);
        side = pos (1 + d.side);
        order_type = pos 1;
        price = from_int (pos price);
        quantity = from_int (pos quantity);
        orig_qty = from_int (pos quantity);
        amount = from_int (pos (price * quantity));
        time = pos (1660000000 + i);
        fee_level = fee;
      }

  abbrev pub attempt : ℕ → Text → Dict Text Js → Dict Text Js × Result Js
  attempt i coin nats = get_nats M json (etcd i) (connect i) publish coin nats

  abbrev pub attempted :
      (Option Error → Dict Text Js → Dict Text Js × Option Error)
      → Dict Text Js × Result Js
      → Dict Text Js × Option Error
  attempted again (nats, ok js) = (nats, none)
  attempted again (nats, err e) = again (some e) nats

  -- The loop of at most `n` attempts to connect to the bank of a coin, with the last error.
  unfoldable pub connect_loop :
      ℕ → ℕ → Option Error → Text → Dict Text Js → Dict Text Js × Option Error
  connect_loop zero i e coin nats = (nats, e)
  connect_loop (suc n) i e coin nats =
      attempted (λ e' nats'. connect_loop n (suc i) e' coin nats') (attempt i coin nats)

  abbrev pub then_usdt : Dict Text Js × Option Error → Dict Text Js × Option Error
  then_usdt (nats, some e) = (nats, some e)
  then_usdt (nats, none) = connect_loop 100 100 none (codes "USDT") nats

  -- Both loops, from a worker with no connections.
  unfoldable pub connect_banks : Dict Text Js × Option Error
  unfolding connect_loop
  connect_banks = then_usdt (connect_loop 100 0 none (codes "BTC") [])

  abbrev pub one : Dict Text Js × Option (Text × Text) × Option Error → ℕ
  one (nats, sent, none) = 1
  one (nats, sent, some e) = 1

  -- What one of the senders, at the time `t`, tells the counter of an order, which it does whether
  -- or not an error is logged.
  unfoldable pub answer : ℕ → Dict Text Js → OrderReq M → ℕ
  answer t nats o =
      one
        (send_order_req M json (etcd t) (connect t) publish (dispatch_bank o.symbol o.side) o nats)

  -- What comes to the counter of orders that are sent at any times.
  unfoldable pub answers : Dict Text Js → List (ℕ × OrderReq M) → List ℕ
  unfolding answer
  answers nats [] = []
  answers nats ((t, o) ∷ os) = answer t nats o ∷ answers nats os

-- The goroutine that counts: what was sent, and how often it has called `wg.Done`.
unfoldable pub count_sent : ℕ → List ℕ → ℕ × ℕ → ℕ × ℕ
count_sent target [] (sent, dones) = (sent, dones)
count_sent target (num ∷ nums) (sent, dones) =
    count_sent target nums (sent + num, if leb target (sent + num) then dones + 1 else dones)
