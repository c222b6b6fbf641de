-- ===== src/App/Load/Sending.antt =====
-- The connections that the senders of `startIngress` (cmd/main/main.go) share.
use ccoms.Prelude.{
  ℕ, zero, suc, ◌+◌, ◌<◌, ℤ, pos, ◌≡◌, refl, ap, subst, ◌∙◌, Option, none, some, List, [],
  Bool-cases, inl, inr, if_true, if_false, arith,
}
use ccoms.Errors.{Error, Result, ok, err, no_error}
use ccoms.Text.{Text, codes, text_eq, text_eq_refl, split, to_upper}
use ccoms.Dict.{Dict, str_eq, lookup, insert, lookup-insert}
use ccoms.Extern.Decimal.{Decimal}
use ccoms.Extern.Json.{Json}
use ccoms.Bank.Structs.{OrderReq}
use ccoms.Ingress.{
  get_nats, known, at_url, connected, dispatch_bank, order_subject, send_order_req, on_stream,
  marshalled,
}
use ccoms.Etcd.{get, key_nats_service}
use ccoms.App.Load.{Draw, random_order, attempt, attempted, connect_loop, then_usdt, connect_banks}

-- The coin of the bank of an order, by the random number of its side: BTC is sold, USDT is paid.
abbrev pub bank_by : ℕ → Text
bank_by zero = codes "BTC"
bank_by (suc side) = codes "USDT"

abbrev pub subject_by : ℕ → Text
subject_by zero = codes "BANK.BTC.OrderReq"
subject_by (suc side) = codes "BANK.USDT.OrderReq"

bank_by-dispatch_bank :
    (side : ℕ)
    → side < 2
    → (dispatch_bank (codes "BTC_USDT") (pos (1 + side)) ≡ bank_by side)
      × (order_subject (bank_by side) ≡ subject_by side)
unfolding dispatch_bank to_upper split order_subject
bank_by-dispatch_bank zero h = (refl, refl)
bank_by-dispatch_bank (suc zero) h = (refl, refl)
bank_by-dispatch_bank (suc (suc side)) h = absurd (omega arith)

module _ {Js : Type 0} where
  -- There is a connection for the coin.
  abbrev Has : Text → Dict Text Js → Type 0
  Has coin nats = (js : Js) × (lookup coin nats ≡ some js)

  Has-insert : (j k : Text) (js : Js) (nats : Dict Text Js) → Has j nats → Has j (insert k js nats)
  Has-insert j k js nats (v, h) = elim (Bool-cases (text_eq j k)) [
    | inl e ↦ (js, lookup-insert j k js nats ∙ if_true _ _ e)
    | inr e ↦ (v, lookup-insert j k js nats ∙ if_false _ _ e ∙ h)
  ]

  by_side :
      (side : ℕ) (nats : Dict Text Js)
      → Has (codes "BTC") nats
      → Has (codes "USDT") nats
      → Has (bank_by side) nats
  by_side zero nats b u = b
  by_side (suc side) nats b u = u

  Has-insert_self : (k : Text) (js : Js) (nats : Dict Text Js) → Has k (insert k js nats)
  Has-insert_self k js nats = (js, lookup-insert k k js nats ∙ if_true _ _ (text_eq_refl k))

module _ {Js : Type 0} (M : Decimal) (json : Json (OrderReq M)) (from_int : ℤ → M.D) (fee : M.Float)
    (etcd : ℕ → Text → Result (List Text)) (connect : ℕ → Text → Result Js)
    (publish : Js → Text → Text → Option Error) where
  -- What an attempt leaves: the connections that were there, and that of its coin if it succeeds.
  data Attempted (coin : Text) (nats : Dict Text Js) : Dict Text Js × Result Js → Type 0 where
    opened :
        (nats' : Dict Text Js) (js : Js)
        → Has coin nats'
        → ((j : Text) → Has j nats → Has j nats')
        → Attempted coin nats (nats', ok js)
    failed : (e : Error) → Attempted coin nats (nats, err e)

  connected-Attempted :
      (i : ℕ) (coin : Text) (nats : Dict Text Js) (r : Result Js)
      → Attempted coin nats (connected M json (etcd i) (connect i) publish coin nats r)
  connected-Attempted i coin nats (ok js) =
      opened (insert coin js nats) js (Has-insert_self coin js nats)
        (λ j h. Has-insert j coin js nats h)
  connected-Attempted i coin nats (err e) = failed e

  at_url-Attempted :
      (i : ℕ) (coin : Text) (nats : Dict Text Js) (r : Result Text)
      → Attempted coin nats (at_url M json (etcd i) (connect i) publish coin nats r)
  at_url-Attempted i coin nats (ok url) = connected-Attempted i coin nats (connect i url)
  at_url-Attempted i coin nats (err e) = failed e

  known-Attempted :
      (i : ℕ) (coin : Text) (nats : Dict Text Js) (o : Option Js)
      → lookup coin nats ≡ o
      → Attempted coin nats (known M json (etcd i) (connect i) publish coin nats o)
  known-Attempted i coin nats none h =
      at_url-Attempted i coin nats (get (etcd i (key_nats_service coin)))
  known-Attempted i coin nats (some js) h = opened nats js (js, h) (λ j k. k)

  attempt-Attempted :
      (i : ℕ) (coin : Text) (nats : Dict Text Js)
      → Attempted coin nats (attempt M json from_int fee etcd connect publish i coin nats)
  unfolding get_nats
  attempt-Attempted i coin nats = known-Attempted i coin nats (lookup coin nats) refl

  abbrev looped : ℕ → ℕ → Option Error → Text → Dict Text Js → Dict Text Js × Option Error
  looped n i e coin nats = connect_loop M json from_int fee etcd connect publish n i e coin nats

  -- What the loop leaves if it ends with no error.
  abbrev Opens : Text → Dict Text Js → Dict Text Js × Option Error → Type 0
  Opens coin nats r = r.1 ≡ none → Has coin r.0 × ((j : Text) → Has j nats → Has j r.0)

  attempted-Opens :
      (coin : Text) (nats : Dict Text Js) (r : Dict Text Js × Result Js)
      (again : Option Error → Dict Text Js → Dict Text Js × Option Error)
      → ((e : Error) → Opens coin nats (again (some e) nats))
      → Attempted coin nats r
      → Opens coin nats (attempted M json from_int fee etcd connect publish again r)
  attempted-Opens coin nats r again ih (opened nats' js h k) n = (h, k)
  attempted-Opens coin nats r again ih (failed e) n = ih e n

  -- With a round left, or an error from before.
  connect_loop-Opens :
      (n i : ℕ) (e : Error) (coin : Text) (nats : Dict Text Js)
      → Opens coin nats (looped n i (some e) coin nats)
  unfolding connect_loop
  connect_loop-Opens zero i e coin nats h = no_error h
  connect_loop-Opens (suc n) i e coin nats h =
      attempted-Opens coin nats (attempt M json from_int fee etcd connect publish i coin nats)
        (λ e' nats'. looped n (suc i) e' coin nats')
        (λ e'. connect_loop-Opens n (suc i) e' coin nats) (attempt-Attempted i coin nats) h

  first_loop-Opens :
      (n i : ℕ) (coin : Text) (nats : Dict Text Js)
      → Opens coin nats (looped (suc n) i none coin nats)
  unfolding connect_loop
  first_loop-Opens n i coin nats h =
      attempted-Opens coin nats (attempt M json from_int fee etcd connect publish i coin nats)
        (λ e' nats'. looped n (suc i) e' coin nats')
        (λ e'. connect_loop-Opens n (suc i) e' coin nats) (attempt-Attempted i coin nats) h

  then_usdt-Has :
      (r : Dict Text Js × Option Error)
      → Opens (codes "BTC") [] r
      → (then_usdt M json from_int fee etcd connect publish r).1 ≡ none
      → let nats = (then_usdt M json from_int fee etcd connect publish r).0 in
        Has (codes "BTC") nats × Has (codes "USDT") nats
  then_usdt-Has (nats, some e) h n = no_error n
  then_usdt-Has (nats, none) h n =
      let k = first_loop-Opens 99 100 (codes "USDT") nats n in (k.1 (codes "BTC") (h refl).0, k.0)

  connect_banks-Has :
      (nats : Dict Text Js)
      → connect_banks M json from_int fee etcd connect publish ≡ (nats, none)
      → Has (codes "BTC") nats × Has (codes "USDT") nats
  unfolding connect_banks
  connect_banks-Has nats h =
      subst (λ (r : Dict Text Js × Option Error). Has (codes "BTC") r.0 × Has (codes "USDT") r.0) h
        (then_usdt-Has (looped 100 0 none (codes "BTC") []) (first_loop-Opens 99 0 (codes "BTC") [])
          (ap (λ (r : Dict Text Js × Option Error). r.1) h))

  -- An order is sent at the time `t`.
  abbrev pub send_at :
      ℕ → OrderReq M → Dict Text Js → Dict Text Js × Option (Text × Text) × Option Error
  send_at t o nats =
      send_order_req M json (etcd t) (connect t) publish (dispatch_bank o.symbol o.side) o nats

  -- With a connection for its coin, an order is published over it.
  send_order_req-known :
      (t : ℕ) (coin : Text) (o : OrderReq M) (nats : Dict Text Js) (js : Js) (s : Text)
      → lookup coin nats ≡ some js
      → json.marshal o ≡ some s
      → send_order_req M json (etcd t) (connect t) publish coin o nats
        ≡ (nats, some (order_subject coin, s), publish js (order_subject coin) s)
  unfolding send_order_req get_nats
  send_order_req-known t coin o nats js s h e =
      ap
        (λ x.
          on_stream M json (etcd t) (connect t) publish coin o
            (known M json (etcd t) (connect t) publish coin nats x))
        h
      ∙ ap (marshalled M json (etcd t) (connect t) publish coin nats js) e

  -- Once `startIngress` has connected to its two banks without an error, every random order of either
  -- side that can be encoded is published, at any time: exactly its JSON, on the subject of the
  -- bank of BTC for an ask and of USDT for a bid, over the connection that this bank has, the error
  -- being what the publishing answers; and the map of the connections, which the senders share
  -- without a lock, stays as it was.
  pub connect_banks-send_order_req :
      (nats : Dict Text Js) (t i : ℕ) (d : Draw) (s : Text)
      → connect_banks M json from_int fee etcd connect publish ≡ (nats, none)
      → d.side < 2
      → json.marshal (random_order M json from_int fee etcd connect publish i d) ≡ some s
      → (js : Js) × (lookup (bank_by d.side) nats ≡ some js)
        × (send_at t (random_order M json from_int fee etcd connect publish i d) nats
            ≡ (nats, some (subject_by d.side, s), publish js (subject_by d.side) s))
  unfolding random_order
  connect_banks-send_order_req nats t i d s h lt e =
      let o = random_order M json from_int fee etcd connect publish i d in
      let (btc, usdt) = connect_banks-Has nats h in
      let (coin, subject) = bank_by-dispatch_bank d.side lt in
      let (js, k) = by_side d.side nats btc usdt in
      (
        js,
        k,
        ap (λ c. send_order_req M json (etcd t) (connect t) publish c o nats) coin
            ∙ send_order_req-known t (bank_by d.side) o nats js s k e
            ∙ ap (λ x. (nats, some (x, s), publish js x s)) subject,
      )
