-- ===== src/Ingress/Requests.antt =====
-- What the ingress publishes (pkg/ingress/nats.go), as a message at the bank (pkg/bank/bank.go).
use ccoms.Prelude.{
  ℤ, ◌≡◌, ◌≢◌, refl, sym, ap, ◌∙◌, Option, none, some, List, [], ◌++◌, arith, if_true,
}
use ccoms.Text.{Text, codes, split, to_upper, to_upper_idem, text_eq, text_eq_refl}
use ccoms.Errors.{Error, Result, ok, err}
use ccoms.Dict.{Dict}
use ccoms.Bank.Worker.{Libs, Worker}
use ccoms.Bank.Orders.{Req, Terms, terms, two_parts}
use ccoms.Bank.Messages.{Msg, handle_order_req, nats_part, decoded, sequenced}
use ccoms.Ingress.{dispatch_bank, order_subject, get_nats, marshalled, on_stream, send_order_req}
use ccoms.Ingress.Dispatch.{dispatch_bank-terms, coin_in, terms_of}

none≢some : {A : Type 0} {a : A} → none ≢ some a
none≢some h = ground arith

abbrev sent : Option (Text × Text) → Text × Text
sent none = ([], [])
sent (some m) = m

module _ (L : Libs) {Js : Type 0} (etcd : Text → Result (List Text)) (connect : Text → Result Js)
    (publish : Js → Text → Text → Option Error) where
  -- What was published.
  record Published (coin : Text) (o : Req L) (subject payload : Text) : Type 0 where
    subject_eq : subject ≡ order_subject coin
    marshals : L.order_json.marshal o ≡ some payload

  marshalled-Published :
      (coin : Text) (o : Req L) (nats : Dict Text Js) (js : Js) (m : Option Text)
      (subject payload : Text)
      → L.order_json.marshal o ≡ m
      → (marshalled L.decimal L.order_json etcd connect publish coin nats js m).1
        ≡ some (subject, payload)
      → Published coin o subject payload
  marshalled-Published coin o nats js none subject payload e h = absurd (none≢some h)
  marshalled-Published coin o nats js (some s) subject payload e h = record {
    subject_eq = sym (ap (λ m. (sent m).0) h);
    marshals = e ∙ ap (λ m. some (sent m).1) h;
  }

  on_stream-Published :
      (coin : Text) (o : Req L) (r : Dict Text Js × Result Js) (subject payload : Text)
      → (on_stream L.decimal L.order_json etcd connect publish coin o r).1 ≡ some (subject, payload)
      → Published coin o subject payload
  on_stream-Published coin o (nats, err e) subject payload h = absurd (none≢some h)
  on_stream-Published coin o (nats, ok js) subject payload h =
      marshalled-Published coin o nats js (L.order_json.marshal o) subject payload refl h

  send_order_req-Published :
      (coin : Text) (o : Req L) (nats : Dict Text Js) (subject payload : Text)
      → (send_order_req L.decimal L.order_json etcd connect publish coin o nats).1
        ≡ some (subject, payload)
      → Published coin o subject payload
  unfolding send_order_req
  send_order_req-Published coin o nats subject payload h =
      on_stream-Published coin o (get_nats L.decimal L.order_json etcd connect publish coin nats)
        subject payload h

  -- What is published for an order that has terms, at the bank whose coin is that of the terms in
  -- upper case, is handled there as that order with its sequence number.
  pub send_order_req-sequenced :
      (o : Req L) (p : Text × Text) (t : Terms L) (nats : Dict Text Js) (subject payload : Text)
      (seq : ℤ) (w : Worker L)
      → two_parts (split b'_' o.symbol) ≡ some p
      → terms L o p ≡ some t
      → w.coin ≡ to_upper t.coin
      → (send_order_req L.decimal L.order_json etcd connect publish
          (dispatch_bank o.symbol o.side)
          o
          nats).1
        ≡ some (subject, payload)
      → nats_part L
          (some (record { subject = subject; payload = payload; stream_seq = some seq }))
          w
        ≡ sequenced L o (some seq) w
  unfolding handle_order_req order_subject
  send_order_req-sequenced o p t nats subject payload seq w hp ht hc h =
      let k = send_order_req-Published (dispatch_bank o.symbol o.side) o nats subject payload h in
      let coin : to_upper (dispatch_bank o.symbol o.side) ≡ w.coin =
        ap to_upper
          (dispatch_bank-terms L o ∙ ap (λ m. coin_in L (terms_of L o m)) hp ∙ ap (coin_in L) ht)
        ∙ to_upper_idem t.coin
        ∙ sym hc in
      let listens : subject ≡ (codes "BANK." ++ w.coin) ++ codes ".OrderReq" =
        k.subject_eq ∙ ap (λ c. (codes "BANK." ++ c) ++ codes ".OrderReq") coin in
      let m : Msg = record { subject = subject; payload = payload; stream_seq = some seq } in
      if_true _ _ (
        ap (λ s. text_eq s ((codes "BANK." ++ w.coin) ++ codes ".OrderReq")) listens
        ∙ text_eq_refl ((codes "BANK." ++ w.coin) ++ codes ".OrderReq"))
      ∙ ap (λ x. decoded L x m w) (L.order_json.unmarshal-marshal o payload k.marshals)
