-- ===== src/Bank/Orders/Outcome.antt =====
-- `CreateOrder` on every branch: what becomes of the worker, and which error is returned.
use ccoms.Prelude.{
  ℤ, ◌==ℤ◌, ==ℤ_iff, ◌≡◌, ◌≢◌, refl, sym, ap, subst, ◌∙◌, Bool-cases, inl, inr, if_true, if_false,
  Option, none, some, [], ◌∷◌, ◌++◌, arith,
}
use ccoms.Errors.{Error, only_for_coin, invalid_symbol, invalid_order_side}
use ccoms.Text.{Text, text_eq, text_eq_iff, text_eq→eq, split}
use ccoms.Dict.{int_eq, str_eq}
use ccoms.Bank.Worker.{Libs, Worker, checkout_asset, write_log}
use ccoms.Bank.Assets.{
  Same, IsCounted, Logged, write_log-Same, write_log-Logged, checkout-change, add-moved, sum,
}
use ccoms.Bank.Orders.{
  Req, Terms, terms, two_parts, order_total, order_bank_log, freeze_by, reserve, unreserve,
  finished, book_order, for_coin, for_symbol, create_order,
}
use ccoms.Bank.Orders.Booking.{
  Booked, unreserve-Same, reserve-assets, reserve-ticket_ids, reserve-log_id, reserve-reason_ids,
  reserve-content,
}

module _ (L : Libs) where
  open L.decimal use {D}

  -- What `CreateOrder` makes of an order, case by case.
  pub data Ordered (msg_seq : ℤ) (o : Req L) (w : Worker L) : Worker L × Option Error → Type 0 where
    bad_symbol :
        two_parts (split b'_' o.symbol) ≡ none → Ordered msg_seq o w (w, some invalid_symbol)
    bad_side :
        (p : Text × Text)
        → two_parts (split b'_' o.symbol) ≡ some p
        → terms L o p ≡ none
        → Ordered msg_seq o w (w, some invalid_order_side)
    other_coin :
        (p : Text × Text) (t : Terms L)
        → two_parts (split b'_' o.symbol) ≡ some p
        → terms L o p ≡ some t
        → t.coin ≢ w.coin
        → Ordered msg_seq o w (w, some only_for_coin)
    unwritten :
        (p : Text × Text) (t : Terms L) (w' : Worker L) (e : Error)
        → two_parts (split b'_' o.symbol) ≡ some p
        → terms L o p ≡ some t
        → t.coin ≡ w.coin
        → Same L w w'
        → Ordered msg_seq o w (w', some e)
    booked :
        (p : Text × Text) (t : Terms L) (w' : Worker L)
        → two_parts (split b'_' o.symbol) ≡ some p
        → terms L o p ≡ some t
        → Booked L msg_seq o t w w'
        → Ordered msg_seq o w (w', none)

  finished-Ordered :
      (msg_seq : ℤ) (o : Req L) (p : Text × Text) (t : Terms L) (w : Worker L)
      (r : Worker L × Option Error)
      → IsCounted L w
      → two_parts (split b'_' o.symbol) ≡ some p
      → terms L o p ≡ some t
      → t.coin ≡ w.coin
      → Same L (reserve L o (order_total L o t.value) w) r.0
      → (r.1 ≡ none
          → Logged L
              (order_bank_log L msg_seq o t
                (order_total L o t.value)
                (reserve L o (order_total L o t.value) w))
              (reserve L o (order_total L o t.value) w)
              r.0)
      → Ordered msg_seq o w (finished L msg_seq o (order_total L o t.value) r)
  unfolding checkout_asset
  finished-Ordered msg_seq o p t w (w', some e) c hp ht hc same log =
      unwritten p t (unreserve L o (order_total L o t.value) w') e hp ht hc
        (unreserve-Same L o (order_total L o t.value) w w' c same)
  finished-Ordered msg_seq o p t w (w', none) c hp ht hc same log =
      let total = order_total L o t.value in
      booked p t (record w' { latest_msg_seq = msg_seq }) hp ht
        (record {
          coin_eq = hc;
          asset_eq = λ q.
              same.asset_eq q
              ∙ reserve-assets L q o total w
              ∙ checkout-change L q o.owner (freeze_by L total) w;
          ticket_id_eq = λ s. same.ticket_id_eq s ∙ reserve-ticket_ids L s o total w;
          log_id_eq = same.log_id_eq ∙ reserve-log_id L o total w;
          msg_seq_eq = refl;
          reason_id_eq = same.reason_id_eq ∙ reserve-reason_ids L o total w;
          logged =
              let k = log refl in
              record {
                text = k.text;
                marshalled = k.marshalled;
                content_eq =
                    k.content_eq ∙ ap (λ x. x ++ (k.text ++ 10 ∷ [])) (reserve-content L o total w);
              };
        })

  book_order-Ordered :
      (msg_seq : ℤ) (o : Req L) (p : Text × Text) (t : Terms L) (w : Worker L)
      → IsCounted L w
      → two_parts (split b'_' o.symbol) ≡ some p
      → terms L o p ≡ some t
      → t.coin ≡ w.coin
      → Ordered msg_seq o w (book_order L msg_seq o t w)
  unfolding book_order
  book_order-Ordered msg_seq o p t w c hp ht hc =
      let w1 = reserve L o (order_total L o t.value) w in
      let l = order_bank_log L msg_seq o t (order_total L o t.value) w1 in
      finished-Ordered msg_seq o p t w (write_log L l w1) c hp ht hc (write_log-Same L l w1)
        (write_log-Logged L l w1)

  for_coin-Ordered :
      (msg_seq : ℤ) (o : Req L) (p : Text × Text) (m : Option (Terms L)) (w : Worker L)
      → IsCounted L w
      → two_parts (split b'_' o.symbol) ≡ some p
      → terms L o p ≡ m
      → Ordered msg_seq o w (for_coin L msg_seq o m w)
  for_coin-Ordered msg_seq o p none w c hp ht = bad_side p hp ht
  for_coin-Ordered msg_seq o p (some t) w c hp ht = elim (Bool-cases (text_eq t.coin w.coin)) [
    | inl k ↦
        subst (Ordered msg_seq o w) (sym (if_true _ _ k))
          (book_order-Ordered msg_seq o p t w c hp ht (text_eq→eq t.coin w.coin k))
    | inr k ↦
        subst (Ordered msg_seq o w) (sym (if_false _ _ k))
          (other_coin p t hp ht λ e. ground (arith, (text_eq_iff t.coin w.coin).1 e))
  ]

  for_symbol-Ordered :
      (msg_seq : ℤ) (o : Req L) (m : Option (Text × Text)) (w : Worker L)
      → IsCounted L w
      → two_parts (split b'_' o.symbol) ≡ m
      → Ordered msg_seq o w (for_symbol L msg_seq o m w)
  for_symbol-Ordered msg_seq o none w c hp = bad_symbol hp
  for_symbol-Ordered msg_seq o (some p) w c hp =
      for_coin-Ordered msg_seq o p (terms L o p) w c hp refl

  -- From a bank whose counters are in the range of `int64`, `CreateOrder` refuses a symbol that has
  -- not two parts, an unknown side and an order for another coin without any change; else it either
  -- returns the error of the log with every balance and counter as before, or it has moved the
  -- total from the free to the frozen part of the owner's asset, advanced the log ID and the ticket
  -- ID of the symbol by one, taken the message's sequence number, and appended the log's line.
  pub create_order_lem :
      (msg_seq : ℤ) (o : Req L) (w : Worker L)
      → IsCounted L w
      → Ordered msg_seq o w (create_order L msg_seq o w)
  unfolding create_order
  create_order_lem msg_seq o w c =
      for_symbol-Ordered msg_seq o (two_parts (split b'_' o.symbol)) w c refl

  pub create_order_other_coin :
      (msg_seq : ℤ) (o : Req L) (p : Text × Text) (t : Terms L) (w : Worker L)
      → two_parts (split b'_' o.symbol) ≡ some p
      → terms L o p ≡ some t
      → t.coin ≢ w.coin
      → create_order L msg_seq o w ≡ (w, some only_for_coin)
  unfolding create_order
  create_order_other_coin msg_seq o p t w hp ht ne = elim (Bool-cases (text_eq t.coin w.coin)) [
    | inl k ↦ absurd (ne (text_eq→eq t.coin w.coin k))
    | inr k ↦ rw hp (rw ht (if_false _ _ k))
  ]

  Ordered-conserves :
      (msg_seq : ℤ) (o : Req L) (w : Worker L) (r : Worker L × Option Error) (p : ℤ)
      → Ordered msg_seq o w r
      → sum L (checkout_asset L p r.0) ≡ sum L (checkout_asset L p w)
  Ordered-conserves msg_seq o w r p (bad_symbol hp) = refl
  Ordered-conserves msg_seq o w r p (bad_side q hp ht) = refl
  Ordered-conserves msg_seq o w r p (other_coin q t hp ht ne) = refl
  Ordered-conserves msg_seq o w r p (unwritten q t w' e hp ht hc same) =
      ap (sum L) (same.asset_eq p)
  Ordered-conserves msg_seq o w r p (booked q t w' hp ht b) = elim (Bool-cases (p ==ℤ o.owner)) [
    | inl k ↦
        ap (sum L) (b.asset_eq p ∙ if_true _ _ k)
        ∙ add-moved L.decimal (checkout_asset L o.owner w).free (checkout_asset L o.owner w).freeze
            (order_total L o t.value)
        ∙ ap (λ a. sum L (checkout_asset L a w)) (sym ((==ℤ_iff p o.owner).0 k))
    | inr k ↦ ap (sum L) (b.asset_eq p ∙ if_false _ _ k)
  ]

  -- Whether `CreateOrder` accepts an order or not, the sum of what is free and what is frozen stays
  -- the same for every user.
  pub create_order-conserves :
      (msg_seq : ℤ) (o : Req L) (w : Worker L) (p : ℤ)
      → IsCounted L w
      → sum L (checkout_asset L p (create_order L msg_seq o w).0) ≡ sum L (checkout_asset L p w)
  create_order-conserves msg_seq o w p c =
      Ordered-conserves msg_seq o w (create_order L msg_seq o w) p (create_order_lem msg_seq o w c)
