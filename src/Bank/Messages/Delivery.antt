-- ===== src/Bank/Messages/Delivery.antt =====
-- Orders that NATS delivers again, and what is acknowledged.
use ccoms.Prelude.{
  ℤ, ◌≤ℤ◌, leb_ℤ, leb_ℤ→le, le→leb_ℤ, lt→leb_ℤ, ◌<ℤ◌, ◌≡◌, ◌≢◌, refl, sym, ap, subst, ◌∙◌, true,
  Bool-cases, inl, inr, if_true, if_false, Option, none, some, List, [], ◌∷◌, ◌++◌, arith,
}
use ccoms.Errors.{Error, only_for_coin}
use ccoms.Text.{Text, text_eq, codes, split}
use ccoms.Bank.Structs.{BalanceChange}
use ccoms.Bank.Worker.{Libs, Worker}
use ccoms.Bank.Assets.{IsCounted}
use ccoms.Bank.Orders.{Req, Terms, terms, two_parts, create_order}
use ccoms.Bank.Orders.Outcome.{
  create_order_other_coin, Ordered, bad_symbol, bad_side, other_coin, unwritten, booked,
  create_order_lem,
}
use ccoms.Bank.Messages.{
  Msg, BankMsg, Handling, acked, nats_part, then_grpc, sequenced, handle_order_req, handle_bank_msg,
  handle_bank_msgs,
}

module _ (L : Libs) where
  -- A second delivery of a message whose sequence number is not above the latest is
  -- acknowledged and otherwise ignored.
  sequenced_again :
      (o : Req L) (seq : ℤ) (w : Worker L)
      → seq ≤ℤ w.latest_msg_seq
      → sequenced L o (some seq) w ≡ (w, seq ∷ [], none)
  sequenced_again o seq w h = if_true _ _ (le→leb_ℤ seq w.latest_msg_seq h)

  Ordered-seq :
      (seq : ℤ) (o : Req L) (w : Worker L) (r : Worker L × Option Error)
      → Ordered L seq o w r
      → r.1 ≡ none
      → r.0.latest_msg_seq ≡ seq
  Ordered-seq seq o w r (bad_symbol hp) h = ground arith
  Ordered-seq seq o w r (bad_side p hp ht) h = ground arith
  Ordered-seq seq o w r (other_coin p t hp ht ne) h = ground arith
  Ordered-seq seq o w r (unwritten p t w' e hp ht hc same) h = ground arith
  Ordered-seq seq o w r (booked p t w' hp ht b) h = b.msg_seq_eq

  acked-worker : (seq : ℤ) (r : Worker L × Option Error) → (acked L seq r).0 ≡ r.0
  acked-worker seq (w, none) = refl
  acked-worker seq (w, some e) = ground arith

  acked-error : (seq : ℤ) (r : Worker L × Option Error) → (acked L seq r).2 ≡ r.1
  acked-error seq (w, none) = refl
  acked-error seq (w, some e) = ground arith

  sequenced-seq :
      (o : Req L) (seq : ℤ) (w : Worker L)
      → IsCounted L w
      → (sequenced L o (some seq) w).2 ≡ none
      → seq ≤ℤ (sequenced L o (some seq) w).0.latest_msg_seq
  sequenced-seq o seq w c h = elim (Bool-cases (leb_ℤ seq w.latest_msg_seq)) [
    | inl k ↦ rw k (leb_ℤ→le seq w.latest_msg_seq k)
    | inr k ↦
        let r = create_order L seq o w in
        let e : r.1 ≡ none =
          sym (acked-error seq r) ∙ ap (λ (x : Handling L). x.2) (sym (if_false _ _ k)) ∙ h in
        let s : (sequenced L o (some seq) w).0.latest_msg_seq ≡ seq =
          ap (λ (x : Handling L). x.0.latest_msg_seq) (if_false _ _ k)
          ∙ ap (λ (x : Worker L). x.latest_msg_seq) (acked-worker seq r)
          ∙ Ordered-seq seq o w r (create_order_lem L seq o w c) e in
        rw s (omega arith)
  ]

  handle-sequenced :
      (msg : Msg) (o : Req L) (seq : ℤ) (w : Worker L)
      → L.order_json.unmarshal msg.payload ≡ some o
      → msg.stream_seq ≡ some seq
      → handle_order_req L msg w ≡ sequenced L o (some seq) w
  unfolding handle_order_req
  handle-sequenced msg o seq w ho hs = rw (ho, hs) refl

  -- An order request that was handled without an error, in a bank whose counters are in the range of
  -- `int64`, is only acknowledged when it is delivered again: the worker stays as it is.
  pub handle_order_req-again :
      (msg : Msg) (o : Req L) (seq : ℤ) (w : Worker L)
      → IsCounted L w
      → L.order_json.unmarshal msg.payload ≡ some o
      → msg.stream_seq ≡ some seq
      → (handle_order_req L msg w).2 ≡ none
      → let w' = (handle_order_req L msg w).0 in handle_order_req L msg w' ≡ (w', seq ∷ [], none)
  handle_order_req-again msg o seq w c ho hs h =
      let first = handle-sequenced msg o seq w ho hs in
      handle-sequenced msg o seq (handle_order_req L msg w).0 ho hs
      ∙ sequenced_again o seq (handle_order_req L msg w).0 (
          subst (λ (x : Handling L). seq ≤ℤ x.0.latest_msg_seq) (sym first)
            (sequenced-seq o seq w c (ap (λ (x : Handling L). x.2) (sym first) ∙ h)))

  handle_bank_msg-error :
      (msg : Msg) (g : Option BalanceChange) (r : Handling L) (w : Worker L)
      → nats_part L (some msg) w ≡ r
      → handle_bank_msg L (record { n = some msg; g = g }) w
        ≡ then_grpc L (record { n = some msg; g = g }) r
  unfolding handle_bank_msg
  handle_bank_msg-error msg g r w h = ap (then_grpc L (record { n = some msg; g = g })) h

  -- A new order whose coin is that of another bank changes nothing and is acknowledged, but its error
  -- ends the loop: the messages after it are not handled.
  pub handle_bank_msgs_other_coin :
      (msg : Msg) (g : Option BalanceChange) (ms : List BankMsg) (o : Req L) (seq : ℤ)
      (p : Text × Text) (t : Terms L) (w : Worker L)
      → text_eq msg.subject ((codes "BANK." ++ w.coin) ++ codes ".OrderReq") ≡ true
      → L.order_json.unmarshal msg.payload ≡ some o
      → msg.stream_seq ≡ some seq
      → w.latest_msg_seq <ℤ seq
      → two_parts (split b'_' o.symbol) ≡ some p
      → terms L o p ≡ some t
      → t.coin ≢ w.coin
      → handle_bank_msgs L (record { n = some msg; g = g } ∷ ms) w
        ≡ some (w, seq ∷ [], some only_for_coin)
  unfolding handle_bank_msgs
  handle_bank_msgs_other_coin msg g ms o seq p t w hs ho hq new hp ht ne =
      let skipped : handle_order_req L msg w ≡ (w, seq ∷ [], some only_for_coin) =
        handle-sequenced msg o seq w ho hq
        ∙ if_false _ _ (lt→leb_ℤ w.latest_msg_seq seq new)
        ∙ ap (acked L seq) (create_order_other_coin L seq o p t w hp ht ne) in
      let stopped =
        handle_bank_msg-error msg g (w, seq ∷ [], some only_for_coin) w
          (if_true _ _ hs ∙ skipped) in
      rw (stopped, handle_bank_msgs) refl
