-- ===== src/Bank/Orders/Booking.antt =====
-- `CreateOrder` on every branch.
use ccoms.Prelude.{
  ℤ, pos, ◌==ℤ◌, inc64, dec64, dec64-inc64, ◌≡◌, refl, sym, ap, ap₂, ◌∙◌, Bool-cases, inl, inr,
  if_true, if_false, if◌then◌else◌,
}
use ccoms.Text.{Text, text_eq, text_eq_refl, text_eq→eq}
use ccoms.Dict.{int_eq, str_eq, get_or, get_or-insert}
use ccoms.Bank.Worker.{Libs, Worker, Asset, checkout_asset, change_asset}
use ccoms.Bank.Assets.{sub-add_back, add-sub_back, undone_change, Same, IsCounted, Logged}
use ccoms.Bank.Orders.{
  Req, Terms, order_total, order_bank_log, freeze_by, unfreeze_by, reserve, unreserve,
}

module _ (L : Libs) where
  open L.decimal use {D, add}

  -- The state after an order that was accepted: its total is frozen, and its log is written.
  pub record Booked (msg_seq : ℤ) (o : Req L) (t : Terms L) (w w' : Worker L) : Type 0 where
    pub coin_eq : t.coin ≡ w.coin
    pub asset_eq :
        (p : ℤ)
        → checkout_asset L p w' ≡ (
            if p ==ℤ o.owner
            then freeze_by L (order_total L o t.value) (checkout_asset L o.owner w)
            else checkout_asset L p w)
    pub ticket_id_eq :
        (s : Text)
        → get_or s (pos 0) w'.ticket_ids ≡ (
            if text_eq s o.symbol
            then inc64 (get_or o.symbol (pos 0) w.ticket_ids)
            else get_or s (pos 0) w.ticket_ids)
    pub log_id_eq : w'.log_id ≡ inc64 w.log_id
    pub msg_seq_eq : w'.latest_msg_seq ≡ msg_seq
    pub reason_id_eq : w'.ome_reason_ids ≡ w.ome_reason_ids
    pub logged :
        Logged L
          (order_bank_log L msg_seq o t
            (order_total L o t.value)
            (reserve L o (order_total L o t.value) w))
          w
          w'

  pub reserve-ticket_ids :
      (s : Text) (o : Req L) (total : D) (w : Worker L)
      → get_or s (pos 0) (reserve L o total w).ticket_ids ≡ (
          if text_eq s o.symbol
          then inc64 (get_or o.symbol (pos 0) w.ticket_ids)
          else get_or s (pos 0) w.ticket_ids)
  unfolding reserve change_asset
  reserve-ticket_ids s o total w =
      get_or-insert s o.symbol (pos 0) (inc64 (get_or o.symbol (pos 0) w.ticket_ids)) w.ticket_ids

  pub reserve-assets :
      (p : ℤ) (o : Req L) (total : D) (w : Worker L)
      → checkout_asset L p (reserve L o total w)
        ≡ checkout_asset L p (change_asset L o.owner (freeze_by L total) w)
  unfolding reserve checkout_asset change_asset
  reserve-assets p o total w = refl

  pub reserve-log_id :
      (o : Req L) (total : D) (w : Worker L) → (reserve L o total w).log_id ≡ inc64 w.log_id
  unfolding reserve change_asset
  reserve-log_id o total w = refl

  pub reserve-reason_ids :
      (o : Req L) (total : D) (w : Worker L)
      → (reserve L o total w).ome_reason_ids ≡ w.ome_reason_ids
  unfolding reserve change_asset
  reserve-reason_ids o total w = refl

  pub reserve-content :
      (o : Req L) (total : D) (w : Worker L) → (reserve L o total w).fdb.content ≡ w.fdb.content
  unfolding reserve change_asset
  reserve-content o total w = refl

  pub reserve-msg_seq :
      (o : Req L) (total : D) (w : Worker L)
      → (reserve L o total w).latest_msg_seq ≡ w.latest_msg_seq
  unfolding reserve change_asset
  reserve-msg_seq o total w = refl

  unfreeze-freeze : (total : D) (a : Asset L) → unfreeze_by L total (freeze_by L total a) ≡ a
  unfreeze-freeze total a =
      ap₂ (λ x y. record { free = x; freeze = y }) (add-sub_back L.decimal a.free total)
        (sub-add_back L.decimal a.freeze total)

  pub unreserve-assets :
      (p : ℤ) (o : Req L) (total : D) (w : Worker L)
      → checkout_asset L p (unreserve L o total w)
        ≡ checkout_asset L p (change_asset L o.owner (unfreeze_by L total) w)
  unfolding unreserve checkout_asset change_asset
  unreserve-assets p o total w = refl

  pub unreserve-ticket_ids :
      (s : Text) (o : Req L) (total : D) (w : Worker L)
      → get_or s (pos 0) (unreserve L o total w).ticket_ids ≡ (
          if text_eq s o.symbol
          then dec64 (get_or o.symbol (pos 0) w.ticket_ids)
          else get_or s (pos 0) w.ticket_ids)
  unfolding unreserve change_asset
  unreserve-ticket_ids s o total w =
      get_or-insert s o.symbol (pos 0) (dec64 (get_or o.symbol (pos 0) w.ticket_ids)) w.ticket_ids

  pub unreserve-log_id :
      (o : Req L) (total : D) (w : Worker L) → (unreserve L o total w).log_id ≡ dec64 w.log_id
  unfolding unreserve change_asset
  unreserve-log_id o total w = refl

  pub unreserve-msg_seq :
      (o : Req L) (total : D) (w : Worker L)
      → (unreserve L o total w).latest_msg_seq ≡ w.latest_msg_seq
  unfolding unreserve change_asset
  unreserve-msg_seq o total w = refl

  pub unreserve-reason_ids :
      (o : Req L) (total : D) (w : Worker L)
      → (unreserve L o total w).ome_reason_ids ≡ w.ome_reason_ids
  unfolding unreserve change_asset
  unreserve-reason_ids o total w = refl

  -- Whatever the writing of the log has left, the deferred function takes the order back.
  pub unreserve-Same :
      (o : Req L) (total : D) (w w' : Worker L)
      → IsCounted L w
      → Same L (reserve L o total w) w'
      → Same L w (unreserve L o total w')
  unreserve-Same o total w w' c h = record {
    asset_eq = λ p.
        unreserve-assets p o total w'
        ∙ undone_change L o.owner p (freeze_by L total) (unfreeze_by L total) w w'
            (unfreeze-freeze total) (λ q. h.asset_eq q ∙ reserve-assets q o total w);
    ticket_id_eq = ids;
    log_id_eq =
        unreserve-log_id o total w'
        ∙ ap dec64 (h.log_id_eq ∙ reserve-log_id o total w)
        ∙ dec64-inc64 w.log_id c.log_id_range;
    msg_seq_eq = unreserve-msg_seq o total w' ∙ h.msg_seq_eq ∙ reserve-msg_seq o total w;
    reason_id_eq = unreserve-reason_ids o total w' ∙ h.reason_id_eq ∙ reserve-reason_ids o total w;
  }
    where
      ids :
          (s : Text)
          → get_or s (pos 0) (unreserve L o total w').ticket_ids ≡ get_or s (pos 0) w.ticket_ids
      ids s = elim (Bool-cases (text_eq s o.symbol)) [
        | inl k ↦
            unreserve-ticket_ids s o total w'
            ∙ if_true _ _ k
            ∙ ap dec64 (
                h.ticket_id_eq o.symbol
                ∙ reserve-ticket_ids o.symbol o total w
                ∙ if_true _ _ (text_eq_refl o.symbol))
            ∙ dec64-inc64 (get_or o.symbol (pos 0) w.ticket_ids) (c.ticket_id_range o.symbol)
            ∙ ap (λ u. get_or u (pos 0) w.ticket_ids) (sym (text_eq→eq s o.symbol k))
        | inr k ↦
            unreserve-ticket_ids s o total w'
            ∙ if_false _ _ k
            ∙ h.ticket_id_eq s
            ∙ reserve-ticket_ids s o total w
            ∙ if_false _ _ k
      ]
