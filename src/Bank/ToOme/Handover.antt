-- ===== src/Bank/ToOme/Handover.antt =====
-- The ticket of an order, as the engine gets it.
use ccoms.Prelude.{ℤ, pos, ◌<ℤ◌, lt→leb_ℤ, ◌≡◌, refl, ap, ◌∙◌, if_false, some, [], ◌∷◌}
use ccoms.Errors.{ok}
use ccoms.Text.{Text}
use ccoms.Dict.{str_eq, get_or}
use ccoms.Ome.Worker.{Ticket}
use ccoms.Bank.Worker.{Libs, Worker}
use ccoms.Bank.Orders.{Req, Terms, ticket_log, order_bank_log}
use ccoms.Bank.ToOme.{ticket_message, tickets_after, sent_after, push_tickets}

module _ (L : Libs) where
  -- A ticket that says what the order `o` says, under the ID `id`.
  pub record Hands (o : Req L) (id : ℤ) (k : Ticket) : Type 0 where
    pub id_eq : k.id ≡ id
    pub owner_eq : k.owner ≡ o.owner
    pub side_eq : k.side ≡ o.side
    pub type_eq : k.ticket_type ≡ o.order_type
    pub price_eq : L.decimal.new_from_string k.price ≡ some o.price
    pub quantity_eq : L.decimal.new_from_string k.quantity ≡ some o.quantity

  ticket-Hands :
      (o : Req L) (w : Worker L)
      → Hands o (get_or o.symbol (pos 0) w.ticket_ids) (ticket_message (ticket_log L o w))
  unfolding ticket_message ticket_log
  ticket-Hands o w = record {
    id_eq = refl;
    owner_eq = refl;
    side_eq = refl;
    type_eq = refl;
    price_eq = L.decimal.from-to_string o.price;
    quantity_eq = L.decimal.from-to_string o.quantity;
  }

  one_ticket :
      (id : ℤ) (msg_seq : ℤ) (o : Req L) (t : Terms L) (total : L.decimal.D) (w : Worker L)
      → id <ℤ get_or o.symbol (pos 0) w.ticket_ids
      → tickets_after id (order_bank_log L msg_seq o t total w).ticket_logs
        ≡ ticket_message (ticket_log L o w) ∷ []
  unfolding tickets_after order_bank_log ticket_log
  one_ticket id msg_seq o t total w new =
      if_false _ _ (lt→leb_ℤ id (get_or o.symbol (pos 0) w.ticket_ids) new)

  -- The line that `CreateOrder` logs for an order is pushed, to an engine that has only lower IDs,
  -- as exactly one ticket, which has the order's ID, owner, side and type, and whose price and
  -- quantity are read back as the order's.
  pub push_tickets-Hands :
      (id : ℤ) (msg_seq : ℤ) (o : Req L) (t : Terms L) (total : L.decimal.D) (w : Worker L)
      (s : Text)
      → L.json.marshal (order_bank_log L msg_seq o t total w) ≡ some s
      → id <ℤ get_or o.symbol (pos 0) w.ticket_ids
      → (k : Ticket) × (push_tickets L id s ≡ ok (k ∷ []))
        × Hands o (get_or o.symbol (pos 0) w.ticket_ids) k
  unfolding push_tickets
  push_tickets-Hands id msg_seq o t total w s hm new = (
    ticket_message (ticket_log L o w),
    ap (sent_after L id) (L.json.unmarshal-marshal (order_bank_log L msg_seq o t total w) s hm)
        ∙ ap ok (one_ticket id msg_seq o t total w new),
    ticket-Hands o w,
  )
