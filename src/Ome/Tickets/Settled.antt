-- ===== src/Ome/Tickets/Settled.antt =====
-- A ticket whose ID is the next: its order is made, logged, and put into its book.
use ccoms.Prelude.{
  subst, suc, ℤ, ◌≤ℤ◌, ◌<ℤ◌, int64_max, inc64, inc64_lem, int_laws, to_int8, ◌==ℤ◌, ◌≡◌, refl, sym,
  inr, inl, Option, none, some, List, [], ◌∷◌, All, Bool-cases, Option-cases, if◌then◌else◌,
  parts_of_eq,
}
use ccoms.Errors.{Error, bad_decimal, invalid_order_side}
use ccoms.Filedb.{write_line}
use ccoms.Ome.Structs.{Order, NewOrder}
use ccoms.Ome.Worker.{Ticket, Libs, Worker, side_ask, side_bid}
use ccoms.Ome.Match.{log_line}
use ccoms.Ome.Match.Runs.{asks_of, bids_of}
use ccoms.Ome.Tickets.{
  accepted, rolled_back, parsed, to_order, new_ask, new_bid, place, record_and_place, order_of,
  order_log,
}
use ccoms.Ome.Tickets.Engine.{IsEngine, Accepts, IsNewest, new_ask-Accepts, new_bid-Accepts}

module _ (L : Libs) where
  -- The engine after a ticket `id` that was taken from the bank of `side`.
  pub record Advanced (side id : ℤ) (w w' : Worker L) : Type 0 where
    pub engine : IsEngine L w'
    pub order_id_eq : w'.order_id ≡ w.order_id
    pub ask_ticket_eq :
        w'.latest_ask_ticket_id ≡ (if side ==ℤ side_ask then id else w.latest_ask_ticket_id)
    pub bid_ticket_eq :
        w'.latest_bid_ticket_id ≡ (if side ==ℤ side_ask then w.latest_bid_ticket_id else id)

  -- A call that returns, and that has advanced the engine unless it reports an error.
  pub record Settled (side id : ℤ) (w : Worker L) (r : Option (Worker L × Option Error))
      : Type 0 where
    pub worker : Worker L
    pub error : Option Error
    pub returns : r ≡ some (worker, error)
    pub advanced : error ≡ none → Advanced side id w worker

  IsEngine-ask_ticket :
      (w : Worker L) (id : ℤ) → IsEngine L w → IsEngine L (record w { latest_ask_ticket_id = id })
  IsEngine-ask_ticket w id h = record {
    book = record { asks_sorted = h.book.asks_sorted; bids_sorted = h.book.bids_sorted };
    ids = h.ids;
    uncrossed = h.uncrossed;
  }

  IsEngine-bid_ticket :
      (w : Worker L) (id : ℤ) → IsEngine L w → IsEngine L (record w { latest_bid_ticket_id = id })
  IsEngine-bid_ticket w id h = record {
    book = record { asks_sorted = h.book.asks_sorted; bids_sorted = h.book.bids_sorted };
    ids = h.ids;
    uncrossed = h.uncrossed;
  }

  accepted-Settled :
      (side id : ℤ) (w : Worker L) (r : Option (Worker L × Option Error))
      → Accepts L w r
      → Settled side id w (accepted L side id r)
  accepted-Settled side id w r a = elim (Option-cases a.error) [
    | inr (x, e) ↦ record {
      worker = (rolled_back L a.worker (some x)).0;
      error = some x;
      returns = rw (a.returns, e) refl;
      advanced = λ q. cc;
    }
    | inl e ↦ elim (Bool-cases (side ==ℤ side_ask)) [
      | inl k ↦ record {
        worker = record a.worker { latest_ask_ticket_id = id };
        error = none;
        returns = rw (a.returns, e, k) refl;
        advanced = λ _. record {
          engine = IsEngine-ask_ticket a.worker id (a.keeps e);
          order_id_eq = a.same.order_id_eq;
          ask_ticket_eq = rw k refl;
          bid_ticket_eq = rw k a.same.bid_ticket_eq;
        };
      }
      | inr k ↦ record {
        worker = record a.worker { latest_bid_ticket_id = id };
        error = none;
        returns = rw (a.returns, e, k) refl;
        advanced = λ _. record {
          engine = IsEngine-bid_ticket a.worker id (a.keeps e);
          order_id_eq = a.same.order_id_eq;
          ask_ticket_eq = rw k a.same.ask_ticket_eq;
          bid_ticket_eq = rw k refl;
        };
      }
    ]
  ]

  place-Settled :
      (o : NewOrder) (w : Worker L)
      → IsNewest L (to_order o) w
      → Settled o.side o.ticket_id w (place L o w)
  unfolding place
  place-Settled o w n = elim (Bool-cases (o.side ==ℤ side_ask)) [
    | inl k ↦
        subst
          (λ b.
            Settled o.side o.ticket_id w
              (if b then ask else if o.side ==ℤ side_bid then bid else other))
          (sym k) (accepted-Settled o.side o.ticket_id w (new_ask L o w) (new_ask-Accepts L o w n))
    | inr k ↦ elim (Bool-cases (o.side ==ℤ side_bid)) [
      | inl j ↦
          subst
            (λ b.
              Settled o.side o.ticket_id w
                (if b then ask else if o.side ==ℤ side_bid then bid else other))
            (sym k)
            (subst (λ b. Settled o.side o.ticket_id w (if b then bid else other)) (sym j)
              (accepted-Settled o.side o.ticket_id w (new_bid L o w) (new_bid-Accepts L o w n)))
      | inr j ↦ record {
        worker = (rolled_back L w (some invalid_order_side)).0;
        error = some invalid_order_side;
        returns = rw (k, j) refl;
        advanced = λ q. cc;
      }
    ]
  ]
    where
      ask : Option (Worker L × Option Error)
      ask = accepted L o.side o.ticket_id (new_ask L o w)

      bid : Option (Worker L × Option Error)
      bid = accepted L o.side o.ticket_id (new_bid L o w)

      other : Option (Worker L × Option Error)
      other = some (rolled_back L w (some invalid_order_side))

  -- The state in which a request is placed: its log has been written.
  abbrev logged : NewOrder → Worker L → Worker L
  logged o w = record w {
    fdb = (write_line (log_line L (order_log L o w)) w.fdb).0;
    clock = record w.clock { calls = suc (suc w.clock.calls) };
  }

  record_and_place-Settled :
      (o : NewOrder) (w : Worker L)
      → IsNewest L (to_order o) w
      → Settled o.side o.ticket_id w (record_and_place L o w)
  unfolding record_and_place to_order
  record_and_place-Settled o w n =
      elim (Option-cases (write_line (log_line L (order_log L o w)) w.fdb).1) [
        | inr (x, e) ↦ record {
          worker = (rolled_back L (logged o w) (some x)).0;
          error = some x;
          returns = rw (e, record_and_place) refl;
          advanced = λ q. cc;
        }
        | inl e ↦
            let newest : IsNewest L (to_order o) (logged o w) = record {
              book = record { asks_sorted = n.book.asks_sorted; bids_sorted = n.book.bids_sorted };
              asks_older = n.asks_older;
              bids_older = n.bids_older;
              ids = n.ids;
              is_id = n.is_id;
            } in
            let p = place-Settled o (logged o w) newest in
            record {
              worker = p.worker;
              error = p.error;
              returns = rw (e, record_and_place) p.returns;
              advanced = λ q.
                  let a = p.advanced q in
                  record {
                    engine = a.engine;
                    order_id_eq = a.order_id_eq;
                    ask_ticket_eq = a.ask_ticket_eq;
                    bid_ticket_eq = a.bid_ticket_eq;
                  };
            }
      ]

  older_after_inc :
      (k : ℤ) (l : List Order)
      → k <ℤ int64_max
      → All (λ o. o.id ≤ℤ k) l
      → All (λ o. o.id <ℤ inc64 k) l
  older_after_inc k [] h a = tt
  older_after_inc k (o ∷ l) h a =
      (omega (int_laws, parts_of_eq (inc64_lem k h), a.0), older_after_inc k l h a.1)

  le_after_inc :
      (k : ℤ) (l : List Order)
      → k <ℤ int64_max
      → All (λ o. o.id ≤ℤ k) l
      → All (λ o. o.id ≤ℤ inc64 k) l
  le_after_inc k [] h a = tt
  le_after_inc k (o ∷ l) h a =
      (omega (int_laws, parts_of_eq (inc64_lem k h), a.0), le_after_inc k l h a.1)

  -- The state in which the order of a ticket is made.
  abbrev pub counted : Worker L → Worker L
  counted w = record w { order_id = inc64 w.order_id; log_id = inc64 w.log_id }

  counted-IsNewest :
      (t : Ticket) (p q : L.decimal.D) (w : Worker L)
      → IsEngine L w
      → w.order_id <ℤ int64_max
      → IsNewest L (to_order (order_of L t p q (counted w))) (counted w)
  unfolding to_order order_of
  counted-IsNewest t p q w h room = record {
    book = record { asks_sorted = h.book.asks_sorted; bids_sorted = h.book.bids_sorted };
    asks_older = older_after_inc w.order_id (asks_of L w) room h.ids.0;
    bids_older = older_after_inc w.order_id (bids_of L w) room h.ids.1;
    ids = (
      le_after_inc w.order_id (asks_of L w) room h.ids.0,
      le_after_inc w.order_id (bids_of L w) room h.ids.1,
    );
    is_id = refl;
  }

  pub parsed-Settled :
      (t : Ticket) (p q : Option L.decimal.D) (w : Worker L)
      → IsEngine L w
      → w.order_id <ℤ int64_max
      → Settled (to_int8 t.side) t.id (counted w) (parsed L t p q w)
  unfolding order_of
  parsed-Settled t none q w h room = record {
    worker = w;
    error = some bad_decimal;
    returns = refl;
    advanced = λ e. cc;
  }
  parsed-Settled t (some p) none w h room = record {
    worker = w;
    error = some bad_decimal;
    returns = refl;
    advanced = λ e. cc;
  }
  parsed-Settled t (some p) (some q) w h room =
      record_and_place-Settled (order_of L t p q (counted w)) (counted w)
        (counted-IsNewest t p q w h room)
