-- ===== src/Ome/Tickets/Engine.antt =====
-- The invariant of the engine between two tickets, and `TicketToMatchEngine` on every branch.
use ccoms.Prelude.{
  ℤ, ◌≤ℤ◌, ◌<ℤ◌, ◌≡◌, refl, ◌∙◌, inr, inl, false, Option, none, some, List, [], ◌∷◌, ◌++◌, arith,
  All, All-append, Bool-cases, parts_of_eq,
}
use ccoms.Errors.{Error}
use ccoms.Extern.BTree.{put}
use ccoms.Extern.BTree.Ends.{All-snoc}
use ccoms.Ome.Structs.{Order, NewOrder, ask_less, bid_less, is_zero}
use ccoms.Ome.Worker.{Libs, Worker}
use ccoms.Ome.Match.{reduce, settle, trade_quantity, match_all}
use ccoms.Ome.Match.Books.{asks_left, bids_left}
use ccoms.Ome.Match.Runs.{
  asks_of, bids_of, IsBook, Uncrossed, Crossing, Run, at_rest, broken, then_on, traded, asks-traded,
  bids-traded, traded-IsBook, match_all-Matched, Run-IsBook, Run-Uncrossed,
}
use ccoms.Ome.Tickets.{matched, to_order, new_ask, new_bid}
use ccoms.Ome.Tickets.Insert.{
  ask_less-IsByAge, bid_less-IsByAge, newer-Placed, newer_not_found, All-put, put-Sorted,
}

module _ (L : Libs) where
  -- The IDs of the orders in the books are at most `k`.
  abbrev pub IdsBelow : ℤ → Worker L → Type 0
  IdsBelow k w = All (λ o. o.id ≤ℤ k) (asks_of L w) × All (λ o. o.id ≤ℤ k) (bids_of L w)

  -- The books are in order and do not cross, and `OrderID` is at least every ID in them.
  pub record IsEngine (w : Worker L) : Type 0 where
    pub book : IsBook L w
    pub ids : IdsBelow w.order_id w
    pub uncrossed : Uncrossed L w

  asks_left-ids :
      (k q : ℤ) (oa : Order) (l : List Order)
      → All (λ o. o.id ≤ℤ k) (oa ∷ l)
      → All (λ o. o.id ≤ℤ k) (asks_left q oa l)
  unfolding reduce
  asks_left-ids k q oa l h = ground arith

  bids_left-ids :
      (k q : ℤ) (ob : Order) (l : List Order)
      → All (λ o. o.id ≤ℤ k) (l ++ ob ∷ [])
      → All (λ o. o.id ≤ℤ k) (bids_left q ob l)
  unfolding reduce
  bids_left-ids k q ob l h =
      let (before, this) = All-snoc bid_less (λ o. o.id ≤ℤ k) l ob h in
      elim (Bool-cases (is_zero (reduce q ob).quantity)) [
        | inl z ↦ rw z before
        | inr z ↦ rw z (All-append (λ o. o.id ≤ℤ k) l (reduce q ob ∷ []) before (this, tt))
      ]

  traded-ids :
      (k : ℤ) (w : Worker L) (oa ob : Order)
      → Crossing L w oa ob
      → IsBook L w
      → IdsBelow k w
      → IdsBelow k (traded L w oa ob)
  traded-ids k w oa ob c h i = (
    rw (asks-traded L w oa ob c h)
        (asks_left-ids k (trade_quantity oa ob) oa c.asks_after (rw c.asks_eq at i.0)),
    rw (bids-traded L w oa ob c h)
        (bids_left-ids k (trade_quantity oa ob) ob c.bids_before (rw c.bids_eq at i.1)),
  )

  Run-ids :
      (k : ℤ) {w : Worker L} {ps : List (Order × Order)} {w' : Worker L} {e : Option Error}
      → Run L w ps w' e
      → IsBook L w
      → IdsBelow k w
      → IdsBelow k w'
  Run-ids k (at_rest u) h i = i
  Run-ids k {w} (broken oa ob e c x) h i = traded-ids k w oa ob c h i
  Run-ids k {w} (then_on oa ob c x r) h i =
      Run-ids k r (traded-IsBook L w oa ob c h) (traded-ids k w oa ob c h i)

  -- The counters that `TryMatch` leaves alone.
  pub record SameCounters (w w' : Worker L) : Type 0 where
    pub order_id_eq : w'.order_id ≡ w.order_id
    pub ask_ticket_eq : w'.latest_ask_ticket_id ≡ w.latest_ask_ticket_id
    pub bid_ticket_eq : w'.latest_bid_ticket_id ≡ w.latest_bid_ticket_id

  Run-SameCounters :
      {w : Worker L} {ps : List (Order × Order)} {w' : Worker L} {e : Option Error}
      → Run L w ps w' e
      → SameCounters w w'
  unfolding traded settle
  Run-SameCounters (at_rest u) = record {
    order_id_eq = refl;
    ask_ticket_eq = refl;
    bid_ticket_eq = refl;
  }
  Run-SameCounters (broken oa ob e c x) = record {
    order_id_eq = refl;
    ask_ticket_eq = refl;
    bid_ticket_eq = refl;
  }
  Run-SameCounters (then_on oa ob c x r) =
      let s = Run-SameCounters r in
      record {
        order_id_eq = s.order_id_eq;
        ask_ticket_eq = s.ask_ticket_eq;
        bid_ticket_eq = s.bid_ticket_eq;
      }

  -- A call that returns, keeps the invariant unless it reports an error, and leaves the counters.
  pub record Accepts (w : Worker L) (r : Option (Worker L × Option Error)) : Type 0 where
    pub worker : Worker L
    pub error : Option Error
    pub returns : r ≡ some (worker, error)
    pub keeps : error ≡ none → IsEngine worker
    pub same : SameCounters w worker

  pub Matched-Accepts :
      (w : Worker L) → IsBook L w → IdsBelow w.order_id w → Accepts w (matched L (match_all L w))
  Matched-Accepts w h i =
      let m = match_all-Matched L w h in
      let same = Run-SameCounters m.run in
      record {
        worker = m.worker;
        error = m.error;
        returns = rw m.returns refl;
        keeps = λ e. record {
          book = Run-IsBook L m.run h;
          ids = rw same.order_id_eq (Run-ids w.order_id m.run h i);
          uncrossed = Run-Uncrossed L m.run e;
        };
        same = same;
      }

  -- The new order of a request is the newest, and `OrderID` is its ID.
  pub record IsNewest (o : Order) (w : Worker L) : Type 0 where
    pub book : IsBook L w
    pub asks_older : All (λ p. p.id <ℤ o.id) (asks_of L w)
    pub bids_older : All (λ p. p.id <ℤ o.id) (bids_of L w)
    pub ids : IdsBelow w.order_id w
    pub is_id : o.id ≡ w.order_id

  -- Its ID is at most `OrderID`.
  id-le : (o : Order) (w : Worker L) → IsNewest o w → o.id ≤ℤ w.order_id
  id-le o w n = omega (arith, parts_of_eq n.is_id)

  pub new_ask-Accepts :
      (req : NewOrder) (w : Worker L) → IsNewest (to_order req) w → Accepts w (new_ask L req w)
  unfolding new_ask
  new_ask-Accepts req w n =
      let o = to_order req in
      let w1 = record w { asks = L.ask_tree.replace_or_insert o w.asks } in
      let placed = newer-Placed ask_less-IsByAge o (asks_of L w) n.asks_older n.book.asks_sorted in
      let absent : L.ask_tree.has o w.asks ≡ false =
        L.ask_tree.has-found o w.asks n.book.asks_sorted placed
        ∙ newer_not_found ask_less-IsByAge o (asks_of L w) n.asks_older in
      let listed : asks_of L w1 ≡ put ask_less o (asks_of L w) =
        L.ask_tree.items-insert o w.asks n.book.asks_sorted placed in
      let a =
        Matched-Accepts w1
          (record {
            asks_sorted =
                rw listed
                  (put-Sorted ask_less-IsByAge o (asks_of L w) n.asks_older n.book.asks_sorted);
            bids_sorted = n.book.bids_sorted;
          })
          (
            rw listed (
                All-put ask_less-IsByAge o (λ p. p.id ≤ℤ w.order_id) (asks_of L w) (id-le o w n)
                  n.ids.0),
            n.ids.1,
          ) in
      record {
        worker = a.worker;
        error = a.error;
        returns = rw absent a.returns;
        keeps = a.keeps;
        same = record {
          order_id_eq = a.same.order_id_eq;
          ask_ticket_eq = a.same.ask_ticket_eq;
          bid_ticket_eq = a.same.bid_ticket_eq;
        };
      }

  pub new_bid-Accepts :
      (req : NewOrder) (w : Worker L) → IsNewest (to_order req) w → Accepts w (new_bid L req w)
  unfolding new_bid
  new_bid-Accepts req w n =
      let o = to_order req in
      let w1 = record w { bids = L.bid_tree.replace_or_insert o w.bids } in
      let placed = newer-Placed bid_less-IsByAge o (bids_of L w) n.bids_older n.book.bids_sorted in
      let absent : L.bid_tree.has o w.bids ≡ false =
        L.bid_tree.has-found o w.bids n.book.bids_sorted placed
        ∙ newer_not_found bid_less-IsByAge o (bids_of L w) n.bids_older in
      let listed : bids_of L w1 ≡ put bid_less o (bids_of L w) =
        L.bid_tree.items-insert o w.bids n.book.bids_sorted placed in
      let a =
        Matched-Accepts w1
          (record {
            bids_sorted =
                rw listed
                  (put-Sorted bid_less-IsByAge o (bids_of L w) n.bids_older n.book.bids_sorted);
            asks_sorted = n.book.asks_sorted;
          })
          (
            n.ids.0,
            rw listed (
                All-put bid_less-IsByAge o (λ p. p.id ≤ℤ w.order_id) (bids_of L w) (id-le o w n)
                  n.ids.1),
          ) in
      record {
        worker = a.worker;
        error = a.error;
        returns = rw absent a.returns;
        keeps = a.keeps;
        same = record {
          order_id_eq = a.same.order_id_eq;
          ask_ticket_eq = a.same.ask_ticket_eq;
          bid_ticket_eq = a.same.bid_ticket_eq;
        };
      }
