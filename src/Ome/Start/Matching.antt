-- ===== src/Ome/Start/Matching.antt =====
-- pkg/ome/ome.go: `StartMatching` from books in order.
use ccoms.Prelude.{
  ℕ, pos, ◌≤ℤ◌, ◌<ℤ◌, ◌+ℤ◌, int64_max, int_laws, to_int8, inc64_lem, parts_of_eq, ◌≡◌, refl, sym,
  ap, subst, ◌∙◌, Option, none, some, List, [], ◌∷◌, length,
}
use ccoms.Errors.{Error, no_error}
use ccoms.Ome.Worker.{Ticket, Libs, Worker}
use ccoms.Ome.Match.{match_all}
use ccoms.Ome.Match.Runs.{IsBook}
use ccoms.Ome.Tickets.{
  TicketCheck, duplicate, gap, fresh, bad_side, check_ticket, matched, ticket_to_match_engine,
}
use ccoms.Ome.Tickets.Engine.{IsEngine, IdsBelow, Matched-Accepts}
use ccoms.Ome.Tickets.Handle.{ByCheck, handle_by}
use ccoms.Ome.Start.{next_tickets, handle_tickets, start_matching}

module _ (L : Libs) where
  -- A call that returns, and that keeps the invariant and takes at most `n` order IDs unless it
  -- reports an error.
  pub record Keeps (n : ℕ) (w : Worker L) (r : Option (Worker L × Option Error)) : Type 0 where
    pub worker : Worker L
    pub error : Option Error
    pub returns : r ≡ some (worker, error)
    pub engine : error ≡ none → IsEngine L worker
    pub order_id_le : error ≡ none → worker.order_id ≤ℤ w.order_id +ℤ pos n

  -- The order IDs that `n` tickets may take are there.
  abbrev pub HasRoom : ℕ → Worker L → Type 0
  HasRoom n w = w.order_id +ℤ pos n ≤ℤ int64_max

  check-Keeps :
      (t : Ticket) (w : Worker L) (r : Option (Worker L × Option Error)) (c : TicketCheck)
      → IsEngine L w
      → w.order_id <ℤ int64_max
      → check_ticket L (to_int8 t.side) t.id w ≡ c
      → ByCheck L t w r
      → Keeps 1 w r
  check-Keeps t w r duplicate h room e b = record {
    worker = b.worker;
    error = b.error;
    returns = b.returns;
    engine = λ _. subst (IsEngine L) (sym (b.on_duplicate e).0) h;
    order_id_le = λ _.
        subst (λ (v : Worker L). v.order_id ≤ℤ w.order_id +ℤ pos 1) (sym (b.on_duplicate e).0)
          (omega int_laws);
  }
  check-Keeps t w r gap h room e b = record {
    worker = b.worker;
    error = b.error;
    returns = b.returns;
    engine = λ q. no_error (sym (b.on_gap e).1 ∙ q);
    order_id_le = λ q. no_error (sym (b.on_gap e).1 ∙ q);
  }
  check-Keeps t w r bad_side h room e b = record {
    worker = b.worker;
    error = b.error;
    returns = b.returns;
    engine = λ q. no_error (sym (b.on_bad_side e).1 ∙ q);
    order_id_le = λ q. no_error (sym (b.on_bad_side e).1 ∙ q);
  }
  check-Keeps t w r fresh h room e b = record {
    worker = b.worker;
    error = b.error;
    returns = b.returns;
    engine = λ q. (b.on_fresh e q).engine;
    order_id_le = λ q. omega (
      int_laws,
      parts_of_eq (b.on_fresh e q).order_id_eq,
      parts_of_eq (inc64_lem w.order_id room),
    );
  }

  ticket-Keeps :
      (t : Ticket) (w : Worker L)
      → IsEngine L w
      → w.order_id <ℤ int64_max
      → Keeps 1 w (ticket_to_match_engine L t w)
  ticket-Keeps t w h room =
      let c = check_ticket L (to_int8 t.side) t.id w in
      check-Keeps t w (ticket_to_match_engine L t w) c h room refl (handle_by L t w c refl h room)

  -- A first call that keeps, and then the tickets.
  then-Keeps :
      {n : ℕ} {w : Worker L} (rest : Worker L → Option (Worker L × Option Error)) (v : Worker L)
      (x : Option Error) (r : Option (Worker L × Option Error))
      → r ≡ some (v, x)
      → (x ≡ none → Keeps n w (rest v))
      → Keeps n w (next_tickets L rest r)
  then-Keeps rest v (some x) r e k = record {
    worker = v;
    error = some x;
    returns = ap (next_tickets L rest) e;
    engine = λ q. no_error q;
    order_id_le = λ q. no_error q;
  }
  then-Keeps rest v none r e k =
      let ks = k refl in
      record {
        worker = ks.worker;
        error = ks.error;
        returns = ap (next_tickets L rest) e ∙ ks.returns;
        engine = ks.engine;
        order_id_le = ks.order_id_le;
      }

  after :
      {m n : ℕ} {w v : Worker L} {r : Option (Worker L × Option Error)}
      → v.order_id +ℤ pos m ≤ℤ w.order_id +ℤ pos n
      → Keeps m v r
      → Keeps n w r
  after le k = record {
    worker = k.worker;
    error = k.error;
    returns = k.returns;
    engine = k.engine;
    order_id_le = λ q. let le' = k.order_id_le q in omega int_laws;
  }

  handle_tickets-Keeps :
      (ts : List Ticket) (w : Worker L)
      → IsEngine L w
      → HasRoom (length ts) w
      → Keeps (length ts) w (handle_tickets L ts w)
  unfolding handle_tickets
  handle_tickets-Keeps [] w h room = record {
    worker = w;
    error = none;
    returns = refl;
    engine = λ _. h;
    order_id_le = λ _. omega int_laws;
  }
  handle_tickets-Keeps (t ∷ ts) w h room =
      let k = ticket-Keeps t w h (omega int_laws) in
      then-Keeps (handle_tickets L ts) k.worker k.error (ticket_to_match_engine L t w) k.returns
        λ e.
          let more = k.order_id_le e in
          after (omega int_laws) (handle_tickets-Keeps ts k.worker (k.engine e) (omega int_laws))

  -- From books that are in order and hold only IDs up to `OrderID`, and with an order ID left for
  -- each ticket, `StartMatching` returns; unless it returns an error, the books are in order, do not
  -- cross and hold only IDs up to `OrderID`, which has risen by at most the number of the tickets.
  pub start_matching-Keeps :
      (ts : List Ticket) (w : Worker L)
      → IsBook L w
      → IdsBelow L w.order_id w
      → HasRoom (length ts) w
      → Keeps (length ts) w (start_matching L ts w)
  unfolding start_matching
  start_matching-Keeps ts w h i room =
      let a = Matched-Accepts L w h i in
      let same = parts_of_eq a.same.order_id_eq in
      then-Keeps (handle_tickets L ts) a.worker a.error (matched L (match_all L w)) a.returns
        λ e. after (omega int_laws) (handle_tickets-Keeps ts a.worker (a.keeps e) (omega int_laws))
