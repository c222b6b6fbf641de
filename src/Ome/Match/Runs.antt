-- ===== src/Ome/Match/Runs.antt =====
-- `TryMatch` as a sequence of trades: a relation that says what each trade takes and when the
-- sequence ends, and the theorem that the code runs through such a sequence and returns.
use ccoms.Prelude.{
  ℕ, zero, suc, ◌+◌, ◌<◌, ◌≤ℤ◌, ◌<ℤ◌, ltb_ℤ→le, ◌≡◌, refl, sym, inr, inl, Bool, true, false, Option,
  none, some, List, [], ◌∷◌, ◌++◌, arith, length, Bool-cases, Option-cases,
}
use ccoms.Errors.{Error}
use ccoms.Filedb.{write_line}
use ccoms.Extern.BTree.{Sorted, first, last}
use ccoms.Extern.BTree.Ends.{first-cons, last-snoc}
use ccoms.Ome.Structs.{Order, ask_less, bid_less, greater}
use ccoms.Ome.Worker.{Libs, Worker}
use ccoms.Ome.Match.{
  MatchStep, halt, fail, again, settle, match_log, log_line, after_write, trade, match_best,
  match_step, try_match, match_fuel, match_all, trade_quantity,
}
use ccoms.Ome.Match.Books.{
  asks_left, bids_left, items-settle_ask, items-settle_bid, asks_left-Sorted, bids_left-Sorted,
  one_is_filled, left-lt,
}

module _ (L : Libs) where
  -- The orders of the two books, each from the least item on.
  abbrev pub asks_of : Worker L → List Order
  asks_of w = L.ask_tree.items w.asks

  abbrev pub bids_of : Worker L → List Order
  bids_of w = L.bid_tree.items w.bids

  pub record IsBook (w : Worker L) : Type 0 where
    pub asks_sorted : Sorted ask_less (asks_of w)
    pub bids_sorted : Sorted bid_less (bids_of w)

  -- The best orders do not cross: a book is empty, or the least ask is dearer than the last bid.
  abbrev pub Uncrossed : Worker L → Type 0
  Uncrossed w =
      (oa ob : Order)
      → first (asks_of w) ≡ some oa
      → last (bids_of w) ≡ some ob
      → ob.price <ℤ oa.price

  -- The worker after a trade, and what writing its log has returned.
  unfoldable pub written : Worker L → Order → Order → Option Error
  written w oa ob =
      let w1 = settle L w oa ob in (write_line (log_line L (match_log L w1 oa ob)) w1.fdb).1

  unfoldable pub traded : Worker L → Order → Order → Worker L
  traded w oa ob =
      let w1 = settle L w oa ob in
      after_write L w1 (write_line (log_line L (match_log L w1 oa ob)) w1.fdb)

  abbrev conclude : Worker L → Option Error → MatchStep L
  conclude w none = again w
  conclude w (some e) = fail w e

  trade_lem :
      (w : Worker L) (oa ob : Order) → trade L w oa ob ≡ conclude (traded w oa ob) (written w oa ob)
  unfolding trade traded written
  trade_lem w oa ob = ground (arith, one_is_filled oa ob)

  -- A trade is between the first ask and the last bid, and these cross.
  pub record Crossing (w : Worker L) (oa ob : Order) : Type 0 where
    pub asks_after : List Order
    pub bids_before : List Order
    pub asks_eq : asks_of w ≡ oa ∷ asks_after
    pub bids_eq : bids_of w ≡ bids_before ++ ob ∷ []
    pub crossed : oa.price ≤ℤ ob.price

  -- What a round does.
  data Round (w : Worker L) (s : MatchStep L) : Type 0 where
    rests : s ≡ halt w → Uncrossed w → Round w s
    trades :
        (oa ob : Order)
        → Crossing w oa ob
        → s ≡ conclude (traded w oa ob) (written w oa ob)
        → Round w s

  match_best-Round :
      (w : Worker L) (a b : Option Order)
      → first (asks_of w) ≡ a
      → last (bids_of w) ≡ b
      → Round w (match_best L w a b)
  unfolding match_best greater
  match_best-Round w none b ha hb = rests refl (λ oa ob p q. cc)
  match_best-Round w (some oa) none ha hb = rests refl (λ _ ob p q. cc)
  match_best-Round w (some oa) (some ob) ha hb = elim (Bool-cases (greater oa.price ob.price)) [
    | inl g ↦ rests (rw g) (λ oa' ob' p q. ground arith)
    | inr g ↦
        let (l, ea) = first-cons (asks_of w) oa ha in
        let (m, eb) = last-snoc (bids_of w) ob hb in
        trades oa ob
          (record {
            asks_after = l;
            bids_before = m;
            asks_eq = ea;
            bids_eq = eb;
            crossed = ltb_ℤ→le ob.price oa.price g;
          })
          (rw g (trade_lem w oa ob))
  ]

  match_step-Round : (w : Worker L) → Round w (match_step L w)
  unfolding match_step
  match_step-Round w =
      match_best-Round w (L.ask_tree.min w.asks) (L.bid_tree.max w.bids)
        (sym (L.ask_tree.min-first w.asks)) (sym (L.bid_tree.max-last w.bids))

  abbrev size : Worker L → ℕ
  size w = length (asks_of w) + length (bids_of w)

  -- The books after a trade.
  pub asks-traded :
      (w : Worker L) (oa ob : Order) (c : Crossing w oa ob)
      → IsBook w
      → asks_of (traded w oa ob) ≡ asks_left (trade_quantity oa ob) oa c.asks_after
  unfolding traded settle
  asks-traded w oa ob c h =
      items-settle_ask L (trade_quantity oa ob) oa c.asks_after w.asks c.asks_eq
        (rw c.asks_eq at h.asks_sorted)

  pub bids-traded :
      (w : Worker L) (oa ob : Order) (c : Crossing w oa ob)
      → IsBook w
      → bids_of (traded w oa ob) ≡ bids_left (trade_quantity oa ob) ob c.bids_before
  unfolding traded settle
  bids-traded w oa ob c h =
      items-settle_bid L (trade_quantity oa ob) ob c.bids_before w.bids c.bids_eq
        (rw c.bids_eq at h.bids_sorted)

  pub traded-IsBook :
      (w : Worker L) (oa ob : Order) → Crossing w oa ob → IsBook w → IsBook (traded w oa ob)
  traded-IsBook w oa ob c h = record {
    asks_sorted =
        rw (asks-traded w oa ob c h)
          (asks_left-Sorted (trade_quantity oa ob) oa c.asks_after (rw c.asks_eq at h.asks_sorted));
    bids_sorted =
        rw (bids-traded w oa ob c h) (
          bids_left-Sorted (trade_quantity oa ob) ob c.bids_before (rw c.bids_eq at h.bids_sorted));
  }

  size-traded :
      (w : Worker L) (oa ob : Order) → Crossing w oa ob → IsBook w → size (traded w oa ob) < size w
  size-traded w oa ob c h =
      rw (asks-traded w oa ob c h, bids-traded w oa ob c h, c.asks_eq, c.bids_eq)
        (left-lt oa ob c.asks_after c.bids_before)

  -- A sequence of trades, by the pairs of orders that met, to the worker and the error that
  -- `TryMatch` returns.
  pub data Run : Worker L → List (Order × Order) → Worker L → Option Error → Type 0 where
    at_rest : {w : Worker L} → Uncrossed w → Run w [] w none
    broken :
        {w : Worker L} (oa ob : Order) (e : Error)
        → Crossing w oa ob
        → written w oa ob ≡ some e
        → Run w ((oa, ob) ∷ []) (traded w oa ob) (some e)
    then_on :
        {w : Worker L} (oa ob : Order) {ps : List (Order × Order)} {w' : Worker L}
        {e : Option Error}
        → Crossing w oa ob
        → written w oa ob ≡ none
        → Run (traded w oa ob) ps w' e
        → Run w ((oa, ob) ∷ ps) w' e

  abbrev pub succeeded : Option Error → Bool
  succeeded none = true
  succeeded (some e) = false

  -- A result of `TryMatch` with the run that led to it.
  pub record Matched (w : Worker L) (r : Option (Worker L × Bool × Option Error)) : Type 0 where
    pub pairs : List (Order × Order)
    pub worker : Worker L
    pub error : Option Error
    pub returns : r ≡ some (worker, succeeded error, error)
    pub run : Run w pairs worker error

  module _ (n : ℕ) (w : Worker L) where
    try_match-halt :
        {w' : Worker L} → match_step L w ≡ halt w' → try_match L (suc n) w ≡ some (w', true, none)
    unfolding try_match
    try_match-halt e = rw (e, try_match)

    try_match-fail :
        {w' : Worker L} {x : Error}
        → match_step L w ≡ fail w' x
        → try_match L (suc n) w ≡ some (w', false, some x)
    unfolding try_match
    try_match-fail e = rw (e, try_match)

    try_match-again :
        {w' : Worker L} → match_step L w ≡ again w' → try_match L (suc n) w ≡ try_match L n w'
    unfolding try_match
    try_match-again e = rw (e, try_match)

  -- With more fuel than orders, `TryMatch` returns, and has made a run of trades.
  pub try_match-Matched :
      (n : ℕ) (w : Worker L) → IsBook w → size w < n → Matched w (try_match L n w)
  try_match-Matched zero w h lt = absurd (omega arith)
  try_match-Matched (suc n) w h lt = elim (match_step-Round w) [
    | rests e u ↦ record {
      pairs = [];
      worker = w;
      error = none;
      returns = try_match-halt n w e;
      run = at_rest u;
    }
    | trades oa ob c e ↦ elim (Option-cases (written w oa ob)) [
      | inl ok ↦
          let next =
            try_match-Matched n (traded w oa ob) (traded-IsBook w oa ob c h)
              (omega (arith, size-traded w oa ob c h)) in
          record {
            pairs = (oa, ob) ∷ next.pairs;
            worker = next.worker;
            error = next.error;
            returns = rw (try_match-again n w (rw ok at e)) next.returns;
            run = then_on oa ob c ok next.run;
          }
      | inr (x, bad) ↦ record {
        pairs = (oa, ob) ∷ [];
        worker = traded w oa ob;
        error = some x;
        returns = try_match-fail n w (rw bad at e);
        run = broken oa ob x c bad;
      }
    ]
  ]

  -- The fuel that the engine's callers give is enough.
  pub match_all-Matched : (w : Worker L) → IsBook w → Matched w (match_all L w)
  unfolding match_all match_fuel
  match_all-Matched w h =
      try_match-Matched (match_fuel L w) w h
        (rw (L.ask_tree.len-length w.asks, L.bid_tree.len-length w.bids) (omega arith))

  -- The books stay in order, and do not cross where the run ends without an error.
  pub Run-IsBook :
      {w : Worker L} {ps : List (Order × Order)} {w' : Worker L} {e : Option Error}
      → Run w ps w' e
      → IsBook w
      → IsBook w'
  Run-IsBook (at_rest u) h = h
  Run-IsBook (broken oa ob e c x) h = traded-IsBook _ oa ob c h
  Run-IsBook (then_on oa ob c x r) h = Run-IsBook r (traded-IsBook _ oa ob c h)

  -- A run that ends without an error has left the books so that they do not cross.
  pub Run-Uncrossed :
      {w : Worker L} {ps : List (Order × Order)} {w' : Worker L} {e : Option Error}
      → Run w ps w' e
      → e ≡ none
      → Uncrossed w'
  Run-Uncrossed (at_rest u) p = u
  Run-Uncrossed (broken oa ob e c x) p = cc
  Run-Uncrossed (then_on oa ob c x r) p = Run-Uncrossed r p
