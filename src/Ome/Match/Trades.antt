-- ===== src/Ome/Match/Trades.antt =====
-- What a run of `TryMatch` does to the quantities, the prices and the log.
use mathlib.Core.List.{flatten}
use ccoms.Prelude.{
  ℤ, pos, ◌+ℤ◌, ◌≤ℤ◌, int_laws, parts_of_eq, -ℤ_parts, ◌≡◌, refl, sym, ap, ◌∙◌, inr, inl, true,
  Option, none, List, [], ◌∷◌, ◌++◌, append-nil, append_assoc, map, arith, Bool-cases,
}
use ccoms.Errors.{Error}
use ccoms.Filedb.Writes.{write_line-content}
use ccoms.Ome.Match.Records.{Describes, Recorded, taken, one_left}
use ccoms.Ome.Structs.{Order, MatchLog, OmeLog, is_zero, less}
use ccoms.Ome.Worker.{Libs, Worker}
use ccoms.Ome.Match.{trade_price, trade_quantity, trade_amount, reduce, settle, match_log, log_line}
use ccoms.Ome.Match.Books.{asks_left, bids_left}
use ccoms.Ome.Match.Runs.{
  asks_of, bids_of, IsBook, Crossing, Run, at_rest, broken, then_on, traded, written, asks-traded,
  bids-traded, traded-IsBook,
}

-- The sum of the quantities of a book.
unfoldable pub total : List Order → ℤ
total [] = pos 0
total (o ∷ l) = o.quantity +ℤ total l

-- The sum of what a sequence of trades exchanges.
unfoldable pub volume : List (Order × Order) → ℤ
volume [] = pos 0
volume ((oa, ob) ∷ ps) = trade_quantity oa ob +ℤ volume ps

total-snoc : (l : List Order) (o : Order) → total (l ++ o ∷ []) ≡ total l +ℤ o.quantity
unfolding total
total-snoc [] o = omega int_laws
total-snoc (p ∷ l) o = omega (int_laws, parts_of_eq (total-snoc l o))

pub filled : (q : ℤ) (o : Order) → is_zero (reduce q o).quantity ≡ true → o.quantity ≡ q
unfolding is_zero reduce
filled q o z = ground (arith, -ℤ_parts o.quantity q)

total-asks_left :
    (q : ℤ) (oa : Order) (l : List Order) → total (oa ∷ l) ≡ total (asks_left q oa l) +ℤ q
unfolding total is_zero reduce
total-asks_left q oa l = elim (Bool-cases (is_zero (reduce q oa).quantity)) [
  | inl z ↦ rw z (omega (int_laws, parts_of_eq (filled q oa z)))
  | inr z ↦ rw z (omega int_laws)
]

total-bids_left :
    (q : ℤ) (ob : Order) (l : List Order) → total (l ++ ob ∷ []) ≡ total (bids_left q ob l) +ℤ q
unfolding is_zero reduce
total-bids_left q ob l = elim (Bool-cases (is_zero (reduce q ob).quantity)) [
  | inl z ↦ rw z (total-snoc l ob ∙ ap (λ t. total l +ℤ t) (filled q ob z))
  | inr z ↦
      rw z
        (omega (int_laws, parts_of_eq (total-snoc l ob), parts_of_eq (total-snoc l (reduce q ob))))
]

-- The price of a trade lies between the prices of the two orders.
pub trade_price_bounds :
    (oa ob : Order)
    → oa.price ≤ℤ ob.price
    → (oa.price ≤ℤ trade_price oa ob) × (trade_price oa ob ≤ℤ ob.price)
unfolding trade_price
trade_price_bounds oa ob h = ground arith

-- A trade takes no more than either order has.
pub trade_quantity_bounds :
    (oa ob : Order) → (trade_quantity oa ob ≤ℤ oa.quantity) × (trade_quantity oa ob ≤ℤ ob.quantity)
unfolding trade_quantity less
trade_quantity_bounds oa ob = ground arith

module _ (L : Libs) where
  total-asks-traded :
      (w : Worker L) (oa ob : Order)
      → Crossing L w oa ob
      → IsBook L w
      → total (asks_of L w) ≡ total (asks_of L (traded L w oa ob)) +ℤ trade_quantity oa ob
  total-asks-traded w oa ob c h =
      rw (asks-traded L w oa ob c h, c.asks_eq)
        (total-asks_left (trade_quantity oa ob) oa c.asks_after)

  total-bids-traded :
      (w : Worker L) (oa ob : Order)
      → Crossing L w oa ob
      → IsBook L w
      → total (bids_of L w) ≡ total (bids_of L (traded L w oa ob)) +ℤ trade_quantity oa ob
  total-bids-traded w oa ob c h =
      rw (bids-traded L w oa ob c h, c.bids_eq)
        (total-bids_left (trade_quantity oa ob) ob c.bids_before)

  -- Each book loses exactly what was exchanged.
  pub Run-conserves :
      {w : Worker L} {ps : List (Order × Order)} {w' : Worker L} {e : Option Error}
      → Run L w ps w' e
      → IsBook L w
      → (total (asks_of L w) ≡ total (asks_of L w') +ℤ volume ps)
        × (total (bids_of L w) ≡ total (bids_of L w') +ℤ volume ps)
  unfolding volume
  Run-conserves (at_rest u) h = omega int_laws
  Run-conserves {w} (broken oa ob e c x) h = omega (
    int_laws,
    parts_of_eq (total-asks-traded w oa ob c h),
    parts_of_eq (total-bids-traded w oa ob c h),
  )
  Run-conserves {w} (then_on oa ob c x r) h =
      let (a, b) = Run-conserves r (traded-IsBook L w oa ob c h) in
      omega (
        int_laws,
        parts_of_eq (total-asks-traded w oa ob c h),
        parts_of_eq (total-bids-traded w oa ob c h),
        parts_of_eq a,
        parts_of_eq b,
      )

  -- The logs of a sequence of trades.
  unfoldable pub trade_logs : Worker L → List (Order × Order) → List OmeLog
  trade_logs w [] = []
  trade_logs w ((oa, ob) ∷ ps) =
      match_log L (settle L w oa ob) oa ob ∷ trade_logs (traded L w oa ob) ps

  content-traded :
      (w : Worker L) (oa ob : Order)
      → written L w oa ob ≡ none
      → (traded L w oa ob).fdb.content
        ≡ w.fdb.content ++ log_line L (match_log L (settle L w oa ob) oa ob)
  unfolding traded written settle
  content-traded w oa ob e =
      write_line-content (log_line L (match_log L (settle L w oa ob) oa ob)) w.fdb e

  match_log-Describes :
      (w : Worker L) (oa ob : Order)
      → oa.price ≤ℤ ob.price
      → (m : MatchLog) × ((match_log L w oa ob).match_logs ≡ m ∷ []) × Describes oa ob m
  unfolding match_log reduce trade_amount
  match_log-Describes w oa ob c =
      let q = trade_quantity oa ob in
      (
        _,
        refl,
        record {
          ask_id_eq = refl;
          bid_id_eq = refl;
          asker_eq = refl;
          bider_eq = refl;
          price_low = (trade_price_bounds oa ob c).0;
          price_high = (trade_price_bounds oa ob c).1;
          ask_left = taken q oa.quantity;
          bid_left = taken q ob.quantity;
          one_filled = one_left oa ob;
          amount_eq = refl;
        },
      )

  trade_logs-Recorded :
      {w : Worker L} {ps : List (Order × Order)} {w' : Worker L} {e : Option Error}
      → Run L w ps w' e
      → Recorded w.log_id ps (trade_logs w ps)
  unfolding trade_logs match_log settle traded
  trade_logs-Recorded (at_rest u) = tt
  trade_logs-Recorded {w} (broken oa ob e c x) =
      (refl, refl, match_log-Describes (settle L w oa ob) oa ob c.crossed, tt)
  trade_logs-Recorded {w} (then_on oa ob c x r) =
      (refl, refl, match_log-Describes (settle L w oa ob) oa ob c.crossed, trade_logs-Recorded r)

  content-Run :
      {w : Worker L} {ps : List (Order × Order)} {w' : Worker L} {e : Option Error}
      → Run L w ps w' e
      → e ≡ none
      → w'.fdb.content ≡ w.fdb.content ++ flatten (map (log_line L) (trade_logs w ps))
  unfolding trade_logs flatten
  content-Run {w} (at_rest u) p = sym (append-nil w.fdb.content)
  content-Run (broken oa ob e c x) p = cc
  content-Run {w} (then_on oa ob {ps} c x r) p =
      let line = log_line L (match_log L (settle L w oa ob) oa ob) in
      content-Run r p
      ∙ ap (λ t. t ++ flatten (map (log_line L) (trade_logs (traded L w oa ob) ps)))
          (content-traded w oa ob x)
      ∙ append_assoc w.fdb.content line _

  -- A run of trades without an error has appended to the log file one line for each trade, in order,
  -- and nothing else. The logs of these lines have consecutive IDs after that of the worker and
  -- each has one entry, which has the IDs and the owners of the two orders, a price between
  -- theirs, the quantity that is taken from each and leaves nothing of one of the two, what is then
  -- left of each, and the price times the quantity, divided by 10^12, as the amount.
  pub Run-logs :
      {w : Worker L} {ps : List (Order × Order)} {w' : Worker L} {e : Option Error}
      → Run L w ps w' e
      → e ≡ none
      → (w'.fdb.content ≡ w.fdb.content ++ flatten (map (log_line L) (trade_logs w ps)))
        × Recorded w.log_id ps (trade_logs w ps)
  Run-logs r p = (content-Run r p, trade_logs-Recorded r)
