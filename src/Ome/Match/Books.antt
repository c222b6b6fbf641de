-- ===== src/Ome/Match/Books.antt =====
-- The books under one trade: what the two trees list after `settle_ask` and `settle_bid`.
use ccoms.Prelude.{
  ◌+◌, ◌<◌, ℤ, -ℤ_parts, ◌≡◌, inr, inl, ◌||◌, true, false, List, [], ◌∷◌, ◌++◌, arith, length,
  length-append, if◌then◌else◌, Bool-cases,
}
use ccoms.Extern.BTree.{Sorted}
use ccoms.Extern.BTree.Ends.{
  put-head, remove-head, put-last, remove-last, Placed-last, Sorted-snoc, snoc-Sorted,
}
use ccoms.Ome.Structs.{Order, ask_less, bid_less, less, is_zero}
use ccoms.Ome.Worker.{Libs}
use ccoms.Ome.Match.{reduce, key_of, trade_quantity, settle_ask, settle_bid}

-- The orders that stay after a trade of `q` with the first ask, or with the last bid.
abbrev pub asks_left : ℤ → Order → List Order → List Order
asks_left q oa l = if is_zero (reduce q oa).quantity then l else reduce q oa ∷ l

abbrev pub bids_left : ℤ → Order → List Order → List Order
bids_left q ob l = if is_zero (reduce q ob).quantity then l else l ++ reduce q ob ∷ []

ask_less_irrefl : (a : Order) → ask_less a a ≡ false
unfolding ask_less
ask_less_irrefl a = ground arith

bid_less_irrefl : (a : Order) → bid_less a a ≡ false
unfolding bid_less
bid_less_irrefl a = ground arith

module _ (L : Libs) where
  pub items-settle_ask :
      (q : ℤ) (oa : Order) (l : List Order) (t : L.ask_tree.Tree)
      → L.ask_tree.items t ≡ oa ∷ l
      → Sorted ask_less (oa ∷ l)
      → L.ask_tree.items (settle_ask L q oa t) ≡ asks_left q oa l
  unfolding settle_ask reduce key_of ask_less
  items-settle_ask q oa l t e s = elim (Bool-cases (is_zero (reduce q oa).quantity)) [
    | inl z ↦ rw z (
        rw
          (L.ask_tree.items-delete (key_of oa) t (rw e s) (rw e (inr (ask_less_irrefl oa, s.0))), e)
          (remove-head ask_less (key_of oa) oa l (ask_less_irrefl oa) (ask_less_irrefl oa)))
    | inr z ↦ rw z (
        rw
          (
            L.ask_tree.items-insert (reduce q oa) t (rw e s) (rw e (inr (ask_less_irrefl oa, s.0))),
            e,
          )
          (put-head ask_less (reduce q oa) oa l (ask_less_irrefl oa) (ask_less_irrefl oa)))
  ]

  pub items-settle_bid :
      (q : ℤ) (ob : Order) (l : List Order) (t : L.bid_tree.Tree)
      → L.bid_tree.items t ≡ l ++ ob ∷ []
      → Sorted bid_less (l ++ ob ∷ [])
      → L.bid_tree.items (settle_bid L q ob t) ≡ bids_left q ob l
  unfolding settle_bid reduce key_of bid_less
  items-settle_bid q ob l t e s =
      let below = (Sorted-snoc bid_less l ob s).1 in
      elim (Bool-cases (is_zero (reduce q ob).quantity)) [
        | inl z ↦ rw z (
            rw
              (
                L.bid_tree.items-delete (key_of ob) t (rw e s)
                    (rw e (Placed-last bid_less (key_of ob) ob l below (bid_less_irrefl ob))),
                e,
              )
              (remove-last bid_less (key_of ob) ob l below (bid_less_irrefl ob)
                (bid_less_irrefl ob)))
        | inr z ↦ rw z (
            rw
              (
                L.bid_tree.items-insert (reduce q ob) t (rw e s)
                    (rw e (Placed-last bid_less (reduce q ob) ob l below (bid_less_irrefl ob))),
                e,
              )
              (put-last bid_less (reduce q ob) ob l below (bid_less_irrefl ob)
                (bid_less_irrefl ob)))
      ]

-- What is left of a book is sorted.
pub asks_left-Sorted :
    (q : ℤ) (oa : Order) (l : List Order)
    → Sorted ask_less (oa ∷ l)
    → Sorted ask_less (asks_left q oa l)
unfolding reduce ask_less
asks_left-Sorted q oa l s = elim (Bool-cases (is_zero (reduce q oa).quantity)) [
  | inl z ↦ rw z s.1
  | inr z ↦ rw z s
]

pub bids_left-Sorted :
    (q : ℤ) (ob : Order) (l : List Order)
    → Sorted bid_less (l ++ ob ∷ [])
    → Sorted bid_less (bids_left q ob l)
unfolding reduce bid_less
bids_left-Sorted q ob l s =
    let (i, below) = Sorted-snoc bid_less l ob s in
    elim (Bool-cases (is_zero (reduce q ob).quantity)) [
      | inl z ↦ rw z i
      | inr z ↦ rw z (snoc-Sorted bid_less l (reduce q ob) i below)
    ]

-- A trade of the lesser quantity leaves nothing of one of the two orders.
pub one_is_filled :
    (oa ob : Order)
    → let q = trade_quantity oa ob in
      (is_zero (reduce q oa).quantity || is_zero (reduce q ob).quantity) ≡ true
unfolding trade_quantity reduce is_zero less
one_is_filled oa ob = elim (Bool-cases (less oa.quantity ob.quantity)) [
  | inl h ↦ ground (arith, -ℤ_parts oa.quantity oa.quantity)
  | inr h ↦ ground (arith, -ℤ_parts ob.quantity ob.quantity)
]

-- So the two books together have fewer orders.
pub left-lt :
    (oa ob : Order) (l m : List Order)
    → let q = trade_quantity oa ob in
      length (asks_left q oa l) + length (bids_left q ob m)
      < length (oa ∷ l) + length (m ++ ob ∷ [])
left-lt oa ob l m = ground (
  arith,
  one_is_filled oa ob,
  length-append m (ob ∷ []),
  length-append m (reduce (trade_quantity oa ob) ob ∷ []),
)
