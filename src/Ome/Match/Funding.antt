-- ===== src/Ome/Match/Funding.antt =====
-- What the bids of a book promise, and what the trades of `TryMatch` (pkg/ome/ome.go) take for them.
use ccoms.Prelude.{
  ℕ, ◌+◌, ◌*◌, ℤ, pos, negsuc, pos_part, neg_part, ◌+ℤ◌, ◌-ℤ◌, ◌*ℤ◌, div_ℕ, ◌≤ℤ◌, ◌==ℤ◌, int_laws,
  parts_of_eq, -ℤ_parts, ◌≡◌, refl, ap, ◌∙◌, inr, inl, true, Option, List, [], ◌∷◌, ◌++◌, arith,
  All, All-append, Bool-cases, if◌then◌else◌,
}
use native.Mathlib.Nat.{mul-le-mul_right}
use ccoms.Errors.{Error}
use ccoms.Ome.Structs.{Order, is_zero, less, exp_int}
use ccoms.Ome.Worker.{Libs, Worker}
use ccoms.Ome.Match.{trade_price, trade_quantity, trade_amount, reduce}
use ccoms.Ome.Match.Books.{asks_left, bids_left}
use ccoms.Ome.Match.Runs.{
  asks_of, bids_of, IsBook, Crossing, Run, at_rest, broken, then_on, traded, asks-traded,
  bids-traded, traded-IsBook,
}
use ccoms.Ome.Match.Trades.{trade_price_bounds, trade_quantity_bounds}

*ℤ_parts :
    (a b : ℤ)
    → pos_part (a *ℤ b) + (pos_part a * neg_part b + neg_part a * pos_part b)
      ≡ neg_part (a *ℤ b) + (pos_part a * pos_part b + neg_part a * neg_part b)
unfolding ◌*ℤ◌
*ℤ_parts a b = ground arith

-- A product by a difference.
*ℤ-sub : (p a q : ℤ) → p *ℤ a ≡ p *ℤ (a -ℤ q) +ℤ p *ℤ q
*ℤ-sub p a q = omega (
  int_laws,
  *ℤ_parts p a,
  *ℤ_parts p (a -ℤ q),
  *ℤ_parts p q,
  ap (λ (t : ℕ). t * pos_part p) (-ℤ_parts a q),
  ap (λ (t : ℕ). t * neg_part p) (-ℤ_parts a q),
)

*ℤ_mono : (a b : ℤ) (n : ℕ) → a ≤ℤ b → a *ℤ pos n ≤ℤ b *ℤ pos n
*ℤ_mono a b n h = omega (arith, *ℤ_parts a (pos n), *ℤ_parts b (pos n), mul-le-mul_right n h)

-- A quotient, times the divisor.
div_ℕ-le : (x : ℤ) → div_ℕ x exp_int *ℤ pos exp_int ≤ℤ x
unfolding div_ℕ
div_ℕ-le (pos n) = omega (arith, *ℤ_parts (div_ℕ (pos n) exp_int) (pos exp_int))
div_ℕ-le (negsuc n) = omega (arith, *ℤ_parts (div_ℕ (negsuc n) exp_int) (pos exp_int))

-- What a trade takes is not more than the price of the bid for what it gets.
trade_amount-le :
    (oa ob : Order)
    → oa.price ≤ℤ ob.price
    → pos 0 ≤ℤ trade_quantity oa ob
    → trade_amount oa ob *ℤ pos exp_int ≤ℤ ob.price *ℤ trade_quantity oa ob
unfolding trade_amount
trade_amount-le oa ob c h =
    let q = trade_quantity oa ob in omega (arith, div_ℕ-le (trade_price oa ob *ℤ q), at_price q h)
  where
    at_price : (q : ℤ) → pos 0 ≤ℤ q → trade_price oa ob *ℤ q ≤ℤ ob.price *ℤ q
    at_price (pos n) h = *ℤ_mono (trade_price oa ob) ob.price n (trade_price_bounds oa ob c).1
    at_price (negsuc n) h = absurd (omega arith)

-- What the bids of a user promise: price times quantity, in units of 10^-24.
abbrev promise : ℤ → Order → ℤ
promise u o = if o.owner ==ℤ u then o.price *ℤ o.quantity else pos 0

unfoldable pub promised : ℤ → List Order → ℤ
promised u [] = pos 0
promised u (o ∷ l) = promise u o +ℤ promised u l

-- What the trades take from a user, in units of 10^-12.
abbrev paid_for : ℤ → Order → Order → ℤ
paid_for u oa ob = if ob.owner ==ℤ u then trade_amount oa ob else pos 0

unfoldable pub paid : ℤ → List (Order × Order) → ℤ
paid u [] = pos 0
paid u ((oa, ob) ∷ ps) = paid_for u oa ob +ℤ paid u ps

promised-snoc :
    (u : ℤ) (l : List Order) (o : Order) → promised u (l ++ o ∷ []) ≡ promised u l +ℤ promise u o
unfolding promised
promised-snoc u [] o = omega int_laws
promised-snoc u (p ∷ l) o = omega (int_laws, parts_of_eq (promised-snoc u l o))

-- What is left of an order, with what it has given, is what it was.
promise-reduce :
    (u q : ℤ) (o : Order)
    → promise u o ≡ promise u (reduce q o) +ℤ (if o.owner ==ℤ u then o.price *ℤ q else pos 0)
unfolding reduce
promise-reduce u q o = elim (Bool-cases (o.owner ==ℤ u)) [
  | inl h ↦ rw h (*ℤ-sub o.price o.quantity q)
  | inr h ↦ rw h (omega int_laws)
]

-- An order of which nothing is left promises nothing.
promise_zero :
    (u q : ℤ) (o : Order) → is_zero (reduce q o).quantity ≡ true → promise u (reduce q o) ≡ pos 0
unfolding is_zero reduce
promise_zero u q o z = elim (Bool-cases (o.owner ==ℤ u)) [
  | inl h ↦
      let none_left : o.quantity -ℤ q ≡ pos 0 = ground arith in
      rw h (ap (λ x. o.price *ℤ x) none_left ∙ omega (int_laws, *ℤ_parts o.price (pos 0)))
  | inr h ↦ rw h refl
]

promised-bids_left :
    (u q : ℤ) (ob : Order) (l : List Order)
    → promised u (l ++ ob ∷ [])
      ≡ promised u (bids_left q ob l) +ℤ (if ob.owner ==ℤ u then ob.price *ℤ q else pos 0)
promised-bids_left u q ob l =
    let given = if ob.owner ==ℤ u then ob.price *ℤ q else pos 0 in
    let whole = parts_of_eq (promised-snoc u l ob) in
    let split = parts_of_eq (promise-reduce u q ob) in
    elim (Bool-cases (is_zero (reduce q ob).quantity)) [
      | inl z ↦ rw z (omega (int_laws, whole, split, parts_of_eq (promise_zero u q ob z)))
      | inr z ↦ rw z (omega (int_laws, whole, split, parts_of_eq (promised-snoc u l (reduce q ob))))
    ]

paid_for-le :
    (u : ℤ) (oa ob : Order)
    → oa.price ≤ℤ ob.price
    → pos 0 ≤ℤ trade_quantity oa ob
    → paid_for u oa ob *ℤ pos exp_int
      ≤ℤ (if ob.owner ==ℤ u then ob.price *ℤ trade_quantity oa ob else pos 0)
paid_for-le u oa ob c h = elim (Bool-cases (ob.owner ==ℤ u)) [
  | inl e ↦ rw e (trade_amount-le oa ob c h)
  | inr e ↦ rw e (omega (arith, *ℤ_parts (pos 0) (pos exp_int)))
]

-- The payment of one trade before those of the rest.
paid_next :
    (a r g before mid after : ℤ)
    → a *ℤ pos exp_int ≤ℤ g
    → before ≡ mid +ℤ g
    → r *ℤ pos exp_int +ℤ after ≤ℤ mid
    → (a +ℤ r) *ℤ pos exp_int +ℤ after ≤ℤ before
paid_next a r g before mid after h e k = omega (
  int_laws,
  parts_of_eq e,
  *ℤ_parts a (pos exp_int),
  *ℤ_parts r (pos exp_int),
  *ℤ_parts (a +ℤ r) (pos exp_int),
)

-- No order has a negative quantity.
abbrev Stocked : List Order → Type 0
Stocked l = All (λ o. pos 0 ≤ℤ o.quantity) l

Stocked-snoc :
    (l : List Order) (o : Order) → Stocked (l ++ o ∷ []) → Stocked l × (pos 0 ≤ℤ o.quantity)
Stocked-snoc [] o h = (tt, h.0)
Stocked-snoc (p ∷ l) o h = let (k, e) = Stocked-snoc l o h.1 in ((h.0, k), e)

trade_quantity_nonneg :
    (oa ob : Order) → pos 0 ≤ℤ oa.quantity → pos 0 ≤ℤ ob.quantity → pos 0 ≤ℤ trade_quantity oa ob
unfolding trade_quantity less
trade_quantity_nonneg oa ob h k = ground arith

reduce_nonneg : (q : ℤ) (o : Order) → q ≤ℤ o.quantity → pos 0 ≤ℤ (reduce q o).quantity
unfolding reduce
reduce_nonneg q o h = omega (int_laws, h)

asks_left-Stocked :
    (q : ℤ) (oa : Order) (l : List Order)
    → q ≤ℤ oa.quantity
    → Stocked l
    → Stocked (asks_left q oa l)
asks_left-Stocked q oa l le h = elim (Bool-cases (is_zero (reduce q oa).quantity)) [
  | inl z ↦ rw z h
  | inr z ↦ rw z (reduce_nonneg q oa le, h)
]

bids_left-Stocked :
    (q : ℤ) (ob : Order) (l : List Order)
    → q ≤ℤ ob.quantity
    → Stocked l
    → Stocked (bids_left q ob l)
bids_left-Stocked q ob l le h = elim (Bool-cases (is_zero (reduce q ob).quantity)) [
  | inl z ↦ rw z h
  | inr z ↦ rw z (All-append _ l (reduce q ob ∷ []) h (reduce_nonneg q ob le, tt))
]

module _ (L : Libs) where
  pub record IsStocked (w : Worker L) : Type 0 where
    pub asks : Stocked (asks_of L w)
    pub bids : Stocked (bids_of L w)

  -- One trade, between orders that the books have.
  record Fair (w : Worker L) (oa ob : Order) : Type 0 where
    nonneg : pos 0 ≤ℤ trade_quantity oa ob
    still : IsStocked (traded L w oa ob)

  traded-Fair :
      (w : Worker L) (oa ob : Order) → Crossing L w oa ob → IsBook L w → IsStocked w → Fair w oa ob
  traded-Fair w oa ob c h s =
      let q = trade_quantity oa ob in
      let (a, l) : Stocked (oa ∷ c.asks_after) = rw c.asks_eq at s.asks in
      let (m, b) = Stocked-snoc c.bids_before ob (rw c.bids_eq at s.bids) in
      let (qa, qb) = trade_quantity_bounds oa ob in
      record {
        nonneg = trade_quantity_nonneg oa ob a b;
        still = record {
          asks = rw (asks-traded L w oa ob c h) (asks_left-Stocked q oa c.asks_after qa l);
          bids = rw (bids-traded L w oa ob c h) (bids_left-Stocked q ob c.bids_before qb m);
        };
      }

  promised-traded :
      (u : ℤ) (w : Worker L) (oa ob : Order)
      → Crossing L w oa ob
      → IsBook L w
      → promised u (bids_of L w)
        ≡ promised u (bids_of L (traded L w oa ob))
          +ℤ (if ob.owner ==ℤ u then ob.price *ℤ trade_quantity oa ob else pos 0)
  promised-traded u w oa ob c h =
      rw (bids-traded L w oa ob c h, c.bids_eq)
        (promised-bids_left u (trade_quantity oa ob) ob c.bids_before)

  -- Over a run of trades from books in order with no negative quantity, what the trades take from a
  -- user is at most what the bids of the user promised before and no longer promise after, each
  -- price times quantity, also if the run ends in an error.
  pub Run-paid :
      {w : Worker L} {ps : List (Order × Order)} {w' : Worker L} {e : Option Error} (u : ℤ)
      → Run L w ps w' e
      → IsBook L w
      → IsStocked w
      → paid u ps *ℤ pos exp_int +ℤ promised u (bids_of L w') ≤ℤ promised u (bids_of L w)
  unfolding paid
  Run-paid u (at_rest r) h s = omega (int_laws, *ℤ_parts (pos 0) (pos exp_int))
  Run-paid {w} u (broken oa ob e c x) h s =
      let given = if ob.owner ==ℤ u then ob.price *ℤ trade_quantity oa ob else pos 0 in
      let f = traded-Fair w oa ob c h s in
      let after = promised u (bids_of L (traded L w oa ob)) in
      paid_next (paid_for u oa ob) (pos 0) given (promised u (bids_of L w)) after after
        (paid_for-le u oa ob c.crossed f.nonneg) (promised-traded u w oa ob c h)
        (omega (int_laws, *ℤ_parts (pos 0) (pos exp_int)))
  Run-paid {w} u (then_on oa ob {ps} {w'} c x r) h s =
      let given = if ob.owner ==ℤ u then ob.price *ℤ trade_quantity oa ob else pos 0 in
      let f = traded-Fair w oa ob c h s in
      paid_next (paid_for u oa ob) (paid u ps) given (promised u (bids_of L w))
        (promised u (bids_of L (traded L w oa ob))) (promised u (bids_of L w'))
        (paid_for-le u oa ob c.crossed f.nonneg) (promised-traded u w oa ob c h)
        (Run-paid u r (traded-IsBook L w oa ob c h) f.still)
