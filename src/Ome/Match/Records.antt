-- ===== src/Ome/Match/Records.antt =====
-- What the log of a trade (`OmeLog`, pkg/ome/structs.go) says of the two orders.
use ccoms.Prelude.{
  ℤ, pos, ◌+ℤ◌, ◌-ℤ◌, ◌*ℤ◌, ◌≤ℤ◌, div_ℕ, int_laws, inc64, ◌≡◌, ◌⊎◌, inl, inr, Bool-cases, List, [],
  ◌∷◌,
}
use ccoms.Ome.Structs.{Order, MatchLog, OmeLog, exp_int, less}
use ccoms.Ome.Match.{trade_quantity, reduce}

-- A trade of `oa` and `ob` at a price between theirs, which leaves nothing of one of the two.
pub record Describes (oa ob : Order) (m : MatchLog) : Type 0 where
  pub ask_id_eq : m.ask_id ≡ oa.id
  pub bid_id_eq : m.bid_id ≡ ob.id
  pub asker_eq : m.asker ≡ oa.owner
  pub bider_eq : m.bider ≡ ob.owner
  pub price_low : oa.price ≤ℤ m.price
  pub price_high : m.price ≤ℤ ob.price
  pub ask_left : m.ask_quantity +ℤ m.quantity ≡ oa.quantity
  pub bid_left : m.bid_quantity +ℤ m.quantity ≡ ob.quantity
  pub one_filled : (m.ask_quantity ≡ pos 0) ⊎ (m.bid_quantity ≡ pos 0)
  pub amount_eq : m.amount ≡ div_ℕ (m.price *ℤ m.quantity) exp_int

pub taken : (q r : ℤ) → (r -ℤ q) +ℤ q ≡ r
taken q r = omega int_laws

pub one_left :
    (oa ob : Order)
    → let q = trade_quantity oa ob in
      ((reduce q oa).quantity ≡ pos 0) ⊎ ((reduce q ob).quantity ≡ pos 0)
unfolding trade_quantity reduce less
one_left oa ob = elim (Bool-cases (less oa.quantity ob.quantity)) [
  | inl h ↦ inl (rw h (omega int_laws))
  | inr h ↦ inr (rw h (omega int_laws))
]

-- The logs have consecutive IDs after `id`, and are those of the trades, in order.
abbrev pub Recorded : ℤ → List (Order × Order) → List OmeLog → Type 0
Recorded id [] [] = Unit
Recorded id [] (l ∷ ls) = ⊥
Recorded id (p ∷ ps) [] = ⊥
Recorded id ((oa, ob) ∷ ps) (l ∷ ls) =
    (l.log_id ≡ inc64 id)
    × (l.order_logs ≡ [])
    × ((m : MatchLog) × (l.match_logs ≡ m ∷ []) × Describes oa ob m)
    × Recorded l.log_id ps ls
