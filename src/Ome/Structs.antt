-- ===== src/Ome/Structs.antt =====
-- pkg/ome/structs.go: orders, their orders of priority, and the records of the engine's log.
use ccoms.Prelude.{ℕ, ℤ, pos, negsuc, ltb_ℤ, ◌==ℤ◌, Bool, false, List, if◌then◌else◌}
use ccoms.Extern.Decimal.{Decimal}

pub record MatchLog : Type 0 where
  pub log_index : ℤ
  pub asker : ℤ
  pub ask_id : ℤ
  pub ask_price : ℤ
  pub ask_quantity : ℤ
  pub bider : ℤ
  pub bid_id : ℤ
  pub bid_price : ℤ
  pub bid_quantity : ℤ
  pub price : ℤ
  pub quantity : ℤ
  pub amount : ℤ
  pub ask_fee : ℤ
  pub bid_fee : ℤ
  pub time : ℤ

pub record OrderLog : Type 0 where
  pub log_index : ℤ
  pub id : ℤ
  pub ticket_id : ℤ
  pub owner : ℤ
  pub fee_rate : ℤ
  pub time : ℤ
  pub side : ℤ
  pub order_type : ℤ
  pub price : ℤ
  pub quantity : ℤ

pub record OmeLog : Type 0 where
  pub log_id : ℤ
  pub ts : ℤ
  pub order_logs : List OrderLog
  pub match_logs : List MatchLog

pub record NewOrder : Type 0 where
  pub id : ℤ
  pub ticket_id : ℤ
  pub owner : ℤ
  pub fee_rate : ℤ
  pub time : ℤ
  pub side : ℤ
  pub order_type : ℤ
  pub price : ℤ
  pub quantity : ℤ

pub record Order : Type 0 where
  pub id : ℤ
  pub ticket_id : ℤ
  pub owner : ℤ
  pub fee_rate : ℤ
  pub price : ℤ
  pub quantity : ℤ

-- Go's comparison of two `*big.Int`.
unfoldable pub less : ℤ → ℤ → Bool
less a b = ltb_ℤ a b

unfoldable pub greater : ℤ → ℤ → Bool
greater a b = ltb_ℤ b a

unfoldable pub equal : ℤ → ℤ → Bool
equal a b = a ==ℤ b

unfoldable pub is_zero : ℤ → Bool
is_zero a = a ==ℤ pos 0

-- `Order.Less`: a higher price first, then a lower ID.
unfoldable pub order_less : Order → Order → Bool
order_less a b =
    if a.id ==ℤ b.id
    then false
    else if a.price ==ℤ b.price
    then ltb_ℤ a.id b.id
    else ltb_ℤ b.price a.price

-- `AskOrder.Less` and `BidOrder.Less`: a lower price first, then a lower ID.
unfoldable pub ask_less : Order → Order → Bool
ask_less a b =
    if a.id ==ℤ b.id
    then false
    else if a.price ==ℤ b.price
    then ltb_ℤ a.id b.id
    else ltb_ℤ a.price b.price

unfoldable pub bid_less : Order → Order → Bool
bid_less a b =
    if a.id ==ℤ b.id
    then false
    else if a.price ==ℤ b.price
    then ltb_ℤ a.id b.id
    else ltb_ℤ a.price b.price

-- `ExpInt`: the integers of the engine count units of 10^-12.
abbrev pub exp_int : ℕ
exp_int = 1000000000000

module _ (L : Decimal) where
  open L use {D, mul, new, new_from_big_int, big_int}

  unfoldable pub decimal_to_int : D → ℤ
  decimal_to_int d = big_int (mul d (new (pos 1) (pos 12)))

  unfoldable pub int_to_decimal : ℤ → D
  int_to_decimal i = new_from_big_int i (negsuc 11)
