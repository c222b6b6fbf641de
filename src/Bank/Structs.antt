-- ===== src/Bank/Structs.antt =====
-- pkg/bank/structs.go, pkg/xnats/structs.go and the message `BalanceChange` of
-- pkg/xgrpc/xgrpc.proto.
use ccoms.Prelude.{ℤ, pos, negsuc, List, Bool, ltb_ℤ, ◌==ℤ◌}
use ccoms.Text.{Text}
use ccoms.Extern.Decimal.{Decimal}

pub record BalanceLog : Type 0 where
  pub log_index : ℤ
  pub reason : Text
  pub reason_table : Text
  pub reason_id : ℤ
  pub owner : ℤ
  pub coin : Text
  pub free_change : Text
  pub freeze_change : Text
  pub free_new : Text
  pub freeze_new : Text
  pub owner2 : ℤ
  pub coin2 : Text
  pub free_change2 : Text
  pub freeze_change2 : Text
  pub free_new2 : Text
  pub freeze_new2 : Text

pub record TicketLog : Type 0 where
  pub log_index : ℤ
  pub reason : Text
  pub reason_table : Text
  pub reason_id : ℤ
  pub id : ℤ
  pub owner : ℤ
  pub symbol : Text
  pub order_type : ℤ
  pub side : ℤ
  pub price : Text
  pub quantity : Text
  pub amount : Text

pub record BankLog : Type 0 where
  pub log_id : ℤ
  pub ts : ℤ
  pub msg_seq : ℤ
  pub balance_logs : List BalanceLog
  pub ticket_logs : List TicketLog

pub record BalanceChange : Type 0 where
  pub reason : Text
  pub reason_table : Text
  pub reason_id : ℤ
  pub owner : ℤ
  pub free_change : Text
  pub freeze_change : Text
  pub owner2 : ℤ
  pub free_change2 : Text
  pub freeze_change2 : Text
  pub reason_id_first : ℤ

module _ (L : Decimal) where
  open L use {D, Float, mul, new, new_from_big_int, big_int}

  pub record UserAsset : Type 0 where
    pub free : D
    pub freeze : D

  pub record OrderReq : Type 0 where
    pub symbol : Text
    pub owner : ℤ
    pub side : ℤ
    pub order_type : ℤ
    pub price : D
    pub quantity : D
    pub orig_qty : D
    pub amount : D
    pub time : ℤ
    pub fee_level : Float

  unfoldable pub decimal_to_int : D → ℤ
  decimal_to_int d = big_int (mul d (new (pos 1) (pos 12)))

  unfoldable pub int_to_decimal : ℤ → D
  int_to_decimal i = new_from_big_int i (negsuc 11)

unfoldable pub equal : ℤ → ℤ → Bool
equal a b = a ==ℤ b

unfoldable pub less : ℤ → ℤ → Bool
less a b = ltb_ℤ a b

unfoldable pub greater : ℤ → ℤ → Bool
greater a b = ltb_ℤ b a

unfoldable pub is_zero : ℤ → Bool
is_zero a = a ==ℤ pos 0
