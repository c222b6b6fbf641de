-- ===== src/Model.antt =====
-- pkg/model: the names of the tables of a market and of a coin (tables.go), and `Lastkv`.
use ccoms.Prelude.{ℤ, ◌++◌}
use ccoms.Text.{Text, codes, to_lower}

unfoldable pub ticket_table : Text → Text → Text
ticket_table symbol side = to_lower (((symbol ++ codes "_") ++ side) ++ codes "_tickets")

unfoldable pub order_table : Text → Text
order_table symbol = to_lower (symbol ++ codes "_orders")

unfoldable pub trade_table : Text → Text
trade_table symbol = to_lower (symbol ++ codes "_trades")

unfoldable pub balance_snap_table : Text → Text
balance_snap_table coin = to_lower (coin ++ codes "_balance_snaps")

-- pkg/model/lastkv-model.go: a row of `lastkvs`.
pub record Lastkv : Type 0 where
  pub id : ℤ
  pub app : Text
  pub key : Text
  pub val : ℤ
