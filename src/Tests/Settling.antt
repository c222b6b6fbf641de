-- ===== src/Tests/Settling.antt =====
-- The trade of ask 1 with bid 4, at the banks of its two assets.
use ccoms.Prelude.{pos, [], ◌∷◌, arith}
use ccoms.Text.{codes, text_eq}
use ccoms.Dict.{get_or, lookup}
use ccoms.Bank.Assets.{IsCounted}
use ccoms.Bank.Worker.{Worker}
use ccoms.Bank.FromOme.Settlement.{Moves, handle_balance_change-Moves}
use ccoms.Ome.Structs.{int_to_decimal}
use ccoms.Ome.ToBank.{quote_change, base_change}
use ccoms.Ome.Match.{match_log}
use ccoms.Tests.Banking.{libs, bank}
use ccoms.Tests.Engine as Engine
use ccoms.Tests.Engine.{crossed}
use ccoms.Tests.Matching.{trade_entry}

-- The bider has 20 units frozen at the bank of the quote asset.
abbrev usdt_bank : Worker libs
usdt_bank = record bank { assets = (pos 4, record { free = pos 80; freeze = pos 20 }) ∷ [] }

-- The asker has 5 units frozen at the bank of the base asset.
abbrev btc_bank : Worker libs
btc_bank = record bank {
  name = codes "BANK_BTC";
  coin = codes "BTC";
  assets = (pos 1, record { free = pos 0; freeze = pos 5 }) ∷ [];
}

usdt_bank-IsCounted : IsCounted libs usdt_bank
unfolding get_or lookup text_eq
usdt_bank-IsCounted = record { log_id_range = omega arith; ticket_id_range = λ s. ground arith }

btc_bank-IsCounted : IsCounted libs btc_bank
unfolding get_or lookup text_eq
btc_bank-IsCounted = record { log_id_range = omega arith; ticket_id_range = λ s. ground arith }

handle_balance_change-Moves_example :
    Moves libs
      (int_to_decimal libs.decimal trade_entry.amount)
      (pos 1)
      (pos 4)
      (quote_change Engine.libs crossed (pos 3) (pos 4) trade_entry)
      usdt_bank
    × Moves libs
        (int_to_decimal libs.decimal trade_entry.quantity)
        (pos 4)
        (pos 1)
        (base_change Engine.libs crossed (pos 3) (pos 4) trade_entry)
        btc_bank
unfolding match_log
handle_balance_change-Moves_example =
    handle_balance_change-Moves Engine.libs libs.json libs.order_json crossed (pos 3) (pos 4)
      trade_entry usdt_bank btc_bank usdt_bank-IsCounted btc_bank-IsCounted (omega arith)
