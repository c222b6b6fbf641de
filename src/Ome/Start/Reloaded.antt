-- ===== src/Ome/Start/Reloaded.antt =====
-- An order that pkg/ome/filedb.go saves, as pkg/ome/ome.go loads it.
use ccoms.Prelude.{ℤ, pos, ◌*ℤ◌, ◌≡◌, refl, arith}
use ccoms.Extern.Floats.{Floats, IsExact}
use ccoms.Ome.Structs.{OrderLog, decimal_to_int, int_to_decimal}
use ccoms.Ome.Worker.{Libs}
use ccoms.Ome.Saving.{OrderRow, order_row}
use ccoms.Ome.Start.{StoredOrder, loaded_order}

module _ (L : Libs) (F : Floats L.decimal.Float) where
  -- The database gives back the columns as they were set.
  abbrev pub read_back : OrderRow L → StoredOrder L
  read_back r = record {
    id = r.id;
    ticket_id = r.ticket_id;
    owner = r.owner;
    side = r.side;
    fee_level = F.of_int r.fee_level;
    price = r.price;
    quantity = r.quantity;
  }

  -- A new order that is saved and loaded again has its IDs, its price and its quantity to the last
  -- unit, and 10000 times its fee rate, where `float64` has both numbers exactly.
  pub loaded_order-order_row :
      (log_id log_index : ℤ) (o : OrderLog)
      → IsExact o.fee_rate
      → IsExact (o.fee_rate *ℤ pos 10000)
      → loaded_order L F (read_back (order_row L log_id log_index o)) ≡ record {
        id = o.id;
        ticket_id = o.ticket_id;
        owner = o.owner;
        fee_rate = o.fee_rate *ℤ pos 10000;
        price = o.price;
        quantity = o.quantity;
      }
  unfolding loaded_order order_row decimal_to_int int_to_decimal
  loaded_order-order_row log_id log_index o exact times_exact =
      rw
        (
          F.to_int-times o.fee_rate (pos 10000) exact (omega arith, omega arith) times_exact,
          L.decimal.big_int-scaled o.price,
          L.decimal.big_int-scaled o.quantity,
        )
        refl
