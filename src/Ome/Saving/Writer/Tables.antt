-- ===== src/Ome/Saving/Writer/Tables.antt =====
-- pkg/ome/filedb.go: what the statements of a transaction add to the tables of trades and orders.
use ccoms.Prelude.{
  ℤ, pos, ltb_ℤ, ◌≡◌, refl, ap, ap₂, ◌∙◌, Bool-cases, inl, inr, List, [], ◌∷◌, ◌++◌, append-nil,
}
use ccoms.Dict.{Dict}
use ccoms.Model.{order_table, trade_table}
use ccoms.Text.{Text}
use ccoms.Ome.Worker.{Libs, Worker}
use ccoms.Ome.Saving.{
  TradeRow, OrderRow, OrderUpdate, Batch, Statement, create_orders, create_trades, update_orders,
  mark_deleted, raise_lastkv, unless_empty, if_positive, filled, statements,
}
use ccoms.Ome.Saving.Writer.Kinds.{
  Kind, log_trades, log_orders, statement_trades, statement_orders, rows_of, rows_of-append,
  trades-old, trades-new, orders-old, orders-new,
}

module _ (L : Libs) where
  module _ {R : Type 0} (f : Statement L → List R) where
    no_rows :
        {A : Type 0} (xs : List A) (st : Statement L)
        → f st ≡ []
        → rows_of f (unless_empty L xs st) ≡ []
    unfolding rows_of
    no_rows [] st h = refl
    no_rows (x ∷ xs) st h = rw h refl

    no_rows_if : (v : ℤ) (st : Statement L) → f st ≡ [] → rows_of f (if_positive L v st) ≡ []
    unfolding rows_of
    no_rows_if v st h = elim (Bool-cases (ltb_ℤ (pos 0) v)) [
      | inl p ↦ rw (p, h) refl
      | inr p ↦ rw p refl
    ]

    no_row : (st : Statement L) → f st ≡ [] → rows_of f (st ∷ []) ≡ []
    unfolding rows_of
    no_row st h = rw h refl

    cut : (xs ys : List (Statement L)) → rows_of f ys ≡ [] → rows_of f (xs ++ ys) ≡ rows_of f xs
    cut xs ys h = rows_of-append f xs ys ∙ ap (λ r. rows_of f xs ++ r) h ∙ append-nil (rows_of f xs)

    -- Statements with rows of this kind in the first two at most.
    created :
        (w : Worker L) (b : Batch L)
        → ((t : Text) (d : Dict ℤ (OrderUpdate L)) → f (update_orders t d) ≡ [])
        → ((t : Text) (ids : List ℤ) → f (mark_deleted t ids) ≡ [])
        → ((a k : Text) (v : ℤ) → f (raise_lastkv a k v) ≡ [])
        → rows_of f (statements L w b)
          ≡ rows_of f (unless_empty L b.orders (create_orders (order_table w.symbol) b.orders))
            ++ rows_of f (unless_empty L b.trades (create_trades (trade_table w.symbol) b.trades))
    unfolding statements
    created w b hu hm hr =
        cut _ _ (no_rows_if _ _ (hr _ _ _))
        ∙ cut _ _ (no_rows_if _ _ (hr _ _ _))
        ∙ cut _ _ (no_rows_if _ _ (hr _ _ _))
        ∙ cut _ _ (no_row _ (hr _ _ _))
        ∙ cut _ _ (no_rows (filled L b.updates) _ (hm _ _))
        ∙ cut _ _ (no_rows b.updates _ (hu _ _))
        ∙ rows_of-append f _ _

  created_trades :
      (w : Worker L) (rows : List (TradeRow L))
      → rows_of
          (statement_trades L)
          (unless_empty L rows (create_trades (trade_table w.symbol) rows))
        ≡ rows
  unfolding rows_of
  created_trades w [] = refl
  created_trades w (x ∷ xs) = append-nil (x ∷ xs)

  pub trades_created :
      (w : Worker L) (b : Batch L) → rows_of (statement_trades L) (statements L w b) ≡ b.trades
  trades_created w b =
      created (statement_trades L) w b (λ t d. refl) (λ t ids. refl) (λ a k v. refl)
      ∙ ap₂ (λ xs ys. xs ++ ys)
          (no_rows (statement_trades L) b.orders (create_orders (order_table w.symbol) b.orders)
            refl)
          (created_trades w b.trades)

  created_orders :
      (w : Worker L) (rows : List (OrderRow L))
      → rows_of
          (statement_orders L)
          (unless_empty L rows (create_orders (order_table w.symbol) rows))
        ≡ rows
  unfolding rows_of
  created_orders w [] = refl
  created_orders w (x ∷ xs) = append-nil (x ∷ xs)

  pub orders_created :
      (w : Worker L) (b : Batch L) → rows_of (statement_orders L) (statements L w b) ≡ b.orders
  orders_created w b =
      created (statement_orders L) w b (λ t d. refl) (λ t ids. refl) (λ a k v. refl)
      ∙ ap₂ (λ xs ys. xs ++ ys) (created_orders w b.orders)
          (no_rows (statement_orders L) b.trades (create_trades (trade_table w.symbol) b.trades)
            refl)
      ∙ append-nil b.orders

  -- The table of trades, and that of orders.
  unfoldable pub trade_rows : Kind L
  trade_rows = record {
    Row = TradeRow L;
    of_log = log_trades L;
    of_batch = λ b. b.trades;
    of_statement = statement_trades L;
    of_batch-empty = refl;
    of_batch-old = trades-old L;
    of_batch-new = trades-new L;
    of_statements-batch = trades_created;
  }

  unfoldable pub order_rows : Kind L
  order_rows = record {
    Row = OrderRow L;
    of_log = log_orders L;
    of_batch = λ b. b.orders;
    of_statement = statement_orders L;
    of_batch-empty = refl;
    of_batch-old = orders-old L;
    of_batch-new = orders-new L;
    of_statements-batch = orders_created;
  }
