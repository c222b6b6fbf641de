-- ===== src/Ome/Saving/Writer/Kinds.antt =====
-- pkg/ome/filedb.go: the rows that the transactions of `ParseAndWriteLogs` create, one kind for
-- each table.
use ccoms.Prelude.{
  ℤ, pos, ◌<ℤ◌, lt→leb_ℤ, le→leb_ℤ, ◌≤ℤ◌, ◌≡◌, refl, ap, sym, ◌∙◌, if_true, if_false, Option, none,
  some, List, [], ◌∷◌, ◌++◌, append-nil, append_assoc,
}
use ccoms.Text.{Text}
use ccoms.Ome.Structs.{OmeLog, MatchLog, OrderLog}
use ccoms.Ome.Worker.{Libs, Worker}
use ccoms.Ome.Saving.{
  TradeRow, OrderRow, Batch, empty_batch, trade_row, order_row, add_match, add_order, add_log,
  after_match, Statement, create_orders, create_trades, update_orders, mark_deleted, raise_lastkv,
  statements,
}

-- The rows of all items of a list, in their order.
unfoldable pub rows_of {ℓ κ} : {A : Type ℓ} {R : Type κ} → (A → List R) → List A → List R
rows_of f [] = []
rows_of f (x ∷ xs) = f x ++ rows_of f xs

pub rows_of-append {ℓ κ} :
    {A : Type ℓ} {R : Type κ} (f : A → List R) (xs ys : List A)
    → rows_of f (xs ++ ys) ≡ rows_of f xs ++ rows_of f ys
unfolding rows_of
rows_of-append f [] ys = refl
rows_of-append f (x ∷ xs) ys =
    ap (λ r. f x ++ r) (rows_of-append f xs ys)
    ∙ sym (append_assoc (f x) (rows_of f xs) (rows_of f ys))

module _ (L : Libs) where
  -- The logs of the lines that are logs.
  abbrev pub next_log : Option OmeLog → List OmeLog → List OmeLog
  next_log none ls = ls
  next_log (some l) ls = l ∷ ls

  unfoldable pub logs_of : List Text → List OmeLog
  logs_of [] = []
  logs_of (s ∷ ss) = next_log (L.json.unmarshal s) (logs_of ss)

  -- The trade that a log creates, and its order.
  abbrev pub match_trades : ℤ → List MatchLog → List (TradeRow L)
  match_trades id [] = []
  match_trades id (m ∷ ms) = trade_row L id m ∷ []

  abbrev pub first_index : List MatchLog → ℤ
  first_index [] = pos 0
  first_index (m ∷ ms) = pos 3

  abbrev pub new_orders : ℤ → ℤ → List OrderLog → List (OrderRow L)
  new_orders id index [] = []
  new_orders id index (o ∷ os) = order_row L id index o ∷ []

  abbrev pub log_trades : OmeLog → List (TradeRow L)
  log_trades l = match_trades l.log_id l.match_logs

  abbrev pub log_orders : OmeLog → List (OrderRow L)
  log_orders l = new_orders l.log_id (first_index l.match_logs) l.order_logs

  -- The rows that a statement creates.
  abbrev pub statement_trades : Statement L → List (TradeRow L)
  statement_trades (create_orders t rows) = []
  statement_trades (create_trades t rows) = rows
  statement_trades (update_orders t d) = []
  statement_trades (mark_deleted t ids) = []
  statement_trades (raise_lastkv a k v) = []

  abbrev pub statement_orders : Statement L → List (OrderRow L)
  statement_orders (create_orders t rows) = rows
  statement_orders (create_trades t rows) = []
  statement_orders (update_orders t d) = []
  statement_orders (mark_deleted t ids) = []
  statement_orders (raise_lastkv a k v) = []

  -- A kind of rows: those of a log, of a batch and of statements.
  pub record Kind : Type 1 where
    pub Row : Type 0
    pub of_log : OmeLog → List Row
    pub of_batch : Batch L → List Row
    pub of_statement : Statement L → List Row
    pub of_batch-empty : of_batch (empty_batch L) ≡ []
    pub of_batch-old :
        (saved : ℤ) (l : OmeLog) (b : Batch L)
        → l.log_id ≤ℤ saved
        → of_batch (add_log L saved l b) ≡ of_batch b
    pub of_batch-new :
        (saved : ℤ) (l : OmeLog) (b : Batch L)
        → saved <ℤ l.log_id
        → of_batch (add_log L saved l b) ≡ of_batch b ++ of_log l
    pub of_statements-batch :
        (w : Worker L) (b : Batch L) → rows_of of_statement (statements L w b) ≡ of_batch b

  matched_trades :
      (l : OmeLog) (ms : List MatchLog) (os : List OrderLog) (b : Batch L)
      → l.order_logs ≡ os
      → (after_match L l (add_match L l.log_id ms b)).trades ≡ b.trades ++ match_trades l.log_id ms
  unfolding add_match add_order
  matched_trades l [] [] b h = rw h (sym (append-nil b.trades))
  matched_trades l [] (o ∷ os) b h = rw h (sym (append-nil b.trades))
  matched_trades l (m ∷ ms) [] b h = rw h refl
  matched_trades l (m ∷ ms) (o ∷ os) b h = rw h refl

  matched_orders :
      (l : OmeLog) (ms : List MatchLog) (os : List OrderLog) (b : Batch L)
      → l.order_logs ≡ os
      → (after_match L l (add_match L l.log_id ms b)).orders
        ≡ b.orders ++ new_orders l.log_id (first_index ms) os
  unfolding add_match add_order
  matched_orders l [] [] b h = rw h (sym (append-nil b.orders))
  matched_orders l [] (o ∷ os) b h = rw h refl
  matched_orders l (m ∷ ms) [] b h = rw h (sym (append-nil b.orders))
  matched_orders l (m ∷ ms) (o ∷ os) b h = rw h refl

  pub trades-old :
      (saved : ℤ) (l : OmeLog) (b : Batch L)
      → l.log_id ≤ℤ saved
      → (add_log L saved l b).trades ≡ b.trades
  unfolding add_log
  trades-old saved l b h = ap (λ (c : Batch L). c.trades) (if_true _ _ (le→leb_ℤ l.log_id saved h))

  pub trades-new :
      (saved : ℤ) (l : OmeLog) (b : Batch L)
      → saved <ℤ l.log_id
      → (add_log L saved l b).trades ≡ b.trades ++ log_trades l
  unfolding add_log
  trades-new saved l b h =
      ap (λ (c : Batch L). c.trades) (if_false _ _ (lt→leb_ℤ saved l.log_id h))
      ∙ matched_trades l l.match_logs l.order_logs b refl

  pub orders-old :
      (saved : ℤ) (l : OmeLog) (b : Batch L)
      → l.log_id ≤ℤ saved
      → (add_log L saved l b).orders ≡ b.orders
  unfolding add_log
  orders-old saved l b h = ap (λ (c : Batch L). c.orders) (if_true _ _ (le→leb_ℤ l.log_id saved h))

  pub orders-new :
      (saved : ℤ) (l : OmeLog) (b : Batch L)
      → saved <ℤ l.log_id
      → (add_log L saved l b).orders ≡ b.orders ++ log_orders l
  unfolding add_log
  orders-new saved l b h =
      ap (λ (c : Batch L). c.orders) (if_false _ _ (lt→leb_ℤ saved l.log_id h))
      ∙ matched_orders l l.match_logs l.order_logs b refl
