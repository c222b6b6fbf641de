-- ===== src/Ome/Saving/Writer/Resumed.antt =====
-- pkg/ome/ome.go, `StartWriter`: what its rounds leave in the tables of trades and orders.
use mathlib.Core.List.{flatten}
use ccoms.Prelude.{
  ℤ, ◌≤ℤ◌, ◌≡◌, ◌⊎◌, ap, ap₂, sym, subst, ◌∙◌, inl, inr, Option, none, some, List, [], ◌∷◌, ◌++◌,
  append-nil, append_assoc, arith,
}
use ccoms.Errors.{Error}
use ccoms.Text.{Text, codes, to_lower}
use ccoms.Filedb.{to_mysql}
use ccoms.Filedb.Batches.{IsReady, to_mysql-Batches}
use ccoms.Ome.Worker.{Libs, Worker}
use ccoms.Ome.Saving.{Statement}
use ccoms.Ome.Saving.Writer.{
  Saved, checked, loaded, load_saved_log_id, checkout_all, keys, filedb_to_mysql, WriterRound,
  round, add_taken, start_writer,
}
use ccoms.Ome.Saving.Writer.CatchUp.{Rising}
use ccoms.Ome.Saving.Writer.Windows.{between, between_same, between-join}
use ccoms.Ome.Saving.Writer.Kinds.{
  Kind, logs_of, log_trades, log_orders, statement_trades, statement_orders, rows_of,
  rows_of-append,
}
use ccoms.Ome.Saving.Writer.Tables.{trade_rows, order_rows}
use ccoms.Ome.Saving.Writer.Stored.{stored_by, stored_by-append}
use ccoms.Ome.Saving.Writer.Once.{logs_of-Up}
use ccoms.Ome.Saving.Writer.Progress.{handle}
use ccoms.Ome.Saving.Writer.Rounds.{Outcome, nothing, feed_Outcome}

module _ (L : Libs) (k : ℤ) (file : List Text) (h : Rising L k file) where
  -- The lines are the first of the file.
  abbrev pub IsStart : List Text → Type 0
  IsStart lines = (rest : List Text) × (lines ++ rest ≡ file)

  module _ (r : WriterRound L) (w : Worker L) where
    loop_Outcome :
        IsReady r.queued r.lines
        → IsStart r.lines
        → Outcome L file w [] (to_mysql (handle L r.find r.create r.db) r.queued r.lines (w, [])).0
    loop_Outcome ready (rest, p) =
        let f = handle L r.find r.create r.db in
        let b = to_mysql-Batches f r.queued r.lines (w, []) ready in
        let left = (to_mysql f r.queued r.lines (w, [])).1 in
        subst (λ (x : Saved L r.find r.create × Option Error). Outcome L file w [] x.0) b.handled
          (feed_Outcome L r.find r.create r.db k file h [] (left ++ rest) b.batches (w, [])
            (sym (append_assoc (flatten b.batches) left rest)
              ∙ ap (λ ss. ss ++ rest) b.in_order
              ∙ p)
            tt)

    checked_Outcome :
        IsReady r.queued r.lines
        → IsStart r.lines
        → (o : Option Error)
        → Outcome L file w [] (checked L r.find r.create r.tailed r.db r.queued r.lines w o).0
    checked_Outcome ready start (some e) = nothing L file w []
    checked_Outcome ready start none = loop_Outcome ready start

  -- What the query for the saved ID answers.
  abbrev found_id : WriterRound L → Worker L → ℤ × Option Error
  found_id r w = load_saved_log_id (r.find (to_lower w.name) (codes "saved_log_id"))

  -- A round whose query finds what is stored.
  round_Outcome :
      (r : WriterRound L) (w : Worker L) (n : ℤ)
      → found_id r w ≡ (n, none)
      → IsReady r.queued r.lines
      → IsStart r.lines
      → Outcome L file (record w { saved_log_id = n }) [] (round L r w).0
  unfolding filedb_to_mysql
  round_Outcome r w n e ready start =
      let w1 = record w { saved_log_id = n } in
      subst
        (λ a. Outcome L file w1 [] (loaded L r.find r.create r.tailed r.db r.queued r.lines w a).0)
        (sym e) (checked_Outcome r w1 ready start (checkout_all L r.find r.create keys w1))

  round_fails :
      (r : WriterRound L) (w : Worker L) (n : ℤ) (x : Error)
      → found_id r w ≡ (n, some x)
      → (round L r w).0 ≡ (record w { saved_log_id = n }, [])
  unfolding filedb_to_mysql
  round_fails r w n x e =
      ap (λ a. (loaded L r.find r.create r.tailed r.db r.queued r.lines w a).0) e

  -- In each round, the query for `SavedLogID` fails or finds what the transactions have stored, the
  -- lines are the first of the file, and the channel holds no more of them than are to come.
  abbrev pub Resumes : ℤ → List (WriterRound L) → Worker L × List (List (Statement L)) → Type 0
  Resumes n [] s = Unit
  Resumes n (r ∷ rs) (w, ts) =
      (((x : Error) × ((load_saved_log_id (r.find (to_lower w.name) (codes "saved_log_id"))).1
            ≡ some x))
        ⊎ (load_saved_log_id (r.find (to_lower w.name) (codes "saved_log_id"))
            ≡ (stored_by L (to_lower w.name) n ts, none)))
      × IsReady r.queued r.lines
      × IsStart r.lines
      × Resumes n rs (add_taken L ts (round L r w))

  -- The tables hold the rows of the logs from the ID `n` to the one that is stored.
  record Complete (n : ℤ) (s : Worker L × List (List (Statement L))) : Type 1 where
    pub stored_le : n ≤ℤ stored_by L (to_lower s.0.name) n s.1
    pub rows :
        (K : Kind L)
        → rows_of (rows_of K.of_statement) s.1
          ≡ rows_of K.of_log (between n (stored_by L (to_lower s.0.name) n s.1) (logs_of L file))

  none_Complete : (n : ℤ) (w : Worker L) → Complete n (w, [])
  unfolding stored_by rows_of
  none_Complete n w = record {
    stored_le = omega arith;
    rows = λ K. ap (rows_of K.of_log) (sym (between_same n (logs_of L file)));
  }

  later_Complete :
      (n : ℤ) (w : Worker L) (ts : List (List (Statement L)))
      (r : (Worker L × List (List (Statement L))) × Option Error)
      → Complete n (w, ts)
      → Outcome L file (record w { saved_log_id = stored_by L (to_lower w.name) n ts }) [] r.0
      → Complete n (add_taken L ts r)
  later_Complete n w ts ((w', more), e) c o =
      let app = to_lower w.name in
      let m = stored_by L app n ts in
      let now : stored_by L (to_lower w'.name) n (ts ++ more) ≡ w'.saved_log_id =
        ap (λ a. stored_by L (to_lower a) n (ts ++ more)) o.written.same_name
        ∙ stored_by-append L app n ts more
        ∙ ap (stored_by L app m) o.taken
        ∙ o.written.stores in
      record {
        stored_le = subst (λ v. n ≤ℤ v) (sym now) (omega (arith, c.stored_le, o.written.saved_le));
        rows = λ K.
            rows_of-append (rows_of K.of_statement) ts more
            ∙ ap₂ (λ a b. a ++ b) (c.rows K)
                (ap (rows_of (rows_of K.of_statement)) o.taken ∙ o.written.rows K)
            ∙ sym (
                rows_of-append K.of_log (between n m (logs_of L file))
                  (between m w'.saved_log_id (logs_of L file)))
            ∙ ap (rows_of K.of_log) (
                between-join n m w'.saved_log_id k (logs_of L file) (logs_of-Up L k file h)
                  c.stored_le o.written.saved_le
                ∙ ap (λ v. between n v (logs_of L file)) (sym now));
      }

  failed_Complete :
      (n v : ℤ) (w : Worker L) (ts : List (List (Statement L)))
      → Complete n (w, ts)
      → Complete n (record w { saved_log_id = v }, ts ++ [])
  failed_Complete n v w ts c =
      subst (λ t. Complete n (record w { saved_log_id = v }, t)) (sym (append-nil ts))
        (record { stored_le = c.stored_le; rows = c.rows })

  rounds_Complete :
      (n : ℤ) (rs : List (WriterRound L)) (w : Worker L) (ts : List (List (Statement L)))
      → Complete n (w, ts)
      → Resumes n rs (w, ts)
      → Complete n (start_writer L rs (w, ts))
  unfolding start_writer
  rounds_Complete n [] w ts c f = c
  rounds_Complete n (r ∷ rs) w ts c (inl (x, e), ready, start, f) =
      let s = add_taken L ts (round L r w) in
      let v = (found_id r w).0 in
      rounds_Complete n rs s.0 s.1
        (subst (λ (q : Worker L × List (List (Statement L))). Complete n (q.0, ts ++ q.1))
          (sym (round_fails r w v x (ap (λ o. (v, o)) e))) (failed_Complete n v w ts c))
        f
  rounds_Complete n (r ∷ rs) w ts c (inr e, ready, start, f) =
      let s = add_taken L ts (round L r w) in
      rounds_Complete n rs s.0 s.1
        (later_Complete n w ts (round L r w) c
          (round_Outcome r w (stored_by L (to_lower w.name) n ts) e ready start))
        f

  -- The writer of the engine creates each row once: whatever queries and transactions fail in its
  -- rounds, if each round that reads a saved ID reads the one that is stored, and each round is
  -- given the first lines of a log of rising IDs, each with an entry, and finds no more of them
  -- waiting than are to come, then the transactions that the database has taken create, in their
  -- order, exactly the trades and exactly the orders of the logs whose IDs are above the ID stored
  -- before the first round and at most the one that is stored after the last.
  pub start_writer_once :
      (n : ℤ) (rs : List (WriterRound L)) (w : Worker L)
      → Resumes n rs (w, [])
      → let (w', ts) = start_writer L rs (w, []) in
        let m = stored_by L (to_lower w'.name) n ts in
        (rows_of (rows_of (statement_trades L)) ts
          ≡ rows_of (log_trades L) (between n m (logs_of L file)))
        × (rows_of (rows_of (statement_orders L)) ts
            ≡ rows_of (log_orders L) (between n m (logs_of L file)))
  start_writer_once n rs w f =
      let c = rounds_Complete n rs w [] (none_Complete n w) f in
      unfold trade_rows order_rows in (c.rows (trade_rows L), c.rows (order_rows L))
