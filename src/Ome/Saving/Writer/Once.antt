-- ===== src/Ome/Saving/Writer/Once.antt =====
-- pkg/ome/filedb.go: which rows a batch of `ParseAndWriteLogs` adds.
use ccoms.Prelude.{
  ℤ, ◌≤ℤ◌, ltb_ℤ, ltb_ℤ→lt, ltb_ℤ→le, ◌≡◌, refl, ap, ap₂, sym, subst, ◌∙◌, inl, inr, Bool-cases,
  Option, none, some, List, [], ◌∷◌, ◌++◌, append-nil, append_assoc, All, false, arith,
}
use ccoms.Errors.{Result, ok, ok-injective, err≢ok, unmarshal_failed}
use ccoms.Text.{Text, to_lower}
use ccoms.Ome.Structs.{OmeLog}
use ccoms.Ome.Worker.{Libs, Worker}
use ccoms.Ome.Saving.{Batch, empty_batch, add_log, collected, collect, Statement, statements}
use ccoms.Ome.Saving.Again.{IsSaved}
use ccoms.Ome.Saving.Writer.CatchUp.{Rising, front, back, has_none, add_log-latest_id}
use ccoms.Ome.Saving.Writer.Windows.{
  above, between, last_id, Up, between_same, between-join, above-window,
}
use ccoms.Ome.Saving.Writer.Kinds.{Kind, logs_of, next_log, rows_of, rows_of-append}
use ccoms.Ome.Saving.Writer.Stored.{stored-statements, stored_by, stored_by-append}

module _ (L : Libs) where
  next_log-append :
      (o : Option OmeLog) (xs ys : List OmeLog) → next_log L o (xs ++ ys) ≡ next_log L o xs ++ ys
  next_log-append none xs ys = refl
  next_log-append (some l) xs ys = refl

  logs_of-append : (xs ys : List Text) → logs_of L (xs ++ ys) ≡ logs_of L xs ++ logs_of L ys
  unfolding logs_of
  logs_of-append [] ys = refl
  logs_of-append (s ∷ xs) ys =
      ap (next_log L (L.json.unmarshal s)) (logs_of-append xs ys)
      ∙ next_log-append (L.json.unmarshal s) (logs_of L xs) (logs_of L ys)

  pub logs_of-Up : (k : ℤ) (ss : List Text) → Rising L k ss → Up k (logs_of L ss)
  unfolding logs_of
  logs_of-Up k [] h = tt
  logs_of-Up k (s ∷ ss) (l, (e, (entry, (up, h)))) = rw e (up, logs_of-Up l.log_id ss h)

  logs_of-old :
      (n : ℤ) (ss : List Text) → All (IsSaved L n) ss → All (λ l. l.log_id ≤ℤ n) (logs_of L ss)
  unfolding logs_of
  logs_of-old n [] h = tt
  logs_of-old n (s ∷ ss) ((l, e, le), h) = rw e (le, logs_of-old n ss h)

  module _ (K : Kind L) where
    above_line :
        (saved : ℤ) (l : OmeLog) (ls : List OmeLog) (b : Batch L)
        → K.of_batch (add_log L saved l b) ++ rows_of K.of_log (above saved ls)
          ≡ K.of_batch b ++ rows_of K.of_log (above saved (l ∷ ls))
    unfolding above rows_of
    above_line saved l ls b = elim (Bool-cases (ltb_ℤ saved l.log_id)) [
      | inl new ↦
          rw (new, K.of_batch-new saved l b (ltb_ℤ→lt saved l.log_id new))
            (append_assoc (K.of_batch b) (K.of_log l) (rows_of K.of_log (above saved ls)))
      | inr old ↦ rw (old, K.of_batch-old saved l b (ltb_ℤ→le saved l.log_id old)) refl
    ]

    -- What the lines `ss` come to is read from the batch `b` on.
    abbrev Adds : ℤ → Batch L → Batch L → List OmeLog → Type 0
    Adds saved b b' ls = K.of_batch b' ≡ K.of_batch b ++ rows_of K.of_log (above saved ls)

    collect_line :
        (saved : ℤ) (o : Option OmeLog) (ls : List OmeLog) (b b' : Batch L)
        (rest : Batch L → Result (Batch L))
        → ((c : Batch L) → rest c ≡ ok b' → Adds saved c b' ls)
        → collected L saved b rest o ≡ ok b'
        → Adds saved b b' (next_log L o ls)
    collect_line saved none ls b b' rest h e = absurd (err≢ok unmarshal_failed b' e)
    collect_line saved (some l) ls b b' rest h e =
        h (add_log L saved l b) e ∙ above_line saved l ls b

    -- A batch has the rows of its logs that are not saved.
    collect_rows :
        (saved : ℤ) (ss : List Text) (b b' : Batch L)
        → collect L saved ss b ≡ ok b'
        → Adds saved b b' (logs_of L ss)
    unfolding collect logs_of
    collect_rows saved [] b b' e =
        ap K.of_batch (sym (ok-injective e))
        ∙ unfold above rows_of in sym (append-nil (K.of_batch b))
    collect_rows saved (s ∷ ss) b b' e =
        collect_line saved (L.json.unmarshal s) (logs_of L ss) b b' (collect L saved ss)
          (λ c. collect_rows saved ss c b') e

  latest_line :
      (saved : ℤ) (o : Option OmeLog) (ls : List OmeLog) (b b' : Batch L)
      (rest : Batch L → Result (Batch L))
      → ((c : Batch L) → rest c ≡ ok b' → b'.latest_log_id ≡ last_id c.latest_log_id ls)
      → collected L saved b rest o ≡ ok b'
      → b'.latest_log_id ≡ last_id b.latest_log_id (next_log L o ls)
  latest_line saved none ls b b' rest h e = absurd (err≢ok unmarshal_failed b' e)
  latest_line saved (some l) ls b b' rest h e =
      h (add_log L saved l b) e ∙ ap (λ i. last_id i ls) (add_log-latest_id L saved l b)

  collect-latest_id :
      (saved : ℤ) (ss : List Text) (b b' : Batch L)
      → collect L saved ss b ≡ ok b'
      → b'.latest_log_id ≡ last_id b.latest_log_id (logs_of L ss)
  unfolding collect logs_of
  collect-latest_id saved [] b b' e = ap (λ (c : Batch L). c.latest_log_id) (sym (ok-injective e))
  collect-latest_id saved (s ∷ ss) b b' e =
      latest_line saved (L.json.unmarshal s) (logs_of L ss) b b' (collect L saved ss)
        (λ c. collect-latest_id saved ss c b') e

  -- A batch with rows has logs, so that its latest ID is that of the last of them.
  latest_of_rows :
      (saved k j : ℤ) (ss : List Text) (b' : Batch L)
      → Rising L j ss
      → collect L saved ss (empty_batch L) ≡ ok b'
      → has_none L b' ≡ false
      → b'.latest_log_id ≡ last_id k (logs_of L ss)
  unfolding collect logs_of
  latest_of_rows saved k j [] b' h e n =
      absurd (ground (arith, ap (has_none L) (ok-injective e) ∙ n))
  latest_of_rows saved k j (s ∷ ss) b' (l, (p, h)) e n =
      collect-latest_id saved (s ∷ ss) (empty_batch L) b' e ∙ rw p refl

  -- The transactions `more` bring the rows of the logs of the file whose IDs are above the
  -- `SavedLogID` of `w` and at most that of `w'`, and store the latter.
  pub record Written (file : List OmeLog) (w : Worker L) (more : List (List (Statement L)))
      (w' : Worker L) : Type 1 where
    pub same_name : w'.name ≡ w.name
    pub saved_le : w.saved_log_id ≤ℤ w'.saved_log_id
    pub rows :
        (K : Kind L)
        → rows_of (rows_of K.of_statement) more
          ≡ rows_of K.of_log (between w.saved_log_id w'.saved_log_id file)
    pub stores : stored_by L (to_lower w.name) w.saved_log_id more ≡ w'.saved_log_id

  pub nothing_Written : (file : List OmeLog) (w : Worker L) → Written file w [] w
  unfolding rows_of stored_by
  nothing_Written file w = record {
    same_name = refl;
    saved_le = omega arith;
    rows = λ K. ap (rows_of K.of_log) (sym (between_same w.saved_log_id file));
    stores = refl;
  }

  pub Written-then :
      (k : ℤ) (file : List OmeLog) (w w1 w2 : Worker L) (xs ys : List (List (Statement L)))
      → Up k file
      → Written file w xs w1
      → Written file w1 ys w2
      → Written file w (xs ++ ys) w2
  Written-then k file w w1 w2 xs ys up a b = record {
    same_name = b.same_name ∙ a.same_name;
    saved_le = omega (arith, a.saved_le, b.saved_le);
    rows = λ K.
        rows_of-append (rows_of K.of_statement) xs ys
        ∙ ap₂ (λ r s. r ++ s) (a.rows K) (b.rows K)
        ∙ sym (rows_of-append K.of_log (between w.saved_log_id w1.saved_log_id file) _)
        ∙ ap (rows_of K.of_log) (
            between-join w.saved_log_id w1.saved_log_id w2.saved_log_id k file up a.saved_le
              b.saved_le);
    stores =
        stored_by-append L (to_lower w.name) w.saved_log_id xs ys
        ∙ ap (λ n. stored_by L (to_lower w.name) n ys) a.stores
        ∙ ap (λ app. stored_by L (to_lower app) w1.saved_log_id ys) (sym a.same_name)
        ∙ b.stores;
  }

  batch_window :
      (saved k : ℤ) (done ss rest : List Text) (b : Batch L)
      → Rising L k (done ++ (ss ++ rest))
      → All (IsSaved L saved) done
      → collect L saved ss (empty_batch L) ≡ ok b
      → has_none L b ≡ false
      → above saved (logs_of L ss)
        ≡ between saved b.latest_log_id (logs_of L (done ++ (ss ++ rest)))
  batch_window saved k done ss rest b h old e n =
      let parts : logs_of L (done ++ (ss ++ rest))
          ≡ logs_of L done ++ (logs_of L ss ++ logs_of L rest) =
        logs_of-append done (ss ++ rest) ∙ ap (λ r. logs_of L done ++ r) (logs_of-append ss rest) in
      let (j, later) = back L k done (ss ++ rest) h in
      above-window saved k (logs_of L done) (logs_of L ss) (logs_of L rest)
        (logs_of-old saved done old) (subst (Up k) parts (logs_of-Up k (done ++ (ss ++ rest)) h))
      ∙ ap₂ (λ m ls. between saved m ls)
          (sym (
            latest_of_rows saved (last_id k (logs_of L done)) j ss b (front L j ss rest later) e n))
          (sym parts)

  -- The transaction of a batch, after lines that are saved.
  pub batch_Written :
      (w : Worker L) (k : ℤ) (done ss rest : List Text) (b : Batch L)
      → Rising L k (done ++ (ss ++ rest))
      → All (IsSaved L w.saved_log_id) done
      → collect L w.saved_log_id ss (empty_batch L) ≡ ok b
      → has_none L b ≡ false
      → w.saved_log_id ≤ℤ b.latest_log_id
      → Written
          (logs_of L (done ++ (ss ++ rest)))
          w
          (statements L w b ∷ [])
          (record w { saved_log_id = b.latest_log_id })
  unfolding rows_of stored_by
  batch_Written w k done ss rest b h old e n le = record {
    same_name = refl;
    saved_le = le;
    rows = λ K.
        append-nil _
        ∙ K.of_statements-batch w b
        ∙ collect_rows K w.saved_log_id ss (empty_batch L) b e
        ∙ ap (λ r. r ++ rows_of K.of_log (above w.saved_log_id (logs_of L ss))) K.of_batch-empty
        ∙ ap (rows_of K.of_log) (batch_window w.saved_log_id k done ss rest b h old e n);
    stores = stored-statements L w b w.saved_log_id le;
  }
