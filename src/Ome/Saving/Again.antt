-- ===== src/Ome/Saving/Again.antt =====
-- pkg/ome/filedb.go: a writer that starts again at the head of the file.
use ccoms.Prelude.{
  ℤ, pos, ◌≤ℤ◌, leb_ℤ, le→leb_ℤ, ◌≡◌, refl, sym, ap, ◌∙◌, Bool-cases, inl, inr, if_true, if_false,
  Option, none, some, List, [], ◌∷◌, ◌++◌, All,
}
use ccoms.Errors.{Error, Result}
use ccoms.Text.{Text}
use ccoms.Ome.Structs.{MatchLog, OrderLog, OmeLog}
use ccoms.Ome.Worker.{Libs, Worker}
use ccoms.Ome.Saving.{
  Batch, empty_batch, add_match, add_order, add_log, after_match, collected, collect, Statement,
  written_batch, parse_and_write_logs,
}

module _ (L : Libs) where
  -- The line of a log that is saved.
  abbrev pub IsSaved : ℤ → Text → Type 0
  IsSaved saved s = (l : OmeLog) × (L.json.unmarshal s ≡ some l) × (l.log_id ≤ℤ saved)

  abbrev with_id : ℤ → Batch L → Batch L
  with_id id b = record b { latest_log_id = id }

  after_match-latest :
      (id : ℤ) (ms : List MatchLog) (os : List OrderLog) (l : OmeLog) (b : Batch L)
      → l.match_logs ≡ ms
      → l.order_logs ≡ os
      → after_match L l (add_match L l.log_id ms (with_id id b))
        ≡ after_match L l (add_match L l.log_id ms b)
  unfolding add_match add_order
  after_match-latest id [] [] l b hm ho = rw ho refl
  after_match-latest id [] (o ∷ os) l b hm ho = rw ho refl
  after_match-latest id (m ∷ ms) [] l b hm ho = rw ho refl
  after_match-latest id (m ∷ ms) (o ∷ os) l b hm ho = rw ho refl

  -- A log does not depend on the latest ID of the logs before it.
  add_log-latest :
      (saved id : ℤ) (l : OmeLog) (b : Batch L)
      → add_log L saved l (with_id id b) ≡ add_log L saved l b
  unfolding add_log
  add_log-latest saved id l b = elim (Bool-cases (leb_ℤ l.log_id saved)) [
    | inl h ↦ rw h refl
    | inr h ↦
        if_false _ _ h
        ∙ after_match-latest id l.match_logs l.order_logs l b refl refl
        ∙ sym (if_false _ _ h)
  ]

  -- Nor do the lines after the first.
  collected-latest :
      (saved id : ℤ) (b : Batch L) (rest : Batch L → Result (Batch L)) (o : Option OmeLog)
      → collected L saved (with_id id b) rest o ≡ collected L saved b rest o
  collected-latest saved id b rest none = refl
  collected-latest saved id b rest (some l) = ap rest (add_log-latest saved id l b)

  -- Without rows, the latest ID does not matter.
  written-latest :
      (db : List (Statement L) → Option Error) (id : ℤ) (ss : List Text) (w : Worker L)
      → written_batch L db w (collect L w.saved_log_id ss (with_id id (empty_batch L)))
        ≡ written_batch L db w (collect L w.saved_log_id ss (empty_batch L))
  unfolding collect
  written-latest db id [] w = refl
  written-latest db id (s ∷ ss) w = ap (written_batch L db w) (
      collected-latest w.saved_log_id id (empty_batch L) (collect L w.saved_log_id ss)
        (L.json.unmarshal s))

  skipped :
      (saved : ℤ) (s : Text) (b : Batch L) (rest : Batch L → Result (Batch L))
      → (h : IsSaved saved s)
      → collected L saved b rest (L.json.unmarshal s) ≡ rest (with_id h.0.log_id b)
  unfolding add_log
  skipped saved s b rest (l, e, le) =
      ap (collected L saved b rest) e ∙ ap rest (if_true _ _ (le→leb_ℤ l.log_id saved le))

  collect-again :
      (saved id : ℤ) (old new : List Text)
      → All (IsSaved saved) old
      → (j : ℤ) × (collect L saved (old ++ new) (with_id id (empty_batch L))
          ≡ collect L saved new (with_id j (empty_batch L)))
  unfolding collect
  collect-again saved id [] new h = (id, refl)
  collect-again saved id (s ∷ old) new h =
      let (j, e) = collect-again saved h.0.0.log_id old new h.1 in
      (j, skipped saved s (with_id id (empty_batch L)) (collect L saved (old ++ new)) h.0 ∙ e)

  -- Lines of logs that are saved, before the lines of a batch, change neither what becomes of the
  -- worker nor the transaction nor the error.
  parse_and_write_logs-again :
      (db : List (Statement L) → Option Error) (old new : List Text) (w : Worker L)
      → All (IsSaved w.saved_log_id) old
      → parse_and_write_logs L db (old ++ new) w ≡ parse_and_write_logs L db new w
  unfolding parse_and_write_logs
  parse_and_write_logs-again db old new w h =
      let (j, e) = collect-again w.saved_log_id (pos 0) old new h in
      ap (written_batch L db w) e ∙ written-latest db j new w
