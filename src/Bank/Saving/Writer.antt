-- ===== src/Bank/Saving/Writer.antt =====
-- pkg/bank/filedb.go: `FiledbToMySQL`, with `CheckoutLastKv` (pkg/bank/bank.go). The queries are
-- parameters: what they find, and what becomes of a row that is created.
use ccoms.Prelude.{ℕ, ℤ, pos, ltb_ℤ, Option, none, some, List, [], ◌∷◌, ◌++◌, if◌then◌else◌}
use ccoms.Errors.{Error, Result, ok, err}
use ccoms.Text.{Text, codes, to_lower}
use ccoms.Model.{Lastkv, balance_snap_table}
use ccoms.Filedb.{to_mysql}
use ccoms.Bank.Worker.{Libs, Worker}
use ccoms.Bank.Saving.{Statement, Saving, parse_and_write_logs}
use ccoms.Bank.Start.{load_saved_log_id}

abbrev pub found_or_created :
    (Lastkv → Result Lastkv) → Lastkv → Result (Option Lastkv) → Result Lastkv
found_or_created create kv (err e) = err e
found_or_created create kv (ok none) = create kv
found_or_created create kv (ok (some r)) = if ltb_ℤ (pos 0) r.id then ok r else create r

abbrev pub app_or : Text → Text → Text
app_or name [] = to_lower name
app_or name (c ∷ app) = c ∷ app

-- The lines of a batch before its last one, and the last one.
unfoldable pub before_last : Text → List Text → List Text
before_last s [] = []
before_last s (t ∷ ss) = s ∷ before_last t ss

unfoldable pub last_of : Text → List Text → Text
last_of s [] = s
last_of s (t ∷ ss) = last_of t ss

module _ (L : Libs) (find : Text → Text → Result (Option Lastkv))
    (create : Lastkv → Result Lastkv) where
  unfoldable pub checkout_last_kv : Text → Text → Worker L → Result Lastkv
  checkout_last_kv app key w =
      let a = app_or w.name app in
      found_or_created create (record { id = pos 0; app = a; key = key; val = pos 0 }) (find a key)

  -- The worker, and the transactions that the database has taken.
  abbrev pub Saved : Type 0
  Saved = Worker L × List (List (Statement L))

  abbrev pub kept : List (List (Statement L)) → Saving L → Saved × Option Error
  kept ts (w, none, e) = ((w, ts), e)
  kept ts (w, some t, none) = ((w, ts ++ t ∷ []), none)
  kept ts (w, some t, some e) = ((w, ts), some e)

  -- `ToMySQLHandler`; `ToMySQL` hands it at least one line.
  unfoldable pub save :
      (List (Statement L) → Option Error) → List Text → Saved → Saved × Option Error
  unfolding before_last last_of
  save db [] s = (s, none)
  save db (t ∷ ss) (w, ts) = kept ts (parse_and_write_logs L db (before_last t ss) (last_of t ss) w)

  abbrev pub first_error : Option Error → Option Error → Option Error
  first_error none e = e
  first_error (some x) e = some x

  abbrev pub ended : Option Error → Saved × List Text × Option Error → Saved × Option Error
  ended tailed (s, rest, e) = (s, first_error tailed e)

  abbrev pub checked :
      Option Error
      → (List (Statement L) → Option Error)
      → List ℕ
      → List Text
      → Worker L
      → Result Lastkv
      → Saved × Option Error
  checked tailed db qs lines w (err e) = ((w, []), some e)
  checked tailed db qs lines w (ok kv) = ended tailed (to_mysql (save db) qs lines (w, []))

  abbrev pub loaded :
      Option Error
      → (List (Statement L) → Option Error)
      → List ℕ
      → List Text
      → Worker L
      → ℤ × Option Error
      → Saved × Option Error
  loaded tailed db qs lines w (id, some e) = ((record w { saved_log_id = id }, []), some e)
  loaded tailed db qs lines w (id, none) =
      let w1 = record w { saved_log_id = id } in
      checked tailed db qs lines w1 (checkout_last_kv [] (codes "nats_seq") w1)

  -- `FiledbToMySQL`: `newest` is what the query of `LoadSavedLogID` finds in a table, `tailed` is
  -- the error of the task that follows the file, `lines` are what it has read.
  unfoldable pub filedb_to_mysql :
      (Text → Result (Option ℤ))
      → Option Error
      → (List (Statement L) → Option Error)
      → List ℕ
      → List Text
      → Worker L
      → Saved × Option Error
  unfolding checkout_last_kv save balance_snap_table
  filedb_to_mysql newest tailed db qs lines w =
      loaded tailed db qs lines w (load_saved_log_id (newest (balance_snap_table w.coin)))
