-- ===== src/Ome/Saving/Writer.antt =====
-- pkg/ome/filedb.go: `FiledbToMySQL`, with `LoadSavedLogID`, `CheckoutLastKv` and `StartWriter`
-- (pkg/ome/ome.go). The queries are parameters: what they find, and what becomes of a row that is
-- created.
pub mod CatchUp
pub mod Kinds
pub mod Once
pub mod Progress
pub mod Resumed
pub mod Rounds
pub mod Stored
pub mod Tables
pub mod Windows
use ccoms.Prelude.{ℕ, ℤ, pos, ltb_ℤ, Option, none, some, List, [], ◌∷◌, ◌++◌, if◌then◌else◌, Bool}
use ccoms.Errors.{Error, Result, ok, err}
use ccoms.Text.{Text, codes, to_lower}
use ccoms.Model.{Lastkv}
use ccoms.Filedb.{to_mysql}
use ccoms.Ome.Worker.{Libs, Worker}
use ccoms.Ome.Saving.{Statement, Saving, parse_and_write_logs}

-- `LoadSavedLogID`, on the row that its query finds.
unfoldable pub load_saved_log_id : Result (Option Lastkv) → ℤ × Option Error
load_saved_log_id (err e) = (pos 0, some e)
load_saved_log_id (ok none) = (pos 0, none)
load_saved_log_id (ok (some kv)) = (kv.val, none)

abbrev pub found_or_created :
    (Lastkv → Result Lastkv) → Lastkv → Result (Option Lastkv) → Result Lastkv
found_or_created create kv (err e) = err e
found_or_created create kv (ok none) = create kv
found_or_created create kv (ok (some r)) = if ltb_ℤ (pos 0) r.id then ok r else create r

abbrev pub app_or : Text → Text → Text
app_or name [] = to_lower name
app_or name (c ∷ app) = c ∷ app

abbrev pub error_of : Result Lastkv → Option Error
error_of (ok kv) = none
error_of (err e) = some e

abbrev pub first_error : Option Error → Option Error → Option Error
first_error none e = e
first_error (some x) e = some x

-- The keys that are checked out at the start.
abbrev pub keys : List Text
keys =
    codes "saved_log_id"
    ∷ codes "latest_order_id"
    ∷ codes "latest_ask_ticket_id"
    ∷ codes "latest_bid_ticket_id"
    ∷ []

module _ (L : Libs) (find : Text → Text → Result (Option Lastkv))
    (create : Lastkv → Result Lastkv) where
  unfoldable pub checkout_last_kv : Text → Text → Worker L → Result Lastkv
  checkout_last_kv app key w =
      let a = app_or w.name app in
      found_or_created create (record { id = pos 0; app = a; key = key; val = pos 0 }) (find a key)

  -- The keys that are checked out, up to the first error.
  unfoldable pub checkout_all : List Text → Worker L → Option Error
  unfolding checkout_last_kv
  checkout_all [] w = none
  checkout_all (k ∷ ks) w = first_error (error_of (checkout_last_kv [] k w)) (checkout_all ks w)

  -- The worker, and the transactions that the database has taken.
  abbrev pub Saved : Type 0
  Saved = Worker L × List (List (Statement L))

  abbrev pub kept : List (List (Statement L)) → Saving L → Saved × Option Error
  kept ts (w, none, e) = ((w, ts), e)
  kept ts (w, some t, none) = ((w, ts ++ t ∷ []), none)
  kept ts (w, some t, some e) = ((w, ts), some e)

  -- `ToMySQLHandler`
  unfoldable pub save :
      (List (Statement L) → Option Error) → List Text → Saved → Saved × Option Error
  save db ss (w, ts) = kept ts (parse_and_write_logs L db ss w)

  -- An error of the following task that is there when `ToMySQL` ends comes first.
  abbrev pub ended : Option Error → Saved × List Text × Option Error → Saved × Option Error
  ended tailed (s, rest, e) = (s, first_error tailed e)

  abbrev pub checked :
      Option Error
      → (List (Statement L) → Option Error)
      → List ℕ
      → List Text
      → Worker L
      → Option Error
      → Saved × Option Error
  checked tailed db qs lines w (some e) = ((w, []), some e)
  checked tailed db qs lines w none = ended tailed (to_mysql (save db) qs lines (w, []))

  abbrev pub loaded :
      Option Error
      → (List (Statement L) → Option Error)
      → List ℕ
      → List Text
      → Worker L
      → ℤ × Option Error
      → Saved × Option Error
  loaded tailed db qs lines w (id, some e) = ((record w { saved_log_id = id }, []), some e)
  loaded tailed db qs lines w (id, none) =
      let w1 = record w { saved_log_id = id } in
      checked tailed db qs lines w1 (checkout_all keys w1)

  -- `FiledbToMySQL`: `tailed` is the error of the task that follows the file, `lines` are what it
  -- has read.
  unfoldable pub filedb_to_mysql :
      Option Error
      → (List (Statement L) → Option Error)
      → List ℕ
      → List Text
      → Worker L
      → Saved × Option Error
  unfolding load_saved_log_id checkout_all save
  filedb_to_mysql tailed db qs lines w =
      loaded tailed db qs lines w
        (load_saved_log_id (find (to_lower w.name) (codes "saved_log_id")))

module _ (L : Libs) where
  -- What one round of the writer meets.
  pub record WriterRound : Type 0 where
    pub find : Text → Text → Result (Option Lastkv)
    pub create : Lastkv → Result Lastkv
    pub tailed : Option Error
    pub db : List (Statement L) → Option Error
    pub queued : List ℕ
    pub lines : List Text

  abbrev pub round : WriterRound → Worker L → (Worker L × List (List (Statement L))) × Option Error
  unfolding filedb_to_mysql
  round r w = filedb_to_mysql L r.find r.create r.tailed r.db r.queued r.lines w

  -- An error is written to the log, and the next round follows a second later.
  abbrev pub add_taken :
      List (List (Statement L))
      → (Worker L × List (List (Statement L))) × Option Error
      → Worker L × List (List (Statement L))
  add_taken ts ((w, more), e) = (w, ts ++ more)

  -- `StartWriter`, up to the end of the last of the rounds.
  unfoldable pub start_writer :
      List WriterRound → Worker L × List (List (Statement L)) → Worker L × List (List (Statement L))
  start_writer [] s = s
  start_writer (r ∷ rs) (w, ts) = start_writer rs (add_taken ts (round r w))
