-- ===== src/App/Programs.antt =====
-- cmd/main/main.go: `main` with the programs that it starts, and the choice of the settings file in
-- pkg/config/config.go.
use ccoms.Prelude.{
  ℤ, ◌≡◌, ◌⊎◌, refl, inl, inr, Bool, true, false, ◌||◌, Bool-cases, if◌then◌else◌, Option, none,
  some, List, [], ◌∷◌, ◌++◌,
}
use ccoms.Errors.{Error, Result, ok, err, invalid_app, empty_coin, empty_symbol}
use ccoms.Text.{Text, codes, text_eq}
use ccoms.Model.{Lastkv}
use ccoms.Filedb.{Filedb}
use ccoms.Extern.Clock.{Clock}
use ccoms.Extern.Floats.{Floats}
use ccoms.Ome.Worker as Ome
use ccoms.Ome.Start as OmeStart
use ccoms.Bank.Worker as Bank
use ccoms.Bank.Start as BankStart
use ccoms.Bank.Messages.{BankMsg, Handling}

abbrev or_default : Text → Text → Text
or_default d [] = d
or_default d (c ∷ s) = c ∷ s

-- `EasyInit`: the path of the settings file, where `is_absent` is what `os.Stat` says of a path.
unfoldable pub config_path : (Text → Bool) → Text → Text
config_path is_absent flag =
    let path = or_default (codes "config/config.yml") flag in
    if is_absent path then codes "/usr/local/ccoms/devdata/config.yml" else path

-- The path of the log of a program, from the flags `logdir` and `logfile`; `DataDir` and the flags
-- are taken as `filepath.Join` leaves them.
unfoldable pub app_log_path : Text → Text → Text → Text → Text
app_log_path data_dir app dir file =
    or_default (data_dir ++ codes "/logs") dir ++ codes "/" ++ or_default (app ++ codes ".log") file

-- What a program returns, if it does.
module _ (L : Bank.Libs) (open_log : Text → Filedb × Option Error) (data_dir : Text)
    (clock : Clock) where
  abbrev bank_error : Option (Handling L) → Option (Option Error)
  bank_error none = none
  bank_error (some (w, acks, e)) = some e

  abbrev run_bank :
      (Bank.Worker L → Option (Handling L)) → Result (Bank.Worker L) → Option (Option Error)
  run_bank run (err e) = some (some e)
  run_bank run (ok w) = bank_error (run w)

  -- `startBank`, with what `Run` of the bank meets.
  unfoldable pub start_bank :
      List (Result (Option ℤ))
      → Result (List (BankStart.Balance L))
      → BankStart.TicketQuery L
      → Result (List Lastkv)
      → List BankMsg
      → Text
      → Option (Option Error)
  unfolding BankStart.new_worker BankStart.run
  start_bank seen bs q kvs ms [] = some (some empty_coin)
  start_bank seen bs q kvs ms (c ∷ coin) =
      run_bank (λ w. BankStart.run L seen bs q kvs ms w)
        (BankStart.new_worker L open_log data_dir (c ∷ coin) clock)

module _ (L : Ome.Libs) (open_log : Text → Filedb × Option Error) (data_dir : Text)
    (clock : Clock) where
  abbrev ome_error : Option (Ome.Worker L × Option Error) → Option (Option Error)
  ome_error none = none
  ome_error (some (w, e)) = some e

  abbrev run_ome :
      (Ome.Worker L → Option (Ome.Worker L × Option Error))
      → Result (Ome.Worker L)
      → Option (Option Error)
  run_ome run (err e) = some (some e)
  run_ome run (ok w) = ome_error (run w)

  -- `startOme`, with what `Run` of the engine meets.
  unfoldable pub start_ome :
      Floats L.decimal.Float
      → List ℤ
      → Result (List (OmeStart.StoredOrder L))
      → Result (List Lastkv)
      → List Ome.Ticket
      → Text
      → Option (Option Error)
  unfolding OmeStart.new_worker OmeStart.run
  start_ome F seen rows kvs ts [] = some (some empty_symbol)
  start_ome F seen rows kvs ts (c ∷ symbol) =
      run_ome (λ w. OmeStart.run L F seen rows kvs ts w)
        (OmeStart.new_worker L open_log data_dir (c ∷ symbol) clock)

-- The programs by their names.
pub data Program : Type 0 where
  ingress bank ome bm fm : Program

-- `apps`
unfoldable pub is_app : Text → Bool
is_app a =
    text_eq a (codes "ingress")
    || (text_eq a (codes "bank")
        || (text_eq a (codes "ome") || (text_eq a (codes "bm") || text_eq a (codes "fm"))))

-- The `switch`.
unfoldable pub program_of : Text → Option Program
program_of a =
    if text_eq a (codes "ingress")
    then some ingress
    else if text_eq a (codes "bank")
    then some bank
    else if text_eq a (codes "ome")
    then some ome
    else if text_eq a (codes "bm")
    then some bm
    else if text_eq a (codes "fm")
    then some fm
    else none

-- How `main` ends.
pub data Ended : Type 0 where
  returned : Ended
  panicked : Error → Ended

abbrev pub ended : Option Error → Ended
ended none = returned
ended (some e) = panicked e

abbrev program_end : Option (Option Error) → Option Ended
program_end none = none
program_end (some e) = some (ended e)

abbrev run_chosen : (Program → Option (Option Error)) → Option Program → Option Ended
run_chosen run none = some returned
run_chosen run (some p) = program_end (run p)

abbrev after_etcd : (Program → Option (Option Error)) → Option Program → Option Error → Option Ended
after_etcd run p (some e) = some (panicked e)
after_etcd run p none = run_chosen run p

-- `main`, by the flag `app`: `etcd` is the error of `xetcd.InitShared`, and `run` is what the programs
-- return, where `none` is one that goes on. The settings, the logger and the database are there.
unfoldable pub main : Text → Option Error → (Program → Option (Option Error)) → Option Ended
unfolding is_app program_of
main app etcd run =
    if is_app app then after_etcd run (program_of app) etcd else some (panicked invalid_app)

known :
    (a : Text) → (is_app a ≡ false) ⊎ ((p : Program) × (is_app a ≡ true) × (program_of a ≡ some p))
unfolding is_app program_of
known a = elim (Bool-cases (text_eq a (codes "ingress"))) [
  | inl h ↦ inr (ingress, rw h refl, rw h refl)
  | inr h1 ↦ elim (Bool-cases (text_eq a (codes "bank"))) [
    | inl h ↦ inr (bank, rw (h1, h) refl, rw (h1, h) refl)
    | inr h2 ↦ elim (Bool-cases (text_eq a (codes "ome"))) [
      | inl h ↦ inr (ome, rw (h1, h2, h) refl, rw (h1, h2, h) refl)
      | inr h3 ↦ elim (Bool-cases (text_eq a (codes "bm"))) [
        | inl h ↦ inr (bm, rw (h1, h2, h3, h) refl, rw (h1, h2, h3, h) refl)
        | inr h4 ↦ elim (Bool-cases (text_eq a (codes "fm"))) [
          | inl h ↦ inr (fm, rw (h1, h2, h3, h4, h) refl, rw (h1, h2, h3, h4, h) refl)
          | inr h5 ↦ inl (rw (h1, h2, h3, h4, h5) refl)
        ]
      ]
    ]
  ]
]

-- `main` panics on a name that is no program, and a program that is known is never passed over:
-- without an error of etcd, `main` ends as the program does.
main_lem :
    (app : Text) (run : Program → Option (Option Error))
    → (main app none run ≡ some (panicked invalid_app))
      ⊎ ((p : Program) × (program_of app ≡ some p) × (main app none run ≡ program_end (run p)))
unfolding main
main_lem app run = elim (known app) [
  | inl h ↦ inl (rw h refl)
  | inr (p, h, e) ↦ inr (p, e, rw (h, e) refl)
]
