-- ===== src/Bank/Worker.antt =====
-- pkg/bank/bank.go: the state of the worker, a user's asset in it, and the writing of a log.
use ccoms.Prelude.{suc, ℤ, Option, none, some, List, ◌∷◌, [], ◌++◌}
use ccoms.Errors.{Error, marshal_failed}
use ccoms.Text.{Text}
use ccoms.Dict.{Dict, int_eq, str_eq, get_or, insert}
use ccoms.Filedb.{Filedb, write_line}
use ccoms.Extern.Clock.{Clock}
use ccoms.Extern.Decimal.{Decimal}
use ccoms.Extern.Json.{Json}
use ccoms.Bank.Structs.{BankLog, UserAsset, OrderReq}

-- The libraries that the bank runs on.
pub record Libs : Type 1 where
  pub decimal : Decimal
  pub json : Json BankLog
  pub order_json : Json (OrderReq decimal)

pub record Worker (L : Libs) : Type 0 where
  pub name : Text
  pub coin : Text
  pub symbols : List Text
  pub state : Text
  pub log_id : ℤ
  pub ticket_ids : Dict Text ℤ
  pub assets : Dict ℤ (UserAsset L.decimal)
  pub ome_reason_ids : Dict Text ℤ
  pub latest_msg_seq : ℤ
  pub saved_log_id : ℤ
  pub fdb : Filedb
  pub clock : Clock

module _ (L : Libs) where
  abbrev pub Asset : Type 0
  Asset = UserAsset L.decimal

  abbrev pub zero_asset : Asset
  zero_asset = record { free = L.decimal.zero; freeze = L.decimal.zero }

  -- `CheckoutAsset`: the asset of a user; a new user has nothing.
  unfoldable pub checkout_asset : ℤ → Worker L → Asset
  checkout_asset owner w = get_or owner zero_asset w.assets

  -- The asset that `CheckoutAsset` has put into the map is changed through its pointer.
  unfoldable pub change_asset : ℤ → (Asset → Asset) → Worker L → Worker L
  unfolding checkout_asset
  change_asset owner f w = record w { assets = insert owner (f (checkout_asset owner w)) w.assets }

  -- `uaa.Free = uaa.Free.Add(x)` with `uaa.Freeze = uaa.Freeze.Add(y)`, and its undoing.
  abbrev pub add_to : L.decimal.D → L.decimal.D → Asset → Asset
  add_to x y a = record { free = L.decimal.add a.free x; freeze = L.decimal.add a.freeze y }

  abbrev pub take_from : L.decimal.D → L.decimal.D → Asset → Asset
  take_from x y a = record { free = L.decimal.sub a.free x; freeze = L.decimal.sub a.freeze y }

  -- The text of a log is written as one line; both steps may fail.
  abbrev pub written : Option Text → Worker L → Worker L × Option Error
  written none w = (w, some marshal_failed)
  written (some s) w = let r = write_line (s ++ 10 ∷ []) w.fdb in (record w { fdb = r.0 }, r.1)

  unfoldable pub write_log : BankLog → Worker L → Worker L × Option Error
  write_log l w =
      written (L.json.marshal l) (record w { clock = record w.clock { calls = suc w.clock.calls } })
