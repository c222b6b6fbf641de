-- ===== src/Ome/Worker.antt =====
-- pkg/ome/ome.go: the state of the worker, and the messages that it receives.
use ccoms.Prelude.{ℤ, pos}
use ccoms.Text.{Text}
use ccoms.Filedb.{Filedb}
use ccoms.Extern.Json.{Json}
use ccoms.Extern.BTree.{BTree}
use ccoms.Extern.Clock.{Clock}
use ccoms.Extern.Decimal.{Decimal}
use ccoms.Ome.Structs.{Order, OmeLog, ask_less, bid_less}

-- A message of pkg/xgrpc/xgrpc.proto.
pub record Ticket : Type 0 where
  pub id : ℤ
  pub time : ℤ
  pub owner : ℤ
  pub side : ℤ
  pub ticket_type : ℤ
  pub price : Text
  pub quantity : Text
  pub fee_rate : ℤ

-- The libraries that the engine runs on.
pub record Libs : Type 1 where
  pub ask_tree : BTree Order ask_less
  pub bid_tree : BTree Order bid_less
  pub json : Json OmeLog
  pub decimal : Decimal

-- model.OrderSideAsk and model.OrderSideBid
abbrev pub side_ask : ℤ
side_ask = pos 1

abbrev pub side_bid : ℤ
side_bid = pos 2

pub record Worker (L : Libs) : Type 0 where
  pub asks : L.ask_tree.Tree
  pub bids : L.bid_tree.Tree
  pub fdb : Filedb
  pub name : Text
  pub symbol : Text
  pub base_asset : Text
  pub quote_asset : Text
  pub table_prefix : Text
  pub state : Text
  pub latest_ask_ticket_id : ℤ
  pub latest_bid_ticket_id : ℤ
  pub log_id : ℤ
  pub order_id : ℤ
  pub saved_log_id : ℤ
  pub to_bank_log_id : ℤ
  pub clock : Clock
