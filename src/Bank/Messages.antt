-- ===== src/Bank/Messages.antt =====
-- pkg/bank/bank.go: `HandleOrderReq` and the loop `HandleBankMsgs`, with the sequence numbers that
-- are sent to be acknowledged.
pub mod Delivery
use ccoms.Prelude.{ℤ, leb_ℤ, Option, none, some, List, [], ◌∷◌, ◌++◌, if◌then◌else◌, Bool}
use ccoms.Errors.{Error, only_for_coin, unmarshal_failed, bad_metadata}
use ccoms.Text.{Text, codes, text_eq}
use ccoms.Bank.Structs.{BalanceChange}
use ccoms.Bank.Worker.{Libs, Worker}
use ccoms.Bank.Orders.{Req, create_order}
use ccoms.Bank.Changes.{handle_balance_change}

-- A message of NATS: its subject, its data and the stream sequence of its metadata, if it has any.
pub record Msg : Type 0 where
  pub subject : Text
  pub payload : Text
  pub stream_seq : Option ℤ

pub record BankMsg : Type 0 where
  pub n : Option Msg
  pub g : Option BalanceChange

module _ (L : Libs) where
  -- The worker, the acknowledgements that were sent, and the error.
  abbrev pub Handling : Type 0
  Handling = Worker L × List ℤ × Option Error

  abbrev pub acked : ℤ → Worker L × Option Error → Handling
  acked seq (w, none) = (w, seq ∷ [], none)
  acked seq (w, some only_for_coin) = (w, seq ∷ [], some only_for_coin)
  acked seq (w, some e) = (w, [], some e)

  abbrev pub sequenced : Req L → Option ℤ → Worker L → Handling
  sequenced o none w = (w, [], some bad_metadata)
  sequenced o (some seq) w =
      if leb_ℤ seq w.latest_msg_seq then (w, seq ∷ [], none) else acked seq (create_order L seq o w)

  abbrev pub decoded : Option (Req L) → Msg → Worker L → Handling
  decoded none msg w = (w, [], some unmarshal_failed)
  decoded (some o) msg w = sequenced o msg.stream_seq w

  unfoldable pub handle_order_req : Msg → Worker L → Handling
  handle_order_req msg w = decoded (L.order_json.unmarshal msg.payload) msg w

  abbrev pub nats_part : Option Msg → Worker L → Handling
  nats_part none w = (w, [], none)
  nats_part (some msg) w =
      if text_eq msg.subject ((codes "BANK." ++ w.coin) ++ codes ".OrderReq")
      then handle_order_req msg w
      else (w, [], none)

  abbrev pub grpc_part : Option BalanceChange → Worker L → Option (Worker L × Option Error)
  grpc_part none w = some (w, none)
  grpc_part (some bc) w = handle_balance_change L bc w

  abbrev pub with_acks : List ℤ → Option (Worker L × Option Error) → Option Handling
  with_acks acks none = none
  with_acks acks (some (w, e)) = some (w, acks, e)

  abbrev pub then_grpc : BankMsg → Handling → Option Handling
  then_grpc m (w, acks, some e) = some (w, acks, some e)
  then_grpc m (w, acks, none) = with_acks acks (grpc_part m.g w)

  -- One round of the loop; `none` is a panic.
  unfoldable pub handle_bank_msg : BankMsg → Worker L → Option Handling
  handle_bank_msg m w = then_grpc m (nats_part m.n w)

  -- The messages that come through the channel, up to the first error.
  unfoldable pub handle_bank_msgs : List BankMsg → Worker L → Option Handling
  handle_bank_msgs [] w = some (w, [], none)
  handle_bank_msgs (m ∷ ms) w = elim (handle_bank_msg m w) [
    | none ↦ none
    | some (w', acks, some e) ↦ some (w', acks, some e)
    | some (w', acks, none) ↦ elim (handle_bank_msgs ms w') [
      | none ↦ none
      | some (w'', more, e) ↦ some (w'', acks ++ more, e)
    ]
  ]
