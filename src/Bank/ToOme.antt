-- ===== src/Bank/ToOme.antt =====
-- pkg/bank/grpc.go: `Tickets`, which sends the tickets of a log line to an engine.
pub mod Handover
use ccoms.Prelude.{ℤ, pos, leb_ℤ, Option, none, some, List, [], ◌∷◌, if◌then◌else◌, Bool}
use ccoms.Errors.{Result, ok, err, unmarshal_failed}
use ccoms.Text.{Text}
use ccoms.Ome.Worker.{Ticket}
use ccoms.Bank.Structs.{BankLog, TicketLog}
use ccoms.Bank.Worker.{Libs}

-- The message for a ticket; its time is 0, and its fee rate is not set.
unfoldable pub ticket_message : TicketLog → Ticket
ticket_message tl = record {
  id = tl.id;
  time = pos 0;
  owner = tl.owner;
  side = tl.side;
  ticket_type = tl.order_type;
  price = tl.price;
  quantity = tl.quantity;
  fee_rate = pos 0;
}

-- The tickets above the ID that the engine has, whatever their symbols.
unfoldable pub tickets_after : ℤ → List TicketLog → List Ticket
unfolding ticket_message
tickets_after id [] = []
tickets_after id (tl ∷ tls) =
    let rest = tickets_after id tls in if leb_ℤ tl.id id then rest else ticket_message tl ∷ rest

module _ (L : Libs) where
  abbrev pub sent_after : ℤ → Option BankLog → Result (List Ticket)
  sent_after id none = err unmarshal_failed
  sent_after id (some l) = ok (tickets_after id l.ticket_logs)

  -- `push`, on one line of the log: what it sends if the stream takes it.
  unfoldable pub push_tickets : ℤ → Text → Result (List Ticket)
  unfolding tickets_after
  push_tickets id s = sent_after id (L.json.unmarshal s)
