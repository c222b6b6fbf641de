-- ===== src/Bank/Start/Resuming.antt =====
-- pkg/bank/bank.go: `New` on the log file that a bank has left.
use mathlib.Core.List.{append_assoc}
use ccoms.Prelude.{
  ◌+◌, ◌≤◌, ℤ, ◌≡◌, refl, sym, ap, ◌∙◌, true, Option, none, some, [], ◌∷◌, ◌++◌, arith, length,
  length-append,
}
use ccoms.Errors.{Error, Result, ok, no_error}
use ccoms.Text.{Text, codes, to_upper}
use ccoms.Filedb.{Filedb, new, read_last_line, last_line}
use ccoms.Filedb.LastLine.{last_line_lem}
use ccoms.Filedb.Writes.{IsIntact, read_last_line_lem}
use ccoms.Extern.Clock.{Clock}
use ccoms.Extern.Json.{StartsSolid}
use ccoms.Bank.Structs.{BankLog}
use ccoms.Bank.Worker.{Libs, Worker}
use ccoms.Bank.Assets.{Logged, IsCounted}
use ccoms.Bank.Orders.{Req, Terms, create_order, reserve, order_total, order_bank_log}
use ccoms.Bank.Orders.Booking.{Booked, reserve-log_id}
use ccoms.Bank.Orders.Outcome.{
  Ordered, bad_symbol, bad_side, other_coin, unwritten, booked, create_order_lem,
}
use ccoms.Bank.Start.{initial, log_path, from_log, from_line, new_worker}

module _ (L : Libs) where
  line_of :
      (w : Worker L) (t : Text)
      → StartsSolid t
      → from_line L w (ok t) ≡ from_log L w (L.json.unmarshal t)
  line_of w [] h = absurd h
  line_of w (c ∷ s) h = refl

  -- A worker of the bank that goes on from the log `l`.
  pub record GoesOn (l : BankLog) (r : Result (Worker L)) : Type 0 where
    pub worker : Worker L
    pub returns : r ≡ ok worker
    pub log_id_eq : worker.log_id ≡ l.log_id
    pub msg_seq_eq : worker.latest_msg_seq ≡ l.msg_seq

  -- `filedb.New` on a file that is there, with this content.
  abbrev pub reopened : Text → Text → Filedb × Option Error
  reopened content path = new path true (some content)

  new_worker-GoesOn :
      (l : BankLog) (w w' : Worker L) (data_dir coin : Text) (clock : Clock)
      → Logged L l w w'
      → IsIntact w.fdb
      → length w'.fdb.content ≤ length w.fdb.content + 1024
      → GoesOn l (new_worker L (reopened w'.fdb.content) data_dir coin clock)
  unfolding new_worker new
  new_worker-GoesOn l w w' data_dir coin clock k intact fits =
      let line = L.json.marshal-IsLine l k.text k.marshalled in
      let f =
        (new (log_path data_dir (codes "Bank_" ++ to_upper coin)) true (some w'.fdb.content)).0 in
      let v = initial L (to_upper coin) f clock in
      let short : length k.text ≤ 1023 = omega (
        arith,
        fits,
        ap length k.content_eq,
        length-append w.fdb.content (k.text ++ 10 ∷ []),
        length-append k.text (10 ∷ []),
      ) in
      let reads : read_last_line f ≡ ok k.text =
        read_last_line_lem f refl
        ∙ ap ok (
            ap last_line (k.content_eq ∙ sym (append_assoc w.fdb.content k.text (10 ∷ [])))
            ∙ last_line_lem w.fdb.content k.text intact.ended line short) in
      record {
        worker = record v { log_id = l.log_id; latest_msg_seq = l.msg_seq };
        returns =
            ap (from_line L v) reads
            ∙ line_of v k.text line.starts
            ∙ ap (from_log L v) (L.json.unmarshal-marshal l k.text k.marshalled);
        log_id_eq = refl;
        msg_seq_eq = refl;
      }

  -- What a restart resumes of the counters.
  pub record Resumed (w : Worker L) (r : Result (Worker L)) : Type 0 where
    pub worker : Worker L
    pub returns : r ≡ ok worker
    pub log_id_eq : worker.log_id ≡ w.log_id
    pub msg_seq_eq : worker.latest_msg_seq ≡ w.latest_msg_seq

  Booked-Resumed :
      (msg_seq : ℤ) (o : Req L) (t : Terms L) (w w' : Worker L) (data_dir coin : Text)
      (clock : Clock)
      → Booked L msg_seq o t w w'
      → IsIntact w.fdb
      → length w'.fdb.content ≤ length w.fdb.content + 1024
      → Resumed w' (new_worker L (reopened w'.fdb.content) data_dir coin clock)
  unfolding order_bank_log
  Booked-Resumed msg_seq o t w w' data_dir coin clock b intact fits =
      let total = order_total L o t.value in
      let l = order_bank_log L msg_seq o t total (reserve L o total w) in
      let g = new_worker-GoesOn l w w' data_dir coin clock b.logged intact fits in
      record {
        worker = g.worker;
        returns = g.returns;
        log_id_eq = g.log_id_eq ∙ reserve-log_id L o total w ∙ sym b.log_id_eq;
        msg_seq_eq = g.msg_seq_eq ∙ sym b.msg_seq_eq;
      }

  Ordered-Resumed :
      (msg_seq : ℤ) (o : Req L) (w : Worker L) (r : Worker L × Option Error) (data_dir coin : Text)
      (clock : Clock)
      → Ordered L msg_seq o w r
      → r.1 ≡ none
      → IsIntact w.fdb
      → length r.0.fdb.content ≤ length w.fdb.content + 1024
      → Resumed r.0 (new_worker L (reopened r.0.fdb.content) data_dir coin clock)
  Ordered-Resumed msg_seq o w r data_dir coin clock (bad_symbol e) h intact fits = no_error h
  Ordered-Resumed msg_seq o w r data_dir coin clock (bad_side p e s) h intact fits = no_error h
  Ordered-Resumed msg_seq o w r data_dir coin clock (other_coin p t e s n) h intact fits =
      no_error h
  Ordered-Resumed msg_seq o w r data_dir coin clock (unwritten p t w' x e s c q) h intact fits =
      no_error h
  Ordered-Resumed msg_seq o w r data_dir coin clock (booked p t w' e s b) h intact fits =
      Booked-Resumed msg_seq o t w w' data_dir coin clock b intact fits

  -- After an order that was accepted, on a log file in order and with a line of at most 1023 bytes,
  -- `New` on what is left of the file has the log ID and the sequence number of the bank before.
  pub new_worker-create_order :
      (msg_seq : ℤ) (o : Req L) (w : Worker L) (data_dir coin : Text) (clock : Clock)
      → IsCounted L w
      → IsIntact w.fdb
      → let r = create_order L msg_seq o w in
        r.1 ≡ none
        → length r.0.fdb.content ≤ length w.fdb.content + 1024
        → Resumed r.0 (new_worker L (reopened r.0.fdb.content) data_dir coin clock)
  new_worker-create_order msg_seq o w data_dir coin clock c intact h fits =
      Ordered-Resumed msg_seq o w (create_order L msg_seq o w) data_dir coin clock
        (create_order_lem L msg_seq o w c) h intact fits
