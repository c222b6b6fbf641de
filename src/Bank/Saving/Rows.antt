-- ===== src/Bank/Saving/Rows.antt =====
-- pkg/bank/filedb.go: the snapshots and balances of a batch.
use ccoms.Prelude.{
  ℤ, pos, ◌==ℤ◌, ltb_ℤ, leb_ℤ, ◌≡◌, refl, sym, ap, subst, ◌∙◌, Bool-cases, inl, inr, if_true,
  if_false, Option, none, some, List, [], ◌∷◌, ◌++◌, arith, if◌then◌else◌,
}
use ccoms.Errors.{unmarshal_failed, Result, ok, ok-injective, err≢ok}
use ccoms.Text.{Text}
use ccoms.Dict.{int_eq, str_eq, lookup, lookup-insert}
use ccoms.Bank.Structs.{BankLog, BalanceLog, TicketLog}
use ccoms.Bank.Worker.{Libs}
use ccoms.Bank.Saving.{
  SnapRow, BalanceRow, Batch, empty_batch, add_ticket, add_snap, first_snap, second_snap,
  add_balances, add_log, collected, collect,
}

module _ (L : Libs) where
  -- The balance that the last snapshot of the user `p` gives.
  pub last_balance : ℤ → List (SnapRow L) → Option (BalanceRow L)
  last_balance p [] = none
  last_balance p (s ∷ ss) = elim (last_balance p ss) [
    | some b ↦ some b
    | none ↦ if p ==ℤ s.owner then some (s.free_new, s.freeze_new) else none
  ]

  last_balance-append :
      (p : ℤ) (s : SnapRow L) (ss : List (SnapRow L))
      → last_balance p (ss ++ s ∷ [])
        ≡ (if p ==ℤ s.owner then some (s.free_new, s.freeze_new) else last_balance p ss)
  unfolding last_balance
  last_balance-append p s [] = refl
  last_balance-append p s (t ∷ ss) = ground (arith, last_balance-append p s ss)

  -- That the balances of a batch are those of the last snapshots in it.
  abbrev pub Agrees : Batch L → Type 0
  Agrees b = (p : ℤ) → lookup p b.balances ≡ last_balance p b.snaps

  add_snap-Agrees : (s : SnapRow L) (b : Batch L) → Agrees b → Agrees (add_snap L s b)
  unfolding add_snap
  add_snap-Agrees s b h p =
      lookup-insert p s.owner (s.free_new, s.freeze_new) b.balances
      ∙ ap (λ x. if p ==ℤ s.owner then some (s.free_new, s.freeze_new) else x) (h p)
      ∙ sym (last_balance-append p s b.snaps)

  add_balances-Agrees :
      (id index : ℤ) (ls : List BalanceLog) (b : Batch L)
      → Agrees b
      → Agrees (add_balances L id index ls b)
  unfolding add_balances
  add_balances-Agrees id index [] b h = h
  add_balances-Agrees id index (ml ∷ mls) b h =
      let b1 = add_snap L (first_snap L id index ml) b in
      let h1 = add_snap-Agrees (first_snap L id index ml) b h in
      elim (Bool-cases (ltb_ℤ (pos 0) ml.owner2)) [
        | inl k ↦
            subst Agrees (sym (if_true _ _ k)) (add_snap-Agrees (second_snap L id index ml) b1 h1)
        | inr k ↦ subst Agrees (sym (if_false _ _ k)) h1
      ]

  add_ticket-Agrees :
      (id : ℤ) (ls : List TicketLog) (b : Batch L) → Agrees b → Agrees (add_ticket L id ls b).0
  unfolding add_ticket
  add_ticket-Agrees id [] b h = h
  add_ticket-Agrees id (ml ∷ mls) b h = h

  add_log-Agrees : (saved : ℤ) (l : BankLog) (b : Batch L) → Agrees b → Agrees (add_log L saved l b)
  unfolding add_log
  add_log-Agrees saved l b h = elim (Bool-cases (leb_ℤ l.log_id saved)) [
    | inl k ↦ subst Agrees (sym (if_true _ _ k)) h
    | inr k ↦ subst Agrees (sym (if_false _ _ k)) (
        let b1 = record b {
          latest_msg_seq = if ltb_ℤ b.latest_msg_seq l.msg_seq then l.msg_seq else b.latest_msg_seq;
        } in
        let r = add_ticket L l.log_id l.ticket_logs b1 in
        add_balances-Agrees l.log_id r.1 l.balance_logs r.0
          (add_ticket-Agrees l.log_id l.ticket_logs b1 h))
  ]

  -- One line that is read, given what becomes of the lines after it.
  collect_line :
      (saved : ℤ) (o : Option BankLog) (b b' : Batch L) (rest : Batch L → Result (Batch L))
      → ((c : Batch L) → Agrees c → rest c ≡ ok b' → Agrees b')
      → Agrees b
      → collected L saved b rest o ≡ ok b'
      → Agrees b'
  collect_line saved none b b' rest later h e = absurd (err≢ok unmarshal_failed b' e)
  collect_line saved (some l) b b' rest later h e =
      later (add_log L saved l b) (add_log-Agrees saved l b h) e

  collect_from :
      (saved : ℤ) (ss : List Text) (b b' : Batch L)
      → Agrees b
      → collect L saved ss b ≡ ok b'
      → Agrees b'
  unfolding collect
  collect_from saved [] b b' h e = subst Agrees (ok-injective e) h
  collect_from saved (s ∷ ss) b b' h e =
      collect_line saved (L.json.unmarshal s) b b' (collect L saved ss)
        (λ c. collect_from saved ss c b') h e

  none_yet : Agrees (empty_batch L)
  unfolding lookup last_balance
  none_yet p = refl

  -- A batch of log lines that can be read updates a balance exactly for the users that it creates
  -- snapshots of, to what the last of those snapshots says.
  pub collect-Agrees :
      (saved : ℤ) (ss : List Text) (b : Batch L)
      → collect L saved ss (empty_batch L) ≡ ok b
      → Agrees b
  collect-Agrees saved ss b e = collect_from saved ss (empty_batch L) b none_yet e
