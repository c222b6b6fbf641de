-- ===== src/Ome/Saving/Rows.antt =====
-- pkg/ome/filedb.go: the trades and updates of a batch, and `ParseAndWriteLogs` on errors.
use ccoms.Prelude.{
  ℤ, pos, ◌+ℤ◌, ◌==ℤ◌, ==ℤ_iff, leb_ℤ, int_laws, +ℤ_assoc, +ℤ_zero, ◌≡◌, ◌≢◌, refl, sym, ap, subst,
  ◌∙◌, Bool, Bool-cases, inl, inr, if_true, if_false, Option, none, some, List, [], ◌∷◌, ◌++◌,
  if◌then◌else◌, ◌&&◌,
}
use ccoms.Errors.{Error, unmarshal_failed, Result, ok, err, ok-injective, err≢ok}
use ccoms.Text.{Text}
use ccoms.Dict.{Dict, int_eq, lookup, lookup-insert}
use ccoms.Ome.Structs.{OmeLog, MatchLog, OrderLog}
use ccoms.Ome.Worker.{Libs, Worker}
use ccoms.Ome.Saving.{
  TradeRow, OrderUpdate, Batch, empty_batch, merged, update_order, trade_row, ask_update,
  bid_update, add_match, add_order, add_log, collected, collect, Statement, Saving, is_empty,
  answered, written_batch, statements, parse_and_write_logs,
}

module _ (L : Libs) where
  abbrev one_if : Bool → ℤ
  one_if b = if b then pos 1 else pos 0

  -- How often the order `p` is in the trades.
  pub trades_with : ℤ → List (TradeRow L) → ℤ
  trades_with p [] = pos 0
  trades_with p (t ∷ ts) =
      (one_if (p ==ℤ t.ask_order) +ℤ one_if (p ==ℤ t.bid_order)) +ℤ trades_with p ts

  abbrev counted : Option (OrderUpdate L) → ℤ
  counted none = pos 0
  counted (some u) = u.trades

  -- By how many trades the order `p` is updated.
  abbrev pub updated_by : ℤ → Dict ℤ (OrderUpdate L) → ℤ
  updated_by p d = counted (lookup p d)

  trades_with-append :
      (p : ℤ) (t : TradeRow L) (ts : List (TradeRow L))
      → trades_with p (ts ++ t ∷ [])
        ≡ trades_with p ts +ℤ (one_if (p ==ℤ t.ask_order) +ℤ one_if (p ==ℤ t.bid_order))
  unfolding trades_with
  trades_with-append p t [] = omega int_laws
  trades_with-append p t (s ∷ ts) =
      let h = trades_with-append p t ts in
      ap (λ z. (one_if (p ==ℤ s.ask_order) +ℤ one_if (p ==ℤ s.bid_order)) +ℤ z) h
      ∙ sym (
          +ℤ_assoc (one_if (p ==ℤ s.ask_order) +ℤ one_if (p ==ℤ s.bid_order)) (trades_with p ts)
            (one_if (p ==ℤ t.ask_order) +ℤ one_if (p ==ℤ t.bid_order)))

  merged-counted :
      (u : OrderUpdate L) (o : Option (OrderUpdate L))
      → u.trades ≡ pos 1
      → (merged L u o).trades ≡ counted o +ℤ pos 1
  merged-counted u none h = h ∙ omega int_laws
  merged-counted u (some v) h = refl

  update_order-counted :
      (p id : ℤ) (u : OrderUpdate L) (d : Dict ℤ (OrderUpdate L))
      → u.trades ≡ pos 1
      → updated_by p (update_order L id u d) ≡ updated_by p d +ℤ one_if (p ==ℤ id)
  unfolding update_order
  update_order-counted p id u d h = elim (Bool-cases (p ==ℤ id)) [
    | inl k ↦
        ap counted (lookup-insert p id (merged L u (lookup id d)) d ∙ if_true _ _ k)
        ∙ merged-counted u (lookup id d) h
        ∙ ap (λ q. updated_by q d +ℤ pos 1) (sym ((==ℤ_iff p id).0 k))
        ∙ ap (λ z. updated_by p d +ℤ z) (sym (if_true _ _ k))
    | inr k ↦
        ap counted (lookup-insert p id (merged L u (lookup id d)) d ∙ if_false _ _ k)
        ∙ sym (+ℤ_zero (updated_by p d))
        ∙ ap (λ z. updated_by p d +ℤ z) (sym (if_false _ _ k))
  ]

  -- That each order is updated by as many trades as are created with it.
  abbrev pub Tallies : Batch L → Type 0
  Tallies b = (p : ℤ) → updated_by p b.updates ≡ trades_with p b.trades

  add_match-Tallies :
      (id : ℤ) (ls : List MatchLog) (b : Batch L) → Tallies b → Tallies (add_match L id ls b).0
  unfolding add_match ask_update bid_update trade_row
  add_match-Tallies id [] b h p = h p
  add_match-Tallies id (ml ∷ mls) b h p =
      update_order-counted p ml.bid_id (bid_update L ml)
        (update_order L ml.ask_id (ask_update L ml) b.updates) refl
      ∙ ap (λ z. z +ℤ one_if (p ==ℤ ml.bid_id))
          (update_order-counted p ml.ask_id (ask_update L ml) b.updates refl)
      ∙ +ℤ_assoc (updated_by p b.updates) (one_if (p ==ℤ ml.ask_id)) (one_if (p ==ℤ ml.bid_id))
      ∙ ap (λ z. z +ℤ (one_if (p ==ℤ ml.ask_id) +ℤ one_if (p ==ℤ ml.bid_id))) (h p)
      ∙ sym (trades_with-append p (trade_row L id ml) b.trades)

  add_order-Tallies :
      (id index : ℤ) (ls : List OrderLog) (b : Batch L)
      → Tallies b
      → Tallies (add_order L id index ls b)
  unfolding add_order
  add_order-Tallies id index [] b h = h
  add_order-Tallies id index (ml ∷ mls) b h = h

  add_log-Tallies :
      (saved : ℤ) (l : OmeLog) (b : Batch L) → Tallies b → Tallies (add_log L saved l b)
  unfolding add_log
  add_log-Tallies saved l b h = elim (Bool-cases (leb_ℤ l.log_id saved)) [
    | inl k ↦ subst Tallies (sym (if_true _ _ k)) h
    | inr k ↦ subst Tallies (sym (if_false _ _ k)) (
        let r = add_match L l.log_id l.match_logs b in
        add_order-Tallies l.log_id r.1 l.order_logs r.0
          (add_match-Tallies l.log_id l.match_logs b h))
  ]

  -- One line that is read, given what becomes of the lines after it.
  collect_line :
      (saved : ℤ) (o : Option OmeLog) (b b' : Batch L) (rest : Batch L → Result (Batch L))
      → ((c : Batch L) → Tallies c → rest c ≡ ok b' → Tallies b')
      → Tallies b
      → collected L saved b rest o ≡ ok b'
      → Tallies b'
  collect_line saved none b b' rest later h e = absurd (err≢ok unmarshal_failed b' e)
  collect_line saved (some l) b b' rest later h e =
      later (add_log L saved l b) (add_log-Tallies saved l b h) e

  collect_from :
      (saved : ℤ) (ss : List Text) (b b' : Batch L)
      → Tallies b
      → collect L saved ss b ≡ ok b'
      → Tallies b'
  unfolding collect
  collect_from saved [] b b' h e = subst Tallies (ok-injective e) h
  collect_from saved (s ∷ ss) b b' h e =
      collect_line saved (L.json.unmarshal s) b b' (collect L saved ss)
        (λ c. collect_from saved ss c b') h e

  none_yet : Tallies (empty_batch L)
  unfolding lookup trades_with
  none_yet p = refl

  -- A batch of log lines that can be read updates each order by exactly as many trades as it
  -- creates with that order as ask or as bid.
  pub collect-Tallies :
      (saved : ℤ) (ss : List Text) (b : Batch L)
      → collect L saved ss (empty_batch L) ≡ ok b
      → Tallies b
  collect-Tallies saved ss b e = collect_from saved ss (empty_batch L) b none_yet e

  answered_failed :
      (w : Worker L) (id : ℤ) (sts : List (Statement L)) (o : Option Error)
      → (answered L w id sts o).2 ≢ none
      → (answered L w id sts o).0 ≡ w
  answered_failed w id sts none h = absurd (h refl)
  answered_failed w id sts (some e) h = refl

  written_batch_failed :
      (db : List (Statement L) → Option Error) (w : Worker L) (r : Result (Batch L))
      → (written_batch L db w r).2 ≢ none
      → (written_batch L db w r).0 ≡ w
  written_batch_failed db w (err e) h = refl
  written_batch_failed db w (ok b) h =
      elim (Bool-cases (is_empty L b.trades && is_empty L b.orders && is_empty L b.updates)) [
        | inl k ↦ rw k refl
        | inr k ↦
            let q : written_batch L db w (ok b)
                ≡ answered L w b.latest_log_id (statements L w b) (db (statements L w b)) =
              if_false _ _ k in
            ap (λ (r : Saving L). r.0) q
            ∙ answered_failed w b.latest_log_id (statements L w b) (db (statements L w b))
                (λ n. h (ap (λ (r : Saving L). r.2) q ∙ n))
      ]

  -- Where `ParseAndWriteLogs` returns an error, be it of a line or of the database, the worker is
  -- as it was, so that the batch is tried again.
  parse_and_write_logs_failed :
      (db : List (Statement L) → Option Error) (ss : List Text) (w : Worker L)
      → (parse_and_write_logs L db ss w).2 ≢ none
      → (parse_and_write_logs L db ss w).0 ≡ w
  unfolding parse_and_write_logs
  parse_and_write_logs_failed db ss w h =
      written_batch_failed db w (collect L w.saved_log_id ss (empty_batch L)) h
