-- ===== src/Bank/FromOme/Restarted.antt =====
-- The reason IDs that a bank has after `LoadAllAssets` (pkg/bank/bank.go), at `BalanceChanges`
-- (pkg/bank/grpc.go): they are loaded by symbol and asked for by table.
use ccoms.Prelude.{
  ℕ, ℤ, pos, ◌≡◌, ◌≢◌, refl, sym, ap, ◌∙◌, Bool-cases, inl, inr, false, Option, List, [], ◌∷◌, map,
  arith, length, drop,
}
use ccoms.Errors.{Error, ok}
use ccoms.Text.{Text, text_eq, text_eq→eq, has_prefix, to_upper, to_upper_byte, to_upper_idem}
use ccoms.Dict.{str_eq, get_or, lookup}
use ccoms.Model.{Lastkv, ticket_table}
use ccoms.Bank.Worker.{Libs, Worker}
use ccoms.Bank.Saving.{get_side}
use ccoms.Bank.Start.{Balance, TicketQuery, reason_prefix, load_all_assets}
use ccoms.Bank.Start.Loading.{stored_reason, load_all_assets_lem}
use ccoms.Bank.FromOme.{Arrival, from_ome, balance_changes}
use ccoms.Bank.FromOme.Delivery.{changes_in, greeting, balance_changes-push_lines}
use ccoms.Ome.Worker as OmeWorker
use ccoms.Ome.ToBank.{hello, push_lines}

-- A name with a lower-case letter is not the upper-case symbol of a key.
not_symbol : (t s : Text) → to_upper t ≢ t → text_eq t (to_upper s) ≡ false
not_symbol t s h = elim (Bool-cases (text_eq t (to_upper s))) [
  | inl k ↦
      let e = text_eq→eq t (to_upper s) k in absurd (h (ap to_upper e ∙ to_upper_idem s ∙ sym e))
  | inr k ↦ k
]

stored_reason-lower :
    (t : Text) (n : ℤ) (kvs : List Lastkv) → to_upper t ≢ t → stored_reason t n kvs ≡ n
unfolding stored_reason
stored_reason-lower t n [] h = refl
stored_reason-lower t n (kv ∷ kvs) h =
    let no = not_symbol t (drop (length reason_prefix) kv.key) h in
    elim (Bool-cases (has_prefix kv.key reason_prefix)) [
      | inl k ↦ rw (k, no) (stored_reason-lower t n kvs h)
      | inr k ↦ rw k (stored_reason-lower t n kvs h)
    ]

abbrev head : Text → ℕ
head [] = 0
head (c ∷ s) = c

module _ (L : Libs) (O : OmeWorker.Libs) where
  -- The table of an engine's changes starts with a lower-case letter.
  table-lower : (e : OmeWorker.Worker O) → let t = (hello O e).reason_table in to_upper t ≢ t
  unfolding hello to_upper to_upper_byte
  table-lower e h = omega (arith, ap head h)

  -- A bank that has started again, with no reason IDs but those of the database, is given all
  -- that the engine pushes from the reason ID 0 on, whatever the database has stored.
  pub load_all_assets-forgets :
      (bs : List (Balance L)) (q : TicketQuery L) (kvs : List Lastkv) (symbol : Text) (o : Option ℤ)
      (w : Worker L) (stop : Option Error) (e : OmeWorker.Worker O) (ss : List Text)
      (l : List Arrival)
      → w.symbols ≡ symbol ∷ []
      → q (ticket_table symbol (get_side L symbol w)) (pos 0) ≡ ok o
      → w.ome_reason_ids ≡ []
      → changes_in l ≡ (push_lines O w.coin e (pos 0) ss).0
      → balance_changes stop
          (pos 0)
          (greeting O e (load_all_assets L (ok bs) q (ok kvs) w).0.ome_reason_ids ∷ l)
        ≡ (map from_ome (push_lines O w.coin e (pos 0) ss).0, pos 0 ∷ [], stop)
  unfolding get_or lookup
  load_all_assets-forgets bs q kvs symbol o w stop e ss l hs hq hr same =
      let t = (hello O e).reason_table in
      let r = load_all_assets_lem L bs q kvs symbol o w hs hq in
      balance_changes-push_lines O stop w.coin e ss
        (load_all_assets L (ok bs) q (ok kvs) w).0.ome_reason_ids l (pos 0)
        (ap (λ (x : Worker L × Option Error). get_or t (pos 0) x.0.ome_reason_ids) r.returns
          ∙ r.reason_id_eq t
          ∙ stored_reason-lower t (get_or t (pos 0) w.ome_reason_ids) kvs (table-lower e)
          ∙ ap (get_or t (pos 0)) hr)
        (omega arith) same
