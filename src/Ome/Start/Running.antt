-- ===== src/Ome/Start/Running.antt =====
-- pkg/ome/ome.go: when `WaitForFiledb` returns, and `Run` from a database that has caught up.
use ccoms.Prelude.{
  ℕ, ℤ, pos, ◌≤ℤ◌, ◌<ℤ◌, ◌+ℤ◌, ◌≡◌, ◌⊎◌, refl, ap, ◌∙◌, inl, inr, Bool-cases, false, Option, none,
  some, List, [], ◌∷◌, ◌++◌, arith, int_laws, parts_of_eq, All, length, leb_ℤ, leb_ℤ→le, if_true,
  if_false, int64_max,
}
use ccoms.Errors.{Error, ok}
use ccoms.Text.{Text, codes}
use ccoms.Filedb.{Filedb, read_last_line}
use ccoms.Model.{Lastkv}
use ccoms.Extern.Floats.{Floats}
use ccoms.Ome.Structs.{OmeLog}
use ccoms.Ome.Worker.{Ticket, Libs, Worker}
use ccoms.Ome.Tickets.Engine.{IsEngine}
use ccoms.Ome.Start.{
  StoredOrder, wait_rounds, wait_for_filedb, wait_for_line, wait_for_log, waited, after_loading,
  after_waiting, in_state, run,
}
use ccoms.Ome.Start.Restart.{IsStored, load_all_orders_lem, stored_value, order_key}
use ccoms.Ome.Start.Matching.{start_matching-Keeps}

-- At one of the rounds the saved ID is at least `id`.
abbrev pub Reaches : ℤ → List ℤ → Type 0
Reaches id [] = ⊥
Reaches id (v ∷ vs) = (id ≤ℤ v) ⊎ Reaches id vs

not_yet : (id v : ℤ) → leb_ℤ id v ≡ false → v <ℤ id
not_yet id v h = ground arith

-- `v` is the first of the saved IDs that is at least `id`.
pub record FirstReach (id : ℤ) (seen : List ℤ) (v : ℤ) : Type 0 where
  pub before : List ℤ
  pub after : List ℤ
  pub seen_eq : seen ≡ before ++ v ∷ after
  pub below : All (λ u. u <ℤ id) before
  pub reaches : id ≤ℤ v

reached :
    (id : ℤ) (seen : List ℤ)
    → Reaches id seen
    → (v : ℤ) × FirstReach id seen v × (wait_rounds id seen ≡ some v)
unfolding wait_rounds
reached id [] r = absurd r
reached id (v ∷ vs) r = elim (Bool-cases (leb_ℤ id v)) [
  | inl h ↦ (
    v,
    record { before = []; after = vs; seen_eq = refl; below = tt; reaches = leb_ℤ→le id v h },
    if_true _ _ h,
  )
  | inr h ↦ elim r [
    | inl le ↦ absurd (ground (arith, not_yet id v h))
    | inr r' ↦
        let (u, f, e) = reached id vs r' in
        (
          u,
          record {
            before = v ∷ f.before;
            after = f.after;
            seen_eq = ap (λ us. v ∷ us) f.seen_eq;
            below = (not_yet id v h, f.below);
            reaches = f.reaches;
          },
          if_false _ _ h ∙ e,
        )
  ]
]

not_reached : (id : ℤ) (seen : List ℤ) → All (λ v. v <ℤ id) seen → wait_rounds id seen ≡ none
unfolding wait_rounds
not_reached id [] h = refl
not_reached id (v ∷ vs) h = ground (arith, not_reached id vs)

below_or_Reaches : (id : ℤ) (seen : List ℤ) → All (λ v. v <ℤ id) seen ⊎ Reaches id seen
below_or_Reaches id [] = inl tt
below_or_Reaches id (v ∷ vs) = elim (Bool-cases (leb_ℤ id v)) [
  | inl h ↦ inr (inl (leb_ℤ→le id v h))
  | inr h ↦ elim (below_or_Reaches id vs) [
    | inl below ↦ inl (not_yet id v h, below)
    | inr r ↦ inr (inr r)
  ]
]

module _ (L : Libs) where
  -- The last line of the log file, read back.
  pub record LastLog (f : Filedb) (l : OmeLog) : Type 0 where
    pub byte : ℕ
    pub bytes : Text
    pub reads : read_last_line f ≡ ok (byte ∷ bytes)
    pub parses : L.json.unmarshal (byte ∷ bytes) ≡ some l

  at_last :
      (seen : List ℤ) (w : Worker L) (l : OmeLog)
      → LastLog w.fdb l
      → wait_for_filedb L seen w ≡ waited L l.log_id w (wait_rounds l.log_id seen)
  unfolding wait_for_filedb
  at_last seen w l h = ap (wait_for_line L seen w) h.reads ∙ ap (wait_for_log L seen w) h.parses

  first_returned :
      (seen : List ℤ) (w : Worker L) (l : OmeLog)
      → LastLog w.fdb l
      → Reaches l.log_id seen
      → (v : ℤ) × FirstReach l.log_id seen v
        × (wait_for_filedb L seen w ≡ some (record w { log_id = l.log_id; saved_log_id = v }, none))
  first_returned seen w l h r =
      let (v, f, e) = reached l.log_id seen r in
      (v, f, at_last seen w l h ∙ ap (waited L l.log_id w) e)

  pub returned :
      (seen : List ℤ) (w : Worker L) (l : OmeLog)
      → LastLog w.fdb l
      → Reaches l.log_id seen
      → (v : ℤ) × (l.log_id ≤ℤ v)
        × (wait_for_filedb L seen w ≡ some (record w { log_id = l.log_id; saved_log_id = v }, none))
  returned seen w l h r = let (v, f, e) = first_returned seen w l h r in (v, f.reaches, e)

  -- On a log whose last line is read back, `WaitForFiledb` either sees a `SavedLogID` below the ID
  -- of that line at all its rounds and is still waiting, or has returned at the first round that
  -- sees one that is not below it, with no error, with that ID as `LogID` and with the `SavedLogID`
  -- that this round has seen.
  pub wait_for_filedb_lem :
      (seen : List ℤ) (w : Worker L) (l : OmeLog)
      → LastLog w.fdb l
      → (All (λ v. v <ℤ l.log_id) seen × (wait_for_filedb L seen w ≡ none))
        ⊎ ((v : ℤ) × FirstReach l.log_id seen v
            × (wait_for_filedb L seen w
                ≡ some (record w { log_id = l.log_id; saved_log_id = v }, none)))
  wait_for_filedb_lem seen w l h = elim (below_or_Reaches l.log_id seen) [
    | inl below ↦
        inl (below, at_last seen w l h ∙ ap (waited L l.log_id w) (not_reached l.log_id seen below))
    | inr r ↦ inr (first_returned seen w l h r)
  ]

  -- The log file is empty, or what it has is saved at one of the rounds.
  abbrev pub CaughtUp : List ℤ → Worker L → Type 0
  CaughtUp seen w =
      (read_last_line w.fdb ≡ ok []) ⊎ ((l : OmeLog) × LastLog w.fdb l × Reaches l.log_id seen)

  -- `WaitForFiledb` returns and has at most set the two IDs.
  waits :
      (seen : List ℤ) (w : Worker L)
      → CaughtUp seen w
      → (id v : ℤ) × (wait_for_filedb L seen w
          ≡ some (record w { log_id = id; saved_log_id = v }, none))
  unfolding wait_for_filedb
  waits seen w (inl e) = (w.log_id, w.saved_log_id, ap (wait_for_line L seen w) e)
  waits seen w (inr (l, h, r)) = let (v, le, e) = returned seen w l h r in (l.log_id, v, e)

  module _ (F : Floats L.decimal.Float) where
    -- A run that returns, from the stored `OrderID` on.
    pub record Starts (n : ℤ) (r : Option (Worker L × Option Error)) : Type 0 where
      pub worker : Worker L
      pub error : Option Error
      pub returns : r ≡ some (worker, error)
      pub engine : error ≡ none → IsEngine L worker
      pub order_id_le : error ≡ none → worker.order_id ≤ℤ n

    -- `Run` of a worker with empty books, on a log that the database has caught up with, rows that
    -- the stored `OrderID` bounds and an order ID left for each ticket, returns once the channel of
    -- the tickets is closed; unless it returns an error, the books are in order, do not cross and
    -- hold only IDs up to `OrderID`, which has risen by at most the number of the tickets.
    pub run-Starts :
        (seen : List ℤ) (rows : List (StoredOrder L)) (kvs : List Lastkv) (ts : List Ticket)
        (w : Worker L)
        → CaughtUp seen w
        → IsStored L F rows kvs w
        → stored_value order_key w.order_id kvs +ℤ pos (length ts) ≤ℤ int64_max
        → Starts
            (stored_value order_key w.order_id kvs +ℤ pos (length ts))
            (run L F seen (ok rows) (ok kvs) ts w)
    unfolding run
    run-Starts seen rows kvs ts w c s room =
        let (id, v, e) = waits seen (in_state L (codes "WaitForFiledb") w) c in
        let w1 = record w { log_id = id; saved_log_id = v; state = codes "LoadingOrders" } in
        let l = load_all_orders_lem L F rows kvs w1 (record {
          no_asks = s.no_asks;
          no_bids = s.no_bids;
          sides = s.sides;
          is_id = s.is_id;
          rising = s.rising;
        }) in
        let is = parts_of_eq l.order_id_eq in
        let w2 = in_state L (codes "Matching") l.worker in
        let k =
          start_matching-Keeps L ts w2
            (record { asks_sorted = l.book.asks_sorted; bids_sorted = l.book.bids_sorted }) l.ids
            (omega int_laws) in
        record {
          worker = k.worker;
          error = k.error;
          returns =
              ap (after_waiting L F (ok rows) (ok kvs) ts) e
              ∙ ap (after_loading L ts) l.returns
              ∙ k.returns;
          engine = k.engine;
          order_id_le = λ q. let le = k.order_id_le q in omega int_laws;
        }
