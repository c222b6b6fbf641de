-- ===== src/Ome/Start/Restart.antt =====
-- pkg/ome/ome.go: `LoadAllOrders` as a whole, from a database that is up to date.
use mathlib.Core.List.{Perm, append-nil}
use ccoms.Prelude.{
  ℤ, pos, ◌≤ℤ◌, ◌≡◌, refl, sym, ap, subst, ◌∙◌, inl, inr, Bool-cases, true, false, Option, none,
  List, [], ◌∷◌, ◌++◌, All, if◌then◌else◌,
}
use ccoms.Errors.{Error, ok}
use ccoms.Text.{Text, codes, text_eq, text_eq→eq}
use ccoms.Model.{Lastkv}
use ccoms.Extern.Floats.{Floats}
use ccoms.Ome.Structs.{Order}
use ccoms.Ome.Worker.{Libs, Worker, side_ask, side_bid}
use ccoms.Ome.Match.Runs.{asks_of, bids_of, IsBook}
use ccoms.Ome.Tickets.Engine.{IdsBelow}
use ccoms.Ome.Tickets.Handle.{IsSide}
use ccoms.Ome.Start.{StoredOrder, load_lastkv, load_lastkvs, load_all_orders, with_lastkvs}
use ccoms.Ome.Start.Loading.{Rising, of_side, load_rows-Loaded}

-- What `lastkvs` says of a key: the last row of it, and `v` if there is none.
unfoldable pub stored_value : Text → ℤ → List Lastkv → ℤ
stored_value k v [] = v
stored_value k v (kv ∷ kvs) = stored_value k (if text_eq kv.key k then kv.val else v) kvs

abbrev pub order_key : Text
order_key = codes "latest_order_id"

abbrev pub ask_key : Text
ask_key = codes "latest_ask_ticket_id"

abbrev pub bid_key : Text
bid_key = codes "latest_bid_ticket_id"

other_key : (k a b : Text) → text_eq a b ≡ false → text_eq k a ≡ true → text_eq k b ≡ false
other_key k a b h e = subst (λ t. text_eq t b ≡ false) (sym (text_eq→eq k a e)) h

module _ (L : Libs) where
  abbrev with_counters : (order_id ask_id bid_id : ℤ) → Worker L → Worker L
  with_counters o a b w = record w {
    order_id = o;
    latest_ask_ticket_id = a;
    latest_bid_ticket_id = b;
  }

  abbrev one_value : Text → Lastkv → ℤ → ℤ
  one_value k kv v = if text_eq kv.key k then kv.val else v

  load_lastkv_lem :
      (kv : Lastkv) (w : Worker L)
      → load_lastkv L kv w
        ≡ with_counters
            (one_value order_key kv w.order_id)
            (one_value ask_key kv w.latest_ask_ticket_id)
            (one_value bid_key kv w.latest_bid_ticket_id)
            w
  unfolding load_lastkv text_eq
  load_lastkv_lem kv w = elim (Bool-cases (text_eq kv.key order_key)) [
    | inl h ↦
        rw (h, other_key kv.key order_key ask_key refl h, other_key kv.key order_key bid_key refl h)
          refl
    | inr h ↦ elim (Bool-cases (text_eq kv.key ask_key)) [
      | inl j ↦ rw (h, j, other_key kv.key ask_key bid_key refl j) refl
      | inr j ↦ elim (Bool-cases (text_eq kv.key bid_key)) [
        | inl i ↦ rw (h, j, i) refl
        | inr i ↦ rw (h, j, i) refl
      ]
    ]
  ]

  load_lastkvs_lem :
      (kvs : List Lastkv) (w : Worker L)
      → load_lastkvs L kvs w
        ≡ with_counters
            (stored_value order_key w.order_id kvs)
            (stored_value ask_key w.latest_ask_ticket_id kvs)
            (stored_value bid_key w.latest_bid_ticket_id kvs)
            w
  unfolding load_lastkvs stored_value
  load_lastkvs_lem [] w = refl
  load_lastkvs_lem (kv ∷ kvs) w =
      ap (load_lastkvs L kvs) (load_lastkv_lem kv w)
      ∙ load_lastkvs_lem kvs (
          with_counters (one_value order_key kv w.order_id)
            (one_value ask_key kv w.latest_ask_ticket_id)
            (one_value bid_key kv w.latest_bid_ticket_id) w)

  module _ (F : Floats L.decimal.Float) where
    -- What the worker has loaded: the books have exactly the orders of the rows, each side in its
    -- order, and the counters are the values of `lastkvs`.
    pub record LoadsAll (rows : List (StoredOrder L)) (kvs : List Lastkv) (w : Worker L)
        (r : Worker L × Option Error) : Type 0 where
      pub worker : Worker L
      pub returns : r ≡ (worker, none)
      pub book : IsBook L worker
      pub ids : IdsBelow L worker.order_id worker
      pub asks_perm : Perm (asks_of L worker) (of_side L F side_ask rows)
      pub bids_perm : Perm (bids_of L worker) (of_side L F side_bid rows)
      pub order_id_eq : worker.order_id ≡ stored_value order_key w.order_id kvs
      pub ask_ticket_eq :
          worker.latest_ask_ticket_id ≡ stored_value ask_key w.latest_ask_ticket_id kvs
      pub bid_ticket_eq :
          worker.latest_bid_ticket_id ≡ stored_value bid_key w.latest_bid_ticket_id kvs

    -- What a worker needs of the database: rows in the order of their IDs, which the stored
    -- `OrderID` bounds, each of a known side.
    pub record IsStored (rows : List (StoredOrder L)) (kvs : List Lastkv) (w : Worker L)
        : Type 0 where
      pub no_asks : asks_of L w ≡ []
      pub no_bids : bids_of L w ≡ []
      pub sides : All (λ (r : StoredOrder L). IsSide L r.side) rows
      pub is_id : pos 0 ≤ℤ stored_value order_key w.order_id kvs
      pub rising : Rising L F (pos 0) (stored_value order_key w.order_id kvs) rows

    only : {l x books : List Order} → books ≡ [] → Perm l (x ++ books) → Perm l x
    only {l} {x} e p = subst (λ y. Perm l y) (ap (λ b. x ++ b) e ∙ append-nil x) p

    -- With an up-to-date database and empty books, `LoadAllOrders` returns without an error; the
    -- books are in order and have exactly the orders of the rows of their side, and the counters
    -- are the values of `lastkvs`.
    pub load_all_orders_lem :
        (rows : List (StoredOrder L)) (kvs : List Lastkv) (w : Worker L)
        → IsStored rows kvs w
        → LoadsAll rows kvs w (load_all_orders L F (ok rows) (ok kvs) w)
    unfolding load_all_orders
    load_all_orders_lem rows kvs w s =
        let m = stored_value order_key w.order_id kvs in
        let (w1, e, l) =
          load_rows-Loaded L F (pos 0) m rows w s.sides s.is_id s.rising
            (record { asks_sorted = rw s.no_asks tt; bids_sorted = rw s.no_bids tt })
            (rw s.no_asks tt, rw s.no_bids tt) in
        let o = ap (λ v. stored_value order_key v kvs) l.same.order_id_eq in
        record {
          worker =
              with_counters (stored_value order_key w1.order_id kvs)
                (stored_value ask_key w1.latest_ask_ticket_id kvs)
                (stored_value bid_key w1.latest_bid_ticket_id kvs) w1;
          returns =
              ap (with_lastkvs L (ok kvs)) e
              ∙ ap (λ (v : Worker L). (v, none)) (load_lastkvs_lem kvs w1);
          book = record { asks_sorted = l.book.asks_sorted; bids_sorted = l.book.bids_sorted };
          ids = subst (λ n. IdsBelow L n w1) (sym o) l.ids;
          asks_perm = only s.no_asks l.asks_perm;
          bids_perm = only s.no_bids l.bids_perm;
          order_id_eq = o;
          ask_ticket_eq = ap (λ v. stored_value ask_key v kvs) l.same.ask_ticket_eq;
          bid_ticket_eq = ap (λ v. stored_value bid_key v kvs) l.same.bid_ticket_eq;
        }
