-- ===== src/Ome/Start/Loading.antt =====
-- pkg/ome/ome.go: `LoadAllOrders`, which fills the books and the counters from the database.
use mathlib.Core.List.{Perm, append_assoc, perm_append_comm}
use mathlib.Core.List.Perm
use ccoms.Prelude.{
  ℤ, ◌≤ℤ◌, ◌<ℤ◌, ◌==ℤ◌, ◌≡◌, refl, ap, subst, ◌∙◌, inl, inr, true, false, none, some, List, [], ◌∷◌,
  ◌++◌, arith, All, Bool-cases, if_true, if_false, if◌then◌else◌,
}
use ccoms.Extern.Floats.{Floats}
use ccoms.Ome.Structs.{Order}
use ccoms.Ome.Worker.{Libs, Worker, side_ask, side_bid}
use ccoms.Ome.Match.Runs.{asks_of, bids_of, IsBook}
use ccoms.Ome.Tickets.Engine.{IdsBelow, SameCounters}
use ccoms.Ome.Tickets.Handle.{IsSide}
use ccoms.Ome.Tickets.Insert.{
  ask_less-IsByAge, bid_less-IsByAge, newer-Placed, All-put, put-Sorted, put-perm,
}
use ccoms.Ome.Start.{StoredOrder, loaded_order, insert_row, next_row, load_rows}

module _ (L : Libs) (F : Floats L.decimal.Float) where
  -- The rows are in the order of rising IDs, all above `k` and none above `m`.
  abbrev pub Rising : ℤ → ℤ → List (StoredOrder L) → Type 0
  Rising k m [] = Unit
  Rising k m (r ∷ rs) = (k <ℤ r.id) × (r.id ≤ℤ m) × Rising r.id m rs

  -- The orders of one side.
  unfoldable pub of_side : ℤ → List (StoredOrder L) → List Order
  of_side side [] = []
  of_side side (r ∷ rs) =
      let rest = of_side side rs in if r.side ==ℤ side then loaded_order L F r ∷ rest else rest

  -- What the rows have been loaded into: books in order that have, next to what they had, exactly
  -- the orders of their side.
  pub record Loaded (m : ℤ) (rs : List (StoredOrder L)) (w w' : Worker L) : Type 0 where
    pub book : IsBook L w'
    pub ids : IdsBelow L m w'
    pub asks_perm : Perm (asks_of L w') (of_side side_ask rs ++ asks_of L w)
    pub bids_perm : Perm (bids_of L w') (of_side side_bid rs ++ bids_of L w)
    pub same : SameCounters L w w'

  older : (k j : ℤ) (l : List Order) → k <ℤ j → All (λ o. o.id ≤ℤ k) l → All (λ o. o.id <ℤ j) l
  older k j [] h a = tt
  older k j (o ∷ l) h a = (omega (arith, h, a.0), older k j l h a.1)

  weaken : (k j : ℤ) (l : List Order) → k ≤ℤ j → All (λ o. o.id ≤ℤ k) l → All (λ o. o.id ≤ℤ j) l
  weaken k j [] h a = tt
  weaken k j (o ∷ l) h a = (omega (arith, h, a.0), weaken k j l h a.1)

  raised : (k j : ℤ) (l : List Order) → k <ℤ j → All (λ o. o.id ≤ℤ k) l → All (λ o. o.id ≤ℤ j) l
  raised k j l h a = weaken k j l (omega (arith, h)) a

  -- One row.
  pub record Inserted (r : StoredOrder L) (w w' : Worker L) : Type 0 where
    pub inserts : insert_row L F r w ≡ some w'
    pub loaded : Loaded r.id (r ∷ []) w w'

  insert_ask :
      (k : ℤ) (r : StoredOrder L) (w : Worker L)
      → r.side ≡ side_ask
      → k <ℤ r.id
      → IsBook L w
      → IdsBelow L k w
      → let o = loaded_order L F r in
        Inserted r w (record w { asks = L.ask_tree.replace_or_insert o w.asks })
  unfolding insert_row of_side loaded_order
  insert_ask k r w s h b i =
      let o = loaded_order L F r in
      let is : (r.side ==ℤ side_ask) ≡ true = rw s refl in
      let no : (r.side ==ℤ side_bid) ≡ false = rw s refl in
      let old = older k r.id (asks_of L w) h i.0 in
      let listed =
        L.ask_tree.items-insert o w.asks b.asks_sorted
          (newer-Placed ask_less-IsByAge o (asks_of L w) old b.asks_sorted) in
      record {
        inserts = if_true _ _ is;
        loaded = record {
          book = record {
            asks_sorted = rw listed (put-Sorted ask_less-IsByAge o (asks_of L w) old b.asks_sorted);
            bids_sorted = b.bids_sorted;
          };
          ids = (
            rw listed (
                All-put ask_less-IsByAge o (λ p. p.id ≤ℤ r.id) (asks_of L w) (omega arith)
                  (raised k r.id (asks_of L w) h i.0)),
            raised k r.id (bids_of L w) h i.1,
          );
          asks_perm = rw (is, listed) (put-perm ask_less-IsByAge o (asks_of L w) old);
          bids_perm = rw no (Perm.refl (bids_of L w));
          same = record { order_id_eq = refl; ask_ticket_eq = refl; bid_ticket_eq = refl };
        };
      }

  insert_bid :
      (k : ℤ) (r : StoredOrder L) (w : Worker L)
      → r.side ≡ side_bid
      → k <ℤ r.id
      → IsBook L w
      → IdsBelow L k w
      → let o = loaded_order L F r in
        Inserted r w (record w { bids = L.bid_tree.replace_or_insert o w.bids })
  unfolding insert_row of_side loaded_order
  insert_bid k r w s h b i =
      let o = loaded_order L F r in
      let is : (r.side ==ℤ side_bid) ≡ true = rw s refl in
      let no : (r.side ==ℤ side_ask) ≡ false = rw s refl in
      let old = older k r.id (bids_of L w) h i.1 in
      let listed =
        L.bid_tree.items-insert o w.bids b.bids_sorted
          (newer-Placed bid_less-IsByAge o (bids_of L w) old b.bids_sorted) in
      record {
        inserts = if_false _ _ no ∙ if_true _ _ is;
        loaded = record {
          book = record {
            asks_sorted = b.asks_sorted;
            bids_sorted = rw listed (put-Sorted bid_less-IsByAge o (bids_of L w) old b.bids_sorted);
          };
          ids = (
            raised k r.id (asks_of L w) h i.0,
            rw listed (
                All-put bid_less-IsByAge o (λ p. p.id ≤ℤ r.id) (bids_of L w) (omega arith)
                  (raised k r.id (bids_of L w) h i.1)),
          );
          asks_perm = rw no (Perm.refl (asks_of L w));
          bids_perm = rw (is, listed) (put-perm bid_less-IsByAge o (bids_of L w) old);
          same = record { order_id_eq = refl; ask_ticket_eq = refl; bid_ticket_eq = refl };
        };
      }

  -- A row whose side is one of the two.
  insert_one :
      (k : ℤ) (r : StoredOrder L) (w : Worker L)
      → IsSide L r.side
      → k <ℤ r.id
      → IsBook L w
      → IdsBelow L k w
      → (w' : Worker L) × Inserted r w w'
  insert_one k r w (inl s) h b i = (
    record w { asks = L.ask_tree.replace_or_insert (loaded_order L F r) w.asks },
    insert_ask k r w s h b i,
  )
  insert_one k r w (inr s) h b i = (
    record w { bids = L.bid_tree.replace_or_insert (loaded_order L F r) w.bids },
    insert_bid k r w s h b i,
  )

  of_side-cons :
      (side : ℤ) (r : StoredOrder L) (rs : List (StoredOrder L))
      → of_side side (r ∷ []) ++ of_side side rs ≡ of_side side (r ∷ rs)
  unfolding of_side
  of_side-cons side r rs = elim (Bool-cases (r.side ==ℤ side)) [
    | inl h ↦ rw h refl
    | inr h ↦ rw h refl
  ]

  one_more :
      (side : ℤ) (r : StoredOrder L) (rs : List (StoredOrder L)) (books new newer : List Order)
      → Perm newer (of_side side rs ++ new)
      → Perm new (of_side side (r ∷ []) ++ books)
      → Perm newer (of_side side (r ∷ rs) ++ books)
  one_more side r rs books new newer p q =
      let x = of_side side (r ∷ []) in
      let rest = of_side side rs in
      subst (λ l. Perm newer (l ++ books)) (of_side-cons side r rs)
        (Perm.trans (Perm.trans p (Perm.append_left rest q)) (
          subst (λ l. Perm l ((x ++ rest) ++ books)) (append_assoc rest x books)
            (Perm.append_right books (perm_append_comm rest x))))

  -- The rows, from books with IDs up to `k`.
  pub load_rows-Loaded :
      (k m : ℤ) (rs : List (StoredOrder L)) (w : Worker L)
      → All (λ (r : StoredOrder L). IsSide L r.side) rs
      → k ≤ℤ m
      → Rising k m rs
      → IsBook L w
      → IdsBelow L k w
      → (w' : Worker L) × (load_rows L F rs w ≡ (w', none)) × Loaded m rs w w'
  unfolding load_rows of_side
  load_rows-Loaded k m [] w s le h b i = (
    w,
    refl,
    record {
      book = b;
      ids = (weaken k m (asks_of L w) le i.0, weaken k m (bids_of L w) le i.1);
      asks_perm = Perm.refl (asks_of L w);
      bids_perm = Perm.refl (bids_of L w);
      same = record { order_id_eq = refl; ask_ticket_eq = refl; bid_ticket_eq = refl };
    },
  )
  load_rows-Loaded k m (r ∷ rs) w s le h b i =
      let (w1, one) = insert_one k r w s.0 h.0 b i in
      let l1 = one.loaded in
      let (w2, e, l2) = load_rows-Loaded r.id m rs w1 s.1 h.1 h.2 l1.book l1.ids in
      (
        w2,
        ap (next_row L F (load_rows L F rs) w) one.inserts ∙ e,
        record {
          book = l2.book;
          ids = l2.ids;
          asks_perm =
              one_more side_ask r rs (asks_of L w) (asks_of L w1) (asks_of L w2) l2.asks_perm
                l1.asks_perm;
          bids_perm =
              one_more side_bid r rs (bids_of L w) (bids_of L w1) (bids_of L w2) l2.bids_perm
                l1.bids_perm;
          same = record {
            order_id_eq = l2.same.order_id_eq ∙ l1.same.order_id_eq;
            ask_ticket_eq = l2.same.ask_ticket_eq ∙ l1.same.ask_ticket_eq;
            bid_ticket_eq = l2.same.bid_ticket_eq ∙ l1.same.bid_ticket_eq;
          };
        },
      )
