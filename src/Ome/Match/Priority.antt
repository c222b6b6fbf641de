-- ===== src/Ome/Match/Priority.antt =====
-- Which orders a round of `TryMatch` (pkg/ome/ome.go) takes, by their prices and IDs.
use ccoms.Prelude.{
  ◌≤ℤ◌, ◌<ℤ◌, ltb_ℤ→le, ltb_ℤ→lt, ◌≡◌, ◌⊎◌, refl, sym, subst, inl, inr, true, Option, none, some,
  List, [], ◌∷◌, ◌++◌, arith, All, Bool-cases,
}
use ccoms.Extern.BTree.{Sorted, first, last}
use ccoms.Extern.BTree.Ends.{first-cons, last-snoc, Sorted-snoc}
use ccoms.Ome.Structs.{Order, ask_less, bid_less, greater}
use ccoms.Ome.Worker.{Libs, Worker}
use ccoms.Ome.Match.{MatchStep, halt, trade, match_best, match_step}
use ccoms.Ome.Match.Runs.{asks_of, bids_of, IsBook}

-- `x` comes before `y` where the lower price and then the lower ID win.
abbrev pub Precedes : Order → Order → Type 0
Precedes x y = (x.price <ℤ y.price) ⊎ ((x.price ≡ y.price) × (x.id <ℤ y.id))

ask_less-Precedes : (x y : Order) → ask_less x y ≡ true → Precedes x y
unfolding ask_less
ask_less-Precedes x y h = ground arith

bid_less-Precedes : (x y : Order) → bid_less x y ≡ true → Precedes x y
unfolding bid_less
bid_less-Precedes x y h = ground arith

All-map : {A : Type 0} (P Q : A → Type 0) (l : List A) → ((a : A) → P a → Q a) → All P l → All Q l
All-map P Q [] f h = tt
All-map P Q (a ∷ l) f h = (f a h.0, All-map P Q l f h.1)

first-nil : {A : Type 0} (l : List A) → first l ≡ none → l ≡ []
first-nil [] h = refl
first-nil (a ∷ l) h = cc

last-nil : {A : Type 0} (l : List A) → last l ≡ none → l ≡ []
last-nil [] h = refl
last-nil (a ∷ []) h = cc
last-nil (a ∷ b ∷ l) h = absurd (ground (arith, last-nil (b ∷ l) h))

module _ (L : Libs) where
  -- No ask is as cheap as any bid.
  abbrev pub Apart : List Order → List Order → Type 0
  Apart asks bids = All (λ oa. All (λ ob. ob.price <ℤ oa.price) bids) asks

  Apart-nil : (asks : List Order) → Apart asks []
  Apart-nil [] = tt
  Apart-nil (oa ∷ asks) = (tt, Apart-nil asks)

  -- What a round does with the books.
  pub data Chosen (w : Worker L) (s : MatchStep L) : Type 0 where
    rests : Apart (asks_of L w) (bids_of L w) → s ≡ halt w → Chosen w s
    trades :
        (oa ob : Order) (asks bids : List Order)
        → asks_of L w ≡ oa ∷ asks
        → bids_of L w ≡ bids ++ ob ∷ []
        → All (λ o. Precedes oa o) asks
        → All (λ o. Precedes o ob) bids
        → oa.price ≤ℤ ob.price
        → s ≡ trade L w oa ob
        → Chosen w s

  no_asks : (w : Worker L) → asks_of L w ≡ [] → Apart (asks_of L w) (bids_of L w)
  no_asks w h = rw h tt

  no_bids : (w : Worker L) → bids_of L w ≡ [] → Apart (asks_of L w) (bids_of L w)
  no_bids w h = rw h (Apart-nil (asks_of L w))

  dearer : (oa o : Order) → Precedes oa o → oa.price ≤ℤ o.price
  dearer oa o h = ground arith

  -- Bids up to the price of `ob`, and asks from that of `oa` on.
  below :
      (o ob : Order) (bids : List Order)
      → ob.price <ℤ o.price
      → All (λ b. Precedes b ob) bids
      → All (λ b. b.price <ℤ o.price) (bids ++ ob ∷ [])
  below o ob [] lt h = (lt, tt)
  below o ob (b ∷ bids) lt h =
      let le = dearer b ob h.0 in (omega (arith, le, lt), below o ob bids lt h.1)

  all-Apart :
      (oa ob : Order) (asks bids : List Order)
      → ob.price <ℤ oa.price
      → All (λ o. Precedes oa o) asks
      → All (λ b. Precedes b ob) bids
      → Apart asks (bids ++ ob ∷ [])
  all-Apart oa ob [] bids lt h k = tt
  all-Apart oa ob (o ∷ asks) bids lt h k =
      let le = dearer oa o h.0 in
      (below o ob bids (omega (arith, le, lt)) k, all-Apart oa ob asks bids lt h.1 k)

  books-Apart :
      (w : Worker L) (oa ob : Order) (asks bids : List Order)
      → asks_of L w ≡ oa ∷ asks
      → bids_of L w ≡ bids ++ ob ∷ []
      → Apart (oa ∷ asks) (bids ++ ob ∷ [])
      → Apart (asks_of L w) (bids_of L w)
  books-Apart w oa ob asks bids ea eb h =
      subst (λ x. Apart x (bids_of L w)) (sym ea) (subst (λ y. Apart (oa ∷ asks) y) (sym eb) h)

  match_best-Chosen :
      (w : Worker L) (a b : Option Order)
      → IsBook L w
      → first (asks_of L w) ≡ a
      → last (bids_of L w) ≡ b
      → Chosen w (match_best L w a b)
  unfolding match_best greater
  match_best-Chosen w none b h ha hb = rests (no_asks w (first-nil (asks_of L w) ha)) refl
  match_best-Chosen w (some oa) none h ha hb = rests (no_bids w (last-nil (bids_of L w) hb)) refl
  match_best-Chosen w (some oa) (some ob) h ha hb =
      let (asks, ea) = first-cons (asks_of L w) oa ha in
      let (bids, eb) = last-snoc (bids_of L w) ob hb in
      let sa : Sorted ask_less (oa ∷ asks) = rw ea at h.asks_sorted in
      let sb : Sorted bid_less (bids ++ ob ∷ []) = rw eb at h.bids_sorted in
      let pa = All-map _ _ asks (λ o. ask_less-Precedes oa o) sa.0 in
      let pb = All-map _ _ bids (λ o. bid_less-Precedes o ob) (Sorted-snoc bid_less _ ob sb).1 in
      elim (Bool-cases (greater oa.price ob.price)) [
        | inl g ↦
            let lt : ob.price <ℤ oa.price = ltb_ℤ→lt ob.price oa.price g in
            rests
              (books-Apart w oa ob asks bids ea eb
                (below oa ob bids lt pb, all-Apart oa ob asks bids lt pa pb))
              (rw g refl)
        | inr g ↦ trades oa ob asks bids ea eb pa pb (ltb_ℤ→le ob.price oa.price g) (rw g refl)
      ]

  -- On books that are in order, a round of `TryMatch` halts with the worker as it was, and then
  -- every ask is dearer than every bid; or it makes the trade of an ask with a bid that is not
  -- cheaper, where every other ask is dearer than that ask, or as dear and of a higher ID, and every
  -- other bid is cheaper than that bid, or as dear and of a lower ID: of the bids of one price the
  -- newest trades first, of the asks the oldest.
  pub match_step_priority : (w : Worker L) → IsBook L w → Chosen w (match_step L w)
  unfolding match_step
  match_step_priority w h =
      match_best-Chosen w (L.ask_tree.min w.asks) (L.bid_tree.max w.bids) h
        (sym (L.ask_tree.min-first w.asks)) (sym (L.bid_tree.max-last w.bids))
