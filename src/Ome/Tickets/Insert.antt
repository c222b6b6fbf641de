-- ===== src/Ome/Tickets/Insert.antt =====
-- A new order, whose ID is above all the IDs of a book, in the sorted list of that book.
use mathlib.Core.List.{Perm}
use mathlib.Core.List.Perm
use ccoms.Prelude.{
  ◌<ℤ◌, ◌≡◌, refl, inr, inl, Bool, true, false, List, [], ◌∷◌, arith, All, Bool-cases,
}
use ccoms.Extern.BTree.{Sorted, Placed, put, found}
use ccoms.Ome.Structs.{Order, ask_less, bid_less}

-- What a comparison of orders says of a newer order `a`: it is not equal to another one, and it
-- comes before all that an order which it precedes comes before.
pub record IsByAge (less : Order → Order → Bool) : Type 0 where
  pub newer_before : (a b : Order) → b.id <ℤ a.id → less b a ≡ false → less a b ≡ true
  pub newer_trans :
      (a b c : Order)
      → b.id <ℤ a.id
      → c.id <ℤ a.id
      → less b a ≡ false
      → less b c ≡ true
      → less a c ≡ true

ask_before : (a b : Order) → b.id <ℤ a.id → ask_less b a ≡ false → ask_less a b ≡ true
unfolding ask_less
ask_before a b h k = ground arith

ask_trans :
    (a b c : Order)
    → b.id <ℤ a.id
    → c.id <ℤ a.id
    → ask_less b a ≡ false
    → ask_less b c ≡ true
    → ask_less a c ≡ true
unfolding ask_less
ask_trans a b c h i j k = ground arith

pub ask_less-IsByAge : IsByAge ask_less
ask_less-IsByAge = record { newer_before = ask_before; newer_trans = ask_trans }

pub bid_less-IsByAge : IsByAge bid_less
unfolding bid_less ask_less
bid_less-IsByAge = record { newer_before = ask_before; newer_trans = ask_trans }

module _ {less : Order → Order → Bool} (age : IsByAge less) (a : Order) where
  abbrev Older : List Order → Type 0
  Older l = All (λ o. o.id <ℤ a.id) l

  behind :
      (b : Order) (l : List Order)
      → b.id <ℤ a.id
      → less b a ≡ false
      → Older l
      → All (λ c. less b c ≡ true) l
      → All (λ c. less a c ≡ true) l
  behind b [] h k o s = tt
  behind b (c ∷ l) h k o s = (age.newer_trans a b c h o.0 k s.0, behind b l h k o.1 s.1)

  pub newer-Placed : (l : List Order) → Older l → Sorted less l → Placed less a l
  newer-Placed [] o s = tt
  newer-Placed (b ∷ l) o s = elim (Bool-cases (less b a)) [
    | inl h ↦ inl (h, newer-Placed l o.1 s.1)
    | inr h ↦ inr (h, behind b l o.0 h o.1 s.0)
  ]

  pub newer_not_found : (l : List Order) → Older l → found less a l ≡ false
  unfolding found
  newer_not_found [] o = refl
  newer_not_found (b ∷ l) o = elim (Bool-cases (less b a)) [
    | inl h ↦ rw h (newer_not_found l o.1)
    | inr h ↦ rw (h, age.newer_before a b o.0 h)
  ]

  pub All-put : (P : Order → Type 0) (l : List Order) → P a → All P l → All P (put less a l)
  unfolding put
  All-put P [] p h = (p, tt)
  All-put P (b ∷ l) p h = elim (Bool-cases (less b a)) [
    | inl k ↦ rw k (h.0, All-put P l p h.1)
    | inr k ↦ elim (Bool-cases (less a b)) [ inl j ↦ rw (k, j) (p, h) | inr j ↦ rw (k, j) (p, h.1) ]
  ]

  pub put-Sorted : (l : List Order) → Older l → Sorted less l → Sorted less (put less a l)
  unfolding put
  put-Sorted [] o s = (tt, tt)
  put-Sorted (b ∷ l) o s = elim (Bool-cases (less b a)) [
    | inl h ↦ rw h (All-put (λ c. less b c ≡ true) l h s.0, put-Sorted l o.1 s.1)
    | inr h ↦
        let before = age.newer_before a b o.0 h in
        rw (h, before) ((before, behind b l o.0 h o.1 s.0), s)
  ]

  -- A newer item is one more.
  pub put-perm : (l : List Order) → Older l → Perm (put less a l) (a ∷ l)
  unfolding put
  put-perm [] o = Perm.refl (a ∷ [])
  put-perm (b ∷ l) o = elim (Bool-cases (less b a)) [
    | inl h ↦ rw h (Perm.trans (Perm.cons b (put-perm l o.1)) (Perm.swap a b l))
    | inr h ↦ rw (h, age.newer_before a b o.0 h) (Perm.refl (a ∷ b ∷ l))
  ]
