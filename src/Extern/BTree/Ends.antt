-- ===== src/Extern/BTree/Ends.antt =====
-- Sorted lists at their two ends, where the engine reads and changes its books.
use ccoms.Prelude.{◌≡◌, ap, inl, inr, true, false, some, List, [], ◌∷◌, ◌++◌, All, All-append, Bool}
use ccoms.Extern.BTree.{first, last, Sorted, Placed, put, remove}

pub first-cons : {A : Type 0} (l : List A) (a : A) → first l ≡ some a → (r : List A) × (l ≡ a ∷ r)
first-cons [] a h = cc
first-cons (b ∷ r) a h = (r, cc)

pub last-snoc :
    {A : Type 0} (l : List A) (a : A) → last l ≡ some a → (r : List A) × (l ≡ r ++ a ∷ [])
last-snoc [] a h = cc
last-snoc (b ∷ []) a h = ([], cc)
last-snoc (b ∷ c ∷ l) a h = let (r, e) = last-snoc (c ∷ l) a h in (b ∷ r, ap (λ t. b ∷ t) e)

module _ {A : Type 0} (less : A → A → Bool) where
  -- An item that is equal to the first one.
  pub put-head :
      (a b : A) (l : List A) → less b a ≡ false → less a b ≡ false → put less a (b ∷ l) ≡ a ∷ l
  unfolding put
  put-head a b l h k = rw (h, k)

  pub remove-head :
      (a b : A) (l : List A) → less b a ≡ false → less a b ≡ false → remove less a (b ∷ l) ≡ l
  unfolding remove
  remove-head a b l h k = rw (h, k)

  -- An item that is equal to the last one.
  pub put-last :
      (a b : A) (l : List A)
      → All (λ c. less c a ≡ true) l
      → less b a ≡ false
      → less a b ≡ false
      → put less a (l ++ b ∷ []) ≡ l ++ a ∷ []
  unfolding put
  put-last a b [] s h k = rw (h, k)
  put-last a b (c ∷ l) s h k = rw s.0 (ap (λ t. c ∷ t) (put-last a b l s.1 h k))

  pub remove-last :
      (a b : A) (l : List A)
      → All (λ c. less c a ≡ true) l
      → less b a ≡ false
      → less a b ≡ false
      → remove less a (l ++ b ∷ []) ≡ l
  unfolding remove
  remove-last a b [] s h k = rw (h, k)
  remove-last a b (c ∷ l) s h k = rw s.0 (ap (λ t. c ∷ t) (remove-last a b l s.1 h k))

  pub Placed-last :
      (a b : A) (l : List A)
      → All (λ c. less c a ≡ true) l
      → less b a ≡ false
      → Placed less a (l ++ b ∷ [])
  Placed-last a b [] s h = inr (h, tt)
  Placed-last a b (c ∷ l) s h = inl (s.0, Placed-last a b l s.1 h)

  pub All-snoc : (P : A → Type 0) (l : List A) (b : A) → All P (l ++ b ∷ []) → All P l × P b
  All-snoc P [] b h = (tt, h.0)
  All-snoc P (c ∷ l) b h = let (i, e) = All-snoc P l b h.1 in ((h.0, i), e)

  pub Sorted-snoc :
      (l : List A) (b : A)
      → Sorted less (l ++ b ∷ [])
      → Sorted less l × All (λ c. less c b ≡ true) l
  Sorted-snoc [] b h = (tt, tt)
  Sorted-snoc (c ∷ l) b h =
      let (i, e) = All-snoc _ l b h.0 in let (s, t) = Sorted-snoc l b h.1 in ((i, s), (e, t))

  pub snoc-Sorted :
      (l : List A) (b : A)
      → Sorted less l
      → All (λ c. less c b ≡ true) l
      → Sorted less (l ++ b ∷ [])
  snoc-Sorted [] b h k = (tt, tt)
  snoc-Sorted (c ∷ l) b h k =
      (All-append (λ d. less c d ≡ true) l (b ∷ []) h.0 (k.0, tt), snoc-Sorted l b h.1 k.1)
