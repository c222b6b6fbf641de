-- ===== src/Ome/Saving/Writer/Stored.antt =====
-- pkg/ome/filedb.go: what a transaction does to the stored `saved_log_id`.
use ccoms.Prelude.{
  ℤ, pos, ◌≤ℤ◌, ltb_ℤ, ltb_ℤ→le, int_laws, ◌≡◌, refl, ap, ◌∙◌, Bool-cases, inl, inr, false, ◌&&◌,
  if◌then◌else◌, List, [], ◌∷◌, ◌++◌,
}
use ccoms.Text.{Text, codes, text_eq, text_eq_refl, to_lower}
use ccoms.Ome.Worker.{Libs, Worker}
use ccoms.Ome.Saving.{
  Batch, Statement, create_orders, create_trades, update_orders, mark_deleted, raise_lastkv,
  unless_empty, if_positive, filled, statements,
}

module _ (L : Libs) where
  -- The `saved_log_id` of `app` that is stored, from `n` on.
  abbrev pub raised : Text → ℤ → Statement L → ℤ
  raised app n (create_orders t rows) = n
  raised app n (create_trades t rows) = n
  raised app n (update_orders t d) = n
  raised app n (mark_deleted t ids) = n
  raised app n (raise_lastkv a k v) =
      if (text_eq a app && text_eq k (codes "saved_log_id")) && ltb_ℤ n v then v else n

  unfoldable pub stored : Text → ℤ → List (Statement L) → ℤ
  stored app n [] = n
  stored app n (st ∷ sts) = stored app (raised app n st) sts

  stored-append :
      (app : Text) (n : ℤ) (xs ys : List (Statement L))
      → stored app n (xs ++ ys) ≡ stored app (stored app n xs) ys
  unfolding stored
  stored-append app n [] ys = refl
  stored-append app n (x ∷ xs) ys = stored-append app (raised app n x) xs ys

  -- A statement that does not raise it.
  stored_same :
      (app : Text) (n : ℤ) (A : Type 0) (xs : List A) (st : Statement L)
      → ((m : ℤ) → raised app m st ≡ m)
      → stored app n (unless_empty L xs st) ≡ n
  unfolding stored
  stored_same app n A [] st h = refl
  stored_same app n A (x ∷ xs) st h = h n

  stored_if :
      (app : Text) (n v : ℤ) (st : Statement L)
      → ((m : ℤ) → raised app m st ≡ m)
      → stored app n (if_positive L v st) ≡ n
  unfolding stored
  stored_if app n v st h = elim (Bool-cases (ltb_ℤ (pos 0) v)) [
    | inl p ↦ rw p (h n)
    | inr p ↦ rw p refl
  ]

  other_key :
      (app k : Text) (v m : ℤ)
      → text_eq k (codes "saved_log_id") ≡ false
      → raised app m (raise_lastkv app k v) ≡ m
  other_key app k v m h = rw (text_eq_refl app, h) refl

  raised_key :
      (app : Text) (n v : ℤ) → n ≤ℤ v → raised app n (raise_lastkv app (codes "saved_log_id") v) ≡ v
  unfolding text_eq
  raised_key app n v h = rw (text_eq_refl app) (elim (Bool-cases (ltb_ℤ n v)) [
    | inl p ↦ rw p refl
    | inr p ↦ let le = ltb_ℤ→le n v p in rw p (omega int_laws)
  ])

  stored_one : (app : Text) (n : ℤ) (st : Statement L) → stored app n (st ∷ []) ≡ raised app n st
  unfolding stored
  stored_one app n st = refl

  unraised :
      (app : Text) (n : ℤ) (xs ys : List (Statement L))
      → ((m : ℤ) → stored app m ys ≡ m)
      → stored app n (xs ++ ys) ≡ stored app n xs
  unraised app n xs ys h = stored-append app n xs ys ∙ h (stored app n xs)

  -- A transaction of a batch whose latest ID is not below what is stored.
  pub stored-statements :
      (w : Worker L) (b : Batch L) (n : ℤ)
      → n ≤ℤ b.latest_log_id
      → stored (to_lower w.name) n (statements L w b) ≡ b.latest_log_id
  unfolding statements text_eq
  stored-statements w b n h =
      let app = to_lower w.name in
      let unset : (m : ℤ) (k : Text) (v : ℤ)
          → text_eq k (codes "saved_log_id") ≡ false
          → stored app m (if_positive L v (raise_lastkv app k v)) ≡ m =
        λ m k v e. stored_if app m v (raise_lastkv app k v) (λ i. other_key app k v i e) in
      unraised app n _ _ (λ m. unset m (codes "latest_bid_ticket_id") b.latest_bid_ticket_id refl)
      ∙ unraised app n _ _ (λ m. unset m (codes "latest_ask_ticket_id") b.latest_ask_ticket_id refl)
      ∙ unraised app n _ _ (λ m. unset m (codes "latest_order_id") b.latest_order_id refl)
      ∙ stored-append app n _ _
      ∙ stored_one app _ _
      ∙ ap (λ m. raised app m (raise_lastkv app (codes "saved_log_id") b.latest_log_id))
          (unraised app n _ _ (λ m. stored_same app m _ (filled L b.updates) _ (λ i. refl))
            ∙ unraised app n _ _ (λ m. stored_same app m _ b.updates _ (λ i. refl))
            ∙ unraised app n _ _ (λ m. stored_same app m _ b.trades _ (λ i. refl))
            ∙ stored_same app n _ b.orders _ (λ i. refl))
      ∙ raised_key app n b.latest_log_id h

  -- The same over transactions.
  unfoldable pub stored_by : Text → ℤ → List (List (Statement L)) → ℤ
  stored_by app n [] = n
  stored_by app n (t ∷ ts) = stored_by app (stored app n t) ts

  pub stored_by-append :
      (app : Text) (n : ℤ) (xs ys : List (List (Statement L)))
      → stored_by app n (xs ++ ys) ≡ stored_by app (stored_by app n xs) ys
  unfolding stored_by
  stored_by-append app n [] ys = refl
  stored_by-append app n (x ∷ xs) ys = stored_by-append app (stored app n x) xs ys
