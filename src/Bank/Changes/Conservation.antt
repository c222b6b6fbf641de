-- ===== src/Bank/Changes/Conservation.antt =====
-- pkg/bank/bank.go: what two users have together under `OrderMatched`.
use ccoms.Prelude.{
  ℤ, ◌==ℤ◌, ==ℤ_iff, ◌≡◌, ◌≢◌, refl, sym, ap, ap₂, ◌∙◌, false, Bool-cases, inl, inr, if_true,
  if_false, Option,
}
use ccoms.Errors.{Error}
use ccoms.Text.{Text}
use ccoms.Extern.Decimal.{Decimal}
use ccoms.Bank.Structs.{BankLog}
use ccoms.Bank.Worker.{Libs, Worker, Asset, checkout_asset}
use ccoms.Bank.Assets.{IsCounted, sum}
use ccoms.Bank.Changes.{balance_bank_log, match_balance_log, apply_two, order_matched}
use ccoms.Bank.Changes.Undoing.{Changed, applied, refused, credited, credited_both}
use ccoms.Bank.Changes.Outcome.{order_matched_lem}

module _ (M : Decimal) where
  pub add_swap : (a b c d : M.D) → M.add (M.add a b) (M.add c d) ≡ M.add (M.add a c) (M.add b d)
  add_swap a b c d =
      M.add_assoc a b (M.add c d)
      ∙ ap (M.add a)
          (sym (M.add_assoc b c d) ∙ ap (λ e. M.add e d) (M.add_comm b c) ∙ M.add_assoc c b d)
      ∙ sym (M.add_assoc a c (M.add b d))

module _ (L : Libs) where
  open L.decimal use {D, add, zero}

  sum-credited :
      (o : ℤ) (x y : D) (a : Asset L) → sum L (credited L o x y o a) ≡ add (sum L a) (add x y)
  sum-credited o x y a =
      ap (sum L) (if_true _ _ ((==ℤ_iff o o).1 refl)) ∙ add_swap L.decimal a.free x a.freeze y

  other : (p o : ℤ) → p ≢ o → (p ==ℤ o) ≡ false
  other p o ne = elim (Bool-cases (p ==ℤ o)) [ inl k ↦ absurd (ne ((==ℤ_iff p o).0 k)) | inr k ↦ k ]

  module _ (o1 : ℤ) (x1 y1 : D) (o2 : ℤ) (x2 y2 : D) where
    first_sum :
        (a : Asset L)
        → o1 ≢ o2
        → sum L (credited_both L o1 x1 y1 o2 x2 y2 o1 a) ≡ add (sum L a) (add x1 y1)
    first_sum a ne = ap (sum L) (if_false _ _ (other o1 o2 ne)) ∙ sum-credited o1 x1 y1 a

    second_sum :
        (a : Asset L)
        → o1 ≢ o2
        → sum L (credited_both L o1 x1 y1 o2 x2 y2 o2 a) ≡ add (sum L a) (add x2 y2)
    second_sum a ne =
        ap (λ b. sum L (credited L o2 x2 y2 o2 b)) (if_false _ _ (other o2 o1 (λ e. ne (sym e))))
        ∙ sum-credited o2 x2 y2 a

    abbrev together : Worker L → D
    together w = add (sum L (checkout_asset L o1 w)) (sum L (checkout_asset L o2 w))

    Changed-together :
        (l : BankLog) (w : Worker L) (r : Worker L × Option Error)
        → o1 ≢ o2
        → add (add x1 y1) (add x2 y2) ≡ zero
        → Changed L (credited_both L o1 x1 y1 o2 x2 y2) l w r
        → together r.0 ≡ together w
    Changed-together l w r ne z (refused w' e same) =
        ap₂ (λ a b. add (sum L a) (sum L b)) (same.asset_eq o1) (same.asset_eq o2)
    Changed-together l w r ne z (applied w' assets log_id ids seq reasons logged) =
        ap₂ (λ a b. add (sum L a) (sum L b)) (assets o1) (assets o2)
        ∙ ap₂ add (first_sum (checkout_asset L o1 w) ne) (second_sum (checkout_asset L o2 w) ne)
        ∙ add_swap L.decimal (sum L (checkout_asset L o1 w)) (add x1 y1)
            (sum L (checkout_asset L o2 w)) (add x2 y2)
        ∙ ap (add (together w)) z
        ∙ L.decimal.add-zero (together w)

  -- From a bank whose counters are in the range of `int64`, `OrderMatched` of two different users
  -- with four amounts that add up to zero leaves the sum of all that the two have, free or frozen,
  -- as it was, whether the log is written or not.
  pub order_matched-conserves :
      (o1 : ℤ) (x1 y1 : D) (o2 : ℤ) (x2 y2 : D) (table : Text) (id : ℤ) (w : Worker L)
      → IsCounted L w
      → o1 ≢ o2
      → add (add x1 y1) (add x2 y2) ≡ zero
      → let w' = (order_matched L o1 x1 y1 o2 x2 y2 table id w).0 in
        add (sum L (checkout_asset L o1 w')) (sum L (checkout_asset L o2 w'))
        ≡ add (sum L (checkout_asset L o1 w)) (sum L (checkout_asset L o2 w))
  order_matched-conserves o1 x1 y1 o2 x2 y2 table id w c ne z =
      let w1 = apply_two L o1 x1 y1 o2 x2 y2 w in
      Changed-together o1 x1 y1 o2 x2 y2
        (balance_bank_log L (match_balance_log L o1 x1 y1 o2 x2 y2 table id w1) w1) w
        (order_matched L o1 x1 y1 o2 x2 y2 table id w) ne z
        (order_matched_lem L o1 x1 y1 o2 x2 y2 table id w c)
