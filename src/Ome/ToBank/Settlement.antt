-- ===== src/Ome/ToBank/Settlement.antt =====
-- pkg/ome/grpc.go: a trade in the log, as the changes that the banks are told.
use ccoms.Prelude.{
  ℤ, ◌≤ℤ◌, ◌<ℤ◌, leb_ℤ, leb_ℤ→le, ◌≡◌, ◌≢◌, refl, sym, ap, ap₂, subst, ◌∙◌, false, Bool-cases, inl,
  inr, if_true, if_false, some, List, [], ◌∷◌, ◌++◌, arith,
}
use ccoms.Errors.{Result, ok}
use ccoms.Text.{Text, codes, text_eq, text_eq_refl, text_eq→eq, to_lower}
use ccoms.Extern.Decimal.{Decimal}
use ccoms.Bank.Structs.{BalanceChange}
use ccoms.Ome.Structs.{MatchLog, OmeLog, int_to_decimal}
use ccoms.Ome.Worker.{Libs, Worker}
use ccoms.Ome.ToBank.{quote_change, base_change, changes_for, changes_of, pushed, push}

module _ (M : Decimal) where
  zero-add : (a : M.D) → M.add M.zero a ≡ a
  zero-add a = M.add_comm M.zero a ∙ M.add-zero a

  quote_sum : (a : M.D) → M.add (M.add a M.zero) (M.add M.zero (M.neg a)) ≡ M.zero
  quote_sum a = ap₂ M.add (M.add-zero a) (zero-add (M.neg a)) ∙ M.add-neg a

  base_sum : (q : M.D) → M.add (M.add M.zero (M.neg q)) (M.add q M.zero) ≡ M.zero
  base_sum q = ap₂ M.add (zero-add (M.neg q)) (M.add-zero q) ∙ M.add_comm (M.neg q) q ∙ M.add-neg q

module _ (L : Libs) (w : Worker L) (first_id : ℤ) where
  open L.decimal use {D, zero, neg, add, new_from_string}

  -- A change that settles the trade `ml` of the log `log_id` between its two owners: what the bank
  -- reads in it adds the four amounts to what each has free and frozen, and they add up to zero.
  pub record Settles (log_id : ℤ) (ml : MatchLog) (free freeze free2 freeze2 : D)
      (bc : BalanceChange) : Type 0 where
    pub reason_eq : bc.reason ≡ codes "match"
    pub table_eq : bc.reason_table ≡ (codes "ome_" ++ to_lower w.symbol) ++ codes "_logs"
    pub id_eq : bc.reason_id ≡ log_id
    pub first_eq : bc.reason_id_first ≡ first_id
    pub asker_eq : bc.owner ≡ ml.asker
    pub bider_eq : bc.owner2 ≡ ml.bider
    pub free_eq : new_from_string bc.free_change ≡ some free
    pub freeze_eq : new_from_string bc.freeze_change ≡ some freeze
    pub free2_eq : new_from_string bc.free_change2 ≡ some free2
    pub freeze2_eq : new_from_string bc.freeze_change2 ≡ some freeze2
    pub sum_eq : add (add free freeze) (add free2 freeze2) ≡ zero

  abbrev amount_of : MatchLog → D
  amount_of ml = int_to_decimal L.decimal ml.amount

  abbrev quantity_of : MatchLog → D
  quantity_of ml = int_to_decimal L.decimal ml.quantity

  quote_change-Settles :
      (log_id : ℤ) (ml : MatchLog)
      → Settles log_id ml
          (amount_of ml)
          zero
          zero
          (neg (amount_of ml))
          (quote_change L w first_id log_id ml)
  unfolding quote_change
  quote_change-Settles log_id ml =
      let M = L.decimal in
      record {
        reason_eq = refl;
        table_eq = refl;
        id_eq = refl;
        first_eq = refl;
        asker_eq = refl;
        bider_eq = refl;
        free_eq = M.from-to_string (amount_of ml);
        freeze_eq = M.from-to_string zero;
        free2_eq = M.from-to_string zero;
        freeze2_eq = M.from-to_string (neg (amount_of ml));
        sum_eq = quote_sum M (amount_of ml);
      }

  base_change-Settles :
      (log_id : ℤ) (ml : MatchLog)
      → Settles log_id ml zero
          (neg (quantity_of ml))
          (quantity_of ml)
          zero
          (base_change L w first_id log_id ml)
  unfolding base_change
  base_change-Settles log_id ml =
      let M = L.decimal in
      record {
        reason_eq = refl;
        table_eq = refl;
        id_eq = refl;
        first_eq = refl;
        asker_eq = refl;
        bider_eq = refl;
        free_eq = M.from-to_string zero;
        freeze_eq = M.from-to_string (neg (quantity_of ml));
        free2_eq = M.from-to_string (quantity_of ml);
        freeze2_eq = M.from-to_string zero;
        sum_eq = base_sum M (quantity_of ml);
      }

  -- What the bank of `coin` is sent for the trade `ml` of the log `l`.
  pub data Told (coin : Text) (l : OmeLog) (ml : MatchLog) (r : Result (List BalanceChange))
      : Type 0 where
    not_wanted : l.log_id ≤ℤ first_id → r ≡ ok [] → Told coin l ml r
    in_quote :
        first_id <ℤ l.log_id
        → coin ≡ w.quote_asset
        → (bc : BalanceChange) → r ≡ ok (bc ∷ [])
        → Settles l.log_id ml (amount_of ml) zero zero (neg (amount_of ml)) bc
        → Told coin l ml r
    in_base :
        first_id <ℤ l.log_id
        → coin ≡ w.base_asset
        → (bc : BalanceChange) → r ≡ ok (bc ∷ [])
        → Settles l.log_id ml zero (neg (quantity_of ml)) (quantity_of ml) zero bc
        → Told coin l ml r
    in_neither : coin ≢ w.quote_asset → coin ≢ w.base_asset → r ≡ ok [] → Told coin l ml r

  unequal : (s t : Text) → text_eq s t ≡ false → s ≢ t
  unequal s t h p = absurd (ground (arith, h, ap (λ u. text_eq s u) (sym p) ∙ text_eq_refl s))

  module _ (coin : Text) (l : OmeLog) (ml : MatchLog) where
    wanted-Told :
        first_id <ℤ l.log_id
        → w.quote_asset ≢ w.base_asset
        → Told coin l ml (ok (changes_for L coin w first_id l.log_id ml))
    unfolding changes_for
    wanted-Told new two = elim (Bool-cases (text_eq coin w.quote_asset)) [
      | inl q ↦ elim (Bool-cases (text_eq coin w.base_asset)) [
        | inl b ↦
            absurd (two (sym (text_eq→eq coin w.quote_asset q) ∙ text_eq→eq coin w.base_asset b))
        | inr b ↦
            in_quote new (text_eq→eq coin w.quote_asset q) (quote_change L w first_id l.log_id ml)
              (rw (q, b) refl) (quote_change-Settles l.log_id ml)
      ]
      | inr q ↦ elim (Bool-cases (text_eq coin w.base_asset)) [
        | inl b ↦
            in_base new (text_eq→eq coin w.base_asset b) (base_change L w first_id l.log_id ml)
              (rw (q, b) refl) (base_change-Settles l.log_id ml)
        | inr b ↦
            in_neither (unequal coin w.quote_asset q) (unequal coin w.base_asset b) (rw (q, b) refl)
      ]
    ]

    changes_of-Told :
        w.quote_asset ≢ w.base_asset
        → (rest : List MatchLog)
        → Told coin l ml (ok (changes_of L coin w first_id l.log_id (ml ∷ rest)))
    changes_of-Told two rest = elim (Bool-cases (leb_ℤ l.log_id first_id)) [
      | inl old ↦ not_wanted (leb_ℤ→le l.log_id first_id old) (ap ok (if_true _ _ old))
      | inr new ↦
          subst (λ bcs. Told coin l ml (ok bcs)) (sym (if_false _ _ new))
            (wanted-Told (ground arith) two)
    ]

    -- Of the line of a log of trades, in a market of two different assets, the bank of the quote
    -- asset is sent one change that takes the amount of the first trade from what the bider has
    -- frozen and gives it to the asker, free; the bank of the base asset one that takes the quantity
    -- from what the asker has frozen and gives it to the bider, free; and any other bank none. Each
    -- has the table of the market, the log's ID and the first ID, and its four amounts, as the bank
    -- reads them, add up to zero. Of a log that is not above the first ID no bank is sent anything.
    pub push-Settles :
        (rest : List MatchLog) (s : Text)
        → L.json.marshal l ≡ some s
        → l.match_logs ≡ ml ∷ rest
        → w.quote_asset ≢ w.base_asset
        → Told coin l ml (push L coin w first_id s)
    unfolding push
    push-Settles rest s hm trades two =
        subst (Told coin l ml)
          (sym (
            ap (pushed L coin w first_id) (L.json.unmarshal-marshal l s hm)
            ∙ ap (λ ms. ok (changes_of L coin w first_id l.log_id ms)) trades))
          (changes_of-Told two rest)
