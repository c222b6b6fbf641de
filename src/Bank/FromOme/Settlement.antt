-- ===== src/Bank/FromOme/Settlement.antt =====
-- The change that an engine pushes for a trade (pkg/ome/grpc.go), in the accounts of the bank that
-- handles it (pkg/bank/bank.go).
use ccoms.Prelude.{
  ℤ, pos, ◌<ℤ◌, ◌==ℤ◌, ◌≡◌, refl, sym, ap, ap₂, ◌∙◌, Bool-cases, inl, inr, Option, some,
  if◌then◌else◌,
}
use ccoms.Errors.{Error}
use ccoms.Extern.Json.{Json}
use ccoms.Bank.Structs.{BankLog, BalanceChange, OrderReq}
use ccoms.Bank.Worker.{Libs, Worker, Asset, checkout_asset}
use ccoms.Bank.Assets.{IsCounted}
use ccoms.Bank.Changes.{
  parse_change, balance_bank_log, change_balance_log, apply_change, handle_balance_change,
}
use ccoms.Bank.Changes.Undoing.{Changed, applied, refused, credited_both}
use ccoms.Bank.Changes.Outcome.{noted, credited_by, handle_balance_change_lem}
use ccoms.Ome.Structs.{MatchLog, int_to_decimal}
use ccoms.Ome.Worker as Ome
use ccoms.Ome.ToBank.{quote_change, base_change}

module _ (L : Libs) where
  open L.decimal use {D, zero, add, sub, neg, to_string}

  abbrev asset : D → D → Asset L
  asset f z = record { free = f; freeze = z }

  -- What the frozen part of the payer pays into the free part of the payee, for the user `p`.
  abbrev pub moved : D → ℤ → ℤ → ℤ → Asset L → Asset L
  moved x payee payer p a = record {
    free = if p ==ℤ payee then add a.free x else a.free;
    freeze = if p ==ℤ payer then sub a.freeze x else a.freeze;
  }

  -- The change is handled: the amount is moved and the log is written, or an error is returned with
  -- every balance and counter as before. In either case the reason ID is noted.
  abbrev pub Moves : D → ℤ → ℤ → BalanceChange → Worker L → Type 0
  Moves x payee payer bc w =
      let w1 = apply_change L bc (noted L bc w) in
      (r : Worker L × Option Error) × (handle_balance_change L bc w ≡ some r)
      × Changed L (moved x payee payer) (balance_bank_log L (change_balance_log L bc w1) w1)
          (noted L bc w) r

  Changed-after :
      (after after' : ℤ → Asset L → Asset L) (l : BankLog) (w : Worker L)
      (r : Worker L × Option Error)
      → ((p : ℤ) (a : Asset L) → after p a ≡ after' p a)
      → Changed L after l w r
      → Changed L after' l w r
  Changed-after after after' l w r h (applied w' assets log_id ids seq reasons logged) =
      applied w' (λ p. assets p ∙ h p (checkout_asset L p w)) log_id ids seq reasons logged
  Changed-after after after' l w r h (refused w' e same) = refused w' e same

  parse-to_string : (a : D) → parse_change L (to_string a) ≡ a
  unfolding parse_change
  parse-to_string a = rw (L.decimal.from-to_string a) refl

  minus : (a x : D) → add a (neg x) ≡ sub a x
  minus a x = sym (L.decimal.sub-add a x)

  zero_minus : (a x : D) → add (add a zero) (neg x) ≡ sub a x
  zero_minus a x = ap (λ b. add b (neg x)) (L.decimal.add-zero a) ∙ minus a x

  minus_zero : (a x : D) → add (add a (neg x)) zero ≡ sub a x
  minus_zero a x = L.decimal.add-zero (add a (neg x)) ∙ minus a x

  zero_plus : (a x : D) → add (add a zero) x ≡ add a x
  zero_plus a x = ap (λ b. add b x) (L.decimal.add-zero a)

  quote_credited :
      (x : D) (asker bider p : ℤ) (a : Asset L)
      → credited_both L asker x zero bider zero (neg x) p a ≡ moved x asker bider p a
  quote_credited x asker bider p a = elim (Bool-cases (p ==ℤ asker)) [
    | inl h ↦ elim (Bool-cases (p ==ℤ bider)) [
      | inl j ↦ rw (h, j) (ap₂ asset (L.decimal.add-zero (add a.free x)) (zero_minus a.freeze x))
      | inr j ↦ rw (h, j) (ap₂ asset refl (L.decimal.add-zero a.freeze))
    ]
    | inr h ↦ elim (Bool-cases (p ==ℤ bider)) [
      | inl j ↦ rw (h, j) (ap₂ asset (L.decimal.add-zero a.free) (minus a.freeze x))
      | inr j ↦ rw (h, j) refl
    ]
  ]

  base_credited :
      (x : D) (asker bider p : ℤ) (a : Asset L)
      → credited_both L asker zero (neg x) bider x zero p a ≡ moved x bider asker p a
  base_credited x asker bider p a = elim (Bool-cases (p ==ℤ asker)) [
    | inl h ↦ elim (Bool-cases (p ==ℤ bider)) [
      | inl j ↦ rw (h, j) (ap₂ asset (zero_plus a.free x) (minus_zero a.freeze x))
      | inr j ↦ rw (h, j) (ap₂ asset (L.decimal.add-zero a.free) (minus a.freeze x))
    ]
    | inr h ↦ elim (Bool-cases (p ==ℤ bider)) [
      | inl j ↦ rw (h, j) (ap₂ asset refl (L.decimal.add-zero a.freeze))
      | inr j ↦ rw (h, j) refl
    ]
  ]

  -- A change that credits each user as `moved` does.
  handled-Moves :
      (x : D) (payee payer : ℤ) (bc : BalanceChange) (w : Worker L)
      → IsCounted L w
      → pos 0 <ℤ bc.owner2
      → ((p : ℤ) (a : Asset L) → credited_by L bc p a ≡ moved x payee payer p a)
      → Moves x payee payer bc w
  handled-Moves x payee payer bc w c second h =
      let w1 = apply_change L bc (noted L bc w) in
      let r = handle_balance_change_lem L bc w c second in
      (
        r.0,
        r.1,
        Changed-after (credited_by L bc) (moved x payee payer)
            (balance_bank_log L (change_balance_log L bc w1) w1) (noted L bc w) r.0 h r.2,
      )

module _ (E : Ome.Libs) (json : Json BankLog) (order_json : Json (OrderReq E.decimal)) where
  open E.decimal use {D, zero, neg, to_string}

  -- The libraries of the bank, with the decimal numbers of the engine.
  abbrev pub bank_libs : Libs
  bank_libs = record { decimal = E.decimal; json = json; order_json = order_json }

  quote_change-Moves :
      (e : Ome.Worker E) (first_id log_id : ℤ) (ml : MatchLog) (w : Worker bank_libs)
      → IsCounted bank_libs w
      → pos 0 <ℤ ml.bider
      → Moves bank_libs
          (int_to_decimal E.decimal ml.amount)
          ml.asker
          ml.bider
          (quote_change E e first_id log_id ml)
          w
  unfolding quote_change
  quote_change-Moves e first_id log_id ml w c second =
      let x = int_to_decimal E.decimal ml.amount in
      handled-Moves bank_libs x ml.asker ml.bider (quote_change E e first_id log_id ml) w c second
        (λ p a.
          rw
            (
              parse-to_string bank_libs x,
              parse-to_string bank_libs zero,
              parse-to_string bank_libs (neg x),
            )
            (quote_credited bank_libs x ml.asker ml.bider p a))

  base_change-Moves :
      (e : Ome.Worker E) (first_id log_id : ℤ) (ml : MatchLog) (w : Worker bank_libs)
      → IsCounted bank_libs w
      → pos 0 <ℤ ml.bider
      → Moves bank_libs
          (int_to_decimal E.decimal ml.quantity)
          ml.bider
          ml.asker
          (base_change E e first_id log_id ml)
          w
  unfolding base_change
  base_change-Moves e first_id log_id ml w c second =
      let x = int_to_decimal E.decimal ml.quantity in
      handled-Moves bank_libs x ml.bider ml.asker (base_change E e first_id log_id ml) w c second
        (λ p a.
          rw
            (
              parse-to_string bank_libs x,
              parse-to_string bank_libs zero,
              parse-to_string bank_libs (neg x),
            )
            (base_credited bank_libs x ml.asker ml.bider p a))

  -- At two banks whose counters are in the range of `int64`, for a trade with a bider, the bank of
  -- the quote asset that handles the change an engine makes for it moves the amount of the trade
  -- from what the bider has frozen to what the asker has free, and the bank of the base asset moves
  -- the quantity from what the asker has frozen to what the bider has free, with the log of the
  -- change written; or a bank returns an error with every balance and counter as before.
  pub handle_balance_change-Moves :
      (e : Ome.Worker E) (first_id log_id : ℤ) (ml : MatchLog) (quote base : Worker bank_libs)
      → IsCounted bank_libs quote
      → IsCounted bank_libs base
      → pos 0 <ℤ ml.bider
      → Moves bank_libs
          (int_to_decimal E.decimal ml.amount)
          ml.asker
          ml.bider
          (quote_change E e first_id log_id ml)
          quote
        × Moves bank_libs
            (int_to_decimal E.decimal ml.quantity)
            ml.bider
            ml.asker
            (base_change E e first_id log_id ml)
            base
  handle_balance_change-Moves e first_id log_id ml quote base cq cb second = (
    quote_change-Moves e first_id log_id ml quote cq second,
    base_change-Moves e first_id log_id ml base cb second,
  )
