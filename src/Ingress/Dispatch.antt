-- ===== src/Ingress/Dispatch.antt =====
-- A request from the ingress (pkg/ingress/nats.go, cmd/main/main.go) at the bank
-- (pkg/bank/bank.go).
use ccoms.Prelude.{
  ℕ, ◌==◌, ◌==ℤ◌, ◌≡◌, refl, sym, ap, ◌∙◌, Bool-cases, inl, inr, Option, none, some, List, [], ◌∷◌,
  map, arith, if_true, if_false,
}
use ccoms.Text.{Text, push, split, to_upper, to_upper_byte}
use ccoms.Bank.Worker.{Libs}
use ccoms.Bank.Orders.{Req, Terms, terms, two_parts, side_ask, side_bid}
use ccoms.Ingress.{coin_of, dispatch_bank}

push-to_upper :
    (c : ℕ) (ws : List Text) → push (to_upper_byte c) (map to_upper ws) ≡ map to_upper (push c ws)
unfolding to_upper
push-to_upper c [] = refl
push-to_upper c (w ∷ ws) = refl

not_a_letter : (c : ℕ) → (to_upper_byte c == b'_') ≡ (c == b'_')
unfolding to_upper_byte
not_a_letter c = ground arith

-- A separator that is no letter stays where it is.
split-to_upper : (s : Text) → split b'_' (to_upper s) ≡ map to_upper (split b'_' s)
unfolding split to_upper
split-to_upper [] = refl
split-to_upper (c ∷ s) = elim (Bool-cases (c == b'_')) [
  | inl h ↦
      if_true _ _ (not_a_letter c ∙ h)
      ∙ ap (λ ws. [] ∷ ws) (split-to_upper s)
      ∙ ap (map to_upper) (sym (if_true _ _ h))
  | inr h ↦
      if_false _ _ (not_a_letter c ∙ h)
      ∙ ap (push (to_upper_byte c)) (split-to_upper s)
      ∙ push-to_upper c (split b'_' s)
      ∙ ap (map to_upper) (sym (if_false _ _ h))
]

abbrev upper_parts : Option (Text × Text) → Option (Text × Text)
upper_parts none = none
upper_parts (some (a, b)) = some (to_upper a, to_upper b)

two_parts-map : (l : List Text) → two_parts (map to_upper l) ≡ upper_parts (two_parts l)
unfolding two_parts
two_parts-map [] = refl
two_parts-map (a ∷ []) = refl
two_parts-map (a ∷ b ∷ []) = refl
two_parts-map (a ∷ b ∷ c ∷ l) = refl

module _ (L : Libs) where
  abbrev pub coin_in : Option (Terms L) → Text
  coin_in none = []
  coin_in (some t) = to_upper t.coin

  coin_of-terms :
      (o : Req L) (p : Text × Text)
      → coin_of o.side (some (to_upper p.0, to_upper p.1)) ≡ coin_in (terms L o p)
  unfolding terms
  coin_of-terms o (base, quote) = elim (Bool-cases (o.side ==ℤ side_bid)) [
    | inl h ↦ rw h refl
    | inr h ↦ elim (Bool-cases (o.side ==ℤ side_ask)) [
      | inl j ↦ rw (h, j) refl
      | inr j ↦ rw (h, j) refl
    ]
  ]

  abbrev pub terms_of : Req L → Option (Text × Text) → Option (Terms L)
  terms_of o none = none
  terms_of o (some p) = terms L o p

  coin_of-parts :
      (o : Req L) (m : Option (Text × Text))
      → coin_of o.side (upper_parts m) ≡ coin_in (terms_of o m)
  coin_of-parts o none = refl
  coin_of-parts o (some p) = coin_of-terms o p

  -- The bank that `dispatchBank` chooses for an order is that of the coin which `CreateOrder`
  -- freezes, in upper case, and none where `CreateOrder` has no terms for it.
  pub dispatch_bank-terms :
      (o : Req L)
      → dispatch_bank o.symbol o.side ≡ coin_in (terms_of o (two_parts (split b'_' o.symbol)))
  unfolding dispatch_bank
  dispatch_bank-terms o =
      ap (λ ws. coin_of o.side (two_parts ws)) (split-to_upper o.symbol)
      ∙ ap (coin_of o.side) (two_parts-map (split b'_' o.symbol))
      ∙ coin_of-parts o (two_parts (split b'_' o.symbol))
