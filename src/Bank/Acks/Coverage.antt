-- ===== src/Bank/Acks/Coverage.antt =====
-- That each round of the acknowledging task (pkg/bank/bank.go) covers what it has received.
use ccoms.Prelude.{
  ℤ, pos, ltb_ℤ, ltb_ℤ→le, ltb_ℤ→lt, ◌≤ℤ◌, ◌≡◌, refl, ap, ◌∙◌, Bool-cases, inl, inr, true, Option,
  none, some, List, [], ◌∷◌, All, arith, if_true, if_false,
}
use ccoms.Bank.Acks.{gathered, Round, latest_after, acked, after_round, ack_rounds}

-- The sequence numbers of NATS start at 1.
abbrev pub IsStream : List Round → Type 0
IsStream [] = Unit
IsStream (r ∷ rs) = All (λ n. pos 1 ≤ℤ n) (r.mp ∷ r.more) × IsStream rs

-- The acknowledgement of each round is not below any number of the round.
abbrev pub Acknowledges : List Round → List ℤ → Type 0
Acknowledges [] [] = Unit
Acknowledges [] (n ∷ ns) = ⊥
Acknowledges (r ∷ rs) [] = ⊥
Acknowledges (r ∷ rs) (n ∷ ns) = All (λ m. m ≤ℤ n) (r.mp ∷ r.more) × Acknowledges rs ns

gathered-some :
    (n : ℤ) (ns : List ℤ)
    → (top : ℤ) × ((gathered (some n) ns ≡ some top) × ((n ≤ℤ top) × All (λ m. m ≤ℤ top) ns))
unfolding gathered
gathered-some n [] = (n, (refl, (omega arith, tt)))
gathered-some n (m ∷ ms) = elim (Bool-cases (ltb_ℤ n m)) [
  | inl h ↦
      let (top, (e, (le, all))) = gathered-some m ms in
      (
        top,
        (
          ap (λ l. gathered l ms) (if_true _ _ h) ∙ e,
          (omega (arith, ltb_ℤ→lt n m h, le), (le, all)),
        ),
      )
  | inr h ↦
      let (top, (e, (le, all))) = gathered-some n ms in
      (
        top,
        (
          ap (λ l. gathered l ms) (if_false _ _ h) ∙ e,
          (le, (omega (arith, ltb_ℤ→le n m h, le), all)),
        ),
      )
]

round_top :
    (latest : Option ℤ) (mp : ℤ) (more : List ℤ)
    → pos 1 ≤ℤ mp
    → (top : ℤ) × ((gathered latest (mp ∷ more) ≡ some top) × All (λ m. m ≤ℤ top) (mp ∷ more))
unfolding gathered
round_top none mp more h =
    let (top, (e, (le, all))) = gathered-some mp more in
    (top, (ap (λ l. gathered l more) (if_true _ _ (above mp h)) ∙ e, (le, all)))
  where
    above : (n : ℤ) → pos 1 ≤ℤ n → ltb_ℤ (pos 0) n ≡ true
    above n i = ground arith
round_top (some n) mp more h =
    let (top, (e, (le, all))) = gathered-some n (mp ∷ more) in (top, (e, all))

rounds_from :
    (rs : List Round) (latest : Option ℤ)
    → IsStream rs
    → (acks : List ℤ) × ((ack_rounds rs latest ≡ some acks) × Acknowledges rs acks)
unfolding ack_rounds
rounds_from [] latest h = ([], (refl, tt))
rounds_from (r ∷ rs) latest h =
    let (top, (e, all)) = round_top latest r.mp r.more h.0.0 in
    let (acks, (more, each)) = rounds_from rs (some (latest_after r top)) h.1 in
    (top ∷ acks, (ap (after_round r (λ l. ack_rounds rs l)) e ∙ ap (acked top) more, (all, each)))

-- However the messages come and whichever acknowledgements fail, the task does not panic, and it
-- acknowledges in each round a number that is not below any that it has received in the round.
pub ack_rounds-Acknowledges :
    (rs : List Round)
    → IsStream rs
    → (acks : List ℤ) × ((ack_rounds rs none ≡ some acks) × Acknowledges rs acks)
ack_rounds-Acknowledges rs h = rounds_from rs none h
