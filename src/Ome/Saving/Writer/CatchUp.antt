-- ===== src/Ome/Saving/Writer/CatchUp.antt =====
-- What `FiledbToMySQL` (pkg/ome/filedb.go) has saved of the lines of a log.
use ccoms.Prelude.{
  ℤ, pos, ◌≤ℤ◌, ◌<ℤ◌, leb_ℤ, leb_ℤ→le, lt→leb_ℤ, ◌≡◌, ◌⊎◌, refl, sym, ap, subst, ◌∙◌, Bool-cases,
  inl, inr, Bool, false, ◌&&◌, if_true, if_false, some, List, [], ◌∷◌, ◌++◌, All, arith,
}
use ccoms.Errors.{ok}
use ccoms.Text.{Text}
use ccoms.Ome.Structs.{MatchLog, OrderLog, OmeLog}
use ccoms.Ome.Worker.{Libs}
use ccoms.Ome.Saving.{
  Batch, trade_row, order_row, is_empty, add_match, add_order, add_log, after_match, collected,
  collect,
}
use ccoms.Ome.Saving.Again.{IsSaved}

not_saved : (id saved : ℤ) → leb_ℤ id saved ≡ false → saved <ℤ id
not_saved id saved h = ground arith

and_false : (a b c : Bool) → (a ≡ false) ⊎ (b ≡ false) → (a && b && c) ≡ false
and_false a b c h = ground arith

module _ (L : Libs) where
  is_empty-snoc : {A : Type 0} (xs : List A) (x : A) → is_empty L (xs ++ x ∷ []) ≡ false
  is_empty-snoc [] x = refl
  is_empty-snoc (y ∷ xs) x = refl

  abbrev pub has_none : Batch L → Bool
  has_none b = is_empty L b.trades && is_empty L b.orders && is_empty L b.updates

  -- A log has a new order or a trade.
  abbrev pub HasEntry : OmeLog → Type 0
  HasEntry l =
      ((m : MatchLog) × ((ms : List MatchLog) × (l.match_logs ≡ m ∷ ms)))
      ⊎ ((o : OrderLog) × ((os : List OrderLog) × (l.order_logs ≡ o ∷ os)))

  -- The lines are logs with rising IDs above `k`, each with an entry.
  abbrev pub Rising : ℤ → List Text → Type 0
  Rising k [] = Unit
  Rising k (s ∷ ss) =
      (l : OmeLog) × ((L.json.unmarshal s ≡ some l)
        × (HasEntry l × ((k <ℤ l.log_id) × Rising l.log_id ss)))

  -- The lines before and after a place in the file.
  pub front : (k : ℤ) (xs ys : List Text) → Rising k (xs ++ ys) → Rising k xs
  front k [] ys h = tt
  front k (x ∷ xs) ys (l, (e, (entry, (up, h)))) = (l, (e, (entry, (up, front l.log_id xs ys h))))

  pub back : (k : ℤ) (xs ys : List Text) → Rising k (xs ++ ys) → (j : ℤ) × Rising j ys
  back k [] ys h = (k, h)
  back k (x ∷ xs) ys (l, (e, (entry, (up, h)))) = back l.log_id xs ys h

  pub add_log-latest_id :
      (saved : ℤ) (l : OmeLog) (b : Batch L) → (add_log L saved l b).latest_log_id ≡ l.log_id
  unfolding add_log
  add_log-latest_id saved l b = elim (Bool-cases (leb_ℤ l.log_id saved)) [
    | inl h ↦ rw h refl
    | inr h ↦ rw h refl
  ]

  matched-rows :
      (l : OmeLog) (m : MatchLog) (ms : List MatchLog) (os : List OrderLog) (b : Batch L)
      → l.order_logs ≡ os
      → has_none (after_match L l (add_match L l.log_id (m ∷ ms) b)) ≡ false
  unfolding add_match add_order
  matched-rows l m ms [] b h =
      rw h (and_false _ _ _ (inl (is_empty-snoc b.trades (trade_row L l.log_id m))))
  matched-rows l m ms (o ∷ os) b h =
      rw h (and_false _ _ _ (inl (is_empty-snoc b.trades (trade_row L l.log_id m))))

  ordered-rows :
      (l : OmeLog) (ms : List MatchLog) (o : OrderLog) (os : List OrderLog) (b : Batch L)
      → l.order_logs ≡ o ∷ os
      → has_none (after_match L l (add_match L l.log_id ms b)) ≡ false
  unfolding add_match add_order
  ordered-rows l [] o os b h =
      rw h (and_false _ _ _ (inr (is_empty-snoc b.orders (order_row L l.log_id (pos 0) o))))
  ordered-rows l (m ∷ ms) o os b h =
      rw h (and_false _ _ _ (inr (is_empty-snoc b.orders (order_row L l.log_id (pos 3) o))))

  add_log-rows :
      (saved : ℤ) (l : OmeLog) (b : Batch L)
      → saved <ℤ l.log_id
      → HasEntry l
      → has_none (add_log L saved l b) ≡ false
  unfolding add_log
  add_log-rows saved l b h (inl (m, (ms, e))) =
      ap has_none (if_false _ _ (lt→leb_ℤ saved l.log_id h))
      ∙ ap (λ x. has_none (after_match L l (add_match L l.log_id x b))) e
      ∙ matched-rows l m ms l.order_logs b refl
  add_log-rows saved l b h (inr (o, (os, e))) =
      ap has_none (if_false _ _ (lt→leb_ℤ saved l.log_id h)) ∙ ordered-rows l l.match_logs o os b e

  -- The lines have been read into `b`: all of them are saved, or there are rows and the latest ID
  -- is not below any of theirs.
  abbrev pub Into : ℤ → List Text → Batch L → Type 0
  Into saved ss b =
      (has_none b ≡ false) × ((saved ≤ℤ b.latest_log_id) × All (IsSaved L b.latest_log_id) ss)

  -- Lines after one that is not saved.
  collect-later :
      (saved : ℤ) (ss : List Text) (b : Batch L)
      → has_none b ≡ false
      → saved <ℤ b.latest_log_id
      → Rising b.latest_log_id ss
      → (b' : Batch L) × ((collect L saved ss b ≡ ok b')
          × ((b.latest_log_id ≤ℤ b'.latest_log_id) × Into saved ss b'))
  unfolding collect
  collect-later saved [] b n lt h = (b, (refl, (omega arith, (n, (omega arith, tt)))))
  collect-later saved (s ∷ ss) b n lt (l, (e, (entry, (up, h)))) =
      let b1 = add_log L saved l b in
      let id = add_log-latest_id saved l b in
      let over : saved <ℤ l.log_id = omega (arith, lt, up) in
      let (b', (c, (le, (n', (le', all))))) =
        collect-later saved ss b1 (add_log-rows saved l b over entry)
          (subst (λ i. saved <ℤ i) (sym id) over) (subst (λ i. Rising i ss) (sym id) h) in
      let first : l.log_id ≤ℤ b'.latest_log_id = subst (λ i. i ≤ℤ b'.latest_log_id) id le in
      (
        b',
        (
          ap (collected L saved b (collect L saved ss)) e ∙ c,
          (omega (arith, first, up), (n', (le', ((l, e, first), all)))),
        ),
      )

  abbrev pub with_id : ℤ → Batch L → Batch L
  with_id id b = record b { latest_log_id = id }

  -- Lines of which the first may be saved.
  pub collect-Rising :
      (saved k j : ℤ) (ss : List Text) (b : Batch L)
      → Rising k ss
      → (b' : Batch L) × ((collect L saved ss (with_id j b) ≡ ok b')
          × (((b' ≡ with_id b'.latest_log_id b) × All (IsSaved L saved) ss) ⊎ Into saved ss b'))
  unfolding collect add_log
  collect-Rising saved k j [] b h = (with_id j b, (refl, inl (refl, tt)))
  collect-Rising saved k j (s ∷ ss) b (l, (e, (entry, (up, h)))) =
      elim (Bool-cases (leb_ℤ l.log_id saved)) [
        | inl old ↦
            let le = leb_ℤ→le l.log_id saved old in
            let (b', (c, r)) = collect-Rising saved l.log_id l.log_id ss b h in
            (
              b',
              (
                ap (collected L saved (with_id j b) (collect L saved ss)) e
                    ∙ ap (collect L saved ss) (if_true _ _ old)
                    ∙ c,
                elim r [
                  | inl (same, all) ↦ inl (same, ((l, e, le), all))
                  | inr (n, (le', all)) ↦ inr (n, (le', ((l, e, omega (arith, le, le')), all)))
                ],
              ),
            )
        | inr new ↦
            let over = not_saved l.log_id saved new in
            let b1 = add_log L saved l (with_id j b) in
            let id = add_log-latest_id saved l (with_id j b) in
            let (b', (c, (le, (n, (le', all))))) =
              collect-later saved ss b1 (add_log-rows saved l (with_id j b) over entry)
                (subst (λ i. saved <ℤ i) (sym id) over) (subst (λ i. Rising i ss) (sym id) h) in
            let first : l.log_id ≤ℤ b'.latest_log_id = subst (λ i. i ≤ℤ b'.latest_log_id) id le in
            (
              b',
              (
                ap (collected L saved (with_id j b) (collect L saved ss)) e ∙ c,
                inr (n, (le', ((l, e, first), all))),
              ),
            )
      ]
