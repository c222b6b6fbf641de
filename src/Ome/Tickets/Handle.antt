-- ===== src/Ome/Tickets/Handle.antt =====
-- `TicketToMatchEngine` on every branch.
use ccoms.Prelude.{
  ℤ, pos, ◌≤ℤ◌, ◌<ℤ◌, ◌+ℤ◌, int64_max, inc64_lem, +ℤ_parts, to_int8, ◌==ℤ◌, ==ℤ_iff, ◌≡◌, refl, ◌∙◌,
  inr, inl, ◌⊎◌, Option, none, some, arith, Bool-cases, if◌then◌else◌, parts_of_eq,
}
use ccoms.Errors.{Error, ticket_not_continuous, invalid_order_side}
use ccoms.Ome.Worker.{Ticket, Libs, Worker, side_ask, side_bid}
use ccoms.Ome.Tickets.{
  TicketCheck, check_id, check_ticket, duplicate, gap, fresh, bad_side, ticket_to_match_engine,
}
use ccoms.Ome.Tickets.Engine.{IsEngine}
use ccoms.Ome.Tickets.Settled.{Advanced, counted, parsed-Settled}

-- The three places of an ID beside the latest one.
check_duplicate : (id k : ℤ) → id ≤ℤ k → check_id id k ≡ duplicate
unfolding check_id
check_duplicate id k h = ground arith

check_next : (id k : ℤ) → k <ℤ int64_max → id ≡ k +ℤ pos 1 → check_id id k ≡ fresh
unfolding check_id
check_next id k room h = rw (inc64_lem k room) (ground (arith, +ℤ_parts k (pos 1), parts_of_eq h))

check_gap : (id k : ℤ) → k <ℤ int64_max → k +ℤ pos 1 <ℤ id → check_id id k ≡ gap
unfolding check_id
check_gap id k room h = rw (inc64_lem k room) (ground (arith, +ℤ_parts k (pos 1)))

module _ (L : Libs) where
  pub record ByCheck (t : Ticket) (w : Worker L) (r : Option (Worker L × Option Error))
      : Type 0 where
    pub worker : Worker L
    pub error : Option Error
    pub returns : r ≡ some (worker, error)
    pub on_duplicate :
        check_ticket L (to_int8 t.side) t.id w ≡ duplicate → (worker ≡ w) × (error ≡ none)
    pub on_gap :
        check_ticket L (to_int8 t.side) t.id w ≡ gap
        → (worker ≡ w) × (error ≡ some ticket_not_continuous)
    pub on_bad_side :
        check_ticket L (to_int8 t.side) t.id w ≡ bad_side
        → (worker ≡ w) × (error ≡ some invalid_order_side)
    pub on_fresh :
        check_ticket L (to_int8 t.side) t.id w ≡ fresh
        → error ≡ none
        → Advanced L (to_int8 t.side) t.id (counted L w) worker

  pub handle_by :
      (t : Ticket) (w : Worker L) (c : TicketCheck)
      → check_ticket L (to_int8 t.side) t.id w ≡ c
      → IsEngine L w
      → w.order_id <ℤ int64_max
      → ByCheck t w (ticket_to_match_engine L t w)
  unfolding ticket_to_match_engine
  handle_by t w duplicate e h room = record {
    worker = w;
    error = none;
    returns = rw (e, ticket_to_match_engine) refl;
    on_duplicate = λ _. (refl, refl);
    on_gap = λ d. cc;
    on_bad_side = λ d. cc;
    on_fresh = λ d _. cc;
  }
  handle_by t w gap e h room = record {
    worker = w;
    error = some ticket_not_continuous;
    returns = rw (e, ticket_to_match_engine) refl;
    on_duplicate = λ d. cc;
    on_gap = λ _. (refl, refl);
    on_bad_side = λ d. cc;
    on_fresh = λ d _. cc;
  }
  handle_by t w bad_side e h room = record {
    worker = w;
    error = some invalid_order_side;
    returns = rw (e, ticket_to_match_engine) refl;
    on_duplicate = λ d. cc;
    on_gap = λ d. cc;
    on_bad_side = λ _. (refl, refl);
    on_fresh = λ d _. cc;
  }
  handle_by t w fresh e h room =
      let s =
        parsed-Settled L t (L.decimal.new_from_string t.price)
          (L.decimal.new_from_string t.quantity) w h room in
      record {
        worker = s.worker;
        error = s.error;
        returns = rw (e, ticket_to_match_engine) s.returns;
        on_duplicate = λ d. cc;
        on_gap = λ d. cc;
        on_bad_side = λ d. cc;
        on_fresh = λ _ q. s.advanced q;
      }

  -- The latest ticket of the bank of a side.
  abbrev pub latest : ℤ → Worker L → ℤ
  latest side w = if side ==ℤ side_ask then w.latest_ask_ticket_id else w.latest_bid_ticket_id

  abbrev pub IsSide : ℤ → Type 0
  IsSide side = (side ≡ side_ask) ⊎ (side ≡ side_bid)

  module _ (side id : ℤ) (w : Worker L) where
    check_ticket_lem : IsSide side → check_ticket L side id w ≡ check_id id (latest side w)
    unfolding check_ticket
    check_ticket_lem s = ground arith

    check_bad_side : ¬ IsSide side → check_ticket L side id w ≡ bad_side
    unfolding check_ticket
    check_bad_side s = elim (Bool-cases (side ==ℤ side_ask)) [
      | inl k ↦ absurd (s (inl ((==ℤ_iff side side_ask).0 k)))
      | inr k ↦ elim (Bool-cases (side ==ℤ side_bid)) [
        | inl j ↦ absurd (s (inr ((==ℤ_iff side side_bid).0 j)))
        | inr j ↦ rw (k, j) refl
      ]
    ]

  -- What a ticket does: one that came before changes nothing, a gap and an unknown side are errors
  -- that change nothing, and the next ticket of a side advances the engine unless there is an error.
  pub record Handled (t : Ticket) (w : Worker L) (r : Option (Worker L × Option Error))
      : Type 0 where
    pub worker : Worker L
    pub error : Option Error
    pub returns : r ≡ some (worker, error)
    pub on_duplicate :
        IsSide (to_int8 t.side) → t.id ≤ℤ latest (to_int8 t.side) w → (worker ≡ w) × (error ≡ none)
    pub on_gap :
        IsSide (to_int8 t.side)
        → latest (to_int8 t.side) w <ℤ int64_max
        → latest (to_int8 t.side) w +ℤ pos 1 <ℤ t.id
        → (worker ≡ w) × (error ≡ some ticket_not_continuous)
    pub on_bad_side : ¬ IsSide (to_int8 t.side) → (worker ≡ w) × (error ≡ some invalid_order_side)
    pub on_next :
        IsSide (to_int8 t.side)
        → latest (to_int8 t.side) w <ℤ int64_max
        → t.id ≡ latest (to_int8 t.side) w +ℤ pos 1
        → error ≡ none
        → Advanced L (to_int8 t.side) t.id (counted L w) worker

  -- `TicketToMatchEngine` returns from every state that satisfies the invariant and has an order ID
  -- left, and does what `Handled` says of the four kinds of ticket.
  pub ticket_to_match_engine_lem :
      (t : Ticket) (w : Worker L)
      → IsEngine L w
      → w.order_id <ℤ int64_max
      → Handled t w (ticket_to_match_engine L t w)
  ticket_to_match_engine_lem t w h room =
      let side = to_int8 t.side in
      let r = handle_by t w (check_ticket L side t.id w) refl h room in
      record {
        worker = r.worker;
        error = r.error;
        returns = r.returns;
        on_duplicate = λ s d.
            r.on_duplicate
              (check_ticket_lem side t.id w s ∙ check_duplicate t.id (latest side w) d);
        on_gap =
            λ s b d. r.on_gap (check_ticket_lem side t.id w s ∙ check_gap t.id (latest side w) b d);
        on_bad_side = λ s. r.on_bad_side (check_bad_side side t.id w s);
        on_next = λ s b d.
            r.on_fresh (check_ticket_lem side t.id w s ∙ check_next t.id (latest side w) b d);
      }
