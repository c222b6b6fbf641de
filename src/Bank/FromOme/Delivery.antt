-- ===== src/Bank/FromOme/Delivery.antt =====
-- The changes that an engine pushes (pkg/ome/grpc.go), at the service of the bank (pkg/bank/grpc.go).
use ccoms.Prelude.{
  ℤ, pos, negsuc, ◌≤ℤ◌, ◌==ℤ◌, leb_ℤ, ==ℤ_iff, ◌≡◌, refl, sym, ap, subst, ◌∙◌, false, Bool-cases,
  inl, inr, Option, none, some, List, [], ◌∷◌, map, All, All-append, arith, if_true, if_false,
}
use ccoms.Errors.{Error}
use ccoms.Text.{Text, text_eq}
use ccoms.Dict.{Dict, str_eq, get_or}
use ccoms.Bank.Structs.{BalanceChange}
use ccoms.Bank.Messages.{BankMsg}
use ccoms.Bank.FromOme.{Arrival, Serving, from_ome, forward, answered, after_hello, balance_changes}
use ccoms.Ome.Structs.{MatchLog, OmeLog}
use ccoms.Ome.Worker.{Libs, Worker}
use ccoms.Ome.ToBank.{
  quote_change, base_change, changes_for, changes_of, pushed, push, hello, then_lines, push_lines,
}

abbrev HasFirst : ℤ → BalanceChange → Type 0
HasFirst first_id bc = bc.reason_id_first ≡ first_id

abbrev pub changes_in : List Arrival → List BalanceChange
changes_in [] = []
changes_in (a ∷ l) = a.change ∷ changes_in l

forwarded :
    (bc : BalanceChange) (first_id : ℤ) (rest : ℤ → Serving) (ms : List BankMsg) (e : Option Error)
    → HasFirst first_id bc
    → rest first_id ≡ (ms, [], e)
    → forward bc first_id rest ≡ (from_ome bc ∷ ms, [], e)
forwarded bc first_id rest ms e h r = rw r (if_true _ _ ((==ℤ_iff bc.reason_id_first first_id).1 h))

forwards_every :
    (stop : Option Error) (first_id : ℤ) (l : List Arrival)
    → pos 0 ≤ℤ first_id
    → All (HasFirst first_id) (changes_in l)
    → balance_changes stop first_id l ≡ (map from_ome (changes_in l), [], stop)
unfolding balance_changes
forwards_every stop first_id [] p h = refl
forwards_every stop first_id (a ∷ l) p h =
    let no : (a.change.reason_id_first ==ℤ negsuc 0) ≡ false = ground (arith, h.0) in
    if_false _ _ no
    ∙ forwarded a.change first_id (λ id. balance_changes stop id l) (map from_ome (changes_in l))
        stop h.0 (forwards_every stop first_id l p h.1)

module _ (L : Libs) where
  changes_for-first :
      (coin : Text) (w : Worker L) (first_id log_id : ℤ) (ml : MatchLog)
      → All (HasFirst first_id) (changes_for L coin w first_id log_id ml)
  unfolding changes_for quote_change base_change
  changes_for-first coin w first_id log_id ml = elim (Bool-cases (text_eq coin w.quote_asset)) [
    | inl h ↦ elim (Bool-cases (text_eq coin w.base_asset)) [
      | inl j ↦ rw (h, j) (refl, (refl, tt))
      | inr j ↦ rw (h, j) (refl, tt)
    ]
    | inr h ↦ elim (Bool-cases (text_eq coin w.base_asset)) [
      | inl j ↦ rw (h, j) (refl, tt)
      | inr j ↦ rw (h, j) tt
    ]
  ]

  changes_of-first :
      (coin : Text) (w : Worker L) (first_id log_id : ℤ) (mls : List MatchLog)
      → All (HasFirst first_id) (changes_of L coin w first_id log_id mls)
  changes_of-first coin w first_id log_id [] = tt
  changes_of-first coin w first_id log_id (ml ∷ mls) = elim (Bool-cases (leb_ℤ log_id first_id)) [
    | inl h ↦ rw h tt
    | inr h ↦ rw h (changes_for-first coin w first_id log_id ml)
  ]

  -- One line, given the changes of the lines after it.
  line-first :
      (coin : Text) (w : Worker L) (first_id : ℤ) (o : Option OmeLog) (more : List BalanceChange)
      (e : Option Error)
      → All (HasFirst first_id) more
      → All (HasFirst first_id) (then_lines L (pushed L coin w first_id o) (more, e)).0
  line-first coin w first_id none more e h = tt
  line-first coin w first_id (some l) more e h =
      All-append (HasFirst first_id) (changes_of L coin w first_id l.log_id l.match_logs) more
        (changes_of-first coin w first_id l.log_id l.match_logs) h

  push_lines-first :
      (coin : Text) (w : Worker L) (first_id : ℤ) (ss : List Text)
      → All (HasFirst first_id) (push_lines L coin w first_id ss).0
  unfolding push_lines push
  push_lines-first coin w first_id [] = tt
  push_lines-first coin w first_id (s ∷ ss) =
      let rest = push_lines L coin w first_id ss in
      line-first coin w first_id (L.json.unmarshal s) rest.0 rest.1
        (push_lines-first coin w first_id ss)

  abbrev pub greeting : Worker L → Dict Text ℤ → Arrival
  greeting w d = record { change = hello L w; reason_ids = d; send_error = none }

  -- What an engine pushes of its log lines, after the greeting and from the reason ID that the
  -- bank answers, which is not negative, is given to the main task of the bank, all of it and in its
  -- order.
  pub balance_changes-push_lines :
      (stop : Option Error) (coin : Text) (w : Worker L) (ss : List Text) (d : Dict Text ℤ)
      (l : List Arrival) (first_id : ℤ)
      → get_or (hello L w).reason_table (pos 0) d ≡ first_id
      → pos 0 ≤ℤ first_id
      → changes_in l ≡ (push_lines L coin w first_id ss).0
      → balance_changes stop (pos 0) (greeting w d ∷ l)
        ≡ (map from_ome (push_lines L coin w first_id ss).0, first_id ∷ [], stop)
  unfolding balance_changes hello
  balance_changes-push_lines stop coin w ss d l first_id answer p same =
      let no : (negsuc 0 ==ℤ first_id) ≡ false = ground arith in
      let all =
        subst (λ bcs. All (HasFirst first_id) bcs) (sym same)
          (push_lines-first coin w first_id ss) in
      ap (λ id. after_hello (hello L w) id none (λ n. balance_changes stop n l)) answer
      ∙ ap (answered first_id) (
          if_false _ _ no
          ∙ forwards_every stop first_id l p all
          ∙ ap (λ bcs. (map from_ome bcs, [], stop)) same)
