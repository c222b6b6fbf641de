-- ===== src/Filedb/Batches.antt =====
-- pkg/filedb/filedb.go: the batches of lines that `ToMySQL` hands to its handler.
use mathlib.Core.List.{flatten}
use native.Mathlib.Decide.{dec_lt}
use ccoms.Prelude.{
  ℕ, zero, suc, ◌≤◌, ◌<◌, ◌≡◌, refl, ap, Option, none, some, List, [], ◌∷◌, ◌++◌, append_assoc,
  arith, length, take, drop, All, take-append-drop, inl, inr, Option-cases,
}
use ccoms.Errors.{Error}
use ccoms.Text.{Text}
use ccoms.Filedb.{batch_size, to_mysql}

-- At each round the channel holds no more lines than are still to come.
abbrev pub IsReady : List ℕ → List Text → Type 0
IsReady [] lines = Unit
IsReady (q ∷ qs) lines = (q ≤ length lines) × IsReady qs (drop (batch_size q) lines)

abbrev pub IsBatch : List Text → Type 0
IsBatch b = (1 ≤ length b) × (length b ≤ 100)

length-take_of_le : {A : Type 0} (n : ℕ) (xs : List A) → n ≤ length xs → length (take n xs) ≡ n
length-take_of_le zero xs h = refl
length-take_of_le (suc n) [] h = elim h [ ]
length-take_of_le (suc n) (x ∷ xs) h = ap suc (length-take_of_le n xs (omega arith))

pub batch_size_bounds : (q : ℕ) → (1 ≤ batch_size q) × (batch_size q ≤ 100)
unfolding batch_size
batch_size_bounds q = ground arith

take-IsBatch :
    (q : ℕ) (lines : List Text) → batch_size q ≤ length lines → IsBatch (take (batch_size q) lines)
take-IsBatch q lines h = rw (length-take_of_le (batch_size q) lines h) (batch_size_bounds q)

nil_of_short :
    (q : ℕ) (lines : List Text) → q ≤ length lines → length lines < batch_size q → [] ≡ lines
unfolding batch_size
nil_of_short q [] h short = refl
nil_of_short q (x ∷ xs) h short = absurd (ground arith)

module _ {S : Type 0} (handler : List Text → S → S × Option Error) where
  -- The batches in order, up to the first that the handler refuses.
  unfoldable pub feed : List (List Text) → S → S × Option Error
  feed [] s = (s, none)
  feed (b ∷ bs) s =
      let (s', e) = handler b s in
      let rest = feed bs s' in elim e [ none ↦ rest | some x ↦ (s', some x) ]

  -- The batches that `ToMySQL` made, with what they have to satisfy.
  pub record Batches (qs : List ℕ) (lines : List Text) (s : S) : Type 0 where
    pub batches : List (List Text)
    pub sizes : All IsBatch batches
    pub in_order : flatten batches ++ (to_mysql handler qs lines s).1 ≡ lines
    pub handled :
        feed batches s ≡ ((to_mysql handler qs lines s).0, (to_mysql handler qs lines s).2)

  -- One round of the loop, by how it ends.
  module _ (q : ℕ) (qs : List ℕ) (lines : List Text) (s : S) where
    round_closed : length lines < batch_size q → to_mysql handler (q ∷ qs) lines s ≡ (s, [], none)
    unfolding to_mysql
    round_closed short = ground arith

    round_handled :
        (length lines < batch_size q → ⊥)
        → (handler (take (batch_size q) lines) s).1 ≡ none
        → to_mysql handler (q ∷ qs) lines s
          ≡ to_mysql handler qs
              (drop (batch_size q) lines)
              (handler (take (batch_size q) lines) s).0
    unfolding to_mysql
    round_handled fits e = ground arith

    round_refused :
        (length lines < batch_size q → ⊥)
        → {x : Error} → (handler (take (batch_size q) lines) s).1 ≡ some x
        → to_mysql handler (q ∷ qs) lines s
          ≡ ((handler (take (batch_size q) lines) s).0, drop (batch_size q) lines, some x)
    unfolding to_mysql
    round_refused fits e = ground arith

  pub to_mysql-Batches :
      (qs : List ℕ) (lines : List Text) (s : S) → IsReady qs lines → Batches qs lines s
  unfolding feed flatten
  to_mysql-Batches [] lines s h =
      unfold to_mysql in record { batches = []; sizes = tt; in_order = refl; handled = refl }
  to_mysql-Batches (q ∷ qs) lines s h = elim (dec_lt (length lines) (batch_size q)) [
    | yes short ↦ record {
      batches = [];
      sizes = tt;
      in_order = rw (round_closed q qs lines s short) (nil_of_short q lines h.0 short);
      handled = rw (round_closed q qs lines s short) refl;
    }
    | no fits ↦ elim (Option-cases (handler (take (batch_size q) lines) s).1) [
      | inl e ↦
          let s' = (handler (take (batch_size q) lines) s).0 in
          let b = to_mysql-Batches qs (drop (batch_size q) lines) s' h.1 in
          record {
            batches = take (batch_size q) lines ∷ b.batches;
            sizes = (take-IsBatch q lines (omega arith), b.sizes);
            in_order =
                rw (round_handled q qs lines s fits e, append_assoc, b.in_order)
                  (take-append-drop (batch_size q) lines);
            handled = rw (round_handled q qs lines s fits e, feed, e) b.handled;
          }
      | inr (x, e) ↦ record {
        batches = take (batch_size q) lines ∷ [];
        sizes = (take-IsBatch q lines (omega arith), tt);
        in_order =
            rw (round_refused q qs lines s fits e, append_assoc)
              (take-append-drop (batch_size q) lines);
        handled = rw (round_refused q qs lines s fits e, feed, e) refl;
      }
    ]
  ]
