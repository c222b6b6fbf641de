-- ===== src/Ome/Saving/Writer/Progress.antt =====
-- That `FiledbToMySQL` (pkg/ome/filedb.go) saves all lines that it has taken.
use mathlib.Core.List.{flatten}
use ccoms.Prelude.{
  ℕ, ℤ, pos, ◌≤ℤ◌, ◌≡◌, ◌⊎◌, refl, sym, ap, subst, ◌∙◌, Option-cases, inl, inr, if_false, Option,
  none, some, List, [], ◌∷◌, ◌++◌, append-nil, All, All-append, arith,
}
use ccoms.Errors.{Error, Result, ok, no_error}
use ccoms.Text.{Text, codes, to_lower}
use ccoms.Model.{Lastkv}
use ccoms.Filedb.{to_mysql}
use ccoms.Filedb.Batches.{IsReady, feed, to_mysql-Batches}
use ccoms.Ome.Worker.{Libs, Worker}
use ccoms.Ome.Saving.{
  Batch, empty_batch, Statement, Saving, answered, statements, written_batch, parse_and_write_logs,
}
use ccoms.Ome.Saving.Again.{IsSaved}
use ccoms.Ome.Saving.Writer.{
  Saved, kept, save, ended, checked, loaded, first_error, load_saved_log_id, checkout_all, keys,
  filedb_to_mysql,
}
use ccoms.Ome.Saving.Writer.CatchUp.{Rising, front, back, Into, with_id, collect-Rising}

both_none : (a b : Option Error) → first_error a b ≡ none → b ≡ none
both_none none b h = h
both_none (some x) b h = no_error h

pub feed_next :
    {S : Type 0} (f : List Text → S → S × Option Error) (b : List Text) (bs : List (List Text))
    (s : S)
    → (f b s).1 ≡ none
    → feed f (b ∷ bs) s ≡ feed f bs (f b s).0
unfolding feed
feed_next f b bs s e = rw (feed, e) refl

feed_refused :
    {S : Type 0} (f : List Text → S → S × Option Error) (b : List Text) (bs : List (List Text))
    (s : S) (x : Error)
    → (f b s).1 ≡ some x
    → (feed f (b ∷ bs) s).1 ≡ some x
unfolding feed
feed_refused f b bs s x e = rw (feed, e) refl

module _ (L : Libs) (find : Text → Text → Result (Option Lastkv)) (create : Lastkv → Result Lastkv)
    (db : List (Statement L) → Option Error) where
  -- `SavedLogID` has not fallen, and is not below the ID of any of the lines.
  abbrev pub Covers : Worker L → List Text → Worker L → Type 0
  Covers w ss w' = (w.saved_log_id ≤ℤ w'.saved_log_id) × All (IsSaved L w'.saved_log_id) ss

  abbrev pub handle : List Text → Saved L find create → Saved L find create × Option Error
  handle = save L find create db

  -- What a batch leaves if it gives no error.
  abbrev CoversIf : Worker L → List (List (Statement L)) → List Text → Saving L → Type 0
  CoversIf w ts ss r =
      (kept L find create ts r).1 ≡ none → Covers w ss (kept L find create ts r).0.0

  answered-Covers :
      (w : Worker L) (ts : List (List (Statement L))) (ss : List Text) (id : ℤ)
      (sts : List (Statement L)) (o : Option Error)
      → w.saved_log_id ≤ℤ id
      → All (IsSaved L id) ss
      → CoversIf w ts ss (answered L w id sts o)
  answered-Covers w ts ss id sts none le all h = (le, all)
  answered-Covers w ts ss id sts (some e) le all h = no_error h

  written-Covers :
      (w : Worker L) (ts : List (List (Statement L))) (ss : List Text) (b : Batch L)
      → ((b ≡ with_id L b.latest_log_id (empty_batch L)) × All (IsSaved L w.saved_log_id) ss)
        ⊎ Into L w.saved_log_id ss b
      → CoversIf w ts ss (written_batch L db w (ok b))
  written-Covers w ts ss b (inl (same, all)) =
      subst (λ x. CoversIf w ts ss (written_batch L db w (ok x))) (sym same)
        (λ h. (omega arith, all))
  written-Covers w ts ss b (inr (n, (le, all))) =
      subst (CoversIf w ts ss) (sym (if_false _ _ n))
        (answered-Covers w ts ss b.latest_log_id (statements L w b) (db (statements L w b)) le all)

  pub save-Covers :
      (k : ℤ) (ss : List Text) (s : Saved L find create)
      → Rising L k ss
      → (handle ss s).1 ≡ none
      → Covers s.0 ss (handle ss s).0.0
  unfolding save parse_and_write_logs
  save-Covers k ss (w, ts) h =
      let (b, (c, r)) = collect-Rising L w.saved_log_id k (pos 0) ss (empty_batch L) h in
      subst (λ x. CoversIf w ts ss (written_batch L db w x)) (sym c) (written-Covers w ts ss b r)

  pub weaken : (n m : ℤ) (ss : List Text) → n ≤ℤ m → All (IsSaved L n) ss → All (IsSaved L m) ss
  weaken n m [] le h = tt
  weaken n m (s ∷ ss) le ((l, e, i), h) = ((l, e, omega (arith, le, i)), weaken n m ss le h)

  feed-Covers :
      (k : ℤ) (bs : List (List Text)) (s : Saved L find create)
      → Rising L k (flatten bs)
      → (feed handle bs s).1 ≡ none
      → Covers s.0 (flatten bs) (feed handle bs s).0.0
  unfolding flatten feed
  feed-Covers k [] s h e = (omega arith, tt)
  feed-Covers k (b ∷ bs) s h e = elim (Option-cases (handle b s).1) [
    | inr (x, r) ↦ no_error (sym (feed_refused handle b bs s x r) ∙ e)
    | inl r ↦
        let next = feed_next handle b bs s r in
        let (j, h') = back L k b (flatten bs) h in
        let (le, all) = save-Covers k b s (front L k b (flatten bs) h) r in
        let (le', all') =
          feed-Covers j bs (handle b s).0 h'
            (ap (λ (x : Saved L find create × Option Error). x.1) (sym next) ∙ e) in
        subst (λ (x : Saved L find create × Option Error). Covers s.0 (b ++ flatten bs) x.0.0)
          (sym next)
          (
            omega (arith, le, le'),
            All-append (IsSaved L (feed handle bs (handle b s).0).0.0.saved_log_id) b (flatten bs)
                (weaken (handle b s).0.0.saved_log_id
                  (feed handle bs (handle b s).0).0.0.saved_log_id b le' all)
                all',
          )
  ]

  -- What the loop leaves, from its batches.
  to_mysql-Covers :
      (k : ℤ) (qs : List ℕ) (lines : List Text) (s : Saved L find create)
      → IsReady qs lines
      → (to_mysql handle qs lines s).1 ≡ []
      → Rising L k lines
      → (to_mysql handle qs lines s).2 ≡ none
      → Covers s.0 lines (to_mysql handle qs lines s).0.0
  to_mysql-Covers k qs lines s ready taken h e =
      let b = to_mysql-Batches handle qs lines s ready in
      let whole : flatten b.batches ≡ lines =
        sym (append-nil (flatten b.batches))
        ∙ ap (λ r. flatten b.batches ++ r) (sym taken)
        ∙ b.in_order in
      let (le, all) =
        feed-Covers k b.batches s (subst (Rising L k) (sym whole) h)
          (ap (λ (x : Saved L find create × Option Error). x.1) b.handled ∙ e) in
      subst (λ (x : Saved L find create × Option Error). Covers s.0 lines x.0.0) b.handled
        (le, subst (All (IsSaved L (feed handle b.batches s).0.0.saved_log_id)) whole all)

  -- Where the queries at its start succeed, `FiledbToMySQL` that has taken all lines of a log, whose
  -- IDs rise and each of which has an entry, and has returned no error leaves `SavedLogID` not
  -- below the ID of any of the lines, nor below what it has loaded.
  pub filedb_to_mysql-Covers :
      (k n : ℤ) (tailed : Option Error) (qs : List ℕ) (lines : List Text) (w : Worker L)
      → load_saved_log_id (find (to_lower w.name) (codes "saved_log_id")) ≡ (n, none)
      → checkout_all L find create keys (record w { saved_log_id = n }) ≡ none
      → IsReady qs lines
      → (to_mysql handle qs lines (record w { saved_log_id = n }, [])).1 ≡ []
      → Rising L k lines
      → (filedb_to_mysql L find create tailed db qs lines w).1 ≡ none
      → Covers
          (record w { saved_log_id = n })
          lines
          (filedb_to_mysql L find create tailed db qs lines w).0.0
  unfolding filedb_to_mysql
  filedb_to_mysql-Covers k n tailed qs lines w found checked_out ready taken h e =
      let w1 = record w { saved_log_id = n } in
      let r = to_mysql handle qs lines (w1, []) in
      let same : filedb_to_mysql L find create tailed db qs lines w ≡ ended L find create tailed r =
        ap (loaded L find create tailed db qs lines w) found
        ∙ ap (checked L find create tailed db qs lines w1) checked_out in
      subst (λ (x : Saved L find create × Option Error). Covers w1 lines x.0.0) (sym same)
        (to_mysql-Covers k qs lines (w1, []) ready taken h
          (both_none tailed r.2
            (ap (λ (x : Saved L find create × Option Error). x.1) (sym same) ∙ e)))
