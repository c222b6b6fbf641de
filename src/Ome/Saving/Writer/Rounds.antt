-- ===== src/Ome/Saving/Writer/Rounds.antt =====
-- pkg/ome/ome.go, `StartWriter`: its rounds, each of which starts at the head of the log file.
use mathlib.Core.List.{flatten}
use ccoms.Prelude.{
  ℤ, pos, ◌≡◌, ◌⊎◌, refl, ap, sym, subst, ◌∙◌, inl, inr, Option-cases, if_false, Option, some, List,
  [], ◌∷◌, ◌++◌, append-nil, append_assoc, All, All-append,
}
use ccoms.Errors.{Error, Result, ok}
use ccoms.Text.{Text}
use ccoms.Model.{Lastkv}
use ccoms.Filedb.Batches.{feed}
use ccoms.Ome.Worker.{Libs, Worker}
use ccoms.Ome.Saving.{
  Batch, empty_batch, collect, Statement, Saving, statements, written_batch, parse_and_write_logs,
}
use ccoms.Ome.Saving.Again.{IsSaved}
use ccoms.Ome.Saving.Writer.{Saved, kept, save}
use ccoms.Ome.Saving.Writer.CatchUp.{Rising, front, back, Into, with_id, collect-Rising}
use ccoms.Ome.Saving.Writer.Kinds.{logs_of}
use ccoms.Ome.Saving.Writer.Once.{Written, nothing_Written, Written-then, batch_Written, logs_of-Up}
use ccoms.Ome.Saving.Writer.Progress.{handle, feed_next, save-Covers, weaken}

feed_stops :
    {S : Type 0} (f : List Text → S → S × Option Error) (b : List Text) (bs : List (List Text))
    (s : S) (x : Error)
    → (f b s).1 ≡ some x
    → feed f (b ∷ bs) s ≡ ((f b s).0, some x)
unfolding feed
feed_stops f b bs s x e = rw (feed, e) refl

module _ (L : Libs) where
  -- What is taken in addition to `ts`.
  pub record Outcome (file : List Text) (w : Worker L) (ts : List (List (Statement L)))
      (s : Worker L × List (List (Statement L))) : Type 1 where
    pub more : List (List (Statement L))
    pub taken : s.1 ≡ ts ++ more
    pub written : Written L (logs_of L file) w more s.0

  pub nothing :
      (file : List Text) (w : Worker L) (ts : List (List (Statement L))) → Outcome file w ts (w, ts)
  nothing file w ts = record {
    more = [];
    taken = sym (append-nil ts);
    written = nothing_Written L (logs_of L file) w;
  }

  module _ (find : Text → Text → Result (Option Lastkv)) (create : Lastkv → Result Lastkv)
      (db : List (Statement L) → Option Error) (k : ℤ) (file : List Text)
      (h : Rising L k file) where
    batch_Outcome :
        (w : Worker L) (ts : List (List (Statement L))) (done ss rest : List Text) (b : Batch L)
        → done ++ (ss ++ rest) ≡ file
        → All (IsSaved L w.saved_log_id) done
        → collect L w.saved_log_id ss (empty_batch L) ≡ ok b
        → ((b ≡ with_id L b.latest_log_id (empty_batch L)) × All (IsSaved L w.saved_log_id) ss)
          ⊎ Into L w.saved_log_id ss b
        → Outcome file w ts (kept L find create ts (written_batch L db w (ok b))).0
    batch_Outcome w ts done ss rest b p old e (inl (same, all)) =
        subst (λ c. Outcome file w ts (kept L find create ts (written_batch L db w (ok c))).0)
          (sym same) (nothing file w ts)
    batch_Outcome w ts done ss rest b p old e (inr (n, (le, all))) =
        subst (λ (x : Saving L). Outcome file w ts (kept L find create ts x).0)
          (sym (if_false _ _ n))
          (elim (Option-cases (db (statements L w b))) [
            | inr (x, r) ↦ rw r (nothing file w ts)
            | inl r ↦ rw r (record {
              more = statements L w b ∷ [];
              taken = refl;
              written =
                  subst
                    (λ f.
                      Written L (logs_of L f) w (statements L w b ∷ [])
                        (record w { saved_log_id = b.latest_log_id }))
                    p
                    (batch_Written L w k done ss rest b (subst (Rising L k) (sym p) h) old e n le);
            })
          ])

    save_Outcome :
        (done ss rest : List Text) (s : Saved L find create)
        → done ++ (ss ++ rest) ≡ file
        → All (IsSaved L s.0.saved_log_id) done
        → Outcome file s.0 s.1 (handle L find create db ss s).0
    unfolding save parse_and_write_logs
    save_Outcome done ss rest (w, ts) p old =
        let (j, later) = back L k done (ss ++ rest) (subst (Rising L k) (sym p) h) in
        let (b, (c, r)) =
          collect-Rising L w.saved_log_id j (pos 0) ss (empty_batch L) (front L j ss rest later) in
        subst (λ x. Outcome file w ts (kept L find create ts (written_batch L db w x)).0) (sym c)
          (batch_Outcome w ts done ss rest b p old c r)

    joined :
        {w : Worker L} {ts : List (List (Statement L))} {s1 s2 : Saved L find create}
        → Outcome file w ts s1
        → Outcome file s1.0 s1.1 s2
        → Outcome file w ts s2
    joined {w} {ts} {s1} {s2} a b = record {
      more = a.more ++ b.more;
      taken = b.taken ∙ ap (λ t. t ++ b.more) a.taken ∙ append_assoc ts a.more b.more;
      written =
          Written-then L k (logs_of L file) w s1.0 s2.0 a.more b.more (logs_of-Up L k file h)
            a.written b.written;
    }

    -- The batches of one round, after lines that are saved.
    pub feed_Outcome :
        (done rest : List Text) (bs : List (List Text)) (s : Saved L find create)
        → done ++ (flatten bs ++ rest) ≡ file
        → All (IsSaved L s.0.saved_log_id) done
        → Outcome file s.0 s.1 (feed (handle L find create db) bs s).0
    unfolding feed flatten
    feed_Outcome done rest [] (w, ts) p old = nothing file w ts
    feed_Outcome done rest (b ∷ bs) s p old =
        let later = flatten bs ++ rest in
        let p1 : done ++ (b ++ later) ≡ file =
          ap (λ r. done ++ r) (sym (append_assoc b (flatten bs) rest)) ∙ p in
        let first = save_Outcome done b later s p1 old in
        let s1 = (handle L find create db b s).0 in
        elim (Option-cases (handle L find create db b s).1) [
          | inr (x, r) ↦
              subst (λ (q : Saved L find create × Option Error). Outcome file s.0 s.1 q.0)
                (sym (feed_stops (handle L find create db) b bs s x r)) first
          | inl r ↦
              let (j, h') = back L k done (b ++ later) (subst (Rising L k) (sym p1) h) in
              let (le, all) = save-Covers L find create db j b s (front L j b later h') r in
              let then = feed_Outcome (done ++ b) rest bs s1 (append_assoc done b later ∙ p1) (
                All-append (IsSaved L s1.0.saved_log_id) done b
                  (weaken L find create db s.0.saved_log_id s1.0.saved_log_id done le old) all) in
              subst (λ (q : Saved L find create × Option Error). Outcome file s.0 s.1 q.0)
                (sym (feed_next (handle L find create db) b bs s r)) (joined first then)
        ]
