-- ===== src/Ome/Start/CaughtUp.antt =====
-- `WaitForFiledb` (pkg/ome/ome.go) beside the writer, `FiledbToMySQL` (pkg/ome/filedb.go).
use ccoms.Prelude.{
  ℕ, ℤ, ◌≤ℤ◌, ◌≤◌, ◌≡◌, sym, ap, subst, ◌∙◌, inl, inr, true, Option, none, some, List, [], ◌∷◌,
  ◌++◌, All, length,
}
use ccoms.Errors.{Error, Result, ok}
use ccoms.Text.{Text, codes, to_lower}
use ccoms.Model.{Lastkv}
use ccoms.Filedb.{to_mysql, last_line}
use ccoms.Filedb.LastLine.{EndsLine, last_line_lem}
use ccoms.Filedb.Writes.{read_last_line_lem}
use ccoms.Filedb.Batches.{IsReady}
use ccoms.Ome.Structs.{OmeLog}
use ccoms.Ome.Worker.{Libs, Worker}
use ccoms.Ome.Saving.{Statement}
use ccoms.Ome.Saving.Again.{IsSaved}
use ccoms.Ome.Saving.Writer.{load_saved_log_id, checkout_all, keys, filedb_to_mysql}
use ccoms.Ome.Saving.Writer.CatchUp.{Rising}
use ccoms.Ome.Saving.Writer.Progress.{handle, filedb_to_mysql-Covers}
use ccoms.Ome.Start.{wait_for_filedb}
use ccoms.Ome.Start.Running.{Reaches, LastLog, returned}

Reaches-append : (id v : ℤ) (seen after : List ℤ) → id ≤ℤ v → Reaches id (seen ++ v ∷ after)
Reaches-append id v [] after h = inl h
Reaches-append id v (u ∷ seen) after h = inr (Reaches-append id v seen after h)

All-last {ℓ κ} : {A : Type ℓ} (P : A → Type κ) (xs : List A) (x : A) → All P (xs ++ x ∷ []) → P x
All-last P [] x h = h.0
All-last P (y ∷ xs) x h = All-last P xs x h.1

some-injective {ℓ} : {A : Type ℓ} {a b : A} → some a ≡ some b → a ≡ b
some-injective e = cc

module _ (L : Libs) where
  -- The line of a log at the end of an open file is what is read back.
  written-LastLog :
      (w : Worker L) (l : OmeLog) (x s : Text)
      → L.json.marshal l ≡ some s
      → length s ≤ 1023
      → w.fdb.opened ≡ true
      → EndsLine x
      → w.fdb.content ≡ x ++ s ++ 10 ∷ []
      → LastLog L w.fdb l
  written-LastLog w l x [] m fits opened ended content =
      absurd (L.json.marshal-IsLine l [] m).starts
  written-LastLog w l x (c ∷ t) m fits opened ended content =
      let solid = L.json.marshal-IsLine l (c ∷ t) m in
      record {
        byte = c;
        bytes = t;
        reads =
            read_last_line_lem w.fdb opened
            ∙ ap (λ b. ok (last_line b)) content
            ∙ ap ok (last_line_lem x (c ∷ t) ended solid fits);
        parses = L.json.unmarshal-marshal l (c ∷ t) m;
      }

  -- A line that is saved is one whose log has at most the saved ID.
  saved-le :
      (id : ℤ) (l : OmeLog) (s : Text) → L.json.marshal l ≡ some s → IsSaved L id s → l.log_id ≤ℤ id
  saved-le id l s m (l', e, le) =
      let same : l' ≡ l = some-injective (sym e ∙ L.json.unmarshal-marshal l s m) in
      subst (λ k. k.log_id ≤ℤ id) same le

module _ (L : Libs) (find : Text → Text → Result (Option Lastkv)) (create : Lastkv → Result Lastkv)
    (db : List (Statement L) → Option Error) where
  -- Where the writer has taken all lines of a log, of rising IDs and each with an entry, with no
  -- error, and the last of them is at the end of the open file and has at most 1023 bytes,
  -- `WaitForFiledb` returns at the latest in the round that sees the `SavedLogID` which the writer
  -- has left, with the ID of that line and a saved ID that is not below it.
  pub wait_for_filedb-filedb_to_mysql :
      (k n : ℤ) (tailed : Option Error) (qs : List ℕ) (before : List Text) (s x : Text) (l : OmeLog)
      (w : Worker L) (seen after : List ℤ)
      → load_saved_log_id (find (to_lower w.name) (codes "saved_log_id")) ≡ (n, none)
      → checkout_all L find create keys (record w { saved_log_id = n }) ≡ none
      → IsReady qs (before ++ s ∷ [])
      → (to_mysql
          (handle L find create db)
          qs
          (before ++ s ∷ [])
          (record w { saved_log_id = n }, [])).1
        ≡ []
      → Rising L k (before ++ s ∷ [])
      → (filedb_to_mysql L find create tailed db qs (before ++ s ∷ []) w).1 ≡ none
      → L.json.marshal l ≡ some s
      → length s ≤ 1023
      → w.fdb.opened ≡ true
      → EndsLine x
      → w.fdb.content ≡ x ++ s ++ 10 ∷ []
      → let left =
          (filedb_to_mysql L find create tailed db qs (before ++ s ∷ []) w).0.0.saved_log_id in
        (v : ℤ) × (l.log_id ≤ℤ v)
        × (wait_for_filedb L (seen ++ left ∷ after) w
            ≡ some (record w { log_id = l.log_id; saved_log_id = v }, none))
  wait_for_filedb-filedb_to_mysql k n tailed qs before s x l w seen after found checked_out ready
        taken rising well m fits opened ended content =
      let covers =
        filedb_to_mysql-Covers L find create db k n tailed qs (before ++ s ∷ []) w found checked_out
          ready taken rising well in
      let left =
        (filedb_to_mysql L find create tailed db qs (before ++ s ∷ []) w).0.0.saved_log_id in
      let le = saved-le L left l s m (All-last (IsSaved L left) before s covers.1) in
      returned L (seen ++ left ∷ after) w l (written-LastLog L w l x s m fits opened ended content)
        (Reaches-append l.log_id left seen after le)
