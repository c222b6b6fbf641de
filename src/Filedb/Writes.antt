-- ===== src/Filedb/Writes.antt =====
-- What `WriteLine` does to the file, and `ReadLastLine` after it.
use ccoms.Prelude.{
  ℕ, Bool-cases, inl, inr, ◌∙◌, sym, ◌≤◌, ◌≡◌, ◌≢◌, refl, ap, true, none, List, [], ◌∷◌, ◌++◌,
  append-nil, append_assoc, arith, length, take,
}
use ccoms.Errors.{ok}
use ccoms.Text.{Text}
use ccoms.Extern.Json.{IsLine}
use ccoms.Filedb.{Filedb, write_line, answer, read_last_line, last_line, WriteAnswer, done, short}
use ccoms.Filedb.LastLine.{EndsLine, last_line_lem}

-- A write that returns no error has appended its text; the file stays open.
pub write_line-content :
    (s : Text) (f : Filedb)
    → (write_line s f).1 ≡ none
    → (write_line s f).0.content ≡ f.content ++ s
unfolding write_line
write_line-content s f h = ground arith

pub write_line-opened : (s : Text) (f : Filedb) → (write_line s f).0.opened ≡ f.opened
unfolding write_line
write_line-opened s f = ground arith

answer_short :
    (s : Text) (f : Filedb) (l : List WriteAnswer)
    → (answer s f l).1 ≢ none
    → (n : ℕ) × ((answer s f l).0.content ≡ f.content ++ take n s)
answer_short s f [] h = absurd (h refl)
answer_short s f (done ∷ l) h = absurd (h refl)
answer_short s f (short n ∷ l) h = (n, refl)

-- A write that fails has appended a beginning of its text, which may be empty.
write_line_failed :
    (s : Text) (f : Filedb)
    → (write_line s f).1 ≢ none
    → (n : ℕ) × ((write_line s f).0.content ≡ f.content ++ take n s)
unfolding write_line
write_line_failed s f h = elim (Bool-cases f.opened) [
  | inl o ↦ let (n, e) = answer_short s f f.answers (ground arith) in (n, ground (arith, e))
  | inr c ↦ (0, ground (arith, append-nil f.content))
]

EndsLine-append : (x : Text) → EndsLine (x ++ 10 ∷ [])
EndsLine-append [] = refl
EndsLine-append (c ∷ []) = refl
EndsLine-append (c ∷ d ∷ x) = EndsLine-append (d ∷ x)

-- The file is open, and it is empty or ends a line.
pub record IsIntact (f : Filedb) : Type 0 where
  pub is_open : f.opened ≡ true
  pub ended : EndsLine f.content

pub write_line-IsIntact :
    (s : Text) (f : Filedb)
    → IsIntact f
    → (write_line (s ++ 10 ∷ []) f).1 ≡ none
    → IsIntact (write_line (s ++ 10 ∷ []) f).0
write_line-IsIntact s f h e = record {
  is_open = rw write_line-opened h.is_open;
  ended =
      rw (write_line-content (s ++ 10 ∷ []) f e, ← append_assoc) (EndsLine-append (f.content ++ s));
}

pub read_last_line_lem :
    (f : Filedb) → f.opened ≡ true → read_last_line f ≡ ok (last_line f.content)
unfolding read_last_line
read_last_line_lem f h = ground arith

-- On an intact file, a line of at most 1023 bytes that was written is the last line read.
pub read_last_line-write_line :
    (s : Text) (f : Filedb)
    → IsIntact f
    → IsLine s
    → length s ≤ 1023
    → (write_line (s ++ 10 ∷ []) f).1 ≡ none
    → read_last_line (write_line (s ++ 10 ∷ []) f).0 ≡ ok s
read_last_line-write_line s f h k fits e =
    let g = (write_line (s ++ 10 ∷ []) f).0 in
    let text : g.content ≡ f.content ++ s ++ 10 ∷ [] =
      write_line-content (s ++ 10 ∷ []) f e ∙ sym (append_assoc f.content s (10 ∷ [])) in
    read_last_line_lem g (write_line-opened (s ++ 10 ∷ []) f ∙ h.is_open)
    ∙ ap ok (ap last_line text ∙ last_line_lem f.content s h.ended k fits)
