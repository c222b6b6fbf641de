-- ===== src/Xlog/Zap/Columns.antt =====
-- The place of a line of the log, and the column in which it is printed (pkg/xlog/zap.go and
-- pkg/xlog/zap-logger.go).
use ccoms.Prelude.{
  ℕ, zero, suc, ◌-◌, ◌<◌, ◌≡◌, refl, sym, ap, ◌∙◌, Bool-cases, inl, inr, true, false, List, [], ◌∷◌,
  ◌++◌, append-nil, if◌then◌else◌, All, length, length-append, length-drop, drop, ltb, arith,
  if_true, if_false,
}
use ccoms.Text.{Text}
use ccoms.Xlog.Zap.{is_own, Frame, first_outside, named, file_with_line_num, spaces, file_column}

length-spaces : (n : ℕ) → length (spaces n) ≡ n
unfolding spaces
length-spaces zero = refl
length-spaces (suc n) = omega (arith, length-spaces n)

abbrev cut : Text → Text
cut g = if ltb 20 (length g) then drop (length g - 20) g else g

cut_lem : (g : Text) → cut g ≡ drop (length g - 20) g
cut_lem g = elim (Bool-cases (ltb 20 (length g))) [
  | inl h ↦ if_true _ _ h
  | inr h ↦ let fits : 0 ≡ length g - 20 = ground arith in if_false _ _ h ∙ ap (λ n. drop n g) fits
]

file_column_cases : (f : Text) → file_column f ≡ drop (length f - 20) f ++ spaces (20 - length f)
unfolding file_column spaces
file_column_cases f = elim (Bool-cases (ltb (length f) 20)) [
  | inl h ↦
      let padded = f ++ spaces (20 - length f) in
      let exact : length padded - 20 ≡ 0 =
        ground (arith, length-append f (spaces (20 - length f)), length-spaces (20 - length f)) in
      let fits : 0 ≡ length f - 20 = ground arith in
      ap cut (if_true _ _ h)
      ∙ cut_lem padded
      ∙ ap (λ n. drop n padded) exact
      ∙ ap (λ n. drop n f ++ spaces (20 - length f)) fits
  | inr h ↦
      let full : 0 ≡ 20 - length f = ground arith in
      ap cut (if_false _ _ h)
      ∙ cut_lem f
      ∙ sym (append-nil (drop (length f - 20) f))
      ∙ ap (λ n. drop (length f - 20) f ++ spaces n) full
]

length-file_column : (f : Text) → length (file_column f) ≡ 20
length-file_column f =
    ap length (file_column_cases f)
    ∙ length-append (drop (length f - 20) f) (spaces (20 - length f))
    ∙ omega (arith, length-drop (length f - 20) f, length-spaces (20 - length f))

first_outside-append :
    (n : ℕ) (own rest : List Frame) (f : Frame)
    → All (λ g. is_own g.0 ≡ true) own
    → is_own f.0 ≡ false
    → length own < n
    → first_outside n (own ++ f ∷ rest) ≡ f
unfolding first_outside
first_outside-append zero own rest f h k lt = absurd (omega arith)
first_outside-append (suc n) [] rest f h k lt = if_false _ _ k
first_outside-append (suc n) (g ∷ own) rest f h k lt =
    if_true _ _ h.0 ∙ first_outside-append n own rest f h.1 k (omega arith)

-- Where fewer than 15 frames of the loggers and libraries stand above a frame of another file, the
-- place that is printed is that file with its directory and its line, in exactly 20 bytes: the last
-- 20 of a longer text, or all of it with spaces after it.
pub file_column-file_with_line_num :
    (own rest : List Frame) (f : Frame)
    → All (λ g. is_own g.0 ≡ true) own
    → is_own f.0 ≡ false
    → length own < 15
    → (file_column (file_with_line_num (own ++ f ∷ rest))
        ≡ drop (length (named f) - 20) (named f) ++ spaces (20 - length (named f)))
      × (length (file_column (file_with_line_num (own ++ f ∷ rest))) ≡ 20)
unfolding file_with_line_num
file_column-file_with_line_num own rest f h k lt = (
  ap (λ g. file_column (named g)) (first_outside-append 15 own rest f h k lt)
      ∙ file_column_cases (named f),
  length-file_column (named (first_outside 15 (own ++ f ∷ rest))),
)
