-- ===== src/Filedb/LastLine.antt =====
-- `ReadLastLine` after `WriteLine`.
use native.Mathlib.Decide.{dec_lt}
use ccoms.Prelude.{
  ℕ, zero, suc, Bool-cases, inl, inr, ◌+◌, ◌≤◌, ◌≡◌, ◌≢◌, ◌-◌, ◌<◌, refl, sym, ap, ◌∙◌, true, false,
  ltb, length-append, List, [], ◌∷◌, ◌++◌, append_assoc, arith, length, drop, All, ◌==◌,
}
use ccoms.Text.{Text, is_blank, split, trim, trim_left, trim_right, last_text}
use ccoms.Extern.Json.{StartsSolid, EndsSolid, IsLine}
use ccoms.Filedb.{last_line, window}

-- Empty, or ended by a line feed.
abbrev pub EndsLine : Text → Type 0
EndsLine [] = Unit
EndsLine (c ∷ []) = c ≡ 10
EndsLine (c ∷ d ∷ s) = EndsLine (d ∷ s)

EndsLine-tail : (c : ℕ) (s : Text) → EndsLine (c ∷ s) → EndsLine s
EndsLine-tail c [] h = tt
EndsLine-tail c (d ∷ s) h = h

EndsLine-drop : (n : ℕ) (s : Text) → EndsLine s → EndsLine (drop n s)
EndsLine-drop zero s h = h
EndsLine-drop (suc n) [] h = tt
EndsLine-drop (suc n) (c ∷ s) h = EndsLine-drop n s (EndsLine-tail c s h)

EndsLine-trim_left : (s : Text) → EndsLine s → EndsLine (trim_left s)
unfolding trim_left
EndsLine-trim_left [] h = tt
EndsLine-trim_left (c ∷ s) h = elim (Bool-cases (is_blank c)) [
  | inl b ↦ rw b (EndsLine-trim_left s (EndsLine-tail c s h))
  | inr b ↦ rw b h
]

trim_left_solid : (s : Text) → StartsSolid s → trim_left s ≡ s
unfolding trim_left
trim_left_solid [] h = refl
trim_left_solid (c ∷ s) h = rw h

trim_left-append : (x s : Text) → StartsSolid s → trim_left (x ++ s) ≡ trim_left x ++ s
unfolding trim_left
trim_left-append [] s h = trim_left_solid s h
trim_left-append (c ∷ x) s h = ground (arith, trim_left-append x s h)

EndsSolid-append : (x s : Text) → EndsSolid s → EndsSolid (x ++ s)
EndsSolid-append [] s h = h
EndsSolid-append (c ∷ []) [] h = absurd h
EndsSolid-append (c ∷ []) (d ∷ s) h = h
EndsSolid-append (c ∷ d ∷ x) s h = EndsSolid-append (d ∷ x) s h

trim_right-line : (y : Text) → EndsSolid y → trim_right (y ++ 10 ∷ []) ≡ y
unfolding trim_right
trim_right-line [] h = absurd h
trim_right-line (c ∷ []) h = rw h
trim_right-line (c ∷ d ∷ y) h = rw (trim_right-line (d ∷ y) h)

-- A text with no line feed is one piece; text before a line feed makes earlier pieces.
split_one_line : (s : Text) → All (λ c. c ≢ 10) s → split 10 s ≡ s ∷ []
unfolding split
split_one_line [] h = refl
split_one_line (c ∷ s) h = ground (arith, split_one_line s h.1)

split-cons : (s : Text) → (w : Text) × (ws : List Text) × (split 10 s ≡ w ∷ ws)
unfolding split
split-cons [] = ([], [], refl)
split-cons (c ∷ s) =
    let (w, ws, e) = split-cons s in
    elim (Bool-cases (c == 10)) [ inl b ↦ ([], split 10 s, rw b) | inr b ↦ (c ∷ w, ws, rw (b, e)) ]

split_after_line :
    (c : ℕ) (x s : Text)
    → EndsLine (c ∷ x)
    → (w : Text) × (v : Text) × (ws : List Text) × (split 10 (c ∷ x ++ s) ≡ w ∷ v ∷ ws)
unfolding split
split_after_line c [] s h = let (w, ws, e) = split-cons s in ([], w, ws, ground (arith, e))
split_after_line c (d ∷ x) s h =
    let (w, v, ws, e) = split_after_line d x s h in
    elim (Bool-cases (c == 10)) [
      | inl b ↦ ([], w, v ∷ ws, rw b (ap (λ r. [] ∷ r) e))
      | inr b ↦ (c ∷ w, v, ws, rw (b, e))
    ]

last-split : (x s : Text) → EndsLine x → All (λ c. c ≢ 10) s → last_text (split 10 (x ++ s)) ≡ s
unfolding split last_text
last-split [] s h k = rw (split_one_line s k)
last-split (c ∷ []) s h k = ground (arith, split_one_line s k)
last-split (c ∷ d ∷ x) s h k =
    let (w, v, ws, e) = split_after_line d x s h in ground (arith, e, last-split (d ∷ x) s h k)

-- What the window holds of a file that ends in the line `s`: a text that is empty or ends a line,
-- then `s` and its line feed.
drop-suffix : (n : ℕ) (x s : Text) → n ≤ length x → drop n (x ++ s) ≡ drop n x ++ s
drop-suffix zero x s h = refl
drop-suffix (suc n) [] s h = elim h [ ]
drop-suffix (suc n) (c ∷ x) s h = drop-suffix n x s (omega arith)

StartsSolid-append : (s t : Text) → StartsSolid s → StartsSolid (s ++ t)
StartsSolid-append [] t h = absurd h
StartsSolid-append (c ∷ s) t h = h

drop-line :
    (n : ℕ) (x s : Text) → n ≤ length x → drop n (x ++ s ++ 10 ∷ []) ≡ drop n x ++ s ++ 10 ∷ []
drop-line n x s h =
    ap (drop n) (append_assoc x s (10 ∷ []))
    ∙ drop-suffix n x (s ++ 10 ∷ []) h
    ∙ sym (append_assoc (drop n x) s (10 ∷ []))

last_line-window :
    (x s : Text) → EndsLine x → IsLine s → last_text (split 10 (trim (x ++ s ++ 10 ∷ []))) ≡ s
unfolding trim
last_line-window x s h k =
    rw
      (
        append_assoc,
        trim_left-append x (s ++ 10 ∷ []) (StartsSolid-append s (10 ∷ []) k.starts),
        ← append_assoc,
        trim_right-line (trim_left x ++ s) (EndsSolid-append (trim_left x) s k.ends),
      )
      (last-split (trim_left x) s (EndsLine-trim_left x h) k.one_line)

window-eq-drop : (b : Text) → window b ≡ drop (length b - 1024) b
unfolding window
window-eq-drop b = elim (dec_lt (length b) 1024) [
  | yes h ↦ rw (lt→ltb _ _ h, zero_of_lt (length b) h) refl
  | no h ↦ rw (ge→ltb _ _ h) refl
]
  where
    zero_of_lt : (n : ℕ) → n < 1024 → n - 1024 ≡ 0
    zero_of_lt n p = omega arith

    lt→ltb : (a c : ℕ) → a < c → ltb a c ≡ true
    lt→ltb a c p = ground arith

    ge→ltb : (a c : ℕ) → ¬ (a < c) → ltb a c ≡ false
    ge→ltb a c p = ground arith

-- The line that was written last is read back whole, if with its line feed it has at most 1024 bytes
-- and the file before it is empty or ends a line.
pub last_line_lem :
    (x s : Text) → EndsLine x → IsLine s → length s ≤ 1023 → last_line (x ++ s ++ 10 ∷ []) ≡ s
unfolding last_line
last_line_lem x s h k fits =
    let b = x ++ s ++ 10 ∷ [] in
    let n = length b - 1024 in
    let lens : length b ≡ length x + length (s ++ 10 ∷ []) =
      rw append_assoc (length-append x (s ++ 10 ∷ [])) in
    let tail : length (s ++ 10 ∷ []) ≡ length s + 1 = length-append s (10 ∷ []) in
    rw (window-eq-drop b, drop-line n x s (omega arith))
      (last_line-window (drop n x) s (EndsLine-drop n x h) k)
