-- ===== src/Info/Order.antt =====
-- pkg/info/info.go: `IsNewerVersion` on versions that are written with dots.
use ccoms.Prelude.{
  ℕ, ℤ, ◌<ℤ◌, ◌==ℤ◌, ltb_ℤ, ltb_ℤ→lt, lt→ltb_ℤ, ==ℤ_iff, Bool-cases, if_true, if_false, ◌==◌, ◌≡◌,
  ◌≢◌, ◌⊎◌, ◌↔◌, inl, inr, refl, sym, ap₂, ◌∙◌, Bool, true, false, Option, some, [], ◌∷◌, ◌++◌, All,
  arith, if◌then◌else◌,
}
use ccoms.Errors.{ok}
use ccoms.Text.{Text, split}
use ccoms.Info.{Triple, three_parts, by_numbers, numbers, compared, is_newer_version}

abbrev Numbers : Type 0
Numbers = ℤ × ℤ × ℤ × ℤ

-- The first of the numbers that differ decides, from the left.
abbrev pub Newer : Numbers → Numbers → Type 0
Newer (a0, a1, a2, da) (b0, b1, b2, db) =
    (b0 <ℤ a0) ⊎ ((a0 ≡ b0) × ((b1 <ℤ a1) ⊎ ((a1 ≡ b1) × ((b2 <ℤ a2) ⊎ ((a2 ≡ b2) × (db <ℤ da))))))

abbrev pub dotted : Triple → Text
dotted (a, b, c) = a ++ (b'.' ∷ (b ++ (b'.' ∷ c)))

abbrev pub NoDot : Text → Type 0
NoDot s = All (λ c. c ≢ b'.') s

abbrev pub IsVersion : Triple → Type 0
IsVersion (a, b, c) = NoDot a × NoDot b × NoDot c

unequal : (a b : ℤ) → b <ℤ a → (a ==ℤ b) ≡ false
unequal a b lt = ground arith

-- One number before the rest.
decides :
    (a b : ℤ) (r : Bool) (R : Type 0)
    → ((r ≡ true) ↔ R)
    → ((if a ==ℤ b then r else ltb_ℤ b a) ≡ true) ↔ ((b <ℤ a) ⊎ ((a ≡ b) × R))
decides a b r R h = (
  λ e. elim (Bool-cases (a ==ℤ b)) [
    | inl k ↦ inr ((==ℤ_iff a b).0 k, h.0 (sym (if_true _ _ k) ∙ e))
    | inr k ↦ inl (ltb_ℤ→lt b a (sym (if_false _ _ k) ∙ e))
  ],
  λ e. elim e [
    | inl lt ↦ if_false _ _ (unequal a b lt) ∙ lt→ltb_ℤ b a lt
    | inr (p, x) ↦ if_true _ _ ((==ℤ_iff a b).1 p) ∙ h.1 x
  ],
)

by_numbers-Newer : (a b : Numbers) → (by_numbers a b ≡ true) ↔ Newer a b
by_numbers-Newer (a0, a1, a2, da) (b0, b1, b2, db) =
    decides a0 b0 _ _ (decides a1 b1 _ _ (decides a2 b2 _ _ (ltb_ℤ→lt db da, lt→ltb_ℤ db da)))

not_dot : (c : ℕ) → c ≢ b'.' → (c == b'.') ≡ false
not_dot c h = ground arith

split_last : (s : Text) → NoDot s → split b'.' s ≡ s ∷ []
unfolding split
split_last [] h = refl
split_last (c ∷ s) h = rw (not_dot c h.0, split_last s h.1) refl

split_part : (s t : Text) → NoDot s → split b'.' (s ++ (b'.' ∷ t)) ≡ s ∷ split b'.' t
unfolding split
split_part [] t h = refl
split_part (c ∷ s) t h = rw (not_dot c h.0, split_part s t h.1) refl

parts-dotted : (v : Triple) → IsVersion v → three_parts (split b'.' (dotted v)) ≡ some v
unfolding three_parts
parts-dotted (a, b, c) (ha, hb, hc) =
    rw (split_part a (b ++ (b'.' ∷ c)) ha, split_part b c hb, split_last c hc) refl

module _ (parse_int : Text → Option ℤ) where
  -- Of two versions, each of three parts without a dot between two dots, `IsNewerVersion` says
  -- without an error whether the first is newer: whether, of the three numbers and then the
  -- number of the distribution, the first one that differs is the greater in the first version.
  pub is_newer_version-Newer :
      (v u : Triple) (dist_v dist_u : Text)
      → IsVersion v
      → IsVersion u
      → (r : Bool) × (is_newer_version parse_int (dotted v) dist_v (dotted u) dist_u ≡ ok r)
        × ((r ≡ true) ↔ Newer (numbers parse_int v dist_v) (numbers parse_int u dist_u))
  unfolding is_newer_version
  is_newer_version-Newer v u dist_v dist_u hv hu = (
    by_numbers (numbers parse_int v dist_v) (numbers parse_int u dist_u),
    ap₂ (λ a b. compared parse_int a dist_v b dist_u) (parts-dotted v hv) (parts-dotted u hu),
    by_numbers-Newer (numbers parse_int v dist_v) (numbers parse_int u dist_u),
  )
