-- ===== src/Xlog/Levels.antt =====
-- The names of the levels (pkg/xlog/xlog.go), at the start of the logger and at `SetLevel`.
use ccoms.Prelude.{
  ℕ, zero, suc, ◌+◌, pos, ◌≡◌, ◌≢◌, refl, sym, ap, subst, ◌∙◌, ◌⊎◌, inl, inr, Bool-cases, Option,
  none, some, List, [], ◌∷◌, All, if_true, if_false, arith,
}
use ccoms.Text.{Text, text_eq, text_eq→eq, text_eq_iff, to_upper}
use ccoms.Xlog.{Logger, level_names, get_logger, index_from, at_level, set_level}

abbrev nth_name : List Text → ℕ → Option Text
nth_name [] i = none
nth_name (n ∷ ns) zero = some n
nth_name (n ∷ ns) (suc i) = nth_name ns i

-- The first place of a text in a list, or that it has none.
abbrev Placed : ℕ → Text → List Text → Option ℕ → Type 0
Placed i s ns r =
    ((k : ℕ) × (r ≡ some (i + k)) × (nth_name ns k ≡ some s)) ⊎ ((r ≡ none) × All (λ n. n ≢ s) ns)

later :
    (i : ℕ) (n s : Text) (ns : List Text) (r : Option ℕ)
    → n ≢ s
    → Placed (suc i) s ns r
    → Placed i s (n ∷ ns) r
later i n s ns r ne (inl (k, e, h)) = inl (suc k, e ∙ ap some (omega arith), h)
later i n s ns r ne (inr (e, h)) = inr (e, (ne, h))

index_from-Placed : (i : ℕ) (s : Text) (ns : List Text) → Placed i s ns (index_from i s ns)
unfolding index_from
index_from-Placed i s [] = inr (refl, tt)
index_from-Placed i s (n ∷ ns) = elim (Bool-cases (text_eq n s)) [
  | inl h ↦ inl (0, if_true _ _ h ∙ ap some (omega arith), ap some (text_eq→eq n s h))
  | inr h ↦
      subst (λ r. Placed i s (n ∷ ns) r) (sym (if_false _ _ h))
        (later i n s ns (index_from (suc i) s ns) (λ e. ground (arith, text_eq_iff n s))
          (index_from-Placed (suc i) s ns))
]

abbrev given : Option Text → Text
given none = []
given (some s) = s

abbrev IsLevel : ℕ → Text → Type 0
IsLevel k name = get_logger name none ≡ record { level = pos k }

-- The six names, at their places.
nth_name-IsLevel : (k : ℕ) (name : Text) → nth_name level_names k ≡ some name → IsLevel k name
unfolding get_logger to_upper text_eq
nth_name-IsLevel zero name h = subst (IsLevel 0) (ap given h) refl
nth_name-IsLevel (suc zero) name h = subst (IsLevel 1) (ap given h) refl
nth_name-IsLevel (suc (suc zero)) name h = subst (IsLevel 2) (ap given h) refl
nth_name-IsLevel (suc (suc (suc zero))) name h = subst (IsLevel 3) (ap given h) refl
nth_name-IsLevel (suc (suc (suc (suc zero)))) name h = subst (IsLevel 4) (ap given h) refl
nth_name-IsLevel (suc (suc (suc (suc (suc zero))))) name h = subst (IsLevel 5) (ap given h) refl
nth_name-IsLevel (suc (suc (suc (suc (suc (suc k)))))) name h = ground arith

-- A name that is not one of the six leaves the logger as it is.
abbrev Sets : Text → Logger → Logger → Type 0
Sets name l l' =
    ((k : ℕ) × (nth_name level_names k ≡ some name) × (l' ≡ get_logger name none))
    ⊎ (All (λ n. n ≢ name) level_names × (l' ≡ l))

placed :
    (name : Text) (l : Logger) (r : Option ℕ)
    → Placed 0 name level_names r
    → Sets name l (at_level r l)
placed name l r (inl (k, e, h)) =
    inl (k, h, ap (λ o. at_level o l) (e ∙ ap some (omega arith)) ∙ sym (nth_name-IsLevel k name h))
placed name l r (inr (e, h)) = inr (h, ap (λ o. at_level o l) e)

-- `SetLevel` of one of the six names of levels makes the logger that a start with this name in
-- XLOG_LVL makes, and of any other text it leaves the logger as it was.
set_level-get_logger :
    (name : Text) (l : Logger)
    → ((k : ℕ) × (nth_name level_names k ≡ some name) × (set_level name l ≡ get_logger name none))
      ⊎ (All (λ n. n ≢ name) level_names × (set_level name l ≡ l))
unfolding set_level
set_level-get_logger name l =
    placed name l (index_from 0 name level_names) (index_from-Placed 0 name level_names)
