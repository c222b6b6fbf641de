-- ===== src/Dict.antt =====
-- Go's maps as association lists with one entry for a key, over keys with a decided equality.
use ccoms.Prelude.{
  ℤ, ◌==ℤ◌, ==ℤ_iff, ◌≡◌, refl, ◌↔◌, Bool, true, Option, none, some, List, [], ◌∷◌, arith,
  if◌then◌else◌,
}
use ccoms.Text.{Text, text_eq, text_eq_iff}

pub record Eq (A : Type 0) : Type 0 where
  pub beq : A → A → Bool
  pub beq_iff : (a b : A) → (beq a b ≡ true) ↔ (a ≡ b)

abbrev int_beq : ℤ → ℤ → Bool
int_beq a b = a ==ℤ b

instance abbrev pub int_eq : Eq ℤ
int_eq = record { beq = int_beq; beq_iff = ==ℤ_iff }

instance abbrev pub str_eq : Eq Text
str_eq = record { beq = text_eq; beq_iff = text_eq_iff }

abbrev pub Dict : Type 0 → Type 0 → Type 0
Dict K V = List (K × V)

module _ {K V : Type 0} ⦃e : Eq K⦄ where
  -- `v, ok := d[k]`
  unfoldable pub lookup : K → Dict K V → Option V
  lookup k [] = none
  lookup k ((j, v) ∷ d) = if e.beq k j then some v else lookup k d

  -- `d[k] = v`
  unfoldable pub insert : K → V → Dict K V → Dict K V
  insert k v [] = (k, v) ∷ []
  insert k v ((j, w) ∷ d) = if e.beq k j then (k, v) ∷ d else (j, w) ∷ insert k v d

  -- `d[k]`, with the zero value `z` where the key is missing
  unfoldable pub get_or : K → V → Dict K V → V
  get_or k z d = elim (lookup k d) [ none ↦ z | some v ↦ v ]

  pub lookup-insert :
      (j k : K) (v : V) (d : Dict K V)
      → lookup j (insert k v d) ≡ (if e.beq j k then some v else lookup j d)
  unfolding lookup insert
  lookup-insert j k v [] = refl
  lookup-insert j k v ((i, w) ∷ d) =
      ground
        (arith, e.beq_iff j k, e.beq_iff k i, e.beq_iff j i, e.beq_iff k k, lookup-insert j k v d)

  pub get_or-insert :
      (j k : K) (z v : V) (d : Dict K V)
      → get_or j z (insert k v d) ≡ (if e.beq j k then v else get_or j z d)
  unfolding get_or
  get_or-insert j k z v d = ground (arith, lookup-insert j k v d)
