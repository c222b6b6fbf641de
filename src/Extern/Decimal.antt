-- ===== src/Extern/Decimal.antt =====
-- `github.com/shopspring/decimal`: exact decimal numbers, taken up to their value (`String` does not
-- depend on trailing zeros). The laws are those of exact arithmetic and of the printed form.
use ccoms.Prelude.{ℤ, pos, negsuc, ◌≡◌, Bool, true, Option, some, ◌∷◌}
use ccoms.Text.{Text}

pub record Decimal : Type 1 where
  pub D : Type 0
  pub Float : Type 0
  pub zero : D
  pub add : D → D → D
  pub sub : D → D → D
  pub neg : D → D
  pub mul : D → D → D
  pub equal : D → D → Bool
  pub new : ℤ → ℤ → D
  pub new_from_big_int : ℤ → ℤ → D
  pub new_from_float : Float → D
  pub big_int : D → ℤ
  pub to_string : D → Text
  pub new_from_string : Text → Option D
  pub add_comm : (a b : D) → add a b ≡ add b a
  pub add_assoc : (a b c : D) → add (add a b) c ≡ add a (add b c)
  pub add-zero : (a : D) → add a zero ≡ a
  pub add-neg : (a : D) → add a (neg a) ≡ zero
  pub sub-add : (a b : D) → sub a b ≡ add a (neg b)
  pub equal-eq : (a b : D) → equal a b ≡ true → a ≡ b
  pub equal_refl : (a : D) → equal a a ≡ true
  pub from-to_string : (a : D) → new_from_string (to_string a) ≡ some a
  -- A number that is printed with no sign is negated by a minus sign before it.
  pub is_negative : D → Bool
  pub from-minus :
      (a : D) → is_negative a ≡ Bool.false → new_from_string (b'-' ∷ to_string a) ≡ some (neg a)
  -- A whole number of 10^-12 units, scaled by 10^12, has that number as its integer part.
  pub big_int-scaled :
      (i : ℤ) → big_int (mul (new_from_big_int i (negsuc 11)) (new (pos 1) (pos 12))) ≡ i
