-- ===== src/Tests/Libraries.antt =====
-- Concrete libraries: a B-tree as a sorted list, decimals as whole numbers of 10^-12.
use ccoms.Prelude.{
  ◌+◌, ◌-◌, ◌^◌, ℤ, pos, negsuc, pos_part, neg_part, ◌+ℤ◌, ◌-ℤ◌, ◌*ℤ◌, div_ℕ, ◌==ℤ◌, ==ℤ_iff, ltb_ℤ,
  int_laws, ◌≡◌, refl, Bool, true, false, Option, none, some, List, [], ◌∷◌, arith, length,
}
use ccoms.Text.{Text}
use ccoms.Extern.BTree.{BTree, first, last, put, remove, found}
use ccoms.Extern.Decimal.{Decimal}

module _ {A : Type 0} (less : A → A → Bool) where
  abbrev pub list_tree : BTree A less
  list_tree = record {
    Tree = List A;
    new_tree = [];
    replace_or_insert = put less;
    delete = remove less;
    has = found less;
    min = first;
    max = last;
    len = length;
    items = λ l. l;
    items-new = refl;
    items-insert = λ a t s p. refl;
    items-delete = λ a t s p. refl;
    has-found = λ a t s p. refl;
    min-first = λ t. refl;
    max-last = λ t. refl;
    len-length = λ t. refl;
  }

abbrev pub scale : ℤ → ℤ → ℤ
scale v e = v *ℤ pos (10 ^ (pos_part e + 12 - neg_part e))

abbrev pub int_mul : ℤ → ℤ → ℤ
int_mul a b = div_ℕ (a *ℤ b) 1000000000000

abbrev pub int_string : ℤ → Text
int_string (pos n) = (100 + n) ∷ []
int_string (negsuc n) = b'-' ∷ (101 + n) ∷ []

abbrev pub int_of_string : Text → Option ℤ
int_of_string [] = none
int_of_string (c ∷ []) = some (pos (c - 100))
int_of_string (c ∷ d ∷ []) = some (pos 0 -ℤ pos (d - 100))
int_of_string (c ∷ d ∷ e ∷ s) = none

abbrev pub negative : ℤ → Bool
negative a = ltb_ℤ a (pos 0)

pub int_eq_refl : (a : ℤ) → (a ==ℤ a) ≡ true
int_eq_refl a = ground arith

pub from-to_int : (a : ℤ) → int_of_string (int_string a) ≡ some a
unfolding ◌-ℤ◌
from-to_int (pos n) = ground arith
from-to_int (negsuc n) = ground arith

pub minus_string :
    (a : ℤ) → negative a ≡ false → int_of_string (b'-' ∷ int_string a) ≡ some (pos 0 -ℤ a)
minus_string (pos n) h = ground arith
minus_string (negsuc n) h = ground arith

pub scaled_back :
    (i : ℤ) → div_ℕ (int_mul (scale i (negsuc 11)) (scale (pos 1) (pos 12))) 1000000000000 ≡ i
unfolding div_ℕ ◌*ℤ◌
scaled_back (pos n) = ground arith
scaled_back (negsuc n) = ground arith

pub add_law : (a b : ℤ) → a +ℤ b ≡ b +ℤ a
add_law a b = omega int_laws

pub assoc_law : (a b c : ℤ) → a +ℤ b +ℤ c ≡ a +ℤ (b +ℤ c)
assoc_law a b c = omega int_laws

pub zero_law : (a : ℤ) → a +ℤ pos 0 ≡ a
zero_law a = omega int_laws

pub neg_law : (a : ℤ) → a +ℤ (pos 0 -ℤ a) ≡ pos 0
neg_law a = omega int_laws

pub sub_law : (a b : ℤ) → a -ℤ b ≡ a +ℤ (pos 0 -ℤ b)
sub_law a b = omega int_laws

abbrev pub int_decimal : Decimal
int_decimal = record {
  D = ℤ;
  Float = ℤ;
  zero = pos 0;
  add = ◌+ℤ◌;
  sub = ◌-ℤ◌;
  neg = λ a. pos 0 -ℤ a;
  mul = int_mul;
  equal = ◌==ℤ◌;
  new = scale;
  new_from_big_int = scale;
  new_from_float = λ f. f;
  big_int = λ d. div_ℕ d 1000000000000;
  to_string = int_string;
  new_from_string = int_of_string;
  add_comm = λ a b. add_law a b;
  add_assoc = λ a b c. assoc_law a b c;
  add-zero = λ a. zero_law a;
  add-neg = λ a. neg_law a;
  sub-add = λ a b. sub_law a b;
  equal-eq = λ a b. (==ℤ_iff a b).0;
  equal_refl = int_eq_refl;
  from-to_string = from-to_int;
  is_negative = negative;
  from-minus = minus_string;
  big_int-scaled = scaled_back;
}
