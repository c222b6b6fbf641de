-- ===== src/Extern/Floats.antt =====
-- `float64`, as far as the program calculates with it. An integer of at most 2^53 is exact, and so
-- is a product of integers that stays below.
use ccoms.Prelude.{ℤ, pos, negsuc, ◌*ℤ◌, ◌≤ℤ◌, ◌≡◌}

-- The integers that every `float64` operation gives back as they are.
abbrev pub IsExact : ℤ → Type 0
IsExact n = (negsuc 9007199254740991 ≤ℤ n) × (n ≤ℤ pos 9007199254740992)

pub record Floats (F : Type 0) : Type 0 where
  -- `float64(n)`, `x * y` and `int64(x)`.
  pub of_int : ℤ → F
  pub times : F → F → F
  pub to_int : F → ℤ
  pub to_int-times :
      (m n : ℤ)
      → IsExact m
      → IsExact n
      → IsExact (m *ℤ n)
      → to_int (times (of_int m) (of_int n)) ≡ m *ℤ n
