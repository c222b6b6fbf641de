-- ===== src/Tests/Versions.antt =====
-- The order of versions at concrete ones.
use ccoms.Prelude.{
  ℕ, ℤ, pos, ◌-◌, ◌≤◌, ◌≡◌, ◌≢◌, ◌↔◌, Bool, arith, refl, true, Option, none, some, [], ◌∷◌,
}
use ccoms.Errors.{ok}
use ccoms.Text.{Text, codes, split}
use ccoms.Info.{Triple, numbers, three_parts, parse_int64, is_newer_version}
use ccoms.Info.Order.{Newer, is_newer_version-Newer}

-- Numbers of one digit.
abbrev digit : Text → Option ℤ
digit [] = none
digit (c ∷ []) = some (pos (c - 48))
digit (c ∷ d ∷ s) = none

newer_patch :
    is_newer_version digit (codes "1.2.4") (codes "1") (codes "1.2.3") (codes "2") ≡ ok true
unfolding is_newer_version three_parts split parse_int64
newer_patch = refl

newer_dist :
    is_newer_version digit (codes "1.2.3") (codes "2") (codes "1.2.3") (codes "1") ≡ ok true
unfolding is_newer_version three_parts split parse_int64
newer_dist = refl

abbrev newer_parts : Triple
newer_parts = (codes "1", codes "2", codes "4")

abbrev older_parts : Triple
older_parts = (codes "1", codes "2", codes "3")

digit_not_dot : (c : ℕ) → 47 ≤ c → c ≢ b'.'
digit_not_dot c h e = omega arith

is_newer_version-Newer_example :
    (r : Bool) × (is_newer_version digit (codes "1.2.4") (codes "1") (codes "1.2.3") (codes "2")
      ≡ ok r)
    × ((r ≡ true)
        ↔ Newer (numbers digit newer_parts (codes "1")) (numbers digit older_parts (codes "2")))
is_newer_version-Newer_example =
    is_newer_version-Newer digit newer_parts older_parts (codes "1") (codes "2")
      (
        (digit_not_dot _ (omega arith), tt),
        (digit_not_dot _ (omega arith), tt),
        (digit_not_dot _ (omega arith), tt),
      )
      (
        (digit_not_dot _ (omega arith), tt),
        (digit_not_dot _ (omega arith), tt),
        (digit_not_dot _ (omega arith), tt),
      )
