-- ===== src/Info.antt =====
-- pkg/info/info.go: the settings of the environment, and which of two versions is newer.
-- `strconv.ParseInt` in base 10 is a parameter.
pub mod Order
use ccoms.Prelude.{
  ℤ, pos, ◌==ℤ◌, ltb_ℤ, Bool, false, not, ◌&&◌, Option, none, some, List, [], ◌∷◌, if◌then◌else◌,
}
use ccoms.Errors.{Result, ok, err, invalid_version}
use ccoms.Text.{Text, codes, split, text_eq}

-- `init`: what the two variables of the environment, empty where they are not set, come to.
unfoldable pub env_mode : Text → Text
env_mode [] = codes "development"
env_mode (c ∷ s) = c ∷ s

unfoldable pub env_color : Text → Bool
env_color [] = false
env_color (c ∷ s) = not (text_eq (c ∷ s) (codes "false")) && not (text_eq (c ∷ s) (codes "0"))

-- The three parts of a version.
abbrev pub Triple : Type 0
Triple = Text × Text × Text

unfoldable pub three_parts : List Text → Option Triple
three_parts [] = none
three_parts (a ∷ []) = none
three_parts (a ∷ b ∷ []) = none
three_parts (a ∷ b ∷ c ∷ []) = some (a, b, c)
three_parts (a ∷ b ∷ c ∷ d ∷ l) = none

abbrev pub by_numbers : ℤ × ℤ × ℤ × ℤ → ℤ × ℤ × ℤ × ℤ → Bool
by_numbers (a0, a1, a2, da) (b0, b1, b2, db) =
    if a0 ==ℤ b0
    then (if a1 ==ℤ b1 then (if a2 ==ℤ b2 then ltb_ℤ db da else ltb_ℤ b2 a2) else ltb_ℤ b1 a1)
    else ltb_ℤ b0 a0

module _ (parse_int : Text → Option ℤ) where
  abbrev or_zero : Option ℤ → ℤ
  or_zero none = pos 0
  or_zero (some n) = n

  unfoldable pub parse_int64 : Text → ℤ
  parse_int64 s = or_zero (parse_int s)

  abbrev pub numbers : Triple → Text → ℤ × ℤ × ℤ × ℤ
  numbers (a, b, c) dist = (parse_int64 a, parse_int64 b, parse_int64 c, parse_int64 dist)

  abbrev pub compared : Option Triple → Text → Option Triple → Text → Result Bool
  compared none da q db = err invalid_version
  compared (some a) da none db = err invalid_version
  compared (some a) da (some b) db = ok (by_numbers (numbers a da) (numbers b db))

  -- `IsNewerVersion`
  unfoldable pub is_newer_version : Text → Text → Text → Text → Result Bool
  unfolding three_parts parse_int64
  is_newer_version ver_a dist_a ver_b dist_b =
      compared (three_parts (split b'.' ver_a)) dist_a (three_parts (split b'.' ver_b)) dist_b
