-- ===== src/Extern/Json.antt =====
-- `encoding/json` on one type of records: a parameter of the components that write and read lines.
-- The laws are the documented behaviour that the program relies on: what was marshalled is read
-- back, and the text of an object is one line, with no line feed in it and a brace at each end.
use ccoms.Prelude.{◌≡◌, ◌≢◌, false, Option, some, [], ◌∷◌, All}
use ccoms.Text.{Text, is_blank}

abbrev pub StartsSolid : Text → Type 0
StartsSolid [] = ⊥
StartsSolid (c ∷ s) = is_blank c ≡ false

abbrev pub EndsSolid : Text → Type 0
EndsSolid [] = ⊥
EndsSolid (c ∷ []) = is_blank c ≡ false
EndsSolid (c ∷ d ∷ s) = EndsSolid (d ∷ s)

pub record IsLine (s : Text) : Type 0 where
  pub starts : StartsSolid s
  pub ends : EndsSolid s
  pub one_line : All (λ c. c ≢ 10) s

pub record Json (A : Type 0) : Type 0 where
  pub marshal : A → Option Text
  pub unmarshal : Text → Option A
  pub unmarshal-marshal : (a : A) (s : Text) → marshal a ≡ some s → unmarshal s ≡ some a
  pub marshal-IsLine : (a : A) (s : Text) → marshal a ≡ some s → IsLine s
