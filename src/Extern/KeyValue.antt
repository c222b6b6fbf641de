-- ===== src/Extern/KeyValue.antt =====
-- etcd, as far as the program relies on it: after a `Put` that has succeeded the key has the value,
-- and every other key has what it had.
use ccoms.Prelude.{◌≡◌, Option, none, some, if◌then◌else◌}
use ccoms.Errors.{Error}
use ccoms.Text.{Text, text_eq}

pub record KeyValue : Type 1 where
  pub State : Type 0
  pub put : Text → Text → State → State × Option Error
  pub held : Text → State → Option Text
  pub held-put :
      (j k v : Text) (s : State)
      → (put k v s).1 ≡ none
      → held j (put k v s).0 ≡ (if text_eq j k then some v else held j s)
