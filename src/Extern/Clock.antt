-- ===== src/Extern/Clock.antt =====
-- `time.Now()`: what the calls to come answer, in seconds and in nanoseconds.
use ccoms.Prelude.{ℕ, ℤ}

pub record Clock : Type 0 where
  pub unix : ℕ → ℤ
  pub unix_nano : ℕ → ℤ
  pub calls : ℕ
