-- ===== src/Errors.antt =====
-- The `error` values of the program. An error of Go is `some e`, and `nil` is `none`.
use ccoms.Prelude.{◌≡◌, ◌≢◌, some, none, arith}

pub data Error : Type 0 where
  invalid_symbol invalid_order_side invalid_version only_for_coin : Error
  order_exists ticket_not_continuous : Error
  bad_decimal marshal_failed unmarshal_failed bad_metadata : Error
  mkdir_failed open_failed file_closed write_failed end_of_file : Error
  invalid_app empty_coin empty_symbol : Error
  not_found connect_failed stream_closed database_failed : Error

-- A value, or an error: the two results of a Go function that writes no state.
pub data Result {ℓ} (A : Type ℓ) : Type ℓ where
  ok : A → Result A
  err : Error → Result A

infixl 5 ◌>>=◌
abbrev pub ◌>>=◌ {ℓ κ} : {A : Type ℓ} {B : Type κ} → Result A → (A → Result B) → Result B
ok a >>= f = f a
err e >>= f = err e

pub ok-injective {ℓ} : {A : Type ℓ} {a b : A} → ok a ≡ ok b → a ≡ b
ok-injective e = cc

pub err≢ok {ℓ} : {A : Type ℓ} (e : Error) (a : A) → err e ≢ ok a
err≢ok e a h = ground arith

pub no_error {ℓ} : {A : Type ℓ} {x : Error} → some x ≡ none → A
no_error h = ground arith
