-- ===== src/App/Load/Counting.antt =====
-- The counter of `startIngress` (cmd/main/main.go) and its wait group.
use ccoms.Prelude.{
  ℕ, suc, ◌+◌, ◌≤◌, ◌<◌, ℤ, ◌≡◌, refl, ap, ◌∙◌, Option, none, some, List, [], ◌∷◌, All, length,
  ◌==◌, if◌then◌else◌, arith,
}
use ccoms.Errors.{Error, Result}
use ccoms.Text.{Text}
use ccoms.Dict.{Dict}
use ccoms.Extern.Decimal.{Decimal}
use ccoms.Extern.Json.{Json}
use ccoms.Bank.Structs.{OrderReq}
use ccoms.Ingress.{dispatch_bank, send_order_req}
use ccoms.App.Load.{answers, one, count_sent}

abbrev Ones : List ℕ → Type 0
Ones ns = All (λ n. n ≡ 1) ns

-- Ones that stay below the target, and may then reach it.
count_sent-Ones :
    (target : ℕ) (ones : List ℕ) (sent : ℕ)
    → Ones ones
    → sent < target
    → sent + length ones ≤ target
    → count_sent target ones (sent, 0)
      ≡ (sent + length ones, if sent + length ones == target then 1 else 0)
unfolding count_sent
count_sent-Ones target [] sent h lt le = ground arith
count_sent-Ones target (n ∷ []) sent h lt le = ground arith
count_sent-Ones target (n ∷ m ∷ ns) sent h lt le =
    ground (arith, h.0, count_sent-Ones target (m ∷ ns) (sent + 1) h.1)

module _ {Js : Type 0} (M : Decimal) (json : Json (OrderReq M)) (from_int : ℤ → M.D) (fee : M.Float)
    (etcd : ℕ → Text → Result (List Text)) (connect : ℕ → Text → Result Js)
    (publish : Js → Text → Text → Option Error) where
  one-eq :
      (r : Dict Text Js × Option (Text × Text) × Option Error)
      → one M json from_int fee etcd connect publish r ≡ 1
  one-eq (nats, sent, none) = refl
  one-eq (nats, sent, some e) = refl

  abbrev told : Dict Text Js → List (ℕ × OrderReq M) → List ℕ
  told nats os = answers M json from_int fee etcd connect publish nats os

  answers-Ones : (nats : Dict Text Js) (os : List (ℕ × OrderReq M)) → Ones (told nats os)
  unfolding answers
  answers-Ones nats [] = tt
  answers-Ones nats ((t, o) ∷ os) = (
    one-eq
        (send_order_req M json (etcd t) (connect t) publish (dispatch_bank o.symbol o.side) o nats),
    answers-Ones nats os,
  )

  length-answers :
      (nats : Dict Text Js) (os : List (ℕ × OrderReq M)) → length (told nats os) ≡ length os
  unfolding answers
  length-answers nats [] = refl
  length-answers nats ((t, o) ∷ os) = ap suc (length-answers nats os)

  -- Whenever the orders are sent and whichever fail, after at most as many of them as are to be sent
  -- the counter has the number of the orders, and it has called `wg.Done` once if these are all, and
  -- not before.
  pub count_sent-answers :
      (target : ℕ) (nats : Dict Text Js) (os : List (ℕ × OrderReq M))
      → 0 < target
      → length os ≤ target
      → count_sent target (answers M json from_int fee etcd connect publish nats os) (0, 0)
        ≡ (length os, if length os == target then 1 else 0)
  count_sent-answers target nats os lt le =
      let n = length-answers nats os in
      let all : 0 + length (told nats os) ≡ length os = omega arith in
      count_sent-Ones target (told nats os) 0 (answers-Ones nats os) lt (omega arith)
      ∙ ap (λ k. (k, if k == target then 1 else 0)) all
