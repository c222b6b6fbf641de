-- ===== src/Bank/Acks.antt =====
-- pkg/bank/bank.go: the task of `HandleBankMsgs` that acknowledges the messages, as many at once as
-- have come. NATS takes an acknowledgement for all messages up to its sequence number.
pub mod Coverage
use ccoms.Prelude.{
  ℤ, pos, ltb_ℤ, Bool, true, false, Option, none, some, List, [], ◌∷◌, if◌then◌else◌,
}

-- `latest`: at the start it has no message, and the number 0.
abbrev pub seq_of : Option ℤ → ℤ
seq_of none = pos 0
seq_of (some n) = n

unfoldable pub gathered : Option ℤ → List ℤ → Option ℤ
gathered latest [] = latest
gathered latest (mp ∷ mps) = gathered (if ltb_ℤ (seq_of latest) mp then some mp else latest) mps

unfoldable pub last_seq : ℤ → List ℤ → ℤ
last_seq mp [] = mp
last_seq mp (n ∷ ns) = last_seq n ns

-- One round: the message it waits for, those that are there by then, and whether `Ack` succeeds.
pub record Round : Type 0 where
  pub mp : ℤ
  pub more : List ℤ
  pub acks : Bool

-- `latest` after the round: the last message received, or if `Ack` has failed the greatest.
unfoldable pub latest_after : Round → ℤ → ℤ
unfolding last_seq
latest_after r top = if r.acks then last_seq r.mp r.more else top

abbrev pub acked : ℤ → Option (List ℤ) → Option (List ℤ)
acked top none = none
acked top (some l) = some (top ∷ l)

abbrev pub after_round : Round → (Option ℤ → Option (List ℤ)) → Option ℤ → Option (List ℤ)
after_round r rest none = none
after_round r rest (some top) = acked top (rest (some (latest_after r top)))

-- The sequence numbers that are acknowledged; `none` is a panic, since there is no message.
unfoldable pub ack_rounds : List Round → Option ℤ → Option (List ℤ)
unfolding gathered latest_after
ack_rounds [] latest = some []
ack_rounds (r ∷ rs) latest = after_round r (λ l. ack_rounds rs l) (gathered latest (r.mp ∷ r.more))
