-- ===== src/Tests/Acknowledging.antt =====
-- The acknowledging task of the bank on three rounds.
use ccoms.Prelude.{ℤ, pos, ◌≡◌, true, false, none, some, List, [], ◌∷◌, arith}
use ccoms.Bank.Acks.{Round, ack_rounds}
use ccoms.Bank.Acks.Coverage.{IsStream, Acknowledges, ack_rounds-Acknowledges}

-- 4 comes again before 5, and the second acknowledgement fails.
abbrev rounds : List Round
rounds =
    record { mp = pos 3; more = pos 4 ∷ []; acks = true }
    ∷ record { mp = pos 5; more = pos 4 ∷ []; acks = false }
    ∷ record { mp = pos 6; more = []; acks = true }
    ∷ []

rounds-IsStream : IsStream rounds
rounds-IsStream =
    ((omega arith, (omega arith, tt)), ((omega arith, (omega arith, tt)), ((omega arith, tt), tt)))

ack_rounds-Acknowledges_example :
    (acks : List ℤ) × ((ack_rounds rounds none ≡ some acks) × Acknowledges rounds acks)
ack_rounds-Acknowledges_example = ack_rounds-Acknowledges rounds rounds-IsStream
