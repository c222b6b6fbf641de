-- ===== src/App/Signals.antt =====
-- cmd/main/main.go: `handleSignals`, which is to change the level of the log while the program runs.
-- Its goroutine makes the channel of levels, which has no buffer, and alone holds it.
use ccoms.Prelude.{◌≡◌, ◌≢◌, refl, ◌∙◌, Bool, true, false, [], arith}
use ccoms.Text.{Text}
use ccoms.Xlog.{Logger, set_level}

-- Where the goroutine stands: at the `select`, or at the send `logLevelChan <- level`.
pub data Place : Type 0 where
  selecting : Place
  sending : Text → Place

-- `pending` is the buffer of `sigChan`, which holds one signal.
pub record State : Type 0 where
  pub place : Place
  pub pending : Bool
  pub logger : Logger

abbrev pub start : Logger → State
start l = record { place = selecting; pending = false; logger = l }

-- The state with the signal taken, and the level on its way.
abbrev pub taken : Text → State → State
taken env s = record s { place = sending env; pending = false }

-- One step, where `env` is the value of XLOG_LVL in the environment of the process. A signal that
-- finds the buffer full is dropped. A send over a channel with no buffer goes on with a receiver
-- that waits at the other end: here the receiver is the `select` of the same goroutine.
pub data Step (env : Text) (s : State) : State → Type 0 where
  notify : Step env s (record s { pending = true })
  no_level :
      s.place ≡ selecting → s.pending ≡ true → env ≡ [] → Step env s (record s { pending = false })
  take : s.place ≡ selecting → s.pending ≡ true → env ≢ [] → Step env s (taken env s)
  pass :
      (level : Text)
      → s.place ≡ sending level
      → s.place ≡ selecting
      → Step env s (record s { place = selecting; logger = set_level level s.logger })

pub data Reach (env : Text) (s : State) : State → Type 0 where
  here : Reach env s s
  next : {t u : State} → Reach env s t → Step env t u → Reach env s u

-- The goroutine is never at both ends of its channel.
not_both : (p : Place) (level : Text) → p ≡ sending level → p ≢ selecting
not_both p level e h = ground arith

Step-logger : {env : Text} {s t : State} → Step env s t → t.logger ≡ s.logger
Step-logger notify = refl
Step-logger (no_level p q e) = refl
Step-logger (take p q e) = refl
Step-logger {s = s} (pass level p q) = absurd (not_both s.place level p q)

Reach-logger : {env : Text} {s t : State} → Reach env s t → t.logger ≡ s.logger
Reach-logger here = refl
Reach-logger (next r st) = Step-logger st ∙ Reach-logger r

Step-sending :
    {env level : Text} {s t : State}
    → s.place ≡ sending level
    → Step env s t
    → t.place ≡ sending level
Step-sending h notify = h
Step-sending {s = s} h (no_level p q e) = absurd (not_both s.place _ h p)
Step-sending {s = s} h (take p q e) = absurd (not_both s.place _ h p)
Step-sending {s = s} h (pass level p q) = absurd (not_both s.place level p q)

Reach-sending :
    {env level : Text} {s t : State}
    → s.place ≡ sending level
    → Reach env s t
    → t.place ≡ sending level
Reach-sending h here = h
Reach-sending h (next r st) = Step-sending (Reach-sending h r) st

-- The goroutine that waits with a signal at hand and a level in the environment can take it, and
-- from then on it is at its send for ever, whatever signals come, with the level of the log as it
-- was: the handler waits for itself.
pub handle_signals_blocks :
    {env : Text} {s u : State}
    → s.place ≡ selecting
    → s.pending ≡ true
    → env ≢ []
    → Reach env (taken env s) u
    → Step env s (taken env s) × (u.place ≡ sending env) × (u.logger ≡ s.logger)
handle_signals_blocks p q ne r = (take p q ne, Reach-sending refl r, Reach-logger r)
