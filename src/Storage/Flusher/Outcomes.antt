-- ===== src/Storage/Flusher/Outcomes.antt =====
-- What admission leaves: predicates on computations that may stop at an error of the clock.
use liven.Prelude.{ℕ, ◌≡◌, ℤ}
use liven.Error.{LivenError, Result, ok, err}
use liven.Storage.Flusher.{Admission, Outcome, and_then}

-- `Q` holds of what a computation that did not fail leaves.
abbrev pub Ensures : (Admission → Type 0) → Outcome → Type 0
Ensures Q (ok _, a) = Q a
Ensures Q (err _, a) = Unit

pub Ensures-and_then :
    (Q R : Admission → Type 0) (o : Outcome) (k : Admission → Outcome)
    → Ensures Q o
    → ((a : Admission) → Q a → Ensures R (k a))
    → Ensures R (and_then o k)
Ensures-and_then Q R (ok u, a) k h f = f a h
Ensures-and_then Q R (err e, a) k h f = tt

-- The same of a computation that reads the clock, and whose only error is one that the clock gave.
abbrev pub Ends : (ℕ → Result LivenError ℤ) → (Admission → Type 0) → Outcome → Type 0
Ends now Q (ok _, a) = Q a
Ends now Q (err e, a) = (n : ℕ) × (now n ≡ err e)

pub Ends-and_then :
    (now : ℕ → Result LivenError ℤ) (Q R : Admission → Type 0) (o : Outcome)
    (k : Admission → Outcome)
    → Ends now Q o
    → ((a : Admission) → Q a → Ends now R (k a))
    → Ends now R (and_then o k)
Ends-and_then now Q R (ok u, a) k h f = f a h
Ends-and_then now Q R (err e, a) k h f = h

pub Ends-Ensures :
    (now : ℕ → Result LivenError ℤ) (Q : Admission → Type 0) (o : Outcome)
    → Ends now Q o
    → Ensures Q o
Ends-Ensures now Q (ok u, a) h = h
Ends-Ensures now Q (err e, a) h = tt
