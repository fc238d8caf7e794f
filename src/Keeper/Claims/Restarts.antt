-- ===== src/Keeper/Claims/Restarts.antt =====
-- The claims file: what is in memory is on disk, so that a restart changes nothing.
use everdraw.Base.{
  ℕ, ◌≡◌, refl, String, Option, none, some, List, [], ◌∷◌, ◌++◌, ok, Dict, lookup, Bool-cases, inl,
  inr,
}
use everdraw.Keeper.Claims.{
  open_state, sessions, File, Entry, quarantined, retrying, ClaimRetryState, parsed, read,
  state_version, quarantine, record_failure, clear_failure, Op, quarantines, fails, clears, step,
  run, holds_quarantine,
}

abbrev pub join : List (List Op) → List Op
join [] = []
join (ops ∷ opss) = ops ++ join opss

-- What is in memory is what the state file reads as; no file reads as no claims.
pub record IsSaved (s : ClaimRetryState) : Type 0 where
  pub saved : read s.file ≡ ok s.claims

written : (claims : Dict Entry) → read (parsed state_version (some claims)) ≡ ok claims
unfolding read
written claims = refl

record_failure-IsSaved :
    (o : Option Entry) (s : ClaimRetryState) (j : String) (d : ℕ) (m : String) (now : ℕ)
    → IsSaved s
    → IsSaved (record_failure o s j d m now).0
unfolding record_failure
record_failure-IsSaved none s j d m now h = record { saved = written _ }
record_failure-IsSaved (some (quarantined _ _ _ _ _)) s j d m now h = h
record_failure-IsSaved (some (retrying _ _ _ _)) s j d m now h = record { saved = written _ }

clear_failure-IsSaved :
    (o : Option Entry) (s : ClaimRetryState) (j : String)
    → IsSaved s
    → IsSaved (clear_failure o s j).0
unfolding clear_failure
clear_failure-IsSaved none s j h = h
clear_failure-IsSaved (some (quarantined _ _ _ _ _)) s j h = h
clear_failure-IsSaved (some (retrying _ _ _ _)) s j h = record { saved = written _ }

quarantine-IsSaved :
    (s : ClaimRetryState) (j : String) (d : ℕ) (sel name m : String) (now : ℕ)
    → IsSaved s
    → IsSaved (quarantine s j d sel name m now).0
unfolding quarantine
quarantine-IsSaved s j d sel name m now h =
    elim (Bool-cases (holds_quarantine (lookup j s.claims))) [
      | inl e ↦ rw e h
      | inr e ↦ rw e (record { saved = written _ })
    ]

step-IsSaved : (s : ClaimRetryState) (op : Op) → IsSaved s → IsSaved (step s op)
unfolding step
step-IsSaved s (quarantines j d sel name m now) h = quarantine-IsSaved s j d sel name m now h
step-IsSaved s (fails j d m now) h = record_failure-IsSaved (lookup j s.claims) s j d m now h
step-IsSaved s (clears j) h = clear_failure-IsSaved (lookup j s.claims) s j h

run-IsSaved : (ops : List Op) (s : ClaimRetryState) → IsSaved s → IsSaved (run s ops)
unfolding run
run-IsSaved [] s h = h
run-IsSaved (op ∷ ops) s h = run-IsSaved ops (step s op) (step-IsSaved s op h)

open_state-IsSaved : (s : ClaimRetryState) → IsSaved s → open_state s.file ≡ ok s
unfolding open_state
open_state-IsSaved s h = rw h.saved

run-append : (xs ys : List Op) (s : ClaimRetryState) → run s (xs ++ ys) ≡ run (run s xs) ys
unfolding run
run-append [] ys s = refl
run-append (x ∷ xs) ys s = run-append xs ys (step s x)

sessions-IsSaved :
    (opss : List (List Op)) (s : ClaimRetryState)
    → IsSaved s
    → sessions s.file opss ≡ ok (run s (join opss))
unfolding sessions run
sessions-IsSaved [] s h = open_state-IsSaved s h
sessions-IsSaved (ops ∷ opss) s h =
    rw (open_state-IsSaved s h, run-append ops (join opss) s)
      (sessions-IsSaved opss (run s ops) (run-IsSaved ops s h))

-- A keeper that starts on a file it can read, or on none, and is started again any number of times
-- between its calls, has in the end the claims and the file of one that ran through all the calls.
pub sessions-run :
    (file : File) (claims : Dict Entry) (opss : List (List Op))
    → read file ≡ ok claims
    → sessions file opss ≡ ok (run (record { claims = claims; file = file }) (join opss))
sessions-run file claims opss start =
    sessions-IsSaved opss (record { claims = claims; file = file }) (record { saved = start })
