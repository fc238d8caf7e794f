-- ===== src/Keeper/Claims/Tests.antt =====
-- Runs of the claim state.
use everdraw.Base.{
  map, ◌+◌, ◌≡◌, refl, String, true, false, none, some, List, [], ◌∷◌, arith, ok, err, lookup,
  includes, lower, if◌then◌else◌, not, ◌⊎◌,
}
use everdraw.Keeper.Claims.{
  sessions, Entry, quarantined, retrying, ClaimRetryState, missing, read, Op, quarantines, fails,
  clears, run, quarantine, failures_of, holds_quarantine, is_quarantined, quarantined_count,
}
use everdraw.Keeper.Claims.Quarantine.{run-quarantined, quarantine-count}
use everdraw.Keeper.Claims.Restarts.{join, sessions-run}
use everdraw.Keeper.Claims.Streaks.{run-streak}
use everdraw.Keeper.Claims.Errors.{
  ClaimError, Terminal, error_values, mentions, first_mentioned, search_values,
  terminal_claim_error, IsText, Names, IsLasting, terminal_claim_error_lem,
}
use everdraw.Keeper.Claims.Settle.{Attempt, settle_claim}
use everdraw.Keeper.Claims.Settle.Outcomes.{
  Retried, settle_all, settle_transient, settle_all_alerts, settle_terminal, settle_success, entry,
}

abbrev held : Entry
held = quarantined 7 "0x09bde339" "InvalidProof" "bad proof" 100

abbrev state : ClaimRetryState
state = record {
  claims = ("m:c:7", held) ∷ ("m:c:8", retrying 8 2 "timeout" 90) ∷ [];
  file = missing;
}

abbrev ops : List Op
ops =
    fails "m:c:8" 8 "timeout" 110
    ∷ fails "m:c:7" 7 "timeout" 111
    ∷ clears "m:c:7"
    ∷ quarantines "m:c:9" 9 "0x89d99da3" "BadLeaf" "bad leaf" 112
    ∷ []

run-quarantined_example : lookup "m:c:7" (run state ops).claims ≡ some held
unfolding lookup
run-quarantined_example =
    run-quarantined ops state "m:c:7" 7 "0x09bde339" "InvalidProof" "bad proof" 100 refl

quarantine-count_example :
    let r = quarantine state "m:c:8" 8 "0x89d99da3" "BadLeaf" "bad leaf" 112 in
    (quarantined_count r.0 ≡ quarantined_count state + (if r.1 then 1 else 0))
    × (is_quarantined r.0 "m:c:8" ≡ true)
    × (is_quarantined state "m:c:8" ≡ not r.1)
quarantine-count_example = quarantine-count state "m:c:8" 8 "0x89d99da3" "BadLeaf" "bad leaf" 112

-- A keeper that is started for the first time.
abbrev new_state : ClaimRetryState
new_state = record { claims = []; file = missing }

-- The last keeper only starts.
sessions-run_example :
    sessions missing (ops ∷ (clears "m:c:8" ∷ []) ∷ [] ∷ [])
    ≡ ok (run new_state (join (ops ∷ (clears "m:c:8" ∷ []) ∷ [] ∷ [])))
unfolding read
sessions-run_example = sessions-run missing [] (ops ∷ (clears "m:c:8" ∷ []) ∷ [] ∷ []) refl

run-streak_example :
    (failures_of (lookup "m:c:8" (run state ops).claims) ≡ 3)
    × (holds_quarantine (lookup "m:c:8" (run state ops).claims) ≡ false)
unfolding lookup
run-streak_example = run-streak ops state "m:c:8" refl (tt, (tt, (tt, (refl, tt))))

abbrev timeout : ClaimError
timeout = record {
  own_data = none;
  info_error_data = none;
  error_data = none;
  revert_data = none;
  revert_name = none;
  revert_signature = none;
  revert_arg = none;
  reason = none;
  short_message = none;
  message = some "timeout";
}

abbrev bad_proof : ClaimError
bad_proof = record timeout { own_data = some "0x09BDE339"; message = some "execution reverted" }

terminal_claim_error_lem_example :
    ((t : Terminal) × (terminal_claim_error bad_proof ≡ some t)
      × IsLasting t
      × ((v : String) × IsText bad_proof v × Names v t))
    ⊎ ((terminal_claim_error bad_proof ≡ none)
        × ((v : String) (t : Terminal) → IsText bad_proof v → IsLasting t → Names v t → ⊥))
terminal_claim_error_lem_example = terminal_claim_error_lem bad_proof

abbrev invalid_proof : Terminal
invalid_proof = record { selector = "0x09bde339"; name = "InvalidProof" }

bad_proof_terminal : terminal_claim_error bad_proof ≡ some invalid_proof
unfolding terminal_claim_error search_values first_mentioned mentions includes lower error_values
bad_proof_terminal = refl

timeout_transient : terminal_claim_error timeout ≡ none
unfolding terminal_claim_error search_values first_mentioned mentions includes lower error_values
timeout_transient = refl

abbrev attempt : Attempt
attempt = record { state = state; failure_pings = 0 }

abbrev text : ClaimError → String
text _ = "timeout"

settle_transient_example :
    (b : Attempt) × (settle_claim "m:c:8" 8 3 120 text (err timeout) attempt ≡ ok (b, false))
    × Retried "m:c:8" 8 3 120 text attempt b
unfolding lookup
settle_transient_example =
    settle_transient "m:c:8" 8 3 120 text attempt timeout (omega arith) refl timeout_transient

abbrev failures : List ClaimError
failures = timeout ∷ timeout ∷ timeout ∷ []

settle_all_alerts_example :
    (b : Attempt) × (settle_all "m:c:8" 8 3 120 text (map err failures) attempt ≡ ok b)
    × (failures_of (entry "m:c:8" 8 3 120 text b) ≡ 5)
    × (b.failure_pings ≡ 1)
unfolding lookup
settle_all_alerts_example =
    settle_all_alerts "m:c:8" 8 3 120 text failures attempt (omega arith) refl
      (timeout_transient, (timeout_transient, (timeout_transient, tt)))

settle_terminal_example :
    (b : Attempt) × (settle_claim "m:c:8" 8 3 120 text (err bad_proof) attempt ≡ ok (b, false))
    × (lookup "m:c:8" b.state.claims
        ≡ some (quarantined 8 "0x09bde339" "InvalidProof" "timeout" 120))
    × (b.failure_pings ≡ 0)
    × (settle_claim "m:c:8" 8 3 120 text (ok true) b ≡ ok (b, false))
unfolding lookup
settle_terminal_example =
    settle_terminal "m:c:8" 8 3 120 text attempt bad_proof invalid_proof (ok true) refl
      bad_proof_terminal

settle_success_example :
    (b : Attempt) × (settle_claim "m:c:8" 8 3 120 text (ok true) attempt ≡ ok (b, true))
    × (lookup "m:c:8" b.state.claims ≡ none)
    × (b.failure_pings ≡ 0)
unfolding lookup
settle_success_example = settle_success "m:c:8" 8 3 120 text attempt true refl
