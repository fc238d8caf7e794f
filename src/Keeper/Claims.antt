-- ===== src/Keeper/Claims.antt =====
-- scripts/keeper/claim-isolation.mjs: which draws' claims are retried, and which are given up.
-- Times are numbers. A claims file that holds `null` for its claims is not modelled.
pub mod Errors
pub mod Quarantine
pub mod Streaks
pub mod Settle
pub mod Restarts
mod Tests
use everdraw.Base.{
  ℕ, ◌+◌, String, Bool, true, false, Option, none, some, List, [], ◌∷◌, ◌==◌, if◌then◌else◌, Result,
  ok, err, ◌>>=◌, Dict, lookup, put, remove, count_values,
}

pub data Entry : Type 0 where
  quarantined : (draw_id : ℕ) (selector error message : String) (at : ℕ) → Entry
  retrying : (draw_id failures : ℕ) (message : String) (at : ℕ) → Entry

abbrev pub state_version : ℕ
state_version = 1

-- What stands in the state file, as JSON.parse reads it: that writing a dictionary as JSON and
-- parsing it gives the dictionary again is taken for granted.
pub data File : Type 0 where
  missing : File
  unreadable : File
  parsed : (version : ℕ) → Option (Dict Entry) → File

pub data ReadError : Type 0 where
  not_json unsupported_version : ReadError

-- `state.claims`, and the file that `#write` replaces.
pub record ClaimRetryState : Type 0 where
  pub claims : Dict Entry
  pub file : File

pub read : File → Result ReadError (Dict Entry)
read missing = ok []
read unreadable = err not_json
read (parsed version none) = err unsupported_version
read (parsed version (some claims)) =
    if version == state_version then ok claims else err unsupported_version

-- The constructor.
pub open_state : File → Result ReadError ClaimRetryState
open_state file = read file >>= λ claims. ok (record { claims = claims; file = file })

abbrev pub write : Dict Entry → ClaimRetryState
write claims = record { claims = claims; file = parsed state_version (some claims) }

abbrev pub is_quarantined_entry : Entry → Bool
is_quarantined_entry (quarantined _ _ _ _ _) = true
is_quarantined_entry (retrying _ _ _ _) = false

abbrev pub holds_quarantine : Option Entry → Bool
holds_quarantine none = false
holds_quarantine (some e) = is_quarantined_entry e

pub is_quarantined : ClaimRetryState → String → Bool
is_quarantined s key = holds_quarantine (lookup key s.claims)

pub quarantine :
    ClaimRetryState → String → ℕ → String → String → String → ℕ → ClaimRetryState × Bool
unfolding is_quarantined
quarantine s key draw_id selector name message now =
    if is_quarantined s key
    then (s, false)
    else (write (put key (quarantined draw_id selector name message now) s.claims), true)

-- `Number(existing?.failures || 0)`.
abbrev pub failures_of : Option Entry → ℕ
failures_of (some (retrying _ n _ _)) = n
failures_of _ = 0

abbrev pub next_failure : Option Entry → ℕ → String → ℕ → Entry
next_failure existing draw_id message now = retrying draw_id (failures_of existing + 1) message now

record_failure : Option Entry → ClaimRetryState → String → ℕ → String → ℕ → ClaimRetryState × Entry
record_failure (some (quarantined d sel e m at)) s key draw_id message now =
    (s, quarantined d sel e m at)
record_failure none s key draw_id message now =
    let next = next_failure none draw_id message now in (write (put key next s.claims), next)
record_failure (some (retrying d n m at)) s key draw_id message now =
    let next = next_failure (some (retrying d n m at)) draw_id message now in
    (write (put key next s.claims), next)

pub record_transient_failure : ClaimRetryState → String → ℕ → String → ℕ → ClaimRetryState × Entry
unfolding record_failure
record_transient_failure s key draw_id message now =
    record_failure (lookup key s.claims) s key draw_id message now

clear_failure : Option Entry → ClaimRetryState → String → ClaimRetryState × Bool
clear_failure (some (retrying _ _ _ _)) s key = (write (remove key s.claims), true)
clear_failure (some (quarantined _ _ _ _ _)) s key = (s, false)
clear_failure none s key = (s, false)

pub clear_transient_failure : ClaimRetryState → String → ClaimRetryState × Bool
unfolding clear_failure
clear_transient_failure s key = clear_failure (lookup key s.claims) s key

pub quarantined_count : ClaimRetryState → ℕ
quarantined_count s = count_values is_quarantined_entry s.claims

pub data ThresholdError : Type 0 where
  invalid_threshold : ThresholdError

-- A threshold that is no whole number is not modelled.
pub reached_transient_alert_threshold : ℕ → ℕ → Result ThresholdError Bool
reached_transient_alert_threshold failures threshold =
    if threshold == 0 then err invalid_threshold else ok (failures == threshold)

-- The calls that change the state, with their arguments.
pub data Op : Type 0 where
  quarantines : (key : String) (draw_id : ℕ) (selector name message : String) (now : ℕ) → Op
  fails : (key : String) (draw_id : ℕ) (message : String) (now : ℕ) → Op
  clears : (key : String) → Op

pub step : ClaimRetryState → Op → ClaimRetryState
unfolding quarantine record_transient_failure clear_transient_failure
step s (quarantines key d sel name m now) = (quarantine s key d sel name m now).0
step s (fails key d m now) = (record_transient_failure s key d m now).0
step s (clears key) = (clear_transient_failure s key).0

pub run : ClaimRetryState → List Op → ClaimRetryState
run s [] = s
run s (op ∷ ops) = run (step s op) ops

-- Keepers that run one after the other, each on the file that the last one left.
pub sessions : File → List (List Op) → Result ReadError ClaimRetryState
sessions file [] = open_state file
sessions file (ops ∷ later) = open_state file >>= λ s. sessions (run s ops).file later
