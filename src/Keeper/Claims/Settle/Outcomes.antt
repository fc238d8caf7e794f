-- ===== src/Keeper/Claims/Settle/Outcomes.antt =====
-- What one attempt leaves, on each of its ways out, and when the operator is alerted.
use everdraw.Base.{
  map, ℕ, suc, ◌+◌, ◌<◌, ◌≡◌, refl, String, Bool, true, false, Option, none, some, List, [], ◌∷◌,
  arith, Result, ok, err, ◌>>=◌, lookup, eq_refl, if◌then◌else◌, ◌==◌, ltb, leb, ◌&&◌, All, length,
}
use everdraw.Keeper.Claims.{
  Entry, quarantined, retrying, ClaimRetryState, ThresholdError, quarantine,
  record_transient_failure, clear_transient_failure, is_quarantined, holds_quarantine, failures_of,
  reached_transient_alert_threshold, record_failure,
}
use everdraw.Keeper.Claims.Errors.{ClaimError, Terminal, terminal_claim_error}
use everdraw.Keeper.Claims.Quarantine.{lookup-quarantine, lookup-fails, lookup-clears, holds_retry}
use everdraw.Keeper.Claims.Settle.{Attempt, claim_finalized_draw_safely, settle_claim}

failures-record_failure :
    (o : Option Entry) (s : ClaimRetryState) (key : String) (d : ℕ) (m : String) (now : ℕ)
    → holds_quarantine o ≡ false
    → failures_of (some (record_failure o s key d m now).1) ≡ failures_of o + 1
unfolding record_failure
failures-record_failure none s key d m now h = refl
failures-record_failure (some (quarantined _ _ _ _ _)) s key d m now h = cc
failures-record_failure (some (retrying _ _ _ _)) s key d m now h = refl

cleared_none :
    (o : Option Entry)
    → holds_quarantine o ≡ false
    → (if holds_retry o && true then none else o) ≡ none
cleared_none none h = refl
cleared_none (some (quarantined _ _ _ _ _)) h = cc
cleared_none (some (retrying _ _ _ _)) h = refl

-- Why an attempt failed that may be retried.
abbrev pub IsTransient : ClaimError → Type 0
IsTransient e = terminal_claim_error e ≡ none

module _ (key : String) (draw_id threshold now : ℕ) (message : ClaimError → String) where
  abbrev pub entry : Attempt → Option Entry
  entry a = lookup key a.state.claims

  -- A quarantined claim is not attempted.
  abbrev pub Free : Attempt → Type 0
  Free a = holds_quarantine (entry a) ≡ false

  -- What an attempt that failed with `e` leaves in `b`.
  pub record Retried (a b : Attempt) : Type 0 where
    pub free : Free b
    pub counted : failures_of (entry b) ≡ failures_of (entry a) + 1
    pub alerted :
        b.failure_pings
        ≡ a.failure_pings + (if failures_of (entry a) + 1 == threshold then 1 else 0)

  -- A failure that may pass leaves the claim to be retried, counts one more failure, and alerts the
  -- operator exactly if the count has come to the threshold. The draw loop goes on.
  pub settle_transient :
      (a : Attempt) (e : ClaimError)
      → 0 < threshold
      → Free a
      → IsTransient e
      → (b : Attempt) × (settle_claim key draw_id threshold now message (err e) a ≡ ok (b, false))
        × Retried a b
  unfolding settle_claim claim_finalized_draw_safely is_quarantined record_transient_failure
      reached_transient_alert_threshold
  settle_transient a e p free t =
      let valid : (threshold == 0) ≡ false = ground arith in
      let count = failures-record_failure (entry a) a.state key draw_id (message e) now free in
      let found = lookup-fails a.state key key draw_id (message e) now in
      let (s', recorded) = record_transient_failure a.state key draw_id (message e) now in
      (
        record {
          state = s';
          failure_pings =
              if failures_of (some recorded) == threshold
              then a.failure_pings + 1
              else a.failure_pings;
        },
        rw (free, claim_finalized_draw_safely, t, valid),
        record {
          free = rw (found, free, eq_refl key);
          counted = rw (found, free, eq_refl key);
          alerted = rw count (ground arith);
        },
      )

  -- The attempts of several rounds, one after another.
  pub settle_all : List (Result ClaimError Bool) → Attempt → Result ThresholdError Attempt
  settle_all [] a = ok a
  settle_all (c ∷ cs) a = do
    r ← settle_claim key draw_id threshold now message c a
    settle_all cs r.0

  one_more :
      (k n : ℕ)
      → (if k + 1 == threshold then 1 else 0)
          + (if ltb (k + 1) threshold && leb threshold (k + 1 + n) then 1 else 0)
        ≡ (if ltb k threshold && leb threshold (k + suc n) then 1 else 0)
  one_more k n = ground arith

  -- However often a claim fails in a row, the operator is alerted once: by the failure that brings
  -- the count to the threshold. The counter is the number of failures.
  pub settle_all_alerts :
      (es : List ClaimError) (a : Attempt)
      → 0 < threshold
      → Free a
      → All IsTransient es
      → (b : Attempt) × (settle_all (map err es) a ≡ ok b)
        × (failures_of (entry b) ≡ failures_of (entry a) + length es)
        × (b.failure_pings
            ≡ a.failure_pings
              + (if ltb (failures_of (entry a)) threshold
                    && leb threshold (failures_of (entry a) + length es)
                  then 1
                  else 0))
  unfolding settle_all
  settle_all_alerts [] a p free ts = (a, refl, omega arith, ground arith)
  settle_all_alerts (e ∷ es) a p free ts =
      let (mid, run, h) = settle_transient a e p free ts.0 in
      let (b, runs, count, pings) = settle_all_alerts es mid p h.free ts.1 in
      (
        b,
        rw run runs,
        omega (arith, count, h.counted),
        omega
            (arith, rw h.counted at pings, h.alerted, one_more (failures_of (entry a)) (length es)),
      )

  -- An error that no retry can mend quarantines the claim under the error's name, without an alert,
  -- and from then on the claim is skipped.
  pub settle_terminal :
      (a : Attempt) (e : ClaimError) (t : Terminal) (next : Result ClaimError Bool)
      → Free a
      → terminal_claim_error e ≡ some t
      → (b : Attempt) × (settle_claim key draw_id threshold now message (err e) a ≡ ok (b, false))
        × (entry b ≡ some (quarantined draw_id t.selector t.name (message e) now))
        × (b.failure_pings ≡ a.failure_pings)
        × (settle_claim key draw_id threshold now message next b ≡ ok (b, false))
  unfolding settle_claim claim_finalized_draw_safely is_quarantined
  settle_terminal a e t next free term =
      let s' = (quarantine a.state key draw_id t.selector t.name (message e) now).0 in
      let held : lookup key s'.claims
          ≡ some (quarantined draw_id t.selector t.name (message e) now) =
        rw (
          lookup-quarantine a.state key key draw_id t.selector t.name (message e) now,
          free,
          eq_refl key,
        ) in
      (record a { state = s' }, rw (free, claim_finalized_draw_safely, term), held, refl, rw held)

  -- A claim that goes through forgets the failures before it, and gives back its result.
  pub settle_success :
      (a : Attempt) (result : Bool)
      → Free a
      → (b : Attempt) × (settle_claim key draw_id threshold now message (ok result) a
          ≡ ok (b, result))
        × (entry b ≡ none)
        × (b.failure_pings ≡ a.failure_pings)
  unfolding settle_claim claim_finalized_draw_safely is_quarantined
  settle_success a result free = (
    record a { state = (clear_transient_failure a.state key).0 },
    rw free,
    rw (lookup-clears a.state key key, eq_refl key) (cleared_none (entry a) free),
    refl,
  )
