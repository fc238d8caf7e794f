-- ===== src/Keeper/Claims/Settle.antt =====
-- scripts/keeper/claim-isolation.mjs, `claimFinalizedDrawSafely`, with the handlers that runOnce of
-- scripts/keeper-v5.js gives it: what one attempt to claim a draw leaves behind. The texts that are
-- logged and stored are arguments. A throw ends the run; what was written before it stays on disk,
-- which the result does not show.
pub mod Outcomes
use everdraw.Base.{
  ℕ, suc, ◌+◌, ◌≡◌, ◌≢◌, refl, ap, sym, ◌∙◌, String, Bool, true, false, Option, none, some, List,
  [], ◌∷◌, ◌++◌, arith, Result, ok, err, ◌>>=◌, lookup, str_eq, eq_iff, eq_refl, if◌then◌else◌,
  ◌==◌, Option-cases, Bool-cases, inl, inr, length,
}
use everdraw.Keeper.Claims.{
  Entry, quarantined, retrying, ClaimRetryState, ThresholdError, quarantine,
  record_transient_failure, clear_transient_failure, is_quarantined, holds_quarantine, failures_of,
  next_failure, reached_transient_alert_threshold, record_failure,
}
use everdraw.Keeper.Claims.Errors.{ClaimError, Terminal, terminal_claim_error}
use everdraw.Keeper.Claims.Quarantine.{lookup-quarantine, lookup-fails, lookup-clears, holds_retry}

-- `claim` is what the attempt gave; a handler changes the state, and may throw.
pub claim_finalized_draw_safely :
    {S E : Type 0}
    → Result ClaimError Bool
    → (Bool → S → Result E S)
    → (ClaimError → Terminal → S → Result E S)
    → (ClaimError → S → Result E S)
    → S
    → Result E (S × Bool)
claim_finalized_draw_safely (ok result) on_success on_terminal on_transient s = do
  s' ← on_success result s
  ok (s', result)
claim_finalized_draw_safely (err e) on_success on_terminal on_transient s =
    elim (terminal_claim_error e) [
      | none ↦ (on_transient e s >>= λ s'. ok (s', false))
      | some t ↦ (on_terminal e t s >>= λ s'. ok (s', false))
    ]

-- The claim state, and the failure pings that the health check was sent.
pub record Attempt : Type 0 where
  pub state : ClaimRetryState
  pub failure_pings : ℕ

module _ (key : String) (draw_id threshold now : ℕ) (message : ClaimError → String) where
  pub on_success : Bool → Attempt → Result ThresholdError Attempt
  on_success result a = ok (record a { state = (clear_transient_failure a.state key).0 })

  pub on_terminal : ClaimError → Terminal → Attempt → Result ThresholdError Attempt
  on_terminal e t a =
      ok (record a { state = (quarantine a.state key draw_id t.selector t.name (message e) now).0 })

  abbrev pub retry_failures : Entry → ℕ
  retry_failures e = failures_of (some e)

  pub on_transient : ClaimError → Attempt → Result ThresholdError Attempt
  on_transient e a = do
    let recorded = record_transient_failure a.state key draw_id (message e) now
    reached ← reached_transient_alert_threshold (retry_failures recorded.1) threshold
    ok (record {
      state = recorded.0;
      failure_pings = if reached then a.failure_pings + 1 else a.failure_pings;
    })

  -- One draw of the claim loop that is finalized: skipped while quarantined, else attempted.
  pub settle_claim : Result ClaimError Bool → Attempt → Result ThresholdError (Attempt × Bool)
  unfolding claim_finalized_draw_safely on_success on_terminal on_transient
  settle_claim claim a =
      if is_quarantined a.state key
      then ok (a, false)
      else claim_finalized_draw_safely claim on_success on_terminal on_transient a
