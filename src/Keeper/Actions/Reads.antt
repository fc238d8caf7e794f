-- ===== src/Keeper/Actions/Reads.antt =====
-- `rpcRead`: how often a call is tried, and what comes of it.
use Prim.Native.String.{◌++◌ as ◌<>◌}
use everdraw.Base.{
  ℕ, zero, suc, ◌≤◌, ◌≡◌, refl, true, false, arith, String, Result, ok, err, Bool-cases, inl, inr,
  ◌⊎◌,
}
use everdraw.Keeper.Claims.Errors.{ClaimError}
use everdraw.Keeper.Actions.{State, Action, error, error_message, is_twab_not_finalized, rpc_read}

-- What a call gave.
result_cases :
    {W A : Type 0} (r : Result ClaimError A × State W)
    → ((a : A) × (u : State W) × (r ≡ (ok a, u)))
      ⊎ ((e : ClaimError) × (u : State W) × (r ≡ (err e, u)))
result_cases (ok a, u) = inl (a, u, refl)
result_cases (err e, u) = inr (e, u, refl)

module _ {W A : Type 0} (call : Action W A) where
  -- The call threw `k` times in a row, from `s` to `t`, each time an error that is tried again.
  pub data Failing : ℕ → State W → State W → Type 0 where
    none_yet : (s : State W) → Failing zero s s
    once_more :
        (k : ℕ) (s u t : State W) (e : ClaimError)
        → call s ≡ (err e, u)
        → is_twab_not_finalized e ≡ false
        → Failing k u t
        → Failing (suc k) s t

  -- How a read from `s` ends.
  pub data Outcome (label : String) (retries : ℕ) (s : State W) (r : Result ClaimError A × State W)
      : Type 0 where
    answers :
        (k : ℕ) (t u : State W) (a : A)
        → k ≤ retries
        → Failing k s t
        → call t ≡ (ok a, u)
        → r ≡ (ok a, u)
        → Outcome label retries s r
    not_finalized :
        (k : ℕ) (t u : State W) (e : ClaimError)
        → k ≤ retries
        → Failing k s t
        → call t ≡ (err e, u)
        → is_twab_not_finalized e ≡ true
        → r ≡ (err e, u)
        → Outcome label retries s r
    gives_up :
        (t u : State W) (e : ClaimError)
        → Failing retries s t
        → call t ≡ (err e, u)
        → is_twab_not_finalized e ≡ false
        → r ≡ (err (error (label <> (" failed: " <> error_message e))), u)
        → Outcome label retries s r

  later :
      (label : String) (retries : ℕ) (s u : State W) (e : ClaimError)
      (r : Result ClaimError A × State W)
      → call s ≡ (err e, u)
      → is_twab_not_finalized e ≡ false
      → Outcome label retries u r
      → Outcome label (suc retries) s r
  later label retries s u e r c f (answers k t v a le fails ran same) =
      answers (suc k) t v a (omega (arith, le)) (once_more k s u t e c f fails) ran same
  later label retries s u e r c f (not_finalized k t v x le fails ran twab same) =
      not_finalized (suc k) t v x (omega (arith, le)) (once_more k s u t e c f fails) ran twab same
  later label retries s u e r c f (gives_up t v x fails ran other same) =
      gives_up t v x (once_more retries s u t e c f fails) ran other same

  -- A read is tried until it answers, until it throws that the TWABs are not final yet, which is
  -- thrown on at once as it is, or until it has thrown `retries + 1` times, when it gives up with an
  -- error that names the read and the last error.
  pub rpc_read_lem :
      (label : String) (retries : ℕ) (s : State W)
      → Outcome label retries s (rpc_read label retries call s)
  unfolding rpc_read
  rpc_read_lem label zero s = elim (result_cases (call s)) [
    | inl (a, u, ran) ↦ answers 0 s u a (omega arith) (none_yet s) ran (rw ran)
    | inr (e, u, ran) ↦ elim (Bool-cases (is_twab_not_finalized e)) [
      | inl twab ↦ not_finalized 0 s u e (omega arith) (none_yet s) ran twab (rw (ran, twab))
      | inr other ↦ gives_up s u e (none_yet s) ran other (rw (ran, other))
    ]
  ]
  rpc_read_lem label (suc n) s = elim (result_cases (call s)) [
    | inl (a, u, ran) ↦ answers 0 s u a (omega arith) (none_yet s) ran (rw ran)
    | inr (e, u, ran) ↦ elim (Bool-cases (is_twab_not_finalized e)) [
      | inl twab ↦ not_finalized 0 s u e (omega arith) (none_yet s) ran twab (rw (ran, twab))
      | inr other ↦
          let rest = rpc_read_lem label n u in
          later label n s u e _ ran other (rw (ran, other) rest)
    ]
  ]
