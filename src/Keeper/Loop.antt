-- ===== src/Keeper/Loop.antt =====
-- scripts/keeper-v5.js, `runOnce` with `firstRecentDrawId` and `claimDrawIds`: one round of the
-- keeper. The settings that are read from the environment, the deployment file and the key of a
-- draw's claim are the fields of `Settings`; that the RPC URL and the key are set is taken for
-- granted, and the log lines are left out.
pub mod DrawIds
pub mod Guards
mod Tests
use everdraw.Base.{
  ℕ, zero, suc, ◌+◌, ◌-◌, String, Bool, true, false, not, ◌&&◌, ◌||◌, Option, none, some, List, [],
  ◌∷◌, ◌++◌, map, ltb, add_ids, leb, ◌==◌, if◌then◌else◌, has, sort, pos, Result, ok, err,
}
use everdraw.Keeper.Thresholds.{
  Inputs, Thresholds, Error, negative_input, bad_headroom, derive_keeper_balance_thresholds,
}
use everdraw.Keeper.Claims.{is_quarantined, ThresholdError}
use everdraw.Keeper.Claims.Errors.{ClaimError}
use everdraw.Keeper.Claims.Settle.{
  Attempt, claim_finalized_draw_safely, on_success, on_terminal, on_transient,
}
use everdraw.Keeper.Actions.{
  Query, Chain, State, Action, ◌>>=◌, ◌>>◌, try_catch, give, throw, error, on_world, error_message,
  rpc_read, chain_id, block_number, balance, code_of, wired, randomness_oracle, oracle_fee,
  current_draw_id, draw_status,
}
use everdraw.Keeper.Lifecycle.{Config, raise, ask, maybe_start_draw}
use everdraw.Keeper.Settlement.{maybe_finalize, maybe_claim, reconcile_lifecycle_draw}

pub first_recent_draw_id : (current size : ℕ) → Result ClaimError ℕ
first_recent_draw_id current size =
    if size == 0
    then err (error "Invalid recent draw window")
    else ok (if ltb size current then current - size + 1 else 1)

-- `for (let drawId = first; drawId <= current; drawId++)`: `n` numbers from `first` on.
pub count_from : ℕ → ℕ → List ℕ
count_from first zero = []
count_from first (suc n) = first ∷ count_from (suc first) n

pub claim_draw_ids : List ℕ → (first current : ℕ) → List ℕ
claim_draw_ids finalized first current =
    sort (add_ids (add_ids [] finalized) (count_from first (current + 1 - first)))

abbrev pub of_thresholds : Result Error Thresholds → Result ClaimError Thresholds
of_thresholds (ok t) = ok t
of_thresholds (err negative_input) =
    err (error "keeper balance threshold inputs must be non-negative")
of_thresholds (err bad_headroom) = err (error "keeper balance draw headroom is invalid")

-- The addresses that the getters must answer, and those that the deployment names.
pub record Settings : Type 0 where
  pub config : Config
  pub addresses : List ℕ
  pub wiring : List (String × ℕ)
  pub thresholds : Inputs
  pub recent_claim_window : ℕ
  pub alert_threshold : ℕ
  pub state_key : ℕ → String
  pub now : ℕ

module _ {W : Type 0} (chain : Chain W) (settings : Settings) where
  abbrev pub config : Config
  config = settings.config

  -- Each address of the deployment has bytecode.
  pub check_code : List ℕ → Action W (Unit {0})
  check_code [] = give tt
  check_code (a ∷ addresses) = do
    code ← ask chain config "getCode" (code_of a)
    if code == 0 then throw (error "Activated deployment has no bytecode") else check_code addresses

  pub read_wiring : List (String × ℕ) → Action W (List (ℕ × ℕ))
  read_wiring [] = give []
  read_wiring (g ∷ getters) = do
    actual ← ask chain config g.0 (wired g.0)
    rest ← read_wiring getters
    give ((actual, g.1) ∷ rest)

  -- `assertWiredAddress` of each; a flag that must be set is the number 1.
  pub assert_wired : List (ℕ × ℕ) → Action W (Unit {0})
  assert_wired [] = give tt
  assert_wired (p ∷ pairs) =
      if p.0 == p.1 then assert_wired pairs else throw (error "does not match activated deployment")

  pub check_balance : Action W (Unit {0})
  check_balance = do
    fee ←
        try_catch
          (ask chain config "manager.randomnessOracle" randomness_oracle >>= λ oracle.
            rpc_read "oracle.getFee(balance threshold)" 0
              (on_world (chain.query (oracle_fee oracle))))
          (λ e. give 0)
    t ← raise (
        of_thresholds (
          derive_keeper_balance_thresholds
            (record settings.thresholds { oracle_fee_wei = pos fee })))
    held ← ask chain config "readProvider.getBalance" (balance config.signer_address)
    if ltb held t.floor_wei then throw (error "keeper balance low") else give tt

  pub preflight : Action W (Unit {0})
  preflight = do
    network ← ask chain config "readProvider.getNetwork" chain_id
    if not (network == config.expected_chain_id) then throw (error "wrong chain id") else give tt
    check_code settings.addresses
    pairs ← read_wiring settings.wiring
    assert_wired pairs
    check_balance
    latest ← ask chain config "readProvider.getBlockNumber" block_number
    on_world (chain.sync_participants latest)

  -- The pass that finalizes: `n` draws from `draw_id` on, and those that it finalized.
  pub finalize_pass : ℕ → ℕ → Action W (List ℕ)
  finalize_pass draw_id zero = give []
  finalize_pass draw_id (suc n) = do
    status ← ask chain config "manager.draws" (draw_status draw_id)
    finalized ← (if status == 3 then maybe_finalize chain config draw_id else give false)
    rest ← finalize_pass (suc draw_id) n
    give (if finalized then draw_id ∷ rest else rest)

  -- The pass over the outstanding draws. It proposes one root at most.
  pub outstanding_pass : Bool → ℕ → ℕ → Action W Bool
  outstanding_pass proposed draw_id zero = give false
  outstanding_pass proposed draw_id (suc n) = do
    status ← ask chain config "manager.draws" (draw_status draw_id)
    did_act ←
        (if not ((status == 1) || (status == 2)) || ((status == 2) && proposed)
          then give false
          else reconcile_lifecycle_draw chain config draw_id status)
    rest ← outstanding_pass (proposed || (did_act && (status == 2))) (suc draw_id) n
    give (rest || did_act)

  -- What the handlers leave.
  pub settled : Result ThresholdError (Attempt × Bool) → Action W Bool
  settled (ok r) s = (ok r.1, record s { attempt = r.0 })
  settled (err e) s = (err (error "invalid transient claim alert threshold"), s)

  -- `claimFinalizedDrawSafely` with its handlers, given what `maybeClaim` returned or threw.
  pub settle : ℕ → Result ClaimError Bool → Action W Bool
  settle draw_id claim s =
      let key = settings.state_key draw_id in
      settled
        (claim_finalized_draw_safely claim
          (on_success key draw_id settings.alert_threshold settings.now error_message)
          (on_terminal key draw_id settings.alert_threshold settings.now error_message)
          (on_transient key draw_id settings.alert_threshold settings.now error_message) s.attempt)
        s

  -- `await claim()`, with what it threw.
  pub try_claim : ℕ → Action W (Result ClaimError Bool)
  try_claim draw_id s = let (r, s') = maybe_claim chain config draw_id s in (ok r, s')

  pub claim_draw : ℕ → Action W Bool
  claim_draw draw_id s =
      (if is_quarantined s.attempt.state (settings.state_key draw_id)
          then give false
          else (ask chain config "manager.draws" (draw_status draw_id) >>= λ status.
              if status == 4 then (try_claim draw_id >>= settle draw_id) else give false))
        s

  pub claim_pass : List ℕ → Action W Bool
  claim_pass [] = give false
  claim_pass (draw_id ∷ draws) = do
    claimed ← claim_draw draw_id
    rest ← claim_pass draws
    give (rest || claimed)

  -- The passes after the first draw has been started.
  pub passes : ℕ → Action W Bool
  passes current = do
    finalized ← finalize_pass 1 current
    started ← maybe_start_draw chain config
    after_start ← ask chain config "manager.currentDrawId" current_draw_id
    acted ← outstanding_pass false 1 after_start
    first ← raise (first_recent_draw_id after_start settings.recent_claim_window)
    claimed ← claim_pass (claim_draw_ids finalized first after_start)
    give (claimed || (acted || (started || has (λ _. true) finalized)))

  pub run_once : Action W Bool
  run_once = do
    preflight
    current ← ask chain config "manager.currentDrawId" current_draw_id
    if current == 0 then maybe_start_draw chain config else passes current
