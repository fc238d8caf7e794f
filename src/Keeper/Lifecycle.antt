-- ===== src/Keeper/Lifecycle.antt =====
-- scripts/keeper-v5.js: `send`, `maybeStartDraw` and `maybeRerequestSeed`, and what `maybeClaim`
-- makes of the leaves: those still to claim, in batches.
pub mod Guards
pub mod Batches
use everdraw.Base.{
  ℕ, zero, suc, ◌+◌, ◌*◌, ◌/◌, String, Bool, true, false, not, ◌&&◌, ◌||◌, Option, none, some, List,
  [], ◌∷◌, map, ltb, leb, ◌==◌, if◌then◌else◌, length, get_or, take, drop, every, Result, ok, err,
  or_throw,
}
use everdraw.Draw.Input.{
  RawInput, Error, bad_bytes32, negative_uint, bad_address, bad_tiers, winner_search_exhausted,
  out_of_range,
}
use everdraw.Draw.Leaves.{Keccak, Leaf, Output, compute}
use everdraw.Keeper.Claims.Errors.{ClaimError}
use everdraw.Keeper.Actions.{
  randomness_oracle, Query, Tx, Preview, Distribution, Chain, Event, State, Action, ◌>>=◌, ◌>>◌,
  try_catch, give, throw, error, on_world, is_twab_not_finalized, is_insufficient_oracle_fee,
  rpc_read, note, chain_id, write_chain_id, timestamp, next_period_start, draw_period, oracle_fee,
  seed_request_timeout, primary_proposer, draw_status, seed_requested_at, challenge_ends_at,
  is_claimed, start_draw, rerequest_seed, propose_root, finalize_root, claim_many, answered,
  submitted,
}

pub record Config : Type 0 where
  pub expected_chain_id : ℕ
  pub rpc_retries : ℕ
  pub claim_batch_size : ℕ
  pub signer_address : ℕ
  pub keccak : Keccak
  pub get_address : String → Option ℕ

-- `bufferedOracleFee`.
unfoldable pub buffered_oracle_fee : ℕ → ℕ
buffered_oracle_fee fee = fee * 3 / 2

abbrev pub draw_error : Error → ClaimError
draw_error bad_bytes32 = error "expected bytes32"
draw_error negative_uint = error "negative uint"
draw_error bad_address = error "invalid address"
draw_error bad_tiers = error "tierBps must sum to 10000"
draw_error winner_search_exhausted = error "winner search exhausted"
draw_error out_of_range = error "value out-of-bounds"

abbrev pub raise : {W A : Type 0} → Result ClaimError A → Action W A
raise (ok a) = give a
raise (err e) = throw e

abbrev pub of_draw : {A : Type 0} → Result Error A → Result ClaimError A
of_draw (ok a) = ok a
of_draw (err e) = err (draw_error e)

-- `slice(i, i + size)` for i = 0, size, ... ; with a size of 0 the loop does
-- not end, and here it gives empty batches until the fuel is used up.
pub batches : {A : Type 0} → ℕ → ℕ → List A → List (List A)
batches size fuel [] = []
batches size zero (x ∷ xs) = []
batches size (suc fuel) (x ∷ xs) = take size (x ∷ xs) ∷ batches size fuel (drop size (x ∷ xs))

-- The leaves whose flag is not set, with their proofs, which stand in the leaves' order. A leaf
-- number past the flags counts as not claimed.
pub unclaimed : List Bool → List Leaf → List (List ℕ) → List (Leaf × List ℕ)
unclaimed flags (leaf ∷ leaves) proofs =
    let rest = unclaimed flags leaves (drop 1 proofs) in
    if get_or flags leaf.leaf_index false then rest else (leaf, get_or proofs 0 []) ∷ rest
unclaimed flags [] proofs = []

module _ {W : Type 0} (chain : Chain W) (config : Config) where
  -- `rpcRead` of one call, and what it answered.
  unfoldable pub ask : String → Query → Action W ℕ
  ask label q = do
    n ← rpc_read label config.rpc_retries (on_world (chain.query q))
    note (answered q n)
    give n

  unfoldable pub send : String → Tx → Action W (Unit {0})
  send label tx = do
    network ← ask "writeProvider.getNetwork" write_chain_id
    if not (network == config.expected_chain_id)
        then throw (error "wrong write chain id")
        else give tt
    note (submitted tx)
    status ← on_world (chain.submit tx)
    if status == 1 then give tt else throw (error "reverted")

  -- `catch` of the first submission: what `maybeStartDraw` does about each error.
  pub start_draw_failed : ClaimError → Action W Bool
  start_draw_failed e =
      if is_twab_not_finalized e
      then give false
      else if is_insufficient_oracle_fee e
      then (ask "manager.randomnessOracle" randomness_oracle >>= λ oracle.
          ask "oracle.getFee" (oracle_fee oracle) >>= λ fee.
          send "startDraw" (start_draw (buffered_oracle_fee fee)) >> give true)
      else throw e

  unfoldable pub start_due_draw : Preview → Action W Bool
  start_due_draw preview =
      let value = if preview.will_skip then 0 else buffered_oracle_fee preview.required_fee in
      try_catch (send "startDraw" (start_draw value) >> give true) start_draw_failed

  -- `none` where the period's TWABs are not final yet.
  unfoldable pub start_previewed : Option Preview → Action W Bool
  start_previewed none = give false
  start_previewed (some preview) = if preview.due then start_due_draw preview else give false

  unfoldable pub maybe_start_draw : Action W Bool
  maybe_start_draw = do
    now ← ask "provider.getBlock(latest)" timestamp
    start ← ask "manager.nextPeriodStart" next_period_start
    period ← ask "manager.drawPeriod" draw_period
    if ltb now (start + period) then give false else do
      preview ←
          try_catch
            (rpc_read "manager.previewStartDraw" config.rpc_retries (on_world chain.preview)
              >>= λ p. give (some p))
            (λ e. if is_twab_not_finalized e then give none else throw e)
      start_previewed preview

  -- `status` is the status of the draw as its caller read it.
  pub maybe_rerequest_seed : ℕ → ℕ → Action W Bool
  maybe_rerequest_seed draw_id status = if not (status == 1) then give false else do
    now ← ask "provider.getBlock(latest)" timestamp
    requested_at ← ask "manager.seedRequestedAt" (seed_requested_at draw_id)
    timeout ← ask "manager.seedRequestTimeout" seed_request_timeout
    if (requested_at == 0) || ltb now (requested_at + timeout) then give false else do
      oracle ← ask "manager.randomnessOracle" randomness_oracle
      fee ← ask "oracle.getFee" (oracle_fee oracle)
      send "rerequestSeed" (rerequest_seed draw_id fee)
      give true
