-- ===== src/Keeper/Settlement.antt =====
-- scripts/keeper-v5.js: `computeWithPythonParity`, `maybePropose`, `maybeFinalize`, `maybeClaim` and
-- `reconcileLifecycleDraw`, which take a draw from its seed to its claims.
pub mod Guards
use everdraw.Base.{
  ℕ, zero, suc, ◌+◌, String, Bool, true, false, not, ◌&&◌, ◌||◌, Option, none, some, List, [], ◌∷◌,
  map, ltb, ◌==◌, if◌then◌else◌, length, every, or_throw,
}
use everdraw.Draw.Input.{RawInput}
use everdraw.Draw.Leaves.{Keccak, Leaf, Output, compute}
use everdraw.Keeper.Claims.Errors.{ClaimError}
use everdraw.Keeper.Actions.{
  Query, Tx, Distribution, Chain, State, Action, ◌>>=◌, ◌>>◌, give, throw, error, on_world,
  rpc_read, timestamp, primary_proposer, draw_status, challenge_ends_at, is_claimed, propose_root,
  finalize_root, claim_many,
}
use everdraw.Keeper.Lifecycle.{
  Config, raise, of_draw, batches, unclaimed, ask, send, maybe_rerequest_seed,
}

-- What the keeper uses of a computation: the root, the leaves and the proofs. The routines' fuel never
-- runs out, so the error for that is never thrown.
pub record Computed : Type 0 where
  pub root : ℕ
  pub leaf_count : ℕ
  pub total_payout : ℕ
  pub leaves : List Leaf
  pub proofs : List (List ℕ)

module _ {W : Type 0} (chain : Chain W) (config : Config) where
  pub compute_with_python_parity : RawInput → Action W Computed
  compute_with_python_parity input = do
    out ← raise (of_draw (compute config.keccak config.get_address input))
    root ← raise (or_throw out.root (error "fuel"))
    proofs ← raise (or_throw out.proofs (error "fuel"))
    python ← on_world (chain.python_root input)
    if not (python.0 == root) || not (python.1 == length out.leaves)
        then throw (error "JS/Python root parity failed")
        else give (record {
          root = root;
          leaf_count = out.leaf_count;
          total_payout = out.total_payout;
          leaves = out.leaves;
          proofs = proofs;
        })

  pub maybe_propose : ℕ → Action W Bool
  maybe_propose draw_id = do
    status ← ask chain config "manager.draws" (draw_status draw_id)
    if not (status == 2) then give false else do
      primary ← ask chain config "manager.primaryProposer" primary_proposer
      if not (primary == 0) && not (primary == config.signer_address) then give false else do
        input ← on_world (chain.draw_input draw_id)
        result ← compute_with_python_parity input
        if length result.leaves == 0 then throw (error "draw computed zero leaves") else do
          send chain config "proposeRoot"
              (propose_root draw_id result.root result.leaf_count result.total_payout)
          give true

  unfoldable pub maybe_finalize : ℕ → Action W Bool
  maybe_finalize draw_id = do
    status ← ask chain config "manager.draws" (draw_status draw_id)
    if not (status == 3) then give false else do
      now ← ask chain config "provider.getBlock(latest)" timestamp
      finalize_after ← ask chain config "manager.challengeEndsAt" (challenge_ends_at draw_id)
      if ltb now finalize_after
          then give false
          else (send chain config "finalizeRoot" (finalize_root draw_id) >> give true)

  -- The flags of the leaves from `leaf_index` on, `n` of them.
  pub claimed_flags : ℕ → ℕ → ℕ → Action W (List Bool)
  claimed_flags draw_id leaf_index zero = give []
  claimed_flags draw_id leaf_index (suc n) = do
    flag ← ask chain config "claimManager.isClaimed" (is_claimed draw_id leaf_index)
    flags ← claimed_flags draw_id (suc leaf_index) n
    give (not (flag == 0) ∷ flags)

  pub claim_batches : ℕ → List (List (Leaf × List ℕ)) → Action W (Unit {0})
  claim_batches draw_id [] = give tt
  claim_batches draw_id (batch ∷ rest) = do
    send chain config "claimMany" (claim_many draw_id (map (λ p. p.0) batch) (map (λ p. p.1) batch))
    claim_batches draw_id rest

  pub claim_unclaimed : ℕ → List Bool → Action W Bool
  claim_unclaimed draw_id flags = do
    input ← on_world (chain.draw_input draw_id)
    result ← compute_with_python_parity input
    let pending = unclaimed flags result.leaves result.proofs
    if length pending == 0
        then give false
        else (claim_batches draw_id (batches config.claim_batch_size (length pending) pending)
            >> give true)

  pub maybe_claim : ℕ → Action W Bool
  maybe_claim draw_id = do
    status ← ask chain config "manager.draws" (draw_status draw_id)
    if not (status == 4) then give false else do
      d ←
          rpc_read "claimManager.distributions" config.rpc_retries
            (on_world (chain.distribution draw_id))
      if d.registered_at == 0
          then throw (record (error "distribution is not registered in configured ClaimManager") {
            own_data = some "0x3a35c2f9";
          })
          else if d.leaf_count == 0
          then throw (error "distribution has invalid leaf count")
          else do
            flags ← claimed_flags draw_id 0 d.leaf_count
            if every (λ b. b) flags then give false else claim_unclaimed draw_id flags

  -- `status` is the status of the draw as its caller read it.
  pub reconcile_lifecycle_draw : ℕ → ℕ → Action W Bool
  reconcile_lifecycle_draw draw_id status =
      if status == 1
      then maybe_rerequest_seed chain config draw_id status
      else if status == 2
      then maybe_propose draw_id
      else if status == 3
      then (maybe_finalize draw_id >>= λ finalized.
          if not finalized then give false else (maybe_claim draw_id >>= λ _. give true))
      else give false
